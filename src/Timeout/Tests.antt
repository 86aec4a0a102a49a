-- ===== src/Timeout/Tests.antt =====
-- A run behind the deadline of the assigned task.
use trust_gate.Table.{find}
use trust_gate.Prelude.{inl, ◌≡◌, refl, All, some}
use trust_gate.Server.{World, find_task}
use trust_gate.Timeout.{run_once}
use trust_gate.Timeout.Expiry.{IsExpired, run_once-IsExpired, run_once-keeps}
use trust_gate.Samples.{sample_env, sample_world, open_task}
use trust_gate.Samples.Keys.{sample_tasks-IsKeyed}

abbrev late_world : World
late_world = record sample_world { now = 6000 }

run_once-IsExpired_example :
    let (ids, w') = run_once sample_env late_world in All (IsExpired w') ids
run_once-IsExpired_example = run_once-IsExpired sample_env late_world

run_once-keeps_example : find_task "t1" (run_once sample_env late_world).1 ≡ some open_task
unfolding find
run_once-keeps_example =
    run_once-keeps sample_env late_world "t1" open_task sample_tasks-IsKeyed refl (inl (λ e. cc))
