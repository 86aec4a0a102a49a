-- ===== src/Publisher/Tests.antt =====
-- A batch of two events.
use trust_gate.Prelude.{◌≡◌, ◌∷◌, [], some, All, Option, String}
use trust_gate.Table.{find}
use trust_gate.Outbox.{OutboxEvent, event_id, list_unprocessed}
use trust_gate.Publisher.{Queues, publish_once}
use trust_gate.Publisher.Delivery.{settled, publish_once-settled}
use trust_gate.Samples.{sample_event}
use trust_gate.Samples.Keys.{sample_events-IsKeyed}

abbrev two_events : Queues
two_events = record { outbox = sample_event "e1" ∷ sample_event "e2" ∷ []; stream = [] }

abbrev down : OutboxEvent → Option String
down e = some "down"

publish_once-settled_example :
    let events = list_unprocessed 50 two_events.outbox in
    let (count, q') = publish_once down 1000 50 two_events in
    All (λ (e : OutboxEvent). find event_id e.id q'.outbox ≡ some (settled down 1000 e)) events
publish_once-settled_example = publish_once-settled down 1000 50 two_events sample_events-IsKeyed
