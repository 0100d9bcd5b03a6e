-- ===== src/Infra/Publishers/Tried.antt =====
-- internal/infra/outbox/publisher.go: every publisher is tried.
use order_hub.Prelude.{◌≡◌, refl, arith, Option, none, some, List, [], ◌∷◌, ◌++◌}
use order_hub.Domain.Error.{Err, ok, err}
use order_hub.Domain.Event.{Event}
use order_hub.Infra.Publishers.{Delivery, Publisher, first_of, outcome_of, fan_out_from, fan_out}

-- What all publishers deliver, and the first error among their answers.
abbrev pub deliveries : List (Option Publisher) → Event → List Delivery
deliveries [] ev = []
deliveries (none ∷ pubs) ev = deliveries pubs ev
deliveries (some p ∷ pubs) ev = (p ev).1 ++ deliveries pubs ev

abbrev pub first_error : List (Option Publisher) → Event → Option Err
first_error [] ev = none
first_error (none ∷ pubs) ev = first_error pubs ev
first_error (some p ∷ pubs) ev = elim (p ev).0 [ err e ↦ some e | ok _ ↦ first_error pubs ev ]

-- The first error that was met before, or else the first one still to come.
abbrev or_else : Option Err → Option Err → Option Err
or_else (some e) later = some e
or_else none later = later

fan_out_from-eq :
    (first : Option Err) (pubs : List (Option Publisher)) (ev : Event)
    → fan_out_from first pubs ev
      ≡ (outcome_of (or_else first (first_error pubs ev)), deliveries pubs ev)
unfolding fan_out_from
fan_out_from-eq none [] ev = refl
fan_out_from-eq (some e) [] ev = refl
fan_out_from-eq first (none ∷ pubs) ev = fan_out_from-eq first pubs ev
fan_out_from-eq (some e) (some p ∷ pubs) ev = ground (arith, fan_out_from-eq (some e) pubs ev)
fan_out_from-eq none (some p ∷ pubs) ev =
    ground (arith, fan_out_from-eq (first_of none (p ev).0) pubs ev)

-- A fanout gives the event to each of its publishers, also after one has failed, and fails with the
-- first error among their answers, or not at all.
pub fan_out-eq :
    (pubs : List (Option Publisher)) (ev : Event)
    → fan_out pubs ev ≡ (outcome_of (first_error pubs ev), deliveries pubs ev)
unfolding fan_out
fan_out-eq pubs ev = fan_out_from-eq none pubs ev
