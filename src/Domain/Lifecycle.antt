-- ===== src/Domain/Lifecycle.antt =====
-- internal/domain/statemachine.go and status.go: the diagram of the states, and the lives of an
-- order under `Transition`.
use order_hub.Prelude.{
  ℕ, ◌+◌, ◌^◌, ◌<◌, ◌≡◌, refl, sym, ◌∙◌, ap, ◌⊎◌, inl, inr, ◌↔◌, arith, Bool, true, false, some,
  List, [], ◌∷◌, length, String, eq_iff, Bool-cases,
}
use order_hub.Prelude.Int.{ℤ, pos, ◌+ℤ◌}
use order_hub.Domain.Int64.{add64, wrap64}
use order_hub.Domain.Error.{Result, ok, err, bare, status_not_allowed, ◌>>=◌, >>=-ok_inv}
use order_hub.Domain.Status.{
  Status, pending_pay, paid, fulfilling, completed, cancelled, closed, refunding, refunded,
  partial_refunded, compensating, to_string, all_statuses, find_status, parse_status, transitions,
  can_transition,
}
use order_hub.Domain.Order.{Order, transition}

-- The edges of the diagram of the states.
infix 40 ◌⟶◌
pub data ◌⟶◌ : Status → Status → Type 0 where
  pay : pending_pay ⟶ paid
  cancel : pending_pay ⟶ cancelled
  ship : paid ⟶ fulfilling
  auto_complete : paid ⟶ completed
  compensate : paid ⟶ compensating
  paid_refunding : paid ⟶ refunding
  paid_refunded : paid ⟶ refunded
  paid_partial : paid ⟶ partial_refunded
  paid_closed : paid ⟶ closed
  complete : fulfilling ⟶ completed
  fulfilling_refunding : fulfilling ⟶ refunding
  fulfilling_refunded : fulfilling ⟶ refunded
  fulfilling_partial : fulfilling ⟶ partial_refunded
  fulfilling_closed : fulfilling ⟶ closed
  completed_refunding : completed ⟶ refunding
  completed_refunded : completed ⟶ refunded
  completed_partial : completed ⟶ partial_refunded
  completed_closed : completed ⟶ closed
  refund_all : refunding ⟶ refunded
  refund_part : refunding ⟶ partial_refunded
  back_to_completed : refunding ⟶ completed
  back_to_fulfilling : refunding ⟶ fulfilling
  partial_refunding : partial_refunded ⟶ refunding
  partial_refunded_all : partial_refunded ⟶ refunded
  recover_paid : compensating ⟶ paid
  recover_completed : compensating ⟶ completed
  recover_fulfilling : compensating ⟶ fulfilling

ruleset edges = (
  pay, cancel, ship, auto_complete, compensate, paid_refunding, paid_refunded, paid_partial,
  paid_closed, complete, fulfilling_refunding, fulfilling_refunded, fulfilling_partial,
  fulfilling_closed, completed_refunding, completed_refunded, completed_partial, completed_closed,
  refund_all, refund_part, back_to_completed, back_to_fulfilling, partial_refunding,
  partial_refunded_all, recover_paid, recover_completed, recover_fulfilling,
)

can_transition-⟶ : (s t : Status) → can_transition s t ≡ true → s ⟶ t
unfolding can_transition transitions
can_transition-⟶ pending_pay pending_pay h = cc
can_transition-⟶ pending_pay _ h = first_of (search edges, cc)
can_transition-⟶ paid pending_pay h = cc
can_transition-⟶ paid _ h = first_of (search edges, cc)
can_transition-⟶ fulfilling pending_pay h = cc
can_transition-⟶ fulfilling _ h = first_of (search edges, cc)
can_transition-⟶ completed pending_pay h = cc
can_transition-⟶ completed _ h = first_of (search edges, cc)
can_transition-⟶ cancelled pending_pay h = cc
can_transition-⟶ cancelled _ h = first_of (search edges, cc)
can_transition-⟶ closed pending_pay h = cc
can_transition-⟶ closed _ h = first_of (search edges, cc)
can_transition-⟶ refunding pending_pay h = cc
can_transition-⟶ refunding _ h = first_of (search edges, cc)
can_transition-⟶ refunded pending_pay h = cc
can_transition-⟶ refunded _ h = first_of (search edges, cc)
can_transition-⟶ partial_refunded pending_pay h = cc
can_transition-⟶ partial_refunded _ h = first_of (search edges, cc)
can_transition-⟶ compensating pending_pay h = cc
can_transition-⟶ compensating _ h = first_of (search edges, cc)

⟶-can_transition : {s t : Status} → s ⟶ t → can_transition s t ≡ true
unfolding can_transition transitions
⟶-can_transition pay = refl
⟶-can_transition _ = refl

-- `Transition` succeeds exactly along an edge of the diagram. It then sets the status, adds one to
-- the version and changes nothing else.
pub transition_iff :
    (o : Order) (to : Status) (o' : Order)
    → (transition (some o) to ≡ ok o')
      ↔ ((o.status ⟶ to) × (o' ≡ record o { status = to; version = add64 o.version (pos 1) }))
unfolding transition
transition_iff o to o' = (
  λ h. elim (Bool-cases (can_transition o.status to)) [
    | inl allowed ↦ (can_transition-⟶ o.status to allowed, ground arith)
    | inr refused ↦ absurd (ground arith)
  ],
  λ (e, same). ground (arith, ⟶-can_transition e),
)

parse_status-to_string : (s : Status) → parse_status (to_string s) ≡ some s
unfolding parse_status find_status to_string
parse_status-to_string pending_pay = refl
parse_status-to_string _ = refl

find_status-some :
    (raw : String) (ss : List Status) (s : Status) → find_status raw ss ≡ some s → raw ≡ to_string s
unfolding find_status
find_status-some raw [] s h = cc
find_status-some raw (t ∷ ss) s h =
    ground (arith, eq_iff raw (to_string t), find_status-some raw ss s)

-- `ParseStatus` accepts exactly the ten names, and inverts `String`.
pub parse_status_iff :
    (raw : String) (s : Status) → (parse_status raw ≡ some s) ↔ (raw ≡ to_string s)
unfolding parse_status
parse_status_iff raw s = (find_status-some raw all_statuses s, λ e. rw e (parse_status-to_string s))

abbrev pub IsTerminal : Status → Type 0
IsTerminal s = (s ≡ cancelled) ⊎ (s ≡ closed) ⊎ (s ≡ refunded)

-- A cancelled, closed or refunded order admits no transition at all, and each attempt is answered
-- with the error `status not allowed`.
pub terminal_absorbs :
    (o : Order) (to : Status)
    → IsTerminal o.status
    → transition (some o) to ≡ err (bare status_not_allowed)
unfolding transition can_transition transitions
terminal_absorbs o to h = ground arith

-- A series of transitions, up to the first that is refused.
abbrev pub live : Order → List Status → Result Order
live o [] = ok o
live o (to ∷ rest) = transition (some o) to >>= λ o'. live o' rest

version_of : Order → Result Order → ℤ
version_of o (ok o') = o'.version
version_of o (err e) = o.version

add64-one : (v : ℕ) → v + 1 < 2 ^ 63 → add64 (pos v) (pos 1) ≡ pos (v + 1)
unfolding wrap64 ◌+ℤ◌
add64-one v h = ground arith

-- After a series of transitions that all succeed, the version has grown by their number (as long
-- as an int64 holds it).
pub live-version :
    (v : ℕ) (o : Order) (ts : List Status) {o' : Order}
    → o.version ≡ pos v
    → v + length ts < 2 ^ 63
    → live o ts ≡ ok o'
    → o'.version ≡ pos (v + length ts)
unfolding version_of
live-version v o [] e small h = ap (λ r. version_of o r) (sym h) ∙ e ∙ ap pos (omega arith)
live-version v o (t ∷ ts) {o'} e small h =
    let (o₁, first, rest) = >>=-ok_inv (transition (some o) t) (λ o₁. live o₁ ts) h in
    let moved = ((transition_iff o t o₁).0 first).1 in
    let next : o₁.version ≡ pos (v + 1) =
      ap (λ (r : Order). r.version) moved
      ∙ ap (λ z. add64 z (pos 1)) e
      ∙ add64-one v (omega arith) in
    live-version (v + 1) o₁ ts next (omega arith) rest ∙ ap pos (omega arith)

-- Neither awaiting payment nor cancelled.
abbrev is_past : Status → Bool
is_past pending_pay = false
is_past cancelled = false
is_past _ = true

⟶-past : {s t : Status} → s ⟶ t → is_past s ≡ true → is_past t ≡ true
⟶-past pay h = refl
⟶-past cancel h = cc
⟶-past _ h = refl

status_of : Order → Result Order → Status
status_of o (ok o') = o'.status
status_of o (err e) = o.status

live-past :
    (o : Order) (ts : List Status) {o' : Order}
    → is_past o.status ≡ true
    → live o ts ≡ ok o'
    → is_past o'.status ≡ true
unfolding status_of
live-past o [] p h = rw (← ap (status_of o) h) p
live-past o (t ∷ ts) p h =
    let (o₁, first, rest) = >>=-ok_inv (transition (some o) t) (λ o₁. live o₁ ts) h in
    let (edge, moved) = (transition_iff o t o₁).0 first in
    live-past o₁ ts (rw moved (⟶-past edge p)) rest

live-terminal :
    (o : Order) (ts : List Status) {o' : Order} → IsTerminal o.status → live o ts ≡ ok o' → ts ≡ []
live-terminal o [] h e = refl
live-terminal o (t ∷ ts) h e = cc (rw (terminal_absorbs o t h) at e)

from_pending : {t : Status} → pending_pay ⟶ t → (t ≡ paid) ⊎ (t ≡ cancelled)
from_pending pay = inl refl
from_pending cancel = inr refl

-- An order that awaits its payment becomes cancelled only as its first transition: a series that
-- ends there has no other step.
pub cancelled_only_unpaid :
    (o : Order) (ts : List Status) {o' : Order}
    → o.status ≡ pending_pay
    → live o ts ≡ ok o'
    → o'.status ≡ cancelled
    → ts ≡ cancelled ∷ []
unfolding status_of
cancelled_only_unpaid o [] s h c = let same = ap (status_of o) h in absurd (cc)
cancelled_only_unpaid o (t ∷ ts) {o'} s h c =
    let (o₁, first, rest) = >>=-ok_inv (transition (some o) t) (λ o₁. live o₁ ts) h in
    let (edge, moved) = (transition_iff o t o₁).0 first in
    let status : o₁.status ≡ t = ap (λ (r : Order). r.status) moved in
    elim (from_pending (rw s at edge)) [
      | inl is_paid ↦
          let past = live-past o₁ ts (rw (status, is_paid)) rest in absurd (ground arith)
      | inr is_cancelled ↦
          let none_left = live-terminal o₁ ts (inl (status ∙ is_cancelled)) rest in cc
    ]
