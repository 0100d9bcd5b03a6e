-- ===== src/Memory/Transition.antt =====
-- internal/infra/memory/order_repo.go: `Transition`, the one write that moves an order.
use order_hub.Prelude.{
  ℕ, ◌≡◌, refl, sym, ap, ◌∙◌, ◌⊎◌, inl, inr, arith, String, ◌==◌, true, false, not, ◌&&◌, Option,
  none, some, List, [], ◌∷◌, ◌++◌, any, if◌then◌else◌, Option-cases, ltb, length,
}
use mathlib.Core.List.{append-nil}
use order_hub.Prelude.Int.{ℤ, pos, negsuc, int_eq, eq_of_parts, ◌+ℤ◌}
use order_hub.Prelude.Dict.{lookup, insert, lookup-insert, lookup-insert_self}
use order_hub.Domain.Int64.{add64, wrap64, InRange}
use order_hub.Domain.Error.{Err, ok, err, bare, version_conflict, Result-cases}
use order_hub.Domain.Status.{Status, status_eq}
use order_hub.Domain.Order.{Order}
use order_hub.Domain.Order as Orders
use order_hub.Domain.Lifecycle.{◌⟶◌, transition_iff}
use order_hub.Domain.Event.{Event}
use order_hub.Port.{TransitionCmd, OutboxRow}
use order_hub.Memory.{
  Repo, order_key, apply_cmd, check_cmd, append_event?, append_event, transition,
}

-- The order that a command finds.
abbrev pub target : TransitionCmd → Repo → Option Order
target cmd r = lookup (order_key cmd.tenant_id cmd.order_id) r.orders

-- One of the source states is the order's, or none is listed.
abbrev pub AllowsFrom : TransitionCmd → Status → Type 0
AllowsFrom cmd s = (cmd.from ≡ []) ⊎ (any (status_eq s) cmd.from ≡ true)

abbrev pub moved : Status → Order → Order
moved to o = record o { status = to; version = add64 o.version (pos 1) }

allows_from :
    (xs : List Status) (s : Status)
    → (ltb 0 (length xs) && not (any (status_eq s) xs)) ≡ false
    → (xs ≡ []) ⊎ (any (status_eq s) xs ≡ true)
allows_from [] s h = inl refl
allows_from (x ∷ xs) s h = inr (ground arith)

check_cmd-passed :
    (cmd : TransitionCmd) (o : Order) {o' : Order}
    → check_cmd cmd o ≡ ok o'
    → (int_eq o.version cmd.version ≡ true)
      × ((ltb 0 (length cmd.from) && not (any (status_eq o.status) cmd.from)) ≡ false)
      × (Orders.transition (some o) cmd.to ≡ ok o')
unfolding check_cmd
check_cmd-passed cmd o h = ground arith

int_eq-eq : (a b : ℤ) → int_eq a b ≡ true → a ≡ b
int_eq-eq a b h = eq_of_parts a b (ground arith)

check_cmd-ok :
    (cmd : TransitionCmd) (o : Order) {o' : Order}
    → check_cmd cmd o ≡ ok o'
    → (o.version ≡ cmd.version)
      × AllowsFrom cmd o.status
      × (o.status ⟶ cmd.to)
      × (o' ≡ moved cmd.to o)
check_cmd-ok cmd o {o'} h =
    let (version, from, step) = check_cmd-passed cmd o h in
    let (edge, after) = (transition_iff o cmd.to o').0 step in
    (int_eq-eq o.version cmd.version version, allows_from cmd.from o.status from, edge, after)

-- What a successful `Transition` found and wrote.
pub record Moved (cmd : TransitionCmd) (now : ℕ) (r : Repo) (o' : Order) (r' : Repo) : Type 0 where
  pub before : Order
  pub found : target cmd r ≡ some before
  pub at_version : before.version ≡ cmd.version
  pub from_state : AllowsFrom cmd before.status
  pub edge : before.status ⟶ cmd.to
  pub after : o' ≡ apply_cmd cmd now (moved cmd.to before)
  pub store :
      r'
      ≡ append_event? cmd.event
          (record r { orders = insert (order_key cmd.tenant_id cmd.order_id) o' r.orders })

transition-ok :
    (cmd : TransitionCmd) (now : ℕ) (r : Repo) {o' : Order} {r' : Repo}
    → transition cmd now r ≡ (ok o', r')
    → (o m : Order) × (target cmd r ≡ some o)
      × (check_cmd cmd o ≡ ok m)
      × (o' ≡ apply_cmd cmd now m)
      × (r'
          ≡ append_event? cmd.event
              (record r { orders = insert (order_key cmd.tenant_id cmd.order_id) o' r.orders }))
unfolding transition
transition-ok cmd now r {o'} {r'} h = elim (Option-cases (target cmd r)) [
  | inl missing ↦ absurd (ground arith)
  | inr (o, found) ↦ elim (Result-cases (check_cmd cmd o)) [
    | inr (e, failed) ↦ absurd (ground arith)
    | inl (m, passed) ↦ (o, m, found, passed, ground arith, ground arith)
  ]
]

pub transition-Moved :
    (cmd : TransitionCmd) (now : ℕ) (r : Repo) {o' : Order} {r' : Repo}
    → transition cmd now r ≡ (ok o', r')
    → Moved cmd now r o' r'
transition-Moved cmd now r {o'} {r'} h =
    let (o, m, found, checked, after, store) = transition-ok cmd now r h in
    let (version, from, edge, step) = check_cmd-ok cmd o checked in
    record {
      before = o;
      found = found;
      at_version = version;
      from_state = from;
      edge = edge;
      after = after ∙ ap (apply_cmd cmd now) step;
      store = store;
    }

-- A `Transition` that is refused leaves the store as it was.
pub transition_refused :
    (cmd : TransitionCmd) (now : ℕ) (r : Repo) {e : Err} {r' : Repo}
    → transition cmd now r ≡ (err e, r')
    → r' ≡ r
unfolding transition
transition_refused cmd now r h = ground arith

orders-append_event? : (ev : Option Event) (r : Repo) → (append_event? ev r).orders ≡ r.orders
unfolding append_event
orders-append_event? none r = refl
orders-append_event? (some ev) r = refl

int_eq-next : (v : ℤ) → InRange v → int_eq (add64 v (pos 1)) v ≡ false
unfolding wrap64 ◌+ℤ◌
int_eq-next (pos n) h = ground arith
int_eq-next (negsuc n) h = ground arith

check_cmd-stale :
    (cmd : TransitionCmd) (o : Order)
    → int_eq o.version cmd.version ≡ false
    → check_cmd cmd o ≡ err (bare version_conflict)
unfolding check_cmd
check_cmd-stale cmd o h = ground arith

version-apply_cmd :
    (cmd : TransitionCmd) (now : ℕ) (o : Order) → (apply_cmd cmd now o).version ≡ o.version
unfolding apply_cmd
version-apply_cmd cmd now o = refl

transition-conflict :
    (cmd : TransitionCmd) (now : ℕ) (r : Repo) (o : Order)
    → target cmd r ≡ some o
    → int_eq o.version cmd.version ≡ false
    → transition cmd now r ≡ (err (bare version_conflict), r)
unfolding transition
transition-conflict cmd now r o found stale = ground (arith, check_cmd-stale cmd o stale)

-- The target of a command that succeeded is the order that it returned.
pub target-after :
    (cmd : TransitionCmd) (now : ℕ) (r : Repo) {o' : Order} {r' : Repo}
    → transition cmd now r ≡ (ok o', r')
    → lookup (order_key cmd.tenant_id cmd.order_id) r'.orders ≡ some o'
target-after cmd now r {o'} h =
    let m = transition-Moved cmd now r h in
    rw m.store (
      rw (orders-append_event? cmd.event _)
        (lookup-insert_self (order_key cmd.tenant_id cmd.order_id) o' r.orders))

-- Of two commands on one order at the same version, the second to come is refused with a version
-- conflict once the first has succeeded, and changes nothing: no update is lost.
pub transition_once :
    (first second : TransitionCmd) (now later : ℕ) (r : Repo) {o' : Order} {r' : Repo}
    → InRange first.version
    → order_key second.tenant_id second.order_id ≡ order_key first.tenant_id first.order_id
    → second.version ≡ first.version
    → transition first now r ≡ (ok o', r')
    → transition second later r' ≡ (err (bare version_conflict), r')
transition_once first second now later r {o'} {r'} ranged same_order same_version h =
    let m = transition-Moved first now r h in
    let version : o'.version ≡ add64 first.version (pos 1) =
      ap (λ (o : Order). o.version) m.after
      ∙ version-apply_cmd first now (moved first.to m.before)
      ∙ ap (λ v. add64 v (pos 1)) m.at_version in
    transition-conflict second later r' o' (rw same_order (target-after first now r h))
      (rw (version, same_version) (int_eq-next first.version ranged))

abbrev pub rows_of : Option Event → List OutboxRow
rows_of none = []
rows_of (some ev) = record { event_id = ev.event_id; payload = ev; attempts = 0 } ∷ []

append_event?_writes :
    (ev : Option Event) (r : Repo) → (append_event? ev r).events ≡ r.events ++ rows_of ev
unfolding append_event
append_event?_writes none r = sym (append-nil r.events)
append_event?_writes (some ev) r = refl

append_event?_keeps :
    (ev : Option Event) (r : Repo)
    → ((append_event? ev r).idem ≡ r.idem)
      × ((append_event? ev r).client_ix ≡ r.client_ix)
      × ((append_event? ev r).refunds ≡ r.refunds)
      × ((append_event? ev r).tickets ≡ r.tickets)
unfolding append_event
append_event?_keeps none r = (refl, refl, refl, refl)
append_event?_keeps (some ev) r = (refl, refl, refl, refl)

-- What a successful `Transition` does to the store: its order is replaced by the one returned, and
-- every other order stays; the event of the command is appended to the outbox in the same step,
-- and nothing is appended without one; idempotency records, client index, refunds and tickets stay.
pub transition_writes :
    (cmd : TransitionCmd) (now : ℕ) (r : Repo) {o' : Order} {r' : Repo}
    → transition cmd now r ≡ (ok o', r')
    → ((k : String)
        → lookup k r'.orders
          ≡ (if order_key cmd.tenant_id cmd.order_id == k then some o' else lookup k r.orders))
      × (r'.events ≡ r.events ++ rows_of cmd.event)
      × (r'.idem ≡ r.idem)
      × (r'.client_ix ≡ r.client_ix)
      × (r'.refunds ≡ r.refunds)
      × (r'.tickets ≡ r.tickets)
transition_writes cmd now r {o'} {r'} h =
    let m = transition-Moved cmd now r h in
    let key = order_key cmd.tenant_id cmd.order_id in
    let written : Repo = record r { orders = insert key o' r.orders } in
    rw m.store (
      λ k. rw (orders-append_event? cmd.event written) (lookup-insert key k o' r.orders),
      append_event?_writes cmd.event written,
      (append_event?_keeps cmd.event written).0,
      (append_event?_keeps cmd.event written).1,
      (append_event?_keeps cmd.event written).2,
      (append_event?_keeps cmd.event written).3,
    )
