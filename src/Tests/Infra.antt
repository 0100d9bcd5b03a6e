-- ===== src/Tests/Infra.antt =====
-- internal/infra at concrete values: a database that keeps its tables as lists.
use order_hub.Prelude.{
  ◌≡◌, ◌≤◌, ◌⊎◌, refl, arith, ◌<>◌, Bool, true, false, Option, none, some, List, [], ◌∷◌, ◌++◌,
  text-apart,
}
use order_hub.Prelude.Int.{pos, ◌+ℤ◌}
use order_hub.Prelude.Dict.{lookup}
use order_hub.Domain.Error.{Err, Result, ok, err}
use order_hub.Domain.Json.{end}
use order_hub.Domain.Status.{pending_pay, paid, cancelled}
use order_hub.Domain.Order.{Order}
use order_hub.Port.{TransitionCmd, command}
use order_hub.Infra.Locks.{MemLock}
use order_hub.Infra.Locks.Held.{attempt, release, gains, gains-none, late_release}
use order_hub.Infra.Ids.{new_snowflake}
use order_hub.Infra.Ids.Rising.{IsRising, issued, numbers_rise}
use order_hub.Infra.Rows.{Codec, OrderPo, order_to_po, po_to_order, lines_to_po}
use order_hub.Infra.Rows.Reload.{po_to_order-order_to_po}
use order_hub.Infra.Sql.{Table, Db}
use order_hub.Infra.Sql.Writes.{
  is_row, at_command, after_update, create_event, reread, with_found, with_lines, lines_of,
  set_text, is_target, transition_updates, transition,
}
use order_hub.Infra.Sql.Atomic.{count, updated, Laws, transition_atomic}
use order_hub.Infra.Sql.Locking.{sql_transition_once}
use order_hub.Tests.Orders.{order_at}

abbrev held : MemLock
held = ("k", 10) ∷ []

gains-none_example : gains "k" (attempt "k" 5 3 3 ∷ release "j" ∷ attempt "k" 5 9 9 ∷ []) held ≡ 0
unfolding lookup
gains-none_example =
    gains-none "k" 10 (attempt "k" 5 3 3 ∷ release "j" ∷ attempt "k" 5 9 9 ∷ []) held refl
      (omega arith, (text-apart "j" "k" refl, (omega arith, tt)))

late_release_example :
    gains "k" (attempt "k" 5 0 0 ∷ attempt "k" 5 6 6 ∷ release "k" ∷ attempt "k" 5 8 8 ∷ []) [] ≡ 3
unfolding lookup
late_release_example =
    late_release "k" 5 0 5 6 5 8 [] refl (omega arith) (omega arith) (omega arith)

numbers_rise_example : IsRising (issued 2 (new_snowflake none) (1704067200005 ∷ 1704067200003 ∷ []))
unfolding new_snowflake
numbers_rise_example =
    numbers_rise 2 (new_snowflake none) (1704067200005 ∷ 1704067200003 ∷ [])
      (omega arith, omega arith) (omega arith)
      ((omega arith, omega arith), ((omega arith, omega arith), tt))

-- A codec for values that are all empty.
abbrev json : Codec
json = record {
  context_text = λ c. "null";
  context_of = λ t. none;
  attributes_text = λ a. "{}";
  attributes_of = λ t. [];
  snapshot_text = λ f. "{}";
  snapshot_of = λ t. end;
  allocations_text = λ a. "[]";
}

abbrev one_line : Order
one_line = record (order_at paid) {
  lines =
      record {
        line_id = "l1";
        object_type = "sku";
        object_id = "p1";
        quantity = pos 3;
        unit_price = pos 500;
        original_amount = pos 1500;
        discount_amount = pos 300;
        payable_amount = pos 1200;
        attributes = [];
        snapshot = end;
      }
      ∷ [];
}

po_to_order-order_to_po_example :
    po_to_order json (order_to_po json one_line) (lines_to_po json one_line) ≡ record one_line {
      ledger = record (one_line.ledger) { biz_no = "order:freeze:" <> one_line.order_id };
      promotions = [];
      ledger_legs = [];
    }
po_to_order-order_to_po_example = po_to_order-order_to_po json one_line record {
  context_written = text-apart "null" "" refl;
  context_read = refl;
  lines_read = ((text-apart "{}" "" refl, refl, text-apart "{}" "" refl, refl), tt);
}

-- The orders alone are kept; the other tables forget what they are given.
abbrev some_row : {Row : Type 0} → (Row → Bool) → List Row → Option Row
some_row p [] = none
some_row p (r ∷ rs) = elim (p r) [ true ↦ some r | false ↦ some_row p rs ]

abbrev kept : Table (List OrderPo) OrderPo
kept = record {
  rows = λ s. s;
  first = λ p s. (ok (some_row p s), s);
  find = λ p before limit s. (ok s, s);
  create = λ r s. (ok tt, s ++ r ∷ []);
  create_once = λ r s. (ok tt, s ++ r ∷ []);
  updates = λ p f s. (ok (count p s), updated p f s);
  number_of = λ p s. (ok (count p s), s);
  grouped = λ key p s. (ok [], s);
}

abbrev forgotten : {Row : Type 0} → Table (List OrderPo) Row
forgotten = record {
  rows = λ s. [];
  first = λ p s. (ok none, s);
  find = λ p before limit s. (ok [], s);
  create = λ r s. (ok tt, s);
  create_once = λ r s. (ok tt, s);
  updates = λ p f s. (ok 0, s);
  number_of = λ p s. (ok 0, s);
  grouped = λ key p s. (ok [], s);
}

-- The state after a transaction that ended in a result, from the one before.
abbrev settle : {A : Type 0} → List OrderPo → Result A × List OrderPo → Result A × List OrderPo
settle before (ok a, after) = (ok a, after)
settle before (err e, after) = (err e, before)

abbrev lists : Db (List OrderPo)
lists = record {
  orders = kept;
  lines = forgotten;
  promotions = forgotten;
  legs = forgotten;
  outbox = forgotten;
  idempotency = forgotten;
  refunds = forgotten;
  compensations = forgotten;
  transaction = λ body s. settle s (body s);
}

settle-ok :
    (before : List OrderPo) (x : Result Order × List OrderPo) {o : Order} {s : List OrderPo}
    → settle before x ≡ (ok o, s)
    → x ≡ (ok o, s)
settle-ok before (ok a, after) h = h
settle-ok before (err e, after) h = cc

settle-err :
    (before : List OrderPo) (x : Result Order × List OrderPo) {e : Err} {s : List OrderPo}
    → settle before x ≡ (err e, s)
    → s ≡ before
settle-err before (ok a, after) h = cc
settle-err before (err e, after) h = cc

lists-Laws : Laws lists
lists-Laws = record {
  updates_rows = λ p f s h. (cc, cc);
  create_rows = λ row s. refl;
  first_reads = λ p s. refl;
  find_reads = λ p before limit s. refl;
  commits = λ body s h. settle-ok s (body s) h;
  rolls_back = λ body s h. settle-err s (body s) h;
}

abbrev table : List OrderPo
table = order_to_po json (order_at pending_pay) ∷ []

abbrev pay : TransitionCmd
pay = command (order_at pending_pay) (pending_pay ∷ []) paid

abbrev call_off : TransitionCmd
call_off = command (order_at pending_pay) (pending_pay ∷ []) cancelled

transition_atomic_example :
    ((o : Order) × (s' : List OrderPo) × (transition lists json pay 7 table ≡ (ok o, s'))
      × (1 ≤ count (is_target pay) table)
      × (s' ≡ updated (is_target pay) (transition_updates pay 7) table))
    ⊎ ((e : Err) × (transition lists json pay 7 table ≡ (err e, table)))
transition_atomic_example = transition_atomic lists json lists-Laws pay 7 table

abbrev paid_row : OrderPo
paid_row = transition_updates pay 7 (order_to_po json (order_at pending_pay))

sql_transition_once_example :
    (e : Err) × (transition lists json call_off 8 (paid_row ∷ []) ≡ (err e, paid_row ∷ []))
unfolding transition is_target is_row at_command after_update create_event reread with_found
    with_lines lines_of transition_updates order_to_po set_text ◌+ℤ◌
sql_transition_once_example =
    sql_transition_once (List OrderPo) lists json lists-Laws pay call_off 7 8 table
      (po_to_order json paid_row []) (paid_row ∷ []) (refl, refl, refl) (omega arith) refl
