-- ===== src/Application/Refund.antt =====
-- internal/application/payment_refund.go: `RefundService`.
pub mod Split
pub mod Resolve
pub mod Stuck
use order_hub.Prelude.{
  ℕ, String, ◌<>◌, ◌==◌, Bool, true, false, ◌&&◌, ◌||◌, not, Option, none, some, List, [], ◌∷◌,
  is_empty, if◌then◌else◌,
}
use order_hub.Prelude.Int.{ℤ, pos, ltb_ℤ, leb_ℤ, int_eq}
use order_hub.Domain.Int64.{add64, sub64, mul64, div64}
use order_hub.Domain.Error.{
  Result, ok, err, bare, wrapped, invalid_argument, amount_invariant, order_not_found,
  refund_exceeds_paid, status_not_allowed, fail_if,
}
use order_hub.Domain.Error
use order_hub.Domain.Json.{Json, str, num, arr, obj, Items, nil, cons, Fields, end, field}
use order_hub.Domain.Status.{
  Status, paid, fulfilling, completed, refunding, refunded, partial_refunded, status_eq,
}
use order_hub.Domain.Order.{
  Order, OrderLine, LineRefund, Refund, refundable_amount, has_ledger_freeze,
}
use order_hub.Domain.Event.{EventType, new_event}
use order_hub.Port.{Identity, TransitionCmd, command, new_ticket}
use order_hub.Memory
use order_hub.Application.Action.{
  Outside, World, Action, pure, raise, lift, attempt, ignore, reads, on_repo, ◌>>=◌, ◌>>◌, raise_if,
  when, now, fresh_id, call_unit, store_transition, store_compensation, pay_refund, ledger_credit,
  offer_reverse, new_event_id, new_refund_id,
}

pub record RefundCmd : Type 0 where
  pub amount : ℤ
  pub reason : String
  pub lines : List LineRefund

-- `byID[id]`: a later line of the same id hides an earlier one.
unfoldable pub line_by_id : String → List OrderLine → Option OrderLine
line_by_id id [] = none
line_by_id id (l ∷ ls) = elim (line_by_id id ls) [
  | some later ↦ some later
  | none ↦ if l.line_id == id then some l else none
]

-- The tests of one round of the loop of `resolveRefundLines`.
unfoldable pub check_line : List OrderLine → LineRefund → Result (Unit {0})
check_line lines lr =
    if leb_ℤ lr.amount (pos 0)
    then err (wrapped invalid_argument "line amount")
    else elim (line_by_id lr.line_id lines) [
      | none ↦ err (wrapped invalid_argument ("unknown line " <> lr.line_id))
      | some line ↦ fail_if (ltb_ℤ line.payable_amount lr.amount) (bare refund_exceeds_paid)
    ]

-- The loop, with the sum so far. The lines that it copies are those of the command.
unfoldable pub sum_lines : List OrderLine → ℤ → List LineRefund → Result ℤ
sum_lines lines sum [] = ok sum
sum_lines lines sum (lr ∷ rest) =
    Error.◌>>=◌ (check_line lines lr) λ _. sum_lines lines (add64 sum lr.amount) rest

unfoldable pub resolve_refund_lines : Order → RefundCmd → Result (List LineRefund × ℤ)
resolve_refund_lines o cmd =
    if not (is_empty cmd.lines)
    then Error.◌>>=◌ (sum_lines o.lines (pos 0) cmd.lines) (λ sum.
      if ltb_ℤ (pos 0) cmd.amount && not (int_eq cmd.amount sum)
      then err (wrapped amount_invariant "amount != line sum")
      else if leb_ℤ sum (pos 0) || ltb_ℤ (refundable_amount o) sum
      then err (bare refund_exceeds_paid)
      else ok (cmd.lines, sum))
    else let amount = if leb_ℤ cmd.amount (pos 0) then refundable_amount o else cmd.amount in
      if leb_ℤ amount (pos 0) || ltb_ℤ (refundable_amount o) amount
      then err (bare refund_exceeds_paid)
      else ok ([], amount)

unfoldable pub reverse_discount : Order → ℤ → Bool → ℤ
reverse_discount o refund_amt full =
    if leb_ℤ o.amounts.discount (pos 0)
    then pos 0
    else if full || leb_ℤ o.amounts.payable (pos 0)
    then pos 0
    else div64 (mul64 o.amounts.discount refund_amt) o.amounts.payable

-- The parts of a refund that go to the ledger and to the payment channel.
unfoldable pub split_refund : Order → ℤ → ℤ × ℤ
split_refund o amount =
    let den = o.amounts.payable in
    if leb_ℤ den (pos 0)
    then (pos 0, amount)
    else let ledger = div64 (mul64 o.amounts.ledger_pay amount) den in
      let channel = sub64 amount ledger in
      if ltb_ℤ channel (pos 0) then (amount, pos 0) else (ledger, channel)

abbrev pub is_refundable : Status → Bool
is_refundable paid = true
is_refundable fulfilling = true
is_refundable completed = true
is_refundable partial_refunded = true
is_refundable _ = false

abbrev line_items : List LineRefund → Items
line_items [] = nil
line_items (l ∷ ls) =
    cons (obj (field "LineID" (str l.line_id) (field "Amount" (num l.amount) end))) (line_items ls)

abbrev refund_event_data : Order → Refund → Fields
refund_event_data o r = field "order_id" (str o.order_id) (
    field "refund_id" (str r.refund_id)
      (field "amount" (num r.amount) (field "lines" (arr (line_items r.lines)) end)))

-- The refund as it is made, before any money moves.
unfoldable pub new_refund : String → ℕ → String → List LineRefund → ℤ → Order → Refund
new_refund refund_id at reason lines amount o =
    let (ledger, channel) = split_refund o amount in
    record {
      refund_id = refund_id;
      order_id = o.order_id;
      tenant_id = o.tenant_id;
      amount = amount;
      currency = o.amounts.currency;
      status = "processing";
      reason = reason;
      channel_refund = false;
      ledger_credit = false;
      ledger_amount = ledger;
      channel_amount = channel;
      lines = lines;
      created_at = at;
    }

-- The refund pays back all that is left.
unfoldable pub is_full : Order → ℤ → Bool
is_full o amount = int_eq (add64 o.amounts.refunded amount) o.amounts.paid

unfoldable pub finish_cmd : Order → ℤ → ℕ → String → String → Refund → TransitionCmd
finish_cmd o amount at event_id trace_id refund =
    record (command o (refunding ∷ []) (if is_full o amount then refunded else partial_refunded)) {
      refunded_add = amount;
      event = some (
          new_event event_id EventType.refunded o.tenant_id trace_id at
            (refund_event_data o refund));
    }

-- The tests on the order that was found.
unfoldable pub check_refund : Identity → Order → Result (Unit {0})
check_refund ident o =
    if not (ident.user_id == "") && not (o.buyer_user_id == ident.user_id)
    then err (bare order_not_found)
    else fail_if (not (is_refundable o.status)) (bare status_not_allowed)

module _ (out : Outside) where
  -- The money: the channel is paid back, then the ledger.
  unfoldable pub pay_back : Order → Refund → Action Refund
  pay_back o refund₀ = do
    let by_channel = ltb_ℤ (pos 0) refund₀.channel_amount
    let refund₁ = if by_channel then record refund₀ { channel_refund = true } else refund₀
    when by_channel (call_unit out (pay_refund refund₁))
    let by_ledger = ltb_ℤ (pos 0) refund₁.ledger_amount && has_ledger_freeze o
    let refund₂ = if by_ledger then record refund₁ { ledger_credit = true } else refund₁
    when by_ledger (
        call_unit out (
          ledger_credit o.tenant_id o.buyer_user_id o.ledger.asset_code refund₂.ledger_amount
            ("order:refund:" <> refund₂.refund_id) ("order:capture:" <> o.order_id)))
    pure refund₂

  -- The offer is given back; a failure leaves a ticket.
  unfoldable pub reverse_offer : Order → Refund → Bool → Action (Unit {0})
  reverse_offer o refund full = if o.promotion.redemption_id == "" then pure tt else do
    reversed ← attempt (
        call_unit out (
          offer_reverse o.tenant_id o.promotion.redemption_id refund.refund_id
            (reverse_discount o refund.amount full) ("order:" <> refund.refund_id <> ":reverse")))
    elim reversed [
      | ok _ ↦ pure tt
      | err _ ↦ ignore (
          store_compensation out
            (new_ticket "offer_reverse" o.tenant_id refund.refund_id o.promotion.redemption_id))
    ]

  -- What follows the payment back: the offer, the last transition and the record of the refund.
  unfoldable pub settle_refund : Identity → Order → ℕ → Refund → Action Refund
  settle_refund ident o at refund₁ = do
    reverse_offer o refund₁ (is_full o refund₁.amount)
    let refund = record refund₁ { status = "succeeded" }
    id ← fresh_id out new_event_id
    updated ← store_transition out (finish_cmd o refund.amount at id ident.trace_id refund)
    on_repo λ r. (ok refund, Memory.insert_refund refund r)

  -- What follows the transition into `refunding`; `o` is the order as read, moved on by hand.
  unfoldable pub finish_refund : Identity → Order → Refund → ℕ → Action Refund
  finish_refund ident o refund₀ at = do
    refund₁ ← pay_back o refund₀
    settle_refund ident o at refund₁

  -- The refund once its request is accepted.
  unfoldable pub start_refund : Identity → RefundCmd → Order → List LineRefund × ℤ → Action Refund
  start_refund ident cmd o resolved = do
    at ← now out
    refund_id ← fresh_id out new_refund_id
    let started = new_refund refund_id at cmd.reason resolved.0 resolved.1 o
    moved ← store_transition out (command o (o.status ∷ []) refunding)
    finish_refund ident (record o { version = add64 o.version (pos 1); status = refunding }) started
        at

  unfoldable pub refund : Identity → String → RefundCmd → Action Refund
  refund ident order_id cmd = do
    o ← reads (Memory.find_by_id ident.tenant_id order_id)
    lift (check_refund ident o)
    resolved ← lift (resolve_refund_lines o cmd)
    start_refund ident cmd o resolved
