-- ===== src/Application/Refund/Stuck.antt =====
-- internal/application/payment_refund.go: a refund that the payment channel refuses.
use order_hub.Prelude.{ℕ, ◌≡◌, refl, ap, ◌∙◌, String, true, List, ◌∷◌, [], some}
use order_hub.Prelude.Int.{ℤ, pos, ltb_ℤ}
use order_hub.Prelude.Dict.{lookup}
use order_hub.Domain.Int64.{add64}
use order_hub.Domain.Error.{Err, Result, ok, err}
use order_hub.Domain.Status.{refunding}
use order_hub.Domain.Order.{Order, LineRefund, Refund}
use order_hub.Port.{Identity, command}
use order_hub.Memory.{Repo, order_key, find_by_id, transition, apply_cmd}
use order_hub.Memory.Transition.{transition-Moved, transition_writes, target-after}
use order_hub.Application.Action.{
  Call, Outside, World, ◌>>=◌, ◌>>◌, pay_refund, clock_now, new_refund_id, store_transition,
  bind-ok, bind-err, reads, lift,
}
use order_hub.Application.Refund.{
  RefundCmd, check_refund, start_refund, resolve_refund_lines, new_refund, split_refund, pay_back,
  finish_refund, settle_refund, refund,
}

pay_back-refused :
    (out : Outside) (o : Order) (r : Refund) (w : World) {e : Err}
    → ltb_ℤ (pos 0) r.channel_amount ≡ true
    → out.unit_reply w.calls (pay_refund (record r { channel_refund = true })) ≡ err e
    → pay_back out o r w
      ≡ (err e, record w { calls = pay_refund (record r { channel_refund = true }) ∷ w.calls })
unfolding pay_back
pay_back-refused out o r w positive refused = rw positive (rw refused refl)

finish_refund-refused :
    (out : Outside) (ident : Identity) (o : Order) (r : Refund) (at : ℕ) (w : World) {e : Err}
    → ltb_ℤ (pos 0) r.channel_amount ≡ true
    → out.unit_reply w.calls (pay_refund (record r { channel_refund = true })) ≡ err e
    → finish_refund out ident o r at w
      ≡ (err e, record w { calls = pay_refund (record r { channel_refund = true }) ∷ w.calls })
unfolding finish_refund
finish_refund-refused out ident o r at w positive refused =
    bind-err (pay_back out o r) (settle_refund out ident o at) w
      (pay_back-refused out o r w positive refused)

module _ (out : Outside) (ident : Identity) (cmd : RefundCmd) (w : World) where
  -- The calls up to the transition.
  abbrev pub calls_before : List Call
  calls_before = clock_now ∷ new_refund_id ∷ clock_now ∷ w.calls

  -- The refund that the channel is asked for.
  abbrev pub asked : List LineRefund → ℤ → Order → Refund
  asked lines amount o =
      record (new_refund (out.id_reply (clock_now ∷ w.calls) new_refund_id)
        (out.time_reply w.calls clock_now) cmd.reason lines amount o) { channel_refund = true }

  refund-err :
      (id : String) (o m : Order) (r' : Repo) {lines : List LineRefund} {amount : ℤ} {e : Err}
      → find_by_id ident.tenant_id id w.repo ≡ ok o
      → check_refund ident o ≡ ok tt
      → resolve_refund_lines o cmd ≡ ok (lines, amount)
      → transition
          (command o (o.status ∷ []) refunding)
          (out.time_reply (new_refund_id ∷ clock_now ∷ w.calls) clock_now)
          w.repo
        ≡ (ok m, r')
      → ltb_ℤ (pos 0) (split_refund o amount).1 ≡ true
      → out.unit_reply calls_before (pay_refund (asked lines amount o)) ≡ err e
      → refund out ident id cmd w
        ≡ (err e, record { repo = r'; calls = pay_refund (asked lines amount o) ∷ calls_before })
  unfolding refund start_refund store_transition new_refund
  refund-err id o m r' {lines} {amount} found checked resolved moves by_channel refused =
      let at = out.time_reply w.calls clock_now in
      let rid = out.id_reply (clock_now ∷ w.calls) new_refund_id in
      let o' = record o { version = add64 o.version (pos 1); status = refunding } in
      let started = new_refund rid at cmd.reason lines amount o in
      let w₁ : World = record { repo = w.repo; calls = clock_now ∷ w.calls } in
      let w₂ : World = record { repo = w.repo; calls = new_refund_id ∷ clock_now ∷ w.calls } in
      let w₃ : World = record { repo = r'; calls = calls_before } in
      let start = start_refund out ident cmd in
      let read = reads (find_by_id ident.tenant_id id) in
      let check = lift (check_refund ident o) in
      let resolve = lift (resolve_refund_lines o cmd) in
      bind-ok read
        (λ o. lift (check_refund ident o) >> (lift (resolve_refund_lines o cmd) >>= start o)) w
        (ap (λ x. (x, w)) found)
      ∙ bind-ok check (λ _. resolve >>= start o) w (ap (λ x. (x, w)) checked)
      ∙ bind-ok resolve (start o) w (ap (λ x. (x, w)) resolved)
      ∙ bind-ok (store_transition out (command o (o.status ∷ []) refunding))
          (λ _. finish_refund out ident o' started at) w₂ {w' = w₃}
          (ap (λ (x : Result Order × Repo). (x.0, record { repo = x.1; calls = calls_before }))
            moves)
      ∙ finish_refund-refused out ident o' started at w₃ by_channel refused

  -- If an order is found and passes the tests, the request is accepted with a part for the payment
  -- channel, the store moves the order into `refunding`, and the channel refuses the refund, then the
  -- refund ends with the channel's error and no further call, the stored order stays in `refunding`,
  -- and no ticket was written.
  pub refund_stuck :
      (id : String) (o m : Order) (r' : Repo) {lines : List LineRefund} {amount : ℤ} {e : Err}
      → find_by_id ident.tenant_id id w.repo ≡ ok o
      → check_refund ident o ≡ ok tt
      → resolve_refund_lines o cmd ≡ ok (lines, amount)
      → transition
          (command o (o.status ∷ []) refunding)
          (out.time_reply (new_refund_id ∷ clock_now ∷ w.calls) clock_now)
          w.repo
        ≡ (ok m, r')
      → ltb_ℤ (pos 0) (split_refund o amount).1 ≡ true
      → out.unit_reply calls_before (pay_refund (asked lines amount o)) ≡ err e
      → (refund out ident id cmd w
          ≡ (err e, record { repo = r'; calls = pay_refund (asked lines amount o) ∷ calls_before }))
        × (lookup (order_key o.tenant_id o.order_id) r'.orders ≡ some m)
        × (m.status ≡ refunding)
        × (r'.tickets ≡ w.repo.tickets)
  unfolding apply_cmd
  refund_stuck id o m r' found checked resolved moves by_channel refused =
      let step = command o (o.status ∷ []) refunding in
      let at = out.time_reply (new_refund_id ∷ clock_now ∷ w.calls) clock_now in
      let (others, events, idem, ix, refunds, tickets) = transition_writes step at w.repo moves in
      (
        refund-err id o m r' found checked resolved moves by_channel refused,
        target-after step at w.repo moves,
        ap (λ (x : Order). x.status) (transition-Moved step at w.repo moves).after,
        tickets,
      )
