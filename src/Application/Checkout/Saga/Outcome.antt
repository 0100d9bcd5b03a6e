-- ===== src/Application/Checkout/Saga/Outcome.antt =====
-- internal/application/checkout.go: how a checkout ends, with the order stored or with nothing done.
use order_hub.Prelude.{
  String, true, false, Option, none, some, ◌∷◌, ◌≡◌, refl, ap, sym, ◌∙◌, inl, inr, subst,
  Option-cases, Bool-cases,
}
use order_hub.Domain.Error.{Err, Result, ok, err, Result-cases}
use order_hub.Domain.Scene.{SceneConfig}
use order_hub.Domain.Order.{needs_channel_pay}
use order_hub.Port.{Identity, CheckoutResult, IdempotencyRecord, PaymentIntent}
use order_hub.Memory.{Repo, insert_checkout, find_idempotency}
use order_hub.Memory.Insert.{insert_checkout-err}
use order_hub.Application.Action.{
  Action, new_event_id, pay_create_intent, Outside, World, bind-ok, bind-err, ◌>>=◌,
}
use order_hub.Application.Checkout.Price.{CheckoutCmd, Priced}
use order_hub.Application.Checkout.Saga.{
  Held, nothing_held, rollback, hold_offer, hold_ledger, hold_inventory, new_persist, new_order,
  new_result, is_idempotency_conflict, stored_answer, insert_refused, open_intent, after_insert,
  place, saga,
}
use order_hub.Application.Checkout.Saga.Stored.{
  Stored, IsNew, answer, inserted-Stored, intent_written-Stored,
}
use order_hub.Application.Checkout.Saga.Holds.{
  outstanding, Holds, held_by, rollback_lem, hold_offer-Holds, hold_ledger-Holds,
  hold_inventory-Holds,
}

module _ (out : Outside) (scene : SceneConfig) (ident : Identity) (cmd : CheckoutCmd)
    (hash : String) (p : Priced) where
  -- An answer without a new order: an error, or the answer that is stored under the key.
  abbrev pub Answers : Repo → Result CheckoutResult → Type 0
  Answers r (err e) = Unit
  Answers r (ok result) =
      (i : IdempotencyRecord) × (find_idempotency ident.tenant_id ident.user_id cmd.idempotency_key
          r
        ≡ some i)
      × (result ≡ i.response)

  pub data Ended (r : Repo) : Result CheckoutResult → World → Type 0 where
    -- The order was stored with the ids of what is held, and is still there.
    placed :
        (held : Held) (id : String) (intent : Option PaymentIntent) {w' : World}
        → IsNew scene ident cmd hash p held id r
        → Stored scene ident cmd hash p held id intent r w'.repo
        → outstanding out w'.calls ≡ held
        → Ended r (ok (answer scene ident cmd hash p held id intent)) w'
    -- Nothing was stored, and nothing is held.
    undone :
        {reply : Result CheckoutResult} {w' : World}
        → w'.repo ≡ r
        → outstanding out w'.calls ≡ nothing_held
        → Answers r reply
        → Ended r reply w'

  insert_refused-raised :
      (e : Err) (w : World)
      → is_idempotency_conflict e ≡ false
      → insert_refused out scene ident cmd e w ≡ (err e, w)
  unfolding insert_refused
  insert_refused-raised e w other = rw other refl

  insert_refused-missing :
      (e : Err) (w : World)
      → is_idempotency_conflict e ≡ true
      → find_idempotency ident.tenant_id ident.user_id cmd.idempotency_key w.repo ≡ none
      → insert_refused out scene ident cmd e w ≡ (err e, w)
  unfolding insert_refused
  insert_refused-missing e w conflict missing = rw conflict (ap (λ x. stored_answer e x w) missing)

  insert_refused-found :
      (e : Err) (w : World) {i : IdempotencyRecord}
      → is_idempotency_conflict e ≡ true
      → find_idempotency ident.tenant_id ident.user_id cmd.idempotency_key w.repo ≡ some i
      → insert_refused out scene ident cmd e w ≡ (ok i.response, w)
  unfolding insert_refused
  insert_refused-found e w conflict found = rw conflict (ap (λ x. stored_answer e x w) found)

  -- What a refusal answers, and that it changes nothing.
  abbrev AnswersAt : World → Result CheckoutResult × World → Type 0
  AnswersAt w (reply, w') = (w' ≡ w) × Answers w.repo reply

  insert_refused-Answers :
      (e : Err) (w : World) → AnswersAt w (insert_refused out scene ident cmd e w)
  insert_refused-Answers e w = elim (Bool-cases (is_idempotency_conflict e)) [
    | inr other ↦ subst (AnswersAt w) (sym (insert_refused-raised e w other)) (refl, tt)
    | inl conflict ↦
        elim (Option-cases
          (find_idempotency ident.tenant_id ident.user_id cmd.idempotency_key w.repo)) [
            | inl missing ↦
                subst (AnswersAt w) (sym (insert_refused-missing e w conflict missing)) (refl, tt)
            | inr (i, found) ↦
                subst (AnswersAt w) (sym (insert_refused-found e w conflict found))
                  (refl, (i, found, refl))
          ]
  ]

  -- A payment intent, or none, was opened for the order and written down.
  abbrev Opened : Held → String → Repo → World → Result CheckoutResult × World → Type 0
  Opened held id r w (reply, w') =
      (intent : Option PaymentIntent) × (reply ≡ ok (answer scene ident cmd hash p held id intent))
      × Stored scene ident cmd hash p held id intent r w'.repo
      × (outstanding out w'.calls ≡ outstanding out w.calls)

  open_intent-Opened :
      (held : Held) (id : String) (r : Repo) (w : World)
      → Stored scene ident cmd hash p held id none r w.repo
      → let o = new_order scene ident cmd p held in
        Opened held id r w (open_intent out scene ident cmd o (new_result o) w)
  unfolding open_intent outstanding new_result new_order
  open_intent-Opened held id r w stored =
      let o = new_order scene ident cmd p held in
      elim (Bool-cases (needs_channel_pay o)) [
        | inr unpaid ↦ rw unpaid (none, refl, stored, refl)
        | inl paid ↦ elim (Result-cases (out.intent_reply w.calls (pay_create_intent o))) [
          | inl (intent, created) ↦ rw paid (
              rw created (
                some intent,
                refl,
                intent_written-Stored scene ident cmd hash p held id intent r w.repo stored,
                refl,
              ))
          | inr (e, failed) ↦ rw paid (rw failed (none, refl, stored, refl))
        ]
      ]

  abbrev Ends : Repo → Result CheckoutResult × World → Type 0
  Ends r (reply, w') = Ended r reply w'

  place-Ended :
      (held : Held) (w : World)
      → outstanding out w.calls ≡ held
      → Ends w.repo (place out scene ident cmd hash p held w)
  unfolding place outstanding new_order
  place-Ended held w h =
      let id = out.id_reply w.calls new_event_id in
      let rec = new_persist scene ident cmd hash p held id in
      let o = new_order scene ident cmd p held in
      let r' = (insert_checkout rec w.repo).1 in
      let w₁ : World = record { repo = r'; calls = new_event_id ∷ w.calls } in
      let follow = λ (stored : Result (Unit {0})).
        after_insert out scene ident cmd p held o (new_result o) stored w₁ in
      elim (Result-cases (insert_checkout rec w.repo).0) [
        | inl (u, inserted) ↦
            let (is_new, first) =
              inserted-Stored scene ident cmd hash p held id w.repo (ap (λ x. (x, r')) inserted) in
            let (intent, answered, stored, calls) = open_intent-Opened held id w.repo w₁ first in
            subst (Ends w.repo) (sym (ap follow inserted)) (
              subst (λ a. Ended w.repo a (follow (ok tt)).1) (sym answered)
                (placed held id intent is_new stored (calls ∙ h)))
        | inr (e, refused) ↦
            let (clear, kept, fine) = rollback_lem out scene ident p held w₁ h in
            let w₂ = (rollback out scene ident p held w₁).1 in
            let (unchanged, answers) = insert_refused-Answers e w₂ in
            let same = kept ∙ insert_checkout-err rec w.repo (ap (λ x. (x, r')) refused) in
            subst (Ends w.repo)
              (sym (
                ap follow refused
                ∙ bind-ok (rollback out scene ident p held)
                    (λ _. insert_refused out scene ident cmd e) w₁ (ap (λ x. (x, w₂)) fine)))
              (undone (ap (λ x. x.repo) unchanged ∙ same)
                (ap (λ x. outstanding out x.calls) unchanged ∙ clear)
                (subst (λ r. Answers r (insert_refused out scene ident cmd e w₂).0) same answers))
      ]

  -- One step of the reservations, and what follows it if it holds.
  step-Ended :
      (m : Action Held) (f : Held → Action CheckoutResult) (w : World)
      → Holds out w (m w)
      → ((held : Held) (w' : World) → outstanding out w'.calls ≡ held → Ends w'.repo (f held w'))
      → Ends w.repo ((m >>= f) w)
  step-Ended m f w holds go =
      let w' = (m w).1 in
      elim (Result-cases (m w).0) [
        | inl (held, done) ↦
            subst (Ends w.repo) (sym (bind-ok m f w (ap (λ x. (x, w')) done)))
              (subst (λ r. Ends r (f held w')) holds.0 (go held w' (holds.1 ∙ ap held_by done)))
        | inr (e, failed) ↦
            subst (Ends w.repo) (sym (bind-err m f w (ap (λ x. (x, w')) failed)))
              (undone holds.0 (holds.1 ∙ ap (held_by) failed) tt)
      ]

  -- A checkout that begins with nothing held ends in one of two ways, whatever the hubs answer; an
  -- empty id of a hub stands for none. Either its client order id and its idempotency key were free,
  -- and at its end the store is the one before with the order under its key, the client order id in
  -- the index, the order's event, and under the idempotency key the answer that is returned, which has
  -- the payment intent that the order has too, if one was opened; and what is held are exactly the
  -- reservation, freeze and inventory that the stored order was built from. Or it stored nothing and
  -- holds nothing, because each reservation that was accepted was asked to be released, and it answers
  -- with an error or with the answer stored under its idempotency key.
  pub saga_outcome :
      (w : World)
      → outstanding out w.calls ≡ nothing_held
      → Ended w.repo (saga out scene ident cmd hash p w).0 (saga out scene ident cmd hash p w).1
  unfolding saga
  saga_outcome w h =
      step-Ended (hold_offer out scene ident p) _ w (hold_offer-Holds out scene ident p w h)
        λ h₁ w₁ e₁.
          step-Ended (hold_ledger out scene ident p h₁) _ w₁
            (hold_ledger-Holds out scene ident p h₁ w₁ e₁)
            λ h₂ w₂ e₂.
              step-Ended (hold_inventory out scene ident cmd p h₂) _ w₂
                (hold_inventory-Holds out scene ident cmd p h₂ w₂ e₂) place-Ended
