-- ===== src/Application/Checkout/Saga/Stored.antt =====
-- internal/application/checkout.go: what a checkout that succeeds leaves in the store.
use order_hub.Prelude.{
  String, ◌==◌, Bool, true, false, Option, none, some, [], ◌∷◌, ◌++◌, ◌≡◌, refl, sym, ap, ◌∙◌,
  subst, arith, if◌then◌else◌, eq_refl,
}
use order_hub.Prelude.Dict.{lookup, insert, lookup-insert}
use order_hub.Domain.Error.{ok}
use order_hub.Domain.Scene.{SceneConfig}
use order_hub.Domain.Order.{Order}
use order_hub.Domain.Event.{EventType, new_event, order_event_data}
use order_hub.Port.{Identity, CheckoutResult, IdempotencyRecord, PaymentIntent}
use order_hub.Memory.{
  Repo, order_key, idem_key, client_key, append_event, store_checkout, insert_checkout,
  update_order, update_payment_intent, update_idempotency_response,
}
use order_hub.Memory.Insert.{insert_checkout-ok}
use order_hub.Application.Checkout.Price.{CheckoutCmd, Priced}
use order_hub.Application.Checkout.Saga.{Held, new_order, new_result, new_record, new_persist}

-- The order with the payment intent that was opened for it, if one was.
abbrev pub with_intent : Option PaymentIntent → Order → Order
with_intent none o = o
with_intent (some intent) o = record o {
  payment = record { payment_intent_id = intent.intent_id; channel = intent.channel };
}

payment_written :
    (tenant order_id : String) (intent : PaymentIntent) (o : Order) (r : Repo)
    → lookup (order_key tenant order_id) r.orders ≡ some o
    → (update_payment_intent tenant order_id intent.intent_id intent.channel r).1 ≡ record r {
      orders = insert (order_key tenant order_id) (with_intent (some intent) o) r.orders;
    }
unfolding update_payment_intent update_order
payment_written tenant order_id intent o r found = ground arith

response_written :
    (tenant actor key : String) (resp : CheckoutResult) (r : Repo) {i : IdempotencyRecord}
    → lookup (idem_key tenant actor key) r.idem ≡ some i
    → (update_idempotency_response tenant actor key resp r).1
      ≡ record r { idem = insert (idem_key tenant actor key) (record i { response = resp }) r.idem }
unfolding update_idempotency_response
response_written tenant actor key resp r found = ground arith

-- A second write under a key hides the first one.
overwritten :
    {V : Type 0} (is_key : Bool) (first second : V) (before : Option V) {between : Option V}
    → between ≡ (if is_key then some first else before)
    → (if is_key then some second else between) ≡ (if is_key then some second else before)
overwritten true first second before h = refl
overwritten false first second before h = h

module _ (scene : SceneConfig) (ident : Identity) (cmd : CheckoutCmd) (hash : String) (p : Priced)
    (held : Held) (event_id : String) where
  -- The order that is built from what is held.
  abbrev pub order : Order
  order = new_order scene ident cmd p held

  abbrev pub answer : Option PaymentIntent → CheckoutResult
  answer intent = record (new_result order) { payment_intent = intent }

  abbrev pub order_at : String
  order_at = order_key ident.tenant_id p.order_id

  abbrev pub idem_at : String
  idem_at = idem_key ident.tenant_id ident.user_id cmd.idempotency_key

  abbrev pub client_at : String
  client_at = client_key ident.tenant_id ident.user_id cmd.client_order_id

  -- The store after the checkout is the one before, with the order under its key, the answer under
  -- the idempotency key, the order's id in the client index, and the event.
  pub record Stored (intent : Option PaymentIntent) (r r' : Repo) : Type 0 where
    pub orders :
        (k : String)
        → lookup k r'.orders
          ≡ (if order_at == k then some (with_intent intent order) else lookup k r.orders)
    pub idem :
        (k : String)
        → lookup k r'.idem ≡ (
            if idem_at == k
            then some (new_record ident cmd hash p (answer intent))
            else lookup k r.idem)
    pub client_ix :
        (k : String)
        → lookup k r'.client_ix ≡ (if client_at == k then some p.order_id else lookup k r.client_ix)
    pub events :
        r'.events
        ≡ r.events
          ++ record {
            event_id = event_id;
            payload =
                new_event event_id EventType.created ident.tenant_id cmd.trace_id p.at
                  (order_event_data order);
            attempts = 0;
          }
            ∷ []
    pub refunds : r'.refunds ≡ r.refunds
    pub tickets : r'.tickets ≡ r.tickets

  -- Both keys of the checkout were free.
  abbrev pub IsNew : Repo → Type 0
  IsNew r = (lookup client_at r.client_ix ≡ none) × (lookup idem_at r.idem ≡ none)

  pub inserted-Stored :
      (r : Repo) {r' : Repo}
      → insert_checkout (new_persist scene ident cmd hash p held event_id) r ≡ (ok tt, r')
      → IsNew r × Stored none r r'
  unfolding new_persist new_order new_record new_result store_checkout append_event new_event
  inserted-Stored r {r'} h =
      let rec = new_persist scene ident cmd hash p held event_id in
      let (client_free, key_free, same) =
        insert_checkout-ok rec (new_record ident cmd hash p (new_result order)) r refl h in
      (
        (client_free, key_free),
        subst (Stored none r) (sym same) record {
          orders = λ k. lookup-insert order_at k order r.orders;
          idem = λ k. lookup-insert idem_at k _ r.idem;
          client_ix = λ k. lookup-insert client_at k p.order_id r.client_ix;
          events = refl;
          refunds = refl;
          tickets = refl;
        },
      )

  -- The store's two writes of a payment intent.
  abbrev pub intent_written : PaymentIntent → Repo → Repo
  intent_written intent r =
      (update_idempotency_response ident.tenant_id ident.user_id cmd.idempotency_key
        (answer (some intent))
        (update_payment_intent ident.tenant_id p.order_id intent.intent_id intent.channel r).1).1

  intent_written-eq :
      (intent : PaymentIntent) (r : Repo)
      → lookup order_at r.orders ≡ some order
      → lookup idem_at r.idem ≡ some (new_record ident cmd hash p (answer none))
      → intent_written intent r ≡ record r {
        orders = insert order_at (with_intent (some intent) order) r.orders;
        idem = insert idem_at (new_record ident cmd hash p (answer (some intent))) r.idem;
      }
  unfolding new_record
  intent_written-eq intent r found recorded =
      let r₁ : Repo = record r {
        orders = insert order_at (with_intent (some intent) order) r.orders;
      } in
      ap
        (λ (x : Repo).
          (update_idempotency_response ident.tenant_id ident.user_id cmd.idempotency_key
            (answer (some intent)) x).1)
        (payment_written ident.tenant_id p.order_id intent order r found)
      ∙ response_written ident.tenant_id ident.user_id cmd.idempotency_key (answer (some intent)) r₁
          recorded

  pub intent_written-Stored :
      (intent : PaymentIntent) (r r' : Repo)
      → Stored none r r'
      → Stored (some intent) r (intent_written intent r')
  intent_written-Stored intent r r' h =
      let found = h.orders order_at ∙ rw (eq_refl order_at) refl in
      let recorded = h.idem idem_at ∙ rw (eq_refl idem_at) refl in
      subst (Stored (some intent) r) (sym (intent_written-eq intent r' found recorded)) record {
        orders = λ k.
            lookup-insert order_at k _ r'.orders ∙ overwritten (order_at == k) _ _ _ (h.orders k);
        idem = λ k. lookup-insert idem_at k _ r'.idem ∙ overwritten (idem_at == k) _ _ _ (h.idem k);
        client_ix = h.client_ix;
        events = h.events;
        refunds = h.refunds;
        tickets = h.tickets;
      }
