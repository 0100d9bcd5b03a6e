-- ===== src/Memory/Insert.antt =====
-- internal/infra/memory/order_repo.go: `InsertCheckout`, which stores an order once.
use order_hub.Prelude.{◌≡◌, ◌≢◌, refl, arith, String, none, some, [], ◌∷◌, ◌++◌}
use order_hub.Prelude.Dict.{lookup, insert, lookup-insert_self}
use order_hub.Domain.Error.{Err, ok, err, bare, client_order_conflict, idempotency_conflict}
use order_hub.Port.{CheckoutPersist, IdempotencyRecord}
use order_hub.Memory.{
  Repo, order_key, idem_key, client_key, append_event, store_checkout, insert_checkout,
}

-- The keys that a checkout takes.
abbrev pub client_key_of : CheckoutPersist → String
client_key_of rec = client_key rec.order.tenant_id rec.order.buyer_user_id rec.order.client_order_id

abbrev pub idem_key_of : IdempotencyRecord → String
idem_key_of i = idem_key i.tenant_id i.actor i.key

-- What `InsertCheckout` leaves in a store that takes the checkout.
pub record Stored (rec : CheckoutPersist) (i : IdempotencyRecord) (r r' : Repo) : Type 0 where
  pub order_stored :
      lookup (order_key rec.order.tenant_id rec.order.order_id) r'.orders ≡ some rec.order
  pub idem_stored : lookup (idem_key_of i) r'.idem ≡ some i
  pub client_stored : lookup (client_key_of rec) r'.client_ix ≡ some rec.order.order_id
  pub event_stored :
      r'.events
      ≡ r.events ++ record { event_id = rec.event.event_id; payload = rec.event; attempts = 0 } ∷ []

stored :
    (rec : CheckoutPersist) (i : IdempotencyRecord) (r : Repo)
    → Stored rec i r (store_checkout rec (insert (idem_key_of i) i r.idem) r)
unfolding store_checkout append_event
stored rec i r = record {
  order_stored = lookup-insert_self _ _ r.orders;
  idem_stored = lookup-insert_self _ _ r.idem;
  client_stored = lookup-insert_self _ _ r.client_ix;
  event_stored = refl;
}

client_taken :
    (rec : CheckoutPersist) (r : Repo) {r' : Repo}
    → insert_checkout rec r ≡ (ok tt, r')
    → lookup (client_key_of rec) r'.client_ix ≡ some rec.order.order_id
unfolding insert_checkout store_checkout append_event
client_taken rec r h =
    ground (arith, lookup-insert_self (client_key_of rec) rec.order.order_id r.client_ix)

pub idem_taken :
    (rec : CheckoutPersist) (i : IdempotencyRecord) (r : Repo) {r' : Repo}
    → rec.idempotency ≡ some i
    → insert_checkout rec r ≡ (ok tt, r')
    → lookup (idem_key_of i) r'.idem ≡ some i
unfolding insert_checkout store_checkout append_event
idem_taken rec i r e h = ground (arith, lookup-insert_self (idem_key_of i) i r.idem)

client_refused :
    (rec : CheckoutPersist) (r : Repo) {id : String}
    → lookup (client_key_of rec) r.client_ix ≡ some id
    → insert_checkout rec r ≡ (err (bare client_order_conflict), r)
unfolding insert_checkout
client_refused rec r h = ground arith

-- A refused checkout leaves the store as it was.
pub insert_checkout-err :
    (rec : CheckoutPersist) (r : Repo) {r' : Repo} {e : Err}
    → insert_checkout rec r ≡ (err e, r')
    → r' ≡ r
unfolding insert_checkout
insert_checkout-err rec r h = ground arith

-- A checkout that is stored found both of its keys free.
pub insert_checkout-ok :
    (rec : CheckoutPersist) (i : IdempotencyRecord) (r : Repo) {r' : Repo}
    → rec.idempotency ≡ some i
    → insert_checkout rec r ≡ (ok tt, r')
    → (lookup (client_key_of rec) r.client_ix ≡ none)
      × (lookup (idem_key_of i) r.idem ≡ none)
      × (r' ≡ store_checkout rec (insert (idem_key_of i) i r.idem) r)
unfolding insert_checkout
insert_checkout-ok rec i r e h = ground arith

-- `InsertCheckout` of an order with an idempotency record: if its client order id is taken, or its
-- idempotency key, it is refused with the matching error, the first of these, and the store stays;
-- otherwise the order, the record, the client index and one event are all stored.
pub insert_checkout_cases :
    (rec : CheckoutPersist) (i : IdempotencyRecord) (r : Repo)
    → rec.idempotency ≡ some i
    → (lookup (client_key_of rec) r.client_ix ≢ none
        → insert_checkout rec r ≡ (err (bare client_order_conflict), r))
      × (lookup (client_key_of rec) r.client_ix ≡ none
          → lookup (idem_key_of i) r.idem ≢ none
          → insert_checkout rec r ≡ (err (bare idempotency_conflict), r))
      × (lookup (client_key_of rec) r.client_ix ≡ none
          → lookup (idem_key_of i) r.idem ≡ none
          → (r' : Repo) × (insert_checkout rec r ≡ (ok tt, r')) × Stored rec i r r')
unfolding insert_checkout
insert_checkout_cases rec i r e = (
  λ taken. ground arith,
  λ free used. ground arith,
  λ free unused.
      (store_checkout rec (insert (idem_key_of i) i r.idem) r, ground arith, stored rec i r),
)

-- After a checkout was stored, no checkout of the same buyer under the same client order id is
-- stored, whatever its order id, key and content: the second is refused and changes nothing.
pub one_order_per_client_id :
    (rec rec' : CheckoutPersist) (r : Repo) {r' : Repo}
    → client_key_of rec' ≡ client_key_of rec
    → insert_checkout rec r ≡ (ok tt, r')
    → insert_checkout rec' r' ≡ (err (bare client_order_conflict), r')
one_order_per_client_id rec rec' r {r'} same h =
    client_refused rec' r' {id = rec.order.order_id} (rw same (client_taken rec r h))
