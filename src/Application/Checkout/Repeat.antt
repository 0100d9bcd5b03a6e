-- ===== src/Application/Checkout/Repeat.antt =====
-- internal/application/checkout.go: a checkout that is asked for again.
use order_hub.Prelude.{◌≡◌, ◌≢◌, refl, sym, String, ◌==◌, text-differs, some, if◌then◌else◌}
use order_hub.Prelude.Dict.{Dict, lookup}
use order_hub.Domain.Error.{ok, err, bare, idempotency_conflict}
use order_hub.Domain.Scene.{SceneConfig}
use order_hub.Domain.Hash.{ContextDoc, CheckoutDoc}
use order_hub.Port.{Identity, CheckoutPersist, IdempotencyRecord}
use order_hub.Memory.{Repo, insert_checkout, find_idempotency}
use order_hub.Memory.Insert.{idem_taken}
use order_hub.Application.Action.{Outside, World}
use order_hub.Application.Close.{find_scene}
use order_hub.Application.Checkout.Price.{CheckoutCmd}
use order_hub.Application.Checkout.Entry.{checkout, replay, with_defaults, request_hash}

-- The record is the one that a buyer's command leaves under its key.
pub record IsOf (ident : Identity) (cmd : CheckoutCmd) (i : IdempotencyRecord) : Type 0 where
  pub tenant : i.tenant_id ≡ ident.tenant_id
  pub actor : i.actor ≡ ident.user_id
  pub key : i.key ≡ (with_defaults cmd).idempotency_key

module _ (out : Outside) (ctx : ContextDoc → String) (req : CheckoutDoc → String)
    (scenes : Dict SceneConfig) (ident : Identity) (cmd : CheckoutCmd) where
  checkout-found :
      (scene : SceneConfig) (i : IdempotencyRecord) (w : World)
      → cmd.client_order_id ≢ ""
      → find_scene scenes cmd.scene ≡ ok scene
      → find_idempotency ident.tenant_id ident.user_id (with_defaults cmd).idempotency_key w.repo
        ≡ some i
      → checkout out ctx req scenes ident cmd w
        ≡ (replay (request_hash req (with_defaults cmd)) i, w)
  unfolding checkout find_idempotency replay lookup request_hash
  checkout-found scene i w named known found = rw (text-differs named, known, found, checkout) refl

  -- After a checkout was stored with its idempotency record, a checkout of the same buyer under the
  -- same key, with a client order id that is not empty and in a scene that is known, changes nothing
  -- and calls nobody: if its hash is the record's it is answered with the stored answer, and if not
  -- with the conflict of the key.
  pub checkout_replays :
      (scene : SceneConfig) (rec : CheckoutPersist) (i : IdempotencyRecord) (w : World) (r' : Repo)
      → cmd.client_order_id ≢ ""
      → find_scene scenes cmd.scene ≡ ok scene
      → insert_checkout rec w.repo ≡ (ok tt, r')
      → rec.idempotency ≡ some i
      → IsOf ident cmd i
      → checkout out ctx req scenes ident cmd (record w { repo = r' }) ≡ (
        (if i.request_hash == request_hash req (with_defaults cmd)
            then ok i.response
            else err (bare idempotency_conflict)),
        record w { repo = r' },
      )
  unfolding replay find_idempotency
  checkout_replays scene rec i w r' named known stored keyed is =
      checkout-found scene i (record w { repo = r' }) named known
        (rw (sym is.tenant, sym is.actor, sym is.key) (idem_taken rec i w.repo keyed stored))
