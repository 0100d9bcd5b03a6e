-- ===== src/Application/Checkout/Entry.antt =====
-- internal/application/checkout.go: `Checkout` itself, its replays and its lock.
use order_hub.Prelude.{String, ◌<>◌, ◌==◌, Bool, true, false, not, none, some, if◌then◌else◌}
use order_hub.Prelude.Dict.{Dict}
use order_hub.Domain.Error.{
  Err, Result, ok, err, bare, wrapped, order_not_found, invalid_argument, idempotency_conflict,
  client_order_conflict,
}
use order_hub.Domain.Scene.{SceneConfig}
use order_hub.Domain.Hash.{ContextDoc, CheckoutDoc, checkout_hash}
use order_hub.Port.{Identity, CheckoutResult, IdempotencyRecord}
use order_hub.Memory
use order_hub.Application.Action.{
  Outside, Action, pure, raise, lift, attempt, ignore, finally, reads, ask, ◌>>=◌, ◌>>◌, raise_if,
  call_unit, lock_try, lock_release,
}
use order_hub.Application.Preview.{ledger_amount, ledger_asset}
use order_hub.Application.Close.{find_scene}
use order_hub.Application.Checkout.Price.{CheckoutCmd, price}
use order_hub.Application.Checkout.Saga.{saga}

-- The command with the defaults of its key and its channel.
unfoldable pub with_defaults : CheckoutCmd → CheckoutCmd
with_defaults cmd = record cmd {
  idempotency_key = if cmd.idempotency_key == "" then cmd.client_order_id else cmd.idempotency_key;
  channel = if cmd.channel == "" then "app" else cmd.channel;
}

unfoldable pub request_hash : (CheckoutDoc → String) → CheckoutCmd → String
request_hash digest cmd = checkout_hash digest cmd.client_order_id cmd.quote_id (record {
  scene = cmd.scene;
  channel = cmd.channel;
  currency = "";
  coupon_ids = cmd.coupon_ids;
  items = cmd.items;
  ledger_pay = ledger_amount cmd.ledger_pay;
  asset_code = ledger_asset cmd.ledger_pay;
  ext = cmd.ext;
})

-- A key that has been used: the same request is answered as before, another one is a conflict.
unfoldable pub replay : String → IdempotencyRecord → Result CheckoutResult
replay req_hash rec =
    if rec.request_hash == req_hash then ok rec.response else err (bare idempotency_conflict)

abbrev pub lock_key : Identity → CheckoutCmd → String
lock_key ident cmd =
    "checkout:" <> ident.tenant_id <> ":" <> ident.user_id <> ":" <> cmd.client_order_id

module _ (out : Outside) (ctx : ContextDoc → String) (req : CheckoutDoc → String) where
  -- The part under the lock.
  unfoldable pub locked : SceneConfig → Identity → CheckoutCmd → String → Action CheckoutResult
  locked scene ident cmd req_hash = do
    found ←
        reads
          (λ r. ok (Memory.find_idempotency ident.tenant_id ident.user_id cmd.idempotency_key r))
    elim found [
      | some rec ↦ lift (replay req_hash rec)
      | none ↦ do p ← price out ctx scene ident cmd; saga out scene ident cmd req_hash p
    ]

  -- `errors.Is(err, ErrOrderNotFound)`.
  abbrev is_order_not_found : Err → Bool
  is_order_not_found e = elim e.kind [ order_not_found ↦ true | _ ↦ false ]

  -- `existing` of the client's order id: one that is there is a conflict.
  unfoldable pub check_client_order : Identity → CheckoutCmd → Action (Unit {0})
  check_client_order ident cmd = do
    found ←
        attempt
          (reads (Memory.find_by_client_order_id ident.tenant_id ident.user_id cmd.client_order_id))
    elim found [
      | ok (some _) ↦ raise (bare client_order_conflict)
      | ok none ↦ pure tt
      | err e ↦ if is_order_not_found e then pure tt else raise e
    ]

  unfoldable pub take_lock : Identity → CheckoutCmd → Action (Unit {0})
  take_lock ident cmd = do
    taken ← ask out.lock_reply (lock_try (lock_key ident cmd))
    raise_if (not taken) (wrapped idempotency_conflict "checkout in progress")

  unfoldable pub checkout : Dict SceneConfig → Identity → CheckoutCmd → Action CheckoutResult
  checkout scenes ident cmd₀ = do
    raise_if (cmd₀.client_order_id == "") (wrapped invalid_argument "client_order_id required")
    scene ← lift (find_scene scenes cmd₀.scene)
    let cmd = with_defaults cmd₀
    let req_hash = request_hash req cmd
    found ←
        reads
          (λ r. ok (Memory.find_idempotency ident.tenant_id ident.user_id cmd.idempotency_key r))
    elim found [
      | some rec ↦ lift (replay req_hash rec)
      | none ↦ do
        check_client_order ident cmd
        take_lock ident cmd
        finally (locked scene ident cmd req_hash)
            (ignore (call_unit out (lock_release (lock_key ident cmd))))
    ]
