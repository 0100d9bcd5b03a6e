-- ===== src/Boot/Forgery.antt =====
-- internal/boot/app.go: which servers take payment callbacks that nobody signed.
use order_hub.Prelude.{◌≡◌, ◌≢◌, refl, ◌⊎◌, inl, inr, arith, ℕ, String, true, eq_iff, text-differs}
use order_hub.Prelude.GoText.{to_lower}
use order_hub.Domain.Error.{Result}
use order_hub.Domain.Hash.{ContextDoc, CheckoutDoc}
use order_hub.Port.{Identity}
use order_hub.Application.Action.{Outside}
use order_hub.Conf.{Config}
use order_hub.Iface.Wire.{Request, value_of}
use order_hub.Iface.Access.{verify_payment_sig}
use order_hub.Iface.Server.{Server, Binder}
use order_hub.Iface.Handlers.{read_callback, accept_callback}
use order_hub.Iface.Router.Guards.{IsTurnedAway}
use order_hub.Boot.{Surroundings, Store, handlers_of}

-- Signed with the secret of the configuration; or it has none, and the other hubs are mocks.
abbrev pub IsGenuine : Config → (String → String → String) → String → Request → Type 0
IsGenuine cfg mac body req =
    ((cfg.payment_callback_secret ≡ "") × (cfg.mock_deps ≡ true))
    ⊎ ((cfg.payment_callback_secret ≢ "")
        × (mac cfg.payment_callback_secret body
            ≡ to_lower (value_of req.headers "X-Payment-Signature")))

module _ (cfg : Config) (around : Surroundings) (store : Store) (out : Outside)
    (ctx : ContextDoc → String) (check : CheckoutDoc → String) (binder : Binder)
    (auth : String → Result Identity) (mac : String → String → String) (stamp : ℕ)
    (id body : String) (req : Request) where
  abbrev pub built : Server
  built = handlers_of cfg around store out ctx check binder auth mac stamp

  taken :
      IsGenuine cfg mac body req
      → read_callback built id req body ≡ accept_callback built id req (binder.callback_req body)
  unfolding handlers_of read_callback verify_payment_sig
  taken (inl (none, mocks)) = rw ((eq_iff cfg.payment_callback_secret "").1 none, mocks) refl
  taken (inr (some, signed)) =
      rw (text-differs some) (rw ((eq_iff (mac cfg.payment_callback_secret body) _).1 signed) refl)

  refused : ¬ IsGenuine cfg mac body req → IsTurnedAway (read_callback built id req body)
  unfolding handlers_of read_callback verify_payment_sig
  refused not_taken w = ground (
    arith,
    not_taken,
    eq_iff cfg.payment_callback_secret "",
    eq_iff (mac cfg.payment_callback_secret body)
        (to_lower (value_of req.headers "X-Payment-Signature")),
  )

  -- A server that `Build` makes acts on a payment callback, handing what its body binds to to the
  -- payment service, if the callback is signed with the configured secret, or if no secret is
  -- configured and the other hubs are mocks, signed or not. On every other callback it does not act:
  -- it answers with status 401, and nothing is changed.
  pub callback_taken :
      (IsGenuine cfg mac body req
        → read_callback built id req body ≡ accept_callback built id req (binder.callback_req body))
      × (¬ IsGenuine cfg mac body req → IsTurnedAway (read_callback built id req body))
  callback_taken = (taken, refused)
