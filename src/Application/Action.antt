-- ===== src/Application/Action.antt =====
-- internal/application/port: calls that leave the program, and the state that a service changes.
-- The other hubs, the payment channel, the fulfilment adapters, the clock, the identifiers, the
-- preview cache and the lock are parameters: each answers a call by any function of the calls made
-- so far. The state is the store of the orders and the list of the calls, the latest first.
use order_hub.Prelude.{◌≡◌, ap, ℕ, String, Bool, true, false, List, ◌∷◌, if◌then◌else◌}
use order_hub.Prelude.Int.{ℤ}
use order_hub.Domain.Error.{Err, Result, ok, err}
use order_hub.Domain.Order.{Order, OrderLine, Refund}
use order_hub.Domain.Event.{Event}
use order_hub.Port.{
  QuoteRequest, QuoteResult, ReservationResult, FreezeRequest, PaymentIntent, PreviewSnapshot,
  CompensationTicket, TransitionCmd,
}
use order_hub.Memory.{Repo}
use order_hub.Memory

-- The calls of the ports, each with its arguments.
pub data Call : Type 0 where
  offer_quote : QuoteRequest → Call
  offer_reserve offer_commit offer_release offer_renew : String → String → String → String → Call
  offer_reverse : String → String → String → ℤ → String → Call
  offer_get_reservation : String → String → Call
  ledger_balance : String → String → String → Call
  ledger_freeze : FreezeRequest → Call
  ledger_capture ledger_release : String → String → Call
  ledger_credit : String → String → String → ℤ → String → String → Call
  pay_create_intent : Order → Call
  pay_close_intent : String → Call
  pay_refund : Refund → Call
  fulfill_rollback : String → String → String → List OrderLine → Call
  fulfill_reserve fulfill_commit fulfill_release : String → Order → Call
  cache_put : String → String → String → PreviewSnapshot → Call
  cache_get : String → String → Call
  lock_try lock_release : String → Call
  publish : Event → Call
  clock_now new_order_id new_event_id new_refund_id : Call

-- What the outside answers, by the kind of the answer.
pub record Outside : Type 0 where
  pub unit_reply : List Call → Call → Result (Unit {0})
  pub text_reply : List Call → Call → Result String
  pub quote_reply : List Call → Call → Result QuoteResult
  pub reservation_reply : List Call → Call → Result ReservationResult
  pub intent_reply : List Call → Call → Result PaymentIntent
  pub balance_reply : List Call → Call → Result ℤ
  pub snapshot_reply : List Call → Call → Result PreviewSnapshot
  pub lock_reply : List Call → Call → Result Bool
  pub time_reply : List Call → Call → ℕ
  pub id_reply : List Call → Call → String

pub record World : Type 0 where
  pub repo : Repo
  pub calls : List Call

-- A method of a service. What was written and called before an error stays.
abbrev pub Action : Type 0 → Type 0
Action A = World → Result A × World

module _ {A : Type 0} where
  abbrev pub pure : A → Action A
  pure a w = (ok a, w)

  abbrev pub raise : Err → Action A
  raise e w = (err e, w)

  -- A result that was computed: `if err != nil { return err }`.
  abbrev pub lift : Result A → Action A
  lift r w = (r, w)

  -- The result as a value: `x, err := …`.
  abbrev pub attempt : Action A → Action (Result A)
  attempt m w = let (r, w') = m w in (ok r, w')

  -- `_ = …`.
  abbrev pub ignore : Action A → Action (Unit {0})
  ignore m w = let (r, w') = m w in (ok tt, w')

  -- `defer last`: it runs after `m` however that ends, and its own result is dropped.
  abbrev pub finally : Action A → Action (Unit {0}) → Action A
  finally m last w = let (r, w') = m w in (r, (last w').1)

  -- A read of the store.
  abbrev pub reads : (Repo → Result A) → Action A
  reads f w = (f w.repo, w)

  -- A method of the store.
  abbrev pub on_repo : (Repo → Result A × Repo) → Action A
  on_repo f w = let (r, repo) = f w.repo in (r, record w { repo = repo })

  -- A call that leaves the program.
  abbrev pub ask : (List Call → Call → Result A) → Call → Action A
  ask reply c w = (reply w.calls c, record w { calls = c ∷ w.calls })

infixl 5 ◌>>=◌ ◌>>◌
abbrev pub ◌>>=◌ : {A B : Type 0} → Action A → (A → Action B) → Action B
◌>>=◌ m f w = let (r, w') = m w in elim r [ ok a ↦ f a w' | err e ↦ (err e, w') ]

abbrev pub ◌>>◌ : {A B : Type 0} → Action A → Action B → Action B
m >> k = m >>= λ _. k

-- A step whose result is known.
pub bind-ok :
    {A B : Type 0} (m : Action A) (f : A → Action B) (w : World) {w' : World} {a : A}
    → m w ≡ (ok a, w')
    → (m >>= f) w ≡ f a w'
bind-ok m f w h = ap (λ x. ((λ _. x) >>= f) w) h

pub bind-err :
    {A B : Type 0} (m : Action A) (f : A → Action B) (w : World) {w' : World} {e : Err}
    → m w ≡ (err e, w')
    → (m >>= f) w ≡ (err e, w')
bind-err m f w h = ap (λ x. ((λ _. x) >>= f) w) h

-- `if test { return err }`.
abbrev pub raise_if : Bool → Err → Action (Unit {0})
raise_if true e w = (err e, w)
raise_if false e w = (ok tt, w)

-- `if test { if err := m; err != nil { return err } }`.
abbrev pub when : Bool → Action (Unit {0}) → Action (Unit {0})
when test m w = if test then m w else (ok tt, w)

module _ (out : Outside) where
  abbrev pub now : Action ℕ
  now w = (ok (out.time_reply w.calls clock_now), record w { calls = clock_now ∷ w.calls })

  abbrev pub fresh_id : Call → Action String
  fresh_id c w = (ok (out.id_reply w.calls c), record w { calls = c ∷ w.calls })

  abbrev pub call_unit : Call → Action (Unit {0})
  call_unit = ask out.unit_reply

  abbrev pub call_text : Call → Action String
  call_text = ask out.text_reply

  -- The store's own reading of the clock stamps what it writes.
  unfoldable pub store_transition : TransitionCmd → Action Order
  store_transition cmd = now >>= λ at. on_repo (Memory.transition cmd at)

  unfoldable pub store_compensation : CompensationTicket → Action (Unit {0})
  store_compensation t = now >>= λ at. on_repo λ r. (ok tt, Memory.insert_compensation t at r)
