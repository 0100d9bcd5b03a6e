-- ===== src/Application/Cancel/Released.antt =====
-- internal/application/query_cancel.go: what a cancelled order held is given back or ticketed.
use order_hub.Prelude.{
  ℕ, any-append_left, any-append_right, ◌≡◌, refl, sym, ap, subst, ◌∙◌, ◌⊎◌, inl, inr, String, ◌<>◌,
  ◌==◌, eq_refl, Bool, true, false, not, List, [], ◌∷◌, ◌++◌, Bool-cases,
}
use mathlib.Core.List.{append_assoc, append-nil}
use order_hub.Domain.Error.{Result, ok, Result-cases}
use order_hub.Domain.Status.{pending_pay, status_eq}
use order_hub.Domain.Order.{Order, has_offer_reservation, has_ledger_freeze}
use order_hub.Port.{CompensationTicket, TransitionCmd, new_ticket}
use order_hub.Memory.{insert_compensation}
use order_hub.Memory.Tickets.{has_open, is_open, numbered}
use order_hub.Application.Action.{
  Outside, World, Call, Action, pure, attempt, when, ignore, call_unit, store_compensation, bind-ok,
  ◌>>◌, offer_release, ledger_release, fulfill_release, pay_close_intent, clock_now, new_event_id,
  store_transition,
}
use order_hub.Application.Cancel.{undo, release_all, cancel_cmd, cancel_order, after_cancel}

-- A step that only made calls and only added tickets.
pub record Grows (w w' : World) : Type 0 where
  pub more_calls : List Call
  pub calls : w'.calls ≡ more_calls ++ w.calls
  pub more_tickets : List CompensationTicket
  pub tickets : w'.repo.tickets ≡ w.repo.tickets ++ more_tickets

Grows-refl : (w : World) → Grows w w
Grows-refl w = record {
  more_calls = [];
  calls = refl;
  more_tickets = [];
  tickets = sym (append-nil w.repo.tickets);
}

Grows-trans : {u v w : World} → Grows u v → Grows v w → Grows u w
Grows-trans {u} {v} {w} g h = record {
  more_calls = h.more_calls ++ g.more_calls;
  calls =
      h.calls
      ∙ ap (λ cs. h.more_calls ++ cs) g.calls
      ∙ sym (append_assoc h.more_calls g.more_calls u.calls);
  more_tickets = g.more_tickets ++ h.more_tickets;
  tickets =
      h.tickets
      ∙ ap (λ ts. ts ++ h.more_tickets) g.tickets
      ∙ append_assoc u.repo.tickets g.more_tickets h.more_tickets;
}

-- The call was made and succeeded, or an open ticket asks for it.
abbrev pub Handled : Outside → Call → String → String → String → World → Type 0
Handled out c kind tenant_id ref w =
    ((later earlier : List Call) × (w.calls ≡ later ++ c ∷ earlier)
      × (out.unit_reply earlier c ≡ ok tt))
    ⊎ (has_open kind tenant_id ref w.repo.tickets ≡ true)

has_open-append :
    (kind tenant_id ref : String) (ts us : List CompensationTicket)
    → has_open kind tenant_id ref ts ≡ true
    → has_open kind tenant_id ref (ts ++ us) ≡ true
unfolding has_open
has_open-append kind tenant_id ref ts us h = any-append_left _ ts us h

has_open-last :
    (kind tenant_id ref : String) (ts : List CompensationTicket) (t : CompensationTicket)
    → has_open kind tenant_id ref (t ∷ []) ≡ true
    → has_open kind tenant_id ref (ts ++ t ∷ []) ≡ true
unfolding has_open
has_open-last kind tenant_id ref ts t h = any-append_right _ ts (t ∷ []) h

-- The ticket that a failed call leaves is open.
has_open-made :
    (kind tenant_id ref payload : String) (id at : ℕ)
    → has_open kind tenant_id ref (numbered id at (new_ticket kind tenant_id ref payload) ∷ [])
      ≡ true
unfolding has_open numbered is_open
has_open-made kind tenant_id ref payload id at =
    rw (eq_refl kind, eq_refl tenant_id, eq_refl ref) refl

Handled-Grows :
    (out : Outside) (c : Call) (kind tenant_id ref : String) {w w' : World}
    → Handled out c kind tenant_id ref w
    → Grows w w'
    → Handled out c kind tenant_id ref w'
Handled-Grows out c kind tenant_id ref (inl (later, earlier, made, done)) g = inl (
  g.more_calls ++ later,
  earlier,
  g.calls
      ∙ ap (λ cs. g.more_calls ++ cs) made
      ∙ sym (append_assoc g.more_calls later (c ∷ earlier)),
  done,
)
Handled-Grows out c kind tenant_id ref {w} (inr ticketed) g = inr (
    ap (has_open kind tenant_id ref) g.tickets
    ∙ has_open-append kind tenant_id ref w.repo.tickets g.more_tickets ticketed)

module _ (out : Outside) where
  undo-Handled :
      (c : Call) (kind tenant_id ref payload : String) (w : World)
      → let after = undo out (call_unit out c) kind tenant_id ref payload w in
        (after.0 ≡ ok tt) × Grows w after.1 × Handled out c kind tenant_id ref after.1
  unfolding undo store_compensation insert_compensation
  undo-Handled c kind tenant_id ref payload w = elim (Result-cases (out.unit_reply w.calls c)) [
    | inl (u, done) ↦
        rw (done, undo)
          (
            refl,
            record {
              more_calls = c ∷ [];
              calls = refl;
              more_tickets = [];
              tickets = sym (append-nil w.repo.tickets);
            },
            inl ([], w.calls, refl, done),
          )
    | inr (e, failed) ↦
        rw (failed, undo)
          (
            refl,
            record {
              more_calls = clock_now ∷ c ∷ [];
              calls = refl;
              more_tickets = numbered _ _ (new_ticket kind tenant_id ref payload) ∷ [];
              tickets = refl;
            },
            inr (
                has_open-last kind tenant_id ref w.repo.tickets _
                  (has_open-made kind tenant_id ref payload _ _)),
          )
  ]

  -- A step that ended well, and the one that follows.
  then_next : (m k : Action (Unit {0})) (w : World) → (m w).0 ≡ ok tt → (m >> k) w ≡ k (m w).1
  then_next m k w done = bind-ok m (λ _. k) w (ap (λ (r : Result (Unit {0})). (r, (m w).1)) done)

  -- A release that is made when the order holds the thing.
  abbrev HandledWhen : Bool → Call → String → String → String → World → Type 0
  HandledWhen held c kind tenant_id ref w = held ≡ true → Handled out c kind tenant_id ref w

  when-Handled :
      (held : Bool) (c : Call) (kind tenant_id ref payload : String) (w : World)
      → let after = when held (undo out (call_unit out c) kind tenant_id ref payload) w in
        (after.0 ≡ ok tt) × Grows w after.1 × HandledWhen held c kind tenant_id ref after.1
  when-Handled false c kind tenant_id ref payload w = (refl, Grows-refl w, λ held. cc)
  when-Handled true c kind tenant_id ref payload w =
      let (done, grown, handled) = undo-Handled c kind tenant_id ref payload w in
      (done, grown, λ held. handled)

  abbrev pub offer_call : Order → Call
  offer_call o =
      offer_release o.tenant_id o.promotion.reservation_id o.order_id
        ("order:" <> o.order_id <> ":release")

  abbrev pub ledger_call : Order → Call
  ledger_call o = ledger_release o.ledger.freeze_id ("order:release:" <> o.order_id)

  -- What `release_all` leaves of an order's holds.
  abbrev pub AllHandled : Order → World → Type 0
  AllHandled o w =
      HandledWhen (has_offer_reservation o) (offer_call o) "offer_release" o.tenant_id
        o.promotion.reservation_id w
      × HandledWhen (has_ledger_freeze o) (ledger_call o) "ledger_release" o.tenant_id
          o.ledger.freeze_id w
      × Handled out (fulfill_release o.scene o) "fulfill_release" o.tenant_id o.order_id w

  close_intent-Grows :
      (o : Order) (w : World)
      → let after =
          when
            (not (o.payment.payment_intent_id == ""))
            (ignore (call_unit out (pay_close_intent o.payment.payment_intent_id)))
            w in
        (after.0 ≡ ok tt) × Grows w after.1
  close_intent-Grows o w = elim (Bool-cases (not (o.payment.payment_intent_id == ""))) [
    | inr no_intent ↦ rw no_intent (refl, Grows-refl w)
    | inl intent ↦ rw intent (
      refl,
      record {
        more_calls = pay_close_intent o.payment.payment_intent_id ∷ [];
        calls = refl;
        more_tickets = [];
        tickets = sym (append-nil w.repo.tickets);
      },
    )
  ]

  release_all-AllHandled :
      (o : Order) (w : World)
      → ((release_all out o w).0 ≡ ok tt) × AllHandled o (release_all out o w).1
  unfolding release_all
  release_all-AllHandled o w =
      let offer = when (has_offer_reservation o) (
        undo out (call_unit out (offer_call o)) "offer_release" o.tenant_id
          o.promotion.reservation_id o.order_id) in
      let ledger = when (has_ledger_freeze o) (
        undo out (call_unit out (ledger_call o)) "ledger_release" o.tenant_id o.ledger.freeze_id
          o.order_id) in
      let stock =
        undo out (call_unit out (fulfill_release o.scene o)) "fulfill_release" o.tenant_id
          o.order_id o.scene in
      let intent =
        when (not (o.payment.payment_intent_id == ""))
          (ignore (call_unit out (pay_close_intent o.payment.payment_intent_id))) in
      let w₁ = (offer w).1 in
      let w₂ = (ledger w₁).1 in
      let w₃ = (stock w₂).1 in
      let (done₁, grown₁, handled₁) =
        when-Handled (has_offer_reservation o) (offer_call o) "offer_release" o.tenant_id
          o.promotion.reservation_id o.order_id w in
      let (done₂, grown₂, handled₂) =
        when-Handled (has_ledger_freeze o) (ledger_call o) "ledger_release" o.tenant_id
          o.ledger.freeze_id o.order_id w₁ in
      let (done₃, grown₃, handled₃) =
        undo-Handled (fulfill_release o.scene o) "fulfill_release" o.tenant_id o.order_id o.scene
          w₂ in
      let (done₄, grown₄) = close_intent-Grows o w₃ in
      let whole =
        then_next offer (ledger >> (stock >> intent)) w done₁
        ∙ then_next ledger (stock >> intent) w₁ done₂
        ∙ then_next stock intent w₂ done₃ in
      let later = Grows-trans grown₃ grown₄ in
      subst (λ (x : Result (Unit {0}) × World). (x.0 ≡ ok tt) × AllHandled o x.1) (sym whole)
        (
          done₄,
          (
            (λ held.
                Handled-Grows out (offer_call o) "offer_release" o.tenant_id
                  o.promotion.reservation_id (handled₁ held) (Grows-trans grown₂ later)),
            (λ held.
                Handled-Grows out (ledger_call o) "ledger_release" o.tenant_id o.ledger.freeze_id
                  (handled₂ held) later),
            Handled-Grows out (fulfill_release o.scene o) "fulfill_release" o.tenant_id o.order_id
                handled₃ grown₄,
          ),
        )

  -- The world when `cancel` asks the store for the transition, and its command.
  abbrev pub asked : World → World
  asked w = record w { calls = new_event_id ∷ clock_now ∷ w.calls }

  abbrev pub asked_cmd : Order → String → World → TransitionCmd
  asked_cmd o trace_id w =
      cancel_cmd out (out.time_reply w.calls clock_now)
        (out.id_reply (clock_now ∷ w.calls) new_event_id) trace_id o

  cancel_order-moved :
      (o updated : Order) (trace_id : String) (w w' : World)
      → o.status ≡ pending_pay
      → store_transition out (asked_cmd o trace_id w) (asked w) ≡ (ok updated, w')
      → cancel_order out o trace_id w ≡ (release_all out updated >> pure updated) w'
  unfolding cancel_order after_cancel
  cancel_order-moved o updated trace_id w w' pending moved =
      let open_ : not (status_eq o.status pending_pay) ≡ false =
        ap (λ s. not (status_eq s pending_pay)) pending in
      rw (open_, cancel_order)
        (bind-ok (attempt (store_transition out (asked_cmd o trace_id w))) (after_cancel out o)
          (asked w) {w' = w'} {a = ok updated}
          (ap (λ (x : Result Order × World). (ok x.0, x.1)) moved))

  -- If an order awaits payment and the store moves it to cancelled, then the cancellation returns the
  -- moved order, and each of its holds - the reservation of the offer, the freeze of the ledger, if it
  -- has them, and the reserved stock - was released by a call that succeeded, or an open ticket in the
  -- store asks for the release, whatever the other hubs answer.
  pub cancel_order-AllHandled :
      (o updated : Order) (trace_id : String) (w w' : World)
      → o.status ≡ pending_pay
      → store_transition out (asked_cmd o trace_id w) (asked w) ≡ (ok updated, w')
      → ((cancel_order out o trace_id w).0 ≡ ok updated)
        × AllHandled updated (cancel_order out o trace_id w).1
  cancel_order-AllHandled o updated trace_id w w' pending moved =
      let (done, all) = release_all-AllHandled updated w' in
      let whole =
        cancel_order-moved o updated trace_id w w' pending moved
        ∙ bind-ok (release_all out updated) (λ _. pure updated) w'
            (ap (λ (r : Result (Unit {0})). (r, (release_all out updated w').1)) done) in
      subst (λ (x : Result Order × World). (x.0 ≡ ok updated) × AllHandled updated x.1) (sym whole)
        (refl, all)
