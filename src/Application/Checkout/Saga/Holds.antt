-- ===== src/Application/Checkout/Saga/Holds.antt =====
-- internal/application/checkout.go: what a checkout still holds at the other hubs when it ends.
use order_hub.Prelude.{
  String, ◌<>◌, ◌==◌, Bool, true, false, not, ◌&&◌, List, [], ◌∷◌, ◌≡◌, refl, ap, sym, subst, ◌∙◌,
  inl, inr, if◌then◌else◌, Bool-cases, eq_refl, eq_iff, arith,
}
use order_hub.Domain.Error.{
  Err, Result, wrapped, ledger_freeze as ledger_freeze_failed, inventory_reserve, ok, err,
  Result-cases,
}
use order_hub.Domain.Order.{OrderLine}
use order_hub.Domain.Scene.{SceneConfig, needs_ledger, needs_inventory}
use order_hub.Prelude.Int.{pos, ltb_ℤ}
use order_hub.Port.{Identity, FreezeRequest, ReservationResult}
use order_hub.Application.Action.{
  Call, Outside, World, Action, ◌>>=◌, pure, raise, bind-ok, bind-err, call_text, offer_reserve,
  offer_release, ledger_freeze, ledger_release, fulfill_reserve, fulfill_rollback, when, ignore,
  call_unit, ◌>>◌,
}
use order_hub.Application.Checkout.Price.{CheckoutCmd, Priced}
use order_hub.Application.Checkout.Saga.{
  Held, nothing_held, rollback, or_rollback, hold_offer, hold_ledger, hold_inventory, new_order,
}

abbrev reserved_id : Result ReservationResult → String → String
reserved_id (ok res) before = res.reservation_id
reserved_id (err _) before = before

abbrev frozen_id : Result String → String → String
frozen_id (ok id) before = id
frozen_id (err _) before = before

abbrev accepted : Result (Unit {0}) → Bool → Bool
accepted (ok _) before = true
accepted (err _) before = before

-- What a call makes of what was held before it: a reservation that is accepted is held, and one
-- that is asked to be released is not.
abbrev after_call : Outside → List Call → Call → Held → Held
after_call out earlier (offer_reserve t q o k) held = record held {
  reservation_id =
      reserved_id (out.reservation_reply earlier (offer_reserve t q o k)) held.reservation_id;
}
after_call out earlier (offer_release t id o k) held = record held {
  reservation_id = if held.reservation_id == id then "" else held.reservation_id;
}
after_call out earlier (ledger_freeze q) held = record held {
  freeze_id = frozen_id (out.text_reply earlier (ledger_freeze q)) held.freeze_id;
}
after_call out earlier (ledger_release id k) held = record held {
  freeze_id = if held.freeze_id == id then "" else held.freeze_id;
}
after_call out earlier (fulfill_reserve s o) held = record held {
  inventory = accepted (out.unit_reply earlier (fulfill_reserve s o)) held.inventory;
}
after_call out earlier (fulfill_rollback s o t ls) held = record held { inventory = false }
after_call out earlier _ held = held

-- What is held after the calls, the latest first, by the answers to them.
unfoldable pub outstanding : Outside → List Call → Held
outstanding out [] = nothing_held
outstanding out (c ∷ earlier) = after_call out earlier c (outstanding out earlier)

-- The calls after one more, if it is made.
abbrev push_if : Bool → Call → List Call → List Call
push_if b c cs = if b then c ∷ cs else cs

three_calls :
    (out : Outside) (b b' b'' : Bool) (c c' c'' : Call) (w : World)
    → (when b (ignore (call_unit out c))
          >> (when b' (ignore (call_unit out c')) >> when b'' (ignore (call_unit out c''))))
        w
      ≡ (ok tt, record w { calls = push_if b'' c'' (push_if b' c' (push_if b c w.calls)) })
three_calls out true true true c c' c'' w = refl
three_calls out true true false c c' c'' w = refl
three_calls out true false true c c' c'' w = refl
three_calls out true false false c c' c'' w = refl
three_calls out false true true c c' c'' w = refl
three_calls out false true false c c' c'' w = refl
three_calls out false false true c c' c'' w = refl
three_calls out false false false c c' c'' w = refl

outstanding-rollback_inventory :
    (out : Outside) (s o t : String) (ls : List OrderLine) (cs : List Call) (held : Held)
    → outstanding out cs ≡ held
    → outstanding out (push_if held.inventory (fulfill_rollback s o t ls) cs)
      ≡ record held { inventory = false }
unfolding outstanding
outstanding-rollback_inventory out s o t ls cs held h = ground arith

outstanding-release_ledger :
    (out : Outside) (k : String) (cs : List Call) (held : Held)
    → outstanding out cs ≡ held
    → outstanding out (push_if (not (held.freeze_id == "")) (ledger_release held.freeze_id k) cs)
      ≡ record held { freeze_id = "" }
unfolding outstanding
outstanding-release_ledger out k cs held h =
    ground (arith, eq_refl held.freeze_id, eq_iff held.freeze_id "")

outstanding-release_offer :
    (out : Outside) (t o k : String) (cs : List Call) (held : Held)
    → outstanding out cs ≡ held
    → outstanding out
        (push_if (not (held.reservation_id == "")) (offer_release t held.reservation_id o k) cs)
      ≡ record held { reservation_id = "" }
unfolding outstanding
outstanding-release_offer out t o k cs held h =
    ground (arith, eq_refl held.reservation_id, eq_iff held.reservation_id "")

-- What is held after a step that returns it, or nothing if the step failed.
abbrev pub held_by : Result Held → Held
held_by (ok held) = held
held_by (err e) = nothing_held

-- A step of the reservations leaves the store as it was, and holds what it says.
abbrev pub Holds : Outside → World → Result Held × World → Type 0
Holds out w (r, w') = (w'.repo ≡ w.repo) × (outstanding out w'.calls ≡ held_by r)

module _ (out : Outside) (scene : SceneConfig) (ident : Identity) where
  -- A rollback leaves nothing of what is held, and no trace in the store.
  pub rollback_lem :
      (p : Priced) (held : Held) (w : World)
      → outstanding out w.calls ≡ held
      → (outstanding out (rollback out scene ident p held w).1.calls ≡ nothing_held)
        × ((rollback out scene ident p held w).1.repo ≡ w.repo)
        × ((rollback out scene ident p held w).0 ≡ ok tt)
  unfolding rollback
  rollback_lem p held w h =
      let held' = record held { inventory = false } in
      let held'' = record held' { freeze_id = "" } in
      let c = fulfill_rollback scene.name p.order_id ident.tenant_id p.items in
      let c' = ledger_release held.freeze_id ("order:release:" <> p.order_id) in
      let c'' =
        offer_release ident.tenant_id held.reservation_id p.order_id
          ("order:" <> p.order_id <> ":release") in
      let made =
        three_calls out held.inventory (not (held.freeze_id == ""))
          (not (held.reservation_id == "")) c c' c'' w in
      let cs = push_if held.inventory c w.calls in
      let cs' = push_if (not (held.freeze_id == "")) c' cs in
      let h' =
        outstanding-rollback_inventory out scene.name p.order_id ident.tenant_id p.items w.calls
          held h in
      let h'' = outstanding-release_ledger out ("order:release:" <> p.order_id) cs held' h' in
      (
        ap (λ r. outstanding out r.1.calls) made
            ∙ outstanding-release_offer out ident.tenant_id p.order_id
                ("order:" <> p.order_id <> ":release") cs' held'' h'',
        ap (λ r. r.1.repo) made,
        ap (λ r. r.0) made,
      )

  pub hold_offer-Holds :
      (p : Priced) (w : World)
      → outstanding out w.calls ≡ nothing_held
      → Holds out w (hold_offer out scene ident p w)
  unfolding hold_offer outstanding
  hold_offer-Holds p w h = ground arith

  abbrev freeze_request : Priced → FreezeRequest
  freeze_request p = record {
    tenant_id = ident.tenant_id;
    user_id = ident.user_id;
    order_id = p.order_id;
    asset_code = p.asset;
    amount = p.amounts.ledger_pay;
    biz_no = "order:freeze:" <> p.order_id;
  }

  -- A step that fails without a hold of its own is rolled back.
  or_rollback-err :
      {A : Type 0} (p : Priced) (held : Held) (blame : Err → Err) (m : Action A) (w w' : World)
      {e : Err}
      → m w ≡ (err e, w')
      → w'.repo ≡ w.repo
      → outstanding out w'.calls ≡ held
      → (r : World) × (or_rollback out scene ident p held blame m w ≡ (err (blame e), r))
        × (r.repo ≡ w.repo)
        × (outstanding out r.calls ≡ nothing_held)
  unfolding or_rollback
  or_rollback-err p held blame m w w' {e} fails same holds =
      let (clear, kept, fine) = rollback_lem p held w' holds in
      (
        (rollback out scene ident p held w').1,
        rw fails (
            bind-ok (rollback out scene ident p held) (λ _. raise (blame e)) w'
              (ap (λ x. (x, (rollback out scene ident p held w').1)) fine)),
        kept ∙ same,
        clear,
      )

  or_rollback-ok :
      {A : Type 0} (p : Priced) (held : Held) (blame : Err → Err) (m : Action A) (w w' : World)
      {a : A}
      → m w ≡ (ok a, w')
      → or_rollback out scene ident p held blame m w ≡ (ok a, w')
  unfolding or_rollback
  or_rollback-ok p held blame m w w' {a} works = rw works refl

  hold_ledger-wanted :
      (p : Priced) (held : Held) (w : World)
      → (needs_ledger scene p.amounts.ledger_pay && ltb_ℤ (pos 0) p.amounts.ledger_pay) ≡ true
      → hold_ledger out scene ident p held w
        ≡ (or_rollback out scene ident p held
                (λ e. wrapped ledger_freeze_failed e.text)
                (call_text out (ledger_freeze (freeze_request p)))
              >>= λ fid. pure (record held { freeze_id = fid }))
            w
  unfolding hold_ledger
  hold_ledger-wanted p held w h = rw h refl

  hold_ledger-skipped :
      (p : Priced) (held : Held) (w : World)
      → (needs_ledger scene p.amounts.ledger_pay && ltb_ℤ (pos 0) p.amounts.ledger_pay) ≡ false
      → hold_ledger out scene ident p held w ≡ (ok held, w)
  unfolding hold_ledger
  hold_ledger-skipped p held w h = rw h refl

  pub hold_ledger-Holds :
      (p : Priced) (held : Held) (w : World)
      → outstanding out w.calls ≡ held
      → Holds out w (hold_ledger out scene ident p held w)
  unfolding outstanding
  hold_ledger-Holds p held w h =
      elim (Bool-cases
        (needs_ledger scene p.amounts.ledger_pay && ltb_ℤ (pos 0) p.amounts.ledger_pay)) [
          | inr skipped ↦ subst (Holds out w) (sym (hold_ledger-skipped p held w skipped)) (refl, h)
          | inl wanted ↦
              let call = ledger_freeze (freeze_request p) in
              let w' = record w { calls = call ∷ w.calls } in
              let blame = λ (e : Err). wrapped ledger_freeze_failed e.text in
              elim (Result-cases (out.text_reply w.calls call)) [
                | inl (fid, frozen) ↦
                    subst (Holds out w)
                      (sym (
                        hold_ledger-wanted p held w wanted
                        ∙ bind-ok (or_rollback out scene ident p held blame (call_text out call))
                            (λ fid. pure (record held { freeze_id = fid })) w
                            (or_rollback-ok p held blame (call_text out call) w w'
                              (ap (λ x. (x, w')) frozen))))
                      (refl, ground arith)
                | inr (e, refused) ↦
                    let (r, failed, same, clear) =
                      or_rollback-err p held blame (call_text out call) w w'
                        (ap (λ x. (x, w')) refused) refl (ground arith) in
                    subst (Holds out w)
                      (sym (
                        hold_ledger-wanted p held w wanted
                        ∙ bind-err (or_rollback out scene ident p held blame (call_text out call))
                            (λ fid. pure (record held { freeze_id = fid })) w failed))
                      (same, clear)
              ]
        ]

  hold_inventory-wanted :
      (cmd : CheckoutCmd) (p : Priced) (held : Held) (w : World)
      → needs_inventory scene ≡ true
      → hold_inventory out scene ident cmd p held w
        ≡ (or_rollback out scene ident p held
                (λ e. wrapped inventory_reserve e.text)
                (call_unit out (fulfill_reserve scene.name (new_order scene ident cmd p held)))
              >>= λ _. pure (record held { inventory = true }))
            w
  unfolding hold_inventory
  hold_inventory-wanted cmd p held w h = rw h refl

  hold_inventory-skipped :
      (cmd : CheckoutCmd) (p : Priced) (held : Held) (w : World)
      → needs_inventory scene ≡ false
      → hold_inventory out scene ident cmd p held w ≡ (ok held, w)
  unfolding hold_inventory
  hold_inventory-skipped cmd p held w h = rw h refl

  pub hold_inventory-Holds :
      (cmd : CheckoutCmd) (p : Priced) (held : Held) (w : World)
      → outstanding out w.calls ≡ held
      → Holds out w (hold_inventory out scene ident cmd p held w)
  unfolding outstanding
  hold_inventory-Holds cmd p held w h = elim (Bool-cases (needs_inventory scene)) [
    | inr skipped ↦
        subst (Holds out w) (sym (hold_inventory-skipped cmd p held w skipped)) (refl, h)
    | inl wanted ↦
        let call = fulfill_reserve scene.name (new_order scene ident cmd p held) in
        let w' = record w { calls = call ∷ w.calls } in
        let blame = λ (e : Err). wrapped inventory_reserve e.text in
        elim (Result-cases (out.unit_reply w.calls call)) [
          | inl (u, reserved) ↦
              subst (Holds out w)
                (sym (
                  hold_inventory-wanted cmd p held w wanted
                  ∙ bind-ok (or_rollback out scene ident p held blame (call_unit out call))
                      (λ _. pure (record held { inventory = true })) w
                      (or_rollback-ok p held blame (call_unit out call) w w'
                        (ap (λ x. (x, w')) reserved))))
                (refl, ground arith)
          | inr (e, refused) ↦
              let (r, failed, same, clear) =
                or_rollback-err p held blame (call_unit out call) w w' (ap (λ x. (x, w')) refused)
                  refl (ground arith) in
              subst (Holds out w)
                (sym (
                  hold_inventory-wanted cmd p held w wanted
                  ∙ bind-err (or_rollback out scene ident p held blame (call_unit out call))
                      (λ _. pure (record held { inventory = true })) w failed))
                (same, clear)
        ]
  ]
