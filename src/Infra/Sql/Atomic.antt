-- ===== src/Infra/Sql/Atomic.antt =====
-- internal/infra/persistence/order_repo.go: what the store relies on of the database, and what a
-- `Transition` leaves in it.
use order_hub.Prelude.{
  ℕ, suc, ◌≤◌, ◌≡◌, refl, sym, ap, subst, ◌∙◌, ◌⊎◌, inl, inr, arith, String, Bool, Option, none,
  some, List, [], ◌∷◌, nat_eq, Bool-cases, if◌then◌else◌,
}
use order_hub.Domain.Error.{Err, Result, ok, err, Result-cases, bare, other}
use order_hub.Domain.Event.{Event}
use order_hub.Domain.Order.{Order}
use order_hub.Port.{TransitionCmd}
use order_hub.Infra.Rows.{Codec, OrderPo, OutboxPo, OrderLinePo, po_to_order}
use order_hub.Infra.Sql.{Query, Db}
use order_hub.Infra.Sql.Writes.{
  is_row, is_target, transition_updates, transition, after_update, create_event, reread, with_found,
  with_lines, lines_of, event_to_po,
}

-- How many elements pass a test.
abbrev pub count : {A : Type 0} → (A → Bool) → List A → ℕ
count p [] = 0
count p (x ∷ xs) = let n = count p xs in if p x then suc n else n

-- The rows once those that pass the test were updated.
abbrev pub updated : {A : Type 0} → (A → Bool) → (A → A) → List A → List A
updated p f [] = []
updated p f (x ∷ xs) = (if p x then f x else x) ∷ updated p f xs

-- What the store relies on: `Updates` changes the rows that meet its condition and counts them, a new
-- event and a read leave the orders alone, and a transaction whose body or commit fails leaves no
-- trace.
pub record Laws {S : Type 0} (db : Db S) : Type 0 where
  pub updates_rows :
      (p : OrderPo → Bool) (f : OrderPo → OrderPo) (s : S) {n : ℕ} {s' : S}
      → db.orders.updates p f s ≡ (ok n, s')
      → (db.orders.rows s' ≡ updated p f (db.orders.rows s)) × (n ≡ count p (db.orders.rows s))
  pub create_rows :
      (row : OutboxPo) (s : S) → db.orders.rows (db.outbox.create row s).1 ≡ db.orders.rows s
  pub first_reads : (p : OrderPo → Bool) (s : S) → (db.orders.first p s).1 ≡ s
  pub find_reads :
      (p : OrderLinePo → Bool) (before : OrderLinePo → OrderLinePo → Bool) (limit : Option ℕ)
      (s : S)
      → (db.lines.find p before limit s).1 ≡ s
  pub commits :
      (body : Query S Order) (s : S) {o : Order} {s' : S}
      → db.transaction body s ≡ (ok o, s')
      → body s ≡ (ok o, s')
  pub rolls_back :
      (body : Query S Order) (s : S) {e : Err} {s' : S}
      → db.transaction body s ≡ (err e, s')
      → s' ≡ s

pub err≢ok :
    {A S : Type 0} {e : Err} {a : A} {s s' : S} → Path (Result A × S) (err e, s) (ok a, s') → ⊥
err≢ok h = cc

module _ {S A B : Type 0} where
  -- What follows a step that ended in `x`.
  abbrev then_do : Result A × S → (A → Query S B) → Result B × S
  then_do x f = elim x.0 [ ok a ↦ f a x.1 | err e ↦ (err e, x.1) ]

  then_do-ok :
      (x : Result A × S) (f : A → Query S B) {b : B} {s' : S}
      → then_do x f ≡ (ok b, s')
      → (a : A) × (x ≡ (ok a, x.1)) × (f a x.1 ≡ (ok b, s'))
  then_do-ok (ok a, s) f h = (a, refl, h)
  then_do-ok (err e, s) f h = cc

  then_do-reads :
      (x : Result A × S) (f : A → Query S B) (s : S)
      → x.1 ≡ s
      → ((a : A) (t : S) → (f a t).1 ≡ t)
      → (then_do x f).1 ≡ s
  then_do-reads (ok a, t) f s same reads = reads a t ∙ same
  then_do-reads (err e, t) f s same reads = same

module _ {S : Type 0} (db : Db S) (json : Codec) (law : Laws db) where
  with_found-reads :
      (missing : Err) (order_id : String) (found : Option OrderPo) (s : S)
      → (with_found db json missing order_id found s).1 ≡ s
  unfolding with_found with_lines lines_of
  with_found-reads missing order_id none s = refl
  with_found-reads missing order_id (some po) s =
      then_do-reads (lines_of db json order_id s) (λ lines t. (ok (po_to_order json po lines), t)) s
        (law.find_reads _ _ none s) λ lines t. refl

  -- Reading an order leaves the database as it is.
  reread-reads :
      (missing : Err) (tenant order_id : String) (s : S)
      → (reread db json missing tenant order_id s).1 ≡ s
  unfolding reread
  reread-reads missing tenant order_id s =
      then_do-reads (db.orders.first (is_row tenant order_id) s)
        (with_found db json missing order_id) s (law.first_reads (is_row tenant order_id) s)
        (with_found-reads missing order_id)

  create_event-rows :
      (ev : Option Event) (s : S) → db.orders.rows (create_event db json ev s).1 ≡ db.orders.rows s
  unfolding create_event
  create_event-rows none s = refl
  create_event-rows (some ev) s = law.create_rows (event_to_po ev) s

  after_update-ok :
      (cmd : TransitionCmd) (n : ℕ) (s : S) {o : Order} {s' : S}
      → after_update db json cmd n s ≡ (ok o, s')
      → (1 ≤ n) × (db.orders.rows s' ≡ db.orders.rows s)
  unfolding after_update
  after_update-ok cmd n s {o} {s'} h = elim (Bool-cases (nat_eq n 0)) [
    | inl none_met ↦ absurd (err≢ok (rw (none_met, after_update) at h))
    | inr met ↦
        let (u, made, read) =
          then_do-ok (create_event db json cmd.event s)
            (λ _. reread db json (bare other) cmd.tenant_id cmd.order_id)
            (rw (met, after_update) at h) in
        let last =
          reread-reads (bare other) cmd.tenant_id cmd.order_id
            (create_event db json cmd.event s).1 in
        (
          ground arith,
          ap db.orders.rows (sym (ap (λ (x : Result Order × S). x.1) read) ∙ last)
              ∙ create_event-rows cmd.event s,
        )
  ]

  -- What a `Transition` leaves, if the database is as the store expects it: when it succeeds, at least
  -- one row of the order was at the command's version and in one of its source states, and exactly
  -- such rows were moved; when it fails, for whatever reason, nothing was changed.
  pub transition_atomic :
      (cmd : TransitionCmd) (now : ℕ) (s : S)
      → ((o : Order) × (s' : S) × (transition db json cmd now s ≡ (ok o, s'))
          × (1 ≤ count (is_target cmd) (db.orders.rows s))
          × (db.orders.rows s'
              ≡ updated (is_target cmd) (transition_updates cmd now) (db.orders.rows s)))
        ⊎ ((e : Err) × (transition db json cmd now s ≡ (err e, s)))
  unfolding transition
  transition_atomic cmd now s =
      let body = λ (t : S).
        then_do (db.orders.updates (is_target cmd) (transition_updates cmd now) t)
          (after_update db json cmd) in
      elim (Result-cases (transition db json cmd now s).0) [
        | inr (e, failed) ↦
            let whole = ap (λ (r : Result Order). (r, (transition db json cmd now s).1)) failed in
            inr (e, whole ∙ ap (λ (t : S). (err e, t)) (law.rolls_back body s whole))
        | inl (o, moved) ↦
            let s' = (transition db json cmd now s).1 in
            let whole = ap (λ (r : Result Order). (r, s')) moved in
            let (n, met, rest) =
              then_do-ok (db.orders.updates (is_target cmd) (transition_updates cmd now) s)
                (after_update db json cmd) (law.commits body s whole) in
            let (changed, number) =
              law.updates_rows (is_target cmd) (transition_updates cmd now) s met in
            let (some_met, kept) = after_update-ok cmd n _ rest in
            inl (o, s', whole, subst (λ m. 1 ≤ m) number some_met, kept ∙ changed)
      ]
