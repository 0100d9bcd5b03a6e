-- ===== src/Application/Compensate/Tried.antt =====
-- internal/application/compensate.go: what the tries that are left of the tickets lose in a round.
use order_hub.Prelude.{
  ◌≡◌, ◌≢◌, refl, sym, ap, ◌∙◌, subst, arith, ℕ, suc, ◌+◌, ◌-◌, ◌≤◌, Bool, true, false, inl, inr,
  Option, none, some, String, List, [], ◌∷◌, ◌++◌, All, append-snoc, leb, Bool-cases, if◌then◌else◌,
  length,
}
use order_hub.Prelude.Dict.{Dict}
use order_hub.Domain.Error.{Result, ok, err}
use order_hub.Domain.Scene.{SceneConfig}
use order_hub.Port.{CompensationTicket}
use order_hub.Memory.{Repo, update_compensation}
use order_hub.Memory.Tickets.{is_open, is_claimable, claimed, update_ticket}
use order_hub.Memory.Claims.{Takes, finished, full, skip, take, is_claimable_iff}
use order_hub.Application.Action.{
  Outside, World, Action, clock_now, bind-ok, pure, ignore, on_repo, ◌>>◌,
}
use order_hub.Application.Compensate.{
  max_compensation_attempts, backoff, handle, postpone, work_on, work_each,
}
use order_hub.Application.Compensate.Handled.{handle-Has}

-- How often a ticket may still be tried.
abbrev pub tries_left : CompensationTicket → ℕ
tries_left t = if is_open t then suc (max_compensation_attempts - t.attempts) else 0

abbrev pub total_left : List CompensationTicket → ℕ
total_left [] = 0
total_left (t ∷ ts) = tries_left t + total_left ts

total_left-append :
    (xs ys : List CompensationTicket) → total_left (xs ++ ys) ≡ total_left xs + total_left ys
total_left-append [] ys = omega arith
total_left-append (x ∷ xs) ys = omega (arith, total_left-append xs ys)

abbrev pub ids : List CompensationTicket → List ℕ
ids [] = []
ids (t ∷ ts) = t.id ∷ ids ts

abbrev pub Distinct : List ℕ → Type 0
Distinct [] = Unit
Distinct (n ∷ ns) = All (λ m. n ≢ m) ns × Distinct ns

abbrev written : CompensationTicket → String → String → Option ℕ → CompensationTicket
written t status last_error next = record t {
  status = status;
  last_error = last_error;
  next_retry = next;
}

-- Writing under the number of a ticket that no ticket before it has.
update_ticket-at :
    (done : List CompensationTicket) (t : CompensationTicket) (rest : List CompensationTicket)
    (status last_error : String) (next : Option ℕ)
    → All (λ m. m ≢ t.id) (ids done)
    → update_ticket t.id status last_error next (done ++ t ∷ rest)
      ≡ some (done ++ written t status last_error next ∷ rest)
unfolding update_ticket
update_ticket-at [] t rest status last_error next h = ground arith
update_ticket-at (d ∷ done) t rest status last_error next (other, others) =
    ground (arith, update_ticket-at done t rest status last_error next others)

-- What working on a claimed ticket makes of it.
abbrev Worked : CompensationTicket → CompensationTicket → Type 0
Worked t u = (u.id ≡ t.id) × (tries_left u ≤ suc max_compensation_attempts - t.attempts)

module _ (out : Outside) where
  -- What `work_on` does with the outcome of `handle`.
  abbrev judge : CompensationTicket → Result (Unit {0}) → Action Bool
  judge t (err e) = postpone out t e >> pure false
  judge t (ok _) = ignore (on_repo (update_compensation t.id "done" "" none)) >> pure true

  module _ (done : List CompensationTicket) (t : CompensationTicket)
      (rest : List CompensationTicket) (apart : All (λ m. m ≢ t.id) (ids done)) where
    abbrev Judged : Result Bool × World → Type 0
    Judged (r, w) =
        (u : CompensationTicket) × (b : Bool) × (r ≡ ok b)
        × (w.repo.tickets ≡ done ++ u ∷ rest)
        × Worked t u

    update-tickets :
        (status last_error : String) (next : Option ℕ) (r : Repo)
        → r.tickets ≡ done ++ t ∷ rest
        → (update_compensation t.id status last_error next r).1.tickets
          ≡ done ++ written t status last_error next ∷ rest
    unfolding update_compensation
    update-tickets status last_error next r stored =
        rw (update_compensation, stored, update_ticket-at done t rest status last_error next apart)
          refl

    judge-Judged :
        (r : Result (Unit {0})) (w : World)
        → w.repo.tickets ≡ done ++ t ∷ rest
        → Judged (judge t r w)
    unfolding postpone is_open
    judge-Judged (ok _) w stored = (
      written t "done" "" none,
      true,
      refl,
      update-tickets "done" "" none w.repo stored,
      (refl, ground arith),
    )
    judge-Judged (err e) w stored = elim (Bool-cases (leb max_compensation_attempts t.attempts)) [
      | inl last ↦ (
        written t "failed" e.text none,
        false,
        rw last refl,
        rw last (update-tickets "failed" e.text none w.repo stored),
        (refl, ground arith),
      )
      | inr more ↦
          let at = some (out.time_reply w.calls clock_now + backoff t.attempts) in
          (
            written t "pending" e.text at,
            false,
            rw more refl,
            rw more (update-tickets "pending" e.text at w.repo stored),
            (refl, ground arith),
          )
    ]

    work_on-Judged :
        (scenes : Dict SceneConfig) (w : World)
        → w.repo.tickets ≡ done ++ t ∷ rest
        → Judged (work_on out scenes t w)
    unfolding work_on
    work_on-Judged scenes w stored =
        judge-Judged (handle out scenes t w).0 (handle out scenes t w).1
          (handle-Has (done ++ t ∷ rest) out scenes t w stored)

ids-middle :
    (P : ℕ → Type 0) (done : List CompensationTicket) (t : CompensationTicket)
    (ts : List CompensationTicket)
    → All P (ids (done ++ t ∷ ts))
    → P t.id
ids-middle P [] t ts h = h.0
ids-middle P (d ∷ done) t ts h = ids-middle P done t ts h.1

Distinct-before :
    (done : List CompensationTicket) (t : CompensationTicket) (ts : List CompensationTicket)
    → Distinct (ids (done ++ t ∷ ts))
    → All (λ m. m ≢ t.id) (ids done)
Distinct-before [] t ts h = tt
Distinct-before (d ∷ done) t ts h =
    (ids-middle (λ m. d.id ≢ m) done t ts h.0, Distinct-before done t ts h.1)

-- A ticket in place of another with its number.
ids-instead :
    (done : List CompensationTicket) (t u : CompensationTicket) (ts : List CompensationTicket)
    → u.id ≡ t.id
    → ids ((done ++ u ∷ []) ++ ts) ≡ ids (done ++ t ∷ ts)
ids-instead [] t u ts h = ap (λ n. n ∷ ids ts) h
ids-instead (d ∷ done) t u ts h = ap (λ ns. d.id ∷ ns) (ids-instead done t u ts h)

-- What is left after tickets were tried: those of `before`, `tried` times fewer.
abbrev pub Fewer : ℕ → List CompensationTicket → List CompensationTicket → Type 0
Fewer tried before after = (ids after ≡ ids before) × (total_left after + tried ≤ total_left before)

less-left :
    (now : ℕ) (done : List CompensationTicket) (t u : CompensationTicket)
    (ts : List CompensationTicket) (n k : ℕ)
    → is_claimable now t ≡ true
    → tries_left u ≤ suc max_compensation_attempts - suc t.attempts
    → n + k ≤ total_left ((done ++ u ∷ []) ++ ts)
    → n + suc k ≤ total_left (done ++ t ∷ ts)
unfolding is_claimable
less-left now done t u ts n k can left fewer = ground (
  arith,
  total_left-append done (t ∷ ts),
  total_left-append (done ++ u ∷ []) ts,
  total_left-append done (u ∷ []),
)

module _ (out : Outside) (scenes : Dict SceneConfig) (now : ℕ) where
  pub work_each-Fewer :
      {room : ℕ} {ts taken rest : List CompensationTicket} (claims : Takes now room ts taken rest)
      (done : List CompensationTicket) (n : ℕ) (w : World)
      → Distinct (ids (done ++ ts))
      → w.repo.tickets ≡ done ++ rest
      → Fewer (length taken) (done ++ ts) (work_each out scenes n taken w).1.repo.tickets
  unfolding work_each claimed
  work_each-Fewer finished done n w distinct stored = rw stored (refl, omega arith)
  work_each-Fewer (full no_room) done n w distinct stored = rw stored (refl, omega arith)
  work_each-Fewer (skip {t = t} {ts = ts} {out = taken} {rest = rest} waits claims) done n w
        distinct stored =
      let snoc = append-snoc done t ts in
      subst (λ xs. Fewer (length taken) xs (work_each out scenes n taken w).1.repo.tickets)
        (sym snoc)
        (work_each-Fewer claims (done ++ t ∷ []) n w (subst (λ xs. Distinct (ids xs)) snoc distinct)
          (stored ∙ append-snoc done t rest))
  work_each-Fewer (take {t = t} {ts = ts} {out = taken} {rest = rest} room_left is_due claims) done
        n w distinct stored =
      let apart = Distinct-before done t ts distinct in
      let w1 = (work_on out scenes (claimed t) w).1 in
      let (u, b, returned, written_back, (same_id, left)) =
        work_on-Judged out done (claimed t) rest apart scenes w stored in
      let ids_same = ids-instead done t u ts same_id in
      let (kept, fewer) =
        work_each-Fewer claims (done ++ u ∷ []) (if b then suc n else n) w1
          (subst Distinct (sym ids_same) distinct) (written_back ∙ append-snoc done u rest) in
      subst (λ (x : Result ℕ × World). Fewer (suc (length taken)) (done ++ t ∷ ts) x.1.repo.tickets)
        (sym (
          bind-ok (work_on out scenes (claimed t))
            (λ done'. work_each out scenes (if done' then suc n else n) taken) w
            (ap (λ r. (r, w1)) returned)))
        (
          kept ∙ ids_same,
          less-left now done t u ts _ _ ((is_claimable_iff now t).1 is_due) left fewer,
        )
