-- ===== src/Memory/Claims.antt =====
-- internal/infra/memory/order_repo.go: which tickets a claim takes.
use order_hub.Prelude.{
  ℕ, suc, ◌-◌, ◌≤◌, Bool, true, false, Option, none, some, List, [], ◌∷◌, leb, ltb, ◌↔◌, arith, ◌≡◌,
  ◌⊎◌, refl, subst, inl, inr, Bool-cases, eq_iff, if◌then◌else◌,
}
use order_hub.Port.{CompensationTicket}
use order_hub.Memory.Tickets.{is_open, is_waiting, is_claimable, claimed, claim}

-- The retry of a ticket has no time, or its time has come.
abbrev pub HasCome : ℕ → Option ℕ → Type 0
HasCome now none = Unit
HasCome now (some at) = at ≤ now

-- A ticket that is not done and not failed, and that waits for nothing.
abbrev pub IsDue : ℕ → CompensationTicket → Type 0
IsDue now t = ((t.status ≡ "pending") ⊎ (t.status ≡ "running")) × HasCome now t.next_retry

-- A worker's copy of a ticket, which is also what stays in the store.
abbrev pub taken : CompensationTicket → CompensationTicket
taken t = record t { attempts = suc t.attempts; status = "running" }

-- A claim with room for so many tickets, the tickets of the store, those taken, and the store's
-- afterwards: of the due tickets each is taken, as long as there is room.
pub data Takes (now : ℕ)
    : ℕ → List CompensationTicket → List CompensationTicket → List CompensationTicket → Type 0 where
  finished : {room : ℕ} → Takes now room [] [] []
  full : {room : ℕ} {ts : List CompensationTicket} → room ≡ 0 → Takes now room ts [] ts
  skip :
      {room : ℕ} {t : CompensationTicket} {ts out rest : List CompensationTicket}
      → ¬ IsDue now t
      → Takes now room ts out rest
      → Takes now room (t ∷ ts) out (t ∷ rest)
  take :
      {room more : ℕ} {t : CompensationTicket} {ts out rest : List CompensationTicket}
      → room ≡ suc more
      → IsDue now t
      → Takes now more ts out rest
      → Takes now room (t ∷ ts) (taken t ∷ out) (taken t ∷ rest)

-- The test of the retry's time.
abbrev too_early : ℕ → Option ℕ → Bool
too_early now none = false
too_early now (some at) = ltb now at

come_iff : (now : ℕ) (next : Option ℕ) → (too_early now next ≡ false) ↔ HasCome now next
come_iff now none = (λ h. tt, λ h. refl)
come_iff now (some at) = (λ h. ground arith, λ h. ground arith)

open_iff :
    (t : CompensationTicket)
    → (is_open t ≡ true) ↔ ((t.status ≡ "pending") ⊎ (t.status ≡ "running"))
unfolding is_open
open_iff t = ground (arith, eq_iff t.status "pending", eq_iff t.status "running")

is_waiting-eq : (now : ℕ) (t : CompensationTicket) → is_waiting now t ≡ too_early now t.next_retry
unfolding is_waiting
is_waiting-eq now t = refl

pub is_claimable_iff :
    (now : ℕ) (t : CompensationTicket) → (is_claimable now t ≡ true) ↔ IsDue now t
unfolding is_claimable
is_claimable_iff now t = ground (arith, is_waiting-eq now t, come_iff now t.next_retry, open_iff t)

not-IsDue : (now : ℕ) (t : CompensationTicket) → is_claimable now t ≡ false → ¬ IsDue now t
not-IsDue now t cannot = ground (arith, is_claimable_iff now t)

-- A claim takes one ticket where the limit is zero.
abbrev pub room_of : ℕ → ℕ
room_of limit = if leb limit 1 then 1 else limit

room-more :
    (limit : ℕ)
    → leb limit 1 ≡ false
    → (room_of limit ≡ suc (limit - 1)) × (room_of (limit - 1) ≡ limit - 1)
room-more limit more = (ground arith, ground arith)

-- A claim goes through the tickets in the store's order and takes every ticket that is pending or
-- running and whose retry time, if it has one, has come, until it has taken as many as its limit says
-- or, for the limit 0, one. A ticket that it takes gets one attempt more and is running, in the store
-- as in the worker's hands; the others stay as they are.
pub claim-Takes :
    (now limit : ℕ) (ts : List CompensationTicket)
    → Takes now (room_of limit) ts (claim now limit ts).0 (claim now limit ts).1
unfolding claim claimed
claim-Takes now limit [] = finished
claim-Takes now limit (t ∷ ts) = elim (Bool-cases (is_claimable now t)) [
  | inl can ↦ elim (Bool-cases (leb limit 1)) [
    | inl last ↦ rw (can, claim) (rw last (take refl ((is_claimable_iff now t).0 can) (full refl)))
    | inr more ↦
        let (room, rest_room) = room-more limit more in
        rw (can, claim)
          (rw (room, more)
            (take refl ((is_claimable_iff now t).0 can) (
              subst (λ n. Takes now n ts (claim now (limit - 1) ts).0 (claim now (limit - 1) ts).1)
                rest_room (claim-Takes now (limit - 1) ts))))
  ]
  | inr cannot ↦ rw (cannot, claim) (skip (not-IsDue now t cannot) (claim-Takes now limit ts))
]
