-- ===== src/Memory/Tickets.antt =====
-- internal/infra/memory/order_repo.go: the compensation tickets, kept in order of insertion.
use order_hub.Prelude.{
  ℕ, suc, ◌-◌, String, ◌==◌, Bool, ◌&&◌, ◌||◌, not, Option, none, some, List, [], ◌∷◌, ltb, leb,
  nat_eq, any, if◌then◌else◌,
}
use order_hub.Domain.Error.{Result, ok, err, bare, order_not_found}
use order_hub.Port.{CompensationTicket}

-- A ticket that a worker may still take.
unfoldable pub is_open : CompensationTicket → Bool
is_open t = t.status == "pending" || t.status == "running"

-- What `InsertCompensation` makes of a ticket, numbered `id` at the time `now`.
unfoldable pub numbered : ℕ → ℕ → CompensationTicket → CompensationTicket
numbered id now t = record t {
  id = id;
  status = if t.status == "" then "pending" else t.status;
  created_at = now;
}

-- The retry of a ticket that has failed waits for its time.
unfoldable pub is_waiting : ℕ → CompensationTicket → Bool
is_waiting now t = elim t.next_retry [ none ↦ Bool.false | some at ↦ ltb now at ]

unfoldable pub is_claimable : ℕ → CompensationTicket → Bool
is_claimable now t = is_open t && not (is_waiting now t)

-- A ticket in a worker's hands.
unfoldable pub claimed : CompensationTicket → CompensationTicket
claimed t = record t { attempts = suc t.attempts; status = "running" }

-- The loop of `ClaimCompensations`, with `room` more tickets to take: those taken, and the store's.
-- The loop ends after the ticket that fills the room, also when there was none from the start.
unfoldable pub claim :
    ℕ → ℕ → List CompensationTicket → List CompensationTicket × List CompensationTicket
claim now room [] = ([], [])
claim now room (t ∷ ts) = elim (is_claimable now t) [
  | Bool.false ↦ let (out, rest) = claim now room ts in (out, t ∷ rest)
  | Bool.true ↦ elim (leb room 1) [
    | Bool.true ↦ (claimed t ∷ [], claimed t ∷ ts)
    | Bool.false ↦ let (out, rest) = claim now (room - 1) ts in (claimed t ∷ out, claimed t ∷ rest)
  ]
]

-- The loop of `UpdateCompensation`: the first ticket with the number is written.
unfoldable pub update_ticket :
    ℕ → String → String → Option ℕ → List CompensationTicket → Option (List CompensationTicket)
update_ticket id status last_error next_retry [] = none
update_ticket id status last_error next_retry (t ∷ ts) =
    if nat_eq t.id id
    then some (record t { status = status; last_error = last_error; next_retry = next_retry } ∷ ts)
    else elim (update_ticket id status last_error next_retry ts) [
      | none ↦ none
      | some rest ↦ some (t ∷ rest)
    ]

unfoldable pub find_ticket : ℕ → List CompensationTicket → Result CompensationTicket
find_ticket id [] = err (bare order_not_found)
find_ticket id (t ∷ ts) = if nat_eq t.id id then ok t else find_ticket id ts

unfoldable pub has_open : String → String → String → List CompensationTicket → Bool
has_open kind tenant ref =
    any λ t. t.kind == kind && t.tenant_id == tenant && t.ref == ref && is_open t
