-- ===== src/Application/Recon/Tickets.antt =====
-- internal/application/recon.go: the tickets that a reconciliation opens.
use order_hub.Prelude.{
  ◌≡◌, refl, sym, subst, String, ◌==◌, eq_iff, Bool, true, false, ◌&&◌, ◌||◌, List, [], ◌∷◌, ◌++◌,
  Bool-cases, Option-cases, inl, inr,
}
use order_hub.Port.{CompensationTicket}
use order_hub.Memory.{
  Repo, has_open_compensation, insert_compensation, update_redemption, update_order, order_key,
}
use order_hub.Prelude.Dict.{lookup}
use order_hub.Memory.Tickets.{is_open, has_open, numbered}
use order_hub.Application.Action.{Outside, World, store_compensation}
use order_hub.Application.Keeps.{Keeps}
use order_hub.Application.Recon.{ensure_ticket, run}
use order_hub.Application.Recon.Changes.{cases-Keep, run-Keeps, run-reads}

-- No two tickets that wait for a worker or are in its hands are of the same kind, tenant and
-- reference.
abbrev pub IsSingle : List CompensationTicket → Type 0
IsSingle [] = Unit
IsSingle (t ∷ ts) = (is_open t ≡ true → has_open t.kind t.tenant_id t.ref ts ≡ false) × IsSingle ts

or_split : (a b : Bool) → (a || b) ≡ false → (a ≡ false) × (b ≡ false)
or_split true b h = cc
or_split false b h = (refl, h)

or_join : (a b : Bool) → a ≡ false → b ≡ false → (a || b) ≡ false
or_join true b h k = cc
or_join false b h k = k

and_left : (a b c d : Bool) → (a && b && c) ≡ false → (a && b && c && d) ≡ false
and_left false b c d h = refl
and_left true false c d h = refl
and_left true true false d h = refl
and_left true true true d h = cc

and_true : (a b c : Bool) → (a && b && c) ≡ true → (a ≡ true) × (b ≡ true) × (c ≡ true)
and_true true true true h = (refl, refl, refl)
and_true true true false h = cc
and_true true false c h = cc
and_true false b c h = cc

eq_flip : (s t : String) → (s == t) ≡ true → (t == s) ≡ true
eq_flip s t h = (eq_iff t s).1 (sym ((eq_iff s t).0 h))

-- A ticket for the thing of an open ticket finds that one open.
same_thing :
    (kind tenant ref : String) (t : CompensationTicket) (ts : List CompensationTicket)
    → is_open t ≡ true
    → has_open kind tenant ref (t ∷ ts) ≡ false
    → (kind == t.kind && tenant == t.tenant_id && ref == t.ref) ≡ false
unfolding has_open
same_thing kind tenant ref t ts open_ none_open =
    elim (Bool-cases (kind == t.kind && tenant == t.tenant_id && ref == t.ref)) [
      | inr differ ↦ differ
      | inl same ↦
          let (kinds, tenants, refs) =
            and_true (kind == t.kind) (tenant == t.tenant_id) (ref == t.ref) same in
          let found =
            rw
              (
                eq_flip kind t.kind kinds,
                eq_flip tenant t.tenant_id tenants,
                eq_flip ref t.ref refs,
                open_,
                has_open,
              )
              at none_open in
          cc
    ]

has_open-snoc :
    (kind tenant ref : String) (ts : List CompensationTicket) (t : CompensationTicket)
    → has_open kind tenant ref ts ≡ false
    → (t.kind == kind && t.tenant_id == tenant && t.ref == ref) ≡ false
    → has_open kind tenant ref (ts ++ t ∷ []) ≡ false
unfolding has_open
has_open-snoc kind tenant ref [] t h k =
    or_join _ false (and_left (t.kind == kind) (t.tenant_id == tenant) (t.ref == ref) (is_open t) k)
      refl
has_open-snoc kind tenant ref (x ∷ ts) t h k =
    let (first, rest) = or_split _ (has_open kind tenant ref ts) h in
    or_join _ _ first (has_open-snoc kind tenant ref ts t rest k)

append-IsSingle :
    (t : CompensationTicket) (ts : List CompensationTicket)
    → IsSingle ts
    → has_open t.kind t.tenant_id t.ref ts ≡ false
    → IsSingle (ts ++ t ∷ [])
unfolding has_open
append-IsSingle t [] h none_open = ((λ o. refl), tt)
append-IsSingle t (x ∷ ts) h none_open =
    let rest = (or_split _ (has_open t.kind t.tenant_id t.ref ts) none_open).1 in
    (
      (λ o.
          has_open-snoc x.kind x.tenant_id x.ref ts t (h.0 o)
            (same_thing t.kind t.tenant_id t.ref x ts o none_open)),
      append-IsSingle t ts h.1 rest,
    )

ensure_ticket-IsSingle :
    (out : Outside) (kind tenant_id ref payload : String)
    → Keeps (λ r. IsSingle r.tickets) (ensure_ticket out kind tenant_id ref payload)
unfolding ensure_ticket has_open_compensation store_compensation insert_compensation numbered
ensure_ticket-IsSingle out kind tenant_id ref payload w h =
    elim (Bool-cases (has_open kind tenant_id ref w.repo.tickets)) [
      | inl already ↦ rw (already, ensure_ticket) h
      | inr missing ↦ rw (missing, ensure_ticket) (append-IsSingle _ w.repo.tickets h missing)
    ]

redeem-IsSingle :
    (tenant_id order_id rid : String) (r : Repo)
    → IsSingle r.tickets
    → IsSingle (update_redemption tenant_id order_id rid r).1.tickets
unfolding update_redemption update_order
redeem-IsSingle tenant_id order_id rid r h =
    elim (Option-cases (lookup (order_key tenant_id order_id) r.orders)) [
      | inl missing ↦ rw (missing, update_redemption, update_order) h
      | inr (o, found) ↦ rw (found, update_redemption, update_order) h
    ]

-- If no two open tickets of the store are of the same kind, tenant and reference, then this holds
-- after a reconciliation, told to apply its findings or not, whatever the outside answers.
pub run-IsSingle :
    (out : Outside) (tenant_id : String) (apply : Bool) (w : World)
    → IsSingle w.repo.tickets
    → IsSingle (run out tenant_id apply w).1.repo.tickets
run-IsSingle out tenant_id true w h =
    run-Keeps out (λ r. IsSingle r.tickets) true
      (cases-Keep out (λ r. IsSingle r.tickets) (ensure_ticket-IsSingle out) redeem-IsSingle)
      tenant_id w h
run-IsSingle out tenant_id false w h =
    subst (λ r. IsSingle r.tickets) (sym (run-reads out tenant_id w)) h
