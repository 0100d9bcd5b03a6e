-- ===== src/Infra/LedgerMock/Restored.antt =====
-- internal/infra/ledgerclient/client.go: what a release gives back, and that it does so once.
use order_hub.Prelude.{
  ℕ, String, some, true, false, ◌≡◌, refl, ap, ◌∙◌, subst, inl, inr, Bool-cases, arith,
}
use order_hub.Prelude.Int.{ℤ, pos, negsuc, ◌+ℤ◌, ◌-ℤ◌, ltb_ℤ}
use order_hub.Prelude.Dict.{lookup, lookup-insert_self}
use order_hub.Domain.Int64.{add64, sub64, wrap64, InRange}
use order_hub.Domain.Error.{ok}
use order_hub.Port.{FreezeRequest}
use order_hub.Infra.LedgerMock.{
  Freeze, LedgerMock, frozen, hold, freeze_on, release, balance_of, stored_balance, close_freeze,
  set_balance,
}

sub64-add64 : (a b : ℤ) → InRange a → InRange b → add64 (sub64 a b) b ≡ a
unfolding wrap64 ◌+ℤ◌ ◌-ℤ◌
sub64-add64 (pos a) (pos b) ha hb = ground arith
sub64-add64 (pos a) (negsuc b) ha hb = ground arith
sub64-add64 (negsuc a) (pos b) ha hb = ground arith
sub64-add64 (negsuc a) (negsuc b) ha hb = ground arith

-- A release of an open freeze credits its account and closes the freeze.
release-open :
    (id : String) (fz : Freeze) (b : ℤ) (m : LedgerMock)
    → lookup id m.freezes ≡ some fz
    → fz.is_open ≡ true
    → lookup fz.user m.balance ≡ some b
    → release id m ≡ close_freeze id fz (set_balance fz.user (add64 b fz.amount) m)
unfolding release stored_balance
release-open id fz b m found is_open stored =
    rw (found, is_open, stored, release, stored_balance) refl

-- A release of a closed freeze changes nothing.
release-closed :
    (id : String) (fz : Freeze) (m : LedgerMock)
    → lookup id m.freezes ≡ some fz
    → fz.is_open ≡ false
    → release id m ≡ m
unfolding release
release-closed id fz m found closed = rw (found, closed, release) refl

-- What a release of an open freeze leaves: the account credited, the freeze closed.
credited :
    (id : String) (fz : Freeze) (v : ℤ) (m : LedgerMock)
    → stored_balance fz.user (close_freeze id fz (set_balance fz.user v m)) ≡ v
unfolding stored_balance set_balance close_freeze
credited id fz v m = rw (lookup-insert_self fz.user v m.balance, stored_balance) refl

closed_at :
    (id : String) (fz : Freeze) (m : LedgerMock)
    → lookup id (close_freeze id fz m).freezes ≡ some (record fz { is_open = false })
unfolding close_freeze
closed_at id fz m = lookup-insert_self id (record fz { is_open = false }) m.freezes

held_at :
    (id key : String) (req : FreezeRequest) (m : LedgerMock)
    → (lookup id (hold id key req m).freezes ≡ some (frozen key req))
      × (lookup key (hold id key req m).balance ≡ some (sub64 (balance_of key m) req.amount))
unfolding hold
held_at id key req m = (lookup-insert_self id _ m.freezes, lookup-insert_self key _ m.balance)

-- The state that a freeze which succeeds leaves.
freeze_on-ok :
    (show : ℕ → String) (key id : String) (req : FreezeRequest) (m m' : LedgerMock)
    → freeze_on show key req m ≡ (ok id, m')
    → hold id key req m ≡ m'
unfolding freeze_on
freeze_on-ok show key id req m m' h = elim (Bool-cases (ltb_ℤ (balance_of key m) req.amount)) [
  | inl small ↦ ground arith
  | inr enough ↦ ground arith
]

release-hold :
    (id key : String) (req : FreezeRequest) (m : LedgerMock)
    → InRange (balance_of key m)
    → InRange req.amount
    → (stored_balance key (release id (hold id key req m)) ≡ balance_of key m)
      × (release id (release id (hold id key req m)) ≡ release id (hold id key req m))
release-hold id key req m hb ha =
    let s = hold id key req m in
    let before = balance_of key m in
    let (found, stored) = held_at id key req m in
    let left = sub64 before req.amount in
    let paid_back = set_balance key (add64 left req.amount) s in
    let done = release-open id (frozen key req) left s found refl stored in
    (
      ap (stored_balance key) done
          ∙ credited id (frozen key req) _ s
          ∙ sub64-add64 before req.amount hb ha,
      rw (done) (
          release-closed id (record (frozen key req) { is_open = false }) _
            (closed_at id (frozen key req) paid_back) refl),
    )

-- Where a freeze on an account succeeds, releasing it puts the account's balance back as it was, and
-- a second release changes nothing. The balance and the amount are int64 values; the amount may be
-- negative.
pub release-freeze_on :
    (show : ℕ → String) (key id : String) (req : FreezeRequest) (m m' : LedgerMock)
    → InRange (balance_of key m)
    → InRange req.amount
    → freeze_on show key req m ≡ (ok id, m')
    → (stored_balance key (release id m') ≡ balance_of key m)
      × (release id (release id m') ≡ release id m')
release-freeze_on show key id req m m' hb ha h =
    let m'-is = freeze_on-ok show key id req m m' h in
    subst
      (λ s.
        (stored_balance key (release id s) ≡ balance_of key m)
        × (release id (release id s) ≡ release id s))
      m'-is (release-hold id key req m hb ha)
