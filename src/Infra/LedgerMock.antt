-- ===== src/Infra/LedgerMock.antt =====
-- internal/infra/ledgerclient/client.go: the ledger of a run without other programs. `show` is `%d`.
pub mod Restored
use order_hub.Prelude.{
  ℕ, suc, ◌+◌, String, ◌<>◌, Option, none, some, Bool, true, false, [], if◌then◌else◌,
}
use order_hub.Prelude.Int.{ℤ, pos, ltb_ℤ}
use order_hub.Prelude.Dict.{Dict, lookup, insert}
use order_hub.Domain.Int64.{add64, sub64}
use order_hub.Domain.Error.{Result, ok, err, bare, ledger_freeze}
use order_hub.Port.{FreezeRequest}

-- The field `user` holds the key of the account.
pub record Freeze : Type 0 where
  pub user : String
  pub asset : String
  pub amount : ℤ
  pub is_open : Bool

pub record LedgerMock : Type 0 where
  pub seq : ℕ
  pub balance : Dict ℤ
  pub freezes : Dict Freeze
  pub default_balance : ℤ

abbrev pub new_mock : LedgerMock
new_mock = record { seq = 0; balance = []; freezes = []; default_balance = pos 100000 }

abbrev pub account_key : String → String → String → String
account_key tenant user asset = tenant <> "|" <> user <> "|" <> asset

-- The balance of an account, with the default for one that is new.
unfoldable pub balance_of : String → LedgerMock → ℤ
balance_of key m = elim (lookup key m.balance) [ none ↦ m.default_balance | some v ↦ v ]

-- `m.balance[key]`, with the zero value for a missing key.
unfoldable pub stored_balance : String → LedgerMock → ℤ
stored_balance key m = elim (lookup key m.balance) [ none ↦ pos 0 | some v ↦ v ]

-- The account of `key` with its balance stored.
unfoldable pub set_balance : String → ℤ → LedgerMock → LedgerMock
set_balance key amount m = record m { balance = insert key amount m.balance }

unfoldable pub get_balance : String → String → String → LedgerMock → ℤ × LedgerMock
get_balance tenant user asset m =
    let key = account_key tenant user asset in
    (balance_of key m, set_balance key (balance_of key m) m)

-- The freeze that `Freeze` stores.
abbrev pub frozen : String → FreezeRequest → Freeze
frozen key req = record { user = key; asset = req.asset_code; amount = req.amount; is_open = true }

-- What `Freeze` leaves when it takes the amount from the account of `key`.
unfoldable pub hold : String → String → FreezeRequest → LedgerMock → LedgerMock
hold id key req m = record m {
  seq = suc m.seq;
  balance = insert key (sub64 (balance_of key m) req.amount) m.balance;
  freezes = insert id (frozen key req) m.freezes;
}

-- `Freeze` on the account of `key`.
unfoldable pub freeze_on :
    (ℕ → String) → String → FreezeRequest → LedgerMock → Result String × LedgerMock
freeze_on show key req m =
    let id = "fz_" <> show (suc m.seq) in
    if ltb_ℤ (balance_of key m) req.amount
    then (err (bare ledger_freeze), set_balance key (balance_of key m) m)
    else (ok id, hold id key req m)

unfoldable pub freeze : (ℕ → String) → FreezeRequest → LedgerMock → Result String × LedgerMock
freeze show req = freeze_on show (account_key req.tenant_id req.user_id req.asset_code) req

-- `m.freezes[id] = fz` after `fz.open = false`.
unfoldable pub close_freeze : String → Freeze → LedgerMock → LedgerMock
close_freeze id fz m = record m { freezes = insert id (record fz { is_open = false }) m.freezes }

unfoldable pub capture : String → LedgerMock → Result (Unit {0}) × LedgerMock
capture id m = elim (lookup id m.freezes) [
  | none ↦ (err (bare ledger_freeze), m)
  | some fz ↦ (ok tt, close_freeze id fz m)
]

unfoldable pub release : String → LedgerMock → LedgerMock
release id m = elim (lookup id m.freezes) [
  | none ↦ m
  | some fz ↦
      if fz.is_open
      then close_freeze id fz (set_balance fz.user (add64 (stored_balance fz.user m) fz.amount) m)
      else m
]

unfoldable pub credit : String → String → String → ℤ → LedgerMock → LedgerMock
credit tenant user asset amount m =
    let key = account_key tenant user asset in
    set_balance key (add64 (stored_balance key m) amount) m
