-- ===== src/Tests/Mocks.antt =====
-- The clients in memory at concrete values.
use order_hub.Prelude.{ℕ, String, ◌≡◌, refl, arith, []}
use order_hub.Prelude.Int.{pos}
use order_hub.Prelude.Dict.{insert, lookup}
use order_hub.Port.{FreezeRequest}
use order_hub.Infra.OfferMock
use order_hub.Infra.OfferMock.{OfferMock, RedemptionResult, reverse}
use order_hub.Infra.OfferMock.Reversed.{AllWithin, AllWithin-insert, reverse-AllWithin}
use order_hub.Infra.LedgerMock
use order_hub.Infra.LedgerMock.{LedgerMock, freeze_on, hold, balance_of, stored_balance, release}
use order_hub.Infra.LedgerMock.Restored.{release-freeze_on}

abbrev redeemed_once : RedemptionResult
redeemed_once = record {
  redemption_id = "rd_1";
  reservation_id = "rsv_1";
  discount_amount = pos 100;
  reversed_amount = pos 30;
}

abbrev one_redeemed : OfferMock
one_redeemed = record (OfferMock.new_mock) { redemptions = insert "rd_1" redeemed_once [] }

nothing-AllWithin : AllWithin OfferMock.new_mock
unfolding lookup
nothing-AllWithin id rd h = absurd (cc)

one_redeemed-AllWithin : AllWithin one_redeemed
one_redeemed-AllWithin =
    AllWithin-insert "rd_1" redeemed_once OfferMock.new_mock
      ((omega arith, omega arith), omega arith, omega arith) nothing-AllWithin

reverse-AllWithin_example : AllWithin (reverse "rd_1" (pos 70) one_redeemed).1
reverse-AllWithin_example = reverse-AllWithin "rd_1" (pos 70) one_redeemed one_redeemed-AllWithin

abbrev freeze_request : FreezeRequest
freeze_request = record {
  tenant_id = "t";
  user_id = "u";
  order_id = "o";
  asset_code = "CNY";
  amount = pos 2500;
  biz_no = "b";
}

abbrev show_one : ℕ → String
show_one _ = "1"

abbrev frozen_once : LedgerMock
frozen_once = hold "fz_1" "t|u|CNY" freeze_request LedgerMock.new_mock

release-freeze_on_example :
    (stored_balance "t|u|CNY" (release "fz_1" frozen_once) ≡ pos 100000)
    × (release "fz_1" (release "fz_1" frozen_once) ≡ release "fz_1" frozen_once)
unfolding freeze_on balance_of lookup
release-freeze_on_example =
    release-freeze_on show_one "t|u|CNY" "fz_1" freeze_request LedgerMock.new_mock frozen_once
      (omega arith) (omega arith) refl
