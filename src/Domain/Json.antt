-- ===== src/Domain/Json.antt =====
-- Values of Go's `map[string]any`, which the program stores and passes on.
use order_hub.Prelude.{String, Bool}
use order_hub.Prelude.Int.{ℤ}

mutual
  pub data Json : Type 0 where
    null : Json
    bool : Bool → Json
    num : ℤ → Json
    str : String → Json
    arr : Items → Json
    obj : Fields → Json

  pub data Items : Type 0 where
    nil : Items
    cons : Json → Items → Items

  pub data Fields : Type 0 where
    end : Fields
    field : String → Json → Fields → Fields
