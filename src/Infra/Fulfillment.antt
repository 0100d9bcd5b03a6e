-- ===== src/Infra/Fulfillment.antt =====
-- internal/infra/fulfillment/registry.go: the adapters of the scenes. The three that store what they
-- hold are shared by the scenes of their kind.
use order_hub.Prelude.{
  String, ◌<>◌, none, some, [], ◌∷◌, ◌≡◌, refl, ◌∙◌, inl, inr, Option-cases, eq_refl,
}
use order_hub.Prelude.Dict.{Dict, lookup, insert, remove, lookup-insert_self, lookup-remove}
use order_hub.Domain.Scene.{SceneConfig, FulfillmentType, shipping, virtual_grant, entitlement}

pub data Adapter : Type 0 where
  no_op : Adapter
  in_memory : String → Adapter

abbrev pub adapter_for : FulfillmentType → Adapter
adapter_for shipping = in_memory "shipping"
adapter_for virtual_grant = in_memory "virtual"
adapter_for entitlement = in_memory "entitlement"
adapter_for _ = no_op

-- `byScene` of `NewRegistry`.
unfoldable pub new_registry : Dict SceneConfig → Dict Adapter
new_registry [] = []
new_registry (entry ∷ scenes) = (entry.0, adapter_for entry.1.fulfillment) ∷ new_registry scenes

unfoldable pub for_scene : Dict Adapter → String → Adapter
for_scene by_scene scene = elim (lookup scene by_scene) [ none ↦ no_op | some a ↦ a ]

-- What the adapters hold: for each kind, a text for each order.
abbrev pub HeldGoods : Type 0
HeldGoods = Dict (Dict String)

-- The map of one kind, `nil` or not.
unfoldable pub held_of : String → HeldGoods → Dict String
held_of kind goods = elim (lookup kind goods) [ none ↦ [] | some h ↦ h ]

unfoldable pub reserve : Adapter → String → HeldGoods → HeldGoods
reserve no_op order_id goods = goods
reserve (in_memory kind) order_id goods =
    insert kind (insert order_id ("reserved:" <> kind) (held_of kind goods)) goods

unfoldable pub commit : Adapter → String → HeldGoods → HeldGoods
commit no_op order_id goods = goods
commit (in_memory kind) order_id goods =
    insert kind (insert order_id ("committed:" <> kind) (held_of kind goods)) goods

unfoldable pub release : Adapter → String → HeldGoods → HeldGoods
release no_op order_id goods = goods
release (in_memory kind) order_id goods = elim (lookup kind goods) [
  | none ↦ goods
  | some h ↦ insert kind (remove order_id h) goods
]

-- After a release the adapter of the kind holds nothing for the order.
lookup-release :
    (kind order_id : String) (goods : HeldGoods)
    → lookup order_id (held_of kind (release (in_memory kind) order_id goods)) ≡ none
unfolding held_of release lookup
lookup-release kind order_id goods = elim (Option-cases (lookup kind goods)) [
  | inl empty ↦ rw (empty, release) (rw (empty, held_of, lookup) refl)
  | inr (h, found) ↦
      rw (found, release, held_of)
        (rw (lookup-insert_self kind (remove order_id h) goods, held_of)
          (lookup-remove order_id order_id h ∙ rw (eq_refl order_id) refl))
]
