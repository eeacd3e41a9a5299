-- ===== src/Payload.antt =====
-- JSON payloads, and the ids that WebhookDeliveryService.collectStringValues
-- (apps/core-api/src/webhooks/webhook-delivery.service.ts) finds in them.
pub mod Found
pub mod Examples
use atlaspm.Base.{◌||◌, Bool, false, Option, none, some, List, [], ◌∷◌, if◌then◌else◌}
use atlaspm.Base.Text.{Text, text_eq, trim_or_null}

-- a JSON value; `scalar` is null, a Boolean or a number
mutual
  pub data Json : Type 0 where
    scalar : Json
    string : Text → Json
    array : Items → Json
    object : Fields → Json

  pub data Items : Type 0 where
    no_items : Items
    item : Json → Items → Items

  pub data Fields : Type 0 where
    no_fields : Fields
    field : Text → Json → Fields → Fields

abbrev pub mem_text : Text → List Text → Bool
mem_text t [] = false
mem_text t (x ∷ xs) = text_eq x t || mem_text t xs

-- `Set.prototype.add`, which keeps the order of insertion
abbrev pub add_text : Text → List Text → List Text
add_text t [] = t ∷ []
add_text t (x ∷ xs) = if text_eq x t then x ∷ xs else x ∷ add_text t xs

-- `record[key]`
pub field_value : Text → Fields → Option Json
field_value key no_fields = none
field_value key (field k v fs) = if text_eq k key then some v else field_value key fs

-- `typeof candidate === 'string' && candidate.trim()`
abbrev pub add_candidate : Option Json → List Text → List Text
add_candidate (some (string t)) found = elim (trim_or_null t) [
  | none ↦ found
  | some _ ↦ add_text t found
]
add_candidate _ found = found

-- `walk`
unfoldable mutual
  pub walk : Text → Json → List Text → List Text
  walk key (array xs) found = walk_items key xs found
  walk key (object fs) found = walk_fields key fs (add_candidate (field_value key fs) found)
  walk key (string t) found = found
  walk key scalar found = found

  pub walk_items : Text → Items → List Text → List Text
  walk_items key no_items found = found
  walk_items key (item x xs) found = walk_items key xs (walk key x found)

  pub walk_fields : Text → Fields → List Text → List Text
  walk_fields key no_fields found = found
  walk_fields key (field k v fs) found = walk_fields key fs (walk key v found)

-- collectStringValues
pub collect_string_values : Json → Text → List Text
unfolding walk
collect_string_values value key = walk key value []
