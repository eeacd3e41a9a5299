-- ===== src/Payload/Examples.antt =====
-- The search of a nested payload.
use atlaspm.Base.{◌≡◌, [], ◌∷◌}
use atlaspm.Base.Text.{Text}
use atlaspm.Payload.{
  Json, scalar, string, array, object, no_items, item, no_fields, field, mem_text,
  collect_string_values,
}
use atlaspm.Payload.Found.{occurs, collect_string_values-occurs}

abbrev key : Text
key = 107 ∷ []

-- { a: [null, { k: "x" }] }
abbrev nested : Json
nested = object (
    field (97 ∷ [])
      (array (item scalar (item (object (field key (string (120 ∷ [])) no_fields)) no_items)))
      no_fields)

collect_string_values-occurs_example :
    mem_text (120 ∷ []) (collect_string_values nested key) ≡ occurs key (120 ∷ []) nested
collect_string_values-occurs_example = collect_string_values-occurs nested key (120 ∷ [])
