-- ===== src/Payload/Found.antt =====
-- Which ids collectStringValues finds.
use atlaspm.Base.{
  ◌≡◌, ◌∙◌, ap, refl, inl, inr, Bool, true, false, ◌&&◌, ◌||◌, not, Option, none, some, List, [],
  ◌∷◌, arith, Bool-cases, Option-cases,
}
use atlaspm.Base.Text.{Text, text_eq, text_eq_sound, trim_or_null}
use atlaspm.Store.{is_some}
use atlaspm.Payload.{
  Json, scalar, string, array, object, Items, no_items, item, Fields, no_fields, field, mem_text,
  add_text, field_value, add_candidate, walk, walk_items, walk_fields, collect_string_values,
}

-- the value of the key is the text, which is not blank
abbrev pub is_text : Text → Option Json → Bool
is_text t (some (string u)) = is_some (trim_or_null u) && text_eq u t
is_text t _ = false

-- a string that is the text, which is not blank
abbrev pub is_string : Text → Json → Bool
is_string t (string u) = is_some (trim_or_null u) && text_eq u t
is_string t scalar = false
is_string t (array xs) = false
is_string t (object fs) = false

-- whether the first field of that name holds the text
abbrev pub holds : Text → Text → Fields → Bool
holds key t no_fields = false
holds key t (field k v fs) =
    (text_eq k key && is_string t v) || (not (text_eq k key) && holds key t fs)

-- whether some object in the value has the text as the value of the key
unfoldable mutual
  pub occurs : Text → Text → Json → Bool
  occurs key t (object fs) = holds key t fs || occurs_fields key t fs
  occurs key t (array xs) = occurs_items key t xs
  occurs key t (string u) = false
  occurs key t scalar = false

  pub occurs_items : Text → Text → Items → Bool
  occurs_items key t no_items = false
  occurs_items key t (item x xs) = occurs key t x || occurs_items key t xs

  pub occurs_fields : Text → Text → Fields → Bool
  occurs_fields key t no_fields = false
  occurs_fields key t (field k v fs) = occurs key t v || occurs_fields key t fs

mem_text-add_text :
    (t u : Text) (found : List Text)
    → mem_text t (add_text u found) ≡ (mem_text t found || text_eq u t)
mem_text-add_text t u [] = ground arith
mem_text-add_text t u (x ∷ found) = elim (Bool-cases (text_eq x u)) [
  | inl same ↦
      let p : text_eq x t ≡ text_eq u t = ap (λ y. text_eq y t) (text_eq_sound x u same) in
      ground arith
  | inr other ↦ ground (arith, mem_text-add_text t u found)
]

mem_text-add_candidate :
    (t : Text) (o : Option Json) (found : List Text)
    → mem_text t (add_candidate o found) ≡ (mem_text t found || is_text t o)
mem_text-add_candidate t none found = ground arith
mem_text-add_candidate t (some scalar) found = ground arith
mem_text-add_candidate t (some (array xs)) found = ground arith
mem_text-add_candidate t (some (object fs)) found = ground arith
mem_text-add_candidate t (some (string u)) found = elim (Option-cases (trim_or_null u)) [
  | inl blank ↦ ground arith
  | inr (v, text) ↦ ground (arith, mem_text-add_text t u found)
]

or_false : (a : Bool) → a ≡ (a || false)
or_false true = refl
or_false false = refl

is_text-string : (t : Text) (v : Json) → is_text t (some v) ≡ is_string t v
is_text-string t scalar = refl
is_text-string t (string u) = refl
is_text-string t (array xs) = refl
is_text-string t (object fs) = refl

-- The field that the code reads is the first one of that name.
is_text-field_value : (key t : Text) (fs : Fields) → is_text t (field_value key fs) ≡ holds key t fs
unfolding field_value
is_text-field_value key t no_fields = refl
is_text-field_value key t (field k v fs) = elim (Bool-cases (text_eq k key)) [
  | inl e ↦ rw e (is_text-string t v ∙ or_false (is_string t v))
  | inr e ↦ rw e (is_text-field_value key t fs)
]

or_assoc : (a b c : Bool) → ((a || b) || c) ≡ (a || (b || c))
or_assoc true b c = refl
or_assoc false b c = refl

mutual
  unfolding walk walk_items walk_fields occurs occurs_items occurs_fields

  walk-occurs :
      (key t : Text) (j : Json) (found : List Text)
      → mem_text t (walk key j found) ≡ (mem_text t found || occurs key t j)
  walk-occurs key t scalar found = or_false (mem_text t found)
  walk-occurs key t (string u) found = or_false (mem_text t found)
  walk-occurs key t (array xs) found = walk_items-occurs key t xs found
  walk-occurs key t (object fs) found =
      walk_fields-occurs key t fs (add_candidate (field_value key fs) found)
      ∙ ap (λ b. b || occurs_fields key t fs) (mem_text-add_candidate t (field_value key fs) found)
      ∙ or_assoc (mem_text t found) (is_text t (field_value key fs)) (occurs_fields key t fs)
      ∙ ap (λ b. mem_text t found || (b || occurs_fields key t fs)) (is_text-field_value key t fs)

  walk_items-occurs :
      (key t : Text) (xs : Items) (found : List Text)
      → mem_text t (walk_items key xs found) ≡ (mem_text t found || occurs_items key t xs)
  walk_items-occurs key t no_items found = or_false (mem_text t found)
  walk_items-occurs key t (item x xs) found =
      walk_items-occurs key t xs (walk key x found)
      ∙ ap (λ b. b || occurs_items key t xs) (walk-occurs key t x found)
      ∙ or_assoc (mem_text t found) (occurs key t x) (occurs_items key t xs)

  walk_fields-occurs :
      (key t : Text) (fs : Fields) (found : List Text)
      → mem_text t (walk_fields key fs found) ≡ (mem_text t found || occurs_fields key t fs)
  walk_fields-occurs key t no_fields found = or_false (mem_text t found)
  walk_fields-occurs key t (field k v fs) found =
      walk_fields-occurs key t fs (walk key v found)
      ∙ ap (λ b. b || occurs_fields key t fs) (walk-occurs key t v found)
      ∙ or_assoc (mem_text t found) (occurs key t v) (occurs_fields key t fs)

-- `collectStringValues` finds a text exactly if it is not blank and some object, at any depth of the
-- payload, has it as the value of the key (of the first field of that name).
pub collect_string_values-occurs :
    (j : Json) (key t : Text) → mem_text t (collect_string_values j key) ≡ occurs key t j
unfolding collect_string_values
collect_string_values-occurs j key t = walk-occurs key t j []
