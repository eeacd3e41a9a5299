-- ===== src/TimelineInteraction/Lanes.antt =====
-- TimelineInteraction: normalizeTimelineLaneOrder keeps the first of each name.
use atlaspm.Base.{
  ℕ, suc, ◌≤◌, ltb, ◌≡◌, refl, arith, Bool, true, false, not, ◌&&◌, ◌||◌, List, [], ◌∷◌, ◌++◌,
  length, length-append, map, select, if◌then◌else◌, Result, ok, err, Bool-cases, inl, inr, sym,
  ◌∙◌, ap, fun_ext, subst,
}
use atlaspm.Base.Int.{pos}
use atlaspm.Base.Number.{int}
use atlaspm.Base.Text.{Text, trim, text_eq, text_eq_sound}
use atlaspm.Payload.{mem_text}
use atlaspm.TimelineInteraction.{
  string, array, DomainError, too_many_lanes, is_empty, collect_lanes,
  normalize_timeline_lane_order,
}

-- the names that are not empty once they are trimmed, each where it stands first
abbrev pub lane_names : List Text → List Text
lane_names [] = []
lane_names (t ∷ ts) =
    if is_empty (trim t)
    then lane_names ts
    else trim t ∷ select (λ x. not (text_eq (trim t) x)) (lane_names ts)

abbrev pub at_most : ℕ → List Text → Result DomainError (List Text)
at_most n names = if ltb n (length names) then err (too_many_lanes n) else ok names

mem_text-append :
    (x t : Text) (acc : List Text) → mem_text x (acc ++ t ∷ []) ≡ (mem_text x acc || text_eq t x)
mem_text-append x t [] = ground arith
mem_text-append x t (y ∷ ys) = ground (arith, mem_text-append x t ys)

select-select :
    (p q : Text → Bool) (xs : List Text) → select p (select q xs) ≡ select (λ x. q x && p x) xs
select-select p q [] = refl
select-select p q (x ∷ xs) = ground (arith, select-select p q xs)

abbrev new_names : List Text → List Text → List Text
new_names acc ts = select (λ x. not (mem_text x acc)) (lane_names ts)

-- A name that is there already takes nothing with it.
seen_name :
    (t x : Text) (acc : List Text)
    → mem_text t acc ≡ true
    → (not (text_eq t x) && not (mem_text x acc)) ≡ not (mem_text x acc)
seen_name t x acc m = elim (Bool-cases (text_eq t x)) [
  | inl e ↦
      let k : mem_text x acc ≡ true = subst (λ y. mem_text y acc ≡ true) (text_eq_sound t x e) m in
      ground (arith, e, k)
  | inr e ↦ ground (arith, e)
]

select_true : (xs : List Text) → select (λ x. not (mem_text x [])) xs ≡ xs
select_true [] = refl
select_true (x ∷ xs) = ap (λ ys. x ∷ ys) (select_true xs)

append-nil : (xs : List Text) → xs ++ [] ≡ xs
append-nil [] = refl
append-nil (x ∷ xs) = ap (λ ys. x ∷ ys) (append-nil xs)

append-append_one : (xs ys : List Text) (t : Text) → (xs ++ t ∷ []) ++ ys ≡ xs ++ t ∷ ys
append-append_one [] ys t = refl
append-append_one (x ∷ xs) ys t = ap (λ zs. x ∷ zs) (append-append_one xs ys t)

-- The new names after a name that is there, and after one that is not.
new_names-seen :
    (t : Text) (acc names : List Text)
    → mem_text t acc ≡ true
    → select (λ x. not (mem_text x acc)) (select (λ x. not (text_eq t x)) names)
      ≡ select (λ x. not (mem_text x acc)) names
new_names-seen t acc names m =
    select-select (λ x. not (mem_text x acc)) (λ x. not (text_eq t x)) names
    ∙ ap (λ p. select p names) (fun_ext (λ x. seen_name t x acc m))

new_names-new :
    (t : Text) (acc names : List Text)
    → select (λ x. not (mem_text x acc)) (select (λ x. not (text_eq t x)) names)
      ≡ select (λ x. not (mem_text x (acc ++ t ∷ []))) names
new_names-new t acc names =
    select-select (λ x. not (mem_text x acc)) (λ x. not (text_eq t x)) names
    ∙ ap (λ p. select p names) (fun_ext (λ x. ground (arith, mem_text-append x t acc)))

at_most-more :
    (n : ℕ) (acc more : List Text) (t : Text)
    → ltb n (suc (length acc)) ≡ true
    → at_most n (acc ++ t ∷ more) ≡ err (too_many_lanes n)
at_most-more n acc more t h =
    let long : ltb n (length (acc ++ t ∷ more)) ≡ true =
      ground (arith, length-append acc (t ∷ more), h) in
    rw long refl

collect_lanes_lem :
    (n : ℕ) (ts acc : List Text)
    → length acc ≤ n
    → collect_lanes n (map string ts) acc ≡ at_most n (acc ++ new_names acc ts)
unfolding collect_lanes
collect_lanes_lem n [] acc h =
    let fits : ltb n (length acc) ≡ false = ground (arith, h) in rw (append-nil acc, fits) refl
collect_lanes_lem n (t ∷ ts) acc h = elim (Bool-cases (is_empty (trim t))) [
  | inl e ↦ rw e (collect_lanes_lem n ts acc h)
  | inr e ↦ elim (Bool-cases (mem_text (trim t) acc)) [
    | inl m ↦
        rw (e, m, new_names-seen (trim t) acc (lane_names ts) m) (collect_lanes_lem n ts acc h)
    | inr m ↦ elim (Bool-cases (ltb n (suc (length acc)))) [
      | inl k ↦
          rw (e, m, k)
            (sym (
              at_most-more n acc
                (select (λ x. not (mem_text x acc))
                  (select (λ x. not (text_eq (trim t) x)) (lane_names ts)))
                (trim t) k))
      | inr k ↦
          let names : List Text = new_names (acc ++ trim t ∷ []) ts in
          rw (e, m, k, new_names-new (trim t) acc (lane_names ts))
            (collect_lanes_lem n ts (acc ++ trim t ∷ [])
                (ground (arith, length-append acc (trim t ∷ []), k))
              ∙ ap (at_most n) (append-append_one acc names (trim t)))
    ]
  ]
]

-- For an array of strings and a positive limit, the answer is the names that are not empty once they
-- are trimmed, each where it stands first, unless they are more than the limit, which is refused.
pub normalize_timeline_lane_order_lem :
    (n : ℕ) (ts : List Text)
    → normalize_timeline_lane_order (array (map string ts)) (int (pos (suc n))) ≡ (
        if ltb (suc n) (length (lane_names ts))
        then err (too_many_lanes (suc n))
        else ok (lane_names ts))
unfolding normalize_timeline_lane_order
normalize_timeline_lane_order_lem n ts =
    collect_lanes_lem (suc n) ts [] (omega arith)
    ∙ ap (at_most (suc n)) (select_true (lane_names ts))
