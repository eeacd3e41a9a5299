-- ===== src/Subtasks/Children.antt =====
-- Subtasks: what getSubtasks lists, in terms of the rows of the table.
use atlaspm.Base.{
  ℕ, ◌≤◌, leb, ◌≡◌, ◌↔◌, ◌⊎◌, inl, inr, refl, sym, subst, arith, Bool, true, false, ◌&&◌, none,
  some, List, [], ◌∷◌, select, Bool-cases, In, ==_self,
}
use atlaspm.Store.{TaskRow, is_none, is_none_lem, has_id, has_id_lem}
use atlaspm.Subtasks.{insert_by, sort_by, get_subtasks}

-- the live row `t` has the parent `p`
pub record IsSubtask (rows : List TaskRow) (p : ℕ) (t : TaskRow) : Type 0 where
  pub row : In t rows
  pub parent : t.parent_id ≡ some p
  pub live : t.deleted_at ≡ none

abbrev pub IsSorted : (TaskRow → ℕ) → List TaskRow → Type 0
IsSorted position [] = Unit {0}
IsSorted position (x ∷ xs) =
    ((y : TaskRow) → In y xs → position x ≤ position y) × IsSorted position xs

-- the list has the live rows with that parent and no others, by position
pub record IsChildren (position : TaskRow → ℕ) (rows : List TaskRow) (p : ℕ) (ts : List TaskRow)
    : Type 0 where
  pub sorted : IsSorted position ts
  pub members : (t : TaskRow) → In t ts ↔ IsSubtask rows p t

module _ (position : TaskRow → ℕ) where
  In-insert_by :
      (y t : TaskRow) (xs : List TaskRow) → In y (insert_by position t xs) → (t ≡ y) ⊎ In y xs
  In-insert_by y t [] i = i
  In-insert_by y t (x ∷ xs) i = elim (Bool-cases (leb (position t) (position x))) [
    | inl e ↦ subst (λ l. In y l) (first e) i
    | inr e ↦ elim (subst (λ l. In y l) (later e) i) [
      | inl k ↦ inr (inl k)
      | inr j ↦ elim (In-insert_by y t xs j) [ inl k ↦ inl k | inr k ↦ inr (inr k) ]
    ]
  ]
    where
      first : leb (position t) (position x) ≡ true → insert_by position t (x ∷ xs) ≡ t ∷ x ∷ xs
      first e = rw e refl

      later :
          leb (position t) (position x) ≡ false
          → insert_by position t (x ∷ xs) ≡ x ∷ insert_by position t xs
      later e = rw e refl

  insert_by-In :
      (y t : TaskRow) (xs : List TaskRow) → (t ≡ y) ⊎ In y xs → In y (insert_by position t xs)
  insert_by-In y t [] i = i
  insert_by-In y t (x ∷ xs) i = elim (Bool-cases (leb (position t) (position x))) [
    | inl e ↦ rw e i
    | inr e ↦ rw e (elim i [
      | inl k ↦ inr (insert_by-In y t xs (inl k))
      | inr (inl k) ↦ inl k
      | inr (inr k) ↦ inr (insert_by-In y t xs (inr k))
    ])
  ]

  insert_by-IsSorted :
      (t : TaskRow) (xs : List TaskRow)
      → IsSorted position xs
      → IsSorted position (insert_by position t xs)
  insert_by-IsSorted t [] h = ((λ y i. absurd i), tt)
  insert_by-IsSorted t (x ∷ xs) h = elim (Bool-cases (leb (position t) (position x))) [
    | inl e ↦
        let le : position t ≤ position x = ground (arith, e) in
        rw e (
          (λ y i. elim i [
            | inl k ↦ subst (λ z. position t ≤ position z) k le
            | inr j ↦ omega (arith, le, h.0 y j)
          ]),
          h,
        )
    | inr e ↦
        let le : position x ≤ position t = ground (arith, e) in
        rw e (
          (λ y i. elim (In-insert_by y t xs i) [
            | inl k ↦ subst (λ z. position x ≤ position z) k le
            | inr j ↦ h.0 y j
          ]),
          insert_by-IsSorted t xs h.1,
        )
  ]

  sort_by-IsSorted : (xs : List TaskRow) → IsSorted position (sort_by position xs)
  sort_by-IsSorted [] = tt
  sort_by-IsSorted (x ∷ xs) = insert_by-IsSorted x (sort_by position xs) (sort_by-IsSorted xs)

  In-sort_by : (y : TaskRow) (xs : List TaskRow) → In y (sort_by position xs) → In y xs
  In-sort_by y [] i = i
  In-sort_by y (x ∷ xs) i = elim (In-insert_by y x (sort_by position xs) i) [
    | inl k ↦ inl k
    | inr j ↦ inr (In-sort_by y xs j)
  ]

  sort_by-In : (y : TaskRow) (xs : List TaskRow) → In y xs → In y (sort_by position xs)
  sort_by-In y [] i = i
  sort_by-In y (x ∷ xs) (inl k) = insert_by-In y x (sort_by position xs) (inl k)
  sort_by-In y (x ∷ xs) (inr j) = insert_by-In y x (sort_by position xs) (inr (sort_by-In y xs j))

In-select :
    (p : TaskRow → Bool) (y : TaskRow) (xs : List TaskRow)
    → In y (select p xs)
    → In y xs × (p y ≡ true)
In-select p y [] i = absurd i
In-select p y (x ∷ xs) i = elim (Bool-cases (p x)) [
  | inl e ↦ elim (subst (λ l. In y l) (kept e) i) [
    | inl k ↦ (inl k, subst (λ z. p z ≡ true) k e)
    | inr j ↦ let (m, q) = In-select p y xs j in (inr m, q)
  ]
  | inr e ↦ let (m, q) = In-select p y xs (subst (λ l. In y l) (dropped e) i) in (inr m, q)
]
  where
    kept : p x ≡ true → select p (x ∷ xs) ≡ x ∷ select p xs
    kept e = rw e refl

    dropped : p x ≡ false → select p (x ∷ xs) ≡ select p xs
    dropped e = rw e refl

select-In :
    (p : TaskRow → Bool) (y : TaskRow) (xs : List TaskRow)
    → In y xs
    → p y ≡ true
    → In y (select p xs)
select-In p y [] i e = i
select-In p y (x ∷ xs) (inl k) e =
    let e' : p x ≡ true = subst (λ z. p z ≡ true) (sym k) e in rw e' (inl k)
select-In p y (x ∷ xs) (inr j) e = elim (Bool-cases (p x)) [
  | inl t ↦ rw t (inr (select-In p y xs j e))
  | inr t ↦ rw t (select-In p y xs j e)
]

abbrev is_child : ℕ → TaskRow → Bool
is_child p t = has_id p t.parent_id && is_none t.deleted_at

-- `getSubtasks` lists the live rows with that parent, by position.
pub get_subtasks-IsChildren :
    (position : TaskRow → ℕ) (rows : List TaskRow) (p : ℕ)
    → IsChildren position rows p (get_subtasks position rows p)
unfolding get_subtasks
get_subtasks-IsChildren position rows p = record {
  sorted = sort_by-IsSorted position (select (is_child p) rows);
  members = λ t. (
    (λ i.
        let (m, e) =
          In-select (is_child p) t rows (In-sort_by position t (select (is_child p) rows) i) in
        record {
          row = m;
          parent = has_id_lem p t.parent_id (ground arith);
          live = is_none_lem t.deleted_at (ground arith);
        }),
    (λ s.
        sort_by-In position t (select (is_child p) rows) (
          select-In (is_child p) t rows s.row (rw (s.parent, s.live) (ground (arith, ==_self p))))),
  );
}
