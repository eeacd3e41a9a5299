-- ===== src/Base/Apart.antt =====
-- Rows of which no two are the same by a key, and counts of rows, under the writes of a table.
use atlaspm.Base.{
  ◌+◌, ◌≡◌, refl, Bool, false, List, [], ◌∷◌, ◌++◌, arith, if◌then◌else◌, any, any-append, count,
  update_where, Bool-cases, inl, inr, ◌∙◌, ap, fun_ext,
}

module _ {ℓ} {A : Type ℓ} where
  pub count-append : (p : A → Bool) (xs ys : List A) → count p (xs ++ ys) ≡ count p xs + count p ys
  count-append p [] ys = omega arith
  count-append p (x ∷ xs) ys = ground (arith, count-append p xs ys)

  pub any-update_where :
      (p q : A → Bool) (f : A → A) (xs : List A)
      → ((x : A) → p (f x) ≡ p x)
      → any p (update_where q f xs) ≡ any p xs
  any-update_where p q f [] h = refl
  any-update_where p q f (x ∷ xs) h = ground (arith, any-update_where p q f xs h, h x)

  pub count-update_where :
      (p q : A → Bool) (f : A → A) (xs : List A)
      → ((x : A) → p (f x) ≡ p x)
      → count p (update_where q f xs) ≡ count p xs
  count-update_where p q f [] h = refl
  count-update_where p q f (x ∷ xs) h = ground (arith, count-update_where p q f xs h, h x)

  pub update_where-none :
      (q : A → Bool) (f : A → A) (xs : List A) → any q xs ≡ false → update_where q f xs ≡ xs
  update_where-none q f [] h = refl
  update_where-none q f (x ∷ xs) h = ground (arith, update_where-none q f xs)

module _ {ℓ} {A : Type ℓ} (same : A → A → Bool) where
  -- no two of the rows are the same
  abbrev pub Apart : List A → Type 0
  Apart [] = Unit {0}
  Apart (x ∷ xs) = (any (same x) xs ≡ false) × Apart xs

  pub Apart-append :
      (xs : List A) (y : A)
      → ((a b : A) → same a b ≡ same b a)
      → any (same y) xs ≡ false
      → Apart xs
      → Apart (xs ++ y ∷ [])
  Apart-append [] y sw n h = (refl, tt)
  Apart-append (x ∷ xs) y sw n h = (
    ground (arith, any-append (same x) xs (y ∷ []), sw x y, h.0),
    Apart-append xs y sw (ground (arith, n)) h.1,
  )

  any-same_update :
      (q : A → Bool) (f : A → A) (x : A) (xs : List A)
      → ((a b : A) → same (f a) b ≡ same a b)
      → any (same x) xs ≡ false
      → any (same (if q x then f x else x)) xs ≡ false
  any-same_update q f x xs l h = elim (Bool-cases (q x)) [
    | inl e ↦ rw e (ap (λ p. any p xs) (fun_ext (l x)) ∙ h)
    | inr e ↦ rw e h
  ]

  pub Apart-update_where :
      (q : A → Bool) (f : A → A) (xs : List A)
      → ((a b : A) → same (f a) b ≡ same a b)
      → ((a b : A) → same a (f b) ≡ same a b)
      → Apart xs
      → Apart (update_where q f xs)
  Apart-update_where q f [] l r h = tt
  Apart-update_where q f (x ∷ xs) l r h = (
    any-update_where (same (if q x then f x else x)) q f xs (r (if q x then f x else x))
        ∙ any-same_update q f x xs l h.0,
    Apart-update_where q f xs l r h.1,
  )
