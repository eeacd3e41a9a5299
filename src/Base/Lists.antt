-- ===== src/Base/Lists.antt =====
-- Lists measured and searched with native numbers. A JavaScript `Set` of ids is a list read by
-- `mem`; `add` keeps its insertion order and its distinctness.
use Prim.Native.Nat.{ℕ, suc, ◌+◌, ◌≤◌, ◌<◌}
use mathlib.Core.Path.{◌≡◌, refl}
use mathlib.Core.Logic.{◌⊎◌}
use mathlib.Core.Bool.{Bool, true, false, not, ◌||◌, ◌&&◌}
use mathlib.Core.List.{List, [], ◌∷◌, ◌++◌}
use mathlib.Core.Option.{Option, none, some}
use native.Mathlib.Omega.{arith}
use atlaspm.Base.Tests.{◌==◌, if◌then◌else◌}

module _ {ℓ} {A : Type ℓ} where
  abbrev pub length : List A → ℕ
  length [] = 0
  length (x ∷ xs) = suc (length xs)

  pub length-append : (xs ys : List A) → length (xs ++ ys) ≡ length xs + length ys
  length-append [] ys = omega arith
  length-append (x ∷ xs) ys = omega (arith, length-append xs ys)

  -- `Array.prototype.filter`, by a Boolean test
  abbrev pub select : (A → Bool) → List A → List A
  select p [] = []
  select p (x ∷ xs) = if p x then x ∷ select p xs else select p xs

  -- `Array.prototype.find` and Prisma's `findFirst`
  abbrev pub find : (A → Bool) → List A → Option A
  find p [] = none
  find p (x ∷ xs) = if p x then some x else find p xs

  -- `Array.prototype.some`
  abbrev pub any : (A → Bool) → List A → Bool
  any p [] = false
  any p (x ∷ xs) = p x || any p xs

  -- Prisma's `count` and the count that `updateMany` returns
  abbrev pub count : (A → Bool) → List A → ℕ
  count p [] = 0
  count p (x ∷ xs) = if p x then suc (count p xs) else count p xs

  -- Prisma's `updateMany`
  abbrev pub update_where : (A → Bool) → (A → A) → List A → List A
  update_where p f [] = []
  update_where p f (x ∷ xs) = (if p x then f x else x) ∷ update_where p f xs

  pub find_sound : (p : A → Bool) (xs : List A) (x : A) → find p xs ≡ some x → p x ≡ true
  find_sound p [] x h = cc
  find_sound p (y ∷ ys) x h = ground (arith, find_sound p ys x)

-- How the searches of a list meet `++` and one another.
module _ {ℓ} {A : Type ℓ} where
  pub any-append : (p : A → Bool) (xs ys : List A) → any p (xs ++ ys) ≡ (any p xs || any p ys)
  any-append p [] ys = refl
  any-append p (x ∷ xs) ys = ground (arith, any-append p xs ys)

  pub any-select : (p q : A → Bool) (xs : List A) → any p xs ≡ false → any p (select q xs) ≡ false
  any-select p q [] h = refl
  any-select p q (x ∷ xs) h = ground (arith, any-select p q xs)

  pub select_all : (q : A → Bool) (xs : List A) → any q xs ≡ false → select (λ r. not (q r)) xs ≡ xs
  select_all q [] h = refl
  select_all q (x ∷ xs) h = ground (arith, select_all q xs)

  pub find-append :
      (q : A → Bool) (xs : List A) (x : A)
      → any q xs ≡ false
      → q x ≡ true
      → find q (xs ++ x ∷ []) ≡ some x
  find-append q [] x h k = ground arith
  find-append q (y ∷ ys) x h k = ground (arith, find-append q ys x)

  pub select-append_last :
      (q : A → Bool) (xs : List A) (x : A)
      → any q xs ≡ false
      → q x ≡ true
      → select (λ r. not (q r)) (xs ++ x ∷ []) ≡ xs
  select-append_last q [] x h k = ground arith
  select-append_last q (y ∷ ys) x h k = ground (arith, select-append_last q ys x)

-- How a search meets an update that keeps what it looks for.
module _ {ℓ} {A : Type ℓ} where
  abbrev pub change_found : (A → Bool) → (A → A) → Option A → Option A
  change_found q f none = none
  change_found q f (some x) = some (if q x then f x else x)

  pub find-update_where :
      (p q : A → Bool) (f : A → A) (xs : List A)
      → ((x : A) → p (f x) ≡ p x)
      → find p (update_where q f xs) ≡ change_found q f (find p xs)
  find-update_where p q f [] h = refl
  find-update_where p q f (x ∷ xs) h = ground (arith, find-update_where p q f xs h, h x)

abbrev pub mem : ℕ → List ℕ → Bool
mem a [] = false
mem a (x ∷ xs) = (x == a) || mem a xs

-- `Set.prototype.add`
abbrev pub add : ℕ → List ℕ → List ℕ
add a xs = if mem a xs then xs else a ∷ xs

-- `Set.prototype.delete`
abbrev pub delete : ℕ → List ℕ → List ℕ
delete a = select (λ x. not (x == a))

pub mem-add : (a x : ℕ) (xs : List ℕ) → mem x (add a xs) ≡ ((a == x) || mem x xs)
mem-add a x xs = ground arith

pub mem-delete : (a x : ℕ) (xs : List ℕ) → mem x (delete a xs) ≡ (not (x == a) && mem x xs)
mem-delete a x [] = ground arith
mem-delete a x (y ∷ ys) = ground (arith, mem-delete a x ys)

pub mem-append : (a : ℕ) (xs ys : List ℕ) → mem a (xs ++ ys) ≡ (mem a xs || mem a ys)
mem-append a [] ys = refl
mem-append a (x ∷ xs) ys = ground (arith, mem-append a xs ys)

-- The members of a list that are not in a set.
abbrev pub missing : List ℕ → List ℕ → ℕ
missing [] seen = 0
missing (x ∷ xs) seen = if mem x seen then missing xs seen else suc (missing xs seen)

pub missing-le-length : (xs seen : List ℕ) → missing xs seen ≤ length xs
missing-le-length [] seen = omega arith
missing-le-length (x ∷ xs) seen = ground (arith, missing-le-length xs seen)

pub missing_mono :
    (xs seen more : List ℕ)
    → ((x : ℕ) → mem x seen ≡ true → mem x more ≡ true)
    → missing xs more ≤ missing xs seen
missing_mono [] seen more h = omega arith
missing_mono (x ∷ xs) seen more h = ground (arith, missing_mono xs seen more h, h x)

pub missing-add :
    (xs seen : List ℕ) (a : ℕ)
    → mem a xs ≡ true
    → mem a seen ≡ false
    → missing xs (a ∷ seen) < missing xs seen
missing-add [] seen a h k = ground arith
missing-add (x ∷ xs) seen a h k =
    ground (arith, missing-add xs seen a, missing_mono xs seen (a ∷ seen) (λ y m. ground arith))

-- `x` is one of the list
abbrev pub In : {A : Type 0} → A → List A → Type 0
In x [] = ⊥
In x (y ∷ ys) = (y ≡ x) ⊎ In x ys
