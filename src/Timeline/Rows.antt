-- ===== src/Timeline/Rows.antt =====
-- How the rows of a lane take one more range, where no row is a hole.
use atlaspm.Base.{
  ℕ, zero, suc, ◌==◌, ◌≡◌, ap, subst, refl, inl, inr, false, none, some, List, [], ◌∷◌, ◌++◌, any,
  length, arith, or_default, Bool-cases, Option-cases,
}
use atlaspm.Timeline.{DayRange, Row, overlaps, find_row, set_row}

-- every row has its list
abbrev pub Full : List Row → Type 0
Full [] = Unit {0}
Full (none ∷ rows) = ⊥
Full (some rs ∷ rows) = Full rows

-- the ranges in a row
pub row_at : ℕ → List Row → List DayRange
row_at i [] = []
row_at zero (row ∷ rows) = or_default row []
row_at (suc i) (row ∷ rows) = row_at i rows

-- what a placement does to the rows
pub record Fits (r : DayRange) (i : ℕ) (rows after : List Row) : Type 0 where
  pub apart : any (overlaps r) (row_at i rows) ≡ false
  pub full : Full after
  pub here : row_at i after ≡ row_at i rows ++ r ∷ []
  pub elsewhere : (k : ℕ) → (k == i) ≡ false → row_at k after ≡ row_at k rows

pub find_row-Fits :
    (r : DayRange) (rows after : List Row) (i : ℕ)
    → Full rows
    → find_row r 0 rows ≡ some (i, after)
    → Fits r i rows after × (length after ≡ length rows)
unfolding find_row row_at
find_row-Fits r [] after i h e = absurd (cc e)
find_row-Fits r (none ∷ rows) after i h e = absurd h
find_row-Fits r (some rs ∷ rows) after i h e = elim (Bool-cases (any (overlaps r) rs)) [
  | inr free ↦
      let p : (◌≡◌ {A = ℕ × List Row} (0, some (rs ++ r ∷ []) ∷ rows) (i, after)) = ground arith in
      subst
        (λ (x : ℕ × List Row).
          Fits r (x.0) (some rs ∷ rows) (x.1) × (length (x.1) ≡ length (some rs ∷ rows)))
        p (record { apart = free; full = h; here = refl; elsewhere = λ k m. other k m }, refl)
  | inl taken ↦ elim (Option-cases (find_row r 0 rows)) [
    | inl none_free ↦ absurd (ground arith)
    | inr ((j, rest), f) ↦
        let (fits, same) = find_row-Fits r rows rest j h f in
        let p : (◌≡◌ {A = ℕ × List Row} (suc j, some rs ∷ rest) (i, after)) = ground arith in
        subst
          (λ (x : ℕ × List Row).
            Fits r (x.0) (some rs ∷ rows) (x.1) × (length (x.1) ≡ length (some rs ∷ rows)))
          p
          (
            record {
              apart = fits.apart;
              full = fits.full;
              here = fits.here;
              elsewhere = λ k m. shifted j rest fits k m;
            },
            ap suc same,
          )
  ]
]
  where
    other :
        (k : ℕ)
        → (k == 0) ≡ false
        → row_at k (some (rs ++ r ∷ []) ∷ rows) ≡ row_at k (some rs ∷ rows)
    other zero m = absurd (cc m)
    other (suc k) m = refl

    shifted :
        (j : ℕ) (rest : List Row)
        → Fits r j rows rest
        → (k : ℕ) → (k == suc j) ≡ false
        → row_at k (some rs ∷ rest) ≡ row_at k (some rs ∷ rows)
    shifted j rest fits zero m = refl
    shifted j rest fits (suc k) m = fits.elsewhere k (ground arith)

pub set_row-Fits :
    (r : DayRange) (rows : List Row)
    → Full rows
    → Fits r (length rows) rows (set_row (length rows) (some (r ∷ [])) rows)
      × (length (set_row (length rows) (some (r ∷ [])) rows) ≡ suc (length rows))
unfolding set_row row_at
set_row-Fits r [] h = (record { apart = refl; full = tt; here = refl; elsewhere = other }, refl)
  where
    other : (k : ℕ) → (k == 0) ≡ false → row_at k (some (r ∷ []) ∷ []) ≡ row_at k []
    other zero m = absurd (cc m)
    other (suc k) m = refl
set_row-Fits r (none ∷ rows) h = absurd h
set_row-Fits r (some rs ∷ rows) h =
    let (fits, longer) = set_row-Fits r rows h in
    (
      record { apart = fits.apart; full = fits.full; here = fits.here; elsewhere = shifted fits },
      ap suc longer,
    )
  where
    shifted :
        Fits r (length rows) rows (set_row (length rows) (some (r ∷ [])) rows)
        → (k : ℕ) → (k == suc (length rows)) ≡ false
        → row_at k (some rs ∷ set_row (length rows) (some (r ∷ [])) rows)
          ≡ row_at k (some rs ∷ rows)
    shifted fits zero m = refl
    shifted fits (suc k) m = fits.elsewhere k (ground arith)
