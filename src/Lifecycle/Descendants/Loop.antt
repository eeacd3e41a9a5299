-- ===== src/Lifecycle/Descendants/Loop.antt =====
-- The `while` loop of collectDescendantIds: its invariant, its end and its result.
use atlaspm.Base.{
  ℕ, zero, suc, ◌+◌, ◌==◌, ◌≤◌, ◌<◌, ◌≡◌, ◌≢◌, ◌↔◌, ◌⊎◌, inl, inr, refl, subst, ap, true, false,
  some, List, [], ◌∷◌, ◌++◌, arith, mem, mem-append, length, missing, missing_mono, missing-add,
  missing-le-length, Bool-cases, List-cases, ==→eq, ==_self,
}
use atlaspm.Store.{TaskRow}
use atlaspm.Lifecycle.{children, collect, collect_descendant_ids}
use atlaspm.Lifecycle.Descendants.{
  Child, Below, child, deeper, mem-children, children-mem, ids, length-ids, children-ids,
  mem-select, next,
}

module _ (rows : List TaskRow) (root : ℕ) where
  -- Outside the frontier every visited task has its children visited too.
  pub record Inv (visited frontier found : List ℕ) : Type 0 where
    pub front : (x : ℕ) → mem x frontier ≡ true → mem x visited ≡ true
    pub root_seen : mem root visited ≡ true
    pub root_out : mem root found ≡ false
    pub found_seen : (x : ℕ) → mem x found ≡ true → mem x visited ≡ true
    pub seen_found : (x : ℕ) → mem x visited ≡ true → x ≢ root → mem x found ≡ true
    pub sound : (x : ℕ) → mem x found ≡ true → Below rows root x
    pub closed :
        (p c : ℕ)
        → mem p visited ≡ true
        → Child rows p c
        → (mem p frontier ≡ true) ⊎ (mem c visited ≡ true)

  Inv-start : Inv (root ∷ []) (root ∷ []) []
  Inv-start = record {
    front = λ x m. m;
    root_seen = ground (arith, ==_self root);
    root_out = refl;
    found_seen = λ x m. absurd (cc m);
    seen_found = λ x m n. absurd (ground (arith, n, m));
    sound = λ x m. absurd (cc m);
    closed = λ p c m h. inl m;
  }

  Below-Child :
      (visited frontier found : List ℕ)
      → Inv visited frontier found
      → (p c : ℕ) → mem p visited ≡ true
      → Child rows p c
      → Below rows root c
  Below-Child visited frontier found v p c m h = elim (Bool-cases (p == root)) [
    | inl e ↦ child (subst (λ y. Child rows y c) (==→eq p root e) h)
    | inr e ↦ deeper (v.sound p (v.seen_found p m (λ q. ground (arith, q, ==_self p)))) h
  ]

  Inv-round :
      (visited frontier found : List ℕ)
      → Inv visited frontier found
      → let fresh = next rows visited frontier in Inv (fresh ++ visited) fresh (found ++ fresh)
  Inv-round visited frontier found v =
      let fresh = next rows visited frontier in
      let in_fresh = λ (x : ℕ). mem-select visited x (children rows frontier) in
      let joined = λ (x : ℕ). mem-append x fresh visited in
      let grown = λ (x : ℕ). mem-append x found fresh in
      record {
        front = λ x m. ground (arith, joined x);
        root_seen = ground (arith, joined root, v.root_seen);
        root_out = ground (arith, grown root, in_fresh root, v.root_seen, v.root_out);
        found_seen = λ x m. ground (arith, joined x, grown x, v.found_seen x);
        seen_found = λ x m n. ground (arith, joined x, grown x, v.seen_found x, n, m);
        sound = λ x m. elim (Bool-cases (mem x found)) [
          | inl old ↦ v.sound x old
          | inr other ↦
              let (p, q, h) = mem-children rows frontier x (ground (arith, grown x, in_fresh x)) in
              Below-Child visited frontier found v p x (v.front p q) h
        ];
        closed = λ p c m h. elim (Bool-cases (mem p fresh)) [
          | inl new ↦ inl new
          | inr old ↦ elim (v.closed p c (ground (arith, joined p)) h) [
            | inl q ↦
                let k = children-mem rows frontier p c q h in
                inr (ground (arith, joined c, in_fresh c))
            | inr q ↦ inr (ground (arith, joined c))
          ]
        ];
      }

  -- A round whose new frontier is not empty has visited a row more.
  fewer :
      (visited frontier : List ℕ) (x : ℕ)
      → mem x (next rows visited frontier) ≡ true
      → missing (ids rows) (next rows visited frontier ++ visited) < missing (ids rows) visited
  fewer visited frontier x m =
      let here' = mem-select visited x (children rows frontier) in
      let less =
        missing-add (ids rows) visited x (children-ids rows frontier x (ground (arith, here')))
          (ground (arith, here')) in
      let more =
        missing_mono (ids rows) (x ∷ visited) (next rows visited frontier ++ visited)
          (λ y k. ground (arith, mem-append y (next rows visited frontier) visited, at x y, m)) in
      omega arith
    where
      at :
          (x y : ℕ)
          → (x == y) ≡ true
          → mem x (next rows visited frontier) ≡ mem y (next rows visited frontier)
      at x y e = ap (λ z. mem z (next rows visited frontier)) (==→eq x y e)

  -- The loop ends with the invariant and an empty frontier.
  collect_lem :
      (fuel : ℕ) (visited frontier found : List ℕ)
      → Inv visited frontier found
      → (frontier ≡ []) ⊎ (missing (ids rows) visited + 2 ≤ fuel)
      → 1 ≤ fuel
      → (seen result : List ℕ) × (collect rows fuel visited frontier found ≡ some result)
        × Inv seen [] result
  unfolding collect
  collect_lem zero visited frontier found v enough h = absurd (omega arith)
  collect_lem (suc fuel) visited [] found v enough h = (visited, found, refl, v)
  collect_lem (suc fuel) visited (f ∷ fs) found v enough h =
      let fresh = next rows visited (f ∷ fs) in
      let left : missing (ids rows) visited + 2 ≤ suc fuel = ground (arith, enough) in
      collect_lem fuel (fresh ++ visited) fresh (found ++ fresh)
        (Inv-round visited (f ∷ fs) found v)
        (elim (List-cases fresh) [
          | inl e ↦ inl e
          | inr (x, xs, e) ↦
              let m : mem x fresh ≡ true = rw e (ground (arith, ==_self x)) in
              inr (omega (arith, fewer visited (f ∷ fs) x m))
        ])
        (omega arith)

-- `collectDescendantIds` returns, on every table, and lists exactly the live tasks below the given
-- one (parents by parents, through live tasks), without that task itself should it be below itself.
pub collect_descendant_ids_iff :
    (rows : List TaskRow) (root : ℕ)
    → (result : List ℕ) × (collect_descendant_ids rows root ≡ some result)
      × ((x : ℕ) → (mem x result ≡ true) ↔ (Below rows root x × (x ≢ root)))
unfolding collect_descendant_ids
collect_descendant_ids_iff rows root =
    let (seen, result, e, v) =
      collect_lem rows root (suc (suc (length rows))) (root ∷ []) (root ∷ []) []
        (Inv-start rows root)
        (inr (omega (arith, missing-le-length (ids rows) (root ∷ []), length-ids rows)))
        (omega arith) in
    (
      result,
      e,
      λ x. (
        λ m. (v.sound x m, λ p. cc (v.root_out, subst (λ y. mem y result ≡ true) p m)),
        λ (b, n). v.seen_found x (reach seen result v x b) n,
      ),
    )
  where
    reach :
        (seen result : List ℕ)
        → Inv rows root seen [] result
        → (x : ℕ) → Below rows root x
        → mem x seen ≡ true
    reach seen result v x (child h) = elim (v.closed root x v.root_seen h) [
      | inl p ↦ cc p
      | inr p ↦ p
    ]
    reach seen result v x (deeper {p} b h) = elim (v.closed p x (reach seen result v p b) h) [
      | inl q ↦ cc q
      | inr q ↦ q
    ]
