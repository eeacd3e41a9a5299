-- ===== src/Task/Validity.antt =====
-- The invariant of the entity, and that every method keeps it.
use atlaspm.Base.{
  ℕ, ◌+◌, ◌≤◌, ◌≡◌, ◌≢◌, ◌↔◌, refl, subst, false, none, arith, ok, err, Result-cases, >>=-eq-ok,
  ◌⊎◌, inl, inr,
}
use atlaspm.Base.Int.{pos, negsuc, ◌+ℤ◌}
use atlaspm.Base.Number.{Number, int, non_integer, increment}
use atlaspm.Store.{TaskStatus, done, todo, in_progress, blocked}
use atlaspm.Progress.{ValidationError, progress_from}
use atlaspm.Progress.Agreement.{progress_from_iff}
use atlaspm.Task.{
  TaskSnapshot, CreateTaskParams, is_blank, is_bad_version, validate, rehydrate, create,
  update_progress, moved, transition_status,
}

-- a task as the domain allows it
pub record IsValid (s : TaskSnapshot) : Type 0 where
  pub named : is_blank s.id ≡ false
  pub titled : is_blank s.title ≡ false
  pub percent : ℕ
  pub progress : s.progress_percent ≡ int (pos percent)
  pub in_range : percent ≤ 100
  pub edits : ℕ
  pub versioned : s.version ≡ int (pos edits)
  pub closed : s.status ≡ done → s.completed_at ≢ none
  pub opened : s.status ≢ done → s.completed_at ≡ none

version_cases : (x : Number) → is_bad_version x ≡ false → (n : ℕ) × (x ≡ int (pos n))
version_cases (int (pos n)) h = (n, refl)
version_cases (int (negsuc n)) h = absurd (cc h)
version_cases non_integer h = absurd (cc h)

-- what a snapshot passes when it is validated
validate-IsValid : (s : TaskSnapshot) → validate s ≡ ok tt → IsValid s
unfolding validate
validate-IsValid s e = elim (Result-cases (progress_from s.progress_percent)) [
  | inr (x, p) ↦ absurd (ground arith)
  | inl (n, p) ↦
      let (q, r) = (progress_from_iff s.progress_percent n).0 p in
      let (m, v) = version_cases s.version (ground arith) in
      record {
        named = ground arith;
        titled = ground arith;
        percent = n;
        progress = q;
        in_range = r;
        edits = m;
        versioned = v;
        closed = λ d c. ground arith;
        opened = λ d. ground arith;
      }
]

IsValid-validate : (s : TaskSnapshot) → IsValid s → validate s ≡ ok tt
unfolding validate
IsValid-validate s v =
    let p = (progress_from_iff s.progress_percent v.percent).1 (v.progress, v.in_range) in
    ground (arith, p, v.named, v.titled, v.versioned, v.closed, v.opened)

-- `Task.rehydrate` accepts exactly the valid snapshots, and keeps what it accepts as it is.
pub rehydrate_iff : (s s' : TaskSnapshot) → (rehydrate s ≡ ok s') ↔ (IsValid s × (s ≡ s'))
unfolding rehydrate
rehydrate_iff s s' = (
  λ e. let (u, p, q) = >>=-eq-ok (λ _. ok s) (validate s) e in (validate-IsValid s p, cc q),
  λ (v, p). let q = IsValid-validate s v in ground arith,
)

-- `updateProgress` keeps a task valid whatever number it is given: for a whole number from 0 to 100
-- it stores it and adds one to the version, for any other it throws and changes nothing.
pub update_progress-IsValid :
    (s : TaskSnapshot) (x : Number) (occurred_at : ℕ)
    → IsValid s
    → IsValid (update_progress s x occurred_at).0
      × (((n : ℕ) × (x ≡ int (pos n))
            × (n ≤ 100)
            × ((update_progress s x occurred_at).0
                ≡ record s { progress_percent = int (pos n); version = increment s.version }))
          ⊎ ((e : ValidationError) × (update_progress s x occurred_at ≡ (s, err e))))
unfolding update_progress ◌+ℤ◌
update_progress-IsValid s x occurred_at v = elim (Result-cases (progress_from x)) [
  | inl (n, p) ↦
      let (q, r) = (progress_from_iff x n).0 p in
      (
        rw (p, update_progress)
            (record {
              named = v.named;
              titled = v.titled;
              percent = n;
              progress = refl;
              in_range = r;
              edits = v.edits + 1;
              versioned = ground (arith, v.versioned);
              closed = v.closed;
              opened = v.opened;
            }),
        inl (n, q, r, rw (p, update_progress) refl),
      )
  | inr (e, p) ↦ (rw (p, update_progress) v, inr (e, rw (p, update_progress) refl))
]

-- The state that a change of status writes is valid again.
moved-IsValid :
    (s : TaskSnapshot) (next : TaskStatus) (occurred_at : ℕ)
    → IsValid s
    → IsValid (moved s next occurred_at)
unfolding ◌+ℤ◌
moved-IsValid s next occurred_at v = record {
  named = v.named;
  titled = v.titled;
  percent = v.percent;
  progress = v.progress;
  in_range = v.in_range;
  edits = v.edits + 1;
  versioned = ground (arith, v.versioned);
  closed = λ d. ground arith;
  opened = λ d. ground arith;
}

-- On a valid task `transitionStatus` never throws: the task takes the new status, stays valid, adds
-- one to its version, keeps the time of an earlier completion if it stays DONE, and loses the time
-- if it leaves DONE.
pub transition_status-IsValid :
    (s : TaskSnapshot) (next : TaskStatus) (occurred_at : ℕ)
    → IsValid s
    → let t = (transition_status s next occurred_at).0 in
      IsValid t
      × (t.status ≡ next)
      × (t.version ≡ increment s.version)
      × ((s.status ≢ done) ⊎ (next ≢ done) ⊎ (t.completed_at ≡ s.completed_at))
      × ((next ≡ done) ⊎ (t.completed_at ≡ none))
      × ((transition_status s next occurred_at).1
          ≡ ok (record {
            task_id = s.id;
            before = s.status;
            after = next;
            occurred_at = occurred_at;
          }))
unfolding transition_status
transition_status-IsValid s next occurred_at v =
    let kept = moved-IsValid s next occurred_at v in
    let passes = IsValid-validate (moved s next occurred_at) kept in
    (kept, refl, refl, kept_time next (is_done_or s.status), lost_time next, rw passes refl)
  where
    is_done_or : (x : TaskStatus) → (x ≡ done) ⊎ (x ≢ done)
    is_done_or done = inl refl
    is_done_or todo = inr (λ p. cc p)
    is_done_or in_progress = inr (λ p. cc p)
    is_done_or blocked = inr (λ p. cc p)

    lost_time : (x : TaskStatus) → (x ≡ done) ⊎ ((moved s x occurred_at).completed_at ≡ none)
    lost_time done = inl refl
    lost_time todo = inr refl
    lost_time in_progress = inr refl
    lost_time blocked = inr refl

    kept_time :
        (x : TaskStatus)
        → (s.status ≡ done) ⊎ (s.status ≢ done)
        → (s.status ≢ done) ⊎ (x ≢ done) ⊎ ((moved s x occurred_at).completed_at ≡ s.completed_at)
    kept_time x (inr other) = inl other
    kept_time done (inl was) = inr (inr (ground (arith, v.closed was)))
    kept_time todo (inl was) = inr (inl (λ p. cc p))
    kept_time in_progress (inl was) = inr (inl (λ p. cc p))
    kept_time blocked (inl was) = inr (inl (λ p. cc p))

-- What a sequence of method calls on a created task can lead to; a call that throws counts too.
pub data Lived : TaskSnapshot → Type 0 where
  made : (p : CreateTaskParams) (s : TaskSnapshot) → create p ≡ ok s → Lived s
  updated :
      {s : TaskSnapshot} (x : Number) (occurred_at : ℕ)
      → Lived s
      → Lived (update_progress s x occurred_at).0
  moved_on :
      {s : TaskSnapshot} (next : TaskStatus) (occurred_at : ℕ)
      → Lived s
      → Lived (transition_status s next occurred_at).0

-- Every state of a task that its methods lead to, from `Task.create` on and through calls that
-- throw, is valid.
pub Lived-IsValid : {s : TaskSnapshot} → Lived s → IsValid s
unfolding create
Lived-IsValid (made p s e) = let (v, q) = (rehydrate_iff _ s).0 e in subst IsValid q v
Lived-IsValid (updated {s} x occurred_at l) =
    (update_progress-IsValid s x occurred_at (Lived-IsValid l)).0
Lived-IsValid (moved_on {s} next occurred_at l) =
    (transition_status-IsValid s next occurred_at (Lived-IsValid l)).0
