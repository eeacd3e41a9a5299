-- ===== src/TimeTracking/Totals.antt =====
-- Each task's `spentMinutes` is the sum of the minutes of its logs, whatever is created, updated
-- and deleted.
use atlaspm.Base.{
  ℕ, ◌==◌, ◌+◌, ◌≡◌, refl, ap, subst, Bool, false, not, some, List, [], ◌∷◌, ◌++◌, inl, inr, arith,
  if◌then◌else◌, find, select, any, any-append, any-select, select_all, update_where, or_default,
  Bool-cases, ==→eq,
}
use atlaspm.Base.Int.{ℤ, pos, ◌+ℤ◌}
use atlaspm.TimeTracking.{TimedTask, TimeLog, State, is_log, spend_on, revise, UpdateBody}

-- the minutes logged on a task
abbrev pub total : ℕ → List TimeLog → ℕ
total id [] = 0
total id (l ∷ ls) = (if l.task_id == id then l.minutes else 0) + total id ls

-- every task's sum is that of its logs
abbrev pub Agrees : List TimeLog → List TimedTask → Type 0
Agrees logs [] = Unit {0}
Agrees logs (t ∷ ts) = (t.spent_minutes ≡ pos (total t.id logs)) × Agrees logs ts

-- no two logs have one id
abbrev pub Distinct : List TimeLog → Type 0
Distinct [] = Unit {0}
Distinct (l ∷ ls) = (any (is_log l.id) ls ≡ false) × Distinct ls

pub record Balanced (s : State) : Type 0 where
  pub agrees : Agrees s.logs s.tasks
  pub distinct : Distinct s.logs

-- A change of the logs that adds `diff` to one task's total is matched by spending `diff` on it.
pub spend_on-Agrees :
    (id : ℕ) (diff : ℤ) (before after : List TimeLog)
    → ((j : ℕ)
        → pos (total j after)
          ≡ (if j == id then pos (total j before) +ℤ diff else pos (total j before)))
    → (ts : List TimedTask) → Agrees before ts
    → Agrees after (spend_on id diff ts)
spend_on-Agrees id diff before after change [] h = tt
spend_on-Agrees id diff before after change (t ∷ ts) h =
    (ground (arith, change t.id, h.0), spend_on-Agrees id diff before after change ts h.1)

pub total-append :
    (j : ℕ) (ls : List TimeLog) (l : TimeLog)
    → total j (ls ++ l ∷ []) ≡ total j ls + (if l.task_id == j then l.minutes else 0)
total-append j [] l = omega arith
total-append j (x ∷ ls) l = omega (arith, total-append j ls l)

pub Distinct-append :
    (ls : List TimeLog) (l : TimeLog)
    → any (is_log l.id) ls ≡ false
    → Distinct ls
    → Distinct (ls ++ l ∷ [])
Distinct-append [] l n h = (refl, tt)
Distinct-append (x ∷ ls) l n h =
    (ground (arith, any-append (is_log x.id) ls (l ∷ [])), Distinct-append ls l (ground arith) h.1)

-- where no log has the id, nothing is updated or deleted
update_absent :
    (id j : ℕ) (body : UpdateBody) (ls : List TimeLog)
    → any (is_log id) ls ≡ false
    → total j (update_where (is_log id) (revise body) ls) ≡ total j ls
update_absent id j body [] n = refl
update_absent id j body (x ∷ ls) n = ground (arith, update_absent id j body ls)

pub total-update :
    (id j : ℕ) (body : UpdateBody) (ls : List TimeLog) (l : TimeLog)
    → Distinct ls
    → find (is_log id) ls ≡ some l
    → total j (update_where (is_log id) (revise body) ls)
        + (if l.task_id == j then l.minutes else 0)
      ≡ total j ls + (if l.task_id == j then or_default body.minutes l.minutes else 0)
total-update id j body [] l d f = absurd (cc f)
total-update id j body (x ∷ ls) l d f = elim (Bool-cases (is_log id x)) [
  | inl hit ↦
      let k : x ≡ l = ground arith in
      let e : x.id ≡ id = ==→eq x.id id hit in
      let gone = subst (λ i. any (is_log i) ls ≡ false) e d.0 in
      ground (arith, update_absent id j body ls gone)
  | inr miss ↦ ground (arith, total-update id j body ls l d.1)
]

pub total-delete :
    (id j : ℕ) (ls : List TimeLog) (l : TimeLog)
    → Distinct ls
    → find (is_log id) ls ≡ some l
    → total j (select (λ x. not (is_log id x)) ls) + (if l.task_id == j then l.minutes else 0)
      ≡ total j ls
total-delete id j [] l d f = absurd (cc f)
total-delete id j (x ∷ ls) l d f = elim (Bool-cases (is_log id x)) [
  | inl hit ↦
      let k : x ≡ l = ground arith in
      let e : x.id ≡ id = ==→eq x.id id hit in
      let gone = subst (λ i. any (is_log i) ls ≡ false) e d.0 in
      ground (arith, ap (total j) (select_all (is_log id) ls gone))
  | inr miss ↦ ground (arith, total-delete id j ls l d.1)
]

any-update :
    (i id : ℕ) (body : UpdateBody) (ls : List TimeLog)
    → any (is_log i) (update_where (is_log id) (revise body) ls) ≡ any (is_log i) ls
any-update i id body [] = refl
any-update i id body (x ∷ ls) = ground (arith, any-update i id body ls)

pub Distinct-update :
    (id : ℕ) (body : UpdateBody) (ls : List TimeLog)
    → Distinct ls
    → Distinct (update_where (is_log id) (revise body) ls)
Distinct-update id body [] h = tt
Distinct-update id body (x ∷ ls) h =
    ground (arith, any-update x.id id body ls, Distinct-update id body ls h.1)

pub Distinct-select :
    (p : TimeLog → Bool) (ls : List TimeLog) → Distinct ls → Distinct (select p ls)
Distinct-select p [] h = tt
Distinct-select p (x ∷ ls) h =
    ground (arith, any-select (is_log x.id) p ls, Distinct-select p ls h.1)
