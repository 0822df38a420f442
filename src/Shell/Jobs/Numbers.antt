-- ===== src/Shell/Jobs/Numbers.antt =====
-- Job numbers of hw1/Commands.cpp: which job has the greatest, and that no two jobs share one.
use operations_systems.Base.{
  ℕ, ◌+◌, ◌≤◌, ◌≡◌, ◌≢◌, refl, sym, inl, inr, Bool, true, false, Bool-cases, Option, none, some,
  List, [], ◌∷◌, ◌++◌, arith, ltb, ◌==◌, if◌then◌else◌, All,
}
use operations_systems.Shell.Text.{Text}
use operations_systems.Shell.Jobs.{
  JobEntry, Wait, running, exited, signaled, stopped, continued, wait_failed, max_from,
  get_max_job_id, remove_or_keep, remove_finished_jobs, next_job_id, add_job, get_job_by_id,
  remove_job_by_id,
}

-- The greatest of a key.
module _ (key : JobEntry → ℕ) where
  abbrev pub less_by : JobEntry → JobEntry → Bool
  less_by a b = ltb (key a) (key b)

  pub max_from-ge :
      (b : JobEntry) (js : List JobEntry)
      → (key b ≤ key (max_from less_by b js)) × All (λ k. key k ≤ key (max_from less_by b js)) js
  max_from-ge b [] = (omega arith, tt)
  max_from-ge b (j ∷ js) =
      let (ge, rest) = max_from-ge (if less_by b j then j else b) js in
      (omega (arith, picked.0, ge), (omega (arith, picked.1, ge), rest))
    where
      picked :
          (key b ≤ key (if less_by b j then j else b))
          × (key j ≤ key (if less_by b j then j else b))
      picked = elim (Bool-cases (less_by b j)) [
        | inl lt ↦ rw lt (ground arith, ground arith)
        | inr ge ↦ rw ge (ground arith, ground arith)
      ]

abbrev pub Fresh : ℕ → List JobEntry → Type 0
Fresh id js = All (λ j. j.job_id ≢ id) js

-- No two jobs have the same number.
abbrev pub Distinct : List JobEntry → Type 0
Distinct [] = Unit {0}
Distinct (j ∷ js) = Fresh j.job_id js × Distinct js

All-lt_ne : (n : ℕ) (js : List JobEntry) → All (λ j. j.job_id ≤ n) js → Fresh (n + 1) js
All-lt_ne n [] a = tt
All-lt_ne n (j ∷ js) (le, a) = (ground arith, All-lt_ne n js a)

pub get_max_job_id-ge : (js : List JobEntry) → All (λ j. j.job_id ≤ get_max_job_id js) js
unfolding get_max_job_id
get_max_job_id-ge [] = tt
get_max_job_id-ge (j ∷ js) = max_from-ge (λ k. k.job_id) j js

-- Removing finished jobs keeps what holds of every job.
pub All-remove_finished_jobs {κ} :
    (P : JobEntry → Type κ) (waitpid : ℕ → Wait) (js : List JobEntry)
    → All P js
    → All P (remove_finished_jobs waitpid js).0
unfolding remove_finished_jobs
All-remove_finished_jobs P waitpid [] a = tt
All-remove_finished_jobs P waitpid (j ∷ js) (h, a) =
    kept (waitpid j.pid) (All-remove_finished_jobs P waitpid js a)
  where
    kept :
        (w : Wait)
        → All P (remove_finished_jobs waitpid js).0
        → All P (remove_or_keep w j js (remove_finished_jobs waitpid js)).0
    kept exited r = r
    kept signaled r = r
    kept wait_failed r = (h, a)
    kept running r = (h, r)
    kept stopped r = (h, r)
    kept continued r = (h, r)

pub Distinct-remove_finished_jobs :
    (waitpid : ℕ → Wait) (js : List JobEntry)
    → Distinct js
    → Distinct (remove_finished_jobs waitpid js).0
unfolding remove_finished_jobs
Distinct-remove_finished_jobs waitpid [] d = tt
Distinct-remove_finished_jobs waitpid (j ∷ js) (h, d) =
    kept (waitpid j.pid) (Distinct-remove_finished_jobs waitpid js d)
  where
    kept :
        (w : Wait)
        → Distinct (remove_finished_jobs waitpid js).0
        → Distinct (remove_or_keep w j js (remove_finished_jobs waitpid js)).0
    kept exited r = r
    kept signaled r = r
    kept wait_failed r = (h, d)
    kept running r = (All-remove_finished_jobs _ waitpid js h, r)
    kept stopped r = (All-remove_finished_jobs _ waitpid js h, r)
    kept continued r = (All-remove_finished_jobs _ waitpid js h, r)

Distinct-snoc :
    (js : List JobEntry) (j : JobEntry) → Distinct js → Fresh j.job_id js → Distinct (js ++ j ∷ [])
Distinct-snoc [] j d f = (tt, tt)
Distinct-snoc (k ∷ js) j (h, d) (ne, f) = (All-snoc js h, Distinct-snoc js j d f)
  where
    All-snoc : (ks : List JobEntry) → Fresh k.job_id ks → Fresh k.job_id (ks ++ j ∷ [])
    All-snoc [] a = (λ e. ne (sym e), tt)
    All-snoc (l ∷ ks) (e, a) = (e, All-snoc ks a)

abbrev pub Unused : Option ℕ → List JobEntry → Type 0
Unused none js = Unit {0}
Unused (some id) js = Fresh id js

next_job_id-Fresh : (o : Option ℕ) (js : List JobEntry) → Unused o js → Fresh (next_job_id o js) js
next_job_id-Fresh none js u = All-lt_ne _ js (get_max_job_id-ge js)
next_job_id-Fresh (some id) js u = u

Unused-remove_finished_jobs :
    (waitpid : ℕ → Wait) (o : Option ℕ) (js : List JobEntry)
    → Unused o js
    → Unused o (remove_finished_jobs waitpid js).0
Unused-remove_finished_jobs waitpid none js u = tt
Unused-remove_finished_jobs waitpid (some id) js u = All-remove_finished_jobs _ waitpid js u

-- `addJob` gives the job a number that no other has, where the foreground job's number, if there is
-- one, is not in the list.
pub add_job-Distinct :
    (waitpid : ℕ → Wait) (o : Option ℕ) (pid now : ℕ) (cmd : Text) (s : Bool) (js : List JobEntry)
    → Distinct js
    → Unused o js
    → Distinct (add_job waitpid o pid now cmd s js)
unfolding add_job
add_job-Distinct waitpid o pid now cmd s js d u =
    Distinct-snoc (remove_finished_jobs waitpid js).0 _ (Distinct-remove_finished_jobs waitpid js d)
      (next_job_id-Fresh o _ (Unused-remove_finished_jobs waitpid o js u))

All-remove_job_by_id {κ} :
    (P : JobEntry → Type κ) (js : List JobEntry) (id : ℕ)
    → All P js
    → All P (remove_job_by_id js id)
unfolding remove_job_by_id
All-remove_job_by_id P [] id a = tt
All-remove_job_by_id P (j ∷ js) id (h, a) = kept (j.job_id == id) (All-remove_job_by_id P js id a)
  where
    kept :
        (b : Bool)
        → All P (remove_job_by_id js id)
        → All P (if b then js else j ∷ remove_job_by_id js id)
    kept true r = a
    kept false r = (h, r)

pub Distinct-remove_job_by_id :
    (js : List JobEntry) (id : ℕ) → Distinct js → Distinct (remove_job_by_id js id)
unfolding remove_job_by_id
Distinct-remove_job_by_id [] id d = tt
Distinct-remove_job_by_id (j ∷ js) id (h, d) =
    kept (j.job_id == id) (Distinct-remove_job_by_id js id d)
  where
    kept :
        (b : Bool)
        → Distinct (remove_job_by_id js id)
        → Distinct (if b then js else j ∷ remove_job_by_id js id)
    kept true r = d
    kept false r = (All-remove_job_by_id _ js id h, r)

-- `removeJobById` takes a number out of use and leaves the other jobs: lookups of other numbers find
-- what they found.
pub remove_job_by_id-Fresh :
    (js : List JobEntry) (id : ℕ)
    → Distinct js
    → Fresh id (remove_job_by_id js id)
      × ((id' : ℕ) → id' ≢ id → get_job_by_id (remove_job_by_id js id) id' ≡ get_job_by_id js id')
unfolding remove_job_by_id get_job_by_id
remove_job_by_id-Fresh [] id d = (tt, λ id' ne. refl)
remove_job_by_id-Fresh (j ∷ js) id (h, d) = elim (Bool-cases (j.job_id == id)) [
  | inl e ↦ rw e (rw (same e) h, λ id' ne. rw (other id' e ne) refl)
  | inr e ↦ rw e (
      let (f, g) = remove_job_by_id-Fresh js id d in
      ((ground arith, f), λ id' ne. rw (g id' ne) refl))
]
  where
    same : (j.job_id == id) ≡ true → id ≡ j.job_id
    same e = ground arith

    other : (id' : ℕ) → (j.job_id == id) ≡ true → id' ≢ id → (j.job_id == id') ≡ false
    other id' e ne = ground arith
