-- ===== src/Shell/Jobs/Finished.antt =====
-- What `removeFinishedJobs` and the sorted lists of hw1/Commands.cpp keep.
use mathlib.Core.List.{Perm}
use mathlib.Core.List.Perm
use operations_systems.Base.{
  ℕ, ◌≤◌, ◌≡◌, refl, ap, ◌∙◌, inl, inr, Bool, true, false, Bool-cases, List, [], ◌∷◌, ◌++◌, arith,
  if◌then◌else◌, All,
}
use operations_systems.Shell.Jobs.{
  JobEntry, Wait, running, exited, signaled, stopped, continued, wait_failed, less, remove_or_keep,
  remove_finished_jobs, insert, sort, lines, print_jobs_list,
}

abbrev pub ended : Wait → Bool
ended exited = true
ended signaled = true
ended running = false
ended stopped = false
ended continued = false
ended wait_failed = false

abbrev pub failed : Wait → Bool
failed wait_failed = true
failed exited = false
failed signaled = false
failed running = false
failed stopped = false
failed continued = false

-- The jobs before the first whose `waitpid` fails lose those that have ended; the others are as they
-- were.
abbrev pub unfinished : (ℕ → Wait) → List JobEntry → List JobEntry
unfinished waitpid [] = []
unfinished waitpid (j ∷ js) =
    if ended (waitpid j.pid) then unfinished waitpid js else j ∷ unfinished waitpid js

abbrev pub NoneFails : (ℕ → Wait) → List JobEntry → Type 0
NoneFails waitpid js = All (λ j. failed (waitpid j.pid) ≡ false) js

-- Where no `waitpid` fails, `removeFinishedJobs` removes exactly the jobs that have ended, keeps the
-- order of the others and reports no error; where the first failure is behind some of the jobs, it
-- stops there.
pub remove_finished_jobs-unfinished :
    (waitpid : ℕ → Wait) (js : List JobEntry) (rest : List JobEntry)
    → NoneFails waitpid js
    → (remove_finished_jobs waitpid js ≡ (unfinished waitpid js, false))
      × ((j : JobEntry)
          → failed (waitpid j.pid) ≡ true
          → remove_finished_jobs waitpid (js ++ j ∷ rest)
            ≡ (unfinished waitpid js ++ j ∷ rest, true))
unfolding remove_finished_jobs
remove_finished_jobs-unfinished waitpid [] rest n = (refl, λ j f. stop j (waitpid j.pid) f)
  where
    stop :
        (j : JobEntry) (w : Wait)
        → failed w ≡ true
        → remove_or_keep w j rest (remove_finished_jobs waitpid rest) ≡ (j ∷ rest, true)
    stop j wait_failed f = refl
    stop j exited f = cc
    stop j signaled f = cc
    stop j running f = cc
    stop j stopped f = cc
    stop j continued f = cc
remove_finished_jobs-unfinished waitpid (j ∷ js) rest (h, n) =
    let (all, until) = remove_finished_jobs-unfinished waitpid js rest n in
    (
      ap (remove_or_keep (waitpid j.pid) j js) all
          ∙ decided (waitpid j.pid) js (unfinished waitpid js) false h,
      λ k f.
          ap (remove_or_keep (waitpid j.pid) j (js ++ k ∷ rest)) (until k f)
          ∙ decided (waitpid j.pid) (js ++ k ∷ rest) (unfinished waitpid js ++ k ∷ rest) true h
          ∙ λ i. (moved (ended (waitpid j.pid)) k i, true),
    )
  where
    decided :
        (w : Wait) (behind kept : List JobEntry) (e : Bool)
        → failed w ≡ false
        → remove_or_keep w j behind (kept, e) ≡ ((if ended w then kept else j ∷ kept), e)
    decided exited b k e f = refl
    decided signaled b k e f = refl
    decided running b k e f = refl
    decided stopped b k e f = refl
    decided continued b k e f = refl
    decided wait_failed b k e f = cc

    moved :
        (b : Bool) (k : JobEntry)
        → (if b then unfinished waitpid js ++ k ∷ rest else j ∷ (unfinished waitpid js ++ k ∷ rest))
          ≡ (if b then unfinished waitpid js else j ∷ unfinished waitpid js) ++ k ∷ rest
    moved true k = refl
    moved false k = refl

abbrev pub IsSorted : List JobEntry → Type 0
IsSorted [] = Unit {0}
IsSorted (j ∷ js) = All (λ k. j.job_id ≤ k.job_id) js × IsSorted js

insert_perm : (j : JobEntry) (ks : List JobEntry) → Perm (insert j ks) (j ∷ ks)
insert_perm j [] = Perm.rfl
insert_perm j (k ∷ ks) = elim (Bool-cases (less k j)) [
  | inl lt ↦ rw lt (Perm.trans (Perm.cons k (insert_perm j ks)) (Perm.swap _ _ _))
  | inr ge ↦ rw ge Perm.rfl
]

sort_perm : (js : List JobEntry) → Perm (sort js) js
unfolding sort
sort_perm [] = Perm.rfl
sort_perm (j ∷ js) = Perm.trans (insert_perm j (sort js)) (Perm.cons j (sort_perm js))

All-insert :
    (n : ℕ) (j : JobEntry) (ks : List JobEntry)
    → n ≤ j.job_id
    → All (λ k. n ≤ k.job_id) ks
    → All (λ k. n ≤ k.job_id) (insert j ks)
All-insert n j [] h a = (h, tt)
All-insert n j (k ∷ ks) h (h', a) = placed (less k j) (All-insert n j ks h a)
  where
    placed :
        (b : Bool)
        → All (λ l. n ≤ l.job_id) (insert j ks)
        → All (λ l. n ≤ l.job_id) (if b then k ∷ insert j ks else j ∷ k ∷ ks)
    placed true r = (h', r)
    placed false r = (h, (h', a))

All-le :
    (n m : ℕ) (ks : List JobEntry) → n ≤ m → All (λ k. m ≤ k.job_id) ks → All (λ k. n ≤ k.job_id) ks
All-le n m [] h a = tt
All-le n m (k ∷ ks) h (h', a) = (omega arith, All-le n m ks h a)

insert-IsSorted : (j : JobEntry) (ks : List JobEntry) → IsSorted ks → IsSorted (insert j ks)
insert-IsSorted j [] s = (tt, tt)
insert-IsSorted j (k ∷ ks) (a, s) = elim (Bool-cases (less k j)) [
  | inl lt ↦ rw lt (All-insert k.job_id j ks (ground arith) a, insert-IsSorted j ks s)
  | inr ge ↦ rw ge ((first ge, All-le _ _ ks (first ge) a), (a, s))
]
  where
    first : less k j ≡ false → j.job_id ≤ k.job_id
    first ge = ground arith

sort-IsSorted : (js : List JobEntry) → IsSorted (sort js)
unfolding sort
sort-IsSorted [] = tt
sort-IsSorted (j ∷ js) = insert-IsSorted j (sort js) (sort-IsSorted js)

-- `printJobsList` leaves the unfinished jobs in the order of their numbers, the same jobs, and prints
-- a line for each in that order.
pub print_jobs_list-IsSorted :
    (waitpid : ℕ → Wait) (now : ℕ) (js : List JobEntry)
    → (let (left, printed) = print_jobs_list waitpid now js in
        IsSorted left × Perm left (remove_finished_jobs waitpid js).0 × (printed ≡ lines now left))
unfolding print_jobs_list
print_jobs_list-IsSorted waitpid now js = (sort-IsSorted _, sort_perm _, refl)
