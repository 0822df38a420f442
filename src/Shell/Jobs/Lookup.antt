-- ===== src/Shell/Jobs/Lookup.antt =====
-- Jobs of hw1/Commands.cpp by their place in the list and by their number.
use operations_systems.Base.{
  ℕ, zero, suc, ◌≤◌, ◌≡◌, ◌≢◌, refl, sym, ap, ◌∙◌, inl, inr, true, false, Bool-cases, none, some,
  List, [], ◌∷◌, ◌++◌, arith, get_elem?, ◌==◌, if◌then◌else◌, All,
}
use operations_systems.Shell.Jobs.{
  JobEntry, get_job_by_id, remove_job_by_id, get_last_job, less, max_from,
}
use operations_systems.Shell.Jobs.Numbers.{Fresh, Distinct, max_from-ge}

Fresh-Within :
    (id : ℕ) (js : List JobEntry) (i : ℕ) (j : JobEntry)
    → Fresh id js
    → get_elem? js i ≡ some j
    → j.job_id ≢ id
Fresh-Within id [] i j f e = cc
Fresh-Within id (k ∷ js) zero j (ne, f) e = λ same. ne (head_id ∙ same)
  where
    head_id : k.job_id ≡ j.job_id
    head_id = ground arith
Fresh-Within id (k ∷ js) (suc i) j (ne, f) e = Fresh-Within id js i j f e

pub All-at {κ} :
    (P : JobEntry → Type κ) (js : List JobEntry) (i : ℕ) (j : JobEntry)
    → All P js
    → get_elem? js i ≡ some j
    → P j
All-at P [] i j a e = cc
All-at P (k ∷ js) zero j (h, a) e = rw (← head) h
  where
    head : k ≡ j
    head = cc
All-at P (k ∷ js) (suc i) j (h, a) e = All-at P js i j a e

-- Of distinct numbers, one number means one job.
pub Distinct-unique :
    (js : List JobEntry) (i i' : ℕ) (j j' : JobEntry)
    → Distinct js
    → get_elem? js i ≡ some j
    → get_elem? js i' ≡ some j'
    → j.job_id ≡ j'.job_id
    → j ≡ j'
Distinct-unique [] i i' j j' d e e' same = cc
Distinct-unique (k ∷ js) zero zero j j' (f, d) e e' same = cc
Distinct-unique (k ∷ js) zero (suc i') j j' (f, d) e e' same =
    absurd (Fresh-Within k.job_id js i' j' f e' (ground arith))
Distinct-unique (k ∷ js) (suc i) zero j j' (f, d) e e' same =
    absurd (Fresh-Within k.job_id js i j f e (ground arith))
Distinct-unique (k ∷ js) (suc i) (suc i') j j' (f, d) e e' same =
    Distinct-unique js i i' j j' d e e' same

-- Taking a job out splits the list at it.
pub remove_job_by_id-split :
    (js : List JobEntry) (i : ℕ) (j : JobEntry)
    → Distinct js
    → get_elem? js i ≡ some j
    → (before : List JobEntry) × (after : List JobEntry) × (js ≡ before ++ j ∷ after)
      × (remove_job_by_id js j.job_id ≡ before ++ after)
unfolding remove_job_by_id
remove_job_by_id-split [] i j d e = cc
remove_job_by_id-split (k ∷ js) zero j (f, d) e = ([], js, ap (λ l. l ∷ js) head, rw here refl)
  where
    head : k ≡ j
    head = cc

    here : (k.job_id == j.job_id) ≡ true
    here = rw head (ground arith)
remove_job_by_id-split (k ∷ js) (suc i) j (f, d) e =
    let (before, after, split, removed) = remove_job_by_id-split js i j d e in
    (k ∷ before, after, ap (λ l. k ∷ l) split, rw other (ap (λ l. k ∷ l) removed))
  where
    other : (k.job_id == j.job_id) ≡ false
    other = ground (arith, Fresh-Within k.job_id js i j f e)

-- The lookups: of a number, and of the greatest.
pub get_job_by_id-found :
    (js : List JobEntry) (id : ℕ) (j : JobEntry) → get_job_by_id js id ≡ some j → j.job_id ≡ id
unfolding get_job_by_id
get_job_by_id-found [] id j e = cc
get_job_by_id-found (k ∷ js) id j e = elim (Bool-cases (k.job_id == id)) [
  | inl here ↦ let head : k ≡ j = ground arith in sym (ap (λ l. l.job_id) head) ∙ ground arith
  | inr behind ↦
      get_job_by_id-found js id j
        (sym (ap (λ b. if b then some k else get_job_by_id js id) behind) ∙ e)
]

pub get_job_by_id-missing :
    (js : List JobEntry) (id : ℕ) (i : ℕ) (j : JobEntry)
    → get_job_by_id js id ≡ none
    → get_elem? js i ≡ some j
    → j.job_id ≢ id
unfolding get_job_by_id
get_job_by_id-missing [] id i j n e = cc
get_job_by_id-missing (k ∷ js) id zero j n e = elim (Bool-cases (k.job_id == id)) [
  | inl here ↦ absurd (ground arith)
  | inr behind ↦ let head : k ≡ j = cc in rw (← head) (ground arith)
]
get_job_by_id-missing (k ∷ js) id (suc i) j n e = elim (Bool-cases (k.job_id == id)) [
  | inl here ↦ absurd (ground arith)
  | inr behind ↦
      get_job_by_id-missing js id i j
        (sym (ap (λ b. if b then some k else get_job_by_id js id) behind) ∙ n) e
]

All-le_eq :
    (m m' : JobEntry)
    → m ≡ m'
    → (js : List JobEntry) → All (λ k. k.job_id ≤ m.job_id) js
    → All (λ k. k.job_id ≤ m'.job_id) js
All-le_eq m m' q [] a = tt
All-le_eq m m' q (k ∷ js) (le, a) = (omega (arith, ap (λ l. l.job_id) q, le), All-le_eq m m' q js a)

pub get_last_job-All :
    (js : List JobEntry) (j : JobEntry)
    → (get_last_job js).0 ≡ some j
    → All (λ k. k.job_id ≤ j.job_id) js
unfolding get_last_job
get_last_job-All [] j e = cc
get_last_job-All (k ∷ js) j e =
    All-le_eq (max_from less k js) j head (k ∷ js) (max_from-ge (λ l. l.job_id) k js)
  where
    head : max_from less k js ≡ j
    head = cc

pub get_last_job-missing :
    (js : List JobEntry) (i : ℕ) (j : JobEntry)
    → (get_last_job js).0 ≡ none
    → ¬ (get_elem? js i ≡ some j)
unfolding get_last_job
get_last_job-missing [] i j n e = cc
get_last_job-missing (k ∷ js) i j n e = cc
