-- ===== src/Shell/Jobs/Last.antt =====
-- The last job and the last stopped job of hw1/Commands.cpp.
use operations_systems.Base.{
  ℕ, zero, suc, ◌≤◌, ◌<◌, ◌≡◌, refl, sym, ap, ◌∙◌, inl, inr, true, false, Bool-cases, Option, none,
  some, List, [], ◌∷◌, arith, get_elem?, ◌==◌, if◌then◌else◌, All,
}
use operations_systems.Shell.Jobs.{
  JobEntry, max_from, id_or_zero, stopped_less_than, stopped_weight, if_stopped,
  get_last_stopped_job, get_last_job, get_job_by_id,
}
use operations_systems.Shell.Jobs.Numbers.{max_from-ge, less_by}

abbrev pub Within : JobEntry → List JobEntry → Type 0
Within j js = (i : ℕ) × (get_elem? js i ≡ some j)

module _ (key : JobEntry → ℕ) where
  max_from-Within :
      (b : JobEntry) (js : List JobEntry) → Within (max_from (less_by key) b js) (b ∷ js)
  max_from-Within b [] = (0, refl)
  max_from-Within b (j ∷ js) = picked (max_from-Within (if less_by key b j then j else b) js)
    where
      picked :
          Within (max_from (less_by key) b (j ∷ js)) ((if less_by key b j then j else b) ∷ js)
          → Within (max_from (less_by key) b (j ∷ js)) (b ∷ j ∷ js)
      picked (suc i, e) = (suc (suc i), e)
      picked (zero, e) = elim (Bool-cases (less_by key b j)) [
        | inl lt ↦ (1, sym (ap (λ p. some (if p then j else b)) lt) ∙ e)
        | inr ge ↦ (0, sym (ap (λ p. some (if p then j else b)) ge) ∙ e)
      ]

pub get_last_job-Within :
    (js : List JobEntry) (j : JobEntry) → (get_last_job js).0 ≡ some j → Within j js
unfolding get_last_job
get_last_job-Within [] j e = cc
get_last_job-Within (k ∷ js) j e = let (i, at) = max_from-Within (λ l. l.job_id) k js in (i, at ∙ e)

pub get_job_by_id-Within :
    (js : List JobEntry) (id : ℕ) (j : JobEntry) → get_job_by_id js id ≡ some j → Within j js
unfolding get_job_by_id
get_job_by_id-Within [] id j e = cc
get_job_by_id-Within (k ∷ js) id j e = elim (Bool-cases (k.job_id == id)) [
  | inl here ↦ (0, sym (ap (λ b. if b then some k else get_job_by_id js id) here) ∙ e)
  | inr behind ↦
      let (i, at) =
        get_job_by_id-Within js id j
          (sym (ap (λ b. if b then some k else get_job_by_id js id) behind) ∙ e) in
      (suc i, at)
]

-- What `getLastStoppedJob` promises: a stopped job whose number no stopped job exceeds, or 0 and no
-- job where none is stopped.
abbrev pub IsLastStopped : List JobEntry → Option JobEntry × ℕ → Type 0
IsLastStopped js (none, n) = (n ≡ 0) × All (λ k. k.is_stopped ≡ false) js
IsLastStopped js (some j, n) =
    (n ≡ j.job_id)
    × Within j js
    × (j.is_stopped ≡ true)
    × All (λ k. k.is_stopped ≡ true → k.job_id ≤ j.job_id) js

All-map {κ μ} :
    (P : JobEntry → Type κ) (Q : JobEntry → Type μ) (js : List JobEntry)
    → ((j : JobEntry) → P j → Q j)
    → All P js
    → All Q js
All-map P Q [] f a = tt
All-map P Q (j ∷ js) f (h, a) = (f j h, All-map P Q js f a)

All-and {κ μ} :
    (P : JobEntry → Type κ) (Q : JobEntry → Type μ) (js : List JobEntry)
    → All P js
    → All Q js
    → All (λ j. P j × Q j) js
All-and P Q [] a b = tt
All-and P Q (j ∷ js) (h, a) (h', b) = ((h, h'), All-and P Q js a b)

shown : (j : JobEntry) → j.is_stopped ≡ true → if_stopped (some j) ≡ some j
shown j e = ap (λ b. if b then some j else none) e

hidden : (j : JobEntry) → j.is_stopped ≡ false → if_stopped (some j) ≡ none
hidden j e = ap (λ b. if b then some j else none) e

weight_of_stopped : (j : JobEntry) → j.is_stopped ≡ true → stopped_weight j ≡ j.job_id
weight_of_stopped j e = rw e (omega arith)

weight_of_other : (j : JobEntry) → j.is_stopped ≡ false → stopped_weight j ≡ 0
weight_of_other j e = rw e (omega arith)

-- `getLastStoppedJob` finds the stopped job of the greatest number where job numbers are positive.
pub get_last_stopped_job-IsLastStopped :
    (js : List JobEntry) → All (λ j. 0 < j.job_id) js → IsLastStopped js (get_last_stopped_job js)
unfolding get_last_stopped_job
get_last_stopped_job-IsLastStopped [] p = (refl, tt)
get_last_stopped_job-IsLastStopped (j ∷ js) p =
    found (max_from stopped_less_than j js) (max_from-Within stopped_weight j js)
      (max_from-ge stopped_weight j js)
  where
    found :
        (m : JobEntry)
        → Within m (j ∷ js)
        → All (λ k. stopped_weight k ≤ stopped_weight m) (j ∷ js)
        → IsLastStopped (j ∷ js) (if_stopped (some m), id_or_zero (if_stopped (some m)))
    found m within bound = elim (Bool-cases m.is_stopped) [
      | inl s ↦ rw (shown m s) (
        refl,
        within,
        s,
        All-map _ _ (j ∷ js)
            (λ k le t. omega (arith, le, weight_of_stopped k t, weight_of_stopped m s)) bound,
      )
      | inr s ↦ rw (hidden m s) (
        refl,
        All-map _ _ (j ∷ js)
            (λ k (le, pos_k). elim (Bool-cases k.is_stopped) [
              | inl t ↦
                  absurd (omega (arith, le, pos_k, weight_of_stopped k t, weight_of_other m s))
              | inr t ↦ t
            ])
            (All-and _ _ (j ∷ js) bound p),
      )
    ]
