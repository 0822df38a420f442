-- ===== src/Shell/Control/Signals.antt =====
-- The signals that the kill command of hw1/Commands.cpp sends.
use operations_systems.Base.{
  ℕ, ◌≤◌, ◌≡◌, refl, inl, inr, Bool, true, false, Bool-cases, not, ◌||◌, Option, none, some, List,
  [], ◌∷◌, map, arith, length, ltb, ◌==◌, All,
}
use operations_systems.Shell.Text.{Text, atoi}
use operations_systems.Shell.Jobs.{JobEntry}
use operations_systems.Shell.Control.{
  SmallShell, Event, error, sent, job_line, sigcont, sigstop, abs, arg, get_job, set_stopped,
  marked_by, kill_found, is_invalid_kill, kill_command,
}

-- A signal from 1 to 31 that the kernel takes, to the job that the last argument names.
abbrev pub IsAllowed : (ℕ → ℕ → Bool) → List Text → SmallShell → Event → Type 0
IsAllowed kill args s (error m) = Unit {0}
IsAllowed kill args s (job_line t p) = Unit {0}
IsAllowed kill args s (sent p n) =
    (1 ≤ n)
    × (n ≤ 31)
    × (kill p n ≡ true)
    × ((j : JobEntry) × (get_job s.job_list (atoi (arg args 2)) ≡ some j) × (j.pid ≡ p))

abbrev pub ids : List JobEntry → List ℕ
ids js = map (λ j. j.job_id) js

ids-set_stopped : (js : List JobEntry) (id : ℕ) (b : Bool) → ids (set_stopped js id b) ≡ ids js
ids-set_stopped [] id b = refl
ids-set_stopped (j ∷ js) id b = elim (Bool-cases (j.job_id == id)) [
  | inl e ↦ rw e refl
  | inr e ↦ rw (e, ids-set_stopped js id b) refl
]

ids-marked_by : (n : ℕ) (s : SmallShell) (id : ℕ) → ids (marked_by n s id).job_list ≡ ids s.job_list
ids-marked_by n s id = elim (Bool-cases (n == sigcont)) [
  | inl e ↦ rw e (ids-set_stopped s.job_list id false)
  | inr e ↦ rw e (elim (Bool-cases (n == sigstop)) [
    | inl e' ↦ rw e' (ids-set_stopped s.job_list id true)
    | inr e' ↦ rw e' refl
  ])
]

valid_signal :
    (a b : ℕ) (c d : Bool) → (a == 0 || ltb b 1 || ltb 31 b || c || d) ≡ false → (1 ≤ b) × (b ≤ 31)
valid_signal a b c d e = ground arith

-- What a run of kill leaves and sends.
abbrev pub Restrained : (ℕ → ℕ → Bool) → List Text → SmallShell → SmallShell × List Event → Type 0
Restrained kill args s r = All (IsAllowed kill args s) r.1 × (ids r.0.job_list ≡ ids s.job_list)

kill_found-Restrained :
    (kill : ℕ → ℕ → Bool) (args : List Text) (s : SmallShell)
    → is_invalid_kill args ≡ false
    → (o : Option JobEntry) → get_job s.job_list (atoi (arg args 2)) ≡ o
    → Restrained kill args s (kill_found kill (abs (atoi (arg args 1))) (atoi (arg args 2)) s o)
kill_found-Restrained kill args s v none e = ((tt, tt), refl)
kill_found-Restrained kill args s v (some j) e =
    elim (Bool-cases (kill j.pid (abs (atoi (arg args 1))))) [
      | inl k ↦
          let (low, high) = valid_signal _ _ _ _ v in
          rw k
            (((low, high, k, (j, e, refl)), tt), ids-marked_by (abs (atoi (arg args 1))) s j.job_id)
      | inr k ↦ rw k ((tt, tt), refl)
    ]

-- kill sends at most signals from 1 to 31, each to the process of the job whose number the last
-- argument gives, and leaves the numbers in the list as they were.
pub kill_command-Restrained :
    (kill : ℕ → ℕ → Bool) (args : List Text) (s : SmallShell)
    → Restrained kill args s (kill_command kill args s)
unfolding kill_command
kill_command-Restrained kill args s = elim (Bool-cases (not (length args == 3))) [
  | inl e ↦ rw (kill_command, e) ((tt, tt), refl)
  | inr e ↦
      rw (kill_command, e)
        (elim (Bool-cases (is_invalid_kill args)) [
          | inl v ↦ rw v ((tt, tt), refl)
          | inr v ↦ rw v (kill_found-Restrained kill args s v _ refl)
        ])
]
