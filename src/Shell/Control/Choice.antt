-- ===== src/Shell/Control/Choice.antt =====
-- Which job fg of hw1/Commands.cpp takes up.
use operations_systems.Base.{
  ℕ, ◌≤◌, ◌≡◌, refl, sym, ap, ◌∙◌, ◌⊎◌, inl, inr, Bool, true, false, Bool-cases, Option, none, some,
  List, [], ◌∷◌, ◌++◌, arith, length, ◌==◌, All,
}
use operations_systems.Base.Int.{ℤ, pos, negsuc}
use operations_systems.Shell.Text.{Text, is_digits, atoi}
use operations_systems.Shell.Jobs.{JobEntry, get_last_job}
use operations_systems.Shell.Jobs.Numbers.{Distinct}
use operations_systems.Shell.Jobs.Lookup.{
  All-at, Distinct-unique, remove_job_by_id-split, get_job_by_id-found, get_job_by_id-missing,
  get_last_job-All, get_last_job-missing,
}
use operations_systems.Shell.Jobs.Last.{Within, get_last_job-Within, get_job_by_id-Within}
use operations_systems.Shell.Control.{
  SmallShell, Message, error, invalid_arguments, no_such_job, list_is_empty, sigcont, arg, get_job,
  to_foreground, foreground_found, foreground_or, foreground_command,
}

-- The job that fg's arguments mean: the one of the greatest number where there is none, the one whose
-- number it is where there is one, of digits and signs.
abbrev pub IsMeant : List Text → List JobEntry → JobEntry → Type 0
IsMeant args js j =
    Within j js
    × (((length args ≡ 1) × All (λ k. k.job_id ≤ j.job_id) js)
        ⊎ ((length args ≡ 2)
            × (is_digits (arg args 1) ≡ true)
            × (atoi (arg args 1) ≡ pos j.job_id)))

-- The job has left the list, the others are as they were, and its process runs in the foreground
-- under its number.
abbrev pub Takes : SmallShell → JobEntry → SmallShell → Type 0
Takes s j s' =
    ((before : List JobEntry) × (after : List JobEntry) × (s.job_list ≡ before ++ j ∷ after)
      × (s'.job_list ≡ before ++ after))
    × (s'.foreground_cmd ≡ some (record { child_pid = j.pid; cmd_line_const = j.cmd_line }))
    × (s'.foreground_jobid ≡ some j.job_id)

-- The job that is meant is taken, unless there is none, or it is stopped and SIGCONT does not reach
-- it: then the shell is as it was.
abbrev pub IsTaken : (ℕ → ℕ → Bool) → List Text → SmallShell → SmallShell → Type 0
IsTaken kill args s s' =
    ((j : JobEntry) × IsMeant args s.job_list j
      × (j.is_stopped ≡ true → kill j.pid sigcont ≡ true)
      × Takes s j s')
    ⊎ ((s' ≡ s)
        × ((j : JobEntry)
            → IsMeant args s.job_list j
            → (j.is_stopped ≡ true) × (kill j.pid sigcont ≡ false)))

IsMeant-unique :
    (args : List Text) (js : List JobEntry) (j j' : JobEntry)
    → Distinct js
    → IsMeant args js j
    → IsMeant args js j'
    → j ≡ j'
IsMeant-unique args js j j' d ((i, e), m) ((i', e'), m') =
    Distinct-unique js i i' j j' d e e' (same m m')
  where
    same :
        ((length args ≡ 1) × All (λ k. k.job_id ≤ j.job_id) js)
          ⊎ ((length args ≡ 2)
              × (is_digits (arg args 1) ≡ true)
              × (atoi (arg args 1) ≡ pos j.job_id))
        → ((length args ≡ 1) × All (λ k. k.job_id ≤ j'.job_id) js)
          ⊎ ((length args ≡ 2)
              × (is_digits (arg args 1) ≡ true)
              × (atoi (arg args 1) ≡ pos j'.job_id))
        → j.job_id ≡ j'.job_id
    same (inl (one, a)) (inl (_, a')) = omega (
      arith,
      All-at (λ k. k.job_id ≤ j'.job_id) js i j a' e,
      All-at (λ k. k.job_id ≤ j.job_id) js i' j' a e',
    )
    same (inl (one, a)) (inr (two, _, h)) = absurd (omega arith)
    same (inr (two, _, h)) (inl (one, a)) = absurd (omega arith)
    same (inr (_, _, z)) (inr (_, _, z')) = cc

get_job-IsMeant :
    (args : List Text) (js : List JobEntry) (j : JobEntry)
    → length args ≡ 2
    → is_digits (arg args 1) ≡ true
    → (z : ℤ) → atoi (arg args 1) ≡ z
    → get_job js z ≡ some j
    → IsMeant args js j
get_job-IsMeant args js j two d (pos n) z e =
    (get_job_by_id-Within js n j e, inr (two, d, z ∙ ap pos (sym (get_job_by_id-found js n j e))))
get_job-IsMeant args js j two d (negsuc n) z e = cc

get_job-missing :
    (args : List Text) (js : List JobEntry)
    → length args ≡ 2
    → (z : ℤ) → atoi (arg args 1) ≡ z
    → get_job js z ≡ none
    → (j : JobEntry) → ¬ IsMeant args js j
get_job-missing args js two z at e j (w, inl (one, a)) = omega arith
get_job-missing args js two (pos n) at e j ((i, w), inr (_, d, z)) =
    get_job_by_id-missing js n i j e w (same (sym z ∙ at))
  where
    same : pos j.job_id ≡ pos n → j.job_id ≡ n
    same q = cc
get_job-missing args js two (negsuc n) at e j (w, inr (_, d, z)) = different (sym z ∙ at)
  where
    different : ¬ (pos j.job_id ≡ negsuc n)
    different q = cc

-- `fg` from the choice of the job on.
module _ (kill : ℕ → ℕ → Bool) (args : List Text) (s : SmallShell) (d : Distinct s.job_list) where
  to_foreground-Takes : (j : JobEntry) → Within j s.job_list → Takes s j (to_foreground s j)
  to_foreground-Takes j (i, e) = (remove_job_by_id-split s.job_list i j d e, refl, refl)

  foreground_found-IsTaken :
      (j : JobEntry) → IsMeant args s.job_list j → IsTaken kill args s (foreground_found kill s j).0
  foreground_found-IsTaken j h = elim (Bool-cases j.is_stopped) [
    | inl stopped ↦ rw stopped (elim (Bool-cases (kill j.pid sigcont)) [
      | inl e ↦ rw e (inl (j, h, (λ _. e), to_foreground-Takes j h.0))
      | inr e ↦
          rw e (inr (refl, λ j' h'. only j' (IsMeant-unique args s.job_list j j' d h h') stopped e))
    ])
    | inr runs ↦
        rw runs (inl (j, h, (λ e. absurd (differ (sym e ∙ runs))), to_foreground-Takes j h.0))
  ]
    where
      differ : ¬ (true ≡ false)
      differ e = cc

      only :
          (j' : JobEntry)
          → j ≡ j'
          → j.is_stopped ≡ true
          → kill j.pid sigcont ≡ false
          → (j'.is_stopped ≡ true) × (kill j'.pid sigcont ≡ false)
      only j' q a b = (ap (λ l. l.is_stopped) (sym q) ∙ a, ap (λ l. kill l.pid sigcont) (sym q) ∙ b)

  nothing : ((j : JobEntry) → ¬ IsMeant args s.job_list j) → IsTaken kill args s s
  nothing n = inr (refl, λ j h. absurd (n j h))

  foreground_or-IsTaken :
      (m : Message) (o : Option JobEntry)
      → ((j : JobEntry) → o ≡ some j → IsMeant args s.job_list j)
      → (o ≡ none → (j : JobEntry) → ¬ IsMeant args s.job_list j)
      → IsTaken kill args s (foreground_or kill s m o).0
  foreground_or-IsTaken m none found missing = nothing (missing refl)
  foreground_or-IsTaken m (some j) found missing = foreground_found-IsTaken j (found j refl)

-- `fg` by the number of its arguments.
module _ (kill : ℕ → ℕ → Bool) (args : List Text) (s : SmallShell) where
  without_argument :
      (length args == 1) ≡ true
      → foreground_command kill args s
        ≡ foreground_or kill s list_is_empty (get_last_job s.job_list).0
  unfolding foreground_command
  without_argument one = rw (foreground_command, one) refl

  module _ (not_one : (length args == 1) ≡ false) where
    with_number :
        (length args == 2) ≡ true
        → is_digits (arg args 1) ≡ true
        → foreground_command kill args s
          ≡ foreground_or kill s
              (no_such_job (atoi (arg args 1)))
              (get_job s.job_list (atoi (arg args 1)))
    unfolding foreground_command
    with_number two digits = rw (foreground_command, not_one, two, digits) refl

    with_other :
        (length args == 2) ≡ true
        → is_digits (arg args 1) ≡ false
        → foreground_command kill args s ≡ (s, error invalid_arguments ∷ [])
    unfolding foreground_command
    with_other two other = rw (foreground_command, not_one, two, other) refl

    with_many :
        (length args == 2) ≡ false
        → foreground_command kill args s ≡ (s, error invalid_arguments ∷ [])
    unfolding foreground_command
    with_many many = rw (foreground_command, not_one, many) refl

-- fg, where job numbers are distinct: without an argument it means the job of the greatest number,
-- with one of digits the job of that number. The job that is meant leaves the list, the others stay
-- in their order, and its process runs in the foreground under the job's number, where it was not
-- stopped or SIGCONT reaches it. Otherwise, also where no job is meant, the shell is as it was.
pub foreground_command-IsTaken :
    (kill : ℕ → ℕ → Bool) (args : List Text) (s : SmallShell)
    → Distinct s.job_list
    → IsTaken kill args s (foreground_command kill args s).0
foreground_command-IsTaken kill args s d = elim (Bool-cases (length args == 1)) [
  | inl one ↦ rw (without_argument kill args s one) (
      foreground_or-IsTaken kill args s d list_is_empty (get_last_job s.job_list).0
        (λ j e.
          (get_last_job-Within s.job_list j e, inl (ground arith, get_last_job-All s.job_list j e)))
        (no_last one))
  | inr not_one ↦ elim (Bool-cases (length args == 2)) [
    | inr many ↦
        rw (with_many kill args s not_one many) (nothing kill args s d (no_count not_one many))
    | inl two ↦ elim (Bool-cases (is_digits (arg args 1))) [
      | inr other ↦
          rw (with_other kill args s not_one two other)
            (nothing kill args s d (no_digits not_one other))
      | inl digits ↦ rw (with_number kill args s not_one two digits) (
          foreground_or-IsTaken kill args s d (no_such_job (atoi (arg args 1)))
            (get_job s.job_list (atoi (arg args 1)))
            (λ j e. get_job-IsMeant args s.job_list j (ground arith) digits _ refl e)
            (λ e. get_job-missing args s.job_list (ground arith) _ refl e))
    ]
  ]
]
  where
    no_last :
        (length args == 1) ≡ true
        → (get_last_job s.job_list).0 ≡ none
        → (j : JobEntry) → ¬ IsMeant args s.job_list j
    no_last one e j ((i, w), m) = get_last_job-missing s.job_list i j e w

    no_digits :
        (length args == 1) ≡ false
        → is_digits (arg args 1) ≡ false
        → (j : JobEntry) → ¬ IsMeant args s.job_list j
    no_digits not_one other j (w, inl (one, a)) = ground arith
    no_digits not_one other j (w, inr (two, digits, z)) = cc

    no_count :
        (length args == 1) ≡ false
        → (length args == 2) ≡ false
        → (j : JobEntry) → ¬ IsMeant args s.job_list j
    no_count not_one many j (w, inl (one, a)) = ground arith
    no_count not_one many j (w, inr (two, digits, z)) = ground arith
