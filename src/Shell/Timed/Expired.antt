-- ===== src/Shell/Timed/Expired.antt =====
-- Which timed commands hw1/Commands.cpp kills.
use operations_systems.Base.{
  ℕ, ◌-◌, ◌≤◌, ◌<◌, ◌≡◌, refl, ap, ◌∙◌, ◌⊎◌, inl, inr, Bool, true, false, Bool-cases, Option, none,
  some, List, [], ◌∷◌, arith, All,
}
use operations_systems.Shell.Jobs.{Wait, running, exited, signaled, stopped, continued, wait_failed}
use operations_systems.Shell.Timed.{
  TimedCmd, Pass, pass, is_expired, kill_if_expired, handle_wait, handle_timed, kill_timed_commands,
}

module _ (kill : ℕ → Bool) (waitpid : ℕ → Wait) (now : ℕ) where
  -- The command has no process, or its process has ended.
  abbrev pub IsOver : TimedCmd → Type 0
  IsOver c =
      (c.pid ≡ none)
      ⊎ ((p : ℕ) × (c.pid ≡ some p) × ((waitpid p ≡ exited) ⊎ (waitpid p ≡ signaled)))

  -- Its process `p` runs, and as many seconds as it was given have passed since its start.
  abbrev pub IsDue : TimedCmd → ℕ → Type 0
  IsDue c p = (c.pid ≡ some p) × (waitpid p ≡ running) × (c.time_to_alarm ≤ now - c.start_time)

  -- Its process waits, or it runs and fewer seconds have passed.
  abbrev pub HasTime : TimedCmd → Type 0
  HasTime c =
      (p : ℕ) × (c.pid ≡ some p)
      × ((waitpid p ≡ stopped)
          ⊎ (waitpid p ≡ continued)
          ⊎ ((waitpid p ≡ running) × (now - c.start_time < c.time_to_alarm)))

  -- A call fails: `waitpid` on its process, or the `kill` of a process that is due.
  abbrev pub Fails : TimedCmd → Type 0
  Fails c =
      (p : ℕ) × (((c.pid ≡ some p) × (waitpid p ≡ wait_failed)) ⊎ (IsDue c p × (kill p ≡ false)))

  -- The commands are taken in order: those over are dropped, the due ones are killed and dropped, those
  -- that have time stay; the first failing call ends the pass, and all from there on stays.
  pub data Settles : List TimedCmd → Pass → Type 0 where
    done : Settles [] (pass [] [] false)
    drops :
        {c : TimedCmd} {cs left : List TimedCmd} {killed : List ℕ} {failed : Bool}
        → IsOver c
        → Settles cs (pass left killed failed)
        → Settles (c ∷ cs) (pass left killed failed)
    kills :
        {c : TimedCmd} {cs left : List TimedCmd} {killed : List ℕ} {failed : Bool} {p : ℕ}
        → IsDue c p
        → kill p ≡ true
        → Settles cs (pass left killed failed)
        → Settles (c ∷ cs) (pass left (p ∷ killed) failed)
    keeps :
        {c : TimedCmd} {cs left : List TimedCmd} {killed : List ℕ} {failed : Bool}
        → HasTime c
        → Settles cs (pass left killed failed)
        → Settles (c ∷ cs) (pass (c ∷ left) killed failed)
    stops : {c : TimedCmd} {cs : List TimedCmd} → Fails c → Settles (c ∷ cs) (pass (c ∷ cs) [] true)

  due : (c : TimedCmd) → is_expired now c ≡ true → c.time_to_alarm ≤ now - c.start_time
  due c e = ground arith

  early : (c : TimedCmd) → is_expired now c ≡ false → now - c.start_time < c.time_to_alarm
  early c e = ground arith

  kill_if_expired-Settles :
      (p : ℕ) (c : TimedCmd) (cs : List TimedCmd) (rest : Pass)
      → c.pid ≡ some p
      → waitpid p ≡ running
      → Settles cs rest
      → Settles (c ∷ cs) (kill_if_expired kill now p c cs rest)
  kill_if_expired-Settles p c cs (pass left killed failed) at w h =
      elim (Bool-cases (is_expired now c)) [
        | inr e ↦ rw e (keeps (p, at, inr (inr (w, early c e))) h)
        | inl e ↦ rw e (elim (Bool-cases (kill p)) [
          | inl k ↦ rw k (kills (at, w, due c e) k h)
          | inr k ↦ rw k (stops (p, inr ((at, w, due c e), k)))
        ])
      ]

  handle_wait-Settles :
      (p : ℕ) (w : Wait) (c : TimedCmd) (cs : List TimedCmd) (rest : Pass)
      → c.pid ≡ some p
      → waitpid p ≡ w
      → Settles cs rest
      → Settles (c ∷ cs) (handle_wait kill now p w c cs rest)
  handle_wait-Settles p exited c cs (pass l k f) at e h = drops (inr (p, at, inl e)) h
  handle_wait-Settles p signaled c cs (pass l k f) at e h = drops (inr (p, at, inr e)) h
  handle_wait-Settles p stopped c cs (pass l k f) at e h = keeps (p, at, inl e) h
  handle_wait-Settles p continued c cs (pass l k f) at e h = keeps (p, at, inr (inl e)) h
  handle_wait-Settles p wait_failed c cs rest at e h = stops (p, inl (at, e))
  handle_wait-Settles p running c cs rest at e h = kill_if_expired-Settles p c cs rest at e h

  handle_timed-Settles :
      (o : Option ℕ) (c : TimedCmd) (cs : List TimedCmd) (rest : Pass)
      → c.pid ≡ o
      → Settles cs rest
      → Settles (c ∷ cs) (handle_timed kill waitpid now o c cs rest)
  handle_timed-Settles none c cs (pass l k f) at h = drops (inl at) h
  handle_timed-Settles (some p) c cs rest at h =
      handle_wait-Settles p (waitpid p) c cs rest at refl h

  abbrev pub NoneDue : List TimedCmd → Type 0
  NoneDue cs = All (λ c. (p : ℕ) → ¬ IsDue c p) cs

  -- A pass that met no failing call leaves no command whose process is due.
  abbrev pub IsThorough : Pass → Type 0
  IsThorough (pass left killed failed) = failed ≡ false → NoneDue left

  HasTime-not-IsDue : (c : TimedCmd) → HasTime c → (p : ℕ) → ¬ IsDue c p
  HasTime-not-IsDue c (q, at, h) p (at', r, passed) = meets h
    where
      same : q ≡ p
      same = ground arith

      runs : waitpid q ≡ running
      runs = ap waitpid same ∙ r

      meets :
          (waitpid q ≡ stopped)
            ⊎ (waitpid q ≡ continued)
            ⊎ ((waitpid q ≡ running) × (now - c.start_time < c.time_to_alarm))
          → ⊥
      meets (inl e) = cc
      meets (inr (inl e)) = cc
      meets (inr (inr (e, lt))) = omega arith

  Settles-IsThorough : (cs : List TimedCmd) (r : Pass) → Settles cs r → IsThorough r
  Settles-IsThorough _ _ done = λ e. tt
  Settles-IsThorough _ _ (drops o h) = Settles-IsThorough _ _ h
  Settles-IsThorough _ _ (kills d k h) = Settles-IsThorough _ _ h
  Settles-IsThorough (c ∷ _) _ (keeps t h) =
      λ e. (HasTime-not-IsDue c t, Settles-IsThorough _ _ h e)
  Settles-IsThorough _ _ (stops f) = λ e. cc

module _ (kill : ℕ → Bool) (waitpid : ℕ → Wait) (now : ℕ) where
  passes :
      (cs : List TimedCmd) → Settles kill waitpid now cs (kill_timed_commands kill waitpid now cs)
  unfolding kill_timed_commands
  passes [] = done
  passes (c ∷ cs) =
      handle_timed-Settles kill waitpid now c.pid c cs (kill_timed_commands kill waitpid now cs)
        refl (passes cs)

-- The alarm's pass, whatever `waitpid` and `kill` answer: it drops the commands that have no process
-- or whose process has ended, sends SIGKILL to exactly the processes that run and whose seconds have
-- passed, in order, and keeps the commands that are stopped, were continued or have time left; the
-- first failing call ends it, and all commands from there on stay. Where none fails, no command that
-- is left is due.
pub kill_timed_commands-Settles :
    (kill : ℕ → Bool) (waitpid : ℕ → Wait) (now : ℕ) (cs : List TimedCmd)
    → Settles kill waitpid now cs (kill_timed_commands kill waitpid now cs)
      × IsThorough kill waitpid now (kill_timed_commands kill waitpid now cs)
kill_timed_commands-Settles kill waitpid now cs = (
  passes kill waitpid now cs,
  Settles-IsThorough kill waitpid now cs _ (passes kill waitpid now cs),
)
