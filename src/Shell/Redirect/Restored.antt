-- ===== src/Shell/Redirect/Restored.antt =====
-- A redirection of hw1/Commands.cpp leaves the descriptors as they were.
use operations_systems.Base.{
  ℕ, ◌≡◌, ◌≢◌, refl, sym, ap, ◌∙◌, inl, inr, Bool, true, false, Bool-cases, Option, none, some, [],
  arith, ◌==◌,
}
use operations_systems.Shell.Text.{Text}
use operations_systems.Shell.Redirect.{
  Descriptors, stdout, set_fd, open_flags, opened, prepare, cleanup, redirect,
}

-- `dup` returns a free descriptor, and `open`, which takes the lowest, that of standard output.
abbrev pub IsFree : Descriptors → Option ℕ → Type 0
IsFree fds none = Unit {0}
IsFree fds (some n) = (n ≢ stdout) × (fds n ≡ none)

abbrev pub TakesLowest : Option ℕ → Type 0
TakesLowest none = Unit {0}
TakesLowest (some n) = n ≡ stdout

cleanup-none : (fds : Descriptors) (k : ℕ) → cleanup true none fds k ≡ fds k
unfolding cleanup
cleanup-none fds k = refl

module _ (fds : Descriptors) (new : ℕ) (ne : new ≢ stdout) (free : fds new ≡ none) where
  eq_of : (a b : ℕ) → (a == b) ≡ true → a ≡ b
  eq_of a b e = ground arith

  cleanup_undone :
      (g : Descriptors)
      → g new ≡ fds stdout
      → ((k : ℕ) → k ≢ new → k ≢ stdout → g k ≡ fds k)
      → (k : ℕ) → cleanup true (some new) g k ≡ fds k
  unfolding cleanup
  cleanup_undone g kept others k = elim (Bool-cases (k == new)) [
    | inl e ↦ rw e (sym (ap fds (eq_of k new e) ∙ free))
    | inr e ↦ rw e (elim (Bool-cases (k == stdout)) [
      | inl o ↦ rw o (kept ∙ ap fds (sym (eq_of k stdout o)))
      | inr o ↦ rw o (others k (ground arith) (ground arith))
    ])
  ]

  -- Whatever standard output becomes.
  written_undone :
      (f : Option Text) (k : ℕ)
      → cleanup true (some new) (set_fd (set_fd fds new (fds stdout)) stdout f) k ≡ fds k
  written_undone f =
      cleanup_undone (set_fd (set_fd fds new (fds stdout)) stdout f) (ground arith)
        (λ j nn no. rw (differs j stdout no, differs j new nn) refl)
    where
      differs : (a b : ℕ) → a ≢ b → (a == b) ≡ false
      differs a b ne' = ground arith

  duplicate_undone : (k : ℕ) → cleanup true (some new) (set_fd fds new (fds stdout)) k ≡ fds k
  duplicate_undone =
      cleanup_undone (set_fd fds new (fds stdout)) (ground arith) (λ j nn no. set_fd_other j nn)
    where
      set_fd_other : (j : ℕ) → j ≢ new → set_fd fds new (fds stdout) j ≡ fds j
      set_fd_other j nn = ground arith

  opened_undone :
      (f : Option Text) (out : ℕ) (file : Text)
      → out ≡ stdout
      → (k : ℕ)
      → cleanup true
          (some new)
          (set_fd (set_fd (set_fd fds new (fds stdout)) stdout f) out (some file))
          k
        ≡ fds k
  opened_undone f out file q =
      cleanup_undone (set_fd (set_fd (set_fd fds new (fds stdout)) stdout f) out (some file))
        (ground arith) (λ j nn no. rw (q, differs j stdout no, differs j new nn) refl)
    where
      differs : (a b : ℕ) → a ≢ b → (a == b) ≡ false
      differs a b ne' = ground arith

-- A redirection whose command leaves the descriptors as they are leaves every descriptor of the shell
-- as it was, whichever of its first steps fails, where `dup` returns a free one, `open` the lowest,
-- and the last `close` works.
pub redirect-restored :
    (dups : Option ℕ) (close_works : Bool) (opens : Text × Bool → Option ℕ)
    (execute_command : Text → Descriptors → Descriptors) (fds : Descriptors) (cmd file_path : Text)
    (append : Bool)
    → IsFree fds dups
    → TakesLowest (opens (open_flags append file_path))
    → ((c : Text) (t : Descriptors) → execute_command c t ≡ t)
    → (k : ℕ)
    → redirect dups close_works opens true execute_command fds cmd file_path append k ≡ fds k
unfolding redirect prepare
redirect-restored none close_works opens run fds cmd file append free low same k =
    ap (λ t. cleanup true none t k) (same [] fds) ∙ cleanup-none fds k
redirect-restored (some new) false opens run fds cmd file append (ne, free) low same k =
    ap (λ t. cleanup true (some new) t k) (same [] _) ∙ duplicate_undone fds new ne free k
redirect-restored (some new) true opens run fds cmd file append (ne, free) low same k =
    by_open (opens (open_flags append file)) low
  where
    by_open :
        (o : Option ℕ)
        → TakesLowest o
        → (let p = opened (set_fd (set_fd fds new (fds stdout)) stdout none) new cmd file o in
            cleanup true p.new_file_descriptor (run p.cmd p.fds) k ≡ fds k)
    by_open none l =
        ap (λ t. cleanup true (some new) t k) (same [] _) ∙ written_undone fds new ne free none k
    by_open (some out) l =
        ap (λ t. cleanup true (some new) t k) (same cmd _)
        ∙ opened_undone fds new ne free none out file l k
