-- ===== src/WebServer/Queue/Destroy.antt =====
-- `queueDestroy` and `queuePrint` of hw3/webserver-files/queue.c. The loops get fuel for one round
-- more than there are nodes.
use operations_systems.Base.{
  ℕ, zero, suc, ◌+◌, ◌≤◌, ◌<◌, ◌≡◌, refl, sym, ◌≢◌, true, false, Option, none, some, List, [], ◌∷◌,
  ◌++◌, arith, length,
}
use operations_systems.Base.Int.{ℤ, pos, eqb_ℤ}
use operations_systems.WebServer.NodeHeap.{
  Ptr, node, At, Memory, ok, fault, set_cell, set_cell-ne, not_null, load-ok, load-null, free-ok,
  close,
}
use operations_systems.WebServer.Queue.{Queue, destroy_loop, queue_destroy, print_loop, queue_print}
use operations_systems.WebServer.Queue.Chain.{Cells, first, owns, Chain, IsQueue, frame, ne_of_owns}
use operations_systems.WebServer.Queue.Discard.{fds}

destroy_loop-fault :
    (k : ℕ) (m : Memory) (xs : Cells)
    → Chain m xs
    → xs ≢ []
    → length xs ≤ k
    → destroy_loop k (first xs) m ≡ fault
unfolding destroy_loop close
destroy_loop-fault zero m [] c ne h = absurd (ne refl)
destroy_loop-fault zero m (x ∷ xs) c ne h = absurd (omega arith)
destroy_loop-fault (suc k) m [] c ne h = absurd (ne refl)
destroy_loop-fault (suc k) m ((a, i) ∷ []) (at, out, c) ne h =
    rw (not_null at, load-ok at, load-null m) refl
destroy_loop-fault (suc k) m ((a, i) ∷ (b, j) ∷ xs) (at, out, c) ne h =
    rw (not_null at, load-ok at, load-ok c.0, free-ok freeable)
      (destroy_loop-fault k freed ((b, j) ∷ xs) (frame m freed ((b, j) ∷ xs) c kept) (λ e. cc)
        (omega arith))
  where
    closing : Memory
    closing = record m { closed = m.closed ++ j.fd ∷ [] }

    freeable : At closing a (node i b)
    freeable = record { ne_null = at.ne_null; holds = at.holds }

    freed : Memory
    freed = record closing { cells = set_cell m.cells a none }

    kept : (x : Ptr) → owns ((b, j) ∷ xs) x ≡ true → freed.cells x ≡ m.cells x
    kept x own = set_cell-ne m.cells a none x λ e. ne_of_owns ((b, j) ∷ xs) a x out own (sym e)

-- A queue with a node cannot be destroyed: the loop reads the descriptor behind the last node.
pub queue_destroy-fault :
    (m : Memory) (q : Queue) (xs : Cells)
    → IsQueue m q xs
    → xs ≢ []
    → queue_destroy (length xs + 1) q m ≡ fault
unfolding queue_destroy
queue_destroy-fault m q xs is ne =
    rw is.head_first (destroy_loop-fault (length xs + 1) m xs is.chain ne (omega arith))

print_loop-fds :
    (k : ℕ) (m : Memory) (xs : Cells)
    → Chain m xs
    → length xs < k
    → print_loop k (first xs) m ≡ ok (fds xs) m
unfolding print_loop
print_loop-fds zero m xs c h = absurd (omega arith)
print_loop-fds (suc k) m [] c h = refl
print_loop-fds (suc k) m ((a, i) ∷ xs) (at, out, c) h =
    rw (not_null at, load-ok at, print_loop-fds k m xs c (omega arith)) refl

-- What is printed: `none` is the line for an empty queue.
abbrev pub printed : Cells → Option (List ℤ)
printed [] = none
printed (x ∷ xs) = some (fds (x ∷ xs))

-- `queuePrint` prints the descriptors in queue order, or that there are none, and changes nothing.
pub queue_print-fds :
    (m : Memory) (q : Queue) (xs : Cells)
    → IsQueue m q xs
    → queue_print (length xs + 1) q m ≡ ok (printed xs) m
unfolding queue_print
queue_print-fds m q [] is = rw is.size_length refl
queue_print-fds m q (x ∷ xs) is =
    rw
      (
        not_zero q.size is.size_length,
        is.head_first,
        print_loop-fds (length (x ∷ xs) + 1) m (x ∷ xs) is.chain (omega arith),
      )
      refl
  where
    not_zero : (z : ℤ) → z ≡ pos (suc (length xs)) → eqb_ℤ z (pos 0) ≡ false
    not_zero z e = rw e (ground arith)
