-- ===== src/WebServer/Server/Ownership.antt =====
-- Where the descriptors that `Accept` gives out go, in hw3/webserver-files/server.c.
use operations_systems.Base.{
  ℕ, ◌+◌, ◌<◌, ◌≡◌, refl, ap, Bool, true, false, List, [], ◌∷◌, arith, length,
}
use operations_systems.Base.Sums.{sum_of, sum_of-append}
use operations_systems.Base.Int.{ℤ}
use operations_systems.WebServer.NodeHeap.{Item}
use operations_systems.WebServer.Server.{
  OverloadType, leaves, fds, admit, Worker, ready, asleep, handling, closing, Acceptor, accepting,
  holding, blocked, Server, wake, wake_acceptor, Signal, one, nobody, settled, Discards, Step,
  accept, sleep_full, leave_quietly, leave_signal, sleep_empty, take, close_fd, finish,
  spurious_worker, spurious_acceptor, Reach, start, next,
}
use operations_systems.WebServer.Server.Family.{
  update, total, total-update, total-congr, total_zero,
}
use operations_systems.WebServer.Server.Invariant.{Inv, discards_sum}
use operations_systems.WebServer.Server.Steps.{Reach-Inv}
use operations_systems.WebServer.Server.Admission.{admit_kept}

module _ (weight : ℤ → ℕ) where
  abbrev pub in_worker : Worker → ℕ
  in_worker ready = 0
  in_worker asleep = 0
  in_worker (handling fd) = weight fd
  in_worker closing = 0

  abbrev pub in_acceptor : Acceptor → ℕ
  in_acceptor accepting = 0
  in_acceptor (holding i) = weight i.fd
  in_acceptor (blocked i) = weight i.fd

  -- The weight of the connections that are open: with the acceptor, waiting, or with a worker.
  abbrev pub open_weight : ℕ → Server → ℕ
  open_weight n s =
      in_acceptor s.acceptor + sum_of weight (fds s.waiting) + total in_worker n s.workers

  abbrev pub Conserved : ℕ → Server → Type 0
  Conserved n s = sum_of weight s.accepted ≡ open_weight n s + sum_of weight s.closed

  wake_same : (n : ℕ) (f : ℕ → Worker) → total in_worker n (λ k. wake (f k)) ≡ total in_worker n f
  wake_same n f = total-congr in_worker n _ f λ k. same (f k)
    where
      same : (w : Worker) → in_worker (wake w) ≡ in_worker w
      same ready = refl
      same asleep = refl
      same (handling fd) = refl
      same closing = refl

  wake_acceptor_same : (a : Acceptor) → in_acceptor (wake_acceptor a) ≡ in_acceptor a
  wake_acceptor_same accepting = refl
  wake_acceptor_same (holding i) = refl
  wake_acceptor_same (blocked i) = refl

  Signal-same :
      (n : ℕ) (f g : ℕ → Worker) → Signal n f g → total in_worker n g ≡ total in_worker n f
  Signal-same n f g (one j h e) =
      omega (arith, total-update in_worker n j f ready h, ap in_worker e)
  Signal-same n f g (nobody none) = refl

  -- The acceptor hands a connection over or closes one.
  settled-Conserved :
      (n queue_size : ℕ) (policy : OverloadType) (s : Server) (i : Item)
      (gone rest waiting : List Item) (closed : List ℤ) (b : Bool) (workers : ℕ → Worker)
      → Inv n queue_size s
      → s.acceptor ≡ holding i
      → Discards s.waiting gone rest
      → admit policy queue_size s.waiting (length s.running) i gone rest ≡ leaves waiting closed b
      → total in_worker n workers ≡ total in_worker n s.workers
      → Conserved n s
      → Conserved n (settled s waiting closed workers)
  settled-Conserved n queue_size policy s i gone rest waiting closed b workers inv e d out same c =
      omega (
        arith,
        admit_kept queue_size (length s.running) i weight policy s.waiting gone rest waiting closed
            b inv.valid (discards_sum d weight) out,
        ap in_acceptor e,
        sum_of-append weight s.closed closed,
        same,
        c,
      )

  -- Every step keeps the balance.
  Step-Conserved :
      {n queue_size : ℕ} {policy : OverloadType} {s t : Server}
      → Step n queue_size policy s t
      → Inv n queue_size s
      → Conserved n s
      → Conserved n t
  Step-Conserved {n} {s} (accept f i e fd) inv c =
      omega (arith, c, ap in_acceptor e, sum_of-append weight s.accepted (i.fd ∷ []))
  Step-Conserved {n} {s} (sleep_full i gone rest e d out) inv c = omega (arith, c, ap in_acceptor e)
  Step-Conserved {n} {queue_size} {policy} {s} (leave_quietly i gone rest w k e d out) inv c =
      settled-Conserved n queue_size policy s i gone rest w k false s.workers inv e d out refl c
  Step-Conserved {n} {queue_size} {policy} {s} (leave_signal i gone rest w k ws e d out sig) inv c =
      settled-Conserved n queue_size policy s i gone rest w k true ws inv e d out
        (Signal-same n s.workers ws sig) c
  Step-Conserved {n} {s} (sleep_empty j h e w) inv c =
      omega (arith, c, total-update in_worker n j s.workers asleep h, ap in_worker e)
  Step-Conserved {n} {s} (take j i rest h e w) inv c = omega (
    arith,
    c,
    wake_same n (update s.workers j (handling i.fd)),
    total-update in_worker n j s.workers (handling i.fd) h,
    ap in_worker e,
    wake_acceptor_same s.acceptor,
    ap (λ xs. sum_of weight (fds xs)) w,
  )
  Step-Conserved {n} {s} (close_fd j fd h e) inv c = omega (
    arith,
    c,
    total-update in_worker n j s.workers closing h,
    ap in_worker e,
    sum_of-append weight s.closed (fd ∷ []),
  )
  Step-Conserved {n} {s} (finish j h e) inv c = omega (
    arith,
    c,
    wake_same n (update s.workers j ready),
    total-update in_worker n j s.workers ready h,
    ap in_worker e,
    wake_acceptor_same s.acceptor,
  )
  Step-Conserved {n} {s} (spurious_worker j h e) inv c =
      omega (arith, c, total-update in_worker n j s.workers ready h, ap in_worker e)
  Step-Conserved {n} {s} (spurious_acceptor i e) inv c = omega (arith, c, ap in_acceptor e)

  -- For every weight of descriptors, such as the occurrences of one number: what `Accept` gave out
  -- in a reachable state is what is open and what has been closed.
  pub descriptors-Conserved :
      {n queue_size : ℕ} {policy : OverloadType} {s : Server}
      → 0 < n
      → Reach n queue_size policy s
      → Conserved n s
  descriptors-Conserved {n} pos_n start =
      omega (arith, total_zero in_worker n (λ _. ready) (λ k. refl))
  descriptors-Conserved pos_n (next r st) =
      Step-Conserved st (Reach-Inv pos_n r) (descriptors-Conserved pos_n r)
