-- ===== src/WebServer/Server/Steps.antt =====
-- Every step of hw3/webserver-files/server.c keeps the invariant.
use mathlib.Core.Path.{subst}
use operations_systems.Base.{
  ℕ, ◌+◌, ◌<◌, ◌≡◌, ◌≢◌, refl, ap, ◌-◌, ◌∙◌, true, false, List, [], ◌∷◌, ◌++◌, arith, All, length,
  length-append,
}
use operations_systems.Base.Int.{ℤ}
use operations_systems.WebServer.NodeHeap.{Item}
use operations_systems.WebServer.Server.{
  OverloadType, leaves, admit, Worker, ready, asleep, handling, closing, Acceptor, accepting,
  holding, blocked, Server, wake, wake_acceptor, tail, Signal, one, nobody, settled, Discards, Step,
  accept, sleep_full, leave_quietly, leave_signal, sleep_empty, take, close_fd, finish,
  spurious_worker, spurious_acceptor, started, Reach, start, next,
}
use operations_systems.WebServer.Server.Family.{
  update, total, total-update, total-congr, total_ge, total_zero,
}
use operations_systems.WebServer.Server.Invariant.{
  busy, awake, Stuck, load, Inv, discards_length, discards_valid,
}
use operations_systems.WebServer.Server.Admission.{
  IsFd, admit_room, admit_waits, admit_quiet, admit_valid,
}

busy-wake : (n : ℕ) (f : ℕ → Worker) → total busy n (λ k. wake (f k)) ≡ total busy n f
busy-wake n f = total-congr busy n _ f λ k. same (f k)
  where
    same : (w : Worker) → busy (wake w) ≡ busy w
    same ready = refl
    same asleep = refl
    same (handling fd) = refl
    same closing = refl

-- A thread that is awake after a broadcast.
awake-wake : (n j : ℕ) (f : ℕ → Worker) → j < n → 0 < total awake n (λ k. wake (f k))
awake-wake n j f h = omega (arith, total_ge awake n j (λ k. wake (f k)) h, up (f j))
  where
    up : (w : Worker) → awake (wake w) ≡ 1
    up ready = refl
    up asleep = refl
    up (handling fd) = refl
    up closing = refl

-- Behind a signal somebody is awake, and nobody has become busy or idle.
Signal-busy : (n : ℕ) (f g : ℕ → Worker) → Signal n f g → total busy n g ≡ total busy n f
Signal-busy n f g (one j h e) = ground (arith, total-update busy n j f ready h)
Signal-busy n f g (nobody none) = refl

Signal-awake : (n : ℕ) (f g : ℕ → Worker) → 0 < n → Signal n f g → 0 < total awake n g
Signal-awake n f g pos_n (one j h e) = ground (arith, total_ge awake n j (update f j ready) h)
Signal-awake n f g pos_n (nobody none) =
    ground (arith, total_ge awake n 0 f pos_n, up (f 0) (none 0 pos_n))
  where
    up : (w : Worker) → w ≢ asleep → awake w ≡ 1
    up ready ne = refl
    up asleep ne = absurd (ne refl)
    up (handling fd) ne = refl
    up closing ne = refl

Stuck-wake :
    (a : Acceptor) (queue_size l l' : ℕ)
    → Stuck queue_size l a
    → Stuck queue_size l' (wake_acceptor a)
Stuck-wake accepting queue_size l l' h = tt
Stuck-wake (holding i) queue_size l l' h = h
Stuck-wake (blocked i) queue_size l l' h = h.0

held : (a : Acceptor) (i : Item) (queue_size l : ℕ) → a ≡ holding i → Stuck queue_size l a → IsFd i
held a i queue_size l e h = subst (λ b. Stuck queue_size l b) e h

module _ (n queue_size : ℕ) (policy : OverloadType) (s : Server) (pos_n : 0 < n)
    (inv : Inv n queue_size s) where
  settle_quiet :
      (i : Item) (gone rest waiting : List Item) (closed : List ℤ)
      → s.acceptor ≡ holding i
      → Discards s.waiting gone rest
      → admit policy queue_size s.waiting (length s.running) i gone rest
        ≡ leaves waiting closed false
      → Inv n queue_size (settled s waiting closed s.workers)
  settle_quiet i gone rest waiting closed e d out = record {
    counted = inv.counted;
    room =
        admit_room queue_size (length s.running) i policy s.waiting gone rest waiting closed false
          (omega (arith, discards_length d)) inv.room out;
    lively = λ h. inv.lively (
        omega (
          arith,
          admit_quiet queue_size (length s.running) i policy s.waiting gone rest waiting closed
              (omega (arith, discards_length d)) out,
        ));
    stuck = tt;
    valid =
        admit_valid queue_size (length s.running) i policy s.waiting gone rest waiting closed false
          (held s.acceptor i queue_size (load s) e inv.stuck) inv.valid (discards_valid d inv.valid)
          out;
  }

  settle-Signal :
      (i : Item) (gone rest waiting : List Item) (closed : List ℤ) (workers : ℕ → Worker)
      → s.acceptor ≡ holding i
      → Discards s.waiting gone rest
      → admit policy queue_size s.waiting (length s.running) i gone rest
        ≡ leaves waiting closed true
      → Signal n s.workers workers
      → Inv n queue_size (settled s waiting closed workers)
  settle-Signal i gone rest waiting closed workers e d out sig = record {
    counted = Signal-busy n s.workers workers sig ∙ inv.counted;
    room =
        admit_room queue_size (length s.running) i policy s.waiting gone rest waiting closed true
          (omega (arith, discards_length d)) inv.room out;
    lively = λ _. Signal-awake n s.workers workers pos_n sig;
    stuck = tt;
    valid =
        admit_valid queue_size (length s.running) i policy s.waiting gone rest waiting closed true
          (held s.acceptor i queue_size (load s) e inv.stuck) inv.valid (discards_valid d inv.valid)
          out;
  }

  take-Inv :
      (j : ℕ) (i : Item) (rest : List Item)
      → j < n
      → s.workers j ≡ ready
      → s.waiting ≡ i ∷ rest
      → Inv n queue_size (record s {
        waiting = rest;
        running = s.running ++ i.fd ∷ [];
        acceptor = wake_acceptor s.acceptor;
        workers = λ k. wake (update s.workers j (handling i.fd) k);
      })
  take-Inv j i rest h e w = record {
    counted =
        busy-wake n (update s.workers j (handling i.fd))
        ∙ omega (
          arith,
          total-update busy n j s.workers (handling i.fd) h,
          ap busy e,
          grown,
          inv.counted,
        );
    room = omega (arith, grown, ap length w, inv.room);
    lively = λ _. awake-wake n j (update s.workers j (handling i.fd)) h;
    stuck = Stuck-wake s.acceptor queue_size (load s) _ inv.stuck;
    valid = (subst (All IsFd) w inv.valid).1;
  }
    where
      grown : length (s.running ++ i.fd ∷ []) ≡ length s.running + 1
      grown = length-append s.running (i.fd ∷ [])

  finish-Inv :
      (j : ℕ)
      → j < n
      → s.workers j ≡ closing
      → Inv n queue_size (record s {
        running = tail s.running;
        acceptor = wake_acceptor s.acceptor;
        workers = λ k. wake (update s.workers j ready k);
      })
  finish-Inv j h e = record {
    counted =
        busy-wake n (update s.workers j ready)
        ∙ omega (
          arith,
          total-update busy n j s.workers ready h,
          ap busy e,
          length-tail s.running,
          inv.counted,
        );
    room = omega (arith, length-tail s.running, inv.room);
    lively = λ _. awake-wake n j (update s.workers j ready) h;
    stuck = Stuck-wake s.acceptor queue_size (load s) _ inv.stuck;
    valid = inv.valid;
  }
    where
      length-tail : (xs : List ℤ) → length (tail xs) ≡ length xs - 1
      length-tail [] = refl
      length-tail (x ∷ xs) = omega arith

  -- A worker goes from `w` to `w'`, and the queues stay.
  worker-Inv :
      (j : ℕ) (w w' : Worker) (closed : List ℤ)
      → j < n
      → s.workers j ≡ w
      → busy w ≡ busy w'
      → (0 < length s.waiting → 0 < awake w')
      → Inv n queue_size (record s { closed = closed; workers = update s.workers j w' })
  worker-Inv j w w' closed h e same up = record {
    counted = omega (arith, total-update busy n j s.workers w' h, ap busy e, same, inv.counted);
    room = inv.room;
    lively = λ full. ground (arith, total_ge awake n j (update s.workers j w') h, up full);
    stuck = inv.stuck;
    valid = inv.valid;
  }

-- Every step keeps the invariant, when there is a worker.
pub Step-Inv :
    {n queue_size : ℕ} {policy : OverloadType} {s t : Server}
    → 0 < n
    → Step n queue_size policy s t
    → Inv n queue_size s
    → Inv n queue_size t
Step-Inv {n} {queue_size} {policy} {s} pos_n (accept f i e fd) inv = record {
  counted = inv.counted;
  room = inv.room;
  lively = inv.lively;
  stuck = ground arith;
  valid = inv.valid;
}
Step-Inv {n} {queue_size} {policy} {s} pos_n (sleep_full i gone rest e d out) inv = record {
  counted = inv.counted;
  room = inv.room;
  lively = inv.lively;
  stuck = (
    held s.acceptor i queue_size (load s) e inv.stuck,
    (admit_waits queue_size (length s.running) i policy s.waiting gone rest out).1,
  );
  valid = inv.valid;
}
Step-Inv {n} {queue_size} {policy} {s} pos_n (leave_quietly i gone rest w c e d out) inv =
    settle_quiet n queue_size policy s pos_n inv i gone rest w c e d out
Step-Inv {n} {queue_size} {policy} {s} pos_n (leave_signal i gone rest w c ws e d out sig) inv =
    settle-Signal n queue_size policy s pos_n inv i gone rest w c ws e d out sig
Step-Inv {n} {queue_size} {policy} {s} pos_n (sleep_empty j h e w) inv =
    worker-Inv n queue_size policy s pos_n inv j ready asleep s.closed h e refl
      (λ full. absurd (omega (arith, ap length w)))
Step-Inv {n} {queue_size} {policy} {s} pos_n (take j i rest h e w) inv =
    take-Inv n queue_size policy s pos_n inv j i rest h e w
Step-Inv {n} {queue_size} {policy} {s} pos_n (close_fd j fd h e) inv =
    worker-Inv n queue_size policy s pos_n inv j (handling fd) closing _ h e refl (λ _. omega arith)
Step-Inv {n} {queue_size} {policy} {s} pos_n (finish j h e) inv =
    finish-Inv n queue_size policy s pos_n inv j h e
Step-Inv {n} {queue_size} {policy} {s} pos_n (spurious_worker j h e) inv =
    worker-Inv n queue_size policy s pos_n inv j asleep ready s.closed h e refl (λ _. omega arith)
Step-Inv {n} {queue_size} {policy} {s} pos_n (spurious_acceptor i e) inv = record {
  counted = inv.counted;
  room = inv.room;
  lively = inv.lively;
  stuck = (subst (Stuck queue_size (load s)) e inv.stuck).0;
  valid = inv.valid;
}

Inv-started : (n queue_size : ℕ) → Inv n queue_size started
Inv-started n queue_size = record {
  counted = total_zero busy n (λ _. ready) (λ k. refl);
  room = omega arith;
  lively = λ h. absurd (omega arith);
  stuck = tt;
  valid = tt;
}

pub Reach-Inv :
    {n queue_size : ℕ} {policy : OverloadType} {s : Server}
    → 0 < n
    → Reach n queue_size policy s
    → Inv n queue_size s
Reach-Inv {n} {queue_size} pos_n start = Inv-started n queue_size
Reach-Inv pos_n (next r st) = Step-Inv pos_n st (Reach-Inv pos_n r)
