-- ===== src/WebServer/Server.antt =====
-- hw3/webserver-files/server.c: the acceptor and the worker threads over the two queues, one
-- critical section of the mutex at a time. The queues are lists here, oldest first: the modules
-- below `Queue` show that queue.c implements these lists. The result of `queuePush` is ignored by
-- the code; memory is taken to be there.
pub mod Percent
pub mod Family
pub mod Admission
pub mod Invariant
pub mod Steps
pub mod Ownership
pub mod Safety
mod Tests
use mathlib.Core.List.{Perm}
use Prim.Native.Nat.{min}
use operations_systems.Base.{
  ℕ, suc, ◌+◌, ◌<◌, ◌≡◌, ◌≢◌, Bool, true, false, List, [], ◌∷◌, ◌++◌, leb, ltb, if◌then◌else◌,
  length,
}
use operations_systems.Base.Int.{ℤ, pos, eqb_ℤ, minus_one}
use operations_systems.WebServer.NodeHeap.{Item}
use Percent.{discard_count}
use Family.{update}

pub data OverloadType : Type 0 where
  block drop_tail drop_rand drop_head : OverloadType

abbrev pub fds : List Item → List ℤ
fds [] = []
fds (i ∷ xs) = i.fd ∷ fds xs

-- `queuePop(q, NULL)` as a result and the rest.
abbrev pub pop : List Item → ℤ × List Item
pop [] = (minus_one, [])
pop (i ∷ xs) = (i.fd, xs)

-- What a critical section of `main` does with an accepted connection: it waits on the condition
-- variable, or leaves the waiting queue, closes some descriptors and may signal.
pub data Outcome : Type 0 where
  waits : Outcome
  leaves : List Item → List ℤ → Bool → Outcome

-- queue_size <= queueSize(waiting_requests) + queueSize(running_requests)
abbrev pub is_full : ℕ → List Item → ℕ → Bool
is_full queue_size waiting running = leb queue_size (length waiting + running)

abbrev pub enqueue : List Item → List ℤ → Item → Outcome
enqueue waiting closed i = leaves (waiting ++ i ∷ []) closed true

abbrev pub refuse : List Item → List ℤ → Item → Outcome
refuse waiting closed i = leaves waiting (closed ++ i.fd ∷ []) false

-- Behind the discarding of DROP_RAND: `gone` are closed already.
abbrev pub after_discard : ℕ → List Item → List ℤ → ℕ → Item → Outcome
after_discard queue_size rest gone running i =
    if ltb (length rest + running) queue_size then enqueue rest gone i else refuse rest gone i

-- DROP_HEAD on a full server.
abbrev pub replace_head : ℤ × List Item → Item → Outcome
replace_head (head, rest) i =
    if eqb_ℤ head minus_one then refuse rest [] i else enqueue rest (head ∷ []) i

-- The switch of `main`. `gone` and `rest` are what `queueDiscardX` makes of the waiting queue.
pub admit :
    OverloadType
    → (queue_size : ℕ) (waiting : List Item) (running : ℕ) (i : Item) (gone rest : List Item)
    → Outcome
admit block queue_size waiting running i gone rest =
    if is_full queue_size waiting running then waits else enqueue waiting [] i
admit drop_tail queue_size waiting running i gone rest =
    if is_full queue_size waiting running then refuse waiting [] i else enqueue waiting [] i
admit drop_rand queue_size waiting running i gone rest =
    if is_full queue_size waiting running
    then after_discard queue_size rest (fds gone) running i
    else after_discard queue_size waiting [] running i
admit drop_head queue_size waiting running i gone rest =
    if is_full queue_size waiting running
    then replace_head (pop waiting) i
    else enqueue waiting [] i

-- A worker: at the lock of its loop, asleep in `pthread_cond_wait`, in `requestHandle`, or behind
-- the `Close` and before the second lock.
pub data Worker : Type 0 where
  ready asleep : Worker
  handling : ℤ → Worker
  closing : Worker

-- `main`: in `Accept`, with a connection before or in the critical section, or asleep in it.
pub data Acceptor : Type 0 where
  accepting : Acceptor
  holding : Item → Acceptor
  blocked : Item → Acceptor

-- `accepted` and `closed` log the descriptors that `Accept` gave out and `Close` took back.
pub record Server : Type 0 where
  pub waiting : List Item
  pub running : List ℤ
  pub acceptor : Acceptor
  pub workers : ℕ → Worker
  pub accepted : List ℤ
  pub closed : List ℤ

-- `pthread_cond_broadcast` wakes the acceptor and every worker.
abbrev pub wake : Worker → Worker
wake asleep = ready
wake w = w

abbrev pub wake_acceptor : Acceptor → Acceptor
wake_acceptor (blocked i) = holding i
wake_acceptor a = a

abbrev pub tail : List ℤ → List ℤ
tail [] = []
tail (x ∷ xs) = xs

-- What `pthread_cond_signal` does among `n` workers: it wakes one that sleeps, if one does.
pub data Signal (n : ℕ) (before : ℕ → Worker) : (ℕ → Worker) → Type 0 where
  one : (j : ℕ) → j < n → before j ≡ asleep → Signal n before (update before j ready)
  nobody : ((j : ℕ) → j < n → before j ≢ asleep) → Signal n before before

-- What the acceptor leaves behind the critical section.
abbrev pub settled : Server → List Item → List ℤ → (ℕ → Worker) → Server
settled s waiting closed workers = record s {
  waiting = waiting;
  closed = s.closed ++ closed;
  acceptor = accepting;
  workers = workers;
}

-- What `queueDiscardX` may do: it takes out as many as the code asks for, whichever they are.
pub record Discards (waiting gone rest : List Item) : Type 0 where
  pub split : Perm (gone ++ rest) waiting
  pub count : length gone ≡ min (discard_count (length waiting)) (length waiting)

-- One step of `n` workers and the acceptor under a policy.
pub data Step (n queue_size : ℕ) (policy : OverloadType) (s : Server) : Server → Type 0 where
  accept :
      (f : ℕ) (i : Item)
      → s.acceptor ≡ accepting
      → i.fd ≡ pos f
      → Step n queue_size policy s
          (record s { acceptor = holding i; accepted = s.accepted ++ i.fd ∷ [] })
  sleep_full :
      (i : Item) (gone rest : List Item)
      → s.acceptor ≡ holding i
      → Discards s.waiting gone rest
      → admit policy queue_size s.waiting (length s.running) i gone rest ≡ waits
      → Step n queue_size policy s (record s { acceptor = blocked i })
  leave_quietly :
      (i : Item) (gone rest waiting : List Item) (closed : List ℤ)
      → s.acceptor ≡ holding i
      → Discards s.waiting gone rest
      → admit policy queue_size s.waiting (length s.running) i gone rest
        ≡ leaves waiting closed false
      → Step n queue_size policy s (settled s waiting closed s.workers)
  leave_signal :
      (i : Item) (gone rest waiting : List Item) (closed : List ℤ) (workers : ℕ → Worker)
      → s.acceptor ≡ holding i
      → Discards s.waiting gone rest
      → admit policy queue_size s.waiting (length s.running) i gone rest
        ≡ leaves waiting closed true
      → Signal n s.workers workers
      → Step n queue_size policy s (settled s waiting closed workers)
  sleep_empty :
      (j : ℕ)
      → j < n
      → s.workers j ≡ ready
      → s.waiting ≡ []
      → Step n queue_size policy s (record s { workers = update s.workers j asleep })
  take :
      (j : ℕ) (i : Item) (rest : List Item)
      → j < n
      → s.workers j ≡ ready
      → s.waiting ≡ i ∷ rest
      → Step n queue_size policy s (record s {
        waiting = rest;
        running = s.running ++ i.fd ∷ [];
        acceptor = wake_acceptor s.acceptor;
        workers = λ k. wake (update s.workers j (handling i.fd) k);
      })
  close_fd :
      (j : ℕ) (fd : ℤ)
      → j < n
      → s.workers j ≡ handling fd
      → Step n queue_size policy s
          (record s { closed = s.closed ++ fd ∷ []; workers = update s.workers j closing })
  finish :
      (j : ℕ)
      → j < n
      → s.workers j ≡ closing
      → Step n queue_size policy s (record s {
        running = tail s.running;
        acceptor = wake_acceptor s.acceptor;
        workers = λ k. wake (update s.workers j ready k);
      })
  spurious_worker :
      (j : ℕ)
      → j < n
      → s.workers j ≡ asleep
      → Step n queue_size policy s (record s { workers = update s.workers j ready })
  spurious_acceptor :
      (i : Item)
      → s.acceptor ≡ blocked i
      → Step n queue_size policy s (record s { acceptor = holding i })

-- `main` behind the creation of the threads.
abbrev pub started : Server
started = record {
  waiting = [];
  running = [];
  acceptor = accepting;
  workers = λ _. ready;
  accepted = [];
  closed = [];
}

pub data Reach (n queue_size : ℕ) (policy : OverloadType) : Server → Type 0 where
  start : Reach n queue_size policy started
  next :
      {s t : Server}
      → Reach n queue_size policy s
      → Step n queue_size policy s t
      → Reach n queue_size policy t
