-- ===== src/WebServer/Server/Invariant.antt =====
-- What holds in every state that hw3/webserver-files/server.c can reach, whatever the policy.
use operations_systems.Base.{
  ℕ, ◌+◌, ◌≤◌, ◌<◌, ◌≡◌, refl, List, [], ◌∷◌, arith, All, length, length-append, if◌then◌else◌,
}
use operations_systems.Base.Sums.{sum_of, sum_of-append, sum_of-perm, length-perm}
use operations_systems.Base.Int.{ℤ, eqb_ℤ, minus_one}
use operations_systems.WebServer.NodeHeap.{Item}
use operations_systems.WebServer.Server.{
  fds, Worker, ready, asleep, handling, closing, Acceptor, accepting, holding, blocked, Server,
  Discards,
}
use operations_systems.WebServer.Server.Family.{total}
use operations_systems.WebServer.Server.Admission.{IsFd}

-- A worker with a request, counted from the pop of the one queue to the pop of the other.
abbrev pub busy : Worker → ℕ
busy ready = 0
busy asleep = 0
busy (handling fd) = 1
busy closing = 1

abbrev pub awake : Worker → ℕ
awake asleep = 0
awake w = 1

-- What the acceptor's state says about the queues.
abbrev pub Stuck : ℕ → ℕ → Acceptor → Type 0
Stuck queue_size load (blocked i) = IsFd i × (queue_size ≤ load)
Stuck queue_size load (holding i) = IsFd i
Stuck queue_size load accepting = Unit {0}

abbrev pub load : Server → ℕ
load s = length s.waiting + length s.running

pub record Inv (n queue_size : ℕ) (s : Server) : Type 0 where
  pub counted : total busy n s.workers ≡ length s.running
  pub room : load s ≤ queue_size
  pub lively : 0 < length s.waiting → 0 < total awake n s.workers
  pub stuck : Stuck queue_size (load s) s.acceptor
  pub valid : All IsFd s.waiting

module _ {waiting gone rest : List Item} (d : Discards waiting gone rest) where
  pub discards_sum :
      (weight : ℤ → ℕ)
      → sum_of weight (fds gone) + sum_of weight (fds rest) ≡ sum_of weight (fds waiting)
  discards_sum weight = omega (
    arith,
    sum_fds gone,
    sum_fds rest,
    sum_fds waiting,
    sum_of-append (λ (i : Item). weight i.fd) gone rest,
    sum_of-perm (λ (i : Item). weight i.fd) d.split,
  )
    where
      sum_fds : (xs : List Item) → sum_of weight (fds xs) ≡ sum_of (λ i. weight i.fd) xs
      sum_fds [] = refl
      sum_fds (x ∷ xs) = omega (arith, sum_fds xs)

  pub discards_length : length gone + length rest ≡ length waiting
  discards_length = omega (arith, length-append gone rest, length-perm d.split)

  pub discards_valid : All IsFd waiting → All IsFd rest
  discards_valid v = valid_of_sum rest (omega (arith, discards_sum bad, sum_of_valid waiting v))
    where
      bad : ℤ → ℕ
      bad z = if eqb_ℤ z minus_one then 1 else 0

      sum_of_valid : (xs : List Item) → All IsFd xs → sum_of bad (fds xs) ≡ 0
      sum_of_valid [] v = refl
      sum_of_valid (x ∷ xs) v = ground (arith, sum_of_valid xs v.1)

      valid_of_sum : (xs : List Item) → sum_of bad (fds xs) ≡ 0 → All IsFd xs
      valid_of_sum [] e = tt
      valid_of_sum (x ∷ xs) e = (ground arith, valid_of_sum xs (ground arith))
