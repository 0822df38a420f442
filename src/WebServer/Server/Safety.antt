-- ===== src/WebServer/Server/Safety.antt =====
-- What hw3/webserver-files/server.c guarantees in every reachable state.
use mathlib.Core.Path.{subst}
use operations_systems.Base.{
  All, leb, lt→ltb, ℕ, ◌+◌, ◌≤◌, ◌<◌, ◌≡◌, ◌≢◌, refl, sym, ap, ◌⊎◌, inl, inr, true, false, List, [],
  ◌∷◌, ◌++◌, arith, length, Bool-cases,
}
use operations_systems.Base.Int.{ℤ}
use operations_systems.WebServer.NodeHeap.{Item}
use operations_systems.WebServer.Server.{
  OverloadType, drop_rand, drop_head, Outcome, leaves, fds, is_full, admit, Worker, ready, asleep,
  handling, closing, blocked, Server, Discards, Reach,
}
use operations_systems.WebServer.Server.Percent.{discard_count_pos}
use operations_systems.WebServer.Server.Family.{total, total_pos}
use operations_systems.WebServer.Server.Invariant.{Stuck, load, busy, awake, discards_length}
use operations_systems.WebServer.Server.Admission.{IsFd}
use operations_systems.WebServer.Server.Steps.{Reach-Inv}

-- Under every policy, the waiting and the running requests together never exceed `queue_size`.
pub never_overloaded :
    {n queue_size : ℕ} {policy : OverloadType} {s : Server}
    → 0 < n
    → Reach n queue_size policy s
    → length s.waiting + length s.running ≤ queue_size
never_overloaded pos_n r = (Reach-Inv pos_n r).room

-- The running queue has one entry for each worker that is between its two critical sections.
pub running_counts_workers :
    {n queue_size : ℕ} {policy : OverloadType} {s : Server}
    → 0 < n
    → Reach n queue_size policy s
    → length s.running ≡ total busy n s.workers
running_counts_workers pos_n r = sym (Reach-Inv pos_n r).counted

length_pos : (xs : List Item) → xs ≢ [] → 0 < length xs
length_pos [] ne = absurd (ne refl)
length_pos (x ∷ xs) ne = omega arith

-- No wakeup is lost: while a request waits, some worker is not asleep.
pub no_lost_wakeup :
    {n queue_size : ℕ} {policy : OverloadType} {s : Server}
    → 0 < n
    → Reach n queue_size policy s
    → s.waiting ≢ []
    → (j : ℕ) × (j < n) × (s.workers j ≢ asleep)
no_lost_wakeup {n} {s} pos_n r ne =
    let (j, h, up) =
      total_pos awake n s.workers ((Reach-Inv pos_n r).lively (length_pos s.waiting ne)) in
    (j, h, λ e. absurd (omega (arith, ap awake e)))

-- A worker that can take a request or finish one, and so wake the acceptor.
abbrev pub CanProgress : Server → Worker → Type 0
CanProgress s w = (0 < busy w) ⊎ ((w ≡ ready) × (s.waiting ≢ []))

List-cases : (xs : List Item) → (xs ≡ []) ⊎ (xs ≢ [])
List-cases [] = inl refl
List-cases (x ∷ xs) = inr (λ e. cc)

awake-CanProgress : (s : Server) (w : Worker) → s.waiting ≢ [] → w ≢ asleep → CanProgress s w
awake-CanProgress s ready ne up = inr (refl, ne)
awake-CanProgress s asleep ne up = absurd (up refl)
awake-CanProgress s (handling fd) ne up = inl (omega arith)
awake-CanProgress s closing ne up = inl (omega arith)

-- No deadlock: while the acceptor sleeps on a full server, some worker can go on.
pub no_deadlock :
    {n queue_size : ℕ} {policy : OverloadType} {s : Server}
    → 0 < n
    → 0 < queue_size
    → Reach n queue_size policy s
    → (i : Item) → s.acceptor ≡ blocked i
    → (j : ℕ) × (j < n) × CanProgress s (s.workers j)
no_deadlock {n} {queue_size} {s} pos_n pos_q r i e = elim (List-cases s.waiting) [
  | inl empty ↦
      let (j, h, b) =
        total_pos busy n s.workers
          (omega (arith, full, ap length empty, (Reach-Inv pos_n r).counted)) in
      (j, h, inl b)
  | inr ne ↦ let (j, h, up) = no_lost_wakeup pos_n r ne in (j, h, awake-CanProgress s _ ne up)
]
  where
    full : queue_size ≤ load s
    full = (subst (Stuck queue_size (load s)) e (Reach-Inv pos_n r).stuck).1

abbrev pub Admitted : Outcome → Item → Type 0
Admitted o i = (w : List Item) × (c : List ℤ) × (o ≡ leaves (w ++ i ∷ []) c true)

rand_admits :
    (queue_size running : ℕ) (waiting gone rest : List Item) (i : Item)
    → waiting ≢ []
    → length waiting + running ≤ queue_size
    → Discards waiting gone rest
    → Admitted (admit drop_rand queue_size waiting running i gone rest) i
unfolding admit
rand_admits queue_size running waiting gone rest i ne room d =
    elim (Bool-cases (is_full queue_size waiting running)) [
      | inl full ↦ (rest, fds gone, rw (full, lt→ltb _ _ fewer))
      | inr free ↦ (waiting, [], rw (free, lt→ltb _ _ (not_full free)))
    ]
  where
    len : 0 < length waiting
    len = length_pos waiting ne

    fewer : length rest + running < queue_size
    fewer = omega (arith, discards_length d, d.count, discard_count_pos (length waiting) len, len)

    not_full :
        leb queue_size (length waiting + running) ≡ false → length waiting + running < queue_size
    not_full f = ground arith

head_admits :
    (queue_size running : ℕ) (waiting gone rest : List Item) (i : Item)
    → waiting ≢ []
    → All IsFd waiting
    → Admitted (admit drop_head queue_size waiting running i gone rest) i
unfolding admit
head_admits queue_size running [] gone rest i ne v = absurd (ne refl)
head_admits queue_size running (x ∷ waiting) gone rest i ne v =
    elim (Bool-cases (is_full queue_size (x ∷ waiting) running)) [
      | inl full ↦ (waiting, x.fd ∷ [], rw (full, v.0))
      | inr free ↦ (x ∷ waiting, [], rw free)
    ]

-- DROP_RAND and DROP_HEAD never refuse a newcomer while a request waits: the newcomer is queued last.
pub newcomer-Admitted :
    {n queue_size : ℕ} {policy : OverloadType} {s : Server} (i : Item) (gone rest : List Item)
    → 0 < n
    → Reach n queue_size policy s
    → (policy ≡ drop_rand) ⊎ (policy ≡ drop_head)
    → s.waiting ≢ []
    → Discards s.waiting gone rest
    → Admitted (admit policy queue_size s.waiting (length s.running) i gone rest) i
newcomer-Admitted {queue_size} {s} i gone rest pos_n r (inl e) ne d =
    rw e (
      rand_admits queue_size (length s.running) s.waiting gone rest i ne (Reach-Inv pos_n r).room d)
newcomer-Admitted {queue_size} {s} i gone rest pos_n r (inr e) ne d =
    rw e
      (head_admits queue_size (length s.running) s.waiting gone rest i ne (Reach-Inv pos_n r).valid)
