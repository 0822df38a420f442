-- ===== src/WebServer/Server/Tests.antt =====
-- A short run of hw3/webserver-files/server.c with one worker and room for one request, the theorems
-- at it, and the single-precision product at a few sizes.
use mathlib.Core.List.Perm
use operations_systems.Base.{
  ℕ, ◌+◌, ◌≤◌, ◌<◌, ◌≡◌, ◌≢◌, refl, inl, true, [], ◌∷◌, ◌++◌, arith, length,
}
use operations_systems.Base.Int.{pos}
use operations_systems.WebServer.NodeHeap.{Item}
use operations_systems.WebServer.Server.{
  OverloadType, block, drop_rand, leaves, admit, ready, asleep, holding, blocked, Server, nobody,
  settled, Discards, accept, sleep_full, leave_signal, started, Reach, start, next,
}
use operations_systems.WebServer.Server.Percent.{discard_count, discard_count_pos}
use operations_systems.WebServer.Server.Family.{total}
use operations_systems.WebServer.Server.Invariant.{busy}
use operations_systems.WebServer.Server.Ownership.{Conserved, descriptors-Conserved}
use operations_systems.WebServer.Server.Safety.{
  CanProgress, Admitted, never_overloaded, running_counts_workers, no_lost_wakeup, no_deadlock,
  newcomer-Admitted,
}

-- The float product discards one request too many at 50.
discard_count_runs :
    discard_count 0 ∷ discard_count 1 ∷ discard_count 10 ∷ discard_count 11 ∷ discard_count 50 ∷ []
    ≡ 0 ∷ 1 ∷ 3 ∷ 4 ∷ 16 ∷ []
unfolding discard_count
discard_count_runs = refl

abbrev request : ℕ → Item
request n = record { fd = pos n; arrival = record { tv_sec = n; tv_usec = 0 } }

Discards-nothing : Discards [] [] []
Discards-nothing = record { split = Perm.refl []; count = omega arith }

Discards-one : (i : Item) → Discards (i ∷ []) (i ∷ []) []
Discards-one i = record {
  split = Perm.refl (i ∷ []);
  count = omega (arith, discard_count_pos 1 (omega arith));
}

abbrev arrived : ℕ → Server → Server
arrived f s = record s { acceptor = holding (request f); accepted = s.accepted ++ pos f ∷ [] }

abbrev one_waiting : Server
one_waiting = settled (arrived 5 started) (request 5 ∷ []) [] (λ _. ready)

abbrev full_house : Server
full_house = record (arrived 6 one_waiting) { acceptor = blocked (request 6) }

module _ (policy : OverloadType) where
  one_waiting_from :
      admit policy 1 [] 0 (request 5) [] [] ≡ leaves (request 5 ∷ []) [] true
      → Reach 1 1 policy one_waiting
  one_waiting_from out = next (next start (accept 5 (request 5) refl refl)) (
      leave_signal (request 5) [] [] (request 5 ∷ []) [] (λ _. ready) refl Discards-nothing out
        (nobody (λ j h e. cc)))

one_waiting_under_block : Reach 1 1 block one_waiting
unfolding admit
one_waiting_under_block = one_waiting_from block refl

one_waiting_rand : Reach 1 1 drop_rand one_waiting
unfolding admit
one_waiting_rand = one_waiting_from drop_rand refl

full_house_under_block : Reach 1 1 block full_house
unfolding admit
full_house_under_block =
    next (next one_waiting_under_block (accept 6 (request 6) refl refl))
      (sleep_full (request 6) (request 5 ∷ []) [] refl (Discards-one (request 5)) refl)

never_overloaded_example : length full_house.waiting + length full_house.running ≤ 1
never_overloaded_example = never_overloaded (omega arith) full_house_under_block

running_counts_workers_example : length full_house.running ≡ total busy 1 full_house.workers
running_counts_workers_example = running_counts_workers (omega arith) full_house_under_block

no_lost_wakeup_example : (j : ℕ) × (j < 1) × (full_house.workers j ≢ asleep)
no_lost_wakeup_example = no_lost_wakeup (omega arith) full_house_under_block (λ e. cc)

no_deadlock_example : (j : ℕ) × (j < 1) × CanProgress full_house (full_house.workers j)
no_deadlock_example =
    no_deadlock (omega arith) (omega arith) full_house_under_block (request 6) refl

descriptors-Conserved_example : Conserved (λ _. 1) 1 full_house
descriptors-Conserved_example = descriptors-Conserved (λ _. 1) (omega arith) full_house_under_block

newcomer-Admitted_example :
    Admitted (admit drop_rand 1 (request 5 ∷ []) 0 (request 6) (request 5 ∷ []) []) (request 6)
newcomer-Admitted_example =
    newcomer-Admitted (request 6) (request 5 ∷ []) [] (omega arith) one_waiting_rand (inl refl)
      (λ e. cc) (Discards-one (request 5))
