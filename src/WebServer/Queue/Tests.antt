-- ===== src/WebServer/Queue/Tests.antt =====
-- Runs of hw3/webserver-files/queue.c on a queue of three nodes, and the theorems at it.
use operations_systems.Base.{
  ℕ, ◌*◌, ◌≡◌, ◌≢◌, refl, none, some, Option, [], ◌∷◌, ◌++◌, arith, ◌==◌, if◌then◌else◌,
}
use operations_systems.Base.Int.{ℤ, pos, ◌+ℤ◌, ◌-ℤ◌}
use operations_systems.WebServer.NodeHeap.{
  Item, node, Memory, Cmd, ok, out_of_fuel, fault, Run, ◌>>=◌, load, set_next, free,
}
use operations_systems.WebServer.Queue.{
  Queue, Popped, queue_create, queue_destroy, queue_push, queue_pop, queue_remove_by_index,
  queue_discard, queue_print, unlink_at, walk,
}
use operations_systems.WebServer.Queue.Chain.{Cells, IsQueue, SameOutside}
use operations_systems.WebServer.Queue.Push.{queue_push-append}
use operations_systems.WebServer.Queue.Pop.{queue_pop-cons}
use operations_systems.WebServer.Queue.Remove.{
  Removed, queue_remove_by_index-erase_idx, queue_remove_by_index-fault,
}
use operations_systems.WebServer.Queue.Discard.{Discarded, queue_discard-Discarded}
use operations_systems.WebServer.Queue.Destroy.{queue_destroy-fault, queue_print-fds}

abbrev request : ℕ → Item
request n = record { fd = pos n; arrival = record { tv_sec = n; tv_usec = 0 } }

abbrev three_cells : Cells
three_cells = (10, request 4) ∷ (20, request 5) ∷ (30, request 6) ∷ []

abbrev memory : Memory
memory = record {
  cells = λ a.
      if a == 10
      then some (node (request 4) 20)
      else if a == 20
      then some (node (request 5) 30)
      else if a == 30
      then some (node (request 6) 0)
      else none;
  closed = [];
}

abbrev three : Queue
three = record { head = 10; tail = 30; size = pos 3 }

three-IsQueue : IsQueue memory three three_cells
three-IsQueue = record {
  chain = (
    record { ne_null = omega arith; holds = refl },
    refl,
    (
      record { ne_null = omega arith; holds = refl },
      refl,
      (record { ne_null = omega arith; holds = refl }, refl, tt),
    ),
  );
  head_first = refl;
  tail_last = refl;
  size_length = refl;
}

nonempty : three_cells ≢ []
nonempty e = cc

-- Three pushes, a pop and a removal of the middle: 5 is left behind 6.
scenario : Cmd (ℤ × Queue)
unfolding load set_next free queue_create queue_push queue_pop queue_remove_by_index unlink_at walk
    ◌+ℤ◌ ◌-ℤ◌
scenario = do
  q ← queue_create 7
  (_, q) ← queue_push 10 q (request 4)
  (_, q) ← queue_push 20 q (request 5)
  (_, q) ← queue_push 30 q (request 6)
  p ← queue_pop q
  (_, q) ← queue_push 40 p.queue (request 7)
  queue_remove_by_index q (pos 1)

abbrev empty_memory : Memory
empty_memory = record { cells = λ _. none; closed = [] }

abbrev removed_of : Run (ℤ × Queue) → Option (ℤ × Queue)
removed_of (ok r m) = some r
removed_of fault = none
removed_of out_of_fuel = none

scenario_runs :
    removed_of (scenario empty_memory) ≡ some (pos 6, record { head = 20; tail = 40; size = pos 2 })
unfolding scenario
scenario_runs = refl

queue_push-append_example :
    (m' : Memory) × (q' : Queue) × (queue_push 40 three (request 7) memory ≡ ok (pos 1, q') m')
    × IsQueue m' q' (three_cells ++ (40, request 7) ∷ [])
    × SameOutside ((40, request 7) ∷ three_cells) memory m'
    × (m'.closed ≡ [])
queue_push-append_example =
    queue_push-append 40 (request 7) memory three three_cells three-IsQueue (omega arith) refl

queue_pop-cons_example :
    (m' : Memory) × (p : Popped) × (queue_pop three memory ≡ ok p m')
    × ((p.result ≡ pos 4) × (p.arrival ≡ some (record { tv_sec = 4; tv_usec = 0 })))
    × IsQueue m' p.queue ((20, request 5) ∷ (30, request 6) ∷ [])
    × SameOutside three_cells memory m'
    × ((m'.cells 10 ≡ none) × (m'.closed ≡ []))
queue_pop-cons_example = queue_pop-cons memory three 10 (request 4) _ three-IsQueue

queue_remove_by_index-erase_idx_example :
    (m' : Memory) × (q' : Queue) × (fd : ℤ) × (queue_remove_by_index three (pos 2) memory
      ≡ ok (fd, q') m')
    × Removed memory m' q' three_cells 2 fd
queue_remove_by_index-erase_idx_example =
    queue_remove_by_index-erase_idx memory three three_cells 2 three-IsQueue (omega arith)

queue_remove_by_index-fault_example : queue_remove_by_index three (pos 3) memory ≡ fault
queue_remove_by_index-fault_example =
    queue_remove_by_index-fault memory three three_cells three-IsQueue nonempty

queue_discard-Discarded_example :
    (m' : Memory) × (q' : Queue) × (queue_discard (λ k. 7 * k) three (pos 2) memory ≡ ok q' m')
    × Discarded memory m' q' three_cells 2
queue_discard-Discarded_example =
    queue_discard-Discarded (λ k. 7 * k) memory three three_cells 2 three-IsQueue

queue_destroy-fault_test : queue_destroy 4 three memory ≡ fault
queue_destroy-fault_test = queue_destroy-fault memory three three_cells three-IsQueue nonempty

print_test : queue_print 4 three memory ≡ ok (some (pos 4 ∷ pos 5 ∷ pos 6 ∷ [])) memory
print_test = queue_print-fds memory three three_cells three-IsQueue
