-- ===== src/WebServer/Queue.antt =====
-- The functions of hw3/webserver-files/queue.c, line by line, over `NodeHeap`. A `Queue` struct
-- lives outside the node memory, so a function that updates one returns the new value.
pub mod Chain
pub mod Push
pub mod Pop
pub mod Spot
pub mod Remove
pub mod Discard
pub mod Destroy
mod Tests
use operations_systems.Base.{
  ℕ, zero, suc, ◌+◌, ◌%◌, Bool, not, Option, none, some, List, [], ◌∷◌, ◌==◌, if◌then◌else◌,
}
use operations_systems.Base.Int.{ℤ, pos, pos_part, neg_part, ◌+ℤ◌, ◌-ℤ◌, ltb_ℤ, eqb_ℤ, minus_one}
use operations_systems.WebServer.NodeHeap.{
  Ptr, null, Timeval, Item, Node, node, Cmd, fault, out_of_fuel, pure, ◌>>=◌, ◌>>◌, put, load,
  set_next, free, close,
}

pub record Queue : Type 0 where
  pub head : Ptr
  pub tail : Ptr
  pub size : ℤ

-- `fresh` is what `malloc` returned for the struct: the code writes through it unchecked.
pub queue_create : (fresh : Ptr) → Cmd Queue
queue_create fresh m =
    if fresh == null then fault else pure (record { head = null; tail = null; size = pos 0 }) m

-- `while(it)`, on fuel: the code moves on to the next node before it reads the descriptor.
destroy_loop : ℕ → Ptr → Cmd (Unit {0})
destroy_loop zero it = λ _. out_of_fuel
destroy_loop (suc k) it = if it == null then pure tt else do
  n ← load it
  following ← load n.next
  close following.item.fd
  free it
  destroy_loop k n.next

pub queue_destroy : ℕ → Queue → Cmd (Unit {0})
unfolding destroy_loop
queue_destroy fuel q = destroy_loop fuel q.head

abbrev pub queue_empty : Queue → Bool
queue_empty q = q.head == null

abbrev pub queue_size : Queue → ℤ
queue_size q = q.size

-- The result, the arrival time that `*at` gets where `at` is not NULL, and the queue.
pub record Popped : Type 0 where
  pub result : ℤ
  pub arrival : Option Timeval
  pub queue : Queue

abbrev pub popped : Node → Queue → Popped
popped n q = record {
  result = n.item.fd;
  arrival = some n.item.arrival;
  queue = record {
    head = n.next;
    tail = if n.next == null then null else q.tail;
    size = q.size -ℤ pos 1;
  };
}

abbrev pub pop_failed : Queue → Popped
pop_failed q = record { result = minus_one; arrival = none; queue = q }

pub queue_pop : Queue → Cmd Popped
queue_pop q =
    if queue_empty q
    then pure (pop_failed q)
    else do n ← load q.head; free q.head; pure (popped n q)

-- `fresh` is what `malloc` returned for the node.
pub queue_push : (fresh : Ptr) → Queue → Item → Cmd (ℤ × Queue)
queue_push fresh q i = if fresh == null then pure (minus_one, q) else do
  put fresh (some (node i null))
  if not (queue_empty q)
      then set_next q.tail fresh >> pure (pos 1, record q { tail = fresh; size = q.size +ℤ pos 1 })
      else pure (pos 1, record { head = fresh; tail = fresh; size = q.size +ℤ pos 1 })

-- The loop of `queuePrint`, on fuel, with the numbers that it prints.
print_loop : ℕ → Ptr → Cmd (List ℤ)
print_loop zero it = λ _. out_of_fuel
print_loop (suc k) it =
    if it == null
    then pure []
    else do n ← load it; rest ← print_loop k n.next; pure (n.item.fd ∷ rest)

-- `none` is the line "queue is empty".
pub queue_print : ℕ → Queue → Cmd (Option (List ℤ))
unfolding print_loop
queue_print fuel q =
    if eqb_ℤ q.size (pos 0) then pure none else do fds ← print_loop fuel q.head; pure (some fds)

-- `for (i = 0; i < rounds; i++) it = it->next;`
pub walk : ℕ → Ptr → Cmd Ptr
walk zero it = pure it
walk (suc k) it = do n ← load it; walk k n.next

-- The part of `queueRemoveByIndex` behind its two early returns.
pub unlink_at : Queue → ℤ → Cmd (ℤ × Queue)
unlink_at q index = do
  it ← walk (pos_part (index -ℤ pos 1)) q.head
  before ← load it
  tmp ← load before.next
  set_next it tmp.next
  free before.next
  pure (
    tmp.item.fd,
    record q { tail = if tmp.next == null then it else q.tail; size = q.size -ℤ pos 1 },
  )

pub queue_remove_by_index : Queue → ℤ → Cmd (ℤ × Queue)
queue_remove_by_index q index =
    if ltb_ℤ q.size index
    then pure (minus_one, q)
    else if eqb_ℤ index (pos 0)
    then (do p ← queue_pop q; pure (p.result, p.queue))
    else unlink_at q index

-- The rounds of `queueDiscardX` that are left; `rand k` is what `rand()` returns with k rounds left.
discard_loop : (rand : ℕ → ℕ) → ℕ → Queue → Cmd Queue
discard_loop rand zero q = pure q
discard_loop rand (suc k) q = if eqb_ℤ q.size (pos 0) then (λ _. fault) else do
  (fd, q') ← queue_remove_by_index q (pos (rand (suc k) % (pos_part q.size + neg_part q.size)))
  close fd
  discard_loop rand k q'

pub queue_discard : (rand : ℕ → ℕ) → Queue → ℤ → Cmd Queue
unfolding discard_loop
queue_discard rand q num =
    discard_loop rand (pos_part (if ltb_ℤ num (queue_size q) then num else queue_size q)) q
