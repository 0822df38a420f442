-- ===== src/WebServer/Queue/Pop.antt =====
-- `queuePop` of hw3/webserver-files/queue.c.
use operations_systems.Base.{
  suc, ◌≡◌, refl, sym, ap, none, some, [], ◌∷◌, arith, ◌==◌, if◌then◌else◌, length,
}
use operations_systems.Base.Int.{pos, ◌-ℤ◌, -ℤ-pos, minus_one}
use operations_systems.WebServer.NodeHeap.{
  Ptr, null, Item, Memory, ok, set_cell, set_cell-ne, not_null, load-ok, free-ok,
}
use operations_systems.WebServer.Queue.{Queue, Popped, queue_pop}
use operations_systems.WebServer.Queue.Chain.{
  Cells, first, last, Chain, IsQueue, SameOutside, frame, ne_of_owns,
}

-- The tail behind a removed head.
tail-pop :
    (m : Memory) (a : Ptr) (i : Item) (xs : Cells)
    → Chain m xs
    → (if first xs == null then null else last a xs) ≡ last null xs
tail-pop m a i [] c = refl
tail-pop m a i ((b, j) ∷ xs) c = rw (not_null c.0)

-- The first node of a queue is taken off, its memory is freed, and no descriptor is closed.
pub queue_pop-cons :
    (m : Memory) (q : Queue) (a : Ptr) (i : Item) (xs : Cells)
    → IsQueue m q ((a, i) ∷ xs)
    → (m' : Memory) × (p : Popped) × (queue_pop q m ≡ ok p m')
      × ((p.result ≡ i.fd) × (p.arrival ≡ some i.arrival))
      × IsQueue m' p.queue xs
      × SameOutside ((a, i) ∷ xs) m m'
      × ((m'.cells a ≡ none) × (m'.closed ≡ m.closed))
unfolding queue_pop
queue_pop-cons m q a i xs is = (
  record m { cells = set_cell m.cells a none },
  record {
    result = i.fd;
    arrival = some i.arrival;
    queue = record {
      head = first xs;
      tail = if first xs == null then null else q.tail;
      size = pos (length xs);
    };
  },
  rw (is.head_first, not_null is.chain.0, load-ok is.chain.0, free-ok is.chain.0, fewer) refl,
  (refl, refl),
  record {
    chain =
        frame m _ xs is.chain.2
          λ x mine. set_cell-ne m.cells a none x λ e. ne_of_owns xs a x is.chain.1 mine (sym e);
    head_first = refl;
    tail_last = rw is.tail_last (tail-pop m a i xs is.chain.2);
    size_length = refl;
  },
  (λ x out. set_cell-ne m.cells a none x (ground arith)),
  (ground arith, refl),
)
  where
    fewer : q.size -ℤ pos 1 ≡ pos (length xs)
    fewer = rw (is.size_length, -ℤ-pos (suc (length xs)) 1 (omega arith)) (ap pos (omega arith))

-- An empty queue gives -1, no arrival time, and stays as it is.
pub queue_pop-nil :
    (m : Memory) (q : Queue)
    → IsQueue m q []
    → queue_pop q m ≡ ok (record { result = minus_one; arrival = none; queue = q }) m
unfolding queue_pop
queue_pop-nil m q is = rw is.head_first
