-- ===== src/WebServer/Queue/Remove.antt =====
-- `queueRemoveByIndex` of hw3/webserver-files/queue.c.
use operations_systems.Base.{
  ℕ, zero, suc, ◌<◌, ◌≡◌, refl, sym, ap, ◌∙◌, ◌≢◌, false, none, some, [], ◌∷◌, arith, ◌==◌,
  if◌then◌else◌, length, get_elem?, erase_idx, length-erase_idx,
}
use operations_systems.Base.Int.{ℤ, pos, ◌-ℤ◌, -ℤ-pos, minus_one, ltb_ℤ, eqb_ℤ}
use operations_systems.WebServer.NodeHeap.{
  Ptr, null, Item, node, Memory, resume, pure, ok, fault, set_cell, set_cell-ne, set_cell_self, At,
  load-ok, load-null, set_next-ok, free-ok,
}
use operations_systems.WebServer.Queue.{Queue, queue_pop, walk, unlink_at, queue_remove_by_index}
use operations_systems.WebServer.Queue.Pop.{queue_pop-cons}
use operations_systems.WebServer.Queue.Spot.{Spot, unlinked, Spot-at}
use operations_systems.WebServer.Queue.Chain.{Cells, last, Chain, IsQueue, SameOutside, ne_of_owns}

-- What a removal leaves of a queue: the other nodes in order, the freed one gone, no descriptor closed.
pub record Removed (m m' : Memory) (q' : Queue) (xs : Cells) (n : ℕ) (fd : ℤ) : Type 0 where
  pub victim : Ptr
  pub item : Item
  pub is_elem : get_elem? xs n ≡ some (victim, item)
  pub result : fd ≡ item.fd
  pub rest : IsQueue m' q' (erase_idx xs n)
  pub freed : m'.cells victim ≡ none
  pub same : SameOutside xs m m'
  pub unclosed : m'.closed ≡ m.closed

unlink_at-Removed :
    (m : Memory) (q : Queue) (a : Ptr) (i : Item) (xs : Cells) (k : ℕ)
    → IsQueue m q ((a, i) ∷ xs)
    → k < length xs
    → (s : Spot m a ((a, i) ∷ xs) k)
    → (m' : Memory) × (q' : Queue) × (unlink_at q (pos (suc k)) m ≡ ok (s.gone.fd, q') m')
      × Removed m m' q' ((a, i) ∷ xs) (suc k) s.gone.fd
unfolding unlink_at
unlink_at-Removed m q a i xs k is h s = (
  record m { cells = unlinked m.cells s.spot (node s.item s.next) s.victim },
  record {
    head = q.head;
    tail = if s.next == null then s.spot else q.tail;
    size = pos (length xs);
  },
  rw
      (
        rounds,
        is.head_first,
        s.walked,
        load-ok s.before,
        load-ok s.taken,
        set_next-ok s.before s.next,
        free-ok relinked_victim,
        fewer,
      )
      refl,
  record {
    victim = s.victim;
    item = s.gone;
    is_elem = s.is_elem;
    result = refl;
    rest = record {
      chain = s.relinked _ (λ x. refl);
      head_first = is.head_first ∙ sym s.starts;
      tail_last = rw is.tail_last (s.ends null);
      size_length = ap pos (omega (arith, length-erase_idx ((a, i) ∷ xs) (suc k)));
    };
    freed = set_cell_self between.cells s.victim none;
    same = λ x out.
        set_cell-ne between.cells s.victim none x (ne_of_owns ((a, i) ∷ xs) x s.victim out s.mine.1)
        ∙ set_cell-ne m.cells s.spot (some (node s.item s.next)) x
            (ne_of_owns ((a, i) ∷ xs) x s.spot out s.mine.0);
    unclosed = refl;
  },
)
  where
    rounds : pos (suc k) -ℤ pos 1 ≡ pos k
    rounds = rw (-ℤ-pos (suc k) 1 (omega arith)) (ap pos (omega arith))

    fewer : q.size -ℤ pos 1 ≡ pos (length xs)
    fewer = rw (is.size_length, -ℤ-pos (suc (length xs)) 1 (omega arith)) (ap pos (omega arith))

    between : Memory
    between = record m { cells = set_cell m.cells s.spot (some (node s.item s.next)) }

    relinked_victim : At between s.victim (node s.gone s.next)
    relinked_victim = record {
      ne_null = s.taken.ne_null;
      holds = set_cell-ne m.cells s.spot _ s.victim (λ e. s.apart (sym e)) ∙ s.taken.holds;
    }

-- The two tests of the function pass an index within the queue on.
remove_at_zero :
    (m : Memory) (q : Queue) (n : ℕ)
    → q.size ≡ pos n
    → queue_remove_by_index q (pos 0) m ≡ resume (queue_pop q m) (λ p. pure (p.result, p.queue))
unfolding queue_remove_by_index
remove_at_zero m q n e = rw (passes q.size e)
  where
    passes : (z : ℤ) → z ≡ pos n → ltb_ℤ z (pos 0) ≡ false
    passes z e' = rw e' (ground arith)

remove_at_suc :
    (m : Memory) (q : Queue) (n k : ℕ)
    → q.size ≡ pos n
    → k < n
    → queue_remove_by_index q (pos (suc k)) m ≡ unlink_at q (pos (suc k)) m
unfolding queue_remove_by_index
remove_at_suc m q n k e h = rw (passes q.size e, nonzero)
  where
    nonzero : eqb_ℤ (pos (suc k)) (pos 0) ≡ false
    nonzero = ground arith

    passes : (z : ℤ) → z ≡ pos n → ltb_ℤ z (pos (suc k)) ≡ false
    passes z e' = rw e' (ground arith)

-- Removal at an index within the queue, the head included.
pub queue_remove_by_index-erase_idx :
    (m : Memory) (q : Queue) (xs : Cells) (n : ℕ)
    → IsQueue m q xs
    → n < length xs
    → (m' : Memory) × (q' : Queue) × (fd : ℤ) × (queue_remove_by_index q (pos n) m ≡ ok (fd, q') m')
      × Removed m m' q' xs n fd
unfolding queue_remove_by_index
queue_remove_by_index-erase_idx m q [] n is h = elim h [ ]
queue_remove_by_index-erase_idx m q ((a, i) ∷ xs) zero is h =
    let (m', p, run, (result, _), rest, same, (freed, unclosed)) = queue_pop-cons m q a i xs is in
    (
      m',
      p.queue,
      p.result,
      remove_at_zero m q _ is.size_length ∙ rw run refl,
      record {
        victim = a;
        item = i;
        is_elem = refl;
        result = result;
        rest = rest;
        freed = freed;
        same = same;
        unclosed = unclosed;
      },
    )
queue_remove_by_index-erase_idx m q ((a, i) ∷ xs) (suc k) is h =
    let s = Spot-at m k a i xs is.chain (omega arith) in
    let (m', q', run, removed) = unlink_at-Removed m q a i xs k is (omega arith) s in
    (m', q', s.gone.fd, remove_at_suc m q _ k is.size_length (omega arith) ∙ run, removed)

-- An index above the size is refused with -1, and nothing changes.
pub queue_remove_by_index_above :
    (m : Memory) (q : Queue) (xs : Cells) (n : ℕ)
    → IsQueue m q xs
    → length xs < n
    → queue_remove_by_index q (pos n) m ≡ ok (minus_one, q) m
unfolding queue_remove_by_index
queue_remove_by_index_above m q xs n is h = ground (arith, is.size_length)

walk_to_last :
    (m : Memory) (a : Ptr) (i : Item) (xs : Cells)
    → Chain m ((a, i) ∷ xs)
    → (j : Item) × (walk (length xs) a m ≡ ok (last a xs) m) × At m (last a xs) (node j null)
unfolding walk
walk_to_last m a i [] c = (i, refl, c.0)
walk_to_last m a i ((b, j) ∷ xs) c =
    let (k, run, at) = walk_to_last m b j xs c.2 in (k, rw (load-ok c.0) run, at)

-- The guard lets the index that is the size through, and the code reads through NULL.
pub queue_remove_by_index-fault :
    (m : Memory) (q : Queue) (xs : Cells)
    → IsQueue m q xs
    → xs ≢ []
    → queue_remove_by_index q (pos (length xs)) m ≡ fault
unfolding unlink_at
queue_remove_by_index-fault m q [] is ne = absurd (ne refl)
queue_remove_by_index-fault m q ((a, i) ∷ xs) is ne =
    let (j, run, at) = walk_to_last m a i xs is.chain in
    remove_at_suc m q _ (length xs) is.size_length (omega arith)
    ∙ rw (rounds, is.head_first, run, load-ok at, load-null m) refl
  where
    rounds : pos (suc (length xs)) -ℤ pos 1 ≡ pos (length xs)
    rounds = rw (-ℤ-pos (suc (length xs)) 1 (omega arith)) (ap pos (omega arith))
