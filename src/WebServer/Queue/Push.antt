-- ===== src/WebServer/Queue/Push.antt =====
-- `queueCreate` and `queuePush` of hw3/webserver-files/queue.c.
use operations_systems.Base.{
  ◌+◌, ◌≡◌, refl, sym, ap, ◌∙◌, ◌≢◌, false, Option, none, some, [], ◌∷◌, ◌++◌, arith, ◌==◌, length,
  length-append,
}
use operations_systems.Base.Int.{pos, ◌+ℤ◌, +ℤ-pos, minus_one}
use operations_systems.WebServer.NodeHeap.{
  Ptr, null, Item, Node, node, Memory, ok, set_cell, set_cell-ne, At, not_null, set_next-ok,
}
use operations_systems.WebServer.Queue.{Queue, queue_create, queue_push}
use operations_systems.WebServer.Queue.Chain.{
  Cells, last, owns, Chain, IsQueue, SameOutside, frame, owns-last, ne_of_owns, owns-append,
  not-owns_of_none,
}

-- A new queue is empty.
pub queue_create-IsQueue :
    (fresh : Ptr) (m : Memory)
    → fresh ≢ null
    → (q : Queue) × (queue_create fresh m ≡ ok q m) × IsQueue m q []
unfolding queue_create
queue_create-IsQueue fresh m ne = (
  _,
  ground arith,
  record { chain = tt; head_first = refl; tail_last = refl; size_length = refl },
)

last_item : Item → Cells → Item
last_item i [] = i
last_item i ((_, j) ∷ xs) = last_item j xs

At-last :
    (m : Memory) (a : Ptr) (i : Item) (xs : Cells)
    → Chain m ((a, i) ∷ xs)
    → At m (last a xs) (node (last_item i xs) null)
unfolding last_item
At-last m a i [] c = c.0
At-last m a i ((b, j) ∷ xs) c = At-last m b j xs c.2

-- A node at `fresh` joins the chain when the last node is linked to it.
Chain-snoc :
    (m m' : Memory) (fresh : Ptr) (j : Item) (a : Ptr) (i : Item) (xs : Cells)
    → Chain m ((a, i) ∷ xs)
    → At m fresh (node j null)
    → owns ((a, i) ∷ xs) fresh ≡ false
    → ((x : Ptr) → m'.cells x ≡ set_cell m.cells (last a xs) (some (node (last_item i xs) fresh)) x)
    → Chain m' ((a, i) ∷ xs ++ (fresh, j) ∷ [])
unfolding last_item
Chain-snoc m m' fresh j a i [] (at, _, _) new out e = (
  record { ne_null = at.ne_null; holds = ground (arith, e a) },
  ground arith,
  (record { ne_null = new.ne_null; holds = ground (arith, e fresh, new.holds) }, refl, tt),
)
Chain-snoc m m' fresh j a i ((b, k) ∷ xs) (at, apart, c) new out e = (
  record { ne_null = at.ne_null; holds = e a ∙ set_cell-ne m.cells _ _ a far ∙ at.holds },
  ground (arith, owns-append xs ((fresh, j) ∷ []) a),
  Chain-snoc m m' fresh j b k xs c new (ground arith) e,
)
  where
    far : a ≢ last b xs
    far = ne_of_owns ((b, k) ∷ xs) a (last b xs) apart (owns-last b k xs)

-- `queuePush` with memory at a fresh address.
pub queue_push-append :
    (fresh : Ptr) (i : Item) (m : Memory) (q : Queue) (xs : Cells)
    → IsQueue m q xs
    → fresh ≢ null
    → m.cells fresh ≡ none
    → (m' : Memory) × (q' : Queue) × (queue_push fresh q i m ≡ ok (pos 1, q') m')
      × IsQueue m' q' (xs ++ (fresh, i) ∷ [])
      × SameOutside ((fresh, i) ∷ xs) m m'
      × (m'.closed ≡ m.closed)
unfolding queue_push
queue_push-append fresh i m q [] is ne free = (
  record m { cells = set_cell m.cells fresh (some (node i null)) },
  record { head = fresh; tail = fresh; size = pos 1 },
  ground (arith, is.head_first, is.size_length, +ℤ-pos 0 1),
  record {
    chain = (record { ne_null = ne; holds = ground arith }, refl, tt);
    head_first = refl;
    tail_last = refl;
    size_length = refl;
  },
  (λ a out. ground arith),
  refl,
)
queue_push-append fresh i m q ((a, j) ∷ xs) is ne free = (
  record m { cells = set_cell with_node q.tail (some (node (last_item j xs) fresh)) },
  record q { tail = fresh; size = pos (length xs + 2) },
  rw (some_memory, not_empty, set_next-ok end fresh, grow),
  record {
    chain =
        Chain-snoc grown _ fresh i a j xs kept (record { ne_null = ne; holds = ground arith }) out
          (rw is.tail_last (λ x. refl));
    head_first = is.head_first;
    tail_last = sym (last-snoc a xs);
    size_length = ap pos (omega (arith, length-append xs ((fresh, i) ∷ [])));
  },
  (λ x apart.
      set_cell-ne with_node _ _ x (far x (ground arith))
      ∙ set_cell-ne m.cells fresh _ x (ground arith)),
  refl,
)
  where
    some_memory : (fresh == null) ≡ false
    some_memory = ground arith

    not_empty : (q.head == null) ≡ false
    not_empty = rw is.head_first (not_null is.chain.0)

    grow : q.size +ℤ pos 1 ≡ pos (length xs + 2)
    grow = rw (is.size_length, +ℤ-pos) (ap pos (omega arith))

    with_node : Ptr → Option Node
    with_node = set_cell m.cells fresh (some (node i null))

    grown : Memory
    grown = record m { cells = with_node }

    out : owns ((a, j) ∷ xs) fresh ≡ false
    out = not-owns_of_none m fresh ((a, j) ∷ xs) is.chain free

    kept : Chain grown ((a, j) ∷ xs)
    kept = frame m grown ((a, j) ∷ xs) is.chain λ x mine.
        set_cell-ne m.cells fresh _ x λ e. ne_of_owns ((a, j) ∷ xs) fresh x out mine (sym e)

    end : At grown q.tail (node (last_item j xs) null)
    end = rw is.tail_last (At-last grown a j xs kept)

    far : (x : Ptr) → owns ((a, j) ∷ xs) x ≡ false → x ≢ q.tail
    far x apart = rw is.tail_last (ne_of_owns ((a, j) ∷ xs) x (last a xs) apart (owns-last a j xs))

    last-snoc : (b : Ptr) (ys : Cells) → last b (ys ++ (fresh, i) ∷ []) ≡ fresh
    last-snoc b [] = refl
    last-snoc b ((c, k) ∷ ys) = last-snoc c ys

-- Without memory it reports -1 and changes nothing.
pub queue_push-null :
    (i : Item) (m : Memory) (q : Queue) → queue_push null q i m ≡ ok (minus_one, q) m
unfolding queue_push
queue_push-null i m q = refl
