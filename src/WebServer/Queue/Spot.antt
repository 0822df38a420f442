-- ===== src/WebServer/Queue/Spot.antt =====
-- Where the loop of `queueRemoveByIndex` leads, of hw3/webserver-files/queue.c.
use operations_systems.Base.{
  ℕ, zero, suc, ◌<◌, ◌≡◌, refl, sym, ◌∙◌, ◌≢◌, true, false, Option, none, some, [], ◌∷◌, arith,
  ◌==◌, if◌then◌else◌, length, get_elem?, erase_idx,
}
use operations_systems.WebServer.NodeHeap.{
  Ptr, null, Item, Node, node, Memory, ok, set_cell, set_cell-ne, set_cell_self, At, not_null,
  load-ok,
}
use operations_systems.WebServer.Queue.{walk}
use operations_systems.WebServer.Queue.Chain.{
  Cells, first, last, owns, Chain, frame, ne_of_owns, not-owns-cons,
}

owns-erase_idx :
    (xs : Cells) (k : ℕ) (a : Ptr) → owns xs a ≡ false → owns (erase_idx xs k) a ≡ false
owns-erase_idx [] k a out = refl
owns-erase_idx (x ∷ xs) zero a out = ground arith
owns-erase_idx ((b, i) ∷ xs) (suc k) a out = ground (arith, owns-erase_idx xs k a)

-- The memory after `it->next = tmp->next` and `free(tmp)`.
abbrev pub unlinked : (Ptr → Option Node) → Ptr → Node → Ptr → Ptr → Option Node
unlinked cells at n victim = set_cell (set_cell cells at (some n)) victim none

-- Where `k` rounds of the walk lead, and what unlinking the next node leaves.
pub record Spot (m : Memory) (p : Ptr) (xs : Cells) (k : ℕ) : Type 0 where
  pub spot : Ptr
  pub victim : Ptr
  pub next : Ptr
  pub item : Item
  pub gone : Item
  pub walked : walk k p m ≡ ok spot m
  pub before : At m spot (node item victim)
  pub taken : At m victim (node gone next)
  pub is_elem : get_elem? xs (suc k) ≡ some (victim, gone)
  pub mine : (owns xs spot ≡ true) × (owns xs victim ≡ true)
  pub apart : spot ≢ victim
  pub starts : first (erase_idx xs (suc k)) ≡ first xs
  pub ends : (d : Ptr) → (if next == null then spot else last d xs) ≡ last d (erase_idx xs (suc k))
  pub relinked :
      (m' : Memory)
      → ((x : Ptr) → m'.cells x ≡ unlinked m.cells spot (node item next) victim x)
      → Chain m' (erase_idx xs (suc k))

module _ (m : Memory) where
  Spot-zero :
      (a b : Ptr) (i j : Item) (xs : Cells)
      → Chain m ((a, i) ∷ (b, j) ∷ xs)
      → Spot m a ((a, i) ∷ (b, j) ∷ xs) zero
  unfolding walk
  Spot-zero a b i j xs (at, out, (at', out', c)) = record {
    spot = a;
    victim = b;
    next = first xs;
    item = i;
    gone = j;
    walked = refl;
    before = at;
    taken = at';
    is_elem = refl;
    mine = (ground arith, ground arith);
    apart = ne;
    starts = refl;
    ends = λ d. ends xs c;
    relinked = λ m' e. (
      record {
        ne_null = at.ne_null;
        holds = e a ∙ set_cell-ne (set_cell m.cells a _) b none a ne ∙ set_cell_self m.cells a _;
      },
      (not-owns-cons b j xs a out).1,
      frame m m' xs c λ x own.
          e x
          ∙ set_cell-ne (set_cell m.cells a _) b none x (λ q. ne_of_owns xs b x out' own (sym q))
          ∙ set_cell-ne m.cells a _ x
              (λ q. ne_of_owns xs a x (not-owns-cons b j xs a out).1 own (sym q)),
    );
  }
    where
      ne : a ≢ b
      ne = (not-owns-cons b j xs a out).0

      ends : (ys : Cells) → Chain m ys → (if first ys == null then a else last b ys) ≡ last a ys
      ends [] c = refl
      ends ((x, k) ∷ ys) c = rw (not_null c.0)

  Spot-suc :
      (a b : Ptr) (i j : Item) (xs : Cells) (k : ℕ)
      → Chain m ((a, i) ∷ (b, j) ∷ xs)
      → Spot m b ((b, j) ∷ xs) k
      → Spot m a ((a, i) ∷ (b, j) ∷ xs) (suc k)
  unfolding walk
  Spot-suc a b i j xs k (at, out, c) s = record {
    spot = s.spot;
    victim = s.victim;
    next = s.next;
    item = s.item;
    gone = s.gone;
    walked = rw (load-ok at) s.walked;
    before = s.before;
    taken = s.taken;
    is_elem = s.is_elem;
    mine = (ground (arith, s.mine.0), ground (arith, s.mine.1));
    apart = s.apart;
    starts = refl;
    ends = λ d. s.ends a;
    relinked = λ m' e. (
      record {
        ne_null = at.ne_null;
        holds =
            e a
            ∙ set_cell-ne (set_cell m.cells s.spot _) s.victim none a
                (ne_of_owns ((b, j) ∷ xs) a s.victim out s.mine.1)
            ∙ set_cell-ne m.cells s.spot _ a (ne_of_owns ((b, j) ∷ xs) a s.spot out s.mine.0)
            ∙ at.holds;
      },
      owns-erase_idx ((b, j) ∷ xs) (suc k) a out,
      s.relinked m' e,
    );
  }

  pub Spot-at :
      (k : ℕ) (a : Ptr) (i : Item) (xs : Cells)
      → Chain m ((a, i) ∷ xs)
      → k < length xs
      → Spot m a ((a, i) ∷ xs) k
  Spot-at k a i [] c h = elim h [ ]
  Spot-at zero a i ((b, j) ∷ xs) c h = Spot-zero a b i j xs c
  Spot-at (suc k) a i ((b, j) ∷ xs) c h =
      Spot-suc a b i j xs k c (Spot-at k b j xs c.2 (omega arith))
