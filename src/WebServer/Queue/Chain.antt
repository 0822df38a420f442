-- ===== src/WebServer/Queue/Chain.antt =====
-- What a chain of nodes of hw3/webserver-files/queue.c stands for, and how it survives a write.
use operations_systems.Base.{
  ◌≡◌, refl, ◌≢◌, Bool, true, false, ◌||◌, none, List, [], ◌∷◌, ◌++◌, arith, ◌==◌, length,
}
use operations_systems.Base.Int.{pos}
use operations_systems.WebServer.NodeHeap.{Ptr, null, Item, node, Memory, At}
use operations_systems.WebServer.Queue.{Queue}

-- The address and the item of each node, in order.
abbrev pub Cells : Type 0
Cells = List (Ptr × Item)

abbrev pub first : Cells → Ptr
first [] = null
first ((a, _) ∷ xs) = a

-- The last address, `d` where there is none.
abbrev pub last : Ptr → Cells → Ptr
last d [] = d
last d ((a, _) ∷ xs) = last a xs

abbrev pub owns : Cells → Ptr → Bool
owns [] a = false
owns ((b, _) ∷ xs) a = (a == b) || owns xs a

-- The nodes lead through the cells, at distinct addresses, to NULL.
abbrev pub Chain : Memory → Cells → Type 0
Chain m [] = Unit {0}
Chain m ((a, i) ∷ xs) = At m a (node i (first xs)) × (owns xs a ≡ false) × Chain m xs

-- The queue stands for the cells: head, tail and size agree with the chain.
pub record IsQueue (m : Memory) (q : Queue) (xs : Cells) : Type 0 where
  pub chain : Chain m xs
  pub head_first : q.head ≡ first xs
  pub tail_last : q.tail ≡ last null xs
  pub size_length : q.size ≡ pos (length xs)

abbrev pub items : Cells → List Item
items [] = []
items ((_, i) ∷ xs) = i ∷ items xs

-- No memory outside the cells has changed.
abbrev pub SameOutside : Cells → Memory → Memory → Type 0
SameOutside xs m m' = (a : Ptr) → owns xs a ≡ false → m'.cells a ≡ m.cells a

pub owns-append : (xs ys : Cells) (a : Ptr) → owns (xs ++ ys) a ≡ (owns xs a || owns ys a)
owns-append [] ys a = refl
owns-append (x ∷ xs) ys a = ground (arith, owns-append xs ys a)

pub items-append : (xs ys : Cells) → items (xs ++ ys) ≡ items xs ++ items ys
items-append [] ys = refl
items-append ((a, i) ∷ xs) ys = λ k. i ∷ items-append xs ys k

pub frame :
    (m m' : Memory) (xs : Cells)
    → Chain m xs
    → ((a : Ptr) → owns xs a ≡ true → m'.cells a ≡ m.cells a)
    → Chain m' xs
frame m m' [] c same = tt
frame m m' ((a, i) ∷ xs) (at, out, c) same = (
  record { ne_null = at.ne_null; holds = ground (arith, same a, at.holds) },
  out,
  frame m m' xs c λ b h. same b (ground arith),
)

pub owns-last : (a : Ptr) (i : Item) (xs : Cells) → owns ((a, i) ∷ xs) (last a xs) ≡ true
owns-last a i [] = ground arith
owns-last a i ((b, j) ∷ xs) = ground (arith, owns-last b j xs)

pub not-owns-null : (m : Memory) (xs : Cells) → Chain m xs → owns xs null ≡ false
not-owns-null m [] c = refl
not-owns-null m ((a, i) ∷ xs) (at, out, c) = ground (arith, at.ne_null, not-owns-null m xs c)

pub not-owns_of_none :
    (m : Memory) (a : Ptr) (xs : Cells) → Chain m xs → m.cells a ≡ none → owns xs a ≡ false
not-owns_of_none m a [] c e = refl
not-owns_of_none m a ((b, i) ∷ xs) (at, out, c) e =
    ground (arith, at.holds, not-owns_of_none m a xs c e)

pub ne_of_owns : (xs : Cells) (a b : Ptr) → owns xs a ≡ false → owns xs b ≡ true → a ≢ b
ne_of_owns xs a b out mine e = cc

pub not-owns-cons :
    (b : Ptr) (i : Item) (xs : Cells) (a : Ptr)
    → owns ((b, i) ∷ xs) a ≡ false
    → (a ≢ b) × (owns xs a ≡ false)
not-owns-cons b i xs a out = ground arith

pub IsQueue-frame :
    (m m' : Memory) (q : Queue) (xs : Cells)
    → IsQueue m q xs
    → ((a : Ptr) → owns xs a ≡ true → m'.cells a ≡ m.cells a)
    → IsQueue m' q xs
IsQueue-frame m m' q xs is same = record {
  chain = frame m m' xs is.chain same;
  head_first = is.head_first;
  tail_last = is.tail_last;
  size_length = is.size_length;
}
