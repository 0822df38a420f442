-- ===== src/WebServer/NodeHeap.antt =====
-- The memory that hw3/webserver-files/queue.c works on: queue nodes at addresses, and the
-- descriptors that it has closed. `struct timeval` is a pair of numbers.
use operations_systems.Base.{
  ℕ, ◌≡◌, refl, ◌≢◌, false, Option, none, some, List, [], ◌∷◌, ◌++◌, arith, ◌==◌, if◌then◌else◌,
}
use operations_systems.Base.Int.{ℤ}

abbrev pub Ptr : Type 0
Ptr = ℕ

abbrev pub null : Ptr
null = 0

pub record Timeval : Type 0 where
  pub tv_sec : ℕ
  pub tv_usec : ℕ

-- What a node carries, and a node.
pub record Item : Type 0 where
  pub fd : ℤ
  pub arrival : Timeval

pub record Node : Type 0 where
  pub item : Item
  pub next : Ptr

abbrev pub node : Item → Ptr → Node
node i q = record { item = i; next = q }

-- `closed` logs the calls of `Close`, newest last.
pub record Memory : Type 0 where
  pub cells : Ptr → Option Node
  pub closed : List ℤ

-- `fault` is a read or write through NULL or a freed address, or a division by zero.
pub data Run (A : Type 0) : Type 0 where
  ok : A → Memory → Run A
  fault : Run A
  out_of_fuel : Run A

abbrev pub Cmd : Type 0 → Type 0
Cmd A = Memory → Run A

abbrev pub pure : {A : Type 0} → A → Cmd A
pure = ok

-- How a run goes on.
abbrev pub resume : {A B : Type 0} → Run A → (A → Cmd B) → Run B
resume (ok a m) k = k a m
resume fault k = fault
resume out_of_fuel k = out_of_fuel

infixl 5 ◌>>=◌ ◌>>◌
abbrev pub ◌>>=◌ : {A B : Type 0} → Cmd A → (A → Cmd B) → Cmd B
c >>= k = λ m. resume (c m) k

abbrev pub ◌>>◌ : {B : Type 0} → Cmd (Unit {0}) → Cmd B → Cmd B
m >> k = m >>= λ _. k

abbrev pub set_cell : (Ptr → Option Node) → Ptr → Option Node → Ptr → Option Node
set_cell cells p c a = if a == p then c else cells a

pub set_cell-ne :
    (cells : Ptr → Option Node) (p : Ptr) (c : Option Node) (a : Ptr)
    → a ≢ p
    → set_cell cells p c a ≡ cells a
set_cell-ne cells p c a ne = ground arith

pub set_cell_self :
    (cells : Ptr → Option Node) (p : Ptr) (c : Option Node) → set_cell cells p c p ≡ c
set_cell_self cells p c = ground arith

abbrev pub put : Ptr → Option Node → Cmd (Unit {0})
put p c m = ok tt (record m { cells = set_cell m.cells p c })

unfoldable pub load : Ptr → Cmd Node
load p m = if p == null then fault else elim (m.cells p) [ none ↦ fault | some n ↦ ok n m ]

unfoldable pub set_next : Ptr → Ptr → Cmd (Unit {0})
set_next p q = do n ← load p; put p (some (node n.item q))

unfoldable pub free : Ptr → Cmd (Unit {0})
free p = do _ ← load p; put p none

unfoldable pub close : ℤ → Cmd (Unit {0})
close fd m = ok tt (record m { closed = m.closed ++ fd ∷ [] })

-- Address `p` holds the node `n`.
pub record At (m : Memory) (p : Ptr) (n : Node) : Type 0 where
  pub ne_null : p ≢ null
  pub holds : m.cells p ≡ some n

-- One rule for each command at such an address.
module _ {m : Memory} {p : Ptr} {n : Node} (e : At m p n) where
  pub not_null : (p == null) ≡ false
  not_null = ground arith

  pub load-ok : load p m ≡ ok n m
  unfolding load
  load-ok = rw (not_null, e.holds)

  pub set_next-ok :
      (q : Ptr)
      → set_next p q m ≡ ok tt (record m { cells = set_cell m.cells p (some (node n.item q)) })
  unfolding set_next
  set_next-ok q = rw load-ok

  pub free-ok : free p m ≡ ok tt (record m { cells = set_cell m.cells p none })
  unfolding free
  free-ok = rw load-ok

pub load-null : (m : Memory) → load null m ≡ fault
unfolding load
load-null m = refl
