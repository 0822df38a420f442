-- ===== src/Malloc/BestFit/BlockList/Chain.antt =====
-- Doubly linked lists in the memory of hw4/malloc_3.cpp, and what a change of memory keeps of them.
use operations_systems.Base.{
  ℕ, ◌+◌, ◌≤◌, ◌<◌, ◌≡◌, ◌≢◌, sym, ap, ◌∙◌, ◌⊎◌, inl, inr, List, [], ◌∷◌, arith, All,
}
use operations_systems.Malloc.Words.{Ptr, null}
use operations_systems.Malloc.BestFit.Memory.{Memory, next_at, prev_at}

-- Two structs that share no cell.
abbrev pub Apart : Ptr → Ptr → Type 0
Apart p q = (p + 32 ≤ q) ⊎ (q + 32 ≤ p)

abbrev pub Spread : List Ptr → Type 0
Spread [] = Unit
Spread (x ∷ xs) = All (Apart x) xs × Spread xs

-- `p` points to `x`, whose `prev` is `back`.
pub record Node (m : Memory) (back p x : Ptr) : Type 0 where
  pub here : p ≡ x
  pub not_null : 0 < x
  pub prev_back : prev_at m x ≡ back

abbrev pub node :
    {m : Memory} {back p x : Ptr} → p ≡ x → 0 < x → prev_at m x ≡ back → Node m back p x
node e l b = record { here = e; not_null = l; prev_back = b }

-- The list from `p` on, behind `back`.
abbrev pub Chain : Memory → (back p : Ptr) → List Ptr → Type 0
Chain m back p [] = p ≡ null
Chain m back p (x ∷ xs) = Node m back p x × Chain m x (next_at m x) xs

-- Not a cell for the links of `x`.
abbrev pub NoLink : ℕ → Ptr → Type 0
NoLink a x = (a ≢ x + 16) × (a ≢ x + 24)

-- The memories differ at most in the links of `xs`.
abbrev pub SameBut : List Ptr → Memory → Memory → Type 0
SameBut xs m m' = (a : ℕ) → All (NoLink a) xs → m' a ≡ m a

-- The links of `x` are the same.
abbrev pub SameLinks : Memory → Memory → Ptr → Type 0
SameLinks m m' x = (next_at m' x ≡ next_at m x) × (prev_at m' x ≡ prev_at m x)

pub Chain-same :
    (m m' : Memory) (back p : Ptr) (xs : List Ptr)
    → All (SameLinks m m') xs
    → Chain m back p xs
    → Chain m' back p xs
Chain-same m m' back p [] s c = c
Chain-same m m' back p (x ∷ xs) ((en, ep), s) (n, c) = (
  record { here = n.here; not_null = n.not_null; prev_back = ep ∙ n.prev_back },
  Chain-same m m' x (next_at m' x) xs s (rw en c),
)

-- A struct apart from `xs` shares no cell with their links.
pub NoLink-Apart :
    (q : Ptr) (i : ℕ) (xs : List Ptr) → i < 32 → All (Apart q) xs → All (NoLink (q + i)) xs
NoLink-Apart q i [] l a = tt
NoLink-Apart q i (x ∷ xs) l (a, rest) =
    ((λ e. absurd (omega arith), λ e. absurd (omega arith)), NoLink-Apart q i xs l rest)

pub Apart-sym : (p q : Ptr) → Apart p q → Apart q p
Apart-sym p q (inl l) = inr l
Apart-sym p q (inr l) = inl l

untouched_nil : (xs : List Ptr) → All (λ x. All (Apart x) []) xs
untouched_nil [] = tt
untouched_nil (x ∷ xs) = (tt, untouched_nil xs)

untouched_cons :
    (y : Ptr) (ys xs : List Ptr)
    → All (Apart y) xs
    → All (λ x. All (Apart x) ys) xs
    → All (λ x. All (Apart x) (y ∷ ys)) xs
untouched_cons y ys [] a r = tt
untouched_cons y ys (x ∷ xs) (a, s) (b, r) = ((Apart-sym y x a, b), untouched_cons y ys xs s r)

untouched : (ys xs : List Ptr) → All (λ y. All (Apart y) xs) ys → All (λ x. All (Apart x) ys) xs
untouched [] xs a = untouched_nil xs
untouched (y ∷ ys) xs (a, r) = untouched_cons y ys xs a (untouched ys xs r)

-- Structs apart from the changed ones keep their links.
SameLinks-Apart :
    (m m' : Memory) (ys xs : List Ptr)
    → SameBut ys m m'
    → All (λ x. All (Apart x) ys) xs
    → All (SameLinks m m') xs
SameLinks-Apart m m' ys [] s a = tt
SameLinks-Apart m m' ys (x ∷ xs) s (a, rest) = (
  (
    s (x + 16) (NoLink-Apart x 16 ys (omega arith) a),
    s (x + 24) (NoLink-Apart x 24 ys (omega arith) a),
  ),
  SameLinks-Apart m m' ys xs s rest,
)

-- A chain of structs apart from the changed ones stays.
pub Chain-frame :
    (m m' : Memory) (ys : List Ptr) (back p : Ptr) (xs : List Ptr)
    → SameBut ys m m'
    → All (λ y. All (Apart y) xs) ys
    → Chain m back p xs
    → Chain m' back p xs
Chain-frame m m' ys back p xs s a =
    Chain-same m m' back p xs (SameLinks-Apart m m' ys xs s (untouched ys xs a))

-- The first 16 bytes of a struct are no links, neither its own nor those of a struct apart.
NoLink-cons :
    (y : Ptr) (i : ℕ) (ys xs : List Ptr)
    → i < 16
    → All (Apart y) xs
    → All (λ x. All (NoLink (x + i)) ys) xs
    → All (λ x. All (NoLink (x + i)) (y ∷ ys)) xs
NoLink-cons y i ys [] l a n = tt
NoLink-cons y i ys (x ∷ xs) l (a, r) (nx, ns) =
    (((λ e. absurd (omega arith), λ e. absurd (omega arith)), nx), NoLink-cons y i ys xs l r ns)

pub Spread-NoLink :
    (i : ℕ) (ys : List Ptr) → i < 16 → Spread ys → All (λ x. All (NoLink (x + i)) ys) ys
Spread-NoLink i [] l s = tt
Spread-NoLink i (y ∷ ys) l (a, s) = (
  ((λ e. absurd (omega arith), λ e. absurd (omega arith)), NoLink-Apart y i ys (omega arith) a),
  NoLink-cons y i ys ys l a (Spread-NoLink i ys l s),
)

-- A change of links keeps every size.
pub SameBut-sizes :
    (m m' : Memory) (ys xs : List Ptr)
    → SameBut ys m m'
    → All (λ x. All (NoLink (x + 0)) ys) xs
    → All (λ x. m' x ≡ m x) xs
SameBut-sizes m m' ys [] s n = tt
SameBut-sizes m m' ys (x ∷ xs) s (nx, n) =
    (sym (ap m' x_0) ∙ s (x + 0) nx ∙ ap m x_0, SameBut-sizes m m' ys xs s n)
  where
    x_0 : x + 0 ≡ x
    x_0 = omega arith
