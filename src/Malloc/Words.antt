-- ===== src/Malloc/Words.antt =====
-- `size_t` and what the allocators of hw4 take from the kernel. A pointer is its address.
use operations_systems.Base.{
  ℕ, ◌+◌, ◌-◌, ◌%◌, ◌^◌, ◌≡◌, ◌≢◌, Bool, arith, ◌==◌, leb, ltb, ◌&&◌, if◌then◌else◌,
}

abbrev pub Ptr : Type 0
Ptr = ℕ

abbrev pub null : Ptr
null = 0

-- One past the largest `size_t`; `(void*)-1` is the largest.
abbrev pub word : ℕ
word = 2 ^ 64

abbrev pub failed : Ptr
failed = word - 1

-- Addition and negation of `size_t`.
abbrev pub add_word : ℕ → ℕ → ℕ
add_word a b = (a + b) % word

abbrev pub neg_word : ℕ → ℕ
neg_word a = (word - a % word) % word

-- The program break, and whether the kernel grants the call at hand: the old break, or -1.
abbrev pub sbrk : (granted : Bool) → (brk size : ℕ) → Ptr × ℕ
sbrk granted brk size = if granted then (brk, brk + size) else (failed, brk)

-- `memmove` and `memset` on bytes.
abbrev pub memmove : (ℕ → ℕ) → (to from size : ℕ) → ℕ → ℕ
memmove bytes to from size a =
    if leb to a && ltb a (to + size) then bytes (from + (a - to)) else bytes a

abbrev pub memset : (ℕ → ℕ) → (to value size : ℕ) → ℕ → ℕ
memset bytes to value size a = if leb to a && ltb a (to + size) then value else bytes a

-- Memory that holds a struct at each address: distinct addresses are distinct structs.
module _ {ℓ} {A : Type ℓ} (cells : Ptr → A) (p : Ptr) (c : A) where
  abbrev pub set_cell : Ptr → A
  set_cell a = if a == p then c else cells a

  pub set_cell_self : set_cell p ≡ c
  set_cell_self = ground arith

  pub set_cell-ne : (a : Ptr) → a ≢ p → set_cell a ≡ cells a
  set_cell-ne a ne = ground arith
