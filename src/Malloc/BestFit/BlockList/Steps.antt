-- ===== src/Malloc/BestFit/BlockList/Steps.antt =====
-- Removals and insertions in a row, and what they keep of sizes and flags.
use operations_systems.Base.{
  ℕ, ◌+◌, ◌≤◌, ◌<◌, ◌≡◌, refl, sym, ap, ◌∙◌, true, List, [], ◌∷◌, arith, All, length,
}
use mathlib.Core.List.{Permᴰ}
use operations_systems.Malloc.Words.{Ptr}
use operations_systems.Malloc.BestFit.Memory.{Memory, Heap, done}
use operations_systems.Malloc.BestFit.BlockList.{add_metadata, remove_metadata}
use operations_systems.Malloc.BestFit.BlockList.Chain.{
  Apart, NoLink, SameBut, Spread, Spread-NoLink,
}
use operations_systems.Malloc.BestFit.BlockList.Order.{IsLinked, IsList, relinked}
use operations_systems.Malloc.BestFit.BlockList.Insert.{insert}
use operations_systems.Malloc.BestFit.BlockList.Add.{add_metadata-insert}
use operations_systems.Malloc.BestFit.BlockList.Erase.{has, erase}
use operations_systems.Malloc.BestFit.BlockList.Remove.{remove_metadata-IsLinked}
use operations_systems.Malloc.BestFit.BlockList.Members.{
  insert-perm, erase-perm, has-perm, All-members,
}

-- The structs `ts` keep their size and flag.
abbrev pub SameTag : Memory → Memory → Ptr → Type 0
SameTag m m' t = (m' t ≡ m t) × (m' (t + 8) ≡ m (t + 8))

abbrev pub SameTags : Memory → Memory → List Ptr → Type 0
SameTags m m' ts = All (SameTag m m') ts

abbrev pub Within : List Ptr → List Ptr → Type 0
Within ts xs = All (λ x. has x ts ≡ true) xs

pub SameTags-trans :
    (m m' m'' : Memory) (ts : List Ptr) → SameTags m m' ts → SameTags m' m'' ts → SameTags m m'' ts
SameTags-trans m m' m'' [] s r = tt
SameTags-trans m m' m'' (t ∷ ts) ((a, b), s) ((c, d), r) =
    ((c ∙ a, d ∙ b), SameTags-trans m m' m'' ts s r)

module _ (ts : List Ptr) (spread : Spread ts) where
  no_link :
      (xs ys : List Ptr) (i : ℕ)
      → Within ts xs
      → All (λ t. All (NoLink (t + i)) ts) ys
      → All (λ t. All (NoLink (t + i)) xs) ys
  no_link xs [] i w n = tt
  no_link xs (y ∷ ys) i w (n, r) = (All-members (NoLink (y + i)) xs ts n w, no_link xs ys i w r)

  same_cells :
      (m m' : Memory) (xs ys : List Ptr)
      → SameBut xs m m'
      → All (λ t. All (NoLink (t + 0)) xs) ys
      → All (λ t. All (NoLink (t + 8)) xs) ys
      → SameTags m m' ys
  same_cells m m' xs [] s n r = tt
  same_cells m m' xs (y ∷ ys) s (n, ns) (r, rs) =
      ((sym (ap m' y_0) ∙ s (y + 0) n ∙ ap m y_0, s (y + 8) r), same_cells m m' xs ys s ns rs)
    where
      y_0 : y + 0 ≡ y
      y_0 = omega arith

  pub SameTags-links :
      (m m' : Memory) (xs : List Ptr) → SameBut xs m m' → Within ts xs → SameTags m m' ts
  SameTags-links m m' xs s w =
      same_cells m m' xs ts s (no_link xs ts 0 w (Spread-NoLink 0 ts (omega arith) spread))
        (no_link xs ts 8 w (Spread-NoLink 8 ts (omega arith) spread))

  pub remove_step :
      (fuel : ℕ) (h : Heap) (q : Ptr) (xs rest : List Ptr)
      → IsLinked h xs
      → Permᴰ xs (q ∷ rest)
      → Within ts xs
      → length xs ≤ fuel
      → (m' : Memory) × (remove_metadata fuel h q ≡ done (relinked h m' (erase q xs)))
        × IsLinked (relinked h m' (erase q xs)) (erase q xs)
        × Permᴰ (erase q xs) rest
        × SameTags h.memory m' ts
  remove_step fuel h q xs rest is p w l =
      let (m', run, linked, same) =
        remove_metadata-IsLinked fuel h q xs is (has-perm q p ∙ ground arith) l in
      (m', run, linked, rw (sym erased) (erase-perm q p), SameTags-links h.memory m' xs same w)
    where
      erased : erase q (q ∷ rest) ≡ rest
      erased = ground arith

  pub add_step :
      (fuel : ℕ) (h : Heap) (q : Ptr) (xs rest : List Ptr)
      → IsList h xs
      → Permᴰ xs rest
      → All (Apart q) xs
      → 0 < q
      → Within ts (q ∷ xs)
      → length xs ≤ fuel
      → (m' : Memory) × (ys : List Ptr) × (add_metadata fuel h q ≡ done (relinked h m' ys))
        × IsList (relinked h m' ys) ys
        × Permᴰ ys (q ∷ rest)
        × SameTags h.memory m' ts
  add_step fuel h q xs rest is p a l w f =
      let (m', run, listed, same) = add_metadata-insert fuel h q l xs is a f in
      (
        m',
        insert h.memory q xs,
        run,
        listed,
        Permᴰ.trans (insert-perm h.memory q xs) (Permᴰ.cons refl p),
        SameTags-links h.memory m' (q ∷ xs) same w,
      )
