-- ===== src/Malloc/BestFit/BlockList/Remove.antt =====
-- `removeMetadata` of hw4/malloc_3.cpp.
use operations_systems.Base.{
  ℕ, suc, ◌≤◌, ◌≡◌, refl, ap, ◌∙◌, inl, inr, true, false, Bool-cases, List, [], ◌∷◌, arith, length,
  ◌==◌,
}
use operations_systems.Base.Int.{pos, ◌-ℤ◌, -ℤ-pos}
use operations_systems.Malloc.Words.{Ptr, null}
use operations_systems.Malloc.BestFit.Memory.{Memory, set_prev, next_at, Heap, done}
use operations_systems.Malloc.BestFit.BlockList.{unlink, remove_from, remove_metadata}
use operations_systems.Malloc.BestFit.BlockList.Chain.{
  node, Chain, SameBut, SameBut-sizes, Spread-NoLink, Chain-frame,
}
use operations_systems.Malloc.BestFit.BlockList.Order.{
  IsLinked, IsList, first, relinked, Ascending-same,
}
use operations_systems.Malloc.BestFit.BlockList.Links.{ne_null}
use operations_systems.Malloc.BestFit.BlockList.Erase.{
  has, erase, erase-All, erase-Spread, erase-Ascending, length-erase,
}
use operations_systems.Malloc.BestFit.BlockList.Unlink.{remove_loop_lem, unlink_behind}

module _ (fuel : ℕ) (h : Heap) (q : Ptr) where
  abbrev Removed : List Ptr → Type 0
  Removed xs =
      (m' : Memory) × (remove_metadata fuel h q ≡ done (relinked h m' (erase q xs)))
      × Chain m' null (first (erase q xs)) (erase q xs)
      × SameBut xs h.memory m'

  counted :
      (xs ys : List Ptr)
      → h.size ≡ pos (length xs)
      → suc (length ys) ≡ length xs
      → h.size -ℤ pos 1 ≡ pos (length ys)
  counted xs ys e l = rw e (-ℤ-pos (length xs) 1 (omega (arith, l)) ∙ ap pos (omega (arith, l)))

  remove_head : (x : Ptr) (xs : List Ptr) → IsLinked h (x ∷ xs) → (x == q) ≡ true → Removed (x ∷ xs)
  unfolding remove_metadata
  remove_head x [] is e =
      let (n, z) = is.chain in
      (
        h.memory,
        rw (n.here, ne_null x n.not_null, e, z, counted (x ∷ []) [] is.size_length refl) refl,
        rw e refl,
        λ a o. refl,
      )
  remove_head x (y ∷ ys) is e =
      let (n, (ny, c)) = is.chain in
      (
        set_prev h.memory y null,
        rw
            (
              n.here,
              ne_null x n.not_null,
              e,
              ny.here,
              ne_null y ny.not_null,
              counted (x ∷ (y ∷ ys)) (y ∷ ys) is.size_length refl,
            )
            refl,
        rw e (node refl ny.not_null (ground arith), kept),
        λ a o. ground arith,
      )
    where
      next_same : next_at (set_prev h.memory y null) y ≡ next_at h.memory y
      next_same = ground arith

      kept : Chain (set_prev h.memory y null) y (next_at (set_prev h.memory y null) y) ys
      kept = rw next_same (
          Chain-frame h.memory (set_prev h.memory y null) (y ∷ []) y (next_at h.memory y) ys
            (λ a o. ground arith) (is.spread.1.0, tt) is.chain.1.1)

  remove_later :
      (x : Ptr) (xs : List Ptr)
      → IsLinked h (x ∷ xs)
      → has q xs ≡ true
      → length xs ≤ fuel
      → (x == q) ≡ false
      → Removed (x ∷ xs)
  unfolding remove_metadata remove_from
  remove_later x xs is i l e =
      let n = is.chain.0 in
      let (c, same) =
        unlink_behind q h.memory null x x xs (node refl n.not_null n.prev_back, is.chain.1)
          is.spread i in
      (
        unlink h.memory q,
        rw
            (
              n.here,
              ne_null x n.not_null,
              e,
              remove_loop_lem q fuel h.memory x (next_at h.memory x) xs is.chain.1 i l,
              counted (x ∷ xs) (x ∷ erase q xs) is.size_length (ap suc (length-erase q xs i)),
            )
            refl,
        rw e c,
        same,
      )

  remove_any : (xs : List Ptr) → IsLinked h xs → has q xs ≡ true → length xs ≤ fuel → Removed xs
  remove_any [] is i l = ground arith
  remove_any (x ∷ xs) is i l = elim (Bool-cases (x == q)) [
    | inl e ↦ remove_head x xs is e
    | inr e ↦ remove_later x xs is (ground arith) (omega arith) e
  ]

  -- On a list in any order.
  pub remove_metadata-IsLinked :
      (xs : List Ptr)
      → IsLinked h xs
      → has q xs ≡ true
      → length xs ≤ fuel
      → (m' : Memory) × (remove_metadata fuel h q ≡ done (relinked h m' (erase q xs)))
        × IsLinked (relinked h m' (erase q xs)) (erase q xs)
        × SameBut xs h.memory m'
  remove_metadata-IsLinked xs is i l =
      let (m', run, chain, same) = remove_any xs is i l in
      (
        m',
        run,
        record { chain = chain; spread = erase-Spread q xs is.spread; size_length = refl },
        same,
      )

  -- On a list of blocks, `removeMetadata` of one of them ends within fuel for every block, writes only
  -- links, and leaves the other blocks in their order, well linked, sorted and counted.
  pub remove_metadata-erase :
      (xs : List Ptr)
      → IsList h xs
      → has q xs ≡ true
      → length xs ≤ fuel
      → (m' : Memory) × (remove_metadata fuel h q ≡ done (relinked h m' (erase q xs)))
        × IsList (relinked h m' (erase q xs)) (erase q xs)
        × SameBut xs h.memory m'
  remove_metadata-erase xs is i l =
      let (m', run, linked, same) = remove_metadata-IsLinked xs is.linked i l in
      let sizes =
        SameBut-sizes h.memory m' xs xs same (Spread-NoLink 0 xs (omega arith) is.linked.spread) in
      (
        m',
        run,
        record {
          linked = linked;
          ascending =
              Ascending-same h.memory m' (erase q xs)
                (erase-All q (λ x. m' x ≡ h.memory x) xs sizes)
                (erase-Ascending q h.memory xs is.ascending);
        },
        same,
      )
