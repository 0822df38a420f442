-- ===== src/Malloc/BestFit/BlockList/Insert.antt =====
-- `addMetadata` of hw4/malloc_3.cpp against an ordered insertion.
use operations_systems.Base.{
  ℕ, zero, suc, ◌+◌, ◌<◌, ◌≡◌, ◌≢◌, refl, ◌∙◌, inl, inr, true, false, Bool-cases, List, [], ◌∷◌,
  arith, All, length, if◌then◌else◌,
}
use operations_systems.Malloc.Words.{Ptr, null}
use operations_systems.Malloc.BestFit.Memory.{Memory, next_at, done}
use operations_systems.Malloc.BestFit.BlockList.{before, add_loop, link_last, link_behind}
use operations_systems.Malloc.BestFit.BlockList.Links.{
  Spliced, ne_null, le_of_before, link_behind-Spliced, link_last_lem, goes_on_lem,
}
use operations_systems.Malloc.BestFit.BlockList.Chain.{
  Apart, Spread, node, Chain, SameBut, NoLink-Apart, Chain-frame, Apart-sym,
}

-- In front of the first block that `q` comes before.
abbrev pub insert : Memory → (q : Ptr) → List Ptr → List Ptr
insert m q [] = q ∷ []
insert m q (x ∷ xs) = if before m q x then q ∷ (x ∷ xs) else x ∷ insert m q xs

-- `q` goes in behind `p`.
module _ (m : Memory) (head q : Ptr) (not_null : 0 < q) where
  abbrev AddedBehind : (k : ℕ) (back p : Ptr) (xs : List Ptr) → Type 0
  AddedBehind k back p xs =
      (m' : Memory) × (add_loop k m head q p ≡ done (m', true))
      × Chain m' back p (p ∷ insert m q xs)
      × SameBut (q ∷ p ∷ xs) m m'

  found_slot :
      (k : ℕ) (back p x : Ptr) (xs : List Ptr)
      → Chain m back p (p ∷ (x ∷ xs))
      → Spread (p ∷ (x ∷ xs))
      → All (Apart q) (p ∷ (x ∷ xs))
      → before m q x ≡ true
      → AddedBehind (suc k) back p (x ∷ xs)
  unfolding add_loop
  found_slot k back p x xs (n, (nx, c)) ((px, ps), (xxs, s)) (qp, (qx, qs)) e = (
    link_behind m p q,
    rw (ne_null p n.not_null, nx.here, ne_null x nx.not_null, e, le_of_before m q x e) refl,
    rw e (
      node refl n.not_null (spliced.prev_p ∙ n.prev_back),
      (
        node spliced.next_p not_null spliced.prev_q,
        (node spliced.next_q nx.not_null spliced.prev_x, rw spliced.next_x kept),
      ),
    ),
    λ a (o0, (o1, (o2, _))). spliced.same a (o0, (o1, (o2, tt))),
  )
    where
      spliced : Spliced m (link_behind m p q) p q x
      spliced = link_behind-Spliced m p q x (Apart-sym q p qp) px qx nx.here

      kept : Chain (link_behind m p q) x (next_at m x) xs
      kept =
          Chain-frame m (link_behind m p q) (q ∷ (p ∷ (x ∷ []))) x (next_at m x) xs spliced.same
            (qs, (ps, (xxs, tt))) c

  later_slot :
      (k : ℕ) (back p x : Ptr) (xs : List Ptr)
      → Chain m back p (p ∷ (x ∷ xs))
      → Spread (p ∷ (x ∷ xs))
      → All (Apart q) (p ∷ (x ∷ xs))
      → next_at m head ≢ null
      → before m q x ≡ false
      → AddedBehind k p x xs
      → AddedBehind (suc k) back p (x ∷ xs)
  unfolding add_loop
  later_slot k back p x xs (n, (nx, c)) ((px, ps), s) (qp, (qx, qs)) two e
        (m', run, (nx', c'), same) =
      (
        m',
        rw (ne_null p n.not_null, nx.here, ne_null x nx.not_null)
            (goes_on_lem m p q x (Apart-sym q p qp) px qx head _ _ _ two e ∙ run),
        rw e (
          node refl n.not_null (link 24 (omega arith) ∙ n.prev_back),
          (node (link 16 (omega arith) ∙ nx.here) nx'.not_null nx'.prev_back, c'),
        ),
        λ a (oq, (_, o)). same a (oq, o),
      )
    where
      link : (i : ℕ) → i < 32 → m' (p + i) ≡ m (p + i)
      link i l = same (p + i) (NoLink-Apart p i (q ∷ x ∷ xs) l (Apart-sym q p qp, (px, ps)))

  -- The head is not the last block where `xs` are behind it.
  abbrev pub NotLast : List Ptr → Type 0
  NotLast [] = Unit
  NotLast (x ∷ xs) = next_at m head ≢ null

  weaken : (xs : List Ptr) → next_at m head ≢ null → NotLast xs
  weaken [] two = tt
  weaken (x ∷ xs) two = two

  pub add_loop-insert :
      (k : ℕ) (back p : Ptr) (xs : List Ptr)
      → Chain m back p (p ∷ xs)
      → Spread (p ∷ xs)
      → All (Apart q) (p ∷ xs)
      → length xs < k
      → NotLast xs
      → AddedBehind k back p xs
  unfolding add_loop
  add_loop-insert zero back p xs c s a l two = absurd (omega arith)
  add_loop-insert (suc k) back p [] (n, c) s (qp, _) l two =
      let (next_p, prev_p, next_q, prev_q, same) = link_last_lem m p q (Apart-sym q p qp) in
      (
        link_last m p q,
        rw (ne_null p n.not_null, c) refl,
        (node refl n.not_null (prev_p ∙ n.prev_back), (node next_p not_null prev_q, next_q)),
        same,
      )
  add_loop-insert (suc k) back p (x ∷ xs) c s a l two = elim (Bool-cases (before m q x)) [
    | inl e ↦ found_slot k back p x xs c s a e
    | inr e ↦ later_slot k back p x xs c s a two e (
        add_loop-insert k p x xs (node refl c.1.0.not_null c.1.0.prev_back, c.1.1) s.1 a.1
          (omega arith) (weaken xs two))
  ]
