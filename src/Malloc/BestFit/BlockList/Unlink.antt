-- ===== src/Malloc/BestFit/BlockList/Unlink.antt =====
-- The loop of `removeMetadata` of hw4/malloc_3.cpp.
use operations_systems.Base.{
  ℕ, zero, suc, ◌+◌, ◌≤◌, ◌<◌, ◌≡◌, ap, ◌∙◌, inl, inr, true, false, Bool-cases, List, [], ◌∷◌,
  arith, length, ◌==◌,
}
use mathlib.Core.Path.{subst}
use operations_systems.Malloc.Words.{Ptr, null}
use operations_systems.Malloc.BestFit.Memory.{Memory, next_at, prev_at, done}
use operations_systems.Malloc.BestFit.BlockList.{unlink, remove_loop}
use operations_systems.Malloc.BestFit.BlockList.Chain.{
  Apart, Spread, node, Chain, SameBut, NoLink-Apart, Chain-frame,
}
use operations_systems.Malloc.BestFit.BlockList.Links.{ne_null}
use operations_systems.Malloc.BestFit.BlockList.Erase.{has, erase}

module _ (q : Ptr) where
  pub remove_loop_lem :
      (k : ℕ) (m : Memory) (back p : Ptr) (xs : List Ptr)
      → Chain m back p xs
      → has q xs ≡ true
      → length xs ≤ k
      → remove_loop k m q p ≡ done (unlink m q, true)
  unfolding remove_loop
  remove_loop_lem k m back p [] c h l = ground arith
  remove_loop_lem zero m back p (x ∷ xs) c h l = absurd (omega arith)
  remove_loop_lem (suc k) m back p (x ∷ xs) (n, c) h l = elim (Bool-cases (x == q)) [
    | inl e ↦
        rw (n.here, ne_null x n.not_null, e)
          (ap (λ (y : Ptr). done (unlink m y, true)) (ground arith))
    | inr e ↦
        rw (n.here, ne_null x n.not_null, e)
          (remove_loop_lem k m x (next_at m x) xs c (ground arith) (omega arith))
  ]

  unlink_last :
      (m : Memory) (x : Ptr)
      → Apart x q
      → prev_at m q ≡ x
      → next_at m q ≡ null
      → (next_at (unlink m q) x ≡ null)
        × (prev_at (unlink m q) x ≡ prev_at m x)
        × SameBut (x ∷ (q ∷ [])) m (unlink m q)
  unlink_last m x a e n = (ground arith, ground arith, λ b o. ground arith)

  unlink_inner :
      (m : Memory) (x z : Ptr)
      → Apart x q
      → Apart x z
      → Apart q z
      → 0 < z
      → prev_at m q ≡ x
      → next_at m q ≡ z
      → (next_at (unlink m q) x ≡ z)
        × (prev_at (unlink m q) x ≡ prev_at m x)
        × (next_at (unlink m q) z ≡ next_at m z)
        × (prev_at (unlink m q) z ≡ x)
        × SameBut (x ∷ (q ∷ (z ∷ []))) m (unlink m q)
  unlink_inner m x z a b c l e n =
      (ground arith, ground arith, ground arith, ground arith, λ b o. ground arith)

  abbrev Unlinked : Memory → (back p x : Ptr) → List Ptr → Type 0
  Unlinked m back p x xs =
      Chain (unlink m q) back p (x ∷ erase q xs) × SameBut (x ∷ xs) m (unlink m q)

  -- `q` is the block behind `x`.
  unlink_next :
      (m : Memory) (back p x : Ptr) (ys : List Ptr)
      → Chain m back p (x ∷ (q ∷ ys))
      → Spread (x ∷ (q ∷ ys))
      → Chain (unlink m q) back p (x ∷ ys) × SameBut (x ∷ (q ∷ ys)) m (unlink m q)
  unlink_next m back p x [] (n, (nq, e)) ((a, _), s) =
      let (next_x, prev_x, same) = unlink_last m x a nq.prev_back e in
      ((node n.here n.not_null (prev_x ∙ n.prev_back), next_x), same)
  unlink_next m back p x (z ∷ zs) (n, (nq, (nz, c))) ((a, (b, d)), ((qz, qs), (zzs, s))) =
      let (next_x, prev_x, next_z, prev_z, same) =
        unlink_inner m x z a b qz nz.not_null nq.prev_back nz.here in
      (
        (
          node n.here n.not_null (prev_x ∙ n.prev_back),
          (
            node next_x nz.not_null prev_z,
            rw next_z (
                Chain-frame m (unlink m q) (x ∷ (q ∷ (z ∷ []))) z (next_at m z) zs same
                  (d, (qs, (zzs, tt))) c),
          ),
        ),
        λ i (o0, (o1, (o2, _))). same i (o0, (o1, (o2, tt))),
      )

  pub unlink_behind :
      (m : Memory) (back p x : Ptr) (xs : List Ptr)
      → Chain m back p (x ∷ xs)
      → Spread (x ∷ xs)
      → has q xs ≡ true
      → Unlinked m back p x xs
  unlink_behind m back p x [] c s h = ground arith
  unlink_behind m back p x (y ∷ ys) c s h = elim (Bool-cases (y == q)) [
    | inl e ↦ rw e (
        subst
          (λ y.
            Chain m back p (x ∷ (y ∷ ys))
            → Spread (x ∷ (y ∷ ys))
            → Chain (unlink m q) back p (x ∷ ys) × SameBut (x ∷ (y ∷ ys)) m (unlink m q))
          (is_q y e) (unlink_next m back p x ys) c s)
    | inr e ↦ rw e (later e (unlink_behind m x (next_at m x) y ys c.1 s.1 (ground arith)))
  ]
    where
      is_q : (y : Ptr) → (y == q) ≡ true → q ≡ y
      is_q y e = ground arith

      later :
          (y == q) ≡ false
          → Unlinked m x (next_at m x) y ys
          → Chain (unlink m q) back p (x ∷ (y ∷ erase q ys)) × SameBut (x ∷ (y ∷ ys)) m (unlink m q)
      later e ((ny, c'), same) = (
        (
          node c.0.here c.0.not_null (link 24 (omega arith) ∙ c.0.prev_back),
          (node (link 16 (omega arith) ∙ ny.here) ny.not_null ny.prev_back, c'),
        ),
        λ i (_, o). same i o,
      )
        where
          link : (i : ℕ) → i < 32 → unlink m q (x + i) ≡ m (x + i)
          link i l = same (x + i) (NoLink-Apart x i (y ∷ ys) l s.0)
