-- ===== src/Malloc/BestFit/BlockList/Add.antt =====
-- `addMetadata` of hw4/malloc_3.cpp keeps the list sorted by size and address.
use operations_systems.Base.{
  ℕ, suc, ◌≤◌, ◌<◌, ◌≡◌, refl, ap, ◌∙◌, inl, inr, true, false, Bool-cases, List, [], ◌∷◌, arith,
  All, length, leb,
}
use operations_systems.Base.Int.{pos, ◌+ℤ◌, +ℤ-pos}
use operations_systems.Malloc.Words.{Ptr, null}
use operations_systems.Malloc.BestFit.Memory.{
  Memory, set_next, set_prev, next_at, size_at, Heap, done,
}
use operations_systems.Malloc.BestFit.BlockList.{
  before, link_head, link_second, goes_on, add_loop, add_from, add_metadata,
}
use operations_systems.Malloc.BestFit.BlockList.Chain.{
  Apart, node, Chain, SameBut, SameBut-sizes, Spread-NoLink, Chain-frame, Apart-sym,
}
use operations_systems.Malloc.BestFit.BlockList.Links.{
  ne_null, le_of_before, link_head_lem, link_second_last, link_second-Spliced, second_before,
}
use operations_systems.Malloc.BestFit.BlockList.Order.{
  IsList, first, relinked, Ascending-same, length-insert, insert-Spread, insert-Ascending,
  insert-All,
}
use operations_systems.Malloc.BestFit.BlockList.Insert.{insert, NotLast, add_loop-insert}

-- The list after `addMetadata`, and how its memory came about.
abbrev Added : ℕ → Heap → (q : Ptr) → List Ptr → Type 0
Added fuel h q xs =
    let ys = insert h.memory q xs in
    (m' : Memory) × (add_metadata fuel h q ≡ done (relinked h m' ys))
    × Chain m' null (first ys) ys
    × SameBut (q ∷ xs) h.memory m'

module _ (fuel : ℕ) (h : Heap) (q : Ptr) (not_null : 0 < q) where
  counted :
      (xs ys : List Ptr)
      → h.size ≡ pos (length xs)
      → length ys ≡ suc (length xs)
      → h.size +ℤ pos 1 ≡ pos (length ys)
  counted xs ys e l = rw e (+ℤ-pos (length xs) 1 ∙ ap pos (omega (arith, l)))

  add_front :
      (x : Ptr) (xs : List Ptr)
      → IsList h (x ∷ xs)
      → All (Apart q) (x ∷ xs)
      → before h.memory q x ≡ true
      → Added fuel h q (x ∷ xs)
  unfolding add_metadata
  add_front x xs is (qx, qs) e =
      let (n, c) = is.linked.chain in
      let (next_q, prev_q, next_x, prev_x, same) = link_head_lem h.memory q x qx in
      (
        link_head h.memory x q,
        rw
            (
              n.here,
              ne_null x n.not_null,
              le_of_before h.memory q x e,
              e,
              counted (x ∷ xs) (q ∷ (x ∷ xs)) is.linked.size_length refl,
            )
            refl,
        rw e (
          node refl not_null (prev_q ∙ n.prev_back),
          (
            node next_q n.not_null prev_x,
            rw next_x (
                Chain-frame h.memory (link_head h.memory x q) (q ∷ (x ∷ [])) x (next_at h.memory x)
                  xs same (qs, (is.linked.spread.0, tt)) c),
          ),
        ),
        λ a (o0, (o1, _)). same a (o0, (o1, tt)),
      )

  -- Behind a head of the same size and a lower address.
  add_second :
      (x : Ptr) (xs : List Ptr)
      → IsList h (x ∷ xs)
      → All (Apart q) (x ∷ xs)
      → before h.memory q x ≡ false
      → leb (size_at h.memory q) (size_at h.memory x) ≡ true
      → goes_on h.memory x q (next_at h.memory x) ≡ false
      → Added fuel h q (x ∷ xs)
  unfolding add_metadata
  add_second x [] is (qx, _) e le g =
      let (n, c) = is.linked.chain in
      let (next_x, prev_x, next_q, prev_q, same) = link_second_last h.memory q x qx c in
      (
        link_second h.memory x q,
        rw
            (
              n.here,
              ne_null x n.not_null,
              le,
              e,
              g,
              counted (x ∷ []) (x ∷ (q ∷ [])) is.linked.size_length refl,
            )
            refl,
        rw e (node refl n.not_null (prev_x ∙ n.prev_back), (node next_x not_null prev_q, next_q)),
        same,
      )
  add_second x (y ∷ ys) is (qx, (qy, qs)) e le g =
      let (n, (ny, c)) = is.linked.chain in
      let spread = is.linked.spread in
      let qy_before = second_before h.memory q x y qy ny.not_null e le is.ascending.0.0 ny.here g in
      let spliced =
        link_second-Spliced h.memory x q y (Apart-sym q x qx) spread.0.0 qy ny.not_null ny.here in
      (
        link_second h.memory x q,
        rw
            (
              n.here,
              ne_null x n.not_null,
              le,
              e,
              g,
              qy_before,
              counted (x ∷ (y ∷ ys)) (x ∷ (q ∷ (y ∷ ys))) is.linked.size_length refl,
            )
            refl,
        rw (e, qy_before)
            (
              node refl n.not_null (spliced.prev_p ∙ n.prev_back),
              (
                node spliced.next_p not_null spliced.prev_q,
                (
                  node spliced.next_q ny.not_null spliced.prev_x,
                  rw spliced.next_x (
                      Chain-frame h.memory (link_second h.memory x q) (q ∷ (x ∷ (y ∷ []))) y
                        (next_at h.memory y) ys spliced.same (qs, (spread.0.1, (spread.1.0, tt)))
                        c),
                ),
              ),
            ),
        λ a (o0, (o1, (o2, _))). spliced.same a (o0, (o1, (o2, tt))),
      )

  -- Behind a later block.
  add_later :
      (x : Ptr) (xs : List Ptr)
      → IsList h (x ∷ xs)
      → All (Apart q) (x ∷ xs)
      → before h.memory q x ≡ false
      → length xs < fuel
      → add_metadata fuel h q ≡ add_from fuel h q
      → Added fuel h q (x ∷ xs)
  unfolding add_from
  add_later x xs is a e l searched =
      let n = is.linked.chain.0 in
      let (m', run, c, same) =
        add_loop-insert h.memory h.head q not_null fuel null x xs
          (node refl n.not_null n.prev_back, is.linked.chain.1) is.linked.spread a l
          (not_last xs is) in
      (
        m',
        searched
            ∙ rw
                (
                  ap (λ p. add_loop fuel h.memory h.head q p) n.here ∙ run,
                  e,
                  n.here,
                  counted (x ∷ xs) (x ∷ insert h.memory q xs) is.linked.size_length
                      (ap suc (length-insert h.memory q xs)),
                )
                refl,
        rw e c,
        same,
      )
    where
      not_last : (xs : List Ptr) → IsList h (x ∷ xs) → NotLast h.memory h.head q not_null xs
      not_last [] is = tt
      not_last (y ∷ ys) is = λ z.
          ground (
            arith, z, is.linked.chain.0.here, is.linked.chain.1.0.here,
            is.linked.chain.1.0.not_null,
          )

  add_cons :
      (x : Ptr) (xs : List Ptr)
      → IsList h (x ∷ xs)
      → All (Apart q) (x ∷ xs)
      → length xs < fuel
      → Added fuel h q (x ∷ xs)
  unfolding add_metadata
  add_cons x xs is a l = elim (Bool-cases (before h.memory q x)) [
    | inl e ↦ add_front x xs is a e
    | inr e ↦ elim (Bool-cases (leb (size_at h.memory q) (size_at h.memory x))) [
      | inl le ↦ elim (Bool-cases (goes_on h.memory x q (next_at h.memory x))) [
        | inl g ↦
            add_later x xs is a e l
              (rw (is.linked.chain.0.here, ne_null x is.linked.chain.0.not_null, le, e, g) refl)
        | inr g ↦ add_second x xs is a e le g
      ]
      | inr gt ↦
          add_later x xs is a e l
            (rw (is.linked.chain.0.here, ne_null x is.linked.chain.0.not_null, gt) refl)
    ]
  ]

  add_nil : IsList h [] → Added fuel h q []
  unfolding add_metadata
  add_nil is = (
    set_prev (set_next h.memory q null) q null,
    rw (is.linked.chain, counted [] (q ∷ []) is.linked.size_length refl) refl,
    (node refl not_null (ground arith), ground arith),
    λ a o. ground arith,
  )

  add_any : (xs : List Ptr) → IsList h xs → All (Apart q) xs → length xs ≤ fuel → Added fuel h q xs
  add_any [] is a l = add_nil is
  add_any (x ∷ xs) is a l = add_cons x xs is a (omega arith)

  -- On a list of blocks, `addMetadata` of a block apart from them ends within fuel for every block,
  -- writes only links, and leaves the ordered insertion of the block, well linked, sorted and counted.
  pub add_metadata-insert :
      (xs : List Ptr)
      → IsList h xs
      → All (Apart q) xs
      → length xs ≤ fuel
      → (m' : Memory) × (add_metadata fuel h q ≡ done (relinked h m' (insert h.memory q xs)))
        × IsList (relinked h m' (insert h.memory q xs)) (insert h.memory q xs)
        × SameBut (q ∷ xs) h.memory m'
  add_metadata-insert xs is a l =
      let (m', run, chain, same) = add_any xs is a l in
      let sizes =
        SameBut-sizes h.memory m' (q ∷ xs) (q ∷ xs) same
          (Spread-NoLink 0 (q ∷ xs) (omega arith) (a, is.linked.spread)) in
      (
        m',
        run,
        record {
          linked = record {
            chain = chain;
            spread = insert-Spread h.memory q xs a is.linked.spread;
            size_length = refl;
          };
          ascending =
              Ascending-same h.memory m' (insert h.memory q xs)
                (insert-All h.memory q (λ x. m' x ≡ h.memory x) xs sizes.0 sizes.1)
                (insert-Ascending h.memory q xs a is.ascending);
        },
        same,
      )
