-- ===== src/Malloc/FirstFit/Loops.antt =====
-- The two loops of `BlockList` in hw4/malloc_2.cpp, over a heap that stands for its blocks.
use operations_systems.Base.{
  ℕ, zero, suc, ◌<◌, ◌≡◌, ◌≢◌, refl, ap, ◌∙◌, ◌⊎◌, inl, inr, false, Bool-cases, Option, none, some,
  List, [], ◌∷◌, ◌++◌, arith, length, leb, ltb, ◌==◌, ◌&&◌,
}
use operations_systems.Malloc.Words.{Ptr, null}
use operations_systems.Malloc.FirstFit.{
  Metadata, link_after, add_loop, add_metadata, search_free_block,
}
use operations_systems.Malloc.FirstFit.Layout.{
  Block, block, behind, end, address, first, header, Linked, fit, shift, le-end,
}

-- The address that a search result stands for.
abbrev pub found_at : Ptr → List Block → Option ℕ → Ptr
found_at a bs none = null
found_at a bs (some k) = address a bs k

-- `searchFreeBlock` finds the first free block that fits, or NULL.
pub search_free_block-fit :
    (k : ℕ) (cells : Ptr → Metadata) (n : ℕ) (a prev : Ptr) (bs : List Block)
    → Linked cells a prev bs
    → 0 < a
    → length bs < k
    → search_free_block k cells n (first a bs) ≡ some (found_at a bs (fit bs n))
unfolding search_free_block
search_free_block-fit zero cells n a prev bs l p h = absurd (omega arith)
search_free_block-fit (suc k) cells n a prev [] l p h = refl
search_free_block-fit (suc k) cells n a prev (b ∷ bs) (e, l) p h =
    rw (not_null, e)
      (elim (Bool-cases (b.is_free && leb n b.size)) [
        | inl fits ↦ rw fits
        | inr no_fit ↦ rw no_fit (
            search_free_block-fit k cells n (behind a b.size) a bs l (omega arith) (omega arith)
            ∙ ap some (found_at-shift (fit bs n)))
      ])
  where
    not_null : (a == null) ≡ false
    not_null = ground arith

    found_at-shift :
        (o : Option ℕ) → found_at (behind a b.size) bs o ≡ found_at a (b ∷ bs) (shift o)
    found_at-shift none = refl
    found_at-shift (some i) = refl

-- What linking a header in changes.
module _ (cells : Ptr → Metadata) (iter metadata following : Ptr) (ne : iter ≢ metadata) where
  abbrev linked : Ptr → Metadata
  linked = link_after cells iter metadata following

  link_iter : linked iter ≡ record (cells iter) { next = metadata }
  link_iter = ground arith

  link_new : linked metadata ≡ record (cells metadata) { next = following; prev = iter }
  link_new = ground arith

  link_other : (x : Ptr) → x ≢ iter → x ≢ metadata → linked x ≡ cells x
  link_other x ni nm = ground arith

-- `addMetadata` puts a header at the break last, and touches no header but the last one and its own.
pub add_loop-snoc :
    (k : ℕ) (cells : Ptr → Metadata) (n : ℕ) (p q a prev : Ptr) (b : Block) (bs : List Block)
    → Linked cells a prev (b ∷ bs)
    → p ≡ end a (b ∷ bs)
    → cells p ≡ header (block n false) null q
    → length (b ∷ bs) < k
    → 0 < a
    → (cells' : Ptr → Metadata) × (add_loop k cells p a ≡ some cells')
      × Linked cells' a prev (b ∷ bs ++ block n false ∷ [])
      × ((x : Ptr) → (x < a) ⊎ (p < x) → cells' x ≡ cells x)
unfolding add_loop
add_loop-snoc zero cells n p q a prev b bs l e new h pos_a = absurd (omega arith)
add_loop-snoc (suc k) cells n p q a prev b [] (l, _) e new h pos_a = (
  link_after cells a p null,
  rw (not_null, l) refl,
  (
    link_iter cells a p null (omega arith) ∙ rw (e, l) refl,
    (
      rw (← e)
          (link_new cells a p null (omega arith) ∙ λ i. record (new i) { next = null; prev = a }),
      tt,
    ),
  ),
  λ x out. link_other cells a p null (omega arith) x (omega arith) (omega arith),
)
  where
    not_null : (a == null) ≡ false
    not_null = ground arith
add_loop-snoc (suc k) cells n p q a prev b (c ∷ cs) (l, rest) e new h pos_a =
    let (cells', run, linked, same) =
      add_loop-snoc k cells n p q (behind a b.size) a c cs rest e new (omega arith) (omega arith) in
    (
      cells',
      rw (not_null, l, not_null', not_before) run,
      (same a (inl (omega arith)) ∙ l, linked),
      λ x out. same x (elim out [ inl lo ↦ inl (omega arith) | inr hi ↦ inr hi ]),
    )
  where
    not_null : (a == null) ≡ false
    not_null = ground arith

    not_null' : (behind a b.size == null) ≡ false
    not_null' = ground arith

    not_before : ltb p (behind a b.size) ≡ false
    not_before = ground (arith, le-end (behind a b.size) (c ∷ cs))

pub add_metadata-snoc :
    (k : ℕ) (cells : Ptr → Metadata) (n p start : Ptr) (bs : List Block)
    → Linked cells start null bs
    → p ≡ end start bs
    → cells p ≡ header (block n false) null null
    → length bs < k
    → 0 < start
    → (cells' : Ptr → Metadata) × (add_metadata k cells (first start bs) p
        ≡ some (cells', first start (bs ++ block n false ∷ [])))
      × Linked cells' start null (bs ++ block n false ∷ [])
      × ((x : Ptr) → p < x → cells' x ≡ cells x)
unfolding add_metadata
add_metadata-snoc k cells n p start [] l e new h pos_s =
    (cells, rw e refl, (rw (← e) new, tt), λ x _. refl)
add_metadata-snoc k cells n p start (b ∷ bs) l e new h pos_s =
    let (cells', run, linked, same) =
      add_loop-snoc k cells n p null start null b bs l e new h pos_s in
    (cells', rw (not_null, not_before, run) refl, linked, λ x hi. same x (inr hi))
  where
    not_null : (start == null) ≡ false
    not_null = ground arith

    not_before : ltb p start ≡ false
    not_before = ground (arith, le-end start (b ∷ bs))
