-- ===== src/Malloc/BestFit/Blocks/Reinsert.antt =====
-- How a block of hw4/malloc_3.cpp goes back into the list after it grew: `addMetadata` and the copy of the
-- header to the footer.
use operations_systems.Base.{
  ℕ, ◌+◌, ◌≤◌, ◌<◌, ◌≡◌, ◌∙◌, true, List, [], ◌∷◌, arith, All, length, not, ◌==◌,
}
use mathlib.Core.Path.{subst}
use mathlib.Core.List.{Permᴰ}
use mathlib.Core.List.Permᴰ
use operations_systems.Malloc.Words.{Ptr}
use operations_systems.Malloc.BestFit.Memory.{Memory, set_size, copy_footer, is_free_at, Heap, done}
use operations_systems.Malloc.BestFit.BlockList.{add_metadata}
use operations_systems.Malloc.BestFit.BlockList.Chain.{Apart, Spread, NoLink, SameLinks, Chain-same}
use operations_systems.Malloc.BestFit.BlockList.Order.{
  IsLinked, IsList, Ascending, Ascending-same, relinked,
}
use operations_systems.Malloc.BestFit.BlockList.Erase.{has}
use operations_systems.Malloc.BestFit.BlockList.Members.{All-perm, All-member, All-members}
use operations_systems.Malloc.BestFit.BlockList.Steps.{
  SameTag, SameTags, SameTags-trans, Within, add_step,
}
use operations_systems.Malloc.BestFit.Tiles.{block, footer, Tile, Outside}

-- The structs apart from the footer of `p` and their links.
module _ (m : Memory) (p : Ptr) where
  abbrev pub copied : Memory
  copied = copy_footer m p

  pub copied-SameTag :
      (x : Ptr) → Apart (footer p (m p)) x → SameTag m copied x × SameLinks m copied x
  copied-SameTag x a = ((ground arith, ground arith), (ground arith, ground arith))

  copied-sizes : (xs : List Ptr) → All (Apart (footer p (m p))) xs → All (λ x. copied x ≡ m x) xs
  copied-sizes [] a = tt
  copied-sizes (x ∷ xs) (a, r) = ((copied-SameTag x a).0.0, copied-sizes xs r)

  copied-links : (xs : List Ptr) → All (Apart (footer p (m p))) xs → All (SameLinks m copied) xs
  copied-links [] a = tt
  copied-links (x ∷ xs) (a, r) = ((copied-SameTag x a).1, copied-links xs r)

  pub copied-Tile : (v : ℕ) → m p ≡ v → Tile copied p (block v (is_free_at m p))
  copied-Tile v e = record {
    header_size = ground arith;
    header_free = ground arith;
    footer_size = ground arith;
    footer_free = ground arith;
  }

-- A new size for `p` changes no link and no other struct.
module _ (m : Memory) (p v : ℕ) where
  resized-links : (xs : List Ptr) → All (NoLink (p + 0)) xs → All (SameLinks m (set_size m p v)) xs
  resized-links [] n = tt
  resized-links (x ∷ xs) ((a, b), n) = ((ground arith, ground arith), resized-links xs n)

  resized-sizes : (xs : List Ptr) → All (Apart p) xs → All (λ x. set_size m p v x ≡ m x) xs
  resized-sizes [] a = tt
  resized-sizes (x ∷ xs) (a, r) = (ground arith, resized-sizes xs r)

  pub resized-SameTag : (x : Ptr) → Apart p x → SameTag m (set_size m p v) x
  resized-SameTag x a = (ground arith, ground arith)

pub resized-IsLinked :
    (h : Heap) (p v : ℕ) (xs ts : List Ptr)
    → IsLinked h xs
    → All (NoLink (p + 0)) ts
    → Within ts xs
    → IsLinked (record h { memory = set_size h.memory p v }) xs
resized-IsLinked h p v xs ts is n w = record {
  chain =
      Chain-same h.memory (set_size h.memory p v) _ _ xs
        (resized-links h.memory p v xs (All-members (NoLink (p + 0)) xs ts n w)) is.chain;
  spread = is.spread;
  size_length = is.size_length;
}

SameTags-sizes : (m m' : Memory) (xs : List Ptr) → SameTags m m' xs → All (λ x. m' x ≡ m x) xs
SameTags-sizes m m' [] s = tt
SameTags-sizes m m' (x ∷ xs) ((e, _), s) = (e, SameTags-sizes m m' xs s)

sizes_trans :
    (m m' m'' : Memory) (xs : List Ptr)
    → All (λ x. m' x ≡ m x) xs
    → All (λ x. m'' x ≡ m' x) xs
    → All (λ x. m'' x ≡ m x) xs
sizes_trans m m' m'' [] a b = tt
sizes_trans m m' m'' (x ∷ xs) (a, r) (b, s) = (b ∙ a, sizes_trans m m' m'' xs r s)

module _ (p v : ℕ) where
  pub copied-IsList :
      (h : Heap) (xs : List Ptr)
      → IsList h xs
      → All (Apart (footer p v)) xs
      → h.memory p ≡ v
      → IsList (record h { memory = copy_footer h.memory p }) xs
  copied-IsList h xs is a e = record {
    linked = record {
      chain =
          Chain-same h.memory (copy_footer h.memory p) _ _ xs (copied-links h.memory p xs there)
            is.linked.chain;
      spread = is.linked.spread;
      size_length = is.linked.size_length;
    };
    ascending =
        Ascending-same h.memory (copy_footer h.memory p) xs (copied-sizes h.memory p xs there)
          is.ascending;
  }
    where
      there : All (Apart (footer p (h.memory p))) xs
      there = rw e a

-- The block at `p`, of `v` bytes now, is not in the list `ys` of the others; `m` is the memory from
-- before it grew.
module _ (m : Memory) (p v : ℕ) (ts rest : List Ptr) (spread : Spread ts) (pos_p : 0 < p)
    (p_ts : has p ts ≡ true) (apart : All (Apart p) rest)
    (apart_footer : All (Apart (footer p v)) (p ∷ rest)) where
  -- What `addMetadata` and the copy to the footer leave.
  pub record Reinserted (fuel : ℕ) (h : Heap) : Type 0 where
    pub list : List Ptr
    pub memory : Memory
    pub added : add_metadata fuel h p ≡ done (relinked h memory list)
    pub listed : IsList (relinked h (copy_footer memory p) list) list
    pub perm : Permᴰ list (p ∷ rest)
    pub tile : Tile (copy_footer memory p) p (block v (is_free_at m p))
    pub same :
        (xs : List Ptr) → All (Outside p v) xs → Within ts xs → SameTags m (copy_footer memory p) xs
    pub kept : SameTags (set_size m p v) memory ts

  SameTags-Outside :
      (m' : Memory)
      → m' p ≡ v
      → SameTags (set_size m p v) m' ts
      → (xs : List Ptr) → All (Outside p v) xs
      → Within ts xs
      → SameTags m (copy_footer m' p) xs
  SameTags-Outside m' e kept [] o w = tt
  SameTags-Outside m' e kept (x ∷ xs) (o, os) (i, w) =
      let copy = (copied-SameTag m' p x (rw e (ground (arith, o)))).0 in
      let before = All-member (SameTag (set_size m p v) m') x ts kept i in
      let resized = resized-SameTag m p v x (ground (arith, o)) in
      (
        (copy.0 ∙ before.0 ∙ resized.0, copy.1 ∙ before.1 ∙ resized.1),
        SameTags-Outside m' e kept xs os w,
      )

  pub reinsert :
      (fuel : ℕ) (h : Heap) (ys : List Ptr)
      → IsLinked h ys
      → Permᴰ ys rest
      → Ascending m ys
      → Within ts ys
      → SameTags (set_size m p v) h.memory ts
      → length ys ≤ fuel
      → Reinserted fuel h
  reinsert fuel h ys is perm asc w same l =
      let apart_ys = All-perm (Apart p) (Permᴰ.symm perm) apart in
      let sizes = sizes_trans m (set_size m p v) h.memory ys (resized-sizes m p v ys apart_ys) (
        SameTags-sizes (set_size m p v) h.memory ys
          (All-members (SameTag (set_size m p v) h.memory) ys ts same w)) in
      let (m', zs, run, listed, perm', s) =
        add_step ts spread fuel h p ys rest
          (record { linked = is; ascending = Ascending-same m h.memory ys sizes asc }) perm apart_ys
          pos_p (p_ts, w) l in
      let kept = SameTags-trans (set_size m p v) h.memory m' ts same s in
      let (at_size, at_free) = All-member (SameTag (set_size m p v) m') p ts kept p_ts in
      let size_v = at_size ∙ new_size in
      let free_m = at_free ∙ same_free in
      record {
        list = zs;
        memory = m';
        added = run;
        listed =
            copied-IsList p v (relinked h m' zs) zs listed
              (All-perm (Apart (footer p v)) (Permᴰ.symm perm') apart_footer) size_v;
        perm = perm';
        tile =
            subst (λ (f : ℕ). Tile (copy_footer m' p) p (block v (not (f == 0)))) free_m
              (copied-Tile m' p v size_v);
        same = SameTags-Outside m' size_v kept;
        kept = kept;
      }
    where
      new_size : set_size m p v p ≡ v
      new_size = ground arith

      same_free : set_size m p v (p + 8) ≡ m (p + 8)
      same_free = ground arith
