-- ===== src/Malloc/BestFit/Tiles/Replace.antt =====
-- One block in place of a few that stood in its place.
use operations_systems.Base.{
  ℕ, ◌+◌, ◌≤◌, ◌<◌, ◌≡◌, refl, sym, ap, ◌∙◌, inl, inr, Bool, true, List, [], ◌∷◌, ◌++◌, arith, All,
  length,
}
use mathlib.Core.List.{Permᴰ}
use mathlib.Core.List.Permᴰ
use mathlib.Core.Path.{subst}
use operations_systems.Base.Int.{pos}
use operations_systems.Malloc.Words.{Ptr, word}
use operations_systems.Malloc.BestFit.Memory.{Memory, Heap, Statistics}
use operations_systems.Malloc.BestFit.BlockList.Chain.{Apart}
use operations_systems.Malloc.BestFit.BlockList.Members.{All-members}
use operations_systems.Malloc.BestFit.BlockList.Order.{IsList, first}
use operations_systems.Malloc.BestFit.BlockList.Erase.{has}
use operations_systems.Malloc.BestFit.BlockList.Steps.{SameTags, Within}
use operations_systems.Malloc.BestFit.Tiles.{
  Block, block, behind, Tile, Tiles, headers, structs, end, last_header, Outside, Shape,
}
use operations_systems.Malloc.BestFit.Tiles.Layout.{
  structs-above, headers-Within, structs-below, structs-append, headers-append, Tiles-split,
  Tiles-append, Tiles-same, Within-cons,
}

has-left : (x : Ptr) (xs ys : List Ptr) → has x xs ≡ true → has x (xs ++ ys) ≡ true
has-left x [] ys h = ground arith
has-left x (z ∷ xs) ys h = ground (arith, has-left x xs ys)

has-right : (x : Ptr) (xs ys : List Ptr) → has x ys ≡ true → has x (xs ++ ys) ≡ true
has-right x [] ys h = h
has-right x (z ∷ xs) ys h = ground (arith, has-right x xs ys h)

module _ {P Q : Ptr → Type 0} (f : (x : Ptr) → P x → Q x) where
  All-map : (xs : List Ptr) → All P xs → All Q xs
  All-map [] a = tt
  All-map (x ∷ xs) (p, a) = (f x p, All-map xs a)

Within-self : (xs : List Ptr) → Within xs xs
Within-self [] = tt
Within-self (x ∷ xs) = (ground arith, Within-cons x xs xs (Within-self xs))

pub Within-left : (xs ys : List Ptr) → Within (xs ++ ys) xs
Within-left xs ys = All-map (λ x h. has-left x xs ys h) xs (Within-self xs)

pub Within-right : (xs ys : List Ptr) → Within (xs ++ ys) ys
Within-right xs ys = All-map (λ x h. has-right x xs ys h) ys (Within-self ys)

-- The last header of a row is that of its second part.
pub last_header-append :
    (p : Ptr) (bs : List Block) (c : Block) (cs : List Block)
    → last_header p (bs ++ (c ∷ cs)) ≡ last_header (end p bs) (c ∷ cs)
last_header-append p [] c cs = refl
last_header-append p (b ∷ []) c cs = refl
last_header-append p (b ∷ (d ∷ bs)) c cs = last_header-append (behind p b.size) (d ∷ bs) c cs

pub last_header-above : (p : Ptr) (b : Block) (bs : List Block) → p ≤ last_header p (b ∷ bs)
last_header-above p b [] = omega arith
last_header-above p b (c ∷ bs) = omega (arith, last_header-above (behind p b.size) c bs)

module _ (h : Heap) (pre mid post : List Block) (xs : List Ptr)
    (shape : Shape h (pre ++ (mid ++ post)) xs) where
  abbrev p : Ptr
  p = end h.sbrk_start pre

  abbrev e : Ptr
  e = end p mid

  abbrev pub all_structs : List Ptr
  all_structs = structs h.sbrk_start (pre ++ (mid ++ post))

  parts : all_structs ≡ structs h.sbrk_start pre ++ (structs p mid ++ structs e post)
  parts =
      structs-append h.sbrk_start pre (mid ++ post)
      ∙ ap (λ (ys : List Ptr). structs h.sbrk_start pre ++ ys) (structs-append p mid post)

  -- The rows before and behind stay.
  around :
      (m' : Memory) (v : ℕ)
      → behind p v ≡ e
      → ((ys : List Ptr) → All (Outside p v) ys → Within all_structs ys → SameTags h.memory m' ys)
      → Tiles m' h.sbrk_start pre p × Tiles m' e post h.brk
  around m' v width same = (
    Tiles-same h.memory m' h.sbrk_start p pre
        (same (structs h.sbrk_start pre)
          (All-map (λ x l. inl l) (structs h.sbrk_start pre)
            (structs-below h.sbrk_start p pre (omega arith)))
          (rw parts (Within-left (structs h.sbrk_start pre) (structs p mid ++ structs e post))))
        split_pre.0,
    Tiles-same h.memory m' e h.brk post
        (same (structs e post)
          (All-map (λ x l. inr l) (structs e post)
            (structs-above (p + v + 64) e post (omega (arith, width))))
          post_within)
        split_mid.1,
  )
    where
      split_pre : Tiles h.memory h.sbrk_start pre p × Tiles h.memory p (mid ++ post) h.brk
      split_pre = Tiles-split h.memory h.brk (mid ++ post) h.sbrk_start pre shape.tiles

      split_mid : Tiles h.memory p mid e × Tiles h.memory e post h.brk
      split_mid = Tiles-split h.memory h.brk post p mid split_pre.1

      post_within : Within all_structs (structs e post)
      post_within = rw parts (
          All-map
            (λ x i. has-right x (structs h.sbrk_start pre) (structs p mid ++ structs e post) i)
            (structs e post) (Within-right (structs p mid) (structs e post)))

  -- The heap with other memory, list, wilderness and counters.
  abbrev changed : Memory → List Ptr → (w : Ptr) → Statistics → Heap
  changed m' zs w st = record h {
    memory = m';
    head = first zs;
    size = pos (length zs);
    wilderness = w;
    statistics = st;
  }

  relisted :
      (m' : Memory) (zs : List Ptr) (w : Ptr) (st : Statistics)
      → IsList (record h { memory = m'; head = first zs; size = pos (length zs) }) zs
      → IsList (changed m' zs w st) zs
  relisted m' zs w st is = record {
    linked = record { chain = is.linked.chain; spread = is.linked.spread; size_length = refl };
    ascending = is.ascending;
  }

  -- The heap with the block of `v` bytes in place of `mid`.
  pub replaced :
      (m' : Memory) (zs : List Ptr) (v : ℕ) (f : Bool) (w : Ptr) (st : Statistics)
      → Tile m' p (block v f)
      → behind p v ≡ e
      → ((ys : List Ptr) → All (Outside p v) ys → Within all_structs ys → SameTags h.memory m' ys)
      → IsList (record h { memory = m'; head = first zs; size = pos (length zs) }) zs
      → Permᴰ zs (p ∷ (headers h.sbrk_start pre ++ headers e post))
      → w ≡ last_header p (block v f ∷ post)
      → Shape (changed m' zs w st) (pre ++ (block v f ∷ post)) zs
  replaced m' zs v f w st tile width same listed perm last = record {
    start_pos = shape.start_pos;
    small = shape.small;
    tiles =
        Tiles-append m' h.brk (block v f ∷ post) h.sbrk_start pre (around m' v width same).0
          (tile, subst (λ (a : Ptr). Tiles m' a post h.brk) (sym width) (around m' v width same).1);
    listed = relisted m' zs w st listed;
    members =
        rw (headers-append h.sbrk_start pre (block v f ∷ post), width)
          (Permᴰ.trans perm
            (Permᴰ.symm (Permᴰ.middle p (headers h.sbrk_start pre) (headers e post))));
    wilderness_last = last ∙ sym (last_header-append h.sbrk_start pre (block v f) post);
  }

-- The last block of the row, or a new one, ends at a new break.
pub extended :
    (h : Heap) (pre old : List Block) (xs : List Ptr)
    → Shape h (pre ++ old) xs
    → (m' : Memory) (zs : List Ptr) (v : ℕ) (f : Bool) (st : Statistics)
    → Tile m' (end h.sbrk_start pre) (block v f)
    → behind (end h.sbrk_start pre) v < word
    → SameTags h.memory m' (structs h.sbrk_start pre)
    → IsList (record h { memory = m'; head = first zs; size = pos (length zs) }) zs
    → Permᴰ zs (end h.sbrk_start pre ∷ headers h.sbrk_start pre)
    → Shape
        (record h {
          memory = m';
          head = first zs;
          size = pos (length zs);
          wilderness = end h.sbrk_start pre;
          brk = behind (end h.sbrk_start pre) v;
          statistics = st;
        })
        (pre ++ (block v f ∷ []))
        zs
extended h pre old xs shape m' zs v f st tile small same listed perm =
    let p = end h.sbrk_start pre in
    record {
      start_pos = shape.start_pos;
      small = small;
      tiles =
          Tiles-append m' (behind p v) (block v f ∷ []) h.sbrk_start pre
            (Tiles-same h.memory m' h.sbrk_start p pre same
              (Tiles-split h.memory h.brk old h.sbrk_start pre shape.tiles).0)
            (tile, refl);
      listed = record {
        linked = record {
          chain = listed.linked.chain;
          spread = listed.linked.spread;
          size_length = refl;
        };
        ascending = listed.ascending;
      };
      members = rw (headers-append h.sbrk_start pre (block v f ∷ [])) (
          Permᴰ.trans perm (
            Permᴰ.trans (Permᴰ.cons refl (Permᴰ.symm (Permᴰ.append-nil (headers h.sbrk_start pre))))
              (Permᴰ.symm (Permᴰ.middle p (headers h.sbrk_start pre) []))));
      wilderness_last = sym (last_header-append h.sbrk_start pre (block v f) []);
    }

All-append : (P : Ptr → Type 0) (xs ys : List Ptr) → All P xs → All P ys → All P (xs ++ ys)
All-append P [] ys a b = b
All-append P (x ∷ xs) ys (p, a) b = (p, All-append P xs ys a b)

-- A struct between `p` and `e` is apart from the headers before and behind.
pub outer_headers :
    (s e x : Ptr) (pre post : List Block)
    → end s pre ≤ x
    → x + 32 ≤ e
    → All (Apart x) (headers s pre ++ headers e post)
outer_headers s e x pre post l k =
    All-append (Apart x) (headers s pre) (headers e post)
      (All-members (Apart x) (headers s pre) (structs s pre)
        (All-map (λ t b. inr (omega (arith, b))) (structs s pre)
          (structs-below s (end s pre) pre (omega arith)))
        (headers-Within s pre))
      (All-members (Apart x) (headers e post) (structs e post)
        (All-map (λ t b. inl (omega (arith, b))) (structs e post)
          (structs-above e e post (omega arith)))
        (headers-Within e post))
