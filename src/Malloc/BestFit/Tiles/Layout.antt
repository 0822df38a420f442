-- ===== src/Malloc/BestFit/Tiles/Layout.antt =====
-- Where the headers and footers of a row of blocks are.
use operations_systems.Base.{◌+◌, ◌≤◌, ◌≡◌, refl, ap, ◌∙◌, inl, List, [], ◌∷◌, ◌++◌, arith, All}
use operations_systems.Malloc.Words.{Ptr}
use operations_systems.Malloc.BestFit.Memory.{Memory}
use operations_systems.Malloc.BestFit.BlockList.Chain.{Apart, Spread}
use operations_systems.Malloc.BestFit.BlockList.Steps.{SameTags, Within}
use operations_systems.Malloc.BestFit.Tiles.{Block, footer, behind, Tiles, headers, structs, end}

pub le-end : (p : Ptr) (bs : List Block) → p ≤ end p bs
le-end p [] = omega arith
le-end p (b ∷ bs) = omega (arith, le-end (behind p b.size) bs)

-- Every struct lies between the start and the end.
pub structs-above : (a p : Ptr) (bs : List Block) → a ≤ p → All (λ t. a ≤ t) (structs p bs)
structs-above a p [] l = tt
structs-above a p (b ∷ bs) l =
    (l, (omega arith, structs-above a (behind p b.size) bs (omega arith)))

pub structs-below :
    (p e : Ptr) (bs : List Block) → end p bs ≤ e → All (λ t. t + 32 ≤ e) (structs p bs)
structs-below p e [] l = tt
structs-below p e (b ∷ bs) l = (
  omega (arith, le-end (behind p b.size) bs),
  (omega (arith, le-end (behind p b.size) bs), structs-below (behind p b.size) e bs l),
)

Apart-structs : (x p : Ptr) (bs : List Block) → x + 32 ≤ p → All (Apart x) (structs p bs)
Apart-structs x p [] l = tt
Apart-structs x p (b ∷ bs) l =
    (inl l, (inl (omega arith), Apart-structs x (behind p b.size) bs (omega arith)))

pub structs-Spread : (p : Ptr) (bs : List Block) → Spread (structs p bs)
structs-Spread p [] = tt
structs-Spread p (b ∷ bs) = (
  (inl (omega arith), Apart-structs p (behind p b.size) bs (omega arith)),
  (
    Apart-structs (footer p b.size) (behind p b.size) bs (omega arith),
    structs-Spread (behind p b.size) bs,
  ),
)

pub Within-cons : (t : Ptr) (ts xs : List Ptr) → Within ts xs → Within (t ∷ ts) xs
Within-cons t ts [] w = tt
Within-cons t ts (x ∷ xs) (h, w) = (ground arith, Within-cons t ts xs w)

-- Headers are among the structs.
pub headers-Within : (p : Ptr) (bs : List Block) → Within (structs p bs) (headers p bs)
headers-Within p [] = tt
headers-Within p (b ∷ bs) =
    let ts = structs (behind p b.size) bs in
    let hs = headers (behind p b.size) bs in
    (
      ground arith,
      Within-cons p (footer p b.size ∷ ts) hs
          (Within-cons (footer p b.size) ts hs (headers-Within (behind p b.size) bs)),
    )

pub Tiles-same :
    (m m' : Memory) (p e : Ptr) (bs : List Block)
    → SameTags m m' (structs p bs)
    → Tiles m p bs e
    → Tiles m' p bs e
Tiles-same m m' p e [] s t = t
Tiles-same m m' p e (b ∷ bs) ((hs, hf), ((fs, ff), s)) (t, r) = (
  record {
    header_size = hs ∙ t.header_size;
    header_free = rw hf t.header_free;
    footer_size = fs ∙ t.footer_size;
    footer_free = rw ff t.footer_free;
  },
  Tiles-same m m' (behind p b.size) e bs s r,
)

pub Tiles-end : (m : Memory) (p e : Ptr) (bs : List Block) → Tiles m p bs e → end p bs ≡ e
Tiles-end m p e [] t = t
Tiles-end m p e (b ∷ bs) (_, r) = Tiles-end m (behind p b.size) e bs r

-- A row in two parts.
module _ (m : Memory) (e : Ptr) (cs : List Block) where
  pub Tiles-split :
      (p : Ptr) (bs : List Block)
      → Tiles m p (bs ++ cs) e
      → Tiles m p bs (end p bs) × Tiles m (end p bs) cs e
  Tiles-split p [] t = (refl, t)
  Tiles-split p (b ∷ bs) (t, r) = let (l, k) = Tiles-split (behind p b.size) bs r in ((t, l), k)

  pub Tiles-append :
      (p : Ptr) (bs : List Block)
      → Tiles m p bs (end p bs)
      → Tiles m (end p bs) cs e
      → Tiles m p (bs ++ cs) e
  Tiles-append p [] t r = r
  Tiles-append p (b ∷ bs) (t, l) r = (t, Tiles-append (behind p b.size) bs l r)

pub headers-append :
    (p : Ptr) (bs cs : List Block) → headers p (bs ++ cs) ≡ headers p bs ++ headers (end p bs) cs
headers-append p [] cs = refl
headers-append p (b ∷ bs) cs =
    ap (λ (xs : List Ptr). p ∷ xs) (headers-append (behind p b.size) bs cs)

pub structs-append :
    (p : Ptr) (bs cs : List Block) → structs p (bs ++ cs) ≡ structs p bs ++ structs (end p bs) cs
structs-append p [] cs = refl
structs-append p (b ∷ bs) cs =
    ap (λ (xs : List Ptr). p ∷ (footer p b.size ∷ xs)) (structs-append (behind p b.size) bs cs)

pub All-split : (P : Ptr → Type 0) (xs ys : List Ptr) → All P (xs ++ ys) → All P xs × All P ys
All-split P [] ys a = (tt, a)
All-split P (x ∷ xs) ys (p, a) = let (l, r) = All-split P xs ys a in ((p, l), r)
