-- ===== src/Malloc/BestFit/BlockList/Members.antt =====
-- The members of a list of blocks, up to their order.
use operations_systems.Base.{
  suc, ◌<◌, ◌≡◌, refl, ap, ◌∙◌, inl, inr, true, Bool-cases, List, [], ◌∷◌, arith, All, length, ◌==◌,
}
use mathlib.Core.Path.{subst}
use mathlib.Core.List.{Permᴰ}
use mathlib.Core.List.Permᴰ
use operations_systems.Malloc.Words.{Ptr}
use operations_systems.Malloc.BestFit.Memory.{Memory}
use operations_systems.Malloc.BestFit.BlockList.{before}
use operations_systems.Malloc.BestFit.BlockList.Chain.{Apart, Apart-sym, Spread, Chain}
use operations_systems.Malloc.BestFit.BlockList.Insert.{insert}
use operations_systems.Malloc.BestFit.BlockList.Erase.{has, erase}

pub insert-perm : (m : Memory) (q : Ptr) (xs : List Ptr) → Permᴰ (insert m q xs) (q ∷ xs)
insert-perm m q [] = Permᴰ.refl (q ∷ [])
insert-perm m q (x ∷ xs) = elim (Bool-cases (before m q x)) [
  | inl e ↦ rw e (Permᴰ.refl (q ∷ (x ∷ xs)))
  | inr e ↦ rw e (Permᴰ.trans (Permᴰ.cons refl (insert-perm m q xs)) (Permᴰ.swap refl refl))
]

module _ (q : Ptr) where
  erase_swap : (a b : Ptr) (l : List Ptr) → Permᴰ (erase q (a ∷ (b ∷ l))) (erase q (b ∷ (a ∷ l)))
  erase_swap a b l = elim (Bool-cases (a == q)) [
    | inl e ↦ elim (Bool-cases (b == q)) [
      | inl d ↦ rw (e, d) (Permᴰ.cons (both e d) (Permᴰ.refl l))
      | inr d ↦ rw (e, d) (Permᴰ.refl (b ∷ l))
    ]
    | inr e ↦ elim (Bool-cases (b == q)) [
      | inl d ↦ rw (e, d) (Permᴰ.refl (a ∷ l))
      | inr d ↦ rw (e, d) (Permᴰ.swap refl refl)
    ]
  ]
    where
      both : (a == q) ≡ true → (b == q) ≡ true → b ≡ a
      both e d = ground arith

  pub erase-perm : {xs ys : List Ptr} → Permᴰ xs ys → Permᴰ (erase q xs) (erase q ys)
  erase-perm Permᴰ.nil = Permᴰ.nil
  erase-perm (Permᴰ.cons {a} {b} {l₁} {l₂} e p) =
      subst (λ (c : Ptr). Permᴰ (erase q (a ∷ l₁)) (erase q (c ∷ l₂))) e (same_head (erase-perm p))
    where
      same_head : Permᴰ (erase q l₁) (erase q l₂) → Permᴰ (erase q (a ∷ l₁)) (erase q (a ∷ l₂))
      same_head r = elim (Bool-cases (a == q)) [ inl t ↦ rw t p | inr t ↦ rw t (Permᴰ.cons refl r) ]
  erase-perm (Permᴰ.swap {a} {b} {a'} {b'} {l} e d) =
      subst (λ (c : Ptr). Permᴰ (erase q (a ∷ (b ∷ l))) (erase q (c ∷ (b' ∷ l)))) d
        (subst (λ (c : Ptr). Permᴰ (erase q (a ∷ (b ∷ l))) (erase q (b ∷ (c ∷ l)))) e
          (erase_swap a b l))
  erase-perm (Permᴰ.trans p r) = Permᴰ.trans (erase-perm p) (erase-perm r)

  pub has-perm : {xs ys : List Ptr} → Permᴰ xs ys → has q xs ≡ has q ys
  has-perm Permᴰ.nil = refl
  has-perm (Permᴰ.cons e p) = rw (e, has-perm p) refl
  has-perm (Permᴰ.swap e d) = rw (e, d) (ground arith)
  has-perm (Permᴰ.trans p r) = has-perm p ∙ has-perm r

pub All-perm : (P : Ptr → Type 0) {xs ys : List Ptr} → Permᴰ xs ys → All P xs → All P ys
All-perm P Permᴰ.nil a = a
All-perm P (Permᴰ.cons e p) (x, a) = (subst P e x, All-perm P p a)
All-perm P (Permᴰ.swap e d) (x, (y, a)) = (subst P d y, (subst P e x, a))
All-perm P (Permᴰ.trans p r) a = All-perm P r (All-perm P p a)

pub length-permᴰ : {xs ys : List Ptr} → Permᴰ xs ys → length xs ≡ length ys
length-permᴰ Permᴰ.nil = refl
length-permᴰ (Permᴰ.cons e p) = ap suc (length-permᴰ p)
length-permᴰ (Permᴰ.swap e d) = refl
length-permᴰ (Permᴰ.trans p r) = length-permᴰ p ∙ length-permᴰ r

pub Spread-perm : {xs ys : List Ptr} → Permᴰ xs ys → Spread xs → Spread ys
Spread-perm Permᴰ.nil s = s
Spread-perm (Permᴰ.cons {a} {b} {l₁} {l₂} e p) (x, s) =
    (subst (λ c. All (Apart c) l₂) e (All-perm (Apart a) p x), Spread-perm p s)
Spread-perm (Permᴰ.swap {a} {b} {a'} {b'} {l} e d) ((ab, x), (y, s)) = (
  (
    subst (λ c. Apart a' c) e (subst (λ c. Apart c a) d (Apart-sym a b ab)),
    subst (λ c. All (Apart c) l) d y,
  ),
  (subst (λ c. All (Apart c) l) e x, s),
)
Spread-perm (Permᴰ.trans p r) s = Spread-perm r (Spread-perm p s)

-- What holds of all holds of a member.
pub All-member : (P : Ptr → Type 0) (x : Ptr) (ts : List Ptr) → All P ts → has x ts ≡ true → P x
All-member P x [] a h = ground arith
All-member P x (t ∷ ts) (p, a) h = elim (Bool-cases (t == x)) [
  | inl e ↦ subst P (equal e) p
  | inr e ↦ All-member P x ts a (ground arith)
]
  where
    equal : (t == x) ≡ true → t ≡ x
    equal e = ground arith

pub All-members :
    (P : Ptr → Type 0) (xs ts : List Ptr) → All P ts → All (λ x. has x ts ≡ true) xs → All P xs
All-members P [] ts a h = tt
All-members P (x ∷ xs) ts a (hx, h) = (All-member P x ts a hx, All-members P xs ts a h)

pub Chain-positive :
    (m : Memory) (back p : Ptr) (xs : List Ptr) → Chain m back p xs → All (λ x. 0 < x) xs
Chain-positive m back p [] c = tt
Chain-positive m back p (x ∷ xs) (n, c) = (n.not_null, Chain-positive m x _ xs c)
