-- ===== src/WebServer/Queue/Discard.antt =====
-- `queueDiscardX` of hw3/webserver-files/queue.c.
use mathlib.Core.List.{Perm, Sublist, Sublistᴰ, cons-sublist-cons, append-nil, append_assoc}
use mathlib.Core.List.Perm
use mathlib.Core.List.Sublist
use mathlib.Core.List.Sublistᴰ
use Prim.Native.Nat.{min}
use native.Mathlib.Nat.{mod-lt}
use operations_systems.Base.{
  ℕ, zero, suc, ◌+◌, ◌%◌, ◌≤◌, ◌≡◌, refl, sym, ap, ◌∙◌, some, List, [], ◌∷◌, ◌++◌, arith, false,
  if◌then◌else◌, length, get_elem?, erase_idx, length-erase_idx,
}
use operations_systems.Base.Int.{ℤ, pos, pos_part, neg_part, ltb_ℤ, eqb_ℤ}
use operations_systems.WebServer.NodeHeap.{Memory, Cmd, resume, ◌>>◌, ok, close}
use operations_systems.WebServer.Queue.{Queue, queue_remove_by_index, discard_loop, queue_discard}
use operations_systems.WebServer.Queue.Chain.{Cells, IsQueue, IsQueue-frame}
use operations_systems.WebServer.Queue.Remove.{Removed, queue_remove_by_index-erase_idx}

module _ {ℓ} {A : Type ℓ} where
  perm_of_get_elem? :
      (xs : List A) (n : ℕ) (x : A) → get_elem? xs n ≡ some x → Perm (x ∷ erase_idx xs n) xs
  perm_of_get_elem? [] n x e = cc
  perm_of_get_elem? (y ∷ xs) zero x e = Perm.cons' (ground arith) Perm.rfl
  perm_of_get_elem? (y ∷ xs) (suc n) x e =
      Perm.trans (Perm.swap _ _ _) (Perm.cons y (perm_of_get_elem? xs n x e))

  erase_idx-sublist : (xs : List A) (n : ℕ) → Sublist (erase_idx xs n) xs
  erase_idx-sublist [] n = ∣ Sublistᴰ.slnil ∣₁
  erase_idx-sublist (x ∷ xs) zero = ∣ Sublistᴰ.cons (Sublistᴰ.refl xs) ∣₁
  erase_idx-sublist (x ∷ xs) (suc n) = cons-sublist-cons.1 (erase_idx-sublist xs n)

abbrev pub fds : Cells → List ℤ
fds [] = []
fds ((_, i) ∷ xs) = i.fd ∷ fds xs

-- What discarding `k` requests leaves: the others in their order, and each discarded one closed once.
pub record Discarded (m m' : Memory) (q' : Queue) (xs : Cells) (k : ℕ) : Type 0 where
  pub gone : Cells
  pub rest : Cells
  pub is_queue : IsQueue m' q' rest
  pub split : Perm (gone ++ rest) xs
  pub in_order : Sublist rest xs
  pub count : length gone ≡ k
  pub closed_gone : m'.closed ≡ m.closed ++ fds gone

module _ (rand : ℕ → ℕ) where
  abbrev next_round : ℕ → ℤ × Queue → Cmd Queue
  next_round k (fd, q') = close fd >> discard_loop rand k q'

  -- One round takes a request within the queue and closes it.
  round :
      (m : Memory) (q : Queue) (k n : ℕ)
      → q.size ≡ pos (suc n)
      → discard_loop rand (suc k) q m
        ≡ resume (queue_remove_by_index q (pos (rand (suc k) % suc n)) m) (next_round k)
  unfolding discard_loop
  round m q k n e = rw (not_zero q.size e, size_is q.size e)
    where
      not_zero : (z : ℤ) → z ≡ pos (suc n) → eqb_ℤ z (pos 0) ≡ false
      not_zero z e' = rw e' (ground arith)

      size_is : (z : ℤ) → z ≡ pos (suc n) → pos_part z + neg_part z ≡ suc n
      size_is z e' = rw e' (omega arith)

  Discarded-cons :
      (m m₁ m₃ : Memory) (q₁ q₃ : Queue) (xs : Cells) (n k : ℕ) (fd : ℤ)
      → Removed m m₁ q₁ xs n fd
      → Discarded (record m₁ { closed = m₁.closed ++ fd ∷ [] }) m₃ q₃ (erase_idx xs n) k
      → Discarded m m₃ q₃ xs (suc k)
  Discarded-cons m m₁ m₃ q₁ q₃ xs n k fd r d = record {
    gone = (r.victim, r.item) ∷ d.gone;
    rest = d.rest;
    is_queue = d.is_queue;
    split = Perm.trans (Perm.cons _ d.split) (perm_of_get_elem? xs n _ r.is_elem);
    in_order = Sublist.trans d.in_order (erase_idx-sublist xs n);
    count = ap suc d.count;
    closed_gone =
        d.closed_gone
        ∙ rw (r.unclosed, r.result) (append_assoc m.closed (r.item.fd ∷ []) (fds d.gone));
  }

  discard_loop-Discarded :
      (k : ℕ) (m : Memory) (q : Queue) (xs : Cells)
      → IsQueue m q xs
      → k ≤ length xs
      → (m' : Memory) × (q' : Queue) × (discard_loop rand k q m ≡ ok q' m') × Discarded m m' q' xs k
  unfolding discard_loop close
  discard_loop-Discarded zero m q xs is h = (
    m,
    q,
    refl,
    record {
      gone = [];
      rest = xs;
      is_queue = is;
      split = Perm.refl xs;
      in_order = Sublist.refl xs;
      count = refl;
      closed_gone = sym (append-nil m.closed);
    },
  )
  discard_loop-Discarded (suc k) m q [] is h = absurd (omega arith)
  discard_loop-Discarded (suc k) m q (x ∷ xs) is h =
      let n = rand (suc k) % suc (length xs) in
      let (m₁, q₁, fd, run, r) =
        queue_remove_by_index-erase_idx m q (x ∷ xs) n is (mod-lt (rand (suc k)) (omega arith)) in
      let m₂ : Memory = record m₁ { closed = m₁.closed ++ fd ∷ [] } in
      let kept = IsQueue-frame m₁ m₂ q₁ (erase_idx (x ∷ xs) n) r.rest (λ a _. refl) in
      let (m₃, q₃, rest_run, d) =
        discard_loop-Discarded k m₂ q₁ (erase_idx (x ∷ xs) n) kept
          (omega (arith, length-erase_idx (x ∷ xs) n)) in
      (
        m₃,
        q₃,
        round m q k (length xs) is.size_length ∙ ap (λ s. resume s (next_round k)) run ∙ rest_run,
        Discarded-cons m m₁ m₃ q₁ q₃ (x ∷ xs) n k fd r d,
      )

  -- `queueDiscardX` takes the smaller of `num` and the size, without a fault.
  pub queue_discard-Discarded :
      (m : Memory) (q : Queue) (xs : Cells) (num : ℕ)
      → IsQueue m q xs
      → (m' : Memory) × (q' : Queue) × (queue_discard rand q (pos num) m ≡ ok q' m')
        × Discarded m m' q' xs (min num (length xs))
  unfolding queue_discard
  queue_discard-Discarded m q xs num is =
      let (m', q', run, d) = discard_loop-Discarded (min num (length xs)) m q xs is (omega arith) in
      (m', q', ap (λ k. discard_loop rand k q m) (rounds q.size is.size_length) ∙ run, d)
    where
      rounds :
          (z : ℤ)
          → z ≡ pos (length xs)
          → pos_part (if ltb_ℤ (pos num) z then pos num else z) ≡ min num (length xs)
      rounds z e = rw e (ground arith)
