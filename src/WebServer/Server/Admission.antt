-- ===== src/WebServer/Server/Admission.antt =====
-- What the switch of `main` in hw3/webserver-files/server.c does to the waiting queue.
use operations_systems.Base.{
  ℕ, ◌+◌, ◌≤◌, ◌≡◌, Bool, false, List, [], ◌∷◌, ◌++◌, arith, All, length, length-append,
}
use operations_systems.Base.Sums.{sum_of, sum_of-append}
use operations_systems.Base.Int.{ℤ, eqb_ℤ, minus_one}
use operations_systems.WebServer.NodeHeap.{Item}
use operations_systems.WebServer.Server.{
  OverloadType, block, drop_tail, drop_rand, drop_head, waits, leaves, fds, admit,
}

-- A descriptor that is not the error value.
abbrev pub IsFd : Item → Type 0
IsFd i = eqb_ℤ i.fd minus_one ≡ false

All-snoc : (xs : List Item) (i : Item) → IsFd i → All IsFd xs → All IsFd (xs ++ i ∷ [])
All-snoc [] i h v = (h, tt)
All-snoc (x ∷ xs) i h v = (v.0, All-snoc xs i h v.1)

sum_of-snoc :
    (weight : ℤ → ℕ) (xs : List Item) (i : Item)
    → sum_of weight (fds (xs ++ i ∷ [])) ≡ sum_of weight (fds xs) + weight i.fd
sum_of-snoc weight [] i = omega arith
sum_of-snoc weight (x ∷ xs) i = omega (arith, sum_of-snoc weight xs i)

module _ (queue_size running : ℕ) (i : Item) where
  -- A policy never overfills the server.
  pub admit_room :
      (policy : OverloadType) (waiting gone rest w : List Item) (c : List ℤ) (b : Bool)
      → length rest ≤ length waiting
      → length waiting + running ≤ queue_size
      → admit policy queue_size waiting running i gone rest ≡ leaves w c b
      → length w + running ≤ queue_size
  unfolding admit
  admit_room block waiting gone rest w c b h room e = ground (arith, length-append waiting (i ∷ []))
  admit_room drop_tail waiting gone rest w c b h room e =
      ground (arith, length-append waiting (i ∷ []))
  admit_room drop_rand waiting gone rest w c b h room e =
      ground (arith, length-append waiting (i ∷ []), length-append rest (i ∷ []))
  admit_room drop_head [] gone rest w c b h room e = ground arith
  admit_room drop_head (x ∷ waiting) gone rest w c b h room e =
      ground (arith, length-append waiting (i ∷ []), length-append (x ∷ waiting) (i ∷ []))

  -- Only BLOCK waits, and only on a full server.
  pub admit_waits :
      (policy : OverloadType) (waiting gone rest : List Item)
      → admit policy queue_size waiting running i gone rest ≡ waits
      → (policy ≡ block) × (queue_size ≤ length waiting + running)
  unfolding admit
  admit_waits block waiting gone rest e = ground arith
  admit_waits drop_tail waiting gone rest e = ground arith
  admit_waits drop_rand waiting gone rest e = ground arith
  admit_waits drop_head [] gone rest e = ground arith
  admit_waits drop_head (x ∷ waiting) gone rest e = ground arith

  -- Without a signal nothing has been queued.
  pub admit_quiet :
      (policy : OverloadType) (waiting gone rest w : List Item) (c : List ℤ)
      → length rest ≤ length waiting
      → admit policy queue_size waiting running i gone rest ≡ leaves w c false
      → length w ≤ length waiting
  unfolding admit
  admit_quiet block waiting gone rest w c h e = ground arith
  admit_quiet drop_tail waiting gone rest w c h e = ground arith
  admit_quiet drop_rand waiting gone rest w c h e = ground arith
  admit_quiet drop_head [] gone rest w c h e = ground arith
  admit_quiet drop_head (x ∷ waiting) gone rest w c h e = ground arith

  -- The descriptors in the queue and the closed ones are those that were there and the new one.
  pub admit_kept :
      (weight : ℤ → ℕ) (policy : OverloadType) (waiting gone rest w : List Item) (c : List ℤ)
      (b : Bool)
      → All IsFd waiting
      → sum_of weight (fds gone) + sum_of weight (fds rest) ≡ sum_of weight (fds waiting)
      → admit policy queue_size waiting running i gone rest ≡ leaves w c b
      → sum_of weight (fds w) + sum_of weight c ≡ sum_of weight (fds waiting) + weight i.fd
  unfolding admit
  admit_kept weight block waiting gone rest w c b v h e =
      ground (arith, sum_of-snoc weight waiting i)
  admit_kept weight drop_tail waiting gone rest w c b v h e =
      ground (arith, sum_of-snoc weight waiting i)
  admit_kept weight drop_rand waiting gone rest w c b v h e = ground (
    arith,
    sum_of-snoc weight waiting i,
    sum_of-snoc weight rest i,
    sum_of-append weight (fds gone) (i.fd ∷ []),
  )
  admit_kept weight drop_head [] gone rest w c b v h e = ground arith
  admit_kept weight drop_head (x ∷ waiting) gone rest w c b v h e =
      ground (arith, sum_of-snoc weight waiting i, sum_of-snoc weight (x ∷ waiting) i)

  pub admit_valid :
      (policy : OverloadType) (waiting gone rest w : List Item) (c : List ℤ) (b : Bool)
      → IsFd i
      → All IsFd waiting
      → All IsFd rest
      → admit policy queue_size waiting running i gone rest ≡ leaves w c b
      → All IsFd w
  unfolding admit
  admit_valid block waiting gone rest w c b vi v vr e = ground (arith, All-snoc waiting i)
  admit_valid drop_tail waiting gone rest w c b vi v vr e = ground (arith, All-snoc waiting i)
  admit_valid drop_rand waiting gone rest w c b vi v vr e =
      ground (arith, All-snoc waiting i, All-snoc rest i)
  admit_valid drop_head [] gone rest w c b vi v vr e = ground arith
  admit_valid drop_head (x ∷ waiting) gone rest w c b vi v vr e =
      ground (arith, All-snoc waiting i, All-snoc (x ∷ waiting) i)
