-- ===== src/Malloc/Naive/Tests.antt =====
-- Runs of hw4/malloc_1.cpp.
use operations_systems.Base.{ℕ, ◌≡◌, refl, Bool, true, false, List, [], ◌∷◌, arith}
use operations_systems.Malloc.Naive.{smalloc}
use operations_systems.Malloc.Naive.Regions.{regions, Fill, regions-Fill}

abbrev calls : List (Bool × ℕ)
calls = (true, 100) ∷ (true, 0) ∷ (false, 7) ∷ (true, 30) ∷ []

smalloc_test : smalloc true 4096 100 ≡ (4096, 4196)
unfolding smalloc
smalloc_test = refl

regions-Fill_example : Fill 4096 (regions calls 4096).1 (regions calls 4096).0
regions-Fill_example = regions-Fill calls 4096 (ground arith) (ground arith)
