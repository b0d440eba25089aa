-- ===== src/Shm/Umap/Tests.antt =====
-- The theorems on `dthread_shmseg_establish` of libdthread/dt_segops.c for three ranks.
use dthread.Base.{ℕ, ◌≡◌, refl, true, Option, none, some, List, [], ◌∷◌, if◌then◌else◌, ◌==◌, arith}
use dthread.Shm.Establish.{Mmap, mapped}
use dthread.Shm.Umap.{maps, error_of, settle, map_loop}
use dthread.Shm.Umap.SameAddress.{AllAt, honoured, map_loop-AllAt, map_loop-honoured}

-- Rank 0 has its mapping at 8192, and the others get 4096 and 12288 at first.
abbrev ranks : List (Option ℕ)
ranks = some 8192 ∷ none ∷ none ∷ []

abbrev first_try : List (ℕ × ℕ)
first_try = (0, 8192) ∷ (0, 4096) ∷ (0, 12288) ∷ []

abbrev answers : ℕ → List Mmap
answers retries =
    if retries == 9 then mapped 8192 ∷ mapped 4096 ∷ mapped 12288 ∷ [] else honoured 12288 first_try

map_loop-honoured_example :
    (rs : List (ℕ × ℕ)) × (map_loop 9 true answers ranks ≡ maps rs) × AllAt 12288 rs
unfolding error_of
map_loop-honoured_example =
    map_loop-honoured 7 answers ranks refl (λ e. absurd (omega (arith, e))) refl

map_loop-AllAt_example : (a : ℕ) × AllAt a ((0, 12288) ∷ (0, 12288) ∷ (0, 12288) ∷ [])
unfolding map_loop settle error_of
map_loop-AllAt_example = map_loop-AllAt 9 answers ranks _ refl
