-- ===== src/Shm/Umap.antt =====
-- The loop of `dthread_shmseg_establish` in libdthread/dt_segops.c that all ranks run together to map a
-- segment, with UMAP at one address. The ranks are a list, and MPI_Allreduce gives each of them the
-- minimum and the maximum over all ranks. A mapping that is NULL is `none`, and each rank's attempt
-- (`establish` at first, then mmap) has its answer in an argument. MAP_FAILED is above every address.
pub mod SameAddress
mod Tests
use dthread.Base.{
  ℕ, zero, suc, ◌+◌, ◌-◌, ◌^◌, ◌≤◌, ◌<◌, ◌≡◌, ◌≢◌, ◌⊎◌, inl, inr, refl, ap, sym, ◌∙◌, Bool, true,
  false, not, ◌&&◌, ◌||◌, Option, none, some, List, [], ◌∷◌, if◌then◌else◌, ◌==◌, ltb, leb, subst,
  arith, Bool-cases,
}
use dthread.Types.Errno
use dthread.Shm.Break.{word}
use dthread.Shm.Establish.{Mmap, map_failed, mapped}

-- MAP_FAILED
abbrev pub map_failed_value : ℕ
map_failed_value = word - 1

-- One rank's attempt: `rv` and `mapping`.
abbrev pub attempt : Option ℕ → Mmap → ℕ × ℕ
attempt (some mapping) answer = (0, mapping)
attempt none (map_failed e) = (e, map_failed_value)
attempt none (mapped a) = (0, a)

-- the attempts of all ranks
abbrev pub attempts : List (Option ℕ) → List Mmap → List (ℕ × ℕ)
attempts [] answers = []
attempts (m ∷ ms) [] = attempt m (map_failed Errno.eio) ∷ attempts ms []
attempts (m ∷ ms) (x ∷ xs) = attempt m x ∷ attempts ms xs

abbrev pub larger : ℕ → ℕ → ℕ
larger a b = if ltb a b then b else a

abbrev pub smaller : ℕ → ℕ → ℕ
smaller a b = if ltb b a then b else a

-- what MPI_Allreduce gives: the maximum of `rv`, and the minimum and the maximum of `mapping`
abbrev pub max_rv : List (ℕ × ℕ) → ℕ
max_rv [] = 0
max_rv (x ∷ xs) = larger x.0 (max_rv xs)

abbrev pub min_mapping : ℕ → List (ℕ × ℕ) → ℕ
min_mapping m [] = m
min_mapping m (x ∷ xs) = min_mapping (smaller m x.1) xs

abbrev pub max_mapping : ℕ → List (ℕ × ℕ) → ℕ
max_mapping m [] = m
max_mapping m (x ∷ xs) = max_mapping (larger m x.1) xs

-- the mappings that the ranks keep for another try
abbrev pub keep_hint : ℕ → List (ℕ × ℕ) → List (Option ℕ)
keep_hint hint [] = []
keep_hint hint (x ∷ xs) = (if x.1 == hint then some x.1 else none) ∷ keep_hint hint xs

-- how the loop ends: an error on all ranks, or a mapping on each
pub data Mapped : Type 0 where
  fails : ℕ → Mapped
  maps : List (ℕ × ℕ) → Mapped

abbrev pub least : List (ℕ × ℕ) → ℕ
least [] = 0
least (x ∷ xs) = min_mapping x.1 xs

abbrev pub most : List (ℕ × ℕ) → ℕ
most [] = 0
most (x ∷ xs) = max_mapping x.1 xs

-- the error of a try, if it has one; 0 is success.
unfoldable pub error_of : ℕ → ℕ → ℕ → ℕ
error_of rv min max =
    if min == map_failed_value || max == map_failed_value || not (rv == 0)
    then if rv == 0 then Errno.eio else rv
    else 0

abbrev pub try_error : List (ℕ × ℕ) → ℕ
try_error rs = error_of (max_rv rs) (least rs) (most rs)

-- What the ranks do after a try; with UMAP and different addresses the rest is `next`.
unfoldable pub settle : Bool → Mapped → List (ℕ × ℕ) → Mapped
settle umap next rs =
    if not (try_error rs == 0)
    then fails (try_error rs)
    else if umap && not (least rs == most rs)
    then next
    else maps rs

-- The loop with some retries left. `answers` has the answers to the attempts of each try, by the
-- number of retries left.
unfoldable pub map_loop : ℕ → Bool → (ℕ → List Mmap) → List (Option ℕ) → Mapped
map_loop zero umap answers ms = settle umap (fails Errno.eagain) (attempts ms (answers 0))
map_loop (suc retries) umap answers ms =
    let rs = attempts ms (answers (suc retries)) in
    settle umap (map_loop retries umap answers (keep_hint (most rs) rs)) rs

-- The ranks of one segment, where rank 0 has a mapping and the others have none; `retries` is 9 with
-- UMAP and 0 without.
abbrev pub map_segment : Bool → (ℕ → List Mmap) → List (Option ℕ) → Mapped
map_segment umap answers ms = map_loop (if umap then 9 else 0) umap answers ms
