-- ===== src/Manager/Router.antt =====
-- `binary_router` of libdthread/dt_mgrthread.c: the children of a rank in the broadcast tree.
pub mod Tree
mod Tests
use dthread.Base.{ℕ, ◌+◌, ◌-◌, ◌*◌, ◌%◌, List, [], ◌∷◌, if◌then◌else◌, ◌==◌, ltb, leb}

-- `my_rank - root_rank`, and `world_size` more if that is negative
abbrev pub adjusted_rank : ℕ → ℕ → ℕ → ℕ
adjusted_rank root wsize rank = if ltb rank root then rank + wsize - root else rank - root

-- `binary_router`: the list holds `children[0]` to `children[n - 1]`.
unfoldable pub binary_router : ℕ → ℕ → ℕ → List ℕ
binary_router root wsize rank =
    let child0 = adjusted_rank root wsize rank * 2 + 1 in
    let first = (child0 + root) % wsize in
    if leb wsize child0
    then []
    else if child0 == wsize - 1
    then first ∷ []
    else first ∷ ((first + 1) % wsize ∷ [])
