-- ===== src/Graph/Distribution/Local.antt =====
-- What `get_num_local_blocks` counts.
use arts.Prelude.{ℕ, zero, suc, ◌+◌, ◌<◌, ◌≤◌, ◌≡◌, arith, some, if◌then◌else◌, lt→ltb}
use native.Mathlib.Nat.{div-eq_of_lt}
use arts.Gas.Guid.{Node, is_local}
use arts.Graph.Distribution.{
  Dist, get_owner, get_guid_for_vertex, get_guid_for_partition, count_local, get_num_local_blocks,
}

first_block :
    (d : Dist) (i : ℕ)
    → 0 < d.num_blocks
    → i < d.block_sz
    → get_guid_for_vertex i d ≡ some (get_guid_for_partition d 0)
unfolding get_guid_for_vertex get_guid_for_partition get_owner
first_block d i some_ h = simp (div-eq_of_lt h, lt→ltb 0 d.num_blocks some_)

count_all :
    (n : Node) (d : Dist) (i k : ℕ)
    → 0 < d.num_blocks
    → i + k ≤ d.block_sz
    → count_local n d i k ≡ some (if is_local n (get_guid_for_partition d 0) then k else 0)
unfolding count_local
count_all n d i zero some_ h = ground arith
count_all n d i (suc k) some_ h =
    let ih = count_all n d (i + 1) k some_ (omega arith) in
    ground (arith, ih, first_block d i some_ (omega arith))

-- The loop takes its index, the number of a block, for a vertex. So when a block holds at least as
-- many vertices as there are blocks, it counts all blocks as local if block 0 is, and else none,
-- whichever nodes the other blocks belong to.
pub get_num_local_blocks_lem :
    (n : Node) (d : Dist)
    → 0 < d.num_blocks
    → d.num_blocks ≤ d.block_sz
    → get_num_local_blocks n d
      ≡ some (if is_local n (get_guid_for_partition d 0) then d.num_blocks else 0)
unfolding get_num_local_blocks
get_num_local_blocks_lem n d some_ h = count_all n d 0 d.num_blocks some_ (omega arith)
