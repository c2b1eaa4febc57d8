-- ===== src/Graph/Distribution.antt =====
-- libs/src/graph/distribution/block_distribution.c: the vertices 0 to num_vertices - 1 cut into
-- blocks of one size, and the GUID of each block. Vertices and sizes are `uint64_t`, block numbers
-- `unsigned int`. `none` stands for a failed assertion.
pub mod Blocks
pub mod Local
mod Tests
use arts.Prelude.{
  ℕ, zero, suc, ◌+◌, ◌-◌, ◌*◌, ◌/◌, ◌%◌, ◌^◌, Bool, true, false, ltb, leb, ◌==◌, if◌then◌else◌,
  Option, none, some, List, [], ◌∷◌, get_or, u32, u64, sub_u32, sub_u64,
}
use arts.Gas.Guid.{Node, is_local}

-- `arts_block_dist_t`
pub record Dist : Type 0 where
  pub num_vertices : ℕ
  pub num_edges : ℕ
  pub block_sz : ℕ
  pub num_blocks : ℕ
  pub graph_guid : List ℕ

-- `internal_init_block_distribution`, given the GUIDs.
unfoldable pub internal_init : List ℕ → (n m num_blocks : ℕ) → Dist
internal_init guids n m num_blocks = record {
  num_vertices = n;
  num_edges = m;
  block_sz = (if ltb 0 num_blocks then u64 (sub_u64 (u64 (n + num_blocks)) 1) / num_blocks else 0);
  num_blocks = num_blocks;
  graph_guid = guids;
}

unfoldable pub get_block_size_for_partition : (index : ℕ) → Dist → ℕ
get_block_size_for_partition index d =
    if index == sub_u32 d.num_blocks 1
    then sub_u64 d.num_vertices (u64 (sub_u32 d.num_blocks 1 * d.block_sz))
    else d.block_sz

unfoldable pub get_owner : (v : ℕ) → Dist → ℕ
get_owner v d = u32 (v / d.block_sz)

unfoldable pub partition_start : (index : ℕ) → Dist → ℕ
partition_start index d = u64 (d.block_sz * index)

unfoldable pub partition_end : (index : ℕ) → Dist → ℕ
partition_end index d =
    if index == sub_u32 d.num_blocks 1
    then sub_u64 d.num_vertices 1
    else u64 (partition_start index d + sub_u64 d.block_sz 1)

unfoldable pub get_vertex_from_local : (local u : ℕ) → Dist → ℕ
get_vertex_from_local local u d = u64 (partition_start local d + u)

unfoldable pub get_local_index : (v : ℕ) → Dist → Option ℕ
get_local_index v d =
    let base = partition_start (get_owner v d) d in if leb base v then some (v - base) else none

unfoldable pub get_guid_for_vertex : (v : ℕ) → Dist → Option ℕ
get_guid_for_vertex v d =
    let owner = get_owner v d in
    if ltb owner d.num_blocks then some (get_or d.graph_guid owner 0) else none

unfoldable pub get_guid_for_partition : Dist → (index : ℕ) → ℕ
get_guid_for_partition d index = get_or d.graph_guid index 0

-- The loop of `get_num_local_blocks`, from `i` with `k` rounds left.
unfoldable pub count_local : Node → Dist → (i k : ℕ) → Option ℕ
count_local n d i zero = some 0
count_local n d i (suc k) =
    let rest = count_local n d (i + 1) k in
    elim (get_guid_for_vertex i d) [
      | none ↦ none
      | some g ↦ elim rest [ none ↦ none | some c ↦ some (if is_local n g then suc c else c) ]
    ]

unfoldable pub get_num_local_blocks : Node → Dist → Option ℕ
get_num_local_blocks n d = count_local n d 0 d.num_blocks
