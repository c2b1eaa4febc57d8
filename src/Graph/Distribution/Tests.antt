-- ===== src/Graph/Distribution/Tests.antt =====
-- The block distribution theorems at concrete inputs.
use arts.Prelude.{ℕ, ◌+◌, ◌^◌, ◌<◌, ◌≡◌, refl, arith, [], ◌∷◌, some}
use arts.Gas.Guid.{Node, guid_make}
use arts.Graph.Distribution.{
  Dist, get_block_size_for_partition, get_owner, partition_start, partition_end, get_local_index,
  get_vertex_from_local, internal_init,
}
use arts.Graph.Distribution.Blocks.{
  IsDist, get_local_index_lem, partition_end_lem, get_block_size-wraps,
}

-- Ten vertices in four blocks of three, the last of one; block b belongs to node b.
abbrev ten : Dist
ten = record {
  num_vertices = 10;
  num_edges = 0;
  block_sz = 3;
  num_blocks = 4;
  graph_guid = guid_make 6 0 1 ∷ guid_make 6 1 1 ∷ guid_make 6 2 1 ∷ guid_make 6 3 1 ∷ [];
}

ten-IsDist : IsDist ten
ten-IsDist = record {
  some_vertices = omega arith;
  some_blocks = omega arith;
  few_blocks = omega arith;
  few_vertices = omega arith;
  size = refl;
}

get_local_index_lem_example :
    (get_owner 7 ten < 4)
    × (u : ℕ) × (get_local_index 7 ten ≡ some u)
    × (u < 3)
    × (get_vertex_from_local (get_owner 7 ten) u ten ≡ 7)
get_local_index_lem_example = get_local_index_lem ten 7 ten-IsDist (omega arith)

partition_end_lem_example :
    (partition_end 3 ten + 1 ≡ partition_start 3 ten + get_block_size_for_partition 3 ten)
    × (4 < 4 → partition_end 3 ten + 1 ≡ partition_start 4 ten)
    × (◌≡◌ {A = ℕ} 4 4 → partition_end 3 ten + 1 ≡ 10)
partition_end_lem_example = partition_end_lem ten 3 ten-IsDist (omega arith) (omega arith)

-- Five vertices in four blocks of two: three blocks hold six.
abbrev five : Dist
five = record { num_vertices = 5; num_edges = 0; block_sz = 2; num_blocks = 4; graph_guid = [] }

five-made : internal_init [] 5 0 4 ≡ five
unfolding internal_init
five-made = refl

get_block_size-wraps_example : get_block_size_for_partition 3 five + 6 ≡ 2 ^ 64 + 5
get_block_size-wraps_example =
    get_block_size-wraps five
      (record {
        some_vertices = omega arith;
        some_blocks = omega arith;
        few_blocks = omega arith;
        few_vertices = omega arith;
        size = refl;
      })
      (omega arith)

-- Node 0 of four has one block of forty vertices in four, and counts four.
abbrev forty : Dist
forty = record ten { num_vertices = 40; block_sz = 10 }

abbrev node : Node
node = record { rank_id = 0; rank_count = 4; worker_thread_count = 1 }
