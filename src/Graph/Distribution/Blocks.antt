-- ===== src/Graph/Distribution/Blocks.antt =====
-- The blocks cut the vertices.
use arts.Prelude.{
  ℕ, zero, suc, ◌+◌, ◌-◌, ◌*◌, ◌/◌, ◌%◌, ◌^◌, ◌<◌, ◌≤◌, ◌≡◌, refl, arith, List, some, u32, u64,
  sub_u32, le→leb, ne→==,
}
use native.Mathlib.Nat.{
  zero-mul, mul-suc, mul-le-mul_left, div-lt_iff_lt-mul, mul_comm, div-add-mod, div-add-mod',
  mod-lt,
}
use native.Mathlib.Numerals.{add-one}
use native.Mathlib.Decide.{ℕ_discrete}
use arts.Graph.Distribution.{
  Dist, internal_init, get_block_size_for_partition, get_owner, partition_start, partition_end,
  get_vertex_from_local, get_local_index,
}

-- A distribution of at least one vertex.
pub record IsDist (d : Dist) : Type 0 where
  pub some_vertices : 0 < d.num_vertices
  pub some_blocks : 0 < d.num_blocks
  pub few_blocks : d.num_blocks < 2 ^ 32
  pub few_vertices : d.num_vertices + d.num_blocks < 2 ^ 63
  pub size : d.block_sz ≡ (d.num_vertices + d.num_blocks - 1) / d.num_blocks

positive_left : (q b : ℕ) → 0 < q * b → 0 < q
positive_left zero b h = absurd (omega (arith, rw (zero-mul b) at h))
positive_left (suc q) b h = omega arith

-- Rounding up: the blocks cover the vertices, and all but the last few of them are full.
ceil :
    (n b q : ℕ) → 0 < b → 0 < n → q ≡ (n + b - 1) / b → (n ≤ q * b) × (q * b ≤ n + b - 1) × (0 < q)
ceil n b q pos some_ e =
    let d : q * b + (n + b - 1) % b ≡ n + b - 1 = rw e (div-add-mod' (n + b - 1) b) in
    let m = mod-lt (n + b - 1) pos in
    let lo : n ≤ q * b = omega (arith, d, m) in
    (lo, omega (arith, d), positive_left q b (omega (arith, lo)))

internal_init-IsDist :
    (guids : List ℕ) (n m b : ℕ)
    → 0 < n
    → 0 < b
    → b < 2 ^ 32
    → n + b < 2 ^ 63
    → IsDist (internal_init guids n m b)
unfolding internal_init
internal_init-IsDist guids n m b some_ blocks few far = record {
  some_vertices = some_;
  some_blocks = blocks;
  few_blocks = few;
  few_vertices = far;
  size = ground (arith, blocks);
}

-- What the arithmetic of a distribution comes to.
record Facts (d : Dist) : Type 0 where
  covers : d.num_vertices ≤ d.block_sz * d.num_blocks
  tight : d.block_sz * d.num_blocks < d.num_vertices + d.num_blocks
  positive : 0 < d.block_sz

facts : (d : Dist) → IsDist d → Facts d
facts d ok =
    let c = ceil d.num_vertices d.num_blocks d.block_sz ok.some_blocks ok.some_vertices ok.size in
    record { covers = c.0; tight = omega (arith, c.1, ok.some_blocks); positive = c.2 }

-- Every vertex has a block, and is the vertex of its local index in the block.
pub get_local_index_lem :
    (d : Dist) (v : ℕ)
    → IsDist d
    → v < d.num_vertices
    → (get_owner v d < d.num_blocks)
      × (u : ℕ) × (get_local_index v d ≡ some u)
      × (u < d.block_sz)
      × (get_vertex_from_local (get_owner v d) u d ≡ v)
unfolding get_owner get_local_index partition_start get_vertex_from_local
get_local_index_lem d v ok inside =
    let f = facts d ok in
    let q = v / d.block_sz in
    let dm = div-add-mod v d.block_sz in
    let m = mod-lt v f.positive in
    let few : q < d.num_blocks =
      (div-lt_iff_lt-mul f.positive).1
        (rw (mul_comm d.num_blocks d.block_sz) (omega (arith, f.covers))) in
    let e₁ : u32 q ≡ q = omega (arith, few, ok.few_blocks) in
    let e₂ : u64 (d.block_sz * q) ≡ d.block_sz * q = omega (arith, dm, ok.few_vertices) in
    let e₃ : u64 (d.block_sz * q + (v - d.block_sz * q)) ≡ v = omega (arith, dm, ok.few_vertices) in
    (
      rw e₁ few,
      v - d.block_sz * q,
      simp (e₁, e₂, le→leb (d.block_sz * q) v (omega (arith, dm))),
      omega (arith, dm, m),
      rw (e₁, e₂, e₃) refl,
    )

-- The start of a block, without a wrap.
start_exact :
    (d : Dist) (i : ℕ)
    → IsDist d
    → i < d.num_blocks
    → (u64 (d.block_sz * i) ≡ d.block_sz * i)
      × (d.block_sz * i + d.block_sz ≤ d.block_sz * d.num_blocks)
start_exact d i ok h =
    let f = facts d ok in
    let h' : suc i ≤ d.num_blocks = omega arith in
    let m = rw (mul-suc d.block_sz i) at (mul-le-mul_left d.block_sz h') in
    (omega (arith, m, f.tight, ok.few_vertices), m)

-- If the last block is not empty, each block of a distribution runs from its start over its size to
-- its end, the next one starts behind it, and the last one ends with the last vertex.
pub partition_end_lem :
    (d : Dist) (i : ℕ)
    → IsDist d
    → d.block_sz * (d.num_blocks - 1) < d.num_vertices
    → i < d.num_blocks
    → (partition_end i d + 1 ≡ partition_start i d + get_block_size_for_partition i d)
      × (i + 1 < d.num_blocks → partition_end i d + 1 ≡ partition_start (i + 1) d)
      × (i + 1 ≡ d.num_blocks → partition_end i d + 1 ≡ d.num_vertices)
unfolding partition_end partition_start get_block_size_for_partition
partition_end_lem d i ok full h =
    let f = facts d ok in
    let s = start_exact d i ok h in
    let e₁ : sub_u32 d.num_blocks 1 ≡ d.num_blocks - 1 =
      omega (arith, ok.few_blocks, ok.some_blocks) in
    elim (ℕ_discrete (i + 1) d.num_blocks) [
      | yes e ↦
          let e₂ : i ≡ d.num_blocks - 1 = omega (arith, e) in
          let full' = rw (← e₂) at full in ground (arith, e₁, e₂, s, full', ok.few_vertices)
      | no ne ↦
          let e₂ = ne→== i (d.num_blocks - 1) (λ e. ne (omega (arith, e, ok.some_blocks))) in
          let next = start_exact d (i + 1) ok (omega (arith, ne)) in
          let more : d.block_sz * (i + 1) ≡ d.block_sz * i + d.block_sz =
            rw (add-one i) (mul-suc d.block_sz i) in
          ground (arith, e₁, e₂, ne, s, next, more, ok.few_vertices, f)
    ]

-- If the blocks before the last one already hold more than all vertices, which a number of blocks
-- that is close to that of the vertices leads to, the size of the last block wraps around.
pub get_block_size-wraps :
    (d : Dist)
    → IsDist d
    → d.num_vertices < d.block_sz * (d.num_blocks - 1)
    → get_block_size_for_partition (d.num_blocks - 1) d + d.block_sz * (d.num_blocks - 1)
      ≡ 2 ^ 64 + d.num_vertices
unfolding get_block_size_for_partition
get_block_size-wraps d ok over =
    let e₁ : sub_u32 d.num_blocks 1 ≡ d.num_blocks - 1 =
      omega (arith, ok.few_blocks, ok.some_blocks) in
    let s = start_exact d (d.num_blocks - 1) ok (omega (arith, ok.some_blocks)) in
    let f = facts d ok in ground (arith, e₁, s, f.tight, f.covers, ok.few_vertices)
