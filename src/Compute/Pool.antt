-- ===== src/Compute/Pool.antt =====
-- The EDT memory pool of libs/src/core/compute/edt.c: four buckets of freed allocations, by size. An
-- allocation is a pointer, 0 is NULL; a bucket is the list that its `next` fields chain. Each worker
-- has its own pool, so every call runs alone.
pub mod Counts
pub mod Balance
pub mod Life
pub mod Reuse
mod Tests
use arts.Prelude.{
  ℕ, ◌+◌, Bool, true, false, leb, if◌then◌else◌, Option, none, some, List, [], ◌∷◌, ◌++◌, get_or,
  ◌==◌, sub_u32,
}

-- `edt_pool_entry_t` without its `next`
pub record Entry : Type 0 where
  pub address : ℕ
  pub alloc_size : ℕ

-- `edt_pool_bucket_t`
pub record Bucket : Type 0 where
  pub entries : List Entry
  pub count : ℕ

-- `edt_pool` and `edt_pool_initialized`
pub record Pool : Type 0 where
  pub bucket : ℕ → Bucket
  pub initialized : Bool

-- Calls of the allocator.
pub data Effect : Type 0 where
  calloc : (address size : ℕ) → Effect
  clear : (address size : ℕ) → Effect
  free : (address : ℕ) → Effect

-- `edt_pool_bucket_sizes`
unfoldable pub bucket_sizes : ℕ → ℕ
bucket_sizes i = get_or (128 ∷ 256 ∷ 512 ∷ 1024 ∷ []) i 0

abbrev pub max_per_bucket : ℕ
max_per_bucket = 64

-- `edt_pool_bucket_index`; -1 is `none`.
unfoldable pub bucket_index : ℕ → Option ℕ
bucket_index size =
    if leb size (bucket_sizes 0)
    then some 0
    else if leb size (bucket_sizes 1)
    then some 1
    else if leb size (bucket_sizes 2)
    then some 2
    else if leb size (bucket_sizes 3)
    then some 3
    else none

abbrev pub no_entries : Bucket
no_entries = record { entries = []; count = 0 }

-- `edt_pool_ensure_init`
unfoldable pub ensure_init : Pool → Pool
ensure_init p = if p.initialized then p else record { bucket = λ i. no_entries; initialized = true }

unfoldable pub put : Pool → ℕ → Bucket → Pool
put p i b = record p { bucket = λ j. if i == j then b else p.bucket j }

unfoldable pub take_head : Pool → ℕ → List Entry → Option ℕ × Pool × List Effect
take_head p i [] = (none, p, [])
take_head p i (e ∷ es) = (
  some e.address,
  put p i (record { entries = es; count = sub_u32 (p.bucket i).count 1 }),
  clear e.address (bucket_sizes i) ∷ [],
)

unfoldable pub alloc_at : Pool → Option ℕ → Option ℕ × Pool × List Effect
alloc_at p none = (none, p, [])
alloc_at p (some i) = take_head p i (p.bucket i).entries

-- `edt_pool_alloc`
unfoldable pub alloc : Pool → (size : ℕ) → Option ℕ × Pool × List Effect
alloc p size = alloc_at (ensure_init p) (bucket_index size)

-- The entry that a freed block becomes.
unfoldable pub push_entry : ℕ → ℕ → Bucket → Bucket
push_entry i a b = record {
  entries = record { address = a; alloc_size = bucket_sizes i } ∷ b.entries;
  count = b.count + 1;
}

unfoldable pub release_at : Pool → (address : ℕ) → Option ℕ → Pool × List Effect
release_at p a none = (p, free a ∷ [])
release_at p a (some i) =
    if leb max_per_bucket (p.bucket i).count
    then (p, free a ∷ [])
    else (put p i (push_entry i a (p.bucket i)), [])

-- `edt_pool_free`
unfoldable pub release : Pool → (address size : ℕ) → Pool × List Effect
release p a size = release_at (ensure_init p) a (bucket_index size)

-- The `while` of `arts_cleanup_edt_pool` over one bucket
unfoldable pub drain : List Entry → List Effect
drain [] = []
drain (e ∷ es) = free e.address ∷ drain es

-- `arts_cleanup_edt_pool`
unfoldable pub cleanup : Pool → Pool × List Effect
cleanup p =
    if p.initialized
    then (
      record { bucket = λ i. no_entries; initialized = false },
      drain (p.bucket 0).entries
          ++ (drain (p.bucket 1).entries
              ++ (drain (p.bucket 2).entries ++ drain (p.bucket 3).entries)),
    )
    else (p, [])

unfoldable pub size_at : ℕ → Option ℕ → ℕ
size_at space none = space
size_at space (some i) = bucket_sizes i

-- The size that `arts_edt_create_internal` records: the bucket's, or the requested one.
unfoldable pub alloc_size : ℕ → ℕ
alloc_size space = size_at space (bucket_index space)

unfoldable pub or_calloc : (size fresh : ℕ) → Option ℕ × Pool × List Effect → ℕ × Pool × List Effect
or_calloc size fresh (none, p, out) = (fresh, p, out ++ (calloc fresh size ∷ []))
or_calloc size fresh (some a, p, out) = (a, p, out)

-- The allocation in `arts_edt_create_internal`, `fresh` being what the allocator would give.
unfoldable pub obtain : Pool → (space fresh : ℕ) → ℕ × Pool × List Effect
obtain p space fresh = or_calloc (alloc_size space) fresh (alloc p space)
