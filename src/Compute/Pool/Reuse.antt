-- ===== src/Compute/Pool/Reuse.antt =====
-- The EDT pool of edt.c: a freed block is what the next EDT of its size class gets.
use arts.Prelude.{
  ℕ, ◌≤◌, ◌≡◌, arith, some, [], ◌∷◌, refl, ap, ap₂, sub_u32, ◌<◌, lt→leb, eq→==, ◌∙◌,
}
use arts.Compute.Pool.{
  Pool, obtain, release, alloc_size, bucket_index, max_per_bucket, ensure_init, bucket_sizes,
  size_at, put, push_entry, release_at, clear, alloc, alloc_at, or_calloc, take_head,
}
use arts.Compute.Pool.Counts.{ensure_init-ready}

-- The recorded size has the bucket of the requested one, and holds it.
alloc_size-bucket : (s : ℕ) → (bucket_index (alloc_size s) ≡ bucket_index s) × (s ≤ alloc_size s)
unfolding alloc_size size_at bucket_index bucket_sizes
alloc_size-bucket s = ground arith

alloc_size-of : (s i : ℕ) → bucket_index s ≡ some i → alloc_size s ≡ bucket_sizes i
unfolding alloc_size size_at
alloc_size-of s i e = simp e

module _ (p : Pool) (x i : ℕ) where
  abbrev filled : Pool
  filled = put (ensure_init p) i (push_entry i x ((ensure_init p).bucket i))

  filled-ready : ensure_init filled ≡ filled
  unfolding ensure_init put
  filled-ready = simp (ensure_init-ready p)

  released :
      (size : ℕ)
      → ((ensure_init p).bucket i).count < max_per_bucket
      → bucket_index size ≡ some i
      → release p x size ≡ (filled, [])
  unfolding release release_at
  released size room e = simp (e, lt→leb ((ensure_init p).bucket i).count max_per_bucket room)

  bucket-filled : filled.bucket i ≡ push_entry i x ((ensure_init p).bucket i)
  unfolding put
  bucket-filled = simp (eq→== i i refl)

  abbrev emptied : Pool
  emptied = put filled i (record {
    entries = ((ensure_init p).bucket i).entries;
    count = sub_u32 (filled.bucket i).count 1;
  })

  alloc-filled :
      (size : ℕ)
      → bucket_index size ≡ some i
      → alloc filled size ≡ (some x, emptied, clear x (bucket_sizes i) ∷ [])
  unfolding alloc alloc_at push_entry take_head
  alloc-filled size e =
      ap₂ alloc_at filled-ready e ∙ ap (take_head filled i) (ap (λ b. b.entries) bucket-filled)

  bucket-emptied : (emptied.bucket i).entries ≡ ((ensure_init p).bucket i).entries
  unfolding put
  bucket-emptied = simp (eq→== i i refl)

  obtain-filled :
      (size fresh : ℕ)
      → bucket_index size ≡ some i
      → obtain filled size fresh ≡ (x, emptied, clear x (bucket_sizes i) ∷ [])
  unfolding obtain or_calloc
  obtain-filled size fresh e = ap (or_calloc (alloc_size size) fresh) (alloc-filled size e)

-- The block of an EDT of `s` bytes is freed, with its recorded size, while its bucket has room, and
-- an EDT of `s'` bytes of the same size class is created next: the allocator is not called, the new
-- EDT gets that block, cleared up to the bucket's size, which holds it, and the bucket's list is what
-- it was.
pub release-obtain :
    (p : Pool) (x s s' fresh i : ℕ)
    → bucket_index s ≡ some i
    → bucket_index s' ≡ some i
    → ((ensure_init p).bucket i).count < max_per_bucket
    → (let (p', out) = release p x (alloc_size s) in
        let (y, p'', out') = obtain p' s' fresh in
        (out ≡ [])
        × (y ≡ x)
        × (out' ≡ clear x (alloc_size s') ∷ [])
        × (s' ≤ alloc_size s')
        × ((p''.bucket i).entries ≡ ((ensure_init p).bucket i).entries))
release-obtain p x s s' fresh i e e' room =
    rw
      (
        released p x i (alloc_size s) room ((alloc_size-bucket s).0 ∙ e),
        obtain-filled p x i s' fresh e',
        alloc_size-of s' i e',
      )
      (
        refl,
        refl,
        refl,
        rw⁻¹ (alloc_size-of s' i e') (alloc_size-bucket s').1,
        bucket-emptied p x i,
      )
