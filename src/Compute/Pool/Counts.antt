-- ===== src/Compute/Pool/Counts.antt =====
-- The EDT pool of edt.c: how often an address occurs in it, and when it is well-formed.
use arts.Prelude.{
  ℕ, zero, suc, ◌+◌, ◌≤◌, ◌<◌, ◌≡◌, arith, true, false, ◌==◌, if◌then◌else◌, Bool-cases, ==→eq, inl,
  inr, List, tally, All, [], ◌∷◌, length, sym, refl,
}
use arts.Compute.Pool.{
  Entry, Bucket, Pool, Effect, calloc, free, bucket_sizes, max_per_bucket, no_entries, ensure_init,
  put,
}

abbrev pub hit : ℕ → ℕ → ℕ
hit a x = if a == x then 1 else 0

-- How often an address occurs among the entries of a bucket, in the pool, among blocks, and how
-- often the allocator gave it and got it back.
abbrev pub in_entries : ℕ → List Entry → ℕ
in_entries a es = tally (λ e. hit a e.address) es

abbrev pub pooled : ℕ → Pool → ℕ
pooled a p =
    in_entries a (p.bucket 0).entries
    + (in_entries a (p.bucket 1).entries
        + (in_entries a (p.bucket 2).entries + in_entries a (p.bucket 3).entries))

abbrev pub given : ℕ → List Effect → ℕ
given a [] = 0
given a (calloc x s ∷ es) = hit a x + given a es
given a (_ ∷ es) = given a es

abbrev pub freed : ℕ → List Effect → ℕ
freed a [] = 0
freed a (free x ∷ es) = hit a x + freed a es
freed a (_ ∷ es) = freed a es

abbrev pub AllSized : ℕ → List Entry → Type 0
AllSized s es = All (λ e. e.alloc_size ≡ s) es

-- The count of a bucket is the length of its list and at most 64, and its entries have its size.
pub record IsFit (size : ℕ) (b : Bucket) : Type 0 where
  pub counted : b.count ≡ length b.entries
  pub bounded : b.count ≤ max_per_bucket
  pub sized : AllSized size b.entries

-- Every bucket fits its size, and the pool is empty before its first use.
pub record IsValid (p : Pool) : Type 0 where
  pub fit : (i : ℕ) → IsFit (bucket_sizes i) (p.bucket i)
  pub unused : (i : ℕ) → p.initialized ≡ false → (p.bucket i).entries ≡ []

pub empty-IsFit : (size : ℕ) → IsFit size no_entries
empty-IsFit size = record { counted = refl; bounded = omega arith; sized = tt }

pub entries-ensure_init :
    (p : Pool) (i : ℕ) → IsValid p → ((ensure_init p).bucket i).entries ≡ (p.bucket i).entries
unfolding ensure_init
entries-ensure_init p i ok = elim (Bool-cases p.initialized) [
  | inl on ↦ simp on
  | inr off ↦ simp (off, ok.unused i off)
]

pub ensure_init-IsValid : (p : Pool) → IsValid p → IsValid (ensure_init p)
unfolding ensure_init
ensure_init-IsValid p ok = elim (Bool-cases p.initialized) [
  | inl on ↦ let e : ensure_init p ≡ p = simp on in rw e ok
  | inr off ↦ rw off (record { fit = λ i. empty-IsFit (bucket_sizes i); unused = λ i h. refl })
]

pub ensure_init-ready : (p : Pool) → (ensure_init p).initialized ≡ true
unfolding ensure_init
ensure_init-ready p = elim (Bool-cases p.initialized) [ inl on ↦ simp on | inr off ↦ simp off ]

pub pooled-ensure_init : (a : ℕ) (p : Pool) → IsValid p → pooled a (ensure_init p) ≡ pooled a p
pooled-ensure_init a p ok = simp (
  entries-ensure_init p 0 ok,
  entries-ensure_init p 1 ok,
  entries-ensure_init p 2 ok,
  entries-ensure_init p 3 ok,
)

pub pooled-put :
    (a : ℕ) (p : Pool) (i : ℕ) (b : Bucket)
    → i < 4
    → pooled a (put p i b) + in_entries a (p.bucket i).entries ≡ pooled a p + in_entries a b.entries
unfolding put
pooled-put a p zero b h = omega arith
pooled-put a p (suc zero) b h = omega arith
pooled-put a p (suc (suc zero)) b h = omega arith
pooled-put a p (suc (suc (suc zero))) b h = omega arith
pooled-put a p (suc (suc (suc (suc i)))) b h = absurd (omega arith)

pub put-IsValid :
    (p : Pool) (i : ℕ) (b : Bucket)
    → IsValid p
    → p.initialized ≡ true
    → IsFit (bucket_sizes i) b
    → IsValid (put p i b)
unfolding put
put-IsValid p i b ok ready new = record {
  fit = λ j. elim (Bool-cases (i == j)) [
    | inl same ↦ rw (same, sym (==→eq i j same)) new
    | inr other ↦ rw other (ok.fit j)
  ];
  unused = λ j h. cc;
}
