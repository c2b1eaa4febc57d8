-- ===== src/Compute/Pool/Balance.antt =====
-- The EDT pool of edt.c: what a call does to the occurrences of an address.
use arts.Prelude.{
  ℕ, ◌+◌, ◌<◌, ◌≡◌, arith, true, leb, Bool-cases, Option, none, some, inl, inr, List, [], ◌∷◌, ◌++◌,
  length, sub_u32, refl, ap,
}
use mathlib.Core.Path.{subst}
use arts.Compute.Pool.{
  Entry, Bucket, Pool, Effect, calloc, clear, free, bucket_sizes, max_per_bucket, bucket_index,
  ensure_init, take_head, alloc, alloc_at, release_at, or_calloc, push_entry, release, drain,
  cleanup, alloc_size, obtain,
}
use arts.Compute.Pool.Counts.{
  hit, in_entries, pooled, given, freed, IsValid, empty-IsFit, ensure_init-IsValid,
  ensure_init-ready, pooled-ensure_init, pooled-put, put-IsValid, AllSized,
}

-- The result of an allocation counts as one occurrence.
abbrev pub handed : ℕ → Option ℕ → ℕ
handed a none = 0
handed a (some x) = hit a x

bucket_index-bounded : (s i : ℕ) → bucket_index s ≡ some i → i < 4
unfolding bucket_index bucket_sizes
bucket_index-bounded s i e = ground arith

record TakeLaw (p : Pool) (r : Option ℕ × Pool × List Effect) : Type 0 where
  balance : (a : ℕ) → pooled a r.1 + handed a r.0 ≡ pooled a p
  valid : IsValid r.1
  silent : (a : ℕ) → (given a r.2 ≡ 0) × (freed a r.2 ≡ 0)

take_head_lem :
    (p : Pool) (i : ℕ) (es : List Entry)
    → IsValid p
    → p.initialized ≡ true
    → i < 4
    → (p.bucket i).entries ≡ es
    → TakeLaw p (take_head p i es)
unfolding take_head
take_head_lem p i [] ok ready small e = record {
  balance = λ a. omega arith;
  valid = ok;
  silent = λ a. (refl, refl);
}
take_head_lem p i (x ∷ es) ok ready small e =
    let fit = ok.fit i in
    let n : (p.bucket i).count ≡ length es + 1 = rw fit.counted (rw e (omega arith)) in
    let sized : AllSized (bucket_sizes i) (x ∷ es) =
      subst (AllSized (bucket_sizes i)) e fit.sized in
    let b : Bucket = record { entries = es; count = sub_u32 (p.bucket i).count 1 } in
    record {
      balance = λ a.
          let k = pooled-put a p i b small in
          let h : in_entries a (p.bucket i).entries ≡ hit a x.address + in_entries a es =
            ap (in_entries a) e in
          omega (arith, k, h);
      valid = put-IsValid p i b ok ready (record {
        counted = omega (arith, n, fit.bounded);
        bounded = omega (arith, n, fit.bounded);
        sized = sized.1;
      });
      silent = λ a. (refl, refl);
    }

alloc_at_lem :
    (p : Pool) (o : Option ℕ)
    → IsValid p
    → p.initialized ≡ true
    → ((i : ℕ) → o ≡ some i → i < 4)
    → TakeLaw p (alloc_at p o)
unfolding alloc_at
alloc_at_lem p none ok ready small = record {
  balance = λ a. omega arith;
  valid = ok;
  silent = λ a. (refl, refl);
}
alloc_at_lem p (some i) ok ready small =
    take_head_lem p i (p.bucket i).entries ok ready (small i refl) refl

alloc_lem : (p : Pool) (s : ℕ) → IsValid p → TakeLaw p (alloc p s)
unfolding alloc
alloc_lem p s ok =
    let law =
      alloc_at_lem (ensure_init p) (bucket_index s) (ensure_init-IsValid p ok) (ensure_init-ready p)
        (bucket_index-bounded s) in
    record {
      balance = λ a. omega (arith, law.balance a, pooled-ensure_init a p ok);
      valid = law.valid;
      silent = law.silent;
    }

pub given-append : (a : ℕ) (xs ys : List Effect) → given a (xs ++ ys) ≡ given a xs + given a ys
given-append a [] ys = omega arith
given-append a (calloc x s ∷ xs) ys = omega (arith, given-append a xs ys)
given-append a (clear x s ∷ xs) ys = given-append a xs ys
given-append a (free x ∷ xs) ys = given-append a xs ys

pub freed-append : (a : ℕ) (xs ys : List Effect) → freed a (xs ++ ys) ≡ freed a xs + freed a ys
freed-append a [] ys = omega arith
freed-append a (calloc x s ∷ xs) ys = freed-append a xs ys
freed-append a (clear x s ∷ xs) ys = freed-append a xs ys
freed-append a (free x ∷ xs) ys = omega (arith, freed-append a xs ys)

-- What one call does to the counts: `before` and `after` are what is held outside of the pool.
pub record Conserves (p : Pool) (before after : ℕ → ℕ) (p' : Pool) (out : List Effect)
    : Type 0 where
  pub balance : (a : ℕ) → pooled a p' + after a + freed a out ≡ pooled a p + before a + given a out
  pub valid : IsValid p'

or_calloc-Conserves :
    (p : Pool) (size fresh : ℕ) (r : Option ℕ × Pool × List Effect)
    → TakeLaw p r
    → (let t = or_calloc size fresh r in Conserves p (λ a. 0) (λ a. hit a t.0) t.1 t.2)
unfolding or_calloc
or_calloc-Conserves p size fresh (none, p', out) law = record {
  balance = λ a.
      let more = given-append a out (calloc fresh size ∷ []) in
      let back = freed-append a out (calloc fresh size ∷ []) in
      omega (arith, more, back, law.balance a, law.silent a);
  valid = law.valid;
}
or_calloc-Conserves p size fresh (some x, p', out) law = record {
  balance = λ a. omega (arith, law.balance a, law.silent a);
  valid = law.valid;
}

pub obtain-Conserves :
    (p : Pool) (space fresh : ℕ)
    → IsValid p
    → (let r = obtain p space fresh in Conserves p (λ a. 0) (λ a. hit a r.0) r.1 r.2)
unfolding obtain
obtain-Conserves p space fresh ok =
    or_calloc-Conserves p (alloc_size space) fresh (alloc p space) (alloc_lem p space ok)

release_at-Conserves :
    (p : Pool) (x : ℕ) (o : Option ℕ)
    → IsValid p
    → p.initialized ≡ true
    → ((i : ℕ) → o ≡ some i → i < 4)
    → (let r = release_at p x o in Conserves p (λ a. hit a x) (λ a. 0) r.0 r.1)
unfolding release_at push_entry
release_at-Conserves p x none ok ready small = record { balance = λ a. omega arith; valid = ok }
release_at-Conserves p x (some i) ok ready small =
    let b = p.bucket i in
    let fit = ok.fit i in
    elim (Bool-cases (leb max_per_bucket b.count)) [
      | inl full ↦ rw full (record { balance = λ a. omega arith; valid = ok })
      | inr room ↦ rw room (record {
        balance =
            λ a. let k = pooled-put a p i (push_entry i x b) (small i refl) in omega (arith, k);
        valid = put-IsValid p i (push_entry i x b) ok ready (record {
          counted = omega (arith, fit.counted);
          bounded = ground (arith, room);
          sized = (refl, fit.sized);
        });
      })
    ]

pub release-Conserves :
    (p : Pool) (x size : ℕ)
    → IsValid p
    → (let r = release p x size in Conserves p (λ a. hit a x) (λ a. 0) r.0 r.1)
unfolding release
release-Conserves p x size ok =
    let c =
      release_at-Conserves (ensure_init p) x (bucket_index size) (ensure_init-IsValid p ok)
        (ensure_init-ready p) (bucket_index-bounded size) in
    record { balance = λ a. omega (arith, c.balance a, pooled-ensure_init a p ok); valid = c.valid }

freed-drain : (a : ℕ) (es : List Entry) → freed a (drain es) ≡ in_entries a es
unfolding drain
freed-drain a [] = refl
freed-drain a (e ∷ es) = omega (arith, freed-drain a es)

given-drain : (a : ℕ) (es : List Entry) → given a (drain es) ≡ 0
unfolding drain
given-drain a [] = refl
given-drain a (e ∷ es) = given-drain a es

pub cleanup-Conserves :
    (p : Pool) → IsValid p → (let r = cleanup p in Conserves p (λ a. 0) (λ a. 0) r.0 r.1)
unfolding cleanup
cleanup-Conserves p ok = elim (Bool-cases p.initialized) [
  | inl on ↦ rw on (record {
    balance = λ a. simp (freed-append, given-append, freed-drain, given-drain) (omega arith);
    valid = record { fit = λ i. empty-IsFit (bucket_sizes i); unused = λ i h. refl };
  })
  | inr off ↦
      let e : cleanup p ≡ (p, []) = simp off in rw e (record { balance = λ a. refl; valid = ok })
]
