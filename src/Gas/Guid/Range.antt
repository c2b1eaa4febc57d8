-- ===== src/Gas/Guid/Range.antt =====
-- Reserving single GUIDs and hash-aligned ranges: `arts_guid_reserve` and
-- `arts_guid_reserve_range_hash`.
use arts.Prelude.{
  ℕ, zero, suc, ◌+◌, ◌-◌, ◌%◌, ◌^◌, ◌<◌, ◌≤◌, ◌≡◌, ◌⊎◌, refl, arith, Option, none, some, true,
  false, ap, ◌∙◌, ◌*◌, ◌/◌, ◌≢◌, ◌==◌, if◌then◌else◌, Bool-cases, inl, inr, u64, u32, ne→==,
}
use native.Mathlib.Nat.{mul-mod_left}
use arts.Gas.Guid.{
  Generator, Node, guid_make, get_key, get_rank, get_type, null_guid, last_type, valid_type,
  create_for_rank_internal, reserve, current_node, align_start, reserve_range_hash, from_index,
}
use arts.Gas.Guid.Alloc.{IsReady, Request, IsRequest, create-Granted, slot}

-- A reservation that is granted: for a valid type the GUID carries that type, and the rank
-- `route % rank_count` (the node's own rank so reduced for ARTS_HINT_CURRENT_NODE); for any other
-- type it is NULL_GUID, and the generator is as before. The cluster has 1 to 2^16 ranks.
pub reserve_lem :
    (n : Node) (s s' : Generator) (thread type route g : ℕ)
    → 0 < n.rank_count
    → n.rank_count ≤ 2 ^ 16
    → reserve n s thread type route ≡ some (g, s')
    → ((valid_type type ≡ true)
        × (get_type g ≡ type)
        × (get_rank g ≡ (if route == current_node then n.rank_id else route) % n.rank_count))
      ⊎ ((valid_type type ≡ false) × (g ≡ null_guid) × (s' ≡ s))
unfolding reserve create_for_rank_internal guid_make get_type get_rank
reserve_lem n s s' thread type route g pos small h = elim (Bool-cases (valid_type type)) [
  | inl v ↦ inl (v, ground arith, ground arith)
  | inr v ↦ inr (v, ground arith, ground arith)
]

record Aligned (k type rank key m target : ℕ) : Type 0 where
  last : ℕ
  result : align_start k (guid_make type rank key) m ≡ guid_make type rank last
  from : key ≤ last
  near : last ≤ target
  divides : last % m ≡ 0

next_key :
    (type rank key : ℕ)
    → type < last_type
    → rank < 2 ^ 16
    → key + 1 < 2 ^ 40
    → u64 (guid_make type rank key + 1) ≡ guid_make type rank (key + 1)
unfolding guid_make
next_key type rank key ht hr hk = omega arith

get_key-guid_make :
    (type rank key : ℕ) → rank < 2 ^ 16 → key < 2 ^ 40 → get_key (guid_make type rank key) ≡ key
unfolding guid_make get_key
get_key-guid_make type rank key hr hk = omega arith

-- `align_start` stops at the next multiple of `m`, if there is one within its rounds.
align_start-Aligned :
    (k type rank key m target : ℕ)
    → type < last_type
    → rank < 2 ^ 16
    → key + k < 2 ^ 40
    → key ≤ target
    → target ≤ key + k
    → target % m ≡ 0
    → Aligned k type rank key m target
unfolding align_start
align_start-Aligned zero type rank key m target ht hr hk le ge hd = record {
  last = key;
  result = refl;
  from = omega arith;
  near = omega arith;
  divides = let e : key ≡ target = omega arith in rw e hd;
}
align_start-Aligned (suc k) type rank key m target ht hr hk le ge hd =
    elim (Bool-cases (get_key (guid_make type rank key) % m == 0)) [
      | inl now ↦ record {
        last = key;
        result = rw now;
        from = omega arith;
        near = le;
        divides = ground (arith, get_key-guid_make type rank key);
      }
      | inr later ↦
          let e : key % m ≢ 0 = ground (arith, get_key-guid_make type rank key) in
          let ne : key ≢ target = λ q. e (ap (λ t. t % m) q ∙ hd) in
          let r =
            align_start-Aligned k type rank (key + 1) m target ht hr (omega arith) (omega arith)
              (omega arith) hd in
          record {
            last = r.last;
            result = rw (later, next_key type rank key ht hr (omega arith)) r.result;
            from = omega (arith, r.from);
            near = r.near;
            divides = r.divides;
          }
    ]

-- The next multiple of `m` at or above `key` is less than `m` away.
next_multiple : (key m : ℕ) → 0 < m → (t : ℕ) × (key ≤ t) × (t < key + m) × (t % m ≡ 0)
next_multiple key m pos =
    ((key + m - 1) / m * m, omega arith, omega arith, mul-mod_left ((key + m - 1) / m) m)

record Created (s s' : Generator) (thread type size route hash_size g : ℕ) : Type 0 where
  start : ℕ
  made : create_for_rank_internal s thread route type (size + hash_size) ≡ some (start, s')
  aligned : g ≡ align_start hash_size start hash_size

reserve_range_hash-create :
    (s s' : Generator) (thread type size route hash_size g : ℕ)
    → valid_type type ≡ true
    → 0 < size
    → size + hash_size < 2 ^ 32
    → reserve_range_hash s thread type size route hash_size ≡ some (g, s')
    → Created s s' thread type size route hash_size g
unfolding reserve_range_hash
reserve_range_hash-create s s' thread type size route hash_size g hv hs fit h =
    go (create_for_rank_internal s thread route type (size + hash_size)) refl h'
  where
    pick : Option (ℕ × Generator) → Option (ℕ × Generator)
    pick c = elim c [
      | none ↦ none
      | some (start, s') ↦ some (align_start hash_size start hash_size, s')
    ]

    whole : u32 (size + hash_size) ≡ size + hash_size
    whole = omega arith

    h' : pick (create_for_rank_internal s thread route type (size + hash_size)) ≡ some (g, s')
    h' = rw (hv, ne→== size 0 (omega arith), whole) at h

    go :
        (c : Option (ℕ × Generator))
        → create_for_rank_internal s thread route type (size + hash_size) ≡ c
        → pick c ≡ some (g, s')
        → Created s s' thread type size route hash_size g
    go none e q = cc
    go (some (start, s₁)) e q = record {
      start = start;
      made = ground arith;
      aligned = ground arith;
    }

from_index-sub :
    (type route key last g start : ℕ)
    → g ≡ guid_make type route last
    → start ≡ guid_make type route key
    → type < last_type
    → route < 2 ^ 16
    → key ≤ last
    → last < 2 ^ 40
    → g ≡ from_index start (last - key)
unfolding from_index guid_make
from_index-sub type route key last g start e e' ht hr le lt = omega arith

last-divides :
    (type route last m g : ℕ)
    → g ≡ guid_make type route last
    → route < 2 ^ 16
    → last < 2 ^ 40
    → last % m ≡ 0
    → get_key g % m ≡ 0
last-divides type route last m g e hr lt d = rw (e, get_key-guid_make type route last hr lt) d

-- A hash-aligned range that is granted: its start is a multiple of the hash size, it lies `i` keys
-- above the start of the `size + hash_size` keys that were taken from the allocator, and `i` is
-- below the hash size, so that `size` keys from it are inside what was taken.
pub reserve_range_hash_lem :
    (n : ℕ) (s s' : Generator) (thread type size route hash_size g : ℕ)
    → IsReady n s
    → thread < n
    → route < 2 ^ 16
    → valid_type type ≡ true
    → 0 < size
    → 0 < hash_size
    → size + hash_size < 2 ^ 32
    → reserve_range_hash s thread type size route hash_size ≡ some (g, s')
    → (start i : ℕ) × (create_for_rank_internal s thread route type (size + hash_size)
        ≡ some (start, s'))
      × (g ≡ from_index start i)
      × (i < hash_size)
      × (get_key g % hash_size ≡ 0)
reserve_range_hash_lem n s s' thread type size route hash_size g ok ht hr hv hs hh fit h =
    let c = reserve_range_hash-create s s' thread type size route hash_size g hv hs fit h in
    let gr = create-Granted n s s' request c.start ok is_request c.made in
    let room = ok.fits thread ht in
    let key = s.keys_per_thread * s.global_guid_thread_id thread + s.keys thread (slot request) in
    let (t, above, below, divides) = next_multiple key hash_size hh in
    let r =
      align_start-Aligned hash_size type route key hash_size t is_request.type_in hr
        (omega (arith, gr.room, room)) above (omega arith) divides in
    let below_2^40 : r.last < 2 ^ 40 = omega (arith, gr.room, room, r.near) in
    (
      c.start,
      r.last - key,
      c.made,
      from_index-sub type route key r.last g c.start (cc (c.aligned, gr.guid, r.result)) gr.guid
          is_request.type_in hr (r.from) below_2^40,
      omega (arith, r.near, r.from),
      last-divides type route r.last hash_size g (cc (c.aligned, gr.guid, r.result)) hr below_2^40
          r.divides,
    )
  where
    request : Request
    request = record { thread = thread; route = route; type = type; count = size + hash_size }

    is_request : IsRequest n request
    is_request = ground arith
