-- ===== src/Utils/ArrayList/Refine.antt =====
-- An array list holds the list of the elements that were pushed.
use arts.Prelude.{
  ℕ, zero, suc, ◌+◌, ◌-◌, ◌*◌, ◌/◌, ◌%◌, ◌<◌, ◌≤◌, ◌≡◌, ◌≢◌, inl, inr, refl, sym, ap, ap₂, ◌∙◌,
  arith, false, ◌&&◌, not, leb, ◌==◌, none, some, ==→eq, eq→==, lt→ltb, le→ltb, Bool-cases,
}
use native.Mathlib.Numerals.{add-one}
use native.Mathlib.Decide.{dec_lt, ℕ_discrete}
use native.Mathlib.Nat.{
  suc-mul, zero-mul, div-add-mod', add-mul-div_right, div-eq_of_lt, zero-add, le-div_iff_mul-le,
  div-lt_iff_lt-mul,
}
use arts.Utils.ArrayList.{
  ArrayList, Ptr, ptr, new, start, advance, next_free, write, read, push, reset, walk, get,
}

-- The place of an index.
abbrev pub place_of : ArrayList → ℕ → Ptr
place_of a i = ptr (i / a.array_length) (i % a.array_length)

-- The element at an index.
abbrev pub element : ArrayList → ℕ → ℕ
element a i = read a.cells (place_of a i)

pub record IsValid (a : ArrayList) : Type 0 where
  pub positive : 0 < a.array_length
  pub covered : a.index ≤ a.current * a.array_length + a.array_length
  pub reached : a.index ≢ 0 → a.current * a.array_length < a.index
  pub head : a.index ≡ 0 → a.current ≡ 0
  pub chain : a.current < a.nodes
  pub last : a.last_request_ptr ≡ place_of a a.last_request

div_unique : (i k q : ℕ) → q * k ≤ i → i < q * k + k → (i / k ≡ q) × (i % k ≡ i - q * k)
div_unique i k q lo hi =
    let e : i - q * k + q * k ≡ i = omega arith in
    let d : i / k ≡ q =
      ap (λ x. x / k) (sym e)
      ∙ add-mul-div_right (i - q * k) q (omega arith)
      ∙ ap (λ x. x + q) (div-eq_of_lt (omega arith))
      ∙ zero-add q in
    let m : q * k + i % k ≡ i = rw (← d) (div-add-mod' i k) in (d, omega (arith, m))

next_node : (c k : ℕ) → (c + 1) * k ≡ c * k + k
next_node c k = rw (add-one c) (suc-mul c k)

-- The node that the next element goes to starts at or before its index, and reaches beyond it.
record Advanced (a b : ArrayList) : Type 0 where
  length_kept : b.array_length ≡ a.array_length
  index_kept : b.index ≡ a.index
  cells_kept : b.cells ≡ a.cells
  request_kept : (b.last_request ≡ a.last_request) × (b.last_request_ptr ≡ a.last_request_ptr)
  low : b.current * a.array_length ≤ a.index
  high : a.index < b.current * a.array_length + a.array_length
  chained : b.current < b.nodes

module _ (a : ArrayList) (ok : IsValid a) where
  full_node :
      a.index ≢ 0
      → a.index % a.array_length ≡ 0
      → a.index ≡ a.current * a.array_length + a.array_length
  full_node some_ m = elim (dec_lt a.index (a.current * a.array_length + a.array_length)) [
    | no p ↦ omega (arith, p, ok.covered)
    | yes p ↦
        let r = ok.reached some_ in
        let d = div_unique a.index a.array_length a.current (omega arith) p in
        absurd (omega (arith, d, m, r))
  ]

  open_node :
      ((a.index % a.array_length == 0) && not (a.index == 0)) ≡ false
      → a.index < a.current * a.array_length + a.array_length
  open_node h = elim (dec_lt a.index (a.current * a.array_length + a.array_length)) [
    | yes p ↦ p
    | no p ↦
        let e : a.index ≡ (a.current + 1) * a.array_length =
          rw (next_node a.current a.array_length) (omega (arith, p, ok.covered)) in
        let d =
          div_unique a.index a.array_length (a.current + 1) (omega (arith, e))
            (omega (arith, e, ok.positive)) in
        let m : a.index % a.array_length ≡ 0 = omega (arith, d, e) in
        absurd (ground (arith, h, m, e, next_node a.current a.array_length, ok.positive))
  ]

  low_of : a.current * a.array_length ≤ a.index
  low_of = elim (ℕ_discrete a.index 0) [
    | yes e ↦
        let z : a.current * a.array_length ≡ 0 = rw (ok.head e) (zero-mul a.array_length) in
        omega (arith, e, z)
    | no ne ↦ omega (arith, ok.reached ne)
  ]

  advance-Advanced : Advanced a (advance a)
  unfolding advance
  advance-Advanced = elim (Bool-cases ((a.index % a.array_length == 0) && not (a.index == 0))) [
    | inl full ↦
        let m : a.index % a.array_length ≡ 0 = ground (arith, full) in
        let some_ : a.index ≢ 0 = λ e. ground (arith, full, e) in
        let e = full_node some_ m in
        let n = next_node a.current a.array_length in
        rw full (record {
          length_kept = refl;
          index_kept = refl;
          cells_kept = refl;
          request_kept = (refl, refl);
          low = omega (arith, e, n);
          high = omega (arith, e, n, ok.positive);
          chained = ground (arith, ok.chain);
        })
    | inr open_ ↦ rw open_ (record {
      length_kept = refl;
      index_kept = refl;
      cells_kept = refl;
      request_kept = (refl, refl);
      low = low_of;
      high = open_node open_;
      chained = ok.chain;
    })
  ]

-- What a push leaves, field by field.
abbrev pushed : ArrayList → ℕ → ArrayList
pushed a x = (push a x).1

record Pushed (a : ArrayList) (x : ℕ) : Type 0 where
  valid : IsValid (pushed a x)
  index_up : (pushed a x).index ≡ a.index + 1
  length_same : (pushed a x).array_length ≡ a.array_length
  cells_new : (pushed a x).cells ≡ write a.cells (place_of a a.index) x

push-Pushed : (a : ArrayList) (x : ℕ) → IsValid a → Pushed a x
unfolding push next_free start
push-Pushed a x ok =
    let v = advance-Advanced a ok in
    let b = advance a in
    let d = div_unique a.index a.array_length b.current v.low v.high in
    record {
      valid = record {
        positive = rw v.length_kept ok.positive;
        covered = rw (v.length_kept, v.index_kept) (omega (arith, v.high));
        reached = λ _. rw (v.length_kept, v.index_kept) (omega (arith, v.low));
        head = λ e. absurd (omega (arith, e));
        chain = v.chained;
        last = rw (v.request_kept.0, v.request_kept.1, v.length_kept) ok.last;
      };
      index_up = ap (λ i. i + 1) v.index_kept;
      length_same = v.length_kept;
      cells_new = rw (v.cells_kept, v.length_kept, v.index_kept, d.0, d.1) refl;
    }

write_self : (cells : ℕ → ℕ → ℕ) (n o x : ℕ) → write cells (ptr n o) x n o ≡ x
unfolding write
write_self cells n o x = simp (eq→== n n refl, eq→== o o refl)

write_other :
    (a : ArrayList) (x i j : ℕ)
    → i ≢ j
    → read (write a.cells (place_of a i) x) (place_of a j) ≡ element a j
unfolding write read
write_other a x i j ne =
    let d = div-add-mod' i a.array_length in
    let d' = div-add-mod' j a.array_length in
    elim (Bool-cases
      ((j / a.array_length == i / a.array_length) && (j % a.array_length == i % a.array_length))) [
        | inr no_ ↦ simp no_
        | inl yes_ ↦
            let q : j / a.array_length ≡ i / a.array_length = ground (arith, yes_) in
            let r : j % a.array_length ≡ i % a.array_length = ground (arith, yes_) in
            absurd (ne (sym d ∙ ap₂ (λ x y. x * a.array_length + y) (sym q) (sym r) ∙ d'))
      ]

push-index : (a : ArrayList) (x : ℕ) → (push a x).0 ≡ a.index
unfolding push
push-index a x = refl

-- A push returns the index of the new element, at which the element then is; the elements before it
-- stay what they were, and the list stays well formed, also when the push makes a node.
pub push_lem :
    (a : ArrayList) (x : ℕ)
    → IsValid a
    → ((push a x).0 ≡ a.index)
      × ((push a x).1.index ≡ a.index + 1)
      × (element (push a x).1 a.index ≡ x)
      × ((j : ℕ) → j < a.index → element (push a x).1 j ≡ element a j)
      × IsValid (push a x).1
unfolding read
push_lem a x ok =
    let p = push-Pushed a x ok in
    (
      push-index a x,
      p.index_up,
      rw (p.cells_new, p.length_same)
          (write_self a.cells (a.index / a.array_length) (a.index % a.array_length) x),
      λ j h. rw (p.cells_new, p.length_same) (write_other a x a.index j (λ e. omega (arith, e))),
      p.valid,
    )

walk-finds :
    (a : ArrayList) (i n k : ℕ)
    → 0 < a.array_length
    → n ≤ i / a.array_length
    → i / a.array_length < n + k
    → walk a i n k ≡ some (i / a.array_length)
unfolding walk start
walk-finds a i n zero pos lo hi = absurd (omega arith)
walk-finds a i n (suc k) pos lo hi =
    elim (Bool-cases (leb (n * a.array_length + a.array_length) i)) [
      | inl more ↦
          let m : (n + 1) * a.array_length ≤ i =
            rw (next_node n a.array_length) (ground (arith, more)) in
          let up : n + 1 ≤ i / a.array_length = (le-div_iff_mul-le pos).1 m in
          simp more (walk-finds a i (n + 1) k pos up (omega arith))
      | inr here ↦
          let low : n * a.array_length ≤ i = (le-div_iff_mul-le pos).0 lo in
          let d = div_unique i a.array_length n low (ground (arith, here)) in
          simp here (ap some (sym d.0))
    ]

get-none :
    (a : ArrayList) (i : ℕ) → (i == a.last_request) ≡ false → a.index ≤ i → get a i ≡ (none, a)
unfolding get
get-none a i other h = ground (arith, other)

get-found :
    (a : ArrayList) (i : ℕ)
    → IsValid a
    → (i == a.last_request) ≡ false
    → i < a.index
    → get a i
      ≡ (some (place_of a i), record a { last_request = i; last_request_ptr = place_of a i })
unfolding get start
get-found a i ok other h = elim (dec_lt a.index a.array_length) [
  | yes short ↦
      let z = zero-mul a.array_length in
      let d = div_unique i a.array_length 0 (omega (arith, z)) (omega (arith, z)) in
      let m : i % a.array_length ≡ i = omega (arith, d, z) in
      rw (d.0, m) (simp (other, lt→ltb i a.index h, lt→ltb a.index a.array_length short))
  | no long ↦
      let n = next_node a.current a.array_length in
      let lt : i / a.array_length < a.current + 1 =
        (div-lt_iff_lt-mul ok.positive).1 (rw n (omega (arith, ok.covered))) in
      let w = walk-finds a i 0 a.nodes ok.positive (omega arith) (omega (arith, lt, ok.chain)) in
      let m : i - i / a.array_length * a.array_length ≡ i % a.array_length =
        omega (arith, div-add-mod' i a.array_length) in
      simp (other, lt→ltb i a.index h, le→ltb a.index a.array_length (omega (arith, long)), w, m)
]

-- On a list that has been pushed to, the pointer for an index below the length is that of its
-- element, whichever way the call finds it; for an index from the length on it is NULL, unless it is
-- the index of the last request. The list keeps its elements and stays well formed.
pub get_lem :
    (a : ArrayList) (i : ℕ)
    → IsValid a
    → (i < a.index → (get a i).0 ≡ some (place_of a i))
      × (a.index ≤ i → i ≢ a.last_request → (get a i).0 ≡ none)
      × ((get a i).1.cells ≡ a.cells)
      × ((get a i).1.index ≡ a.index)
      × IsValid (get a i).1
unfolding get
get_lem a i ok = elim (Bool-cases (i == a.last_request)) [
  | inl same ↦
      let e = ==→eq i a.last_request same in
      rw same (
        (λ h. ap some (ok.last ∙ ap (place_of a) (sym e))),
        (λ h ne. absurd (ne e)),
        refl,
        refl,
        ok,
      )
  | inr other ↦ elim (dec_lt i a.index) [
    | no beyond ↦
        rw (get-none a i other (omega (arith, beyond)))
          ((λ h. absurd (beyond h)), (λ h ne. refl), refl, refl, ok)
    | yes inside ↦ rw (get-found a i ok other inside) (
      (λ h. refl),
      (λ h ne. absurd (omega (arith, h))),
      refl,
      refl,
      record {
        positive = ok.positive;
        covered = ok.covered;
        reached = ok.reached;
        head = ok.head;
        chain = ok.chain;
        last = refl;
      },
    )
  ]
]

zero_place : (k : ℕ) → 0 < k → ptr 0 0 ≡ ptr (0 / k) (0 % k)
zero_place k pos =
    let z = zero-mul k in
    let d = div_unique 0 k 0 (omega (arith, z)) (omega (arith, z)) in rw (d.0, d.1, z) refl

pub new-IsValid : (k : ℕ) (memory : ℕ → ℕ → ℕ) → 0 < k → IsValid (new k memory)
unfolding new
new-IsValid k memory pos = record {
  positive = pos;
  covered = omega arith;
  reached = λ ne. absurd (ne refl);
  head = λ _. refl;
  chain = omega arith;
  last = zero_place k pos;
}

pub reset-IsValid : (a : ArrayList) → IsValid a → IsValid (reset a)
unfolding reset
reset-IsValid a ok = record {
  positive = ok.positive;
  covered = omega arith;
  reached = λ ne. absurd (ne refl);
  head = λ _. refl;
  chain = omega (arith, ok.chain);
  last = zero_place a.array_length ok.positive;
}
