-- ===== src/Utils/Deque/Refine.antt =====
-- Run alone, every call on the deque does what it does on the list of the items it holds, from the
-- thieves' end to the owner's.
use arts.Prelude.{
  ℕ, zero, suc, ◌+◌, ◌-◌, ◌/◌, ◌^◌, ◌<◌, ◌≤◌, ◌≡◌, ◌⊎◌, inl, inr, refl, arith, List, [], ◌∷◌, ◌++◌,
  none, some, ap, ap₂, ◌∙◌, u64, sub_u32, sub_u64, leb, lt→leb, le→leb, le→ltb, lt→ltb, Bool-cases,
  length, if◌then◌else◌,
}
use native.Mathlib.Nat.{zero-add, add-zero}
use Prim.Native.Nat.{min, max}
use native.Mathlib.Decide.{dec_lt}
use arts.Utils.Deque.{
  CircularArray, Deque, get_array, put_array, grow_array, push_front, pop_front, pop_back,
  read_from, to_steal, half_read, half_claim, pop_back_half,
}
use arts.Utils.Deque.Window.{read_from-put, read_from-snoc, get-put_self, read_from-grow, size-put}

abbrev pub contents : Deque → List ℕ
contents d = read_from d.active d.top (d.bottom - d.top)

pub record IsValid (d : Deque) : Type 0 where
  pub ordered : d.top ≤ d.bottom
  pub fits : d.bottom < d.top + d.active.size
  pub roomy : d.active.size < 2 ^ 31
  pub far : d.bottom < 2 ^ 62

push_at :
    (a a' : CircularArray) (t n x : ℕ)
    → n < a'.size
    → read_from a' t n ≡ read_from a t n
    → read_from (put_array a' (t + n) x) t (suc n) ≡ read_from a t n ++ (x ∷ [])
push_at a a' t n x room same =
    read_from-snoc (put_array a' (t + n) x) t n
    ∙ ap₂ (λ l y. l ++ (y ∷ [])) (read_from-put a' t n (t + n) x (omega arith) (omega arith) ∙ same)
        (get-put_self a' (t + n) x)

-- The array that a push writes to: the deque's own, or one of twice the size with the same items.
record Roomy (d : Deque) (a : CircularArray) : Type 0 where
  same : read_from a d.top (d.bottom - d.top) ≡ contents d
  room : d.bottom + 1 < d.top + a.size
  small : a.size < 2 ^ 31

abbrev target : Deque → CircularArray
target d =
    if leb (u64 (sub_u32 d.active.size 1 + d.top)) d.bottom
    then grow_array d.active d.bottom d.top
    else d.active

target-Roomy : (d : Deque) → IsValid d → d.active.size < 2 ^ 30 → Roomy d (target d)
target-Roomy d v small = elim (Bool-cases (leb (u64 (sub_u32 d.active.size 1 + d.top)) d.bottom)) [
  | inl full ↦
      let e : d.top + (d.bottom - d.top) ≡ d.bottom = omega (arith, v.ordered) in
      let g = rw e at (
        read_from-grow d.active d.top (d.bottom - d.top) (omega (arith, v.fits))
          (omega (arith, v.roomy))) in
      rw full (record {
        same = g.0;
        room = omega (arith, g.1, v.fits, v.ordered);
        small = omega (arith, g.1);
      })
  | inr free ↦
      rw free
        (record { same = refl; room = ground (arith, v.fits, v.far, v.roomy); small = v.roomy })
]

-- A push appends the item at the owner's end and keeps the deque valid, also when the array grows,
-- as long as the array has fewer than 2^30 cells and the index stays below 2^62.
pub push_front_lem :
    (d : Deque) (x : ℕ)
    → IsValid d
    → d.active.size < 2 ^ 30
    → d.bottom + 1 < 2 ^ 62
    → (contents (push_front d x) ≡ contents d ++ (x ∷ [])) × IsValid (push_front d x)
unfolding push_front
push_front_lem d x v small far =
    let r = target-Roomy d v small in
    let e : d.top + (d.bottom - d.top) ≡ d.bottom = omega (arith, v.ordered) in
    let s : u64 (d.bottom + 1) - d.top ≡ suc (d.bottom - d.top) = omega (arith, v.ordered) in
    (
      rw s (
          rw e at (
            push_at d.active (target d) d.top (d.bottom - d.top) x
              (omega (arith, r.room, v.ordered)) r.same)),
      record {
        ordered = omega (arith, v.ordered);
        fits = rw (size-put (target d) d.bottom x) (omega (arith, r.room));
        roomy = rw (size-put (target d) d.bottom x) r.small;
        far = omega arith;
      },
    )

empty : (d : Deque) → d.bottom ≤ d.top → contents d ≡ []
unfolding read_from
empty d h = let e : d.bottom - d.top ≡ 0 = omega arith in rw e refl

first_of_window :
    (a : CircularArray) (t n m : ℕ)
    → n ≡ suc m
    → read_from a t n ≡ get_array a t ∷ read_from a (t + 1) m
unfolding read_from
first_of_window a t n m e = rw e refl

last_of_window :
    (a : CircularArray) (t n m i : ℕ)
    → n ≡ suc m
    → i ≡ t + m
    → read_from a t n ≡ read_from a t m ++ (get_array a i ∷ [])
last_of_window a t n m i e e' = rw (e, e') (read_from-snoc a t m)

pop_back-some :
    (d : Deque)
    → IsValid d
    → d.top < d.bottom
    → pop_back d ≡ (some (get_array d.active d.top), record d { top = d.top + 1 })
unfolding pop_back
pop_back-some d v h = ground (arith, v.far)

pub pop_front-some :
    (d : Deque)
    → IsValid d
    → d.top + 1 < d.bottom
    → pop_front d ≡ (some (get_array d.active (d.bottom - 1)), record d { bottom = d.bottom - 1 })
unfolding pop_front
pop_front-some d v h =
    let e : sub_u64 d.bottom 1 ≡ d.bottom - 1 = omega (arith, v.far) in
    simp (
      e,
      lt→leb d.top d.bottom (omega arith),
      le→ltb (d.bottom - 1) d.top (omega arith),
      lt→ltb d.top (d.bottom - 1) (omega arith),
    )

pop_front-last :
    (d : Deque)
    → IsValid d
    → d.bottom ≡ d.top + 1
    → pop_front d
      ≡ (some (get_array d.active d.top), record d { top = d.top + 1; bottom = d.top + 1 })
unfolding pop_front
pop_front-last d v h =
    let e : sub_u64 d.bottom 1 ≡ d.top = omega (arith, v.far) in
    let e' : u64 (d.top + 1) ≡ d.top + 1 = omega (arith, v.far) in
    simp (e, e', lt→leb d.top d.bottom (omega arith), le→ltb d.top d.top (omega arith))

pop_front-none : (d : Deque) → d.bottom ≤ d.top → pop_front d ≡ (none, d)
unfolding pop_front
pop_front-none d h = simp (le→leb d.bottom d.top h)

pop_back-none : (d : Deque) → d.bottom ≤ d.top → pop_back d ≡ (none, d)
unfolding pop_back
pop_back-none d h = simp (le→leb d.bottom d.top h)

-- The owner takes the item that was pushed last, or finds the deque empty and leaves it as it is.
pub pop_front_lem :
    (d : Deque)
    → IsValid d
    → ((contents d ≡ []) × (pop_front d ≡ (none, d)))
      ⊎ ((x : ℕ) × ((pop_front d).0 ≡ some x)
          × (contents d ≡ contents (pop_front d).1 ++ (x ∷ []))
          × IsValid (pop_front d).1)
unfolding read_from
pop_front_lem d v = elim (dec_lt (d.top + 1) d.bottom) [
  | yes more ↦ inr (
    get_array d.active (d.bottom - 1),
    rw (pop_front-some d v more) refl,
    rw (pop_front-some d v more) (
        last_of_window d.active d.top (d.bottom - d.top) (d.bottom - 1 - d.top) (d.bottom - 1)
          (omega arith) (omega arith)),
    rw (pop_front-some d v more) (ground (arith, v.ordered, v.fits, v.roomy, v.far)),
  )
  | no few ↦ elim (dec_lt d.top d.bottom) [
    | yes one ↦
        let e : d.bottom ≡ d.top + 1 = omega (arith, few) in
        let z : d.top + 1 - (d.top + 1) ≡ 0 = omega arith in
        inr (
          get_array d.active d.top,
          rw (pop_front-last d v e) refl,
          rw (pop_front-last d v e, z)
              (last_of_window d.active d.top (d.bottom - d.top) 0 d.top (omega arith)
                (omega arith)),
          rw (pop_front-last d v e) (ground (arith, v.ordered, v.fits, v.roomy, v.far)),
        )
    | no none_ ↦ inl (empty d (omega (arith, none_)), pop_front-none d (omega (arith, none_)))
  ]
]

-- A thief takes the item that was pushed first, or finds the deque empty and leaves it as it is.
pub pop_back_lem :
    (d : Deque)
    → IsValid d
    → ((contents d ≡ []) × (pop_back d ≡ (none, d)))
      ⊎ ((x : ℕ) × ((pop_back d).0 ≡ some x)
          × (contents d ≡ x ∷ contents (pop_back d).1)
          × IsValid (pop_back d).1)
pop_back_lem d v = elim (dec_lt d.top d.bottom) [
  | yes p ↦ inr (
    get_array d.active d.top,
    rw (pop_back-some d v p) refl,
    rw (pop_back-some d v p)
        (first_of_window d.active d.top (d.bottom - d.top) (d.bottom - (d.top + 1)) (omega arith)),
    rw (pop_back-some d v p) (ground (arith, v.ordered, v.fits, v.roomy, v.far)),
  )
  | no p ↦ inl (empty d (omega (arith, p)), pop_back-none d (omega (arith, p)))
]

read_from-split :
    (a : CircularArray) (t n m : ℕ)
    → read_from a t (n + m) ≡ read_from a t n ++ read_from a (t + n) m
unfolding read_from
read_from-split a t zero m = rw (zero-add m, add-zero t) refl
read_from-split a t (suc n) m =
    let e : suc n + m ≡ suc (n + m) = omega arith in
    let e' : t + suc n ≡ t + 1 + n = omega arith in
    rw (e, e') (ap (λ l. get_array a t ∷ l) (read_from-split a (t + 1) n m))

length-read_from : (a : CircularArray) (t n : ℕ) → length (read_from a t n) ≡ n
unfolding read_from
length-read_from a t zero = refl
length-read_from a t (suc n) = ap suc (length-read_from a (t + 1) n)

to_steal_lem : (n room : ℕ) → 0 < n → n < 2 ^ 32 → to_steal n room ≡ min room (max (n / 2) 1)
unfolding to_steal
to_steal_lem n room pos small = ground arith

to_steal_bounds : (n max : ℕ) → 0 < n → n < 2 ^ 32 → (to_steal n max ≤ n) × (to_steal n max ≤ max)
unfolding to_steal
to_steal_bounds n max pos small = ground arith

half-none : (d : Deque) (max : ℕ) → d.bottom ≤ d.top → pop_back_half d max ≡ ([], d)
unfolding pop_back_half half_read
half-none d max h = ground (arith, h)

pub half_read-some :
    (d : Deque) (max : ℕ)
    → d.top < d.bottom
    → half_read d max
      ≡ some (record { top = d.top; count = to_steal (d.bottom - d.top) max; array = d.active })
unfolding half_read
half_read-some d max h = ground arith

half-some :
    (d : Deque) (max : ℕ)
    → IsValid d
    → d.top < d.bottom
    → let c = to_steal (d.bottom - d.top) max in
      pop_back_half d max ≡ (read_from d.active d.top c, record d { top = d.top + c })
unfolding pop_back_half half_claim
half-some d max v h =
    let b = to_steal_bounds (d.bottom - d.top) max (omega arith) (omega (arith, v.fits, v.roomy)) in
    let e : u64 (d.top + to_steal (d.bottom - d.top) max)
        ≡ d.top + to_steal (d.bottom - d.top) max =
      omega (arith, b.0, v.far) in
    ground (arith, half_read-some d max h, e)

-- A thief that steals half takes the items pushed first: half of what there is, rounded down, but at
-- least one if there is any, and at most as many as it has room for. The rest stays, in order.
pub pop_back_half_lem :
    (d : Deque) (room : ℕ)
    → IsValid d
    → (contents d ≡ (pop_back_half d room).0 ++ contents (pop_back_half d room).1)
      × (length (pop_back_half d room).0
          ≡ min room (max (length (contents d) / 2) (min (length (contents d)) 1)))
      × IsValid (pop_back_half d room).1
pop_back_half_lem d room v = elim (dec_lt d.top d.bottom) [
  | yes p ↦
      let n = d.bottom - d.top in
      let c = to_steal n room in
      let small : n < 2 ^ 32 = omega (arith, v.fits, v.roomy) in
      let b = to_steal_bounds n room (omega arith) small in
      let l : length (contents d) ≡ n = length-read_from d.active d.top n in
      let e : n ≡ c + (d.bottom - (d.top + c)) = omega (arith, b.0) in
      (
        rw (half-some d room v p) (
            ap (read_from d.active d.top) e
            ∙ read_from-split d.active d.top c (d.bottom - (d.top + c))),
        rw (half-some d room v p, l)
            (length-read_from d.active d.top c
              ∙ to_steal_lem n room (omega arith) small
              ∙ ap (λ k. min room (max (n / 2) k)) (omega arith)),
        rw (half-some d room v p) (ground (arith, v.ordered, v.fits, v.roomy, v.far, b.0)),
      )
  | no p ↦
      let q : d.bottom ≤ d.top = omega (arith, p) in
      (
        rw (half-none d room q) refl,
        rw (half-none d room q, empty d q) (omega arith),
        rw (half-none d room q) v,
      )
]
