-- ===== src/Utils/Deque.antt =====
-- libs/src/core/utils/deque_simple.c: the Chase-Lev deque of a worker. Here every call runs alone;
-- `Steal` splits the calls that race at their atomic accesses. An item is a number, 0 the NULL one.
-- A retired array stays alive in the source, for thieves that hold it; here it is just dropped.
pub mod Window
pub mod Refine
pub mod Steal
mod Tests
use arts.Prelude.{
  ℕ, zero, suc, ◌+◌, ◌-◌, ◌*◌, ◌/◌, ◌%◌, Bool, true, false, ltb, leb, ◌==◌, if◌then◌else◌, Option,
  none, some, List, [], ◌∷◌, u32, u64, sub_u32, sub_u64,
}

-- `struct circular_array_s`; only indices below `size` are used.
pub record CircularArray : Type 0 where
  pub size : ℕ
  pub segment : ℕ → ℕ

-- `struct arts_deque_s`, without the list of arrays for the clean-up and the unused counters.
pub record Deque : Type 0 where
  pub top : ℕ
  pub bottom : ℕ
  pub active : CircularArray

unfoldable pub new_array : ℕ → CircularArray
new_array size = record { size = size; segment = λ _. 0 }

unfoldable pub get_array : CircularArray → ℕ → ℕ
get_array a i = a.segment (i % a.size)

unfoldable pub put_array : CircularArray → ℕ → ℕ → CircularArray
put_array a i x = record a { segment = λ j. if j == i % a.size then x else a.segment j }

-- `for (i = t; i < b; i++) put(new, i, get(old, i))`, with `k` rounds left.
unfoldable pub copy_from : CircularArray → (i k : ℕ) → CircularArray → CircularArray
copy_from old i zero new = new
copy_from old i (suc k) new = copy_from old (i + 1) k (put_array new i (get_array old i))

unfoldable pub grow_array : CircularArray → (b t : ℕ) → CircularArray
grow_array a b t = copy_from a t (b - t) (new_array (u32 (a.size * 2)))

unfoldable pub new : ℕ → Deque
new size = record { top = 1; bottom = 1; active = new_array size }

-- `arts_deque_simple_clear` and `_size`
unfoldable pub clear : Deque → Deque
clear d = record d { top = d.bottom }

unfoldable pub size : Deque → ℕ
size d = u32 (sub_u64 d.bottom d.top)

unfoldable pub push_front : Deque → ℕ → Deque
push_front d x =
    let a =
      (if leb (u64 (sub_u32 d.active.size 1 + d.top)) d.bottom
        then grow_array d.active d.bottom d.top
        else d.active) in
    record d { bottom = u64 (d.bottom + 1); active = put_array a d.bottom x }

-- The owner's end. The compare-and-swap on the last item succeeds, since the call runs alone.
unfoldable pub pop_front : Deque → Option ℕ × Deque
pop_front d =
    if leb d.bottom d.top
    then (none, d)
    else (let b = sub_u64 d.bottom 1 in
        if ltb b d.top
        then (none, record d { bottom = d.top })
        else if ltb d.top b
        then (some (get_array d.active b), record d { bottom = b })
        else (
          some (get_array d.active b),
          record d { top = u64 (d.top + 1); bottom = u64 (d.top + 1) },
        ))

-- A thief's end.
unfoldable pub pop_back : Deque → Option ℕ × Deque
pop_back d =
    if leb d.bottom d.top
    then (none, d)
    else (some (get_array d.active d.top), record d { top = u64 (d.top + 1) })

-- `for (i = 0; i < n; i++) out[i] = segment[(t + i) % size]`, from index `t` on.
unfoldable pub read_from : CircularArray → (t n : ℕ) → List ℕ
read_from a t zero = []
read_from a t (suc n) = get_array a t ∷ read_from a (t + 1) n

-- What a thief has read before its compare-and-swap.
pub record Claim : Type 0 where
  pub top : ℕ
  pub count : ℕ
  pub array : CircularArray

-- How many of `available` items a thief takes that has room for `max`.
unfoldable pub to_steal : (available max : ℕ) → ℕ
to_steal available max =
    let half = u32 (available / 2) in
    let some_ = (if half == 0 then 1 else half) in if ltb max some_ then max else some_

-- `arts_deque_simple_pop_back_half` up to its compare-and-swap: nothing to steal, or a claim. The
-- signed difference of the two indices is read by an order, for indices below 2^63.
unfoldable pub half_read : Deque → (max : ℕ) → Option Claim
half_read d max =
    if leb d.bottom d.top
    then none
    else some (record { top = d.top; count = to_steal (d.bottom - d.top) max; array = d.active })

-- The compare-and-swap and what follows it.
unfoldable pub half_claim : Deque → Claim → List ℕ × Deque
half_claim d c =
    if d.top == c.top
    then (read_from c.array c.top c.count, record d { top = u64 (c.top + c.count) })
    else ([], d)

unfoldable pub pop_back_half : Deque → (max : ℕ) → List ℕ × Deque
pop_back_half d max = elim (half_read d max) [ none ↦ ([], d) | some c ↦ half_claim d c ]
