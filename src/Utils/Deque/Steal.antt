-- ===== src/Utils/Deque/Steal.antt =====
-- A thief that steals half of a deque while the owner pops.
use arts.Prelude.{
  ℕ, zero, suc, ◌+◌, ◌-◌, ◌^◌, ◌<◌, ◌≤◌, ◌≡◌, refl, arith, List, [], ◌∷◌, Option, none, some,
  get_elem?,
}
use arts.Utils.Deque.{
  CircularArray, Deque, get_array, pop_front, read_from, to_steal, half_read, half_claim,
}
use arts.Utils.Deque.Refine.{IsValid, pop_front-some, half_read-some}

-- The owner pops `k` times; the items, and the deque.
unfoldable pub pop_times : ℕ → Deque → List (Option ℕ) × Deque
pop_times zero d = ([], d)
pop_times (suc k) d = let (x, d') = pop_front d in let (xs, d'') = pop_times k d' in (x ∷ xs, d'')

pop_times-suc :
    (k : ℕ) (d d' : Deque) (x : Option ℕ)
    → pop_front d ≡ (x, d')
    → pop_times (suc k) d ≡ (x ∷ (pop_times k d').0, (pop_times k d').1)
unfolding pop_times
pop_times-suc k d d' x h = rw h refl

pop_times-zero : (d : Deque) → pop_times 0 d ≡ ([], d)
unfolding pop_times
pop_times-zero d = refl

-- As long as two items are left, pops move only `bottom`, and the k-th item is the k-th from the end.
pop_times-bottom :
    (k : ℕ) (d : Deque)
    → IsValid d
    → d.top + k + 1 < d.bottom
    → ((pop_times (suc k) d).1 ≡ record d { bottom = d.bottom - suc k })
      × (get_elem? (pop_times (suc k) d).0 k ≡ some (some (get_array d.active (d.bottom - suc k))))
pop_times-bottom zero d v h =
    let d' = record d { bottom = d.bottom - 1 } in
    rw
      (
        pop_times-suc 0 d d' (some (get_array d.active (d.bottom - 1)))
            (pop_front-some d v (omega arith)),
        pop_times-zero d',
      )
      (refl, refl)
pop_times-bottom (suc k) d v h =
    let d' = record d { bottom = d.bottom - 1 } in
    let v' : IsValid d' = ground (arith, v.ordered, v.fits, v.roomy, v.far) in
    let ih = pop_times-bottom k d' v' (omega arith) in
    let e : d.bottom - 1 - suc k ≡ d.bottom - suc (suc k) = omega arith in
    rw
      (
        pop_times-suc (suc k) d d' (some (get_array d.active (d.bottom - 1)))
            (pop_front-some d v (omega arith)),
        ← e,
      )
      ih

-- The schedule: the thief reads its claim, the owner pops all items but one, and then the thief's
-- compare-and-swap is made. What the owner got, and what the thief got.
unfoldable pub crossed : Deque → (max : ℕ) → List (Option ℕ) × List ℕ
crossed d max = elim (half_read d max) [
  | none ↦ ([], [])
  | some c ↦ let (owned, d') = pop_times (d.bottom - d.top - 1) d in (owned, (half_claim d' c).0)
]

crossed-parts :
    (d : Deque) (max : ℕ)
    → d.top < d.bottom
    → (pop_times (d.bottom - d.top - 1) d).1.top ≡ d.top
    → crossed d max ≡ (
      (pop_times (d.bottom - d.top - 1) d).0,
      read_from d.active d.top (to_steal (d.bottom - d.top) max),
    )
unfolding crossed half_claim
crossed-parts d max h same = ground (arith, half_read-some d max h, same)

to_steal-two : (n max : ℕ) → 4 ≤ n → n < 2 ^ 32 → 2 ≤ max → 2 ≤ to_steal n max
unfolding to_steal
to_steal-two n max h small room = ground arith

second :
    (a : CircularArray) (t n : ℕ)
    → 2 ≤ n
    → get_elem? (read_from a t n) 1 ≡ some (get_array a (t + 1))
unfolding read_from
second a t zero h = absurd (omega arith)
second a t (suc zero) h = absurd (omega arith)
second a t (suc (suc n)) h = refl

-- On every valid deque of at least four items, a thief with room for two and an owner that cross in
-- this way both get the second oldest item: the owner with its last pop, the thief behind the oldest.
pub crossed-duplicates :
    (d : Deque) (max : ℕ)
    → IsValid d
    → d.top + 4 ≤ d.bottom
    → 2 ≤ max
    → (get_elem? (crossed d max).0 (d.bottom - d.top - 2)
        ≡ some (some (get_array d.active (d.top + 1))))
      × (get_elem? (crossed d max).1 1 ≡ some (get_array d.active (d.top + 1)))
crossed-duplicates d max v four room =
    let k = d.bottom - d.top - 2 in
    let m : d.bottom - d.top - 1 ≡ suc k = omega arith in
    let i : d.bottom - suc k ≡ d.top + 1 = omega arith in
    let popped = pop_times-bottom k d v (omega arith) in
    let parts = crossed-parts d max (omega arith) (rw (m, popped.0) refl) in
    let two =
      to_steal-two (d.bottom - d.top) max (omega arith) (omega (arith, v.fits, v.roomy)) room in
    (
      rw (parts, m, ← i) popped.1,
      rw parts (second d.active d.top (to_steal (d.bottom - d.top) max) two),
    )
