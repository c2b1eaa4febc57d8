-- ===== src/Utils/Deque/Window.antt =====
-- Windows of a circular array: the items from one index on, going round at the size.
use arts.Prelude.{
  ℕ, zero, suc, ◌+◌, ◌-◌, ◌*◌, ◌/◌, ◌%◌, ◌<◌, ◌≤◌, ◌≡◌, ◌≢◌, refl, arith, [], ◌∷◌, ◌++◌, ap, ap₂,
  ◌∙◌, sym, ◌^◌, u32,
}
use native.Mathlib.Nat.{div-add-mod, add-zero, zero-add}
use native.Mathlib.Decide.{dec_lt}
use arts.Utils.Deque.{
  CircularArray, new_array, get_array, put_array, copy_from, grow_array, read_from,
}

-- Two indices less than the size apart fall on different cells.
mod-ne : (n i j : ℕ) → i < j → j < i + n → i % n ≢ j % n
mod-ne n i j lt near e = elim (dec_lt (i / n) (j / n)) [
  | yes p ↦ apart (i / n) (j / n) (i % n) p (div-add-mod i n) (cc (div-add-mod j n, e))
  | no p ↦
      below (i / n) (j / n) (i % n) (omega (arith, p)) (div-add-mod i n) (cc (div-add-mod j n, e))
]
  where
    apart : (p q r : ℕ) → p < q → n * p + r ≡ i → n * q + r ≡ j → ⊥
    apart p q r h hi hj = grind (arith, h, hi, hj)

    below : (p q r : ℕ) → q ≤ p → n * p + r ≡ i → n * q + r ≡ j → ⊥
    below p q r h hi hj = grind (arith, h, hi, hj)

pub size-put : (a : CircularArray) (i x : ℕ) → (put_array a i x).size ≡ a.size
unfolding put_array
size-put a i x = refl

pub get-put_self : (a : CircularArray) (i x : ℕ) → get_array (put_array a i x) i ≡ x
unfolding get_array put_array
get-put_self a i x = ground arith

get-put_ne :
    (a : CircularArray) (i j x : ℕ)
    → i % a.size ≢ j % a.size
    → get_array (put_array a j x) i ≡ get_array a i
unfolding get_array put_array
get-put_ne a i j x ne = ground arith

-- A write above the window, less than a round from its start, leaves it alone.
pub read_from-put :
    (a : CircularArray) (i n j x : ℕ)
    → i + n ≤ j
    → j < i + a.size
    → read_from (put_array a j x) i n ≡ read_from a i n
unfolding read_from
read_from-put a i zero j x h k = refl
read_from-put a i (suc n) j x h k =
    ap₂ ◌∷◌ (get-put_ne a i j x (mod-ne a.size i j (omega arith) k))
      (read_from-put a (i + 1) n j x (omega arith) (omega arith))

pub read_from-snoc :
    (a : CircularArray) (i n : ℕ)
    → read_from a i (suc n) ≡ read_from a i n ++ (get_array a (i + n) ∷ [])
unfolding read_from
read_from-snoc a i zero = ap (λ k. get_array a k ∷ []) (omega arith)
read_from-snoc a i (suc n) =
    ap (λ l. get_array a i ∷ l)
      (read_from-snoc a (i + 1) n
        ∙ ap (λ k. read_from a (i + 1) n ++ (get_array a k ∷ [])) (omega arith))

-- Copying the rest of a window into an array that has room for it completes the window.
copy_from-window :
    (old new : CircularArray) (start n k : ℕ)
    → n + k ≤ new.size
    → read_from new start n ≡ read_from old start n
    → read_from (copy_from old (start + n) k new) start (n + k) ≡ read_from old start (n + k)
unfolding copy_from put_array
copy_from-window old new start n zero fit h = rw add-zero h
copy_from-window old new start n (suc k) fit h =
    let i = start + n in
    let new' = put_array new i (get_array old i) in
    let one : read_from new' start (suc n) ≡ read_from old start (suc n) =
      read_from-snoc new' start n
      ∙ ap₂ (λ l x. l ++ (x ∷ []))
          (read_from-put new start n i (get_array old i) (omega arith) (omega arith) ∙ h)
          (get-put_self new i (get_array old i))
      ∙ sym (read_from-snoc old start n) in
    let e : i + 1 ≡ start + suc n = omega arith in
    let s : n + suc k ≡ suc n + k = omega arith in
    rw (e, s) (copy_from-window old new' start (suc n) k (omega arith) one)

size-copy_from : (old new : CircularArray) (i k : ℕ) → (copy_from old i k new).size ≡ new.size
unfolding copy_from put_array
size-copy_from old new i zero = refl
size-copy_from old new i (suc k) = size-copy_from old (put_array new i (get_array old i)) (i + 1) k

-- Growing an array keeps the window from `t` to `b`, and doubles the size.
pub read_from-grow :
    (a : CircularArray) (t n : ℕ)
    → n ≤ a.size
    → a.size < 2 ^ 31
    → (read_from (grow_array a (t + n) t) t n ≡ read_from a t n)
      × ((grow_array a (t + n) t).size ≡ 2 * a.size)
unfolding grow_array new_array read_from
read_from-grow a t n fit small =
    let e : t + n - t ≡ n = omega arith in
    let z : t + 0 ≡ t = omega arith in
    let d : u32 (a.size * 2) ≡ 2 * a.size = omega arith in
    let fresh = new_array (u32 (a.size * 2)) in
    (
      rw e (rw (z, zero-add n) at (copy_from-window a fresh t 0 n (omega arith) refl)),
      rw e (size-copy_from a fresh t n ∙ d),
    )
