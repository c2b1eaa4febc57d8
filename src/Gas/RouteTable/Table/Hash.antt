-- ===== src/Gas/RouteTable/Table/Hash.antt =====
-- The slots that are probed lie in the table, and each GUID has its table.
use arts.Prelude.{ℕ, zero, suc, ◌+◌, ◌-◌, ◌*◌, ◌/◌, ◌^◌, ◌<◌, ◌≤◌, ◌≡◌, sym, arith, u64}
use native.Mathlib.Nat.{div-lt_iff_lt-mul, one-le-pow, pow-suc, mul_assoc}
use arts.Gas.RouteTable.Table.{Level, get_route_table_key, switch, multipliers}

pow_split : (d s : ℕ) → 2 ^ s * 2 ^ d ≡ 2 ^ (s + d)
pow_split zero s = ground arith
pow_split (suc d) s =
    let e : s + suc d ≡ suc (s + d) = omega arith in
    rw (e, pow-suc 2 d, pow-suc 2 (s + d), ← pow_split d s) (sym (mul_assoc (2 ^ s) (2 ^ d) 2))

-- Every slot that is probed for a key lies in the array of 8 * size entries of its table, whose size
-- is a power of 2.
pub get_route_table_key-bounded :
    (x : ℕ) (l : Level)
    → l.size ≡ 2 ^ l.shift
    → l.shift ≤ 64
    → get_route_table_key x l.shift + 8 ≤ 8 * l.size
unfolding get_route_table_key
get_route_table_key-bounded x l sized small =
    let y = u64 (x * switch l.shift 14695981039346656037 multipliers) in
    let e = pow_split (64 - l.shift) l.shift in
    let e' : l.shift + (64 - l.shift) ≡ 64 = omega arith in
    let b : y / 2 ^ (64 - l.shift) < 2 ^ l.shift =
      (div-lt_iff_lt-mul (one-le-pow (64 - l.shift) 2 (omega arith))).1
        (rw (e, e') (omega arith)) in
    omega (arith, sized, b)
