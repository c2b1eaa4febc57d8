-- ===== src/Utils/Deque/Tests.antt =====
-- The deque theorems at concrete inputs.
use Prim.Native.Nat.{min, max}
use arts.Prelude.{◌/◌, ℕ, ◌+◌, ◌≡◌, ◌⊎◌, refl, arith, [], ◌∷◌, ◌++◌, none, some, length, get_elem?}
use arts.Utils.Deque.{
  Deque, new, new_array, get_array, put_array, grow_array, copy_from, read_from, push_front,
  pop_front, pop_back_half, to_steal, half_read, half_claim,
}
use arts.Utils.Deque.Refine.{IsValid, contents, push_front_lem, pop_front_lem, pop_back_half_lem}
use arts.Utils.Deque.Steal.{crossed, crossed-duplicates}

-- Items 10, 11, 12, 13 and 14 at the indices 1 to 5 of an array of 8.
abbrev five : Deque
five = record { top = 1; bottom = 6; active = record { size = 8; segment = λ i. i + 9 } }

five-IsValid : IsValid five
five-IsValid = record {
  ordered = omega arith;
  fits = omega arith;
  roomy = omega arith;
  far = omega arith;
}

push_front_lem_example :
    (contents (push_front five 7) ≡ contents five ++ (7 ∷ [])) × IsValid (push_front five 7)
push_front_lem_example = push_front_lem five 7 five-IsValid (omega arith) (omega arith)

pop_front_lem_example :
    ((contents five ≡ []) × (pop_front five ≡ (none, five)))
    ⊎ ((x : ℕ) × ((pop_front five).0 ≡ some x)
        × (contents five ≡ contents (pop_front five).1 ++ (x ∷ []))
        × IsValid (pop_front five).1)
pop_front_lem_example = pop_front_lem five five-IsValid

pop_back_half_lem_example :
    (contents five ≡ (pop_back_half five 4).0 ++ contents (pop_back_half five 4).1)
    × (length (pop_back_half five 4).0
        ≡ min 4 (max (length (contents five) / 2) (min (length (contents five)) 1)))
    × IsValid (pop_back_half five 4).1
pop_back_half_lem_example = pop_back_half_lem five 4 five-IsValid

crossed-duplicates_example :
    (get_elem? (crossed five 2).0 3 ≡ some (some 11)) × (get_elem? (crossed five 2).1 1 ≡ some 11)
unfolding get_array
crossed-duplicates_example = crossed-duplicates five 2 five-IsValid (omega arith) (omega arith)

two_taken : (pop_back_half five 4).0 ≡ 10 ∷ 11 ∷ []
unfolding pop_back_half half_read half_claim to_steal read_from get_array
two_taken = refl

-- An array of two slots has room for one item, and grows for the second.
grown : contents (push_front (push_front (new 2) 8) 9) ≡ 8 ∷ 9 ∷ []
unfolding push_front new new_array read_from get_array put_array grow_array copy_from
grown = refl
