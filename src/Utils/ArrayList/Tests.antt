-- ===== src/Utils/ArrayList/Tests.antt =====
-- The array list theorems at concrete inputs.
use arts.Prelude.{ℕ, ◌+◌, ◌<◌, ◌≤◌, ◌≡◌, ◌≢◌, refl, arith, none, some}
use arts.Utils.ArrayList.{ArrayList, ptr, push, get, start, walk}
use arts.Utils.ArrayList.Refine.{IsValid, place_of, element, push_lem, get_lem}

-- Nodes of two elements; 10, 11 and 12 have been pushed.
abbrev three : ArrayList
three = record {
  array_length = 2;
  nodes = 2;
  current = 1;
  index = 3;
  last_request = 0;
  last_request_ptr = ptr 0 0;
  cells = λ n o. 10 + n + n + o;
}

three-IsValid : IsValid three
three-IsValid = record {
  positive = omega arith;
  covered = omega arith;
  reached = λ _. omega arith;
  head = λ e. absurd (omega (arith, e));
  chain = omega arith;
  last = refl;
}

push_lem_example :
    ((push three 7).0 ≡ 3)
    × ((push three 7).1.index ≡ 4)
    × (element (push three 7).1 3 ≡ 7)
    × ((j : ℕ) → j < 3 → element (push three 7).1 j ≡ element three j)
    × IsValid (push three 7).1
push_lem_example = push_lem three 7 three-IsValid

get_lem_example :
    (2 < 3 → (get three 2).0 ≡ some (place_of three 2))
    × (3 ≤ 2 → ◌≢◌ {A = ℕ} 2 0 → (get three 2).0 ≡ none)
    × ((get three 2).1.cells ≡ three.cells)
    × ((get three 2).1.index ≡ 3)
    × IsValid (get three 2).1
get_lem_example = get_lem three 2 three-IsValid

-- The third element is the first of the second node.
third : (get three 2).0 ≡ some (ptr 1 0)
unfolding get walk start
third = refl
