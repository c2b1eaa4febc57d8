-- ===== src/Utils/ArrayList.antt =====
-- libs/src/core/utils/array_list.c: a growing array in a chain of nodes of `array_length` elements.
-- The nodes are numbered from the head on, and a pointer to an element is the number of its node and
-- the offset in it. An element is a number. A node starts at the index `start` that its number gives.
pub mod Refine
mod Tests
use arts.Prelude.{
  ℕ, zero, suc, ◌+◌, ◌-◌, ◌*◌, ◌%◌, Bool, ◌&&◌, not, ltb, leb, ◌==◌, if◌then◌else◌, Option, none,
  some,
}

-- A pointer to an element
pub data Ptr : Type 0 where
  ptr : (node offset : ℕ) → Ptr

-- `arts_array_list_t`; `nodes` is the length of the chain and `current` the number of the node.
pub record ArrayList : Type 0 where
  pub array_length : ℕ
  pub nodes : ℕ
  pub current : ℕ
  pub index : ℕ
  pub last_request : ℕ
  pub last_request_ptr : Ptr
  pub cells : ℕ → ℕ → ℕ

-- `arts_new_array_list`; what the new memory holds is an argument.
unfoldable pub new : (array_length : ℕ) → (ℕ → ℕ → ℕ) → ArrayList
new array_length memory = record {
  array_length = array_length;
  nodes = 1;
  current = 0;
  index = 0;
  last_request = 0;
  last_request_ptr = ptr 0 0;
  cells = memory;
}

-- `start` of a node
unfoldable pub start : ArrayList → ℕ → ℕ
start a node = node * a.array_length

-- Where the next element goes: a full node is left for the next one, which is made if there is none.
unfoldable pub advance : ArrayList → ArrayList
advance a =
    if (a.index % a.array_length == 0) && not (a.index == 0)
    then record a {
      nodes = (if a.current + 1 == a.nodes then a.nodes + 1 else a.nodes);
      current = a.current + 1;
    }
    else a

-- `arts_next_free_from_array_list`: the pointer, and the list.
unfoldable pub next_free : ArrayList → Ptr × ArrayList
next_free a =
    let a' = advance a in
    (ptr a'.current (a'.index - start a' a'.current), record a' { index = a'.index + 1 })

unfoldable pub write : (ℕ → ℕ → ℕ) → Ptr → ℕ → ℕ → ℕ → ℕ
write cells (ptr n o) x i j = if (i == n) && (j == o) then x else cells i j

unfoldable pub read : (ℕ → ℕ → ℕ) → Ptr → ℕ
read cells (ptr n o) = cells n o

-- `arts_push_to_array_list`: the index, and the list.
unfoldable pub push : ArrayList → ℕ → ℕ × ArrayList
push a x = let (p, a') = next_free a in (a.index, record a' { cells = write a'.cells p x })

unfoldable pub reset : ArrayList → ArrayList
reset a = record a { current = 0; index = 0; last_request = 0; last_request_ptr = ptr 0 0 }

-- The loop that looks for the node of an index, from node `n` on with `k` nodes left.
unfoldable pub walk : ArrayList → (index n k : ℕ) → Option ℕ
walk a i n zero = none
walk a i n (suc k) = if leb (start a n + a.array_length) i then walk a i (n + 1) k else some n

-- `arts_get_from_array_list` on a list: the pointer, NULL as `none`, and the list.
unfoldable pub get : ArrayList → ℕ → Option Ptr × ArrayList
get a i =
    if i == a.last_request
    then (some a.last_request_ptr, a)
    else if ltb i a.index
    then (if ltb a.index a.array_length
        then (some (ptr 0 i), record a { last_request = i; last_request_ptr = ptr 0 i })
        else elim (walk a i 0 a.nodes) [
          | none ↦ (none, record a { last_request = i })
          | some n ↦
              let p = ptr n (i - start a n) in
              (some p, record a { last_request = i; last_request_ptr = p })
        ])
    else (none, a)
