-- ===== src/Gas/OoList.antt =====
-- libs/src/core/gas/out_of_order_list.c: the list of operations held back at a route-table entry, in a
-- chain of elements of OOPERELEMENT (4) slots. An operation is a pointer, 0 is NULL. A call runs alone,
-- so the reader count is 0 between calls; `none` stands for a loop that would wait for ever.
pub mod Chain
pub mod Refine
mod Tests
use arts.Prelude.{
  ℕ, zero, suc, ◌+◌, ◌/◌, ◌%◌, Bool, true, false, ◌&&◌, ltb, ◌==◌, if◌then◌else◌, Option, none,
  some, List, [], ◌∷◌, ◌++◌,
}

-- `arts_out_of_order_element_s`, without its `next`
pub data Element : Type 0 where
  slots : (s₀ s₁ s₂ s₃ : ℕ) → Element

abbrev pub new_element : Element
new_element = slots 0 0 0 0

-- `writerLock`: 0, FIRE_LOCK, RESET_LOCK
pub data Lock : Type 0 where
  free fire_lock reset_lock : Lock

-- `arts_out_of_order_list_s`; the chain from `head` on
pub record OoList : Type 0 where
  pub writer : Lock
  pub count : ℕ
  pub is_fired : Bool
  pub head : Element
  pub rest : List Element

-- The compare-and-swap loop of `arts_out_of_order_list_add_item`: it waits for an empty slot.
unfoldable pub fill_empty : ℕ → ℕ → Option ℕ
fill_empty old item = if old == 0 then some item else none

unfoldable pub with_slot₀ : Element → Option ℕ → Option Element
with_slot₀ e none = none
with_slot₀ (slots a b c d) (some x) = some (slots x b c d)

unfoldable pub with_slot₁ : Element → Option ℕ → Option Element
with_slot₁ e none = none
with_slot₁ (slots a b c d) (some x) = some (slots a x c d)

unfoldable pub with_slot₂ : Element → Option ℕ → Option Element
with_slot₂ e none = none
with_slot₂ (slots a b c d) (some x) = some (slots a b x d)

unfoldable pub with_slot₃ : Element → Option ℕ → Option Element
with_slot₃ e none = none
with_slot₃ (slots a b c d) (some x) = some (slots a b c x)

unfoldable pub put_slot : Element → (position item : ℕ) → Option Element
put_slot (slots a b c d) zero x = with_slot₀ (slots a b c d) (fill_empty a x)
put_slot (slots a b c d) (suc zero) x = with_slot₁ (slots a b c d) (fill_empty b x)
put_slot (slots a b c d) (suc (suc zero)) x = with_slot₂ (slots a b c d) (fill_empty c x)
put_slot (slots a b c d) (suc (suc (suc i))) x = with_slot₃ (slots a b c d) (fill_empty d x)

unfoldable pub as_last : Option Element → Option (Element × List Element)
as_last none = none
as_last (some e) = some (e, [])

unfoldable pub onto : Element → Option (Element × List Element) → Option (Element × List Element)
onto e none = none
onto e (some (f, fs)) = some (e, f ∷ fs)

unfoldable pub in_head : List Element → Option Element → Option (Element × List Element)
in_head es none = none
in_head es (some e) = some (e, es)

-- The walk to the element, `k` elements on, and the write to the slot. The thread that gets the first
-- slot of an element appends the element; any other one waits for it.
unfoldable pub put :
    (k position item : ℕ) → Element → List Element → Option (Element × List Element)
put zero i x e es = in_head es (put_slot e i x)
put (suc k) i x e [] =
    if (k == 0) && (i == 0) then onto e (as_last (put_slot new_element i x)) else none
put (suc k) i x e (f ∷ fs) = onto e (put k i x f fs)

unfoldable pub store : OoList → Option (Element × List Element) → Option (Bool × OoList)
store l none = none
store l (some (e, es)) = some (true, record l { count = l.count + 1; head = e; rest = es })

-- `reader_oo_try_lock` of a call that runs alone: refused under FIRE_LOCK, waiting under RESET_LOCK
unfoldable pub try_read : Lock → Option Bool
try_read free = some true
try_read fire_lock = some false
try_read reset_lock = none

unfoldable pub add_locked : OoList → (item : ℕ) → Option Bool → Option (Bool × OoList)
add_locked l x none = none
add_locked l x (some false) = some (false, l)
add_locked l x (some true) =
    if l.is_fired
    then some (false, l)
    else store l (put (l.count / 4) (l.count % 4) x l.head l.rest)

-- `arts_out_of_order_list_add_item`
unfoldable pub add_item : OoList → (item : ℕ) → Option (Bool × OoList)
add_item l x = add_locked l x (try_read l.writer)

unfoldable pub called : ℕ → Option (List ℕ × ℕ) → Option (List ℕ × ℕ)
called x none = none
called x (some (xs, n)) = some (x ∷ xs, n)

-- One slot of the loop of `arts_out_of_order_list_fire_callback`, with `n` items left, given what
-- the next slots do
unfoldable pub fire_slot : (n item : ℕ) → (ℕ → Option (List ℕ × ℕ)) → Option (List ℕ × ℕ)
fire_slot zero x next_slots = next_slots zero
fire_slot (suc n) x next_slots = if x == 0 then none else called x (next_slots n)

-- The slots of an element: the items that the callback gets, and how many are left
unfoldable pub fire_element : (n : ℕ) → Element → Option (List ℕ × ℕ)
fire_element n (slots a b c d) =
    fire_slot n a (λ n. fire_slot n b (λ n. fire_slot n c (λ n. fire_slot n d (λ n. some ([], n)))))

unfoldable pub followed_by : List ℕ → Option (List ℕ) → Option (List ℕ)
followed_by xs none = none
followed_by xs (some ys) = some (xs ++ ys)

unfoldable pub last_element : Option (List ℕ × ℕ) → Option (List ℕ)
last_element none = none
last_element (some (xs, left)) = if left == 0 then some xs else none

unfoldable pub then_elements : Option (List ℕ × ℕ) → (ℕ → Option (List ℕ)) → Option (List ℕ)
then_elements none more = none
then_elements (some (xs, left)) more = if left == 0 then some xs else followed_by xs (more left)

-- The elements: it waits for the next one while items are left.
unfoldable pub fire_elements : (n : ℕ) → Element → List Element → Option (List ℕ)
fire_elements n e [] = last_element (fire_element n e)
fire_elements n e (f ∷ fs) = then_elements (fire_element n e) (λ left. fire_elements left f fs)

-- What is left in the head element when `n` items have been taken
unfoldable pub clear_slot : (n i item : ℕ) → ℕ
clear_slot n i x = if ltb i n then 0 else x

unfoldable pub clear : ℕ → Element → Element
clear n (slots a b c d) =
    slots (clear_slot n 0 a) (clear_slot n 1 b) (clear_slot n 2 c) (clear_slot n 3 d)

unfoldable pub fired : OoList → Option (List ℕ) → Option (List ℕ × OoList)
fired l none = none
fired l (some xs) =
    some (xs, record l { is_fired = true; count = 0; head = clear l.count l.head; rest = [] })

unfoldable pub fire_locked : OoList → Lock → Option (List ℕ × OoList)
fire_locked l free = fired l (fire_elements l.count l.head l.rest)
fire_locked l fire_lock = some ([], l)
fire_locked l reset_lock = some ([], l)

-- `arts_out_of_order_list_fire_callback`: the items that the callback gets, in order. It gives up when
-- the lock stays taken.
unfoldable pub fire_callback : OoList → Option (List ℕ × OoList)
fire_callback l = fire_locked l l.writer

unfoldable pub reset_locked : OoList → Lock → OoList
reset_locked l free = record l { is_fired = false }
reset_locked l fire_lock = l
reset_locked l reset_lock = l

-- `arts_out_of_order_list_reset`
unfoldable pub reset : OoList → OoList
reset l = reset_locked l l.writer

-- The items that `delete_oo_elements` frees, and what it frees of the head
unfoldable pub items_of : Element → List ℕ
items_of (slots a b c d) = a ∷ b ∷ c ∷ d ∷ []

unfoldable pub items_of_all : List Element → List ℕ
items_of_all [] = []
items_of_all (e ∷ es) = items_of e ++ items_of_all es

-- `arts_out_of_order_list_delete`: the items that it frees, and the list
unfoldable pub delete : OoList → List ℕ × OoList
delete l = (
  items_of l.head ++ items_of_all l.rest,
  record l { count = 0; is_fired = false; head = new_element; rest = [] },
)

-- A list as `arts_calloc` gives it
abbrev pub new : OoList
new = record { writer = free; count = 0; is_fired = false; head = new_element; rest = [] }
