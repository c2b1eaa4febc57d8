-- ===== src/Gas/RouteTable/Table/Search.antt =====
-- How the searches of a table see a slot that is filled or changed.
use arts.Prelude.{
  ℕ, zero, suc, ◌+◌, ◌<◌, ◌≡◌, ◌⊎◌, inl, inr, refl, sym, ap, ap₂, ◌∙◌, arith, Bool, true, false,
  ◌==◌, none, some, List, [], ◌∷◌, Bool-cases, Option-cases, ==→eq,
}
use arts.Gas.RouteTable.Table.{
  Item, Level, Place, place, empty_item, probe, find, below, first_of, if_found, item_at, put_slot,
  write_at, is_empty, with_room, new_route_table, get_route_table_key,
}

-- A test that no empty slot passes.
abbrev pub IsStrict : (Item → Bool) → Type 0
IsStrict test = (x : Item) → is_empty x ≡ true → test x ≡ false

probe_passes :
    (test : Item → Bool) (slots : ℕ → Item) (i k j : ℕ)
    → probe test slots i k ≡ some j
    → test (slots j) ≡ true
unfolding probe
probe_passes test slots i zero j h = cc
probe_passes test slots i (suc k) j h = elim (Bool-cases (test (slots i))) [
  | inl p ↦ ground (arith, p, h)
  | inr p ↦ probe_passes test slots (i + 1) k j (ground (arith, p, h))
]

-- The probe after a write that makes the slot fail, as it did before.
probe-put_fail :
    (test : Item → Bool) (slots : ℕ → Item) (j : ℕ) (x : Item) (i k : ℕ)
    → test (slots j) ≡ false
    → test x ≡ false
    → probe test (put_slot slots j x) i k ≡ probe test slots i k
unfolding probe
probe-put_fail test slots j x i zero h h' = refl
probe-put_fail test slots j x i (suc k) h h' =
    let ih = probe-put_fail test slots j x (i + 1) k h h' in ground (arith, ih, h, h')

-- The probe for a test that no slot passed finds the slot that the probe for an empty one found.
probe-put_pass :
    (test : Item → Bool) (slots : ℕ → Item) (j : ℕ) (x : Item) (i k : ℕ)
    → probe is_empty slots i k ≡ some j
    → probe test slots i k ≡ none
    → test x ≡ true
    → probe test (put_slot slots j x) i k ≡ some j
unfolding probe
probe-put_pass test slots j x i zero h h' t = cc
probe-put_pass test slots j x i (suc k) h h' t =
    let ih = probe-put_pass test slots j x (i + 1) k in ground (arith, ih, h, h', t)

abbrev slot_key : ℕ → Level → ℕ
slot_key key l = get_route_table_key key l.shift

pub find_passes :
    (test : Item → Bool) (key : ℕ) (t : List Level) (p : Place)
    → find test key t ≡ some p
    → test (item_at t p) ≡ true
find_passes test key [] p h = cc
find_passes test key (l ∷ ls) p h = elim (Option-cases (probe test l.slots (slot_key key l) 8)) [
  | inr (i, e) ↦ ground (arith, e, h, probe_passes test l.slots (slot_key key l) 8 i e)
  | inl e ↦ elim (Option-cases (find test key ls)) [
    | inl e' ↦ ground (arith, e, e', h)
    | inr (place n j, e') ↦ ground (arith, e, e', h, find_passes test key ls (place n j) e')
  ]
]

pub find-write_fail :
    (test : Item → Bool) (key : ℕ) (t : List Level) (p : Place) (x : Item)
    → test (item_at t p) ≡ false
    → test x ≡ false
    → find test key (write_at t p x) ≡ find test key t
find-write_fail test key [] p x h h' = refl
find-write_fail test key (l ∷ ls) (place zero j) x h h' =
    ap (λ r. first_of r (find test key ls))
      (probe-put_fail test l.slots j x (slot_key key l) 8 h h')
find-write_fail test key (l ∷ ls) (place (suc n) j) x h h' =
    ap (first_of (probe test l.slots (slot_key key l) 8))
      (find-write_fail test key ls (place n j) x h h')

-- The slot that a key finds empty is the slot that it finds when it is filled.
pub find-write_pass :
    (test : Item → Bool) (key : ℕ) (t : List Level) (p : Place) (x : Item)
    → find is_empty key t ≡ some p
    → find test key t ≡ none
    → test x ≡ true
    → find test key (write_at t p x) ≡ some p
find-write_pass test key [] p x h h' pass = cc
find-write_pass test key (l ∷ ls) (place zero j) x h h' pass =
    elim (Option-cases (probe is_empty l.slots (slot_key key l) 8)) [
      | inr (i, e) ↦
          ground (arith, e, h, h', pass, probe-put_pass test l.slots j x (slot_key key l) 8)
      | inl e ↦ elim (Option-cases (find is_empty key ls)) [
        | inl e' ↦ ground (arith, e, e', h)
        | inr (place n i, e') ↦ ground (arith, e, e', h)
      ]
    ]
find-write_pass test key (l ∷ ls) (place (suc n) j) x h h' pass =
    let ih = find-write_pass test key ls (place n j) x in
    elim (Option-cases (probe is_empty l.slots (slot_key key l) 8)) [
      | inr (i, e) ↦ ground (arith, e, h)
      | inl e ↦ elim (Option-cases (find is_empty key ls)) [
        | inl e' ↦ ground (arith, e, e', h)
        | inr (place m i, e') ↦ elim (Option-cases (probe test l.slots (slot_key key l) 8)) [
          | inr (k, e'') ↦ ground (arith, e'', h')
          | inl e'' ↦ ap₂ first_of e'' (
              ih (ground (arith, e, e', h))
                (ground (arith, e'', h', Option-cases (find test key ls))) pass)
        ]
      ]
    ]

find_later :
    (test : Item → Bool) (key : ℕ) (l : Level) (ls : List Level) (n j : ℕ)
    → find test key (l ∷ ls) ≡ some (place (suc n) j)
    → find test key ls ≡ some (place n j)
find_later test key l ls n j h = elim (Option-cases (probe test l.slots (slot_key key l) 8)) [
  | inr (k, e) ↦ ground (arith, e, h)
  | inl e ↦ elim (Option-cases (find test key ls)) [
    | inl e' ↦ ground (arith, e, e', h)
    | inr (place m k, e') ↦ ground (arith, e, e', h)
  ]
]

pub item_at-write_at :
    (test : Item → Bool) (key : ℕ) (t : List Level) (p : Place) (x : Item)
    → find test key t ≡ some p
    → item_at (write_at t p x) p ≡ x
item_at-write_at test key [] p x h = cc
item_at-write_at test key (l ∷ ls) (place zero j) x h = ground arith
item_at-write_at test key (l ∷ ls) (place (suc n) j) x h =
    item_at-write_at test key ls (place n j) x (find_later test key l ls n j h)

put_slot_twice :
    (slots : ℕ → Item) (j : ℕ) (x y : Item) (k : ℕ)
    → put_slot (put_slot slots j x) j y k ≡ put_slot slots j y k
put_slot_twice slots j x y k = ground arith

pub write_at_twice :
    (t : List Level) (p : Place) (x y : Item) → write_at (write_at t p x) p y ≡ write_at t p y
write_at_twice [] p x y = refl
write_at_twice (l ∷ ls) (place zero j) x y =
    ap (λ f. record l { slots = f } ∷ ls) (λ i k. put_slot_twice l.slots j x y k i)
write_at_twice (l ∷ ls) (place (suc n) j) x y = ap (λ r. l ∷ r) (write_at_twice ls (place n j) x y)

below_place : Place → Place
below_place (place n i) = place (suc n) i

below-some : (p : Place) → below (some p) ≡ some (below_place p)
unfolding below_place
below-some (place n i) = refl

pub item_at-write_other :
    (t : List Level) (p q : Place) (x : Item) → (item_at (write_at t p x) q ≡ item_at t q) ⊎ (p ≡ q)
unfolding below_place
item_at-write_other [] p q x = inl refl
item_at-write_other (l ∷ ls) (place zero j) (place zero i) x = elim (Bool-cases (i == j)) [
  | inl e ↦ inr (ap (place 0) (sym (==→eq i j e)))
  | inr e ↦ inl (simp e)
]
item_at-write_other (l ∷ ls) (place zero j) (place (suc m) i) x = inl refl
item_at-write_other (l ∷ ls) (place (suc n) j) (place zero i) x = inl refl
item_at-write_other (l ∷ ls) (place (suc n) j) (place (suc m) i) x =
    elim (item_at-write_other ls (place n j) (place m i) x) [
      | inl e ↦ inl e
      | inr e ↦ inr (ap below_place e)
    ]

-- A new table: only an empty slot is found in it, and at once.
probe-new :
    (test : Item → Bool) (i k : ℕ)
    → test empty_item ≡ false
    → probe test (λ _. empty_item) i k ≡ none
unfolding probe
probe-new test i zero h = refl
probe-new test i (suc k) h = ground (arith, h, probe-new test (i + 1) k h)

-- Room for a key leaves what other searches find, and gives the key an empty slot.
pub with_room-find :
    (test : Item → Bool) (key key' size shift : ℕ) (t : List Level)
    → IsStrict test
    → find test key' (with_room key size shift t) ≡ find test key' t
unfolding new_route_table
with_room-find test key key' size shift [] strict =
    ap (λ r. first_of r none)
      (probe-new test (get_route_table_key key' (shift + 1)) 8 (strict empty_item refl))
with_room-find test key key' size shift (l ∷ ls) strict =
    elim (Option-cases (probe is_empty l.slots (slot_key key l) 8)) [
      | inr (i, e) ↦
          ap (λ r. find test key' (if_found r (l ∷ ls) (l ∷ with_room key l.size l.shift ls))) e
      | inl e ↦
          ap (λ r. find test key' (if_found r (l ∷ ls) (l ∷ with_room key l.size l.shift ls))) e
          ∙ ap (first_of (probe test l.slots (slot_key key' l) 8))
              (with_room-find test key key' l.size l.shift ls strict)
    ]

pub with_room-item_at :
    (test : Item → Bool) (key key' size shift : ℕ) (t : List Level) (q : Place)
    → find test key' t ≡ some q
    → item_at (with_room key size shift t) q ≡ item_at t q
with_room-item_at test key key' size shift [] q h = cc
with_room-item_at test key key' size shift (l ∷ ls) (place zero j) h =
    elim (Option-cases (probe is_empty l.slots (slot_key key l) 8)) [
      | inr (i, e) ↦
          ap
            (λ r.
              item_at (if_found r (l ∷ ls) (l ∷ with_room key l.size l.shift ls)) (place zero j))
            e
      | inl e ↦
          ap
            (λ r.
              item_at (if_found r (l ∷ ls) (l ∷ with_room key l.size l.shift ls)) (place zero j))
            e
    ]
with_room-item_at test key key' size shift (l ∷ ls) (place (suc n) j) h =
    elim (Option-cases (probe is_empty l.slots (slot_key key l) 8)) [
      | inr (i, e) ↦
          ap
            (λ r.
              item_at (if_found r (l ∷ ls) (l ∷ with_room key l.size l.shift ls)) (place (suc n) j))
            e
      | inl e ↦
          ap
            (λ r.
              item_at (if_found r (l ∷ ls) (l ∷ with_room key l.size l.shift ls)) (place (suc n) j))
            e
          ∙ with_room-item_at test key key' l.size l.shift ls (place n j)
              (find_later test key' l ls n j h)
    ]

probe-new_empty : (i k : ℕ) → 0 < k → probe is_empty (λ _. empty_item) i k ≡ some i
unfolding probe
probe-new_empty i zero h = absurd (omega arith)
probe-new_empty i (suc k) h = refl

pub with_room-finds :
    (key size shift : ℕ) (t : List Level)
    → (p : Place) × (find is_empty key (with_room key size shift t) ≡ some p)
unfolding new_route_table
with_room-finds key size shift [] = (
  place 0 (get_route_table_key key (shift + 1)),
  ap (λ r. first_of r none) (probe-new_empty (get_route_table_key key (shift + 1)) 8 (omega arith)),
)
with_room-finds key size shift (l ∷ ls) =
    elim (Option-cases (probe is_empty l.slots (slot_key key l) 8)) [
      | inr (i, e) ↦ (
        place 0 i,
        ap (λ r. find is_empty key (if_found r (l ∷ ls) (l ∷ with_room key l.size l.shift ls))) e
            ∙ ap (λ r. first_of r (find is_empty key ls)) e,
      )
      | inl e ↦
          let (p, found) = with_room-finds key l.size l.shift ls in
          (
            below_place p,
            ap (λ r. find is_empty key (if_found r (l ∷ ls) (l ∷ with_room key l.size l.shift ls)))
                  e
                ∙ ap₂ first_of e found
                ∙ below-some p,
          )
    ]

-- A test that implies another finds nothing where that one does not.
probe_weaker :
    (test test' : Item → Bool) (slots : ℕ → Item) (i k : ℕ)
    → ((x : Item) → test x ≡ true → test' x ≡ true)
    → probe test' slots i k ≡ none
    → probe test slots i k ≡ none
unfolding probe
probe_weaker test test' slots i zero weaker h = refl
probe_weaker test test' slots i (suc k) weaker h =
    ground (arith, h, weaker (slots i), probe_weaker test test' slots (i + 1) k weaker)

pub find_weaker :
    (test test' : Item → Bool) (key : ℕ) (t : List Level)
    → ((x : Item) → test x ≡ true → test' x ≡ true)
    → find test' key t ≡ none
    → find test key t ≡ none
find_weaker test test' key [] weaker h = refl
find_weaker test test' key (l ∷ ls) weaker h =
    elim (Option-cases (probe test' l.slots (slot_key key l) 8)) [
      | inr (i, e) ↦ ground (arith, e, h)
      | inl e ↦ elim (Option-cases (find test' key ls)) [
        | inr (place n i, e') ↦ ground (arith, e, e', h)
        | inl e' ↦
            ap₂ first_of (probe_weaker test test' l.slots (slot_key key l) 8 weaker e)
              (find_weaker test test' key ls weaker e')
      ]
    ]
