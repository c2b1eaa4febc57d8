-- ===== src/Memory/Acquire/Count.antt =====
-- `acquire_dbs` of db.c counts every slot once: at once, or by the request that it waits for.
use arts.Prelude.{
  ℕ, suc, ◌+◌, ◌^◌, ◌≤◌, ◌<◌, ◌≡◌, arith, true, false, not, ◌&&◌, ◌||◌, ltb, ◌==◌, ==→eq, ==→ne,
  Bool-cases, inl, inr, ◌⊎◌, Option, none, some, List, [], ◌∷◌, get_or, set, length-set,
  get_or-set_self, get_or-set_ne, tally, tally-append, u32, sub_u32, refl, sym, ap, ◌∙◌, length,
  All,
}
use arts.Gas.Guid.{get_type}
use arts.Compute.Edt.{
  Dep, Mode, blank, db_null, db_ro, db_ew, db_rw, db_value, db_ptr, db_lc_sync, db_lc_no_copy,
  db_memset,
}
use arts.Memory.Acquire.{
  Lookup, Effect, count, request_slice, remote_get, out_of_order_get, wait_frontier, remote_request,
  full_request, out_of_order_request, return_ref, null_type, db_type, promote, acquire_db,
  acquire_slot, counts, add_calls, acquire_next, acquire_all, acquire_dbs, sort_slots, is_rw,
  is_value,
}
use mathlib.Core.Path.{subst}
use arts.Memory.Acquire.Order.{sort_slots_lem, sort_slots-inside}
use arts.Memory.Acquire.Slot.{
  settles, waits, is_request, taken, doubles, Splits, Settled, Sound, db-Settled,
}

-- A slot of which the calls make something: it names a DB or nothing, or holds a value.
abbrev pub Fine : Lookup → Dep → Type 0
Fine l d =
    ((get_type d.guid == db_type) ≡ true) × Sound l.db
    ⊎ ((get_type d.guid == db_type) ≡ false) × ((get_type d.guid == null_type) ≡ true)
    ⊎ (is_value d.mode ≡ true)

rw_no_value : (m : Mode) → is_rw m ≡ true → is_value m ≡ false
unfolding is_rw is_value
rw_no_value db_rw h = refl
rw_no_value db_value h = cc
rw_no_value db_null h = refl
rw_no_value db_ro h = refl
rw_no_value db_ew h = refl
rw_no_value db_ptr h = refl
rw_no_value db_lc_sync h = refl
rw_no_value db_lc_no_copy h = refl
rw_no_value db_memset h = refl

promote_lem :
    (nodes : ℕ) (d : Dep)
    → ((promote nodes d).guid ≡ d.guid)
      × ((promote nodes d).ptr ≡ d.ptr)
      × (is_value (promote nodes d).mode ≡ is_value d.mode)
unfolding promote is_value
promote_lem nodes d = elim (Bool-cases (is_rw d.mode && ltb 1 nodes)) [
  | inl up ↦
      let e : promote nodes d ≡ record d { mode = db_ew } = simp up in
      rw e (refl, refl, sym (rw_no_value d.mode (ground (arith, up))))
  | inr same ↦ let e : promote nodes d ≡ d = simp same in rw e (refl, refl, refl)
]

-- The slot keeps its GUID and stays a value if it is one, and one call settles it.
abbrev pub Once : Dep → Option (Dep × List Effect) → Type 0
Once d none = Unit
Once d (some (d', out)) =
    (d'.guid ≡ d.guid)
    × (is_value d'.mode ≡ is_value d.mode)
    × (tally settles out ≡ 1 + doubles out)
    × Splits out

Settled-Once :
    (d d' : Dep) (refs : ℕ) (o : Option (Dep × List Effect))
    → d'.guid ≡ d.guid
    → is_value d'.mode ≡ is_value d.mode
    → Settled d' refs o
    → Once d o
Settled-Once d d' refs none p q h = tt
Settled-Once d d' refs (some (d'', out)) p q (guid, mode, one, splits, refs_) =
    (guid ∙ p, ap is_value mode ∙ q, one, splits)

module _ (rank nodes : ℕ) (l : Lookup) (d : Dep) where
  slot-ready :
      (d.guid == 0) || not (d.ptr == 0) ≡ true → acquire_slot rank nodes l d ≡ some (d, count ∷ [])
  unfolding acquire_slot
  slot-ready e = simp e

  slot-db :
      (d.guid == 0) || not (d.ptr == 0) ≡ false
      → is_value d.mode ≡ false
      → (get_type d.guid == db_type) ≡ true
      → acquire_slot rank nodes l d ≡ acquire_db rank l l.db (promote nodes d)
  unfolding acquire_slot
  slot-db e v t = let (guid, ptr, value) = promote_lem nodes d in simp (e, value, v, guid, t)

  slot-counted :
      (d.guid == 0) || not (d.ptr == 0) ≡ false
      → (is_value d.mode ≡ true)
        ⊎ ((get_type d.guid == db_type) ≡ false) × ((get_type d.guid == null_type) ≡ true)
      → acquire_slot rank nodes l d ≡ some (promote nodes d, count ∷ [])
  unfolding acquire_slot
  slot-counted e (inl v) = let (guid, ptr, value) = promote_lem nodes d in simp (e, value, v)
  slot-counted e (inr (t, t')) =
      let (guid, ptr, value) = promote_lem nodes d in
      elim (Bool-cases (is_value d.mode)) [
        | inl v ↦ simp (e, value, v)
        | inr v ↦ simp (e, value, v, guid, t, t')
      ]

  open-Once :
      (d.guid == 0) || not (d.ptr == 0) ≡ false → Fine l d → Once d (acquire_slot rank nodes l d)
  open-Once e (inl (t, sound)) =
      let (guid, ptr, value) = promote_lem nodes d in
      let null : d.ptr ≡ 0 = ==→eq d.ptr 0 (ground (arith, e)) in
      elim (Bool-cases (is_value d.mode)) [
        | inl v ↦ rw (slot-counted e (inl v)) (guid, value, refl, (λ more. omega arith))
        | inr v ↦ rw (slot-db e v t) (
            Settled-Once d (promote nodes d) (taken l.db) (acquire_db rank l l.db (promote nodes d))
              guid value (db-Settled rank l l.db (promote nodes d) (ptr ∙ null) sound))
      ]
  open-Once e (inr (inl t)) =
      let (guid, ptr, value) = promote_lem nodes d in
      rw (slot-counted e (inr t)) (guid, value, refl, (λ more. omega arith))
  open-Once e (inr (inr v)) =
      let (guid, ptr, value) = promote_lem nodes d in
      rw (slot-counted e (inl v)) (guid, value, refl, (λ more. omega arith))

  pub slot-Once : Fine l d → Once d (acquire_slot rank nodes l d)
  slot-Once fine = elim (Bool-cases ((d.guid == 0) || not (d.ptr == 0))) [
    | inl ready ↦ rw (slot-ready ready) (refl, refl, refl, (λ more. omega arith))
    | inr open_ ↦ open-Once open_ fine
  ]

counts_or_waits : (out : List Effect) → tally settles out ≡ counts out + tally waits out
unfolding counts
counts_or_waits [] = refl
counts_or_waits (count ∷ out) = omega (arith, counts_or_waits out)
counts_or_waits (request_slice ∷ out) = omega (arith, counts_or_waits out)
counts_or_waits (remote_get r ∷ out) = omega (arith, counts_or_waits out)
counts_or_waits (out_of_order_get ∷ out) = omega (arith, counts_or_waits out)
counts_or_waits (wait_frontier ∷ out) = omega (arith, counts_or_waits out)
counts_or_waits (remote_request r ∷ out) = omega (arith, counts_or_waits out)
counts_or_waits (full_request r ∷ out) = omega (arith, counts_or_waits out)
counts_or_waits (out_of_order_request ∷ out) = omega (arith, counts_or_waits out)
counts_or_waits (return_ref ∷ out) = omega (arith, counts_or_waits out)

request_once : (out : List Effect) → is_request out ≤ 1
request_once [] = omega arith
request_once (count ∷ out) = omega arith
request_once (request_slice ∷ out) = omega arith
request_once (remote_get r ∷ out) = omega arith
request_once (out_of_order_get ∷ out) = omega arith
request_once (wait_frontier ∷ out) = omega arith
request_once (remote_request r ∷ out) = omega arith
request_once (full_request r ∷ out) = omega arith
request_once (out_of_order_request ∷ out) = omega arith
request_once (return_ref ∷ out) = omega arith

-- Only what waits is doubled.
doubles_few : (out : List Effect) → doubles out ≤ tally waits out
doubles_few [] = omega arith
doubles_few (count ∷ out) = omega (arith, doubles_few out)
doubles_few (request_slice ∷ out) = omega (arith, doubles_few out)
doubles_few (remote_get r ∷ out) = omega (arith, doubles_few out)
doubles_few (out_of_order_get ∷ out) = omega (arith, doubles_few out)
doubles_few (wait_frontier ∷ out) = omega (arith, doubles_few out, request_once out)
doubles_few (remote_request r ∷ out) = omega (arith, doubles_few out)
doubles_few (full_request r ∷ out) = omega (arith, doubles_few out)
doubles_few (out_of_order_request ∷ out) = omega (arith, doubles_few out)
doubles_few (return_ref ∷ out) = omega (arith, doubles_few out)

-- The counter and the calls after `k` slots
abbrev Totals : (needed k : ℕ) → Option (List Dep × ℕ × List Effect) → Type 0
Totals needed k none = Unit
Totals needed k (some (depv, left, out)) = left + k + doubles out ≡ needed + tally waits out

add_calls-Totals :
    (needed k : ℕ) (out : List Effect) (o : Option (List Dep × ℕ × List Effect))
    → tally settles out ≡ 1 + doubles out
    → Splits out
    → suc k ≤ needed
    → needed < 2 ^ 32
    → Totals (sub_u32 needed (counts out)) k o
    → Totals needed (suc k) (add_calls out o)
unfolding add_calls
add_calls-Totals needed k out none one splits le small h = tt
add_calls-Totals needed k out (some (depv, left, more)) one splits le small h = omega (
  arith,
  h,
  doubles_few out,
  one,
  le,
  small,
  splits more,
  counts_or_waits out,
  tally-append waits out more,
)

module _ (rank nodes : ℕ) (lookups : ℕ → Lookup) where
  -- Every slot is one of which the calls make something.
  abbrev pub AllFine : List Dep → Type 0
  AllFine depv = (i : ℕ) → Fine (lookups i) (get_or depv i blank)

  Fine-after :
      (i : ℕ) (d d' : Dep)
      → d'.guid ≡ d.guid
      → is_value d'.mode ≡ is_value d.mode
      → Fine (lookups i) d
      → Fine (lookups i) d'
  Fine-after i d d' e v (inl (t, sound)) = inl (ap (λ g. get_type g == db_type) e ∙ t, sound)
  Fine-after i d d' e v (inr (inl (t, t'))) =
      inr (inl (ap (λ g. get_type g == db_type) e ∙ t, ap (λ g. get_type g == null_type) e ∙ t'))
  Fine-after i d d' e v (inr (inr h)) = inr (inr (v ∙ h))

  set-AllFine :
      (depv : List Dep) (i : ℕ) (d' : Dep)
      → d'.guid ≡ (get_or depv i blank).guid
      → is_value d'.mode ≡ is_value (get_or depv i blank).mode
      → i < length depv
      → AllFine depv
      → AllFine (set depv i d')
  set-AllFine depv i d' e v lt fine j = elim (Bool-cases (i == j)) [
    | inl same ↦
        subst (λ j. Fine (lookups j) (get_or (set depv i d') j blank)) (==→eq i j same)
          (rw (get_or-set_self depv i d' blank lt)
            (Fine-after i (get_or depv i blank) d' e v (fine i)))
    | inr other ↦ rw (get_or-set_ne depv i j d' blank (==→ne i j other)) (fine j)
  ]

  next-Totals :
      (i needed k : ℕ) (depv : List Dep) (o : Option (Dep × List Effect))
      (others : List Dep → ℕ → Option (List Dep × ℕ × List Effect))
      → suc k ≤ needed
      → needed < 2 ^ 32
      → i < length depv
      → AllFine depv
      → Once (get_or depv i blank) o
      → ((depv' : List Dep) (n : ℕ)
          → length depv' ≡ length depv
          → k ≤ n
          → n < 2 ^ 32
          → AllFine depv'
          → Totals n k (others depv' n))
      → Totals needed (suc k) (acquire_next i needed depv o others)
  unfolding acquire_next
  next-Totals i needed k depv none others le small lt fine once h = tt
  next-Totals i needed k depv (some (d, out)) others le small lt fine (guid, value, one, splits) h =
      let split = counts_or_waits out in
      let few = doubles_few out in
      add_calls-Totals needed k out (others (set depv i d) (sub_u32 needed (counts out))) one splits
        le small
        (h (set depv i d) (sub_u32 needed (counts out)) (length-set depv i d)
          (omega (arith, one, le, small, split, few)) (omega (arith, one, le, small, split, few))
          (set-AllFine depv i d guid value lt fine))

  all-Totals :
      (order : List ℕ) (depv : List Dep) (needed : ℕ)
      → length order ≤ needed
      → needed < 2 ^ 32
      → All (λ i. i < length depv) order
      → AllFine depv
      → Totals needed (length order) (acquire_all rank nodes lookups order depv needed)
  unfolding acquire_all
  all-Totals [] depv needed le small ins fine = omega arith
  all-Totals (i ∷ is) depv needed le small (lt, ins) fine =
      next-Totals i needed (length is) depv
        (acquire_slot rank nodes (lookups i) (get_or depv i blank))
        (acquire_all rank nodes lookups is) le small lt fine
        (slot-Once rank nodes (lookups i) (get_or depv i blank) (fine i))
        (λ depv' n e le' small' fine'.
          all-Totals is depv' n le' small' (all_inside is depv depv' e ins) fine')
    where
      all_inside :
          (js : List ℕ) (xs ys : List Dep)
          → length ys ≡ length xs
          → All (λ i. i < length xs) js
          → All (λ i. i < length ys) js
      all_inside [] xs ys e ins = tt
      all_inside (j ∷ js) xs ys e (lt, ins) = (omega (arith, e, lt), all_inside js xs ys e ins)

waits_after :
    (needed k : ℕ) (o : Option (List Dep × ℕ × List Effect)) (depv : List Dep) (left : ℕ)
    (out : List Effect)
    → o ≡ some (depv, left, out)
    → Totals needed k o
    → left + k + doubles out ≡ needed + tally waits out
waits_after needed k o depv left out e h = subst (Totals needed k) e h

-- An EDT whose slots name DBs or nothing, or hold values, whatever the lookups and the frontiers answer
-- (a DB has memory): when the acquisition has not aborted, `depc_needed` counts each slot that waits
-- once, and one more for the caller. A slot waits for one request, except that one which the frontier
-- of the owner puts off while the valid copy is on another rank is requested from that rank as well:
-- the requests are as many as the slots that wait, and one more for each of these.
pub acquire_dbs-waits :
    (rank nodes depc : ℕ) (lookups : ℕ → Lookup) (depv depv' : List Dep) (needed : ℕ)
    (out : List Effect)
    → length depv ≡ depc
    → depc + 1 < 2 ^ 32
    → AllFine rank nodes lookups depv
    → acquire_dbs rank nodes lookups depc depv ≡ some (depv', needed, out)
    → needed + doubles out ≡ 1 + tally waits out
unfolding acquire_dbs
acquire_dbs-waits rank nodes depc lookups depv depv' needed out size small fine e =
    let order = sort_slots depv depc in
    let n : length order ≡ depc = (sort_slots_lem depv depc).1 in
    let start : u32 (depc + 1) ≡ depc + 1 = omega (arith, small) in
    let inside : All (λ i. i < length depv) order = rw size (sort_slots-inside depv depc) in
    let h =
      all-Totals rank nodes lookups order depv (u32 (depc + 1)) (omega (arith, n, start))
        (omega (arith, start, small)) inside fine in
    let sum =
      waits_after (u32 (depc + 1)) (length order)
        (acquire_all rank nodes lookups order depv (u32 (depc + 1))) depv' needed out e h in
    omega (arith, sum, n, start)
