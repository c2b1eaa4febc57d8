-- ===== src/Memory/Release/Once.antt =====
-- `release_dbs` of db.c: a DB that an EDT has written goes on once, and every reference is given back.
use arts.Prelude.{
  ℕ, ◌+◌, ◌≡◌, arith, Bool, true, false, not, ◌&&◌, ◌||◌, ◌==◌, ==→eq, eq→==, if◌then◌else◌,
  Bool-cases, inl, inr, List, [], ◌∷◌, ◌++◌, tally, tally-append, refl, ap, ap₂, ◌∙◌,
}
use arts.Gas.Guid.{get_rank}
use arts.Compute.Edt.{
  Dep, Mode, db_null, db_ro, db_ew, db_rw, db_value, db_ptr, db_lc_sync, db_lc_no_copy, db_memset,
}
use arts.Memory.Acquire.{is_local, is_value}
use arts.Memory.Release.{
  ReleaseCall, free_copy, progress_frontier, return_db, Headers, is_write, is_ptr_mode, seen_among,
  seen_write, release_write, release_ref, release_slot, release_from, release_dbs,
}

-- How often the frontier of the DB at `p` goes on, and how often a reference to `g` is given back
abbrev pub goes_on : (g p : ℕ) → ReleaseCall → ℕ
goes_on g p (progress_frontier g' p') = if (g' == g) && (p' == p) then 1 else 0
goes_on g p _ = 0

abbrev pub gives_back : ℕ → ReleaseCall → ℕ
gives_back g (return_db g') = if g' == g then 1 else 0
gives_back g _ = 0

-- A slot that holds a reference to `g`
abbrev pub refers : ℕ → Dep → ℕ
refers g d =
    if (d.guid == 0) || is_ptr_mode d.mode || is_value d.mode || (d.ptr == 0)
    then 0
    else (if d.guid == g then 1 else 0)

-- A slot among these writes the DB `g` at `p`.
abbrev pub written : (g p : ℕ) → List Dep → Bool
written g p [] = false
written g p (d ∷ ds) = (d.guid == g) && (d.ptr == p) && is_write d.mode || written g p ds

write_no_back :
    (g rank : ℕ) (h : Headers) (before : List Dep) (d : Dep)
    → tally (gives_back g) (release_write rank h before d) ≡ 0
unfolding release_write
write_no_back g rank h before d = ground arith

ref_back : (g : ℕ) (d : Dep) → tally (gives_back g) (release_ref d) ≡ refers g d
unfolding release_ref
ref_back g d = ground arith

ptr_no_write : (m : Mode) → is_ptr_mode m ≡ true → is_write m ≡ false
unfolding is_ptr_mode is_write
ptr_no_write db_ptr h = refl
ptr_no_write db_ew h = cc
ptr_no_write db_memset h = cc
ptr_no_write db_null h = refl
ptr_no_write db_ro h = refl
ptr_no_write db_rw h = refl
ptr_no_write db_value h = refl
ptr_no_write db_lc_sync h = refl
ptr_no_write db_lc_no_copy h = refl

module _ (rank : ℕ) (h : Headers) (before : List Dep) (d : Dep) where
  slot-copy :
      is_ptr_mode d.mode ≡ true
      → release_slot rank h before d
        ≡ (record d { ptr = 0 }, (if d.ptr == 0 then [] else free_copy d.ptr ∷ []))
  unfolding release_slot
  slot-copy e = simp e

  slot-plain :
      is_ptr_mode d.mode ≡ false
      → release_slot rank h before d ≡ (d, release_write rank h before d ++ release_ref d)
  unfolding release_slot
  slot-plain e = simp e

  slot_back : (g : ℕ) → tally (gives_back g) (release_slot rank h before d).1 ≡ refers g d
  slot_back g = elim (Bool-cases (is_ptr_mode d.mode)) [
    | inl copy ↦ rw (slot-copy copy) (ground (arith, copy))
    | inr plain ↦ rw (slot-plain plain) (
        omega (
          arith,
          write_no_back g rank h before d,
          ref_back g d,
          tally-append (gives_back g) (release_write rank h before d) (release_ref d),
        ))
  ]

from_back :
    (g rank : ℕ) (h : Headers) (before ds : List Dep)
    → tally (gives_back g) (release_from rank h before ds) ≡ tally (refers g) ds
unfolding release_from
from_back g rank h before [] = refl
from_back g rank h before (d ∷ ds) =
    let (d', out) = release_slot rank h before d in
    omega (
      arith,
      tally-append (gives_back g) out (release_from rank h (d' ∷ before) ds),
      slot_back rank h before d g,
      from_back g rank h (d' ∷ before) ds,
    )

-- The DB `g` at `p`: remembered, of a type with frontiers, owned by this rank, and with a frontier
pub record HasFrontier (rank : ℕ) (h : Headers) (g p : ℕ) : Type 0 where
  pub real_guid : (g == 0) ≡ false
  pub real_ptr : (p == 0) ≡ false
  pub not_local : is_local (h.type_of p) ≡ false
  pub own : (get_rank g == rank) ≡ true
  pub frontier : h.has_frontier p ≡ true

abbrev writes_it : (g p : ℕ) → Dep → Bool
writes_it g p d = (d.guid == g) && (d.ptr == p) && is_write d.mode

module _ (rank : ℕ) (h : Headers) (g p : ℕ) (f : HasFrontier rank h g p) (before : List Dep) where
  ref_still : (d : Dep) → tally (goes_on g p) (release_ref d) ≡ 0
  unfolding release_ref
  ref_still d = ground arith

  write_other :
      (d : Dep) → writes_it g p d ≡ false → tally (goes_on g p) (release_write rank h before d) ≡ 0
  unfolding release_write
  write_other d e = ground (arith, e)

  write_own :
      (d : Dep)
      → d.guid ≡ g
      → d.ptr ≡ p
      → is_write d.mode ≡ true
      → tally (goes_on g p) (release_write rank h before d)
        ≡ (if seen_among before g p then 0 else 1)
  unfolding release_write seen_write
  write_own d e e' w = elim (Bool-cases (seen_among before g p)) [
    | inl seen ↦ simp (e, e', w, f.real_guid, f.real_ptr, seen)
    | inr first ↦ simp (
      e,
      e',
      w,
      f.real_guid,
      f.real_ptr,
      first,
      f.not_local,
      f.own,
      f.frontier,
      eq→== g g refl,
      eq→== p p refl,
    )
  ]

  -- What a slot adds, and what the slots after it know of it
  slot_goes_on :
      (d : Dep)
      → (tally (goes_on g p) (release_slot rank h before d).1
          ≡ (if writes_it g p d && not (seen_among before g p) then 1 else 0))
        × (seen_among ((release_slot rank h before d).0 ∷ before) g p
            ≡ (writes_it g p d || seen_among before g p))
  unfolding seen_among
  slot_goes_on d = elim (Bool-cases (is_ptr_mode d.mode)) [
    | inl copy ↦
        let none_written = ptr_no_write d.mode copy in
        rw (slot-copy rank h before d copy)
          (ground (arith, none_written), ground (arith, none_written))
    | inr plain ↦ rw (slot-plain rank h before d plain) (
      (let both = tally-append (goes_on g p) (release_write rank h before d) (release_ref d) in
          let still = ref_still d in
          elim (Bool-cases (writes_it g p d)) [
            | inl it ↦
                let own =
                  write_own d (==→eq d.guid g (ground (arith, it)))
                    (==→eq d.ptr p (ground (arith, it))) (ground (arith, it)) in
                ground (arith, both, still, own, it)
            | inr other ↦
                let none_on = write_other d other in ground (arith, both, still, none_on, other)
          ]),
      refl,
    )
  ]

add_up :
    (w s r : Bool)
    → (if w && not s then 1 else 0) + (if r && not (w || s) then 1 else 0)
      ≡ (if (w || r) && not s then 1 else 0)
add_up true true r = ground arith
add_up true false r = ground arith
add_up false true r = ground arith
add_up false false r = ground arith

no_more : (b : Bool) → ◌≡◌ {A = ℕ} (if b && not false then 1 else 0) (if b then 1 else 0)
no_more true = refl
no_more false = refl

from_goes_on :
    (rank : ℕ) (h : Headers) (g p : ℕ)
    → HasFrontier rank h g p
    → (before ds : List Dep)
    → tally (goes_on g p) (release_from rank h before ds)
      ≡ (if written g p ds && not (seen_among before g p) then 1 else 0)
unfolding release_from
from_goes_on rank h g p f before [] = refl
from_goes_on rank h g p f before (d ∷ ds) =
    let (d', out) = release_slot rank h before d in
    let (now, known) = slot_goes_on rank h g p f before d in
    let later = from_goes_on rank h g p f (d' ∷ before) ds in
    let both = tally-append (goes_on g p) out (release_from rank h (d' ∷ before) ds) in
    both
    ∙ ap₂ ◌+◌ now (later ∙ ap (λ b. if written g p ds && not b then 1 else 0) known)
    ∙ add_up (writes_it g p d) (seen_among before g p) (written g p ds)

-- An EDT ends, and its slots are released. The frontier of a DB that this rank owns, of a type that has
-- frontiers, goes on once if a slot writes the DB, however many slots do, and not at all otherwise; and
-- for every GUID as many references are given back as slots hold one.
pub release_dbs_lem :
    (rank : ℕ) (h : Headers) (depv : List Dep)
    → ((g p : ℕ)
        → HasFrontier rank h g p
        → tally (goes_on g p) (release_dbs rank h depv) ≡ (if written g p depv then 1 else 0))
      × ((g : ℕ) → tally (gives_back g) (release_dbs rank h depv) ≡ tally (refers g) depv)
unfolding release_dbs seen_among
release_dbs_lem rank h depv = (
  (λ g p f. from_goes_on rank h g p f [] depv ∙ no_more (written g p depv)),
  (λ g. from_back g rank h [] depv),
)
