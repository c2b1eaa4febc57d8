-- ===== src/Memory/Acquire/Slot.antt =====
-- `acquire_dbs` of db.c on one slot: what settles it; and the reference of the lookup is kept with
-- the pointer or given back.
use arts.Prelude.{
  ℕ, ◌+◌, ◌≡◌, ◌≢◌, arith, Bool, true, false, not, ◌&&◌, ◌||◌, ◌==◌, if◌then◌else◌, Bool-cases, inl,
  inr, Option, none, some, List, [], ◌∷◌, ◌++◌, tally, refl,
}
use arts.Gas.Guid.{get_rank}
use arts.Compute.Edt.{Dep}
use arts.Memory.Acquire.{
  Found, Lookup, Effect, remote_request, full_request, count, request_slice, remote_get,
  out_of_order_get, wait_frontier, out_of_order_request, return_ref, take, defer, slice_here,
  acquire_slice, frontier_wait, request, acquire_found, acquire_missing, acquire_db, is_local,
  is_ro, is_ew, is_lc_sync, is_shared,
}

-- What counts a slot sooner or later: the decrement, or a request that it waits for
abbrev pub settles : Effect → ℕ
settles return_ref = 0
settles _ = 1

abbrev pub waits : Effect → ℕ
waits return_ref = 0
waits count = 0
waits _ = 1

abbrev pub returns : Effect → ℕ
returns return_ref = 1
returns _ = 0

-- How often a slot that waits at the frontier of its DB is requested from another rank as well
abbrev pub is_request : List Effect → ℕ
is_request (remote_request r ∷ _) = 1
is_request (full_request r ∷ _) = 1
is_request _ = 0

abbrev pub doubles : List Effect → ℕ
doubles [] = 0
doubles (wait_frontier ∷ out) = is_request out + doubles out
doubles (_ ∷ out) = doubles out

-- The calls of a slot double nothing with those of the next.
abbrev pub Splits : List Effect → Type 0
Splits out = (more : List Effect) → doubles (out ++ more) ≡ doubles out + doubles more

Splits-return : (x : Effect) → Splits (x ∷ return_ref ∷ []) × (doubles (x ∷ return_ref ∷ []) ≡ 0)
Splits-return count = ((λ more. omega arith), refl)
Splits-return request_slice = ((λ more. omega arith), refl)
Splits-return (remote_get r) = ((λ more. omega arith), refl)
Splits-return out_of_order_get = ((λ more. omega arith), refl)
Splits-return wait_frontier = ((λ more. omega arith), refl)
Splits-return (remote_request r) = ((λ more. omega arith), refl)
Splits-return (full_request r) = ((λ more. omega arith), refl)
Splits-return out_of_order_request = ((λ more. omega arith), refl)
Splits-return return_ref = ((λ more. omega arith), refl)

-- The references that the lookup of a whole DB or of a slice has taken
abbrev pub taken : Option Found → ℕ
taken none = 0
taken (some f) = 1

abbrev pub holds_ref : Dep → ℕ
holds_ref d = if d.ptr == 0 then 0 else 1

-- A slot that one call settles, or two of which one doubles the other, with `refs` references taken for it
abbrev pub Settled : Dep → (refs : ℕ) → Option (Dep × List Effect) → Type 0
Settled d refs none = Unit
Settled d refs (some (d', out)) =
    (d'.guid ≡ d.guid)
    × (d'.mode ≡ d.mode)
    × (tally settles out ≡ 1 + doubles out)
    × Splits out
    × (tally returns out + holds_ref d' ≡ refs)

no_ref : (d : Dep) → d.ptr ≡ 0 → holds_ref d ≡ 0
no_ref d null = ground (arith, null)

take-Settled : (f : Found) (d : Dep) → f.payload ≢ 0 → Settled d 1 (take f d [])
unfolding take
take-Settled f d real = (refl, refl, refl, (λ more. omega arith), ground (arith, real))

defer-Settled :
    (d : Dep) (x : Effect)
    → d.ptr ≡ 0
    → settles x ≡ 1
    → returns x ≡ 0
    → Settled d 1 (defer d (x ∷ []))
unfolding defer
defer-Settled d x null one none_back =
    let (splits, none_doubled) = Splits-return x in
    (refl, refl, omega (arith, one, none_doubled), splits, omega (arith, none_back, no_ref d null))

wait-Settled :
    (d : Dep) (x : Effect)
    → d.ptr ≡ 0
    → ((more : List Effect) → doubles (x ∷ more) ≡ doubles more)
    → settles x ≡ 1
    → returns x ≡ 0
    → Settled d 0 (some (d, x ∷ []))
wait-Settled d x null alone one none_back = (
  refl,
  refl,
  omega (arith, one, alone []),
  (λ more. omega (arith, alone more, alone [])),
  omega (arith, none_back, no_ref d null),
)

request_lem :
    (rank : ℕ) (full : Bool) → (settles (request rank full) ≡ 1) × (returns (request rank full) ≡ 0)
unfolding request
request_lem rank true = (refl, refl)
request_lem rank false = (refl, refl)

request_alone :
    (rank : ℕ) (full : Bool) (more : List Effect)
    → doubles (request rank full ∷ more) ≡ doubles more
unfolding request
request_alone rank true more = refl
request_alone rank false more = refl

-- A slot that is put off by the frontier, and requested from the rank that has the valid copy
both-Settled :
    (d : Dep) (rank : ℕ) (full : Bool)
    → d.ptr ≡ 0
    → Settled d 1 (defer d (wait_frontier ∷ request rank full ∷ []))
unfolding defer request
both-Settled d rank true null =
    (refl, refl, refl, (λ more. omega arith), omega (arith, no_ref d null))
both-Settled d rank false null =
    (refl, refl, refl, (λ more. omega arith), omega (arith, no_ref d null))

found-Settled :
    (rank : ℕ) (f : Found) (on_head : Bool) (d : Dep)
    → d.ptr ≡ 0
    → f.payload ≢ 0
    → Settled d 1 (acquire_found rank f on_head d)
unfolding acquire_found frontier_wait
found-Settled rank f on_head d null real = elim (Bool-cases (is_local f.type)) [
  | inl local ↦ rw local (take-Settled f d real)
  | inr other ↦ elim (Bool-cases (get_rank d.guid == rank)) [
    | inl own ↦ elim (Bool-cases (is_lc_sync d.mode)) [
      | inl sync ↦ rw (other, own, sync) (take-Settled f d real)
      | inr plain ↦ elim (Bool-cases (f.valid_rank == rank)) [
        | inl here ↦ elim (Bool-cases on_head) [
          | inl granted ↦ rw (other, own, plain, here, granted) (take-Settled f d real)
          | inr behind ↦
              rw (other, own, plain, here, behind) (defer-Settled d wait_frontier null refl refl)
        ]
        | inr there ↦
            let full = not (is_ro d.mode || is_shared f.type) in
            let (one, none_back) = request_lem f.valid_rank full in
            elim (Bool-cases on_head) [
              | inl granted ↦
                  rw (other, own, plain, there, granted)
                    (defer-Settled d (request f.valid_rank full) null one none_back)
              | inr behind ↦
                  rw (other, own, plain, there, behind) (both-Settled d f.valid_rank full null)
            ]
      ]
    ]
    | inr away ↦ elim (Bool-cases (f.valid_rank == rank)) [
      | inl here ↦ rw (other, away, here) (take-Settled f d real)
      | inr there ↦
          let (one, none_back) = request_lem (get_rank d.guid) (is_ew d.mode) in
          rw (other, away, there)
            (defer-Settled d (request (get_rank d.guid) (is_ew d.mode)) null one none_back)
    ]
  ]
]

slice-Settled :
    (rank : ℕ) (f : Found) (ok : Bool) (d : Dep)
    → d.ptr ≡ 0
    → Settled d 1 (acquire_slice rank f ok d)
unfolding acquire_slice slice_here
slice-Settled rank f ok d null = elim (Bool-cases (is_local f.type || (f.valid_rank == rank))) [
  | inl here ↦ elim (Bool-cases ok) [
    | inl done ↦ rw (here, done) (defer-Settled d request_slice null refl refl)
    | inr failed ↦ rw (here, failed) tt
  ]
  | inr there ↦ rw there (defer-Settled d (remote_get f.valid_rank) null refl refl)
]

missing-Settled :
    (rank : ℕ) (has_slice : Bool) (d : Dep)
    → d.ptr ≡ 0
    → Settled d 0 (acquire_missing rank has_slice d)
unfolding acquire_missing
missing-Settled rank true d null = elim (Bool-cases (get_rank d.guid == rank)) [
  | inl own ↦ rw own (wait-Settled d out_of_order_get null (λ more. refl) refl refl)
  | inr away ↦ rw away (wait-Settled d (remote_get (get_rank d.guid)) null (λ more. refl) refl refl)
]
missing-Settled rank false d null = elim (Bool-cases (get_rank d.guid == rank)) [
  | inl own ↦ rw own (wait-Settled d out_of_order_request null (λ more. refl) refl refl)
  | inr away ↦
      let (one, none_back) = request_lem (get_rank d.guid) (is_ew d.mode) in
      rw away (
        wait-Settled d (request (get_rank d.guid) (is_ew d.mode)) null
          (request_alone (get_rank d.guid) (is_ew d.mode)) one none_back)
]

-- What the theorems ask of the answers: a DB has memory.
abbrev pub Sound : Option Found → Type 0
Sound none = Unit
Sound (some f) = f.payload ≢ 0

pub db-Settled :
    (rank : ℕ) (l : Lookup) (o : Option Found) (d : Dep)
    → d.ptr ≡ 0
    → Sound o
    → Settled d (taken o) (acquire_db rank l o d)
unfolding acquire_db
db-Settled rank l none d null sound =
    elim (Bool-cases (not (d.slice_size == 0) && not (is_ro d.mode))) [
      | inl bad ↦ rw bad tt
      | inr good ↦ rw good (missing-Settled rank (not (d.slice_size == 0)) d null)
    ]
db-Settled rank l (some f) d null real = elim (Bool-cases (d.slice_size == 0)) [
  | inl whole ↦ rw whole (found-Settled rank f l.on_head d null real)
  | inr slice ↦ elim (Bool-cases (is_ro d.mode)) [
    | inl ro ↦ rw (slice, ro) (slice-Settled rank f l.slice_ok d null)
    | inr bad ↦ rw (slice, bad) tt
  ]
]
