-- ===== src/Compute/Edt/Arrive/Data.antt =====
-- An EDT with a reserved GUID: the data GUID and the metadata of a slot, whatever the order of the
-- messages.
use arts.Prelude.{
  ℕ, ◌+◌, ◌^◌, ◌≤◌, ◌<◌, ◌≡◌, arith, true, ◌==◌, if◌then◌else◌, Bool-cases, inl, inr, some, List,
  tally_mono, refl, sym, ap, ◌∙◌,
}
use mathlib.Core.Path.{subst}
use arts.Compute.Edt.{Edt, Dep, Metadata, write_signal, write_metadata, is_null, is_ptr}
use arts.Compute.Edt.Arrive.{Message, sig, meta, defer, Event, run, reserved}
use arts.Compute.Edt.Arrive.Once.{
  weight, issued, Shape, Shape-done, run-Counts, reserved-Counts, run_ready_once,
}
use arts.Compute.Edt.Arrive.Slots.{after, counted, AllIssued, held_back, IsSetting}
use arts.Compute.Edt.Arrive.Settle.{run-settled}
use arts.Compute.Edt.Arrive.Slot.{
  HasSlots, dep_of, after-HasSlots, after_self, after-fact, slot_of, write_of,
}

-- The signals for a slot, and the metadata for it
abbrev pub signals_to : ℕ → Message → ℕ
signals_to k (sig s) = if s.slot == k then 1 else 0
signals_to k (meta m) = 0

abbrev pub metadata_to : ℕ → Message → ℕ
metadata_to k (sig s) = 0
metadata_to k (meta m) = if m.slot == k then 1 else 0

-- Every signal for slot `k` has the data GUID `g`.
abbrev pub Brings : (k g : ℕ) → Message → Type 0
Brings k g (sig s) = s.slot ≡ k → s.data_guid ≡ g
Brings k g (meta m) = Unit

-- The signals for slot `k` have DB_MODE_NULL and no flags; the metadata for it is `note`.
abbrev pub Notes : (k : ℕ) (note : Metadata) → Message → Type 0
Notes k note (sig s) = s.slot ≡ k → (is_null s.mode ≡ true) × (s.flags ≡ 0)
Notes k note (meta m) = m.slot ≡ k → m ≡ note

abbrev pub HasNote : Metadata → Dep → Type 0
HasNote note d =
    (d.mode ≡ note.mode)
    × (d.flags ≡ note.flags)
    × (d.slice_offset ≡ note.slice_offset)
    × (d.slice_size ≡ note.slice_size)

module _ (depc k : ℕ) (inside : k < depc) where
  guid-IsSetting :
      (g : ℕ) → IsSetting (Brings k g) (signals_to k) (HasSlots depc) (λ e. (dep_of e k).guid ≡ g)
  unfolding defer write_signal write_metadata
  guid-IsSetting g = record {
    deferred = defers;
    fits = λ e m p h. after-HasSlots depc k inside e m h;
    sets = sets;
    keeps = λ e m p h q. after-fact depc k inside (λ d. d.guid ≡ g) e m h (own m p (dep_of e k)) q;
    recount = λ e c h. h;
    recount_set = λ e c q. q;
  }
    where
      defers :
          (m : Message)
          → Brings k g m
          → Brings k g (defer m) × (signals_to k (defer m) ≡ signals_to k m)
      defers (sig s) p = elim (Bool-cases (is_ptr s.mode)) [
        | inl copied ↦ rw copied (p, refl)
        | inr plain ↦ rw plain (p, refl)
      ]
      defers (meta m) p = (p, refl)

      sets :
          (e : Edt) (m : Message)
          → Brings k g m
          → HasSlots depc e
          → 1 ≤ signals_to k m
          → (dep_of (after e m) k).guid ≡ g
      sets e (sig s) p h hit =
          let q : s.slot ≡ k = ground (arith, hit) in
          ap (λ d. d.guid) (after_self depc k inside e (sig s) h q) ∙ p q
      sets e (meta m) p h hit = absurd (omega (arith, hit))

      own :
          (m : Message)
          → Brings k g m
          → (d : Dep) → slot_of depc k inside m ≡ k
          → d.guid ≡ g
          → (write_of depc k inside m d).guid ≡ g
      own (sig s) p d q r = p q
      own (meta m) p d q r = r

  note-IsSetting :
      (note : Metadata)
      → IsSetting (Notes k note) (metadata_to k) (HasSlots depc) (λ e. HasNote note (dep_of e k))
  unfolding defer write_signal write_metadata
  note-IsSetting note = record {
    deferred = defers;
    fits = λ e m p h. after-HasSlots depc k inside e m h;
    sets = sets;
    keeps = λ e m p h q. after-fact depc k inside (HasNote note) e m h (own m p (dep_of e k)) q;
    recount = λ e c h. h;
    recount_set = λ e c q. q;
  }
    where
      defers :
          (m : Message)
          → Notes k note m
          → Notes k note (defer m) × (metadata_to k (defer m) ≡ metadata_to k m)
      defers (sig s) p = elim (Bool-cases (is_ptr s.mode)) [
        | inl copied ↦ rw copied ((λ q. ((p q).0, refl)), refl)
        | inr plain ↦ rw plain (p, refl)
      ]
      defers (meta m) p = (p, refl)

      sets :
          (e : Edt) (m : Message)
          → Notes k note m
          → HasSlots depc e
          → 1 ≤ metadata_to k m
          → HasNote note (dep_of (after e m) k)
      sets e (sig s) p h hit = absurd (omega (arith, hit))
      sets e (meta m) p h hit =
          let q : m.slot ≡ k = ground (arith, hit) in
          let e' = after_self depc k inside e (meta m) h q in
          let f = p q in
          subst (HasNote note) (sym e') (
            ap (λ n. n.mode) f,
            ap (λ n. n.flags) f,
            ap (λ n. n.slice_offset) f,
            ap (λ n. n.slice_size) f,
          )

      own :
          (m : Message)
          → Notes k note m
          → (d : Dep) → slot_of depc k inside m ≡ k
          → HasNote note d
          → HasNote note (write_of depc k inside m d)
      own (sig s) p d q r = let (null, plain) = p q in rw (null, plain) r
      own (meta m) p d q r =
          let f = p q in
          (
            ap (λ n. n.mode) f,
            ap (λ n. n.flags) f,
            ap (λ n. n.slice_offset) f,
            ap (λ n. n.slice_size) f,
          )

signals_to-weight : (k : ℕ) (m : Message) → signals_to k m ≤ weight m
signals_to-weight k (sig s) = ground arith
signals_to-weight k (meta m) = omega arith

-- An EDT with a reserved GUID and `depc` slots, over any interleaving of its creation with at most
-- `depc` signals, at least one of them for slot `k`, and all signals for slot `k` with the data GUID
-- `g`: when it has become ready, the slot has that data GUID.
pub run_ready_data :
    (e : Edt) (depc k : ℕ) (xs : List Event) (g : ℕ)
    → depc + 1 < 2 ^ 32
    → HasSlots depc e
    → k < depc
    → issued xs ≤ depc
    → AllIssued (Brings k g) xs
    → 1 ≤ counted (signals_to k) xs
    → (run e depc reserved xs).ready ≡ 1
    → (x : Edt) × ((run e depc reserved xs).entry ≡ some x) × ((dep_of x k).guid ≡ g)
run_ready_data e depc k xs g small slots inside le ps some_of is_ready =
    let n = run e depc reserved xs in
    let (finished, all, none_waiting) = (run_ready_once e depc xs small le).1 is_ready in
    let c =
      run-Counts depc small e 0 reserved xs (omega (arith, le)) (reserved-Counts depc small) in
    let ((x, there), none_taken) =
      Shape-done n.entry n.taken (subst (λ st. Shape st n.entry n.taken) finished c.shape) in
    let few = λ (l : List Message). tally_mono (signals_to k) weight l (signals_to-weight k) in
    (
      x,
      there,
      run-settled (guid-IsSetting depc k inside g) e depc small xs x slots le ps there
          (omega (arith, few n.missed, few n.queue, few n.taken, none_waiting, some_of)),
    )

-- An EDT with a reserved GUID and `depc` slots, over any interleaving of its creation with at most
-- `depc` signals, those for slot `k` with DB_MODE_NULL and no flags, and with metadata that is `note`
-- wherever it is for slot `k`: before the EDT is ready or after, once the metadata has reached the EDT, the slot has its
-- mode, flags and slice, and keeps them whatever signals come.
pub run_keeps_metadata :
    (e : Edt) (depc k : ℕ) (xs : List Event) (note : Metadata) (x : Edt)
    → depc + 1 < 2 ^ 32
    → HasSlots depc e
    → k < depc
    → issued xs ≤ depc
    → AllIssued (Notes k note) xs
    → held_back (metadata_to k) (run e depc reserved xs) < counted (metadata_to k) xs
    → (run e depc reserved xs).entry ≡ some x
    → HasNote note (dep_of x k)
run_keeps_metadata e depc k xs note x small slots inside le ps reached there =
    run-settled (note-IsSetting depc k inside note) e depc small xs x slots le ps there reached
