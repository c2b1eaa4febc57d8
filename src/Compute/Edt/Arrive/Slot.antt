-- ===== src/Compute/Edt/Arrive/Slot.antt =====
-- One slot of an EDT, after a message for it or for another one.
use arts.Prelude.{
  ℕ, ◌<◌, ◌≡◌, ◌≢◌, arith, false, ◌==◌, ==→eq, ==→ne, ltb, lt→ltb, ltb→lt, Bool-cases, inl, inr,
  length, get_or, set, length-set, get_or-set_self, get_or-set_ne, refl, sym, ap, ◌∙◌,
}
use mathlib.Core.Path.{subst}
use arts.Compute.Edt.{
  Edt, Dep, signal, set_dep_metadata, blank, at_slot, write_signal, write_metadata,
}
use arts.Compute.Edt.Arrive.{Message, sig, meta}
use arts.Compute.Edt.Arrive.Slots.{after}

-- The EDT has as many slots as dependencies.
abbrev pub HasSlots : ℕ → Edt → Type 0
HasSlots depc e = (e.depc ≡ depc) × (length e.depv ≡ depc)

abbrev pub dep_of : Edt → ℕ → Dep
dep_of e k = get_or e.depv k blank

module _ (depc k : ℕ) (inside : k < depc) where
  at_slot-write :
      (e : Edt) (j : ℕ) (f : Dep → Dep)
      → j < e.depc
      → at_slot e j f ≡ record e { depv = set e.depv j (f (get_or e.depv j blank)) }
  unfolding at_slot
  at_slot-write e j f h = simp (lt→ltb j e.depc h)

  at_slot-skip : (e : Edt) (j : ℕ) (f : Dep → Dep) → ltb j e.depc ≡ false → at_slot e j f ≡ e
  unfolding at_slot
  at_slot-skip e j f h = simp h

  at_slot-HasSlots :
      (e : Edt) (j : ℕ) (f : Dep → Dep) → HasSlots depc e → HasSlots depc (at_slot e j f)
  at_slot-HasSlots e j f (p, q) = elim (Bool-cases (ltb j e.depc)) [
    | inl within ↦
        rw (at_slot-write e j f (ltb→lt j e.depc within))
          (p, length-set e.depv j (f (get_or e.depv j blank)) ∙ q)
    | inr beyond ↦ rw (at_slot-skip e j f beyond) (p, q)
  ]

  at_slot_self :
      (e : Edt) (f : Dep → Dep) → HasSlots depc e → dep_of (at_slot e k f) k ≡ f (dep_of e k)
  at_slot_self e f (p, q) =
      rw (at_slot-write e k f (omega (arith, inside, p)))
        (get_or-set_self e.depv k (f (get_or e.depv k blank)) blank (omega (arith, inside, q)))

  at_slot-ne : (e : Edt) (j : ℕ) (f : Dep → Dep) → j ≢ k → dep_of (at_slot e j f) k ≡ dep_of e k
  at_slot-ne e j f ne = elim (Bool-cases (ltb j e.depc)) [
    | inl within ↦
        rw (at_slot-write e j f (ltb→lt j e.depc within))
          (get_or-set_ne e.depv j k (f (get_or e.depv j blank)) blank ne)
    | inr beyond ↦ rw (at_slot-skip e j f beyond) refl
  ]

  -- A slot after a message, for its own messages and for those of others
  abbrev pub slot_of : Message → ℕ
  slot_of (sig s) = s.slot
  slot_of (meta m) = m.slot

  abbrev pub write_of : Message → Dep → Dep
  write_of (sig s) = write_signal s
  write_of (meta m) = write_metadata m

  pub after-HasSlots : (e : Edt) (m : Message) → HasSlots depc e → HasSlots depc (after e m)
  unfolding after signal set_dep_metadata
  after-HasSlots e (sig s) h = let h' = at_slot-HasSlots e s.slot (write_signal s) h in (h'.0, h'.1)
  after-HasSlots e (meta m) h = at_slot-HasSlots e m.slot (write_metadata m) h

  pub after_self :
      (e : Edt) (m : Message)
      → HasSlots depc e
      → slot_of m ≡ k
      → dep_of (after e m) k ≡ write_of m (dep_of e k)
  unfolding after signal set_dep_metadata
  after_self e (sig s) h p =
      ap (λ j. dep_of (at_slot e j (write_signal s)) k) p ∙ at_slot_self e (write_signal s) h
  after_self e (meta m) h p =
      ap (λ j. dep_of (at_slot e j (write_metadata m)) k) p ∙ at_slot_self e (write_metadata m) h

  after-ne : (e : Edt) (m : Message) → slot_of m ≢ k → dep_of (after e m) k ≡ dep_of e k
  unfolding after signal set_dep_metadata
  after-ne e (sig s) ne = at_slot-ne e s.slot (write_signal s) ne
  after-ne e (meta m) ne = at_slot-ne e m.slot (write_metadata m) ne

  -- What a message does to a fact about the slot, if it is for the slot.
  pub after-fact :
      (R : Dep → Type 0) (e : Edt) (m : Message)
      → HasSlots depc e
      → (slot_of m ≡ k → R (dep_of e k) → R (write_of m (dep_of e k)))
      → R (dep_of e k)
      → R (dep_of (after e m) k)
  after-fact R e m h keep r = elim (Bool-cases (slot_of m == k)) [
    | inl own ↦ let p = ==→eq (slot_of m) k own in subst R (sym (after_self e m h p)) (keep p r)
    | inr other ↦ subst R (sym (after-ne e m (==→ne (slot_of m) k other))) r
  ]
