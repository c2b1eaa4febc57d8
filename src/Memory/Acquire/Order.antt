-- ===== src/Memory/Acquire/Order.antt =====
-- The order in which `acquire_dbs` of db.c acquires the slots: by their GUIDs, each slot once.
use arts.Prelude.{
  ℕ, zero, suc, ◌+◌, ◌-◌, ◌≤◌, ◌<◌, ◌≡◌, ◌≢◌, arith, true, false, ltb, ltb→lt, ltb→le, leb, ◌&&◌,
  ◌==◌, ==→eq, ==→ne, if◌then◌else◌, Bool-cases, inl, inr, ◌⊎◌, List, [], ◌∷◌, get_or, set, length,
  length-set, get_or-set_self, get_or-set_ne, tally, All, refl, ap, ◌∙◌,
}
use arts.Compute.Edt.{Dep, blank}
use arts.Memory.Acquire.{guid_at, shift, insertion, slots_from, sort_slots}

module _ (depv : List Dep) where
  abbrev pub guid_of : ℕ → ℕ
  guid_of i = (get_or depv i blank).guid

  length-shift : (v n : ℕ) (a : List ℕ) → length (shift depv v n a) ≡ length a
  unfolding shift
  length-shift v zero a = length-set a 0 v
  length-shift v (suc j) a =
      let moved =
        length-shift v j (set a (suc j) (get_or a j 0)) ∙ length-set a (suc j) (get_or a j 0) in
      let stays = length-set a (suc j) v in ground (arith, moved, stays)

  tally-set :
      (w : ℕ → ℕ) (a : List ℕ) (i v : ℕ)
      → i < length a
      → tally w (set a i v) + w (get_or a i 0) ≡ tally w a + w v
  tally-set w [] i v lt = absurd (omega (arith, lt))
  tally-set w (x ∷ a) zero v lt = omega arith
  tally-set w (x ∷ a) (suc i) v lt = omega (arith, tally-set w a i v (omega (arith, lt)))

  -- The shift puts `v` where the element at place `n` was.
  tally-shift :
      (w : ℕ → ℕ) (v n : ℕ) (a : List ℕ)
      → n < length a
      → tally w (shift depv v n a) + w (get_or a n 0) ≡ tally w a + w v
  unfolding shift
  tally-shift w v zero a lt = tally-set w a 0 v lt
  tally-shift w v (suc j) a lt =
      let x = get_or a j 0 in
      let b = set a (suc j) x in
      let moved = tally-shift w v j b (omega (arith, lt, length-set a (suc j) x)) in
      let same = ap w (get_or-set_ne a (suc j) j x 0 (λ e. omega (arith, e))) in
      let put = tally-set w a (suc j) x lt in
      let stays = tally-set w a (suc j) v lt in
      elim (Bool-cases (ltb (guid_of v) (guid_at depv a j))) [
        | inl larger ↦ rw larger (omega (arith, moved, same, put))
        | inr smaller ↦ rw smaller stays
      ]

  shift-moves :
      (v j : ℕ) (a : List ℕ)
      → ltb (guid_of v) (guid_at depv a j) ≡ true
      → shift depv v (suc j) a ≡ shift depv v j (set a (suc j) (get_or a j 0))
  unfolding shift
  shift-moves v j a e = simp e

  shift-stays :
      (v j : ℕ) (a : List ℕ)
      → ltb (guid_of v) (guid_at depv a j) ≡ false
      → shift depv v (suc j) a ≡ set a (suc j) v
  unfolding shift
  shift-stays v j a e = simp e

  -- Places above `n` keep their element.
  shift-above :
      (v n : ℕ) (a : List ℕ) (k : ℕ) → n < k → get_or (shift depv v n a) k 0 ≡ get_or a k 0
  unfolding shift
  shift-above v zero a k lt = get_or-set_ne a 0 k v 0 (λ e. omega (arith, lt, e))
  shift-above v (suc j) a k lt = elim (Bool-cases (ltb (guid_of v) (guid_at depv a j))) [
    | inl larger ↦ rw larger (
        shift-above v j (set a (suc j) (get_or a j 0)) k (omega (arith, lt))
        ∙ get_or-set_ne a (suc j) k (get_or a j 0) 0 (λ e. omega (arith, lt, e)))
    | inr smaller ↦ rw smaller (get_or-set_ne a (suc j) k v 0 (λ e. omega (arith, lt, e)))
  ]

  guid-set_self : (a : List ℕ) (i x : ℕ) → i < length a → guid_at depv (set a i x) i ≡ guid_of x
  unfolding guid_at
  guid-set_self a i x lt = ap guid_of (get_or-set_self a i x 0 lt)

  guid-set_ne : (a : List ℕ) (i k x : ℕ) → i ≢ k → guid_at depv (set a i x) k ≡ guid_at depv a k
  unfolding guid_at
  guid-set_ne a i k x ne = ap guid_of (get_or-set_ne a i k x 0 ne)

  guid-shift_above :
      (v n : ℕ) (a : List ℕ) (k : ℕ) → n < k → guid_at depv (shift depv v n a) k ≡ guid_at depv a k
  unfolding guid_at
  guid-shift_above v n a k lt = ap guid_of (shift-above v n a k lt)

  -- The GUIDs at the places below `n` are at most `b`.
  abbrev AllBelow : (a : List ℕ) (n b : ℕ) → Type 0
  AllBelow a n b = (k : ℕ) → k < n → guid_at depv a k ≤ b

  zero_shift : (v : ℕ) (a : List ℕ) → guid_at depv (shift depv v 0 a) 0 ≡ guid_at depv (set a 0 v) 0
  unfolding shift
  zero_shift v a = refl

  top_guid : (a : List ℕ) (j : ℕ) → guid_of (get_or a j 0) ≡ guid_at depv a j
  unfolding guid_at
  top_guid a j = refl

  -- A place is below the last one, or is the last one.
  last_or_below : (k n : ℕ) → k < suc n → (k ≡ n) ⊎ (k < n)
  last_or_below k n lt = elim (Bool-cases (k == n)) [
    | inl last ↦ inl (==→eq k n last)
    | inr other ↦ let ne = ==→ne k n other in inr (omega (arith, lt, ne))
  ]

  shift-bounded :
      (v n : ℕ) (a : List ℕ) (b : ℕ)
      → n < length a
      → guid_of v ≤ b
      → AllBelow a n b
      → AllBelow (shift depv v n a) (suc n) b
  shift-bounded v zero a b lt le below k lt' =
      let e : k ≡ 0 = omega (arith, lt') in
      let here = guid-set_self a 0 v lt in rw e (omega (arith, zero_shift v a, here, le))
  shift-bounded v (suc j) a b lt le below k lt' =
      let x = get_or a j 0 in
      let a' = set a (suc j) x in
      let below' : AllBelow a' j b = λ k lt.
        let same = guid-set_ne a (suc j) k x (λ e. omega (arith, lt, e)) in
        omega (arith, same, below k (omega (arith, lt))) in
      let fits : j < length a' = omega (arith, lt, length-set a (suc j) x) in
      elim (Bool-cases (ltb (guid_of v) (guid_at depv a j))) [
        | inl larger ↦ rw (shift-moves v j a larger) (elim (last_or_below k (suc j) lt') [
          | inl last ↦
              let e₁ = guid-shift_above v j a' (suc j) (omega arith) in
              let e₂ = guid-set_self a (suc j) x lt in
              let top = below j (omega arith) in rw last (omega (arith, e₁, e₂, top_guid a j, top))
          | inr inside ↦ shift-bounded v j a' b fits le below' k inside
        ])
        | inr smaller ↦ rw (shift-stays v j a smaller) (elim (last_or_below k (suc j) lt') [
          | inl last ↦ rw last (omega (arith, guid-set_self a (suc j) v lt, le))
          | inr inside ↦
              let same = guid-set_ne a (suc j) k v (λ e. omega (arith, e, inside)) in
              omega (arith, same, below k inside)
        ])
      ]

  -- The GUIDs at the places below `n` ascend.
  abbrev pub Ascends : (a : List ℕ) (n : ℕ) → Type 0
  Ascends a n = (i j : ℕ) → i < j → j < n → guid_at depv a i ≤ guid_at depv a j

  up_to :
      (a : List ℕ) (j : ℕ)
      → Ascends a (suc j)
      → (i : ℕ) → i < suc j
      → guid_at depv a i ≤ guid_at depv a j
  up_to a j up i lt = elim (last_or_below i j lt) [
    | inl last ↦ let e = ap (guid_at depv a) last in omega (arith, e)
    | inr inside ↦ up i j inside (omega arith)
  ]

  shift-Ascends :
      (v n : ℕ) (a : List ℕ) → n < length a → Ascends a n → Ascends (shift depv v n a) (suc n)
  shift-Ascends v zero a lt up i k lt' lt'' = absurd (omega (arith, lt', lt''))
  shift-Ascends v (suc j) a lt up i k lt' lt'' =
      let x = get_or a j 0 in
      let a' = set a (suc j) x in
      let fits : j < length a' = omega (arith, lt, length-set a (suc j) x) in
      let same : (k : ℕ) → k < suc j → guid_at depv a' k ≡ guid_at depv a k =
        λ k lt. guid-set_ne a (suc j) k x (λ e. omega (arith, lt, e)) in
      elim (Bool-cases (ltb (guid_of v) (guid_at depv a j))) [
        | inl larger ↦ rw (shift-moves v j a larger) (elim (last_or_below k (suc j) lt'') [
          | inl last ↦
              let e₁ = guid-shift_above v j a' (suc j) (omega arith) in
              let e₂ = guid-set_self a (suc j) x lt in
              let b = guid_at depv a j in
              let smaller = ltb→lt (guid_of v) b larger in
              let below : AllBelow a' j b =
                λ k lt. omega (arith, same k (omega (arith, lt)), up k j lt (omega arith)) in
              let bound =
                shift-bounded v j a' b fits (omega (arith, smaller)) below i
                  (omega (arith, lt', last)) in
              rw last (omega (arith, e₁, e₂, top_guid a j, bound))
          | inr inside ↦
              shift-Ascends v j a' fits
                (λ i k lt lt'. omega (
                  arith,
                  same i (omega (arith, lt, lt')),
                  same k (omega (arith, lt')),
                  up i k lt (omega (arith, lt')),
                ))
                i k lt' inside
        ])
        | inr smaller ↦
            let le = ltb→le (guid_of v) (guid_at depv a j) smaller in
            let other : (k : ℕ) → k < suc j → guid_at depv (set a (suc j) v) k ≡ guid_at depv a k =
              λ k lt. guid-set_ne a (suc j) k v (λ e. omega (arith, lt, e)) in
            rw (shift-stays v j a smaller) (elim (last_or_below k (suc j) lt'') [
              | inl last ↦
                  let under = up_to a j up i (omega (arith, lt', last)) in
                  rw last (
                    omega (
                      arith,
                      guid-set_self a (suc j) v lt,
                      other i (omega (arith, lt', last)),
                      under,
                      le,
                    ))
              | inr inside ↦
                  omega
                    (arith, other i (omega (arith, lt', inside)), other k inside, up i k lt' inside)
            ])
      ]

  insertion_lem :
      (r k n : ℕ) (a : List ℕ)
      → length a ≡ n
      → k + r ≤ n
      → Ascends a k
      → Ascends (insertion depv r k a) (k + r)
        × (length (insertion depv r k a) ≡ n)
        × ((w : ℕ → ℕ) → tally w (insertion depv r k a) ≡ tally w a)
  unfolding insertion
  insertion_lem zero k n a e le up =
      ((λ i j lt lt'. up i j lt (omega (arith, lt'))), e, (λ w. refl))
  insertion_lem (suc r) k n a e le up =
      let v = get_or a k 0 in
      let lt : k < length a = omega (arith, e, le) in
      let (up', e', same) =
        insertion_lem r (k + 1) n (shift depv v k a) (length-shift v k a ∙ e) (omega (arith, le))
          (λ i j lt₁ lt₂. shift-Ascends v k a lt up i j lt₁ (omega (arith, lt₂))) in
      (
        (λ i j lt₁ lt₂. up' i j lt₁ (omega (arith, lt₂))),
        e',
        (λ w. let t = tally-shift w v k a lt in let s = same w in omega (arith, t, s)),
      )

length-slots_from : (n k : ℕ) → length (slots_from n k) ≡ n
unfolding slots_from
length-slots_from zero k = refl
length-slots_from (suc n) k = ap suc (length-slots_from n (k + 1))

-- How often a slot occurs
abbrev pub slot_hit : ℕ → ℕ → ℕ
slot_hit i j = if j == i then 1 else 0

tally-slots_from :
    (n k i : ℕ) → tally (slot_hit i) (slots_from n k) ≡ (if leb k i && ltb i (k + n) then 1 else 0)
unfolding slots_from
tally-slots_from zero k i = ground arith
tally-slots_from (suc n) k i = ground (arith, tally-slots_from n (k + 1) i)

-- The order in which the slots of an EDT are acquired: each slot stands in it once, and the GUIDs of
-- the slots ascend, so that two EDTs ask for DBs that both want in the same order.
pub sort_slots_lem :
    (depv : List Dep) (depc : ℕ)
    → ((i j : ℕ)
        → i < j
        → j < depc
        → guid_at depv (sort_slots depv depc) i ≤ guid_at depv (sort_slots depv depc) j)
      × (length (sort_slots depv depc) ≡ depc)
      × ((i : ℕ) → i < depc → tally (slot_hit i) (sort_slots depv depc) ≡ 1)
unfolding sort_slots insertion slots_from
sort_slots_lem depv zero =
    ((λ i j lt lt'. absurd (omega (arith, lt'))), refl, (λ i lt. absurd (omega (arith, lt))))
sort_slots_lem depv (suc n) =
    let (up, e, same) =
      insertion_lem depv (suc n - 1) 1 (suc n) (slots_from (suc n) 0) (length-slots_from (suc n) 0)
        (omega arith) (λ i j lt lt'. absurd (omega (arith, lt, lt'))) in
    (
      (λ i j lt lt'. up i j lt (omega (arith, lt'))),
      e,
      (λ i lt. ground (arith, same (slot_hit i), tally-slots_from (suc n) 0 i, lt)),
    )

-- Slots that are not below `n`
abbrev outside : ℕ → ℕ → ℕ
outside n i = if ltb i n then 0 else 1

none_outside : (n : ℕ) (l : List ℕ) → tally (outside n) l ≡ 0 → All (λ i. i < n) l
none_outside n [] h = tt
none_outside n (i ∷ l) h = (ltb→lt i n (ground (arith, h)), none_outside n l (ground (arith, h)))

outside-slots_from : (n k m : ℕ) → k + n ≤ m → tally (outside m) (slots_from n k) ≡ 0
unfolding slots_from
outside-slots_from zero k m le = refl
outside-slots_from (suc n) k m le =
    ground (arith, outside-slots_from n (k + 1) m (omega (arith, le)), le)

pub sort_slots-inside : (depv : List Dep) (depc : ℕ) → All (λ i. i < depc) (sort_slots depv depc)
unfolding sort_slots insertion slots_from
sort_slots-inside depv zero = tt
sort_slots-inside depv (suc n) =
    let (up, e, same) =
      insertion_lem depv (suc n - 1) 1 (suc n) (slots_from (suc n) 0) (length-slots_from (suc n) 0)
        (omega arith) (λ i j lt lt'. absurd (omega (arith, lt, lt'))) in
    let none_out = outside-slots_from (suc n) 0 (suc n) (omega arith) in
    none_outside (suc n) (insertion depv (suc n - 1) 1 (slots_from (suc n) 0))
      (omega (arith, same (outside (suc n)), none_out))
