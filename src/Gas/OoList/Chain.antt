-- ===== src/Gas/OoList/Chain.antt =====
-- The chain of elements of out_of_order_list.c as the list of the items in it.
use arts.Prelude.{
  ℕ, suc, ◌/◌, ◌%◌, ◌<◌, ◌≡◌, arith, false, ◌==◌, ne→==, lt→ltb, Option, none, some, List, [], ◌∷◌,
  ◌++◌, length, All, refl, ap, ◌∙◌,
}
use arts.Gas.OoList.{
  Element, slots, put_slot, put, in_head, as_last, onto, with_slot₀, with_slot₁, with_slot₂,
  with_slot₃, fill_empty, fire_slot, fire_element, fire_elements, called, last_element,
  then_elements, followed_by, clear, clear_slot,
}

-- `e` and the elements behind it hold the items `xs`: all elements but the last are full, and the
-- last one holds an item at least if it is not the first.
abbrev pub Holds : Element → List Element → List ℕ → Type 0
Holds e [] [] = e ≡ slots 0 0 0 0
Holds e [] (a ∷ []) = e ≡ slots a 0 0 0
Holds e [] (a ∷ b ∷ []) = e ≡ slots a b 0 0
Holds e [] (a ∷ b ∷ c ∷ []) = e ≡ slots a b c 0
Holds e [] (a ∷ b ∷ c ∷ d ∷ []) = e ≡ slots a b c d
Holds e (f ∷ fs) (a ∷ b ∷ c ∷ d ∷ x ∷ xs) = (e ≡ slots a b c d) × Holds f fs (x ∷ xs)
Holds e es xs = ⊥

-- The result of a write that succeeds
abbrev pub Stored : Option (Element × List Element) → List ℕ → Type 0
Stored none xs = ⊥
Stored (some (e, es)) xs = Holds e es xs

Stored-onto :
    (e : Element) (o : Option (Element × List Element)) (a b c d y : ℕ) (ys : List ℕ)
    → e ≡ slots a b c d
    → Stored o (y ∷ ys)
    → Stored (onto e o) (a ∷ b ∷ c ∷ d ∷ y ∷ ys)
unfolding onto
Stored-onto e none a b c d y ys p h = elim h [ ]
Stored-onto e (some (f, fs)) a b c d y ys p h = (p, h)

pub put_lem :
    (e : Element) (es : List Element) (xs : List ℕ) (x : ℕ)
    → Holds e es xs
    → Stored (put (length xs / 4) (length xs % 4) x e es) (xs ++ (x ∷ []))
unfolding put in_head put_slot as_last onto with_slot₀ with_slot₁ with_slot₂ with_slot₃ fill_empty
put_lem e [] [] x h = rw h refl
put_lem e [] (a ∷ []) x h = rw h refl
put_lem e [] (a ∷ b ∷ []) x h = rw h refl
put_lem e [] (a ∷ b ∷ c ∷ []) x h = rw h refl
put_lem e [] (a ∷ b ∷ c ∷ d ∷ []) x h = (h, refl)
put_lem e (f ∷ fs) (a ∷ b ∷ c ∷ d ∷ y ∷ ys) x (p, h) =
    let zs = y ∷ ys in
    let q : length (a ∷ b ∷ c ∷ d ∷ zs) / 4 ≡ suc (length zs / 4) = omega arith in
    let r : length (a ∷ b ∷ c ∷ d ∷ zs) % 4 ≡ length zs % 4 = omega arith in
    rw (q, r)
      (Stored-onto e (put (length zs / 4) (length zs % 4) x f fs) a b c d y (ys ++ (x ∷ [])) p
        (put_lem f fs zs x h))
put_lem e [] (a ∷ b ∷ c ∷ d ∷ y ∷ ys) x h = elim h [ ]
put_lem e (f ∷ fs) [] x h = elim h [ ]
put_lem e (f ∷ fs) (a ∷ []) x h = elim h [ ]
put_lem e (f ∷ fs) (a ∷ b ∷ []) x h = elim h [ ]
put_lem e (f ∷ fs) (a ∷ b ∷ c ∷ []) x h = elim h [ ]
put_lem e (f ∷ fs) (a ∷ b ∷ c ∷ d ∷ []) x h = elim h [ ]

-- No item is NULL.
abbrev pub AllReal : List ℕ → Type 0
AllReal xs = All (λ x. 0 < x) xs

real : (x : ℕ) → 0 < x → (x == 0) ≡ false
real x pos = ne→== x 0 (λ e. omega (arith, pos, e))

fire_full :
    (n a b c d : ℕ)
    → 0 < a
    → 0 < b
    → 0 < c
    → 0 < d
    → fire_element (suc (suc (suc (suc n)))) (slots a b c d) ≡ some (a ∷ b ∷ c ∷ d ∷ [], n)
unfolding fire_element fire_slot called
fire_full n a b c d p q r t = simp (real a p, real b q, real c r, real d t)

then_more :
    (xs : List ℕ) (n : ℕ) (more : ℕ → Option (List ℕ))
    → 0 < n
    → then_elements (some (xs, n)) more ≡ followed_by xs (more n)
unfolding then_elements
then_more xs n more pos = simp (real n pos)

cleared : (n i x : ℕ) → i < n → clear_slot n i x ≡ 0
unfolding clear_slot
cleared n i x lt = simp (lt→ltb i n lt)

pub fire_elements_lem :
    (e : Element) (es : List Element) (xs : List ℕ)
    → Holds e es xs
    → AllReal xs
    → fire_elements (length xs) e es ≡ some xs
unfolding fire_elements fire_element fire_slot called last_element then_elements followed_by
fire_elements_lem e [] [] h ok = rw h refl
fire_elements_lem e [] (a ∷ []) h (p, ok) = rw h (simp (real a p))
fire_elements_lem e [] (a ∷ b ∷ []) h (p, (q, ok)) = rw h (simp (real a p, real b q))
fire_elements_lem e [] (a ∷ b ∷ c ∷ []) h (p, (q, (r, ok))) =
    rw h (simp (real a p, real b q, real c r))
fire_elements_lem e [] (a ∷ b ∷ c ∷ d ∷ []) h (p, (q, (r, (t, ok)))) =
    rw h (simp (real a p, real b q, real c r, real d t))
fire_elements_lem e (f ∷ fs) (a ∷ b ∷ c ∷ d ∷ y ∷ ys) (g, h) (p, (q, (r, (t, ok)))) =
    let rest = fire_elements_lem f fs (y ∷ ys) h ok in
    let n = length (y ∷ ys) in
    ap
      (λ e.
        then_elements (fire_element (suc (suc (suc (suc n)))) e) (λ left. fire_elements left f fs))
      g
    ∙ ap (λ r. then_elements r (λ left. fire_elements left f fs)) (fire_full n a b c d p q r t)
    ∙ then_more (a ∷ b ∷ c ∷ d ∷ []) n (λ left. fire_elements left f fs) (omega arith)
    ∙ ap (followed_by (a ∷ b ∷ c ∷ d ∷ [])) rest
fire_elements_lem e [] (a ∷ b ∷ c ∷ d ∷ y ∷ ys) h ok = elim h [ ]
fire_elements_lem e (f ∷ fs) [] h ok = elim h [ ]
fire_elements_lem e (f ∷ fs) (a ∷ []) h ok = elim h [ ]
fire_elements_lem e (f ∷ fs) (a ∷ b ∷ []) h ok = elim h [ ]
fire_elements_lem e (f ∷ fs) (a ∷ b ∷ c ∷ []) h ok = elim h [ ]
fire_elements_lem e (f ∷ fs) (a ∷ b ∷ c ∷ d ∷ []) h ok = elim h [ ]

-- Nothing is left in the head element.
pub clear_lem :
    (e : Element) (es : List Element) (xs : List ℕ)
    → Holds e es xs
    → clear (length xs) e ≡ slots 0 0 0 0
unfolding clear clear_slot
clear_lem e [] [] h = rw h refl
clear_lem e [] (a ∷ []) h = rw h refl
clear_lem e [] (a ∷ b ∷ []) h = rw h refl
clear_lem e [] (a ∷ b ∷ c ∷ []) h = rw h refl
clear_lem e [] (a ∷ b ∷ c ∷ d ∷ []) h = rw h refl
clear_lem e (f ∷ fs) (a ∷ b ∷ c ∷ d ∷ y ∷ ys) (g, h) =
    let n = length (a ∷ b ∷ c ∷ d ∷ y ∷ ys) in
    rw
      (
        g,
        cleared n 0 a (omega arith),
        cleared n 1 b (omega arith),
        cleared n 2 c (omega arith),
        cleared n 3 d (omega arith),
      )
      refl
clear_lem e [] (a ∷ b ∷ c ∷ d ∷ y ∷ ys) h = elim h [ ]
clear_lem e (f ∷ fs) [] h = elim h [ ]
clear_lem e (f ∷ fs) (a ∷ []) h = elim h [ ]
clear_lem e (f ∷ fs) (a ∷ b ∷ []) h = elim h [ ]
clear_lem e (f ∷ fs) (a ∷ b ∷ c ∷ []) h = elim h [ ]
clear_lem e (f ∷ fs) (a ∷ b ∷ c ∷ d ∷ []) h = elim h [ ]
