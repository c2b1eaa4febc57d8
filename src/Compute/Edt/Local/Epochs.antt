-- ===== src/Compute/Edt/Local/Epochs.antt =====
-- The epoch list of edt.c as a list of GUIDs.
use arts.Prelude.{
  ℕ, zero, suc, ◌+◌, ◌≤◌, ◌<◌, ◌≡◌, arith, Bool, true, false, ◌==◌, if◌then◌else◌, Bool-cases,
  Option, none, some, inl, inr, some-injective, List, [], ◌∷◌, ◌++◌, refl, ap, ap₂, ◌∙◌,
}
use arts.Compute.Edt.Local.{
  Effect, finished_epoch, fetch, search, search_round, finish_from, finish_round,
}
use arts.Utils.ArrayList.{ArrayList, Ptr, push, get, read}
use arts.Utils.ArrayList.Refine.{IsValid, place_of, element, push_lem, get_lem}

-- `k` elements from index `i` on
abbrev pub listed : ArrayList → (i k : ℕ) → List ℕ
listed a i zero = []
listed a i (suc k) = element a i ∷ listed a (i + 1) k

abbrev pub contents : ArrayList → List ℕ
contents a = listed a 0 a.index

-- What a read leaves
pub record Same (a b : ArrayList) : Type 0 where
  pub same_length : b.array_length ≡ a.array_length
  pub same_cells : b.cells ≡ a.cells
  pub same_index : b.index ≡ a.index

element-Same : (a b : ArrayList) (i : ℕ) → Same a b → element b i ≡ element a i
element-Same a b i s = rw (s.same_length, s.same_cells) refl

listed-Same : (a b : ArrayList) (i k : ℕ) → Same a b → listed b i k ≡ listed a i k
listed-Same a b i zero s = refl
listed-Same a b i (suc k) s = ap₂ ◌∷◌ (element-Same a b i s) (listed-Same a b (i + 1) k s)

array_length-get : (a : ArrayList) (i : ℕ) → (get a i).1.array_length ≡ a.array_length
unfolding get
array_length-get a i = ground arith

pub get-Same : (a : ArrayList) (i : ℕ) → IsValid a → Same a (get a i).1
get-Same a i ok =
    let (found, missing, cells, index, valid) = get_lem a i ok in
    record { same_length = array_length-get a i; same_cells = cells; same_index = index }

trans-Same : (a b c : ArrayList) → Same a b → Same b c → Same a c
trans-Same a b c s t = record {
  same_length = t.same_length ∙ s.same_length;
  same_cells = t.same_cells ∙ s.same_cells;
  same_index = t.same_index ∙ s.same_index;
}

fetch-found :
    (r : Option Ptr × ArrayList) (p : Ptr) → r.0 ≡ some p → fetch r ≡ (some (read r.1.cells p), r.1)
unfolding fetch
fetch-found (none, a) p e = cc
fetch-found (some q, a) p e = ap (λ q. (some (read a.cells q), a)) (some-injective _ _ e)

pub fetch-get :
    (a : ArrayList) (i : ℕ)
    → IsValid a
    → i < a.index
    → fetch (get a i) ≡ (some (element a i), (get a i).1)
fetch-get a i ok inside =
    let (found, missing, cells, index, valid) = get_lem a i ok in
    fetch-found (get a i) (place_of a i) (found inside)
    ∙ ap (λ c. (some (read c (place_of a i)), (get a i).1)) cells

pub get-IsValid : (a : ArrayList) (i : ℕ) → IsValid a → IsValid (get a i).1
get-IsValid a i ok = let (found, missing, cells, index, valid) = get_lem a i ok in valid

-- The calls that leave the file when the epochs of a list are finished
abbrev pub finishes : List ℕ → List Effect
finishes [] = []
finishes (g ∷ gs) = if g == 0 then finishes gs else finished_epoch g ∷ finishes gs

pub finish_from_lem :
    (k : ℕ) (a : ArrayList) (i : ℕ)
    → IsValid a
    → i + k ≤ a.index
    → ((finish_from k a i).0 ≡ some (finishes (listed a i k))) × IsValid (finish_from k a i).1
unfolding finish_from finish_round
finish_from_lem zero a i ok le = (refl, ok)
finish_from_lem (suc k) a i ok le =
    let same = get-Same a i ok in
    let (out, valid) =
      finish_from_lem k (get a i).1 (i + 1) (get-IsValid a i ok)
        (omega (arith, le, same.same_index)) in
    let rest = out ∙ ap (λ l. some (finishes l)) (listed-Same a (get a i).1 (i + 1) k same) in
    (ap₂ finish_round (ap (λ r. r.0) (fetch-get a i ok (omega (arith, le)))) rest, valid)

-- Whether a GUID is in a list
abbrev pub member : ℕ → List ℕ → Bool
member c [] = false
member c (g ∷ gs) = if g == c then true else member c gs

pub search_lem :
    (k : ℕ) (a : ArrayList) (i c : ℕ)
    → IsValid a
    → i + k ≤ a.index
    → ((search k a i c).0 ≡ some (member c (listed a i k)))
      × Same a (search k a i c).1
      × IsValid (search k a i c).1
unfolding search search_round
search_lem zero a i c ok le =
    (refl, record { same_length = refl; same_cells = refl; same_index = refl }, ok)
search_lem (suc k) a i c ok le =
    let same = get-Same a i ok in
    let (out, same', valid) =
      search_lem k (get a i).1 (i + 1) c (get-IsValid a i ok)
        (omega (arith, le, same.same_index)) in
    let rest = out ∙ ap (λ l. some (member c l)) (listed-Same a (get a i).1 (i + 1) k same) in
    let step = fetch-get a i ok (omega (arith, le)) in
    elim (Bool-cases (element a i == c)) [
      | inl found ↦ rw (step, found) (refl, same, get-IsValid a i ok)
      | inr other ↦ rw (step, other) (rest, trans-Same a (get a i).1 _ same same', valid)
    ]

listed-ext :
    (a b : ArrayList) (i k : ℕ)
    → ((j : ℕ) → j < i + k → element b j ≡ element a j)
    → listed b i k ≡ listed a i k
listed-ext a b i zero h = refl
listed-ext a b i (suc k) h =
    ap₂ ◌∷◌ (h i (omega arith)) (listed-ext a b (i + 1) k (λ j le. h j (omega (arith, le))))

plus_one : (n : ℕ) → n + 1 ≡ suc n
plus_one n = omega arith

listed-snoc :
    (a : ArrayList) (i k : ℕ) → listed a i (suc k) ≡ listed a i k ++ (element a (i + k) ∷ [])
listed-snoc a i zero = ap (λ j. element a j ∷ []) (omega arith)
listed-snoc a i (suc k) =
    ap (λ l. element a i ∷ l)
      (listed-snoc a (i + 1) k ∙ ap (λ j. listed a (i + 1) k ++ (element a j ∷ [])) (omega arith))

pub contents-push :
    (a : ArrayList) (x : ℕ)
    → IsValid a
    → (contents (push a x).1 ≡ contents a ++ (x ∷ [])) × IsValid (push a x).1
contents-push a x ok =
    let (at, more, new_one, older, valid) = push_lem a x ok in
    let b = (push a x).1 in
    (
      (ap (listed b 0) (more ∙ plus_one a.index)
          ∙ listed-snoc b 0 a.index
          ∙ ap₂ (λ l y. l ++ (y ∷ []))
              (listed-ext a b 0 a.index (λ j le. older j (omega (arith, le))))
              (ap (element b) (omega arith) ∙ new_one)),
      valid,
    )

-- The last of a list
abbrev pub last_or : ℕ → List ℕ → ℕ
last_or d [] = d
last_or d (x ∷ xs) = last_or x xs

last_or-snoc : (d : ℕ) (xs : List ℕ) (x : ℕ) → last_or d (xs ++ (x ∷ [])) ≡ x
last_or-snoc d [] x = refl
last_or-snoc d (y ∷ xs) x = last_or-snoc y xs x

pub last_or-contents :
    (a : ArrayList) (n : ℕ) → a.index ≡ suc n → last_or 0 (contents a) ≡ element a n
last_or-contents a n e =
    ap (λ k. last_or 0 (listed a 0 k)) e
    ∙ ap (last_or 0) (listed-snoc a 0 n)
    ∙ last_or-snoc 0 (listed a 0 n) (element a (0 + n))
    ∙ ap (element a) (omega arith)

pub contents-Same : (a b : ArrayList) → Same a b → contents b ≡ contents a
contents-Same a b s = ap (listed b 0) s.same_index ∙ listed-Same a b 0 a.index s
