-- ===== src/Gas/Guid/Alloc.antt =====
-- The key allocator `arts_guid_create_for_rank_internal` after the parallel start: every thread
-- hands out keys of its own stripe of `keys_per_thread` keys, counting up.
use arts.Prelude.{
  ℕ, ◌+◌, ◌*◌, ◌^◌, ◌<◌, ◌≤◌, ◌≡◌, ◌≢◌, refl, arith, Option, none, some, List, [], ◌∷◌,
}
use mathlib.Core.Path.{subst}
use native.Mathlib.Decide.{ℕ_discrete, dec_lt}
use arts.Gas.Guid.{
  Generator, guid_make, last_type, key_index, update₂, create_for_rank_internal, from_index,
}
use arts.Gas.Guid.Layout.{get-from_index}

-- A generator after the parallel start, with `n` threads whose stripes fit 40 bits side by side.
pub record IsReady (n : ℕ) (s : Generator) : Type 0 where
  pub started : s.global_guid_on ≡ 0
  pub fits :
      (t : ℕ) → t < n → s.keys_per_thread * s.global_guid_thread_id t + s.keys_per_thread ≤ 2 ^ 40
  pub apart :
      (t u : ℕ) → t < n → u < n → s.global_guid_thread_id t ≡ s.global_guid_thread_id u → t ≡ u
  pub small : (t i : ℕ) → s.keys t i < 2 ^ 63

pub record Request : Type 0 where
  pub thread : ℕ
  pub route : ℕ
  pub type : ℕ
  pub count : ℕ

pub record IsRequest (n : ℕ) (r : Request) : Type 0 where
  pub thread_in : r.thread < n
  pub route_in : r.route < 2 ^ 16
  pub type_in : r.type < last_type
  pub count_in : r.count < 2 ^ 32

abbrev pub slot : Request → ℕ
slot r = key_index r.route r.type

abbrev pub create : Generator → Request → Option (ℕ × Generator)
create s r = create_for_rank_internal s r.thread r.route r.type r.count

-- The generator after the request has been granted.
abbrev pub granted : Generator → Request → Generator
granted s r = record s {
  keys = update₂ s.keys r.thread (slot r) (s.keys r.thread (slot r) + r.count);
}

abbrev first_key : Generator → Request → ℕ
first_key s r = s.keys_per_thread * s.global_guid_thread_id r.thread + s.keys r.thread (slot r)

pub record Granted (s : Generator) (r : Request) (g : ℕ) (s' : Generator) : Type 0 where
  pub room : s.keys r.thread (slot r) + r.count < s.keys_per_thread
  pub guid : g ≡ guid_make r.type r.route (first_key s r)
  pub after : s' ≡ granted s r

pub create-Granted :
    (n : ℕ) (s s' : Generator) (r : Request) (g : ℕ)
    → IsReady n s
    → IsRequest n r
    → create s r ≡ some (g, s')
    → Granted s r g s'
unfolding create_for_rank_internal
create-Granted n s s' r g ok req h =
    ground (arith, ok.started, ok.small r.thread (slot r), ok.fits r.thread)

-- The range of `r.count` GUIDs from `g` has been handed out to request `r` before state `s`.
pub record Reserved (n : ℕ) (s : Generator) (r : Request) (g : ℕ) : Type 0 where
  pub request : IsRequest n r
  pub value : ℕ
  pub guid :
      g ≡ guid_make r.type r.route (s.keys_per_thread * s.global_guid_thread_id r.thread + value)
  pub used : value + r.count ≤ s.keys r.thread (slot r)
  pub room : value + r.count < s.keys_per_thread

-- No GUID of the one range is a GUID of the other.
abbrev pub Disjoint : (r : Request) (g : ℕ) (q : Request) (h : ℕ) → Type 0
Disjoint r g q h = (i j : ℕ) → i < r.count → j < q.count → from_index g i ≢ from_index h j

granted-IsReady :
    (n : ℕ) (s : Generator) (r : Request)
    → IsReady n s
    → s.keys r.thread (slot r) + r.count < s.keys_per_thread
    → r.thread < n
    → IsReady n (granted s r)
granted-IsReady n s r ok room lt = record {
  started = ok.started;
  fits = ok.fits;
  apart = ok.apart;
  small = λ t i. ground (arith, ok.small t i, ok.fits r.thread);
}

granted-Reserved :
    (n : ℕ) (s : Generator) (r q : Request) (g : ℕ)
    → Reserved n s q g
    → Reserved n (granted s r) q g
granted-Reserved n s r q g old = record {
  request = old.request;
  value = old.value;
  guid = old.guid;
  used = ground (arith, old.used);
  room = old.room;
}

-- Keys of different stripes differ.
stripes_apart : (k a b v w : ℕ) → a ≢ b → v < k → w < k → k * a + v ≢ k * b + w
stripes_apart k a b v w ne hv hw e = elim (dec_lt a b) [
  | yes p ↦ absurd (grind (arith, p, e))
  | no p ↦ absurd (grind (arith, p, e, ne))
]

guid_make-ne :
    (type rank key type' rank' key' : ℕ)
    → type < last_type
    → rank < 2 ^ 16
    → key < 2 ^ 40
    → type' < last_type
    → rank' < 2 ^ 16
    → key' < 2 ^ 40
    → guid_make type rank key ≡ guid_make type' rank' key'
    → (type ≡ type') × (rank ≡ rank') × (key ≡ key')
unfolding guid_make
guid_make-ne type rank key type' rank' key' h1 h2 h3 h4 h5 h6 e = omega arith

-- A range that is granted in `s` shares no GUID with a range handed out before.
granted-fresh :
    (n : ℕ) (s : Generator) (r q : Request) (h : ℕ)
    → IsReady n s
    → IsRequest n r
    → s.keys r.thread (slot r) + r.count < s.keys_per_thread
    → Reserved n s q h
    → Disjoint r (guid_make r.type r.route (first_key s r)) q h
granted-fresh n s r q h ok req room old i j hi hj e = elim (ℕ_discrete r.thread q.thread) [
  | yes p ↦ ground (arith, same.0, same.1, same.2, old.used, p)
  | no p ↦
      stripes_apart s.keys_per_thread (s.global_guid_thread_id r.thread)
        (s.global_guid_thread_id q.thread) (s.keys r.thread (slot r) + i) (old.value + j)
        (λ eq. p (ok.apart r.thread q.thread req.thread_in old.request.thread_in eq)) (omega arith)
        (omega (arith, old.room)) (omega (arith, same.2))
]
  where
    same :
        (r.type ≡ q.type)
        × (r.route ≡ q.route)
        × (first_key s r + i ≡ s.keys_per_thread * s.global_guid_thread_id q.thread + old.value + j)
    same =
        guid_make-ne r.type r.route (first_key s r + i) q.type q.route
          (s.keys_per_thread * s.global_guid_thread_id q.thread + old.value + j) req.type_in
          req.route_in (omega (arith, ok.fits r.thread req.thread_in)) old.request.type_in
          old.request.route_in (omega (arith, ok.fits q.thread old.request.thread_in, old.room))
          (cc (
            get-from_index r.type r.route (first_key s r) i (omega (arith, req.type_in))
                req.route_in (omega (arith, ok.fits r.thread req.thread_in)),
            get-from_index q.type q.route
                (s.keys_per_thread * s.global_guid_thread_id q.thread + old.value) j
                (omega (arith, old.request.type_in)) old.request.route_in
                (omega (arith, ok.fits q.thread old.request.thread_in, old.room)),
            old.guid,
          ))

-- What one grant does for every range that is out.
pub Granted-step :
    (n : ℕ) (s s' : Generator) (r : Request) (g : ℕ)
    → IsReady n s
    → IsRequest n r
    → Granted s r g s'
    → IsReady n s'
      × Reserved n s' r g
      × ((q : Request) (h : ℕ) → Reserved n s q h → Reserved n s' q h × Disjoint r g q h)
Granted-step n s s' r g ok req gr =
    rw (gr.after, gr.guid)
      (
        granted-IsReady n s r ok gr.room req.thread_in,
        record {
          request = req;
          value = s.keys r.thread (slot r);
          guid = refl;
          used = ground arith;
          room = gr.room;
        },
        λ q h old. (granted-Reserved n s r q h old, granted-fresh n s r q h ok req gr.room old),
      )

-- Requests in the order in which the node's threads make them, with the ranges they get.
unfoldable pub run : Generator → List Request → Option (List (Request × ℕ))
run s [] = some []
run s (r ∷ rs) = elim (create s r) [
  | none ↦ none
  | some (g, s') ↦ elim (run s' rs) [ none ↦ none | some out ↦ some ((r, g) ∷ out) ]
]

abbrev pub AreRequests : ℕ → List Request → Type 0
AreRequests n [] = Unit
AreRequests n (r ∷ rs) = IsRequest n r × AreRequests n rs

abbrev pub DisjointFrom : Request → ℕ → List (Request × ℕ) → Type 0
DisjointFrom r g [] = Unit
DisjointFrom r g ((q, h) ∷ out) = Disjoint q h r g × DisjointFrom r g out

abbrev pub AllDisjoint : List (Request × ℕ) → Type 0
AllDisjoint [] = Unit
AllDisjoint ((r, g) ∷ out) = DisjointFrom r g out × AllDisjoint out

-- A successful run, taken apart at its first request.
pub record Unrolled (s : Generator) (r : Request) (rs : List Request) (out : List (Request × ℕ))
    : Type 0 where
  pub guid : ℕ
  pub next : Generator
  pub rest : List (Request × ℕ)
  pub made : create s r ≡ some (guid, next)
  pub ran : run next rs ≡ some rest
  pub whole : out ≡ (r, guid) ∷ rest

pub run-Unrolled :
    (s : Generator) (r : Request) (rs : List Request) (out : List (Request × ℕ))
    → run s (r ∷ rs) ≡ some out
    → Unrolled s r rs out
unfolding run
run-Unrolled s r rs out h = first (create s r) refl h
  where
    second :
        (g : ℕ) (s' : Generator) (o : Option (List (Request × ℕ)))
        → create s r ≡ some (g, s')
        → run s' rs ≡ o
        → elim o [ none ↦ none | some out ↦ some ((r, g) ∷ out) ] ≡ some out
        → Unrolled s r rs out
    second g s' none e e' h = cc
    second g s' (some rest) e e' h = record {
      guid = g;
      next = s';
      rest = rest;
      made = e;
      ran = e';
      whole = cc;
    }

    first :
        (c : Option (ℕ × Generator))
        → create s r ≡ c
        → elim c [
          | none ↦ none
          | some (g, s') ↦ elim (run s' rs) [ none ↦ none | some out ↦ some ((r, g) ∷ out) ]
        ]
          ≡ some out
        → Unrolled s r rs out
    first none e h = cc
    first (some (g, s')) e h = second g s' (run s' rs) e refl h

run-DisjointFrom :
    (n : ℕ) (s : Generator) (rs : List Request) (out : List (Request × ℕ)) (q : Request) (h : ℕ)
    → IsReady n s
    → AreRequests n rs
    → Reserved n s q h
    → run s rs ≡ some out
    → DisjointFrom q h out
unfolding run
run-DisjointFrom n s [] out q h ok all old e = subst (DisjointFrom q h) {x = []} (cc) tt
run-DisjointFrom n s (r ∷ rs) out q h ok all old e =
    let u = run-Unrolled s r rs out e in
    let step =
      Granted-step n s u.next r u.guid ok all.0
        (create-Granted n s u.next r u.guid ok all.0 u.made) in
    let both = step.2 q h old in
    rw u.whole (both.1, run-DisjointFrom n u.next rs u.rest q h step.0 all.1 both.0 u.ran)

-- Threads with stripes of their own: no two GUID ranges that are handed out share a GUID.
pub run-AllDisjoint_ready :
    (n : ℕ) (s : Generator) (rs : List Request) (out : List (Request × ℕ))
    → IsReady n s
    → AreRequests n rs
    → run s rs ≡ some out
    → AllDisjoint out
unfolding run
run-AllDisjoint_ready n s [] out ok all e = subst AllDisjoint {x = []} (cc) tt
run-AllDisjoint_ready n s (r ∷ rs) out ok all e =
    let u = run-Unrolled s r rs out e in
    let step =
      Granted-step n s u.next r u.guid ok all.0
        (create-Granted n s u.next r u.guid ok all.0 u.made) in
    rw u.whole (
      run-DisjointFrom n u.next rs u.rest r u.guid step.0 all.1 step.1 u.ran,
      run-AllDisjoint_ready n u.next rs u.rest step.0 all.1 u.ran,
    )
