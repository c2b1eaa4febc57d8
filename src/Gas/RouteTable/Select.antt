-- ===== src/Gas/RouteTable/Select.antt =====
-- `arts_get_route_table` of libs/src/core/gas/route_table.c: the table that keeps a GUID, by the
-- globals of the GUID generator.
use arts.Prelude.{
  ℕ, ◌+◌, ◌-◌, ◌*◌, ◌/◌, ◌<◌, ◌≤◌, ◌≡◌, ◌∙◌, ap, arith, ◌&&◌, not, ltb, leb, ◌==◌, if◌then◌else◌,
  Option, none, some, List, [], ◌∷◌, sym, ◌^◌, le→leb, lt→ltb, ne→==,
}
use native.Mathlib.Nat.{add-mul-div_right, div-eq_of_lt, zero-add, add_comm, mul_comm}
use arts.Gas.Guid.{Generator, Node, get_key, from_index, guid_make}
use arts.Gas.Guid.Layout.{get-guid_make, get-from_index}
use arts.Gas.Guid.Alloc.{
  IsReady, IsRequest, Request, AreRequests, create, create-Granted, slot, run, granted,
  Granted-step, run-Unrolled,
}
use arts.Gas.Guid.Start.{IsNode, started, started-IsReady, started-stripe}
use mathlib.Core.Path.{subst}

-- The number of a thread's table, or `none` for the table of the remote GUIDs.
unfoldable pub get_route_table : Generator → (guid : ℕ) → Option ℕ
get_route_table s guid =
    let global_thread = get_key guid / s.keys_per_thread in
    if not (s.keys_per_thread == 0)
      && (leb s.min_global_guid_thread global_thread && ltb global_thread s.max_global_guid_thread)
    then some (global_thread - s.min_global_guid_thread)
    else none

stripe : (k a v : ℕ) → v < k → (k * a + v) / k ≡ a
stripe k a v h =
    ap (λ x. x / k) (add_comm (k * a) v ∙ ap (λ x. v + x) (mul_comm k a))
    ∙ add-mul-div_right v a (omega arith)
    ∙ ap (λ x. x + a) (div-eq_of_lt h)
    ∙ zero-add a

-- A range that is granted in `s` is kept in the table of its thread.
get_route_table-create :
    (n : ℕ) (s s' : Generator) (r : Request) (g i : ℕ)
    → IsReady n s
    → IsRequest n r
    → s.global_guid_thread_id r.thread ≡ s.min_global_guid_thread + r.thread
    → s.min_global_guid_thread + n ≤ s.max_global_guid_thread
    → create s r ≡ some (g, s')
    → i < r.count
    → get_route_table s (from_index g i) ≡ some r.thread
unfolding get_route_table
get_route_table-create n s s' r g i ok req id tables h hi =
    let c = create-Granted n s s' r g ok req h in
    let k = s.keys_per_thread in
    let v = s.keys r.thread (slot r) + i in
    let f = ok.fits r.thread req.thread_in in
    let key = k * s.global_guid_thread_id r.thread + s.keys r.thread (slot r) in
    let e₁ : from_index g i ≡ guid_make r.type r.route (key + i) =
      ap (λ x. from_index x i) c.guid
      ∙ get-from_index r.type r.route key i (omega (arith, req.type_in)) req.route_in
          (omega (arith, f, c.room)) in
    let e₂ : get_key (from_index g i) ≡ k * s.global_guid_thread_id r.thread + v =
      ap get_key e₁
      ∙ (get-guid_make r.type r.route (key + i) (omega (arith, req.type_in)) req.route_in
          (omega (arith, f, c.room))).2
      ∙ omega arith in
    let e₃ : get_key (from_index g i) / k ≡ s.min_global_guid_thread + r.thread =
      ap (λ x. x / k) e₂
      ∙ stripe k (s.global_guid_thread_id r.thread) v (omega (arith, c.room))
      ∙ id in
    let lo = le→leb s.min_global_guid_thread (s.min_global_guid_thread + r.thread) (omega arith) in
    let hi =
      lt→ltb (s.min_global_guid_thread + r.thread) s.max_global_guid_thread
        (omega (arith, req.thread_in)) in
    let some_ = ne→== k 0 (omega (arith, c.room)) in
    let e₄ : s.min_global_guid_thread + r.thread - s.min_global_guid_thread ≡ r.thread =
      omega arith in
    simp (e₃, lo, hi, some_, e₄)

-- Each range is kept in the table of the thread that it was handed to.
abbrev pub AllKept : Generator → List (Request × ℕ) → Type 0
AllKept s [] = Unit
AllKept s ((r, g) ∷ out) =
    ((i : ℕ) → i < r.count → get_route_table s (from_index g i) ≡ some r.thread) × AllKept s out

granted-AllKept :
    (s : Generator) (r : Request) (out : List (Request × ℕ))
    → AllKept (granted s r) out
    → AllKept s out
unfolding get_route_table
granted-AllKept s r [] h = tt
granted-AllKept s r ((q, g) ∷ out) (h, hs) = (h, granted-AllKept s r out hs)

run-AllKept :
    (n : ℕ) (s : Generator) (rs : List Request) (out : List (Request × ℕ))
    → IsReady n s
    → ((t : ℕ) → t < n → s.global_guid_thread_id t ≡ s.min_global_guid_thread + t)
    → s.min_global_guid_thread + n ≤ s.max_global_guid_thread
    → AreRequests n rs
    → run s rs ≡ some out
    → AllKept s out
unfolding run
run-AllKept n s [] out ok ids most all e = subst (AllKept s) {x = []} (cc) tt
run-AllKept n s (r ∷ rs) out ok ids most all e =
    let u = run-Unrolled s r rs out e in
    let gr = create-Granted n s u.next r u.guid ok all.0 u.made in
    let ok' = (Granted-step n s u.next r u.guid ok all.0 gr).0 in
    let rest : AllKept (granted s r) u.rest =
      run-AllKept n (granted s r) rs u.rest (subst (IsReady n) gr.after ok') ids most all.1
        (ap (λ x. run x rs) (sym gr.after) ∙ u.ran) in
    rw u.whole (
      (λ i h.
          get_route_table-create n s u.next r u.guid i ok all.0 (ids r.thread all.0.thread_in) most
            u.made h),
      granted-AllKept s r u.rest rest,
    )

-- After the parallel start, every GUID of every range that a node hands out to its workers, for
-- itself or for another rank, is kept in the table of the worker that asked for it, whatever the
-- workers ask for in whatever order. The bounds are those under which the ranges are disjoint.
pub get_route_table-started :
    (n : Node) (k : ℕ) (rs : List Request) (out : List (Request × ℕ))
    → IsNode n
    → k ≤ 2 ^ 40
    → AreRequests n.worker_thread_count rs
    → run (started n k) rs ≡ some out
    → AllKept (started n k) out
unfolding run
get_route_table-started n k [] out ok le all e = subst (AllKept (started n k)) {x = []} (cc) tt
get_route_table-started n k (r ∷ rs) out ok le all e =
    run-AllKept n.worker_thread_count (started n k) (r ∷ rs) out (started-IsReady n k ok le)
      (λ t h. (started-stripe n k t ok h).0) (started-stripe n k r.thread ok all.0.thread_in).1 all
      e
