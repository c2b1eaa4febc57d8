-- ===== src/Gas/OoList/Refine.antt =====
-- The list of held-back operations of out_of_order_list.c, as a list that is open until it is fired.
use arts.Prelude.{
  ℕ, ◌/◌, ◌%◌, ◌<◌, ◌≡◌, arith, Bool, true, false, if◌then◌else◌, Bool-cases, inl, inr, Option,
  none, some, List, [], ◌∷◌, ◌++◌, length, length-append, All-append, refl, ap, ◌∙◌,
}
use arts.Gas.OoList.{
  OoList, Element, slots, free, add_item, add_locked, try_read, store, put, fire_callback,
  fire_locked, fire_elements, fired, clear, reset, reset_locked, new,
}
use arts.Gas.OoList.Chain.{Holds, Stored, put_lem, AllReal, fire_elements_lem, clear_lem}

-- The calls
pub data Op : Type 0 where
  add : (item : ℕ) → Op
  fire : Op
  reopen : Op

-- What they give: whether the item is kept, and what the callback gets
pub data Reply : Type 0 where
  kept : Bool → Reply
  replayed : List ℕ → Reply
  nothing : Reply

unfoldable pub reply_kept : Option (Bool × OoList) → Option (Reply × OoList)
reply_kept none = none
reply_kept (some (b, l)) = some (kept b, l)

unfoldable pub reply_replayed : Option (List ℕ × OoList) → Option (Reply × OoList)
reply_replayed none = none
reply_replayed (some (xs, l)) = some (replayed xs, l)

unfoldable pub step : OoList → Op → Option (Reply × OoList)
step l (add x) = reply_kept (add_item l x)
step l fire = reply_replayed (fire_callback l)
step l reopen = some (nothing, reset l)

unfoldable pub onto_reply : Reply → Option (List Reply × OoList) → Option (List Reply × OoList)
onto_reply r none = none
onto_reply r (some (rs, l)) = some (r ∷ rs, l)

unfoldable pub and_then :
    Option (Reply × OoList) → (OoList → Option (List Reply × OoList)) → Option (List Reply × OoList)
and_then none f = none
and_then (some (r, l)) f = onto_reply r (f l)

unfoldable pub run : OoList → List Op → Option (List Reply × OoList)
run l [] = some ([], l)
run l (op ∷ ops) = and_then (step l op) (λ l. run l ops)

-- The same on the items held back, and whether the list has been fired
pub record View : Type 0 where
  pub items : List ℕ
  pub closed : Bool

unfoldable pub view_step : View → Op → Reply × View
view_step v (add x) =
    if v.closed then (kept false, v) else (kept true, record v { items = v.items ++ (x ∷ []) })
view_step v fire = (replayed v.items, record { items = []; closed = true })
view_step v reopen = (nothing, record v { closed = false })

unfoldable pub view_run : View → List Op → List Reply
view_run v [] = []
view_run v (op ∷ ops) = let (r, v') = view_step v op in r ∷ view_run v' ops

-- No item that is added is NULL.
abbrev pub AllItems : List Op → Type 0
AllItems [] = Unit
AllItems (add x ∷ ops) = (0 < x) × AllItems ops
AllItems (_ ∷ ops) = AllItems ops

-- The list holds the items of the view.
record Shows (l : OoList) (v : View) : Type 0 where
  unlocked : l.writer ≡ free
  counts : l.count ≡ length v.items
  open_or_closed : l.is_fired ≡ v.closed
  chain : Holds l.head l.rest v.items
  items_real : AllReal v.items

-- The step gives what the view gives.
abbrev Matches : Option (Reply × OoList) → Reply × View → Type 0
Matches none rv = ⊥
Matches (some (r, l)) (r', v) = (r ≡ r') × Shows l v

store-Matches :
    (l : OoList) (v : View) (x : ℕ) (o : Option (Element × List Element))
    → Shows l v
    → l.is_fired ≡ false
    → v.closed ≡ false
    → 0 < x
    → Stored o (v.items ++ (x ∷ []))
    → Matches (reply_kept (store l o)) (kept true, record v { items = v.items ++ (x ∷ []) })
unfolding store reply_kept
store-Matches l v x none sh p q pos h = elim h [ ]
store-Matches l v x (some (e, es)) sh p q pos h = (
  refl,
  record {
    unlocked = sh.unlocked;
    counts = omega (arith, sh.counts, length-append v.items (x ∷ []));
    open_or_closed = sh.open_or_closed;
    chain = h;
    items_real = All-append (λ y. 0 < y) v.items (x ∷ []) sh.items_real (pos, tt);
  },
)

module _ (l : OoList) (unlocked : l.writer ≡ free) where
  add-open :
      (x : ℕ)
      → l.is_fired ≡ false
      → add_item l x ≡ store l (put (l.count / 4) (l.count % 4) x l.head l.rest)
  unfolding add_item add_locked try_read
  add-open x p = ap (λ k. add_locked l x (try_read k)) unlocked ∙ simp p

  add-closed : (x : ℕ) → l.is_fired ≡ true → add_item l x ≡ some (false, l)
  unfolding add_item add_locked try_read
  add-closed x p = ap (λ k. add_locked l x (try_read k)) unlocked ∙ simp p

  fire-free : fire_callback l ≡ fired l (fire_elements l.count l.head l.rest)
  unfolding fire_callback fire_locked
  fire-free = ap (fire_locked l) unlocked

  reset-free : reset l ≡ record l { is_fired = false }
  unfolding reset reset_locked
  reset-free = ap (reset_locked l) unlocked

fire-items :
    (l : OoList) (v : View)
    → Shows l v
    → fire_callback l
      ≡ some (v.items, record l { is_fired = true; count = 0; head = slots 0 0 0 0; rest = [] })
unfolding fired
fire-items l v sh =
    fire-free l sh.unlocked
    ∙ ap (λ n. fired l (fire_elements n l.head l.rest)) sh.counts
    ∙ ap (fired l) (fire_elements_lem l.head l.rest v.items sh.chain sh.items_real)
    ∙ ap (λ e. some (v.items, record l { is_fired = true; count = 0; head = e; rest = [] }))
        (ap (λ n. clear n l.head) sh.counts ∙ clear_lem l.head l.rest v.items sh.chain)

view_closed : (v : View) (x : ℕ) → v.closed ≡ true → view_step v (add x) ≡ (kept false, v)
unfolding view_step
view_closed v x closed = simp closed

view_fire : (v : View) → view_step v fire ≡ (replayed v.items, record { items = []; closed = true })
unfolding view_step
view_fire v = refl

view_reopen : (v : View) → view_step v reopen ≡ (nothing, record v { closed = false })
unfolding view_step
view_reopen v = refl

view_open :
    (v : View) (x : ℕ)
    → v.closed ≡ false
    → view_step v (add x) ≡ (kept true, record v { items = v.items ++ (x ∷ []) })
unfolding view_step
view_open v x open_ = simp open_

step-Matches :
    (l : OoList) (v : View) (op : Op)
    → Shows l v
    → AllItems (op ∷ [])
    → Matches (step l op) (view_step v op)
unfolding step reply_kept reply_replayed
step-Matches l v (add x) sh (pos, ok) = elim (Bool-cases v.closed) [
  | inl closed ↦
      rw (view_closed v x closed, add-closed l sh.unlocked x (sh.open_or_closed ∙ closed))
        (refl, sh)
  | inr open_ ↦
      let p = sh.open_or_closed ∙ open_ in
      let stored : Stored (put (l.count / 4) (l.count % 4) x l.head l.rest) (v.items ++ (x ∷ [])) =
        rw sh.counts (put_lem l.head l.rest v.items x sh.chain) in
      let result : Matches (reply_kept (add_item l x))
          (kept true, record v { items = v.items ++ (x ∷ []) }) =
        rw (add-open l sh.unlocked x p) (
          store-Matches l v x (put (l.count / 4) (l.count % 4) x l.head l.rest) sh p open_ pos
            stored) in
      rw (view_open v x open_) result
]
step-Matches l v fire sh ok =
    rw (fire-items l v sh, view_fire v)
      (
        refl,
        record {
          unlocked = sh.unlocked;
          counts = refl;
          open_or_closed = refl;
          chain = refl;
          items_real = tt;
        },
      )
step-Matches l v reopen sh ok =
    rw (reset-free l sh.unlocked, view_reopen v)
      (
        refl,
        record {
          unlocked = sh.unlocked;
          counts = sh.counts;
          open_or_closed = refl;
          chain = sh.chain;
          items_real = sh.items_real;
        },
      )

-- The replies of a run that waits nowhere
abbrev pub replies : Option (List Reply × OoList) → Option (List Reply)
replies none = none
replies (some (rs, l)) = some rs

AllItems-cons : (op : Op) (ops : List Op) → AllItems (op ∷ ops) → AllItems (op ∷ []) × AllItems ops
AllItems-cons (add x) ops ok = ((ok.0, tt), ok.1)
AllItems-cons fire ops ok = (tt, ok)
AllItems-cons reopen ops ok = (tt, ok)

replies-onto :
    (r : Reply) (o : Option (List Reply × OoList)) (rs : List Reply)
    → replies o ≡ some rs
    → replies (onto_reply r o) ≡ some (r ∷ rs)
unfolding onto_reply
replies-onto r none rs e = cc
replies-onto r (some (rs', l)) rs e = ap (λ o. elim o [ none ↦ none | some x ↦ some (r ∷ x) ]) e

replies-and_then :
    (o : Option (Reply × OoList)) (r : Reply) (v : View) (f : OoList → Option (List Reply × OoList))
    (rs : List Reply)
    → Matches o (r, v)
    → ((l : OoList) → Shows l v → replies (f l) ≡ some rs)
    → replies (and_then o f) ≡ some (r ∷ rs)
unfolding and_then
replies-and_then none r v f rs m h = elim m [ ]
replies-and_then (some (r', l)) r v f rs (e, sh) h =
    replies-onto r' (f l) rs (h l sh) ∙ ap (λ r. some (r ∷ rs)) e

run-Matches :
    (l : OoList) (v : View) (ops : List Op)
    → Shows l v
    → AllItems ops
    → replies (run l ops) ≡ some (view_run v ops)
unfolding run view_run
run-Matches l v [] sh ok = refl
run-Matches l v (op ∷ ops) sh ok =
    let (now, later) = AllItems-cons op ops ok in
    let v' = (view_step v op).1 in
    replies-and_then (step l op) (view_step v op).0 v' (λ l. run l ops) (view_run v' ops)
      (step-Matches l v op sh now) (λ l sh. run-Matches l v' ops sh later)

new-Shows : Shows new (record { items = []; closed = false })
new-Shows = record {
  unlocked = refl;
  counts = refl;
  open_or_closed = refl;
  chain = refl;
  items_real = tt;
}

-- A new list, and any sequence of additions of non-NULL operations, firings and resets that run one at
-- a time: no call waits for ever; until the list is fired every operation is kept, and from then on to
-- the next reset none; a firing replays what was kept since the last one, each operation once and in
-- the order of addition.
pub run_replays :
    (ops : List Op)
    → AllItems ops
    → replies (run new ops) ≡ some (view_run (record { items = []; closed = false }) ops)
run_replays ops ok = run-Matches new (record { items = []; closed = false }) ops new-Shows ok
