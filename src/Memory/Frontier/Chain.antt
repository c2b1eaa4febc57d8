-- ===== src/Memory/Frontier/Chain.antt =====
-- The order that the list of frontiers gives to the requests for a DB.
use arts.Prelude.{
  ℕ, zero, suc, ◌≡◌, refl, ◌∙◌, arith, Bool, true, false, ◌&&◌, not, none, some, List, [], ◌∷◌,
  Bool-cases, inl, inr,
}
use arts.Memory.Frontier.{
  Frontier, Request, Pushed, new_db_frontier, add_read_lock, add_write_lock, push_db_to_frontier,
  accept, record_local_writer, delay, behind, push_from, push_db_to_list, same_local_writer,
}

-- Every frontier but the last has a writer: what the last refuses opens a new one.
abbrev pub IsChain : List Frontier → Type 0
IsChain [] = Unit
IsChain (f ∷ []) = Unit
IsChain (f ∷ g ∷ fs) = (f.write_set ≡ true) × IsChain (g ∷ fs)

-- The first `n` frontiers take no more requests.
abbrev pub Sealed : ℕ → List Frontier → Type 0
Sealed zero fs = Unit
Sealed (suc n) [] = ⊥
Sealed (suc n) (f ∷ fs) = (f.write_set ≡ true) × Sealed n fs

-- The request is not of an EDT that writes on one of these frontiers already.
abbrev pub IsNew : (ℕ → ℕ) → Request → List Frontier → Type 0
IsNew current_edt r [] = Unit
IsNew current_edt r (f ∷ fs) =
    ((r.local && same_local_writer current_edt f r.edt r.edt_guid) ≡ false) × IsNew current_edt r fs

-- What a frontier does with a request: it refuses every one if it is sealed, and takes it else; a
-- write seals it.
pub push-sealed :
    (c : ℕ → ℕ) (f : Frontier) (r : Request) → f.write_set ≡ true → push_db_to_frontier c f r ≡ none
unfolding push_db_to_frontier add_read_lock add_write_lock
push-sealed c f r h = ground (arith, h)

-- Whether the request seals the frontier that takes it.
abbrev pub seals : Request → Bool
seals r = r.write && not r.bypass

pub push-open :
    (c : ℕ → ℕ) (f : Frontier) (r : Request)
    → f.write_set ≡ false
    → push_db_to_frontier c f r ≡ some (accept c f r (seals r))
unfolding push_db_to_frontier add_read_lock add_write_lock
push-open c f r h = ground (arith, h)

accept-write_set :
    (c : ℕ → ℕ) (f : Frontier) (r : Request) (w : Bool) → (accept c f r w).1.write_set ≡ w
unfolding accept record_local_writer
accept-write_set c f r w = ground arith

delay-write_set : (b : Bool) (r : Request) (f : Frontier) → (delay b r f).write_set ≡ f.write_set
delay-write_set b r f = ground arith

-- What the loop does at a frontier: the three ways that it goes.
pub record Takes (c : ℕ → ℕ) (b : Bool) (f : Frontier) (fs : List Frontier) (r : Request)
    : Type 0 where
  pub open_ :
      f.write_set ≡ false
      → push_from c b (f ∷ fs) r
        ≡ some (record {
          on_head = b;
          unique = (accept c f r (seals r)).0;
          index = 0;
          frontiers = delay b r (accept c f r (seals r)).1 ∷ fs;
        })
  pub joined :
      f.write_set ≡ true
      → (r.local && same_local_writer c f r.edt r.edt_guid) ≡ true
      → push_from c b (f ∷ fs) r
        ≡ some (record { on_head = b; unique = false; index = 0; frontiers = delay b r f ∷ fs })
  pub passed :
      (p : Pushed)
      → f.write_set ≡ true
      → (r.local && same_local_writer c f r.edt r.edt_guid) ≡ false
      → push_from c false fs r ≡ some p
      → push_from c b (f ∷ fs) r ≡ some (behind f p)

pub takes :
    (c : ℕ → ℕ) (b : Bool) (f : Frontier) (fs : List Frontier) (r : Request) → Takes c b f fs r
unfolding push_from
takes c b f fs r = record {
  open_ = λ h. ground (arith, push-open c f r h);
  joined = λ h h'. ground (arith, push-sealed c f r h, h');
  passed = λ p h h' e. ground (arith, push-sealed c f r h, h', e);
}

pub push-new :
    (c : ℕ → ℕ) (b : Bool) (r : Request)
    → push_from c b [] r
      ≡ some (record {
        on_head = b;
        unique = (accept c new_db_frontier r (seals r)).0;
        index = 0;
        frontiers = delay b r (accept c new_db_frontier r (seals r)).1 ∷ [];
      })
unfolding push_from
push-new c b r = ground (arith, push-open c new_db_frontier r refl)

-- A request is always taken, at one frontier of the list or at a new last one, and what it leaves is
-- a chain again.
record Ordered (c : ℕ → ℕ) (b : Bool) (fs : List Frontier) (r : Request) : Type 0 where
  result : Pushed
  pushed : push_from c b fs r ≡ some result
  chain : IsChain result.frontiers
  closed : seals r ≡ true → Sealed (suc result.index) result.frontiers

IsChain-replace :
    (f f' : Frontier) (fs : List Frontier)
    → (f.write_set ≡ true → f'.write_set ≡ true)
    → IsChain (f ∷ fs)
    → IsChain (f' ∷ fs)
IsChain-replace f f' [] h ok = tt
IsChain-replace f f' (g ∷ fs) h ok = (h ok.0, ok.1)

IsChain-behind :
    (f : Frontier) (fs : List Frontier) → f.write_set ≡ true → IsChain fs → IsChain (f ∷ fs)
IsChain-behind f [] h ok = tt
IsChain-behind f (g ∷ fs) h ok = (h, ok)

IsChain-tail : (f : Frontier) (fs : List Frontier) → IsChain (f ∷ fs) → IsChain fs
IsChain-tail f [] ok = tt
IsChain-tail f (g ∷ fs) ok = ok.1

push-Ordered :
    (c : ℕ → ℕ) (b : Bool) (fs : List Frontier) (r : Request) → IsChain fs → Ordered c b fs r
push-Ordered c b [] r ok = record {
  result = _;
  pushed = push-new c b r;
  chain = tt;
  closed = λ h. (
    delay-write_set b r (accept c new_db_frontier r (seals r)).1
        ∙ accept-write_set c new_db_frontier r (seals r)
        ∙ h,
    tt,
  );
}
push-Ordered c b (f ∷ fs) r ok = elim (Bool-cases f.write_set) [
  | inr open_ ↦
      let f' = delay b r (accept c f r (seals r)).1 in
      let w = delay-write_set b r (accept c f r (seals r)).1 ∙ accept-write_set c f r (seals r) in
      record {
        result = _;
        pushed = (takes c b f fs r).open_ open_;
        chain = IsChain-replace f f' fs (λ h. cc) ok;
        closed = λ h. (w ∙ h, tt);
      }
  | inl sealed ↦ elim (Bool-cases (r.local && same_local_writer c f r.edt r.edt_guid)) [
    | inl join ↦
        let w = delay-write_set b r f ∙ sealed in
        record {
          result = _;
          pushed = (takes c b f fs r).joined sealed join;
          chain = IsChain-replace f (delay b r f) fs (λ h. w) ok;
          closed = λ h. (w, tt);
        }
    | inr pass ↦
        let ih = push-Ordered c false fs r (IsChain-tail f fs ok) in
        record {
          result = behind f ih.result;
          pushed = (takes c b f fs r).passed ih.result sealed pass ih.pushed;
          chain = IsChain-behind f ih.result.frontiers sealed ih.chain;
          closed = λ h. (sealed, ih.closed h);
        }
  ]
]

-- From an order of frontiers that is a chain: a request is always taken, and the list stays a chain;
-- a write seals the frontier that takes it and leaves those before it sealed.
pub push_db_to_list_lem :
    (c : ℕ → ℕ) (fs : List Frontier) (r : Request)
    → IsChain fs
    → (p : Pushed) × (push_db_to_list c fs r ≡ some p)
      × IsChain p.frontiers
      × (seals r ≡ true → Sealed (suc p.index) p.frontiers)
unfolding push_db_to_list
push_db_to_list_lem c fs r ok =
    let o = push-Ordered c true fs r ok in (o.result, o.pushed, o.chain, o.closed)
