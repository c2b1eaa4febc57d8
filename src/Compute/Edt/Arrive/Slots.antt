-- ===== src/Compute/Edt/Arrive/Slots.antt =====
-- An EDT with a reserved GUID has the data of its messages in its slots, whatever their order.
use arts.Prelude.{
  true, false, ℕ, ◌+◌, ◌≤◌, ◌<◌, ◌≡◌, arith, Bool, not, ◌&&◌, ◌||◌, Bool-cases, Option, none, some,
  List, [], ◌∷◌, get_elem?, remove, remove-none, tally, tally-append, tally-remove, All, All-append,
  All-remove, All-get, u32, sub_u32, refl, ap, ◌⊎◌, inl, inr,
}
use mathlib.Core.Path.{subst}
use native.Mathlib.Decide.{dec_lt}
use arts.Compute.Edt.{Edt, signal, set_dep_metadata}
use arts.Compute.Edt.Arrive.{
  Message, sig, meta, Stage, before, entered, replaying, done, Node, defer, count_ready, apply,
  deliver, absent, enqueue, enter, fire, replay, unseal, Event, message, queued, enters, fires,
  replays, unseals, step,
}
use arts.Compute.Edt.Arrive.Once.{Shape, Shape-before, Shape-entered}

-- The EDT after a message, whatever its counter
unfoldable pub after : Edt → Message → Edt
after e (sig s) = (signal e s).1
after e (meta m) = set_dep_metadata e m

abbrev pub counted : (Message → ℕ) → List Event → ℕ
counted w [] = 0
counted w (message m ∷ xs) = w m + counted w xs
counted w (_ ∷ xs) = counted w xs

-- Every message that is issued
abbrev pub AllIssued : (Message → Type 0) → List Event → Type 0
AllIssued P [] = Unit
AllIssued P (message m ∷ xs) = P m × AllIssued P xs
AllIssued P (_ ∷ xs) = AllIssued P xs

abbrev pub held_back : (Message → ℕ) → Node → ℕ
held_back w n = tally w n.missed + tally w n.queue + tally w n.taken

-- What the messages that `w` counts make of an EDT: they bring `Q` about, and no message undoes it.
-- `P` holds of the messages and `F` of the EDT throughout.
pub record IsSetting (P : Message → Type 0) (w : Message → ℕ) (F Q : Edt → Type 0) : Type 0 where
  pub deferred : (m : Message) → P m → P (defer m) × (w (defer m) ≡ w m)
  pub fits : (e : Edt) (m : Message) → P m → F e → F (after e m)
  pub sets : (e : Edt) (m : Message) → P m → F e → 1 ≤ w m → Q (after e m)
  pub keeps : (e : Edt) (m : Message) → P m → F e → Q e → Q (after e m)
  pub recount : (e : Edt) (c : ℕ) → F e → F (record e { depc_needed = c })
  pub recount_set : (e : Edt) (c : ℕ) → Q e → Q (record e { depc_needed = c })

zero_or_more : (n : ℕ) → (n ≡ 0) ⊎ (1 ≤ n)
zero_or_more n = elim (dec_lt 0 n) [
  | yes h ↦ inr (omega (arith, h))
  | no h ↦ inl (omega (arith, h))
]

module _ {P : Message → Type 0} {w : Message → ℕ} {F Q : Edt → Type 0}
    (law : IsSetting P w F Q) where
  -- `h` of `s` counted messages are still held back.
  abbrev pub Entry : Option Edt → (h s : ℕ) → Type 0
  Entry none h s = h ≡ s
  Entry (some e) h s = F e × (h < s → Q e)

  -- After `s` counted messages have been issued, `extra` of which stand in none of the lists
  pub record Tracks (s extra : ℕ) (n : Node) : Type 0 where
    pub of_missed : All P n.missed
    pub of_queue : All P n.queue
    pub of_taken : All P n.taken
    pub entry : Entry n.entry (held_back w n + extra) s

  entry_more : (o : Option Edt) (h h' s : ℕ) → h ≡ h' → Entry o h s → Entry o h' s
  entry_more o h h' s p t = subst (λ k. Entry o k s) p t

  settle :
      (e : Edt) (m : Message) (h s : ℕ)
      → P m
      → Entry (some e) (h + w m) s
      → Entry (some (after e m)) h s
  settle e m h s p (fit, set) = (
    law.fits e m p fit,
    (λ less. elim (zero_or_more (w m)) [
      | inl none_of ↦ law.keeps e m p fit (set (omega (arith, less, none_of)))
      | inr some_of ↦ law.sets e m p fit some_of
    ]),
  )

  deliver-Tracks :
      (s : ℕ) (n : Node) (o : Option Edt) (m : Message)
      → n.entry ≡ o
      → P m
      → Tracks s (w m) n
      → Tracks s 0 (deliver n o m)
  unfolding deliver apply count_ready after
  deliver-Tracks s n none m e p t = record {
    of_missed = (p, t.of_missed);
    of_queue = t.of_queue;
    of_taken = t.of_taken;
    entry = entry_more n.entry (held_back w n + w m) _ s (omega arith) t.entry;
  }
  deliver-Tracks s n (some x) (sig g) e p t = record {
    of_missed = t.of_missed;
    of_queue = t.of_queue;
    of_taken = t.of_taken;
    entry = entry_more (some (after x (sig g))) (held_back w n) _ s (omega arith) (
        settle x (sig g) (held_back w n) s p
          (subst (λ o. Entry o (held_back w n + w (sig g)) s) e t.entry));
  }
  deliver-Tracks s n (some x) (meta g) e p t = record {
    of_missed = t.of_missed;
    of_queue = t.of_queue;
    of_taken = t.of_taken;
    entry = entry_more (some (after x (meta g))) (held_back w n) _ s (omega arith) (
        settle x (meta g) (held_back w n) s p
          (subst (λ o. Entry o (held_back w n + w (meta g)) s) e t.entry));
  }

  abbrev weight_of : Option Message → ℕ
  weight_of none = 0
  weight_of (some m) = w m

  enqueue-Tracks :
      (s : ℕ) (n : Node) (late : Bool) (o : Option Message)
      → ((m : Message) → o ≡ some m → P m)
      → Tracks s (weight_of o) n
      → Tracks s 0 (enqueue n late o)
  unfolding enqueue
  enqueue-Tracks s n late none p t = t
  enqueue-Tracks s n late (some m) p t =
      let (p', same) = law.deferred m (p m refl) in
      elim (Bool-cases (not n.is_fired && (absent n.entry || late))) [
        | inl taken_in ↦ rw taken_in (record {
          of_missed = t.of_missed;
          of_queue = All-append P n.queue (defer m ∷ []) t.of_queue (p', tt);
          of_taken = t.of_taken;
          entry =
              entry_more n.entry (held_back w n + w m) _ s
                (omega (arith, same, tally-append w n.queue (defer m ∷ []))) t.entry;
        })
        | inr refused ↦ rw refused (deliver-Tracks s n n.entry (defer m) refl p' (rw same t))
      ]

  take_out-Tracks :
      (s : ℕ) (n : Node) (k : ℕ) (o : Option Message)
      → get_elem? n.missed k ≡ o
      → Tracks s 0 n
      → Tracks s (weight_of o) (record n { missed = remove n.missed k })
  take_out-Tracks s n k o e t = record {
    of_missed = All-remove P n.missed k t.of_missed;
    of_queue = t.of_queue;
    of_taken = t.of_taken;
    entry = entry_more n.entry (held_back w n + 0) _ s (without o e) t.entry;
  }
    where
      without :
          (o : Option Message)
          → get_elem? n.missed k ≡ o
          → held_back w n + 0
            ≡ tally w (remove n.missed k) + tally w n.queue + tally w n.taken + weight_of o
      without none e = omega (arith, ap (tally w) (remove-none n.missed k e))
      without (some m) e = omega (arith, tally-remove w n.missed k m e)

  -- The creator's calls touch the entry's counter only.
  enter-Tracks :
      (e : Edt) (depc s : ℕ) (n : Node) (st : Stage)
      → n.stage ≡ st
      → Shape n.stage n.entry n.taken
      → F e
      → Tracks s 0 n
      → Tracks s 0 (enter e depc n st)
  unfolding enter
  enter-Tracks e depc s n before p shape fit t =
      let (absent_, none_taken) =
        Shape-before n.entry n.taken (subst (λ st. Shape st n.entry n.taken) p shape) in
      let all : held_back w n + 0 ≡ s =
        subst (λ o. Entry o (held_back w n + 0) s) absent_ t.entry in
      record {
        of_missed = t.of_missed;
        of_queue = t.of_queue;
        of_taken = t.of_taken;
        entry = (law.recount e (u32 (depc + 1)) fit, λ less. absurd (omega (arith, less, all)));
      }
  enter-Tracks e depc s n entered p shape fit t = t
  enter-Tracks e depc s n replaying p shape fit t = t
  enter-Tracks e depc s n done p shape fit t = t

  fire-Tracks :
      (s : ℕ) (n : Node) (locked : Bool) (st : Stage)
      → n.stage ≡ st
      → Shape n.stage n.entry n.taken
      → Tracks s 0 n
      → Tracks s 0 (fire n locked st)
  unfolding fire
  fire-Tracks s n true entered p shape t =
      let ((x, there), none_taken) =
        Shape-entered n.entry n.taken (subst (λ st. Shape st n.entry n.taken) p shape) in
      record {
        of_missed = t.of_missed;
        of_queue = tt;
        of_taken = t.of_queue;
        entry =
            entry_more n.entry (held_back w n + 0) _ s (omega (arith, ap (tally w) none_taken))
              t.entry;
      }
  fire-Tracks s n false entered p shape t = record {
    of_missed = t.of_missed;
    of_queue = t.of_queue;
    of_taken = t.of_taken;
    entry = t.entry;
  }
  fire-Tracks s n true before p shape t = t
  fire-Tracks s n true replaying p shape t = t
  fire-Tracks s n true done p shape t = t
  fire-Tracks s n false before p shape t = t
  fire-Tracks s n false replaying p shape t = t
  fire-Tracks s n false done p shape t = t

  replay-Tracks :
      (s : ℕ) (n : Node) (st : Stage) (ms : List Message)
      → n.taken ≡ ms
      → Tracks s 0 n
      → Tracks s 0 (replay n st ms)
  unfolding replay
  replay-Tracks s n replaying (m ∷ ms) q t =
      let (p, ps) = subst (All P) q t.of_taken in
      deliver-Tracks s (record n { taken = ms }) n.entry m refl p
        (record {
          of_missed = t.of_missed;
          of_queue = t.of_queue;
          of_taken = ps;
          entry =
              entry_more n.entry (held_back w n + 0) _ s (omega (arith, ap (tally w) q)) t.entry;
        })
  replay-Tracks s n replaying [] q t = t
  replay-Tracks s n before ms q t = t
  replay-Tracks s n entered ms q t = t
  replay-Tracks s n done ms q t = t

  unseal-Tracks :
      (s : ℕ) (n : Node) (st : Stage) (ms : List Message) (o : Option Edt)
      → n.entry ≡ o
      → Tracks s 0 n
      → Tracks s 0 (unseal n st ms o)
  unfolding unseal
  unseal-Tracks s n replaying [] (some x) q t =
      let (fit, set) = subst (λ o. Entry o (held_back w n + 0) s) q t.entry in
      record {
        of_missed = t.of_missed;
        of_queue = t.of_queue;
        of_taken = t.of_taken;
        entry = (
          law.recount x (sub_u32 x.depc_needed 1) fit,
          λ less. law.recount_set x (sub_u32 x.depc_needed 1) (set less),
        );
      }
  unseal-Tracks s n replaying [] none q t = t
  unseal-Tracks s n replaying (m ∷ ms) o q t = t
  unseal-Tracks s n before ms o q t = t
  unseal-Tracks s n entered ms o q t = t
  unseal-Tracks s n done ms o q t = t

  recast : (s t : ℕ) (n : Node) → s ≡ t → Tracks s 0 n → Tracks t 0 n
  recast s t n p r = subst (λ k. Tracks k 0 n) p r

  issue-Tracks : (s : ℕ) (n : Node) (m : Message) → Tracks s 0 n → Tracks (w m + s) (w m) n
  issue-Tracks s n m t = record {
    of_missed = t.of_missed;
    of_queue = t.of_queue;
    of_taken = t.of_taken;
    entry = later n.entry t.entry;
  }
    where
      later :
          (o : Option Edt) → Entry o (held_back w n + 0) s → Entry o (held_back w n + w m) (w m + s)
      later none p = omega (arith, p)
      later (some x) (fit, set) = (fit, (λ less. set (omega (arith, less))))

  pub step-Tracks :
      (e : Edt) (depc s t : ℕ) (n : Node) (x : Event)
      → counted w (x ∷ []) + s ≡ t
      → Shape n.stage n.entry n.taken
      → F e
      → AllIssued P (x ∷ [])
      → Tracks s 0 n
      → Tracks t 0 (step e depc n x)
  unfolding step
  step-Tracks e depc s t n (message m) p shape fit ps r =
      deliver-Tracks t n n.entry m refl ps.0
        (subst (λ k. Tracks k (w m) n) (omega (arith, p)) (issue-Tracks s n m r))
  step-Tracks e depc s t n (queued k late) p shape fit ps r =
      let r' = recast s t n (omega (arith, p)) r in
      enqueue-Tracks t (record n { missed = remove n.missed k }) late (get_elem? n.missed k)
        (λ m q. All-get P n.missed k m r'.of_missed q)
        (take_out-Tracks t n k (get_elem? n.missed k) refl r')
  step-Tracks e depc s t n enters p shape fit ps r =
      enter-Tracks e depc t n n.stage refl shape fit (recast s t n (omega (arith, p)) r)
  step-Tracks e depc s t n (fires locked) p shape fit ps r =
      fire-Tracks t n locked n.stage refl shape (recast s t n (omega (arith, p)) r)
  step-Tracks e depc s t n replays p shape fit ps r =
      replay-Tracks t n n.stage n.taken refl (recast s t n (omega (arith, p)) r)
  step-Tracks e depc s t n unseals p shape fit ps r =
      unseal-Tracks t n n.stage n.taken n.entry refl (recast s t n (omega (arith, p)) r)
