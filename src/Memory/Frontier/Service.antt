-- ===== src/Memory/Frontier/Service.antt =====
-- A request of the owner that is put off is served when its frontier has become the head.
use arts.Prelude.{ℕ, zero, suc, ◌≡◌, ◌==◌, if◌then◌else◌, List, [], ◌∷◌, ◌++◌}
use arts.Memory.Frontier.{Frontier, Request, Delayed}
use arts.Memory.Frontier.Signal.{Effect, satisfy_edt, progress_frontier, db_request}

-- `x` is in the list.
abbrev pub Has : Effect → List Effect → Type 0
Has x l = (before : List Effect) × (after : List Effect) × (l ≡ before ++ (x ∷ after))

-- The effects of a progress by rank `q`, after progresses by the ranks `qs`
unfoldable pub progress_last :
    (current_edt find_edt : ℕ → ℕ)
    → (rank_id : ℕ) → (qs : List ℕ) → (q : ℕ) → List Frontier
    → List Effect
progress_last c e me [] q fs = (progress_frontier c e me fs q).0
progress_last c e me (x ∷ qs) q fs = progress_last c e me qs q (progress_frontier c e me fs x).1

-- How a request of the owner is served when rank `q` has let its frontier become the head: the slot
-- gets the owner's copy, or the DB is requested for the slot from that rank.
abbrev pub service : (rank_id q : ℕ) → Request → Effect
service me q r = if q == me then satisfy_edt r.edt r.slot else db_request q r.edt r.slot r.mode

-- Frontier `n` ends its list of put off EDTs with that of the request.
abbrev Holds : ℕ → Request → List Frontier → Type 0
Holds n r [] = ⊥
Holds zero r (f ∷ fs) =
    (xs : List Delayed) × (f.local_delayed
      ≡ xs ++ (record { edt = r.edt; slot = r.slot; mode = r.mode } ∷ []))
Holds (suc n) r (f ∷ fs) = Holds n r fs
