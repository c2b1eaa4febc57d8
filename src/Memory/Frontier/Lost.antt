-- ===== src/Memory/Frontier/Lost.antt =====
-- A remote rank that reads a DB on a frontier and then wants to write it.
use arts.Prelude.{ℕ, ◌≡◌, arith, Bool, true, false, ◌||◌, ◌==◌, some, List, [], ◌∷◌}
use arts.Memory.Frontier.{Frontier, Request, accept, push_db_to_element, push_db_to_list}
use arts.Memory.Frontier.Chain.{takes, seals}

abbrev pub lists : List ℕ → ℕ → Bool
lists [] x = false
lists (y ∷ ys) x = (y == x) || lists ys x

listed : (xs : List ℕ) (x : ℕ) → lists xs x ≡ true → push_db_to_element xs x ≡ (false, xs)
unfolding push_db_to_element
listed [] x h = cc
listed (y ∷ ys) x h = ground (arith, h, listed ys x)

-- The head of the list has no writer and lists the rank as a reader. A write of that rank is taken
-- by the head and seals it, but is not noted there, and is reported as one that is not to be served:
-- neither the caller sends the DB to the writing EDT, nor does the frontier know of it.
pub write-lost :
    (c : ℕ → ℕ) (f : Frontier) (fs : List Frontier) (r : Request)
    → f.write_set ≡ false
    → lists f.list r.rank ≡ true
    → seals r ≡ true
    → r.local ≡ false
    → push_db_to_list c (f ∷ fs) r
      ≡ some (record {
        on_head = true;
        unique = false;
        index = 0;
        frontiers = record f { write_set = true } ∷ fs;
      })
unfolding push_db_to_list accept
write-lost c f fs r open_ reads write remote =
    let t = (takes c true f fs r).open_ open_ in
    ground (arith, t, listed f.list r.rank reads, write, remote)
