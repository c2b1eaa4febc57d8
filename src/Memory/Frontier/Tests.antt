-- ===== src/Memory/Frontier/Tests.antt =====
-- The frontier theorems at concrete inputs.
use arts.Prelude.{ℕ, ◌≡◌, refl, true, false, some, [], ◌∷◌}
use arts.Memory.Frontier.{Frontier, Request, Pushed, new_db_frontier, push_db_to_list}
use arts.Memory.Frontier.Lost.{write-lost}

-- EDT 4, of GUID 40, of the owner, writes; EDT 5, of GUID 50, of the owner, reads in slot 2.
abbrev current : ℕ → ℕ
current edt = 0

abbrev writer : Request
writer = record {
  rank = 0;
  write = true;
  local = true;
  bypass = false;
  edt = 4;
  edt_guid = 40;
  slot = 1;
  mode = 1;
}

abbrev reader : Request
reader = record {
  rank = 0;
  write = false;
  local = true;
  bypass = false;
  edt = 5;
  edt_guid = 50;
  slot = 2;
  mode = 0;
}

abbrev written : Frontier
written = record new_db_frontier {
  list = 0 ∷ [];
  write_set = true;
  local_write_edt = 4;
  local_write_edt_guid = 40;
}

-- The write on the head, and the read on a new frontier.
abbrev first : Pushed
first = record { on_head = true; unique = true; index = 0; frontiers = written ∷ [] }

abbrev second : Pushed
second = record {
  on_head = false;
  unique = true;
  index = 1;
  frontiers =
      written
      ∷ record new_db_frontier {
        list = 0 ∷ [];
        local_delayed = record { edt = 5; slot = 2; mode = 0 } ∷ [];
      }
      ∷ [];
}

-- Rank 3 reads on the head and asks to write.
abbrev read_by_3 : Frontier
read_by_3 = record new_db_frontier { list = 3 ∷ [] }

write-lost_example :
    push_db_to_list current (read_by_3 ∷ []) (record {
      rank = 3;
      write = true;
      local = false;
      bypass = false;
      edt = 0;
      edt_guid = 77;
      slot = 1;
      mode = 1;
    })
    ≡ some (record {
      on_head = true;
      unique = false;
      index = 0;
      frontiers = record read_by_3 { write_set = true } ∷ [];
    })
write-lost_example =
    write-lost current read_by_3 []
      (record {
        rank = 3;
        write = true;
        local = false;
        bypass = false;
        edt = 0;
        edt_guid = 77;
        slot = 1;
        mode = 1;
      })
      refl refl refl refl
