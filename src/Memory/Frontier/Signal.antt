-- ===== src/Memory/Frontier/Signal.antt =====
-- libs/src/core/memory/frontier.c: requests for slices, and how the progress of a DB to its next
-- frontier serves the requests that wait there.
use arts.Prelude.{
  ℕ, Bool, true, false, ◌&&◌, ◌||◌, not, ◌==◌, if◌then◌else◌, none, some, List, [], ◌∷◌, ◌++◌, map,
}
use arts.Gas.Guid.{null_guid}
use arts.Memory.Frontier.{
  Delayed, Slice, Frontier, new_db_frontier, add_read_lock, push_db_to_element, candidate_edt_guid,
}

-- Calls that leave the file.
pub data Effect : Type 0 where
  satisfy_edt : (edt slot : ℕ) → Effect
  db_full_send_now : (rank edt_guid slot mode : ℕ) → Effect
  db_send_now : (rank : ℕ) → Effect
  satisfy_slice : Slice → Effect
  signal_slice : Slice → Effect
  send_already_local : (rank edt_guid slot mode : ℕ) → Effect
  db_forward_full : (rank source edt_guid slot mode : ℕ) → Effect
  db_full_request : (rank edt_guid slot mode : ℕ) → Effect
  db_forward : (rank source : ℕ) → Effect
  db_request : (source edt slot mode : ℕ) → Effect

unfoldable pub serve_slice : Slice → Effect
serve_slice s = if s.edt == 0 then signal_slice s else satisfy_slice s

-- The loop of `arts_request_db_slice` over the frontiers: what is served at once, and the list.
unfoldable pub request_from : (is_head : Bool) → List Frontier → Slice → List Effect × List Frontier
request_from is_head [] s =
    if is_head
    then (serve_slice s ∷ [], new_db_frontier ∷ [])
    else ([], record new_db_frontier { slice_delayed = s ∷ [] } ∷ [])
request_from is_head (f ∷ fs) s =
    let (out, fs') = request_from false fs s in
    elim (add_read_lock f.write_set) [
      | some w ↦
          if is_head
          then (serve_slice s ∷ [], f ∷ fs)
          else ([], record f { slice_delayed = f.slice_delayed ++ (s ∷ []) } ∷ fs)
      | none ↦ (out, f ∷ fs')
    ]

unfoldable pub request_db_slice : List Frontier → Slice → List Effect × List Frontier
request_db_slice fs s = request_from true fs s

-- `arts_close_frontier`: the head is sealed; the ranks that the iterator goes over.
unfoldable pub close_frontier : List Frontier → List ℕ × List Frontier
close_frontier [] = ([], [])
close_frontier (f ∷ fs) = (f.list, record f { write_set = true } ∷ fs)

abbrev pub has_ex : Frontier → Bool
has_ex f = not (f.ex_edt == 0) || not (f.ex_edt_guid == null_guid)

-- The ranks that get a copy: not this one, and not the writer.
unfoldable pub copies : (rank_id : ℕ) → Frontier → (ℕ → Effect) → List ℕ → List Effect
copies rank_id f send [] = []
copies rank_id f send (x ∷ xs) =
    let rest = copies rank_id f send xs in
    if not (x == rank_id) && not (has_ex f && (x == f.ex_node)) then send x ∷ rest else rest

abbrev pub satisfy_delayed : Delayed → Effect
satisfy_delayed d = satisfy_edt d.edt d.slot

-- `arts_signal_frontier_local`; `find_edt` is the lookup of an EDT's GUID in the route table.
unfoldable pub signal_frontier_local :
    (current_edt find_edt : ℕ → ℕ) → (rank_id : ℕ) → Frontier → List Effect
signal_frontier_local current_edt find_edt rank_id f =
    let guid = candidate_edt_guid current_edt f.ex_edt f.ex_edt_guid in
    let edt = (if f.ex_edt == 0 then find_edt guid else f.ex_edt) in
    let writer =
      (if not (has_ex f)
        then []
        else if f.ex_node == rank_id
        then (if edt == 0 then [] else satisfy_edt edt f.ex_slot ∷ [])
        else db_full_send_now f.ex_node guid f.ex_slot f.ex_mode ∷ []) in
    writer
    ++ (copies rank_id f db_send_now f.list
        ++ (map satisfy_delayed f.local_delayed ++ map serve_slice f.slice_delayed))

-- `arts_signal_frontier_remote`: the DB is fetched from rank `get_from`, which joins the list.
unfoldable pub signal_frontier_remote :
    (current_edt : ℕ → ℕ) → (rank_id get_from : ℕ) → Frontier → List Effect × Frontier
signal_frontier_remote current_edt rank_id get_from f =
    let guid = candidate_edt_guid current_edt f.ex_edt f.ex_edt_guid in
    let writer =
      (if not (has_ex f)
        then []
        else if f.ex_node == get_from
        then send_already_local get_from guid f.ex_slot f.ex_mode ∷ []
        else if not (f.ex_node == rank_id)
        then db_forward_full f.ex_node get_from guid f.ex_slot f.ex_mode ∷ []
        else db_full_request get_from guid f.ex_slot f.ex_mode ∷ []) in
    (
      writer
          ++ (copies rank_id f (λ x. db_forward x get_from) f.list
              ++ (map (λ d. db_request get_from d.edt d.slot d.mode) f.local_delayed
                  ++ map serve_slice f.slice_delayed)),
      record f { list = (push_db_to_element f.list get_from).1 },
    )

-- `arts_progress_frontier`
unfoldable pub progress_frontier :
    (current_edt find_edt : ℕ → ℕ)
    → (rank_id : ℕ) → List Frontier
    → (rank : ℕ) → List Effect × List Frontier
progress_frontier current_edt find_edt rank_id [] rank = ([], [])
progress_frontier current_edt find_edt rank_id (_ ∷ []) rank = ([], [])
progress_frontier current_edt find_edt rank_id (_ ∷ f ∷ fs) rank =
    if rank == rank_id
    then (signal_frontier_local current_edt find_edt rank_id f, f ∷ fs)
    else (let (out, f') = signal_frontier_remote current_edt rank_id rank f in (out, f' ∷ fs))
