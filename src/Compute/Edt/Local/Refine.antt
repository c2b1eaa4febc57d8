-- ===== src/Compute/Edt/Local/Refine.antt =====
-- The epochs of a worker's EDT, from its start to its end: edt.c keeps the list of those it has entered.
use arts.Prelude.{
  ℕ, suc, ◌-◌, ◌≡◌, arith, Bool, true, false, ltb, ◌==◌, if◌then◌else◌, Bool-cases, ==→eq, ==→ne,
  Option, none, some, inl, inr, List, [], ◌∷◌, ◌++◌, refl, sym, ap, ap₂, ◌∙◌,
}
use arts.Compute.Edt.{Edt}
use arts.Compute.Edt.Local.{
  Local, finished_shutdown_epoch, set_current_epoch_guid, get_current_epoch_guid,
  check_epoch_is_root, set_thread_local_edt_info, unset_thread_local_edt_info,
  increment_finished_epoch_list, list_or, last_epoch, search_list, finish_list, with_shutdown,
  reset_list, finish_from, is_some, enter_epoch, max_epoch_array_list,
}
use arts.Compute.Edt.Local.Epochs.{
  contents, listed, finishes, member, contents-push, fetch-get, get-IsValid, finish_from_lem,
  search_lem, last_or, last_or-contents, get-Same, contents-Same,
}
use arts.Utils.ArrayList.{ArrayList, new, push, get, reset}
use arts.Utils.ArrayList.Refine.{IsValid, new-IsValid, reset-IsValid}

-- What an EDT does with its epochs
pub data Op : Type 0 where
  enter : (epoch_guid : ℕ) → Op
  current : Op
  is_root : (epoch_guid : ℕ) → Op

-- What it gets for it; `none` would be a read through NULL.
pub data Reply : Type 0 where
  entered : Bool → Reply
  epoch : Option ℕ → Reply
  root : Option Bool → Reply

unfoldable pub step : (memory : ℕ → ℕ → ℕ) → Local → Op → Reply × Local
step memory l (enter g) = let (r, l') = set_current_epoch_guid memory l g in (entered r, l')
step memory l current = let (g, l') = get_current_epoch_guid l in (epoch g, l')
step memory l (is_root g) = let (r, l') = check_epoch_is_root l g in (root r, l')

unfoldable pub run : (memory : ℕ → ℕ → ℕ) → Local → List Op → List Reply × Local
run memory l [] = ([], l)
run memory l (op ∷ ops) =
    let (r, l') = step memory l op in let (rs, l'') = run memory l' ops in (r ∷ rs, l'')

-- The same on the list of the epochs that have been entered
unfoldable pub list_step : List ℕ → Op → Reply × List ℕ
list_step gs (enter g) = if g == 0 then (entered false, gs) else (entered true, gs ++ (g ∷ []))
list_step gs current = (epoch (some (last_or 0 gs)), gs)
list_step gs (is_root g) = (root (some (member g gs)), gs)

unfoldable pub list_run : List ℕ → List Op → List Reply × List ℕ
list_run gs [] = ([], gs)
list_run gs (op ∷ ops) =
    let (r, gs') = list_step gs op in let (rs, gs'') = list_run gs' ops in (r ∷ rs, gs'')

-- A list that is NULL or well-formed
abbrev pub IsValidList : Option ArrayList → Type 0
IsValidList none = Unit
IsValidList (some a) = IsValid a

abbrev pub epochs : Option ArrayList → List ℕ
epochs none = []
epochs (some a) = contents a

-- A running EDT whose epochs are `gs`
record Runs (l : Local) (gs : List ℕ) : Type 0 where
  valid : IsValidList l.epoch_list
  listed_as : epochs l.epoch_list ≡ gs
  running : is_some l.current_edt ≡ true

-- A list after a push
pushed :
    (memory : ℕ → ℕ → ℕ) (o : Option ArrayList) (g : ℕ)
    → IsValidList o
    → (contents (push (list_or 8 memory o) g).1 ≡ epochs o ++ (g ∷ []))
      × IsValid (push (list_or 8 memory o) g).1
unfolding list_or new
pushed memory none g ok = contents-push (new 8 memory) g (new-IsValid 8 memory (omega arith))
pushed memory (some a) g ok = contents-push a g ok

still_some : (g : ℕ) (o : Option Edt) → is_some (enter_epoch g o) ≡ is_some o
unfolding is_some enter_epoch
still_some g none = refl
still_some g (some e) = refl

last_epoch_lem :
    (o : Option ArrayList)
    → IsValidList o
    → ((last_epoch o).0 ≡ some (last_or 0 (epochs o)))
      × (epochs (last_epoch o).1 ≡ epochs o)
      × IsValidList (last_epoch o).1
unfolding last_epoch
last_epoch_lem none ok = (refl, refl, tt)
last_epoch_lem (some a) ok = elim (Bool-cases (a.index == 0)) [
  | inl empty ↦
      let e = ==→eq a.index 0 empty in
      rw empty (ap (λ n. some (last_or 0 (listed a 0 n))) (sym e), refl, ok)
  | inr full ↦
      let n = a.index - 1 in
      let e = ==→ne a.index 0 full in
      let pos : a.index ≡ suc n = omega (arith, e) in
      rw (full, fetch-get a n ok (omega (arith, pos)))
        (
          ap some (sym (last_or-contents a n pos)),
          contents-Same a (get a n).1 (get-Same a n ok),
          get-IsValid a n ok,
        )
]

search_list_lem :
    (o : Option ArrayList) (c : ℕ)
    → IsValidList o
    → ((search_list o c).0 ≡ some (member c (epochs o)))
      × (epochs (search_list o c).1 ≡ epochs o)
      × IsValidList (search_list o c).1
unfolding search_list
search_list_lem none c ok = (refl, refl, tt)
search_list_lem (some a) c ok =
    let (found, same, valid) = search_lem a.index a 0 c ok (omega arith) in
    (found, contents-Same a _ same, valid)

step-Runs :
    (memory : ℕ → ℕ → ℕ) (l : Local) (gs : List ℕ) (op : Op)
    → Runs l gs
    → ((step memory l op).0 ≡ (list_step gs op).0) × Runs (step memory l op).1 (list_step gs op).1
unfolding step list_step set_current_epoch_guid get_current_epoch_guid check_epoch_is_root
step-Runs memory l gs (enter g) r = elim (Bool-cases (g == 0)) [
  | inl null ↦ rw null (refl, r)
  | inr real ↦
      let (as_list, valid) = pushed memory l.epoch_list g r.valid in
      rw real (
        ap entered r.running,
        record {
          valid = valid;
          listed_as = as_list ∙ ap (λ l. l ++ (g ∷ [])) r.listed_as;
          running = still_some g l.current_edt ∙ r.running;
        },
      )
]
step-Runs memory l gs current r =
    let (out, as_list, valid) = last_epoch_lem l.epoch_list r.valid in
    (
      ap epoch (out ∙ ap (λ l. some (last_or 0 l)) r.listed_as),
      record { valid = valid; listed_as = as_list ∙ r.listed_as; running = r.running },
    )
step-Runs memory l gs (is_root c) r =
    let (out, as_list, valid) = search_list_lem l.epoch_list c r.valid in
    (
      ap root (out ∙ ap (λ l. some (member c l)) r.listed_as),
      record { valid = valid; listed_as = as_list ∙ r.listed_as; running = r.running },
    )

run-Runs :
    (memory : ℕ → ℕ → ℕ) (l : Local) (gs : List ℕ) (ops : List Op)
    → Runs l gs
    → ((run memory l ops).0 ≡ (list_run gs ops).0) × Runs (run memory l ops).1 (list_run gs ops).1
unfolding run list_run
run-Runs memory l gs [] r = (refl, r)
run-Runs memory l gs (op ∷ ops) r =
    let (now, r') = step-Runs memory l gs op r in
    let (later, r'') = run-Runs memory (step memory l op).1 (list_step gs op).1 ops r' in
    (ap₂ ◌∷◌ now later, r'')

reset_list-IsValid : (o : Option ArrayList) → IsValidList o → IsValidList (reset_list o)
unfolding reset_list
reset_list-IsValid none ok = tt
reset_list-IsValid (some a) ok = reset-IsValid a ok

epochs-reset_list : (o : Option ArrayList) → epochs (reset_list o) ≡ []
unfolding reset_list reset
epochs-reset_list none = refl
epochs-reset_list (some a) = refl

-- The epoch that an EDT starts in
abbrev pub first_epochs : Edt → List ℕ
first_epochs e = if e.epoch_guid == 0 then [] else e.epoch_guid ∷ []

set-null :
    (memory : ℕ → ℕ → ℕ) (l : Local) (g : ℕ)
    → (g == 0) ≡ true
    → set_current_epoch_guid memory l g ≡ (false, l)
unfolding set_current_epoch_guid
set-null memory l g null = simp null

set-real :
    (memory : ℕ → ℕ → ℕ) (l : Local) (g : ℕ)
    → (g == 0) ≡ false
    → set_current_epoch_guid memory l g ≡ (
      is_some l.current_edt,
      record l {
        epoch_list = some (push (list_or 8 memory l.epoch_list) g).1;
        current_edt = enter_epoch g l.current_edt;
      },
    )
unfolding set_current_epoch_guid
set-real memory l g real = simp real

start-Runs :
    (memory : ℕ → ℕ → ℕ) (l : Local) (e : Edt)
    → IsValidList l.epoch_list
    → Runs (set_thread_local_edt_info memory l e) (first_epochs e)
unfolding set_thread_local_edt_info is_some
start-Runs memory l e ok =
    let ok' = reset_list-IsValid l.epoch_list ok in
    let fresh : Local = record {
      current_edt_guid = e.current_edt;
      current_edt = some e;
      epoch_list = reset_list l.epoch_list;
      created_db_list = reset_list l.created_db_list;
    } in
    let out : Runs (set_current_epoch_guid memory fresh e.epoch_guid).1 (first_epochs e) =
      elim (Bool-cases (e.epoch_guid == 0)) [
        | inl null ↦
            let r : Runs fresh [] = record {
              valid = ok';
              listed_as = epochs-reset_list l.epoch_list;
              running = refl;
            } in
            rw (set-null memory fresh e.epoch_guid null, null) r
        | inr real ↦
            let (as_list, valid) = pushed memory (reset_list l.epoch_list) e.epoch_guid ok' in
            rw (set-real memory fresh e.epoch_guid real, real)
              (record {
                valid = valid;
                listed_as =
                    as_list ∙ ap (λ gs. gs ++ (e.epoch_guid ∷ [])) (epochs-reset_list l.epoch_list);
                running = still_some e.epoch_guid (some e);
              })
      ] in
    out

finish_list_lem :
    (o : Option ArrayList)
    → IsValidList o
    → ((finish_list o).0 ≡ some (finishes (epochs o)))
      × (epochs (finish_list o).1 ≡ [])
      × IsValidList (finish_list o).1
unfolding finish_list reset reset_list
finish_list_lem none ok = (refl, refl, tt)
finish_list_lem (some a) ok =
    let (out, valid) = finish_from_lem a.index a 0 ok (omega arith) in
    elim (Bool-cases (ltb max_epoch_array_list a.index)) [
      | inl long ↦ rw long (out, refl, tt)
      | inr short ↦ rw short (
        out,
        epochs-reset_list (some (finish_from a.index a 0).1),
        reset-IsValid (finish_from a.index a 0).1 valid,
      )
    ]

-- A worker whose epoch list is NULL or well-formed takes an EDT, which enters epochs, asks for its
-- current epoch and for roots in any order, and ends: no read goes through NULL, the answers are those
-- of the list of the epochs entered, from the EDT's own on; at the end each of them is finished once,
-- in the order of entry, and then the shutdown epoch; the list that is left is empty or NULL, and
-- well-formed for the next EDT.
pub edt_finishes-epochs :
    (memory : ℕ → ℕ → ℕ) (l : Local) (e : Edt) (ops : List Op)
    → IsValidList l.epoch_list
    → (let (replies, ran) = run memory (set_thread_local_edt_info memory l e) ops in
        let (replies', gs) = list_run (first_epochs e) ops in
        let (out, ended) = unset_thread_local_edt_info ran in
        (replies ≡ replies')
        × (out ≡ some (finishes gs ++ (finished_shutdown_epoch ∷ [])))
        × (epochs ended.epoch_list ≡ [])
        × (ended.current_edt ≡ none)
        × IsValidList ended.epoch_list)
unfolding unset_thread_local_edt_info increment_finished_epoch_list with_shutdown
edt_finishes-epochs memory l e ops ok =
    let (same, r) =
      run-Runs memory (set_thread_local_edt_info memory l e) (first_epochs e) ops
        (start-Runs memory l e ok) in
    let (out, empty, valid) =
      finish_list_lem (run memory (set_thread_local_edt_info memory l e) ops).1.epoch_list
        r.valid in
    (same, ap with_shutdown (out ∙ ap (λ gs. some (finishes gs)) r.listed_as), empty, refl, valid)
