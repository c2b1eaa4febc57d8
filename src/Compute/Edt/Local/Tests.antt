-- ===== src/Compute/Edt/Local/Tests.antt =====
-- The epochs of an EDT at concrete inputs.
use arts.Prelude.{ℕ, ◌≡◌, refl, true, some, none, List, [], ◌∷◌, ◌++◌}
use arts.Compute.Edt.{Edt}
use arts.Compute.Edt.Local.{
  finished_shutdown_epoch, cleared, set_thread_local_edt_info, unset_thread_local_edt_info,
}
use arts.Compute.Edt.Local.Epochs.{finishes}
use arts.Compute.Edt.Local.Refine.{
  Op, enter, current, is_root, entered, epoch, root, run, list_run, list_step, first_epochs, epochs,
  IsValidList, edt_finishes-epochs,
}

-- An EDT that starts in epoch 50
abbrev task : Edt
task = record {
  size = 128;
  arts_id = 0;
  func_ptr = 1;
  depc = 0;
  current_edt = 99;
  output_buffer = 0;
  epoch_guid = 50;
  numa_domain = 0;
  depc_needed = 0;
  paramv = [];
  depv = [];
}

abbrev ops : List Op
ops = current ∷ enter 60 ∷ current ∷ is_root 50 ∷ []

abbrev garbage : ℕ → ℕ → ℕ
garbage n o = 13

edt_finishes-epochs_example :
    (let (replies, ran) = run garbage (set_thread_local_edt_info garbage cleared task) ops in
      let (replies', gs) = list_run (first_epochs task) ops in
      let (out, ended) = unset_thread_local_edt_info ran in
      (replies ≡ replies')
      × (out ≡ some (finishes gs ++ (finished_shutdown_epoch ∷ [])))
      × (epochs ended.epoch_list ≡ [])
      × (ended.current_edt ≡ none)
      × IsValidList ended.epoch_list)
edt_finishes-epochs_example = edt_finishes-epochs garbage cleared task ops tt

replies :
    (list_run (first_epochs task) ops).0
    ≡ epoch (some 50) ∷ entered true ∷ epoch (some 60) ∷ root (some true) ∷ []
unfolding list_run list_step
replies = refl
