-- ===== src/Compute/Edt/Arrive/Tests.antt =====
-- The theorems on the messages for an EDT with a reserved GUID at concrete inputs.
use arts.Prelude.{ℕ, ◌≤◌, ◌<◌, ◌≡◌, refl, arith, true, false, some, List, [], ◌∷◌, length}
use arts.Compute.Edt.{
  Edt, Signal, Metadata, blank, db_null, db_ro, db_value, is_null, signal, set_dep_metadata,
  at_slot, write_signal, write_metadata, stored_ptr, is_ptr,
}
use arts.Compute.Edt.Arrive.{
  sig, meta, done, Event, message, queued, enters, fires, replays, unseals, step, run, reserved,
  deliver, apply, enqueue, enter, fire, replay, unseal, defer, count_ready, absent,
}
use arts.Compute.Edt.Arrive.Once.{issued, waiting, run_ready_once}
use arts.Compute.Edt.Arrive.Finish.{AllLock, steps_left, run_becomes_ready}
use arts.Compute.Edt.Arrive.Slots.{counted, held_back}
use arts.Compute.Edt.Arrive.Slot.{dep_of}
use arts.Compute.Edt.Arrive.Data.{HasNote, metadata_to, run_ready_data, run_keeps_metadata}

-- An EDT with two slots
abbrev task : Edt
task = record {
  size = 512;
  arts_id = 7;
  func_ptr = 1;
  depc = 2;
  current_edt = 99;
  output_buffer = 0;
  epoch_guid = 0;
  numa_domain = 0;
  depc_needed = 2;
  paramv = [];
  depv = blank ∷ blank ∷ [];
}

abbrev first : Signal
first = record { slot = 0; data_guid = 500; mode = db_null; flags = 0; ptr = 0; size = 0; copy = 0 }

abbrev second : Signal
second = record {
  slot = 1;
  data_guid = 42;
  mode = db_value;
  flags = 0;
  ptr = 0;
  size = 0;
  copy = 0;
}

abbrev note : Metadata
note = record { slot = 0; mode = db_ro; flags = 1; slice_offset = 16; slice_size = 8 }

-- The first signal comes before the EDT, the metadata after it, the second while the queue is
-- replayed.
abbrev mixed : List Event
mixed =
    message (sig first)
    ∷ queued 0 true
    ∷ enters
    ∷ message (meta note)
    ∷ fires true
    ∷ message (sig second)
    ∷ replays
    ∷ unseals
    ∷ []

-- Both signals have missed the EDT when it enters; nothing is done about them yet.
abbrev early : List Event
early = message (sig first) ∷ message (sig second) ∷ enters ∷ []

run_ready_once_example :
    (let n = run task 2 reserved mixed in
      (n.ready ≤ 1)
      × (n.ready ≡ 1 → (n.stage ≡ done) × (issued mixed ≡ 2) × (waiting n ≡ 0))
      × (n.stage ≡ done → issued mixed ≡ 2 → waiting n ≡ 0 → n.ready ≡ 1))
run_ready_once_example = run_ready_once task 2 mixed (omega arith) (omega arith)

mixed_ready : (run task 2 reserved mixed).ready ≡ 1
unfolding run step deliver apply enqueue enter fire replay unseal defer count_ready absent signal
    set_dep_metadata at_slot is_ptr
mixed_ready = refl

run_becomes_ready_example :
    (let n = run task 2 reserved early in
      (ys : List Event) × (issued ys ≡ 0)
      × AllLock ys
      × (length ys ≤ steps_left n)
      × ((run task 2 n ys).ready ≡ 1))
run_becomes_ready_example =
    run_becomes_ready task 2 early (omega arith) (omega arith) (tt, (tt, (tt, tt)))

early_left : steps_left (run task 2 reserved early) ≡ 6
unfolding run step deliver enter
early_left = refl

run_ready_data_example :
    (x : Edt) × ((run task 2 reserved mixed).entry ≡ some x) × (◌≡◌ {A = ℕ} ((dep_of x 1).guid) 42)
run_ready_data_example =
    run_ready_data task 2 1 mixed 42 (omega arith) (refl, refl) (omega arith) (omega arith)
      ((λ h. absurd (omega (arith, h))), (tt, ((λ h. refl), tt))) (omega arith) mixed_ready

mixed_reached :
    held_back (metadata_to 0) (run task 2 reserved mixed) < counted (metadata_to 0) mixed
unfolding run step deliver apply enqueue enter fire replay unseal defer count_ready absent signal
    set_dep_metadata at_slot is_ptr
mixed_reached = omega arith

-- The EDT that the run leaves
abbrev task_after : Edt
task_after = record task {
  depc_needed = 0;
  depv =
      record { guid = 500; ptr = 0; mode = db_ro; flags = 1; slice_offset = 16; slice_size = 8 }
      ∷ record { guid = 42; ptr = 0; mode = db_value; flags = 0; slice_offset = 0; slice_size = 0 }
      ∷ [];
}

mixed_entry : (run task 2 reserved mixed).entry ≡ some task_after
unfolding run step deliver apply enqueue enter fire replay unseal defer count_ready absent signal
    set_dep_metadata at_slot is_ptr is_null write_signal write_metadata stored_ptr
mixed_entry = refl

is_null_first : is_null first.mode ≡ true
unfolding is_null
is_null_first = refl

run_keeps_metadata_example : HasNote note (dep_of task_after 0)
run_keeps_metadata_example =
    run_keeps_metadata task 2 0 mixed note task_after (omega arith) (refl, refl) (omega arith)
      (omega arith)
      ((λ h. (is_null_first, refl)), ((λ h. refl), ((λ h. absurd (omega (arith, h))), tt)))
      mixed_reached mixed_entry

-- The creator gives up the firing: the first signal stays in the list, and the EDT is never ready.
abbrev given_up : List Event
given_up =
    message (sig first) ∷ queued 0 true ∷ enters ∷ fires false ∷ message (sig second) ∷ unseals ∷ []

given_up_waits :
    (let n = run task 2 reserved given_up in
      (n.stage ≡ done) × (issued given_up ≡ 2) × (waiting n ≡ 1) × (n.ready ≡ 0))
unfolding run step deliver apply enqueue enter fire replay unseal defer count_ready absent signal
    set_dep_metadata at_slot is_ptr
given_up_waits = (refl, refl, refl, refl)
