-- ===== src/Examples/Sessions.antt =====
-- A trim pass over four damaged sectors, and a session that is stopped while it reads.
use disc_rescue.Prelude.{
  ◌+◌, ◌≡◌, refl, ◌<◌, ◌≤◌, ◌↔◌, true, false, [], ◌∷◌, none, some, arith, ok, err, All,
}
use disc_rescue.Mapfile.Extent.{validate, end_lba, validate_extent_set, validate_after}
use disc_rescue.Mapfile.State.{validate_state_confidence}
use disc_rescue.Recovery.Request.{Request, trim_pass}
use disc_rescue.Recovery.Trim.{
  TrimState, TrimDecision, left_cluster, start_trim_pass, dispatch_trim_pass, resolve_trim_pass,
  next_trim_pass_request, schedulable_trim_state,
}
use disc_rescue.Recovery.Trim.Laws.{
  IsRunning, Started, Dispatched, reads_left, start_trim_pass-IsRunning,
  dispatch_trim_pass-Dispatched, resolve_trim_pass-IsRunning,
}
use disc_rescue.Recovery.Lifecycle.{
  Lifecycle, LifecycleError, running, checkpointing, canceling_read, awaiting_force_stop,
  releasing_device, stop, pause, no_intent, is_awaiting, begin_read, request_stop, run_calls,
  call_start, call_request_stop, call_complete_read, call_checkpointed, call_released,
}
use disc_rescue.Recovery.Lifecycle.Laws.{
  begin_read_after_stop, state_rank, run_calls-state_rank, awaiting_force_stop_stays,
  stop_during_release,
}
use disc_rescue.Recovery.Outcome.{OutcomeInput, OutcomeResult, evaluate_outcome}
use disc_rescue.Recovery.Outcome.Laws.{
  IsProven, evaluate_outcome-total_sectors, evaluate_outcome-fully_verified,
}
use disc_rescue.Examples.Maps.{bad_part, bad_part-IsValid}
use disc_rescue.Recovery.Trim.{right_single, mode_done}
use disc_rescue.Recovery.Trim.Run.{run_trim, run_trim_ends}
use disc_rescue.Prelude.{Bool, List, length}

abbrev first_request : Request
first_request = trim_pass 4 2

abbrev fresh_pass : TrimState
fresh_pass = record {
  target = bad_part;
  small_cluster = 2;
  failure_budget = 3;
  left_cursor = 4;
  right_cursor = 8;
  mode = left_cluster;
  active_request = none;
  left_failure_streak = 0;
  right_failure_streak = 0;
}

abbrev reading_pass : TrimState
reading_pass = record fresh_pass { active_request = some first_request }

fresh_pass-IsRunning : IsRunning fresh_pass
fresh_pass-IsRunning = record {
  target_valid = bad_part-IsValid;
  cluster_set = omega arith;
  budget_set = omega arith;
  budget_fits = omega arith;
  narrow = omega arith;
  left_in = omega arith;
  right_in = omega arith;
  ordered = omega arith;
  left_streak = omega arith;
  right_streak = omega arith;
  requested = tt;
}

reading_pass-IsRunning : IsRunning reading_pass
unfolding next_trim_pass_request
reading_pass-IsRunning = record {
  target_valid = bad_part-IsValid;
  cluster_set = omega arith;
  budget_set = omega arith;
  budget_fits = omega arith;
  narrow = omega arith;
  left_in = omega arith;
  right_in = omega arith;
  ordered = omega arith;
  left_streak = omega arith;
  right_streak = omega arith;
  requested = refl;
}

start_bad_part : start_trim_pass bad_part 2 3 ≡ ok fresh_pass
unfolding start_trim_pass validate end_lba schedulable_trim_state validate_state_confidence
start_bad_part = refl

start_trim_pass-IsRunning_example : Started bad_part 3 fresh_pass
start_trim_pass-IsRunning_example =
    start_trim_pass-IsRunning bad_part 2 3 fresh_pass (omega arith) (omega arith) start_bad_part

dispatch_trim_pass-Dispatched_example :
    (d : TrimState × TrimDecision) × (dispatch_trim_pass fresh_pass true ≡ ok d)
    × Dispatched fresh_pass d
dispatch_trim_pass-Dispatched_example =
    dispatch_trim_pass-Dispatched fresh_pass true fresh_pass-IsRunning refl

resolve_trim_pass-IsRunning_example :
    (t : TrimState) × (resolve_trim_pass reading_pass
        (record { request = first_request; success = false })
      ≡ ok t)
    × IsRunning t
    × (reads_left t < reads_left reading_pass)
resolve_trim_pass-IsRunning_example =
    resolve_trim_pass-IsRunning reading_pass first_request false reading_pass-IsRunning refl

-- One sector is left, at the right end.
abbrev last_pass : TrimState
last_pass = record fresh_pass { failure_budget = 1; left_cursor = 7; mode = right_single }

last_pass-IsRunning : IsRunning last_pass
last_pass-IsRunning = record {
  target_valid = bad_part-IsValid;
  cluster_set = omega arith;
  budget_set = omega arith;
  budget_fits = omega arith;
  narrow = omega arith;
  left_in = omega arith;
  right_in = omega arith;
  ordered = omega arith;
  left_streak = omega arith;
  right_streak = omega arith;
  requested = tt;
}

abbrev six_failures : List Bool
six_failures = false ∷ false ∷ false ∷ false ∷ false ∷ false ∷ []

few_reads : reads_left last_pass < length six_failures
unfolding reads_left
few_reads = omega arith

run_trim_ends_example :
    (t : TrimState) × (run_trim last_pass six_failures ≡ ok t) × (t.mode ≡ mode_done)
run_trim_ends_example = run_trim_ends last_pass six_failures last_pass-IsRunning refl few_reads

-- A session with request 5 at the device.
abbrev reading_session : Lifecycle
reading_session = record {
  state = running;
  stop_intent = no_intent;
  active_read = true;
  can_force = false;
  last_request = 5;
}

abbrev waiting_session : Lifecycle
waiting_session = record reading_session { state = awaiting_force_stop; can_force = true }

abbrev releasing_session : Lifecycle
releasing_session = record reading_session { state = releasing_device; active_read = false }

stop_reading :
    request_stop reading_session stop
    ≡ ok (record reading_session { stop_intent = stop; state = canceling_read })
unfolding request_stop
stop_reading = refl

begin_read_after_stop_example :
    (e : LifecycleError) × (begin_read
        (run_calls
          (record reading_session { stop_intent = stop; state = canceling_read })
          (call_complete_read 5 ∷ call_start ∷ []))
        6
      ≡ err e)
begin_read_after_stop_example =
    begin_read_after_stop reading_session
      (record reading_session { stop_intent = stop; state = canceling_read }) stop
      (call_complete_read 5 ∷ call_start ∷ []) 6 stop_reading

run_calls-state_rank_example :
    state_rank running ≤ state_rank (run_calls reading_session (call_complete_read 5 ∷ [])).state
run_calls-state_rank_example =
    run_calls-state_rank reading_session (call_complete_read 5 ∷ []) (tt, tt)

awaiting_force_stop_stays_example :
    is_awaiting (run_calls waiting_session (call_complete_read 5 ∷ call_checkpointed ∷ [])).state
    ≡ true
awaiting_force_stop_stays_example =
    awaiting_force_stop_stays waiting_session (call_complete_read 5 ∷ call_checkpointed ∷ [])
      (tt, (tt, tt)) refl

stop_during_release_example :
    (run_calls releasing_session (call_request_stop pause ∷ call_released false ∷ [])).state
    ≡ checkpointing
stop_during_release_example = stop_during_release releasing_session pause false refl refl refl

abbrev bad_session : OutcomeInput
bad_session = record {
  extents = bad_part ∷ [];
  accept_unverified_by_policy = false;
  passes_exhausted = true;
  scheduling_stopped = false;
  valid_image_map_pair = true;
}

bad_extents_valid : validate_extent_set (bad_part ∷ []) ≡ ok tt
unfolding validate_extent_set validate validate_after validate_state_confidence
bad_extents_valid = refl

evaluate_outcome-total_sectors_example :
    (r : OutcomeResult) × (evaluate_outcome bad_session ≡ ok r)
    × (r.verified_sectors + r.reconstructed_sectors + r.accepted_unverified_sectors
          + r.unresolved_sectors
        ≡ 4)
evaluate_outcome-total_sectors_example =
    evaluate_outcome-total_sectors bad_session bad_extents_valid refl

evaluate_outcome-fully_verified_example :
    (r : OutcomeResult) × (evaluate_outcome bad_session ≡ ok r)
    × ((r.fully_verified ≡ true) ↔ All IsProven (bad_part ∷ []))
evaluate_outcome-fully_verified_example =
    evaluate_outcome-fully_verified bad_session bad_extents_valid refl
