-- ===== src/Recovery/Lifecycle/Laws.antt =====
-- What holds of a session over all sequences of calls.
use disc_rescue.Prelude.{
  ℕ, ◌≤◌, ◌≡◌, refl, Bool, true, false, List, [], ◌∷◌, ok, err, arith, Result-cases, inl, inr, All,
}
use disc_rescue.Recovery.Lifecycle.{
  JobState, starting, running, stop_requested, canceling_read, awaiting_force_stop, force_stopping,
  checkpointing, releasing_device, stopped, completed, failed, StopIntent, LifecycleError,
  Lifecycle, is_starting, is_running, is_awaiting, is_intent, new_lifecycle, begin_read,
  request_stop, complete_read, checkpointed, released, settled, Call, call, run_calls, call_start,
  call_grace_expired, call_force_stop, call_checkpointed, call_complete, call_fail, call_begin_read,
  call_complete_read, call_request_stop, call_released,
}

-- The states in which no read may begin any more.
abbrev pub IsClosed : Lifecycle → Type 0
IsClosed l = (is_starting l.state ≡ false) × (is_running l.state ≡ false)

call-IsClosed : (l : Lifecycle) (c : Call) → IsClosed l → IsClosed (settled l (call l c))
unfolding call
call-IsClosed l c k = ground arith

run_calls-IsClosed : (l : Lifecycle) (cs : List Call) → IsClosed l → IsClosed (run_calls l cs)
unfolding run_calls
run_calls-IsClosed l [] k = k
run_calls-IsClosed l (c ∷ cs) k = run_calls-IsClosed (settled l (call l c)) cs (call-IsClosed l c k)

request_stop-IsClosed :
    (l m : Lifecycle) (how : StopIntent) → request_stop l how ≡ ok m → IsClosed m
unfolding request_stop
request_stop-IsClosed l m how h = ground arith

begin_read-IsClosed :
    (l : Lifecycle) (id : ℕ) → IsClosed l → (e : LifecycleError) × (begin_read l id ≡ err e)
unfolding begin_read
begin_read-IsClosed l id k = elim (Result-cases (begin_read l id)) [
  | inl r ↦ r
  | inr (m, h) ↦ absurd (ground arith)
]

-- Once a stop was accepted, no sequence of calls lets another read begin.
pub begin_read_after_stop :
    (l m : Lifecycle) (how : StopIntent) (calls : List Call) (id : ℕ)
    → request_stop l how ≡ ok m
    → (e : LifecycleError) × (begin_read (run_calls m calls) id ≡ err e)
begin_read_after_stop l m how calls id h =
    begin_read-IsClosed (run_calls m calls) id
      (run_calls-IsClosed m calls (request_stop-IsClosed l m how h))

-- Escalation is offered in exactly one state.
abbrev pub IsForcible : Lifecycle → Type 0
IsForcible l = l.can_force ≡ is_awaiting l.state

call-IsForcible : (l : Lifecycle) (c : Call) → IsForcible l → IsForcible (settled l (call l c))
unfolding call
call-IsForcible l call_start k = ground arith
call-IsForcible l (call_begin_read id) k = ground arith
call-IsForcible l (call_request_stop how) k = ground arith
call-IsForcible l (call_complete_read id) k = ground arith
call-IsForcible l call_grace_expired k = ground arith
call-IsForcible l call_force_stop k = ground arith
call-IsForcible l call_checkpointed k = ground arith
call-IsForcible l call_complete k = ground arith
call-IsForcible l (call_released d) k = ground arith
call-IsForcible l call_fail k = ground arith

run_calls-IsForcible : (l : Lifecycle) (cs : List Call) → IsForcible l → IsForcible (run_calls l cs)
unfolding run_calls
run_calls-IsForcible l [] k = k
run_calls-IsForcible l (c ∷ cs) k =
    run_calls-IsForcible (settled l (call l c)) cs (call-IsForcible l c k)

-- In a session that starts anew, after any sequence of calls, `CanForceStop` holds in the state
-- awaiting_force_stop and in no other.
pub can_force-is_awaiting :
    (calls : List Call)
    → (run_calls new_lifecycle calls).can_force ≡ is_awaiting (run_calls new_lifecycle calls).state
unfolding new_lifecycle
can_force-is_awaiting calls = run_calls-IsForcible new_lifecycle calls refl

-- The order of the states.
abbrev pub state_rank : JobState → ℕ
state_rank starting = 0
state_rank running = 1
state_rank stop_requested = 2
state_rank canceling_read = 3
state_rank awaiting_force_stop = 4
state_rank force_stopping = 5
state_rank checkpointing = 6
state_rank releasing_device = 7
state_rank stopped = 8
state_rank completed = 8
state_rank failed = 9

abbrev pub NoStopRequest : Call → Type 0
NoStopRequest (call_request_stop how) = ⊥
NoStopRequest _ = Unit

call-rank :
    (l : Lifecycle) (c : Call)
    → NoStopRequest c
    → state_rank l.state ≤ state_rank (settled l (call l c)).state
unfolding call
call-rank l call_start k = ground arith
call-rank l (call_begin_read id) k = ground arith
call-rank l (call_request_stop how) k = absurd k
call-rank l (call_complete_read id) k = ground arith
call-rank l call_grace_expired k = ground arith
call-rank l call_force_stop k = ground arith
call-rank l call_checkpointed k = ground arith
call-rank l call_complete k = ground arith
call-rank l (call_released d) k = ground arith
call-rank l call_fail k = ground arith

-- A sequence of calls without a stop request never takes a session back to an earlier state.
pub run_calls-state_rank :
    (l : Lifecycle) (calls : List Call)
    → All NoStopRequest calls
    → state_rank l.state ≤ state_rank (run_calls l calls).state
unfolding run_calls
run_calls-state_rank l [] k = omega arith
run_calls-state_rank l (c ∷ cs) (k, ks) =
    let h = call-rank l c k in
    let t = run_calls-state_rank (settled l (call l c)) cs ks in omega arith

-- A stop request for a session that is releasing its device, with no read active, takes it back
-- to checkpointing, and the end of the release is then refused.
pub stop_during_release :
    (l : Lifecycle) (how : StopIntent) (done : Bool)
    → l.state ≡ releasing_device
    → l.active_read ≡ false
    → is_intent how ≡ true
    → (run_calls l (call_request_stop how ∷ call_released done ∷ [])).state ≡ checkpointing
unfolding run_calls call request_stop released
stop_during_release l how done s a i = ground (arith, s, a, i)

-- The calls that the code has for a device that does not answer.
abbrev pub IsPatient : Call → Type 0
IsPatient call_force_stop = ⊥
IsPatient call_fail = ⊥
IsPatient _ = Unit

call-awaiting :
    (l : Lifecycle) (c : Call)
    → IsPatient c
    → is_awaiting l.state ≡ true
    → is_awaiting (settled l (call l c)).state ≡ true
unfolding call
call-awaiting l call_start k a = ground arith
call-awaiting l (call_begin_read id) k a = ground arith
call-awaiting l (call_request_stop how) k a = ground arith
call-awaiting l (call_complete_read id) k a = ground arith
call-awaiting l call_grace_expired k a = ground arith
call-awaiting l call_force_stop k a = absurd k
call-awaiting l call_checkpointed k a = ground arith
call-awaiting l call_complete k a = ground arith
call-awaiting l (call_released d) k a = ground arith
call-awaiting l call_fail k a = absurd k

-- A session that awaits a forced stop stays so over every sequence of calls that neither forces
-- the stop nor fails the session, even when the active read completes.
pub awaiting_force_stop_stays :
    (l : Lifecycle) (calls : List Call)
    → All IsPatient calls
    → is_awaiting l.state ≡ true
    → is_awaiting (run_calls l calls).state ≡ true
unfolding run_calls
awaiting_force_stop_stays l [] k a = a
awaiting_force_stop_stays l (c ∷ cs) (k, ks) a =
    awaiting_force_stop_stays (settled l (call l c)) cs ks (call-awaiting l c k a)

-- A stop request for a running session with a read active, the end of that read, a checkpoint
-- and the release of the device, in this order, stop the session with no read active.
pub clean_stop :
    (l : Lifecycle) (how : StopIntent)
    → l.state ≡ running
    → l.active_read ≡ true
    → is_intent how ≡ true
    → let m = run_calls l (
        call_request_stop how
        ∷ call_complete_read l.last_request
        ∷ call_checkpointed
        ∷ call_released false
        ∷ []) in
      (m.state ≡ stopped) × (m.active_read ≡ false) × (m.stop_intent ≡ how)
unfolding run_calls call request_stop complete_read checkpointed released
clean_stop l how s a i = ground (arith, s, a, i)
