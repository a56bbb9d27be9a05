-- ===== src/Recovery/Lifecycle.antt =====
-- internal/recovery/lifecycle.go: the state machine of one recovery session. Every method holds
-- the mutex throughout, so that a session is a sequence of whole calls.
pub mod Laws
use disc_rescue.Prelude.{
  ℕ, Bool, true, false, ◌&&◌, ◌||◌, not, List, [], ◌∷◌, ◌==◌, if◌then◌else◌, Result, ok, err, guard,
  ◌>>=◌, ◌>>◌,
}

pub data JobState : Type 0 where
  starting running stop_requested canceling_read awaiting_force_stop force_stopping : JobState
  checkpointing releasing_device stopped completed failed : JobState

-- `StopIntent`, a string: the two constants, the empty string, and any other one.
pub data StopIntent : Type 0 where
  pause stop no_intent : StopIntent
  other_intent : ℕ → StopIntent

pub data LifecycleError : Type 0 where
  no_request_id bad_intent terminal wrong_request no_escalation already_active : LifecycleError
  wrong_state : JobState → LifecycleError

pub record Lifecycle : Type 0 where
  pub state : JobState
  pub stop_intent : StopIntent
  pub active_read : Bool
  pub can_force : Bool
  pub last_request : ℕ  -- uint64

-- The comparisons of the state with constants.
abbrev pub is_starting : JobState → Bool
is_starting starting = true
is_starting _ = false

abbrev pub is_running : JobState → Bool
is_running running = true
is_running _ = false

abbrev pub is_canceling : JobState → Bool
is_canceling canceling_read = true
is_canceling _ = false

abbrev pub is_awaiting : JobState → Bool
is_awaiting awaiting_force_stop = true
is_awaiting _ = false

abbrev pub is_releasing : JobState → Bool
is_releasing releasing_device = true
is_releasing _ = false

abbrev pub is_terminal : JobState → Bool
is_terminal stopped = true
is_terminal completed = true
is_terminal failed = true
is_terminal _ = false

abbrev pub is_stopping : JobState → Bool
is_stopping stop_requested = true
is_stopping canceling_read = true
is_stopping awaiting_force_stop = true
is_stopping force_stopping = true
is_stopping _ = false

abbrev pub may_checkpoint : JobState → Bool
may_checkpoint checkpointing = true
may_checkpoint force_stopping = true
may_checkpoint _ = false

abbrev pub is_intent : StopIntent → Bool
is_intent pause = true
is_intent stop = true
is_intent _ = false

unfoldable pub new_lifecycle : Lifecycle
new_lifecycle = record {
  state = starting;
  stop_intent = no_intent;
  active_read = false;
  can_force = false;
  last_request = 0;
}

unfoldable pub start : Lifecycle → Result LifecycleError Lifecycle
start l = do guard (is_starting l.state) (wrong_state l.state); ok (record l { state = running })

unfoldable pub begin_read : Lifecycle → ℕ → Result LifecycleError Lifecycle
begin_read l id = do
  guard (not (id == 0)) no_request_id
  guard (is_running l.state) (wrong_state l.state)
  guard (not l.active_read) already_active
  ok (record l { active_read = true; last_request = id })

unfoldable pub request_stop : Lifecycle → StopIntent → Result LifecycleError Lifecycle
request_stop l intent = do
  guard (is_intent intent) bad_intent
  guard (not (is_terminal l.state)) terminal
  ok (
      if is_stopping l.state then l else record l {
        stop_intent = intent;
        state = if l.active_read then canceling_read else checkpointing;
      })

-- The state and the last request after a read that completes.
abbrev pub after_read : JobState → JobState
after_read canceling_read = checkpointing
after_read force_stopping = checkpointing
after_read s = s

unfoldable pub complete_read : Lifecycle → ℕ → Result LifecycleError Lifecycle
complete_read l id = do
  guard (l.active_read && id == l.last_request) wrong_request
  ok (record l {
    active_read = false;
    state = after_read l.state;
    last_request = if is_running l.state then 0 else l.last_request;
  })

unfoldable pub grace_expired : Lifecycle → Result LifecycleError Lifecycle
grace_expired l = do
  guard (is_canceling l.state) (wrong_state l.state)
  ok (record l { state = awaiting_force_stop; can_force = true })

unfoldable pub force_stop : Lifecycle → Result LifecycleError Lifecycle
force_stop l = do
  guard (is_awaiting l.state && l.can_force) no_escalation
  ok (record l { state = force_stopping; can_force = false })

unfoldable pub checkpointed : Lifecycle → Result LifecycleError Lifecycle
checkpointed l = do
  guard (may_checkpoint l.state) (wrong_state l.state)
  ok (record l { state = releasing_device })

unfoldable pub complete : Lifecycle → Result LifecycleError Lifecycle
complete l = do
  guard (is_running l.state) (wrong_state l.state)
  ok (record l { state = checkpointing })

unfoldable pub released : Lifecycle → Bool → Result LifecycleError Lifecycle
released l done = do
  guard (is_releasing l.state) (wrong_state l.state)
  ok (record l { state = if done then completed else stopped })

unfoldable pub fail : Lifecycle → Lifecycle
fail l = record l { state = failed; can_force = false }

-- The methods that change the state, as calls.
pub data Call : Type 0 where
  call_start call_grace_expired call_force_stop call_checkpointed call_complete call_fail : Call
  call_begin_read call_complete_read : ℕ → Call
  call_request_stop : StopIntent → Call
  call_released : Bool → Call

unfoldable pub call : Lifecycle → Call → Result LifecycleError Lifecycle
unfolding start begin_read request_stop complete_read grace_expired force_stop checkpointed complete
    released fail
call l call_start = start l
call l (call_begin_read id) = begin_read l id
call l (call_request_stop intent) = request_stop l intent
call l (call_complete_read id) = complete_read l id
call l call_grace_expired = grace_expired l
call l call_force_stop = force_stop l
call l call_checkpointed = checkpointed l
call l call_complete = complete l
call l (call_released done) = released l done
call l call_fail = ok (fail l)

-- A call that fails leaves the session as it was.
abbrev pub settled : Lifecycle → Result LifecycleError Lifecycle → Lifecycle
settled l (ok m) = m
settled l (err e) = l

-- Any sequence of calls, whichever of them succeed.
unfoldable pub run_calls : Lifecycle → List Call → Lifecycle
unfolding call
run_calls l [] = l
run_calls l (c ∷ cs) = run_calls (settled l (call l c)) cs
