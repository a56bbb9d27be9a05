-- ===== src/Recovery/Trim/Laws.antt =====
-- The trim pass stays inside its target and ends.
use disc_rescue.Prelude.{
  ℕ, ◌+◌, ◌-◌, ◌*◌, ◌^◌, ◌≤◌, ◌<◌, ◌≡◌, refl, sym, subst, ◌⊎◌, inl, inr, Bool, true, false, not,
  Bool-cases, if◌then◌else◌, guard-eq-ok, ◌==◌, Option, none, some, arith, Result, ok, err, ◌>>◌,
}
use disc_rescue.Mapfile.Extent.{Extent, MapError, end_lba, validate}
use disc_rescue.Mapfile.Valid.{IsValid, stop, end_lba-eq-stop, validate→IsValid, IsValid→validate}
use disc_rescue.Recovery.Request.{Request, request_eq}
use disc_rescue.Recovery.Trim.{
  TrimMode, left_cluster, left_single, right_cluster, right_single, mode_done, TrimState,
  TrimDecision, read, done, wait_backpressure, other_mode, resolve_in, finish_or_continue_trim,
  next_right_mode, next_trim_pass_request, start_trim_pass, dispatch_trim_pass, resolve_trim_pass,
  schedulable_trim_state, dispatched, is_done, lift_target, TrimError, not_unresolved, no_cluster,
  no_budget,
}

-- A request for at least one sector, between the cursors.
abbrev pub Inside : TrimState → Request → Type 0
Inside s r =
    (0 < r.sectors) × (s.left_cursor ≤ r.start_lba) × (r.start_lba + r.sectors ≤ s.right_cursor)

-- The active request is the one that the cursors and the mode call for.
abbrev pub Matches : TrimState → Option Request → Type 0
Matches s none = Unit
Matches s (some r) = next_trim_pass_request s ≡ some r

pub record IsRunning (s : TrimState) : Type 0 where
  pub target_valid : IsValid s.target
  pub cluster_set : 0 < s.small_cluster
  pub budget_set : 0 < s.failure_budget
  pub budget_fits : s.failure_budget < 2 ^ 16
  pub narrow : s.target.sectors < 2 ^ 32
  pub left_in : s.target.start_lba ≤ s.left_cursor
  pub right_in : s.right_cursor ≤ stop s.target
  pub ordered : s.left_cursor ≤ s.right_cursor
  pub left_streak : s.left_failure_streak < s.failure_budget
  pub right_streak : s.right_failure_streak < s.failure_budget
  pub requested : Matches s s.active_request

pub next_trim_pass_request-Inside :
    (s : TrimState) (r : Request) → IsRunning s → next_trim_pass_request s ≡ some r → Inside s r
unfolding next_trim_pass_request
next_trim_pass_request-Inside s r v h = ground arith

-- How many more reads the pass can make at most, in terms of its budget.
abbrev pub mode_rank : TrimMode → ℕ
mode_rank left_cluster = 4
mode_rank left_single = 3
mode_rank right_cluster = 2
mode_rank right_single = 1
mode_rank _ = 0

abbrev pub patience : TrimMode → TrimState → ℕ
patience left_single s = s.failure_budget - s.left_failure_streak
patience right_single s = s.failure_budget - s.right_failure_streak
patience _ s = 0

unfoldable pub reads_left : TrimState → ℕ
reads_left s =
    (mode_rank s.mode + (s.right_cursor - s.left_cursor)) * (s.failure_budget + 1)
    + patience s.mode s

packed_lt :
    (a a' b p p' : ℕ)
    → ((a' < a) × (p' ≤ b)) ⊎ ((a' ≤ a) × (p' < p))
    → a' * (b + 1) + p' < a * (b + 1) + p
packed_lt a a' b p p' (inl (h, k)) = grind arith
packed_lt a a' b p p' (inr (h, k)) = grind arith

-- The mode with the width falls, or stays while the patience falls.
abbrev Falls : TrimState → TrimState → Type 0
Falls s t =
    let a = mode_rank s.mode + (s.right_cursor - s.left_cursor) in
    let a' = mode_rank t.mode + (t.right_cursor - t.left_cursor) in
    (t.failure_budget ≡ s.failure_budget)
    × (((a' < a) × (patience t.mode t ≤ s.failure_budget))
        ⊎ ((a' ≤ a) × (patience t.mode t < patience s.mode s)))

-- The state that the request is resolved in.
abbrev rest : TrimState → TrimState
rest s = record s { active_request = none }

module _ (s t : TrimState) (r : Request) (v : IsRunning s)
    (n : next_trim_pass_request s ≡ some r) where
  resolve_in-Falls :
      (m : TrimMode) (success : Bool)
      → s.mode ≡ m
      → resolve_in m (rest s) r success ≡ ok t
      → Falls s t
  unfolding next_trim_pass_request finish_or_continue_trim next_right_mode
  resolve_in-Falls left_cluster true e h = ground (arith, v.target_valid.bounded)
  resolve_in-Falls left_cluster false e h = ground (arith, v.target_valid.bounded)
  resolve_in-Falls left_single true e h = ground (arith, v.target_valid.bounded)
  resolve_in-Falls left_single false e h = ground (arith, v.target_valid.bounded)
  resolve_in-Falls right_cluster true e h = ground (arith, v.target_valid.bounded)
  resolve_in-Falls right_cluster false e h = ground (arith, v.target_valid.bounded)
  resolve_in-Falls right_single true e h = ground (arith, v.target_valid.bounded)
  resolve_in-Falls right_single false e h = ground (arith, v.target_valid.bounded)
  resolve_in-Falls mode_done b e h = cc
  resolve_in-Falls (other_mode k) b e h = cc

  resolve_in-IsRunning :
      (m : TrimMode) (success : Bool)
      → s.mode ≡ m
      → resolve_in m (rest s) r success ≡ ok t
      → IsRunning t
  unfolding next_trim_pass_request finish_or_continue_trim next_right_mode
  resolve_in-IsRunning left_cluster true e h = ground (arith, v.target_valid.bounded)
  resolve_in-IsRunning left_cluster false e h = ground (arith, v.target_valid.bounded)
  resolve_in-IsRunning left_single true e h = ground (arith, v.target_valid.bounded)
  resolve_in-IsRunning left_single false e h = ground (arith, v.target_valid.bounded)
  resolve_in-IsRunning right_cluster true e h = ground (arith, v.target_valid.bounded)
  resolve_in-IsRunning right_cluster false e h = ground (arith, v.target_valid.bounded)
  resolve_in-IsRunning right_single true e h = ground (arith, v.target_valid.bounded)
  resolve_in-IsRunning right_single false e h = ground (arith, v.target_valid.bounded)
  resolve_in-IsRunning mode_done b e h = cc
  resolve_in-IsRunning (other_mode k) b e h = cc

-- The modes that read.
abbrev reads_in : TrimMode → Bool
reads_in mode_done = false
reads_in (other_mode n) = false
reads_in _ = true

active_mode :
    (s : TrimState) (r : Request) → next_trim_pass_request s ≡ some r → reads_in s.mode ≡ true
unfolding next_trim_pass_request
active_mode s r n = ground arith

resolve_in_total :
    (m : TrimMode) (s : TrimState) (r : Request) (success : Bool)
    → reads_in m ≡ true
    → (t : TrimState) × (resolve_in m (rest s) r success ≡ ok t)
resolve_in_total left_cluster s r true h = (_, refl)
resolve_in_total left_cluster s r false h = (_, refl)
resolve_in_total left_single s r true h = (_, refl)
resolve_in_total left_single s r false h = (_, refl)
resolve_in_total right_cluster s r true h = (_, refl)
resolve_in_total right_cluster s r false h = (_, refl)
resolve_in_total right_single s r true h = (_, refl)
resolve_in_total right_single s r false h = (_, refl)
resolve_in_total mode_done s r b h = cc
resolve_in_total (other_mode n) s r b h = cc

request_eq_self : (r : Request) → request_eq r r ≡ true
request_eq_self r = ground arith

resolved_step :
    (s t : TrimState) (r : Request) (success : Bool)
    → s.active_request ≡ some r
    → resolve_in s.mode (rest s) r success ≡ ok t
    → resolve_trim_pass s (record { request = r; success = success }) ≡ ok t
unfolding resolve_trim_pass finish_or_continue_trim next_right_mode
resolved_step s t r success a h = rw (a, request_eq_self r) h

-- In a running pass, the outcome of the active request is accepted, whether the read succeeded or
-- not; it leaves a running pass, for which the bound on the reads left is smaller.
pub resolve_trim_pass-IsRunning :
    (s : TrimState) (r : Request) (success : Bool)
    → IsRunning s
    → s.active_request ≡ some r
    → (t : TrimState) × (resolve_trim_pass s (record { request = r; success = success }) ≡ ok t)
      × IsRunning t
      × (reads_left t < reads_left s)
unfolding reads_left
resolve_trim_pass-IsRunning s r success v a =
    let n : next_trim_pass_request s ≡ some r = subst (Matches s) a v.requested in
    let (t, h) = resolve_in_total s.mode s r success (active_mode s r n) in
    let f = resolve_in-Falls s t r v n s.mode success refl h in
    (
      t,
      resolved_step s t r success a h,
      resolve_in-IsRunning s t r v n s.mode success refl h,
      rw (f.0) (packed_lt _ _ s.failure_budget _ _ f.1),
    )

ended :
    (s : TrimState)
    → IsRunning s
    → s.active_request ≡ none
    → IsRunning (record s { mode = mode_done })
ended s v a = record {
  target_valid = v.target_valid;
  cluster_set = v.cluster_set;
  budget_set = v.budget_set;
  budget_fits = v.budget_fits;
  narrow = v.narrow;
  left_in = v.left_in;
  right_in = v.right_in;
  ordered = v.ordered;
  left_streak = v.left_streak;
  right_streak = v.right_streak;
  requested = subst (Matches (record s { mode = mode_done })) (sym a) tt;
}

asked :
    (s : TrimState) (r : Request)
    → IsRunning s
    → next_trim_pass_request s ≡ some r
    → IsRunning (record s { active_request = some r })
unfolding next_trim_pass_request
asked s r v n = record {
  target_valid = v.target_valid;
  cluster_set = v.cluster_set;
  budget_set = v.budget_set;
  budget_fits = v.budget_fits;
  narrow = v.narrow;
  left_in = v.left_in;
  right_in = v.right_in;
  ordered = v.ordered;
  left_streak = v.left_streak;
  right_streak = v.right_streak;
  requested = ground (arith, n);
}

pub is_done→eq : (m : TrimMode) → is_done m ≡ true → m ≡ mode_done
is_done→eq m h = ground arith

lift_target-eq-ok :
    {B : Type 0} (r : Result MapError Unit) (k : Result TrimError B) {b : B}
    → (lift_target r >> k) ≡ ok b
    → (r ≡ ok tt) × (k ≡ ok b)
lift_target-eq-ok (ok u) k h = (refl, h)
lift_target-eq-ok (err e) k h = cc

-- What a dispatch may leave: a running pass, with a request that was not there before only if it
-- lies between the cursors.
abbrev pub Dispatched : TrimState → TrimState × TrimDecision → Type 0
Dispatched s (t, read r) =
    IsRunning t × (reads_left t ≤ reads_left s) × (t.active_request ≡ some r) × Inside s r
Dispatched s (t, done) = IsRunning t × (t.mode ≡ mode_done) × (t.active_request ≡ none)
Dispatched s (t, wait_backpressure) = t ≡ s

patience_same :
    (m : TrimMode) (s : TrimState) (r : Request)
    → patience m (record s { active_request = some r }) ≡ patience m s
patience_same left_cluster s r = refl
patience_same left_single s r = refl
patience_same right_cluster s r = refl
patience_same right_single s r = refl
patience_same mode_done s r = refl
patience_same (other_mode k) s r = refl

pub dispatched-Dispatched :
    (s : TrimState) (o : Option Request)
    → IsRunning s
    → s.active_request ≡ none
    → next_trim_pass_request s ≡ o
    → Dispatched s (dispatched s o)
unfolding reads_left
dispatched-Dispatched s none v a n = (ended s v a, refl, a)
dispatched-Dispatched s (some r) v a n = (
  asked s r v n,
  omega (arith, patience_same s.mode s r),
  refl,
  next_trim_pass_request-Inside s r v n,
)

decide_trim : TrimState → Bool → TrimState × TrimDecision
decide_trim s w =
    if is_done s.mode
    then (s, done)
    else if not w
    then (s, wait_backpressure)
    else dispatched s (next_trim_pass_request s)

decide_trim-Dispatched :
    (s : TrimState) (w : Bool)
    → IsRunning s
    → s.active_request ≡ none
    → Dispatched s (decide_trim s w)
unfolding decide_trim
decide_trim-Dispatched s w v a = elim (Bool-cases (is_done s.mode)) [
  | inl d ↦ rw d (v, is_done→eq s.mode d, a)
  | inr d ↦ elim (Bool-cases w) [
    | inl e ↦ rw (d, e) (dispatched-Dispatched s _ v a refl)
    | inr e ↦ rw (d, e) refl
  ]
]

-- A running pass with no active request is dispatched, with one of three results: a running pass
-- whose active request is a read that lies between the cursors, with no larger bound on the reads
-- left; a wait, with the pass as it was; or a running pass that is done.
pub dispatch_trim_pass-Dispatched :
    (s : TrimState) (writer_available : Bool)
    → IsRunning s
    → s.active_request ≡ none
    → (d : TrimState × TrimDecision) × (dispatch_trim_pass s writer_available ≡ ok d)
      × Dispatched s d
unfolding dispatch_trim_pass decide_trim
dispatch_trim_pass-Dispatched s w v a = (
  decide_trim s w,
  rw (IsValid→validate s.target v.target_valid, a) (ground (arith, v.cluster_set, v.budget_set)),
  decide_trim-Dispatched s w v a,
)

abbrev starting : Extent → ℕ → ℕ → TrimState
starting target c b = record {
  target = target;
  small_cluster = c;
  failure_budget = b;
  left_cursor = target.start_lba;
  right_cursor = end_lba target;
  mode = left_cluster;
  active_request = none;
  left_failure_streak = 0;
  right_failure_streak = 0;
}

-- What a pass over a target starts with.
abbrev pub Started : Extent → ℕ → TrimState → Type 0
Started target b s =
    IsRunning s × (s.active_request ≡ none) × (reads_left s ≡ (4 + target.sectors) * (b + 1))

starting-Started :
    (target : Extent) (c b : ℕ)
    → IsValid target
    → 0 < c
    → 0 < b
    → target.sectors < 2 ^ 32
    → b < 2 ^ 16
    → Started target b (starting target c b)
unfolding reads_left
starting-Started target c b v hc hb hs hb' =
    let e = end_lba-eq-stop target v in
    let w : end_lba target - target.start_lba ≡ target.sectors = omega (arith, e) in
    (
      record {
        target_valid = v;
        cluster_set = hc;
        budget_set = hb;
        budget_fits = hb';
        narrow = hs;
        left_in = omega arith;
        right_in = omega (arith, e);
        ordered = omega (arith, e);
        left_streak = hb;
        right_streak = hb;
        requested = tt;
      },
      refl,
      rw w (omega arith),
    )

ok-injective : {A E : Type 0} {a b : A} → Path (Result E A) (ok a) (ok b) → a ≡ b
ok-injective h = cc

-- The pass that `StartTrimPass` sets up for a target of less than 2^32 sectors and a budget below
-- 2^16, where it returns one, is running with no active request, and its bound on the reads left
-- is (4 + sectors) * (budget + 1).
pub start_trim_pass-IsRunning :
    (target : Extent) (small_cluster budget : ℕ) (s : TrimState)
    → target.sectors < 2 ^ 32
    → budget < 2 ^ 16
    → start_trim_pass target small_cluster budget ≡ ok s
    → Started target budget s
unfolding start_trim_pass
start_trim_pass-IsRunning target c b s hs hb h =
    let (h1, h2) = lift_target-eq-ok (validate target) _ h in
    let (h3, h4) = guard-eq-ok (schedulable_trim_state target.state) not_unresolved _ h2 in
    let (h5, h6) = guard-eq-ok (not (c == 0)) no_cluster _ h4 in
    let (h7, h8) = guard-eq-ok (not (b == 0)) no_budget _ h6 in
    let e : starting target c b ≡ s = ok-injective h8 in
    subst (Started target b) e (
      starting-Started target c b (validate→IsValid target h1) (ground (arith, h5))
        (ground (arith, h7)) hs hb)

resolve_in-rests :
    (m : TrimMode) (s t : TrimState) (r : Request) (success : Bool)
    → resolve_in m (rest s) r success ≡ ok t
    → t.active_request ≡ none
unfolding finish_or_continue_trim next_right_mode
resolve_in-rests left_cluster s t r true h = ground arith
resolve_in-rests left_cluster s t r false h = ground arith
resolve_in-rests left_single s t r true h = ground arith
resolve_in-rests left_single s t r false h = ground arith
resolve_in-rests right_cluster s t r true h = ground arith
resolve_in-rests right_cluster s t r false h = ground arith
resolve_in-rests right_single s t r true h = ground arith
resolve_in-rests right_single s t r false h = ground arith
resolve_in-rests mode_done s t r b h = cc
resolve_in-rests (other_mode k) s t r b h = cc

pub resolve_trim_pass_rests :
    (s t : TrimState) (r : Request) (success : Bool)
    → s.active_request ≡ some r
    → resolve_trim_pass s (record { request = r; success = success }) ≡ ok t
    → t.active_request ≡ none
unfolding resolve_trim_pass finish_or_continue_trim next_right_mode
resolve_trim_pass_rests s t r success a h =
    resolve_in-rests s.mode s t r success (rw (a, request_eq_self r) at h)
