-- ===== src/Recovery/Trim/Run.antt =====
-- A whole trim pass: dispatched and resolved in turn, whatever the reads bring.
use disc_rescue.Prelude.{
  ℕ, ◌+◌, ◌≤◌, ◌<◌, ◌≡◌, refl, ◌⊎◌, inl, inr, Bool, true, false, Bool-cases, Option, none, some,
  List, [], ◌∷◌, length, arith, Result, ok, ◌>>=◌,
}
use disc_rescue.Mapfile.Valid.{IsValid→validate}
use disc_rescue.Recovery.Request.{Request}
use disc_rescue.Recovery.Trim.{
  TrimState, TrimDecision, TrimError, mode_done, read, done, wait_backpressure, is_done, dispatched,
  next_trim_pass_request, dispatch_trim_pass, resolve_trim_pass,
}
use disc_rescue.Recovery.Trim.Laws.{
  IsRunning, reads_left, dispatched-Dispatched, is_done→eq, resolve_trim_pass-IsRunning,
  resolve_trim_pass_rests,
}

-- What follows a dispatch: the read's outcome is resolved.
abbrev pub follow : TrimState × TrimDecision → Bool → Result TrimError TrimState
follow (t, read r) success = resolve_trim_pass t (record { request = r; success = success })
follow (t, wait_backpressure) success = ok t
follow (t, done) success = ok t

-- One round for each outcome, with the writer always available.
unfoldable pub run_trim : TrimState → List Bool → Result TrimError TrimState
run_trim s [] = ok s
run_trim s (success ∷ outcomes) = do
  d ← dispatch_trim_pass s true
  t ← follow d success
  run_trim t outcomes

dispatch_at_end :
    (s : TrimState)
    → IsRunning s
    → s.active_request ≡ none
    → s.mode ≡ mode_done
    → dispatch_trim_pass s true ≡ ok (s, done)
unfolding dispatch_trim_pass
dispatch_at_end s v a m =
    rw (IsValid→validate s.target v.target_valid, a, m)
      (ground (arith, v.cluster_set, v.budget_set))

dispatch_before_end :
    (s : TrimState)
    → IsRunning s
    → s.active_request ≡ none
    → is_done s.mode ≡ false
    → dispatch_trim_pass s true ≡ ok (dispatched s (next_trim_pass_request s))
unfolding dispatch_trim_pass
dispatch_before_end s v a m =
    rw (IsValid→validate s.target v.target_valid, a, m)
      (ground (arith, v.cluster_set, v.budget_set))

-- Where a pass is after some rounds: at its end, or with a smaller bound on the reads left.
abbrev Reached : ℕ → ℕ → TrimState → Type 0
Reached bound rounds t =
    IsRunning t
    × (t.active_request ≡ none)
    × ((t.mode ≡ mode_done) ⊎ (reads_left t + rounds ≤ bound))

-- A round of a pass that is not at its end.
round_before_end :
    (s : TrimState) (success : Bool) (o : Option Request)
    → IsRunning s
    → s.active_request ≡ none
    → next_trim_pass_request s ≡ o
    → (t : TrimState) × (follow (dispatched s o) success ≡ ok t) × Reached (reads_left s) 1 t
round_before_end s success none v a n =
    let (w, m, b) = dispatched-Dispatched s none v a n in (_, refl, (w, b, inl m))
round_before_end s success (some r) v a n =
    let (w, le, b, inside) = dispatched-Dispatched s (some r) v a n in
    let (t, h, x, lt) =
      resolve_trim_pass-IsRunning (record s { active_request = some r }) r success w b in
    (
      t,
      h,
      (
        x,
        resolve_trim_pass_rests (record s { active_request = some r }) t r success b h,
        inr (omega arith),
      ),
    )

one_round :
    (s : TrimState) (success : Bool)
    → IsRunning s
    → s.active_request ≡ none
    → (d : TrimState × TrimDecision) × (t : TrimState) × (dispatch_trim_pass s true ≡ ok d)
      × (follow d success ≡ ok t)
      × Reached (reads_left s) 1 t
one_round s success v a = elim (Bool-cases (is_done s.mode)) [
  | inl m ↦
      let e = is_done→eq s.mode m in ((s, done), s, dispatch_at_end s v a e, refl, (v, a, inl e))
  | inr m ↦
      let (t, h, x) = round_before_end s success (next_trim_pass_request s) v a refl in
      (dispatched s (next_trim_pass_request s), t, dispatch_before_end s v a m, h, x)
]

run_trim_at_end :
    (s : TrimState) (outcomes : List Bool)
    → IsRunning s
    → s.active_request ≡ none
    → s.mode ≡ mode_done
    → run_trim s outcomes ≡ ok s
unfolding run_trim
run_trim_at_end s [] v a m = refl
run_trim_at_end s (b ∷ bs) v a m = rw (dispatch_at_end s v a m) (run_trim_at_end s bs v a m)

run_trim-Reached :
    (s : TrimState) (outcomes : List Bool)
    → IsRunning s
    → s.active_request ≡ none
    → (t : TrimState) × (run_trim s outcomes ≡ ok t) × Reached (reads_left s) (length outcomes) t
unfolding run_trim
run_trim-Reached s [] v a = (s, refl, (v, a, inr (omega arith)))
run_trim-Reached s (b ∷ bs) v a =
    let (d, t, h, k, (w, q, c)) = one_round s b v a in
    let (u, e, (x, y, z)) = run_trim-Reached t bs w q in
    (
      u,
      rw (h, k) e,
      (
        x,
        y,
        elim c [
          | inl m ↦ let same : t ≡ u = cc (run_trim_at_end t bs w q m) in inl (rw (← same) m)
          | inr le ↦ elim z [ inl m ↦ inl m | inr le' ↦ inr (omega arith) ]
        ],
      ),
    )

-- A running pass with no active request that is given more outcomes than its bound on the reads
-- left, successes and failures in any order and with the writer always available, ends.
pub run_trim_ends :
    (s : TrimState) (outcomes : List Bool)
    → IsRunning s
    → s.active_request ≡ none
    → reads_left s < length outcomes
    → (t : TrimState) × (run_trim s outcomes ≡ ok t) × (t.mode ≡ mode_done)
run_trim_ends s outcomes v a h =
    let (t, e, (w, q, c)) = run_trim-Reached s outcomes v a in
    (t, e, elim c [ inl m ↦ m | inr le ↦ absurd (omega arith) ])
