-- ===== src/Recovery/Fast/Laws.antt =====
-- A fast pass gets on with each read.
use disc_rescue.Prelude.{
  ℕ, ◌+◌, ◌-◌, ◌*◌, ◌^◌, ◌≤◌, ◌<◌, ◌≡◌, refl, sym, ap, subst, ◌∙◌, Bool, Bool-cases, inl, inr, true,
  false, not, ◌||◌, ◌&&◌, Option, none, some, List, [], ◌∷◌, arith, ltb, leb, ◌==◌, u32, u64, ok,
  >>=-eq-ok, >>-eq-ok, guard-eq-ok,
}
use disc_rescue.Mapfile.Extent.{Extent, end_lba, validate_extent_set}
use disc_rescue.Mapfile.Valid.{Between}
use disc_rescue.Recovery.Request.{Request, request_eq, strategy_code, fast_pass}
use disc_rescue.Recovery.Fast.{
  FastMode, cluster, single, checkpoint, mode_done, other_mode, FastState, FastOutcome,
  FastDecision, read, take_checkpoint, done, no_cluster, no_skip, still_active, lift_fast,
  passed_over, start_in, next_cluster_range, next_single_sector, cluster_request, single_request,
  request_for, next_fast_pass_request, dispatched_fast, dispatch_in, has_active, dispatch_fast_pass,
  resolve_fast_in, resolve_fast_pass, has_schedulable, skip_loop, skip_length, single_read,
  single_failed, apply_fast_pass_failure,
}
use disc_rescue.Recovery.Fast.Reach.{
  InReach, next_cluster_range-InReach, next_single_sector-InReach,
}

-- The steps that the pass has before it at most: a look at a cluster, and at each of its sectors.
abbrev pub looks : FastMode → ℕ
looks cluster = 1
looks _ = 0

abbrev pub steps_left : ℕ → FastState → ℕ
steps_left hi s = 2 * (hi - s.cursor_lba) + looks s.mode

skip_loop_bound :
    (es : List Extent) (current limit total : ℕ)
    → limit < 2 ^ 32
    → total < 2 ^ 32
    → skip_loop es current limit total < 2 ^ 32
unfolding skip_loop
skip_loop_bound [] current limit total p q = q
skip_loop_bound (e ∷ es) current limit total p q =
    let passed = skip_loop_bound es current limit total p q in
    let available = u32 (end_lba e - start_in e current) in
    let later = skip_loop_bound es (end_lba e) limit (u32 (total + available)) p (omega arith) in
    elim (Bool-cases (passed_over e current)) [
      | inl t ↦ rw t passed
      | inr t ↦ rw t (elim (Bool-cases (not (start_in e current == current))) [
        | inl u ↦ rw u q
        | inr u ↦ rw u (elim (Bool-cases (leb (u32 (limit + 2 ^ 32 - total)) available)) [
          | inl w ↦ rw w (omega arith)
          | inr w ↦ rw w (elim (Bool-cases (u32 (total + available) == limit)) [
            | inl x ↦ rw x p
            | inr x ↦ rw x later
          ])
        ])
      ])
    ]

skip_length_bound :
    (start limit : ℕ) (es : List Extent) → limit < 2 ^ 32 → skip_length start limit es < 2 ^ 32
unfolding skip_length
skip_length_bound start limit es p = elim (Bool-cases (limit == 0)) [
  | inl t ↦ rw t (omega arith)
  | inr t ↦ rw t (skip_loop_bound es start limit 0 p (omega arith))
]

some_same : (q r : Request) → ◌≡◌ {A = Option Request} (some q) (some r) → q ≡ r
some_same q r h = cc

read_same : (q r : Request) → read q ≡ read r → q ≡ r
read_same q r h = cc

not_checkpoint : (r : Request) → take_checkpoint ≡ read r → ⊥
not_checkpoint r h = cc

not_done : (r : Request) → done ≡ read r → ⊥
not_done r h = cc

one_sector :
    (cursor hi start : ℕ)
    → InReach cursor hi start 1
    → InReach cursor hi (fast_pass start 1).start_lba 1 × ((fast_pass start 1).sectors ≡ 1)
unfolding fast_pass
one_sector cursor hi start i = (i, refl)

eq_same : (n : ℕ) → (n == n) ≡ true
eq_same n = ground arith

request_eq_self : (r : Request) → request_eq r r ≡ true
request_eq_self r = rw (eq_same r.start_lba, eq_same r.sectors, eq_same (strategy_code r.strategy))

module _ (hi : ℕ) (s : FastState) (f : hi < 2 ^ 32)
    (limit_fits : s.skip_after_failure < 2 ^ 32) where
  single_read-less :
      (r : Request)
      → InReach s.cursor_lba hi r.start_lba 1
      → steps_left hi (single_read s r) < 2 * (hi - s.cursor_lba)
  unfolding single_read
  single_read-less r i =
      let cursor = u64 (r.start_lba + 1) in
      let exact : cursor ≡ r.start_lba + 1 = omega (arith, i.within, f) in
      elim (Bool-cases
        (ltb cursor s.cluster_boundary && has_schedulable s.extents cursor s.cluster_boundary)) [
          | inl t ↦ rw t (omega (arith, exact, i.ahead, i.within))
          | inr t ↦ rw t (elim (Bool-cases (ltb cursor s.cluster_boundary)) [
            | inl u ↦ rw u (ground (arith, u, exact, i.ahead, i.within))
            | inr u ↦ rw u (omega (arith, exact, i.ahead, i.within))
          ])
        ]

  single_failed-less :
      (r : Request) (s2 : FastState)
      → InReach s.cursor_lba hi r.start_lba 1
      → single_failed s r ≡ ok s2
      → steps_left hi s2 < 2 * (hi - s.cursor_lba)
  unfolding single_failed
  single_failed-less r s2 i h =
      let skipped = skip_length (u64 (r.start_lba + 1)) s.skip_after_failure s.extents in
      let (es, h1, h2) =
        >>=-eq-ok (apply_fast_pass_failure s.extents r.start_lba s.skip_after_failure) _ h in
      let few =
        skip_length_bound (u64 (r.start_lba + 1)) s.skip_after_failure s.extents limit_fits in
      let cursor = u64 (u64 (r.start_lba + 1) + skipped) in
      let beyond : r.start_lba + 1 ≤ cursor = omega (arith, few, i.within, f) in
      let same : record s { extents = es; mode = cluster; cursor_lba = cursor } ≡ s2 = cc in
      subst (λ (t : FastState). steps_left hi t < 2 * (hi - s.cursor_lba)) same
        (omega (arith, beyond, i.ahead, i.within))

  -- What a read in a mode asks for.
  abbrev Asked : FastMode → Request → Type 0
  Asked cluster r = InReach s.cursor_lba hi r.start_lba r.sectors
  Asked single r = InReach s.cursor_lba hi r.start_lba 1 × (r.sectors ≡ 1)
  Asked _ r = ⊥

  resolve_fast_in-less :
      (m : FastMode) (r : Request) (success : Bool) (s2 : FastState)
      → Asked m r
      → resolve_fast_in m s r success ≡ ok s2
      → steps_left hi s2 < 2 * (hi - s.cursor_lba) + looks m
  resolve_fast_in-less cluster r true s2 i h =
      let same : record s { cursor_lba = u64 (r.start_lba + r.sectors); mode = cluster } ≡ s2 =
        cc in
      subst (λ (t : FastState). steps_left hi t < 2 * (hi - s.cursor_lba) + 1) same
        (omega (arith, i.ahead, i.nonempty, i.within, f))
  resolve_fast_in-less cluster r false s2 i h =
      let same : record s {
        mode = single;
        cursor_lba = r.start_lba;
        cluster_boundary = u64 (r.start_lba + r.sectors);
      }
          ≡ s2 =
        cc in
      subst (λ (t : FastState). steps_left hi t < 2 * (hi - s.cursor_lba) + 1) same
        (omega (arith, i.ahead, i.nonempty, i.within))
  resolve_fast_in-less single r true s2 (i, e) h =
      let same : single_read s r ≡ s2 = cc in
      subst (λ (t : FastState). steps_left hi t < 2 * (hi - s.cursor_lba) + 0) same
        (omega (arith, single_read-less r i))
  resolve_fast_in-less single r false s2 (i, e) h = omega (arith, single_failed-less r s2 i h)
  resolve_fast_in-less checkpoint r success s2 i h = absurd i
  resolve_fast_in-less mode_done r success s2 i h = absurd i
  resolve_fast_in-less (other_mode n) r success s2 i h = absurd i

  request_for-Asked :
      (m : FastMode) (r : Request)
      → Between 0 hi s.extents
      → 0 < s.cluster_size
      → request_for m s ≡ some r
      → Asked m r
  request_for-Asked cluster r b p h =
      from_range (next_cluster_range s.extents s.cursor_lba s.cluster_size) refl h
    where
      from_range :
          (o : Option (ℕ × ℕ))
          → next_cluster_range s.extents s.cursor_lba s.cluster_size ≡ o
          → cluster_request o ≡ some r
          → InReach s.cursor_lba hi r.start_lba r.sectors
      from_range none e k = cc
      from_range (some (start, sectors)) e k =
          subst (λ (q : Request). InReach s.cursor_lba hi q.start_lba q.sectors)
            (some_same (fast_pass start sectors) r k)
            (unfold fast_pass in
              next_cluster_range-InReach 0 hi s.extents s.cursor_lba s.cluster_size start sectors f
                b p e)
  request_for-Asked single r b p h =
      from_sector (next_single_sector s.extents s.cursor_lba s.cluster_boundary) refl h
    where
      from_sector :
          (o : Option ℕ)
          → next_single_sector s.extents s.cursor_lba s.cluster_boundary ≡ o
          → single_request o ≡ some r
          → InReach s.cursor_lba hi r.start_lba 1 × (r.sectors ≡ 1)
      from_sector none e k = cc
      from_sector (some start) e k =
          subst (λ (q : Request). InReach s.cursor_lba hi q.start_lba 1 × (q.sectors ≡ 1))
            (some_same (fast_pass start 1) r k)
            (one_sector s.cursor_lba hi start
              (next_single_sector-InReach 0 hi s.extents s.cursor_lba s.cluster_boundary start b e))
  request_for-Asked checkpoint r b p h = cc
  request_for-Asked mode_done r b p h = cc
  request_for-Asked (other_mode n) r b p h = cc

-- The state of a pass that waits for a read.
abbrev reading : FastState → Request → FastState
reading s r = record s { active_request = some r; checkpoint_active = false }

abbrev pub resolved : Request → Bool → FastOutcome
resolved r success = record { request = r; success = success; checkpoint_completed = false }

resolve_fast_pass-reading :
    (s : FastState) (r : Request) (success : Bool)
    → resolve_fast_pass (reading s r) (resolved r success)
      ≡ resolve_fast_in s.mode
          (record s { active_request = none; checkpoint_active = false })
          r
          success
unfolding resolve_fast_pass
resolve_fast_pass-reading s r success = let e = request_eq_self r in rw e

nothing_active : (a b : Bool) → not (a || b) ≡ true → b ≡ false
nothing_active a b h = ground (arith, h)

-- A dispatch that asks for a read.
record Dispatched (s s1 : FastState) (r : Request) : Type 0 where
  clusters : 0 < s.cluster_size
  asked : next_fast_pass_request s ≡ some r
  waits : s1 ≡ reading s r

dispatched_fast-read :
    (s s1 : FastState) (o : Option Request) (r : Request)
    → dispatched_fast s o ≡ (s1, read r)
    → (o ≡ some r) × (s1 ≡ record s { active_request = some r })
dispatched_fast-read s s1 none r h =
    absurd (not_checkpoint r (ap (λ (p : FastState × FastDecision). p.1) h))
dispatched_fast-read s s1 (some q) r h =
    let same : q ≡ r = read_same q r (ap (λ (p : FastState × FastDecision). p.1) h) in
    (
      ap some same,
      ap (λ (p : FastState × FastDecision). p.0) (sym h)
          ∙ ap (λ z. record s { active_request = some z }) same,
    )

dispatch_in-read :
    (m : FastMode) (s s1 : FastState) (r : Request)
    → dispatch_in m s true ≡ (s1, read r)
    → (next_fast_pass_request s ≡ some r) × (s1 ≡ record s { active_request = some r })
dispatch_in-read cluster s s1 r h = dispatched_fast-read s s1 (next_fast_pass_request s) r h
dispatch_in-read single s s1 r h = dispatched_fast-read s s1 (next_fast_pass_request s) r h
dispatch_in-read (other_mode n) s s1 r h = dispatched_fast-read s s1 (next_fast_pass_request s) r h
dispatch_in-read checkpoint s s1 r h =
    absurd (not_checkpoint r (ap (λ (p : FastState × FastDecision). p.1) h))
dispatch_in-read mode_done s s1 r h =
    absurd (not_done r (ap (λ (p : FastState × FastDecision). p.1) h))

Dispatched-of :
    (s s1 : FastState) (r : Request)
    → dispatch_fast_pass s true ≡ ok (s1, read r)
    → Dispatched s s1 r
unfolding dispatch_fast_pass
Dispatched-of s s1 r h =
    let (_, h1) = >>-eq-ok (lift_fast (validate_extent_set s.extents)) _ h in
    let (c, h2) = guard-eq-ok (not (s.cluster_size == 0)) no_cluster _ h1 in
    let (_, h3) = guard-eq-ok (not (s.skip_after_failure == 0)) no_skip _ h2 in
    let (a, h4) =
      guard-eq-ok (not (has_active s.active_request || s.checkpoint_active)) still_active _ h3 in
    let same : dispatch_in s.mode s true ≡ (s1, read r) = cc in
    let (asked, waits) = dispatch_in-read s.mode s s1 r same in
    let idle : s.checkpoint_active ≡ false =
      nothing_active (has_active s.active_request) s.checkpoint_active a in
    record {
      clusters = ground (arith, c);
      asked = asked;
      waits = waits ∙ λ i. record s { active_request = some r; checkpoint_active = idle i };
    }

-- On a map in order up to a bound below 2^32, a read that `DispatchFastPass` asks for lies between
-- the cursor and the bound; and when `ResolveFastPass` accepts its outcome, a success or a failure,
-- the steps that the pass has left have become fewer.
pub resolve_fast_pass-InReach :
    (hi : ℕ) (s s1 s2 : FastState) (r : Request) (success : Bool)
    → hi < 2 ^ 32
    → Between 0 hi s.extents
    → s.skip_after_failure < 2 ^ 32
    → dispatch_fast_pass s true ≡ ok (s1, read r)
    → resolve_fast_pass s1 (resolved r success) ≡ ok s2
    → InReach s.cursor_lba hi r.start_lba r.sectors × (steps_left hi s2 < steps_left hi s)
unfolding next_fast_pass_request
resolve_fast_pass-InReach hi s s1 s2 r success f b q h1 h2 =
    let d = Dispatched-of s s1 r h1 in
    let asked = request_for-Asked hi s f q s.mode r b d.clusters d.asked in
    let plain : FastState = record s { active_request = none; checkpoint_active = false } in
    let step : resolve_fast_in s.mode plain r success ≡ ok s2 =
      sym (resolve_fast_pass-reading s r success)
      ∙ ap (λ z. resolve_fast_pass z (resolved r success)) (sym d.waits)
      ∙ h2 in
    (
      reach s.mode asked,
      resolve_fast_in-less hi plain f q s.mode r success s2 (plainly s.mode asked) step,
    )
  where
    reach : (m : FastMode) → Asked hi s f q m r → InReach s.cursor_lba hi r.start_lba r.sectors
    reach cluster i = i
    reach single (i, e) = subst (InReach s.cursor_lba hi r.start_lba) (sym e) i
    reach checkpoint i = absurd i
    reach mode_done i = absurd i
    reach (other_mode n) i = absurd i

    plainly :
        (m : FastMode)
        → Asked hi s f q m r
        → Asked hi (record s { active_request = none; checkpoint_active = false }) f q m r
    plainly cluster i = i
    plainly single i = i
    plainly checkpoint i = i
    plainly mode_done i = i
    plainly (other_mode n) i = i
