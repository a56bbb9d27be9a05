-- ===== src/Mapfile/Replay/Requeue.antt =====
-- After a replay no sector is left queued, and all else is as recorded.
use disc_rescue.Prelude.{
  ℕ, ◌≡◌, refl, ◌≢◌, List, Result, ok, err, >>=-eq-ok, >>-eq-ok, [], ◌∷◌, arith, All,
}
use mathlib.Core.Option
use disc_rescue.Mapfile.State.{SectorState, unknown, queued, validate_state_confidence}
use disc_rescue.Mapfile.Extent.{Extent, MapError, end_lba, validate_extent_set_within_capacity}
use disc_rescue.Mapfile.Valid.{IsValid, stop, Between, validate_extent_set_within_capacity_iff}
use disc_rescue.Mapfile.View.{view, sector_at}
use disc_rescue.Mapfile.Codec.{CodecError, lift_map}
use disc_rescue.Mapfile.Replay.{
  Checkpoint, requeue_state, requeue, requeue_all, replay_loop, replay_journal,
  replay_journal_within_capacity,
}

requeue_state-IsValid : (s : SectorState) (e : Extent) → IsValid e → IsValid (requeue_state s e)
unfolding validate_state_confidence
requeue_state-IsValid queued e v = record {
  nonempty = v.nonempty;
  bounded = v.bounded;
  allowed = refl;
}
requeue_state-IsValid unknown e v = v
requeue_state-IsValid _ e v = v

-- Requeueing moves no extent.
record SamePlace (e f : Extent) : Type 0 where
  start : f.start_lba ≡ e.start_lba
  size : f.sectors ≡ e.sectors
  at : (lba : ℕ) → sector_at f lba ≡ requeue (sector_at e lba)
  not_queued : f.state ≢ queued

requeue_state-SamePlace :
    (s : SectorState) (e : Extent) → e.state ≡ s → SamePlace e (requeue_state s e)
requeue_state-SamePlace queued e h = record {
  start = refl;
  size = refl;
  at = λ lba. rw h;
  not_queued = λ q. cc;
}
requeue_state-SamePlace unknown e h = record {
  start = refl;
  size = refl;
  at = λ lba. rw h;
  not_queued = λ q. cc;
}
requeue_state-SamePlace _ e h = record {
  start = refl;
  size = refl;
  at = λ lba. rw h;
  not_queued = λ q. cc;
}

pub requeue_all-Between :
    (lo hi : ℕ) (es : List Extent) → Between lo hi es → Between lo hi (requeue_all es)
unfolding requeue_all
requeue_all-Between lo hi [] b = tt
requeue_all-Between lo hi (e ∷ es) (v, l, r, b) =
    let p = requeue_state-SamePlace e.state e refl in
    let same : stop (requeue e) ≡ stop e = omega (arith, p.start, p.size) in
    (
      requeue_state-IsValid e.state e v,
      omega (arith, p.start),
      omega (arith, same),
      rw same (requeue_all-Between (stop e) hi es b),
    )

pub requeue_all-not_queued : (es : List Extent) → All (λ e. e.state ≢ queued) (requeue_all es)
unfolding requeue_all
requeue_all-not_queued [] = tt
requeue_all-not_queued (e ∷ es) =
    ((requeue_state-SamePlace e.state e refl).not_queued, requeue_all-not_queued es)

-- Requeueing changes the records of the queued sectors and no others.
pub view-requeue_all :
    (es : List Extent) (lba : ℕ) → view (requeue_all es) lba ≡ Option.map requeue (view es lba)
unfolding requeue_all end_lba
view-requeue_all [] lba = refl
view-requeue_all (e ∷ es) lba =
    let p = requeue_state-SamePlace e.state e refl in
    ground (arith, p.start, p.size, p.at lba, view-requeue_all es lba)

-- What a map is replayed to: extents in order for the disc, none of them queued.
abbrev pub Restored : ℕ → List Extent → Type 0
Restored n es = Between 0 n es × All (λ (e : Extent). e.state ≢ queued) es

replay_journal-not_queued :
    (c d : Checkpoint) (journal : List ℕ)
    → replay_journal c journal ≡ ok d
    → All (λ (e : Extent). e.state ≢ queued) d.extents
unfolding replay_journal
replay_journal-not_queued c d journal h =
    let (m, h1, h2) = >>=-eq-ok (replay_loop _ c _ journal) _ h in
    let same : requeue_all m.extents ≡ d.extents = ap_extents h2 in
    rw (← same) (requeue_all-not_queued m.extents)
  where
    ap_extents :
        {x y : Checkpoint}
        → Path (Result CodecError Checkpoint) (ok x) (ok y)
        → x.extents ≡ y.extents
    ap_extents e = cc

lift_map-eq-ok : (r : Result MapError Unit) → lift_map r ≡ ok tt → r ≡ ok tt
lift_map-eq-ok (ok u) h = refl
lift_map-eq-ok (err e) h = cc

-- What a journal replays to within a capacity of `n` sectors is a map in order below sector `n`
-- in which no extent is queued.
pub replay_journal_within_capacity-Restored :
    (c d : Checkpoint) (journal : List ℕ) (n : ℕ)
    → replay_journal_within_capacity c journal n ≡ ok d
    → Restored n d.extents
unfolding replay_journal_within_capacity
replay_journal_within_capacity-Restored c d journal n h =
    let (m, h1, h2) = >>=-eq-ok (replay_journal c journal) _ h in
    let (h3, h4) = >>-eq-ok (lift_map (validate_extent_set_within_capacity m.extents n)) _ h2 in
    let same : m ≡ d = cc in
    rw (← same) (
      ((validate_extent_set_within_capacity_iff m.extents n).0 (lift_map-eq-ok _ h3)).1,
      replay_journal-not_queued c m journal h1,
    )
