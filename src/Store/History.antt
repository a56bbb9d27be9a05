-- ===== src/Store/History.antt =====
-- The transitions that a store has journalled and staged, replayed in their order.
use disc_rescue.Prelude.{
  ℕ, suc, ◌+◌, ◌≡◌, refl, sym, ap, subst, ◌∙◌, Bool, true, false, List, [], ◌∷◌, ◌++◌, arith, ◌==◌,
  length, u64, Option, some, none, Result, ok, ◌>>=◌, >>=-eq-ok, guard-eq-ok,
}
use disc_rescue.Mapfile.Extent.{Extent, MapError}
use disc_rescue.Mapfile.Edit.{apply_extent}
use disc_rescue.Mapfile.Codec.{
  CodecError, lift_map, RecordType, is_extent_record, JournalRecord, non_monotonic_sequence,
}
use disc_rescue.Mapfile.Replay.{Checkpoint, apply_record}
use disc_rescue.Mapfile.Replay.Frames.{replay_records}
use disc_rescue.Store.{extent_record}

-- Extents applied to a map one after the other.
abbrev pub advance : List Extent → List Extent → Result MapError (List Extent)
advance es [] = ok es
advance es (p ∷ ps) = apply_extent es p >>= λ es'. advance es' ps

-- The journal's records of transitions, the first of them with number `n`.
abbrev pub staged_records : ℕ → List Extent → List JournalRecord
staged_records n [] = []
staged_records n (p ∷ ps) = extent_record n p ∷ staged_records (u64 (n + 1)) ps

pub advance-append :
    (es ps qs zs : List Extent)
    → advance es (ps ++ qs) ≡ ok zs
    → (ys : List Extent) × (advance es ps ≡ ok ys) × (advance ys qs ≡ ok zs)
advance-append es [] qs zs h = (es, refl, h)
advance-append es (p ∷ ps) qs zs h =
    let (es', h1, h2) = >>=-eq-ok (apply_extent es p) _ h in
    let (ys, h3, h4) = advance-append es' ps qs zs h2 in (ys, rw h1 h3, h4)

pub advance_then :
    (es ps qs ys : List Extent) → advance es ps ≡ ok ys → advance es (ps ++ qs) ≡ advance ys qs
advance_then es [] qs ys h = cc
advance_then es (p ∷ ps) qs ys h =
    let (es', h1, h2) = >>=-eq-ok (apply_extent es p) _ h in rw h1 (advance_then es' ps qs ys h2)

next_number : (n k : ℕ) → u64 (u64 (n + 1) + k) ≡ u64 (n + suc k)
next_number n k = omega arith

pub staged_records-append :
    (n : ℕ) (ps : List Extent) (e : Extent)
    → u64 n ≡ n
    → staged_records n (ps ++ e ∷ [])
      ≡ staged_records n ps ++ extent_record (u64 (n + length ps)) e ∷ []
staged_records-append n [] e h = ap (λ m. extent_record m e ∷ []) (omega (arith, h))
staged_records-append n (p ∷ ps) e h =
    ap (λ t. extent_record n p ∷ t)
      (staged_records-append (u64 (n + 1)) ps e (omega arith)
        ∙ ap (λ m. staged_records (u64 (n + 1)) ps ++ extent_record m e ∷ [])
            (next_number n (length ps)))

-- The first records of staged transitions are those of the first transitions.
pub staged_records-prefix :
    (n : ℕ) (kept lost : List JournalRecord) (ps : List Extent)
    → kept ++ lost ≡ staged_records n ps
    → (qs : List Extent) × (ts : List Extent) × (qs ++ ts ≡ ps) × (kept ≡ staged_records n qs)
staged_records-prefix n [] lost ps h = ([], ps, refl, refl)
staged_records-prefix n (r ∷ kept) lost [] h = cc
staged_records-prefix n (r ∷ kept) lost (p ∷ ps) h =
    let (qs, ts, a, b) = staged_records-prefix (u64 (n + 1)) kept lost ps (cc) in
    (p ∷ qs, ts, ap (λ t. p ∷ t) a, cc)

ok-last :
    (c d : Checkpoint)
    → ◌≡◌ {A = Result CodecError Checkpoint} (ok c) (ok d)
    → d.last_sequence ≡ c.last_sequence
ok-last c d h = let same : c ≡ d = cc in ap (λ x. x.last_sequence) (sym same)

apply_record-last_parts :
    (c d : Checkpoint) (t : RecordType) (n : ℕ) (o : Option Extent) (p : List ℕ) (b : Bool)
    → is_extent_record t ≡ b
    → apply_record c (record { type = t; sequence = n; extent = o; payload = p }) ≡ ok d
    → d.last_sequence ≡ n
unfolding apply_record
apply_record-last_parts c d t n none p b e h = ok-last _ d h
apply_record-last_parts c d t n (some x) p false e h = ok-last _ d (rw e at h)
apply_record-last_parts c d t n (some x) p true e h =
    let (es, h1, h2) = >>=-eq-ok (lift_map (apply_extent c.extents x)) _ (rw e at h) in
    ok-last _ d h2

apply_record-last :
    (c d : Checkpoint) (r : JournalRecord) → apply_record c r ≡ ok d → d.last_sequence ≡ r.sequence
apply_record-last c d r h =
    apply_record-last_parts c d r.type r.sequence r.extent r.payload (is_extent_record r.type) refl
      h

-- A journal that goes on after records which replay to `d` goes on from `d`.
pub replay_records-append :
    (c d : Checkpoint) (n : ℕ) (rs qs : List JournalRecord)
    → n ≡ u64 (c.last_sequence + 1)
    → replay_records c n rs ≡ ok d
    → replay_records c n (rs ++ qs) ≡ replay_records d (u64 (d.last_sequence + 1)) qs
unfolding replay_records
replay_records-append c d n [] qs e h =
    let same : c ≡ d = cc in
    subst (λ x. replay_records c n qs ≡ replay_records x (u64 (x.last_sequence + 1)) qs) same
      (ap (λ m. replay_records c m qs) e)
replay_records-append c d n (r ∷ rs) qs e h =
    let (t, h1) = guard-eq-ok (r.sequence == n) non_monotonic_sequence _ h in
    let (c', h2, h3) = >>=-eq-ok (apply_record c r) _ h1 in
    rw (t, h2)
      (replay_records-append c' d (u64 (n + 1)) rs qs (ground (arith, apply_record-last c c' r h2))
        h3)

-- Staged transitions replay to the map that they lead to.
pub replay_records-staged_records :
    (c : Checkpoint) (n : ℕ) (ps es : List Extent)
    → u64 (c.last_sequence + 1) ≡ n
    → advance c.extents ps ≡ ok es
    → (d : Checkpoint) × (replay_records c n (staged_records n ps) ≡ ok d)
      × (d.extents ≡ es)
      × (u64 (d.last_sequence + 1) ≡ u64 (n + length ps))
unfolding replay_records apply_record
replay_records-staged_records c n [] es e h = (c, refl, cc, omega (arith, e))
replay_records-staged_records c n (p ∷ ps) es e h =
    let (es', h1, h2) = >>=-eq-ok (apply_extent c.extents p) _ h in
    let c' : Checkpoint = record { last_sequence = n; extents = es' } in
    let (d, h3, h4, h5) = replay_records-staged_records c' (u64 (n + 1)) ps es refl h2 in
    let same : (n == n) ≡ true = ground arith in
    (d, rw (same, h1) h3, h4, h5 ∙ next_number n (length ps))
