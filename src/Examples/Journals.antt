-- ===== src/Examples/Journals.antt =====
-- A journal of one whole record and the first bytes of a second one.
use disc_rescue.Prelude.{
  ℕ, ◌+◌, ◌≡◌, refl, ◌<◌, List, [], ◌∷◌, ◌++◌, none, arith, ok, err, ◌>>=◌, length, take, u64,
}
use disc_rescue.Mapfile.Extent.{
  validate_extent_set_within_capacity, validate_extent_set, check_capacity, validate,
  validate_after,
}
use disc_rescue.Mapfile.State.{validate_state_confidence}
use disc_rescue.Mapfile.Codec.{
  truncated_record, JournalRecord, job_created, pass_started, frame, validate_record, payload_bytes,
  marshal_journal_record, unmarshal_journal_record,
}
use disc_rescue.Mapfile.Codec.RoundTrip.{
  IsStorable, unmarshal-marshal_journal_record, unmarshal-torn_journal_record,
}
use disc_rescue.Mapfile.Replay.{
  Checkpoint, requeued, requeue_all, replay_loop, replay_journal, replay_journal_within_capacity,
}
use disc_rescue.Mapfile.Replay.Fuel.{replay_loop_enough}
use disc_rescue.Mapfile.Replay.Frames.{journal_of, replay_records, replay_journal-torn}
use disc_rescue.Mapfile.Replay.Requeue.{Restored, replay_journal_within_capacity-Restored}
use disc_rescue.Examples.Maps.{bad_part}

abbrev created : JournalRecord
created = record { type = job_created; sequence = 1; extent = none; payload = [] }

abbrev pass_begun : JournalRecord
pass_begun = record { type = pass_started; sequence = 2; extent = none; payload = 5 ∷ [] }

abbrev at_start : Checkpoint
at_start = record { last_sequence = 0; extents = bad_part ∷ [] }

created-IsStorable : IsStorable created
created-IsStorable = record {
  numbered = omega arith;
  sequence_fits = omega arith;
  shaped = omega arith;
}

pass_begun-IsStorable : IsStorable pass_begun
pass_begun-IsStorable = record {
  numbered = omega arith;
  sequence_fits = omega arith;
  shaped = omega arith;
}

abbrev created_frame : List ℕ
created_frame = 1 ∷ 0 ∷ 1 ∷ 0 ∷ 0 ∷ 0 ∷ 0 ∷ 0 ∷ 0 ∷ 0 ∷ 0 ∷ 0 ∷ 0 ∷ 0 ∷ []

write_created : marshal_journal_record created ≡ ok (frame job_created 1 [])
unfolding marshal_journal_record validate_record payload_bytes
write_created = refl

write_pass_begun : marshal_journal_record pass_begun ≡ ok (frame pass_started 2 (5 ∷ []))
unfolding marshal_journal_record validate_record payload_bytes
write_pass_begun = refl

journal_of-created : journal_of (created ∷ []) ≡ ok (frame job_created 1 [] ++ [])
unfolding journal_of
journal_of-created = rw (write_created, journal_of) refl

unmarshal-marshal_journal_record_example :
    (bs : List ℕ) × (marshal_journal_record pass_begun ≡ ok bs)
    × (unmarshal_journal_record (bs ++ 9 ∷ []) ≡ ok (pass_begun, length bs))
unmarshal-marshal_journal_record_example =
    unmarshal-marshal_journal_record pass_begun pass_begun-IsStorable (9 ∷ [])

three_bytes : 3 < length (frame pass_started 2 (5 ∷ []))
unfolding frame
three_bytes = omega arith

unmarshal-torn_journal_record_example :
    unmarshal_journal_record (take 3 (frame pass_started 2 (5 ∷ []))) ≡ err truncated_record
unmarshal-torn_journal_record_example =
    unmarshal-torn_journal_record pass_begun pass_begun-IsStorable (frame pass_started 2 (5 ∷ [])) 3
      write_pass_begun three_bytes

replay_journal-torn_example :
    replay_journal at_start
      ((frame job_created 1 [] ++ []) ++ take 3 (frame pass_started 2 (5 ∷ [])))
    ≡ (do next ← replay_records at_start (u64 (0 + 1)) (created ∷ []); ok (requeued next))
replay_journal-torn_example =
    replay_journal-torn at_start (created ∷ []) pass_begun (frame job_created 1 [] ++ [])
      (frame pass_started 2 (5 ∷ [])) 3 (created-IsStorable, tt) journal_of-created
      pass_begun-IsStorable write_pass_begun three_bytes

replay_loop_enough_example :
    replay_loop 2 at_start 1 (1 ∷ 0 ∷ []) ≡ replay_loop 9 at_start 1 (1 ∷ 0 ∷ [])
replay_loop_enough_example =
    replay_loop_enough 2 9 at_start 1 (1 ∷ 0 ∷ []) (omega arith) (omega arith)

replay_short_journal : replay_journal_within_capacity at_start (1 ∷ 0 ∷ []) 8 ≡ ok at_start
unfolding replay_journal_within_capacity replay_journal replay_loop unmarshal_journal_record
    validate_extent_set_within_capacity validate_extent_set check_capacity requeue_all validate
    validate_state_confidence validate_after
replay_short_journal = refl

replay_journal_within_capacity-Restored_example : Restored 8 (bad_part ∷ [])
replay_journal_within_capacity-Restored_example =
    replay_journal_within_capacity-Restored at_start at_start (1 ∷ 0 ∷ []) 8 replay_short_journal
