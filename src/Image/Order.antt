-- ===== src/Image/Order.antt =====
-- The journal never tells of data that the image does not have.
use disc_rescue.Prelude.{
  ℕ, ◌+◌, ◌<◌, arith, ◌≡◌, refl, sym, subst, true, false, not, ◌||◌, List, ◌==◌, ok, >>-eq-ok,
  guard-eq-ok, ◌⊎◌, inl, inr,
}
use disc_rescue.Mapfile.Extent.{validate}
use disc_rescue.Image.{build_positioned_writes}
use disc_rescue.Image.Commit.{
  DurabilityProfile, fast, strict, CommitStage, validate_bounds, write_image, sync_image,
  append_journal, other_stage, RecoveredSectorCommit, profile_required, wrong_sector_size,
  not_recovered, different_sector, lift_extent, lift_plan, is_given, is_recovered,
  recovered_actions, build_recovered_sector_commit, simulate_crash, contains,
}

-- The actions that are returned are those of the profile.
built_actions :
    (c : RecoveredSectorCommit) (actions : List CommitStage)
    → build_recovered_sector_commit c ≡ ok actions
    → recovered_actions c.profile ≡ actions
unfolding build_recovered_sector_commit
built_actions c actions h =
    let (_, h1) = guard-eq-ok (is_given c.profile) profile_required _ h in
    let (_, h2) =
      guard-eq-ok (c.write.logical_sector_size == c.logical_sector_size) wrong_sector_size _ h1 in
    let (_, h3) = guard-eq-ok (is_recovered c.extent.state) not_recovered _ h2 in
    let (_, h4) = >>-eq-ok (lift_extent (validate c.extent)) _ h3 in
    let (_, h5) = >>-eq-ok (lift_plan (build_positioned_writes _)) _ h4 in
    let (_, h6) =
      guard-eq-ok (not (not (c.write.lba == c.extent.start_lba) || not (c.extent.sectors == 1)))
        different_sector _ h5 in
    cc

-- What a crash at any stage leaves of a recovered sector's actions: where its record was appended
-- to the journal, its data were written to the image, and were synced in the strict profile.
abbrev pub IsOrdered : DurabilityProfile → List CommitStage → Type 0
IsOrdered strict left =
    (contains left append_journal ≡ false)
    ⊎ ((contains left write_image ≡ true) × (contains left sync_image ≡ true))
IsOrdered _ left = (contains left append_journal ≡ false) ⊎ (contains left write_image ≡ true)

other_code : (k n : ℕ) → k < 6 → (k == 6 + n) ≡ false
other_code k n h = ground (arith, h)

-- A stage that no action has cuts nothing off.
simulate_crash-other_stage :
    (p : DurabilityProfile) (n : ℕ)
    → simulate_crash (recovered_actions p) (other_stage n) ≡ recovered_actions p
unfolding simulate_crash
simulate_crash-other_stage strict n = rw (
  other_code 0 n (omega arith),
  other_code 1 n (omega arith),
  other_code 2 n (omega arith),
  other_code 3 n (omega arith),
  other_code 4 n (omega arith),
  other_code 5 n (omega arith),
)
simulate_crash-other_stage fast n = rw (
  other_code 0 n (omega arith),
  other_code 1 n (omega arith),
  other_code 3 n (omega arith),
  other_code 4 n (omega arith),
  other_code 5 n (omega arith),
)
simulate_crash-other_stage _ n = rw (
  other_code 0 n (omega arith),
  other_code 1 n (omega arith),
  other_code 3 n (omega arith),
  other_code 4 n (omega arith),
  other_code 5 n (omega arith),
)

all-IsOrdered : (p : DurabilityProfile) → IsOrdered p (recovered_actions p)
unfolding contains
all-IsOrdered strict = inr (refl, refl)
all-IsOrdered fast = inr refl
all-IsOrdered _ = inr refl

actions-IsOrdered :
    (p : DurabilityProfile) (stage : CommitStage)
    → IsOrdered p (simulate_crash (recovered_actions p) stage)
unfolding simulate_crash contains
actions-IsOrdered p (other_stage n) =
    subst (IsOrdered p) (sym (simulate_crash-other_stage p n)) (all-IsOrdered p)
actions-IsOrdered strict validate_bounds = inl refl
actions-IsOrdered strict write_image = inl refl
actions-IsOrdered strict sync_image = inl refl
actions-IsOrdered strict append_journal = inl refl
actions-IsOrdered strict _ = inr (refl, refl)
actions-IsOrdered fast validate_bounds = inl refl
actions-IsOrdered fast write_image = inl refl
actions-IsOrdered fast append_journal = inl refl
actions-IsOrdered fast _ = inr refl
actions-IsOrdered _ validate_bounds = inl refl
actions-IsOrdered _ write_image = inl refl
actions-IsOrdered _ append_journal = inl refl
actions-IsOrdered _ _ = inr refl

-- For the actions that `BuildRecoveredSectorCommit` returns, and a crash at any stage: where the
-- record was appended to the journal, the data were written to the image before, and in the strict
-- profile the image was synced before.
pub simulate_crash-IsOrdered :
    (c : RecoveredSectorCommit) (actions : List CommitStage) (stage : CommitStage)
    → build_recovered_sector_commit c ≡ ok actions
    → IsOrdered c.profile (simulate_crash actions stage)
simulate_crash-IsOrdered c actions stage h =
    subst (λ left. IsOrdered c.profile (simulate_crash left stage)) (built_actions c actions h)
      (actions-IsOrdered c.profile stage)
