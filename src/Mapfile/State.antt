-- ===== src/Mapfile/State.antt =====
-- internal/mapfile/format.go and transitions.go: the state of a sector, how far it is trusted,
-- and which changes of both are allowed.
use disc_rescue.Prelude.{
  ℕ, ◌+◌, ◌-◌, ◌≡◌, refl, sym, ap, ◌∙◌, arith, Bool, true, false, ◌&&◌, ◌||◌, not, ltb, ◌==◌,
  if◌then◌else◌, Result, ok, err, guard, ◌>>◌, >>-eq-ok, guard-eq-ok,
}

-- `SectorState`, a uint8. `invalid n` is the unsupported code 10 + n, which a decoder may meet.
pub data SectorState : Type 0 where
  unknown queued read_unverified verified missing io_error : SectorState
  checksum_error conflicting reconstructed skipped : SectorState
  invalid : ℕ → SectorState

-- `Confidence`, a uint8. `invalid n` is the unsupported code 6 + n.
pub data Confidence : Type 0 where
  no_confidence single_read repeated_single_capture : Confidence
  repeated_independent_capture trusted_checksum reconstructed_checksum : Confidence
  invalid_confidence : ℕ → Confidence

pub data StateError : Type 0 where
  unsupported_state unsupported_confidence wrong_confidence : StateError
  confidence_reduced data_lost demoted confidence_demoted conflict_to_unverified : StateError

-- The numeric values of the constants.
abbrev pub state_code : SectorState → ℕ
state_code unknown = 0
state_code queued = 1
state_code read_unverified = 2
state_code verified = 3
state_code missing = 4
state_code io_error = 5
state_code checksum_error = 6
state_code conflicting = 7
state_code reconstructed = 8
state_code skipped = 9
state_code (invalid n) = 10 + n

abbrev pub confidence_code : Confidence → ℕ
confidence_code no_confidence = 0
confidence_code single_read = 1
confidence_code repeated_single_capture = 2
confidence_code repeated_independent_capture = 3
confidence_code trusted_checksum = 4
confidence_code reconstructed_checksum = 5
confidence_code (invalid_confidence n) = 6 + n

unfoldable pub validate_sector_state : SectorState → Result StateError Unit
validate_sector_state s =
    if ltb (state_code s) (state_code unknown) || ltb (state_code skipped) (state_code s)
    then err unsupported_state
    else ok tt

unfoldable pub validate_confidence : Confidence → Result StateError Unit
validate_confidence c =
    if ltb (confidence_code c) (confidence_code no_confidence)
      || ltb (confidence_code reconstructed_checksum) (confidence_code c)
    then err unsupported_confidence
    else ok tt

-- The `switch` of `ValidateStateConfidence`: which confidence a state may carry.
abbrev pub confidence_allowed : SectorState → Confidence → Bool
confidence_allowed read_unverified c = confidence_code c == confidence_code single_read
confidence_allowed verified c = not (
    ltb (confidence_code c) (confidence_code repeated_single_capture)
    || ltb (confidence_code trusted_checksum) (confidence_code c))
confidence_allowed reconstructed c = confidence_code c == confidence_code reconstructed_checksum
confidence_allowed (invalid n) c = true
confidence_allowed _ c = confidence_code c == confidence_code no_confidence

unfoldable pub validate_state_confidence : SectorState → Confidence → Result StateError Unit
unfolding validate_sector_state validate_confidence
validate_state_confidence s c = do
  validate_sector_state s
  validate_confidence c
  guard (confidence_allowed s c) wrong_confidence

unfoldable pub state_claims_image_data : SectorState → Bool
state_claims_image_data read_unverified = true
state_claims_image_data verified = true
state_claims_image_data checksum_error = true
state_claims_image_data conflicting = true
state_claims_image_data reconstructed = true
state_claims_image_data _ = false

-- The last `switch` of `ValidateTransition`.
abbrev check_demotion : SectorState → Confidence → SectorState → Confidence → Result StateError Unit
check_demotion verified c read_unverified d = err demoted
check_demotion reconstructed c t d =
    if ltb (confidence_code d) (confidence_code c) then err confidence_demoted else ok tt
check_demotion conflicting c read_unverified d = err conflict_to_unverified
check_demotion _ c t d = ok tt

unfoldable pub validate_transition :
    SectorState → Confidence → SectorState → Confidence → Result StateError Unit
validate_transition s c t d = do
  validate_state_confidence s c
  validate_state_confidence t d
  guard (not (state_code t == state_code s && ltb (confidence_code d) (confidence_code c)))
      confidence_reduced
  guard (not (state_claims_image_data s && not (state_claims_image_data t))) data_lost
  check_demotion s c t d

-- `SectorState(b)` and `Confidence(b)`: the conversions of a byte.
unfoldable pub state_of_code : ℕ → SectorState
state_of_code n =
    if n == 0
    then unknown
    else if n == 1
    then queued
    else if n == 2
    then read_unverified
    else if n == 3
    then verified
    else if n == 4
    then missing
    else if n == 5
    then io_error
    else if n == 6
    then checksum_error
    else if n == 7
    then conflicting
    else if n == 8
    then reconstructed
    else if n == 9
    then skipped
    else invalid (n - 10)

unfoldable pub confidence_of_code : ℕ → Confidence
confidence_of_code n =
    if n == 0
    then no_confidence
    else if n == 1
    then single_read
    else if n == 2
    then repeated_single_capture
    else if n == 3
    then repeated_independent_capture
    else if n == 4
    then trusted_checksum
    else if n == 5
    then reconstructed_checksum
    else invalid_confidence (n - 6)

pub state_of_code-state_code : (s : SectorState) → state_of_code (state_code s) ≡ s
unfolding state_of_code
state_of_code-state_code (invalid n) = ground arith
state_of_code-state_code unknown = refl
state_of_code-state_code _ = refl

pub confidence_of_code-confidence_code :
    (c : Confidence) → confidence_of_code (confidence_code c) ≡ c
unfolding confidence_of_code
confidence_of_code-confidence_code (invalid_confidence n) = ground arith
confidence_of_code-confidence_code no_confidence = refl
confidence_of_code-confidence_code _ = refl

pub state_code-injective : (s t : SectorState) → state_code s ≡ state_code t → s ≡ t
state_code-injective s t h =
    sym (state_of_code-state_code s) ∙ ap state_of_code h ∙ state_of_code-state_code t

pub confidence_code-injective : (c d : Confidence) → confidence_code c ≡ confidence_code d → c ≡ d
confidence_code-injective c d h =
    sym (confidence_of_code-confidence_code c)
    ∙ ap confidence_of_code h
    ∙ confidence_of_code-confidence_code d

-- A transition that is accepted goes between two allowed pairs and keeps image data.
pub validate_transition-allowed :
    (s : SectorState) (x : Confidence) (t : SectorState) (y : Confidence)
    → validate_transition s x t y ≡ ok tt
    → (validate_state_confidence s x ≡ ok tt)
      × (validate_state_confidence t y ≡ ok tt)
      × (state_claims_image_data s ≡ true → state_claims_image_data t ≡ true)
unfolding validate_transition
validate_transition-allowed s x t y h =
    let (h1, h2) = >>-eq-ok (validate_state_confidence s x) _ h in
    let (h3, h4) = >>-eq-ok (validate_state_confidence t y) _ h2 in
    let (h5, h6) =
      guard-eq-ok
        (not (state_code t == state_code s && ltb (confidence_code y) (confidence_code x)))
        confidence_reduced _ h4 in
    let (h7, h8) =
      guard-eq-ok (not (state_claims_image_data s && not (state_claims_image_data t))) data_lost _
        h6 in
    (h1, h3, λ c. ground arith)

-- An allowed pair may always be recorded again.
pub validate_transition_self :
    (s : SectorState) (x : Confidence)
    → validate_state_confidence s x ≡ ok tt
    → validate_transition s x s x ≡ ok tt
unfolding validate_transition state_claims_image_data
validate_transition_self (invalid n) x h = rw h (ground arith)
validate_transition_self unknown x h = rw h (ground arith)
validate_transition_self _ x h = rw h (ground arith)
