-- ===== src/Recovery/Scrape.antt =====
-- internal/recovery/scrape_pass.go: single sectors are tried again and again, in groups of reads
-- with a change of the drive between them.
pub mod Laws
pub mod Round
pub mod Run
use disc_rescue.Prelude.{
  ℕ, zero, suc, ◌+◌, ◌-◌, Bool, true, false, not, ◌||◌, ◌&&◌, Option, none, some, List, [], ◌∷◌,
  ◌++◌, ltb, ◌==◌, if◌then◌else◌, u8, u64, Result, ok, err, guard, ◌>>=◌, ◌>>◌,
}
use disc_rescue.Mapfile.State.{SectorState, unknown, skipped, io_error, missing, checksum_error}
use disc_rescue.Mapfile.Extent.{Extent, MapError, end_lba, validate_extent_set}
use disc_rescue.Recovery.Request.{Request, scrape_pass}

-- `ScrapeSpeedProfile`, a string; `no_speed` is the empty one.
pub data ScrapeSpeed : Type 0 where
  no_speed auto minimum : ScrapeSpeed

-- `ScrapeReadGroup`, a string; `no_group` is the empty one, `other_group n` any that is no constant.
pub data ScrapeGroup : Type 0 where
  no_group immediate reverse lower_speed reopen reset : ScrapeGroup
  other_group : ℕ → ScrapeGroup

-- `ScrapeDecisionKind`, a string.
pub data ScrapeKind : Type 0 where
  read delay set_speed reopen_device reset_device wait_backpressure done : ScrapeKind
  other_kind : ℕ → ScrapeKind

pub record ScrapeDecision : Type 0 where
  pub kind : ScrapeKind
  pub request : Option Request  -- none is the zero value
  pub reversed : Bool
  pub speed : ScrapeSpeed
  pub sector_lba : ℕ  -- uint64

pub record ScrapeSector : Type 0 where
  pub lba : ℕ  -- uint64
  pub group : ScrapeGroup
  pub reads_in_group : ℕ  -- uint8
  pub delay_pending : Bool
  pub speed_pending : Bool
  pub reopen_pending : Bool
  pub reset_pending : Bool

pub record ScrapeState : Type 0 where
  pub queue : List ScrapeSector
  pub delay_budget : ℕ  -- uint16
  pub speed_budget : ℕ  -- uint16
  pub reopen_budget : ℕ  -- uint16
  pub reset_budget : ℕ  -- uint16
  pub reset_enabled : Bool
  pub speed_supported : Bool
  pub current_speed : ScrapeSpeed
  pub active_decision : Option ScrapeDecision
  pub recovered_sectors : List ℕ
  pub failed_sectors : List ℕ

pub record ScrapeOutcome : Type 0 where
  pub sector_lba : ℕ  -- uint64
  pub success : Bool

pub data ScrapeError : Type 0 where
  still_active no_active_action no_queued_sectors wrong_sector wrong_outcome : ScrapeError
  delay_exhausted speed_exhausted reopen_exhausted reset_exhausted unsupported_decision :
      ScrapeError
  bad_extents : MapError → ScrapeError

abbrev pub lift_extents : Result MapError Unit → Result ScrapeError Unit
lift_extents (ok u) = ok u
lift_extents (err e) = err (bad_extents e)

unfoldable pub schedulable_scrape_state : SectorState → Bool
schedulable_scrape_state unknown = true
schedulable_scrape_state skipped = true
schedulable_scrape_state io_error = true
schedulable_scrape_state missing = true
schedulable_scrape_state checksum_error = true
schedulable_scrape_state _ = false

abbrev pub new_sector : ℕ → ScrapeSector
new_sector lba = record {
  lba = lba;
  group = immediate;
  reads_in_group = 0;
  delay_pending = false;
  speed_pending = false;
  reopen_pending = false;
  reset_pending = false;
}

-- The inner loop of `StartScrapePass`: so many sectors from `lba` on.
unfoldable pub sectors_from : ℕ → ℕ → List ScrapeSector
sectors_from lba zero = []
sectors_from lba (suc n) = new_sector lba ∷ sectors_from (lba + 1) n

unfoldable pub scrape_queue : List Extent → List ScrapeSector
scrape_queue [] = []
scrape_queue (e ∷ es) =
    if schedulable_scrape_state e.state
    then sectors_from e.start_lba (end_lba e - e.start_lba) ++ scrape_queue es
    else scrape_queue es

unfoldable pub start_scrape_pass :
    List Extent → ℕ → ℕ → ℕ → ℕ → Bool → Bool → Result ScrapeError ScrapeState
start_scrape_pass es delays speeds reopens resets speed_supported reset_enabled = do
  lift_extents (validate_extent_set es)
  ok (record {
    queue = scrape_queue es;
    delay_budget = delays;
    speed_budget = speeds;
    reopen_budget = reopens;
    reset_budget = resets;
    reset_enabled = reset_enabled;
    speed_supported = speed_supported;
    current_speed = auto;
    active_decision = none;
    recovered_sectors = [];
    failed_sectors = [];
  })

abbrev pub plain_decision : ScrapeKind → ℕ → ScrapeDecision
plain_decision k lba = record {
  kind = k;
  request = none;
  reversed = false;
  speed = no_speed;
  sector_lba = lba;
}

abbrev pub is_reverse : ScrapeGroup → Bool
is_reverse reverse = true
is_reverse _ = false

abbrev pub read_decision : ScrapeSector → ScrapeDecision
read_decision x = record {
  kind = read;
  request = some (scrape_pass x.lba 1);
  reversed = is_reverse x.group;
  speed = no_speed;
  sector_lba = x.lba;
}

-- The `switch` of `DispatchScrapePass`.
unfoldable pub decision_for : ScrapeSector → Bool → ScrapeDecision
decision_for x writer_available =
    if x.delay_pending
    then plain_decision delay x.lba
    else if x.speed_pending
    then record (plain_decision set_speed x.lba) { speed = minimum }
    else if x.reopen_pending
    then plain_decision reopen_device x.lba
    else if x.reset_pending
    then plain_decision reset_device x.lba
    else if writer_available
    then read_decision x
    else plain_decision wait_backpressure 0

abbrev pub is_wait : ScrapeKind → Bool
is_wait wait_backpressure = true
is_wait _ = false

abbrev pub dispatched_scrape : ScrapeState → ScrapeDecision → ScrapeState × ScrapeDecision
dispatched_scrape s d = (if is_wait d.kind then s else record s { active_decision = some d }, d)

-- `DispatchScrapePass`; an error leaves the state as it is.
unfoldable pub dispatch_scrape_pass :
    ScrapeState → Bool → Result ScrapeError (ScrapeState × ScrapeDecision)
dispatch_scrape_pass s writer_available = elim (s.active_decision) [
  | some d ↦ err still_active
  | none ↦ elim (s.queue) [
    | [] ↦ ok (s, plain_decision done 0)
    | x ∷ rest ↦ ok (dispatched_scrape s (decision_for x writer_available))
  ]
]

unfoldable pub scrape_reads_per_group : ScrapeGroup → ℕ
scrape_reads_per_group immediate = 2
scrape_reads_per_group reverse = 2
scrape_reads_per_group lower_speed = 2
scrape_reads_per_group reopen = 1
scrape_reads_per_group reset = 1
scrape_reads_per_group _ = 0

-- The groups that may come next, in their order, as far as the budgets allow.
unfoldable pub to_reset : ScrapeState → ScrapeSector → ScrapeSector
to_reset s x =
    if s.reset_enabled && ltb 0 s.reset_budget
    then record x { group = reset; reset_pending = true }
    else record x { group = no_group }

unfoldable pub to_reopen : ScrapeState → ScrapeSector → ScrapeSector
to_reopen s x =
    if ltb 0 s.reopen_budget
    then record x { group = reopen; reopen_pending = true }
    else to_reset s x

unfoldable pub to_lower_speed : ScrapeState → ScrapeSector → ScrapeSector
to_lower_speed s x =
    if s.speed_supported && ltb 0 s.speed_budget
    then record x { group = lower_speed; speed_pending = true }
    else to_reopen s x

-- The `switch` of `advanceScrapeSector`.
unfoldable pub next_group : ScrapeGroup → ScrapeState → ScrapeSector → ScrapeSector
next_group immediate s x = record x { group = reverse }
next_group reverse s x = to_lower_speed s x
next_group lower_speed s x = to_reopen s x
next_group reopen s x = to_reset s x
next_group _ s x = record x { group = no_group }

unfoldable pub advance_scrape_sector : ScrapeSector → ScrapeState → ScrapeSector
advance_scrape_sector x s =
    let reads = u8 (x.reads_in_group + 1) in
    if ltb reads (scrape_reads_per_group x.group)
    then record x {
      reads_in_group = reads;
      delay_pending = if ltb 0 s.delay_budget then true else x.delay_pending;
    }
    else next_group x.group s (record x { reads_in_group = 0; delay_pending = false })

abbrev pub is_no_group : ScrapeGroup → Bool
is_no_group no_group = true
is_no_group _ = false

-- A failed read, with the sector as it goes on.
unfoldable pub after_failed_read : ScrapeDecision → ScrapeState → ScrapeSector → ScrapeState
after_failed_read d s x =
    if is_no_group x.group
    then record s { failed_sectors = s.failed_sectors ++ d.sector_lba ∷ [] }
    else record s { queue = s.queue ++ x ∷ [] }

-- The `switch` of `ResolveScrapePass`; `s` has no active decision and the queue behind the sector.
unfoldable pub resolve_scrape_in :
    ScrapeKind → ScrapeDecision → ScrapeState → ScrapeSector → Bool → Result ScrapeError ScrapeState
resolve_scrape_in delay d s x success = do
  guard (not (s.delay_budget == 0)) delay_exhausted
  ok (record s {
    delay_budget = s.delay_budget - 1;
    queue = s.queue ++ record x { delay_pending = false } ∷ [];
  })
resolve_scrape_in set_speed d s x success = do
  guard (not (s.speed_budget == 0)) speed_exhausted
  ok (record s {
    speed_budget = s.speed_budget - 1;
    current_speed = d.speed;
    queue = s.queue ++ record x { speed_pending = false } ∷ [];
  })
resolve_scrape_in reopen_device d s x success = do
  guard (not (s.reopen_budget == 0)) reopen_exhausted
  ok (record s {
    reopen_budget = s.reopen_budget - 1;
    queue = s.queue ++ record x { reopen_pending = false } ∷ [];
  })
resolve_scrape_in reset_device d s x success = do
  guard (not (s.reset_budget == 0)) reset_exhausted
  ok (record s {
    reset_budget = s.reset_budget - 1;
    queue = s.queue ++ record x { reset_pending = false } ∷ [];
  })
resolve_scrape_in read d s x success =
    if success
    then ok (record s { recovered_sectors = s.recovered_sectors ++ x.lba ∷ [] })
    else ok (after_failed_read d s (advance_scrape_sector x s))
resolve_scrape_in _ d s x success = err unsupported_decision

-- `ResolveScrapePass`; an error leaves the state as it is.
unfoldable pub resolve_scrape_pass : ScrapeState → ScrapeOutcome → Result ScrapeError ScrapeState
resolve_scrape_pass s o = elim (s.active_decision) [
  | none ↦ err no_active_action
  | some d ↦ elim (s.queue) [
    | [] ↦ err no_queued_sectors
    | x ∷ rest ↦ do
      guard (d.sector_lba == x.lba) wrong_sector
      guard (not (not (o.sector_lba == 0) && not (o.sector_lba == x.lba))) wrong_outcome
      resolve_scrape_in d.kind d (record s { active_decision = none; queue = rest }) x o.success
  ]
]
