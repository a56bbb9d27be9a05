-- ===== src/Recovery/Request.antt =====
-- internal/recovery/scheduler.go and the constructors of requests.
use disc_rescue.Prelude.{ℕ, ◌+◌, Bool, ◌&&◌, ◌==◌}

-- `Strategy`, a string; `other_strategy n` is any string that is no constant.
pub data Strategy : Type 0 where
  fast trim adaptive scrape verify : Strategy
  other_strategy : ℕ → Strategy

abbrev pub strategy_code : Strategy → ℕ
strategy_code fast = 0
strategy_code trim = 1
strategy_code adaptive = 2
strategy_code scrape = 3
strategy_code verify = 4
strategy_code (other_strategy n) = 5 + n

pub record Request : Type 0 where
  pub start_lba : ℕ  -- uint64
  pub sectors : ℕ  -- uint32
  pub strategy : Strategy

-- `a == b` on requests.
abbrev pub request_eq : Request → Request → Bool
request_eq a b =
    a.start_lba == b.start_lba
    && (a.sectors == b.sectors && strategy_code a.strategy == strategy_code b.strategy)

unfoldable pub fast_pass : ℕ → ℕ → Request
fast_pass start sectors = record { start_lba = start; sectors = sectors; strategy = fast }

unfoldable pub trim_pass : ℕ → ℕ → Request
trim_pass start sectors = record { start_lba = start; sectors = sectors; strategy = trim }

unfoldable pub adaptive_pass : ℕ → ℕ → Request
adaptive_pass start sectors = record { start_lba = start; sectors = sectors; strategy = adaptive }

unfoldable pub scrape_pass : ℕ → ℕ → Request
scrape_pass start sectors = record { start_lba = start; sectors = sectors; strategy = scrape }
