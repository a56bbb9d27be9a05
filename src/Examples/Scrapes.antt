-- ===== src/Examples/Scrapes.antt =====
-- A scrape pass over the four sectors of the bad part of a map.
use disc_rescue.Prelude.{
  ◌≡◌, refl, true, false, Bool, none, List, [], ◌∷◌, ◌++◌, arith, ok, err, All,
}
use disc_rescue.Mapfile.Extent.{validate, validate_extent_set, validate_after, end_lba}
use disc_rescue.Mapfile.State.{validate_state_confidence}
use disc_rescue.Recovery.Scrape.{
  ScrapeState, auto, sectors_from, scrape_queue, schedulable_scrape_state, start_scrape_pass,
  new_sector, delay_exhausted, dispatch_scrape_pass, resolve_scrape_pass, decision_for,
  resolve_scrape_in, after_failed_read, advance_scrape_sector, scrape_reads_per_group,
}
use disc_rescue.Recovery.Scrape.Laws.{IsScrapable}
use disc_rescue.Recovery.Scrape.Round.{scrape_round}
use disc_rescue.Recovery.Scrape.Run.{
  run_scrape, EndsOrExhausted, run_scrape-EndsOrExhausted, scrape_queue-IsScrapable,
}
use disc_rescue.Examples.Maps.{bad_part}

abbrev scrape_start : ScrapeState
scrape_start = record {
  queue = new_sector 4 ∷ new_sector 5 ∷ new_sector 6 ∷ new_sector 7 ∷ [];
  delay_budget = 40;
  speed_budget = 4;
  reopen_budget = 4;
  reset_budget = 0;
  reset_enabled = false;
  speed_supported = true;
  current_speed = auto;
  active_decision = none;
  recovered_sectors = [];
  failed_sectors = [];
}

scrape_started : start_scrape_pass (bad_part ∷ []) 40 4 4 0 true false ≡ ok scrape_start
unfolding start_scrape_pass scrape_queue sectors_from schedulable_scrape_state end_lba
    validate_extent_set validate_after validate validate_state_confidence
scrape_started = refl

abbrev ten_outcomes : List Bool
ten_outcomes = false ∷ true ∷ false ∷ false ∷ false ∷ true ∷ false ∷ false ∷ false ∷ false ∷ []

abbrev outcomes : List Bool
outcomes =
    ten_outcomes
    ++ (ten_outcomes
        ++ (ten_outcomes ++ (ten_outcomes ++ (ten_outcomes ++ (ten_outcomes ++ ten_outcomes)))))

start-IsScrapable : All IsScrapable scrape_start.queue
unfolding scrape_queue sectors_from schedulable_scrape_state end_lba
start-IsScrapable = scrape_queue-IsScrapable (bad_part ∷ [])

run_scrape-EndsOrExhausted_example : EndsOrExhausted scrape_start (run_scrape scrape_start outcomes)
run_scrape-EndsOrExhausted_example =
    run_scrape-EndsOrExhausted scrape_start outcomes refl start-IsScrapable (omega arith)

-- Two sectors, and a budget of one delay.
abbrev two_sectors : ScrapeState
two_sectors = record scrape_start { queue = new_sector 4 ∷ new_sector 5 ∷ []; delay_budget = 1 }

two_sectors_stuck : run_scrape two_sectors (false ∷ false ∷ true ∷ true ∷ []) ≡ err delay_exhausted
unfolding run_scrape scrape_round dispatch_scrape_pass resolve_scrape_pass decision_for
    resolve_scrape_in after_failed_read advance_scrape_sector scrape_reads_per_group
two_sectors_stuck = refl
