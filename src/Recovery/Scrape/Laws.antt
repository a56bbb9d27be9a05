-- ===== src/Recovery/Scrape/Laws.antt =====
-- A sector that a scrape pass reads again has less work left each time.
use disc_rescue.Prelude.{
  ℕ, zero, suc, ◌+◌, ◌-◌, ◌*◌, ◌<◌, ◌≡◌, refl, ◌⊎◌, inl, inr, Bool, true, false, ltb, arith,
  Bool-cases, ◌&&◌,
}
use disc_rescue.Recovery.Scrape.{
  ScrapeGroup, no_group, immediate, reverse, lower_speed, reopen, reset, other_group, ScrapeSector,
  ScrapeState, scrape_reads_per_group, to_reset, to_reopen, to_lower_speed, next_group,
  advance_scrape_sector, is_no_group,
}

-- The failed reads that a sector of this group has before it at most.
abbrev pub reads_left : ScrapeGroup → ℕ → ℕ
reads_left immediate n = 6 + (2 - n)
reads_left reverse n = 4 + (2 - n)
reads_left lower_speed n = 2 + (2 - n)
reads_left reopen n = 1 + (1 - n)
reads_left reset n = 1 - n
reads_left _ n = 0

abbrev pub flag : Bool → ℕ
flag true = 1
flag false = 0

-- Each failed read asks for at most one change of the drive.
abbrev pub weight : ScrapeSector → ℕ
weight x =
    2 * reads_left x.group x.reads_in_group
    + (flag x.delay_pending
        + (flag x.speed_pending + (flag x.reopen_pending + flag x.reset_pending)))

abbrev pub IsScrapable : ScrapeSector → Type 0
IsScrapable x = x.reads_in_group < scrape_reads_per_group x.group

-- What a failed read leaves of a sector: it is given up, or it is scrapable and lighter than `w`.
abbrev pub Lighter : ℕ → ℕ → ScrapeSector → Type 0
Lighter l w y =
    (y.lba ≡ l)
    × ((is_no_group y.group ≡ true)
        ⊎ ((is_no_group y.group ≡ false) × (weight y < w) × IsScrapable y))

module _ (l : ℕ) (s : ScrapeState) where
  abbrev pub ready : ScrapeGroup → ℕ → ScrapeSector
  ready g n = record {
    lba = l;
    group = g;
    reads_in_group = n;
    delay_pending = false;
    speed_pending = false;
    reopen_pending = false;
    reset_pending = false;
  }

  to_reset-Lighter : (w : ℕ) (g : ScrapeGroup) → 3 < w → Lighter l w (to_reset s (ready g 0))
  unfolding to_reset scrape_reads_per_group
  to_reset-Lighter w g h = elim (Bool-cases (s.reset_enabled && ltb 0 s.reset_budget)) [
    | inl t ↦ rw t (refl, inr (refl, omega (arith, h), omega arith))
    | inr t ↦ rw t (refl, inl refl)
  ]

  to_reopen-Lighter : (w : ℕ) (g : ScrapeGroup) → 5 < w → Lighter l w (to_reopen s (ready g 0))
  unfolding to_reopen scrape_reads_per_group
  to_reopen-Lighter w g h = elim (Bool-cases (ltb 0 s.reopen_budget)) [
    | inl t ↦ rw t (refl, inr (refl, omega (arith, h), omega arith))
    | inr t ↦ rw t (to_reset-Lighter w g (omega (arith, h)))
  ]

  to_lower_speed-Lighter :
      (w : ℕ) (g : ScrapeGroup) → 9 < w → Lighter l w (to_lower_speed s (ready g 0))
  unfolding to_lower_speed scrape_reads_per_group
  to_lower_speed-Lighter w g h = elim (Bool-cases (s.speed_supported && ltb 0 s.speed_budget)) [
    | inl t ↦ rw t (refl, inr (refl, omega (arith, h), omega arith))
    | inr t ↦ rw t (to_reopen-Lighter w g (omega (arith, h)))
  ]

  pub advance-Lighter :
      (g : ScrapeGroup) (n : ℕ)
      → IsScrapable (ready g n)
      → Lighter l (weight (ready g n)) (advance_scrape_sector (ready g n) s)
  unfolding advance_scrape_sector next_group scrape_reads_per_group
  advance-Lighter immediate zero h = (refl, inr (refl, ground arith, omega arith))
  advance-Lighter immediate (suc zero) h = (refl, inr (refl, ground arith, omega arith))
  advance-Lighter immediate (suc (suc n)) h = absurd (omega arith)
  advance-Lighter reverse zero h = (refl, inr (refl, ground arith, omega arith))
  advance-Lighter reverse (suc zero) h = to_lower_speed-Lighter 10 reverse (omega arith)
  advance-Lighter reverse (suc (suc n)) h = absurd (omega arith)
  advance-Lighter lower_speed zero h = (refl, inr (refl, ground arith, omega arith))
  advance-Lighter lower_speed (suc zero) h = to_reopen-Lighter 6 lower_speed (omega arith)
  advance-Lighter lower_speed (suc (suc n)) h = absurd (omega arith)
  advance-Lighter reopen zero h = to_reset-Lighter 4 reopen (omega arith)
  advance-Lighter reopen (suc n) h = absurd (omega arith)
  advance-Lighter reset zero h = (refl, inl refl)
  advance-Lighter reset (suc n) h = absurd (omega arith)
  advance-Lighter no_group n h = absurd (omega arith)
  advance-Lighter (other_group m) n h = absurd (omega arith)
