-- ===== src/Recovery/Scrape/Run.antt =====
-- A scrape pass, run over given outcomes of its reads, with the writer available.
use disc_rescue.Prelude.{
  ℕ, zero, suc, ◌+◌, ◌-◌, ◌<◌, ◌≡◌, refl, sym, ap, subst, ◌∙◌, inl, inr, Bool, Bool-cases, List, [],
  ◌∷◌, arith, length, All, All-append, none, Result, ok, err, ◌>>=◌,
}
use disc_rescue.Recovery.Scrape.{
  schedulable_scrape_state, sectors_from, scrape_queue, ScrapeSector, ScrapeState, ScrapeError,
  scrape_reads_per_group,
}
use disc_rescue.Mapfile.Extent.{Extent, end_lba}
use disc_rescue.Recovery.Scrape.Laws.{weight, IsScrapable}
use disc_rescue.Recovery.Scrape.Round.{
  scrape_round, load, queued_times, accounted, IsExhausted, Acted, behind, scrape_round-Acted,
}

-- Actions with these outcomes, until no sector is queued or the outcomes end.
unfoldable pub run_scrape : ScrapeState → List Bool → Result ScrapeError ScrapeState
run_scrape s [] = ok s
run_scrape s (b ∷ bs) = elim (s.queue) [
  | [] ↦ ok s
  | x ∷ rest ↦ do s' ← scrape_round s b; run_scrape s' bs
]

-- A pass that ends: no sector is queued, and each has been recovered or given up as often as it was
-- queued, recovered or given up before.
pub record Ended (s s' : ScrapeState) : Type 0 where
  pub all_done : s'.queue ≡ []
  pub all_kept : (lba : ℕ) → accounted s' lba ≡ accounted s lba

-- The result of a run: an exhausted budget, or the end of the pass.
abbrev pub EndsOrExhausted : ScrapeState → Result ScrapeError ScrapeState → Type 0
EndsOrExhausted s (err e) = IsExhausted e
EndsOrExhausted s (ok s') = Ended s s'

EndsOrExhausted-after :
    (s t : ScrapeState) (r : Result ScrapeError ScrapeState)
    → ((lba : ℕ) → accounted t lba ≡ accounted s lba)
    → EndsOrExhausted t r
    → EndsOrExhausted s r
EndsOrExhausted-after s t (err e) k h = h
EndsOrExhausted-after s t (ok s') k h = record {
  all_done = h.all_done;
  all_kept = λ lba. h.all_kept lba ∙ k lba;
}

with_queue : (s : ScrapeState) (q : List ScrapeSector) → s.queue ≡ q → record s { queue = q } ≡ s
with_queue s q e = λ i. record s { queue = sym e i }

run_scrape-empty :
    (s : ScrapeState) (b : Bool) (bs : List Bool) → s.queue ≡ [] → run_scrape s (b ∷ bs) ≡ ok s
unfolding run_scrape
run_scrape-empty s b bs e = subst (λ z. run_scrape z (b ∷ bs) ≡ ok z) (with_queue s [] e) refl

run_scrape-round :
    (s : ScrapeState) (x : ScrapeSector) (rest : List ScrapeSector) (b : Bool) (bs : List Bool)
    → s.queue ≡ x ∷ rest
    → run_scrape s (b ∷ bs) ≡ (do s' ← scrape_round s b; run_scrape s' bs)
unfolding run_scrape
run_scrape-round s x rest b bs e =
    subst (λ z. run_scrape z (b ∷ bs) ≡ (do s' ← scrape_round z b; run_scrape s' bs))
      (with_queue s (x ∷ rest) e) refl

-- A round, and then a run that ends.
round_then :
    (s : ScrapeState) (bs : List Bool) (x : ScrapeSector) (rest : List ScrapeSector)
    (r : Result ScrapeError ScrapeState)
    → s.queue ≡ x ∷ rest
    → load s.queue < suc (length bs)
    → Acted x.lba (weight x) (behind s rest) r
    → ((t : ScrapeState)
        → t.active_decision ≡ none
        → All IsScrapable t.queue
        → load t.queue < length bs
        → EndsOrExhausted t (run_scrape t bs))
    → EndsOrExhausted s (r >>= λ t. run_scrape t bs)
round_then s bs x rest (err e) q h acted later = acted
round_then s bs x rest (ok t) q h acted later =
    EndsOrExhausted-after s t (run_scrape t bs)
      (λ lba. acted.kept lba ∙ omega (arith, ap (λ z. queued_times z lba) q))
      (later t acted.idle acted.scrapable (omega (arith, acted.lighter, h, ap load q)))

-- A scrape pass with nothing active, whose queued sectors are in groups with reads left, that is
-- given more outcomes than the work its queue has left, is refused an action for want of a budget,
-- or it ends with no sector queued, each sector having been recovered or given up as often as it
-- was queued, recovered or given up before.
pub run_scrape-EndsOrExhausted :
    (s : ScrapeState) (bs : List Bool)
    → s.active_decision ≡ none
    → All IsScrapable s.queue
    → load s.queue < length bs
    → EndsOrExhausted s (run_scrape s bs)
run_scrape-EndsOrExhausted s [] e a h = absurd (omega (arith, h))
run_scrape-EndsOrExhausted s (b ∷ bs) e a h =
    from_queue s.queue refl (λ t te ta th. run_scrape-EndsOrExhausted t bs te ta th)
  where
    from_queue :
        (q : List ScrapeSector)
        → s.queue ≡ q
        → ((t : ScrapeState)
            → t.active_decision ≡ none
            → All IsScrapable t.queue
            → load t.queue < length bs
            → EndsOrExhausted t (run_scrape t bs))
        → EndsOrExhausted s (run_scrape s (b ∷ bs))
    from_queue [] eq later =
        subst (EndsOrExhausted s) (sym (run_scrape-empty s b bs eq))
          (record { all_done = eq; all_kept = λ lba. refl })
    from_queue (x ∷ rest) eq later =
        let (v, vs) = subst (All IsScrapable) eq a in
        subst (EndsOrExhausted s) (sym (run_scrape-round s x rest b bs eq)) (
          round_then s bs x rest (scrape_round s b) eq h (scrape_round-Acted s x rest b e eq v vs)
            later)

-- A sector that has not been read yet has 16 actions before it at most.
sectors_from-IsScrapable : (lba n : ℕ) → All IsScrapable (sectors_from lba n)
unfolding sectors_from scrape_reads_per_group
sectors_from-IsScrapable lba zero = tt
sectors_from-IsScrapable lba (suc n) = (omega arith, sectors_from-IsScrapable (lba + 1) n)

pub scrape_queue-IsScrapable : (es : List Extent) → All IsScrapable (scrape_queue es)
unfolding scrape_queue
scrape_queue-IsScrapable [] = tt
scrape_queue-IsScrapable (e ∷ es) = elim (Bool-cases (schedulable_scrape_state e.state)) [
  | inl t ↦ rw t (
      All-append IsScrapable (sectors_from e.start_lba (end_lba e - e.start_lba)) (scrape_queue es)
        (sectors_from-IsScrapable e.start_lba (end_lba e - e.start_lba))
        (scrape_queue-IsScrapable es))
  | inr t ↦ rw t (scrape_queue-IsScrapable es)
]
