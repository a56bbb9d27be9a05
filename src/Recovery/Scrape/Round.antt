-- ===== src/Recovery/Scrape/Round.antt =====
-- One action of a scrape pass with the writer available: it is dispatched, and resolved.
use disc_rescue.Prelude.{
  ℕ, ◌+◌, ◌<◌, ◌≡◌, refl, sym, ap, subst, ◌∙◌, inl, inr, Bool, Bool-cases, true, false, not, ◌&&◌,
  List, [], ◌∷◌, ◌++◌, arith, All, All-append, ◌==◌, if◌then◌else◌, none, Result, ok, err, ◌>>=◌,
}
use disc_rescue.Recovery.Scrape.{
  ScrapeGroup, no_group, immediate, reverse, lower_speed, reopen, reset, other_group,
  ScrapeDecision, ScrapeSector, ScrapeState, ScrapeError, delay_exhausted, speed_exhausted,
  reopen_exhausted, reset_exhausted, scrape_reads_per_group, decision_for, dispatch_scrape_pass,
  after_failed_read, resolve_scrape_in, resolve_scrape_pass,
}
use disc_rescue.Recovery.Scrape.Laws.{reads_left, weight, IsScrapable, Lighter, advance-Lighter}

-- One action: it is dispatched, and its outcome is resolved.
unfoldable pub scrape_round : ScrapeState → Bool → Result ScrapeError ScrapeState
scrape_round s success = do
  next ← dispatch_scrape_pass s true
  resolve_scrape_pass next.0 (record { sector_lba = next.1.sector_lba; success = success })

-- The work that a queue has left, in actions.
abbrev pub load : List ScrapeSector → ℕ
load [] = 0
load (x ∷ xs) = weight x + load xs

abbrev pub same_sector : ℕ → ℕ → ℕ
same_sector l lba = if l == lba then 1 else 0

-- How often a sector stands in a queue, and in a list of sectors.
abbrev pub queued_times : List ScrapeSector → ℕ → ℕ
queued_times [] lba = 0
queued_times (x ∷ xs) lba = same_sector x.lba lba + queued_times xs lba

abbrev pub listed_times : List ℕ → ℕ → ℕ
listed_times [] lba = 0
listed_times (l ∷ ls) lba = same_sector l lba + listed_times ls lba

-- How often a sector is still queued, was recovered, or was given up.
abbrev pub accounted : ScrapeState → ℕ → ℕ
accounted s lba =
    queued_times s.queue lba
    + (listed_times s.recovered_sectors lba + listed_times s.failed_sectors lba)

load_then : (xs : List ScrapeSector) (x : ScrapeSector) → load (xs ++ x ∷ []) ≡ weight x + load xs
load_then [] x = refl
load_then (y ∷ ys) x = omega (arith, load_then ys x)

queued_then :
    (xs : List ScrapeSector) (x : ScrapeSector) (lba : ℕ)
    → queued_times (xs ++ x ∷ []) lba ≡ same_sector x.lba lba + queued_times xs lba
queued_then [] x lba = refl
queued_then (y ∷ ys) x lba = omega (arith, queued_then ys x lba)

listed_then :
    (ls : List ℕ) (l lba : ℕ)
    → listed_times (ls ++ l ∷ []) lba ≡ same_sector l lba + listed_times ls lba
listed_then [] l lba = refl
listed_then (m ∷ ms) l lba = omega (arith, listed_then ms l lba)

-- A sector leaves the head of the queue of `s` with its action done.
pub record Advanced (l w : ℕ) (s s' : ScrapeState) : Type 0 where
  pub idle : s'.active_decision ≡ s.active_decision
  pub lighter : load s'.queue < w + load s.queue
  pub scrapable : All IsScrapable s'.queue
  pub kept : (lba : ℕ) → accounted s' lba ≡ same_sector l lba + accounted s lba

abbrev pub IsExhausted : ScrapeError → Type 0
IsExhausted delay_exhausted = Unit {0}
IsExhausted speed_exhausted = Unit {0}
IsExhausted reopen_exhausted = Unit {0}
IsExhausted reset_exhausted = Unit {0}
IsExhausted _ = ⊥

-- An action is refused because the budget of its change of the drive is used up, or it is done.
abbrev pub Acted : ℕ → ℕ → ScrapeState → Result ScrapeError ScrapeState → Type 0
Acted l w s (err e) = IsExhausted e
Acted l w s (ok s') = Advanced l w s s'

module _ (s : ScrapeState) (a : All IsScrapable s.queue) where
  -- The sector goes to the end of the queue.
  requeued-Advanced :
      (l w : ℕ) (x : ScrapeSector) (s' : ScrapeState)
      → x.lba ≡ l
      → weight x < w
      → IsScrapable x
      → s'.active_decision ≡ s.active_decision
      → s'.queue ≡ s.queue ++ x ∷ []
      → s'.recovered_sectors ≡ s.recovered_sectors
      → s'.failed_sectors ≡ s.failed_sectors
      → Advanced l w s s'
  requeued-Advanced l w x s' el h v e1 e2 e3 e4 = record {
    idle = e1;
    lighter = omega (arith, ap load e2, load_then s.queue x);
    scrapable =
        subst (All IsScrapable) (sym e2) (All-append IsScrapable s.queue (x ∷ []) a (v, tt));
    kept = λ lba. omega (
      arith,
      ap (λ q. queued_times q lba) e2,
      queued_then s.queue x lba,
      ap (λ k. same_sector k lba) el,
      ap (λ q. listed_times q lba) e3,
      ap (λ q. listed_times q lba) e4,
    );
  }

  reads_left_positive :
      (g : ScrapeGroup) (n : ℕ) → n < scrape_reads_per_group g → 0 < reads_left g n
  unfolding scrape_reads_per_group
  reads_left_positive immediate n h = omega arith
  reads_left_positive reverse n h = omega arith
  reads_left_positive lower_speed n h = omega arith
  reads_left_positive reopen n h = omega arith
  reads_left_positive reset n h = omega (arith, h)
  reads_left_positive no_group n h = absurd (omega (arith, h))
  reads_left_positive (other_group m) n h = absurd (omega (arith, h))

  read-Acted :
      (d : ScrapeDecision) (l w : ℕ) (y : ScrapeSector)
      → d.sector_lba ≡ l
      → 0 < w
      → Lighter l w y
      → Advanced l w s (after_failed_read d s y)
  unfolding after_failed_read
  read-Acted d l w y e h (el, inl t) = rw t (record {
    idle = refl;
    lighter = omega (arith, h);
    scrapable = a;
    kept = λ lba.
        omega (arith, listed_then s.failed_sectors d.sector_lba lba, ap (λ k. same_sector k lba) e);
  })
  read-Acted d l w y e h (el, inr (t, lt, v)) =
      rw t (requeued-Advanced l w y _ el lt v refl refl refl refl)

  abbrev sector : ℕ → ScrapeGroup → ℕ → Bool → Bool → Bool → Bool → ScrapeSector
  sector l g n delays speeds reopens resets = record {
    lba = l;
    group = g;
    reads_in_group = n;
    delay_pending = delays;
    speed_pending = speeds;
    reopen_pending = reopens;
    reset_pending = resets;
  }

  abbrev act : ScrapeSector → Bool → Result ScrapeError ScrapeState
  act x success = resolve_scrape_in (decision_for x true).kind (decision_for x true) s x success

  sector-Acted :
      (l : ℕ) (g : ScrapeGroup) (n : ℕ) (success delays speeds reopens resets : Bool)
      → n < scrape_reads_per_group g
      → Acted l
          (weight (sector l g n delays speeds reopens resets))
          s
          (act (sector l g n delays speeds reopens resets) success)
  unfolding decision_for resolve_scrape_in
  sector-Acted l g n success true speeds reopens resets v =
      elim (Bool-cases (s.delay_budget == 0)) [
        | inl t ↦ rw t tt
        | inr t ↦ rw t (
            requeued-Advanced l _ (sector l g n false speeds reopens resets) _ refl (omega arith) v
              refl refl refl refl)
      ]
  sector-Acted l g n success false true reopens resets v = elim (Bool-cases (s.speed_budget == 0)) [
    | inl t ↦ rw t tt
    | inr t ↦ rw t (
        requeued-Advanced l _ (sector l g n false false reopens resets) _ refl (omega arith) v refl
          refl refl refl)
  ]
  sector-Acted l g n success false false true resets v = elim (Bool-cases (s.reopen_budget == 0)) [
    | inl t ↦ rw t tt
    | inr t ↦ rw t (
        requeued-Advanced l _ (sector l g n false false false resets) _ refl (omega arith) v refl
          refl refl refl)
  ]
  sector-Acted l g n success false false false true v = elim (Bool-cases (s.reset_budget == 0)) [
    | inl t ↦ rw t tt
    | inr t ↦ rw t (
        requeued-Advanced l _ (sector l g n false false false false) _ refl (omega arith) v refl
          refl refl refl)
  ]
  sector-Acted l g n true false false false false v = record {
    idle = refl;
    lighter = omega (arith, reads_left_positive g n v);
    scrapable = a;
    kept = λ lba. omega (arith, listed_then s.recovered_sectors l lba);
  }
  sector-Acted l g n false false false false false v =
      read-Acted _ l _ _ refl (omega (arith, reads_left_positive g n v)) (advance-Lighter l s g n v)

eq_self : (l : ℕ) → (l == l) ≡ true
eq_self l = ground arith

and_false : (b : Bool) → (b && false) ≡ false
and_false b = ground arith

-- The state behind a sector that has left the queue, and the state with it at the head.
abbrev pub behind : ScrapeState → List ScrapeSector → ScrapeState
behind s rest = record s { active_decision = none; queue = rest }

abbrev headed : ScrapeState → ScrapeSector → List ScrapeSector → ScrapeState
headed s x rest = record s { active_decision = none; queue = x ∷ rest }

scrape_round-headed :
    (s : ScrapeState) (rest : List ScrapeSector) (a : All IsScrapable rest) (l : ℕ)
    (g : ScrapeGroup) (n : ℕ) (b delays speeds reopens resets : Bool)
    → scrape_round (headed s (sector (behind s rest) a l g n delays speeds reopens resets) rest) b
      ≡ act (behind s rest) a (sector (behind s rest) a l g n delays speeds reopens resets) b
unfolding scrape_round dispatch_scrape_pass resolve_scrape_pass decision_for
scrape_round-headed s rest a l g n b true speeds reopens resets =
    rw (eq_self l, and_false (not (l == 0)))
scrape_round-headed s rest a l g n b false true reopens resets =
    rw (eq_self l, and_false (not (l == 0)))
scrape_round-headed s rest a l g n b false false true resets =
    rw (eq_self l, and_false (not (l == 0)))
scrape_round-headed s rest a l g n b false false false true =
    rw (eq_self l, and_false (not (l == 0)))
scrape_round-headed s rest a l g n b false false false false =
    rw (eq_self l, and_false (not (l == 0)))

-- What a round does where nothing is active: it is refused for want of a budget, or the sector at
-- the head of the queue has its action done.
pub scrape_round-Acted :
    (s : ScrapeState) (x : ScrapeSector) (rest : List ScrapeSector) (b : Bool)
    → s.active_decision ≡ none
    → s.queue ≡ x ∷ rest
    → IsScrapable x
    → All IsScrapable rest
    → Acted x.lba (weight x) (behind s rest) (scrape_round s b)
scrape_round-Acted s x rest b e q v a =
    let whole : s ≡ headed s x rest = λ i. record s { active_decision = e i; queue = q i } in
    subst (λ r. Acted x.lba (weight x) (behind s rest) r)
      (sym (
        ap (λ z. scrape_round z b) whole
        ∙ scrape_round-headed s rest a x.lba x.group x.reads_in_group b x.delay_pending
            x.speed_pending x.reopen_pending x.reset_pending))
      (sector-Acted (behind s rest) a x.lba x.group x.reads_in_group b x.delay_pending
        x.speed_pending x.reopen_pending x.reset_pending v)
