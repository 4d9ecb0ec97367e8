-- ===== src/Files/Counters.antt =====
-- The error counters over any number of scrapes, shared or not.
use prometheus_exporter_fram.Prelude.{
  ℕ, ◌+◌, ◌%◌, ◌^◌, Bool, true, false, ◌&&◌, Bool-cases, Option, none, some, Result, ok, err,
  or_else, if◌then◌else◌, ◌==◌, nat_eq, List, [], ◌∷◌, ◌≡◌, arith, inl, inr, Option-cases,
}
use prometheus_exporter_fram.Clock.{Time, Duration}
use prometheus_exporter_fram.Text.{Text}
use prometheus_exporter_fram.Files.Scraper.{
  Store, add_counter, ScrapeResult, FileScraper, read, scrape,
}

-- One scrape of a run: the path, the parser and the readings of the clock.
pub record Request (B E : Type 0) : Type 0 where
  pub path : Text
  pub parse : Option (B → Option E)
  pub start : Time
  pub finish : Time

abbrev pub is : Option ℕ → ℕ → Bool
is none d = false
is (some c) d = c == d

module _ {B E F : Type 0} (os_read_file : Text → Result E B) (os_mtime : Text → F)
    (seconds : Duration → F) (zero_seconds : F) (s : FileScraper B E F) where
  abbrev pub is_err : Result E B → Bool
  is_err (ok b) = false
  is_err (err e) = true

  abbrev pub refuses : Option (B → Option E) → Result E B → Bool
  refuses parse (err e) = false
  refuses none (ok content) = false
  refuses (some parse) (ok content) = elim (parse content) [ none ↦ false | some e ↦ true ]

  -- what the file system answers
  abbrev pub answer : Text → Result E B
  answer path = or_else s.read_file os_read_file path

  abbrev pub run_one : Request B E → Store → ScrapeResult E F × Store
  run_one r store =
      scrape os_read_file os_mtime seconds zero_seconds s r.path r.parse r.start r.finish store

  unfoldable pub run : List (Request B E) → Store → Store
  run [] store = store
  run (r ∷ rs) store = run rs (run_one r store).1

  -- `true` counts as one where the place is the counter's.
  pub added : Option ℕ → ℕ → Bool → ℕ
  added c d b = if is c d && b then 1 else 0

  add_counter_lem :
      (c : Option ℕ) (store : Store) (d : ℕ)
      → add_counter c store d % 2 ^ 64 ≡ (store d + added c d true) % 2 ^ 64
  unfolding add_counter added
  add_counter_lem none store d = ground arith
  add_counter_lem (some c) store d = elim (Bool-cases (c == d)) [
    | inl p ↦ ground arith
    | inr p ↦ ground arith
  ]

  none-added : (c : Option ℕ) (d : ℕ) → added c d false ≡ 0
  unfolding added
  none-added c d = elim (Bool-cases (is c d)) [ inl p ↦ ground arith | inr p ↦ ground arith ]

  read_lem :
      (parse : Option (B → Option E)) (a : Result E B) (store : Store) (d : ℕ)
      → (read os_read_file os_mtime seconds zero_seconds s parse a store).2 d % 2 ^ 64
        ≡ (store d
            + added s.read_errors_total d (is_err a)
            + added s.parse_errors_total d (refuses parse a))
          % 2 ^ 64
  unfolding read
  read_lem parse (err e) store d =
      rw (add_counter_lem s.read_errors_total store d, none-added s.parse_errors_total d)
        (ground arith)
  read_lem none (ok b) store d =
      rw (none-added s.read_errors_total d, none-added s.parse_errors_total d) (ground arith)
  read_lem (some f) (ok b) store d = elim (Option-cases (f b)) [
    | inl p ↦
        rw (p, none-added s.read_errors_total d, none-added s.parse_errors_total d) (ground arith)
    | inr (x, p) ↦
        rw (p, none-added s.read_errors_total d, add_counter_lem s.parse_errors_total store d)
          (ground arith)
  ]

  one_lem :
      (r : Request B E) (store : Store) (d : ℕ)
      → (run_one r store).1 d % 2 ^ 64
        ≡ (store d
            + added s.read_errors_total d (is_err (answer r.path))
            + added s.parse_errors_total d (refuses r.parse (answer r.path)))
          % 2 ^ 64
  unfolding scrape
  one_lem r store d = read_lem r.parse (answer r.path) store d

  -- how many of the files could not be read, and how many contents were refused, by a counter of
  -- the place `d`
  pub counted : ℕ → List (Request B E) → ℕ
  counted d [] = 0
  counted d (r ∷ rs) =
      added s.read_errors_total d (is_err (answer r.path))
      + added s.parse_errors_total d (refuses r.parse (answer r.path))
      + counted d rs

  -- After any scrapes by one `FileScraper`, each place of the store holds, modulo 2^64, what it held,
  -- one more for each file that could not be read if it is the counter of those, and one more for
  -- each content that was refused if it is the counter of those; a shared place counts both.
  pub run-counted :
      (rs : List (Request B E)) (store : Store) (d : ℕ)
      → run rs store d % 2 ^ 64 ≡ (store d + counted d rs) % 2 ^ 64
  unfolding run counted
  run-counted [] store d = ground arith
  run-counted (r ∷ rs) store d =
      ground (arith, run-counted rs (run_one r store).1 d, one_lem r store d)
