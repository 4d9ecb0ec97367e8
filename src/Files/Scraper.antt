-- ===== src/Files/Scraper.antt =====
-- `FileScraper` of exporter/internal/files/file_scrape.go. The counters are shared objects: a
-- `Uint64Counter` is a place in a store (`none` is `nil`), and both fields may name one place.
-- `B` are file contents, `E` errors and `F` floats; the functions of the operating system are
-- arguments, and the two readings of the clock are arguments of `scrape`.
use prometheus_exporter_fram.Prelude.{
  ℕ, pos, negsuc, Bool, true, false, Option, none, some, Result, ok, err, add_uint64, or_else,
  if◌then◌else◌, ◌==◌, nat_eq,
}
use prometheus_exporter_fram.Clock.{Time, Duration, sub}
use prometheus_exporter_fram.Text.{Text}

abbrev pub Store : Type 0
Store = ℕ → ℕ

-- `loadCounter`
abbrev pub load_counter : Option ℕ → Store → ℕ
load_counter none store = 0
load_counter (some c) store = store c

-- `addCounter`
unfoldable pub add_counter : Option ℕ → Store → Store
add_counter none store = store
add_counter (some c) store = λ d. if c == d then add_uint64 (store d) 1 else store d

pub record ScrapeResult (E F : Type 0) : Type 0 where
  pub path : Text
  pub up : Bool
  pub mtime_seconds : F
  pub read_errors_total : ℕ
  pub parse_errors_total : ℕ
  pub scrape_duration_seconds : F
  pub error : Option E

pub record FileScraper (B E F : Type 0) : Type 0 where
  pub read_errors_total : Option ℕ
  pub parse_errors_total : Option ℕ
  pub read_file : Option (Text → Result E B)
  pub file_modification_seconds : Option (Text → F)

-- `since`: a clock that went back counts as no time
unfoldable pub since : Time → Time → Duration
since start finish = elim (sub finish start) [ pos n ↦ pos n | negsuc n ↦ pos 0 ]

module _ {F : Type 0} (zero_seconds : F) where
  -- `FileMTimeSeconds` of exporter/internal/files/file.go, over `os.Stat`
  unfoldable pub file_mtime_seconds : (Text → Option F) → Text → F
  file_mtime_seconds stat path = or_else (stat path) zero_seconds

module _ {B E F : Type 0} (os_read_file : Text → Result E B) (os_mtime : Text → F)
    (seconds : Duration → F) (zero_seconds : F) where
  -- what the body of `Scrape` sets before its deferred function runs: `Up`, `Err` and the counters
  unfoldable pub parsed : FileScraper B E F → Option E → Store → Bool × Option E × Store
  parsed s none store = (true, none, store)
  parsed s (some e) store = (true, some e, add_counter s.parse_errors_total store)

  abbrev pub run_parse : Option (B → Option E) → B → Option E
  run_parse none content = none
  run_parse (some parse) content = parse content

  unfoldable pub read :
      FileScraper B E F → Option (B → Option E) → Result E B → Store → Bool × Option E × Store
  unfolding parsed
  read s parse (err e) store = (false, some e, add_counter s.read_errors_total store)
  read s parse (ok content) store = parsed s (run_parse parse content) store

  -- `Scrape`, with the deferred function, which loads the counters after they were added to
  unfoldable pub scrape :
      FileScraper B E F
      → Text
      → Option (B → Option E)
      → Time
      → Time
      → Store
      → ScrapeResult E F × Store
  unfolding read since
  scrape s path parse start finish store =
      let (up, error, store') = read s parse (or_else s.read_file os_read_file path) store in
      (
        record {
          path = path;
          up = up;
          mtime_seconds = or_else s.file_modification_seconds os_mtime path;
          read_errors_total = load_counter s.read_errors_total store';
          parse_errors_total = load_counter s.parse_errors_total store';
          scrape_duration_seconds = seconds (since start finish);
          error = error;
        },
        store',
      )
