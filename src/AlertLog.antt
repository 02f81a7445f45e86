-- ===== src/AlertLog.antt =====
-- readLastMatchingLogRecord of alertlog/alertlog.go: the last record of a database in a log file, read
-- backwards in chunks. Decoding a line of JSON is an argument, and so are the errors of the file.
pub mod Backwards
use harry_performance_scrape.Prelude.{
  ℕ, zero, suc, ◌+◌, ◌-◌, ◌*◌, Bool, not, ◌&&◌, ◌||◌, Option, none, some, List, [], ◌∷◌, ◌++◌,
  if◌then◌else◌, length, take, drop, ltb, eqb, ◌==◌,
}
use mathlib.Core.List.{reverse}
use harry_performance_scrape.Texts.{Text, text, text_eq, trim_space}
use harry_performance_scrape.Errors.{Error, new_error}

pub record LogRecord : Type 0 where
  pub timestamp : Text
  pub database : Text
  pub module_id : Text
  pub ecid : Text
  pub message : Text

abbrev pub default_last_log_record : LogRecord
default_last_log_record = record {
  timestamp = text "1900-01-01T01:01:01.001Z";
  database = [];
  module_id = [];
  ecid = [];
  message = [];
}

abbrev pub max_alert_log_line_bytes : ℕ
max_alert_log_line_bytes = 1048576

abbrev pub alert_log_read_chunk_size : ℕ
alert_log_read_chunk_size = 4096

-- What json.Unmarshal makes of a line.
pub data Decoded : Type 0 where
  parsed : LogRecord → Decoded
  invalid : Error → Decoded

-- The results of flushLine: no match, a record, or an error.
pub data Flushed : Type 0 where
  unmatched : Flushed
  matched : LogRecord → Flushed
  broken : Error → Flushed

-- What a part of the scan comes to: a record, an error, or the bytes of the line so far.
pub data Scan : Type 0 where
  found : LogRecord → Scan
  failed : Error → Scan
  going : Text → Scan

-- The scan goes on with the bytes of the line so far, unless it has returned.
unfoldable pub continued : (Text → Scan) → Scan → Scan
continued more (found r) = found r
continued more (failed e) = failed e
continued more (going current) = more current

abbrev pub is_line_end : ℕ → Bool
is_line_end b = eqb b 0x0a || eqb b 0x0d

abbrev pub too_long : Error
too_long = new_error (text "last log line exceeds 1048576 byte limit")

abbrev pub matching : Bool → Text → Decoded → Flushed
matching per_database database (invalid e) = broken e
matching per_database database (parsed r) =
    if not per_database && not (r.database == database) then unmatched else matched r

module _ (decode : Text → Decoded) (per_database : Bool) (database : Text) where
  -- flushLine, on the bytes of a line in the order in which they were read.
  unfoldable pub flush_line : Text → Flushed
  flush_line [] = unmatched
  flush_line (b ∷ bs) =
      let line = trim_space (reverse (b ∷ bs)) in
      if line == [] then unmatched else matching per_database database (decode line)

  -- The inner loop, over the bytes of a chunk from its last to its first.
  unfoldable pub scan : List ℕ → Text → Scan
  unfolding flush_line
  scan [] current = going current
  scan (b ∷ bs) current =
      let next = scan bs [] in
      let grown = scan bs (current ++ (b ∷ [])) in
      if is_line_end b
      then elim (flush_line current) [
        | unmatched ↦ next
        | matched r ↦ found r
        | broken e ↦ failed e
      ]
      else if ltb max_alert_log_line_bytes (length (current ++ (b ∷ [])))
      then failed too_long
      else grown

  -- The chunk before `offset`.
  abbrev pub chunk : List ℕ → ℕ → ℕ → List ℕ
  chunk bytes size offset = reverse (take (offset - (offset - size)) (drop (offset - size) bytes))

  -- The outer loop, with rounds left; `read_err` is the error of ReadAt at a position, io.EOF aside.
  unfoldable pub scan_chunks : List ℕ → ℕ → (ℕ → Option Error) → (rounds offset : ℕ) → Text → Scan
  unfolding scan
  scan_chunks bytes size read_err zero offset current = going current
  scan_chunks bytes size read_err (suc rounds) zero current = going current
  scan_chunks bytes size read_err (suc rounds) (suc n) current = elim (read_err (suc n - size)) [
    | some e ↦ failed e
    | none ↦
        continued (λ later. scan_chunks bytes size read_err rounds (suc n - size) later)
          (scan (chunk bytes size (suc n)) current)
  ]

  -- The last flushLine, and what is returned.
  unfoldable pub concluded : Scan → Decoded
  unfolding flush_line
  concluded (found r) = parsed r
  concluded (failed e) = invalid e
  concluded (going current) = elim (flush_line current) [
    | unmatched ↦ parsed default_last_log_record
    | matched r ↦ parsed r
    | broken e ↦ invalid e
  ]

  -- The file is open and its size known; each round reads at least one byte, so that as many rounds as
  -- bytes are enough.
  unfoldable pub read_last_matching_log_record : List ℕ → (ℕ → Option Error) → Decoded
  unfolding scan_chunks concluded
  read_last_matching_log_record bytes read_err =
      concluded
        (scan_chunks bytes alert_log_read_chunk_size read_err (length bytes) (length bytes) [])
