-- ===== src/AlertLog/Backwards.antt =====
-- The chunked scan of alertlog/alertlog.go against its meaning on the lines of the file.
use harry_performance_scrape.Prelude.{
  ℕ, zero, suc, ◌+◌, ◌-◌, ◌≤◌, ◌<◌, ◌≡◌, refl, inl, inr, Bool, true, false, ◌||◌, ◌==◌, Option,
  none, List, [], ◌∷◌, ◌++◌, if◌then◌else◌, arith, eqb, length, length-append, take, drop, ltb,
  Bool-cases, sym, ap, ◌∙◌,
}
use mathlib.Core.List.{reverse, reverse-append}
use harry_performance_scrape.Texts.{Text, text_eq, trim_space}
use harry_performance_scrape.Errors.{Error}
use harry_performance_scrape.AlertLog.{
  default_last_log_record, max_alert_log_line_bytes, alert_log_read_chunk_size, Decoded, parsed,
  Flushed, matching, invalid, unmatched, matched, broken, Scan, found, failed, going, continued,
  is_line_end, too_long, flush_line, scan, chunk, scan_chunks, concluded,
  read_last_matching_log_record,
}

-- The lines of a file from the last to the first, each from its last byte to its first.
pub lines_back : Text → List ℕ → List Text
lines_back current [] = current ∷ []
lines_back current (b ∷ bs) =
    let next = lines_back [] bs in
    let grown = lines_back (current ++ (b ∷ [])) bs in
    if eqb b 0x0a || eqb b 0x0d then current ∷ next else grown

take-length : (xs : List ℕ) → take (length xs) xs ≡ xs
take-length [] = refl
take-length (x ∷ xs) = ap (λ l. x ∷ l) (take-length xs)

take_nil : (n : ℕ) → take {A = ℕ} n [] ≡ []
take_nil zero = refl
take_nil (suc n) = refl

take_plus : (xs : List ℕ) (s m : ℕ) → take (s + m) xs ≡ take s xs ++ take m (drop s xs)
take_plus xs zero m = let same : 0 + m ≡ m = omega arith in ap (λ k. take k xs) same
take_plus [] (suc s) m = take_nil (suc s + m) ∙ sym (take_nil m)
take_plus (x ∷ xs) (suc s) m =
    let same : suc s + m ≡ suc (s + m) = omega arith in
    ap (λ k. take k (x ∷ xs)) same ∙ ap (λ l. x ∷ l) (take_plus xs s m)

reverse-take :
    (bytes : List ℕ) (start offset : ℕ)
    → start ≤ offset
    → reverse (take offset bytes)
      ≡ reverse (take (offset - start) (drop start bytes)) ++ reverse (take start bytes)
reverse-take bytes start offset h =
    let whole : offset ≡ start + (offset - start) = omega arith in
    ap (λ k. reverse (take k bytes)) whole
    ∙ ap reverse (take_plus bytes start (offset - start))
    ∙ reverse-append (take start bytes) (take (offset - start) (drop start bytes))

continued_agree :
    (f g : Text → Scan) (s : Scan) → ((t : Text) → f t ≡ g t) → continued f s ≡ continued g s
unfolding continued
continued_agree f g (found r) h = refl
continued_agree f g (failed e) h = refl
continued_agree f g (going t) h = h t

module _ (decode : Text → Decoded) (per_database : Bool) (database : Text) where
  -- What the record of a line decides: one file for each database holds no other's records.
  abbrev pub decided : Decoded → Decoded → Decoded
  decided (invalid e) rest = invalid e
  decided (parsed r) rest = if per_database || r.database == database then parsed r else rest

  -- The first line that has a record of the database, that is no record or that has more than 2^20 bytes
  -- decides; blank lines are passed over; with none, the default record.
  pub pick : List Text → Decoded
  pick [] = parsed default_last_log_record
  pick (l ∷ ls) =
      let rest = pick ls in
      let line = trim_space (reverse l) in
      if ltb 1048576 (length l)
      then invalid too_long
      else if line == []
      then rest
      else decided (decode line) rest

  -- What is made of what flushLine returns for a line, with the rest of the lines.
  abbrev flushed : Flushed → Decoded → Decoded
  flushed unmatched rest = rest
  flushed (matched r) rest = parsed r
  flushed (broken e) rest = invalid e

  flushed-matching :
      (o rest : Decoded) → flushed (matching per_database database o) rest ≡ decided o rest
  flushed-matching (invalid e) rest = refl
  flushed-matching (parsed r) rest = ground arith

  flushed-flush_line :
      (l : Text) (rest : Decoded)
      → flushed (flush_line decode per_database database l) rest ≡ (
          if trim_space (reverse l) == []
          then rest
          else decided (decode (trim_space (reverse l))) rest)
  unfolding flush_line
  flushed-flush_line [] rest = unfold trim_space in refl
  flushed-flush_line (b ∷ bs) rest = elim (Bool-cases (trim_space (reverse (b ∷ bs)) == [])) [
    | inl blank ↦ rw (blank, flush_line) refl
    | inr some_text ↦
        rw (some_text, flush_line) (flushed-matching (decode (trim_space (reverse (b ∷ bs)))) rest)
  ]

  pick-flushed :
      (l : Text) (ls : List Text)
      → pick (l ∷ ls) ≡ (
          if ltb max_alert_log_line_bytes (length l)
          then invalid too_long
          else flushed (flush_line decode per_database database l) (pick ls))
  unfolding pick
  pick-flushed l ls =
      ap (λ t. if ltb max_alert_log_line_bytes (length l) then invalid too_long else t)
        (sym (flushed-flush_line l (pick ls)))

  pick_nil : pick [] ≡ parsed default_last_log_record
  unfolding pick
  pick_nil = refl

  -- The scan does not see where chunks end.
  scan-append :
      (xs bs : List ℕ) (current : Text)
      → scan decode per_database database (xs ++ bs) current
        ≡ continued
            (scan decode per_database database bs)
            (scan decode per_database database xs current)
  unfolding scan continued
  scan-append [] bs current = refl
  scan-append (a ∷ xs) bs current =
      ground (arith, scan-append xs bs [], scan-append xs bs (current ++ (a ∷ [])))

  -- A line that is too long decides however it goes on.
  pick_over :
      (bs : List ℕ) (current : Text)
      → ltb max_alert_log_line_bytes (length current) ≡ true
      → pick (lines_back current bs) ≡ invalid too_long
  unfolding pick lines_back
  pick_over [] current h = rw (h, pick) refl
  pick_over (b ∷ bs) current h = elim (Bool-cases (is_line_end b)) [
    | inl ends ↦ rw (ends, h, pick, lines_back) refl
    | inr more ↦
        let longer : ltb max_alert_log_line_bytes (length (current ++ (b ∷ []))) ≡ true =
          ground (arith, length-append current (b ∷ [])) in
        rw more (pick_over bs (current ++ (b ∷ [])) longer)
  ]

  concluded-scan :
      (bs : List ℕ) (current : Text)
      → length current ≤ max_alert_log_line_bytes
      → concluded decode per_database database (scan decode per_database database bs current)
        ≡ pick (lines_back current bs)
  unfolding scan concluded lines_back
  concluded-scan [] current h =
      let fits : ltb max_alert_log_line_bytes (length current) ≡ false = ground arith in
      rw (pick-flushed current [], fits) (ground (arith, pick_nil))
  concluded-scan (b ∷ bs) current h =
      let fits : ltb max_alert_log_line_bytes (length current) ≡ false = ground arith in
      elim (Bool-cases (is_line_end b)) [
        | inl ends ↦
            rw (ends, scan, lines_back, pick-flushed current (lines_back [] bs), fits)
              (ground (arith, concluded-scan bs [] (omega arith)))
        | inr more ↦
            elim (Bool-cases (ltb max_alert_log_line_bytes (length (current ++ (b ∷ []))))) [
              | inl over ↦ rw (more, over) (sym (pick_over bs (current ++ (b ∷ [])) over))
              | inr under ↦
                  rw (more, under) (concluded-scan bs (current ++ (b ∷ [])) (ground arith))
            ]
      ]

  scan_chunks_whole :
      (bytes : List ℕ) (size : ℕ) (read_err : ℕ → Option Error) (rounds offset : ℕ) (current : Text)
      → 0 < size
      → ((start : ℕ) → read_err start ≡ none)
      → offset ≤ rounds
      → scan_chunks decode per_database database bytes size read_err rounds offset current
        ≡ scan decode per_database database (reverse (take offset bytes)) current
  unfolding scan_chunks scan
  scan_chunks_whole bytes size read_err zero zero current p fine h = refl
  scan_chunks_whole bytes size read_err zero (suc n) current p fine h = absurd (omega arith)
  scan_chunks_whole bytes size read_err (suc rounds) zero current p fine h = refl
  scan_chunks_whole bytes size read_err (suc rounds) (suc n) current p fine h =
      let start : ℕ = suc n - size in
      let rest : (later : Text)
          → scan_chunks decode per_database database bytes size read_err rounds start later
            ≡ scan decode per_database database (reverse (take start bytes)) later =
        λ later. scan_chunks_whole bytes size read_err rounds start later p fine (omega arith) in
      rw
        (
          reverse-take bytes start (suc n) (omega arith),
          scan-append (chunk decode per_database database bytes size (suc n))
              (reverse (take start bytes)) current,
        )
        (rw (fine start, scan_chunks)
          (continued_agree _ (scan decode per_database database (reverse (take start bytes)))
            (scan decode per_database database
              (chunk decode per_database database bytes size (suc n)) current)
            rest))

  -- Where every read succeeds, what is returned is decided by the last line of the file that is not blank
  -- and that has a record of the database (or any record, in a file of one database), is no record, or has
  -- more than 2^20 bytes: that record, or an error. With no such line it is the default record. The chunks
  -- do not show.
  pub read_last_matching_log_record_lem :
      (bytes : List ℕ) (read_err : ℕ → Option Error)
      → ((start : ℕ) → read_err start ≡ none)
      → read_last_matching_log_record decode per_database database bytes read_err
        ≡ pick (lines_back [] (reverse bytes))
  unfolding read_last_matching_log_record
  read_last_matching_log_record_lem bytes read_err fine =
      ap (concluded decode per_database database) (
        scan_chunks_whole bytes alert_log_read_chunk_size read_err (length bytes) (length bytes) []
          (omega arith) fine (omega arith))
      ∙ concluded-scan (reverse (take (length bytes) bytes)) [] (omega arith)
      ∙ ap (λ l. pick (lines_back [] (reverse l))) (take-length bytes)
