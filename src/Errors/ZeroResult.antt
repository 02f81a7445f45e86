-- ===== src/Errors/ZeroResult.antt =====
-- collector/errors.go: the error of a query without rows, and whether a scrape error is logged. Each
-- allocation has an address of its own; the errors compare by it.
use harry_performance_scrape.Prelude.{ℕ, suc, ◌<◌, ◌≡◌, Bool, true, not, ◌||◌, [], ◌∷◌, arith}
use harry_performance_scrape.Texts.{Text, text}
use harry_performance_scrape.Errors.{Error, zero_result, err_is, has_cause, wrap_error}

-- newZeroResultError, allocated at the next address.
unfoldable pub new_zero_result_error : ℕ → Error × ℕ
new_zero_result_error next = (
  record {
    message = text "no metrics found while parsing, query returned no rows";
    causes = zero_result next ∷ [];
  },
  suc next,
)

-- shouldLogScrapeError, with the next address: it allocates an error to compare with.
unfoldable pub should_log_scrape_error : ℕ → Error → Bool → Bool
unfolding err_is
should_log_scrape_error next err is_ignore_zero_result =
    not is_ignore_zero_result || not (err_is err (zero_result next))

-- A zero-result error is logged even where zero results are ignored, wrapped or not, whatever was
-- allocated since: the error that it is compared with is a new one.
pub should_log_scrape_error-new_zero_result_error :
    (address later : ℕ) (prefix : Text) (is_ignore_zero_result : Bool)
    → address < later
    → should_log_scrape_error later
        (wrap_error prefix (new_zero_result_error address).0)
        is_ignore_zero_result
      ≡ true
unfolding should_log_scrape_error new_zero_result_error wrap_error err_is has_cause
should_log_scrape_error-new_zero_result_error address later prefix is_ignore_zero_result h =
    ground arith
