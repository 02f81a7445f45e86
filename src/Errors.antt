-- ===== src/Errors.antt =====
-- Go's `error` values: a message, and the sentinel errors that `errors.Is` and `errors.As` find in
-- the chain of wrapped errors. A `nil` error is `none`. A message is a list of bytes.
pub mod ZeroResult
use harry_performance_scrape.Texts.{Text}
use harry_performance_scrape.Prelude.{
  ℕ, ◌+◌, ◌≡◌, refl, Bool, false, ◌||◌, Option, none, some, List, [], ◌∷◌, ◌++◌, arith, eqb,
}

-- What `errors.Is` is asked for. `net_error` stands for any error with the `net.Error` methods
-- other than `context.DeadlineExceeded`, which has them too. A zero-result error is a fresh
-- allocation, and is told apart by its address.
pub data Cause : Type 0 where
  bad_conn conn_done session_not_initialized net_error deadline_exceeded canceled : Cause
  zero_result : ℕ → Cause

abbrev cause_code : Cause → ℕ
cause_code bad_conn = 0
cause_code conn_done = 1
cause_code session_not_initialized = 2
cause_code net_error = 3
cause_code deadline_exceeded = 4
cause_code canceled = 5
cause_code (zero_result address) = address + 6

pub record Error : Type 0 where
  pub message : Text
  pub causes : List Cause

-- A chain holds a cause.
unfoldable pub has_cause : Cause → List Cause → Bool
has_cause c [] = false
has_cause c (d ∷ ds) = eqb (cause_code c) (cause_code d) || has_cause c ds

-- `errors.Is(err, target)` on an error that is not nil.
unfoldable pub err_is : Error → Cause → Bool
unfolding has_cause
err_is e c = has_cause c e.causes

-- `errors.As(err, &networkError)`.
unfoldable pub as_net_error : Error → Bool
unfolding err_is
as_net_error e = err_is e net_error || err_is e deadline_exceeded

-- `errors.New(message)`.
abbrev pub new_error : Text → Error
new_error m = record { message = m; causes = [] }

-- `fmt.Errorf("<prefix>%w", err)`.
unfoldable pub wrap_error : Text → Error → Error
wrap_error prefix e = record { message = prefix ++ e.message; causes = e.causes }

-- `errors.Join` of two: nil errors are left out, and the messages are joined by a newline.
unfoldable pub join_errors : Option Error → Option Error → Option Error
join_errors none b = b
join_errors (some a) none = some a
join_errors (some a) (some b) =
    some (record { message = a.message ++ (0x0a ∷ b.message); causes = a.causes ++ b.causes })

pub has_cause-append :
    (c : Cause) (ds es : List Cause) → has_cause c (ds ++ es) ≡ has_cause c ds || has_cause c es
unfolding has_cause
has_cause-append c [] es = refl
has_cause-append c (d ∷ ds) es = ground (arith, has_cause-append c ds es)
