-- ===== src/Failure/Wrapping.antt =====
-- How isConnectionFailure sees wrapped and joined errors (collector/database.go).
use harry_performance_scrape.Prelude.{◌≡◌, true, false, some, List, [], ◌∷◌, ◌++◌, map, arith}
use harry_performance_scrape.Texts.{Text, to_upper, contains-append_left, contains-append_right}
use harry_performance_scrape.Errors.{
  Error, err_is, as_net_error, wrap_error, join_errors, has_cause-append, deadline_exceeded,
  bad_conn, conn_done, session_not_initialized, net_error,
}
use mathlib.Core.List.{map-append}
use harry_performance_scrape.Failure.{any_marker, is_connection_failure}
use harry_performance_scrape.Failure.Markers.{markers}

any_marker-append_left :
    (s t : Text) (ms : List Text) → any_marker t ms ≡ true → any_marker (s ++ t) ms ≡ true
unfolding any_marker
any_marker-append_left s t [] h = h
any_marker-append_left s t (m ∷ ms) h =
    ground (arith, contains-append_left s t m, any_marker-append_left s t ms)

any_marker-append_right :
    (s t : Text) (ms : List Text) → any_marker s ms ≡ true → any_marker (s ++ t) ms ≡ true
unfolding any_marker
any_marker-append_right s t [] h = h
any_marker-append_right s t (m ∷ ms) h =
    ground (arith, contains-append_right s t m, any_marker-append_right s t ms)

-- An error that is a connection failure still is one under the prefix of a `%w` wrapping.
pub wrap_error-is_connection_failure :
    (prefix : Text) (e : Error)
    → is_connection_failure (some e) ≡ true
    → is_connection_failure (some (wrap_error prefix e)) ≡ true
unfolding is_connection_failure wrap_error as_net_error err_is
wrap_error-is_connection_failure prefix e h = ground (
  arith,
  map-append to_upper prefix e.message,
  any_marker-append_left (map to_upper prefix) (map to_upper e.message) markers,
)

-- A connection failure is still seen after `errors.Join` with a later error, as long as the later
-- error is not a timeout.
pub join_errors-is_connection_failure :
    (a b : Error)
    → is_connection_failure (some a) ≡ true
    → err_is b deadline_exceeded ≡ false
    → is_connection_failure (join_errors (some a) (some b)) ≡ true
unfolding is_connection_failure join_errors as_net_error err_is
join_errors-is_connection_failure a b h k = ground (
  arith,
  map-append to_upper a.message (0x0a ∷ b.message),
  any_marker-append_right (map to_upper a.message) (map to_upper (0x0a ∷ b.message)) markers,
  has_cause-append bad_conn a.causes b.causes,
  has_cause-append conn_done a.causes b.causes,
  has_cause-append session_not_initialized a.causes b.causes,
  has_cause-append net_error a.causes b.causes,
  has_cause-append deadline_exceeded a.causes b.causes,
)

-- A network error, which alone is a connection failure, is not seen as one once it is joined with a
-- timeout, unless the joined message has one of the markers.
pub join_errors-timeout_hides :
    (m n : Text)
    → any_marker (map to_upper (m ++ (0x0a ∷ n))) markers ≡ false
    → (is_connection_failure (some (record { message = m; causes = net_error ∷ [] })) ≡ true)
      × (is_connection_failure (
            join_errors
              (some (record { message = m; causes = net_error ∷ [] }))
              (some (record { message = n; causes = deadline_exceeded ∷ [] })))
          ≡ false)
unfolding is_connection_failure join_errors as_net_error err_is
join_errors-timeout_hides m n h = ground arith
