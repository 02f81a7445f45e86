-- ===== src/Failure.antt =====
-- isConnectionFailure of collector/database.go: which errors mean that the connection is lost.
mod Markers
pub mod Wrapping
unfoldable pub use Markers.{markers}
use harry_performance_scrape.Prelude.{
  Bool, true, false, ◌&&◌, ◌||◌, not, Option, none, some, List, [], ◌∷◌, map, if◌then◌else◌,
}
use harry_performance_scrape.Texts.{Text, to_upper, contains}
use harry_performance_scrape.Errors.{
  Error, err_is, as_net_error, bad_conn, conn_done, session_not_initialized, deadline_exceeded,
}

-- The loop over the markers.
unfoldable pub any_marker : Text → List Text → Bool
any_marker message [] = false
any_marker message (m ∷ ms) = contains message m || any_marker message ms

unfoldable pub is_connection_failure : Option Error → Bool
unfolding any_marker
is_connection_failure none = false
is_connection_failure (some e) =
    if err_is e bad_conn || err_is e conn_done || err_is e session_not_initialized
    then true
    else if as_net_error e && not (err_is e deadline_exceeded)
    then true
    else any_marker (map to_upper e.message) markers
