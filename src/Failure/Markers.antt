-- ===== src/Failure/Markers.antt =====
-- The message fragments that isConnectionFailure of collector/database.go looks for.
use harry_performance_scrape.Prelude.{List, [], ◌∷◌}
use harry_performance_scrape.Texts.{Text, text}

unfoldable pub markers : List Text
markers =
    text "ORA-01033"
    ∷ text "ORA-01034"
    ∷ text "ORA-01089"
    ∷ text "ORA-03113"
    ∷ text "ORA-03114"
    ∷ text "ORA-03135"
    ∷ text "ORA-12154"
    ∷ text "ORA-12170"
    ∷ text "ORA-125"
    ∷ text "DPI-1010"
    ∷ text "DPI-1080"
    ∷ text "BROKEN PIPE"
    ∷ text "CONNECTION REFUSED"
    ∷ text "CONNECTION RESET"
    ∷ text "DATABASE IS CLOSED"
    ∷ text "NETWORK IS UNREACHABLE"
    ∷ text "NO ROUTE TO HOST"
    ∷ []
