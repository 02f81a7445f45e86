-- ===== src/Config/Output.antt =====
-- LoggingConfig, PostgreSQLConfig and WebConfig of collector/config.go, with their getters and the
-- defaults that `merge` fills in.
use harry_performance_scrape.Prelude.{
  ◌*◌, Bool, true, false, Option, none, some, List, [], ◌∷◌, String, if◌then◌else◌, or_else, ◌==◌,
  string_eq,
}
use harry_performance_scrape.Prelude.Int.{ℤ, pos}
use harry_performance_scrape.Clock.{Duration, second, hour}
use harry_performance_scrape.Texts.{text_eq}

pub record LoggingConfig : Type 0 where
  pub log_disable : Option ℤ
  pub log_interval : Option Duration
  pub log_destination : String
  pub log_per_database_files : Option Bool
  pub level : String
  pub format : String

pub record PostgresqlConfig : Type 0 where
  pub url : String
  pub max_conns : Option ℤ
  pub min_conns : Option ℤ
  pub conn_max_lifetime : Option Duration
  pub retention : Option Duration
  pub auto_migrate : Option Bool
  pub samples_table : String
  pub sql_samples_table : String
  pub session_samples_table : String
  pub blocking_sessions_table : String
  pub database_activity_table : String

pub record WebConfig : Type 0 where
  pub listen_addresses : Option (List String)
  pub read_header_timeout : Option Duration
  pub read_timeout : Option Duration
  pub idle_timeout : Option Duration

unfoldable pub get_max_conns : PostgresqlConfig → ℤ
get_max_conns p = or_else p.max_conns (pos 4)

unfoldable pub get_min_conns : PostgresqlConfig → ℤ
get_min_conns p = or_else p.min_conns (pos 0)

unfoldable pub get_conn_max_lifetime : PostgresqlConfig → Duration
get_conn_max_lifetime p = or_else p.conn_max_lifetime (pos hour)

unfoldable pub get_retention : PostgresqlConfig → Duration
get_retention p = or_else p.retention (pos 0)

unfoldable pub get_auto_migrate : PostgresqlConfig → Bool
get_auto_migrate p = or_else p.auto_migrate true

unfoldable pub log_per_database_files : LoggingConfig → Bool
log_per_database_files l = or_else l.log_per_database_files false

unfoldable pub get_read_header_timeout : WebConfig → Duration
get_read_header_timeout w = or_else w.read_header_timeout (pos (10 * second))

unfoldable pub get_read_timeout : WebConfig → Duration
get_read_timeout w = or_else w.read_timeout (pos (30 * second))

unfoldable pub get_idle_timeout : WebConfig → Duration
get_idle_timeout w = or_else w.idle_timeout (pos (120 * second))

-- A nil pointer, or an empty text, takes its default.
unfoldable pub or_default {ℓ} : {A : Type ℓ} → Option A → A → Option A
or_default none d = some d
or_default (some a) d = some a

unfoldable pub or_text : String → String → String
or_text s d = if s == "" then d else s

unfoldable pub merge_web_config : WebConfig → WebConfig
merge_web_config w = record w { listen_addresses = or_default w.listen_addresses (":9161" ∷ []) }

unfoldable pub merge_logging_config : LoggingConfig → LoggingConfig
merge_logging_config l = record {
  log_disable = or_default l.log_disable (pos 0);
  log_interval = or_default l.log_interval (pos (15 * second));
  log_per_database_files = or_default l.log_per_database_files false;
  log_destination = or_text l.log_destination "/log/alert.log";
  level = or_text l.level "info";
  format = or_text l.format "logfmt";
}

unfoldable pub merge_output_config : PostgresqlConfig → PostgresqlConfig
merge_output_config p = record p {
  samples_table = or_text p.samples_table "oracle_metric_samples";
  sql_samples_table = or_text p.sql_samples_table "oracle_sql_samples";
  session_samples_table = or_text p.session_samples_table "oracle_session_samples";
  blocking_sessions_table = or_text p.blocking_sessions_table "oracle_blocking_session_samples";
  database_activity_table = or_text p.database_activity_table "oracle_database_activity_samples";
}
