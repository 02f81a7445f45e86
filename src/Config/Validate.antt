-- ===== src/Config/Validate.antt =====
-- `merge` and `validate` of collector/config.go.
use harry_performance_scrape.Prelude.{
  ℕ, suc, Bool, true, false, ◌&&◌, ◌||◌, not, Option, none, some, List, [], ◌∷◌, String, ltb, leb,
  eqb, if◌then◌else◌, ◌==◌, length, string_eq,
}
use harry_performance_scrape.Prelude.Int.{ℤ, pos, leb_ℤ, ltb_ℤ}
use harry_performance_scrape.Texts.{Text, text, text_eq}
use harry_performance_scrape.Config.Availability
use harry_performance_scrape.Config.Availability.{HighAvailabilityConfig}
use harry_performance_scrape.Config.Detection
use harry_performance_scrape.Config.Detection.{MetricsConfig, DeadConnectionDetectionConfig}
use harry_performance_scrape.Config.Operational
use harry_performance_scrape.Config.Operational.{OperationalConfig}
use harry_performance_scrape.Config.Activity
use harry_performance_scrape.Config.Plans
use harry_performance_scrape.Config.Plans.{PerformanceConfig, SqlPlanConfig}
use harry_performance_scrape.Config.Output.{
  LoggingConfig, PostgresqlConfig, WebConfig, merge_web_config, merge_logging_config,
  merge_output_config, or_default,
}
use harry_performance_scrape.Config.Vault.{validate_auth_mode}

-- A database entry, as `validate` reads it: its name, and the mode of its OCI vault if it has one.
pub record DatabaseEntry : Type 0 where
  pub name : String
  pub oci_auth : Option Text

pub record MetricsConfiguration : Type 0 where
  pub databases : List DatabaseEntry
  pub metrics : MetricsConfig
  pub operational : OperationalConfig
  pub performance : PerformanceConfig
  pub high_availability : HighAvailabilityConfig
  pub output : PostgresqlConfig
  pub logging : LoggingConfig
  pub web : WebConfig

-- The errors, by the setting that they name.
pub data ConfigError : Type 0 where
  scope_too_long scope_pattern retry_interval validation_interval : ConfigError
  oci_auth_mode : String → ConfigError
  log_level log_format : ConfigError
  operational_interval operational_query_timeout : ConfigError
  activity_source activity_interval activity_query_timeout : ConfigError
  plans_interval plans_top_n plans_query_timeout : ConfigError
  detection_interval detection_probe_timeout : ConfigError

-- `if bad { return err }`, and then the rest; nil is `none`.
infixr 6 ◌or◌
abbrev pub ◌or◌ : Option ConfigError → Option ConfigError → Option ConfigError
none or rest = rest
some e or rest = some e

abbrev pub reject_if : Bool → ConfigError → Option ConfigError
reject_if true e = some e
reject_if false e = none

unfoldable pub merge : MetricsConfiguration → MetricsConfiguration
unfolding merge_web_config merge_logging_config merge_output_config
merge m = record m {
  web = merge_web_config m.web;
  logging = merge_logging_config m.logging;
  output = merge_output_config m.output;
  metrics = record m.metrics { scrape_interval = or_default m.metrics.scrape_interval (pos 0) };
}

abbrev pub is_alpha_numeric : ℕ → Bool
is_alpha_numeric r = leb b'a' r && leb r b'z' || leb b'0' r && leb r b'9'

abbrev pub is_scope_mark : ℕ → Bool
is_scope_mark r = eqb r b'.' || eqb r b'_' || eqb r b'-'

-- The loop over the scope's runes; `i` is the index. A byte of a longer rune is refused as the rune is.
unfoldable pub scope_valid_from : ℕ → Text → Bool
scope_valid_from i [] = true
scope_valid_from i (r ∷ rs) =
    let rest = scope_valid_from (suc i) rs in
    if is_alpha_numeric r || ltb 0 i && is_scope_mark r then rest else false

unfoldable pub validate_high_availability_config : HighAvailabilityConfig → Option ConfigError
unfolding scope_valid_from Availability.get_enabled Availability.get_scope
    Availability.get_retry_interval Availability.get_validation_interval
validate_high_availability_config c =
    if not (Availability.get_enabled c)
    then none
    else reject_if (ltb 63 (length (Availability.get_scope c))) scope_too_long
      or reject_if (not (scope_valid_from 0 (Availability.get_scope c))) scope_pattern
      or reject_if (leb_ℤ (Availability.get_retry_interval c) (pos 0)) retry_interval
      or reject_if (leb_ℤ (Availability.get_validation_interval c) (pos 0)) validation_interval

unfoldable pub validate_oci_vault_auth : List DatabaseEntry → Option ConfigError
unfolding validate_auth_mode
validate_oci_vault_auth [] = none
validate_oci_vault_auth (d ∷ ds) =
    let rest = validate_oci_vault_auth ds in
    elim d.oci_auth [
      | none ↦ rest
      | some mode ↦ if validate_auth_mode mode then rest else some (oci_auth_mode d.name)
    ]

unfoldable pub validate_logging_config : LoggingConfig → Option ConfigError
validate_logging_config l =
    reject_if
      (not (
        l.level == ""
        || l.level == "debug"
        || l.level == "info"
        || l.level == "warn"
        || l.level == "error"))
      log_level
    or reject_if (not (l.format == "" || l.format == "logfmt" || l.format == "json")) log_format

unfoldable pub validate_operational_config : OperationalConfig → Option ConfigError
unfolding Operational.get_enabled Operational.get_interval Operational.get_query_timeout
validate_operational_config c =
    if not (Operational.get_enabled c)
    then none
    else reject_if (leb_ℤ (Operational.get_interval c) (pos 0)) operational_interval
      or reject_if (leb_ℤ (Operational.get_query_timeout c) (pos 0)) operational_query_timeout

abbrev pub top_sql_limit : ℤ
top_sql_limit = pos 100

unfoldable pub validate_performance_config : PerformanceConfig → Option ConfigError
unfolding Activity.get_source Activity.get_interval Activity.get_query_timeout Plans.get_enabled
    Plans.get_interval Plans.get_top_n Plans.get_query_timeout
validate_performance_config p =
    let source = Activity.get_source p.activity in
    reject_if (not (source == text "session" || source == text "ash")) activity_source
    or reject_if (leb_ℤ (Activity.get_interval p.activity) (pos 0)) activity_interval
    or reject_if (leb_ℤ (Activity.get_query_timeout p.activity) (pos 0)) activity_query_timeout
    or (if not (Plans.get_enabled p.sql_plans)
        then none
        else reject_if (leb_ℤ (Plans.get_interval p.sql_plans) (pos 0)) plans_interval
          or reject_if
              (leb_ℤ (Plans.get_top_n p.sql_plans) (pos 0)
                || ltb_ℤ top_sql_limit (Plans.get_top_n p.sql_plans))
              plans_top_n
          or reject_if (leb_ℤ (Plans.get_query_timeout p.sql_plans) (pos 0)) plans_query_timeout)

unfoldable pub validate_dead_connection_detection_config :
    DeadConnectionDetectionConfig → Option ConfigError
unfolding Detection.get_enabled Detection.get_interval Detection.get_probe_timeout
validate_dead_connection_detection_config c =
    if not (Detection.get_enabled c)
    then none
    else reject_if (leb_ℤ (Detection.get_interval c) (pos 0)) detection_interval
      or reject_if (leb_ℤ (Detection.get_probe_timeout c) (pos 0)) detection_probe_timeout

-- checkDuplicatedDatabases only logs.
unfoldable pub validate : MetricsConfiguration → Option ConfigError
validate m =
    validate_high_availability_config m.high_availability
    or validate_oci_vault_auth m.databases
    or validate_logging_config m.logging
    or validate_operational_config m.operational
    or validate_performance_config m.performance
    or validate_dead_connection_detection_config m.metrics.dead_connection_detection
