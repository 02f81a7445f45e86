-- ===== src/Scenarios/Settings.antt =====
-- A configuration file that passes validation.
use harry_performance_scrape.Prelude.{◌≡◌, ◌↔◌, refl, none, some, [], ◌∷◌, string_eq}
use harry_performance_scrape.Prelude.Int.{pos, ◌<ℤ◌}
use harry_performance_scrape.Texts.{text, trim_space, to_lower, text_eq}
use harry_performance_scrape.Config.Activity
use harry_performance_scrape.Config.Vault.{validate_auth_mode, normalize_auth_mode}
use harry_performance_scrape.Config.Availability.{
  HighAvailabilityConfig, get_enabled, get_scope, get_retry_interval, get_validation_interval,
}
use harry_performance_scrape.Config.Validate.{
  MetricsConfiguration, validate, validate_high_availability_config, scope_valid_from,
  validate_oci_vault_auth, validate_logging_config, validate_operational_config,
  validate_performance_config, validate_dead_connection_detection_config,
}
use harry_performance_scrape.Config.Scope.{IsScope, validate_high_availability_config_iff}
use harry_performance_scrape.Config.Defaults.{HasPositiveTimings, validate-HasPositiveTimings}

abbrev availability : HighAvailabilityConfig
availability = record {
  enabled = none;
  scope = text "prod-1";
  retry_interval = none;
  validation_interval = none;
}

validate_high_availability_config_iff_example :
    (validate_high_availability_config availability ≡ none) ↔ (
      IsScope (get_scope availability)
      × (pos 0 <ℤ get_retry_interval availability)
      × (pos 0 <ℤ get_validation_interval availability))
validate_high_availability_config_iff_example =
    validate_high_availability_config_iff availability (unfold get_enabled in refl)

abbrev settings : MetricsConfiguration
settings = record {
  databases = record { name = "orcl"; oci_auth = some (text "instance_principal") } ∷ [];
  metrics = record {
    database_label = "";
    definitions = [];
    scrape_interval = none;
    dead_connection_detection = record { enabled = none; interval = none; probe_timeout = none };
  };
  operational = record { enabled = none; interval = none; query_timeout = none };
  performance = record {
    activity = record { source = text "ASH"; interval = none; query_timeout = none };
    sql_plans = record {
      enabled = none;
      interval = none;
      top_n = some (pos 50);
      query_timeout = none;
    };
  };
  high_availability = availability;
  output = record {
    url = "postgres://harry";
    max_conns = none;
    min_conns = none;
    conn_max_lifetime = none;
    retention = none;
    auto_migrate = none;
    samples_table = "";
    sql_samples_table = "";
    session_samples_table = "";
    blocking_sessions_table = "";
    database_activity_table = "";
  };
  logging = record {
    log_disable = none;
    log_interval = none;
    log_destination = "";
    log_per_database_files = none;
    level = "";
    format = "json";
  };
  web = record {
    listen_addresses = none;
    read_header_timeout = none;
    read_timeout = none;
    idle_timeout = none;
  };
}

settings_pass : validate settings ≡ none
unfolding validate validate_high_availability_config scope_valid_from validate_oci_vault_auth
    validate_auth_mode normalize_auth_mode trim_space to_lower validate_logging_config
    validate_operational_config validate_performance_config
    validate_dead_connection_detection_config Activity.get_source
settings_pass = refl

validate-HasPositiveTimings_example : HasPositiveTimings settings
validate-HasPositiveTimings_example = validate-HasPositiveTimings settings settings_pass
