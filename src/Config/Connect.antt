-- ===== src/Config/Connect.antt =====
-- ConnectConfig of collector/config.go and its getters. A nil pointer is `none`; a Go `int` is an
-- integer.
use harry_performance_scrape.Prelude.{◌*◌, Bool, Option, String, or_else, string_eq}
use harry_performance_scrape.Prelude.Int.{ℤ, pos, negsuc}
use harry_performance_scrape.Clock.{Duration, minute}
use harry_performance_scrape.Texts.{text_eq}

pub record ConnectConfig : Type 0 where
  pub role : String
  pub tns_admin : String
  pub external_auth : Bool
  pub conn_max_lifetime : Option Duration
  pub conn_max_idle_time : Option Duration
  pub max_open_conns : Option ℤ
  pub max_idle_conns : Option ℤ
  pub pool_increment : Option ℤ
  pub pool_max_connections : Option ℤ
  pub pool_min_connections : Option ℤ
  pub query_timeout : Option ℤ

unfoldable pub get_max_open_conns : ConnectConfig → ℤ
get_max_open_conns c = or_else c.max_open_conns (pos 10)

unfoldable pub get_max_idle_conns : ConnectConfig → ℤ
get_max_idle_conns c = or_else c.max_idle_conns (pos 10)

unfoldable pub get_conn_max_lifetime : ConnectConfig → Duration
get_conn_max_lifetime c = or_else c.conn_max_lifetime (pos (30 * minute))

unfoldable pub get_conn_max_idle_time : ConnectConfig → Duration
get_conn_max_idle_time c = or_else c.conn_max_idle_time (pos (5 * minute))

unfoldable pub get_pool_max_connections : ConnectConfig → ℤ
get_pool_max_connections c = or_else c.pool_max_connections (negsuc 0)

unfoldable pub get_pool_min_connections : ConnectConfig → ℤ
get_pool_min_connections c = or_else c.pool_min_connections (negsuc 0)

unfoldable pub get_pool_increment : ConnectConfig → ℤ
get_pool_increment c = or_else c.pool_increment (negsuc 0)

unfoldable pub get_query_timeout : ConnectConfig → ℤ
get_query_timeout c = or_else c.query_timeout (pos 5)
