-- ===== src/Database/Pool.antt =====
-- warmupSession of collector/database.go: pinging a session and acquiring its connections once.
use harry_performance_scrape.Prelude.{ℕ, zero, suc, Option, none, some, if◌then◌else◌}
use harry_performance_scrape.Prelude.Int.{ℤ, pos, pos_part, ltb_ℤ}
use harry_performance_scrape.Errors.{Error}
use harry_performance_scrape.Config.Connect.{
  ConnectConfig, get_max_open_conns, get_pool_max_connections,
}

-- What the driver answers during one attempt: `connect`, the ping, and the i-th `session.Conn`.
pub record Attempt : Type 0 where
  pub session : Option ℕ
  pub connect_err : Option Error
  pub ping : Option Error
  pub acquire : ℕ → Option Error

-- The error, and how many connections are still held when the function returns.
pub record Warmup : Type 0 where
  pub error : Option Error
  pub held : ℕ

unfoldable pub pool_size : ConnectConfig → ℤ
unfolding get_max_open_conns get_pool_max_connections
pool_size c =
    let open_conns = get_max_open_conns c in
    let size = if ltb_ℤ open_conns (pos 1) then get_pool_max_connections c else open_conns in
    if ltb_ℤ (pos 100) size then pos 100 else size

-- The loop `for i := 0; i < poolSize; i++`, with the rounds left and the connections acquired.
unfoldable pub acquire_all : (ℕ → Option Error) → ℕ → ℕ → Warmup
acquire_all acquire zero i = record { error = none; held = i }
acquire_all acquire (suc rounds) i =
    let rest = acquire_all acquire rounds (suc i) in
    elim (acquire (suc i)) [ none ↦ rest | some e ↦ record { error = some e; held = i } ]

-- The connections go back to the pool only after all have been acquired. A negative size runs no
-- round.
abbrev pub returned : Warmup → Warmup
returned w = elim w.error [ none ↦ record { error = none; held = 0 } | some e ↦ w ]

unfoldable pub warmup_session : Attempt → ConnectConfig → Warmup
unfolding acquire_all pool_size
warmup_session env c = elim env.ping [
  | some e ↦ record { error = some e; held = 0 }
  | none ↦ returned (acquire_all env.acquire (pos_part (pool_size c)) 0)
]
