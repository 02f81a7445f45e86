-- ===== src/Database/Leak.antt =====
-- The connections that warmupSession of collector/database.go holds when it returns.
use harry_performance_scrape.Prelude.{
  ℕ, zero, suc, ◌+◌, ◌≤◌, ◌<◌, ◌≡◌, inl, inr, Option, none, some, arith, Bool-cases, ltb, ap, ◌∙◌,
}
use harry_performance_scrape.Prelude.Int.{pos_part}
use harry_performance_scrape.Errors.{Error}
use harry_performance_scrape.Config.Connect.{ConnectConfig}
use harry_performance_scrape.Database.Pool.{Attempt, pool_size, acquire_all, warmup_session}

-- The first acquisition that fails is number n + 1.
pub record FailsAt (acquire : ℕ → Option Error) (n : ℕ) (e : Error) : Type 0 where
  pub earlier : (k : ℕ) → 0 < k → k ≤ n → acquire k ≡ none
  pub here : acquire (suc n) ≡ some e

acquire_all_fails :
    (acquire : ℕ → Option Error) (n : ℕ) (e : Error)
    → FailsAt acquire n e
    → (rounds i : ℕ) → i ≤ n
    → n < i + rounds
    → acquire_all acquire rounds i ≡ record { error = some e; held = n }
unfolding acquire_all
acquire_all_fails acquire n e f zero i h k = absurd (omega arith)
acquire_all_fails acquire n e f (suc rounds) i h k = elim (Bool-cases (ltb i n)) [
  | inl more ↦
      rw (f.earlier (suc i) (omega arith) (ground arith), acquire_all)
        (acquire_all_fails acquire n e f rounds (suc i) (ground arith) (omega arith))
  | inr last ↦
      let same : i ≡ n = ground arith in
      let fails : acquire (suc i) ≡ some e = rw same f.here in
      rw (fails, acquire_all) (ap (λ m. record { error = some e; held = m }) same)
]

acquire_all_succeeds :
    (acquire : ℕ → Option Error) (rounds i : ℕ)
    → ((k : ℕ) → i < k → k ≤ i + rounds → acquire k ≡ none)
    → acquire_all acquire rounds i ≡ record { error = none; held = i + rounds }
unfolding acquire_all
acquire_all_succeeds acquire zero i h = ground arith
acquire_all_succeeds acquire (suc rounds) i h =
    rw (h (suc i) (omega arith) (omega arith), acquire_all)
      (acquire_all_succeeds acquire rounds (suc i) (λ k p q. h k (omega arith) (omega arith))
        ∙ ap (λ n. record { error = none; held = n }) (omega arith))

-- Where acquisition number n + 1 is the first to fail, within the pool's size, warmupSession returns
-- that error and still holds the n connections that it acquired before: nothing gives them back.
pub warmup_session-held :
    (env : Attempt) (c : ConnectConfig) (n : ℕ) (e : Error)
    → env.ping ≡ none
    → FailsAt env.acquire n e
    → n < pos_part (pool_size c)
    → warmup_session env c ≡ record { error = some e; held = n }
unfolding warmup_session
warmup_session-held env c n e p f h =
    rw (
      p,
      acquire_all_fails env.acquire n e f (pos_part (pool_size c)) 0 (omega arith) (omega arith),
    )

-- Where the ping and every acquisition succeed, warmupSession reports no error and gives every
-- connection back.
pub warmup_session-returned :
    (env : Attempt) (c : ConnectConfig)
    → env.ping ≡ none
    → ((k : ℕ) → 0 < k → k ≤ pos_part (pool_size c) → env.acquire k ≡ none)
    → warmup_session env c ≡ record { error = none; held = 0 }
unfolding warmup_session
warmup_session-returned env c p h =
    rw (
      p,
      acquire_all_succeeds env.acquire (pos_part (pool_size c)) 0 (λ k q r. h k q (omega arith)),
    )
