-- ===== src/Election/Rounds.antt =====
-- What one round of Acquire of ha/election.go, or Close, does to the sessions on the server.
use harry_performance_scrape.Prelude.{
  ◌≡◌, ◌≢◌, refl, inl, inr, true, Option, none, some, arith, Bool-cases,
}
use harry_performance_scrape.Election.{
  Session, Locks, Round, no_connection, standby, error_before, error_after, answered, acquire_round,
  close,
}

module _ (pg : Locks) where
  open pg use {State, holds, try_lock, end_session}

  -- One session at most holds the lock.
  abbrev pub Sole : State → Type 0
  Sole s = (c d : Session) → holds c s ≡ true → holds d s ≡ true → c ≡ d

  pub end_session-Sole : (c : Session) (s : State) → Sole s → Sole (end_session c s)
  end_session-Sole c s h d e p q = h d e (pg.ended_other c d s p) (pg.ended_other c e s q)

  try_lock-Sole : (c : Session) (s : State) → Sole s → Sole (try_lock c s).0
  try_lock-Sole c s h d e p q = elim (Bool-cases (try_lock c s).1) [
    | inl given ↦
        let one : d ≡ c = pg.granted c d s given p in
        let other : e ≡ c = pg.granted c e s given q in omega arith
    | inr none_given ↦ h d e (pg.refused c d s none_given p) (pg.refused c e s none_given q)
  ]

  pub acquire_round-Sole :
      (r : Round) (c : Session) (s : State) → Sole s → Sole (acquire_round pg r c s).0
  unfolding acquire_round
  acquire_round-Sole no_connection c s h = h
  acquire_round-Sole standby c s h = end_session-Sole c s h
  acquire_round-Sole error_before c s h = end_session-Sole c s h
  acquire_round-Sole error_after c s h = end_session-Sole c (try_lock c s).0 (try_lock-Sole c s h)
  acquire_round-Sole answered c s h = elim (Bool-cases (try_lock c s).1) [
    | inl given ↦ rw (given, acquire_round) (try_lock-Sole c s h)
    | inr none_given ↦
        rw (none_given, acquire_round) (end_session-Sole c (try_lock c s).0 (try_lock-Sole c s h))
  ]

  pub acquire_round_session :
      (r : Round) (c d : Session) (s : State) → (acquire_round pg r c s).1 ≡ some d → d ≡ c
  unfolding acquire_round
  acquire_round_session no_connection c d s h = absurd (ground arith)
  acquire_round_session standby c d s h = absurd (ground arith)
  acquire_round_session error_before c d s h = absurd (ground arith)
  acquire_round_session error_after c d s h = absurd (ground arith)
  acquire_round_session answered c d s h = ground arith

  pub close-Sole : (c : Option Session) (s : State) → Sole s → Sole (close pg c s).0
  unfolding close
  close-Sole none s h = h
  close-Sole (some c) s h = end_session-Sole c s h

  -- A round leaves the locks of other sessions alone.
  pub acquire_round_other :
      (r : Round) (c d : Session) (s : State)
      → d ≢ c
      → holds d s ≡ true
      → holds d (acquire_round pg r c s).0 ≡ true
  unfolding acquire_round
  acquire_round_other no_connection c d s n h = h
  acquire_round_other standby c d s n h = pg.kept_other c d s n h
  acquire_round_other error_before c d s n h = pg.kept_other c d s n h
  acquire_round_other error_after c d s n h = pg.kept_other c d (try_lock c s).0 n (pg.kept c d s h)
  acquire_round_other answered c d s n h = elim (Bool-cases (try_lock c s).1) [
    | inl given ↦ rw (given, acquire_round) (pg.kept c d s h)
    | inr none_given ↦
        rw (none_given, acquire_round) (pg.kept_other c d (try_lock c s).0 n (pg.kept c d s h))
  ]

  pub close_other :
      (c : Option Session) (d : Session) (s : State)
      → c ≢ some d
      → holds d s ≡ true
      → holds d (close pg c s).0 ≡ true
  unfolding close
  close_other none d s n h = h
  close_other (some c) d s n h = pg.kept_other c d s (λ same. n (rw same refl)) h
