-- ===== src/Election/Leadership.antt =====
-- What Acquire of ha/election.go leaves on the server when it returns.
use harry_performance_scrape.Prelude.{
  suc, ◌≡◌, inl, inr, Bool, true, false, none, some, List, [], ◌∷◌, arith, Bool-cases, Option-cases,
  subst,
}
use harry_performance_scrape.Election.{
  Session, Locks, Round, no_connection, standby, error_before, error_after, answered, acquire_round,
  Acquired, leading, gave_up, waiting, acquire,
}

module _ (pg : Locks) where
  open pg use {State, holds, try_lock, end_session}

  released :
      (c d : Session) (s : State)
      → holds d (end_session c (try_lock c s).0) ≡ true
      → holds d s ≡ true
  released c d s p = elim (Bool-cases (try_lock c s).1) [
    | inr none_given ↦ pg.refused c d s none_given (pg.ended_other c d _ p)
    | inl given ↦
        let same : d ≡ c = pg.granted c d s given (pg.ended_other c d _ p) in
        let gone : holds d (end_session c (try_lock c s).0) ≡ false =
          rw same (pg.ended c (try_lock c s).0) in
        absurd (ground arith)
  ]

  -- A round that keeps no connection leaves no lock behind, whatever the query had already done.
  round_releases :
      (r : Round) (c d : Session) (s : State)
      → (acquire_round pg r c s).1 ≡ none
      → holds d (acquire_round pg r c s).0 ≡ true
      → holds d s ≡ true
  unfolding acquire_round
  round_releases no_connection c d s h p = p
  round_releases standby c d s h p = pg.ended_other c d s p
  round_releases error_before c d s h p = pg.ended_other c d s p
  round_releases error_after c d s h p = released c d s p
  round_releases answered c d s h p = elim (Bool-cases (try_lock c s).1) [
    | inl given ↦ absurd (ground arith)
    | inr none_given ↦ released c d s (rw (none_given, acquire_round) at p)
  ]

  pub round_keeps :
      (r : Round) (c d : Session) (s : State)
      → (acquire_round pg r c s).1 ≡ some d
      → holds d (acquire_round pg r c s).0 ≡ true
  unfolding acquire_round
  round_keeps no_connection c d s h = absurd (ground arith)
  round_keeps standby c d s h = absurd (ground arith)
  round_keeps error_before c d s h = absurd (ground arith)
  round_keeps error_after c d s h = absurd (ground arith)
  round_keeps answered c d s h = elim (Bool-cases (try_lock c s).1) [
    | inl given ↦
        let same : c ≡ d = ground arith in
        rw (given, acquire_round)
          (subst (λ e. holds e (try_lock c s).0 ≡ true) same (pg.given c s given))
    | inr none_given ↦ absurd (ground arith)
  ]

  -- The leader's session holds the lock; any other outcome leaves no lock that was not there before.
  abbrev pub Settles : State → State × Acquired → Type 0
  Settles s (s', leading d) = holds d s' ≡ true
  Settles s (s', gave_up) = (d : Session) → holds d s' ≡ true → holds d s ≡ true
  Settles s (s', waiting) = (d : Session) → holds d s' ≡ true → holds d s ≡ true

  Settles-earlier :
      (s t : State) (r : State × Acquired)
      → ((d : Session) → holds d t ≡ true → holds d s ≡ true)
      → Settles t r
      → Settles s r
  Settles-earlier s t (u, leading d) h k = k
  Settles-earlier s t (u, gave_up) h k = λ d p. h d (k d p)
  Settles-earlier s t (u, waiting) h k = λ d p. h d (k d p)

  -- However the rounds of Acquire go, it ends with the session that it keeps holding the lock, or it
  -- leaves no lock on the server that was not there before, even where a query failed after the server
  -- had given the lock.
  pub acquire-Settles :
      (rounds : List (Round × Bool)) (c : Session) (s : State) → Settles s (acquire pg rounds c s)
  unfolding acquire
  acquire-Settles [] c s = λ d p. p
  acquire-Settles ((r, stop) ∷ rounds) c s = elim (Option-cases (acquire_round pg r c s).1) [
    | inr (d, kept) ↦ rw (kept, acquire) (round_keeps r c d s kept)
    | inl none_kept ↦
        let back : (d : Session) → holds d (acquire_round pg r c s).0 ≡ true → holds d s ≡ true =
          λ d p. round_releases r c d s none_kept p in
        elim (Bool-cases stop) [
          | inl now ↦ rw (none_kept, now, acquire) back
          | inr on ↦
              rw (none_kept, on, acquire)
                (Settles-earlier s (acquire_round pg r c s).0
                  (acquire pg rounds (suc c) (acquire_round pg r c s).0) back
                  (acquire-Settles rounds (suc c) (acquire_round pg r c s).0))
        ]
  ]
