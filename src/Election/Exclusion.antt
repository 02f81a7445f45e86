-- ===== src/Election/Exclusion.antt =====
-- No two instances of ha/election.go lead at once.
use harry_performance_scrape.Prelude.{
  ℕ, suc, ◌≡◌, ◌≢◌, refl, ◌<◌, inl, inr, Bool, true, false, Option, none, some, List, [], ◌∷◌,
  if◌then◌else◌, eqb, arith, Bool-cases, ◌||◌,
}
use harry_performance_scrape.Election.{Session, Locks, Round, acquire_round, close}
use harry_performance_scrape.Election.Leadership.{round_keeps}
use harry_performance_scrape.Election.Rounds.{
  Sole, end_session-Sole, acquire_round-Sole, acquire_round_session, acquire_round_other,
  close-Sole, close_other,
}

module _ (pg : Locks) where
  open pg use {State, holds, try_lock, end_session}

  -- The server, the connection of each instance, the number of the next session, and the sessions that
  -- the server has ended.
  pub record World : Type 0 where
    pub server : State
    pub conn : ℕ → Option Session
    pub next : Session
    pub gone : Session → Bool

  -- What may happen, in any order: a round of Acquire, Close, or the end of a session for any reason.
  pub data Event : Type 0 where
    round : ℕ → Round → Event
    closed : ℕ → Event
    lost : Session → Event

  abbrev assigned : (ℕ → Option Session) → ℕ → Option Session → ℕ → Option Session
  assigned f i c j = if eqb i j then c else f j

  abbrev after_round : World → ℕ → State × Option Session → World
  after_round w i (s, none) = record w { server = s; next = suc w.next }
  after_round w i (s, some c) = record w {
    server = s;
    conn = assigned w.conn i (some c);
    next = suc w.next;
  }

  unfoldable pub step : World → Event → World
  step w (round i r) = after_round w i (acquire_round pg r w.next w.server)
  step w (closed i) =
      let (s, c) = close pg (w.conn i) w.server in
      record w { server = s; conn = assigned w.conn i c }
  step w (lost c) = record w { server = end_session c w.server; gone = λ d. eqb c d || w.gone d }

  unfoldable pub run : World → List Event → World
  run w [] = w
  run w (e ∷ es) = run (step w e) es

  -- One session at most holds the lock; sessions are old; no two instances share one; and a session
  -- that an instance keeps holds the lock, unless the server has ended it.
  pub record IsSound (w : World) : Type 0 where
    pub sole : Sole pg w.server
    pub old : (i : ℕ) (c : Session) → w.conn i ≡ some c → c < w.next
    pub apart : (i j : ℕ) (c : Session) → w.conn i ≡ some c → w.conn j ≡ some c → i ≡ j
    pub holding :
        (i : ℕ) (c : Session) → w.conn i ≡ some c → w.gone c ≡ false → holds c w.server ≡ true

  -- An instance leads while it keeps a connection that the server has not ended.
  abbrev pub Leads : World → ℕ → Type 0
  Leads w i = (c : Session) × (w.conn i ≡ some c) × (w.gone c ≡ false)

  -- Two instances that lead are the same.
  Leads-alone : (w : World) → IsSound w → (i j : ℕ) → Leads w i → Leads w j → i ≡ j
  Leads-alone w s i j (c, ci, alive) (d, dj, alive') =
      let same : c ≡ d = s.sole c d (s.holding i c ci alive) (s.holding j d dj alive') in
      s.apart i j c ci (rw same dj)

  after_round-IsSound :
      (w : World) (i : ℕ) (r : State × Option Session)
      → IsSound w
      → Sole pg r.0
      → ((d : Session) → r.1 ≡ some d → d ≡ w.next)
      → ((d : Session) → r.1 ≡ some d → holds d r.0 ≡ true)
      → ((d : Session) → d ≢ w.next → holds d w.server ≡ true → holds d r.0 ≡ true)
      → IsSound (after_round w i r)
  after_round-IsSound w i (s, none) h sole fresh keeps other = record {
    sole = sole;
    old = λ j c p. omega (arith, h.old j c p);
    apart = h.apart;
    holding = λ j c p alive. other c (λ same. omega (arith, h.old j c p)) (h.holding j c p alive);
  }
  after_round-IsSound w i (s, some c) h sole fresh keeps other = record {
    sole = sole;
    old = λ j d p. ground (arith, h.old j d, fresh c refl);
    apart = λ j k d p q. ground (arith, h.old j d, h.old k d, fresh c refl, h.apart j k d);
    holding = λ j d p alive. elim (Bool-cases (eqb i j)) [
      | inl mine ↦ let same : c ≡ d = ground arith in keeps d (rw same refl)
      | inr theirs ↦
          let before : w.conn j ≡ some d = ground arith in
          other d (λ same. omega (arith, h.old j d before)) (h.holding j d before alive)
    ];
  }

  closed-IsSound :
      (w : World) (i : ℕ) (s : State)
      → IsSound w
      → Sole pg s
      → ((d : Session) → w.conn i ≢ some d → holds d w.server ≡ true → holds d s ≡ true)
      → IsSound (record w { server = s; conn = assigned w.conn i none })
  closed-IsSound w i s h sole other = record {
    sole = sole;
    old = λ j d p. ground (arith, h.old j d);
    apart = λ j k d p q. ground (arith, h.apart j k d);
    holding = λ j d p alive. elim (Bool-cases (eqb i j)) [
      | inl mine ↦ absurd (ground arith)
      | inr theirs ↦
          let before : w.conn j ≡ some d = ground arith in
          other d (λ mine. ground (arith, h.apart i j d mine before)) (h.holding j d before alive)
    ];
  }

  close-none : (c : Option Session) (s : State) → (close pg c s).1 ≡ none
  unfolding close
  close-none none s = refl
  close-none (some c) s = refl

  step-IsSound : (w : World) (e : Event) → IsSound w → IsSound (step w e)
  unfolding step
  step-IsSound w (round i r) h =
      after_round-IsSound w i (acquire_round pg r w.next w.server) h
        (acquire_round-Sole pg r w.next w.server h.sole)
        (λ d. acquire_round_session pg r w.next d w.server)
        (λ d. round_keeps pg r w.next d w.server) (λ d. acquire_round_other pg r w.next d w.server)
  step-IsSound w (closed i) h = rw (close-none (w.conn i) w.server) (
      closed-IsSound w i (close pg (w.conn i) w.server).0 h
        (close-Sole pg (w.conn i) w.server h.sole) (λ d. close_other pg (w.conn i) d w.server))
  step-IsSound w (lost c) h = record {
    sole = end_session-Sole pg c w.server h.sole;
    old = h.old;
    apart = h.apart;
    holding = λ j d p alive.
        pg.kept_other c d w.server (λ same. ground arith) (h.holding j d p (ground arith));
  }

  run-IsSound : (w : World) (es : List Event) → IsSound w → IsSound (run w es)
  unfolding run
  run-IsSound w [] h = h
  run-IsSound w (e ∷ es) h = run-IsSound (step w e) es (step-IsSound w e h)

  -- From a server on which nobody holds the lock and instances without a connection.
  unfoldable pub begun : State → World
  begun s = record { server = s; conn = λ i. none; next = 0; gone = λ c. false }

  -- Whatever happens to instances that start without leadership, and in whatever order, no two of them
  -- lead at once, that is, keep from Acquire a connection that the server has not ended.
  pub run-Leads_alone :
      (s : State)
      → ((c : Session) → holds c s ≡ false)
      → (es : List Event) (i j : ℕ) → Leads (run (begun s) es) i
      → Leads (run (begun s) es) j
      → i ≡ j
  unfolding begun
  run-Leads_alone s free es i j li lj =
      Leads-alone (run (begun s) es)
        (run-IsSound (begun s) es (record {
          sole = λ c d p q. absurd (ground (arith, free c));
          old = λ k c p. absurd (ground arith);
          apart = λ k l c p q. absurd (ground arith);
          holding = λ k c p alive. absurd (ground arith);
        }))
        i j li lj
