-- ===== src/Client/Contribute/Fuel.antt =====
-- More fuel for the polls of the client: client/src/contribute.rs.
use aptos_setup_ceremony.Base.{ℕ, zero, suc, ◌+◌, ◌≡◌, refl, ap, ◌∙◌, Option, none, some, arith}
use aptos_setup_ceremony.Contributor.{Contributor}
use aptos_setup_ceremony.Crypto.Attempt.{done}
use aptos_setup_ceremony.Stateful.{Action, next-done}
use aptos_setup_ceremony.Server.Responses.{StatusResponse}
use aptos_setup_ceremony.Client.World.{ClientError, World}
use aptos_setup_ceremony.Client.Contribute.{
  QueueOutcome, Machine, get_status, queue_round, unless_over, join_and_wait_in_queue,
}

module _ (W : World) (M : Machine W) (me : Contributor) where
  open W use {St}

  module _ (download compute upload : ℕ) where
    -- A loop that starts with the fuel `n`.
    abbrev polls : ℕ → Action ClientError St (Option QueueOutcome)
    polls n = join_and_wait_in_queue W M me download compute upload n

    round_more :
        (n m : ℕ) (x : Option QueueOutcome) (o : QueueOutcome) (u s' : St)
        → ((w : St) → polls n w ≡ (done (some o), s') → polls m w ≡ (done (some o), s'))
        → unless_over W M me download compute upload (polls n) x u ≡ (done (some o), s')
        → unless_over W M me download compute upload (polls m) x u ≡ (done (some o), s')
    round_more n m (some p) o u s' later e = e
    round_more n m none o u s' later e =
        let (v, w, f, g) = next-done (W.wait u) (λ v. polls n) (some o) s' e in rw f (later w g)

    more_polls :
        (fuel k : ℕ) (o : QueueOutcome) (s s' : St)
        → polls fuel s ≡ (done (some o), s')
        → polls (fuel + k) s ≡ (done (some o), s')
    unfolding join_and_wait_in_queue
    more_polls zero k o s s' e = absurd (cc)
    more_polls (suc fuel) k o s s' e =
        let (r, t, a, b) = next-done (get_status W M me s) _ (some o) s' e in
        let (x, u, c, d) =
          next-done (queue_round W M me download compute upload r t) _ (some o) s' b in
        let rest = round_more fuel (fuel + k) x o u s' (λ w g. more_polls fuel k o w s' g) d in
        let n : suc fuel + k ≡ suc (fuel + k) = omega arith in
        ap (λ j. polls j s) n ∙ rw (join_and_wait_in_queue, a, c) rest

    -- The loop as it is written, without fuel: a state from which it leaves the queue with an outcome.
    pub data Leaves (o : QueueOutcome) (s' : St) : St → Type 0 where
      now :
          {s t : St} (r : StatusResponse)
          → get_status W M me s ≡ (done r, t)
          → queue_round W M me download compute upload r t ≡ (done (some o), s')
          → Leaves o s' s
      later :
          {s t u w : St} (r : StatusResponse)
          → get_status W M me s ≡ (done r, t)
          → queue_round W M me download compute upload r t ≡ (done none, u)
          → W.wait u ≡ (done tt, w)
          → Leaves o s' w
          → Leaves o s' s

    enough :
        (o : QueueOutcome) (s' s : St) → Leaves o s' s → (n : ℕ) × (polls n s ≡ (done (some o), s'))
    unfolding join_and_wait_in_queue
    enough o s' s (now r a c) = (1, rw (join_and_wait_in_queue, a, c) refl)
    enough o s' s (later {w = w} r a c f rest) =
        let (n, e) = enough o s' w rest in (suc n, rw (join_and_wait_in_queue, a, c, f) e)

    round-Leaves :
        (n : ℕ) (o : QueueOutcome) (r : StatusResponse) (x : Option QueueOutcome) (s t u s' : St)
        → ((w : St) → polls n w ≡ (done (some o), s') → Leaves o s' w)
        → get_status W M me s ≡ (done r, t)
        → queue_round W M me download compute upload r t ≡ (done x, u)
        → unless_over W M me download compute upload (polls n) x u ≡ (done (some o), s')
        → Leaves o s' s
    round-Leaves n o r (some p) s t u s' ih a c e = now r a (c ∙ e)
    round-Leaves n o r none s t u s' ih a c e =
        let (v, w, f, g) = next-done (W.wait u) (λ v. polls n) (some o) s' e in
        later r a c f (ih w g)

    polls-Leaves :
        (n : ℕ) (o : QueueOutcome) (s s' : St) → polls n s ≡ (done (some o), s') → Leaves o s' s
    unfolding join_and_wait_in_queue
    polls-Leaves zero o s s' e = absurd (cc)
    polls-Leaves (suc n) o s s' e =
        let (r, t, a, b) = next-done (get_status W M me s) _ (some o) s' e in
        let (x, u, c, d) =
          next-done (queue_round W M me download compute upload r t) _ (some o) s' b in
        round-Leaves n o r x s t u s' (λ w g. polls-Leaves n o w s' g) a c d

    -- The loop of the queue on fuel is the loop as it is written: where that one leaves with an outcome,
    -- some fuel and all fuel above it gives the same outcome and state, and any fuel that gives an
    -- outcome gives one that the loop leaves with.
    pub join_and_wait_in_queue-Leaves :
        (o : QueueOutcome) (s s' : St)
        → (Leaves o s' s
            → (n : ℕ) × ((k : ℕ)
                → join_and_wait_in_queue W M me download compute upload (n + k) s
                  ≡ (done (some o), s')))
          × ((n : ℕ)
              → join_and_wait_in_queue W M me download compute upload n s ≡ (done (some o), s')
              → Leaves o s' s)
    join_and_wait_in_queue-Leaves o s s' = (
      λ h. let (n, e) = enough o s' s h in (n, λ k. more_polls n k o s s' e),
      λ n e. polls-Leaves n o s s' e,
    )
