-- ===== src/Client/Contribute/Polls.antt =====
-- The polls of the client: client/src/contribute.rs.
use aptos_setup_ceremony.Base.{ℕ, zero, suc, ◌≡◌, sym, ap, ◌∙◌, String, Option, none, some, true}
use aptos_setup_ceremony.Contributor.{Contributor}
use aptos_setup_ceremony.Messages.{Msg}
use aptos_setup_ceremony.Crypto.Attempt.{Attempt, done}
use aptos_setup_ceremony.Stateful.{Action, next, next-done}
use aptos_setup_ceremony.Server.Responses.{
  StatusResponse, didnt_join, kicked, waiting_in_queue, ready_to_download_previous,
  waiting_for_contribution_with_previous, ready_for_upload, verifying, finished,
}
use aptos_setup_ceremony.Client.World.{ClientError, World, sign, send}
use aptos_setup_ceremony.Client.Contribute.{
  QueueOutcome, ready_to_download, already_finished, verifying_now, Machine, get_status,
  queue_round, unless_over, verification_round, join_and_wait_in_queue,
  wait_for_server_verification, contribute_in_turn, contribute, test_my_speed, leave, finish,
  after_queue, previous_bytes, compute_my_contribution, upload_my_contribution,
}

module _ (W : World) (M : Machine W) (me : Contributor) where
  open W use {St}

  -- The status that an outcome of the queue stands for.
  abbrev pub status_for : QueueOutcome → StatusResponse
  status_for (ready_to_download url) = ready_to_download_previous url
  status_for already_finished = finished
  status_for verifying_now = verifying

  -- What gives no outcome gives none.
  no_outcome :
      (m : Action ClientError St (Unit {0})) (o : QueueOutcome) (s s' : St)
      → next (m s) (λ u t. (done none, t)) ≡ (done (some o), s')
      → ⊥
  no_outcome m o s s' e =
      let (u, t, a, b) = next-done (m s) (λ u t. (done none, t)) (some o) s' e in cc

  abbrev answer : Option QueueOutcome → St → Attempt ClientError (Option QueueOutcome) × St
  answer o s = (done o, s)

  outcome_only :
      (o p : QueueOutcome) (s s' : St) → answer (some p) s ≡ answer (some o) s' → (p ≡ o) × (s ≡ s')
  outcome_only o p s s' e = (cc, ap (λ r. r.1) e)

  module _ (download compute upload : ℕ) where
    -- A round with an outcome has made no request.
    queue_round-some :
        (r : StatusResponse) (o : QueueOutcome) (s s' : St)
        → queue_round W M me download compute upload r s ≡ (done (some o), s')
        → (r ≡ status_for o) × (s ≡ s')
    unfolding queue_round
    queue_round-some didnt_join o s s' e =
        absurd (no_outcome (send W (sign W (Msg.join me download compute upload))) o s s' e)
    queue_round-some (kicked x) o s s' e =
        absurd (no_outcome (send W (sign W (Msg.join me download compute upload))) o s s' e)
    queue_round-some (waiting_in_queue pos) o s s' e = absurd (cc)
    queue_round-some (ready_to_download_previous url) o s s' e =
        let (p, q) = outcome_only o (ready_to_download url) s s' e in (ap status_for p, q)
    queue_round-some finished o s s' e =
        let (p, q) = outcome_only o already_finished s s' e in (ap status_for p, q)
    queue_round-some verifying o s s' e =
        let (p, q) = outcome_only o verifying_now s s' e in (ap status_for p, q)
    queue_round-some (waiting_for_contribution_with_previous url) o s s' e =
        absurd (no_outcome (W.sleep 25) o s s' e)
    queue_round-some (ready_for_upload urls) o s s' e = absurd (no_outcome (W.sleep 25) o s s' e)

    -- The client leaves the queue only with the outcome of the last status that the server answered,
    -- and has made no request since.
    pub join_and_wait_in_queue-some :
        (fuel : ℕ) (o : QueueOutcome) (s s' : St)
        → join_and_wait_in_queue W M me download compute upload fuel s ≡ (done (some o), s')
        → (t : St) × (get_status W M me t ≡ (done (status_for o), s'))
    unfolding join_and_wait_in_queue
    join_and_wait_in_queue-some zero o s s' e = absurd (cc)
    join_and_wait_in_queue-some (suc fuel) o s s' e =
        let (r, t, a, b) = next-done (get_status W M me s) _ (some o) s' e in
        let (x, u, c, d) =
          next-done (queue_round W M me download compute upload r t) _ (some o) s' b in
        go (λ w g. join_and_wait_in_queue-some fuel o w s' g) r t x u a c d
      where
        go :
            ((w : St)
              → join_and_wait_in_queue W M me download compute upload fuel w ≡ (done (some o), s')
              → (t : St) × (get_status W M me t ≡ (done (status_for o), s')))
            → (r : StatusResponse) (t : St) (x : Option QueueOutcome) (u : St)
            → get_status W M me s ≡ (done r, t)
            → queue_round W M me download compute upload r t ≡ (done x, u)
            → unless_over W M me download compute upload
                (join_and_wait_in_queue W M me download compute upload fuel)
                x
                u
              ≡ (done (some o), s')
            → (t : St) × (get_status W M me t ≡ (done (status_for o), s'))
        go later r t (some p) u a c d =
            let (f, g) = outcome_only o p u s' d in
            let (h, k) = queue_round-some r p t u c in
            (s, a ∙ (λ i. (done ((h ∙ ap status_for f) i), (k ∙ g) i)))
        go later r t none u a c d =
            let (v, w, f, g) = next-done (W.wait u) _ (some o) s' d in later w g

  -- The client ends its wait only when the server has answered that the contribution is finished.
  pub wait_for_server_verification-some :
      (fuel : ℕ) (u : Unit {0}) (s s' : St)
      → wait_for_server_verification W M me fuel s ≡ (done (some u), s')
      → (t : St) × (get_status W M me t ≡ (done finished, s'))
  unfolding wait_for_server_verification
  wait_for_server_verification-some zero u s s' e = absurd (cc)
  wait_for_server_verification-some (suc fuel) u s s' e =
      let (r, t, a, b) = next-done (get_status W M me s) _ (some u) s' e in
      go (λ w g. wait_for_server_verification-some fuel u w s' g) r t a b
    where
      go :
          ((w : St)
            → wait_for_server_verification W M me fuel w ≡ (done (some u), s')
            → (t : St) × (get_status W M me t ≡ (done finished, s')))
          → (r : StatusResponse) (t : St) → get_status W M me s ≡ (done r, t)
          → verification_round W M me (wait_for_server_verification W M me fuel) r t
            ≡ (done (some u), s')
          → (t : St) × (get_status W M me t ≡ (done finished, s'))
      go later finished t a b = (s, a ∙ (λ i. (done finished, (b i).1)))
      go later verifying t a b =
          let (v, w, f, g) = next-done (W.wait t) _ (some u) s' b in
          let (v', w', f', g') = next-done (W.wait w) _ (some u) s' g in later w' g'
      go later didnt_join t a b = absurd (cc)
      go later (kicked x) t a b = absurd (cc)
      go later (waiting_in_queue x) t a b = absurd (cc)
      go later (ready_to_download_previous x) t a b = absurd (cc)
      go later (waiting_for_contribution_with_previous x) t a b = absurd (cc)
      go later (ready_for_upload x) t a b = absurd (cc)

  sent_last :
      (m : Action ClientError St (Unit {0})) (k h : String) (t t' : St)
      → next (m t) (λ u x. (done k, x)) ≡ (done h, t')
      → (k ≡ h) × (m t ≡ (done tt, t'))
  sent_last m k h t t' e =
      let (u, x, f, g) = next-done (m t) (λ u x. (done k, x)) h t' e in
      (cc, f ∙ (λ i. (done tt, (g i).1)))

  -- The last request of the steps in turn.
  contribute_in_turn-done :
      (url : Option String) (h : String) (t t' : St)
      → contribute_in_turn W M me url t ≡ (done h, t')
      → (r : St) × (send W (sign W (Msg.update_upload_progress true me h)) r ≡ (done tt, t'))
  unfolding contribute_in_turn
  contribute_in_turn-done url h t t' e =
      let (p, t₁, a₁, e₁) = next-done (previous_bytes W M me url t) _ h t' e in
      let (u₂, t₂, a₂, e₂) =
        next-done (send W (sign W (Msg.update_download_progress true me)) t₁) _ h t' e₁ in
      let (b, t₃, a₃, e₃) = next-done (compute_my_contribution W M me p t₂) _ h t' e₂ in
      let (u₄, t₄, a₄, e₄) =
        next-done (send W (sign W (Msg.update_compute_progress true me)) t₃) _ h t' e₃ in
      let (k, t₅, a₅, e₅) = next-done (upload_my_contribution W M me b t₄) _ h t' e₄ in
      let (same, q) =
        sent_last (send W (sign W (Msg.update_upload_progress true me k))) k h t₅ t' e₅ in
      (t₅, ap (λ j. send W (sign W (Msg.update_upload_progress true me j)) t₅) (sym same) ∙ q)

  leave_only :
      (fuel : ℕ) (w : Option (Unit {0})) (hash : String) (x s' : St)
      → leave W M me w x ≡ (done (some (some hash)), s')
      → ⊥
  leave_only fuel none hash x s' g = cc
  leave_only fuel (some u) hash x s' g = cc

  finish_only :
      (fuel : ℕ) (h : String) (w : Option (Unit {0})) (hash : String) (x y s' : St)
      → finish W M me h w y ≡ (done (some (some hash)), s')
      → wait_for_server_verification W M me fuel x ≡ (done w, y)
      → (h ≡ hash) × (t : St) × (get_status W M me t ≡ (done finished, s'))
  finish_only fuel h none hash x y s' l k = absurd (cc)
  finish_only fuel h (some u) hash x y s' l k =
      let (t, q) = wait_for_server_verification-some fuel u x y k in
      (cc, t, q ∙ (λ i. (done finished, (l i).1)))

  -- The client ends with a hash only after it has sent the end of the upload with that hash, which
  -- the server has not refused, and with the server's answer that the contribution is finished.
  pub contribute-finished :
      (fuel : ℕ) (hash : String) (s s' : St)
      → contribute W M me fuel s ≡ (done (some (some hash)), s')
      → (t₁ t₂ t₃ : St) × (send W (sign W (Msg.update_upload_progress true me hash)) t₁
          ≡ (done tt, t₂))
        × (get_status W M me t₃ ≡ (done finished, s'))
  unfolding contribute after_queue
  contribute-finished fuel hash s s' e =
      let (v, t, a, b) = next-done (test_my_speed W M me s) _ (some (some hash)) s' e in
      let (o, u, c, d) =
        next-done (join_and_wait_in_queue W M me v.0 v.1.0 v.1.1 fuel t) _ (some (some hash)) s'
          b in
      go o u d
    where
      go :
          (o : Option QueueOutcome) (u : St)
          → after_queue W M me fuel o u ≡ (done (some (some hash)), s')
          → (t₁ t₂ t₃ : St) × (send W (sign W (Msg.update_upload_progress true me hash)) t₁
              ≡ (done tt, t₂))
            × (get_status W M me t₃ ≡ (done finished, s'))
      go none u d = absurd (cc)
      go (some already_finished) u d = absurd (cc)
      go (some verifying_now) u d =
          let (w, x, f, g) =
            next-done (wait_for_server_verification W M me fuel u) _ (some (some hash)) s' d in
          absurd (leave_only fuel w hash x s' g)
      go (some (ready_to_download url)) u d =
          let (h, x, f, g) =
            next-done (contribute_in_turn W M me url u) _ (some (some hash)) s' d in
          let (w, y, k, l) =
            next-done (wait_for_server_verification W M me fuel x) _ (some (some hash)) s' g in
          let (same, n, q) = finish_only fuel h w hash x y s' l k in
          let (r, p) = contribute_in_turn-done url h u x f in
          (
            r,
            x,
            n,
            ap (λ k. send W (sign W (Msg.update_upload_progress true me k)) r) (sym same) ∙ p,
            q,
          )
