-- ===== src/Server/Authentication/Laws.antt =====
-- Which key a request must be signed with: server/src/authentication.rs.
use text.Mathlib.Text.{◌==◌}
use aptos_setup_ceremony.Base.{ℕ, ◌≡◌, ◌⊎◌, ◌&&◌, none, true, false, arith}
use aptos_setup_ceremony.Messages.{Msg, AuthenticatedMsg}
use aptos_setup_ceremony.Server.Config.{Config}
use aptos_setup_ceremony.Server.Error.{ErrorWithCode, unauthorized, status_code, ok, err, panic}
use aptos_setup_ceremony.Server.Authentication.{
  Request, Wire, from_request, verify_correctly_authenticated,
}

-- The administrator for the four commands, and otherwise the contributor that the request names.
abbrev pub signer : Config → Msg → ℕ
signer config (Msg.join c _ _ _) = c.verifying_key
signer config (Msg.get_status c) = c.verifying_key
signer config (Msg.update_download_progress _ c) = c.verifying_key
signer config (Msg.update_compute_progress _ c) = c.verifying_key
signer config (Msg.update_upload_progress _ c _) = c.verifying_key
signer config (Msg.get_test_contribution_download_link c) = c.verifying_key
signer config (Msg.get_test_contribution_upload_link c) = c.verifying_key
signer config _ = config.admin_verifying_key

-- A request is broken off where it is one to the route whose body does not come to its end.
abbrev pub IsBroken : Request → Type 0
IsBroken r = ((r.method == "POST" && r.path == "/msg") ≡ true) × (r.body ≡ none)

module _ (W : Wire) (config : Config) where
  -- A request passes exactly when its signature is one by `signer`, and is answered with 401
  -- otherwise.
  pub verify_correctly_authenticated-signer :
      (m : AuthenticatedMsg)
      → ((W.verifies (signer config m.inner) m.inner m.signature ≡ true)
          × (verify_correctly_authenticated W m config ≡ ok tt))
        ⊎ ((W.verifies (signer config m.inner) m.inner m.signature ≡ false)
            × (x : ErrorWithCode) × (verify_correctly_authenticated W m config ≡ err x)
            × (status_code x ≡ unauthorized))
  unfolding verify_correctly_authenticated
  verify_correctly_authenticated-signer m = ground arith

  pub from_request_panics : (r : Request) → from_request W r ≡ panic → IsBroken r
  unfolding from_request
  from_request_panics r h = ground arith
