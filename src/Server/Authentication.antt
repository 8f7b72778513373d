-- ===== src/Server/Authentication.antt =====
-- Who may send which request: server/src/authentication.rs, and `verify_sig` of
-- common/src/messages.rs. The BCS encoding and the Ed25519 check are a parameter.
pub mod Laws
use aptos_setup_ceremony.Base.{ℕ, String, Bool, ◌&&◌, Option, none, some, List, if◌then◌else◌}
use text.Mathlib.Text.{◌==◌}
use aptos_setup_ceremony.Contributor.{Contributor}
use aptos_setup_ceremony.Messages.{Msg, AuthenticatedMsg}
use aptos_setup_ceremony.Server.Config.{Config}
use aptos_setup_ceremony.Server.Error.{
  must_be_same_contributor, must_be_admin, invalid_route, bad_body, unauthorized, bad_request,
  not_found, Outcome, ok, fail, panic,
}

-- The body is `none` where the connection breaks off before its end.
pub record Request : Type 0 where
  pub method : String
  pub path : String
  pub body : Option (List ℕ)

-- `verifies key msg signature`: the signature is one of the BCS bytes of `msg` under `key`.
-- `parse_json`: `serde_json::from_slice` on a body.
pub record Wire : Type 0 where
  pub verifies : ℕ → Msg → List ℕ → Bool
  pub parse_json : List ℕ → Option AuthenticatedMsg

module _ (W : Wire) where
  open W use {verifies, parse_json}

  unfoldable pub verify_authenticated_by_admin : AuthenticatedMsg → Config → Outcome (Unit {0})
  verify_authenticated_by_admin msg config =
      if verifies config.admin_verifying_key msg.inner msg.signature
      then ok tt
      else fail must_be_same_contributor unauthorized

  unfoldable pub verify_authenticated_by_contributor :
      AuthenticatedMsg → Contributor → Outcome (Unit {0})
  verify_authenticated_by_contributor msg contributor =
      if verifies contributor.verifying_key msg.inner msg.signature
      then ok tt
      else fail must_be_admin unauthorized

  unfoldable pub from_request : Request → Outcome AuthenticatedMsg
  from_request request =
      if request.method == "POST" && request.path == "/msg"
      then elim request.body [
        | none ↦ panic
        | some body ↦ elim (parse_json body) [
          | some msg ↦ ok msg
          | none ↦ fail bad_body bad_request
        ]
      ]
      else fail invalid_route not_found

  unfoldable pub verify_correctly_authenticated : AuthenticatedMsg → Config → Outcome (Unit {0})
  unfolding verify_authenticated_by_admin verify_authenticated_by_contributor
  verify_correctly_authenticated msg config = elim msg.inner [
    | Msg.join c _ _ _ ↦ verify_authenticated_by_contributor msg c
    | Msg.get_status c ↦ verify_authenticated_by_contributor msg c
    | Msg.update_download_progress _ c ↦ verify_authenticated_by_contributor msg c
    | Msg.update_compute_progress _ c ↦ verify_authenticated_by_contributor msg c
    | Msg.update_upload_progress _ c _ ↦ verify_authenticated_by_contributor msg c
    | Msg.get_test_contribution_download_link c ↦ verify_authenticated_by_contributor msg c
    | Msg.get_test_contribution_upload_link c ↦ verify_authenticated_by_contributor msg c
    | Msg.register _ ↦ verify_authenticated_by_admin msg config
    | Msg.report ↦ verify_authenticated_by_admin msg config
    | Msg.download_all ↦ verify_authenticated_by_admin msg config
    | Msg.download_latest ↦ verify_authenticated_by_admin msg config
  ]
