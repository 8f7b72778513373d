-- ===== src/Client/World.antt =====
-- What the client acts on, and the requests it makes of the server: common/src/messages.rs and
-- `PingLoop` of client/src/contribute.rs. The network, the clock, the files and the key's signature
-- are parameters. What the client prints is left out.
use aptos_setup_ceremony.Base.{ℕ, zero, suc, String, Option, none, some, List}
use aptos_setup_ceremony.Messages.{Msg, AuthenticatedMsg}
use aptos_setup_ceremony.Crypto.Attempt.{ContributionGenerationFailure}
use aptos_setup_ceremony.Stateful.{Action, ◌>>=◌, ◌>>◌, pure, throw, map_err}
use aptos_setup_ceremony.Server.Error.{KickedError, AnyError, StatusCode}
use aptos_setup_ceremony.Server.Responses.{
  Response, StatusResponse, json_status, json_url, json_urls,
}
use aptos_setup_ceremony.Server.Dispatch.{HttpResponse, success, failure}

pub data MsgError : Type 0 where
  transport : String → MsgError
  refused : StatusCode → AnyError → MsgError
  bad_json : MsgError

-- Why the client ends before its end. `exit` is `process::exit` with its code.
pub data ClientError : Type 0 where
  message : MsgError → ClientError
  network : String → ClientError
  too_slow : ClientError
  no_upload_plan : ClientError
  was_kicked : KickedError → ClientError
  unexpected : StatusResponse → ClientError
  generation : ContributionGenerationFailure → ClientError
  exit : ℕ → ClientError

-- `wait` is a tick of an interval, `sleep` takes seconds, and `clock` gives nanoseconds. While the
-- client waits, everything else may go on.
pub record World : Type 1 where
  pub St : Type 0
  pub post : AuthenticatedMsg → Action String St HttpResponse
  pub get : String → Action ClientError St (List ℕ)
  pub put_part : String → List ℕ → Action ClientError St (Unit {0})
  pub write : String → List ℕ → Action ClientError St (Unit {0})
  pub wait : Action ClientError St (Unit {0})
  pub sleep : ℕ → Action ClientError St (Unit {0})
  pub clock : Action ClientError St ℕ
  pub signature : Msg → List ℕ

module _ (W : World) where
  open W use {St}

  unfoldable pub sign : Msg → AuthenticatedMsg
  sign self = record { inner = self; signature = W.signature self }

  -- Every failure that the server sends is a client or a server error.
  unfoldable pub send_inner : AuthenticatedMsg → Action MsgError St Response
  send_inner self = do
    res ← map_err transport (W.post self)
    elim res [ success value ↦ pure value | failure code e ↦ throw (refused code e) ]

  unfoldable pub send : AuthenticatedMsg → Action ClientError St (Unit {0})
  unfolding send_inner
  send self = map_err message (send_inner self) >> pure tt

  abbrev pub status_of : Response → Option StatusResponse
  status_of (json_status r) = some r
  status_of _ = none

  abbrev pub url_of : Response → Option String
  url_of (json_url u) = some u
  url_of _ = none

  abbrev pub urls_of : Response → Option (List String)
  urls_of (json_urls us) = some us
  urls_of _ = none

  -- `parse` is the JSON of the type that the caller asks for.
  unfoldable pub send_and_receive :
      {A : Type 0} → (Response → Option A) → AuthenticatedMsg → Action ClientError St A
  unfolding send_inner
  send_and_receive parse self = do
    value ← map_err message (send_inner self)
    elim (parse value) [ none ↦ throw (message bad_json) | some a ↦ pure a ]

  -- `pings` sends of the loop, until it is stopped. An error ends the process.
  unfoldable pub ping_loop : ℕ → AuthenticatedMsg → Action ClientError St (Unit {0})
  unfolding send
  ping_loop zero msg = pure tt
  ping_loop (suc pings) msg = W.wait >> (map_err (λ e. exit 1) (send msg) >> ping_loop pings msg)
