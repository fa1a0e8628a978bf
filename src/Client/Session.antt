-- ===== src/Client/Session.antt =====
-- createSessionOnce, and the loop of `Run` in internal/client/client.go around it.
pub mod Retries
pub mod Locked
use http_syncer.Base.{
  ℕ, zero, suc, Bool, true, false, not, List, [], ◌∷◌, ◌++◌, Option, none, some, Text, text, ◌==◌,
  leb, nat_eq, if◌then◌else◌,
}
use http_syncer.Server.{Request, Answer, Payload, ready, post}

-- What comes of one request for a session.
pub data Attempt : Type 0 where
  made : Text → Text → Attempt
  refused_lock fault : Attempt

abbrev made_of : Payload → Attempt
made_of (ready sid snapshot_id url) = made sid snapshot_id
made_of _ = fault

-- How the client reads the answer; `none` is an error of the connection.
unfoldable pub read_session : Option Answer → Attempt
read_session none = fault
read_session (some a) =
    if nat_eq a.code 423 then refused_lock else if leb 300 a.code then fault else made_of a.payload

unfoldable pub session_request : Text → Text → Request
session_request token address = record {
  method = post;
  path = text "/v1/sessions";
  query = [];
  authorization = if token == [] then [] else text "Bearer " ++ token;
  client_ip = address;
}

-- One round: the attempt, whether waiting for the lock returns no error, and whether the context ends
-- during the pause before a retry.
pub record Turn : Type 0 where
  pub attempt : Attempt
  pub waited : Bool
  pub cancelled : Bool

-- The loop's end, or that its turns have run out.
pub data Begun : Type 0 where
  begun : Text → Text → Begun
  gave_up unfinished : Begun

-- After one attempt; `again` is the rest of the loop, from a number of retries.
abbrev pub after_attempt : (ℕ → Begun) → ℕ → ℕ → Turn → Attempt → Begun
after_attempt again backoffs retry turn (made sid snapshot_id) = begun sid snapshot_id
after_attempt again backoffs retry turn refused_lock = if not turn.waited then gave_up else again 0
after_attempt again backoffs retry turn fault =
    if leb backoffs retry then gave_up else if turn.cancelled then gave_up else again (suc retry)

-- The loop, over its turns; `backoffs` is the number of pauses.
unfoldable pub begin_session : ℕ → List Turn → ℕ → Begun
begin_session backoffs [] retry = unfinished
begin_session backoffs (turn ∷ turns) retry =
    after_attempt (begin_session backoffs turns) backoffs retry turn turn.attempt
