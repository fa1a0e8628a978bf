-- ===== src/Server/WaitApi.antt =====
-- handleLockWaitWS of internal/server/server.go, and waitForUnlockWS of internal/client/client.go
-- at the other end of the connection.
pub mod Ends
use http_syncer.Base.{
  Bool, true, false, not, List, [], ◌∷◌, ◌++◌, Option, none, some, Text, text, ◌==◌, if◌then◌else◌,
}
use http_syncer.Lock.{Manager, TimeText, Env, is_locked}
use http_syncer.Filter.{Engine}
use http_syncer.Server.{
  Service, Request, Answer, refuse, authorize_module, log_event, get_param, get, lock_path,
}
use http_syncer.Server.Calls.{Endpoint, serve_all}

-- A message on the connection.
pub data Message : Type 0 where
  unlocked : Text → Message
  locked : Text → Text → Message

-- One round: the requests that the service answers before it, what the system says during it, whether
-- the message is delivered, and whether the request is cancelled while the ticker is waited for.
pub record Round : Type 0 where
  pub others : List (Endpoint × Request)
  pub env : Env
  pub delivered : Bool
  pub cancelled : Bool

pub data Ending : Type 0 where
  told disconnected done running : Ending

abbrev pub Waited : Type 0
Waited = Service × List Message × Ending

abbrev pub tell : Message → Waited → Waited
tell msg (s, messages, ending) = (s, msg ∷ messages, ending)

module _ (tf : TimeText) (engine : Engine) (r : Request) (name : Text) where
  -- The lock is looked at over the service that the other requests leave.
  abbrev pub look : Round → Service → Service × Option Text
  look round s =
      let before = serve_all tf engine round.others s in
      let (locks, found) = is_locked tf round.env (lock_path name) before.locks in
      (record before { locks = locks }, found)

  abbrev pub tell_unlocked : Round → Service → Waited
  tell_unlocked round s = (
    log_event r (text "ws_wait_unlocked") name [] [] s,
    if round.delivered then unlocked name ∷ [] else [],
    told,
  )

  abbrev pub after_look : (Service → Waited) → Round → Service × Option Text → Waited
  after_look again round (s, none) = tell_unlocked round s
  after_look again round (s, some owner) =
      if not round.delivered
      then (log_event r (text "ws_wait_disconnect") name [] [] s, [], disconnected)
      else tell (locked name owner) (
          if round.cancelled
          then (log_event r (text "ws_wait_context_done") name [] [] s, [], done)
          else again s)

  -- The loop, over the rounds that there are.
  unfoldable pub wait_loop : List Round → Service → Waited
  wait_loop [] s = (s, [], running)
  wait_loop (round ∷ rounds) s = after_look (wait_loop rounds) round (look round s)

-- `handleLockWaitWS`: an answer before the connection is made, or the connection's messages.
pub data Opened : Type 0 where
  answered : Answer → Opened
  failed_upgrade : Opened
  connected : Waited → Opened

module _ (tf : TimeText) (engine : Engine) (r : Request) (upgraded : Bool)
    (rounds : List Round) where
  unfoldable pub handle_lock_wait : Service → Opened
  handle_lock_wait s =
      let name = get_param (text "module") r in
      if not (r.method == get)
      then answered (refuse 405)
      else if name == []
      then answered (refuse 400)
      else if not (authorize_module s.cfg r name)
      then answered (refuse 401)
      else if not upgraded
      then failed_upgrade
      else connected
          (wait_loop tf engine r name rounds (log_event r (text "ws_wait_start") name [] [] s))

-- `waitForUnlockWS` over the messages that arrive before the connection ends: whether it returns no
-- error.
unfoldable pub wait_for_unlock : List Message → Bool
wait_for_unlock [] = false
wait_for_unlock (unlocked name ∷ messages) = true
wait_for_unlock (locked name owner ∷ messages) = wait_for_unlock messages
