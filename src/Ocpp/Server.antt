-- ===== src/Ocpp/Server.antt =====
-- What the server can do with the client: its messages, its answers and its heartbeat.
use Prim.Native.String.{String}
use text.Mathlib.Text.{◌==◌ as str_eq}
use text.Mathlib.TextEquality.{eq_iff}
use evse_sync_charge.Base.{
  ℕ, zero, suc, ◌+◌, ◌-◌, ◌*◌, ◌%◌, ◌≤◌, ◌<◌, ◌≡◌, refl, pos, true, ◌||◌, none, some, List, [], ◌∷◌,
  ltb, sub32, arith, if◌then◌else◌,
}
use evse_sync_charge.Float.{Float}
use evse_sync_charge.Charge.{Evse}
use evse_sync_charge.Charge.Run.{Command, limit, alive, start, stop, exec, run}
use evse_sync_charge.Ocpp.{Ocpp, Sent, accepted, refused}
use evse_sync_charge.Ocpp.Handler.{
  Message, HandlerReadings, Event, disconnected, connected, text_frame, other, is_type,
  next_counter, loop, take_result, handle_set_charging_profile, handle_remote_start_transaction,
  handle_remote_stop_transaction, on_message, ws_event,
}

-- A number of calls in a row.
unfoldable pub counters : ℕ → ℕ → ℕ
counters zero n = n
counters (suc k) n = next_counter (counters k n)

-- From a counter that is not 0, k further calls count through 1 to 2^32 - 1 in order and start again
-- at 1: the message id is never that of 0, and repeats after 2^32 - 1 calls only.
pub counters_lem : (k n : ℕ) → 1 ≤ n → n < 4294967296 → counters k n ≡ (n - 1 + k) % 4294967295 + 1
unfolding counters next_counter
counters_lem zero n h l = omega arith
counters_lem (suc k) n h l = rw (counters_lem k n h l) (ground arith)

-- The answer to a call of the server.
abbrev pub reply : {F : Type 0} → Message F → Sent
reply m =
    if str_eq m.action "SetChargingProfile"
      || str_eq m.action "RemoteStartTransaction"
      || str_eq m.action "RemoteStopTransaction"
    then accepted m.id
    else refused m.id "NotImplemented"

module _ {F : Type 0} ⦃fl : Float F⦄ where
  -- Every call of the server is answered by exactly one message with the call's id: accepted, whether
  -- or not the controller did what was asked, or NotImplemented if the action is none of the three.
  -- Every other message is not answered.
  pub on_message-sent :
      (t : HandlerReadings) (m : Message F) (o : Ocpp F) (s : Evse F)
      → ((on_message t (some m) (o, s)).0).sent
        ≡ (if is_type 2 m.msg_type then reply m ∷ o.sent else o.sent)
  unfolding on_message handle_set_charging_profile handle_remote_start_transaction
      handle_remote_stop_transaction take_result
  on_message-sent t m o s = ground arith

  -- The commands that a call of the server gives the controller.
  unfoldable pub call_commands : HandlerReadings → Message F → List (Command F)
  call_commands t m =
      if str_eq m.action "SetChargingProfile"
      then elim m.limit [ none ↦ [] | some a ↦ limit t.applied a ∷ alive t.alive ∷ [] ]
      else if str_eq m.action "RemoteStartTransaction"
      then start t.start ∷ alive t.alive ∷ []
      else if str_eq m.action "RemoteStopTransaction"
      then stop ∷ []
      else []

  unfoldable pub commands : HandlerReadings → Event F → List (Command F)
  unfolding call_commands
  commands t (text_frame (some m)) = if is_type 2 m.msg_type then call_commands t m else []
  commands t _ = []

  -- What an event of the socket does to the controller is what a sequence of commands does, and this
  -- is the empty one, a limit or a start with a throttle-alive signal, or a stop.
  pub ws_event-run :
      (text_of : ℕ → String) (t : HandlerReadings) (e : Event F) (o : Ocpp F) (s : Evse F)
      → (ws_event text_of t e (o, s)).1 ≡ run (commands t e) s
  unfolding ws_event on_message handle_set_charging_profile handle_remote_start_transaction
      handle_remote_stop_transaction commands call_commands run exec
  ws_event-run text_of t disconnected o s = refl
  ws_event-run text_of t connected o s = refl
  ws_event-run text_of t (text_frame none) o s = refl
  ws_event-run text_of t (text_frame (some m)) o s = ground arith
  ws_event-run text_of t other o s = refl

-- The server's answer to the boot notification sets the interval of the heartbeats: if it carries the
-- notification's id and an interval of n seconds, with n from 1 to 4294967, a connected client sends
-- a heartbeat at a pass of the loop from then on exactly if more than n seconds are gone since the
-- last one.
pub take_result-loop :
    {F : Type 0} (text_of : ℕ → String) (m : Message F) (o : Ocpp F) (n now stamped : ℕ)
    → m.id ≡ o.boot_notification_msg_id
    → m.interval ≡ some (pos n)
    → 1 ≤ n
    → n ≤ 4294967
    → o.connected ≡ true
    → (loop text_of now stamped (take_result m o)).last_heartbeat
      ≡ (if ltb (n * 1000) (sub32 now o.last_heartbeat) then stamped else o.last_heartbeat)
unfolding take_result loop
take_result-loop text_of m o n now stamped i v h l c =
    ground (arith, eq_iff m.id o.boot_notification_msg_id)
