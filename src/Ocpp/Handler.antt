-- ===== src/Ocpp/Handler.antt =====
-- The messages: `sendCall`, `wsEvent`, `onMessage`, the handlers and `loop`.
use Prim.Native.String.{String}
use text.Mathlib.Text.{◌==◌ as str_eq}
use evse_sync_charge.Base.{
  ℕ, ℤ, pos, negsuc, ◌==◌, Bool, true, false, ◌&&◌, Option, none, some, ◌∷◌, ltb, above, add32,
  sub32, mul32, to_u32, if◌then◌else◌,
}
use evse_sync_charge.Float.{Float}
use evse_sync_charge.Types.{is_charging}
use evse_sync_charge.Charge.{Evse, is_connected, signal_throttle_alive}
use evse_sync_charge.Charge.Limit.{set_current_limit}
use evse_sync_charge.Charge.Control.{StartReadings, start_charging, stop_charging}
use evse_sync_charge.Ocpp.{
  Ocpp, ConnectorStatus, available, charging, suspended, Sent, call, accepted, refused,
}

-- A document as the code reads it: its type, doc[0]; its message id, doc[1]; its action, doc[2]; the
-- limit of the first schedule period, if the payload has such a path; and the payload's interval, if
-- it is an int.
pub record Message (F : Type 0) : Type 0 where
  pub msg_type : ℤ
  pub id : String
  pub action : String
  pub limit : Option F
  pub interval : Option ℤ

-- The clock in setCurrentLimit and in signalThrottleAlive, and what startCharging reads.
pub record HandlerReadings : Type 0 where
  pub applied : ℕ
  pub alive : ℕ
  pub start : StartReadings

-- z == k, for an int z.
abbrev pub is_type : ℕ → ℤ → Bool
is_type k (pos n) = n == k
is_type k (negsuc n) = false

unfoldable pub get_status : {F : Type 0} → Evse F → ConnectorStatus
get_status s =
    if is_charging s.state
    then charging
    else if is_connected s.vehicle_state
    then suspended
    else available

-- ++messageCounter on a uint32_t, which skips 0.
unfoldable pub next_counter : ℕ → ℕ
next_counter n = let m = add32 n 1 in if m == 0 then add32 m 1 else m

module _ (text_of : ℕ → String) {F : Type 0} where
  unfoldable pub send_call : String → Ocpp F → Ocpp F
  unfolding next_counter
  send_call action o =
      let counter = next_counter o.message_counter in
      let id = text_of counter in
      record o {
        message_counter = counter;
        boot_notification_msg_id =
            if str_eq action "BootNotification" then id else o.boot_notification_msg_id;
        sent = call id action ∷ o.sent;
      }

  unfoldable pub send_boot_notification : Ocpp F → Ocpp F
  unfolding send_call
  send_boot_notification o = send_call "BootNotification" o

  unfoldable pub send_heartbeat : Ocpp F → Ocpp F
  unfolding send_call
  send_heartbeat o = send_call "Heartbeat" o

  -- The clock is read for the test and again after the heartbeat. What the socket's loop delivers is
  -- a call of ws_event of its own.
  unfoldable pub loop : ℕ → ℕ → Ocpp F → Ocpp F
  unfolding send_heartbeat
  loop now stamped o =
      if o.connected && ltb o.heartbeat_interval (sub32 now o.last_heartbeat)
      then record (send_heartbeat o) { last_heartbeat = stamped }
      else o

unfoldable pub answer : {F : Type 0} → Sent → Ocpp F → Ocpp F
answer m o = record o { sent = m ∷ o.sent }

-- The server's result of a call.
unfoldable pub take_result : {F : Type 0} → Message F → Ocpp F → Ocpp F
take_result m o =
    if str_eq m.id o.boot_notification_msg_id
    then record o {
      heartbeat_interval = elim m.interval [
        | none ↦ o.heartbeat_interval
        | some n ↦ if above n 0 then mul32 (to_u32 n) 1000 else o.heartbeat_interval
      ];
      boot_notification_msg_id = "";
    }
    else o

module _ {F : Type 0} ⦃fl : Float F⦄ where
  unfoldable pub handle_set_charging_profile :
      HandlerReadings → Message F → Ocpp F × Evse F → Ocpp F × Evse F
  unfolding answer set_current_limit signal_throttle_alive
  handle_set_charging_profile t m (o, s) = elim m.limit [
    | none ↦ (answer (accepted m.id) o, s)
    | some limit ↦ (
      answer (accepted m.id)
          (record o { connector = record o.connector { current_limit = limit } }),
      signal_throttle_alive t.alive (set_current_limit t.applied limit s),
    )
  ]

  unfoldable pub handle_remote_start_transaction :
      HandlerReadings → Message F → Ocpp F × Evse F → Ocpp F × Evse F
  unfolding answer start_charging signal_throttle_alive
  handle_remote_start_transaction t m (o, s) =
      (answer (accepted m.id) o, signal_throttle_alive t.alive (start_charging t.start s))

  unfoldable pub handle_remote_stop_transaction : Message F → Ocpp F × Evse F → Ocpp F × Evse F
  unfolding answer stop_charging
  handle_remote_stop_transaction m (o, s) = (answer (accepted m.id) o, stop_charging s)

  -- A message that is no JSON document changes nothing.
  unfoldable pub on_message :
      HandlerReadings → Option (Message F) → Ocpp F × Evse F → Ocpp F × Evse F
  unfolding answer
  on_message t none c = c
  on_message t (some m) (o, s) =
      if is_type 2 m.msg_type
      then (if str_eq m.action "SetChargingProfile"
          then handle_set_charging_profile t m (o, s)
          else if str_eq m.action "RemoteStartTransaction"
          then handle_remote_start_transaction t m (o, s)
          else if str_eq m.action "RemoteStopTransaction"
          then handle_remote_stop_transaction m (o, s)
          else (answer (refused m.id "NotImplemented") o, s))
      else if is_type 3 m.msg_type
      then (take_result m o, s)
      else (o, s)

-- The socket's events.
pub data Event (F : Type 0) : Type 0 where
  disconnected : Event F
  connected : Event F
  text_frame : Option (Message F) → Event F
  other : Event F

module _ (text_of : ℕ → String) {F : Type 0} ⦃fl : Float F⦄ where
  unfoldable pub ws_event : HandlerReadings → Event F → Ocpp F × Evse F → Ocpp F × Evse F
  unfolding send_boot_notification on_message
  ws_event t disconnected (o, s) = (record o { connected = false }, s)
  ws_event t connected (o, s) = (send_boot_notification text_of (record o { connected = true }), s)
  ws_event t (text_frame m) c = on_message t m c
  ws_event t other c = c
