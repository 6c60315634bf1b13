-- ===== src/Tests/Network.antt =====
-- The clients of the network.
use Prim.Native.String.{String}
use evse_sync_charge.Base.{
  ℕ, ◌+◌, ◌-◌, ◌*◌, ◌%◌, ◌≡◌, ◌==◌, refl, ℤ, pos, true, false, [], ◌∷◌, none, some, ltb, arith,
  sub32, if◌then◌else◌,
}
use evse_sync_charge.Float.Milli.{Milli, milli_float}
use evse_sync_charge.Types.{charging}
use evse_sync_charge.Charge.Run.{run}
use evse_sync_charge.Ocpp
use evse_sync_charge.Ocpp.{Ocpp}
use evse_sync_charge.Ocpp.Handler
use evse_sync_charge.Ocpp.Handler.{
  Message, HandlerReadings, Event, text_frame, is_type, take_result,
}
use evse_sync_charge.Ocpp.Server
use evse_sync_charge.Ocpp.Server.{
  counters, counters_lem, reply, on_message-sent, ws_event-run, take_result-loop,
}
use evse_sync_charge.Mqtt
use evse_sync_charge.Mqtt.{Mqtt, Connection, sync}
use evse_sync_charge.Mqtt.Command.{CallbackReadings, command, current_test, set_failsafe_timeout}
use evse_sync_charge.Mqtt.Command
use evse_sync_charge.Mqtt.Report
use evse_sync_charge.Mqtt.Failsafe
use evse_sync_charge.Mqtt.Failsafe.{IsFailsafe, callback-IsFailsafe, callback-run, test_refused}
use evse_sync_charge.Mqtt.Values.{IsReported, IsComparable}
use evse_sync_charge.Mqtt.Topics.{topic_text, topic_of, suffix_of, suffix_of-other}
use evse_sync_charge.Mqtt.Settled.{report_once, loop-reconnects}
use evse_sync_charge.Tests.Console.{same}
use evse_sync_charge.Tests.Samples.{amps, start_readings, session}

-- Stand-ins for the texts' conversions.
abbrev pub as_text : ℕ → String
as_text n = if n == 1 then "1" else "2"

abbrev pub as_amps : String → Milli
as_amps s = amps 16000

abbrev pub as_int : String → ℤ
as_int s = pos 5

counters_lem_test : counters 3 4294967294 ≡ (4294967294 - 1 + 3) % 4294967295 + 1
counters_lem_test = counters_lem 3 4294967294 (omega arith) (omega arith)

abbrev stop_message : Message Milli
stop_message = record {
  msg_type = pos 2;
  id = "77";
  action = "RemoteStopTransaction";
  limit = none;
  interval = none;
}

abbrev handler_readings : HandlerReadings
handler_readings = record { applied = 9000; alive = 9001; start = start_readings }

abbrev pub ocpp : Ocpp Milli
ocpp = record {
  connector = record {
    status = Ocpp.available;
    current_limit = amps 0;
    measured_current = amps 0;
    measured_voltage = amps 230000;
    measured_power = amps 0;
    measured_energy = amps 0;
  };
  enabled = true;
  server_host = "host";
  server_port = 80;
  server_url = "/";
  use_tls = false;
  auth_key = "";
  reconnect_interval = 5000;
  last_heartbeat = 1000;
  heartbeat_interval = 60000;
  connected = true;
  message_counter = 1;
  boot_notification_msg_id = "1";
  sent = [];
}

on_message-sent_test :
    ((Handler.on_message handler_readings (some stop_message) (ocpp, session)).0).sent
    ≡ (if is_type 2 stop_message.msg_type then reply stop_message ∷ ocpp.sent else ocpp.sent)
on_message-sent_test = on_message-sent handler_readings stop_message ocpp session

ws_event-run_test :
    (Handler.ws_event as_text handler_readings (text_frame (some stop_message)) (ocpp, session)).1
    ≡ run (Server.commands handler_readings (text_frame (some stop_message))) session
ws_event-run_test =
    ws_event-run as_text handler_readings (text_frame (some stop_message)) ocpp session

abbrev boot_result : Message Milli
boot_result = record {
  msg_type = pos 3;
  id = "1";
  action = "";
  limit = none;
  interval = some (pos 300);
}

take_result-loop_test :
    (Handler.loop as_text 200000 200001 (take_result boot_result ocpp)).last_heartbeat
    ≡ (if ltb (300 * 1000) (sub32 200000 1000) then 200001 else 1000)
take_result-loop_test =
    take_result-loop as_text boot_result ocpp 300 200000 200001 refl refl (omega arith)
      (omega arith) refl

abbrev pub mqtt : Mqtt Milli
mqtt = record {
  has_host = true;
  connected = false;
  last_attempt = 0;
  fs_enabled = true;
  fs_timeout = 600;
  last_state = some charging;
  last_vehicle_state = some session.vehicle_state;
  last_current_l1 = amps 0;
  last_current_l2 = amps 0;
  last_current_l3 = amps 0;
  last_current_limit = amps 32000;
  last_pwm_duty = amps 53333;
  last_rcm_tripped = false;
  last_rcm_enabled = true;
  published = [];
  subscribed = [];
  config_failsafe = (true, 600);
  config_rcm = true;
}

abbrev pub callback_readings : CallbackReadings
callback_readings = record { applied = 9000; alive = 9001; start = start_readings }

-- A client that has published the failsafe's setting.
abbrev reporting : Mqtt Milli
reporting = record mqtt { published = Mqtt.failsafe true ∷ Mqtt.failsafe_timeout 600 ∷ [] }

reporting-IsFailsafe : IsFailsafe reporting
reporting-IsFailsafe = record {
  switch_reported = refl;
  timeout_reported = refl;
  synced = refl;
  longest = omega arith;
  shortest = omega arith;
}

callback-IsFailsafe_example : IsFailsafe (
    (Command.mqtt_callback same as_amps as_int callback_readings set_failsafe_timeout "5"
      (reporting, session)).0)
callback-IsFailsafe_example =
    callback-IsFailsafe same as_amps as_int callback_readings set_failsafe_timeout "5" reporting
      session reporting-IsFailsafe

callback-run_test :
    (Command.mqtt_callback same as_amps as_int callback_readings command "stop" (mqtt, session)).1
    ≡ run (Failsafe.commands same as_amps as_int callback_readings command "stop") session
callback-run_test = callback-run same as_amps as_int callback_readings command "stop" mqtt session

test_refused_test :
    (Command.mqtt_callback same as_amps as_int callback_readings current_test "50"
      (mqtt, session)).1
    ≡ session
test_refused_test =
    test_refused same as_amps as_int callback_readings "50" mqtt session refl refl refl

session-IsComparable : IsComparable session
session-IsComparable = record {
  limit_same = refl;
  l1_same = refl;
  l2_same = refl;
  l3_same = refl;
  duty_same = refl;
}

report_once_test : Report.report session (Report.report session mqtt) ≡ Report.report session mqtt
report_once_test = report_once session mqtt session-IsComparable

mqtt-IsReported : IsReported session mqtt
mqtt-IsReported = record {
  state_reported = refl;
  vehicle_reported = refl;
  limit_reported = refl;
  l1_reported = refl;
  l2_reported = refl;
  l3_reported = refl;
  duty_reported = refl;
  tripped_reported = refl;
  enabled_reported = refl;
}

abbrev pub connection : Connection
connection = record { wifi = true; now = 7000; connects = true; attempted = 7001 }

loop-reconnects_test :
    (Report.loop connection session mqtt).published ≡ (sync session mqtt).published
loop-reconnects_test =
    loop-reconnects connection session mqtt refl refl refl refl (omega arith) mqtt-IsReported

-- The state's topic, as a message, of a device.
state_topic_test : topic_of "EVSE-0A1B2C" (topic_text "EVSE-0A1B2C" "/state") ≡ Command.other
unfolding suffix_of
state_topic_test = suffix_of-other {F = Milli} "EVSE-0A1B2C" Mqtt.state_online "/state" refl
