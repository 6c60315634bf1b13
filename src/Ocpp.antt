-- ===== src/Ocpp.antt =====
-- EVSE-SyncCharge/OCPPhandler.h and OCPPhandler.cpp: the OCPP client that steers the controller.
-- The web socket and ArduinoJson are libraries: an incoming message is given as the document's parts
-- that the code reads, and the messages that are sent are kept as a list. `String(uint32_t)` is the
-- section parameter `text_of`. Logging is left out.
pub mod Handler
pub mod Server
use Prim.Native.String.{String}
use evse_sync_charge.Base.{
  ℕ, ℤ, pos, negsuc, ◌-◌, ◌%◌, Bool, true, false, not, Option, none, some, List, [], if◌then◌else◌,
  u32_mod, mul32, to_u32,
}
use evse_sync_charge.Float.{Float}

pub data ConnectorStatus : Type 0 where
  available charging suspended unavailable : ConnectorStatus

pub record ConnectorData (F : Type 0) : Type 0 where
  pub status : ConnectorStatus
  pub current_limit : F
  pub measured_current : F
  pub measured_voltage : F
  pub measured_power : F
  pub measured_energy : F

-- What the server is sent: a call with its message id and action, an empty result, or an error.
pub data Sent : Type 0 where
  call : String → String → Sent
  accepted : String → Sent
  refused : String → String → Sent

pub record Ocpp (F : Type 0) : Type 0 where
  pub connector : ConnectorData F
  pub enabled : Bool
  pub server_host : String
  pub server_port : ℕ
  pub server_url : String
  pub use_tls : Bool
  pub auth_key : String
  pub reconnect_interval : ℕ
  pub last_heartbeat : ℕ
  pub heartbeat_interval : ℕ
  pub connected : Bool
  pub message_counter : ℕ
  pub boot_notification_msg_id : String
  -- The messages sent, the last one first.
  pub sent : List Sent

module _ {F : Type 0} ⦃fl : Float F⦄ where
  unfoldable pub new : Ocpp F
  new =
      let zero_f = fl.lit 0 0 in
      record {
        connector = record {
          status = available;
          current_limit = zero_f;
          measured_current = zero_f;
          measured_voltage = fl.lit 230 0;
          measured_power = zero_f;
          measured_energy = zero_f;
        };
        enabled = false;
        server_host = "";
        server_port = 80;
        server_url = "/";
        use_tls = false;
        auth_key = "";
        reconnect_interval = 5000;
        last_heartbeat = 0;
        heartbeat_interval = 60000;
        connected = false;
        message_counter = 0;
        boot_notification_msg_id = "";
        sent = [];
      }

unfoldable pub set_config :
    {F : Type 0} → Bool → String → ℕ → String → Bool → String → ℤ → ℤ → Ocpp F → Ocpp F
set_config enabled host port url use_tls auth_key heartbeat reconnect o = record o {
  enabled = enabled;
  server_host = host;
  server_port = port;
  server_url = url;
  use_tls = use_tls;
  auth_key = auth_key;
  heartbeat_interval = mul32 (to_u32 heartbeat) 1000;
  reconnect_interval = to_u32 reconnect;
}

unfoldable pub set_connector_data : {F : Type 0} → F → F → F → F → Ocpp F → Ocpp F
set_connector_data current voltage power energy o = record o {
  connector = record o.connector {
    measured_current = current;
    measured_voltage = voltage;
    measured_power = power;
    measured_energy = energy;
  };
}

-- What the web socket is told to connect to.
pub record Socket : Type 0 where
  pub tls : Bool
  pub host : String
  pub port : ℕ
  pub url : String
  pub interval : ℕ

unfoldable pub begin : {F : Type 0} → Ocpp F → Option Socket
begin o =
    if not o.enabled
    then none
    else some (record {
      tls = o.use_tls;
      host = o.server_host;
      port = o.server_port;
      url = o.server_url;
      interval = o.reconnect_interval;
    })
