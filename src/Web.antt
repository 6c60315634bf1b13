-- ===== src/Web.antt =====
-- EVSE-SyncCharge/WebController.h and WebController.cpp: the web pages. The HTTP and DNS servers, WiFi
-- and the firmware updater are libraries: a request is what the code asks of it, and the outcomes and
-- clock readings are arguments. What is sent to the browser but for the forms of the configuration,
-- logging and the calls of WiFi are left
-- out. The texts' conversions `toFloat` and `toInt` are section parameters.
pub mod Save
pub mod Forms
pub mod Absent
pub mod Sent
pub mod Erased
pub mod Routes
pub mod Access
pub mod Commands
pub mod Stored
pub mod Settings
pub mod Status
pub mod Refresh
pub mod Reset
use Prim.Native.String.{String}
use text.Mathlib.Text.{◌==◌ as str_eq}
use evse_sync_charge.Base.{
  ℕ, Bool, true, false, ◌&&◌, Option, none, some, ltb, add32, if◌then◌else◌,
}
use evse_sync_charge.Charge.{Evse}
use evse_sync_charge.Mqtt.{Mqtt}
use evse_sync_charge.Ocpp.{Ocpp}
use evse_sync_charge.Rfid.{Rfid}
use evse_sync_charge.Telnet.{Telnet}
use evse_sync_charge.Led.{Led}
use evse_sync_charge.Config.{AppConfig}

-- The parts that the pages use, the stores of the configuration and of the LED strip, and the members
-- of the class. The mode of the access point is set by begin().
pub record Site (F P : Type 0) : Type 0 where
  pub evse : Evse F
  pub mqtt : Mqtt F
  pub ocpp : Ocpp F
  pub rfid : Rfid
  pub telnet : Telnet
  pub led : Led
  pub config : AppConfig F
  pub stored : P
  pub stored_led : P
  pub ap_mode : Bool
  pub reboot_pending : Bool
  pub reboot_timestamp : ℕ
  pub ota_updating : Bool

-- A request: its arguments, and whether its credentials are the given user and password.
pub record Request : Type 0 where
  pub argument : String → Option String
  pub authenticate : String → String → Bool

-- hasArg and arg: a missing argument is the empty text.
unfoldable pub has_arg : Request → String → Bool
has_arg q k = elim (q.argument k) [ none ↦ false | some v ↦ true ]

unfoldable pub arg : Request → String → String
arg q k = elim (q.argument k) [ none ↦ "" | some v ↦ v ]

-- webServer.arg(...) == "1"
abbrev pub is_one : Request → String → Bool
is_one q k = str_eq (arg q k) "1"

module _ {F P : Type 0} where
  unfoldable pub check_auth : Request → Site F P → Bool
  check_auth q w = q.authenticate w.config.www_user w.config.www_pass

  -- A change of the configuration: the MQTT client's callbacks set fields of the same object.
  abbrev pub with_config : AppConfig F → Site F P → Site F P
  with_config c w = record w {
    config = c;
    mqtt = record w.mqtt {
      config_failsafe = (c.mqtt_failsafe_enabled, c.mqtt_failsafe_timeout);
      config_rcm = c.rcm_enabled;
    };
  }

  -- With the clock's reading.
  unfoldable pub request_reboot : ℕ → Site F P → Site F P
  request_reboot now w = record w { reboot_pending = true; reboot_timestamp = add32 now 1000 }

  -- Whether a pass of the loop restarts the chip.
  unfoldable pub restarts : ℕ → Site F P → Bool
  restarts now w = w.reboot_pending && ltb w.reboot_timestamp now
