-- ===== src/Mqtt.antt =====
-- EVSE-SyncCharge/EvseMqttController.h and EvseMqttController.cpp: the MQTT client that reports the
-- controller and steers it. PubSubClient is a library: whether the client is connected is kept, and
-- what is handed to its publish() is a list, with the topic and the value in place of their texts;
-- what is handed to its subscribe() is a list of the topics' last parts. Logging is left out; the
-- messages of the Home Assistant discovery are one publication, and their texts are in
-- Mqtt.Discovery and Mqtt.Payload.
pub mod Command
pub mod Failsafe
pub mod Report
pub mod Values
pub mod Settled
pub mod Topics
pub mod Discovery
pub mod Payload
pub mod Sizes
pub mod Entities
pub mod Connect
pub mod Handled
use Prim.Native.String.{String}
use text.Mathlib.Text.{◌==◌ as str_eq}
use evse_sync_charge.Base.{
  ℕ, negsuc, ◌==◌, Bool, true, false, not, ◌&&◌, ◌||◌, Option, none, some, List, [], ◌∷◌, ◌++◌, ltb,
  sub32, if◌then◌else◌,
}
use evse_sync_charge.Float.{Float}
use evse_sync_charge.Types.{ChargeState, VehicleState, is_charging, same_vehicle}
use evse_sync_charge.Charge.{Evse}
use evse_sync_charge.Telnet.{same_flag}

pub data Publication (F : Type 0) : Type 0 where
  state_online : Publication F
  state : ChargeState → Publication F
  vehicle_state : VehicleState → Publication F
  current_limit : F → Publication F
  current : F → F → F → Publication F
  pwm_duty : F → Publication F
  test_enabled test_disabled : Publication F
  test_duty : F → F → Publication F
  allow_below_6_amp rcm_state rcm_fault failsafe : Bool → Publication F
  low_limit_resume_delay failsafe_timeout : ℕ → Publication F
  discovery : Publication F

pub record Mqtt (F : Type 0) : Type 0 where
  -- Whether begin() has got a host.
  pub has_host : Bool
  pub connected : Bool
  -- The static variable of loop().
  pub last_attempt : ℕ
  pub fs_enabled : Bool
  pub fs_timeout : ℕ
  -- The last values; STATE_COUNT and VEHICLE_STATE_COUNT, which are no states, are `none`.
  pub last_state : Option ChargeState
  pub last_vehicle_state : Option VehicleState
  pub last_current_l1 : F
  pub last_current_l2 : F
  pub last_current_l3 : F
  pub last_current_limit : F
  pub last_pwm_duty : F
  pub last_rcm_tripped : Bool
  pub last_rcm_enabled : Bool
  -- What was handed to publish(), in order.
  pub published : List (Publication F)
  -- The last parts of the topics that were handed to subscribe(), in order.
  pub subscribed : List String
  -- mqttFailsafeEnabled, mqttFailsafeTimeout and rcmEnabled of the configuration, which the callbacks
  -- that the firmware registers set.
  pub config_failsafe : Bool × ℕ
  pub config_rcm : Bool

-- What a pass sees: WiFi, the clock in the test, whether connect() succeeds, and the clock after it.
pub record Connection : Type 0 where
  pub wifi : Bool
  pub now : ℕ
  pub connects : Bool
  pub attempted : ℕ

abbrev pub same_state : ChargeState → ChargeState → Bool
same_state a b = same_flag (is_charging a) (is_charging b)

module _ {F : Type 0} where
  unfoldable pub publish : Publication F → Mqtt F → Mqtt F
  publish p m = record m { published = m.published ++ (p ∷ []) }

  -- The texts of the topics are in Mqtt.Topics; the user and the password are left out.
  unfoldable pub begin : String → Mqtt F → Mqtt F
  begin host m = record m { has_host = not (str_eq host "") }

  unfoldable pub set_failsafe_config : Bool → ℕ → Mqtt F → Mqtt F
  unfolding publish
  set_failsafe_config enabled timeout m =
      let set = record m { fs_enabled = enabled; fs_timeout = timeout } in
      if set.connected
      then publish (failsafe_timeout timeout) (publish (failsafe enabled) set)
      else set

  -- After a successful connect.
  unfoldable pub sync : Evse F → Mqtt F → Mqtt F
  sync s m = record m {
    connected = true;
    subscribed =
        m.subscribed
        ++ "/command" ∷ "/setCurrent" ∷ "/test/current" ∷ "/setAllowBelow6AmpCharging"
          ∷ "/setFailsafe" ∷ "/setFailsafeTimeout" ∷ "/config/rcm" ∷ [];
    published =
        m.published
        ++ state_online
          ∷ allow_below_6_amp (not s.settings.disable_at_low_limit)
          ∷ low_limit_resume_delay s.settings.low_limit_resume_delay_ms
          ∷ failsafe m.fs_enabled
          ∷ failsafe_timeout m.fs_timeout
          ∷ rcm_state s.rcm_enabled
          ∷ rcm_fault s.rcm_tripped
          ∷ discovery
          ∷ [];
  }

  unfoldable pub reconnect : Connection → Evse F → Mqtt F → Mqtt F
  unfolding sync
  reconnect c s m =
      if not m.connected && ltb 5000 (sub32 c.now m.last_attempt)
      then record (if c.connects then sync s m else m) { last_attempt = c.attempted }
      else m

module _ {F : Type 0} ⦃fl : Float F⦄ where
  unfoldable pub new : Mqtt F
  new =
      let unset = fl.of_int (negsuc 0) in
      record {
        has_host = false;
        connected = false;
        last_attempt = 0;
        fs_enabled = false;
        fs_timeout = 600;
        last_state = none;
        last_vehicle_state = none;
        last_current_l1 = unset;
        last_current_l2 = unset;
        last_current_l3 = unset;
        last_current_limit = unset;
        last_pwm_duty = unset;
        last_rcm_tripped = false;
        last_rcm_enabled = true;
        published = [];
        subscribed = [];
        config_failsafe = (false, 600);
        config_rcm = true;
      }
