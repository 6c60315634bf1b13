-- ===== src/Mqtt/Discovery.antt =====
-- `publishHADiscovery`: the configuration messages by which Home Assistant finds the device's
-- entities. The format strings are given as their fields, in the order of the source.
use Prim.Native.String.{String}
use evse_sync_charge.Base.{List, [], ◌∷◌}

pub data Field : Type 0 where
  -- The key's text is a text, or a number written out.
  text_field number_field : String → String → Field
  -- A topic, given by the suffix that it has after the device's name.
  state_topic command_topic : String → Field
  unique_id : Field
  -- The device's identifier, with or without what describes it.
  described_device device : Field

pub record Entity : Type 0 where
  pub component : String
  pub object : String
  pub fields : List Field

abbrev pub charging : Entity
charging = record {
  component = "switch";
  object = "charging";
  fields =
      text_field "name" "EVSE Charging"
      ∷ state_topic "/state"
      ∷ command_topic "/command"
      ∷ unique_id
      ∷ described_device
      ∷ [];
}

abbrev pub current_limit : Entity
current_limit = record {
  component = "number";
  object = "current_limit";
  fields =
      text_field "name" "EVSE Current Limit"
      ∷ command_topic "/setCurrent"
      ∷ state_topic "/currentLimit"
      ∷ text_field "unit_of_measurement" "A"
      ∷ number_field "min" "6.0"
      ∷ number_field "max" "32.0"
      ∷ number_field "step" "1.0"
      ∷ unique_id
      ∷ device
      ∷ [];
}

abbrev pub current : Entity
current = record {
  component = "sensor";
  object = "current";
  fields =
      text_field "name" "EVSE Current"
      ∷ state_topic "/current"
      ∷ text_field "unit_of_measurement" "A"
      ∷ unique_id
      ∷ device
      ∷ [];
}

abbrev pub pwm : Entity
pwm = record {
  component = "sensor";
  object = "pwm";
  fields =
      text_field "name" "EVSE PWM Duty"
      ∷ state_topic "/pwmDuty"
      ∷ text_field "unit_of_measurement" "%"
      ∷ unique_id
      ∷ device
      ∷ [];
}

abbrev pub vehicle : Entity
vehicle = record {
  component = "sensor";
  object = "vehicle";
  fields = text_field "name" "EVSE Vehicle" ∷ state_topic "/vehicleState" ∷ unique_id ∷ device ∷ [];
}

abbrev pub pwm_test_switch : Entity
pwm_test_switch = record {
  component = "switch";
  object = "pwm_test_switch";
  fields =
      text_field "name" "EVSE PWM Test Switch"
      ∷ command_topic "/test/current"
      ∷ state_topic "/pwmDuty"
      ∷ text_field "payload_on" "enable"
      ∷ text_field "payload_off" "disable"
      ∷ unique_id
      ∷ device
      ∷ [];
}

abbrev pub pwm_test : Entity
pwm_test = record {
  component = "number";
  object = "pwm_test";
  fields =
      text_field "name" "EVSE PWM Test"
      ∷ command_topic "/test/current"
      ∷ state_topic "/pwmDuty"
      ∷ text_field "unit_of_measurement" "%"
      ∷ number_field "min" "0"
      ∷ number_field "max" "100"
      ∷ number_field "step" "1"
      ∷ unique_id
      ∷ device
      ∷ [];
}

abbrev pub failsafe : Entity
failsafe = record {
  component = "switch";
  object = "failsafe";
  fields =
      text_field "name" "EVSE MQTT Failsafe"
      ∷ command_topic "/setFailsafe"
      ∷ state_topic "/failsafe"
      ∷ text_field "payload_on" "1"
      ∷ text_field "payload_off" "0"
      ∷ unique_id
      ∷ device
      ∷ [];
}

abbrev pub failsafe_timeout : Entity
failsafe_timeout = record {
  component = "number";
  object = "failsafe_t";
  fields =
      text_field "name" "EVSE Failsafe Timeout"
      ∷ command_topic "/setFailsafeTimeout"
      ∷ state_topic "/failsafeTimeout"
      ∷ text_field "unit_of_measurement" "s"
      ∷ number_field "min" "10"
      ∷ number_field "max" "3600"
      ∷ unique_id
      ∷ device
      ∷ [];
}

abbrev pub rcm_fault : Entity
rcm_fault = record {
  component = "binary_sensor";
  object = "rcm_fault";
  fields =
      text_field "name" "EVSE RCM Fault"
      ∷ state_topic "/rcm/fault"
      ∷ text_field "payload_on" "1"
      ∷ text_field "payload_off" "0"
      ∷ text_field "device_class" "safety"
      ∷ unique_id
      ∷ device
      ∷ [];
}

abbrev pub rcm_enable : Entity
rcm_enable = record {
  component = "switch";
  object = "rcm_enable";
  fields =
      text_field "name" "EVSE RCM Protection"
      ∷ command_topic "/config/rcm"
      ∷ state_topic "/rcm/enabled"
      ∷ text_field "payload_on" "1"
      ∷ text_field "payload_off" "0"
      ∷ unique_id
      ∷ device
      ∷ [];
}

-- In the order in which they are published.
abbrev pub entities : List Entity
entities =
    charging ∷ current_limit ∷ current ∷ pwm ∷ vehicle ∷ pwm_test_switch ∷ pwm_test ∷ failsafe
    ∷ failsafe_timeout ∷ rcm_fault ∷ rcm_enable ∷ []
