-- ===== src/Tests/Discovery.antt =====
-- The messages of the Home Assistant discovery.
use Prim.Native.String.{String}
use evse_sync_charge.Base.{true, ◌≡◌, refl, [], ◌∷◌, All, arith}
use evse_sync_charge.Mqtt.Discovery
use evse_sync_charge.Mqtt.Discovery.{Entity, entities}
use evse_sync_charge.Mqtt.Payload.{payload_text, config_topic}
use evse_sync_charge.Mqtt.Entities.{IsWhole, entities-IsWhole, accepted, entities-accepted}
use evse_sync_charge.Float.Milli.{Milli, milli_float}
use evse_sync_charge.Mqtt
use evse_sync_charge.Mqtt.{Mqtt}
use evse_sync_charge.Mqtt.Report

abbrev name : String
name = "EVSE-0A1B2C"

charging_payload_test :
    payload_text name Discovery.charging
    ≡ "{\"name\":\"EVSE Charging\",\"state_topic\":\"evse/EVSE-0A1B2C/state\",\"command_topic\":\"evse/EVSE-0A1B2C/command\",\"unique_id\":\"EVSE-0A1B2C_charging\",\"device\":{\"identifiers\":[\"EVSE-0A1B2C\"],\"manufacturer\":\"NVL\",\"model\":\"EVSE v1\",\"name\":\"EVSE Charger\"}}"
unfolding payload_text
charging_payload_test = refl

pwm_test_payload_test :
    payload_text name Discovery.pwm_test
    ≡ "{\"name\":\"EVSE PWM Test\",\"command_topic\":\"evse/EVSE-0A1B2C/test/current\",\"state_topic\":\"evse/EVSE-0A1B2C/pwmDuty\",\"unit_of_measurement\":\"%\",\"min\":0,\"max\":100,\"step\":1,\"unique_id\":\"EVSE-0A1B2C_pwm_test\",\"device\":{\"identifiers\":[\"EVSE-0A1B2C\"]}}"
unfolding payload_text
pwm_test_payload_test = refl

pwm_test_topic_test :
    config_topic name Discovery.pwm_test ≡ "homeassistant/number/EVSE-0A1B2C_pwm_test/config"
unfolding config_topic
pwm_test_topic_test = refl

entities-IsWhole_test : All (IsWhole name) entities
entities-IsWhole_test = entities-IsWhole name (omega arith)

entities-accepted_example :
    accepted 256 name entities ≡ Discovery.current ∷ Discovery.pwm ∷ Discovery.vehicle ∷ []
entities-accepted_example = entities-accepted name refl

-- A client that has noted no value.
abbrev unreported : Mqtt Milli
unreported = record Mqtt.new { has_host = true }
