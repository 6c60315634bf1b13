-- ===== src/Mqtt/Handled.antt =====
-- The topics that the discovery gives to Home Assistant, and the ones that the client uses itself when
-- it connects for the first time.
use Prim.Native.String.{String}
use evse_sync_charge.Base.{◌≡◌, Bool, true, false}
use evse_sync_charge.Float.{Float}
use evse_sync_charge.Mqtt.{Mqtt}
use evse_sync_charge.Mqtt.Command.{Topic, other}
use evse_sync_charge.Mqtt.Topics.{topic_text, topic_of}
use evse_sync_charge.Mqtt.Discovery.{
  Field, text_field, number_field, state_topic, command_topic, unique_id, described_device, device,
}
use evse_sync_charge.Mqtt.Connect.{has_suffix, announces}

abbrev is_handled : Topic → Bool
is_handled other = false
is_handled _ = true

module _ {F : Type 0} where
  -- A topic for commands is one that the client has subscribed to and whose messages the callback
  -- handles, and a topic for states one that the client has published on.
  abbrev pub IsUsed : String → Mqtt F → Field → Type 0
  IsUsed name m (text_field key value) = Unit
  IsUsed name m (number_field key value) = Unit
  IsUsed name m (state_topic suffix) = announces suffix m.published ≡ true
  IsUsed name m (command_topic suffix) =
      (has_suffix suffix m.subscribed ≡ true)
      × (is_handled (topic_of name (topic_text name suffix)) ≡ true)
  IsUsed name m unique_id = Unit
  IsUsed name m described_device = Unit
  IsUsed name m device = Unit
