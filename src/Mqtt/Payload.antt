-- ===== src/Mqtt/Payload.antt =====
-- The topics and payloads of the discovery's messages, as `publishHADiscovery` writes them out.
use Prim.Native.String.{String, ◌++◌}
use evse_sync_charge.Base.{List, [], ◌∷◌}
use evse_sync_charge.Mqtt.Topics.{topic_text}
use evse_sync_charge.Mqtt.Discovery.{
  Field, text_field, number_field, state_topic, command_topic, unique_id, described_device, device,
  Entity,
}

-- A text in quotes.
unfoldable pub quoted : String → String
quoted s = "\"" ++ (s ++ "\"")

unfoldable pub keyed : String → String → String
unfolding quoted
keyed key value = quoted key ++ (":" ++ value)

-- The name by which an entity is known: the device's, an underscore and the entity's own.
unfoldable pub id_of : String → Entity → String
id_of name e = name ++ ("_" ++ e.object)

-- `name` is the device's name.
unfoldable pub field_text : String → Entity → Field → String
unfolding keyed quoted topic_text id_of
field_text name e (text_field key value) = keyed key (quoted value)
field_text name e (number_field key value) = keyed key value
field_text name e (state_topic suffix) = keyed "state_topic" (quoted (topic_text name suffix))
field_text name e (command_topic suffix) = keyed "command_topic" (quoted (topic_text name suffix))
field_text name e unique_id = keyed "unique_id" (quoted (id_of name e))
field_text name e device =
    keyed "device" ("{" ++ (keyed "identifiers" ("[" ++ (quoted name ++ "]")) ++ "}"))
field_text name e described_device = keyed "device" (
    "{"
    ++ (keyed "identifiers" ("[" ++ (quoted name ++ "]"))
        ++ ",\"manufacturer\":\"NVL\",\"model\":\"EVSE v1\",\"name\":\"EVSE Charger\"}"))

-- The fields with commas between them.
unfoldable pub fields_text : String → Entity → List Field → String
unfolding field_text
fields_text name e [] = ""
fields_text name e (f ∷ []) = field_text name e f
fields_text name e (f ∷ g ∷ fs) = field_text name e f ++ ("," ++ fields_text name e (g ∷ fs))

-- payloadBuf and topicBuf, before they are cut to their sizes.
unfoldable pub payload_text : String → Entity → String
unfolding fields_text
payload_text name e = "{" ++ (fields_text name e e.fields ++ "}")

unfoldable pub config_topic : String → Entity → String
unfolding id_of
config_topic name e = "homeassistant/" ++ (e.component ++ ("/" ++ (id_of name e ++ "/config")))
