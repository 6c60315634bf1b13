-- ===== src/Mqtt/Sizes.antt =====
-- The number of characters in the texts of the discovery.
use Prim.Native.String.{String, ◌++◌, count}
use text.Mathlib.TextLemmas.{length-append}
use evse_sync_charge.Base.{ℕ, ◌+◌, ◌≡◌, refl, List, [], ◌∷◌, arith}
use evse_sync_charge.Mqtt.Topics.{topic_text}
use evse_sync_charge.Mqtt.Discovery.{
  Field, text_field, number_field, state_topic, command_topic, unique_id, described_device, device,
  Entity,
}
use evse_sync_charge.Mqtt.Payload.{
  quoted, keyed, id_of, field_text, fields_text, payload_text, config_topic,
}

count-quoted : (s : String) → count (quoted s) ≡ count s + 2
unfolding quoted
count-quoted s = omega (arith, length-append "\"" (s ++ "\""), length-append s "\"")

count-keyed : (key value : String) → count (keyed key value) ≡ count key + count value + 3
unfolding keyed
count-keyed key value =
    omega
      (arith, length-append (quoted key) (":" ++ value), length-append ":" value, count-quoted key)

count-topic_text :
    (name suffix : String) → count (topic_text name suffix) ≡ count name + count suffix + 5
unfolding topic_text
count-topic_text name suffix =
    omega (arith, length-append "evse/" (name ++ suffix), length-append name suffix)

count-id_of : (name : String) (e : Entity) → count (id_of name e) ≡ count name + count e.object + 1
unfolding id_of
count-id_of name e = omega (arith, length-append name ("_" ++ e.object), length-append "_" e.object)

-- What follows the device's identifiers where the device is described.
abbrev description : String
description = ",\"manufacturer\":\"NVL\",\"model\":\"EVSE v1\",\"name\":\"EVSE Charger\"}"

-- The size of a field's text for a name of `n` characters.
abbrev pub field_size : ℕ → Entity → Field → ℕ
field_size n e (text_field key value) = count key + count value + 5
field_size n e (number_field key value) = count key + count value + 3
field_size n e (state_topic suffix) = n + count suffix + 21
field_size n e (command_topic suffix) = n + count suffix + 23
field_size n e unique_id = n + count e.object + 15
field_size n e device = n + 29
field_size n e described_device = n + 28 + count description

abbrev identifiers : String → String
identifiers name = keyed "identifiers" ("[" ++ (quoted name ++ "]"))

count-identifiers : (name : String) → count (identifiers name) ≡ count name + 18
count-identifiers name = omega (
  arith,
  count-keyed "identifiers" ("[" ++ (quoted name ++ "]")),
  length-append "[" (quoted name ++ "]"),
  length-append (quoted name) "]",
  count-quoted name,
)

count-field_text :
    (name : String) (e : Entity) (f : Field)
    → count (field_text name e f) ≡ field_size (count name) e f
unfolding field_text
count-field_text name e (text_field key value) =
    omega (arith, count-keyed key (quoted value), count-quoted value)
count-field_text name e (number_field key value) = count-keyed key value
count-field_text name e (state_topic suffix) =
    let t = topic_text name suffix in
    omega
      (arith, count-keyed "state_topic" (quoted t), count-quoted t, count-topic_text name suffix)
count-field_text name e (command_topic suffix) =
    let t = topic_text name suffix in
    omega
      (arith, count-keyed "command_topic" (quoted t), count-quoted t, count-topic_text name suffix)
count-field_text name e unique_id =
    let t = id_of name e in
    omega (arith, count-keyed "unique_id" (quoted t), count-quoted t, count-id_of name e)
count-field_text name e device =
    let t = identifiers name in
    omega (
      arith,
      count-keyed "device" ("{" ++ (t ++ "}")),
      length-append "{" (t ++ "}"),
      length-append t "}",
      count-identifiers name,
    )
count-field_text name e described_device =
    let t = identifiers name in
    omega (
      arith,
      count-keyed "device" ("{" ++ (t ++ description)),
      length-append "{" (t ++ description),
      length-append t description,
      count-identifiers name,
    )

-- The sizes of the fields, with one for each comma.
abbrev pub fields_size : ℕ → Entity → List Field → ℕ
fields_size n e [] = 0
fields_size n e (f ∷ []) = field_size n e f
fields_size n e (f ∷ g ∷ fs) = field_size n e f + 1 + fields_size n e (g ∷ fs)

count-fields_text :
    (name : String) (e : Entity) (fs : List Field)
    → count (fields_text name e fs) ≡ fields_size (count name) e fs
unfolding fields_text
count-fields_text name e [] = refl
count-fields_text name e (f ∷ []) = count-field_text name e f
count-fields_text name e (f ∷ g ∷ fs) =
    let rest = fields_text name e (g ∷ fs) in
    omega (
      arith,
      length-append (field_text name e f) ("," ++ rest),
      length-append "," rest,
      count-field_text name e f,
      count-fields_text name e (g ∷ fs),
    )

pub count-payload_text :
    (name : String) (e : Entity)
    → count (payload_text name e) ≡ fields_size (count name) e e.fields + 2
unfolding payload_text
count-payload_text name e =
    let t = fields_text name e e.fields in
    omega
      (arith, length-append "{" (t ++ "}"), length-append t "}", count-fields_text name e e.fields)

pub count-config_topic :
    (name : String) (e : Entity)
    → count (config_topic name e) ≡ count name + count e.component + count e.object + 23
unfolding config_topic
count-config_topic name e =
    let t = id_of name e in
    omega (
      arith,
      length-append "homeassistant/" (e.component ++ ("/" ++ (t ++ "/config"))),
      length-append e.component ("/" ++ (t ++ "/config")),
      length-append "/" (t ++ "/config"),
      length-append t "/config",
      count-id_of name e,
    )
