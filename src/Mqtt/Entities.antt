-- ===== src/Mqtt/Entities.antt =====
-- The messages of the discovery and the buffers that they go through.
use Prim.Native.String.{String, count}
use evse_sync_charge.Base.{ℕ, ◌+◌, ◌≤◌, ◌≡◌, ap, List, [], ◌∷◌, All, leb, arith, if◌then◌else◌}
use evse_sync_charge.Mqtt.Discovery
use evse_sync_charge.Mqtt.Discovery.{
  Field, text_field, number_field, state_topic, command_topic, unique_id, described_device, device,
  Entity, entities,
}
use evse_sync_charge.Mqtt.Payload.{payload_text, config_topic}
use evse_sync_charge.Mqtt.Sizes.{fields_size, count-payload_text, count-config_topic}

-- The size of a message's topic and payload.
abbrev pub message_size : String → Entity → ℕ
message_size name e = count (config_topic name e) + count (payload_text name e)

-- Both texts fit the buffers that they are written to.
abbrev pub IsWhole : String → Entity → Type 0
IsWhole name e = (count (config_topic name e) ≤ 127) × (count (payload_text name e) ≤ 511)

-- For a device's name of at most 31 characters, as many as fit the sketch's buffer for it, no topic
-- and no payload of the discovery is cut to the 127 and 511 characters of their buffers.
pub entities-IsWhole : (name : String) → count name ≤ 31 → All (IsWhole name) entities
entities-IsWhole name h = search (
  whole Discovery.charging (omega arith) (omega arith),
  whole Discovery.current_limit (omega arith) (omega arith),
  whole Discovery.current (omega arith) (omega arith),
  whole Discovery.pwm (omega arith) (omega arith),
  whole Discovery.vehicle (omega arith) (omega arith),
  whole Discovery.pwm_test_switch (omega arith) (omega arith),
  whole Discovery.pwm_test (omega arith) (omega arith),
  whole Discovery.failsafe (omega arith) (omega arith),
  whole Discovery.failsafe_timeout (omega arith) (omega arith),
  whole Discovery.rcm_fault (omega arith) (omega arith),
  whole Discovery.rcm_enable (omega arith) (omega arith),
)
  where
    whole :
        (e : Entity)
        → count name + count e.component + count e.object + 23 ≤ 127
        → fields_size (count name) e e.fields + 2 ≤ 511
        → IsWhole name e
    whole e t p =
        (omega (arith, count-config_topic name e), omega (arith, count-payload_text name e))

-- The messages that a client takes whose buffer has this size. Its header takes 7 bytes.
abbrev pub accepted : ℕ → String → List Entity → List Entity
accepted buffer name [] = []
accepted buffer name (e ∷ es) =
    let rest = accepted buffer name es in
    if leb (message_size name e + 7) buffer then e ∷ rest else rest

message_size_lem :
    (name : String) (e : Entity)
    → count name ≡ 11
    → message_size name e ≡ 36 + count e.component + count e.object + fields_size 11 e e.fields
message_size_lem name e h =
    let payload = ap (λ n. fields_size n e e.fields) h in
    omega (arith, count-config_topic name e, count-payload_text name e, payload)

-- With a device's name of 11 characters, as the sketch makes it, and a client's buffer of 256 bytes,
-- which a message's topic, payload and 7 bytes of header share, the client takes the messages of
-- three sensors, of the current, the duty cycle and the vehicle, and none of the other eight.
pub entities-accepted :
    (name : String)
    → count name ≡ 11
    → accepted 256 name entities ≡ Discovery.current ∷ Discovery.pwm ∷ Discovery.vehicle ∷ []
entities-accepted name h = simp (
  message_size_lem name Discovery.charging h,
  message_size_lem name Discovery.current_limit h,
  message_size_lem name Discovery.current h,
  message_size_lem name Discovery.pwm h,
  message_size_lem name Discovery.vehicle h,
  message_size_lem name Discovery.pwm_test_switch h,
  message_size_lem name Discovery.pwm_test h,
  message_size_lem name Discovery.failsafe h,
  message_size_lem name Discovery.failsafe_timeout h,
  message_size_lem name Discovery.rcm_fault h,
  message_size_lem name Discovery.rcm_enable h,
)
