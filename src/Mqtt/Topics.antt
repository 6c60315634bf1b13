-- ===== src/Mqtt/Topics.antt =====
-- The topics: their texts, which `begin` makes from the device's name, and the comparisons of
-- `mqttCallback`. The discovery's own topics are in Mqtt.Payload.
use Prim.Native.String.{String, ◌++◌}
use text.Mathlib.TextLemmas.{append_cancel_left}
use text.Mathlib.Text.{◌==◌ as str_eq}
use text.Mathlib.TextEquality.{eq_iff}
use evse_sync_charge.Base.{◌≡◌, sym, ap, ◌∙◌, Option, none, some, arith, if◌then◌else◌}
use evse_sync_charge.Mqtt.{
  Publication, state_online, state, vehicle_state, current_limit, current, pwm_duty, test_enabled,
  test_disabled, test_duty, allow_below_6_amp, rcm_state, rcm_fault, failsafe,
  low_limit_resume_delay, failsafe_timeout, discovery,
}
use evse_sync_charge.Mqtt.Command.{
  Topic, command, set_current, set_allow_below_6_amp_charging_topic, current_test, set_failsafe,
  set_failsafe_timeout, rcm_config, other,
}

-- "evse/" + deviceId + suffix
unfoldable pub topic_text : String → String → String
topic_text device suffix = "evse/" ++ (device ++ suffix)

-- The suffix of the topic that a value is published on.
unfoldable pub suffix_of : {F : Type 0} → Publication F → Option String
suffix_of state_online = some "/state"
suffix_of (state s) = some "/state"
suffix_of (vehicle_state v) = some "/vehicleState"
suffix_of (current_limit a) = some "/currentLimit"
suffix_of (current a b c) = some "/current"
suffix_of (pwm_duty d) = some "/pwmDuty"
suffix_of test_enabled = some "/pwmDuty"
suffix_of test_disabled = some "/pwmDuty"
suffix_of (test_duty d a) = some "/pwmDuty"
suffix_of (allow_below_6_amp b) = some "/allowBelow6AmpCharging"
suffix_of (rcm_state b) = some "/rcm/enabled"
suffix_of (rcm_fault b) = some "/rcm/fault"
suffix_of (failsafe b) = some "/failsafe"
suffix_of (low_limit_resume_delay n) = some "/lowLimitResumeDelay"
suffix_of (failsafe_timeout n) = some "/failsafeTimeout"
suffix_of discovery = none

-- The comparisons of the callback, in their order.
unfoldable pub topic_of : String → String → Topic
topic_of device topic =
    if str_eq topic (topic_text device "/command")
    then command
    else if str_eq topic (topic_text device "/setCurrent")
    then set_current
    else if str_eq topic (topic_text device "/setAllowBelow6AmpCharging")
    then set_allow_below_6_amp_charging_topic
    else if str_eq topic (topic_text device "/test/current")
    then current_test
    else if str_eq topic (topic_text device "/setFailsafe")
    then set_failsafe
    else if str_eq topic (topic_text device "/setFailsafeTimeout")
    then set_failsafe_timeout
    else if str_eq topic (topic_text device "/config/rcm")
    then rcm_config
    else other

-- The same comparisons of the suffixes alone.
unfoldable by_suffix : String → Topic
by_suffix suffix =
    if str_eq suffix "/command"
    then command
    else if str_eq suffix "/setCurrent"
    then set_current
    else if str_eq suffix "/setAllowBelow6AmpCharging"
    then set_allow_below_6_amp_charging_topic
    else if str_eq suffix "/test/current"
    then current_test
    else if str_eq suffix "/setFailsafe"
    then set_failsafe
    else if str_eq suffix "/setFailsafeTimeout"
    then set_failsafe_timeout
    else if str_eq suffix "/config/rcm"
    then rcm_config
    else other

-- A common beginning does not matter for the comparison of texts.
eq-append : (x a b : String) → str_eq (x ++ a) (x ++ b) ≡ str_eq a b
eq-append x a b =
    let extended : a ≡ b → x ++ a ≡ x ++ b = λ e. ap (λ t. x ++ t) e in
    ground (arith, eq_iff a b, eq_iff (x ++ a) (x ++ b), append_cancel_left x a b, extended)

topic_of-by_suffix :
    (device suffix : String) → topic_of device (topic_text device suffix) ≡ by_suffix suffix
unfolding topic_of by_suffix topic_text
topic_of-by_suffix device suffix = simp (eq-append "evse/", eq-append device)

value : Option String → String
value none = ""
value (some s) = s

suffix_of-by_suffix :
    {F : Type 0} (p : Publication F) (suffix : String)
    → suffix_of p ≡ some suffix
    → by_suffix suffix ≡ other
unfolding suffix_of by_suffix value
suffix_of-by_suffix state_online suffix h = ap by_suffix (sym (ap value h))
suffix_of-by_suffix (state s) suffix h = ap by_suffix (sym (ap value h))
suffix_of-by_suffix (vehicle_state v) suffix h = ap by_suffix (sym (ap value h))
suffix_of-by_suffix (current_limit a) suffix h = ap by_suffix (sym (ap value h))
suffix_of-by_suffix (current a b c) suffix h = ap by_suffix (sym (ap value h))
suffix_of-by_suffix (pwm_duty d) suffix h = ap by_suffix (sym (ap value h))
suffix_of-by_suffix test_enabled suffix h = ap by_suffix (sym (ap value h))
suffix_of-by_suffix test_disabled suffix h = ap by_suffix (sym (ap value h))
suffix_of-by_suffix (test_duty d a) suffix h = ap by_suffix (sym (ap value h))
suffix_of-by_suffix (allow_below_6_amp b) suffix h = ap by_suffix (sym (ap value h))
suffix_of-by_suffix (rcm_state b) suffix h = ap by_suffix (sym (ap value h))
suffix_of-by_suffix (rcm_fault b) suffix h = ap by_suffix (sym (ap value h))
suffix_of-by_suffix (failsafe b) suffix h = ap by_suffix (sym (ap value h))
suffix_of-by_suffix (low_limit_resume_delay n) suffix h = ap by_suffix (sym (ap value h))
suffix_of-by_suffix (failsafe_timeout n) suffix h = ap by_suffix (sym (ap value h))
suffix_of-by_suffix discovery suffix h = ground arith

-- Whatever the device is called, nothing that the client publishes on its own topics would be taken as
-- a command if it came back as a message.
pub suffix_of-other :
    {F : Type 0} (device : String) (p : Publication F) (suffix : String)
    → suffix_of p ≡ some suffix
    → topic_of device (topic_text device suffix) ≡ other
suffix_of-other device p suffix h =
    topic_of-by_suffix device suffix ∙ suffix_of-by_suffix p suffix h

-- Whatever the device is called, each of the seven command topics reaches its own handler.
pub topic_of_lem :
    (device : String)
    → let reached : String → Topic = λ suffix. topic_of device (topic_text device suffix) in
      (reached "/command" ≡ command)
      × (reached "/setCurrent" ≡ set_current)
      × (reached "/setAllowBelow6AmpCharging" ≡ set_allow_below_6_amp_charging_topic)
      × (reached "/test/current" ≡ current_test)
      × (reached "/setFailsafe" ≡ set_failsafe)
      × (reached "/setFailsafeTimeout" ≡ set_failsafe_timeout)
      × (reached "/config/rcm" ≡ rcm_config)
unfolding by_suffix
topic_of_lem device =
    let reached : (suffix : String)
        → topic_of device (topic_text device suffix) ≡ by_suffix suffix =
      topic_of-by_suffix device in
    (
      reached "/command",
      reached "/setCurrent",
      reached "/setAllowBelow6AmpCharging",
      reached "/test/current",
      reached "/setFailsafe",
      reached "/setFailsafeTimeout",
      reached "/config/rcm",
    )
