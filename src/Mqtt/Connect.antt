-- ===== src/Mqtt/Connect.antt =====
-- What the client publishes and subscribes to in a pass that connects it, where the values of the
-- controller are new to it.
use Prim.Native.String.{String}
use text.Mathlib.Text.{◌==◌ as str_eq}
use evse_sync_charge.Base.{
  ◌≡◌, refl, ap, ◌∙◌, Bool, true, false, ◌&&◌, ◌||◌, Option, none, some, List, [], ◌∷◌, inl, inr,
  Bool-cases, ltb, ◌++◌, sub32, arith,
}
use evse_sync_charge.Float.{Float}
use evse_sync_charge.Telnet.{same_flag}
use evse_sync_charge.Charge.{Evse}
use evse_sync_charge.Mqtt
use evse_sync_charge.Mqtt.{Mqtt, Connection, Publication, publish, sync, reconnect}
use evse_sync_charge.Mqtt.Report.{
  report_state, report_vehicle, report_limit, report_current, report_duty, report_tripped,
  report_enabled, report, loop,
}
use evse_sync_charge.Mqtt.Topics.{suffix_of}

abbrev pub has_suffix : String → List String → Bool
has_suffix k [] = false
has_suffix k (s ∷ ss) = str_eq k s || has_suffix k ss

abbrev is_suffix : String → Option String → Bool
is_suffix k none = false
is_suffix k (some s) = str_eq k s

module _ {F : Type 0} where
  -- One of the publications is on the topic with this last part.
  abbrev pub announces : String → List (Publication F) → Bool
  announces k [] = false
  announces k (p ∷ ps) = is_suffix k (suffix_of p) || announces k ps

  left :
      (k : String) (xs ys : List (Publication F))
      → announces k xs ≡ true
      → announces k (xs ++ ys) ≡ true
  left k [] ys h = ground arith
  left k (x ∷ xs) ys h = ground (arith, left k xs ys)

  pub right :
      (k : String) (xs ys : List (Publication F))
      → announces k ys ≡ true
      → announces k (xs ++ ys) ≡ true
  right k [] ys h = h
  right k (x ∷ xs) ys h = ground (arith, right k xs ys h)

pub joins :
    (k : String) (xs ys : List String) → has_suffix k ys ≡ true → has_suffix k (xs ++ ys) ≡ true
joins k [] ys h = h
joins k (x ∷ xs) ys h = ground (arith, joins k xs ys h)

module _ {F : Type 0} ⦃fl : Float F⦄ where
  -- Every value differs from the last one that the client has noted.
  pub record IsUnreported (s : Evse F) (m : Mqtt F) : Type 0 where
    pub no_state : m.last_state ≡ none
    pub no_vehicle : m.last_vehicle_state ≡ none
    pub new_limit : fl.eq s.current_limit m.last_current_limit ≡ false
    pub new_current :
        (fl.eq s.actual_current.l1 m.last_current_l1
          && fl.eq s.actual_current.l2 m.last_current_l2
          && fl.eq s.actual_current.l3 m.last_current_l3)
        ≡ false
    pub new_duty : fl.eq s.pilot.current_duty_percent m.last_pwm_duty ≡ false

  -- The client after each part of such a report.
  abbrev with_state : Evse F → Mqtt F → Mqtt F
  with_state s m = record (publish (Mqtt.state s.state) m) { last_state = some s.state }

  abbrev with_vehicle : Evse F → Mqtt F → Mqtt F
  with_vehicle s m = record (publish (Mqtt.vehicle_state s.vehicle_state) m) {
    last_vehicle_state = some s.vehicle_state;
  }

  abbrev with_limit : Evse F → Mqtt F → Mqtt F
  with_limit s m = record (publish (Mqtt.current_limit s.current_limit) m) {
    last_current_limit = s.current_limit;
  }

  abbrev with_current : Evse F → Mqtt F → Mqtt F
  with_current s m =
      let c = s.actual_current in
      record (publish (Mqtt.current c.l1 c.l2 c.l3) m) {
        last_current_l1 = c.l1;
        last_current_l2 = c.l2;
        last_current_l3 = c.l3;
      }

  abbrev with_duty : Evse F → Mqtt F → Mqtt F
  with_duty s m =
      let duty = s.pilot.current_duty_percent in
      record (publish (Mqtt.pwm_duty duty) m) { last_pwm_duty = duty }

  state_first : (s : Evse F) (m : Mqtt F) → m.last_state ≡ none → report_state s m ≡ with_state s m
  unfolding report_state
  state_first s m h = rw h refl

  vehicle_first :
      (s : Evse F) (m : Mqtt F)
      → m.last_vehicle_state ≡ none
      → report_vehicle s m ≡ with_vehicle s m
  unfolding report_vehicle
  vehicle_first s m h = rw h refl

  limit_first :
      (s : Evse F) (m : Mqtt F)
      → fl.eq s.current_limit m.last_current_limit ≡ false
      → report_limit s m ≡ with_limit s m
  unfolding report_limit
  limit_first s m h = rw h refl

  current_first :
      (s : Evse F) (m : Mqtt F)
      → (fl.eq s.actual_current.l1 m.last_current_l1
          && fl.eq s.actual_current.l2 m.last_current_l2
          && fl.eq s.actual_current.l3 m.last_current_l3)
        ≡ false
      → report_current s m ≡ with_current s m
  unfolding report_current
  current_first s m h = rw h refl

  duty_first :
      (s : Evse F) (m : Mqtt F)
      → fl.eq s.pilot.current_duty_percent m.last_pwm_duty ≡ false
      → report_duty s m ≡ with_duty s m
  unfolding report_duty
  duty_first s m h = rw h refl

  -- The report of new values, but for the monitor's two.
  abbrev pub measured : Evse F → Mqtt F → Mqtt F
  measured s m = with_duty s (with_current s (with_limit s (with_vehicle s (with_state s m))))

  report_first :
      (s : Evse F) (m : Mqtt F)
      → IsUnreported s m
      → report s m ≡ report_enabled s (report_tripped s (measured s m))
  unfolding report publish
  report_first s m u =
      let a = with_state s m in
      let b = with_vehicle s a in
      let c = with_limit s b in
      let d = with_current s c in
      ap (λ x. report_enabled s (report_tripped s x))
        (ap (λ x. report_duty s (report_current s (report_limit s (report_vehicle s x))))
            (state_first s m u.no_state)
          ∙ ap (λ x. report_duty s (report_current s (report_limit s x)))
              (vehicle_first s a u.no_vehicle)
          ∙ ap (λ x. report_duty s (report_current s x)) (limit_first s b u.new_limit)
          ∙ ap (report_duty s) (current_first s c u.new_current)
          ∙ duty_first s d u.new_duty)

  tripped-keeps :
      (k : String) (s : Evse F) (m : Mqtt F)
      → announces k m.published ≡ true
      → announces k (report_tripped s m).published ≡ true
  unfolding report_tripped publish
  tripped-keeps k s m h = elim (Bool-cases (same_flag s.rcm_tripped m.last_rcm_tripped)) [
    | inl e ↦ rw e h
    | inr e ↦ rw e (left k m.published (Mqtt.rcm_fault s.rcm_tripped ∷ []) h)
  ]

  enabled-keeps :
      (k : String) (s : Evse F) (m : Mqtt F)
      → announces k m.published ≡ true
      → announces k (report_enabled s m).published ≡ true
  unfolding report_enabled publish
  enabled-keeps k s m h = elim (Bool-cases (same_flag s.rcm_enabled m.last_rcm_enabled)) [
    | inl e ↦ rw e h
    | inr e ↦ rw e (left k m.published (Mqtt.rcm_state s.rcm_enabled ∷ []) h)
  ]

  monitor-subscribed :
      (s : Evse F) (m : Mqtt F) → (report_enabled s (report_tripped s m)).subscribed ≡ m.subscribed
  unfolding report_enabled report_tripped publish
  monitor-subscribed s m = ground arith

  -- A pass that connects.
  abbrev pub attempted : Connection → Evse F → Mqtt F → Mqtt F
  attempted c s m = record (sync s m) { last_attempt = c.attempted }

  pub reconnects :
      (c : Connection) (s : Evse F) (m : Mqtt F)
      → m.connected ≡ false
      → c.connects ≡ true
      → ltb 5000 (sub32 c.now m.last_attempt) ≡ true
      → reconnect c s m ≡ attempted c s m
  unfolding reconnect
  reconnects c s m a b d = rw (a, b, d) refl

  loop_passes :
      (c : Connection) (s : Evse F) (m : Mqtt F)
      → m.has_host ≡ true
      → c.wifi ≡ true
      → loop c s m ≡ report s (reconnect c s m)
  unfolding loop
  loop_passes c s m a b = simp (a, b)

  pub loop_connects :
      (c : Connection) (s : Evse F) (m : Mqtt F)
      → m.has_host ≡ true
      → c.wifi ≡ true
      → reconnect c s m ≡ attempted c s m
      → IsUnreported s (attempted c s m)
      → loop c s m ≡ report_enabled s (report_tripped s (measured s (attempted c s m)))
  loop_connects c s m a b e u =
      loop_passes c s m a b ∙ ap (report s) e ∙ report_first s (attempted c s m) u

  pub connects-announces :
      (k : String) (c : Connection) (s : Evse F) (m : Mqtt F)
      → loop c s m ≡ report_enabled s (report_tripped s (measured s (attempted c s m)))
      → announces k (measured s (attempted c s m)).published ≡ true
      → announces k (loop c s m).published ≡ true
  connects-announces k c s m e h =
      let d = measured s (attempted c s m) in
      ap (λ x. announces k x.published) e
      ∙ enabled-keeps k s (report_tripped s d) (tripped-keeps k s d h)

  -- What a pass that connects hands to subscribe().
  pub connects-subscribes :
      (k : String) (c : Connection) (s : Evse F) (m : Mqtt F)
      → loop c s m ≡ report_enabled s (report_tripped s (measured s (attempted c s m)))
      → has_suffix k (attempted c s m).subscribed ≡ true
      → has_suffix k (loop c s m).subscribed ≡ true
  unfolding publish
  connects-subscribes k c s m e h =
      ap (λ x. has_suffix k x.subscribed) e
      ∙ ap (has_suffix k) (monitor-subscribed s (measured s (attempted c s m)))
      ∙ h

  -- The topics of the values of a report, and those of a connect.
  pub measured-announces :
      (s : Evse F) (m : Mqtt F)
      → let ps = (measured s m).published in
        (announces "/state" ps ≡ true)
        × (announces "/vehicleState" ps ≡ true)
        × (announces "/currentLimit" ps ≡ true)
        × (announces "/current" ps ≡ true)
        × (announces "/pwmDuty" ps ≡ true)
  unfolding publish suffix_of
  measured-announces s m =
      let a = with_state s m in
      let b = with_vehicle s a in
      let c = with_limit s b in
      let d = with_current s c in
      (
        left _ d.published _ (
            left _ c.published _
              (left _ b.published _ (left _ a.published _ (right _ m.published _ refl)))),
        left _ d.published _
            (left _ c.published _ (left _ b.published _ (right _ a.published _ refl))),
        left _ d.published _ (left _ c.published _ (right _ b.published _ refl)),
        left _ d.published _ (right _ c.published _ refl),
        right _ d.published _ refl,
      )

  pub measured-keeps :
      (k : String) (s : Evse F) (m : Mqtt F)
      → announces k m.published ≡ true
      → announces k (measured s m).published ≡ true
  unfolding publish
  measured-keeps k s m h =
      let a = with_state s m in
      let b = with_vehicle s a in
      let c = with_limit s b in
      let d = with_current s c in
      left k d.published _ (
        left k c.published _ (left k b.published _ (left k a.published _ (left k m.published _ h))))
