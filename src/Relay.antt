-- ===== src/Relay.antt =====
-- EVSE-SyncCharge/Relay.h and Relay.cpp: the contactor driver. `request_open` and `request_close` are
-- the methods `open` and `close`, which set the desired state; `loop` switches the output pin.
-- A level `true` is HIGH, contactor closed. Logging is left out.
pub mod Timing
use evse_sync_charge.Base.{ℕ, ◌==◌, Bool, true, false, not, ◌||◌, leb, sub32, if◌then◌else◌}

pub record Relay : Type 0 where
  pub current : Bool
  pub desired : Bool
  pub last_switch_time : ℕ
  -- The level last written to PIN_RELAY_OUT.
  pub pin : Bool

abbrev pub switch_delay : ℕ
switch_delay = 3000

-- `==` on the levels.
abbrev pub same_level : Bool → Bool → Bool
same_level true b = b
same_level false b = not b

-- The constructor. It does not touch the pin, whose level is that of the reset.
unfoldable pub new : Relay
new = record { current = false; desired = false; last_switch_time = 0; pin = false }

unfoldable pub setup : Bool → Relay → Relay
setup level r = record r { current = level; desired = level; pin = level }

-- `checked` and `switched` are the readings of millis() in the test and after the switch.
unfoldable pub loop : ℕ → ℕ → Relay → Relay
loop checked switched r =
    if not (same_level r.desired r.current)
    then (if not r.desired
          || r.last_switch_time == 0
          || leb switch_delay (sub32 checked r.last_switch_time)
        then record r { current = r.desired; pin = r.desired; last_switch_time = switched }
        else r)
    else r

unfoldable pub request_open : Relay → Relay
request_open r = record r { desired = false }

unfoldable pub request_close : Relay → Relay
request_close r = record r { desired = true }

unfoldable pub is_closed : Relay → Bool
is_closed r = r.current

unfoldable pub is_open : Relay → Bool
is_open r = not r.current

unfoldable pub is_pending : Relay → Bool
is_pending r = not (same_level r.desired r.current)
