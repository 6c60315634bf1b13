-- ===== src/Relay/Timing.antt =====
-- The switching times of the contactor, over sequences of requests and loop passes.
use evse_sync_charge.Base.{
  ℕ, ◌+◌, ◌≤◌, ◌<◌, ◌≡◌, ◌↔◌, add32, Bool, true, false, List, [], ◌∷◌, arith, u32_mod,
  if◌then◌else◌,
}
use evse_sync_charge.Relay
use evse_sync_charge.Relay.{Relay, switch_delay, same_level}

-- What the rest of the firmware does to the relay: requests, and passes of `loop` at two readings.
pub data Call : Type 0 where
  ask_open ask_close : Call
  pass : ℕ → ℕ → Call

unfoldable pub apply : Call → Relay → Relay
unfolding Relay.request_open Relay.request_close Relay.loop
apply ask_open r = Relay.request_open r
apply ask_close r = Relay.request_close r
apply (pass checked switched) r = Relay.loop checked switched r

-- A switch of the output pin: its time and the new level.
abbrev pub Switch : Type 0
Switch = ℕ × Bool

note : Call → Relay → List Switch → List Switch
unfolding apply
note ask_open r rest = rest
note ask_close r rest = rest
note (pass checked switched) r rest =
    let r' = apply (pass checked switched) r in
    if same_level r'.pin r.pin then rest else (switched, r'.pin) ∷ rest

-- The switches that a sequence of calls makes.
unfoldable pub switches : Relay → List Call → List Switch
unfolding note apply
switches r [] = []
switches r (c ∷ cs) = note c r (switches (apply c r) cs)

-- The clock readings of the calls do not fall and do not wrap.
abbrev pub IsTimely : ℕ → List Call → Type 0
IsTimely now [] = Unit
IsTimely now (ask_open ∷ cs) = IsTimely now cs
IsTimely now (ask_close ∷ cs) = IsTimely now cs
IsTimely now (pass checked switched ∷ cs) =
    (now ≤ checked) × (checked ≤ switched) × (switched < u32_mod) × IsTimely switched cs

-- Every switch that closes the contactor comes at least the switching delay after the one before.
abbrev pub IsSpaced : ℕ → List Switch → Type 0
IsSpaced last [] = Unit
IsSpaced last ((t, level) ∷ rest) = (level ≡ true → last + switch_delay ≤ t) × IsSpaced t rest

abbrev pub IsSpacedAfterFirst : List Switch → Type 0
IsSpacedAfterFirst [] = Unit
IsSpacedAfterFirst ((t, level) ∷ rest) = IsSpaced t rest

switches-IsSpaced :
    (cs : List Call) (r : Relay) (now : ℕ)
    → 0 < r.last_switch_time
    → r.last_switch_time ≤ now
    → r.pin ≡ r.current
    → IsTimely now cs
    → IsSpaced r.last_switch_time (switches r cs)
unfolding switches
switches-IsSpaced [] r now p l e t = tt
switches-IsSpaced (ask_open ∷ cs) r now p l e t =
    switches-IsSpaced cs (apply ask_open r) now p l e t
switches-IsSpaced (ask_close ∷ cs) r now p l e t =
    switches-IsSpaced cs (apply ask_close r) now p l e t
switches-IsSpaced (pass checked switched ∷ cs) r now p l e t =
    ground (arith, switches-IsSpaced cs (apply (pass checked switched) r) switched)

-- Over any sequence of requests and loop passes whose clock readings start above 0, do not fall and
-- do not wrap, every switch of the output pin to closed but the sequence's first switch comes at
-- least 3000 ms after the switch before it.
pub switches-spaced :
    (cs : List Call) (r : Relay) (now : ℕ)
    → 0 < now
    → r.last_switch_time ≤ now
    → r.pin ≡ r.current
    → IsTimely now cs
    → IsSpacedAfterFirst (switches r cs)
unfolding switches
switches-spaced [] r now p l e t = tt
switches-spaced (ask_open ∷ cs) r now p l e t = switches-spaced cs (apply ask_open r) now p l e t
switches-spaced (ask_close ∷ cs) r now p l e t = switches-spaced cs (apply ask_close r) now p l e t
switches-spaced (pass checked switched ∷ cs) r now p l e t = ground (
  arith,
  switches-IsSpaced cs (apply (pass checked switched) r) switched,
  switches-spaced cs (apply (pass checked switched) r) switched,
)

-- A pass with no close request pending leaves the pin open, whatever the clock reads.
pub loop-opens :
    (checked switched : ℕ) (r : Relay)
    → r.desired ≡ false
    → r.pin ≡ r.current
    → (Relay.loop checked switched r).pin ≡ false
unfolding Relay.loop
loop-opens checked switched r h k = ground arith

-- A pass with a close request pending closes an open contactor if and only if it has never switched
-- or its last switch is at least 3000 ms back by the wrapping clock, also across one wrap.
pub loop-closes :
    (since switched : ℕ) (r : Relay)
    → r.desired ≡ true
    → r.current ≡ false
    → r.pin ≡ false
    → 0 < r.last_switch_time
    → r.last_switch_time < u32_mod
    → since < u32_mod
    → ((Relay.loop (add32 r.last_switch_time since) switched r).pin ≡ true) ↔ (switch_delay ≤ since)
unfolding Relay.loop
loop-closes since switched r h k o p q l = ground arith
