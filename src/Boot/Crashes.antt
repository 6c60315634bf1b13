-- ===== src/Boot/Crashes.antt =====
-- The boot counter over sequences of boots.
use evse_sync_charge.Base.{ℕ, zero, suc, ◌+◌, ◌≤◌, ◌<◌, ◌≡◌, refl, ◌∙◌, ap, arith, ltb}
use evse_sync_charge.Boot.{begin, loop, is_boot_count_high, low_half, with_magic, stability_ms}

-- A number of boots in a row, none of which lives long enough for the counter to be reset.
unfoldable pub boots : ℕ → ℕ → ℕ
boots zero register = register
boots (suc n) register = begin (boots n register)

begin-with_magic : (n : ℕ) → n < 65535 → begin (with_magic n) ≡ with_magic (n + 1)
unfolding begin
begin-with_magic n h = ground arith

boots-with_magic : (n : ℕ) → n ≤ 65535 → boots n (with_magic 0) ≡ with_magic n
unfolding boots
boots-with_magic zero l = refl
boots-with_magic (suc n) l =
    rw (boots-with_magic n (omega arith))
      (begin-with_magic n (omega arith) ∙ ap with_magic (omega arith))

-- Once a boot has lived longer than five minutes, a pass of the loop leaves a register from which the
-- next n boots, up to 65535, count from 1 again: the boot loop is reported if and only if n is more
-- than 5.
pub boots-loop :
    (n now register : ℕ)
    → stability_ms < now
    → 0 < low_half register
    → n ≤ 65535
    → is_boot_count_high (boots n (loop now register)) ≡ ltb 5 n
unfolding loop is_boot_count_high
boots-loop n now register h p l =
    let reset : loop now register ≡ with_magic 0 = ground arith in
    rw (reset, boots-with_magic n l) (ground arith)
