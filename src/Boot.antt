-- ===== src/Boot.antt =====
-- EVSE-SyncCharge/BootCount.h and BootCount.cpp: the boot counter that survives crashes, in one
-- 32-bit register of RTC memory: the magic number in the high half, the count in the low half.
-- Logging is left out.
pub mod Crashes
use evse_sync_charge.Base.{ℕ, ◌+◌, ◌*◌, ◌/◌, ◌%◌, ◌==◌, Bool, ◌&&◌, ltb, if◌then◌else◌}

abbrev pub boot_magic : ℕ
boot_magic = 0xBEEF

abbrev pub boot_limit : ℕ
boot_limit = 5

abbrev pub stability_ms : ℕ
stability_ms = 300000

-- (uint16_t)((r >> 16) & 0xFFFF) and (uint16_t)(r & 0xFFFF).
abbrev pub high_half : ℕ → ℕ
high_half register = register / 65536 % 65536

abbrev pub low_half : ℕ → ℕ
low_half register = register % 65536

-- ((uint32_t)BOOT_MAGIC << 16) | count, for a count of 16 bits: the bits do not overlap.
abbrev pub with_magic : ℕ → ℕ
with_magic count = boot_magic * 65536 + count

-- The register after the boot. `count++` on a uint16_t wraps.
unfoldable pub begin : ℕ → ℕ
begin register =
    if high_half register == boot_magic
    then with_magic ((low_half register + 1) % 65536)
    else with_magic 1

unfoldable pub loop : ℕ → ℕ → ℕ
loop now register =
    if ltb 0 (low_half register) && ltb stability_ms now then with_magic 0 else register

unfoldable pub is_boot_count_high : ℕ → Bool
is_boot_count_high register = ltb boot_limit (low_half register)
