-- ===== src/Rfid/Scan.antt =====
-- `EvseRfid::loop`, the scan of a card.
use Prim.Native.String.{String}
use evse_sync_charge.Base.{
  ℕ, Bool, true, false, not, ◌&&◌, ◌||◌, Option, none, some, ltb, sub32, if◌then◌else◌,
}
use evse_sync_charge.Rfid.{Rfid}
use evse_sync_charge.Rfid.Tags.{is_uid_allowed}

-- What a pass reads: the clock at the buzzer and at the debounce; whether a new card is present; the
-- identifier of the card that is read, as uidToHexString gives it, or nothing if reading fails; and
-- the clock at the scan and at the beep.
pub record ScanReadings : Type 0 where
  pub buzzer_now : ℕ
  pub now : ℕ
  pub present : Bool
  pub card : Option String
  pub scanned : ℕ
  pub beeped : ℕ

-- The call of the callback, if one is made: the identifier and whether it is authorized.
abbrev pub Report : Type 0
Report = Option (String × Bool)

unfoldable pub beep : ℕ → ℕ → Rfid → Rfid
beep now duration r =
    if r.buzzer_enabled
    then record r {
      buzzer_pin = true;
      buzzer_start_time = now;
      buzzer_duration = duration;
      beeping = true;
    }
    else r

unfoldable pub tend_buzzer : ℕ → Rfid → Rfid
tend_buzzer now r =
    if r.beeping && ltb r.buzzer_duration (sub32 now r.buzzer_start_time)
    then record r { buzzer_pin = false; beeping = false }
    else r

module _ (upper : String → String) where
  -- From "Process UID" on.
  unfoldable pub process_card : ScanReadings → String → Rfid → Rfid × Report
  unfolding beep is_uid_allowed
  process_card s uid r =
      let scanned = record r { last_scan_time = s.scanned } in
      if r.learning
      then (beep s.beeped 600 (record scanned { last_scanned_uid = uid; learning = false }), none)
      else if not r.enabled
      then (scanned, none)
      else (let authorized = is_uid_allowed upper uid r in
          (beep s.beeped (if authorized then 200 else 1000) scanned, some (uid, authorized)))

  -- The callback is taken to be registered, as the firmware's setup does.
  unfoldable pub loop : ScanReadings → Rfid → Rfid × Report
  unfolding tend_buzzer process_card
  loop s r =
      let tended = tend_buzzer s.buzzer_now r in
      if not tended.learning && ltb (sub32 s.now tended.last_scan_time) 1500
      then (tended, none)
      else if not tended.has_reader || not s.present
      then (tended, none)
      else elim s.card [ none ↦ (tended, none) | some uid ↦ process_card s uid tended ]
