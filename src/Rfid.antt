-- ===== src/Rfid.antt =====
-- EVSE-SyncCharge/EvseRfid.h and EvseRfid.cpp: the card reader, its list of tags and its loop.
-- The reader's chip, the preferences and ArduinoJson are outside: whether a card is read, and its
-- bytes, are arguments, and the document that saveTags writes is kept as the list that it holds.
-- `String::toUpperCase` is the section parameter `upper`. Logging is left out.
pub mod Tags
pub mod Scan
pub mod Lists
pub mod Allowed
pub mod Hex
use Prim.Native.String.{String}
use evse_sync_charge.Base.{ℕ, Bool, true, false, List, [], if◌then◌else◌}

pub record RfidTag : Type 0 where
  pub uid : String
  pub name : String
  pub active : Bool

abbrev pub max_rfid_tags : ℕ
max_rfid_tags = 10

pub record Rfid : Type 0 where
  -- Whether _mfrc522 is set.
  pub has_reader : Bool
  pub tags : List RfidTag
  pub last_scan_time : ℕ
  pub enabled : Bool
  pub learning : Bool
  pub buzzer_enabled : Bool
  pub beeping : Bool
  pub buzzer_start_time : ℕ
  pub buzzer_duration : ℕ
  pub last_scanned_uid : String
  -- The preferences: the last list that was written, and the two flags.
  pub stored_tags : List RfidTag
  pub stored_enabled : Bool
  pub stored_buzzer : Bool
  -- The level of the buzzer's pin.
  pub buzzer_pin : Bool

-- `written` is whether the preferences take the document.
unfoldable pub save_tags : Bool → Rfid → Rfid
save_tags written r = if written then record r { stored_tags = r.tags } else r

unfoldable pub load_tags : Rfid → Rfid
load_tags r = record r { tags = r.stored_tags }

unfoldable pub begin : Rfid → Rfid
unfolding load_tags
begin r = load_tags (record r {
  has_reader = true;
  buzzer_pin = false;
  enabled = r.stored_enabled;
  buzzer_enabled = r.stored_buzzer;
})

unfoldable pub set_enabled : Bool → Rfid → Rfid
set_enabled enabled r = record r { enabled = enabled; stored_enabled = enabled }

unfoldable pub set_buzzer_enabled : Bool → Rfid → Rfid
set_buzzer_enabled enabled r = record r { buzzer_enabled = enabled; stored_buzzer = enabled }

unfoldable pub start_learning : Rfid → Rfid
start_learning r = record r { learning = true; last_scanned_uid = "" }

unfoldable pub clear_last_scanned_uid : Rfid → Rfid
clear_last_scanned_uid r = record r { last_scanned_uid = "" }

unfoldable pub clear_allowed_uids : Bool → Rfid → Rfid
unfolding save_tags
clear_allowed_uids written r = save_tags written (record r { tags = [] })
