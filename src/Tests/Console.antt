-- ===== src/Tests/Console.antt =====
-- The boot counter, the console and the card reader.
use Prim.Native.String.{String}
use text.Mathlib.Text.{◌==◌ as str_eq}
use evse_sync_charge.Base.{
  ℕ, ◌*◌, ◌==◌, ◌≤◌, ◌≡◌, refl, sym, ◌∙◌, Bool, true, false, not, ◌&&◌, List, [], ◌∷◌, ◌++◌, some,
  ltb, length, arith, sub32, if◌then◌else◌,
}
use evse_sync_charge.Boot
use evse_sync_charge.Boot.{is_boot_count_high}
use evse_sync_charge.Boot.Crashes.{boots, boots-loop}
use evse_sync_charge.Telnet.{Telnet, auth_user, auth_logged_in, forwards}
use evse_sync_charge.Telnet.Input.{
  Credentials, Visit, handle_client_input, take_byte, take_char, process_command, loop,
}
use evse_sync_charge.Telnet.Login.{
  TypesUser, TypesPassword, IsBounded, input-logged_in, loop-IsBounded,
}
use evse_sync_charge.Telnet.Packets.{handle_packets, joined, packets-joined}
use evse_sync_charge.Logger.{Texts, log_info, log_warn, prefix, time_text, log, also, sent}
use evse_sync_charge.Logger.Console.{
  Desk, Event, Line, pass, logged, GivesUser, GivesPassword, run, step, write, lines, attached,
  run-authenticated, run-mirrored,
}
use evse_sync_charge.Rfid.Hex.{uid_to_hex_string, uid_to_hex_string_lem}
use evse_sync_charge.Rfid.{Rfid, max_rfid_tags}
use evse_sync_charge.Rfid.Tags.{
  add_tag, toggle_tag_status, delete_tag, is_uid_allowed, has_tag, allows,
}
use evse_sync_charge.Rfid.Scan
use evse_sync_charge.Rfid.Scan.{ScanReadings, process_card}
use evse_sync_charge.Rfid.Lists.{IsTagList}
use evse_sync_charge.Rfid.Allowed.{
  edits-IsTagList, add_tag-allows, toggle-allows, delete-allows, loop-authorized,
}

boots-loop_test : is_boot_count_high (boots 3 (Boot.loop 300001 (Boot.with_magic 6))) ≡ ltb 5 3
boots-loop_test = boots-loop 3 300001 (Boot.with_magic 6) (omega arith) (omega arith) (omega arith)

-- The user is the letter u, the password the letter p.
abbrev is_u : List ℕ → Bool
is_u (c ∷ []) = c == 117
is_u _ = false

abbrev is_p : List ℕ → Bool
is_p (c ∷ []) = c == 112
is_p _ = false

abbrev credentials : Credentials
credentials = record { is_user = is_u; is_pass = is_p }

abbrev pub client : Telnet
client = record {
  enabled = true;
  port = 23;
  has_server = true;
  connected = true;
  auth_state = auth_user;
  input_buffer = [];
  connect_time = 100;
  login_attempts = 0;
  iac_state = 0;
}

abbrev login : List ℕ
login = 117 ∷ 10 ∷ 112 ∷ 13 ∷ []

login_lem : (handle_client_input credentials login client).auth_state ≡ auth_logged_in
unfolding handle_client_input take_byte take_char process_command
login_lem = refl

input-logged_in_test : TypesUser credentials login client × TypesPassword credentials login client
input-logged_in_test = input-logged_in credentials login client refl login_lem

abbrev visit : Visit
visit = record {
  waiting = false;
  accepted = false;
  accepted_at = 0;
  alive = true;
  now = 40000;
  bytes = login;
}

client-IsBounded : IsBounded client
client-IsBounded = ground arith

loop-IsBounded_example : IsBounded (loop credentials visit client)
loop-IsBounded_example = loop-IsBounded credentials visit client client-IsBounded

abbrev pub reader : Rfid
reader = record {
  has_reader = true;
  tags =
      record { uid = "04A1B2C3"; name = "car"; active = true }
      ∷ record { uid = "0455AA"; name = "old"; active = false }
      ∷ [];
  last_scan_time = 0;
  enabled = true;
  learning = false;
  buzzer_enabled = false;
  beeping = false;
  buzzer_start_time = 0;
  buzzer_duration = 0;
  last_scanned_uid = "";
  stored_tags = [];
  stored_enabled = true;
  stored_buzzer = false;
  buzzer_pin = false;
}

abbrev pub same : String → String
same s = s

reader-IsTagList : IsTagList reader.tags
unfolding has_tag
reader-IsTagList = record { few = omega arith; distinct = (refl, (refl, tt)) }

edits-IsTagList_example :
    IsTagList ((add_tag same true "0477BB" "new" reader).1).tags
    × IsTagList (toggle_tag_status same true "0477BB" reader).tags
    × IsTagList (delete_tag same true "0477BB" reader).tags
edits-IsTagList_example = edits-IsTagList same true "0477BB" "new" reader reader-IsTagList

add_tag-allows_test : is_uid_allowed same "0477BB" ((add_tag same true "0477BB" "new" reader).1) ≡ (
    if str_eq "0477BB" "0477BB"
      && not (has_tag "0477BB" reader.tags)
      && ltb (length reader.tags) max_rfid_tags
    then true
    else is_uid_allowed same "0477BB" reader)
add_tag-allows_test = add_tag-allows same true "0477BB" "new" "0477BB" reader

toggle-allows_test : is_uid_allowed same "0455AA" (toggle_tag_status same true "0455AA" reader) ≡ (
    if str_eq "0455AA" "0455AA" && has_tag "0455AA" reader.tags
    then not (is_uid_allowed same "0455AA" reader)
    else is_uid_allowed same "0455AA" reader)
toggle-allows_test = toggle-allows same true "0455AA" "0455AA" reader

delete-allows_test : is_uid_allowed same "04A1B2C3" (delete_tag same true "04A1B2C3" reader) ≡ false
delete-allows_test = delete-allows same true "04A1B2C3" reader reader-IsTagList

abbrev pub scan : ScanReadings
scan = record {
  buzzer_now = 5000;
  now = 5000;
  present = true;
  card = some "04A1B2C3";
  scanned = 5001;
  beeped = 5002;
}

scan_reports : (Scan.loop same scan reader).1 ≡ some ("04A1B2C3", true)
unfolding Scan.loop process_card is_uid_allowed allows
scan_reports = refl

loop-authorized_example :
    (reader.enabled ≡ true)
    × (reader.learning ≡ false)
    × (1500 ≤ sub32 scan.now reader.last_scan_time)
    × (scan.card ≡ some "04A1B2C3")
    × (is_uid_allowed same "04A1B2C3" reader ≡ true)
loop-authorized_example = loop-authorized same scan reader "04A1B2C3" scan_reports

-- The user's name and the end of its line in three packets.
abbrev packets : List (List ℕ)
packets = (117 ∷ []) ∷ [] ∷ (13 ∷ 112 ∷ []) ∷ (10 ∷ []) ∷ []

packets-joined_test :
    handle_packets credentials packets client
    ≡ handle_client_input credentials (joined packets) client
packets-joined_test = packets-joined credentials packets client

-- The stamp of the tests is the seconds in a byte, and a line ends in a byte of 10.
abbrev texts : Texts
texts = record { stamp = λ s us. s ∷ []; line = λ text. text ++ (10 ∷ []) }

abbrev arrival : Visit
arrival = record visit { now = 2000 }

abbrev events : List Event
events = logged 1000000 log_info (88 ∷ []) ∷ pass arrival ∷ logged 7000000 log_warn (89 ∷ []) ∷ []

abbrev desk : Desk
desk = record { telnet = client; client = []; port = [] }

desk_client : (run credentials texts events desk).client ≡ 7 ∷ (prefix log_warn ++ (89 ∷ 10 ∷ []))
unfolding run step write log also sent time_text attached forwards loop handle_client_input
    take_byte take_char process_command
desk_client = refl

run-authenticated_example :
    GivesUser credentials events desk.telnet × GivesPassword credentials events desk.telnet
run-authenticated_example =
    run-authenticated credentials texts events desk refl
      (λ e. let clash = sym desk_client ∙ e in ground (arith, clash))

abbrev logged_in : Telnet
logged_in = record client { auth_state = auth_logged_in }

abbrev messages : List Line
messages = (3000000, log_info, 88 ∷ []) ∷ (7000000, log_warn, []) ∷ []

logged_in-forwards : forwards logged_in ≡ true
unfolding forwards
logged_in-forwards = refl

run-mirrored_test :
    let r = run credentials texts (lines messages) (record desk { telnet = logged_in }) in
    r.client ≡ r.port
run-mirrored_test =
    run-mirrored credentials texts messages (record desk { telnet = logged_in }) logged_in-forwards
      refl

abbrev card : List ℕ
card = 4 ∷ 161 ∷ []

abbrev other_card : List ℕ
other_card = 4 ∷ 162 ∷ []

uid_to_hex_string_test :
    (uid_to_hex_string card ≡ uid_to_hex_string other_card → card ≡ other_card)
    × (length (uid_to_hex_string card) ≡ 2 * length card)
uid_to_hex_string_test = uid_to_hex_string_lem card other_card
