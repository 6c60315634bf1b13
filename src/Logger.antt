-- ===== src/Logger.antt =====
-- EVSE-SyncCharge/EvseLogger.h and EvseLogger.cpp: the log, which goes to one stream and, where one
-- is attached, to a second. What snprintf makes of the time, println of a line and vsnprintf of a
-- format is not the repository's: the first two are parameters, the third the text that logf is
-- given. Texts are lists of bytes.
pub mod Console
use evse_sync_charge.Base.{
  ℕ, ◌/◌, ◌%◌, Bool, true, false, Option, none, some, List, [], ◌∷◌, ◌++◌, take, if◌then◌else◌,
}

pub data LogLevel : Type 0 where
  log_debug log_info log_warn log_error : LogLevel

-- The two streams that the firmware logs to.
pub data Stream : Type 0 where
  serial telnet_server : Stream

pub record Logger : Type 0 where
  pub output : Stream
  pub secondary_output : Option Stream

-- `EvseLogger logger(Serial)`.
unfoldable pub logger : Logger
logger = record { output = serial; secondary_output = none }

unfoldable pub set_output : Stream → Logger → Logger
set_output out l = record l { output = out }

unfoldable pub set_secondary_output : Option Stream → Logger → Logger
set_secondary_output out l = record l { secondary_output = out }

-- The calls of print and println, in their order.
pub record Print : Type 0 where
  pub stream : Stream
  pub text : List ℕ

-- [DEBUG], [INFO ], [WARN ] and [ERROR], each with a space.
abbrev pub prefix : LogLevel → List ℕ
prefix log_debug = 91 ∷ 68 ∷ 69 ∷ 66 ∷ 85 ∷ 71 ∷ 93 ∷ 32 ∷ []
prefix log_info = 91 ∷ 73 ∷ 78 ∷ 70 ∷ 79 ∷ 32 ∷ 93 ∷ 32 ∷ []
prefix log_warn = 91 ∷ 87 ∷ 65 ∷ 82 ∷ 78 ∷ 32 ∷ 93 ∷ 32 ∷ []
prefix log_error = 91 ∷ 69 ∷ 82 ∷ 82 ∷ 79 ∷ 82 ∷ 93 ∷ 32 ∷ []

-- What the Arduino core and its C library make of texts: of the seconds and the microseconds of the
-- time stamp in snprintf, and of a text that println ends as a line.
pub record Texts : Type 0 where
  pub stamp : ℕ → ℕ → List ℕ
  pub line : List ℕ → List ℕ

-- `ts`, cut to its 32 bytes.
unfoldable pub time_text : Texts → ℕ → List ℕ
time_text texts t = take 31 (texts.stamp (t / 1000000) (t % 1000000))

-- Calls on the second stream, where it is attached.
unfoldable pub also : Option Stream → List (List ℕ) → List Print
also none parts = []
also (some s) [] = []
also (some s) (text ∷ parts) = record { stream = s; text = text } ∷ also (some s) parts

-- `t` is what micros() gives.
unfoldable pub log : Texts → ℕ → LogLevel → List ℕ → Logger → List Print
log texts t level msg l =
    let ts = time_text texts t in
    (record { stream = l.output; text = ts } ∷ [])
    ++ (also l.secondary_output (ts ∷ [])
        ++ ((record { stream = l.output; text = prefix level }
              ∷ record { stream = l.output; text = texts.line msg }
              ∷ [])
            ++ also l.secondary_output (prefix level ∷ texts.line msg ∷ [])))

-- `text` is what the format gives, cut to the buffer.
unfoldable pub logf_impl : Texts → ℕ → LogLevel → List ℕ → Logger → List Print
logf_impl texts t level text l = log texts t level (take 255 text) l

-- `logf`, and with their levels `debugf`, `infof`, `warnf` and `errorf`.
unfoldable pub logf : Texts → ℕ → LogLevel → List ℕ → Logger → List Print
logf = logf_impl

abbrev pub is_stream : Stream → Stream → Bool
is_stream serial serial = true
is_stream telnet_server telnet_server = true
is_stream _ _ = false

-- The bytes that the calls hand to a stream.
unfoldable pub sent : Stream → List Print → List ℕ
sent s [] = []
sent s (p ∷ ps) = let rest = sent s ps in if is_stream s p.stream then p.text ++ rest else rest
