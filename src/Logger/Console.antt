-- ===== src/Logger/Console.antt =====
-- The log and the remote console that `setup` attaches to it: passes of the console's loop and calls
-- of the log between them, in any order. What the console's loop logs itself is not among them.
use evse_sync_charge.Base.{
  ℕ, ◌≡◌, ◌≢◌, ◌⊎◌, refl, sym, ap, ◌∙◌, inl, inr, true, false, ◌&&◌, some, List, [], ◌∷◌, ◌++◌,
  arith, if◌then◌else◌,
}
use evse_sync_charge.Logger.{
  LogLevel, Logger, Texts, logger, set_secondary_output, log, also, sent, serial, telnet_server,
}
use evse_sync_charge.Telnet.{Telnet, auth_user, auth_logged_in, handle_new_client, forwards}
use evse_sync_charge.Telnet.Input.{Credentials, Visit, loop}
use evse_sync_charge.Telnet.Login.{TypesUser, TypesPassword, input-user, input-password}

-- The logger after `setup`.
unfoldable pub attached : Logger
unfolding logger set_secondary_output
attached = set_secondary_output (some telnet_server) logger

pub data Event : Type 0 where
  pass : Visit → Event
  logged : ℕ → LogLevel → List ℕ → Event

-- The console, and what was written to its clients and to the serial port.
pub record Desk : Type 0 where
  pub telnet : Telnet
  pub client : List ℕ
  pub port : List ℕ

-- `EvseTelnet::write`: what the log hands to the console goes to the client or is dropped. The
-- prints of one call of the log find the console in one state.
unfoldable pub write : List ℕ → Desk → Desk
write text d = if forwards d.telnet then record d { client = d.client ++ text } else d

unfoldable pub step : Credentials → Texts → Event → Desk → Desk
unfolding write
step k texts (pass v) d = record d { telnet = loop k v d.telnet }
step k texts (logged t level msg) d =
    let prints = log texts t level msg attached in
    let printed = record d { port = d.port ++ sent serial prints } in
    write (sent telnet_server prints) printed

unfoldable pub run : Credentials → Texts → List Event → Desk → Desk
unfolding step
run k texts [] d = d
run k texts (e ∷ es) d = run k texts es (step k texts e d)

-- The console as a pass sees it when it comes to the client's bytes.
abbrev pub seen : Visit → Telnet → Telnet
seen v t =
    let joined = if v.waiting then handle_new_client v.accepted v.accepted_at t else t in
    record joined { connected = joined.connected && v.alive }

-- In one of the passes, a line was the configured user at the user prompt.
abbrev pub GivesUser : Credentials → List Event → Telnet → Type 0
GivesUser k [] t = ⊥
GivesUser k (pass v ∷ es) t = TypesUser k v.bytes (seen v t) ⊎ GivesUser k es (loop k v t)
GivesUser k (logged n level msg ∷ es) t = GivesUser k es t

-- In one of the passes, a line was the configured password at the password prompt.
abbrev pub GivesPassword : Credentials → List Event → Telnet → Type 0
GivesPassword k [] t = ⊥
GivesPassword k (pass v ∷ es) t =
    TypesPassword k v.bytes (seen v t) ⊎ GivesPassword k es (loop k v t)
GivesPassword k (logged n level msg ∷ es) t = GivesPassword k es t

loop-user :
    (k : Credentials) (v : Visit) (t : Telnet)
    → t.auth_state ≡ auth_user
    → (TypesUser k v.bytes (seen v t)) ⊎ ((loop k v t).auth_state ≡ auth_user)
unfolding loop
loop-user k v t h = ground (arith, input-user k v.bytes (seen v t))

loop-password :
    (k : Credentials) (v : Visit) (t : Telnet)
    → t.auth_state ≢ auth_logged_in
    → (TypesPassword k v.bytes (seen v t)) ⊎ ((loop k v t).auth_state ≢ auth_logged_in)
unfolding loop
loop-password k v t h = ground (arith, input-password k v.bytes (seen v t))

silent : (t : Telnet) → t.auth_state ≢ auth_logged_in → forwards t ≡ false
unfolding forwards
silent t h = ground arith

-- The desk after a call of the log that reaches no client.
abbrev printed : Texts → ℕ → LogLevel → List ℕ → Desk → Desk
printed texts n level msg d = record d {
  port = d.port ++ sent serial (log texts n level msg attached);
}

dropped :
    (k : Credentials) (texts : Texts) (n : ℕ) (level : LogLevel) (msg : List ℕ) (d : Desk)
    → d.telnet.auth_state ≢ auth_logged_in
    → step k texts (logged n level msg) d ≡ printed texts n level msg d
unfolding step
dropped k texts n level msg d h = rw (silent d.telnet h) refl

run-printed :
    (k : Credentials) (texts : Texts) (n : ℕ) (level : LogLevel) (msg : List ℕ) (es : List Event)
    (d : Desk)
    → d.telnet.auth_state ≢ auth_logged_in
    → run k texts (logged n level msg ∷ es) d ≡ run k texts es (printed texts n level msg d)
unfolding run
run-printed k texts n level msg es d h = ap (run k texts es) (dropped k texts n level msg d h)

run-user :
    (k : Credentials) (texts : Texts) (es : List Event) (d : Desk)
    → d.telnet.auth_state ≡ auth_user
    → (run k texts es d).client ≢ d.client
    → GivesUser k es d.telnet
unfolding run step
run-user k texts [] d h c = absurd (c refl)
run-user k texts (pass v ∷ es) d h c = elim (loop-user k v d.telnet h) [
  | inl typed ↦ inl typed
  | inr stays ↦ inr (run-user k texts es (record d { telnet = loop k v d.telnet }) stays c)
]
run-user k texts (logged n level msg ∷ es) d h c =
    let same = run-printed k texts n level msg es d (ground arith) in
    run-user k texts es (printed texts n level msg d) h (λ e. c (ap (λ r. r.client) same ∙ e))

run-password :
    (k : Credentials) (texts : Texts) (es : List Event) (d : Desk)
    → d.telnet.auth_state ≢ auth_logged_in
    → (run k texts es d).client ≢ d.client
    → GivesPassword k es d.telnet
unfolding run step
run-password k texts [] d h c = absurd (c refl)
run-password k texts (pass v ∷ es) d h c = elim (loop-password k v d.telnet h) [
  | inl typed ↦ inl typed
  | inr stays ↦ inr (run-password k texts es (record d { telnet = loop k v d.telnet }) stays c)
]
run-password k texts (logged n level msg ∷ es) d h c =
    let same = run-printed k texts n level msg es d h in
    run-password k texts es (printed texts n level msg d) h (λ e. c (ap (λ r. r.client) same ∙ e))

-- From a console at the user prompt on, whatever passes of its loop and calls of the log follow: if
-- a byte of the log reaches a client, then in a pass a line was the configured user at the user
-- prompt, and in a pass a line was the configured password at the password prompt.
pub run-authenticated :
    (k : Credentials) (texts : Texts) (es : List Event) (d : Desk)
    → d.telnet.auth_state ≡ auth_user
    → (run k texts es d).client ≢ d.client
    → GivesUser k es d.telnet × GivesPassword k es d.telnet
run-authenticated k texts es d h c =
    (run-user k texts es d h c, run-password k texts es d (ground arith) c)

-- A call of the log hands the console the bytes that it hands the serial port.
log-same :
    (texts : Texts) (n : ℕ) (level : LogLevel) (msg : List ℕ)
    → let prints = log texts n level msg attached in sent telnet_server prints ≡ sent serial prints
unfolding log sent also attached
log-same texts n level msg = refl

abbrev pub Line : Type 0
Line = ℕ × LogLevel × List ℕ

-- Calls of the log, one after another.
abbrev pub lines : List Line → List Event
lines [] = []
lines ((n, level, msg) ∷ ls) = logged n level msg ∷ lines ls

-- The desk after a call of the log that reaches a client.
abbrev delivered : Texts → ℕ → LogLevel → List ℕ → Desk → Desk
delivered texts n level msg d =
    let text = sent serial (log texts n level msg attached) in
    record d { port = d.port ++ text; client = d.client ++ text }

step_delivers :
    (k : Credentials) (texts : Texts) (n : ℕ) (level : LogLevel) (msg : List ℕ) (d : Desk)
    → forwards d.telnet ≡ true
    → step k texts (logged n level msg) d ≡ delivered texts n level msg d
unfolding step
step_delivers k texts n level msg d h = rw h (
    ap (λ text. record (printed texts n level msg d) { client = d.client ++ text })
      (log-same texts n level msg))

-- What calls of the log in a row write to the serial port, they write to a client that has logged in,
-- too.
pub run-mirrored :
    (k : Credentials) (texts : Texts) (ls : List Line) (d : Desk)
    → forwards d.telnet ≡ true
    → d.client ≡ d.port
    → let r = run k texts (lines ls) d in r.client ≡ r.port
unfolding run
run-mirrored k texts [] d f h = h
run-mirrored k texts ((n, level, msg) ∷ ls) d f h =
    let text = sent serial (log texts n level msg attached) in
    let both = run-mirrored k texts ls (delivered texts n level msg d) f (ap (λ x. x ++ text) h) in
    let same = ap (run k texts (lines ls)) (step_delivers k texts n level msg d f) in
    ap (λ r. r.client) same ∙ both ∙ ap (λ r. r.port) (sym same)
