-- ===== src/Telnet/Input.antt =====
-- `processCommand`, `handleClientInput` and `loop`.
use evse_sync_charge.Base.{
  ℕ, ◌+◌, ◌==◌, Bool, true, false, not, ◌&&◌, ◌||◌, List, [], ◌∷◌, ◌++◌, ltb, leb, sub32, length,
  if◌then◌else◌,
}
use evse_sync_charge.Telnet.{
  Telnet, AuthState, auth_user, auth_pass, auth_logged_in, is_logged_in, auth_timeout_ms,
  max_login_attempts, reset_client_state, disconnect_client, handle_new_client,
}

-- What the console takes from the rest: the tests of the trimmed input against the configured user
-- and password, and the connection as seen by one pass of the loop.
pub record Credentials : Type 0 where
  pub is_user : List ℕ → Bool
  pub is_pass : List ℕ → Bool

abbrev iac : ℕ
iac = 255

-- WILL, WONT, DO and DONT are 251 to 254.
abbrev takes_option : ℕ → Bool
takes_option c = leb 251 c && leb c 254

-- A failed login, of a user name or a password.
unfoldable pub fail_login : Telnet → Telnet
unfolding disconnect_client
fail_login t =
    let counted = record t { login_attempts = t.login_attempts + 1 } in
    if leb max_login_attempts counted.login_attempts
    then disconnect_client counted
    else record counted { auth_state = auth_user }

unfoldable pub process_command : Credentials → AuthState → List ℕ → Telnet → Telnet
unfolding fail_login
process_command k auth_user input t =
    if k.is_user input then record t { auth_state = auth_pass } else fail_login t
process_command k auth_pass input t =
    if k.is_pass input then record t { auth_state = auth_logged_in } else fail_login t
process_command k auth_logged_in input t = t

-- `String::remove` of the last character.
unfoldable pub drop_last : List ℕ → List ℕ
drop_last [] = []
drop_last (x ∷ []) = []
drop_last (x ∷ y ∷ ys) = x ∷ drop_last (y ∷ ys)

abbrev is_empty : List ℕ → Bool
is_empty [] = true
is_empty (x ∷ xs) = false

-- A byte outside a command sequence.
unfoldable pub take_char : Credentials → ℕ → Telnet → Telnet
take_char k c t =
    if c == 10 || c == 13
    then (if is_empty t.input_buffer
        then t
        else record (process_command k t.auth_state t.input_buffer t) { input_buffer = [] })
    else if c == 0x08 || c == 0x7F
    then record t { input_buffer = drop_last t.input_buffer }
    else if leb 0x20 c && ltb c 0x7F
    then (if ltb (length t.input_buffer) 64
        then record t { input_buffer = t.input_buffer ++ (c ∷ []) }
        else t)
    else t

-- The body of the loop, for one byte.
unfoldable pub take_byte : Credentials → ℕ → Telnet → Telnet
take_byte k c t =
    if t.iac_state == 1
    then record t { iac_state = if takes_option c then 2 else 0 }
    else if t.iac_state == 2
    then record t { iac_state = 0 }
    else if c == iac
    then record t { iac_state = 1 }
    else take_char k c t

-- A client that was stopped has no more bytes available.
unfoldable pub handle_client_input : Credentials → List ℕ → Telnet → Telnet
handle_client_input k [] t = t
handle_client_input k (c ∷ cs) t = elim t.connected [
  | true ↦ handle_client_input k cs (take_byte k c t)
  | false ↦ t
]

-- What one pass sees: whether a new client waits and accept() gives it, and the clock then; whether
-- the peer is still there; the clock in the test of the timeout; and the bytes that are available.
pub record Visit : Type 0 where
  pub waiting : Bool
  pub accepted : Bool
  pub accepted_at : ℕ
  pub alive : Bool
  pub now : ℕ
  pub bytes : List ℕ

unfoldable pub loop : Credentials → Visit → Telnet → Telnet
unfolding handle_new_client disconnect_client reset_client_state
loop k v t =
    let joined = if v.waiting then handle_new_client v.accepted v.accepted_at t else t in
    let seen = record joined { connected = joined.connected && v.alive } in
    if not t.enabled || not t.has_server
    then t
    else if seen.connected
        && not (is_logged_in seen.auth_state)
        && ltb auth_timeout_ms (sub32 v.now seen.connect_time)
    then disconnect_client seen
    else if seen.connected
    then handle_client_input k v.bytes seen
    else if ltb 0 seen.connect_time
    then reset_client_state seen
    else seen
