-- ===== src/Telnet/Login.antt =====
-- The login of the console over any bytes that a client sends, and the bounds of its state.
use evse_sync_charge.Base.{
  ℕ, ◌+◌, ◌≤◌, ◌<◌, ◌≡◌, ◌≢◌, ◌⊎◌, true, false, ◌&&◌, List, [], ◌∷◌, ◌++◌, length, length-append,
  arith, All, if◌then◌else◌,
}
use evse_sync_charge.Telnet.{
  Telnet, AuthState, auth_user, auth_pass, auth_logged_in, max_login_attempts, handle_new_client,
}
use evse_sync_charge.Telnet.Input.{
  Credentials, Visit, fail_login, process_command, drop_last, take_char, take_byte,
  handle_client_input, loop,
}

-- The byte ends a line that is not empty.
abbrev pub Submits : ℕ → Telnet → Type 0
Submits c t = (t.iac_state ≢ 1) × (t.iac_state ≢ 2) × (t.input_buffer ≢ []) × ((c ≡ 10) ⊎ (c ≡ 13))

-- Among the bytes, one ends a line that is the configured password, at the password prompt.
abbrev pub TypesPassword : Credentials → List ℕ → Telnet → Type 0
TypesPassword k [] t = ⊥
TypesPassword k (c ∷ cs) t =
    (Submits c t × (t.auth_state ≡ auth_pass) × (k.is_pass t.input_buffer ≡ true))
    ⊎ TypesPassword k cs (take_byte k c t)

-- Among the bytes, one ends a line that is the configured user, at the user prompt.
abbrev pub TypesUser : Credentials → List ℕ → Telnet → Type 0
TypesUser k [] t = ⊥
TypesUser k (c ∷ cs) t =
    (Submits c t × (t.auth_state ≡ auth_user) × (k.is_user t.input_buffer ≡ true))
    ⊎ TypesUser k cs (take_byte k c t)

take_byte-logged_in :
    (k : Credentials) (c : ℕ) (t : Telnet)
    → (take_byte k c t).auth_state ≡ auth_logged_in
    → (t.auth_state ≡ auth_logged_in)
      ⊎ (Submits c t × (t.auth_state ≡ auth_pass) × (k.is_pass t.input_buffer ≡ true))
unfolding take_byte take_char process_command
take_byte-logged_in k c t h = ground arith

take_byte-pass :
    (k : Credentials) (c : ℕ) (t : Telnet)
    → (take_byte k c t).auth_state ≢ auth_user
    → (t.auth_state ≢ auth_user)
      ⊎ (Submits c t × (t.auth_state ≡ auth_user) × (k.is_user t.input_buffer ≡ true))
unfolding take_byte take_char process_command
take_byte-pass k c t h = ground arith

pub input-password :
    (k : Credentials) (cs : List ℕ) (t : Telnet)
    → t.auth_state ≢ auth_logged_in
    → (handle_client_input k cs t).auth_state ≡ auth_logged_in
    → TypesPassword k cs t
unfolding handle_client_input
input-password k [] t n h = absurd (n h)
input-password k (c ∷ cs) t n h =
    ground (arith, input-password k cs (take_byte k c t), take_byte-logged_in k c t)

pub input-user :
    (k : Credentials) (cs : List ℕ) (t : Telnet)
    → t.auth_state ≡ auth_user
    → (handle_client_input k cs t).auth_state ≢ auth_user
    → TypesUser k cs t
unfolding handle_client_input
input-user k [] t n h = absurd (h n)
input-user k (c ∷ cs) t n h =
    ground (arith, input-user k cs (take_byte k c t), take_byte-pass k c t)

-- If a pass over any bytes takes a connection from the user prompt to the logged-in state, then among
-- these bytes a line was the configured user at the user prompt, and a line was the configured
-- password at the password prompt.
pub input-logged_in :
    (k : Credentials) (cs : List ℕ) (t : Telnet)
    → t.auth_state ≡ auth_user
    → (handle_client_input k cs t).auth_state ≡ auth_logged_in
    → TypesUser k cs t × TypesPassword k cs t
input-logged_in k cs t n h =
    (input-user k cs t n (ground arith), input-password k cs t (ground arith) h)

abbrev pub IsPrintable : ℕ → Type 0
IsPrintable c = (32 ≤ c) × (c < 127)

-- The state's bounds: fewer failed logins than the maximum, at most 64 buffered characters, all
-- printable ASCII, and a command state of 0, 1 or 2.
pub record IsBounded (t : Telnet) : Type 0 where
  pub attempts : t.login_attempts < max_login_attempts
  pub short : length t.input_buffer ≤ 64
  pub printable : All IsPrintable t.input_buffer
  pub command : t.iac_state ≤ 2

drop_last-All :
    (P : ℕ → Type 0) (xs : List ℕ)
    → All P xs
    → All P (drop_last xs) × (length (drop_last xs) ≤ length xs)
unfolding drop_last
drop_last-All P [] h = (h, omega arith)
drop_last-All P (x ∷ []) h = (tt, omega arith)
drop_last-All P (x ∷ y ∷ ys) (hx, hs) =
    let (rest, short) = drop_last-All P (y ∷ ys) hs in ((hx, rest), omega arith)

All-snoc : (P : ℕ → Type 0) (xs : List ℕ) (x : ℕ) → All P xs → P x → All P (xs ++ (x ∷ []))
All-snoc P [] x h p = (p, tt)
All-snoc P (y ∷ ys) x (h, hs) p = (h, All-snoc P ys x hs p)

process-bounds :
    (k : Credentials) (a : AuthState) (input : List ℕ) (t : Telnet)
    → t.login_attempts < max_login_attempts
    → t.iac_state ≤ 2
    → let r = process_command k a input t in
      (r.login_attempts < max_login_attempts) × (r.iac_state ≤ 2)
unfolding process_command
process-bounds k a input t h i = ground arith

take_char-IsBounded :
    (k : Credentials) (c : ℕ) (t : Telnet) → IsBounded t → IsBounded (take_char k c t)
unfolding take_char
take_char-IsBounded k c t v =
    let buffer = t.input_buffer in
    let snoc : List ℕ = c ∷ [] in
    ground (
      arith,
      process-bounds k t.auth_state buffer t v.attempts v.command,
      drop_last-All IsPrintable buffer v.printable,
      All-snoc IsPrintable buffer c v.printable,
      length-append buffer snoc,
    )

take_byte-IsBounded :
    (k : Credentials) (c : ℕ) (t : Telnet) → IsBounded t → IsBounded (take_byte k c t)
unfolding take_byte
take_byte-IsBounded k c t v = ground (arith, take_char-IsBounded k c t v)

input-IsBounded :
    (k : Credentials) (cs : List ℕ) (t : Telnet)
    → IsBounded t
    → IsBounded (handle_client_input k cs t)
unfolding handle_client_input
input-IsBounded k [] t v = v
input-IsBounded k (c ∷ cs) t v =
    ground (arith, input-IsBounded k cs (take_byte k c t), take_byte-IsBounded k c t v)

-- A pass of the loop, whatever it sees, keeps the bounds: fewer than three failed logins counted, at
-- most 64 buffered characters, all printable ASCII, and a command state of at most 2.
pub loop-IsBounded :
    (k : Credentials) (v : Visit) (t : Telnet) → IsBounded t → IsBounded (loop k v t)
unfolding loop
loop-IsBounded k v t b =
    let joined = if v.waiting then handle_new_client v.accepted v.accepted_at t else t in
    let seen = record joined { connected = joined.connected && v.alive } in
    ground (arith, input-IsBounded k v.bytes seen)

-- The third failed login of a connection closes it and resets the login.
pub fail_login_third :
    (t : Telnet)
    → t.login_attempts + 1 ≡ max_login_attempts
    → let r = fail_login t in
      (r.connected ≡ false) × (r.auth_state ≡ auth_user) × (r.login_attempts ≡ 0)
unfolding fail_login
fail_login_third t h = ground arith
