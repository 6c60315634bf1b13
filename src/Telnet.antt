-- ===== src/Telnet.antt =====
-- EVSE-SyncCharge/EvseTelnet.h and EvseTelnet.cpp: the remote console, its login and its input.
-- The TCP server and client are the Arduino core's: the state keeps whether they are there, and the
-- bytes that the client delivers are arguments. What is printed to the client is left out, but for
-- the log stream itself. Logging is left out.
pub mod Input
pub mod Login
pub mod Packets
use Prim.Native.String.{String}
use evse_sync_charge.Base.{
  ℕ, ◌+◌, ◌==◌, Bool, true, false, not, ◌&&◌, ◌||◌, List, [], ltb, leb, sub32, if◌then◌else◌,
}

pub data AuthState : Type 0 where
  auth_user auth_pass auth_logged_in : AuthState

pub record Telnet : Type 0 where
  pub enabled : Bool
  pub port : ℕ
  pub has_server : Bool
  -- `_client && _client.connected()`.
  pub connected : Bool
  pub auth_state : AuthState
  pub input_buffer : List ℕ
  pub connect_time : ℕ
  pub login_attempts : ℕ
  pub iac_state : ℕ

abbrev pub auth_timeout_ms : ℕ
auth_timeout_ms = 30000

abbrev pub max_login_attempts : ℕ
max_login_attempts = 3

abbrev pub is_logged_in : AuthState → Bool
is_logged_in auth_logged_in = true
is_logged_in _ = false

-- The initialisers of the class.
unfoldable pub new : Telnet
new = record {
  enabled = false;
  port = 23;
  has_server = false;
  connected = false;
  auth_state = auth_user;
  input_buffer = [];
  connect_time = 0;
  login_attempts = 0;
  iac_state = 0;
}

-- `enabled` and `port` are what the preferences hold.
unfoldable pub begin : Bool → ℕ → Telnet → Telnet
begin enabled port t =
    let configured = record t { enabled = enabled; port = port } in
    if enabled then record configured { has_server = true } else configured

unfoldable pub reset_client_state : Telnet → Telnet
reset_client_state t = record t {
  auth_state = auth_user;
  input_buffer = [];
  connect_time = 0;
  login_attempts = 0;
  iac_state = 0;
}

unfoldable pub stop : Telnet → Telnet
unfolding reset_client_state
stop t = reset_client_state (record t { connected = false; has_server = false })

abbrev pub same_flag : Bool → Bool → Bool
same_flag true b = b
same_flag false b = not b

unfoldable pub update_config : Bool → ℕ → Telnet → Telnet
unfolding stop
update_config enabled port t =
    if same_flag enabled t.enabled && port == t.port
    then t
    else record (stop t) { enabled = enabled; port = port; has_server = enabled }

unfoldable pub disconnect_client : Telnet → Telnet
unfolding reset_client_state
disconnect_client t = reset_client_state (record t { connected = false })

-- `accepted` is whether the server's accept() gives a client.
unfoldable pub handle_new_client : Bool → ℕ → Telnet → Telnet
unfolding reset_client_state
handle_new_client accepted now t =
    if not accepted then t else record (reset_client_state (record t { connected = true })) {
      connect_time = now;
      iac_state = 0;
    }

-- Whether the log stream passes bytes on to the client.
unfoldable pub forwards : Telnet → Bool
forwards t = t.enabled && t.connected && is_logged_in t.auth_state
