-- ===== src/Protocol/State.antt =====
-- runtime_macro_protocol.c: the state of one context, what clears it, and the part of the code that
-- follows the authentication's state. The one context is the one whose frames are processed, so the
-- owner of the timeout is it or none; a request takes place at one uptime.
use zmk_module_runtime_macro.Base.{
  ℕ, ◌+◌, ◌-◌, Bool, true, false, not, ◌&&◌, ◌||◌, Option, none, some, List, ltb, ◌==◌,
  if◌then◌else◌, zeros,
}
use zmk_module_runtime_macro.Config.{Config, Result, ok, err, Status}
use zmk_module_runtime_macro.Slots.{Backend}
use zmk_module_runtime_macro.Dynamic.{Dynamic, cancel}
use zmk_module_runtime_macro.Auth.State.{
  AuthState, state_open, state_protected, state_error_locked, Auth, get_state,
}
use zmk_module_runtime_macro.Auth.Ops.{Hmac, is_authenticated, refresh_session}
use zmk_module_runtime_macro.Protocol.Frame.{
  Frame, FrameStatus, status_ok, auth_required, credential_invalid, set_error_frame,
}

-- ZMK_RUNTIME_MACRO_PROTOCOL_PASSWORD_SET_LENGTH
abbrev pub password_set_length : ℕ
password_set_length = 52

-- struct zmk_runtime_macro_protocol
pub record Protocol : Type 0 where
  pub set_active : Bool
  pub set_request_id : ℕ
  pub set_slot : ℕ
  pub set_total_length : ℕ
  pub set_received_length : ℕ
  pub set_staging : List ℕ
  pub password_set_active : Bool
  pub password_set_request_id : ℕ
  pub password_set_total_length : ℕ
  pub password_set_received_length : ℕ
  pub password_set_staging : List ℕ
  pub auth_state_known : Bool
  pub auth_state : ℕ
  pub auth_session_authenticated : Bool
  pub dynamic_active : Bool
  pub dynamic_slot : ℕ
  pub dynamic_request_id : ℕ
  pub dynamic_total_length : ℕ
  pub dynamic_received_length : ℕ
  pub dynamic_deadline_ms : ℕ

-- What the handlers change besides the static slots: the context, the authentication, the dynamic
-- store, whether the context owns the timeout, and when the timeout's work item is due.
pub record Core : Type 0 where
  pub protocol : Protocol
  pub auth : Auth
  pub dynamic : Dynamic
  pub timeout_owner : Bool
  pub timeout_work : Option ℕ

-- What the handlers ask of the rest of the system: the uptime, the settings library, the random
-- generator, the HMAC, the answer of k_work_reschedule, and what other threads do to the
-- authentication while a credential is saved.
pub record Env : Type 0 where
  pub now : ℕ
  pub io : Backend
  pub random : Result (List ℕ)
  pub hmac : Hmac
  pub rescheduled : Status
  pub meanwhile : Auth → Auth

-- runtime_macro_protocol_clear_password_set
unfoldable pub clear_password_set : Protocol → Protocol
clear_password_set p = record p {
  password_set_active = false;
  password_set_request_id = 0;
  password_set_total_length = 0;
  password_set_received_length = 0;
  password_set_staging = zeros password_set_length;
}

-- The end of a dynamic transaction: it gives the timeout up and forgets the transaction.
unfoldable pub release_timeout : Core → Core
release_timeout k =
    if k.timeout_owner then record k { timeout_owner = false; timeout_work = none } else k

unfoldable pub forget_dynamic : Protocol → Protocol
forget_dynamic p = record p {
  dynamic_active = false;
  dynamic_slot = 0;
  dynamic_request_id = 0;
  dynamic_total_length = 0;
  dynamic_received_length = 0;
  dynamic_deadline_ms = 0;
}

unfoldable pub end_dynamic : Core → Core
end_dynamic k = let k' = release_timeout k in record k' { protocol = forget_dynamic k'.protocol }

-- The uint8_t of an authentication state.
unfoldable pub state_code : AuthState → ℕ
state_code state_open = 0
state_code state_protected = 1
state_code state_error_locked = 2

-- `!=` on bool
abbrev pub differs : Bool → Bool → Bool
differs a b = if a then not b else b

-- When the work item is due after k_work_reschedule.
unfoldable pub due_after : Status → ℕ → Option ℕ → Option ℕ
due_after (ok u) due before = some due
due_after (err e) due before = before

-- ZMK_RUNTIME_MACRO_PROTOCOL_DYNAMIC_TRANSACTION_TIMEOUT_SECONDS, in ms
abbrev pub transaction_timeout_ms : ℕ
transaction_timeout_ms = 30000

-- runtime_macro_protocol_refresh_dynamic_timeout_locked
unfoldable pub refresh_dynamic_timeout : Env → Core → Status × Core
refresh_dynamic_timeout env k = (
  env.rescheduled,
  record k {
    protocol = record k.protocol { dynamic_deadline_ms = env.now + transaction_timeout_ms };
    timeout_owner = true;
    timeout_work = due_after env.rescheduled (env.now + transaction_timeout_ms) k.timeout_work;
  },
)

module _ (c : Config) where
  -- runtime_macro_protocol_clear_set
  unfoldable pub clear_set : Protocol → Protocol
  clear_set p = record p {
    set_active = false;
    set_request_id = 0;
    set_slot = 0;
    set_total_length = 0;
    set_received_length = 0;
    set_staging = zeros c.max_text_len;
  }

  -- The context with all its bytes 0.
  abbrev pub zero_protocol : Protocol
  zero_protocol = record {
    set_active = false;
    set_request_id = 0;
    set_slot = 0;
    set_total_length = 0;
    set_received_length = 0;
    set_staging = zeros c.max_text_len;
    password_set_active = false;
    password_set_request_id = 0;
    password_set_total_length = 0;
    password_set_received_length = 0;
    password_set_staging = zeros password_set_length;
    auth_state_known = false;
    auth_state = 0;
    auth_session_authenticated = false;
    dynamic_active = false;
    dynamic_slot = 0;
    dynamic_request_id = 0;
    dynamic_total_length = 0;
    dynamic_received_length = 0;
    dynamic_deadline_ms = 0;
  }

  -- runtime_macro_protocol_clear_dynamic_locked, and runtime_macro_protocol_clear_dynamic
  unfoldable pub clear_dynamic : ℕ → Core → Core
  clear_dynamic now k =
      let k' = release_timeout k in
      record k' { dynamic = cancel c now k'.dynamic; protocol = forget_dynamic k'.protocol }

  -- The same where the build has dynamic slots.
  unfoldable pub clear_dynamic_built : ℕ → Core → Core
  clear_dynamic_built now k = if c.dynamic then clear_dynamic now k else k

  -- runtime_macro_protocol_dynamic_timeout_work_handler; the item is taken off the queue as it runs.
  unfoldable pub dynamic_timeout_work_handler : Env → Core → Core
  dynamic_timeout_work_handler env k0 =
      let k = record k0 { timeout_work = none } in
      if not k.timeout_owner || not k.protocol.dynamic_active
      then record k { timeout_owner = false }
      else if ltb env.now k.protocol.dynamic_deadline_ms
      then record k {
        timeout_work =
            due_after env.rescheduled (env.now + (k.protocol.dynamic_deadline_ms - env.now)) none;
      }
      else clear_dynamic env.now k

  -- zmk_runtime_macro_protocol_discard, and zmk_runtime_macro_protocol_init
  unfoldable pub discard : ℕ → Core → Core
  discard now k = record (clear_dynamic_built now k) { protocol = zero_protocol }

  -- runtime_macro_protocol_discard_for_opcode
  unfoldable pub discard_for_opcode : ℕ → ℕ → Core → Core
  discard_for_opcode now opcode k =
      if opcode == 0x03
      then record k { protocol = clear_set k.protocol }
      else if opcode == 0x13
      then record k { protocol = clear_password_set k.protocol }
      else if opcode == 0x20 || opcode == 0x21
      then clear_dynamic_built now k
      else k

  -- The branches of runtime_macro_protocol_management_access.
  unfoldable pub access_for : AuthState → ℕ → Core → FrameStatus × Core
  access_for state_error_locked now k = (credential_invalid, discard now k)
  access_for state_open now k = (status_ok, k)
  access_for state_protected now k =
      let q = is_authenticated c now k.auth in
      let k' = record k { auth = q.1 } in
      if q.0 then (status_ok, k') else (auth_required, discard now k')

  -- runtime_macro_protocol_management_access
  unfoldable pub management_access : ℕ → Core → FrameStatus × Core
  management_access now k =
      let s = get_state now k.auth in access_for s.0 now (record k { auth = s.1 })

  -- runtime_macro_protocol_refresh_protected_session, with what becomes of the response
  unfoldable pub after_refresh : Status → ℕ → Frame → Core → Frame × Core
  after_refresh (ok u) now response k = (response, k)
  after_refresh (err e) now response k = (set_error_frame auth_required response, discard now k)

  unfoldable pub refresh_for : AuthState → ℕ → Frame → Core → Frame × Core
  refresh_for state_open now response k = (response, k)
  refresh_for state_error_locked now response k = (response, k)
  refresh_for state_protected now response k =
      let q = refresh_session c now k.auth in
      after_refresh q.0 now response (record k { auth = q.1 })

  unfoldable pub refresh_protected_session : ℕ → Frame → Core → Frame × Core
  refresh_protected_session now response k =
      let s = get_state now k.auth in refresh_for s.0 now response (record k { auth = s.1 })

  -- Whether there is a session, which is asked of a protected device only.
  unfoldable pub session_of : AuthState → ℕ → Auth → Bool × Auth
  session_of state_open now a = (false, a)
  session_of state_error_locked now a = (false, a)
  session_of state_protected now a = is_authenticated c now a

  -- The end of runtime_macro_protocol_sync_auth_state.
  unfoldable pub drop_transactions : ℕ → Core → Core
  drop_transactions now k =
      clear_dynamic_built now (record k { protocol = clear_password_set (clear_set k.protocol) })

  unfoldable pub note_auth : ℕ → AuthState → Bool → Core → Core
  note_auth now state session k =
      let p = k.protocol in
      let changed =
        p.auth_state_known
        && (not (p.auth_state == state_code state)
            || differs p.auth_session_authenticated session) in
      let k' = if changed then drop_transactions now k else k in
      record k' {
        protocol = record k'.protocol {
          auth_state_known = true;
          auth_state = state_code state;
          auth_session_authenticated = session;
        };
      }

  -- runtime_macro_protocol_sync_auth_state
  unfoldable pub sync_auth_state : ℕ → Core → Core
  sync_auth_state now k =
      let s = get_state now k.auth in
      let q = session_of s.0 now s.1 in note_auth now s.0 q.0 (record k { auth = q.1 })
