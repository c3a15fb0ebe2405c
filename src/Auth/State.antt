-- ===== src/Auth/State.antt =====
-- runtime_macro_auth.c: the state of the authentication, its locked helpers and its operations. The
-- random generator, HMAC-SHA-256 and the settings library are arguments. An operation that gives
-- the mutex up in between takes what other threads do to the state meanwhile.
use zmk_module_runtime_macro.Base.{
  ℕ, ◌+◌, ◌-◌, ◌*◌, ◌/◌, ◌%◌, ◌^◌, Bool, true, false, not, ◌&&◌, ◌||◌, List, [], ◌∷◌, ◌++◌, ltb,
  ◌==◌, if◌then◌else◌, get_or, take, drop, codes, zeros,
}

-- enum zmk_runtime_macro_auth_state
pub data AuthState : Type 0 where
  state_open state_protected state_error_locked : AuthState

-- struct zmk_runtime_macro_auth_credential
pub record Credential : Type 0 where
  pub iterations : ℕ
  pub salt : List ℕ
  pub key : List ℕ

-- struct runtime_macro_auth_state_data, and the three variables of the settings.
pub record Auth : Type 0 where
  pub state : AuthState
  pub credential : Credential
  pub session_active : Bool
  pub session_deadline_ms : ℕ
  pub challenge_active : Bool
  pub challenge : List ℕ
  pub challenge_deadline_ms : ℕ
  pub failure_count : ℕ
  pub cooldown_deadline_ms : ℕ
  pub settings_seen : Bool
  pub settings_invalid : Bool
  pub settings_generation : ℕ

-- struct zmk_runtime_macro_auth_info
pub record AuthInfo : Type 0 where
  pub state : AuthState
  pub session_authenticated : Bool
  pub kdf_id : ℕ
  pub iterations : ℕ
  pub salt : List ℕ

-- The sizes and bounds of the header, and those of the source file.
abbrev pub credential_version : ℕ
credential_version = 1

abbrev pub auth_kdf_id : ℕ
auth_kdf_id = 1

abbrev pub credential_storage_size : ℕ
credential_storage_size = 53

abbrev pub iterations_default : ℕ
iterations_default = 600000

abbrev pub iterations_min : ℕ
iterations_min = 100000

abbrev pub iterations_max : ℕ
iterations_max = 5000000

abbrev pub salt_size : ℕ
salt_size = 16

abbrev pub key_size : ℕ
key_size = 32

abbrev pub nonce_size : ℕ
nonce_size = 16

abbrev pub proof_size : ℕ
proof_size = 16

abbrev pub failure_count_max : ℕ
failure_count_max = 4

abbrev pub cooldown_max_seconds : ℕ
cooldown_max_seconds = 8

abbrev pub auth_domain : List ℕ
auth_domain = codes "ZMK-RUNTIME-MACRO-AUTH-V2"

abbrev pub auth_setting_path : List ℕ
auth_setting_path = codes "runtime_macro/auth/credential"

abbrev pub zero_credential : Credential
zero_credential = record { iterations = 0; salt = zeros salt_size; key = zeros key_size }

-- runtime_macro_auth_all_zero
unfoldable pub all_zero : List ℕ → Bool
all_zero [] = true
all_zero (b ∷ bs) = b == 0 && all_zero bs

-- runtime_macro_auth_credential_is_valid, for a pointer that is not NULL
unfoldable pub credential_is_valid : Credential → Bool
unfolding all_zero
credential_is_valid cred = not (
    ltb cred.iterations iterations_min
    || ltb iterations_max cred.iterations
    || all_zero cred.salt
    || all_zero cred.key)

-- runtime_macro_auth_put_le32, the four bytes
unfoldable pub put_le32 : ℕ → List ℕ
put_le32 value =
    value % 2 ^ 8 ∷ value / 2 ^ 8 % 2 ^ 8 ∷ value / 2 ^ 16 % 2 ^ 8 ∷ value / 2 ^ 24 % 2 ^ 8 ∷ []

-- runtime_macro_auth_get_le32; the bits of the four bytes are apart, so `|` is a sum.
unfoldable pub get_le32 : List ℕ → ℕ
get_le32 bytes =
    get_or bytes 0 0
    + get_or bytes 1 0 * 2 ^ 8
    + get_or bytes 2 0 * 2 ^ 16
    + get_or bytes 3 0 * 2 ^ 24

-- runtime_macro_auth_serialize_credential
unfoldable pub serialize_credential : Credential → List ℕ
unfolding put_le32
serialize_credential cred = credential_version ∷ put_le32 cred.iterations ++ cred.salt ++ cred.key

-- runtime_macro_auth_deserialize_credential
unfoldable pub deserialize_credential : List ℕ → Credential
unfolding get_le32
deserialize_credential serialized = record {
  iterations = get_le32 (drop 1 serialized);
  salt = take salt_size (drop 5 serialized);
  key = take key_size (drop 21 serialized);
}

-- runtime_macro_auth_clear_challenge_locked
unfoldable pub clear_challenge : Auth → Auth
clear_challenge a = record a {
  challenge_active = false;
  challenge_deadline_ms = 0;
  challenge = zeros nonce_size;
}

-- runtime_macro_auth_clear_session_locked
unfoldable pub clear_session : Auth → Auth
clear_session a = record a { session_active = false; session_deadline_ms = 0 }

-- runtime_macro_auth_clear_failure_locked
unfoldable pub clear_failure : Auth → Auth
clear_failure a = record a { failure_count = 0; cooldown_deadline_ms = 0 }

-- runtime_macro_auth_clear_transient_locked
unfoldable pub clear_transient : Bool → Auth → Auth
unfolding clear_challenge clear_session clear_failure
clear_transient true a = clear_failure (clear_challenge (clear_session a))
clear_transient false a = clear_challenge (clear_session a)

-- runtime_macro_auth_set_error_locked
unfoldable pub set_error : Auth → Auth
unfolding clear_transient
set_error a =
    clear_transient true (record a { state = state_error_locked; credential = zero_credential })

-- runtime_macro_auth_expire_session_locked
unfoldable pub expire_session : ℕ → Auth → Auth
unfolding clear_challenge clear_session
expire_session now a =
    if not a.session_active || ltb now a.session_deadline_ms
    then a
    else clear_challenge (clear_session a)

-- runtime_macro_auth_cooldown_active_locked
unfoldable pub cooldown_active : ℕ → Auth → Bool
cooldown_active now a = not (a.failure_count == 0) && ltb now a.cooldown_deadline_ms

-- The seconds of the cooldown after so many failures.
unfoldable pub cooldown_seconds : ℕ → ℕ
cooldown_seconds count =
    let seconds = 2 ^ (count - 1) in
    if ltb cooldown_max_seconds seconds then cooldown_max_seconds else seconds

-- runtime_macro_auth_record_failure_locked
unfoldable pub record_failure : ℕ → Auth → Auth
unfolding cooldown_seconds
record_failure now a =
    let count =
      if ltb a.failure_count failure_count_max then a.failure_count + 1 else a.failure_count in
    record a { failure_count = count; cooldown_deadline_ms = now + cooldown_seconds count * 1000 }

-- zmk_runtime_macro_auth_get_state
unfoldable pub get_state : ℕ → Auth → AuthState × Auth
unfolding expire_session
get_state now a = let a' = expire_session now a in (a'.state, a')

-- What zmk_runtime_macro_auth_get_info fills in for a state.
unfoldable pub info_of : AuthState → Auth → AuthInfo
info_of state_open a = record {
  state = state_open;
  session_authenticated = a.session_active;
  kdf_id = auth_kdf_id;
  iterations = iterations_default;
  salt = zeros salt_size;
}
info_of state_protected a = record {
  state = state_protected;
  session_authenticated = a.session_active;
  kdf_id = auth_kdf_id;
  iterations = a.credential.iterations;
  salt = a.credential.salt;
}
info_of state_error_locked a = record {
  state = state_error_locked;
  session_authenticated = a.session_active;
  kdf_id = 0;
  iterations = 0;
  salt = zeros salt_size;
}

-- zmk_runtime_macro_auth_get_info
unfoldable pub get_info : ℕ → Auth → AuthInfo × Auth
unfolding expire_session info_of
get_info now a = let a' = expire_session now a in (info_of a'.state a', a')
