-- ===== src/Auth/Ops.antt =====
-- The operations of runtime_macro_auth.c on challenges, proofs, sessions and the credential.
use zmk_module_runtime_macro.Base.{
  ℕ, ◌+◌, ◌*◌, ◌%◌, ◌^◌, Bool, true, false, not, ◌&&◌, ◌||◌, Option, none, some, List, [], ◌∷◌,
  ◌++◌, leb, ◌==◌, if◌then◌else◌, length, get_or, take, bytes_equal, codes,
}
use zmk_module_runtime_macro.Config.{
  Config, einval, enoent, eio, enodata, eperm, eagain, eacces, Result, ok, err, Status, done,
}
use zmk_module_runtime_macro.Slots.Settings.{name_steq, ReadCb}
use zmk_module_runtime_macro.Slots.{SettingsCall, saves}
use zmk_module_runtime_macro.Auth.State.{
  AuthState, state_open, state_protected, state_error_locked, Credential, Auth, credential_version,
  credential_storage_size, nonce_size, proof_size, auth_domain, auth_setting_path, zero_credential,
  credential_is_valid, serialize_credential, deserialize_credential, clear_challenge, clear_session,
  clear_failure, clear_transient, set_error, expire_session, cooldown_active, record_failure,
}

-- runtime_macro_auth_hmac: from the key and the message, 32 bytes or EIO.
abbrev pub Hmac : Type 0
Hmac = List ℕ → List ℕ → Result (List ℕ)

-- runtime_macro_auth_constant_time_equal, as the loop of the host build
unfoldable pub constant_time_equal : List ℕ → List ℕ → ℕ → Bool
constant_time_equal left right n = bytes_equal (take n left) (take n right)

-- zmk_runtime_macro_auth_lock and zmk_runtime_macro_auth_transport_reset
unfoldable pub lock : Auth → Auth
unfolding clear_transient
lock a = clear_transient false a

unfoldable pub transport_reset : Auth → Auth
unfolding clear_transient
transport_reset a = clear_transient true a

-- zmk_runtime_macro_auth_settings_commit
unfoldable pub settings_commit : Auth → Auth
unfolding clear_transient set_error
settings_commit a =
    if not a.settings_seen
    then clear_transient true (record a { state = state_open; credential = zero_credential })
    else if a.settings_invalid
    then set_error a
    else a

-- The start of zmk_runtime_macro_auth_settings_set: the state fails closed until a value is accepted.
unfoldable pub settings_open : Auth → Auth
unfolding set_error
settings_open a = set_error (record a {
  settings_seen = true;
  settings_invalid = true;
  settings_generation = (a.settings_generation + 1) % 2 ^ 32;
})

-- Its end, once the value is a valid credential.
unfoldable pub settings_accept : ℕ → Credential → Auth → Status × Auth
unfolding clear_transient
settings_accept generation cred a =
    if not (a.settings_generation == generation) || not a.settings_invalid
    then (err einval, a)
    else (
      done,
      clear_transient true
          (record a { credential = cred; state = state_protected; settings_invalid = false }),
    )

-- What it makes of the value that was read.
unfoldable pub settings_value : ℕ → Result (List ℕ) → Auth → Status × Auth
unfolding settings_accept deserialize_credential credential_is_valid
settings_value generation (err e) a = (err e, a)
settings_value generation (ok bytes) a =
    if not (length bytes == credential_storage_size) || not (get_or bytes 0 0 == credential_version)
    then (err einval, a)
    else if not (credential_is_valid (deserialize_credential bytes))
    then (err einval, a)
    else settings_accept generation (deserialize_credential bytes) a

unfoldable pub settings_read : Bool → ℕ → ReadCb → (Auth → Auth) → Auth → Status × Auth
unfolding settings_value
settings_read duplicate n none meanwhile a = (err einval, a)
settings_read duplicate n (some read) meanwhile a =
    if duplicate || not (n == credential_storage_size)
    then (err einval, a)
    else settings_value a.settings_generation (read credential_storage_size) (meanwhile a)

-- Whether the name is "auth/credential".
unfoldable pub under_auth : Option (Option (List ℕ)) → Bool
unfolding name_steq
under_auth none = false
under_auth (some none) = false
under_auth (some (some next)) = elim (name_steq next (codes "credential")) [
  | some none ↦ true
  | _ ↦ false
]

unfoldable pub is_credential_name : Option (List ℕ) → Bool
unfolding under_auth
is_credential_name none = false
is_credential_name (some name) = under_auth (name_steq name (codes "auth"))

-- zmk_runtime_macro_auth_settings_set; `meanwhile` is what other threads do while the value is read.
unfoldable pub settings_set : Option (List ℕ) → ℕ → ReadCb → (Auth → Auth) → Auth → Status × Auth
unfolding settings_open settings_read is_credential_name
settings_set name n read_cb meanwhile a =
    if is_credential_name name
    then settings_read a.settings_seen n read_cb meanwhile (settings_open a)
    else (err enoent, a)

-- The gate of zmk_runtime_macro_auth_set_credential.
unfoldable pub update_gate : AuthState → Bool → Status
update_gate state_error_locked session = err eperm
update_gate state_protected false = err eacces
update_gate state_protected true = done
update_gate state_open session = done

-- Its end: the new credential, which ends every session and challenge.
unfoldable pub store_credential : Credential → Auth → Auth
unfolding clear_transient
store_credential cred a = clear_transient true (record a {
  credential = cred;
  state = state_protected;
  settings_seen = true;
  settings_invalid = false;
})

-- Its part after the gate, by what the settings library answers.
unfoldable pub after_save : Credential → Status → Auth → Status × Auth
unfolding store_credential
after_save cred (err e) a = (err e, a)
after_save cred (ok u) a = (done, store_credential cred a)

-- A refusal of the gate calls nothing; otherwise the settings library is called once.
unfoldable pub after_gate :
    Status
    → Credential
    → (List ℕ → List ℕ → Status)
    → (Auth → Auth)
    → Auth
    → Status × List SettingsCall × Auth
unfolding after_save serialize_credential
after_gate (err e) cred save meanwhile a = (err e, [], a)
after_gate (ok u) cred save meanwhile a =
    let value = serialize_credential cred in
    let r = after_save cred (save auth_setting_path value) (meanwhile a) in
    (r.0, saves auth_setting_path value ∷ [], r.1)

-- zmk_runtime_macro_auth_set_credential, with its calls of the settings library; `none` is a NULL
-- pointer, and `meanwhile` what other threads do while the credential is saved.
unfoldable pub set_credential :
    ℕ
    → Option Credential
    → (List ℕ → List ℕ → Status)
    → (Auth → Auth)
    → Auth
    → Status × List SettingsCall × Auth
unfolding after_gate update_gate credential_is_valid expire_session
set_credential now none save meanwhile a = (err einval, [], a)
set_credential now (some cred) save meanwhile a =
    let a' = expire_session now a in
    if not (credential_is_valid cred)
    then (err einval, [], a)
    else after_gate (update_gate a'.state a'.session_active) cred save meanwhile a'

module _ (c : Config) where
  -- The part of zmk_runtime_macro_auth_generate_challenge after its checks, by the random bytes.
  unfoldable pub store_challenge : ℕ → Result (List ℕ) → Auth → Result (List ℕ) × Auth
  store_challenge now (err e) a = (err eio, a)
  store_challenge now (ok nonce) a = (
    ok (take nonce_size nonce),
    record a {
      challenge = take nonce_size nonce;
      challenge_active = true;
      challenge_deadline_ms = now + c.challenge_timeout * 1000;
    },
  )

  unfoldable pub challenge_for : AuthState → ℕ → Result (List ℕ) → Auth → Result (List ℕ) × Auth
  unfolding store_challenge cooldown_active clear_challenge
  challenge_for state_open now random a = (err enodata, a)
  challenge_for state_error_locked now random a = (err eperm, a)
  challenge_for state_protected now random a =
      if cooldown_active now a
      then (err eagain, a)
      else store_challenge now random (clear_challenge a)

  -- zmk_runtime_macro_auth_generate_challenge, with the answer of the random generator
  unfoldable pub generate_challenge : ℕ → ℕ → Result (List ℕ) → Auth → Result (List ℕ) × Auth
  unfolding challenge_for expire_session
  generate_challenge now size random a =
      if not (size == nonce_size)
      then (err einval, a)
      else (let a' = expire_session now a in challenge_for a'.state now random a')

  -- What zmk_runtime_macro_auth_verify_proof does with the HMAC, once the challenge is used up.
  unfoldable pub judge_proof : ℕ → List ℕ → Result (List ℕ) → Auth → Status × Auth
  unfolding constant_time_equal record_failure clear_failure
  judge_proof now proof (err e) a = (err eio, a)
  judge_proof now proof (ok expected) a =
      if not (constant_time_equal expected proof proof_size)
      then (err eacces, record_failure now a)
      else (
        done,
        clear_failure (record a {
          session_active = true;
          session_deadline_ms = now + c.session_timeout * 1000;
        }),
      )

  unfoldable pub proof_for : AuthState → Hmac → ℕ → List ℕ → Auth → Status × Auth
  unfolding judge_proof clear_challenge clear_session
  proof_for state_open hmac now proof a = (err enodata, a)
  proof_for state_error_locked hmac now proof a = (err eperm, a)
  proof_for state_protected hmac now proof a =
      if not a.challenge_active || leb a.challenge_deadline_ms now
      then (err enoent, clear_challenge a)
      else judge_proof now proof (hmac a.credential.key (auth_domain ++ a.challenge))
          (clear_session (clear_challenge a))

  -- zmk_runtime_macro_auth_verify_proof; `none` is a NULL pointer.
  unfoldable pub verify_proof : Hmac → ℕ → Option (List ℕ) → ℕ → Auth → Status × Auth
  unfolding proof_for expire_session
  verify_proof hmac now none size a = (err einval, a)
  verify_proof hmac now (some proof) size a =
      if not (size == proof_size)
      then (err einval, a)
      else (let a' = expire_session now a in proof_for a'.state hmac now proof a')

  -- Whether the state is that of a protected device.
  abbrev pub is_protected : AuthState → Bool
  is_protected state_protected = true
  is_protected state_open = false
  is_protected state_error_locked = false

  -- zmk_runtime_macro_auth_is_authenticated
  unfoldable pub is_authenticated : ℕ → Auth → Bool × Auth
  unfolding expire_session
  is_authenticated now a =
      let a' = expire_session now a in (is_protected a'.state && a'.session_active, a')

  -- zmk_runtime_macro_auth_refresh_session
  unfoldable pub refresh_session : ℕ → Auth → Status × Auth
  unfolding expire_session
  refresh_session now a =
      let a' = expire_session now a in
      if not (is_protected a'.state) || not a'.session_active
      then (err eacces, a')
      else (done, record a' { session_deadline_ms = now + c.session_timeout * 1000 })
