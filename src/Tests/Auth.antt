-- ===== src/Tests/Auth.antt =====
-- The authentication at concrete inputs: a device with a credential and an open challenge.
use zmk_module_runtime_macro.Base.{
  ℕ, ◌<◌, ◌+◌, ◌*◌, ◌^◌, min, ◌≢◌, ◌↔◌, arith, ◌≡◌, refl, true, false, some, List, [], ◌∷◌, zeros,
  length, get_or,
}
use zmk_module_runtime_macro.Config.{
  Errno, eperm, eacces, eagain, eio, Result, ok, err, Status, done,
}
use zmk_module_runtime_macro.Auth.State.{
  state_open, state_protected, state_error_locked, Credential, Auth, credential_storage_size,
  credential_version, credential_is_valid, auth_setting_path, serialize_credential,
  deserialize_credential, expire_session, nonce_size, zero_credential,
}
use zmk_module_runtime_macro.Auth.Ops.{
  Hmac, verify_proof, generate_challenge, settings_set, settings_commit, set_credential,
  constant_time_equal,
}
use zmk_module_runtime_macro.Auth.Storage.{
  IsCredential, deserialize_credential-serialize_credential,
}
use zmk_module_runtime_macro.Auth.Proof.{Proves, verify_proof_iff, verify_proof_backoff}
use zmk_module_runtime_macro.Auth.Lockout.{
  credential_key, Fresh, Locked, settings_set-restores, settings_set-Locked,
}
use zmk_module_runtime_macro.Auth.Update.{MayUpdate, Restores, set_credential_saves_first}
use zmk_module_runtime_macro.Auth.Challenge.{verify_proof_once}
use zmk_module_runtime_macro.Slots.{SettingsCall, saves}
use zmk_module_runtime_macro.Auth.Sessions.{
  AuthEvent, proves, informs, asks, refreshes, auth_run, ProofAccepted, session_needs_proof,
}
use zmk_module_runtime_macro.Slots.Settings.{load_setting}
use zmk_module_runtime_macro.Slots.Restore.{slot_key}
use zmk_module_runtime_macro.Boot.{settings_handler, settings_handler_separates}
use zmk_module_runtime_macro.Tests.Data.{test_config, hi, hi_slots}

abbrev pub test_credential : Credential
test_credential = record { iterations = 100000; salt = 1 ∷ zeros 15; key = 2 ∷ zeros 31 }

test_credential-IsCredential : IsCredential test_credential
test_credential-IsCredential = record { iterations = omega arith; salt = refl; key = refl }

test_credential_valid : credential_is_valid test_credential ≡ true
unfolding credential_is_valid
test_credential_valid = refl

-- A device at boot, before its settings are loaded.
abbrev pub unset_auth : Auth
unset_auth = record {
  state = state_open;
  credential = zero_credential;
  session_active = false;
  session_deadline_ms = 0;
  challenge_active = false;
  challenge = zeros 16;
  challenge_deadline_ms = 0;
  failure_count = 0;
  cooldown_deadline_ms = 0;
  settings_seen = false;
  settings_invalid = false;
  settings_generation = 0;
}

-- The same device, protected, with a challenge until 30000 ms.
abbrev pub challenged : Auth
challenged = record unset_auth {
  state = state_protected;
  credential = test_credential;
  challenge_active = true;
  challenge = 9 ∷ zeros 15;
  challenge_deadline_ms = 30000;
  settings_seen = true;
}

-- A stand-in for HMAC-SHA-256.
abbrev pub test_hmac : Hmac
test_hmac key message = ok (7 ∷ zeros 31)

abbrev right_proof : List ℕ
right_proof = 7 ∷ zeros 15

abbrev wrong_proof : List ℕ
wrong_proof = 8 ∷ zeros 15

abbrev storing_credential : List ℕ → List ℕ → Status
storing_credential name value = done

deserialize_credential-serialize_credential_example :
    (deserialize_credential (serialize_credential test_credential) ≡ test_credential)
    × (length (serialize_credential test_credential) ≡ credential_storage_size)
    × (get_or (serialize_credential test_credential) 0 0 ≡ credential_version)
deserialize_credential-serialize_credential_example =
    deserialize_credential-serialize_credential test_credential test_credential-IsCredential

verify_proof_iff_example :
    ((verify_proof test_config test_hmac 100 (some right_proof) 16 challenged).0 ≡ done)
    ↔ Proves test_config test_hmac 100 right_proof (expire_session 100 challenged)
verify_proof_iff_example = verify_proof_iff test_config test_hmac 100 right_proof challenged

-- What a client may do between two proofs.
abbrev between : List AuthEvent
between = informs 150 ∷ asks 160 ∷ refreshes 170 ∷ proves 180 (some right_proof) 16 ∷ []

verify_proof_once_example :
    (verify_proof test_config test_hmac 200 (some right_proof) 16 (
      auth_run test_config test_hmac between
        (verify_proof test_config test_hmac 100 (some wrong_proof) 16 challenged).1)).0
    ≢ done
verify_proof_once_example =
    verify_proof_once test_config test_hmac 100 wrong_proof challenged between refl
      (tt, (tt, (tt, (tt, tt)))) 200 (some right_proof) 16

wrong_proof_fails :
    (verify_proof test_config test_hmac 100 (some wrong_proof) 16 challenged).0 ≡ err eacces
unfolding verify_proof constant_time_equal
wrong_proof_fails = refl

verify_proof_backoff_example :
    ((verify_proof test_config test_hmac 100 (some wrong_proof) 16 challenged).1.failure_count
      ≡ min (0 + 1) 4)
    × ((verify_proof test_config test_hmac 100
          (some wrong_proof)
          16
          challenged).1.cooldown_deadline_ms
        ≡ 100 + min (2 ^ 0) 8 * 1000)
    × ((t : ℕ) (random : Result (List ℕ))
        → t
          < (verify_proof test_config test_hmac 100
              (some wrong_proof)
              16
              challenged).1.cooldown_deadline_ms
        → (generate_challenge test_config t nonce_size random
            (verify_proof test_config test_hmac 100 (some wrong_proof) 16 challenged).1).0
          ≡ err eagain)
verify_proof_backoff_example =
    verify_proof_backoff test_config test_hmac 100 wrong_proof challenged (omega arith)
      wrong_proof_fails

settings_set-restores_example :
    ((settings_set
        (some credential_key)
        53
        (some (λ n. ok (serialize_credential test_credential)))
        (λ b. b)
        unset_auth).0
      ≡ done)
    × Fresh test_credential (
        settings_commit
          (settings_set
            (some credential_key)
            53
            (some (λ n. ok (serialize_credential test_credential)))
            (λ b. b)
            unset_auth).1)
settings_set-restores_example =
    settings_set-restores test_credential (λ n. ok (serialize_credential test_credential))
      unset_auth test_credential-IsCredential test_credential_valid refl refl

settings_set-Locked_example :
    ((settings_set (some credential_key) 53 (some (λ n. err eio)) (λ b. b) challenged).0 ≢ done
      → Locked (
          settings_commit
            (settings_set (some credential_key) 53 (some (λ n. err eio)) (λ b. b) challenged).1))
    × (challenged.settings_seen ≡ true
        → (settings_set (some credential_key) 53 (some (λ n. err eio)) (λ b. b) challenged).0
          ≢ done)
settings_set-Locked_example = settings_set-Locked 53 (some (λ n. err eio)) challenged

-- The device with a session until 5000 ms.
abbrev in_session : Auth
in_session = record challenged { session_active = true; session_deadline_ms = 5000 }

abbrev replaced : Status × List SettingsCall × Auth
replaced = set_credential 100 (some test_credential) storing_credential (λ b. b) in_session

set_credential_saves_first_example :
    ((expire_session 100 in_session).state ≡ state_error_locked
      → replaced ≡ (err eperm, [], expire_session 100 in_session))
    × ((expire_session 100 in_session).state ≡ state_protected
        → (expire_session 100 in_session).session_active ≡ false
        → replaced ≡ (err eacces, [], expire_session 100 in_session))
    × (MayUpdate (expire_session 100 in_session)
        → (value : List ℕ) × (replaced.1 ≡ saves auth_setting_path value ∷ [])
          × (replaced.0 ≡ storing_credential auth_setting_path value)
          × Restores unset_auth test_credential value)
    × ((e : Errno)
        → MayUpdate (expire_session 100 in_session)
        → replaced.0 ≡ err e
        → replaced.2 ≡ expire_session 100 in_session)
    × (MayUpdate (expire_session 100 in_session)
        → replaced.0 ≡ done
        → Fresh test_credential replaced.2)
set_credential_saves_first_example =
    set_credential_saves_first 100 test_credential storing_credential (λ b. b) in_session unset_auth
      test_credential-IsCredential test_credential_valid refl

-- The right proof after a look at the state.
abbrev proving : List AuthEvent
proving = informs 50 ∷ proves 100 (some right_proof) 16 ∷ []

proving_opens : (auth_run test_config test_hmac proving challenged).session_active ≡ true
unfolding auth_run verify_proof constant_time_equal
proving_opens = refl

session_needs_proof_example : ProofAccepted test_config test_hmac proving challenged
session_needs_proof_example =
    session_needs_proof test_config test_hmac proving challenged refl proving_opens

settings_handler_separates_example :
    (settings_handler test_config
        (some (slot_key 1))
        2
        (some (λ n. ok hi))
        (λ b. b)
        challenged
        hi_slots
      ≡ (
        (load_setting test_config (some (slot_key 1)) 2 (some (λ n. ok hi)) hi_slots).0,
        challenged,
        (load_setting test_config (some (slot_key 1)) 2 (some (λ n. ok hi)) hi_slots).1,
      ))
    × (settings_handler test_config
          (some credential_key)
          2
          (some (λ n. ok hi))
          (λ b. b)
          challenged
          hi_slots
        ≡ (
          (settings_set (some credential_key) 2 (some (λ n. ok hi)) (λ b. b) challenged).0,
          (settings_set (some credential_key) 2 (some (λ n. ok hi)) (λ b. b) challenged).1,
          hi_slots,
        ))
settings_handler_separates_example =
    settings_handler_separates test_config 1 2 (some (λ n. ok hi)) (λ b. b) challenged hi_slots
