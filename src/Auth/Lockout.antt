-- ===== src/Auth/Lockout.antt =====
-- The stored credential at boot, and the lock that a bad one leaves.
use zmk_module_runtime_macro.Base.{
  ℕ, ◌≡◌, refl, ap, ◌∙◌, ◌≢◌, inl, inr, Bool, true, false, not, ◌||◌, none, some, List, arith, ◌==◌,
  ==_iff, Bool-cases, length, get_or, codes,
}
use zmk_module_runtime_macro.Config.{einval, Result, ok, err, Status, done}
use zmk_module_runtime_macro.Slots.Settings.{name_steq, ReadCb}
use zmk_module_runtime_macro.Auth.State.{
  state_protected, state_error_locked, Credential, Auth, credential_version,
  credential_storage_size, zero_credential, credential_is_valid, serialize_credential,
  deserialize_credential, clear_transient, clear_challenge, clear_session, clear_failure,
}
use zmk_module_runtime_macro.Auth.Ops.{
  settings_set, settings_read, settings_value, settings_accept, settings_open, settings_commit,
  is_credential_name,
}
use zmk_module_runtime_macro.Auth.Storage.{
  IsCredential, deserialize_credential-serialize_credential,
}

-- The name of the credential's setting below the handler's subtree.
abbrev pub credential_key : List ℕ
credential_key = codes "auth/credential"

credential_key_read : is_credential_name (some credential_key) ≡ true
unfolding is_credential_name name_steq
credential_key_read = refl

-- A credential is protected with no session, challenge or failure.
pub record Fresh (cred : Credential) (a : Auth) : Type 0 where
  pub state : a.state ≡ state_protected
  pub credential : a.credential ≡ cred
  pub session : a.session_active ≡ false
  pub challenge : a.challenge_active ≡ false
  pub failures : a.failure_count ≡ 0

-- The lock: no credential, no session and no challenge.
pub record Locked (a : Auth) : Type 0 where
  pub state : a.state ≡ state_error_locked
  pub credential : a.credential ≡ zero_credential
  pub session : a.session_active ≡ false
  pub challenge : a.challenge_active ≡ false

settings_set_key :
    (n : ℕ) (cb : ReadCb) (meanwhile : Auth → Auth) (a : Auth)
    → settings_set (some credential_key) n cb meanwhile a
      ≡ settings_read a.settings_seen n cb meanwhile (settings_open a)
unfolding settings_set is_credential_name name_steq
settings_set_key n cb meanwhile a = refl

-- The state once a credential is accepted.
abbrev protected_by : Credential → Auth → Auth
protected_by cred a =
    clear_transient true
      (record a { credential = cred; state = state_protected; settings_invalid = false })

settings_value_accepts :
    (cred : Credential) (bytes : List ℕ) (a : Auth)
    → length bytes ≡ credential_storage_size
    → get_or bytes 0 0 ≡ credential_version
    → deserialize_credential bytes ≡ cred
    → credential_is_valid cred ≡ true
    → a.settings_invalid ≡ true
    → settings_value a.settings_generation (ok bytes) a ≡ (done, protected_by cred a)
unfolding settings_value settings_accept
settings_value_accepts cred bytes a size version read valid invalid =
    let stored : credential_is_valid (deserialize_credential bytes) ≡ true =
      ap credential_is_valid read ∙ valid in
    simp (
      (==_iff (length bytes) credential_storage_size).1 size,
      (==_iff (get_or bytes 0 0) credential_version).1 version,
      stored,
      read,
      (==_iff a.settings_generation a.settings_generation).1 refl,
      invalid,
    )

settings_accept_refuses :
    (generation : ℕ) (cred : Credential) (a : Auth)
    → (settings_accept generation cred a).0 ≢ done
    → (settings_accept generation cred a).1 ≡ a
unfolding settings_accept
settings_accept_refuses generation cred a ne =
    elim (Bool-cases (not (a.settings_generation == generation) || not a.settings_invalid)) [
      | inl stale ↦ simp stale
      | inr current ↦ absurd (ne (simp current))
    ]

settings_value_refuses :
    (generation : ℕ) (r : Result (List ℕ)) (a : Auth)
    → (settings_value generation r a).0 ≢ done
    → (settings_value generation r a).1 ≡ a
unfolding settings_value
settings_value_refuses generation (err e) a ne = refl
settings_value_refuses generation (ok bytes) a ne =
    elim (Bool-cases (
      not (length bytes == credential_storage_size)
      || not (get_or bytes 0 0 == credential_version))) [
        | inl bad ↦ simp bad
        | inr fine ↦ elim (Bool-cases (credential_is_valid (deserialize_credential bytes))) [
          | inr invalid ↦ simp (fine, invalid)
          | inl valid ↦
              simp (fine, valid)
                (settings_accept_refuses generation (deserialize_credential bytes) a
                  (simp (fine, valid) at ne))
        ]
      ]

einval_not_done : (r : Status) → r ≡ err einval → r ≡ done → ⊥
einval_not_done r e d = cc

settings_open-Locked : (a : Auth) → Locked (settings_commit (settings_open a))
unfolding settings_commit settings_open clear_challenge clear_session clear_failure
settings_open-Locked a = record {
  state = refl;
  credential = refl;
  session = refl;
  challenge = refl;
}

protected_by-Fresh :
    (cred : Credential) (a : Auth)
    → Fresh cred (settings_commit (protected_by cred (settings_open a)))
unfolding settings_commit settings_open clear_challenge clear_session clear_failure
protected_by-Fresh cred a = record {
  state = refl;
  credential = refl;
  session = refl;
  challenge = refl;
  failures = refl;
}

settings_read-Locked :
    (seen : Bool) (n : ℕ) (cb : ReadCb) (a : Auth)
    → let (r, a') = settings_read seen n cb (λ b. b) (settings_open a) in
      (r ≢ done → Locked (settings_commit a')) × (seen ≡ true → r ≢ done)
unfolding settings_read
settings_read-Locked seen n none a =
    (λ ne. settings_open-Locked a, λ h d. einval_not_done (err einval) refl d)
settings_read-Locked seen n (some read) a =
    elim (Bool-cases (seen || not (n == credential_storage_size))) [
      | inl bad ↦
          simp bad (λ ne. settings_open-Locked a, λ h d. einval_not_done (err einval) refl d)
      | inr fine ↦ simp fine (
        λ ne.
            rw
              (settings_value_refuses (settings_open a).settings_generation
                (read credential_storage_size) (settings_open a) ne)
              (settings_open-Locked a),
        λ h d. ground arith,
      )
    ]

-- The first credential setting of a boot, if it is the stored form of a valid credential, protects the
-- device with that credential and with no session, and the commit keeps it.
pub settings_set-restores :
    (cred : Credential) (read : ℕ → Result (List ℕ)) (a : Auth)
    → IsCredential cred
    → credential_is_valid cred ≡ true
    → a.settings_seen ≡ false
    → read credential_storage_size ≡ ok (serialize_credential cred)
    → let (r, a') =
        settings_set (some credential_key) credential_storage_size (some read) (λ b. b) a in
      (r ≡ done) × Fresh cred (settings_commit a')
settings_set-restores cred read a k valid first answer =
    rw accepted (refl, protected_by-Fresh cred a)
  where
    stored :
        (deserialize_credential (serialize_credential cred) ≡ cred)
        × (length (serialize_credential cred) ≡ credential_storage_size)
        × (get_or (serialize_credential cred) 0 0 ≡ credential_version)
    stored = deserialize_credential-serialize_credential cred k

    opened : (settings_open a).settings_invalid ≡ true
    opened = unfold settings_open clear_challenge clear_session clear_failure in refl

    accepted :
        settings_set (some credential_key) credential_storage_size (some read) (λ b. b) a
        ≡ (done, protected_by cred (settings_open a))
    accepted =
        settings_set_key credential_storage_size (some read) (λ b. b) a
        ∙ unfold settings_read in
          simp (first, answer)
            (settings_value_accepts cred (serialize_credential cred) (settings_open a) stored.1
              stored.2 stored.0 valid opened)

-- Whatever the value of the credential setting and however it is read, if it is not accepted the
-- device is locked after the commit: it has no credential, no session and no challenge. A second
-- credential setting in one boot is never accepted.
pub settings_set-Locked :
    (n : ℕ) (cb : ReadCb) (a : Auth)
    → let (r, a') = settings_set (some credential_key) n cb (λ b. b) a in
      (r ≢ done → Locked (settings_commit a')) × (a.settings_seen ≡ true → r ≢ done)
settings_set-Locked n cb a =
    rw (settings_set_key n cb (λ b. b) a) (settings_read-Locked a.settings_seen n cb a)
