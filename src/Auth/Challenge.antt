-- ===== src/Auth/Challenge.antt =====
-- The challenge between two proofs: no operation but zmk_runtime_macro_auth_generate_challenge makes
-- one active.
use zmk_module_runtime_macro.Base.{
  ℕ, ◌≡◌, refl, ◌≢◌, inl, inr, Bool, false, not, ◌||◌, Option, none, some, List, [], ◌∷◌, ◌++◌,
  arith, ◌==◌, Bool-cases, length, get_or,
}
use zmk_module_runtime_macro.Config.{Config, Result, ok, err, Status, done}
use zmk_module_runtime_macro.Slots.Settings.{ReadCb}
use zmk_module_runtime_macro.Auth.State.{
  credential_is_valid, deserialize_credential, serialize_credential, credential_storage_size,
  credential_version, auth_setting_path, AuthState, state_open, state_protected, state_error_locked,
  Credential, Auth, proof_size, auth_domain, clear_transient, clear_challenge, clear_session,
  clear_failure, expire_session, record_failure, get_info,
}
use zmk_module_runtime_macro.Auth.Ops.{
  Hmac, judge_proof, proof_for, verify_proof, is_authenticated, refresh_session, lock,
  transport_reset, settings_commit, settings_open, settings_accept, settings_value, settings_read,
  settings_set, set_credential, update_gate, after_gate, after_save,
}
use zmk_module_runtime_macro.Base.{All}
use zmk_module_runtime_macro.Auth.Proof.{
  expire_session-challenge, verify_proof-challenge, no_challenge,
}
use zmk_module_runtime_macro.Auth.Sessions.{
  AuthEvent, challenges, proves, asks, informs, refreshes, credentials, locks, resets, commits,
  loads, auth_step, auth_run,
}

-- No challenge is active.
abbrev Unchallenged : Auth → Type 0
Unchallenged a = a.challenge_active ≡ false

settings_accept-Unchallenged :
    (g : ℕ) (cred : Credential) (a : Auth)
    → Unchallenged a
    → Unchallenged (settings_accept g cred a).1
unfolding settings_accept clear_challenge clear_session clear_failure
settings_accept-Unchallenged g cred a h = ground arith

settings_value-Unchallenged :
    (g : ℕ) (r : Result (List ℕ)) (a : Auth)
    → Unchallenged a
    → Unchallenged (settings_value g r a).1
unfolding settings_value
settings_value-Unchallenged g (err e) a h = h
settings_value-Unchallenged g (ok bytes) a h =
    elim (Bool-cases (
      not (length bytes == credential_storage_size)
      || not (get_or bytes 0 0 == credential_version))) [
        | inl bad ↦ simp bad h
        | inr fine ↦ elim (Bool-cases (credential_is_valid (deserialize_credential bytes))) [
          | inr invalid ↦ simp (fine, invalid) h
          | inl valid ↦
              simp (fine, valid) (settings_accept-Unchallenged g (deserialize_credential bytes) a h)
        ]
      ]

settings_read-Unchallenged :
    (seen : Bool) (n : ℕ) (cb : ReadCb) (a : Auth)
    → Unchallenged a
    → Unchallenged (settings_read seen n cb (λ b. b) a).1
unfolding settings_read
settings_read-Unchallenged seen n none a h = h
settings_read-Unchallenged seen n (some read) a h =
    ground
      (arith, settings_value-Unchallenged a.settings_generation (read credential_storage_size) a h)

settings_set-Unchallenged :
    (name : Option (List ℕ)) (n : ℕ) (cb : ReadCb) (a : Auth)
    → Unchallenged a
    → Unchallenged (settings_set name n cb (λ b. b) a).1
unfolding settings_set
settings_set-Unchallenged name n cb a h = ground (
  arith,
  settings_read-Unchallenged a.settings_seen n cb (settings_open a)
      (unfold settings_open clear_challenge clear_session clear_failure in refl),
)

set_credential-Unchallenged :
    (now : ℕ) (cred : Option Credential) (save : List ℕ → List ℕ → Status) (a : Auth)
    → Unchallenged a
    → Unchallenged (set_credential now cred save (λ b. b) a).2
unfolding set_credential
set_credential-Unchallenged now none save a h = h
set_credential-Unchallenged now (some cred) save a h =
    let b = expire_session now a in ground (arith, gated (update_gate b.state b.session_active))
  where
    saved : (r : Status) → Unchallenged (after_save cred r (expire_session now a)).1
    saved (err e) = expire_session-challenge now a h
    saved (ok u) = unfold after_save clear_challenge clear_session clear_failure in refl

    gated : (g : Status) → Unchallenged (after_gate g cred save (λ b. b) (expire_session now a)).2
    gated (err e) = unfold after_gate in expire_session-challenge now a h
    gated (ok u) = unfold after_gate in saved (save auth_setting_path (serialize_credential cred))

commit-Unchallenged : (a : Auth) → Unchallenged a → Unchallenged (settings_commit a)
unfolding settings_commit clear_challenge clear_session clear_failure
commit-Unchallenged a h = ground arith

-- Every operation but that which generates a challenge.
abbrev pub AsksNothing : AuthEvent → Type 0
AsksNothing (challenges now size random) = ⊥
AsksNothing _ = Unit

module _ (c : Config) (hmac : Hmac) where
  judge_proof-Unchallenged :
      (now : ℕ) (proof : List ℕ) (r : Result (List ℕ)) (a : Auth)
      → Unchallenged a
      → Unchallenged (judge_proof c now proof r a).1
  unfolding judge_proof record_failure clear_failure
  judge_proof-Unchallenged now proof (err e) a h = h
  judge_proof-Unchallenged now proof (ok expected) a h = ground arith

  verify_proof-Unchallenged :
      (now : ℕ) (proof : Option (List ℕ)) (size : ℕ) (a : Auth)
      → Unchallenged a
      → Unchallenged (verify_proof c hmac now proof size a).1
  unfolding verify_proof
  verify_proof-Unchallenged now none size a h = h
  verify_proof-Unchallenged now (some proof) size a h =
      let b = expire_session now a in
      ground (arith, proven b.state b (expire_session-challenge now a h))
    where
      proven :
          (s : AuthState) (b : Auth)
          → Unchallenged b
          → Unchallenged (proof_for c s hmac now proof b).1
      proven state_open b k = unfold proof_for in k
      proven state_error_locked b k = unfold proof_for in k
      proven state_protected b k =
          unfold proof_for in
          ground (
            arith,
            judge_proof-Unchallenged now proof (hmac b.credential.key (auth_domain ++ b.challenge))
                (clear_session (clear_challenge b)) (unfold clear_session clear_challenge in refl),
          )

  auth_step-Unchallenged :
      (e : AuthEvent) (a : Auth)
      → AsksNothing e
      → Unchallenged a
      → Unchallenged (auth_step c hmac e a)
  unfolding auth_step is_authenticated get_info refresh_session lock transport_reset clear_transient
      clear_challenge clear_session clear_failure
  auth_step-Unchallenged (challenges now size random) a free h = absurd free
  auth_step-Unchallenged (proves now proof size) a free h =
      verify_proof-Unchallenged now proof size a h
  auth_step-Unchallenged (asks now) a free h = expire_session-challenge now a h
  auth_step-Unchallenged (informs now) a free h = expire_session-challenge now a h
  auth_step-Unchallenged (refreshes now) a free h = ground (arith, expire_session-challenge now a h)
  auth_step-Unchallenged (credentials now cred save) a free h =
      set_credential-Unchallenged now cred save a h
  auth_step-Unchallenged locks a free h = refl
  auth_step-Unchallenged resets a free h = refl
  auth_step-Unchallenged commits a free h = commit-Unchallenged a h
  auth_step-Unchallenged (loads name n cb) a free h = settings_set-Unchallenged name n cb a h

  auth_run-Unchallenged :
      (es : List AuthEvent) (a : Auth)
      → All AsksNothing es
      → Unchallenged a
      → Unchallenged (auth_run c hmac es a)
  unfolding auth_run
  auth_run-Unchallenged [] a free h = h
  auth_run-Unchallenged (e ∷ es) a free h =
      auth_run-Unchallenged es _ free.1 (auth_step-Unchallenged e a free.0 h)

  -- On a protected device every proof of the right size, accepted or not, uses up the challenge:
  -- whatever operations follow, at whatever times, no further proof is accepted as long as none of
  -- them generates another challenge.
  pub verify_proof_once :
      (now : ℕ) (proof : List ℕ) (a : Auth) (es : List AuthEvent)
      → a.state ≡ state_protected
      → All AsksNothing es
      → (later : ℕ) (again : Option (List ℕ)) (size : ℕ)
      → (verify_proof c hmac later again size
          (auth_run c hmac es (verify_proof c hmac now (some proof) proof_size a).1)).0
        ≢ done
  verify_proof_once now proof a es e free later again size =
      no_challenge c hmac later again size _
        (auth_run-Unchallenged es _ free (verify_proof-challenge c hmac now proof a e))
