-- ===== src/Auth/Sessions.antt =====
-- Histories of the authentication: what opens a session.
use zmk_module_runtime_macro.Base.{
  ℕ, ◌≡◌, refl, ◌≢◌, ◌⊎◌, inl, inr, Bool, true, false, not, ◌||◌, Option, none, some, List, [], ◌∷◌,
  ◌++◌, arith, ltb, leb, ◌==◌, Bool-cases, length, get_or,
}
use zmk_module_runtime_macro.Config.{Config, Result, ok, err, Status, done}
use zmk_module_runtime_macro.Slots.Settings.{ReadCb}
use zmk_module_runtime_macro.Auth.State.{
  credential_is_valid, deserialize_credential, serialize_credential, credential_storage_size,
  credential_version, auth_setting_path, AuthState, state_open, state_protected, state_error_locked,
  Credential, Auth, nonce_size, proof_size, auth_domain, clear_transient, clear_challenge,
  clear_session, clear_failure, expire_session, cooldown_active, record_failure, get_info,
}
use zmk_module_runtime_macro.Auth.Ops.{
  Hmac, constant_time_equal, judge_proof, proof_for, verify_proof, challenge_for, store_challenge,
  generate_challenge, is_authenticated, refresh_session, is_protected, lock, transport_reset,
  settings_commit, settings_open, settings_accept, settings_value, settings_read, settings_set,
  is_credential_name, set_credential, update_gate, after_gate, after_save,
}

-- The events: each operation with its time and the answers of what it calls.
pub data AuthEvent : Type 0 where
  challenges : ℕ → ℕ → Result (List ℕ) → AuthEvent
  proves : ℕ → Option (List ℕ) → ℕ → AuthEvent
  asks : ℕ → AuthEvent
  informs : ℕ → AuthEvent
  refreshes : ℕ → AuthEvent
  credentials : ℕ → Option Credential → (List ℕ → List ℕ → Status) → AuthEvent
  locks resets commits : AuthEvent
  loads : Option (List ℕ) → ℕ → ReadCb → AuthEvent

-- A step opens no session.
abbrev Kept : Auth → Auth → Type 0
Kept a b = b.session_active ≡ true → a.session_active ≡ true

expire_session-Kept : (now : ℕ) (a : Auth) → Kept a (expire_session now a)
unfolding expire_session clear_challenge clear_session
expire_session-Kept now a h =
    elim (Bool-cases (not a.session_active || ltb now a.session_deadline_ms)) [
      | inl kept ↦ simp kept at h
      | inr over ↦ (let k : false ≡ true = simp over at h in cc)
    ]

clear_transient-Kept : (b : Bool) (a : Auth) (before : Auth) → Kept before (clear_transient b a)
unfolding clear_transient clear_challenge clear_session clear_failure
clear_transient-Kept true a before h = cc
clear_transient-Kept false a before h = cc

settings_accept-Kept : (g : ℕ) (cred : Credential) (a : Auth) → Kept a (settings_accept g cred a).1
unfolding settings_accept clear_challenge clear_session clear_failure
settings_accept-Kept g cred a h =
    elim (Bool-cases (not (a.settings_generation == g) || not a.settings_invalid)) [
      | inl stale ↦ simp stale at h
      | inr current ↦ (let k : false ≡ true = simp current at h in cc)
    ]

settings_value-Kept : (g : ℕ) (r : Result (List ℕ)) (a : Auth) → Kept a (settings_value g r a).1
unfolding settings_value
settings_value-Kept g (err e) a h = h
settings_value-Kept g (ok bytes) a h =
    elim (Bool-cases (
      not (length bytes == credential_storage_size)
      || not (get_or bytes 0 0 == credential_version))) [
        | inl bad ↦ simp bad at h
        | inr fine ↦ elim (Bool-cases (credential_is_valid (deserialize_credential bytes))) [
          | inr invalid ↦ simp (fine, invalid) at h
          | inl valid ↦
              settings_accept-Kept g (deserialize_credential bytes) a (simp (fine, valid) at h)
        ]
      ]

settings_read-Kept :
    (seen : Bool) (n : ℕ) (cb : ReadCb) (a : Auth) → Kept a (settings_read seen n cb (λ b. b) a).1
unfolding settings_read
settings_read-Kept seen n none a h = h
settings_read-Kept seen n (some read) a h =
    elim (Bool-cases (seen || not (n == credential_storage_size))) [
      | inl bad ↦ simp bad at h
      | inr fine ↦
          settings_value-Kept a.settings_generation (read credential_storage_size) a
            (simp fine at h)
    ]

settings_set-Kept :
    (name : Option (List ℕ)) (n : ℕ) (cb : ReadCb) (a : Auth)
    → Kept a (settings_set name n cb (λ b. b) a).1
unfolding settings_set
settings_set-Kept name n cb a h = elim (Bool-cases (is_credential_name name)) [
  | inr outside ↦ simp outside at h
  | inl inside ↦
      let closed : (settings_open a).session_active ≡ false = opened in
      let k : (settings_open a).session_active ≡ true =
        settings_read-Kept a.settings_seen n cb (settings_open a) (simp inside at h) in
      cc
]
  where
    opened : (settings_open a).session_active ≡ false
    opened = unfold settings_open clear_challenge clear_session clear_failure in refl

after_gate-Kept :
    (g : Status) (cred : Credential) (save : List ℕ → List ℕ → Status) (a : Auth)
    → Kept a (after_gate g cred save (λ b. b) a).2
unfolding after_gate after_save clear_challenge clear_session clear_failure
after_gate-Kept (err e) cred save a h = h
after_gate-Kept (ok u) cred save a h =
    after_save-Kept (save auth_setting_path (serialize_credential cred)) h
  where
    after_save-Kept : (r : Status) → Kept a (after_save cred r a).1
    after_save-Kept (err e) k = k
    after_save-Kept (ok v) k = cc

set_credential-Kept :
    (now : ℕ) (cred : Option Credential) (save : List ℕ → List ℕ → Status) (a : Auth)
    → Kept a (set_credential now cred save (λ b. b) a).2
unfolding set_credential
set_credential-Kept now none save a h = h
set_credential-Kept now (some cred) save a h = elim (Bool-cases (credential_is_valid cred)) [
  | inr invalid ↦ simp invalid at h
  | inl valid ↦
      let b = expire_session now a in
      expire_session-Kept now a
        (after_gate-Kept (update_gate b.state b.session_active) cred save b (simp valid at h))
]

module _ (c : Config) (hmac : Hmac) where
  challenge_for-Kept :
      (s : AuthState) (now : ℕ) (random : Result (List ℕ)) (a : Auth)
      → Kept a (challenge_for c s now random a).1
  unfolding challenge_for store_challenge clear_challenge
  challenge_for-Kept state_open now random a h = h
  challenge_for-Kept state_error_locked now random a h = h
  challenge_for-Kept state_protected now random a h = elim (Bool-cases (cooldown_active now a)) [
    | inl wait ↦ simp wait at h
    | inr free ↦ store_challenge-Kept random (simp free at h)
  ]
    where
      store_challenge-Kept :
          (r : Result (List ℕ)) → Kept a (store_challenge c now r (clear_challenge a)).1
      store_challenge-Kept (err e) k = k
      store_challenge-Kept (ok nonce) k = k

  generate_challenge-Kept :
      (now size : ℕ) (random : Result (List ℕ)) (a : Auth)
      → Kept a (generate_challenge c now size random a).1
  unfolding generate_challenge
  generate_challenge-Kept now size random a h = elim (Bool-cases (size == nonce_size)) [
    | inr bad ↦ simp bad at h
    | inl fine ↦
        let b = expire_session now a in
        expire_session-Kept now a (challenge_for-Kept b.state now random b (simp fine at h))
  ]

  judge_proof-Kept :
      (now : ℕ) (proof : List ℕ) (r : Result (List ℕ)) (a : Auth)
      → (judge_proof c now proof r a).0 ≢ done
      → Kept a (judge_proof c now proof r a).1
  unfolding judge_proof record_failure
  judge_proof-Kept now proof (err e) a ne h = h
  judge_proof-Kept now proof (ok expected) a ne h =
      elim (Bool-cases (constant_time_equal expected proof proof_size)) [
        | inl same ↦ absurd (ne (simp same))
        | inr differ ↦ simp differ at h
      ]

  proof_for-Kept :
      (s : AuthState) (now : ℕ) (proof : List ℕ) (a : Auth)
      → (proof_for c s hmac now proof a).0 ≢ done
      → Kept a (proof_for c s hmac now proof a).1
  unfolding proof_for clear_challenge clear_session
  proof_for-Kept state_open now proof a ne h = h
  proof_for-Kept state_error_locked now proof a ne h = h
  proof_for-Kept state_protected now proof a ne h =
      elim (Bool-cases (not a.challenge_active || leb a.challenge_deadline_ms now)) [
        | inl stale ↦ simp stale at h
        | inr fresh ↦
            (let k : false ≡ true =
                judge_proof-Kept now proof (hmac a.credential.key (auth_domain ++ a.challenge))
                  (clear_session (clear_challenge a)) (simp fresh at ne) (simp fresh at h) in
              cc)
      ]

  verify_proof-Kept :
      (now : ℕ) (proof : Option (List ℕ)) (size : ℕ) (a : Auth)
      → (verify_proof c hmac now proof size a).0 ≢ done
      → Kept a (verify_proof c hmac now proof size a).1
  unfolding verify_proof
  verify_proof-Kept now none size a ne h = h
  verify_proof-Kept now (some proof) size a ne h = elim (Bool-cases (size == proof_size)) [
    | inr bad ↦ simp bad at h
    | inl fine ↦
        let b = expire_session now a in
        expire_session-Kept now a
          (proof_for-Kept b.state now proof b (simp fine at ne) (simp fine at h))
  ]

  refresh_session-Kept : (now : ℕ) (a : Auth) → Kept a (refresh_session c now a).1
  unfolding refresh_session
  refresh_session-Kept now a h =
      let b = expire_session now a in
      elim (Bool-cases (not (is_protected c b.state) || not b.session_active)) [
        | inl refused ↦ expire_session-Kept now a (simp refused at h)
        | inr kept ↦ expire_session-Kept now a (ground arith)
      ]

  commit-Kept : (a : Auth) → Kept a (settings_commit a)
  unfolding settings_commit clear_challenge clear_session clear_failure
  commit-Kept a h = elim (Bool-cases a.settings_seen) [
    | inr unseen ↦ (let k : false ≡ true = simp unseen at h in cc)
    | inl seen ↦ elim (Bool-cases a.settings_invalid) [
      | inl bad ↦ (let k : false ≡ true = simp (seen, bad) at h in cc)
      | inr good ↦ simp (seen, good) at h
    ]
  ]

  unfoldable pub auth_step : AuthEvent → Auth → Auth
  unfolding generate_challenge verify_proof is_authenticated get_info refresh_session set_credential
      lock transport_reset settings_commit settings_set
  auth_step (challenges now size random) a = (generate_challenge c now size random a).1
  auth_step (proves now proof size) a = (verify_proof c hmac now proof size a).1
  auth_step (asks now) a = (is_authenticated c now a).1
  auth_step (informs now) a = (get_info now a).1
  auth_step (refreshes now) a = (refresh_session c now a).1
  auth_step (credentials now cred save) a = (set_credential now cred save (λ b. b) a).2
  auth_step locks a = lock a
  auth_step resets a = transport_reset a
  auth_step commits a = settings_commit a
  auth_step (loads name n cb) a = (settings_set name n cb (λ b. b) a).1

  unfoldable pub auth_run : List AuthEvent → Auth → Auth
  unfolding auth_step
  auth_run [] a = a
  auth_run (e ∷ es) a = auth_run es (auth_step e a)

  -- The event is a proof that is accepted.
  pub Opens : AuthEvent → Auth → Type 0
  Opens (proves now proof size) a = (verify_proof c hmac now proof size a).0 ≡ done
  Opens _ a = ⊥

  -- Some proof of the history is accepted.
  pub ProofAccepted : List AuthEvent → Auth → Type 0
  ProofAccepted [] a = ⊥
  ProofAccepted (e ∷ es) a = Opens e a ⊎ ProofAccepted es (auth_step e a)

  done_or_not : (r : Status) → (r ≡ done) ⊎ (r ≢ done)
  done_or_not (ok u) = inl refl
  done_or_not (err e) = inr (λ h. cc)

  auth_step-Kept : (e : AuthEvent) (a : Auth) → Opens e a ⊎ Kept a (auth_step e a)
  unfolding auth_step Opens is_authenticated get_info lock transport_reset clear_transient
      clear_challenge clear_session clear_failure
  auth_step-Kept (challenges now size random) a = inr (generate_challenge-Kept now size random a)
  auth_step-Kept (proves now proof size) a =
      elim (done_or_not (verify_proof c hmac now proof size a).0) [
        | inl d ↦ inl d
        | inr ne ↦ inr (verify_proof-Kept now proof size a ne)
      ]
  auth_step-Kept (asks now) a = inr (expire_session-Kept now a)
  auth_step-Kept (informs now) a = inr (expire_session-Kept now a)
  auth_step-Kept (refreshes now) a = inr (refresh_session-Kept now a)
  auth_step-Kept (credentials now cred save) a = inr (set_credential-Kept now cred save a)
  auth_step-Kept locks a = inr (λ h. cc)
  auth_step-Kept resets a = inr (λ h. cc)
  auth_step-Kept commits a = inr (commit-Kept a)
  auth_step-Kept (loads name n cb) a = inr (settings_set-Kept name n cb a)

  -- Only a proof opens a session: a history that begins with no session and ends with one contains a
  -- proof that was accepted, whatever else it contains.
  pub session_needs_proof :
      (es : List AuthEvent) (a : Auth)
      → a.session_active ≡ false
      → (auth_run es a).session_active ≡ true
      → ProofAccepted es a
  unfolding auth_run ProofAccepted
  session_needs_proof [] a off on = cc
  session_needs_proof (e ∷ es) a off on = elim (auth_step-Kept e a) [
    | inl opened ↦ inl opened
    | inr kept ↦ elim (Bool-cases (auth_step e a).session_active) [
      | inl already ↦ (let k : a.session_active ≡ true = kept already in cc)
      | inr still ↦ inr (session_needs_proof es (auth_step e a) still on)
    ]
  ]
