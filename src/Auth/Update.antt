-- ===== src/Auth/Update.antt =====
-- Changing the credential: who may, and that nothing changes unless it was saved first.
use zmk_module_runtime_macro.Base.{
  ℕ, ◌≡◌, refl, ap, ap₂, ◌∙◌, ◌⊎◌, inl, inr, Bool, true, false, some, List, [], ◌∷◌, sym,
}
use zmk_module_runtime_macro.Config.{Errno, eperm, eacces, ok, err, Status, done}
use zmk_module_runtime_macro.Auth.State.{
  credential_storage_size, AuthState, state_open, state_protected, state_error_locked, Credential,
  Auth, auth_setting_path, credential_is_valid, serialize_credential, clear_challenge,
  clear_session, clear_failure, expire_session,
}
use zmk_module_runtime_macro.Auth.Ops.{
  settings_set, settings_commit, set_credential, update_gate, after_gate, after_save,
  store_credential,
}
use zmk_module_runtime_macro.Auth.Lockout.{Fresh, credential_key, settings_set-restores}
use zmk_module_runtime_macro.Auth.Storage.{IsCredential}
use zmk_module_runtime_macro.Slots.{SettingsCall, saves}

-- An open device, or a protected one with a session.
abbrev pub MayUpdate : Auth → Type 0
MayUpdate a = (a.state ≡ state_open) ⊎ ((a.state ≡ state_protected) × (a.session_active ≡ true))

update_gate_allows :
    (s : AuthState) (session : Bool)
    → (s ≡ state_open) ⊎ ((s ≡ state_protected) × (session ≡ true))
    → update_gate s session ≡ done
unfolding update_gate
update_gate_allows s session (inl e) = rw e
update_gate_allows s session (inr (e, on)) = rw (e, on)

set_credential-gate :
    (now : ℕ) (cred : Credential) (save : List ℕ → List ℕ → Status) (meanwhile : Auth → Auth)
    (a : Auth)
    → credential_is_valid cred ≡ true
    → let b = expire_session now a in
      set_credential now (some cred) save meanwhile a
      ≡ after_gate (update_gate b.state b.session_active) cred save meanwhile b
unfolding set_credential
set_credential-gate now cred save meanwhile a valid = simp valid

-- The value, loaded as the first credential setting of a boot, protects the device with the credential.
abbrev pub Restores : Auth → Credential → List ℕ → Type 0
Restores boot cred value =
    let (r, a) =
      settings_set (some credential_key) credential_storage_size (some (λ n. ok value)) (λ b. b)
        boot in
    (r ≡ done) × Fresh cred (settings_commit a)

-- Setting a valid credential: a locked device answers EPERM and a protected one with no session
-- EACCES, with no call of the settings library and no other change than that of an expired session.
-- Otherwise the library is asked once, to save a value under the path of the credential, and its
-- answer is the result. On an error the call changes nothing itself. On a success the device is
-- protected with the credential, with no session, challenge or failure left, whatever other threads do
-- meanwhile, and the value that was saved, as the first credential setting of a later boot, protects it with
-- the same credential.
pub set_credential_saves_first :
    (now : ℕ) (cred : Credential) (save : List ℕ → List ℕ → Status) (meanwhile : Auth → Auth)
    (a boot : Auth)
    → IsCredential cred
    → credential_is_valid cred ≡ true
    → boot.settings_seen ≡ false
    → let b = expire_session now a in
      let out = set_credential now (some cred) save meanwhile a in
      (b.state ≡ state_error_locked → out ≡ (err eperm, [], b))
      × (b.state ≡ state_protected → b.session_active ≡ false → out ≡ (err eacces, [], b))
      × (MayUpdate b
          → (value : List ℕ) × (out.1 ≡ saves auth_setting_path value ∷ [])
            × (out.0 ≡ save auth_setting_path value)
            × Restores boot cred value)
      × ((e : Errno) → MayUpdate b → out.0 ≡ err e → out.2 ≡ meanwhile b)
      × (MayUpdate b → out.0 ≡ done → Fresh cred out.2)
set_credential_saves_first now cred save meanwhile a boot k valid first =
    (locked, closed, asked, failing, stored)
  where
    b : Auth
    b = expire_session now a

    out : Status × List SettingsCall × Auth
    out = set_credential now (some cred) save meanwhile a

    answer : Status
    answer = save auth_setting_path (serialize_credential cred)

    gate : Status → Status × List SettingsCall × Auth
    gate g = after_gate g cred save meanwhile b

    entered : out ≡ gate (update_gate b.state b.session_active)
    entered = set_credential-gate now cred save meanwhile a valid

    locked : b.state ≡ state_error_locked → out ≡ (err eperm, [], b)
    locked e =
        entered
        ∙ ap (λ s. gate (update_gate s b.session_active)) e
        ∙ unfold update_gate after_gate in refl

    closed : b.state ≡ state_protected → b.session_active ≡ false → out ≡ (err eacces, [], b)
    closed e off =
        entered
        ∙ ap₂ (λ s on. gate (update_gate s on)) e off
        ∙ unfold update_gate after_gate in refl

    may_save : MayUpdate b → out ≡ gate done
    may_save may = entered ∙ ap gate (update_gate_allows b.state b.session_active may)

    answers : (r : Status) → (after_save cred r (meanwhile b)).0 ≡ r
    answers (ok u) = unfold after_save in refl
    answers (err e) = unfold after_save in refl

    answered : MayUpdate b → out.0 ≡ answer
    answered may = rw (may_save may) (unfold after_gate in answers answer)

    asked :
        MayUpdate b
        → (value : List ℕ) × (out.1 ≡ saves auth_setting_path value ∷ [])
          × (out.0 ≡ save auth_setting_path value)
          × Restores boot cred value
    asked may = (
      serialize_credential cred,
      rw (may_save may) (unfold after_gate in refl),
      answered may,
      settings_set-restores cred (λ n. ok (serialize_credential cred)) boot k valid first refl,
    )

    left : MayUpdate b → out.2 ≡ (after_save cred answer (meanwhile b)).1
    left may = rw (may_save may) (unfold after_gate in refl)

    failing : (e : Errno) → MayUpdate b → out.0 ≡ err e → out.2 ≡ meanwhile b
    failing e may failed =
        left may
        ∙ ap (λ r. (after_save cred r (meanwhile b)).1) (sym (answered may) ∙ failed)
        ∙ unfold after_save in refl

    stored : MayUpdate b → out.0 ≡ done → Fresh cred out.2
    stored may good =
        rw (left may ∙ ap (λ r. (after_save cred r (meanwhile b)).1) (sym (answered may) ∙ good)) (
          unfold after_save store_credential clear_challenge clear_session clear_failure in
          record {
            state = refl;
            credential = refl;
            session = refl;
            challenge = refl;
            failures = refl;
          })
