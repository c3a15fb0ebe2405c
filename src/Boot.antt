-- ===== src/Boot.antt =====
-- The settings handler of runtime_macro.c as a whole, in a build with the management protocol: the
-- authentication looks at a setting first, and what it does not know goes to the slots.
use zmk_module_runtime_macro.Base.{ℕ, ◌≡◌, refl, ap, Option, none, some, List}
use zmk_module_runtime_macro.Config.{
  Config, einval, enoent, eio, ebusy, enospc, enodata, eperm, eagain, eacces, enodev, enotsup,
  other, ok, err, Status,
}
use zmk_module_runtime_macro.Slots.{Slots, SettingsCall, Backend}
use zmk_module_runtime_macro.Slots.Settings.{ReadCb, name_steq, load_setting, commit_defaults}
use zmk_module_runtime_macro.Slots.Restore.{slot_key}
use zmk_module_runtime_macro.Auth.State.{Auth}
use zmk_module_runtime_macro.Auth.Ops.{settings_set, settings_commit, is_credential_name}
use zmk_module_runtime_macro.Auth.Lockout.{credential_key}

module _ (c : Config) where
  -- By what the authentication returns: all but ENOENT ends the handler.
  unfoldable pub pass_on :
      Status → Option (List ℕ) → ℕ → ReadCb → Auth → Slots → Status × Auth × Slots
  unfolding load_setting
  pass_on (err enoent) name n cb a s = let (r, s') = load_setting c name n cb s in (r, a, s')
  pass_on r name n cb a s = (r, a, s)

  -- runtime_macro_settings_set; `meanwhile` is what other threads do to the authentication's state.
  unfoldable pub settings_handler :
      Option (List ℕ) → ℕ → ReadCb → (Auth → Auth) → Auth → Slots → Status × Auth × Slots
  unfolding pass_on settings_set
  settings_handler none n cb meanwhile a s = (err enoent, a, s)
  settings_handler (some name) n cb meanwhile a s =
      let (r, a') = settings_set (some name) n cb meanwhile a in pass_on r (some name) n cb a' s

  -- runtime_macro_settings_commit
  unfoldable pub commit_handler : Backend → Auth → Slots → List SettingsCall × Auth × Slots
  unfolding settings_commit commit_defaults
  commit_handler io a s = let (calls, s') = commit_defaults c io s in (calls, settings_commit a, s')

  credential_key-slots :
      (n : ℕ) (cb : ReadCb) (s : Slots)
      → load_setting c (some credential_key) n cb s ≡ (err enoent, s)
  unfolding load_setting name_steq
  credential_key-slots n cb s = refl

  pass_on-slots :
      (r : Status) (n : ℕ) (cb : ReadCb) (a : Auth) (s : Slots)
      → pass_on r (some credential_key) n cb a s ≡ (r, a, s)
  unfolding pass_on
  pass_on-slots (ok u) n cb a s = refl
  pass_on-slots (err enoent) n cb a s =
      ap (λ (x : Status × Slots). (x.0, a, x.1)) (credential_key-slots n cb s)
  pass_on-slots (err einval) n cb a s = refl
  pass_on-slots (err eio) n cb a s = refl
  pass_on-slots (err ebusy) n cb a s = refl
  pass_on-slots (err enospc) n cb a s = refl
  pass_on-slots (err enodata) n cb a s = refl
  pass_on-slots (err eperm) n cb a s = refl
  pass_on-slots (err eagain) n cb a s = refl
  pass_on-slots (err eacces) n cb a s = refl
  pass_on-slots (err enodev) n cb a s = refl
  pass_on-slots (err enotsup) n cb a s = refl
  pass_on-slots (err (other e)) n cb a s = refl

  slot_key-auth :
      (i n : ℕ) (cb : ReadCb) (meanwhile : Auth → Auth) (a : Auth)
      → settings_set (some (slot_key i)) n cb meanwhile a ≡ (err enoent, a)
  unfolding settings_set is_credential_name name_steq
  slot_key-auth i n cb meanwhile a = refl

  -- The settings of the slots and that of the credential do not touch each other: a slot's setting
  -- leaves the authentication as it is and does to the slots what loading it there does, and the
  -- credential's setting leaves the slots as they are, whatever its value and however it is read.
  pub settings_handler_separates :
      (i n : ℕ) (cb : ReadCb) (meanwhile : Auth → Auth) (a : Auth) (s : Slots)
      → (settings_handler (some (slot_key i)) n cb meanwhile a s ≡ (
        (load_setting c (some (slot_key i)) n cb s).0,
        a,
        (load_setting c (some (slot_key i)) n cb s).1,
      ))
        × (settings_handler (some credential_key) n cb meanwhile a s ≡ (
          (settings_set (some credential_key) n cb meanwhile a).0,
          (settings_set (some credential_key) n cb meanwhile a).1,
          s,
        ))
  unfolding settings_handler
  settings_handler_separates i n cb meanwhile a s = (
    ap (λ (x : Status × Auth). pass_on x.0 (some (slot_key i)) n cb x.1 s)
        (slot_key-auth i n cb meanwhile a),
    pass_on-slots (settings_set (some credential_key) n cb meanwhile a).0 n cb
        (settings_set (some credential_key) n cb meanwhile a).1 s,
  )
