-- ===== src/Protocol/Access.antt =====
-- runtime_macro_protocol_management_access and what comes before it: who may use the management
-- commands at a time, said of the authentication alone.
use zmk_module_runtime_macro.Base.{
  ℕ, ◌≡◌, refl, sym, ap, ap₂, ◌∙◌, Bool, true, false, ◌&&◌, arith, ltb, ◌==◌, if◌then◌else◌,
  if_field,
}
use zmk_module_runtime_macro.Config.{Config}
use zmk_module_runtime_macro.Auth.State.{
  AuthState, state_open, state_protected, state_error_locked, Auth, expire_session, clear_challenge,
  clear_session, get_state,
}
use zmk_module_runtime_macro.Auth.Ops.{is_authenticated}
use zmk_module_runtime_macro.Protocol.Frame.{FrameStatus, status_code, status_ok, auth_required}
use zmk_module_runtime_macro.Protocol.State.{
  Core, access_for, management_access, session_of, note_auth, drop_transactions, sync_auth_state,
  clear_dynamic, clear_dynamic_built, release_timeout, discard,
}

-- The management commands are for everyone on an open device, for the holder of a session that has
-- not run out on a protected one, and for no one in the error state.
unfoldable pub opens_to : AuthState → Bool → Bool
opens_to state_open session = true
opens_to state_protected session = session
opens_to state_error_locked session = false

abbrev pub may_manage : ℕ → Auth → Bool
may_manage now a = opens_to a.state (a.session_active && ltb now a.session_deadline_ms)

expire_session-state : (now : ℕ) (a : Auth) → (expire_session now a).state ≡ a.state
unfolding expire_session clear_challenge clear_session
expire_session-state now a = ground arith

expire_session-session_active :
    (now : ℕ) (a : Auth)
    → (expire_session now a).session_active ≡ (a.session_active && ltb now a.session_deadline_ms)
unfolding expire_session clear_challenge clear_session
expire_session-session_active now a = ground arith

now_manages :
    (now : ℕ) (a : Auth)
    → opens_to (expire_session now a).state (expire_session now a).session_active ≡ may_manage now a
now_manages now a = ap₂ opens_to (expire_session-state now a) (expire_session-session_active now a)

pub expire_session_idem :
    (now : ℕ) (a : Auth) → expire_session now (expire_session now a) ≡ expire_session now a
unfolding expire_session clear_challenge clear_session
expire_session_idem now a = ground arith

-- A session that has run out gives no access, whether that was noticed or not.
pub expire_session-may_manage :
    (now : ℕ) (a : Auth) → may_manage now (expire_session now a) ≡ may_manage now a
expire_session-may_manage now a =
    sym (now_manages now (expire_session now a))
    ∙ ap (λ (b : Auth). opens_to b.state b.session_active) (expire_session_idem now a)
    ∙ now_manages now a

-- Whether a result of the gate lets the request in.
abbrev pub grants : FrameStatus × Core → Bool
grants x = status_code x.0 == 0

grants-if :
    (b : Bool) (x y : FrameStatus × Core)
    → grants x ≡ true
    → grants y ≡ false
    → grants (if b then x else y) ≡ b
grants-if true x y p q = p
grants-if false x y p q = q

taken-if :
    (b : Bool) (x y : FrameStatus × Core) (z : Core)
    → x.1 ≡ z
    → grants y ≡ false
    → grants (if b then x else y) ≡ true
    → (if b then x else y).1 ≡ z
taken-if true x y z e q p = e
taken-if false x y z e q p = cc

module _ (c : Config) where
  -- Forgetting transactions leaves the authentication alone.
  pub clear_dynamic_built-auth : (now : ℕ) (k : Core) → (clear_dynamic_built c now k).auth ≡ k.auth
  unfolding clear_dynamic_built clear_dynamic release_timeout
  clear_dynamic_built-auth now k = ground arith

  pub note_auth-auth :
      (now : ℕ) (state : AuthState) (session : Bool) (k : Core)
      → (note_auth c now state session k).auth ≡ k.auth
  unfolding note_auth drop_transactions
  note_auth-auth now state session k =
      if_field (λ (x : Core). x.auth) _ _ _ _ (clear_dynamic_built-auth now _) refl

  session_of-auth :
      (state : AuthState) (now : ℕ) (a : Auth)
      → expire_session now a ≡ a
      → (session_of c state now a).1 ≡ a
  unfolding session_of is_authenticated
  session_of-auth state_open now a fresh = refl
  session_of-auth state_error_locked now a fresh = refl
  session_of-auth state_protected now a fresh = fresh

  -- The follow-up of the authentication's state only lets a session run out.
  pub sync_auth_state-auth :
      (now : ℕ) (k : Core) → (sync_auth_state c now k).auth ≡ expire_session now k.auth
  unfolding sync_auth_state get_state
  sync_auth_state-auth now k =
      note_auth-auth now _ _ _
      ∙ session_of-auth _ now (expire_session now k.auth) (expire_session_idem now k.auth)

  access_for-code :
      (state : AuthState) (now : ℕ) (k : Core)
      → expire_session now k.auth ≡ k.auth
      → state ≡ k.auth.state
      → grants (access_for c state now k) ≡ opens_to state k.auth.session_active
  unfolding access_for status_code is_authenticated opens_to
  access_for-code state_open now k fresh same = refl
  access_for-code state_error_locked now k fresh same = refl
  access_for-code state_protected now k fresh same =
      rw (fresh, sym same) (grants-if k.auth.session_active _ _ refl refl)

  -- Where access is granted, the query only lets a session run out.
  access_for-granted :
      (state : AuthState) (now : ℕ) (k : Core)
      → expire_session now k.auth ≡ k.auth
      → grants (access_for c state now k) ≡ true
      → (access_for c state now k).1 ≡ k
  unfolding access_for status_code is_authenticated
  access_for-granted state_open now k fresh g = refl
  access_for-granted state_error_locked now k fresh g = cc
  access_for-granted state_protected now k fresh g =
      taken-if q.0 (status_ok, k') (auth_required, discard c now k') k
        (ap (λ a. record k { auth = a }) fresh) refl g
    where
      q : Bool × Auth
      q = is_authenticated c now k.auth

      k' : Core
      k' = record k { auth = q.1 }

  -- Access is granted exactly to those who may manage.
  pub management_access-may_manage :
      (now : ℕ) (k : Core) → grants (management_access c now k) ≡ may_manage now k.auth
  unfolding management_access get_state
  management_access-may_manage now k =
      access_for-code _ now _ (expire_session_idem now k.auth) refl ∙ now_manages now k.auth

  -- Where it is granted, nothing changes but a session that has run out.
  pub management_access-granted :
      (now : ℕ) (k : Core)
      → may_manage now k.auth ≡ true
      → (management_access c now k).1 ≡ record k { auth = expire_session now k.auth }
  unfolding management_access get_state
  management_access-granted now k may =
      access_for-granted _ now _ (expire_session_idem now k.auth)
        (management_access-may_manage now k ∙ may)
