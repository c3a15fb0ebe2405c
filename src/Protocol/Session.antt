-- ===== src/Protocol/Session.antt =====
-- A client with access between two frames of the management protocol: what the follow-up of the
-- authentication, the gate and the refresh of the session do for it.
use zmk_module_runtime_macro.Base.{
  ℕ, ◌+◌, ◌*◌, ◌<◌, ◌≡◌, refl, sym, ap, ◌∙◌, Bool, true, false, not, ◌&&◌, ◌||◌, ◌==◌,
  if◌then◌else◌, lt→ltb, ==_iff,
}
use zmk_module_runtime_macro.Config.{Config, eacces, err, Status, done}
use zmk_module_runtime_macro.Auth.State.{
  AuthState, state_open, state_protected, state_error_locked, Auth, expire_session, get_state,
}
use zmk_module_runtime_macro.Auth.Ops.{is_authenticated, is_protected, refresh_session}
use zmk_module_runtime_macro.Protocol.Frame.{Frame}
use zmk_module_runtime_macro.Protocol.State.{
  Core, differs, state_code, management_access, after_refresh, refresh_for,
  refresh_protected_session, session_of, note_auth, drop_transactions, sync_auth_state,
}
use zmk_module_runtime_macro.Protocol.Access.{
  opens_to, may_manage, management_access-granted, management_access-may_manage, grants,
  note_auth-auth,
}

-- Access at a time: the device is open, or it is protected and a session runs beyond the time.
pub data Live (now : ℕ) (a : Auth) : Type 0 where
  unlocked : a.state ≡ state_open → a.session_active ≡ false → Live now a
  in_session :
      a.state ≡ state_protected → a.session_active ≡ true → now < a.session_deadline_ms → Live now a

-- What the refresh of a session makes of the authentication.
unfoldable pub extended : Config → AuthState → ℕ → Auth → Auth
extended c state_open now a = a
extended c state_error_locked now a = a
extended c state_protected now a = record a { session_deadline_ms = now + c.session_timeout * 1000 }

-- The context has taken note of the authentication.
pub record Noted (k : Core) : Type 0 where
  pub known : k.protocol.auth_state_known ≡ true
  pub state : k.protocol.auth_state ≡ state_code k.auth.state
  pub session : k.protocol.auth_session_authenticated ≡ k.auth.session_active

module _ (now : ℕ) (a : Auth) where
  pub Live-fresh : Live now a → expire_session now a ≡ a
  unfolding expire_session
  Live-fresh (unlocked o none_active) = rw none_active
  Live-fresh (in_session p active lt) = rw (active, lt→ltb now a.session_deadline_ms lt)

  pub Live-may_manage : Live now a → may_manage now a ≡ true
  unfolding opens_to
  Live-may_manage (unlocked o none_active) = rw o
  Live-may_manage (in_session p active lt) = rw (p, active, lt→ltb now a.session_deadline_ms lt)

  get_state-Live : Live now a → get_state now a ≡ (a.state, a)
  unfolding get_state
  get_state-Live live = ap (λ (b : Auth). (b.state, b)) (Live-fresh live)

module _ (c : Config) (now : ℕ) where
  session_of-Live : (a : Auth) → Live now a → session_of c a.state now a ≡ (a.session_active, a)
  unfolding session_of is_authenticated
  session_of-Live a (unlocked o none_active) =
      ap (λ (s : AuthState). session_of c s now a) o ∙ ap (λ (b : Bool). (b, a)) (sym none_active)
  session_of-Live a (in_session p active lt) =
      ap (λ (s : AuthState). session_of c s now a) p
      ∙ ap (λ (b : Auth). (is_protected c b.state && b.session_active, b))
          (Live-fresh now a (in_session p active lt))
      ∙ ap (λ (s : AuthState). (is_protected c s && a.session_active, a)) p

  -- The follow-up takes note of the state and of the session, and changes nothing else of these.
  pub sync_auth_state-Live :
      (k : Core)
      → Live now k.auth
      → sync_auth_state c now k ≡ note_auth c now k.auth.state k.auth.session_active k
  unfolding sync_auth_state
  sync_auth_state-Live k live =
      ap
        (λ (x : AuthState × Auth).
          let q = session_of c x.0 now x.1 in note_auth c now x.0 q.0 (record k { auth = q.1 }))
        (get_state-Live now k.auth live)
      ∙ ap (λ (q : Bool × Auth). note_auth c now k.auth.state q.0 (record k { auth = q.1 }))
          (session_of-Live k.auth live)

  refresh_session-Live :
      (a : Auth)
      → Live now a
      → a.state ≡ state_protected
      → refresh_session c now a
        ≡ (done, record a { session_deadline_ms = now + c.session_timeout * 1000 })
  unfolding refresh_session
  refresh_session-Live a (unlocked o none_active) p = absurd cc
  refresh_session-Live a (in_session q active lt) p =
      ap
        (λ (b : Auth).
          if not (is_protected c b.state) || not b.session_active
          then (err eacces, b)
          else (done, record b { session_deadline_ms = now + c.session_timeout * 1000 }))
        (Live-fresh now a (in_session q active lt))
      ∙ simp (p, active)

  refresh_for-Live :
      (s : AuthState) (r : Frame) (k : Core)
      → s ≡ k.auth.state
      → Live now k.auth
      → refresh_for c s now r k ≡ (r, record k { auth = extended c s now k.auth })
  unfolding refresh_for after_refresh extended
  refresh_for-Live state_open r k same live = refl
  refresh_for-Live state_error_locked r k same live = refl
  refresh_for-Live state_protected r k same live =
      ap (λ (q : Status × Auth). after_refresh c q.0 now r (record k { auth = q.1 }))
        (refresh_session-Live k.auth live (sym same))

  pub refresh-Live :
      (r : Frame) (k : Core)
      → Live now k.auth
      → refresh_protected_session c now r k
        ≡ (r, record k { auth = extended c k.auth.state now k.auth })
  unfolding refresh_protected_session
  refresh-Live r k live =
      ap (λ (x : AuthState × Auth). refresh_for c x.0 now r (record k { auth = x.1 }))
        (get_state-Live now k.auth live)
      ∙ refresh_for-Live k.auth.state r k refl live

  pub management_access-Live :
      (k : Core)
      → Live now k.auth
      → (grants (management_access c now k) ≡ true) × ((management_access c now k).1 ≡ k)
  management_access-Live k live = (
    management_access-may_manage c now k ∙ Live-may_manage now k.auth live,
    management_access-granted c now k (Live-may_manage now k.auth live)
        ∙ ap (λ (a : Auth). record k { auth = a }) (Live-fresh now k.auth live),
  )

  -- What was noted once stays right, and is not noted as a change.
  pub note_auth-Noted :
      (k : Core) → Noted k → note_auth c now k.auth.state k.auth.session_active k ≡ k
  unfolding note_auth
  note_auth-Noted k noted =
      ap (λ (x : Core). noting code_now k.auth.session_active true x) unchanged
      ∙ ap (λ (b : Bool). noting code_now k.auth.session_active b k) (sym noted.known)
      ∙ ap (λ (b : Bool). noting code_now b k.protocol.auth_state_known k) (sym noted.session)
      ∙ ap (λ (n : ℕ). noting n k.protocol.auth_session_authenticated k.protocol.auth_state_known k)
          (sym noted.state)
    where
      code_now : ℕ
      code_now = state_code k.auth.state

      noting : ℕ → Bool → Bool → Core → Core
      noting n b known x = record x {
        protocol = record x.protocol {
          auth_state_known = known;
          auth_state = n;
          auth_session_authenticated = b;
        };
      }

      differs_self : (b : Bool) → differs b b ≡ false
      differs_self true = refl
      differs_self false = refl

      unchanged :
          (if k.protocol.auth_state_known
              && (not (k.protocol.auth_state == code_now)
                  || differs k.protocol.auth_session_authenticated k.auth.session_active)
            then drop_transactions c now k
            else k)
          ≡ k
      unchanged = rw (
        noted.known,
        (==_iff k.protocol.auth_state code_now).1 noted.state,
        noted.session,
        differs_self k.auth.session_active,
      )

  pub note_auth-notes : (k : Core) → Noted (note_auth c now k.auth.state k.auth.session_active k)
  note_auth-notes k = record {
    known = unfold note_auth in refl;
    state = unfold note_auth in ap (λ (a : Auth). state_code a.state) (sym same);
    session = unfold note_auth in ap (λ (a : Auth). a.session_active) (sym same);
  }
    where
      same : (note_auth c now k.auth.state k.auth.session_active k).auth ≡ k.auth
      same = note_auth-auth c now k.auth.state k.auth.session_active k
