-- ===== src/Protocol/Invariant/Access.antt =====
-- What comes before and after the handlers keeps the invariant of a context.
use zmk_module_runtime_macro.Base.{ℕ, Bool, true, false, if◌then◌else◌, Holds, Holds-if}
use zmk_module_runtime_macro.Config.{Config, ok, err, Status}
use zmk_module_runtime_macro.Auth.State.{
  AuthState, state_open, state_protected, state_error_locked, Auth,
}
use zmk_module_runtime_macro.Auth.Ops.{is_authenticated}
use zmk_module_runtime_macro.Protocol.Frame.{Frame, FrameStatus, status_ok, auth_required}
use zmk_module_runtime_macro.Protocol.State.{
  Core, discard, access_for, management_access, after_refresh, refresh_for,
  refresh_protected_session, drop_transactions, note_auth, sync_auth_state,
}
use zmk_module_runtime_macro.Protocol.Invariant.{
  CoreIsValid, clear_dynamic_built-CoreIsValid, discard-CoreIsValid, with_auth, set_dropped,
  password_dropped,
}

module _ (c : Config) where
  -- What comes before and after the handlers.
  access_for-CoreIsValid :
      (state : AuthState) (now : ℕ) (k : Core)
      → Holds (CoreIsValid c) k
      → Holds (CoreIsValid c) (access_for c state now k).1
  unfolding access_for
  access_for-CoreIsValid state_open now k h = h
  access_for-CoreIsValid state_error_locked now k h = discard-CoreIsValid c now k h
  access_for-CoreIsValid state_protected now k h =
      by_session q.0 (status_ok, k') (auth_required, discard c now k') (with_auth c q.1 k h)
        (discard-CoreIsValid c now k' (with_auth c q.1 k h))
    where
      q : Bool × Auth
      q = is_authenticated c now k.auth

      k' : Core
      k' = record k { auth = q.1 }

      by_session :
          (b : Bool) (x y : FrameStatus × Core)
          → Holds (CoreIsValid c) x.1
          → Holds (CoreIsValid c) y.1
          → Holds (CoreIsValid c) (if b then x else y).1
      by_session true x y hx hy = hx
      by_session false x y hx hy = hy

  pub management_access-CoreIsValid :
      (now : ℕ) (k : Core)
      → Holds (CoreIsValid c) k
      → Holds (CoreIsValid c) (management_access c now k).1
  unfolding management_access
  management_access-CoreIsValid now k h = access_for-CoreIsValid _ now _ (with_auth c _ k h)

  after_refresh-CoreIsValid :
      (a : Status) (now : ℕ) (r : Frame) (k : Core)
      → Holds (CoreIsValid c) k
      → Holds (CoreIsValid c) (after_refresh c a now r k).1
  unfolding after_refresh
  after_refresh-CoreIsValid (ok u) now r k h = h
  after_refresh-CoreIsValid (err e) now r k h = discard-CoreIsValid c now k h

  refresh_for-CoreIsValid :
      (state : AuthState) (now : ℕ) (r : Frame) (k : Core)
      → Holds (CoreIsValid c) k
      → Holds (CoreIsValid c) (refresh_for c state now r k).1
  unfolding refresh_for
  refresh_for-CoreIsValid state_open now r k h = h
  refresh_for-CoreIsValid state_error_locked now r k h = h
  refresh_for-CoreIsValid state_protected now r k h =
      after_refresh-CoreIsValid _ now r _ (with_auth c _ k h)

  pub refresh_protected_session-CoreIsValid :
      (now : ℕ) (r : Frame) (k : Core)
      → Holds (CoreIsValid c) k
      → Holds (CoreIsValid c) (refresh_protected_session c now r k).1
  unfolding refresh_protected_session
  refresh_protected_session-CoreIsValid now r k h =
      refresh_for-CoreIsValid _ now r _ (with_auth c _ k h)

  drop_transactions-CoreIsValid :
      (now : ℕ) (k : Core)
      → Holds (CoreIsValid c) k
      → Holds (CoreIsValid c) (drop_transactions c now k)
  unfolding drop_transactions
  drop_transactions-CoreIsValid now k h =
      clear_dynamic_built-CoreIsValid c now _ (password_dropped c _ (set_dropped c k h))

  note_auth-CoreIsValid :
      (now : ℕ) (state : AuthState) (session : Bool) (k : Core)
      → Holds (CoreIsValid c) k
      → Holds (CoreIsValid c) (note_auth c now state session k)
  unfolding note_auth
  note_auth-CoreIsValid now state session k h =
      noting _ _ _ _ (Holds-if _ _ _ (drop_transactions-CoreIsValid now k h) h)
    where
      noting :
          (known : Bool) (n : ℕ) (b : Bool) (x : Core)
          → Holds (CoreIsValid c) x
          → Holds (CoreIsValid c) (record x {
            protocol = record x.protocol {
              auth_state_known = known;
              auth_state = n;
              auth_session_authenticated = b;
            };
          })
      noting known n b x v = record {
        at = record {
          context = record {
            set = v.at.context.set;
            password = v.at.context.password;
            dynamic = v.at.context.dynamic;
          };
          store = v.at.store;
        };
      }

  pub sync_auth_state-CoreIsValid :
      (now : ℕ) (k : Core)
      → Holds (CoreIsValid c) k
      → Holds (CoreIsValid c) (sync_auth_state c now k)
  unfolding sync_auth_state
  sync_auth_state-CoreIsValid now k h = note_auth-CoreIsValid now _ _ _ (with_auth c _ k h)
