-- ===== src/Protocol/Gate.antt =====
-- The gate of the management commands in zmk_runtime_macro_protocol_process: what a client learns and
-- changes without access. Two runs that differ in the static slots alone are compared.
mod Kept
use zmk_module_runtime_macro.Base.{
  ℕ, zero, suc, ◌+◌, ◌-◌, ◌*◌, ◌/◌, ◌%◌, ◌^◌, ◌≤◌, ◌<◌, min, ◌≡◌, refl, sym, ap, ap₂, ◌∙◌, fun_ext,
  ◌≢◌, ◌↔◌, ◌⊎◌, inl, inr, Bool, true, false, not, ◌&&◌, ◌||◌, Option, none, some, List, [], ◌∷◌,
  ◌++◌, map, append-nil, append_assoc, arith, ltb, leb, ◌==◌, if◌then◌else◌, ltb→lt, lt→ltb, leb→le,
  le→leb, leb-false, ltb-false, ==_false, ==_iff, tests, Bool-cases, if_field, Holds, Holds-if,
  Option-cases, length, get_or, take, drop, replicate, length-append, length-take_of_le,
  length-drop, length-replicate, take-append, take-length, drop-append, get_or-take, All,
  All-append, All-take, bytes_equal, bytes_equal→eq, bytes_equal_refl, update, all_below,
  all_below_sound, codes, decimal_from, decimal, write_at, zeros, length-write_at, take-write_at,
  get_or-write_at_below, get_or-write_at_self, take-write_at_below,
}
use zmk_module_runtime_macro.Config.{
  Config, InRange, dynamic_max_text_len, executor_max_text_len, Errno, einval, enoent, eio, ebusy,
  enospc, enodata, eperm, eagain, eacces, enodev, enotsup, other, Result, ok, err, Status, done,
}
use zmk_module_runtime_macro.Slots.{Slots}
use zmk_module_runtime_macro.Auth.State.{
  AuthState, state_open, state_protected, state_error_locked, Credential, Auth, expire_session,
  get_state,
}
use zmk_module_runtime_macro.Auth.Ops.{is_authenticated}
use zmk_module_runtime_macro.Protocol.Frame.{
  Frame, protocol_version, FrameStatus, bad_version, known_opcode, set_error_frame, init_response,
  Opcode, op_list, op_get, op_set, op_clear, op_auth_info, op_auth_challenge, op_auth_prove,
  op_password_set, op_lock, op_dynamic_begin, op_dynamic_data, op_dynamic_clear, op_capabilities,
}
use zmk_module_runtime_macro.Protocol.State.{
  Core, Env, access_for, management_access, sync_auth_state,
}
use zmk_module_runtime_macro.Protocol.Dispatch.{
  apart, managed, gated_password_set, dispatch, by_opcode, process_frame,
}
use zmk_module_runtime_macro.Protocol.Access.{
  may_manage, grants, management_access-may_manage, sync_auth_state-auth, expire_session-may_manage,
}
use zmk_module_runtime_macro.Protocol.Gate.Kept.{
  HasCredential, LeavesCredential, expire_session-credential, in_pair, discard-HasCredential,
  discard_for_opcode-HasCredential, process_dynamic_begin-LeavesCredential,
  process_dynamic_data-LeavesCredential, process_dynamic_clear-LeavesCredential,
  process_auth_info-LeavesCredential, process_auth_challenge-LeavesCredential,
  process_auth_prove-LeavesCredential, process_lock-LeavesCredential,
}

-- Two results that tell nothing of the slots that they started from, and leave these and the
-- credential as they were.
pub record Sealed (a : Credential) (s s' : Slots) (x x' : Frame × Core × Slots) : Type 0 where
  pub response : x.0 ≡ x'.0
  pub core : x.1 ≡ x'.1
  pub slots : x.2 ≡ s
  pub slots' : x'.2 ≡ s'
  pub credential : x.1.auth.credential ≡ a

module _ (a : Credential) (s s' : Slots) where
  Sealed-if :
      (b : Bool) (x y x' y' : Frame × Core × Slots)
      → Sealed a s s' x x'
      → Sealed a s s' y y'
      → Sealed a s s' (if b then x else y) (if b then x' else y')
  Sealed-if true x y x' y' hx hy = hx
  Sealed-if false x y x' y' hx hy = hy

  apart-Sealed :
      (x : Frame × Core) → Holds (LeavesCredential a) x → Sealed a s s' (apart x s) (apart x s')
  apart-Sealed x h = record {
    response = refl;
    core = refl;
    slots = refl;
    slots' = refl;
    credential = h.at;
  }

  triple : (f : Frame) (k : Core) → Holds (HasCredential a) k → Sealed a s s' (f, k, s) (f, k, s')
  triple f k h = apart-Sealed (f, k) (record { at = h.at })

module _ (c : Config) (a : Credential) where
  access_for-HasCredential :
      (state : AuthState) (now : ℕ) (k : Core)
      → Holds (HasCredential a) k
      → HasCredential a (access_for c state now k).1
  unfolding access_for is_authenticated
  access_for-HasCredential state_open now k h = h.at
  access_for-HasCredential state_error_locked now k h = (discard-HasCredential c a now k h).at
  access_for-HasCredential state_protected now k h =
      if_field (λ (x : FrameStatus × Core). x.1.auth.credential) _ _ _ _ here
        (discard-HasCredential c a now _ (record { at = here })).at
    where
      here : (expire_session now k.auth).credential ≡ a
      here = expire_session-credential now k.auth ∙ h.at

  management_access-HasCredential :
      (now : ℕ) (k : Core)
      → Holds (HasCredential a) k
      → Holds (HasCredential a) (management_access c now k).1
  unfolding management_access get_state
  management_access-HasCredential now k h = record {
    at =
        access_for-HasCredential _ now _
          (record { at = expire_session-credential now k.auth ∙ h.at });
  }

module _ (c : Config) (env : Env) (q r : Frame) (s s' : Slots) (a : Credential) where
  managed-Sealed :
      (op : Opcode) (k : Core)
      → Holds (HasCredential a) k
      → may_manage env.now k.auth ≡ false
      → Sealed a s s' (managed c op env q r k s) (managed c op env q r k s')
  unfolding managed
  managed-Sealed op k h denied =
      rw (management_access-may_manage c env.now k ∙ denied)
        (triple a s s' _ _ (management_access-HasCredential c a env.now k h))

  gated_password_set-LeavesCredential :
      (k : Core)
      → Holds (HasCredential a) k
      → may_manage env.now k.auth ≡ false
      → Holds (LeavesCredential a) (gated_password_set c env q r k)
  unfolding gated_password_set
  gated_password_set-LeavesCredential k h denied =
      rw (management_access-may_manage c env.now k ∙ denied)
        (in_pair c a _ _ (management_access-HasCredential c a env.now k h))

  dispatch-Sealed :
      (op : Opcode) (k : Core)
      → Holds (HasCredential a) k
      → may_manage env.now k.auth ≡ false
      → Sealed a s s' (dispatch c op env q r k s) (dispatch c op env q r k s')
  unfolding dispatch
  dispatch-Sealed op_capabilities k h denied = triple a s s' _ k h
  dispatch-Sealed op_dynamic_begin k h denied =
      apart-Sealed a s s' _ (process_dynamic_begin-LeavesCredential c a env q r k h)
  dispatch-Sealed op_dynamic_data k h denied =
      apart-Sealed a s s' _ (process_dynamic_data-LeavesCredential c a env q r k h)
  dispatch-Sealed op_dynamic_clear k h denied =
      apart-Sealed a s s' _ (process_dynamic_clear-LeavesCredential c a env q r k h)
  dispatch-Sealed op_auth_info k h denied =
      apart-Sealed a s s' _ (process_auth_info-LeavesCredential c a env q r k h)
  dispatch-Sealed op_auth_challenge k h denied =
      apart-Sealed a s s' _ (process_auth_challenge-LeavesCredential c a env q r k h)
  dispatch-Sealed op_auth_prove k h denied =
      apart-Sealed a s s' _ (process_auth_prove-LeavesCredential c a env q r k h)
  dispatch-Sealed op_lock k h denied =
      apart-Sealed a s s' _ (process_lock-LeavesCredential c a env q r k h)
  dispatch-Sealed op_password_set k h denied =
      apart-Sealed a s s' _ (gated_password_set-LeavesCredential k h denied)
  dispatch-Sealed op_list k h denied = managed-Sealed op_list k h denied
  dispatch-Sealed op_get k h denied = managed-Sealed op_get k h denied
  dispatch-Sealed op_set k h denied = managed-Sealed op_set k h denied
  dispatch-Sealed op_clear k h denied = managed-Sealed op_clear k h denied

  by_opcode-Sealed :
      (o : Option Opcode) (k : Core)
      → Holds (HasCredential a) k
      → may_manage env.now k.auth ≡ false
      → Sealed a s s' (by_opcode c o env q r k s) (by_opcode c o env q r k s')
  unfolding by_opcode
  by_opcode-Sealed none k h denied = triple a s s' _ k h
  by_opcode-Sealed (some op) k h denied =
      search (Sealed-if, triple, discard_for_opcode-HasCredential, dispatch-Sealed) depth 8

module _ (c : Config) where
  -- Without access (the device is protected and no session is open that has not run out, or it is in
  -- the error state), no frame tells anything of the static slots: the response and the state after
  -- it are the same whatever the slots hold. The slots stay as they are, and so does the credential.
  pub process_frame-Sealed :
      (env : Env) (request : Frame) (k : Core) (s s' : Slots)
      → may_manage env.now k.auth ≡ false
      → Sealed k.auth.credential s s'
          (process_frame c env request k s)
          (process_frame c env request k s')
  unfolding process_frame
  process_frame-Sealed env request k s s' denied =
      Sealed-if _ s s' (not (request.version == protocol_version)) _ _ _ _
        (triple _ s s' (set_error_frame bad_version (init_response request)) _
          (discard_for_opcode-HasCredential c _ env.now request.opcode k' synced))
        (by_opcode-Sealed c env request (init_response request) s s' _
          (known_opcode c.dynamic request.opcode) k' synced still)
    where
      k' : Core
      k' = sync_auth_state c env.now k

      synced : Holds (HasCredential k.auth.credential) k'
      synced = record {
        at =
            ap (λ (x : Auth). x.credential) (sync_auth_state-auth c env.now k)
            ∙ expire_session-credential env.now k.auth;
      }

      still : may_manage env.now k'.auth ≡ false
      still =
          ap (may_manage env.now) (sync_auth_state-auth c env.now k)
          ∙ expire_session-may_manage env.now k.auth
          ∙ denied
