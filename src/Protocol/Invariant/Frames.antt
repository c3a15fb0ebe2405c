-- ===== src/Protocol/Invariant/Frames.antt =====
-- Every frame, and the dynamic timeout, keep the invariant of the context, of the dynamic store and of
-- the static slots.
use zmk_module_runtime_macro.Base.{
  ℕ, ◌≤◌, ◌≡◌, false, not, Option, none, some, List, [], ◌∷◌, arith, ltb, ◌==◌, Holds, Holds-if,
  length, drop, length-take_of_le, length-drop, All,
}
use zmk_module_runtime_macro.Config.{Config}
use zmk_module_runtime_macro.Slots.{Slots}
use zmk_module_runtime_macro.Slots.Invariant as SlotsInvariant
use zmk_module_runtime_macro.Protocol.Frame.{
  Frame, frame_size, payload_size, protocol_version, frame_of, init_response, FrameStatus,
  bad_version, status_code, known_opcode, set_error_frame, Opcode, op_list, op_get, op_set,
  op_clear, op_auth_info, op_auth_challenge, op_auth_prove, op_password_set, op_lock,
  op_dynamic_begin, op_dynamic_data, op_dynamic_clear, op_capabilities,
}
use zmk_module_runtime_macro.Protocol.State.{
  Core, Env, management_access, refresh_protected_session, dynamic_timeout_work_handler,
}
use zmk_module_runtime_macro.Protocol.Dispatch.{
  apart, refuse_frame, process, manage, keep_session, managed, gated_password_set, dispatch,
  by_opcode, process_frame,
}
use zmk_module_runtime_macro.Protocol.Invariant.{
  CoreIsValid, Holds-case, with_protocol, discard_for_opcode-CoreIsValid,
  dynamic_timeout_work_handler-CoreIsValid,
}
use zmk_module_runtime_macro.Protocol.Invariant.Access.{
  management_access-CoreIsValid, refresh_protected_session-CoreIsValid, sync_auth_state-CoreIsValid,
}
use zmk_module_runtime_macro.Protocol.Invariant.Handlers.{
  LeavesValid, in_pair, process_dynamic_begin-LeavesValid, process_dynamic_data-LeavesValid,
  process_dynamic_clear-LeavesValid,
}
use zmk_module_runtime_macro.Protocol.Invariant.Texts.{
  process_set-LeavesValid, process_clear-LeavesValid,
}
use zmk_module_runtime_macro.Protocol.Invariant.Accounts.{
  process_auth_info-LeavesValid, process_auth_challenge-LeavesValid, process_auth_prove-LeavesValid,
  process_lock-LeavesValid, process_password_set-LeavesValid,
}

-- The context, the dynamic store and the static slots.
pub record AllValid (c : Config) (k : Core) (s : Slots) : Type 0 where
  pub core : CoreIsValid c k
  pub slots : SlotsInvariant.IsValid c s

-- Those of a response.
abbrev pub KeepsValid : Config → Frame × Core × Slots → Type 0
KeepsValid c x = AllValid c x.1 x.2

within_payload : (n m : ℕ) → ltb payload_size n ≡ false → m ≡ payload_size → n ≤ m
within_payload n m h e = ground arith

module _ (c : Config) where
  apart-KeepsValid :
      (r : Frame × Core) (s : Slots)
      → Holds (LeavesValid c) r
      → SlotsInvariant.IsValid c s
      → Holds (KeepsValid c) (apart r s)
  apart-KeepsValid r s h valid = record { at = record { core = h.at; slots = valid } }

  triple :
      (f : Frame) (k : Core) (s : Slots)
      → Holds (CoreIsValid c) k
      → SlotsInvariant.IsValid c s
      → Holds (KeepsValid c) (f, k, s)
  triple f k s h valid = record { at = record { core = h.at; slots = valid } }

  keep_session-KeepsValid :
      (now : ℕ) (r : Frame × Core × Slots)
      → Holds (KeepsValid c) r
      → Holds (KeepsValid c) (keep_session c now r)
  unfolding keep_session
  keep_session-KeepsValid now r h =
      Holds-if (r.0.status == 0) _ _
        (apart-KeepsValid (refresh_protected_session c now r.0 r.1) _
          (record {
            at =
                (refresh_protected_session-CoreIsValid c now r.0 r.1
                  (record { at = h.at.core })).at;
          })
          h.at.slots)
        h

  gated_password_set-LeavesValid :
      (env : Env) (q r : Frame) (k : Core)
      → Holds (CoreIsValid c) k
      → Holds (LeavesValid c) (gated_password_set c env q r k)
  unfolding gated_password_set
  gated_password_set-LeavesValid env q r k h =
      let kept = management_access-CoreIsValid c env.now k h in
      let access = management_access c env.now k in
      Holds-if (not (status_code access.0 == 0)) _ _ (in_pair c (set_error_frame access.0 r) _ kept)
        (process_password_set-LeavesValid c env q r _ kept)

  module _ (small : c.max_text_len ≤ 256) (env : Env) (q r : Frame) (s : Slots)
      (valid : SlotsInvariant.IsValid c s) where
    managed-KeepsValid :
        (op : Opcode) (k : Core)
        → ((k' : Core) → Holds (CoreIsValid c) k' → Holds (KeepsValid c) (manage c op env q r k' s))
        → Holds (CoreIsValid c) k
        → Holds (KeepsValid c) (managed c op env q r k s)
    unfolding managed
    managed-KeepsValid op k each h =
        let kept = management_access-CoreIsValid c env.now k h in
        let access = management_access c env.now k in
        Holds-if (not (status_code access.0 == 0)) _ _
          (triple (set_error_frame access.0 r) _ s kept valid)
          (keep_session-KeepsValid env.now _ (each _ kept))

    set-KeepsValid :
        (k : Core) → Holds (CoreIsValid c) k → Holds (KeepsValid c) (manage c op_set env q r k s)
    unfolding manage
    set-KeepsValid k h =
        let stored = process_set-LeavesValid c s valid env.io q r k.protocol h.at.context small in
        triple _ _ _ (with_protocol c _ k stored.at.0 h) stored.at.1

    clear-KeepsValid :
        (k : Core) → Holds (CoreIsValid c) k → Holds (KeepsValid c) (manage c op_clear env q r k s)
    unfolding manage
    clear-KeepsValid k h =
        triple _ _ _ h (process_clear-LeavesValid c s valid env.io q r k.protocol h.at.context).at

    dispatch-KeepsValid :
        (op : Opcode) (k : Core)
        → q.payload_length ≤ length q.payload
        → Holds (CoreIsValid c) k
        → Holds (KeepsValid c) (dispatch c op env q r k s)
    unfolding dispatch
    dispatch-KeepsValid op_capabilities k readable h = triple _ k s h valid
    dispatch-KeepsValid op_dynamic_begin k readable h =
        apart-KeepsValid _ s (process_dynamic_begin-LeavesValid c env q r k h) valid
    dispatch-KeepsValid op_dynamic_data k readable h =
        apart-KeepsValid _ s (process_dynamic_data-LeavesValid c env q r k readable h) valid
    dispatch-KeepsValid op_dynamic_clear k readable h =
        apart-KeepsValid _ s (process_dynamic_clear-LeavesValid c env q r k h) valid
    dispatch-KeepsValid op_auth_info k readable h =
        apart-KeepsValid _ s (process_auth_info-LeavesValid c env q r k h) valid
    dispatch-KeepsValid op_auth_challenge k readable h =
        apart-KeepsValid _ s (process_auth_challenge-LeavesValid c env q r k h) valid
    dispatch-KeepsValid op_auth_prove k readable h =
        apart-KeepsValid _ s (process_auth_prove-LeavesValid c env q r k h) valid
    dispatch-KeepsValid op_lock k readable h =
        apart-KeepsValid _ s (process_lock-LeavesValid c env q r k h) valid
    dispatch-KeepsValid op_password_set k readable h =
        apart-KeepsValid _ s (gated_password_set-LeavesValid env q r k h) valid
    dispatch-KeepsValid op_list k readable h =
        managed-KeepsValid op_list k (λ k' h'. unfold manage in triple _ k' s h' valid) h
    dispatch-KeepsValid op_get k readable h =
        managed-KeepsValid op_get k (λ k' h'. unfold manage in triple _ k' s h' valid) h
    dispatch-KeepsValid op_set k readable h = managed-KeepsValid op_set k set-KeepsValid h
    dispatch-KeepsValid op_clear k readable h = managed-KeepsValid op_clear k clear-KeepsValid h

    refused_frame :
        (e : FrameStatus) (k : Core)
        → Holds (CoreIsValid c) k
        → Holds (KeepsValid c) (refuse_frame c e env q r k s)
    refused_frame e k h = triple _ _ s (discard_for_opcode-CoreIsValid c env.now q.opcode k h) valid

    by_opcode-KeepsValid :
        (o : Option Opcode) (k : Core)
        → length q.payload ≡ payload_size
        → Holds (CoreIsValid c) k
        → Holds (KeepsValid c) (by_opcode c o env q r k s)
    unfolding by_opcode
    by_opcode-KeepsValid none k whole h = triple _ k s h valid
    by_opcode-KeepsValid (some op) k whole h = search (Holds-case, refused_frame, served) depth 10
      where
        served :
            ltb payload_size q.payload_length ≡ false
            → Holds (KeepsValid c) (dispatch c op env q r k s)
        served short =
            dispatch-KeepsValid op k
              (within_payload q.payload_length (length q.payload) short whole) h

  process_frame-KeepsValid :
      (env : Env) (q : Frame) (k : Core) (s : Slots)
      → c.max_text_len ≤ 256
      → length q.payload ≡ payload_size
      → AllValid c k s
      → Holds (KeepsValid c) (process_frame c env q k s)
  unfolding process_frame
  process_frame-KeepsValid env q k s small whole h =
      let synced = sync_auth_state-CoreIsValid c env.now k (record { at = h.core }) in
      Holds-if (not (q.version == protocol_version)) _ _
        (refused_frame small env q _ s h.slots bad_version _ synced)
        (by_opcode-KeepsValid small env q (init_response q) s h.slots
          (known_opcode c.dynamic q.opcode) _ whole synced)

-- What a context sees from outside: a frame of bytes, or its timeout.
pub data ProtocolEvent : Type 0 where
  received : Env → List ℕ → ProtocolEvent
  timed_out : Env → ProtocolEvent

-- Transports hand over whole frames.
abbrev pub IsWhole : ProtocolEvent → Type 0
IsWhole (received env bytes) = length bytes ≡ frame_size
IsWhole (timed_out env) = Unit

module _ (c : Config) where
  -- The state after events in their order.
  unfoldable pub attend : List ProtocolEvent → Core → Slots → Core × Slots
  attend [] k s = (k, s)
  attend (received env bytes ∷ events) k s =
      let r = process c env (some bytes) k s in attend events r.2 r.3
  attend (timed_out env ∷ events) k s = attend events (dynamic_timeout_work_handler c env k) s

  payload_is_whole :
      (bytes : List ℕ) → length bytes ≡ frame_size → length (frame_of bytes).payload ≡ payload_size
  unfolding frame_of
  payload_is_whole bytes e =
      length-take_of_le payload_size (drop 10 bytes) (omega (arith, length-drop 10 bytes, e))

  -- Over every history of whole frames and timeouts, with texts of at most 256 bytes: valid static
  -- slots, a valid dynamic store and a valid context stay valid. A valid context has buffers of their
  -- sizes, and each open transaction has received less than its total, which fits its buffer, and names
  -- a slot in range; a PASSWORD_SET is of the size of a credential.
  pub attend-AllValid :
      (events : List ProtocolEvent) (k : Core) (s : Slots)
      → c.max_text_len ≤ 256
      → All IsWhole events
      → AllValid c k s
      → AllValid c (attend events k s).0 (attend events k s).1
  unfolding attend process
  attend-AllValid [] k s small whole h = h
  attend-AllValid (received env bytes ∷ events) k s small whole h =
      attend-AllValid events _ _ small whole.1
        (process_frame-KeepsValid c env (frame_of bytes) k s small (payload_is_whole bytes whole.0)
          h).at
  attend-AllValid (timed_out env ∷ events) k s small whole h =
      attend-AllValid events _ s small whole.1 (record {
        core = (dynamic_timeout_work_handler-CoreIsValid c env k (record { at = h.core })).at;
        slots = h.slots;
      })
