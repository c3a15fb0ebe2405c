-- ===== src/Protocol/Serve.antt =====
-- The management commands of a client with access, frame by frame: what zmk_runtime_macro_protocol_process
-- does around the handlers.
use zmk_module_runtime_macro.Base.{
  ℕ, ◌≡◌, refl, ap, ◌∙◌, true, false, some, List, [], ◌∷◌, ltb, ◌==◌, ==_iff, if_field,
}
use zmk_module_runtime_macro.Config.{Config}
use zmk_module_runtime_macro.Slots.{Slots}
use zmk_module_runtime_macro.Auth.State.{Auth}
use zmk_module_runtime_macro.Protocol.Frame.{
  Frame, payload_size, protocol_version, init_response, known_opcode, payload_tail_is_zero, Opcode,
}
use zmk_module_runtime_macro.Protocol.State.{Core, Env, note_auth, sync_auth_state}
use zmk_module_runtime_macro.Protocol.Dispatch.{
  apart, manage, keep_session, managed, dispatch, by_opcode, process_frame,
}
use zmk_module_runtime_macro.Protocol.Access.{note_auth-auth}
use zmk_module_runtime_macro.Protocol.Session.{
  Live, extended, sync_auth_state-Live, refresh-Live, management_access-Live,
}

-- Frames one after the other, each in its circumstances: the responses, and what is left.
unfoldable pub serve : Config → List (Env × Frame) → Core → Slots → List Frame × Core × Slots
serve c [] k s = ([], k, s)
serve c ((env, q) ∷ rest) k s =
    let r = process_frame c env q k s in let t = serve c rest r.1 r.2 in (r.0 ∷ t.0, t.1, t.2)

-- Every frame comes while access lasts: the device is open, or each frame comes within the session
-- that the frame before has extended.
unfoldable pub Attended : Config → List Env → Auth → Type 0
Attended c [] a = Unit
Attended c (env ∷ rest) a = Live env.now a × Attended c rest (extended c a.state env.now a)

-- The context once the authentication is noted.
abbrev pub noted_core : Config → ℕ → Core → Core
noted_core c now k = note_auth c now k.auth.state k.auth.session_active k

-- The base checks let a frame through to the case of an opcode.
pub record WellFormed (c : Config) (q : Frame) (op : Opcode) : Type 0 where
  pub version : (q.version == protocol_version) ≡ true
  pub known : known_opcode c.dynamic q.opcode ≡ some op
  pub no_status : (q.status == 0) ≡ true
  pub fits : ltb payload_size q.payload_length ≡ false
  pub tail : payload_tail_is_zero q q.payload_length ≡ true

module _ (c : Config) (env : Env) (q : Frame) where
  -- Where access lasts, a management command comes to its handler.
  managed-Live :
      (op : Opcode) (r : Frame) (k : Core) (s : Slots)
      → Live env.now k.auth
      → managed c op env q r k s ≡ keep_session c env.now (manage c op env q r k s)
  unfolding managed
  managed-Live op r k s live =
      let g = management_access-Live c env.now k live in
      rw g.0 (ap (λ (x : Core). keep_session c env.now (manage c op env q r x s)) g.1)

  -- The response of a handler, and the slots, stay when the session is kept alive.
  pub keep_session-response :
      (x : Frame × Core × Slots)
      → Live env.now x.1.auth
      → ((keep_session c env.now x).0 ≡ x.0) × ((keep_session c env.now x).2 ≡ x.2)
  unfolding keep_session
  keep_session-response x live = (
    if_field (λ (y : Frame × Core × Slots). y.0) _ _ _ _
        (ap (λ (y : Frame × Core). y.0) (refresh-Live c env.now x.0 x.1 live)) refl,
    if_field (λ (y : Frame × Core × Slots). y.2) _ _ _ _ refl refl,
  )

  pub keep_session-success :
      (x : Frame × Core × Slots)
      → Live env.now x.1.auth
      → x.0.status ≡ 0
      → keep_session c env.now x
        ≡ (x.0, record x.1 { auth = extended c x.1.auth.state env.now x.1.auth }, x.2)
  unfolding keep_session
  keep_session-success x live good =
      rw ((==_iff x.0.status 0).1 good)
        (ap (λ (y : Frame × Core). apart y x.2) (refresh-Live c env.now x.0 x.1 live))

  pub noted_core-Live :
      (k : Core) → Live env.now k.auth → Live env.now (noted_core c env.now k).auth
  noted_core-Live k live = rw (note_auth-auth c env.now k.auth.state k.auth.session_active k) live

  -- A well-formed frame of a management command comes to its handler.
  pub process_frame-manage :
      (op : Opcode) (k : Core) (s : Slots)
      → WellFormed c q op
      → ((x : Core)
          → dispatch c op env q (init_response q) x s ≡ managed c op env q (init_response q) x s)
      → Live env.now k.auth
      → process_frame c env q k s
        ≡ keep_session c env.now (manage c op env q (init_response q) (noted_core c env.now k) s)
  unfolding process_frame by_opcode
  process_frame-manage op k s h case live =
      rw (h.version, h.known, h.no_status, h.fits, h.tail)
        (case (sync_auth_state c env.now k)
          ∙ ap (λ (x : Core). managed c op env q (init_response q) x s)
              (sync_auth_state-Live c env.now k live)
          ∙ managed-Live op (init_response q) (noted_core c env.now k) s (noted_core-Live k live))
