-- ===== src/Protocol/Dispatch.antt =====
-- zmk_runtime_macro_protocol_process: the checks of the base frame, the switch over the opcodes, and
-- the gate of the management commands. A handler that does not name the static slots cannot read them.
use zmk_module_runtime_macro.Base.{ℕ, not, Option, none, some, List, ltb, ◌==◌, if◌then◌else◌}
use zmk_module_runtime_macro.Config.{Config, einval, err, Status, done}
use zmk_module_runtime_macro.Slots.{Slots}
use zmk_module_runtime_macro.Protocol.Frame.{
  Frame, payload_size, protocol_version, frame_of, bytes_of_frame, blank_frame, init_response,
  FrameStatus, bad_version, bad_opcode, bad_request, bad_length, status_code, set_error_frame,
  payload_tail_is_zero, Opcode, op_list, op_get, op_set, op_clear, op_auth_info, op_auth_challenge,
  op_auth_prove, op_password_set, op_lock, op_dynamic_begin, op_dynamic_data, op_dynamic_clear,
  op_capabilities, known_opcode,
}
use zmk_module_runtime_macro.Protocol.State.{
  Core, Env, discard_for_opcode, management_access, refresh_protected_session, sync_auth_state,
}
use zmk_module_runtime_macro.Protocol.Macros.{process_list, process_get, process_set, process_clear}
use zmk_module_runtime_macro.Protocol.Volatile.{
  process_capabilities, process_dynamic_begin, process_dynamic_data, process_dynamic_clear,
}
use zmk_module_runtime_macro.Protocol.Login.{
  process_auth_info, process_auth_challenge, process_auth_prove, process_password_set, process_lock,
}

-- A handler that does not name the static slots leaves them alone.
abbrev pub apart : Frame × Core → Slots → Frame × Core × Slots
apart r s = (r.0, r.1, s)

module _ (c : Config) where
  -- The inner switch over LIST, GET, SET and CLEAR.
  unfoldable pub manage : Opcode → Env → Frame → Frame → Core → Slots → Frame × Core × Slots
  manage op_list env request response k s = (process_list c request response s, k, s)
  manage op_get env request response k s = (process_get c request response s, k, s)
  manage op_set env request response k s =
      let r = process_set c env.io request response k.protocol s in
      (r.0, record k { protocol = r.1 }, r.2)
  manage op env request response k s =
      let r = process_clear c env.io request response s in (r.0, k, r.1)

  -- A success of theirs keeps the session alive.
  unfoldable pub keep_session : ℕ → Frame × Core × Slots → Frame × Core × Slots
  keep_session now r =
      if r.0.status == 0 then apart (refresh_protected_session c now r.0 r.1) r.2 else r

  -- The case of LIST, GET, SET and CLEAR.
  unfoldable pub managed : Opcode → Env → Frame → Frame → Core → Slots → Frame × Core × Slots
  managed op env request response k s =
      let access = management_access c env.now k in
      if not (status_code access.0 == 0)
      then (set_error_frame access.0 response, access.1, s)
      else keep_session env.now (manage op env request response access.1 s)

  -- The case of PASSWORD_SET.
  unfoldable pub gated_password_set : Env → Frame → Frame → Core → Frame × Core
  gated_password_set env request response k =
      let access = management_access c env.now k in
      if not (status_code access.0 == 0)
      then (set_error_frame access.0 response, access.1)
      else process_password_set c env request response access.1

  -- The switch over the opcodes.
  unfoldable pub dispatch : Opcode → Env → Frame → Frame → Core → Slots → Frame × Core × Slots
  dispatch op_capabilities env q r k s = (process_capabilities c q r, k, s)
  dispatch op_dynamic_begin env q r k s = apart (process_dynamic_begin c env q r k) s
  dispatch op_dynamic_data env q r k s = apart (process_dynamic_data c env q r k) s
  dispatch op_dynamic_clear env q r k s = apart (process_dynamic_clear c env q r k) s
  dispatch op_auth_info env q r k s = apart (process_auth_info env q r k) s
  dispatch op_auth_challenge env q r k s = apart (process_auth_challenge c env q r k) s
  dispatch op_auth_prove env q r k s = apart (process_auth_prove c env q r k) s
  dispatch op_lock env q r k s = apart (process_lock c env q r k) s
  dispatch op_password_set env q r k s = apart (gated_password_set env q r k) s
  dispatch op_list env q r k s = managed op_list env q r k s
  dispatch op_get env q r k s = managed op_get env q r k s
  dispatch op_set env q r k s = managed op_set env q r k s
  dispatch op_clear env q r k s = managed op_clear env q r k s

  -- A frame that the base checks refuse.
  abbrev pub refuse_frame : FrameStatus → Env → Frame → Frame → Core → Slots → Frame × Core × Slots
  refuse_frame status env request response k s =
      (set_error_frame status response, discard_for_opcode c env.now request.opcode k, s)

  -- The base checks after the opcode's, and the switch.
  unfoldable pub by_opcode :
      Option Opcode → Env → Frame → Frame → Core → Slots → Frame × Core × Slots
  by_opcode none env request response k s = (set_error_frame bad_opcode response, k, s)
  by_opcode (some op) env request response k s =
      if not (request.status == 0)
      then refuse_frame bad_request env request response k s
      else if ltb payload_size request.payload_length
      then refuse_frame bad_length env request response k s
      else if not (payload_tail_is_zero request request.payload_length)
      then refuse_frame bad_request env request response k s
      else dispatch op env request response k s

  -- The response to a frame.
  unfoldable pub process_frame : Env → Frame → Core → Slots → Frame × Core × Slots
  process_frame env request k0 s =
      let response = init_response request in
      let k = sync_auth_state c env.now k0 in
      if not (request.version == protocol_version)
      then refuse_frame bad_version env request response k s
      else by_opcode (known_opcode c.dynamic request.opcode) env request response k s

  -- zmk_runtime_macro_protocol_process on bytes, with a response buffer and a context; `none` is a
  -- NULL request.
  unfoldable pub process : Env → Option (List ℕ) → Core → Slots → Status × List ℕ × Core × Slots
  process env none k s = (err einval, bytes_of_frame blank_frame, k, s)
  process env (some bytes) k s =
      let r = process_frame env (frame_of bytes) k s in (done, bytes_of_frame r.0, r.1, r.2)
