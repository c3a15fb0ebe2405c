-- ===== src/Protocol/Shape/Answer.antt =====
-- The form of every response of zmk_runtime_macro_protocol_process.
use zmk_module_runtime_macro.Base.{ℕ, Option, none, some}
use zmk_module_runtime_macro.Config.{Config}
use zmk_module_runtime_macro.Slots.{Slots}
use zmk_module_runtime_macro.Protocol.Frame.{
  Frame, Opcode, op_list, op_get, op_set, op_clear, op_auth_info, op_auth_challenge, op_auth_prove,
  op_password_set, op_lock, op_dynamic_begin, op_dynamic_data, op_dynamic_clear, op_capabilities,
}
use zmk_module_runtime_macro.Protocol.State.{Core, Env}
use zmk_module_runtime_macro.Protocol.Dispatch.{
  apart, manage, keep_session, managed, gated_password_set, dispatch, by_opcode, process_frame,
}
use zmk_module_runtime_macro.Protocol.Shape.{
  Answers, Replies, Replies-if, of_core, of_all, in_core, in_all, error_reply,
  init_response-Answers,
}
use zmk_module_runtime_macro.Protocol.Shape.Handlers.{
  refresh_protected_session-Replies, process_list-Replies, process_get-Replies, process_set-Replies,
  process_clear-Replies, process_capabilities-Replies, process_dynamic_begin-Replies,
  process_dynamic_data-Replies, process_dynamic_clear-Replies, process_auth_info-Replies,
  process_auth_challenge-Replies, process_auth_prove-Replies, process_password_set-Replies,
  process_lock-Replies,
}

module _ (c : Config) (q : Frame) where
  apart-Replies :
      (x : Frame × Core) (s : Slots) → Replies of_core q x → Replies of_all q (apart x s)
  apart-Replies x s h = record { at = h.at }

  keep_session-Replies :
      (now : ℕ) (x : Frame × Core × Slots)
      → Replies of_all q x
      → Replies of_all q (keep_session c now x)
  unfolding keep_session
  keep_session-Replies now x h =
      Replies-if _ _ _ (apart-Replies _ _ (refresh_protected_session-Replies c q now _ _ h.at)) h

module _ (c : Config) (q r : Frame) (h : Answers q r) where
  manage-Replies :
      (op : Opcode) (env : Env) (k : Core) (s : Slots) → Replies of_all q (manage c op env q r k s)
  unfolding manage
  manage-Replies op_list env k s = in_all q _ _ _ (process_list-Replies c q r h s)
  manage-Replies op_get env k s = in_all q _ _ _ (process_get-Replies c q r h s)
  manage-Replies op_set env k s =
      in_all q _ _ _ (record { at = (process_set-Replies c q r h env.io k.protocol s).at })
  manage-Replies op env k s =
      in_all q _ _ _ (record { at = (process_clear-Replies c q r h env.io s).at })

  managed-Replies :
      (op : Opcode) (env : Env) (k : Core) (s : Slots) → Replies of_all q (managed c op env q r k s)
  unfolding managed
  managed-Replies op env k s =
      Replies-if _ _ _ (in_all q _ _ _ (error_reply q r h _))
        (keep_session-Replies c q _ _ (manage-Replies op env _ s))

  gated_password_set-Replies :
      (env : Env) (k : Core) → Replies of_core q (gated_password_set c env q r k)
  unfolding gated_password_set
  gated_password_set-Replies env k =
      Replies-if _ _ _ (in_core q _ _ (error_reply q r h _))
        (process_password_set-Replies c q r h _ _)

  dispatch-Replies :
      (op : Opcode) (env : Env) (k : Core) (s : Slots)
      → Replies of_all q (dispatch c op env q r k s)
  unfolding dispatch
  dispatch-Replies op_capabilities env k s = in_all q _ _ _ (process_capabilities-Replies c q r h)
  dispatch-Replies op_dynamic_begin env k s =
      apart-Replies c q _ s (process_dynamic_begin-Replies c q r h env k)
  dispatch-Replies op_dynamic_data env k s =
      apart-Replies c q _ s (process_dynamic_data-Replies c q r h env k)
  dispatch-Replies op_dynamic_clear env k s =
      apart-Replies c q _ s (process_dynamic_clear-Replies c q r h env k)
  dispatch-Replies op_auth_info env k s =
      apart-Replies c q _ s (process_auth_info-Replies c q r h env k)
  dispatch-Replies op_auth_challenge env k s =
      apart-Replies c q _ s (process_auth_challenge-Replies c q r h env k)
  dispatch-Replies op_auth_prove env k s =
      apart-Replies c q _ s (process_auth_prove-Replies c q r h env k)
  dispatch-Replies op_lock env k s = apart-Replies c q _ s (process_lock-Replies c q r h env k)
  dispatch-Replies op_password_set env k s =
      apart-Replies c q _ s (gated_password_set-Replies env k)
  dispatch-Replies op_list env k s = managed-Replies op_list env k s
  dispatch-Replies op_get env k s = managed-Replies op_get env k s
  dispatch-Replies op_set env k s = managed-Replies op_set env k s
  dispatch-Replies op_clear env k s = managed-Replies op_clear env k s

  by_opcode-Replies :
      (o : Option Opcode) (env : Env) (k : Core) (s : Slots)
      → Replies of_all q (by_opcode c o env q r k s)
  unfolding by_opcode
  by_opcode-Replies none env k s = in_all q _ _ _ (error_reply q r h _)
  by_opcode-Replies (some op) env k s = search (Replies-if, in_all, error_reply, dispatch-Replies)

module _ (c : Config) where
  -- Every response, to whatever frame and in whatever state, gives the version, the opcode, the
  -- request id and the slot of its request back and has a payload of 22 bytes; if its status is not
  -- OK, its offset, its total length, its payload length and all bytes of its payload are 0.
  pub process_frame-Answers :
      (env : Env) (request : Frame) (k : Core) (s : Slots)
      → Answers request (process_frame c env request k s).0
  unfolding process_frame
  process_frame-Answers env request k s = whole.at
    where
      whole : Replies of_all request (process_frame c env request k s)
      whole =
          Replies-if _ _ _ (in_all _ _ _ _ (error_reply _ _ (init_response-Answers request) _))
            (by_opcode-Replies c request _ (init_response-Answers request) _ env _ s)
