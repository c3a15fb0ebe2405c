-- ===== src/Protocol/Volatile.antt =====
-- runtime_macro_protocol.c: the handlers of DYNAMIC_BEGIN, DYNAMIC_DATA, DYNAMIC_CLEAR and
-- CAPABILITIES. The bytes of a transaction are in the dynamic store, its identity in the context.
use zmk_module_runtime_macro.Base.{
  ℕ, ◌+◌, ◌-◌, ◌/◌, ◌%◌, ◌^◌, true, not, ◌&&◌, ◌||◌, some, List, ◌∷◌, ◌++◌, ltb, ◌==◌,
  if◌then◌else◌, get_or,
}
use zmk_module_runtime_macro.Config.{
  Config, dynamic_max_text_len, Errno, einval, enoent, ok, err, Status, done,
}
use zmk_module_runtime_macro.Dynamic.{
  dynamic_slot_is_valid, min_ttl_seconds, max_ttl_seconds, begin_slot, append_slot, clear_slot,
}
use zmk_module_runtime_macro.Protocol.Frame.{
  Frame, get_u32, put_u16, put_u32, FrameStatus, bad_request, bad_slot, bad_offset, bad_length,
  invalid_text, internal, set_error_frame, set_success, with_payload, has_empty_object,
}
use zmk_module_runtime_macro.Protocol.State.{
  Core, Env, refresh_dynamic_timeout, end_dynamic, clear_dynamic,
}
use zmk_module_runtime_macro.Protocol.Macros.{set_payload_is_valid}

-- ZMK_RUNTIME_MACRO_PROTOCOL_DYNAMIC_DEFAULT_TTL_SECONDS
abbrev pub default_ttl_seconds : ℕ
default_ttl_seconds = 300

-- The time to live and the flags of a BEGIN, by the length of its payload.
unfoldable pub begin_ttl : Frame → ℕ
begin_ttl request =
    if request.payload_length == 4 || request.payload_length == 5
    then get_u32 request.payload
    else default_ttl_seconds

unfoldable pub begin_flags : Frame → ℕ
begin_flags request =
    if request.payload_length == 1
    then get_or request.payload 0 0
    else if request.payload_length == 5
    then get_or request.payload 4 0
    else 0

-- The status for an error of zmk_runtime_macro_dynamic_begin_slot, and of append_slot.
unfoldable pub begin_error : Errno → FrameStatus
begin_error einval = bad_length
begin_error e = internal

unfoldable pub append_error : Errno → FrameStatus
append_error enoent = bad_request
append_error e = internal

module _ (c : Config) where
  -- The bits of the flags are apart, so `|=` is a sum.
  unfoldable pub lifecycle_flags : ℕ
  lifecycle_flags =
      1
      + 2
      + 4
      + 64
      + (if c.clear_on_usb_disconnect then 8 else 0)
      + (if c.clear_on_ble_profile_change then 16 else 0)
      + (if c.clear_on_endpoint_change then 32 else 0)

  -- The payload of runtime_macro_protocol_process_capabilities: version, number of slots, flags,
  -- longest text, default, least and greatest time to live, and timeout, the last four in seconds.
  unfoldable pub capabilities : List ℕ
  capabilities =
      2 ∷ c.dynamic_slot_count ∷ put_u16 lifecycle_flags
      ++ put_u16 dynamic_max_text_len
      ++ put_u32 default_ttl_seconds
      ++ put_u32 min_ttl_seconds
      ++ put_u32 max_ttl_seconds
      ++ put_u32 30

  -- runtime_macro_protocol_process_capabilities
  unfoldable pub process_capabilities : Frame → Frame → Frame
  process_capabilities request response =
      if not (dynamic_slot_is_valid c request.slot)
      then set_error_frame bad_slot response
      else if not (has_empty_object request)
      then set_error_frame bad_request response
      else set_success 0 22 (with_payload 22 capabilities response)

  -- A branch that gives the transaction up.
  abbrev pub refuse_dynamic : FrameStatus → Env → Frame → Core → Frame × Core
  refuse_dynamic status env response k =
      (set_error_frame status response, clear_dynamic c env.now k)

  -- The end of a refresh of the timeout: an error gives the transaction up.
  unfoldable pub kept_or_cleared : ℕ → Status × Core → Status × Core
  kept_or_cleared now (ok u, k) = (done, k)
  kept_or_cleared now (err e, k) = (err e, clear_dynamic c now k)

  -- The transaction that runtime_macro_protocol_process_dynamic_begin opens, by the store's answer.
  unfoldable pub open_transaction : Status → Env → Frame → Core → Status × Core
  open_transaction (err e) env request k = (err e, clear_dynamic c env.now k)
  open_transaction (ok u) env request k = kept_or_cleared env.now (
      refresh_dynamic_timeout env (record k {
        protocol = record k.protocol {
          dynamic_active = true;
          dynamic_slot = request.slot;
          dynamic_request_id = request.request_id;
          dynamic_total_length = request.total_length;
          dynamic_received_length = 0;
        };
      }))

  unfoldable pub begin_response : Status → ℕ → Frame → Frame
  begin_response (ok u) total response = set_success 0 total response
  begin_response (err e) total response = set_error_frame (begin_error e) response

  -- runtime_macro_protocol_process_dynamic_begin
  unfoldable pub process_dynamic_begin : Env → Frame → Frame → Core → Frame × Core
  process_dynamic_begin env request response k =
      let n = request.payload_length in
      let ttl = begin_ttl request in
      let flags = begin_flags request in
      if not (dynamic_slot_is_valid c request.slot)
      then refuse_dynamic bad_slot env response k
      else if not (request.offset == 0)
      then refuse_dynamic bad_offset env response k
      else if request.total_length == 0 || ltb dynamic_max_text_len request.total_length
      then refuse_dynamic bad_length env response k
      else if not (n == 0) && not (n == 1) && not (n == 4) && not (n == 5)
      then refuse_dynamic bad_length env response k
      else if not (flags / 2 == 0)
      then refuse_dynamic bad_request env response k
      else if ltb ttl min_ttl_seconds || ltb max_ttl_seconds ttl
      then refuse_dynamic bad_length env response k
      else (let b =
            begin_slot c env.now request.slot request.total_length ttl (flags % 2 == 0) k.dynamic in
          let r = open_transaction b.0 env request (record k { dynamic = b.1 }) in
          (begin_response r.0 request.total_length response, r.1))

  -- The end of a DATA whose bytes the store has taken: after the last chunk the transaction is over.
  unfoldable pub advance : Env → ℕ → Core → Status × Core
  advance env next k =
      let k' = record k { protocol = record k.protocol { dynamic_received_length = next } } in
      if next == k.protocol.dynamic_total_length
      then (done, end_dynamic k')
      else kept_or_cleared env.now (refresh_dynamic_timeout env k')

  unfoldable pub data_response : Status → ℕ → ℕ → Frame → Frame
  data_response (ok u) next total response = set_success next total response
  data_response (err e) next total response = set_error_frame internal response

  unfoldable pub after_append : Status → Env → Frame → Frame → Core → Frame × Core
  after_append (err e) env request response k = refuse_dynamic (append_error e) env response k
  after_append (ok u) env request response k =
      let next = (request.offset + request.payload_length) % 2 ^ 16 in
      let r = advance env next k in (data_response r.0 next request.total_length response, r.1)

  -- runtime_macro_protocol_process_dynamic_data
  unfoldable pub process_dynamic_data : Env → Frame → Frame → Core → Frame × Core
  process_dynamic_data env request response k =
      let p = k.protocol in
      let n = request.payload_length in
      if not (dynamic_slot_is_valid c request.slot)
        || p.dynamic_active && not (request.slot == p.dynamic_slot)
      then refuse_dynamic bad_slot env response k
      else if request.total_length == 0 || ltb dynamic_max_text_len request.total_length
      then refuse_dynamic bad_length env response k
      else if ltb request.total_length request.offset
      then refuse_dynamic bad_offset env response k
      else if n == 0 || ltb (request.total_length - request.offset) n
      then refuse_dynamic bad_length env response k
      else if not p.dynamic_active
          || not (p.dynamic_request_id == request.request_id)
          || not (p.dynamic_total_length == request.total_length)
      then refuse_dynamic bad_request env response k
      else if not (request.offset == p.dynamic_received_length)
      then refuse_dynamic bad_offset env response k
      else if not (set_payload_is_valid request n)
      then refuse_dynamic invalid_text env response k
      else (let w =
            append_slot c env.now request.slot request.offset (some request.payload) n k.dynamic in
          after_append w.0 env request response (record k { dynamic = w.1 }))

  -- runtime_macro_protocol_process_dynamic_clear
  unfoldable pub process_dynamic_clear : Env → Frame → Frame → Core → Frame × Core
  process_dynamic_clear env request response k =
      if not (dynamic_slot_is_valid c request.slot)
      then (set_error_frame bad_slot response, k)
      else if not (has_empty_object request)
      then (set_error_frame bad_request response, k)
      else (let k' = record k { dynamic = clear_slot c env.now request.slot k.dynamic } in
          (
            set_success 0 0 response,
            if k'.protocol.dynamic_active && k'.protocol.dynamic_slot == request.slot
                then end_dynamic k'
                else k',
          ))
