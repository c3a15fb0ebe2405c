-- ===== src/Protocol/Macros.antt =====
-- runtime_macro_protocol.c: the handlers of LIST, GET, SET and CLEAR, which work on the static slots.
use zmk_module_runtime_macro.Base.{
  ℕ, zero, suc, ◌+◌, ◌-◌, ◌*◌, ◌%◌, ◌^◌, Bool, true, not, ◌&&◌, ◌||◌, Option, none, some, List, [],
  ◌∷◌, ◌++◌, ltb, ◌==◌, if◌then◌else◌, take, drop, write_at,
}
use zmk_module_runtime_macro.Config.{Config, einval, Result, ok, err, Status}
use zmk_module_runtime_macro.Slots.{
  Slots, Backend, bytes_are_valid, slot_is_valid, slot_get_length, slot_copy, slot_set, slot_clear,
}
use zmk_module_runtime_macro.Protocol.Frame.{
  Frame, payload_size, list_slot, put_u16, FrameStatus, bad_request, bad_slot, bad_offset,
  bad_length, invalid_text, storage_error, internal, set_error_frame, set_success, with_payload,
  payload_tail_is_zero, has_empty_object,
}
use zmk_module_runtime_macro.Protocol.State.{Protocol, clear_set}

-- UINT16_MAX
abbrev pub uint16_max : ℕ
uint16_max = 65535

-- One round of the loop of runtime_macro_protocol_process_list, before the later rounds.
unfoldable pub length_bytes : Result ℕ → Option (List ℕ) → Option (List ℕ)
length_bytes (err e) rest = none
length_bytes (ok n) none = none
length_bytes (ok n) (some rest) = if ltb uint16_max n then none else some (put_u16 n ++ rest)

-- The end of LIST and of GET: the part of the data at the request's offset.
unfoldable pub chunk_reply : Frame → Frame → List ℕ → ℕ → Frame
chunk_reply request response source total =
    if ltb total request.offset
    then set_error_frame bad_offset response
    else (let remaining = total - request.offset in
        let n = if ltb payload_size remaining then payload_size else remaining in
        set_success request.offset total (with_payload n (drop request.offset source) response))

-- runtime_macro_protocol_set_payload_is_valid
unfoldable pub set_payload_is_valid : Frame → ℕ → Bool
set_payload_is_valid request n = bytes_are_valid (take n request.payload)

-- The response of runtime_macro_protocol_commit_set.
unfoldable pub commit_response : Status → ℕ → ℕ → Frame → Frame
commit_response (ok u) next total response = set_success next total response
commit_response (err einval) next total response = set_error_frame invalid_text response
commit_response (err e) next total response = set_error_frame storage_error response

-- The transaction after the first chunk, and after a later one.
unfoldable pub first_chunk : Frame → Protocol → Protocol
first_chunk request p = record p {
  set_active = true;
  set_request_id = request.request_id;
  set_slot = request.slot;
  set_total_length = request.total_length;
  set_received_length = request.payload_length;
  set_staging = write_at 0 (take request.payload_length request.payload) p.set_staging;
}

unfoldable pub later_chunk : Frame → Protocol → Protocol
later_chunk request p = record p {
  set_staging = write_at request.offset (take request.payload_length request.payload) p.set_staging;
  set_received_length = (p.set_received_length + request.payload_length) % 2 ^ 16;
}

-- Whether a later chunk is one of another transaction.
unfoldable pub is_foreign_chunk : Frame → Protocol → Bool
is_foreign_chunk request p =
    not p.set_active
    || not (p.set_request_id == request.request_id)
    || not (p.set_slot == request.slot)
    || not (p.set_total_length == request.total_length)

module _ (c : Config) where
  -- The loop of runtime_macro_protocol_process_list from a slot on; none is its INTERNAL.
  unfoldable pub list_lengths : ℕ → ℕ → Slots → Option (List ℕ)
  list_lengths zero slot s = some []
  list_lengths (suc left) slot s =
      let rest = list_lengths left (slot + 1) s in length_bytes (slot_get_length c slot s) rest

  unfoldable pub list_reply : Frame → Frame → Option (List ℕ) → Frame
  list_reply request response none = set_error_frame internal response
  list_reply request response (some lengths) =
      chunk_reply request response (c.slot_count ∷ lengths) (1 + 2 * c.slot_count)

  -- runtime_macro_protocol_process_list
  unfoldable pub process_list : Frame → Frame → Slots → Frame
  process_list request response s =
      if not (request.slot == list_slot)
      then set_error_frame bad_request response
      else if not (request.payload_length == 0) || not (request.total_length == 0)
      then set_error_frame bad_length response
      else if not (payload_tail_is_zero request 0)
      then set_error_frame bad_request response
      else list_reply request response (list_lengths c.slot_count 0 s)

  unfoldable pub get_reply : Frame → Frame → Result (List ℕ × ℕ) → Frame
  get_reply request response (err e) = set_error_frame internal response
  get_reply request response (ok snapshot) =
      if ltb uint16_max snapshot.1
      then set_error_frame internal response
      else chunk_reply request response snapshot.0 snapshot.1

  -- runtime_macro_protocol_process_get
  unfoldable pub process_get : Frame → Frame → Slots → Frame
  process_get request response s =
      if not (slot_is_valid c request.slot)
      then set_error_frame bad_slot response
      else if not (request.payload_length == 0) || not (request.total_length == 0)
      then set_error_frame bad_length response
      else if not (payload_tail_is_zero request 0)
      then set_error_frame bad_request response
      else get_reply request response (slot_copy c request.slot (c.max_text_len + 1) s)

  -- runtime_macro_protocol_commit_set
  unfoldable pub commit_set : Backend → Frame → Protocol → Slots → Frame × Protocol × Slots
  commit_set io response p s =
      let w = slot_set c io p.set_slot (some p.set_staging) p.set_total_length s in
      (commit_response w.0 p.set_received_length p.set_total_length response, clear_set c p, w.2)

  -- A branch of runtime_macro_protocol_process_set that gives the transaction up.
  abbrev pub refuse_set : FrameStatus → Frame → Protocol → Slots → Frame × Protocol × Slots
  refuse_set status response p s = (set_error_frame status response, clear_set c p, s)

  -- Its end, once the chunk is in the staging buffer.
  unfoldable pub after_chunk : Backend → Frame → Protocol → Slots → Frame × Protocol × Slots
  after_chunk io response p s =
      if p.set_received_length == p.set_total_length
      then commit_set io response p s
      else (set_success p.set_received_length p.set_total_length response, p, s)

  -- Its part for a chunk that is right in itself.
  unfoldable pub place_chunk : Backend → Frame → Frame → Protocol → Slots → Frame × Protocol × Slots
  place_chunk io request response p s =
      if request.offset == 0
      then after_chunk io response (first_chunk request (clear_set c p)) s
      else if is_foreign_chunk request p
      then refuse_set bad_request response p s
      else if not (request.offset == p.set_received_length)
      then refuse_set bad_offset response p s
      else after_chunk io response (later_chunk request p) s

  -- runtime_macro_protocol_process_set
  unfoldable pub process_set : Backend → Frame → Frame → Protocol → Slots → Frame × Protocol × Slots
  process_set io request response p s =
      if not (slot_is_valid c request.slot)
      then refuse_set bad_slot response p s
      else if ltb c.max_text_len request.total_length
      then refuse_set bad_length response p s
      else if ltb request.total_length request.offset
      then refuse_set bad_offset response p s
      else if ltb (request.total_length - request.offset) request.payload_length
      then refuse_set bad_length response p s
      else if not (request.total_length == 0) && request.payload_length == 0
      then refuse_set bad_length response p s
      else if not (set_payload_is_valid request request.payload_length)
      then refuse_set invalid_text response p s
      else place_chunk io request response p s

  unfoldable pub clear_reply : Status → Frame → Frame
  clear_reply (ok u) response = set_success 0 0 response
  clear_reply (err e) response = set_error_frame storage_error response

  -- runtime_macro_protocol_process_clear
  unfoldable pub process_clear : Backend → Frame → Frame → Slots → Frame × Slots
  process_clear io request response s =
      if not (slot_is_valid c request.slot)
      then (set_error_frame bad_slot response, s)
      else if not (has_empty_object request) || not (payload_tail_is_zero request 0)
      then (set_error_frame bad_request response, s)
      else (let w = slot_clear c io request.slot s in (clear_reply w.0 response, w.2))
