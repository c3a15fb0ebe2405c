-- ===== src/Protocol/Frame.antt =====
-- The frames of runtime_macro_protocol.c and its header: 32 bytes with a header of ten. The header's
-- bytes are the fields of a record, which `frame_of` reads at the source's offsets and `bytes_of_frame`
-- writes there.
use zmk_module_runtime_macro.Base.{
  ℕ, ◌+◌, ◌*◌, ◌/◌, ◌%◌, ◌^◌, Bool, true, not, ◌&&◌, Option, none, some, List, [], ◌∷◌, ◌++◌, ◌==◌,
  if◌then◌else◌, get_or, take, drop, write_at, zeros,
}

-- The sizes and the offsets of zmk/runtime_macro_protocol.h.
abbrev pub frame_size : ℕ
frame_size = 32

abbrev pub payload_size : ℕ
payload_size = 22

abbrev pub protocol_version : ℕ
protocol_version = 2

abbrev pub list_slot : ℕ
list_slot = 255

-- One frame, a request or a response.
pub record Frame : Type 0 where
  pub version : ℕ
  pub opcode : ℕ
  pub request_id : ℕ
  pub status : ℕ
  pub slot : ℕ
  pub payload_length : ℕ
  pub offset : ℕ
  pub total_length : ℕ
  pub payload : List ℕ

-- runtime_macro_protocol_get_u16 at an offset; the bits of the bytes are apart, so `|` is a sum.
unfoldable pub get_u16 : List ℕ → ℕ → ℕ
get_u16 bytes at = get_or bytes at 0 + get_or bytes (at + 1) 0 * 2 ^ 8

-- runtime_macro_protocol_put_u16, the two bytes
unfoldable pub put_u16 : ℕ → List ℕ
put_u16 value = value % 2 ^ 8 ∷ value / 2 ^ 8 % 2 ^ 8 ∷ []

-- runtime_macro_protocol_get_u32 and put_u32
unfoldable pub get_u32 : List ℕ → ℕ
get_u32 bytes =
    get_or bytes 0 0
    + get_or bytes 1 0 * 2 ^ 8
    + get_or bytes 2 0 * 2 ^ 16
    + get_or bytes 3 0 * 2 ^ 24

unfoldable pub put_u32 : ℕ → List ℕ
put_u32 value =
    value % 2 ^ 8 ∷ value / 2 ^ 8 % 2 ^ 8 ∷ value / 2 ^ 16 % 2 ^ 8 ∷ value / 2 ^ 24 % 2 ^ 8 ∷ []

-- The reads of a frame at ZMK_RUNTIME_MACRO_PROTOCOL_*_OFFSET.
unfoldable pub frame_of : List ℕ → Frame
unfolding get_u16
frame_of bytes = record {
  version = get_or bytes 0 0;
  opcode = get_or bytes 1 0;
  request_id = get_or bytes 2 0;
  status = get_or bytes 3 0;
  slot = get_or bytes 4 0;
  payload_length = get_or bytes 5 0;
  offset = get_u16 bytes 6;
  total_length = get_u16 bytes 8;
  payload = take payload_size (drop 10 bytes);
}

-- The writes.
unfoldable pub bytes_of_frame : Frame → List ℕ
unfolding put_u16
bytes_of_frame f =
    f.version ∷ f.opcode ∷ f.request_id ∷ f.status ∷ f.slot ∷ f.payload_length ∷ put_u16 f.offset
    ++ put_u16 f.total_length
    ++ f.payload

-- A response before it is filled in.
unfoldable pub blank_frame : Frame
blank_frame = record {
  version = 0;
  opcode = 0;
  request_id = 0;
  status = 0;
  slot = 0;
  payload_length = 0;
  offset = 0;
  total_length = 0;
  payload = zeros payload_size;
}

-- runtime_macro_protocol_init_response, for a request that is not NULL
unfoldable pub init_response : Frame → Frame
unfolding blank_frame
init_response request = record blank_frame {
  version = request.version;
  opcode = request.opcode;
  request_id = request.request_id;
  slot = request.slot;
}

-- enum zmk_runtime_macro_protocol_status, and its values
pub data FrameStatus : Type 0 where
  status_ok bad_version bad_opcode bad_request bad_slot bad_offset bad_length invalid_text :
      FrameStatus
  storage_error internal auth_required auth_failed auth_not_configured rate_limited : FrameStatus
  auth_no_challenge credential_invalid : FrameStatus

unfoldable pub status_code : FrameStatus → ℕ
status_code status_ok = 0
status_code bad_version = 1
status_code bad_opcode = 2
status_code bad_request = 3
status_code bad_slot = 4
status_code bad_offset = 5
status_code bad_length = 6
status_code invalid_text = 7
status_code storage_error = 8
status_code internal = 9
status_code auth_required = 10
status_code auth_failed = 11
status_code auth_not_configured = 12
status_code rate_limited = 13
status_code auth_no_challenge = 14
status_code credential_invalid = 15

-- runtime_macro_protocol_set_error
unfoldable pub set_error_frame : FrameStatus → Frame → Frame
unfolding status_code
set_error_frame s response = record response {
  status = status_code s;
  offset = 0;
  total_length = 0;
  payload_length = 0;
  payload = zeros payload_size;
}

-- runtime_macro_protocol_set_success, with the chunk response
unfoldable pub set_success : ℕ → ℕ → Frame → Frame
unfolding status_code
set_success offset total response = record response {
  status = status_code status_ok;
  offset = offset;
  total_length = total;
}

-- The payload length of a response and its bytes.
unfoldable pub with_payload : ℕ → List ℕ → Frame → Frame
with_payload n bytes response = record response {
  payload_length = n;
  payload = write_at 0 (take n bytes) response.payload;
}

-- All bytes of a list are 0.
unfoldable pub all_zeros : List ℕ → Bool
all_zeros [] = true
all_zeros (b ∷ bs) = b == 0 && all_zeros bs

-- runtime_macro_protocol_payload_tail_is_zero
unfoldable pub payload_tail_is_zero : Frame → ℕ → Bool
unfolding all_zeros
payload_tail_is_zero request n = all_zeros (drop n request.payload)

-- runtime_macro_protocol_request_has_empty_object
unfoldable pub has_empty_object : Frame → Bool
has_empty_object request =
    request.payload_length == 0 && request.offset == 0 && request.total_length == 0

-- enum zmk_runtime_macro_protocol_opcode, and its values
pub data Opcode : Type 0 where
  op_list op_get op_set op_clear op_auth_info op_auth_challenge op_auth_prove op_password_set :
      Opcode
  op_lock op_dynamic_begin op_dynamic_data op_dynamic_clear op_capabilities : Opcode

-- runtime_macro_protocol_opcode_is_known, as the opcode that the switch then takes. The dynamic ones
-- are compiled in by CONFIG_ZMK_RUNTIME_MACRO_DYNAMIC.
unfoldable pub known_opcode : Bool → ℕ → Option Opcode
known_opcode dynamic code =
    if code == 0x01
    then some op_list
    else if code == 0x02
    then some op_get
    else if code == 0x03
    then some op_set
    else if code == 0x04
    then some op_clear
    else if code == 0x10
    then some op_auth_info
    else if code == 0x11
    then some op_auth_challenge
    else if code == 0x12
    then some op_auth_prove
    else if code == 0x13
    then some op_password_set
    else if code == 0x14
    then some op_lock
    else if not dynamic
    then none
    else if code == 0x20
    then some op_dynamic_begin
    else if code == 0x21
    then some op_dynamic_data
    else if code == 0x22
    then some op_dynamic_clear
    else if code == 0x23
    then some op_capabilities
    else none
