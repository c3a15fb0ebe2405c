-- ===== src/Protocol/Shape.antt =====
-- The form of the responses of runtime_macro_protocol.c: rules for the ways in which the handlers
-- build a response. The children go through the handlers and the dispatch.
mod Handlers
pub mod Answer
use zmk_module_runtime_macro.Base.{
  ℕ, zero, suc, ◌+◌, ◌-◌, ◌*◌, ◌/◌, ◌%◌, ◌^◌, ◌≤◌, ◌<◌, min, ◌≡◌, refl, sym, ap, ap₂, ◌∙◌, fun_ext,
  ◌≢◌, ◌↔◌, ◌⊎◌, inl, inr, Bool, true, false, not, ◌&&◌, ◌||◌, Option, none, some, List, [], ◌∷◌,
  ◌++◌, map, append-nil, append_assoc, arith, ltb, leb, ◌==◌, if◌then◌else◌, ltb→lt, lt→ltb, leb→le,
  le→leb, leb-false, ltb-false, ==_false, ==_iff, tests, Bool-cases, Option-cases, length, get_or,
  take, drop, replicate, length-append, length-take_of_le, length-drop, length-replicate,
  take-append, take-length, drop-append, get_or-take, All, All-append, All-take, bytes_equal,
  bytes_equal→eq, bytes_equal_refl, update, all_below, all_below_sound, codes, decimal_from,
  decimal, write_at, zeros, length-write_at, take-write_at, get_or-write_at_below,
  get_or-write_at_self, take-write_at_below,
}
use zmk_module_runtime_macro.Config.{
  Config, InRange, dynamic_max_text_len, executor_max_text_len, Errno, einval, enoent, eio, ebusy,
  enospc, enodata, eperm, eagain, eacces, enodev, enotsup, other, Result, ok, err, Status, done,
}
use zmk_module_runtime_macro.Slots.{Slots, Backend}
use zmk_module_runtime_macro.Auth.State.{AuthState, state_open, state_protected, state_error_locked}
use zmk_module_runtime_macro.Protocol.Frame.{
  Frame, payload_size, init_response, FrameStatus, set_error_frame, set_success, with_payload,
}
use zmk_module_runtime_macro.Protocol.State.{
  Protocol, Core, Env, after_refresh, refresh_for, refresh_protected_session,
}
use zmk_module_runtime_macro.Protocol.Macros.{
  chunk_reply, commit_response, list_reply, process_list, get_reply, process_get, commit_set,
  after_chunk, place_chunk, process_set, clear_reply, process_clear,
}

-- What a response tells of its request, whatever the status is.
pub record Answers (request response : Frame) : Type 0 where
  pub version : response.version ≡ request.version
  pub opcode : response.opcode ≡ request.opcode
  pub request_id : response.request_id ≡ request.request_id
  pub slot : response.slot ≡ request.slot
  pub sized : length response.payload ≡ payload_size
  pub no_offset : ¬ (response.status ≡ 0) → response.offset ≡ 0
  pub no_total : ¬ (response.status ≡ 0) → response.total_length ≡ 0
  pub no_length : ¬ (response.status ≡ 0) → response.payload_length ≡ 0
  pub no_payload : ¬ (response.status ≡ 0) → response.payload ≡ zeros payload_size

-- The frame of a result, under an `if`.
pub record Replies {B : Type 0} (frame : B → Frame) (request : Frame) (x : B) : Type 0 where
  pub at : Answers request (frame x)

pub Replies-if :
    {B : Type 0} {frame : B → Frame} {q : Frame} (b : Bool) (x y : B)
    → Replies frame q x
    → Replies frame q y
    → Replies frame q (if b then x else y)
Replies-if true x y hx hy = hx
Replies-if false x y hx hy = hy

module _ (q : Frame) where
  pub init_response-Answers : Answers q (init_response q)
  unfolding init_response
  init_response-Answers = record {
    version = refl;
    opcode = refl;
    request_id = refl;
    slot = refl;
    sized = refl;
    no_offset = λ h. refl;
    no_total = λ h. refl;
    no_length = λ h. refl;
    no_payload = λ h. refl;
  }

  pub set_error_frame-Answers :
      (e : FrameStatus) (r : Frame) → Answers q r → Answers q (set_error_frame e r)
  unfolding set_error_frame
  set_error_frame-Answers e r h = record {
    version = h.version;
    opcode = h.opcode;
    request_id = h.request_id;
    slot = h.slot;
    sized = refl;
    no_offset = λ n. refl;
    no_total = λ n. refl;
    no_length = λ n. refl;
    no_payload = λ n. refl;
  }

  pub set_success-Answers :
      (offset total : ℕ) (r : Frame) → Answers q r → Answers q (set_success offset total r)
  unfolding set_success
  set_success-Answers offset total r h = record {
    version = h.version;
    opcode = h.opcode;
    request_id = h.request_id;
    slot = h.slot;
    sized = h.sized;
    no_offset = λ n. absurd (n refl);
    no_total = λ n. absurd (n refl);
    no_length = λ n. absurd (n refl);
    no_payload = λ n. absurd (n refl);
  }

  pub set_success-with_payload-Answers :
      (offset total n : ℕ) (bytes : List ℕ) (r : Frame)
      → Answers q r
      → Answers q (set_success offset total (with_payload n bytes r))
  unfolding set_success with_payload
  set_success-with_payload-Answers offset total n bytes r h = record {
    version = h.version;
    opcode = h.opcode;
    request_id = h.request_id;
    slot = h.slot;
    sized = length-write_at 0 (take n bytes) r.payload ∙ h.sized;
    no_offset = λ n. absurd (n refl);
    no_total = λ n. absurd (n refl);
    no_length = λ n. absurd (n refl);
    no_payload = λ n. absurd (n refl);
  }

abbrev pub itself : Frame → Frame
itself x = x

abbrev pub of_core : Frame × Core → Frame
of_core x = x.0

abbrev pub of_set : Frame × Protocol × Slots → Frame
of_set x = x.0

abbrev pub of_clear : Frame × Slots → Frame
of_clear x = x.0

abbrev pub of_all : Frame × Core × Slots → Frame
of_all x = x.0

module _ (q : Frame) where
  pub in_core : (f : Frame) (k : Core) → Replies itself q f → Replies of_core q (f, k)
  in_core f k h = record { at = h.at }

  pub in_set :
      (f : Frame) (p : Protocol) (s : Slots) → Replies itself q f → Replies of_set q (f, p, s)
  in_set f p s h = record { at = h.at }

  pub in_clear : (f : Frame) (s : Slots) → Replies itself q f → Replies of_clear q (f, s)
  in_clear f s h = record { at = h.at }

  pub in_all : (f : Frame) (k : Core) (s : Slots) → Replies itself q f → Replies of_all q (f, k, s)
  in_all f k s h = record { at = h.at }

module _ (q r : Frame) (h : Answers q r) where
  pub error_reply : (e : FrameStatus) → Replies itself q (set_error_frame e r)
  error_reply e = record { at = set_error_frame-Answers q e r h }

  pub success_reply : (offset total : ℕ) → Replies itself q (set_success offset total r)
  success_reply offset total = record { at = set_success-Answers q offset total r h }

  pub body_reply :
      (offset total n : ℕ) (bytes : List ℕ)
      → Replies itself q (set_success offset total (with_payload n bytes r))
  body_reply offset total n bytes = record {
    at = set_success-with_payload-Answers q offset total n bytes r h;
  }
