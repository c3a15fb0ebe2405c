-- ===== src/Tests/Protocol.antt =====
-- The management protocol at concrete inputs: "Hi" written in two frames on an open device, and a
-- protected device without a session.
use zmk_module_runtime_macro.Base.{
  ℕ, zero, suc, ltb, ltb→lt, All-append, ◌≡◌, ◌<◌, ◌^◌, ◌↔◌, refl, true, false, none, some, List,
  [], ◌∷◌, arith, length, All, replicate, zeros,
}
use zmk_module_runtime_macro.Config.{ok, done}
use zmk_module_runtime_macro.Ascii.{ascii_to_keycode}
use zmk_module_runtime_macro.Slots.{Slots, Backend, bytes_are_valid, text_is_valid, slot_set}
use zmk_module_runtime_macro.Slots.Invariant.{contents}
use zmk_module_runtime_macro.Auth.State.{Auth, get_state, expire_session}
use zmk_module_runtime_macro.Protocol.Frame.{
  Frame, frame_of, bytes_of_frame, init_response, known_opcode, payload_tail_is_zero, all_zeros,
  set_success, status_code,
}
use zmk_module_runtime_macro.Protocol.State.{
  Core, Env, zero_protocol, sync_auth_state, note_auth, session_of, state_code, management_access,
  access_for, refresh_protected_session, refresh_for, clear_set,
}
use zmk_module_runtime_macro.Protocol.Macros.{
  process_set, place_chunk, after_chunk, first_chunk, later_chunk, is_foreign_chunk, commit_set,
  commit_response, set_payload_is_valid,
}
use zmk_module_runtime_macro.Protocol.Dispatch.{
  process_frame, by_opcode, dispatch, managed, manage, keep_session,
}
use zmk_module_runtime_macro.Protocol.Bytes.{bytes_of_frame_iff}
use zmk_module_runtime_macro.Protocol.Shape.{Answers}
use zmk_module_runtime_macro.Protocol.Shape.Answer.{process_frame-Answers}
use zmk_module_runtime_macro.Protocol.Access.{opens_to}
use zmk_module_runtime_macro.Protocol.Gate.{Sealed, process_frame-Sealed}
use zmk_module_runtime_macro.Protocol.Session.{unlocked, extended}
use zmk_module_runtime_macro.Protocol.Invariant.{zero_protocol-ContextIsValid}
use zmk_module_runtime_macro.Protocol.Invariant.Frames.{
  AllValid, ProtocolEvent, received, timed_out, attend, attend-AllValid,
}
use zmk_module_runtime_macro.Dynamic.History.{booted-IsValid}
use zmk_module_runtime_macro.Protocol.Serve.{serve, Attended}
use zmk_module_runtime_macro.Protocol.Set.{IsChunk, Fits}
use zmk_module_runtime_macro.Protocol.Upload.{
  Chunks, joined, envs_of, set_frames, Stored, set_frames-slot_set,
}
use zmk_module_runtime_macro.Protocol.Download.{get_frame, get_frames, bodies}
use zmk_module_runtime_macro.Protocol.RoundTrip.{set_frames-get_frames}
use zmk_module_runtime_macro.Tests.Data.{
  test_config, hi, hi_slots, hi_slots-IsValid, storing, unset_memory, upload, hi_store,
}
use zmk_module_runtime_macro.Tests.Auth.{unset_auth, challenged, test_hmac}

abbrev at_time : ℕ → Env
at_time now = record {
  now = now;
  io = storing;
  random = ok (3 ∷ zeros 15);
  hmac = test_hmac;
  rescheduled = done;
  meanwhile = λ a. a;
}

abbrev core_with : Auth → Core
core_with a = record {
  protocol = zero_protocol test_config;
  auth = a;
  dynamic = unset_memory;
  timeout_owner = false;
  timeout_work = none;
}

process_frame-Answers_example :
    Answers
      (get_frame 5 1 0)
      (process_frame test_config (at_time 100) (get_frame 5 1 0) (core_with challenged) hi_slots).0
process_frame-Answers_example =
    process_frame-Answers test_config (at_time 100) (get_frame 5 1 0) (core_with challenged)
      hi_slots

abbrev empty_slots : Slots
empty_slots = record hi_slots { size = λ i. 0 }

process_frame-Sealed_example :
    Sealed challenged.credential hi_slots empty_slots
      (process_frame test_config (at_time 100) (get_frame 5 1 0) (core_with challenged) hi_slots)
      (process_frame test_config (at_time 100) (get_frame 5 1 0) (core_with challenged) empty_slots)
process_frame-Sealed_example =
    process_frame-Sealed test_config (at_time 100) (get_frame 5 1 0) (core_with challenged) hi_slots
      empty_slots (unfold opens_to in refl)

abbrev two_chunks : Chunks
two_chunks = (at_time 10, 72 ∷ []) ∷ (at_time 20, 105 ∷ []) ∷ []

two_chunks-Stored : All Stored two_chunks
two_chunks-Stored = (
  (chunk 72 (unfold bytes_are_valid ascii_to_keycode in refl), (λ name value. refl)),
  ((chunk 105 (unfold bytes_are_valid ascii_to_keycode in refl), (λ name value. refl)), tt),
)
  where
    chunk : (b : ℕ) → bytes_are_valid (b ∷ []) ≡ true → IsChunk (b ∷ [])
    chunk b h = record { some_bytes = omega arith; fits = omega arith; mapped = h }

two_chunks-joined : joined two_chunks ≡ hi
unfolding joined
two_chunks-joined = refl

two_chunks_fit : Fits test_config 1 (length (joined two_chunks))
unfolding joined
two_chunks_fit = record { slot_below = omega arith; total_le = omega arith; text_le = omega arith }

two_chunks-Attended : Attended test_config (envs_of two_chunks) unset_auth
unfolding Attended envs_of extended
two_chunks-Attended = (unlocked refl refl, (unlocked refl refl, tt))

abbrev two_frames : List (Env × Frame)
two_frames = set_frames 5 1 (length (joined two_chunks)) 0 two_chunks

abbrev served : List Frame × Core × Slots
served = serve test_config two_frames (core_with unset_auth) hi_slots

set_frames-slot_set_example :
    All (λ (f : Frame). f.status ≡ 0) served.0
    × ((io : Backend)
        → served.2
          ≡ (slot_set test_config io 1
              (some (joined two_chunks))
              (length (joined two_chunks))
              hi_slots).2)
set_frames-slot_set_example =
    set_frames-slot_set test_config 5 1 (at_time 10) (72 ∷ []) ((at_time 20, 105 ∷ []) ∷ [])
      (core_with unset_auth) hi_slots two_chunks_fit two_chunks-Stored two_chunks-Attended

served_open : Attended test_config (at_time 30 ∷ []) served.1.auth
unfolding Attended serve set_frames joined process_frame by_opcode dispatch managed manage
    keep_session init_response known_opcode payload_tail_is_zero all_zeros set_success status_code
    get_state expire_session sync_auth_state note_auth session_of state_code management_access
    access_for refresh_protected_session refresh_for process_set place_chunk after_chunk first_chunk
    later_chunk is_foreign_chunk commit_set commit_response set_payload_is_valid clear_set
    bytes_are_valid ascii_to_keycode slot_set text_is_valid
served_open = (unlocked refl refl, tt)

set_frames-get_frames_example :
    let r = serve test_config (get_frames 6 1 0 (at_time 30 ∷ [])) served.1 served.2 in
    All (λ (f : Frame). f.status ≡ 0) r.0
    × (bodies r.0 ≡ joined two_chunks)
    × ((j : ℕ) → ¬ (1 ≡ j) → contents served.2 j ≡ contents hi_slots j)
set_frames-get_frames_example =
    set_frames-get_frames test_config 5 1 (at_time 10) (72 ∷ []) ((at_time 20, 105 ∷ []) ∷ [])
      (core_with unset_auth) hi_slots (at_time 30 ∷ []) 6 hi_slots-IsValid two_chunks_fit
      two_chunks-Stored two_chunks-Attended (unfold joined in omega arith)
      (unfold joined in omega arith) served_open

abbrev stored_core : Core
stored_core = record (core_with unset_auth) { dynamic = hi_store.dynamic }

-- "H", the first of two bytes for slot 1, a frame that the base checks refuse, and the timeout.
abbrev some_events : List ProtocolEvent
some_events =
    received (at_time 30) (2 ∷ 3 ∷ 5 ∷ 0 ∷ 1 ∷ 1 ∷ 0 ∷ 0 ∷ 2 ∷ 0 ∷ 72 ∷ zeros 21)
    ∷ received (at_time 40) (replicate 32 255)
    ∷ timed_out (at_time 9000)
    ∷ []

stored_core-AllValid : AllValid test_config stored_core hi_slots
stored_core-AllValid = record {
  core = record {
    context = zero_protocol-ContextIsValid test_config;
    store = (booted-IsValid test_config unset_memory upload).dynamic;
  };
  slots = hi_slots-IsValid;
}

attend-AllValid_example :
    AllValid test_config
      (attend test_config some_events stored_core hi_slots).0
      (attend test_config some_events stored_core hi_slots).1
attend-AllValid_example =
    attend-AllValid test_config some_events stored_core hi_slots (omega arith)
      (refl, (refl, (tt, tt))) stored_core-AllValid

abbrev wire_bytes : List ℕ
wire_bytes = 2 ∷ 2 ∷ 5 ∷ 0 ∷ 1 ∷ 0 ∷ 44 ∷ 1 ∷ 0 ∷ 0 ∷ zeros 22

zeros_below : (n : ℕ) → All (λ b. b < 2 ^ 8) (zeros n)
zeros_below zero = tt
zeros_below (suc n) = (omega arith, zeros_below n)

wire_bytes_below : All (λ b. b < 2 ^ 8) wire_bytes
wire_bytes_below =
    All-append (λ b. b < 2 ^ 8) (2 ∷ 2 ∷ 5 ∷ 0 ∷ 1 ∷ 0 ∷ 44 ∷ 1 ∷ 0 ∷ 0 ∷ []) (zeros 22) head
      (zeros_below 22)
  where
    b : {n : ℕ} → ltb n 256 ≡ true → n < 2 ^ 8
    b {n} e = ltb→lt n 256 e

    head : All (λ b. b < 2 ^ 8) (2 ∷ 2 ∷ 5 ∷ 0 ∷ 1 ∷ 0 ∷ 44 ∷ 1 ∷ 0 ∷ 0 ∷ [])
    head = (
      b refl,
      (b refl, (b refl, (b refl, (b refl, (b refl, (b refl, (b refl, (b refl, (b refl, tt))))))))),
    )

bytes_of_frame_iff_example :
    (bytes_of_frame (get_frame 5 1 300) ≡ wire_bytes) ↔ (frame_of wire_bytes ≡ get_frame 5 1 300)
bytes_of_frame_iff_example =
    bytes_of_frame_iff (get_frame 5 1 300) wire_bytes
      (record { offset_le = omega arith; total_le = omega arith; whole = refl })
      (refl, wire_bytes_below)
