-- ===== src/Protocol/Download.antt =====
-- A text that a client reads with GET frames, through zmk_runtime_macro_protocol_process.
use zmk_module_runtime_macro.Base.{
  ℕ, suc, ◌+◌, ◌-◌, ◌*◌, ◌≤◌, ◌<◌, ◌≡◌, refl, sym, ap, ap₂, ◌∙◌, inl, inr, false, List, [], ◌∷◌,
  ◌++◌, arith, ltb, if◌then◌else◌, lt→ltb, leb-false, ltb-false, Bool-cases, length, take, drop,
  length-take_of_le, length-drop, take_add, take_beyond, drop-drop, take-drop-take, All, write_at,
  zeros, take-write_at,
}
use zmk_module_runtime_macro.Config.{Config}
use mathlib.Core.Path.{subst}
use zmk_module_runtime_macro.Slots.{Slots, slot_copy}
use zmk_module_runtime_macro.Slots.Invariant.{IsValid, contents}
use zmk_module_runtime_macro.Protocol.Frame.{
  Frame, payload_size, protocol_version, all_zeros, payload_tail_is_zero, init_response,
  blank_frame, set_success, with_payload, status_code, known_opcode, op_get,
}
use zmk_module_runtime_macro.Protocol.State.{Core, Env}
use zmk_module_runtime_macro.Protocol.Macros.{uint16_max, chunk_reply, get_reply, process_get}
use zmk_module_runtime_macro.Protocol.Dispatch.{manage, keep_session, dispatch, process_frame}
use zmk_module_runtime_macro.Protocol.Access.{note_auth-auth}
use zmk_module_runtime_macro.Protocol.Session.{Live, extended}
use zmk_module_runtime_macro.Protocol.Serve.{
  serve, Attended, noted_core, noted_core-Live, process_frame-manage, keep_session-success,
}

-- A GET frame for the part of a slot from an offset on.
abbrev pub get_frame : ℕ → ℕ → ℕ → Frame
get_frame id slot offset = record {
  version = protocol_version;
  opcode = 0x02;
  request_id = id;
  status = 0;
  slot = slot;
  payload_length = 0;
  offset = offset;
  total_length = 0;
  payload = zeros payload_size;
}

-- The part of a response's payload that its length names.
abbrev pub body : Frame → List ℕ
body f = take f.payload_length f.payload

unfoldable pub bodies : List Frame → List ℕ
bodies [] = []
bodies (f ∷ fs) = body f ++ bodies fs

-- GET frames at offset after offset, 22 bytes apart.
unfoldable pub get_frames : ℕ → ℕ → ℕ → List Env → List (Env × Frame)
get_frames id slot offset [] = []
get_frames id slot offset (env ∷ rest) =
    (env, get_frame id slot offset) ∷ get_frames id slot (offset + payload_size) rest

-- The bytes of a response to a GET at an offset.
abbrev part_length : ℕ → ℕ → ℕ
part_length offset total =
    if ltb payload_size (total - offset) then payload_size else total - offset

part_length-le : (offset total : ℕ) → part_length offset total ≤ payload_size
part_length-le offset total = ground arith

part_length_fits : (offset total : ℕ) → offset ≤ total → offset + part_length offset total ≤ total
part_length_fits offset total h = ground arith

-- The response to such a GET.
abbrev get_response : ℕ → ℕ → ℕ → List ℕ → ℕ → Frame
get_response id slot offset source total = set_success offset total (
    with_payload (part_length offset total) (drop offset source)
      (init_response (get_frame id slot offset)))

-- What a reader makes of the payload.
read_back :
    (n o size : ℕ) (xs buf : List ℕ)
    → o + n ≤ size
    → size < length xs
    → n ≤ length buf
    → take n (write_at 0 (take n (drop o (take (size + 1) xs))) buf) ≡ take n (drop o xs)
read_back n o size xs buf h full room =
    ap (λ ys. take n (write_at 0 ys buf)) (take-drop-take n o (size + 1) xs (omega arith))
    ∙ ap (λ k. take k (write_at 0 part buf)) (sym counted)
    ∙ take-write_at 0 part buf (omega (arith, counted))
  where
    part : List ℕ
    part = take n (drop o xs)

    counted : 0 + length part ≡ n
    counted = omega (arith, length-take_of_le n (drop o xs) (omega (arith, length-drop o xs)))

-- The part of a text that a response carries is all that 22 bytes can hold.
part_length-take :
    (o size : ℕ) (xs : List ℕ)
    → o ≤ size
    → size < length xs
    → take (part_length o size) (drop o xs) ≡ take payload_size (drop o (take size xs))
part_length-take o size xs h full =
    sym (take-drop-take (part_length o size) o size xs (part_length_fits o size h))
    ∙ elim (Bool-cases (ltb payload_size (size - o))) [
      | inl long ↦ rw long
      | inr short ↦ rw short (
          all_of_it (size - o) (omega (arith, sized))
          ∙ sym (all_of_it payload_size (in_payload short)))
    ]
  where
    rest : List ℕ
    rest = drop o (take size xs)

    sized : length rest ≡ size - o
    sized = omega (arith, length-drop o (take size xs), length-take_of_le size xs (omega arith))

    all_of_it : (n : ℕ) → length rest ≤ n → take n rest ≡ rest
    all_of_it n le = take_beyond n rest le

    in_payload : ltb payload_size (size - o) ≡ false → length rest ≤ payload_size
    in_payload short = rw sized (ground arith)

module _ (c : Config) (s : Slots) (valid : IsValid c s) (slot : ℕ) (lt : slot < c.slot_count)
    (small : c.max_text_len ≤ 256) where
  process_get-response :
      (id offset : ℕ)
      → offset ≤ s.size slot
      → process_get c (get_frame id slot offset) (init_response (get_frame id slot offset)) s
        ≡ get_response id slot offset (take (s.size slot + 1) (s.text slot)) (s.size slot)
  unfolding process_get slot_copy get_reply chunk_reply payload_tail_is_zero all_zeros
  process_get-response id offset h = rw (
    lt→ltb slot c.slot_count lt,
    leb-false (c.max_text_len + 1) (s.size slot) (omega (arith, (valid.slot slot lt).fits)),
    ltb-false uint16_max (s.size slot) (omega (arith, small, (valid.slot slot lt).fits)),
    ltb-false (s.size slot) offset h,
  )

  -- Its body is the part of the text at the offset.
  body-response :
      (id offset : ℕ)
      → offset ≤ s.size slot
      → body (get_response id slot offset (take (s.size slot + 1) (s.text slot)) (s.size slot))
        ≡ take payload_size (drop offset (contents s slot))
  unfolding set_success with_payload init_response blank_frame contents
  body-response id offset h =
      read_back (part_length offset (s.size slot)) offset (s.size slot) (s.text slot)
        (zeros payload_size) (part_length_fits offset (s.size slot) h) room
        (part_length-le offset (s.size slot))
      ∙ part_length-take offset (s.size slot) (s.text slot) h room
    where
      room : s.size slot < length (s.text slot)
      room = omega (arith, (valid.slot slot lt).full, (valid.slot slot lt).fits)

  -- What a GET leaves: the session is extended.
  abbrev after_get : ℕ → Core → Core
  after_get now k = record (noted_core c now k) {
    auth = extended c (noted_core c now k).auth.state now (noted_core c now k).auth;
  }

  after_get-Attended :
      (now : ℕ) (k : Core) (rest : List Env)
      → Attended c rest (extended c k.auth.state now k.auth)
      → Attended c rest (after_get now k).auth
  after_get-Attended now k rest h = rw (note_auth-auth c now k.auth.state k.auth.session_active k) h

  -- One GET of a client with access.
  process_frame-get :
      (env : Env) (id offset : ℕ) (k : Core)
      → offset ≤ s.size slot
      → Live env.now k.auth
      → process_frame c env (get_frame id slot offset) k s ≡ (
        get_response id slot offset (take (s.size slot + 1) (s.text slot)) (s.size slot),
        after_get env.now k,
        s,
      )
  unfolding dispatch
  process_frame-get env id offset k h live =
      process_frame-manage c env (get_frame id slot offset) op_get k s
        (record {
          version = refl;
          known = unfold known_opcode in refl;
          no_status = refl;
          fits = refl;
          tail = unfold payload_tail_is_zero all_zeros in refl;
        })
        (λ x. refl) live
      ∙ ap (keep_session c env.now) handling
      ∙ keep_session-success c env (get_frame id slot offset) _
          (noted_core-Live c env (get_frame id slot offset) k live)
          (unfold set_success status_code in refl)
    where
      handling :
          manage c op_get env
            (get_frame id slot offset)
            (init_response (get_frame id slot offset))
            (noted_core c env.now k)
            s
          ≡ (
            get_response id slot offset (take (s.size slot + 1) (s.text slot)) (s.size slot),
            noted_core c env.now k,
            s,
          )
      handling =
          unfold manage in
          ap (λ (f : Frame). (f, noted_core c env.now k, s)) (process_get-response id offset h)

  -- What a run of GETs comes to, from an offset on.
  abbrev pub ReadsBack : ℕ → ℕ → List Frame × Core × Slots → Type 0
  ReadsBack offset n x =
      All (λ (f : Frame). f.status ≡ 0) x.0
      × (bodies x.0 ≡ take n (drop offset (contents s slot)))
      × (x.2 ≡ s)

  one_read :
      (env : Env) (id offset n : ℕ) (k : Core) (rest : List (Env × Frame))
      → offset ≤ s.size slot
      → Live env.now k.auth
      → ReadsBack (offset + payload_size) n (serve c rest (after_get env.now k) s)
      → ReadsBack offset (payload_size + n) (serve c ((env, get_frame id slot offset) ∷ rest) k s)
  unfolding serve bodies
  one_read env id offset n k rest h live r = rw (process_frame-get env id offset k h live) (
    (unfold set_success status_code in refl, r.0),
    ap₂ (◌++◌) (body-response id offset h) r.1 ∙ joins,
    r.2,
  )
    where
      text : List ℕ
      text = contents s slot

      joins :
          take payload_size (drop offset text) ++ take n (drop (offset + payload_size) text)
          ≡ take (payload_size + n) (drop offset text)
      joins = sym (
          take_add payload_size n (drop offset text)
          ∙ ap (λ ys. take payload_size (drop offset text) ++ take n ys)
              (drop-drop offset payload_size text))

  pub reads_from :
      (envs : List Env) (id offset : ℕ) (k : Core)
      → offset + payload_size * length envs ≤ s.size slot + payload_size
      → Attended c envs k.auth
      → ReadsBack offset (payload_size * length envs) (serve c (get_frames id slot offset envs) k s)
  unfolding get_frames Attended
  reads_from [] id offset k h live = unfold serve bodies in (tt, refl, refl)
  reads_from (env ∷ rest) id offset k h live =
      subst (λ n. ReadsBack offset n (serve c (get_frames id slot offset (env ∷ rest)) k s))
        (one_more (length rest))
        (one_read env id offset (payload_size * length rest) k _ (omega arith) live.0 (
          reads_from rest id (offset + payload_size) (after_get env.now k) (omega arith)
            (after_get-Attended env.now k rest live.1)))
    where
      one_more : (n : ℕ) → payload_size + payload_size * n ≡ payload_size * suc n
      one_more n = omega arith
