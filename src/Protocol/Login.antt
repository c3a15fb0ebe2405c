-- ===== src/Protocol/Login.antt =====
-- runtime_macro_protocol.c: the handlers of AUTH_INFO, AUTH_CHALLENGE, AUTH_PROVE, PASSWORD_SET and
-- LOCK, which work on the authentication.
use zmk_module_runtime_macro.Base.{
  ℕ, ◌+◌, ◌-◌, ◌%◌, ◌^◌, Bool, true, not, ◌||◌, some, List, ◌∷◌, ◌++◌, ltb, ◌==◌, if◌then◌else◌,
  take, drop, write_at,
}
use zmk_module_runtime_macro.Config.{
  Config, Errno, einval, enoent, enodata, eperm, eagain, eacces, Result, ok, err, Status,
}
use zmk_module_runtime_macro.Auth.State.{
  AuthState, state_error_locked, Credential, AuthInfo, salt_size, key_size, nonce_size, proof_size,
  get_info,
}
use zmk_module_runtime_macro.Auth.Ops.{lock, generate_challenge, verify_proof, set_credential}
use zmk_module_runtime_macro.Protocol.Frame.{
  Frame, list_slot, get_u32, put_u32, FrameStatus, bad_request, bad_offset, bad_length,
  storage_error, internal, auth_required, auth_failed, auth_not_configured, rate_limited,
  auth_no_challenge, credential_invalid, set_error_frame, set_success, with_payload,
  has_empty_object,
}
use zmk_module_runtime_macro.Protocol.State.{
  Protocol, Core, Env, state_code, password_set_length, clear_password_set, discard,
  refresh_protected_session,
}

-- The payload of AUTH_INFO; the two flags are apart, so `|=` is a sum.
unfoldable pub info_payload : AuthInfo → List ℕ
info_payload info =
    ((if state_code info.state == 1 then 1 else 0) + (if info.session_authenticated then 2 else 0))
      ∷ info.kdf_id
      ∷ put_u32 info.iterations
    ++ info.salt

-- The response to AUTH_INFO, by the state.
unfoldable pub info_response : AuthState → AuthInfo → Frame → Frame
info_response state_error_locked info response = set_error_frame credential_invalid response
info_response state info response = set_success 0 22 (with_payload 22 (info_payload info) response)

-- What AUTH_INFO, AUTH_CHALLENGE and LOCK refuse.
abbrev pub is_bad_object : Frame → Bool
is_bad_object request = not (request.slot == list_slot) || not (has_empty_object request)

-- runtime_macro_protocol_process_auth_info
unfoldable pub process_auth_info : Env → Frame → Frame → Core → Frame × Core
process_auth_info env request response k =
    if is_bad_object request
    then (set_error_frame bad_request response, k)
    else (let q = get_info env.now k.auth in
        (info_response q.0.state q.0 response, record k { auth = q.1 }))

-- runtime_macro_protocol_map_challenge_error
unfoldable pub map_challenge_error : Errno → FrameStatus
map_challenge_error enodata = auth_not_configured
map_challenge_error eagain = rate_limited
map_challenge_error eperm = credential_invalid
map_challenge_error e = internal

-- runtime_macro_protocol_map_proof_error
unfoldable pub map_proof_error : Errno → FrameStatus
map_proof_error enodata = auth_not_configured
map_proof_error enoent = auth_no_challenge
map_proof_error eagain = rate_limited
map_proof_error eacces = auth_failed
map_proof_error eperm = credential_invalid
map_proof_error e = internal

unfoldable pub challenge_response : Result (List ℕ) → Frame → Frame
challenge_response (err e) response = set_error_frame (map_challenge_error e) response
challenge_response (ok nonce) response =
    set_success 0 nonce_size (with_payload nonce_size nonce response)

unfoldable pub prove_response : Status → Frame → Frame
prove_response (err e) response = set_error_frame (map_proof_error e) response
prove_response (ok u) response = set_success 0 0 response

-- The credential in the staging buffer of PASSWORD_SET.
unfoldable pub staged_credential : List ℕ → Credential
staged_credential staging = record {
  iterations = get_u32 staging;
  salt = take salt_size (drop 4 staging);
  key = take key_size (drop (4 + salt_size) staging);
}

-- The transaction after its first chunk, and after a later one.
unfoldable pub first_password_chunk : Frame → Protocol → Protocol
first_password_chunk request p = record p {
  password_set_active = true;
  password_set_request_id = request.request_id;
  password_set_total_length = request.total_length;
  password_set_received_length = request.payload_length;
  password_set_staging =
      write_at 0 (take request.payload_length request.payload) p.password_set_staging;
}

unfoldable pub later_password_chunk : Frame → Protocol → Protocol
later_password_chunk request p = record p {
  password_set_staging =
      write_at request.offset (take request.payload_length request.payload) p.password_set_staging;
  password_set_received_length = (p.password_set_received_length + request.payload_length) % 2 ^ 16;
}

-- Whether a later chunk is one of another transaction.
unfoldable pub is_foreign_password_chunk : Frame → Protocol → Bool
is_foreign_password_chunk request p =
    not p.password_set_active
    || not (p.password_set_request_id == request.request_id)
    || not (p.password_set_total_length == request.total_length)

-- A branch of runtime_macro_protocol_process_password_set that gives the transaction up.
abbrev pub refuse_password : FrameStatus → Frame → Core → Frame × Core
refuse_password status response k =
    (set_error_frame status response, record k { protocol = clear_password_set k.protocol })

module _ (c : Config) where
  -- runtime_macro_protocol_process_auth_challenge
  unfoldable pub process_auth_challenge : Env → Frame → Frame → Core → Frame × Core
  process_auth_challenge env request response k =
      if is_bad_object request
      then (set_error_frame bad_request response, k)
      else (let q = generate_challenge c env.now nonce_size env.random k.auth in
          (challenge_response q.0 response, record k { auth = q.1 }))

  -- runtime_macro_protocol_process_auth_prove
  unfoldable pub process_auth_prove : Env → Frame → Frame → Core → Frame × Core
  process_auth_prove env request response k =
      if not (request.slot == list_slot)
      then (set_error_frame bad_request response, discard c env.now k)
      else if not (request.offset == 0)
          || not (request.total_length == proof_size)
          || not (request.payload_length == proof_size)
      then (set_error_frame bad_length response, discard c env.now k)
      else (let q = verify_proof c env.hmac env.now (some request.payload) proof_size k.auth in
          (prove_response q.0 response, discard c env.now (record k { auth = q.1 })))

  -- The end of PASSWORD_SET, by what zmk_runtime_macro_auth_set_credential returns.
  unfoldable pub password_reply : Status → ℕ → Frame → Core → Frame × Core
  password_reply (ok u) now response k =
      (set_success password_set_length password_set_length response, discard c now k)
  password_reply (err einval) now response k = (set_error_frame credential_invalid response, k)
  password_reply (err eperm) now response k = (set_error_frame credential_invalid response, k)
  password_reply (err eacces) now response k =
      (set_error_frame auth_required response, discard c now k)
  password_reply (err e) now response k = (set_error_frame storage_error response, k)

  -- Its part once the chunk is in the staging buffer.
  unfoldable pub after_password_chunk : Env → Frame → Core → Frame × Core
  after_password_chunk env response k =
      let p = k.protocol in
      if not (p.password_set_received_length == p.password_set_total_length)
      then refresh_protected_session c env.now
          (set_success p.password_set_received_length p.password_set_total_length response) k
      else (let q =
            set_credential env.now (some (staged_credential p.password_set_staging)) env.io.save
              env.meanwhile k.auth in
          password_reply q.0 env.now response
            (record k { auth = q.2; protocol = clear_password_set p }))

  -- runtime_macro_protocol_process_password_set
  unfoldable pub process_password_set : Env → Frame → Frame → Core → Frame × Core
  process_password_set env request response k =
      let p = k.protocol in
      if not (request.slot == list_slot)
      then refuse_password bad_request response k
      else if not (request.total_length == password_set_length)
      then refuse_password bad_length response k
      else if ltb request.total_length request.offset
      then refuse_password bad_offset response k
      else if request.payload_length == 0
          || ltb (request.total_length - request.offset) request.payload_length
      then refuse_password bad_length response k
      else if request.offset == 0
      then after_password_chunk env response
          (record k { protocol = first_password_chunk request (clear_password_set p) })
      else if is_foreign_password_chunk request p
      then refuse_password bad_request response k
      else if not (request.offset == p.password_set_received_length)
      then refuse_password bad_offset response k
      else after_password_chunk env response
          (record k { protocol = later_password_chunk request p })

  -- runtime_macro_protocol_process_lock
  unfoldable pub process_lock : Env → Frame → Frame → Core → Frame × Core
  process_lock env request response k =
      if is_bad_object request
      then (set_error_frame bad_request response, k)
      else (set_success 0 0 response, discard c env.now (record k { auth = lock k.auth }))
