-- ===== src/Protocol/Shape/Handlers.antt =====
-- The form of the responses, handler by handler.
use zmk_module_runtime_macro.Base.{ℕ, Option, none, some, List}
use zmk_module_runtime_macro.Config.{Config, Errno, einval, eperm, eacces, Result, ok, err, Status}
use zmk_module_runtime_macro.Slots.{Slots, Backend}
use zmk_module_runtime_macro.Auth.State.{
  AuthState, state_open, state_protected, state_error_locked, AuthInfo,
}
use zmk_module_runtime_macro.Protocol.Frame.{Frame}
use zmk_module_runtime_macro.Protocol.State.{
  Protocol, Core, Env, after_refresh, refresh_for, refresh_protected_session,
}
use zmk_module_runtime_macro.Protocol.Macros.{
  chunk_reply, commit_response, list_reply, process_list, get_reply, process_get, commit_set,
  after_chunk, place_chunk, process_set, clear_reply, process_clear,
}
use zmk_module_runtime_macro.Protocol.Volatile.{
  process_capabilities, begin_response, process_dynamic_begin, data_response, after_append,
  process_dynamic_data, process_dynamic_clear,
}
use zmk_module_runtime_macro.Protocol.Login.{
  info_response, process_auth_info, challenge_response, prove_response, process_auth_challenge,
  process_auth_prove, password_reply, after_password_chunk, process_password_set, process_lock,
}
use zmk_module_runtime_macro.Protocol.Shape.{
  Answers, Replies, Replies-if, itself, of_core, of_set, of_clear, in_core, in_set, in_clear,
  error_reply, success_reply, body_reply,
}

module _ (c : Config) (q : Frame) where
  -- Once the response of a handler is well formed, so is what the refresh makes of it.
  after_refresh-Replies :
      (a : Status) (now : ℕ) (r : Frame) (k : Core)
      → Answers q r
      → Replies of_core q (after_refresh c a now r k)
  unfolding after_refresh
  after_refresh-Replies (ok u) now r k h = record { at = h }
  after_refresh-Replies (err e) now r k h = in_core q _ _ (error_reply q r h _)

  refresh_for-Replies :
      (a : AuthState) (now : ℕ) (r : Frame) (k : Core)
      → Answers q r
      → Replies of_core q (refresh_for c a now r k)
  unfolding refresh_for
  refresh_for-Replies state_open now r k h = record { at = h }
  refresh_for-Replies state_error_locked now r k h = record { at = h }
  refresh_for-Replies state_protected now r k h = after_refresh-Replies _ now r _ h

  pub refresh_protected_session-Replies :
      (now : ℕ) (r : Frame) (k : Core)
      → Answers q r
      → Replies of_core q (refresh_protected_session c now r k)
  unfolding refresh_protected_session
  refresh_protected_session-Replies now r k h = refresh_for-Replies _ now r _ h

module _ (c : Config) (q r : Frame) (h : Answers q r) where
  chunk_reply-Replies :
      (bytes : List ℕ) (total : ℕ) → Replies itself q (chunk_reply q r bytes total)
  unfolding chunk_reply
  chunk_reply-Replies bytes total = search (Replies-if, error_reply, body_reply)

  list_reply-Replies : (o : Option (List ℕ)) → Replies itself q (list_reply c q r o)
  unfolding list_reply
  list_reply-Replies none = error_reply q r h _
  list_reply-Replies (some lengths) = chunk_reply-Replies _ _

  pub process_list-Replies : (s : Slots) → Replies itself q (process_list c q r s)
  unfolding process_list
  process_list-Replies s = search (Replies-if, error_reply, list_reply-Replies)

  get_reply-Replies : (o : Result (List ℕ × ℕ)) → Replies itself q (get_reply c q r o)
  unfolding get_reply
  get_reply-Replies (err e) = error_reply q r h _
  get_reply-Replies (ok snapshot) = search (Replies-if, error_reply, chunk_reply-Replies)

  pub process_get-Replies : (s : Slots) → Replies itself q (process_get c q r s)
  unfolding process_get
  process_get-Replies s = search (Replies-if, error_reply, get_reply-Replies)

  commit_response-Replies :
      (a : Status) (next total : ℕ) → Replies itself q (commit_response a next total r)
  unfolding commit_response
  commit_response-Replies (ok u) next total = success_reply q r h next total
  commit_response-Replies (err e) next total = by_error e
    where
      by_error : (e : Errno) → Replies itself q (commit_response (err e) next total r)
      by_error einval = error_reply q r h _
      by_error e = error_reply q r h _

  after_chunk-Replies :
      (io : Backend) (p : Protocol) (s : Slots) → Replies of_set q (after_chunk c io r p s)
  unfolding after_chunk commit_set
  after_chunk-Replies io p s = search (Replies-if, in_set, success_reply, commit_response-Replies)

  place_chunk-Replies :
      (io : Backend) (p : Protocol) (s : Slots) → Replies of_set q (place_chunk c io q r p s)
  unfolding place_chunk
  place_chunk-Replies io p s = search (Replies-if, in_set, error_reply, after_chunk-Replies)

  pub process_set-Replies :
      (io : Backend) (p : Protocol) (s : Slots) → Replies of_set q (process_set c io q r p s)
  unfolding process_set
  process_set-Replies io p s =
      search (Replies-if, in_set, error_reply, place_chunk-Replies) depth 10

  clear_reply-Replies : (a : Status) → Replies itself q (clear_reply c a r)
  unfolding clear_reply
  clear_reply-Replies (ok u) = success_reply q r h 0 0
  clear_reply-Replies (err e) = error_reply q r h _

  pub process_clear-Replies :
      (io : Backend) (s : Slots) → Replies of_clear q (process_clear c io q r s)
  unfolding process_clear
  process_clear-Replies io s = search (Replies-if, in_clear, error_reply, clear_reply-Replies)

  pub process_capabilities-Replies : Replies itself q (process_capabilities c q r)
  unfolding process_capabilities
  process_capabilities-Replies = search (Replies-if, error_reply, body_reply)

  begin_response-Replies : (a : Status) (total : ℕ) → Replies itself q (begin_response c a total r)
  unfolding begin_response
  begin_response-Replies (ok u) total = success_reply q r h 0 total
  begin_response-Replies (err e) total = error_reply q r h _

  pub process_dynamic_begin-Replies :
      (env : Env) (k : Core) → Replies of_core q (process_dynamic_begin c env q r k)
  unfolding process_dynamic_begin
  process_dynamic_begin-Replies env k =
      search (Replies-if, in_core, error_reply, begin_response-Replies) depth 10

  data_response-Replies :
      (a : Status) (next total : ℕ) → Replies itself q (data_response c a next total r)
  unfolding data_response
  data_response-Replies (ok u) next total = success_reply q r h next total
  data_response-Replies (err e) next total = error_reply q r h _

  after_append-Replies :
      (a : Status) (env : Env) (k : Core) → Replies of_core q (after_append c a env q r k)
  unfolding after_append
  after_append-Replies (err e) env k = in_core q _ _ (error_reply q r h _)
  after_append-Replies (ok u) env k = in_core q _ _ (data_response-Replies _ _ _)

  pub process_dynamic_data-Replies :
      (env : Env) (k : Core) → Replies of_core q (process_dynamic_data c env q r k)
  unfolding process_dynamic_data
  process_dynamic_data-Replies env k =
      search (Replies-if, in_core, error_reply, after_append-Replies) depth 10

  pub process_dynamic_clear-Replies :
      (env : Env) (k : Core) → Replies of_core q (process_dynamic_clear c env q r k)
  unfolding process_dynamic_clear
  process_dynamic_clear-Replies env k = search (Replies-if, in_core, error_reply, success_reply)

  info_response-Replies : (a : AuthState) (i : AuthInfo) → Replies itself q (info_response a i r)
  unfolding info_response
  info_response-Replies state_error_locked i = error_reply q r h _
  info_response-Replies state_open i = body_reply q r h _ _ _ _
  info_response-Replies state_protected i = body_reply q r h _ _ _ _

  pub process_auth_info-Replies :
      (env : Env) (k : Core) → Replies of_core q (process_auth_info env q r k)
  unfolding process_auth_info
  process_auth_info-Replies env k = search (Replies-if, in_core, error_reply, info_response-Replies)

  challenge_response-Replies : (a : Result (List ℕ)) → Replies itself q (challenge_response a r)
  unfolding challenge_response
  challenge_response-Replies (err e) = error_reply q r h _
  challenge_response-Replies (ok nonce) = body_reply q r h _ _ _ _

  pub process_auth_challenge-Replies :
      (env : Env) (k : Core) → Replies of_core q (process_auth_challenge c env q r k)
  unfolding process_auth_challenge
  process_auth_challenge-Replies env k =
      search (Replies-if, in_core, error_reply, challenge_response-Replies)

  prove_response-Replies : (a : Status) → Replies itself q (prove_response a r)
  unfolding prove_response
  prove_response-Replies (err e) = error_reply q r h _
  prove_response-Replies (ok u) = success_reply q r h 0 0

  pub process_auth_prove-Replies :
      (env : Env) (k : Core) → Replies of_core q (process_auth_prove c env q r k)
  unfolding process_auth_prove
  process_auth_prove-Replies env k =
      search (Replies-if, in_core, error_reply, prove_response-Replies)

  password_reply-Replies :
      (a : Status) (now : ℕ) (k : Core) → Replies of_core q (password_reply c a now r k)
  unfolding password_reply
  password_reply-Replies (ok u) now k = in_core q _ _ (success_reply q r h _ _)
  password_reply-Replies (err e) now k = by_error e
    where
      by_error : (e : Errno) → Replies of_core q (password_reply c (err e) now r k)
      by_error einval = in_core q _ _ (error_reply q r h _)
      by_error eperm = in_core q _ _ (error_reply q r h _)
      by_error eacces = in_core q _ _ (error_reply q r h _)
      by_error e = in_core q _ _ (error_reply q r h _)

  after_password_chunk-Replies :
      (env : Env) (k : Core) → Replies of_core q (after_password_chunk c env r k)
  unfolding after_password_chunk
  after_password_chunk-Replies env k =
      Replies-if _ _ _ (refresh_protected_session-Replies c q _ _ _ (success_reply q r h _ _).at)
        (password_reply-Replies _ _ _)

  pub process_password_set-Replies :
      (env : Env) (k : Core) → Replies of_core q (process_password_set c env q r k)
  unfolding process_password_set
  process_password_set-Replies env k =
      search (Replies-if, in_core, error_reply, after_password_chunk-Replies) depth 10

  pub process_lock-Replies : (env : Env) (k : Core) → Replies of_core q (process_lock c env q r k)
  unfolding process_lock
  process_lock-Replies env k = search (Replies-if, in_core, error_reply, success_reply)
