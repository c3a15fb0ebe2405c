-- ===== src/Protocol/Gate/Kept.antt =====
-- What the handlers leave of the credential: none but PASSWORD_SET can change it.
use zmk_module_runtime_macro.Base.{ℕ, ◌≡◌, ◌∙◌, some, List, arith, if_field, Holds, Holds-if}
use zmk_module_runtime_macro.Config.{Config, Result, ok, err, Status, done}
use zmk_module_runtime_macro.Auth.State.{
  AuthState, state_open, state_protected, state_error_locked, Credential, Auth, expire_session,
  clear_challenge, clear_session, clear_failure, clear_transient, record_failure, get_info,
  nonce_size, proof_size,
}
use zmk_module_runtime_macro.Auth.Ops.{
  Hmac, store_challenge, challenge_for, generate_challenge, judge_proof, proof_for, verify_proof,
  lock,
}
use zmk_module_runtime_macro.Protocol.Frame.{Frame}
use zmk_module_runtime_macro.Protocol.State.{
  Core, Env, release_timeout, end_dynamic, refresh_dynamic_timeout, clear_dynamic,
  clear_dynamic_built, discard, discard_for_opcode,
}
use zmk_module_runtime_macro.Protocol.Volatile.{
  kept_or_cleared, open_transaction, process_dynamic_begin, advance, after_append,
  process_dynamic_data, process_dynamic_clear,
}
use zmk_module_runtime_macro.Protocol.Login.{
  process_auth_info, process_auth_challenge, process_auth_prove, process_lock,
}

-- A core whose credential is a given one, and a handler's result with such a core.
abbrev pub HasCredential : Credential → Core → Type 0
HasCredential a k = k.auth.credential ≡ a

abbrev pub LeavesCredential : Credential → Frame × Core → Type 0
LeavesCredential a x = HasCredential a x.1

abbrev ReturnsCredential : Credential → Status × Core → Type 0
ReturnsCredential a x = HasCredential a x.1

pub expire_session-credential :
    (now : ℕ) (a : Auth) → (expire_session now a).credential ≡ a.credential
unfolding expire_session clear_challenge clear_session
expire_session-credential now a = ground arith

abbrev AuthHas : Credential → Auth → Type 0
AuthHas a x = x.credential ≡ a

abbrev AnswersWith : {B : Type 0} → Credential → B × Auth → Type 0
AnswersWith a x = x.1.credential ≡ a

lock-AuthHas : (a : Credential) (x : Auth) → Holds (AuthHas a) x → Holds (AuthHas a) (lock x)
unfolding lock clear_transient clear_challenge clear_session
lock-AuthHas a x h = record { at = h.at }

-- The operations of the authentication.
module _ (c : Config) (a : Credential) where
  expire_session-AuthHas :
      (now : ℕ) (x : Auth) → Holds (AuthHas a) x → Holds (AuthHas a) (expire_session now x)
  expire_session-AuthHas now x h = record { at = expire_session-credential now x ∙ h.at }

  store_challenge-AuthHas :
      (now : ℕ) (r : Result (List ℕ)) (x : Auth)
      → Holds (AuthHas a) x
      → Holds (AnswersWith {B = Result (List ℕ)} a) (store_challenge c now r x)
  unfolding store_challenge
  store_challenge-AuthHas now (ok nonce) x h = record { at = h.at }
  store_challenge-AuthHas now (err e) x h = record { at = h.at }

  challenge_cleared : (x : Auth) → Holds (AuthHas a) x → Holds (AuthHas a) (clear_challenge x)
  unfolding clear_challenge
  challenge_cleared x h = record { at = h.at }

  session_cleared : (x : Auth) → Holds (AuthHas a) x → Holds (AuthHas a) (clear_session x)
  unfolding clear_session
  session_cleared x h = record { at = h.at }

  challenge_for-AuthHas :
      (s : AuthState) (now : ℕ) (random : Result (List ℕ)) (x : Auth)
      → Holds (AuthHas a) x
      → Holds (AnswersWith {B = Result (List ℕ)} a) (challenge_for c s now random x)
  unfolding challenge_for
  challenge_for-AuthHas state_open now random x h = record { at = h.at }
  challenge_for-AuthHas state_error_locked now random x h = record { at = h.at }
  challenge_for-AuthHas state_protected now random x h =
      search (Holds-if, challenge_cleared, store_challenge-AuthHas)

  generate_challenge-AuthHas :
      (now size : ℕ) (random : Result (List ℕ)) (x : Auth)
      → Holds (AuthHas a) x
      → Holds (AnswersWith {B = Result (List ℕ)} a) (generate_challenge c now size random x)
  unfolding generate_challenge
  generate_challenge-AuthHas now size random x h =
      search (Holds-if, challenge_for-AuthHas, expire_session-AuthHas)

  judge_proof-AuthHas :
      (now : ℕ) (proof : List ℕ) (r : Result (List ℕ)) (x : Auth)
      → Holds (AuthHas a) x
      → Holds (AnswersWith {B = Status} a) (judge_proof c now proof r x)
  unfolding judge_proof record_failure clear_failure
  judge_proof-AuthHas now proof (err e) x h = record { at = h.at }
  judge_proof-AuthHas now proof (ok expected) x h = search Holds-if

  proof_for-AuthHas :
      (s : AuthState) (hmac : Hmac) (now : ℕ) (proof : List ℕ) (x : Auth)
      → Holds (AuthHas a) x
      → Holds (AnswersWith {B = Status} a) (proof_for c s hmac now proof x)
  unfolding proof_for
  proof_for-AuthHas state_open hmac now proof x h = record { at = h.at }
  proof_for-AuthHas state_error_locked hmac now proof x h = record { at = h.at }
  proof_for-AuthHas state_protected hmac now proof x h =
      search (Holds-if, challenge_cleared, session_cleared, judge_proof-AuthHas)

  verify_proof-AuthHas :
      (hmac : Hmac) (now : ℕ) (proof : List ℕ) (size : ℕ) (x : Auth)
      → Holds (AuthHas a) x
      → Holds (AnswersWith {B = Status} a) (verify_proof c hmac now (some proof) size x)
  unfolding verify_proof
  verify_proof-AuthHas hmac now proof size x h =
      search (Holds-if, proof_for-AuthHas, expire_session-AuthHas)

-- The rules for the core, and the handlers.
module _ (c : Config) (a : Credential) where
  pub in_pair :
      (f : Frame) (k : Core) → Holds (HasCredential a) k → Holds (LeavesCredential a) (f, k)
  in_pair f k h = record { at = h.at }

  with_auth :
      (x : Auth) (k : Core) → Holds (AuthHas a) x → Holds (HasCredential a) (record k { auth = x })
  with_auth x k h = record { at = h.at }

  challenged :
      (env : Env) (k : Core)
      → Holds (HasCredential a) k
      → Holds
          (HasCredential a)
          (record k { auth = (generate_challenge c env.now nonce_size env.random k.auth).1 })
  challenged env k h = record {
    at = (generate_challenge-AuthHas c a _ _ _ k.auth (record { at = h.at })).at;
  }

  proved :
      (env : Env) (proof : List ℕ) (k : Core)
      → Holds (HasCredential a) k
      → Holds
          (HasCredential a)
          (record k { auth = (verify_proof c env.hmac env.now (some proof) proof_size k.auth).1 })
  proved env proof k h = record {
    at = (verify_proof-AuthHas c a _ _ _ _ k.auth (record { at = h.at })).at;
  }

  of_core : (k : Core) → Holds (HasCredential a) k → Holds (AuthHas a) k.auth
  of_core k h = record { at = h.at }

  end_dynamic-HasCredential :
      (k : Core) → Holds (HasCredential a) k → Holds (HasCredential a) (end_dynamic k)
  unfolding end_dynamic release_timeout
  end_dynamic-HasCredential k h = record {
    at = if_field (λ (x : Core). x.auth.credential) _ _ _ _ h.at h.at;
  }

  clear_dynamic-HasCredential :
      (now : ℕ) (k : Core)
      → Holds (HasCredential a) k
      → Holds (HasCredential a) (clear_dynamic c now k)
  unfolding clear_dynamic release_timeout
  clear_dynamic-HasCredential now k h = record {
    at = if_field (λ (x : Core). x.auth.credential) _ _ _ _ h.at h.at;
  }

  clear_dynamic_built-HasCredential :
      (now : ℕ) (k : Core)
      → Holds (HasCredential a) k
      → Holds (HasCredential a) (clear_dynamic_built c now k)
  unfolding clear_dynamic_built
  clear_dynamic_built-HasCredential now k h = search (Holds-if, clear_dynamic-HasCredential)

  pub discard-HasCredential :
      (now : ℕ) (k : Core) → Holds (HasCredential a) k → Holds (HasCredential a) (discard c now k)
  unfolding discard
  discard-HasCredential now k h = record { at = (clear_dynamic_built-HasCredential now k h).at }

  pub discard_for_opcode-HasCredential :
      (now opcode : ℕ) (k : Core)
      → Holds (HasCredential a) k
      → Holds (HasCredential a) (discard_for_opcode c now opcode k)
  unfolding discard_for_opcode
  discard_for_opcode-HasCredential now opcode k h =
      search (Holds-if, clear_dynamic_built-HasCredential) depth 10

  kept_or_cleared-HasCredential :
      (now : ℕ) (x : Status × Core)
      → Holds (ReturnsCredential a) x
      → Holds (ReturnsCredential a) (kept_or_cleared c now x)
  unfolding kept_or_cleared
  kept_or_cleared-HasCredential now (ok u, k) h = record { at = h.at }
  kept_or_cleared-HasCredential now (err e, k) h = record {
    at = (clear_dynamic-HasCredential now k (record { at = h.at })).at;
  }

  refresh-HasCredential :
      (env : Env) (k : Core)
      → Holds (HasCredential a) k
      → Holds (ReturnsCredential a) (kept_or_cleared c env.now (refresh_dynamic_timeout env k))
  refresh-HasCredential env k h =
      kept_or_cleared-HasCredential env.now _
        (unfold refresh_dynamic_timeout in record { at = h.at })

  open_transaction-HasCredential :
      (r : Status) (env : Env) (q : Frame) (k : Core)
      → Holds (HasCredential a) k
      → Holds (ReturnsCredential a) (open_transaction c r env q k)
  unfolding open_transaction
  open_transaction-HasCredential (ok u) env q k h =
      refresh-HasCredential env _ (record { at = h.at })
  open_transaction-HasCredential (err e) env q k h = record {
    at = (clear_dynamic-HasCredential env.now k h).at;
  }

  opened :
      (f : Frame) (x : Status × Core)
      → Holds (ReturnsCredential a) x
      → Holds (LeavesCredential a) (f, x.1)
  opened f x h = record { at = h.at }

  pub process_dynamic_begin-LeavesCredential :
      (env : Env) (q r : Frame) (k : Core)
      → Holds (HasCredential a) k
      → Holds (LeavesCredential a) (process_dynamic_begin c env q r k)
  unfolding process_dynamic_begin
  process_dynamic_begin-LeavesCredential env q r k h =
      search
        (Holds-if, in_pair, clear_dynamic-HasCredential, opened, open_transaction-HasCredential)
        depth 12

  ended : (k : Core) → Holds (HasCredential a) k → Holds (ReturnsCredential a) (done, k)
  ended k h = record { at = h.at }

  advance-HasCredential :
      (env : Env) (next : ℕ) (k : Core)
      → Holds (HasCredential a) k
      → Holds (ReturnsCredential a) (advance c env next k)
  unfolding advance
  advance-HasCredential env next k h =
      search (Holds-if, ended, end_dynamic-HasCredential, refresh-HasCredential)

  after_append-LeavesCredential :
      (w : Status) (env : Env) (q r : Frame) (k : Core)
      → Holds (HasCredential a) k
      → Holds (LeavesCredential a) (after_append c w env q r k)
  unfolding after_append
  after_append-LeavesCredential (ok u) env q r k h = opened _ _ (advance-HasCredential env _ k h)
  after_append-LeavesCredential (err e) env q r k h =
      in_pair _ _ (clear_dynamic-HasCredential env.now k h)

  pub process_dynamic_data-LeavesCredential :
      (env : Env) (q r : Frame) (k : Core)
      → Holds (HasCredential a) k
      → Holds (LeavesCredential a) (process_dynamic_data c env q r k)
  unfolding process_dynamic_data
  process_dynamic_data-LeavesCredential env q r k h =
      search (Holds-if, in_pair, clear_dynamic-HasCredential, after_append-LeavesCredential) depth
        12

  pub process_dynamic_clear-LeavesCredential :
      (env : Env) (q r : Frame) (k : Core)
      → Holds (HasCredential a) k
      → Holds (LeavesCredential a) (process_dynamic_clear c env q r k)
  unfolding process_dynamic_clear
  process_dynamic_clear-LeavesCredential env q r k h =
      search (Holds-if, in_pair, end_dynamic-HasCredential) depth 12

  pub process_auth_info-LeavesCredential :
      (env : Env) (q r : Frame) (k : Core)
      → Holds (HasCredential a) k
      → Holds (LeavesCredential a) (process_auth_info env q r k)
  unfolding process_auth_info get_info
  process_auth_info-LeavesCredential env q r k h =
      search (Holds-if, in_pair, with_auth, expire_session-AuthHas, of_core)

  pub process_auth_challenge-LeavesCredential :
      (env : Env) (q r : Frame) (k : Core)
      → Holds (HasCredential a) k
      → Holds (LeavesCredential a) (process_auth_challenge c env q r k)
  unfolding process_auth_challenge
  process_auth_challenge-LeavesCredential env q r k h = search (Holds-if, in_pair, challenged)

  pub process_auth_prove-LeavesCredential :
      (env : Env) (q r : Frame) (k : Core)
      → Holds (HasCredential a) k
      → Holds (LeavesCredential a) (process_auth_prove c env q r k)
  unfolding process_auth_prove
  process_auth_prove-LeavesCredential env q r k h =
      search (Holds-if, in_pair, discard-HasCredential, proved) depth 12

  pub process_lock-LeavesCredential :
      (env : Env) (q r : Frame) (k : Core)
      → Holds (HasCredential a) k
      → Holds (LeavesCredential a) (process_lock c env q r k)
  unfolding process_lock
  process_lock-LeavesCredential env q r k h =
      search (Holds-if, in_pair, with_auth, discard-HasCredential, lock-AuthHas, of_core) depth 8
