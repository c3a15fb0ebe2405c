-- ===== src/Protocol/Invariant/Accounts.antt =====
-- The handlers of the authentication and of PASSWORD_SET keep the invariant of a context.
use zmk_module_runtime_macro.Base.{
  ℕ, ◌+◌, ◌-◌, ◌%◌, ◌^◌, ◌≤◌, ◌<◌, ◌≡◌, ◌∙◌, true, false, not, ◌||◌, arith, ltb, ◌==◌, Holds,
  Holds-if, length, zeros, length-write_at,
}
use zmk_module_runtime_macro.Config.{Config, Errno, einval, eperm, eacces, ok, err, Status}
use zmk_module_runtime_macro.Slots.Invariant.{}
use zmk_module_runtime_macro.Dynamic.Invariant.{IsValid}
use zmk_module_runtime_macro.Protocol.Frame.{Frame, FrameStatus}
use zmk_module_runtime_macro.Protocol.State.{
  Protocol, Core, Env, password_set_length, clear_password_set,
}
use zmk_module_runtime_macro.Protocol.Login.{
  process_auth_info, process_auth_challenge, process_auth_prove, first_password_chunk,
  later_password_chunk, is_foreign_password_chunk, password_reply, after_password_chunk,
  process_password_set, process_lock, refuse_password,
}
use zmk_module_runtime_macro.Protocol.Invariant.{
  ContextIsValid, CoreIsValid, Holds-case, no_password, with_auth, password_dropped,
  discard-CoreIsValid,
}
use zmk_module_runtime_macro.Protocol.Invariant.Access.{refresh_protected_session-CoreIsValid}
use zmk_module_runtime_macro.Protocol.Invariant.Handlers.{LeavesValid, in_pair}

-- Between a chunk and the end of PASSWORD_SET: the transaction may be complete.
record PasswordChunked (c : Config) (p : Protocol) : Type 0 where
  room : length p.password_set_staging ≡ password_set_length
  whole : p.password_set_total_length ≡ password_set_length
  received_le : p.password_set_received_length ≤ p.password_set_total_length
  others : ContextIsValid c (clear_password_set p)

module _ (c : Config) where
  pub process_auth_info-LeavesValid :
      (env : Env) (q r : Frame) (k : Core)
      → Holds (CoreIsValid c) k
      → Holds (LeavesValid c) (process_auth_info env q r k)
  unfolding process_auth_info
  process_auth_info-LeavesValid env q r k h = search (Holds-if, in_pair, with_auth)

  pub process_auth_challenge-LeavesValid :
      (env : Env) (q r : Frame) (k : Core)
      → Holds (CoreIsValid c) k
      → Holds (LeavesValid c) (process_auth_challenge c env q r k)
  unfolding process_auth_challenge
  process_auth_challenge-LeavesValid env q r k h = search (Holds-if, in_pair, with_auth)

  pub process_auth_prove-LeavesValid :
      (env : Env) (q r : Frame) (k : Core)
      → Holds (CoreIsValid c) k
      → Holds (LeavesValid c) (process_auth_prove c env q r k)
  unfolding process_auth_prove
  process_auth_prove-LeavesValid env q r k h =
      search (Holds-if, in_pair, discard-CoreIsValid, with_auth) depth 10

  pub process_lock-LeavesValid :
      (env : Env) (q r : Frame) (k : Core)
      → Holds (CoreIsValid c) k
      → Holds (LeavesValid c) (process_lock c env q r k)
  unfolding process_lock
  process_lock-LeavesValid env q r k h =
      search (Holds-if, in_pair, discard-CoreIsValid, with_auth) depth 10

  password_reply-LeavesValid :
      (a : Status) (now : ℕ) (r : Frame) (k : Core)
      → Holds (CoreIsValid c) k
      → Holds (LeavesValid c) (password_reply c a now r k)
  unfolding password_reply
  password_reply-LeavesValid (ok u) now r k h = in_pair c _ _ (discard-CoreIsValid c now k h)
  password_reply-LeavesValid (err e) now r k h = by_error e
    where
      by_error : (e : Errno) → Holds (LeavesValid c) (password_reply c (err e) now r k)
      by_error einval = in_pair c _ _ h
      by_error eperm = in_pair c _ _ h
      by_error eacces = in_pair c _ _ (discard-CoreIsValid c now k h)
      by_error e = in_pair c _ _ h

  after_password_chunk-LeavesValid :
      (env : Env) (r : Frame) (k : Core)
      → PasswordChunked c k.protocol
      → IsValid c k.dynamic
      → Holds (LeavesValid c) (after_password_chunk c env r k)
  unfolding after_password_chunk
  after_password_chunk-LeavesValid env r k h store =
      Holds-case
        (not (k.protocol.password_set_received_length == k.protocol.password_set_total_length)) _ _
        (λ more. record {
          at =
              (refresh_protected_session-CoreIsValid c env.now _ k (record {
                at = record {
                  context = record {
                    set = unfold clear_password_set in h.others.set;
                    password = record {
                      room = h.room;
                      whole = λ _. h.whole;
                      more = λ _. short more;
                    };
                    dynamic = unfold clear_password_set in h.others.dynamic;
                  };
                  store = store;
                };
              })).at;
        })
        (λ _.
          password_reply-LeavesValid _ env.now r _
            (record { at = record { context = h.others; store = store } }))
    where
      short :
          not (k.protocol.password_set_received_length == k.protocol.password_set_total_length)
            ≡ true
          → k.protocol.password_set_received_length < k.protocol.password_set_total_length
      short more = ground (arith, h.received_le)

  module _ (env : Env) (q r : Frame) (k : Core) (h : Holds (CoreIsValid c) k) where
    refused_password : (e : FrameStatus) → Holds (LeavesValid c) (refuse_password e r k)
    refused_password e = in_pair c _ _ (password_dropped c k h)

    first_placed :
        not (q.total_length == password_set_length) ≡ false
        → (q.payload_length == 0 || ltb (q.total_length - q.offset) q.payload_length) ≡ false
        → Holds (LeavesValid c) (
            after_password_chunk c env r
              (record k { protocol = first_password_chunk q (clear_password_set k.protocol) }))
    first_placed total_ok length_ok =
        after_password_chunk-LeavesValid env r _
          (unfold first_password_chunk clear_password_set in
            record {
              room = length-write_at 0 _ (zeros password_set_length);
              whole = ground arith;
              received_le = ground arith;
              others = record {
                set = h.at.context.set;
                password = no_password c;
                dynamic = h.at.context.dynamic;
              };
            })
          h.at.store

    later_placed :
        not (q.total_length == password_set_length) ≡ false
        → ltb q.total_length q.offset ≡ false
        → (q.payload_length == 0 || ltb (q.total_length - q.offset) q.payload_length) ≡ false
        → is_foreign_password_chunk q k.protocol ≡ false
        → not (q.offset == k.protocol.password_set_received_length) ≡ false
        → Holds (LeavesValid c) (
            after_password_chunk c env r
              (record k { protocol = later_password_chunk q k.protocol }))
    unfolding is_foreign_password_chunk
    later_placed total_ok offset_ok length_ok own in_order =
        after_password_chunk-LeavesValid env r _
          (unfold later_password_chunk clear_password_set in
            record {
              room =
                  length-write_at q.offset _ k.protocol.password_set_staging
                  ∙ h.at.context.password.room;
              whole = same_total ∙ whole;
              received_le = received;
              others = record {
                set = h.at.context.set;
                password = no_password c;
                dynamic = h.at.context.dynamic;
              };
            })
          h.at.store
      where
        same_total : k.protocol.password_set_total_length ≡ q.total_length
        same_total = ground arith

        whole : q.total_length ≡ password_set_length
        whole = ground arith

        at_offset : q.offset ≡ k.protocol.password_set_received_length
        at_offset = ground arith

        behind : q.offset + q.payload_length ≤ q.total_length
        behind = ground arith

        received :
            (k.protocol.password_set_received_length + q.payload_length) % 2 ^ 16
            ≤ k.protocol.password_set_total_length
        received = omega (arith, same_total, whole, at_offset, behind)

    pub process_password_set-LeavesValid : Holds (LeavesValid c) (process_password_set c env q r k)
    unfolding process_password_set
    process_password_set-LeavesValid =
        search (Holds-case, refused_password, first_placed, later_placed) depth 30
