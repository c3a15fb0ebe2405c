-- ===== src/Protocol/Invariant/Handlers.antt =====
-- The handlers of runtime_macro_protocol.c keep the invariant of a context.
use zmk_module_runtime_macro.Base.{
  ℕ, ◌+◌, ◌-◌, ◌%◌, ◌^◌, ◌≤◌, ◌<◌, ◌≡◌, inl, inr, Bool, true, false, not, ◌||◌, some, List, arith,
  ltb, ◌==◌, if◌then◌else◌, Bool-cases, Holds, Holds-if, length,
}
use zmk_module_runtime_macro.Config.{Config, dynamic_max_text_len, ok, err, Status}
use zmk_module_runtime_macro.Slots.Invariant.{}
use zmk_module_runtime_macro.Dynamic.{
  Dynamic, dynamic_slot_is_valid, begin_locked, append_locked, expire_due, clear_slot, begin_slot,
  append_slot,
}
use zmk_module_runtime_macro.Dynamic.Invariant.{
  IsValid, expire_slot-IsValid, expire_due-IsValid, rearm-IsValid, begin_locked-IsValid,
}
use zmk_module_runtime_macro.Dynamic.Append.{append_locked-IsValid}
use zmk_module_runtime_macro.Protocol.Frame.{Frame, FrameStatus}
use zmk_module_runtime_macro.Protocol.State.{
  Core, Env, release_timeout, forget_dynamic, end_dynamic, refresh_dynamic_timeout,
}
use zmk_module_runtime_macro.Protocol.Volatile.{
  kept_or_cleared, open_transaction, process_dynamic_begin, advance, after_append, refuse_dynamic,
  process_dynamic_data, process_dynamic_clear,
}
use zmk_module_runtime_macro.Protocol.Invariant.{
  CoreIsValid, Holds-case, with_store, end_dynamic-CoreIsValid, clear_dynamic-CoreIsValid,
}

-- The core of a handler's result.
abbrev pub LeavesValid : Config → Frame × Core → Type 0
LeavesValid c x = CoreIsValid c x.1

abbrev ReturnsValid : Config → Status × Core → Type 0
ReturnsValid c x = CoreIsValid c x.1

pub below : (a b : ℕ) → not (ltb a b) ≡ false → a < b
below a b h = ground arith

pub at_most : (a b : ℕ) → ltb b a ≡ false → a ≤ b
at_most a b h = ground arith

some_at_most : (a b : ℕ) → (a == 0 || ltb b a) ≡ false → (1 ≤ a) × (a ≤ b)
some_at_most a b h = (ground arith, ground arith)

same_length :
    (bytes chunk : List ℕ) (n : ℕ) → some bytes ≡ some chunk → n ≤ length bytes → n ≤ length chunk
same_length bytes chunk n e le = ground arith

module _ (c : Config) where
  pub in_pair : (f : Frame) (k : Core) → Holds (CoreIsValid c) k → Holds (LeavesValid c) (f, k)
  in_pair f k h = record { at = h.at }

  -- The dynamic handlers.
  kept_or_cleared-ReturnsValid :
      (now : ℕ) (x : Status × Core)
      → Holds (ReturnsValid c) x
      → Holds (ReturnsValid c) (kept_or_cleared c now x)
  unfolding kept_or_cleared
  kept_or_cleared-ReturnsValid now (ok u, k) h = record { at = h.at }
  kept_or_cleared-ReturnsValid now (err e, k) h = record {
    at = (clear_dynamic-CoreIsValid c now k (record { at = h.at })).at;
  }

  refresh-ReturnsValid :
      (env : Env) (k : Core)
      → Holds (CoreIsValid c) k
      → Holds (ReturnsValid c) (kept_or_cleared c env.now (refresh_dynamic_timeout env k))
  refresh-ReturnsValid env k h = kept_or_cleared-ReturnsValid env.now _ (
      unfold refresh_dynamic_timeout in
      record {
        at = record {
          context = record {
            set = h.at.context.set;
            password = h.at.context.password;
            dynamic = h.at.context.dynamic;
          };
          store = h.at.store;
        };
      })

  open_transaction-ReturnsValid :
      (a : Status) (env : Env) (q : Frame) (k : Core)
      → 1 ≤ q.total_length
      → q.total_length ≤ dynamic_max_text_len
      → q.slot < c.dynamic_slot_count
      → Holds (CoreIsValid c) k
      → Holds (ReturnsValid c) (open_transaction c a env q k)
  unfolding open_transaction
  open_transaction-ReturnsValid (err e) env q k some_text le lt h = record {
    at = (clear_dynamic-CoreIsValid c env.now k h).at;
  }
  open_transaction-ReturnsValid (ok u) env q k some_text le lt h =
      refresh-ReturnsValid env _ (record {
        at = record {
          context = record {
            set = h.at.context.set;
            password = h.at.context.password;
            dynamic = record { total_le = le; more = λ _. omega arith; target = λ _. lt };
          };
          store = h.at.store;
        };
      })

  refused :
      (e : FrameStatus) (env : Env) (r : Frame) (k : Core)
      → Holds (CoreIsValid c) k
      → Holds (LeavesValid c) (refuse_dynamic c e env r k)
  refused e env r k h = in_pair _ _ (clear_dynamic-CoreIsValid c env.now k h)

  pub process_dynamic_begin-LeavesValid :
      (env : Env) (q r : Frame) (k : Core)
      → Holds (CoreIsValid c) k
      → Holds (LeavesValid c) (process_dynamic_begin c env q r k)
  unfolding process_dynamic_begin begin_slot
  process_dynamic_begin-LeavesValid env q r k h = search (Holds-case, refused, begun) depth 20
    where
      begun :
          not (dynamic_slot_is_valid c q.slot) ≡ false
          → (q.total_length == 0 || ltb dynamic_max_text_len q.total_length) ≡ false
          → (f : Frame) (a : Status) (ttl : ℕ) (b : Bool)
          → Holds (LeavesValid c) (
            f,
            (open_transaction c a env q (record k {
              dynamic =
                  (begin_locked c q.slot q.total_length dynamic_max_text_len ttl b
                    (expire_due c env.now k.dynamic)).1;
            })).1,
          )
      begun slot_ok total_ok f a ttl b = record {
        at =
            (open_transaction-ReturnsValid _ env q _
              (some_at_most q.total_length dynamic_max_text_len total_ok).0
              (some_at_most q.total_length dynamic_max_text_len total_ok).1
              (below q.slot c.dynamic_slot_count slot_ok)
              (with_store c _ k
                (begin_locked-IsValid c q.slot q.total_length dynamic_max_text_len _ _ _
                  (omega arith) (expire_due-IsValid c env.now _ h.at.store))
                h)).at;
      }

  end_dynamic-received :
      (next : ℕ) (k : Core)
      → end_dynamic (record k { protocol = record k.protocol { dynamic_received_length = next } })
        ≡ end_dynamic k
  unfolding end_dynamic release_timeout forget_dynamic
  end_dynamic-received next k = elim (Bool-cases k.timeout_owner) [
    | inl owns ↦ simp owns
    | inr free ↦ simp free
  ]

  advance-ReturnsValid :
      (env : Env) (next : ℕ) (k : Core)
      → next ≤ k.protocol.dynamic_total_length
      → Holds (CoreIsValid c) k
      → Holds (ReturnsValid c) (advance c env next k)
  unfolding advance
  advance-ReturnsValid env next k le h =
      Holds-case (next == k.protocol.dynamic_total_length) _ _
        (λ _. record { at = rw (end_dynamic-received next k) (end_dynamic-CoreIsValid c k h).at })
        (λ more. refresh-ReturnsValid env _ (record {
          at = record {
            context = record {
              set = h.at.context.set;
              password = h.at.context.password;
              dynamic = record {
                total_le = h.at.context.dynamic.total_le;
                more = λ _. short more;
                target = h.at.context.dynamic.target;
              };
            };
            store = h.at.store;
          };
        }))
    where
      short :
          (next == k.protocol.dynamic_total_length) ≡ false → next < k.protocol.dynamic_total_length
      short more = ground arith

  after_append-LeavesValid :
      (a : Status) (env : Env) (q r : Frame) (k : Core)
      → q.offset + q.payload_length ≤ k.protocol.dynamic_total_length
      → Holds (CoreIsValid c) k
      → Holds (LeavesValid c) (after_append c a env q r k)
  unfolding after_append
  after_append-LeavesValid (err e) env q r k le h = refused _ env r k h
  after_append-LeavesValid (ok u) env q r k le h = record {
    at = (advance-ReturnsValid env _ k wrapped h).at;
  }
    where
      wrapped : (q.offset + q.payload_length) % 2 ^ 16 ≤ k.protocol.dynamic_total_length
      wrapped = omega (arith, h.at.context.dynamic.total_le, le)

  pub process_dynamic_data-LeavesValid :
      (env : Env) (q r : Frame) (k : Core)
      → q.payload_length ≤ length q.payload
      → Holds (CoreIsValid c) k
      → Holds (LeavesValid c) (process_dynamic_data c env q r k)
  unfolding process_dynamic_data append_slot
  process_dynamic_data-LeavesValid env q r k readable h =
      search (Holds-case, refused, stored) depth 24
    where
      within :
          ltb q.total_length q.offset ≡ false
          → (q.payload_length == 0 || ltb (q.total_length - q.offset) q.payload_length) ≡ false
          → (not k.protocol.dynamic_active
              || not (k.protocol.dynamic_request_id == q.request_id)
              || not (k.protocol.dynamic_total_length == q.total_length))
            ≡ false
          → q.offset + q.payload_length ≤ k.protocol.dynamic_total_length
      within offset_ok fits own = ground arith

      appended :
          (slot offset n : ℕ)
          → n ≤ length q.payload
          → IsValid c
              (append_locked c env.now slot offset
                (some q.payload)
                n
                (expire_due c env.now k.dynamic)).1
      appended slot offset n le =
          append_locked-IsValid c env.now slot offset (some q.payload) n _
            (λ chunk e. same_length q.payload chunk n e le)
            (expire_due-IsValid c env.now k.dynamic h.at.store)

      stored :
          ltb q.total_length q.offset ≡ false
          → (q.payload_length == 0 || ltb (q.total_length - q.offset) q.payload_length) ≡ false
          → (not k.protocol.dynamic_active
              || not (k.protocol.dynamic_request_id == q.request_id)
              || not (k.protocol.dynamic_total_length == q.total_length))
            ≡ false
          → (a : Status)
          → Holds (LeavesValid c) (
              after_append c a env q r (record k {
                dynamic =
                    (append_locked c env.now q.slot q.offset
                      (some q.payload)
                      q.payload_length
                      (expire_due c env.now k.dynamic)).1;
              }))
      stored offset_ok fits own a =
          after_append-LeavesValid a env q r _ (within offset_ok fits own)
            (with_store c _ k (appended q.slot q.offset q.payload_length readable) h)

  pub process_dynamic_clear-LeavesValid :
      (env : Env) (q r : Frame) (k : Core)
      → Holds (CoreIsValid c) k
      → Holds (LeavesValid c) (process_dynamic_clear c env q r k)
  unfolding process_dynamic_clear
  process_dynamic_clear-LeavesValid env q r k h =
      search (Holds-if, in_pair, cleared_store, end_dynamic-CoreIsValid) depth 12
    where
      if_valid :
          (b : Bool) {d e : Dynamic} → IsValid c d → IsValid c e → IsValid c (if b then d else e)
      if_valid true hd he = hd
      if_valid false hd he = he

      cleared_store :
          (slot : ℕ)
          → Holds (CoreIsValid c) (record k { dynamic = clear_slot c env.now slot k.dynamic })
      cleared_store slot =
          with_store c _ k
            (unfold clear_slot in
              if_valid (dynamic_slot_is_valid c slot)
                (rearm-IsValid c env.now _ (expire_slot-IsValid c slot k.dynamic h.at.store))
                h.at.store)
            h
