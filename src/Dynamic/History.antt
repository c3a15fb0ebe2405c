-- ===== src/Dynamic/History.antt =====
-- The dynamic store and the executor stay valid through every history.
use zmk_module_runtime_macro.Base.{
  ℕ, ◌+◌, ◌%◌, ◌^◌, ◌≤◌, ◌≡◌, refl, ap, inl, inr, Bool, true, false, not, ◌||◌, Option, none, some,
  List, [], ◌∷◌, arith, leb, ◌==◌, if◌then◌else◌, lt→ltb, le→leb, ==_iff, Bool-cases, length,
  length-replicate,
}
use zmk_module_runtime_macro.Config.{Config, dynamic_max_text_len, ok, err, Status}
use zmk_module_runtime_macro.Dynamic.Defs.{
  DynamicSlot, Dynamic, legacy_max_text_len, for_slots, cleared, clear_committed, cancel_staging,
  expire_slot, dynamic_slot_is_valid, expire_due, begin_slot, begin_with_options, append_slot,
  cancel, clear_slot, clear_all, check_expiry, reset_slot, reset,
}
use zmk_module_runtime_macro.Executor.{Executor, Scheduling, start}
use zmk_module_runtime_macro.Executor.Invariant
use zmk_module_runtime_macro.Dynamic.Slots.{for_slots_inv, for_slots_pointwise}
use zmk_module_runtime_macro.Dynamic.Invariant.{
  IsEntry, IsValid, chunk_is_valid_nil, cancel_staging-IsValid, clear_committed-IsValid,
  expire_slot-IsValid, rearm-IsValid, expire_due-IsValid, ttl_work_handler-IsValid,
  begin_locked-IsValid,
}
use zmk_module_runtime_macro.Dynamic.Append.{append_locked-IsValid}
use zmk_module_runtime_macro.Dynamic.Execute.{
  Store, after_start, execute_slot, binding_pressed, lifecycle_listener, StoreEvent, begins,
  begins_legacy, appends, appends_null, cancels, clears, clears_all, checks, timer, lifecycle,
  presses, types, store_step, store_run, booted,
}

pub record StoreIsValid (c : Config) (st : Store) : Type 0 where
  pub dynamic : IsValid c st.dynamic
  pub executor : Invariant.IsValid c st.executor

module _ (c : Config) where
  reset_slot-slots :
      (i : ℕ) (d : Dynamic) (j : ℕ)
      → (reset_slot c i d).slots j
        ≡ (if i == j then record (cleared (d.slots j)) { ttl_generation = 0 } else d.slots j)
  unfolding reset_slot
  reset_slot-slots i d j = elim (Bool-cases (i == j)) [
    | inl same ↦
        rw same
          (ap (λ k. record (cleared (d.slots k)) { ttl_generation = 0 }) ((==_iff i j).0 same))
    | inr differ ↦ rw differ
  ]

  zeroed-IsEntry : (e : DynamicSlot) → IsEntry (record (cleared e) { ttl_generation = 0 })
  unfolding cleared
  zeroed-IsEntry e = record {
    full = length-replicate {A = ℕ} dynamic_max_text_len 0;
    sized = λ h. cc;
    timed = λ h. cc;
    mapped = λ h. cc;
    wiped = λ h. (refl, refl, refl);
  }

  pub reset-IsValid : (d : Dynamic) → IsValid c (reset c d)
  unfolding reset cancel_staging
  reset-IsValid d = record {
    entry = λ i lt.
        rw
          (
            for_slots_pointwise (λ e. record (cleared e) { ttl_generation = 0 }) (reset_slot c)
                reset_slot-slots c.dynamic_slot_count 0 (record d { ttl_work = none }) i,
            lt→ltb i (0 + c.dynamic_slot_count) (omega arith),
            le→leb 0 i (omega arith),
          )
          (zeroed-IsEntry (d.slots i));
    staging = record {
      full = length-replicate {A = ℕ} dynamic_max_text_len 0;
      target = λ h. cc;
      expects = omega arith;
      more = λ h. cc;
      timed = λ h. cc;
      mapped = chunk_is_valid_nil;
      wiped = λ h. (refl, refl);
    };
    agree = refl;
  }

  pub clear_all-IsValid : (now : ℕ) (d : Dynamic) → IsValid c d → IsValid c (clear_all c now d)
  unfolding clear_all
  clear_all-IsValid now d v =
      rearm-IsValid c now (cancel_staging (for_slots clear_committed c.dynamic_slot_count 0 d)) (
        cancel_staging-IsValid c (for_slots clear_committed c.dynamic_slot_count 0 d) (
          for_slots_inv (IsValid c) clear_committed c.dynamic_slot_count c.dynamic_slot_count 0 d
            (λ i e lt. clear_committed-IsValid c i e) (omega arith) v))

  after_start-IsValid :
      (now slot : ℕ) (d : Dynamic) (r : Status × Executor)
      → IsValid c d
      → Invariant.IsValid c r.1
      → StoreIsValid c (after_start c now slot d r).1
  unfolding after_start
  after_start-IsValid now slot d (err e, x) v w = record { dynamic = v; executor = w }
  after_start-IsValid now slot d (ok u, x) v w =
      elim (Bool-cases (d.slots slot).committed_consume_on_accept) [
        | inl consumed ↦ rw consumed (record {
          dynamic =
              rearm-IsValid c now (clear_committed slot d) (clear_committed-IsValid c slot d v);
          executor = w;
        })
        | inr kept ↦ rw kept (record { dynamic = v; executor = w })
      ]

  pub execute_slot-IsValid :
      (now slot : ℕ) (answer : Scheduling) (st : Store)
      → StoreIsValid c st
      → StoreIsValid c (execute_slot c now slot answer st).1
  unfolding execute_slot
  execute_slot-IsValid now slot answer st v =
      let d = expire_due c now st.dynamic in
      let vd = expire_due-IsValid c now st.dynamic v.dynamic in
      let e = d.slots slot in
      elim (Bool-cases (not (dynamic_slot_is_valid c slot))) [
        | inl out ↦ rw out (record { dynamic = vd; executor = v.executor })
        | inr fine ↦ elim (Bool-cases (not e.committed_valid || e.committed_length == 0)) [
          | inl empty ↦ simp (fine, empty) (record { dynamic = vd; executor = v.executor })
          | inr full ↦
              simp (fine, full)
                (after_start-IsValid now slot d
                  (start c (some e.committed) e.committed_length answer st.executor) vd
                  (Invariant.start-IsValid c (some e.committed) e.committed_length answer
                    st.executor v.executor))
        ]
      ]

  binding_pressed-IsValid :
      (now cell : ℕ) (answer : Scheduling) (st : Store)
      → StoreIsValid c st
      → StoreIsValid c (binding_pressed c now cell answer st).1
  unfolding binding_pressed
  binding_pressed-IsValid now cell answer st v = elim (Bool-cases (leb c.dynamic_slot_count cell)) [
    | inl out ↦ rw out v
    | inr fine ↦ rw fine (execute_slot-IsValid now (cell % 2 ^ 8) answer st v)
  ]

  lifecycle-IsValid :
      (subscribed seen : Bool) (now : ℕ) (d : Dynamic)
      → IsValid c d
      → IsValid c (lifecycle_listener c subscribed seen now d).1
  unfolding lifecycle_listener
  lifecycle-IsValid true true now d v = clear_all-IsValid now d v
  lifecycle-IsValid false true now d v = v
  lifecycle-IsValid subscribed false now d v = v

  clear_slot-IsValid :
      (now slot : ℕ) (d : Dynamic) → IsValid c d → IsValid c (clear_slot c now slot d)
  unfolding clear_slot
  clear_slot-IsValid now slot d v = elim (Bool-cases (dynamic_slot_is_valid c slot)) [
    | inl fine ↦ rw fine (rearm-IsValid c now (expire_slot slot d) (expire_slot-IsValid c slot d v))
    | inr out ↦ rw out v
  ]

  append_slot-IsValid :
      (now slot offset : ℕ) (bytes : Option (List ℕ)) (n : ℕ) (d : Dynamic)
      → ((chunk : List ℕ) → bytes ≡ some chunk → n ≤ length chunk)
      → IsValid c d
      → IsValid c (append_slot c now slot offset bytes n d).1
  unfolding append_slot
  append_slot-IsValid now slot offset bytes n d h v =
      append_locked-IsValid c now slot offset bytes n (expire_due c now d) h
        (expire_due-IsValid c now d v)

  readable : (chunk bytes : List ℕ) → some chunk ≡ some bytes → length chunk ≤ length bytes
  readable chunk bytes e = ground arith

  -- Every operation, listener, timer and key keeps the store and the executor valid.
  pub store_step-IsValid :
      (e : StoreEvent c) (st : Store) → StoreIsValid c st → StoreIsValid c (store_step c e st)
  unfolding store_step begin_slot begin_with_options cancel check_expiry
  store_step-IsValid (begins now slot total ttl consume) st v = record {
    dynamic =
        begin_locked-IsValid c slot total dynamic_max_text_len ttl consume
          (expire_due c now st.dynamic) (omega arith)
          (expire_due-IsValid c now st.dynamic v.dynamic);
    executor = v.executor;
  }
  store_step-IsValid (begins_legacy now total ttl consume) st v = record {
    dynamic =
        begin_locked-IsValid c 0 total legacy_max_text_len ttl consume (expire_due c now st.dynamic)
          (omega arith) (expire_due-IsValid c now st.dynamic v.dynamic);
    executor = v.executor;
  }
  store_step-IsValid (appends now slot offset chunk) st v = record {
    dynamic =
        append_slot-IsValid now slot offset (some chunk) (length chunk) st.dynamic (readable chunk)
          v.dynamic;
    executor = v.executor;
  }
  store_step-IsValid (appends_null now slot offset n) st v = record {
    dynamic =
        append_slot-IsValid now slot offset none n st.dynamic (λ chunk e. absurd (cc)) v.dynamic;
    executor = v.executor;
  }
  store_step-IsValid (cancels now) st v = record {
    dynamic =
        cancel_staging-IsValid c (expire_due c now st.dynamic)
          (expire_due-IsValid c now st.dynamic v.dynamic);
    executor = v.executor;
  }
  store_step-IsValid (clears now slot) st v = record {
    dynamic = clear_slot-IsValid now slot st.dynamic v.dynamic;
    executor = v.executor;
  }
  store_step-IsValid (clears_all now) st v = record {
    dynamic = clear_all-IsValid now st.dynamic v.dynamic;
    executor = v.executor;
  }
  store_step-IsValid (checks now) st v = record {
    dynamic =
        rearm-IsValid c now (expire_due c now st.dynamic)
          (expire_due-IsValid c now st.dynamic v.dynamic);
    executor = v.executor;
  }
  store_step-IsValid (timer now) st v = record {
    dynamic = ttl_work_handler-IsValid c now st.dynamic v.dynamic;
    executor = v.executor;
  }
  store_step-IsValid (lifecycle subscribed seen now) st v = record {
    dynamic = lifecycle-IsValid subscribed seen now st.dynamic v.dynamic;
    executor = v.executor;
  }
  store_step-IsValid (presses now cell answer) st v = binding_pressed-IsValid now cell answer st v
  store_step-IsValid (types now answer) st v = record {
    dynamic = v.dynamic;
    executor = Invariant.work_handler-IsValid c now answer st.executor v.executor;
  }

  pub store_run-IsValid :
      (es : List (StoreEvent c)) (st : Store)
      → StoreIsValid c st
      → StoreIsValid c (store_run c es st)
  unfolding store_run
  store_run-IsValid [] st v = v
  store_run-IsValid (e ∷ es) st v =
      store_run-IsValid es (store_step c e st) (store_step-IsValid e st v)

  -- From boot, over whatever the memory held, every history of uploads, clears, timers, listeners and
  -- keys leaves the store and the executor valid: text within its bounds and the alphabet, wiped
  -- buffers where there is none, and the timer's two generations equal.
  pub booted-IsValid :
      (d : Dynamic) (es : List (StoreEvent c)) → StoreIsValid c (store_run c es (booted c d))
  booted-IsValid d es =
      store_run-IsValid es (booted c d)
        (unfold booted in record { dynamic = reset-IsValid d; executor = Invariant.idle-IsValid c })
