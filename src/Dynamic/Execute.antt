-- ===== src/Dynamic/Execute.antt =====
-- The operations of runtime_macro_dynamic.c that reach the executor, the clearing listeners of
-- runtime_macro_dynamic_lifecycle.c, and the histories of the store and the executor together.
use zmk_module_runtime_macro.Base.{
  ℕ, ◌%◌, ◌^◌, Bool, not, ◌||◌, none, some, List, [], ◌∷◌, leb, ◌==◌, if◌then◌else◌, length,
}
use zmk_module_runtime_macro.Config.{Config, einval, ok, err, Status, done}
use zmk_module_runtime_macro.Dynamic.Defs.{
  Dynamic, clear_committed, dynamic_slot_is_valid, rearm, expire_due, ttl_work_handler, begin_slot,
  begin_with_options, append_slot, cancel, clear_slot, clear_all, check_expiry, reset,
}
use zmk_module_runtime_macro.Executor.{Executor, Scheduling, work_handler, start, idle}

-- The two parts of the state that zmk_runtime_macro_dynamic_execute_slot reads and writes.
pub record Store : Type 0 where
  pub dynamic : Dynamic
  pub executor : Executor

module _ (c : Config) where
  -- What zmk_runtime_macro_dynamic_execute_slot does once the executor has answered.
  unfoldable pub after_start : ℕ → ℕ → Dynamic → Status × Executor → Status × Store
  unfolding clear_committed rearm
  after_start now slot d (err e, x) = (err e, record { dynamic = d; executor = x })
  after_start now slot d (ok u, x) = (
    ok u,
    record {
      dynamic =
          if (d.slots slot).committed_consume_on_accept
          then rearm c now (clear_committed slot d)
          else d;
      executor = x;
    },
  )

  -- zmk_runtime_macro_dynamic_execute_slot, with the work queue's answer
  unfoldable pub execute_slot : ℕ → ℕ → Scheduling → Store → Status × Store
  unfolding after_start expire_due
  execute_slot now slot answer st =
      let d = expire_due c now st.dynamic in
      let e = d.slots slot in
      if not (dynamic_slot_is_valid c slot)
      then (err einval, record st { dynamic = d })
      else if not e.committed_valid || e.committed_length == 0
      then (done, record st { dynamic = d })
      else after_start now slot d (start c (some e.committed) e.committed_length answer st.executor)

  -- on_keymap_binding_pressed of behavior_runtime_macro_dynamic.c: the 32-bit cell is checked before
  -- it is narrowed to a uint8_t. 0 stands for ZMK_BEHAVIOR_OPAQUE.
  unfoldable pub binding_pressed : ℕ → ℕ → Scheduling → Store → Status × Store
  unfolding execute_slot
  binding_pressed now cell answer st =
      if leb c.dynamic_slot_count cell
      then (err einval, st)
      else execute_slot now (cell % 2 ^ 8) answer st

  -- The two listeners of the lifecycle file, by whether the build subscribes to the event; the event
  -- is missing where `seen` is false.
  unfoldable pub lifecycle_listener : Bool → Bool → ℕ → Dynamic → Status × Dynamic
  unfolding clear_all
  lifecycle_listener clears seen now d =
      if seen then (done, if clears then clear_all c now d else d) else (err einval, d)

  -- What can happen to the store. A chunk is given with as many bytes as it has.
  pub data StoreEvent : Type 0 where
    begins : ℕ → ℕ → ℕ → ℕ → Bool → StoreEvent
    begins_legacy : ℕ → ℕ → ℕ → Bool → StoreEvent
    appends : ℕ → ℕ → ℕ → List ℕ → StoreEvent
    appends_null : ℕ → ℕ → ℕ → ℕ → StoreEvent
    cancels : ℕ → StoreEvent
    clears : ℕ → ℕ → StoreEvent
    clears_all : ℕ → StoreEvent
    checks : ℕ → StoreEvent
    timer : ℕ → StoreEvent
    lifecycle : Bool → Bool → ℕ → StoreEvent
    presses : ℕ → ℕ → Scheduling → StoreEvent
    types : ℕ → Scheduling → StoreEvent

  unfoldable pub store_step : StoreEvent → Store → Store
  unfolding begin_slot begin_with_options append_slot cancel clear_slot clear_all check_expiry
      ttl_work_handler lifecycle_listener binding_pressed
  store_step (begins now slot total ttl consume) st = record st {
    dynamic = (begin_slot c now slot total ttl consume st.dynamic).1;
  }
  store_step (begins_legacy now total ttl consume) st = record st {
    dynamic = (begin_with_options c now total ttl consume st.dynamic).1;
  }
  store_step (appends now slot offset chunk) st = record st {
    dynamic = (append_slot c now slot offset (some chunk) (length chunk) st.dynamic).1;
  }
  store_step (appends_null now slot offset n) st = record st {
    dynamic = (append_slot c now slot offset none n st.dynamic).1;
  }
  store_step (cancels now) st = record st { dynamic = cancel c now st.dynamic }
  store_step (clears now slot) st = record st { dynamic = clear_slot c now slot st.dynamic }
  store_step (clears_all now) st = record st { dynamic = clear_all c now st.dynamic }
  store_step (checks now) st = record st { dynamic = check_expiry c now st.dynamic }
  store_step (timer now) st = record st { dynamic = ttl_work_handler c now st.dynamic }
  store_step (lifecycle subscribed seen now) st = record st {
    dynamic = (lifecycle_listener subscribed seen now st.dynamic).1;
  }
  store_step (presses now cell answer) st = (binding_pressed now cell answer st).1
  store_step (types now answer) st = record st {
    executor = (work_handler c now answer st.executor).1;
  }

  unfoldable pub store_run : List StoreEvent → Store → Store
  unfolding store_step
  store_run [] st = st
  store_run (e ∷ es) st = store_run es (store_step e st)

  -- The store after boot: the init hook resets it over whatever the memory holds.
  unfoldable pub booted : Dynamic → Store
  unfolding reset idle
  booted d = record { dynamic = reset c d; executor = idle c }
