-- ===== src/Tests/Dynamic.antt =====
-- The dynamic store at concrete inputs: "Hi" is uploaded to slot 1 at 20 ms for a minute.
use zmk_module_runtime_macro.Base.{
  ℕ, ◌≤◌, ◌<◌, ◌&&◌, ◌==◌, if◌then◌else◌, ltb, arith, ◌≡◌, refl, true, false, none, some,
}
use zmk_module_runtime_macro.Config.{Errno, ebusy, err, done}
use zmk_module_runtime_macro.Ascii.{ascii_to_keycode}
use zmk_module_runtime_macro.Executor.{Scheduling, taken, refused}
use zmk_module_runtime_macro.Executor.Invariant.{Started}
use zmk_module_runtime_macro.Dynamic.{
  cleared, has_deadline, expire_due, chunk_is_valid, rearm, check_expiry, ttl_work_handler,
}
use zmk_module_runtime_macro.Dynamic.Execute.{execute_slot, store_run, booted}
use zmk_module_runtime_macro.Dynamic.History.{StoreIsValid, booted-IsValid}
use zmk_module_runtime_macro.Dynamic.Consume.{execute_slot-consumes}
use zmk_module_runtime_macro.Dynamic.Expiry.{
  check_expiry-slots, rearm_arms, ttl_work_handler-eq-check_expiry,
}
use zmk_module_runtime_macro.Base.{◌+◌, ◌*◌, List, [], ◌∷◌}
use zmk_module_runtime_macro.Dynamic.{begin_slot, is_due}
use zmk_module_runtime_macro.Dynamic.Upload.{
  Sound, Outlives, append_all, AllDone, Uploaded, upload_stores,
}
use zmk_module_runtime_macro.Tests.Data.{test_config, unset_memory, upload, hi_store}

booted-IsValid_example : StoreIsValid test_config hi_store
booted-IsValid_example = booted-IsValid test_config unset_memory upload

hi_store-IsValid : StoreIsValid test_config hi_store
hi_store-IsValid = booted-IsValid test_config unset_memory upload

uploaded : ((expire_due test_config 1000 hi_store.dynamic).slots 1).committed_valid ≡ true
unfolding store_run booted expire_due ascii_to_keycode chunk_is_valid
uploaded = refl

abbrev answer : Scheduling
answer = taken

execute_slot-consumes_example :
    (hi_store.executor.busy ≡ false
      → answer ≡ taken
      → ((execute_slot test_config 1000 1 answer hi_store).0 ≡ done)
        × Started
            ((expire_due test_config 1000 hi_store.dynamic).slots 1).committed
            ((expire_due test_config 1000 hi_store.dynamic).slots 1).committed_length
            (execute_slot test_config 1000 1 answer hi_store).1.executor
        × ((j : ℕ)
            → (execute_slot test_config 1000 1 answer hi_store).1.dynamic.slots j ≡ (
                if ((expire_due test_config 1000 hi_store.dynamic).slots
                    1).committed_consume_on_accept
                  && 1 == j
                then cleared ((expire_due test_config 1000 hi_store.dynamic).slots j)
                else (expire_due test_config 1000 hi_store.dynamic).slots j)))
    × ((f : Errno)
        → hi_store.executor.busy ≡ false
        → answer ≡ refused f
        → ((execute_slot test_config 1000 1 answer hi_store).0 ≡ err f)
          × ((execute_slot test_config 1000 1 answer hi_store).1.dynamic
              ≡ expire_due test_config 1000 hi_store.dynamic))
    × (hi_store.executor.busy ≡ true
        → ((execute_slot test_config 1000 1 answer hi_store).0 ≡ err ebusy)
          × ((execute_slot test_config 1000 1 answer hi_store).1.dynamic
              ≡ expire_due test_config 1000 hi_store.dynamic)
          × ((execute_slot test_config 1000 1 answer hi_store).1.executor ≡ hi_store.executor))
execute_slot-consumes_example =
    execute_slot-consumes test_config 1000 1 answer hi_store hi_store-IsValid refl (omega arith)
      uploaded

check_expiry-slots_example :
    ((hi_store.dynamic.slots 1).committed_valid ≡ true
      → (hi_store.dynamic.slots 1).ttl_deadline_ms ≤ 60020
      → (check_expiry test_config 60020 hi_store.dynamic).slots 1
        ≡ cleared (hi_store.dynamic.slots 1))
    × ((hi_store.dynamic.slots 1).committed_valid ≡ true
        → 60020 < (hi_store.dynamic.slots 1).ttl_deadline_ms
        → (check_expiry test_config 60020 hi_store.dynamic).slots 1 ≡ hi_store.dynamic.slots 1)
    × ((hi_store.dynamic.slots 1).committed_valid ≡ false
        → (check_expiry test_config 60020 hi_store.dynamic).slots 1 ≡ hi_store.dynamic.slots 1)
    × (((check_expiry test_config 60020 hi_store.dynamic).slots 1).committed_valid ≡ true
        → 60020 < ((check_expiry test_config 60020 hi_store.dynamic).slots 1).ttl_deadline_ms)
check_expiry-slots_example =
    check_expiry-slots test_config 60020 hi_store.dynamic 1 hi_store-IsValid.dynamic (omega arith)

rearm_arms_example :
    ((j : ℕ)
      → j < 2
      → has_deadline (hi_store.dynamic.slots j) ≡ true
      → (k : ℕ) × (k < 2)
        × (has_deadline (hi_store.dynamic.slots k) ≡ true)
        × ((hi_store.dynamic.slots k).ttl_deadline_ms ≤ (hi_store.dynamic.slots j).ttl_deadline_ms)
        × ((rearm test_config 30 hi_store.dynamic).ttl_work
            ≡ some (
                if ltb 30 (hi_store.dynamic.slots k).ttl_deadline_ms
                then (hi_store.dynamic.slots k).ttl_deadline_ms
                else 31)))
    × (((j : ℕ) → j < 2 → has_deadline (hi_store.dynamic.slots j) ≡ false)
        → (rearm test_config 30 hi_store.dynamic).ttl_work ≡ none)
    × ((rearm test_config 30 hi_store.dynamic).ttl_work_generation
        ≡ (rearm test_config 30 hi_store.dynamic).ttl_generation)
rearm_arms_example = rearm_arms test_config 30 hi_store.dynamic

ttl_work_handler-eq-check_expiry_example :
    ttl_work_handler test_config 60020 hi_store.dynamic
    ≡ check_expiry test_config 60020 hi_store.dynamic
ttl_work_handler-eq-check_expiry_example =
    ttl_work_handler-eq-check_expiry test_config 60020 hi_store.dynamic hi_store-IsValid.dynamic

-- "Hi" again, in two chunks.
abbrev chunks : List (ℕ × List ℕ)
chunks = (110, 72 ∷ []) ∷ (120, 105 ∷ []) ∷ []

chunks-Sound : Sound chunks
unfolding chunk_is_valid ascii_to_keycode
chunks-Sound = ((omega arith, refl), ((omega arith, refl), tt))

chunks-Outlives :
    Outlives ((begin_slot test_config 100 0 2 60 false hi_store.dynamic).1.slots 0) chunks
unfolding begin_slot is_due store_run booted chunk_is_valid ascii_to_keycode
chunks-Outlives = (refl, (refl, tt))

upload_stores_example :
    ((begin_slot test_config 100 0 2 60 false hi_store.dynamic).0 ≡ done)
    × AllDone test_config
        (append_all test_config 0 0 chunks
          (begin_slot test_config 100 0 2 60 false hi_store.dynamic).1).0
    × Uploaded test_config 0
        (72 ∷ 105 ∷ [])
        (120 + 60 * 1000)
        false
        (append_all test_config 0 0 chunks
          (begin_slot test_config 100 0 2 60 false hi_store.dynamic).1).1
upload_stores_example =
    upload_stores test_config 100 0 2 60 false 110 (72 ∷ []) ((120, 105 ∷ []) ∷ []) hi_store.dynamic
      (omega arith) (omega arith) (omega arith) (omega arith) (omega arith) hi_store-IsValid.dynamic
      chunks-Sound chunks-Outlives refl
