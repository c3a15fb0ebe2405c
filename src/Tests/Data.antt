-- ===== src/Tests/Data.antt =====
-- The build and the states at which the theorems are tried.
use zmk_module_runtime_macro.Base.{ℕ, arith, ◌≡◌, refl, true, false, some, List, [], ◌∷◌, zeros}
use zmk_module_runtime_macro.Config.{Config, InRange, done, ok}
use zmk_module_runtime_macro.Ascii.{ascii_to_keycode}
use zmk_module_runtime_macro.Executor.Typing.{Stroke}
use zmk_module_runtime_macro.Slots.{Slots, Backend, bytes_are_valid}
use zmk_module_runtime_macro.Slots.Invariant.{IsValid}
use zmk_module_runtime_macro.Dynamic.{Dynamic}
use zmk_module_runtime_macro.Dynamic.Execute.{Store, StoreEvent, begins, appends, store_run, booted}

abbrev pub test_config : Config
test_config = record {
  slot_count = 2;
  max_text_len = 16;
  tap_ms = 10;
  wait_ms = 5;
  dynamic = true;
  dynamic_slot_count = 2;
  challenge_timeout = 60;
  session_timeout = 300;
  clear_on_usb_disconnect = true;
  clear_on_ble_profile_change = false;
  clear_on_endpoint_change = false;
}

pub test_config-InRange : InRange test_config
test_config-InRange = record {
  some_slot = omega arith;
  slots_le = omega arith;
  some_text = omega arith;
  text_le = omega arith;
  some_dynamic = omega arith;
  dynamic_le = omega arith;
  some_challenge = omega arith;
  some_session = omega arith;
}

-- "Hi"
abbrev pub hi : List ℕ
hi = 72 ∷ 105 ∷ []

abbrev pub stroke_h : Stroke
stroke_h = record { byte = 72; keycode = 34013195; pressed_at = 100; released_at = 110 }

abbrev pub stroke_i : Stroke
stroke_i = record { byte = 105; keycode = 458764; pressed_at = 115; released_at = 125 }

pub keycode_h : ascii_to_keycode 72 ≡ ok 34013195
unfolding ascii_to_keycode
keycode_h = refl

pub keycode_i : ascii_to_keycode 105 ≡ ok 458764
unfolding ascii_to_keycode
keycode_i = refl

-- Both static slots hold "Hi", and nothing was saved.
abbrev pub hi_slots : Slots
hi_slots = record {
  text = λ i. 72 ∷ 105 ∷ zeros 15;
  size = λ i. 2;
  has_persisted = λ i. false;
  defaults_initialized = false;
}

pub hi_slots-IsValid : IsValid test_config hi_slots
hi_slots-IsValid = record {
  slot = λ i lt. record {
    full = refl;
    fits = omega arith;
    ended = refl;
    mapped = unfold bytes_are_valid ascii_to_keycode in refl;
  };
}

-- A settings library that stores everything.
abbrev pub storing : Backend
storing = record { save = λ name value. done; delete = λ name. done }

-- The memory before boot.
abbrev pub unset_memory : Dynamic
unset_memory = record {
  slots = λ i. record {
    committed = [];
    ttl_deadline_ms = 7;
    ttl_generation = 3;
    committed_length = 9;
    committed_valid = true;
    committed_consume_on_accept = false;
  };
  staging = 1 ∷ [];
  staging_slot = 1;
  staging_expected_length = 4;
  staging_received = 2;
  staging_active = true;
  staging_ttl_seconds = 0;
  staging_consume_on_accept = false;
  ttl_generation = 1;
  ttl_work_generation = 2;
  ttl_work = some 5;
}

-- "Hi" uploaded to slot 1 in two chunks, for a minute and one use.
abbrev pub upload : List (StoreEvent test_config)
upload = begins 0 1 2 60 true ∷ appends 10 1 0 (72 ∷ []) ∷ appends 20 1 1 (105 ∷ []) ∷ []

abbrev pub hi_store : Store
hi_store = store_run test_config upload (booted test_config unset_memory)
