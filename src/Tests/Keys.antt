-- ===== src/Tests/Keys.antt =====
-- The executor and the alphabet at concrete inputs.
use zmk_module_runtime_macro.Base.{
  ℕ, ◌≤◌, ◌<◌, ◌/◌, ◌%◌, ◌^◌, ◌⊎◌, arith, ◌≡◌, refl, false, Option, none, some, List, [], ◌∷◌,
}
use zmk_module_runtime_macro.Config.{einval, done}
use zmk_module_runtime_macro.Ascii.{ascii_to_keycode}
use zmk_module_runtime_macro.Ascii.Alphabet.{
  accepts, in_alphabet, accepts-ascii_to_keycode, ascii_to_keycode-injective,
  ascii_to_keycode-well_formed,
}
use zmk_module_runtime_macro.Executor.{
  Event, starts, works, Executor, Scheduling, taken, refused, start, step, run, idle, work_handler,
}
use zmk_module_runtime_macro.Executor.Invariant.{IsValid, idle-IsValid, run-IsValid}
use zmk_module_runtime_macro.Executor.Keys.{held, follow, run-follow, run-no_stuck_key}
use zmk_module_runtime_macro.Executor.End.{rounds_left, work_events, run-ends}
use zmk_module_runtime_macro.Executor.Prefix.{pressed_keys, TypesFirst, run-TypesFirst}
use zmk_module_runtime_macro.Executor.Typing.{keys_of, works_of, run-types_text}
use zmk_module_runtime_macro.Static.{static_pressed, static_pressed-types}
use zmk_module_runtime_macro.Slots.Invariant.{contents}
use zmk_module_runtime_macro.Tests.Data.{
  test_config, test_config-InRange, hi, hi_slots, hi_slots-IsValid, stroke_h, stroke_i, keycode_h,
  keycode_i,
}

-- "Hi" is started; the work queue refuses the release of the first key.
abbrev refused_release : List (Event test_config)
refused_release = starts (some hi) 2 taken ∷ works 100 (refused einval) ∷ []

refused_release_ends : (run test_config refused_release (idle test_config)).1.busy ≡ false
unfolding run step idle start work_handler ascii_to_keycode
refused_release_ends = refl

run-no_stuck_key_example :
    follow (run test_config refused_release (idle test_config)).0 none ≡ some none
run-no_stuck_key_example = run-no_stuck_key test_config refused_release refused_release_ends

run-follow_example :
    follow (run test_config refused_release (idle test_config)).0 (held (idle test_config))
    ≡ some (held (run test_config refused_release (idle test_config)).1)
run-follow_example =
    run-follow test_config refused_release (idle test_config) (idle-IsValid test_config)

run-IsValid_example : IsValid test_config (run test_config refused_release (idle test_config)).1
run-IsValid_example =
    run-IsValid test_config refused_release (idle test_config) (idle-IsValid test_config)

idle_off : (idle test_config).busy ≡ false
unfolding idle
idle_off = refl

run-types_text_example :
    run test_config
      (starts (some hi) 2 taken ∷ works_of test_config (stroke_h ∷ stroke_i ∷ []))
      (idle test_config)
    ≡ (keys_of (stroke_h ∷ stroke_i ∷ []), idle test_config)
run-types_text_example =
    run-types_text test_config stroke_h (stroke_i ∷ []) (idle test_config)
      (idle-IsValid test_config) idle_off (omega arith) (keycode_h, (keycode_i, tt))

hi_contents : contents hi_slots 1 ≡ hi
unfolding contents
hi_contents = refl

static_pressed-types_example :
    ((static_pressed test_config 1 taken hi_slots (idle test_config)).0 ≡ done)
    × (run test_config
          (works_of test_config (stroke_h ∷ stroke_i ∷ []))
          (static_pressed test_config 1 taken hi_slots (idle test_config)).1
        ≡ (keys_of (stroke_h ∷ stroke_i ∷ []), idle test_config))
static_pressed-types_example =
    static_pressed-types test_config test_config-InRange 1 stroke_h (stroke_i ∷ []) hi_slots
      (idle test_config) hi_slots-IsValid (idle-IsValid test_config) idle_off (omega arith)
      hi_contents (keycode_h, (keycode_i, tt))

abbrev hi_text : Option (List ℕ)
hi_text = some hi

abbrev answer : Scheduling
answer = taken

abbrev byte_h : ℕ
byte_h = 72

accepts-ascii_to_keycode_example : accepts (ascii_to_keycode 72) ≡ in_alphabet 72
accepts-ascii_to_keycode_example = accepts-ascii_to_keycode 72

ascii_to_keycode-injective_example : byte_h ≡ 72
ascii_to_keycode-injective_example =
    ascii_to_keycode-injective byte_h 72 34013195 keycode_h keycode_h

ascii_to_keycode-well_formed_example :
    (34013195 / 2 ^ 16 % 2 ^ 8 ≡ 7)
    × (0 < 34013195 % 2 ^ 16)
    × ((34013195 / 2 ^ 24 ≡ 0) ⊎ (34013195 / 2 ^ 24 ≡ 2))
ascii_to_keycode-well_formed_example = ascii_to_keycode-well_formed 72 34013195 keycode_h

-- "Hi" is started; the work queue refuses the release of the second key.
abbrev hi_started : Executor
hi_started = (run test_config (starts (some hi) 2 taken ∷ []) (idle test_config)).1

hi_started_needs : rounds_left hi_started ≤ 4
unfolding run step start idle
hi_started_needs = omega arith

abbrev four_runs : List (ℕ × Scheduling)
four_runs = (10, taken) ∷ (20, taken) ∷ (30, refused einval) ∷ (40, taken) ∷ []

run-ends_example : (run test_config (work_events test_config four_runs) hi_started).1.busy ≡ false
run-ends_example =
    run-ends test_config four_runs hi_started
      (run-IsValid test_config (starts (some hi) 2 taken ∷ []) (idle test_config)
        (idle-IsValid test_config))
      hi_started_needs

run-TypesFirst_example : TypesFirst hi (
    pressed_keys
      (run test_config
        (starts (some hi) 2 taken ∷ work_events test_config four_runs)
        (idle test_config)).0)
run-TypesFirst_example =
    run-TypesFirst test_config hi 2 taken four_runs (idle test_config) (idle-IsValid test_config)
      idle_off (omega arith) (omega arith)
