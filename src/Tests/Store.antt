-- ===== src/Tests/Store.antt =====
-- The static slots and their settings at concrete inputs.
use zmk_module_runtime_macro.Base.{
  ℕ, ◌≤◌, ◌<◌, ◌++◌, ◌&&◌, ◌≢◌, ◌↔◌, arith, ◌≡◌, refl, true, none, some, [], ◌∷◌, length, take,
  if◌then◌else◌, ◌==◌, decimal,
}
use zmk_module_runtime_macro.Config.{einval, enospc, ok, err, done}
use zmk_module_runtime_macro.Ascii.{ascii_to_keycode}
use zmk_module_runtime_macro.Slots.{
  saves, deletes, slot_setting_name, defaults_setting_path, slot_copy, slot_set, slot_clear,
  bytes_are_valid,
}
use zmk_module_runtime_macro.Slots.Settings.{parse_slot, load_setting, commit_defaults}
use zmk_module_runtime_macro.Slots.Invariant.{
  IsValid, contents, slot_set_stores, slot_clear_empties, slot_copy-contents,
}
use zmk_module_runtime_macro.Slots.Names.{parse_slot_iff}
use zmk_module_runtime_macro.Slots.Restore.{slot_key, load_setting-restores, load_setting-IsValid}
use zmk_module_runtime_macro.Slots.Defaults.{expected, is_ok, all_saved, commit_defaults-texts}
use zmk_module_runtime_macro.Tests.Data.{
  test_config, test_config-InRange, hi, hi_slots, hi_slots-IsValid, storing,
}

hi_mapped : bytes_are_valid hi ≡ true
unfolding bytes_are_valid ascii_to_keycode
hi_mapped = refl

load_setting-restores_example :
    ((load_setting test_config (some (slot_key 1)) 2 (some (λ n. ok hi)) hi_slots).0 ≡ done)
    × ((j : ℕ)
        → contents (load_setting test_config (some (slot_key 1)) 2 (some (λ n. ok hi)) hi_slots).1 j
          ≡ (if 1 == j then hi else contents hi_slots j))
    × ((load_setting test_config (some (slot_key 1)) 2 (some (λ n. ok hi)) hi_slots).1.has_persisted
          1
        ≡ true)
    × IsValid test_config
        (load_setting test_config (some (slot_key 1)) 2 (some (λ n. ok hi)) hi_slots).1
load_setting-restores_example =
    load_setting-restores test_config test_config-InRange 1 hi (λ n. ok hi) hi_slots
      hi_slots-IsValid (omega arith) (omega arith) hi_mapped refl

load_setting-IsValid_example :
    IsValid test_config (load_setting test_config none 2 none hi_slots).1
    × ((load_setting test_config none 2 none hi_slots).0 ≢ done
        → (j : ℕ)
        → contents (load_setting test_config none 2 none hi_slots).1 j ≡ contents hi_slots j)
load_setting-IsValid_example =
    load_setting-IsValid test_config test_config-InRange none 2 none hi_slots hi_slots-IsValid

parse_slot_iff_example :
    (parse_slot test_config (some (49 ∷ [])) ≡ ok 1) ↔ ((1 < 2) × (49 ∷ [] ≡ decimal 1))
parse_slot_iff_example = parse_slot_iff test_config test_config-InRange (49 ∷ []) 1

slot_set_stores_example :
    ((slot_set test_config storing 1 (some hi) 2 hi_slots).0 ≡ done)
    × ((slot_set test_config storing 1 (some hi) 2 hi_slots).1
        ≡ saves (slot_setting_name 1) (take 2 hi) ∷ [])
    × ((j : ℕ)
        → contents (slot_set test_config storing 1 (some hi) 2 hi_slots).2 j
          ≡ (if 1 == j then take 2 hi else contents hi_slots j))
    × IsValid test_config (slot_set test_config storing 1 (some hi) 2 hi_slots).2
slot_set_stores_example =
    slot_set_stores test_config storing 1 hi 2 hi_slots hi_slots-IsValid (omega arith) (omega arith)
      (omega arith) hi_mapped

slot_clear_empties_example :
    ((slot_clear test_config storing 1 hi_slots).0 ≡ done)
    × ((slot_clear test_config storing 1 hi_slots).1 ≡ deletes (slot_setting_name 1) ∷ [])
    × ((j : ℕ)
        → contents (slot_clear test_config storing 1 hi_slots).2 j
          ≡ (if 1 == j then [] else contents hi_slots j))
    × IsValid test_config (slot_clear test_config storing 1 hi_slots).2
slot_clear_empties_example =
    slot_clear_empties test_config storing 1 hi_slots hi_slots-IsValid (omega arith)

slot_copy-contents_example :
    (1 < 2
      → 2 < 17
      → slot_copy test_config 1 17 hi_slots
        ≡ ok (contents hi_slots 1 ++ 0 ∷ [], length (contents hi_slots 1)))
    × (1 < 2 → 17 ≤ 2 → slot_copy test_config 1 17 hi_slots ≡ err enospc)
    × (2 ≤ 1 → slot_copy test_config 1 17 hi_slots ≡ err einval)
slot_copy-contents_example = slot_copy-contents test_config 1 17 hi_slots hi_slots-IsValid

commit_defaults-texts_example :
    IsValid test_config (commit_defaults test_config storing hi_slots).1
    × ((j : ℕ)
        → j < 2
        → contents (commit_defaults test_config storing hi_slots).1 j
          ≡ expected test_config test_config-InRange hi_slots j)
    × ((commit_defaults test_config storing hi_slots).1.defaults_initialized ≡ (
        all_saved test_config test_config-InRange storing hi_slots 2 0
        && is_ok test_config test_config-InRange (storing.save defaults_setting_path (1 ∷ []))))
commit_defaults-texts_example =
    commit_defaults-texts test_config test_config-InRange storing hi_slots hi_slots-IsValid refl
