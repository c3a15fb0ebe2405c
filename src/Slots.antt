-- ===== src/Slots.antt =====
-- runtime_macro.c: the static slots and their settings. The calls of the settings library are
-- effects: each operation gives out the calls that it makes, in order, and takes the library's
-- answers from a `Backend`. The mutexes only make each operation one step.
use zmk_module_runtime_macro.Base.{
  ℕ, zero, suc, ◌+◌, ◌-◌, ◌*◌, ◌/◌, ◌%◌, ◌^◌, ◌≤◌, ◌<◌, min, ◌≡◌, refl, sym, ap, ap₂, ◌∙◌, fun_ext,
  ◌≢◌, ◌↔◌, ◌⊎◌, inl, inr, Bool, true, false, not, ◌&&◌, ◌||◌, Option, none, some, List, [], ◌∷◌,
  ◌++◌, map, append-nil, append_assoc, arith, ltb, leb, ◌==◌, if◌then◌else◌, ltb→lt, lt→ltb, leb→le,
  le→leb, leb-false, ltb-false, ==_false, ==_iff, tests, Bool-cases, Option-cases, length, get_or,
  take, drop, replicate, length-append, length-take_of_le, length-drop, length-replicate,
  take-append, take-length, drop-append, get_or-take, All, All-append, All-take, bytes_equal,
  bytes_equal→eq, bytes_equal_refl, update, all_below, all_below_sound, codes, decimal_from,
  decimal, write_at, zeros, length-write_at, take-write_at, get_or-write_at_below,
  get_or-write_at_self, take-write_at_below,
}
use zmk_module_runtime_macro.Config.{
  Config, InRange, dynamic_max_text_len, executor_max_text_len, Errno, einval, enoent, eio, ebusy,
  enospc, enodata, eperm, eagain, eacces, enodev, enotsup, other, Result, ok, err, Status, done,
}
pub mod Settings
pub mod Invariant
pub mod Names
pub mod Restore
pub mod Defaults
use mathlib.Core.Option
use zmk_module_runtime_macro.Ascii.{ascii_to_keycode}
use zmk_module_runtime_macro.Ascii.Alphabet.{accepts}

-- The slot buffers with their lengths, and the two flags of the settings.
pub record Slots : Type 0 where
  pub text : ℕ → List ℕ
  pub size : ℕ → ℕ
  pub has_persisted : ℕ → Bool
  pub defaults_initialized : Bool

-- settings_save_one(name, value, length) and settings_delete(name)
pub data SettingsCall : Type 0 where
  saves : List ℕ → List ℕ → SettingsCall
  deletes : List ℕ → SettingsCall

-- What the settings library answers.
pub record Backend : Type 0 where
  pub save : List ℕ → List ℕ → Status
  pub delete : List ℕ → Status

-- runtime_macro_text_is_valid's loop
unfoldable pub bytes_are_valid : List ℕ → Bool
bytes_are_valid [] = true
bytes_are_valid (b ∷ bs) = accepts (ascii_to_keycode b) && bytes_are_valid bs

-- runtime_macro_text_is_valid; `none` is a NULL text.
unfoldable pub text_is_valid : Option (List ℕ) → ℕ → Bool
unfolding bytes_are_valid
text_is_valid none n = n == 0
text_is_valid (some bytes) n = bytes_are_valid (take n bytes)

-- runtime_macro_slot_setting_name
unfoldable pub slot_setting_name : ℕ → List ℕ
slot_setting_name slot = codes "runtime_macro/slot/" ++ decimal slot

-- RUNTIME_MACRO_DEFAULTS_SETTING_PATH
abbrev pub defaults_setting_path : List ℕ
defaults_setting_path = codes "runtime_macro/defaults_initialized"

-- The format of runtime_macro_default_text
unfoldable pub default_line : ℕ → List ℕ
default_line slot = codes "Runtime Macro " ++ decimal (slot + 1)

-- runtime_macro_default_text into a buffer of `size` bytes: the bytes before the NUL, and the length
-- that it returns. snprintf writes all that fits and returns what it would have written.
unfoldable pub default_text : ℕ → ℕ → List ℕ × ℕ
default_text slot size =
    let full = default_line slot in
    if size == 0
    then ([], 0)
    else (take (size - 1) full, if leb size (length full) then size - 1 else length full)

-- runtime_macro_slot_replace
unfoldable pub slot_replace : ℕ → List ℕ → ℕ → Slots → Slots
slot_replace slot bytes n s =
    let moved = if ltb 0 n then write_at 0 (take n bytes) (s.text slot) else s.text slot in
    record s { text = update s.text slot (write_at n (0 ∷ []) moved); size = update s.size slot n }

module _ (c : Config) where
  -- runtime_macro_slot_is_valid
  abbrev pub slot_is_valid : ℕ → Bool
  slot_is_valid slot = ltb slot c.slot_count

  -- zmk_runtime_macro_slot_get: the buffer that the pointer shows.
  unfoldable pub slot_get : ℕ → Slots → Result (List ℕ)
  slot_get slot s = if slot_is_valid slot then ok (s.text slot) else err einval

  -- zmk_runtime_macro_slot_get_length
  unfoldable pub slot_get_length : ℕ → Slots → Result ℕ
  slot_get_length slot s = if slot_is_valid slot then ok (s.size slot) else err einval

  -- zmk_runtime_macro_slot_copy into a buffer of `text_size` bytes: what it writes, and the length.
  unfoldable pub slot_copy : ℕ → ℕ → Slots → Result (List ℕ × ℕ)
  slot_copy slot text_size s =
      if slot_is_valid slot
      then (if leb text_size (s.size slot)
          then err enospc
          else ok (take (s.size slot + 1) (s.text slot), s.size slot))
      else err einval

  -- zmk_runtime_macro_slot_set; `none` is a NULL text.
  unfoldable pub slot_set :
      Backend → ℕ → Option (List ℕ) → ℕ → Slots → Status × List SettingsCall × Slots
  unfolding slot_replace
  slot_set io slot bytes n s =
      if not (slot_is_valid slot) || ltb c.max_text_len n || not (text_is_valid bytes n)
      then (err einval, [], s)
      else (let s' = slot_replace slot (Option.get_or bytes []) n s in
          let value = take n (s'.text slot) in
          (io.save (slot_setting_name slot) value, saves (slot_setting_name slot) value ∷ [], s'))

  -- zmk_runtime_macro_slot_clear
  unfoldable pub slot_clear : Backend → ℕ → Slots → Status × List SettingsCall × Slots
  slot_clear io slot s =
      if slot_is_valid slot
      then (
        io.delete (slot_setting_name slot),
        deletes (slot_setting_name slot) ∷ [],
        record s {
          text = update s.text slot (zeros (c.max_text_len + 1));
          size = update s.size slot 0;
        },
      )
      else (err einval, [], s)
