-- ===== src/Slots/Settings.antt =====
-- The settings handler of runtime_macro.c: loading one setting, and committing the defaults.
use zmk_module_runtime_macro.Base.{
  ℕ, zero, suc, ◌+◌, ◌-◌, ◌*◌, ◌/◌, ◌%◌, ◌^◌, Bool, true, false, not, ◌&&◌, ◌||◌, Option, none,
  some, List, [], ◌∷◌, ◌++◌, ltb, leb, ◌==◌, if◌then◌else◌, length, get_or, take, update, codes,
}
use zmk_module_runtime_macro.Config.{Config, einval, enoent, eio, Result, ok, err, Status, done}
use zmk_module_runtime_macro.Slots.{
  Slots, SettingsCall, saves, Backend, text_is_valid, slot_setting_name, defaults_setting_path,
  default_text, slot_replace,
}

-- settings_name_steq(name, key): `none` where it returns false, else what it stores in `next`. This is
-- the settings library's function as tests/host/stubs/zephyr/settings/settings.h has it.
unfoldable pub name_end : List ℕ → Option (Option (List ℕ))
name_end [] = some none
name_end (ch ∷ rest) =
    if ch == b'/' then some (some rest) else (if ch == b'=' then some none else none)

unfoldable pub name_steq : List ℕ → List ℕ → Option (Option (List ℕ))
unfolding name_end
name_steq name [] = name_end name
name_steq [] (k ∷ key) = none
name_steq (ch ∷ name) (k ∷ key) =
    if ch == b'/' || ch == b'=' || not (k == ch) then none else name_steq name key

-- settings_read_cb with its argument: it is asked for at most so many bytes, and gives an error or
-- the bytes that it read. `none` is a NULL callback.
abbrev pub ReadCb : Type 0
ReadCb = Option (ℕ → Result (List ℕ))

unfoldable pub as_uint8 : Result ℕ → Result ℕ
as_uint8 (ok v) = ok (v % 2 ^ 8)
as_uint8 (err e) = err e

-- What runtime_macro_settings_set makes of the marker's value.
unfoldable pub load_marker : Result (List ℕ) → Slots → Status × Slots
load_marker (err e) s = (err e, s)
load_marker (ok bytes) s =
    if not (length bytes == 1) || not (get_or bytes 0 0 == 1)
    then (err einval, s)
    else (done, record s { defaults_initialized = true })

-- What it makes of a slot's value.
unfoldable pub load_value : ℕ → ℕ → Result (List ℕ) → Slots → Status × Slots
load_value slot n (err e) s = (err e, s)
load_value slot n (ok bytes) s =
    if not (length bytes == n)
    then (err eio, s)
    else if not (text_is_valid (some bytes) n)
    then (err einval, s)
    else (done, slot_replace slot bytes n s)

unfoldable pub load_defaults : Option (List ℕ) → ℕ → ReadCb → Slots → Status × Slots
unfolding load_marker
load_defaults (some next) n read_cb s = (err einval, s)
load_defaults none n none s = (err einval, s)
load_defaults none n (some read) s =
    if not (n == 1) then (err einval, s) else load_marker (read 1) s

-- The part of the commit loop's body after the save, by what the settings library answers.
unfoldable pub mark_saved : ℕ → Status → Slots → Bool × Slots
mark_saved slot (ok u) s = (true, record s { has_persisted = update s.has_persisted slot true })
mark_saved slot (err e) s = (false, s)

unfoldable pub mark_initialized : Status → Slots → Slots
mark_initialized (ok u) s = record s { defaults_initialized = true }
mark_initialized (err e) s = s

module _ (c : Config) where
  -- The loop of runtime_macro_parse_slot, from the value so far.
  unfoldable pub parse_digits : ℕ → List ℕ → Result ℕ
  parse_digits value [] = ok value
  parse_digits value (ch ∷ rest) =
      let digit = ch - b'0' in
      let next = value * 10 + digit in
      if ltb ch b'0' || ltb b'9' ch
      then err einval
      else if ltb ((2 ^ 32 - 1 - digit) / 10) value
      then err einval
      else if leb c.slot_count next
      then err einval
      else parse_digits next rest

  -- runtime_macro_parse_slot; `none` is a NULL name.
  unfoldable pub parse_slot : Option (List ℕ) → Result ℕ
  unfolding parse_digits as_uint8
  parse_slot none = err einval
  parse_slot (some []) = err einval
  parse_slot (some (ch ∷ [])) = as_uint8 (parse_digits 0 (ch ∷ []))
  parse_slot (some (ch ∷ d ∷ rest)) =
      if ch == b'0' then err einval else as_uint8 (parse_digits 0 (ch ∷ d ∷ rest))

  -- The branch of a slot, which is marked as persisted before its value is looked at.
  unfoldable pub load_slot : ℕ → ReadCb → Result ℕ → Slots → Status × Slots
  unfolding load_value
  load_slot n read_cb (err e) s = (err e, s)
  load_slot n none (ok slot) s =
      (err einval, record s { has_persisted = update s.has_persisted slot true })
  load_slot n (some read) (ok slot) s =
      let seen = record s { has_persisted = update s.has_persisted slot true } in
      if ltb c.max_text_len n then (err einval, seen) else load_value slot n (read n) seen

  -- The two names in the source's order: first that of the marker, then that of the slots.
  unfoldable pub load_named :
      ℕ → ReadCb → Option (Option (List ℕ)) → Option (Option (List ℕ)) → Slots → Status × Slots
  unfolding load_slot load_defaults
  load_named n read_cb (some next) slot_name s = load_defaults next n read_cb s
  load_named n read_cb none (some next) s = load_slot n read_cb (parse_slot next) s
  load_named n read_cb none none s = (err enoent, s)

  -- runtime_macro_settings_set, once the authentication settings have returned ENOENT.
  unfoldable pub load_setting : Option (List ℕ) → ℕ → ReadCb → Slots → Status × Slots
  unfolding load_named
  load_setting none n read_cb s = (err enoent, s)
  load_setting (some name) n read_cb s =
      load_named n read_cb (name_steq name (codes "defaults_initialized"))
        (name_steq name (codes "slot")) s

  -- The body of the commit loop: whether the default was saved or not needed, and the calls.
  unfoldable pub commit_slot : Backend → ℕ → Slots → Bool × List SettingsCall × Slots
  unfolding mark_saved
  commit_slot io slot s =
      if s.has_persisted slot
      then (true, [], s)
      else (let (text, n) = default_text slot (c.max_text_len + 1) in
          let s' = slot_replace slot text n s in
          let (fine, s'') = mark_saved slot (io.save (slot_setting_name slot) (take n text)) s' in
          (fine, saves (slot_setting_name slot) (take n text) ∷ [], s''))

  -- The commit loop with so many slots left, from a slot on.
  unfoldable pub commit_slots : Backend → ℕ → ℕ → Slots → Bool × List SettingsCall × Slots
  unfolding commit_slot
  commit_slots io zero slot s = (true, [], s)
  commit_slots io (suc left) slot s =
      let (fine, calls, s') = commit_slot io slot s in
      let (fine', calls', s'') = commit_slots io left (slot + 1) s' in
      (fine && fine', calls ++ calls', s'')

  -- runtime_macro_settings_commit after the authentication commit; it always returns 0.
  unfoldable pub commit_defaults : Backend → Slots → List SettingsCall × Slots
  unfolding commit_slots mark_initialized
  commit_defaults io s =
      if s.defaults_initialized
      then ([], s)
      else (let (fine, calls, s') = commit_slots io c.slot_count 0 s in
          if fine
          then (
            calls ++ saves defaults_setting_path (1 ∷ []) ∷ [],
            mark_initialized (io.save defaults_setting_path (1 ∷ [])) s',
          )
          else (calls, s'))
