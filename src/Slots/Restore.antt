-- ===== src/Slots/Restore.antt =====
-- Loading the slots' settings at boot in runtime_macro.c: what was saved comes back, and a malformed
-- setting changes no text.
use zmk_module_runtime_macro.Base.{
  ℕ, ◌≤◌, ◌<◌, ◌≡◌, refl, ap, ◌∙◌, ◌≢◌, inl, inr, true, not, ◌||◌, Option, none, some, List, ◌++◌,
  arith, ltb, ◌==◌, if◌then◌else◌, ltb-false, ==_iff, Bool-cases, length, get_or, take, take-length,
  update, codes, decimal,
}
use zmk_module_runtime_macro.Config.{Config, InRange, Result, ok, err, Status, done}
use zmk_module_runtime_macro.Slots.{
  Slots, bytes_are_valid, text_is_valid, slot_setting_name, slot_replace,
}
use zmk_module_runtime_macro.Slots.Settings.{
  name_steq, ReadCb, parse_slot, load_marker, load_value, load_slot, load_defaults, load_named,
  load_setting,
}
use zmk_module_runtime_macro.Slots.Invariant.{
  IsValid, contents, contents-slot_replace, slot_replace-IsValid,
}
use zmk_module_runtime_macro.Slots.Names.{parse_slot_iff}

-- The name of a slot's setting below the handler's subtree "runtime_macro".
abbrev pub slot_key : ℕ → List ℕ
slot_key n = codes "slot/" ++ decimal n

-- The settings library strips the subtree from the name under which the slot was saved.
pub slot_setting_name-slot_key :
    (n : ℕ) → slot_setting_name n ≡ codes "runtime_macro/" ++ slot_key n
unfolding slot_setting_name
slot_setting_name-slot_key n = refl

module _ (c : Config) where
  load_value_safe :
      (slot n : ℕ) (r : Result (List ℕ)) (s : Slots)
      → slot < c.slot_count
      → n ≤ c.max_text_len
      → IsValid c s
      → IsValid c (load_value slot n r s).1
        × ((load_value slot n r s).0 ≢ done → (load_value slot n r s).1 ≡ s)
  unfolding load_value text_is_valid
  load_value_safe slot n (err e) s lt h v = (v, λ _. refl)
  load_value_safe slot n (ok bytes) s lt h v = elim (Bool-cases (not (length bytes == n))) [
    | inl differ ↦ rw differ (v, λ _. refl)
    | inr same ↦ elim (Bool-cases (bytes_are_valid (take n bytes))) [
      | inr bad ↦ rw (same, bad) (v, λ _. refl)
      | inl mapped ↦
          rw (same, mapped)
            (
              slot_replace-IsValid c slot bytes n s lt (ground arith) h mapped v,
              λ ne. absurd (ne refl),
            )
    ]
  ]

  -- The value that was saved under a slot's name comes back: loading it succeeds, gives the slot
  -- exactly these bytes, leaves the other slots alone, and keeps the default away from the slot.
  pub load_setting-restores :
      (r : InRange c) (n : ℕ) (bytes : List ℕ) (read : ℕ → Result (List ℕ)) (s : Slots)
      → IsValid c s
      → n < c.slot_count
      → length bytes ≤ c.max_text_len
      → bytes_are_valid bytes ≡ true
      → read (length bytes) ≡ ok bytes
      → let (status, s') = load_setting c (some (slot_key n)) (length bytes) (some read) s in
        (status ≡ done)
        × ((j : ℕ) → contents s' j ≡ (if n == j then bytes else contents s j))
        × (s'.has_persisted n ≡ true)
        × IsValid c s'
  unfolding load_setting name_steq text_is_valid
  load_setting-restores r n bytes read s v lt fits mapped answer =
      rw
        (
          (parse_slot_iff c r (decimal n) n).1 (lt, refl),
          ltb-false c.max_text_len (length bytes) fits,
          answer,
          (==_iff (length bytes) (length bytes)).1 refl,
          take-length bytes,
          mapped,
        )
        (
          refl,
          (λ j.
              contents-slot_replace c n bytes (length bytes) seen j (omega arith)
                (omega (arith, (v.slot n lt).full))
              ∙ unfold contents in
                ap (λ t. if n == j then t else take (s.size j) (s.text j)) (take-length bytes)),
          unfold slot_replace in ground arith,
          slot_replace-IsValid c n bytes (length bytes) seen lt (omega arith) fits
              (rw (take-length bytes) mapped) (record { slot = v.slot }),
        )
    where
      seen : Slots
      seen = record s { has_persisted = update s.has_persisted n true }

  parse_slot_below :
      (r : InRange c) (next : Option (List ℕ)) (slot : ℕ)
      → parse_slot c next ≡ ok slot
      → slot < c.slot_count
  unfolding parse_slot
  parse_slot_below r none slot e = absurd (cc)
  parse_slot_below r (some name) slot e = ((parse_slot_iff c r name slot).0 e).0

  -- The slots stay valid, and no text changes unless the setting is accepted.
  abbrev Safe : Slots → Status × Slots → Type 0
  Safe s out = IsValid c out.1 × (out.0 ≢ done → (j : ℕ) → contents out.1 j ≡ contents s j)

  load_slot-Safe :
      (n : ℕ) (cb : ReadCb) (p : Result ℕ) (s : Slots)
      → ((slot : ℕ) → p ≡ ok slot → slot < c.slot_count)
      → IsValid c s
      → Safe s (load_slot c n cb p s)
  unfolding load_slot contents
  load_slot-Safe n cb (err e) s below v = (v, λ _ j. refl)
  load_slot-Safe n none (ok slot) s below v = (record { slot = v.slot }, λ _ j. refl)
  load_slot-Safe n (some read) (ok slot) s below v =
      let seen : Slots = record s { has_persisted = update s.has_persisted slot true } in
      elim (Bool-cases (ltb c.max_text_len n)) [
        | inl long ↦ rw long (record { slot = v.slot }, λ _ j. refl)
        | inr fine ↦
            let safe =
              load_value_safe slot n (read n) seen (below slot refl) (ground arith)
                (record { slot = v.slot }) in
            rw fine (safe.0, λ ne j. ap (λ (t : Slots). take (t.size j) (t.text j)) (safe.1 ne))
      ]

  load_marker-Safe : (m : Result (List ℕ)) (s : Slots) → IsValid c s → Safe s (load_marker m s)
  unfolding load_marker contents
  load_marker-Safe (err e) s v = (v, λ _ j. refl)
  load_marker-Safe (ok bytes) s v =
      elim (Bool-cases (not (length bytes == 1) || not (get_or bytes 0 0 == 1))) [
        | inl bad ↦ rw bad (v, λ _ j. refl)
        | inr fine ↦ rw fine (record { slot = v.slot }, λ _ j. refl)
      ]

  load_defaults-Safe :
      (next : Option (List ℕ)) (n : ℕ) (cb : ReadCb) (s : Slots)
      → IsValid c s
      → Safe s (load_defaults next n cb s)
  unfolding load_defaults
  load_defaults-Safe (some next) n cb s v = (v, λ _ j. refl)
  load_defaults-Safe none n none s v = (v, λ _ j. refl)
  load_defaults-Safe none n (some read) s v = elim (Bool-cases (not (n == 1))) [
    | inl bad ↦ rw bad (v, λ _ j. refl)
    | inr fine ↦ rw fine (load_marker-Safe (read 1) s v)
  ]

  load_named-Safe :
      (r : InRange c) (n : ℕ) (cb : ReadCb) (marker slot : Option (Option (List ℕ))) (s : Slots)
      → IsValid c s
      → Safe s (load_named c n cb marker slot s)
  unfolding load_named
  load_named-Safe r n cb (some next) slot s v = load_defaults-Safe next n cb s v
  load_named-Safe r n cb none (some next) s v =
      load_slot-Safe n cb (parse_slot c next) s (parse_slot_below r next) v
  load_named-Safe r n cb none none s v = (v, λ _ j. refl)

  -- Whatever setting is loaded, with whatever length and read callback, the slots stay valid; if it
  -- is not accepted, no slot's text changes.
  pub load_setting-IsValid :
      (r : InRange c) (name : Option (List ℕ)) (n : ℕ) (cb : ReadCb) (s : Slots)
      → IsValid c s
      → IsValid c (load_setting c name n cb s).1
        × ((load_setting c name n cb s).0 ≢ done
            → (j : ℕ) → contents (load_setting c name n cb s).1 j ≡ contents s j)
  unfolding load_setting
  load_setting-IsValid r none n cb s v = (v, λ _ j. refl)
  load_setting-IsValid r (some name) n cb s v =
      load_named-Safe r n cb (name_steq name (codes "defaults_initialized"))
        (name_steq name (codes "slot")) s v
