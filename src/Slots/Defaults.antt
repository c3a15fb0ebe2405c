-- ===== src/Slots/Defaults.antt =====
-- Committing the defaults in runtime_macro.c: which texts the slots have afterwards, and when the
-- marker is set.
use zmk_module_runtime_macro.Base.{
  ℕ, zero, suc, ◌+◌, ◌-◌, ◌≤◌, ◌<◌, ◌≡◌, refl, sym, ap, ap₂, ◌∙◌, ◌≢◌, inl, inr, Bool, true, false,
  ◌&&◌, ◌||◌, List, [], ◌∷◌, ◌++◌, arith, leb, ◌==◌, if◌then◌else◌, ==_false, ==_iff, Bool-cases,
  length, take, length-take_of_le, take-length, all_below, all_below_sound, decimal,
}
use zmk_module_runtime_macro.Config.{Config, InRange, ok, err, Status}
use zmk_module_runtime_macro.Ascii.{ascii_to_keycode}
use zmk_module_runtime_macro.Slots.{
  Slots, SettingsCall, Backend, bytes_are_valid, slot_setting_name, defaults_setting_path,
  default_line, default_text, slot_replace,
}
use zmk_module_runtime_macro.Slots.Settings.{
  mark_saved, mark_initialized, commit_slot, commit_slots, commit_defaults,
}
use zmk_module_runtime_macro.Slots.Invariant.{
  IsValid, contents, contents-slot_replace, slot_replace-IsValid,
}

-- "Runtime Macro <slot + 1>", cut to the longest text of a slot.
abbrev pub default_contents : Config → ℕ → List ℕ
default_contents c slot = take c.max_text_len (default_line slot)

take_of_le : (n : ℕ) (xs : List ℕ) → length xs ≤ n → take n xs ≡ xs
take_of_le zero [] h = refl
take_of_le zero (x ∷ xs) h = elim h [ ]
take_of_le (suc n) [] h = refl
take_of_le (suc n) (x ∷ xs) h = ap (◌∷◌ x) (take_of_le n xs (omega arith))

take-take : (n : ℕ) (xs : List ℕ) → take n (take n xs) ≡ take n xs
take-take zero xs = refl
take-take (suc n) [] = refl
take-take (suc n) (x ∷ xs) = ap (◌∷◌ x) (take-take n xs)

bytes_are_valid-take :
    (n : ℕ) (xs : List ℕ) → bytes_are_valid xs ≡ true → bytes_are_valid (take n xs) ≡ true
unfolding bytes_are_valid
bytes_are_valid-take zero xs h = refl
bytes_are_valid-take (suc n) [] h = refl
bytes_are_valid-take (suc n) (x ∷ xs) h = ground (arith, bytes_are_valid-take n xs)

default_table : all_below 16 (λ slot. bytes_are_valid (default_line slot)) ≡ true
unfolding bytes_are_valid default_line decimal ascii_to_keycode
default_table = refl

module _ (c : Config) (r : InRange c) where
  cut_line :
      (m : ℕ) (full : List ℕ)
      → let n = if leb (m + 1) (length full) then m + 1 - 1 else length full in
        (n ≤ length (take (m + 1 - 1) full))
        × (n ≤ m)
        × (take n (take (m + 1 - 1) full) ≡ take m full)
  cut_line m full = elim (Bool-cases (leb (m + 1) (length full))) [
    | inl long ↦
        let same : m + 1 - 1 ≡ m = omega arith in
        rw (long, same)
          (omega (arith, length-take_of_le m full (ground arith)), omega arith, take-take m full)
    | inr short ↦
        let same : m + 1 - 1 ≡ m = omega arith in
        let le : length full ≤ m = ground arith in
        rw (short, same, take_of_le m full le) (omega arith, le, take-length full)
  ]

  -- The text and the length fit each other, and the text is the default.
  default_text_lem :
      (slot : ℕ)
      → let (text, n) = default_text slot (c.max_text_len + 1) in
        (n ≤ length text) × (n ≤ c.max_text_len) × (take n text ≡ default_contents c slot)
  unfolding default_text
  default_text_lem slot =
      rw (==_false (c.max_text_len + 1) 0 (λ e. omega arith))
        (cut_line c.max_text_len (default_line slot))

  -- The text that a slot has after the commit: its own if a setting for it was seen, else the default.
  abbrev pub expected : Slots → ℕ → List ℕ
  expected s j = if s.has_persisted j then contents s j else default_contents c j

  -- Whether the settings library stores the default of a slot that needs it.
  abbrev pub is_ok : Status → Bool
  is_ok (ok u) = true
  is_ok (err e) = false

  abbrev pub slot_saved : Backend → Slots → ℕ → Bool
  slot_saved io s j =
      s.has_persisted j || is_ok (io.save (slot_setting_name j) (default_contents c j))

  abbrev pub all_saved : Backend → Slots → ℕ → ℕ → Bool
  all_saved io s zero slot = true
  all_saved io s (suc left) slot = slot_saved io s slot && all_saved io s left (slot + 1)

  -- What one round of the loop does to the slots.
  record Round (io : Backend) (slot : ℕ) (s : Slots) (out : Bool × List SettingsCall × Slots)
      : Type 0 where
    valid : IsValid c out.2
    texts : (j : ℕ) → contents out.2 j ≡ (if slot == j then expected s j else contents s j)
    others : (j : ℕ) → slot ≢ j → out.2.has_persisted j ≡ s.has_persisted j
    fine : out.0 ≡ slot_saved io s slot

  mark_saved-Round :
      (io : Backend) (slot : ℕ) (s s' : Slots) (st : Status) (calls : List SettingsCall)
      → IsValid c s'
      → ((j : ℕ) → contents s' j ≡ (if slot == j then expected s j else contents s j))
      → s'.has_persisted ≡ s.has_persisted
      → is_ok st ≡ slot_saved io s slot
      → let (fine, s'') = mark_saved slot st s' in Round io slot s (fine, calls, s'')
  unfolding mark_saved contents
  mark_saved-Round io slot s s' (ok u) calls v t p f = record {
    valid = record { slot = v.slot };
    texts = t;
    others = λ j ne. rw (==_false slot j ne) (ap (λ (h : ℕ → Bool). h j) p);
    fine = f;
  }
  mark_saved-Round io slot s s' (err e) calls v t p f = record {
    valid = v;
    texts = t;
    others = λ j ne. ap (λ (h : ℕ → Bool). h j) p;
    fine = f;
  }

  expected_unseen :
      (s : Slots) (j : ℕ) → s.has_persisted j ≡ false → expected s j ≡ default_contents c j
  expected_unseen s j h = rw h

  texts_unseen :
      (slot j : ℕ) (t : List ℕ) (s : Slots)
      → s.has_persisted slot ≡ false
      → t ≡ default_contents c slot
      → (if slot == j then t else contents s j) ≡ (if slot == j then expected s j else contents s j)
  texts_unseen slot j t s unseen q = elim (Bool-cases (slot == j)) [
    | inl same ↦
        let e : slot ≡ j = (==_iff slot j).0 same in
        rw same (
          q
          ∙ ap (default_contents c) e
          ∙ sym (expected_unseen s j (ap s.has_persisted (sym e) ∙ unseen)))
    | inr differ ↦ rw differ
  ]

  commit_slot-Round :
      (io : Backend) (slot : ℕ) (s : Slots)
      → slot < c.slot_count
      → IsValid c s
      → Round io slot s (commit_slot c io slot s)
  unfolding commit_slot
  commit_slot-Round io slot s lt v = elim (Bool-cases (s.has_persisted slot)) [
    | inl seen ↦ rw seen (record {
      valid = v;
      texts = λ j. elim (Bool-cases (slot == j)) [
        | inl same ↦
            let e : slot ≡ j = (==_iff slot j).0 same in
            rw same (rw (ap s.has_persisted (sym e) ∙ seen))
        | inr differ ↦ rw differ
      ];
      others = λ j ne. refl;
      fine = rw seen;
    })
    | inr unseen ↦
        let (le, fits, line) = default_text_lem slot in
        let text : List ℕ = (default_text slot (c.max_text_len + 1)).0 in
        let n : ℕ = (default_text slot (c.max_text_len + 1)).1 in
        let room : n < length (s.text slot) = omega (arith, (v.slot slot lt).full) in
        rw unseen (
          mark_saved-Round io slot s (slot_replace slot text n s) _ _
            (slot_replace-IsValid c slot text n s lt le fits
              (ap bytes_are_valid line
                ∙ bytes_are_valid-take c.max_text_len (default_line slot) (
                    all_below_sound 16 (λ k. bytes_are_valid (default_line k)) slot default_table
                      (omega (arith, r.slots_le))))
              v)
            (λ j.
              contents-slot_replace c slot text n s j le room ∙ texts_unseen slot j _ s unseen line)
            (unfold slot_replace in refl)
            (ap (λ t. is_ok (io.save (slot_setting_name slot) t)) line ∙ rw unseen))
  ]

  -- What the loop does from a slot on.
  record Rounds (io : Backend) (left slot : ℕ) (s : Slots) (out : Bool × List SettingsCall × Slots)
      : Type 0 where
    valid : IsValid c out.2
    below : (j : ℕ) → j < slot → contents out.2 j ≡ contents s j
    texts : (j : ℕ) → slot ≤ j → j < slot + left → contents out.2 j ≡ expected s j
    fine : out.0 ≡ all_saved io s left slot

  all_saved_cong :
      (io : Backend) (s t : Slots) (left slot : ℕ)
      → ((j : ℕ) → slot ≤ j → t.has_persisted j ≡ s.has_persisted j)
      → all_saved io t left slot ≡ all_saved io s left slot
  all_saved_cong io s t zero slot h = refl
  all_saved_cong io s t (suc left) slot h =
      ap₂ ◌&&◌
        (ap (λ b. b || is_ok (io.save (slot_setting_name slot) (default_contents c slot)))
          (h slot (omega arith)))
        (all_saved_cong io s t left (slot + 1) (λ j le. h j (omega arith)))

  expected_after :
      (io : Backend) (slot j : ℕ) (s : Slots) (out : Bool × List SettingsCall × Slots)
      → Round io slot s out
      → slot ≢ j
      → expected out.2 j ≡ expected s j
  expected_after io slot j s out first ne =
      ap₂ (λ (b : Bool) (t : List ℕ). if b then t else default_contents c j) (first.others j ne)
        (first.texts j ∙ rw (==_false slot j ne))

  Rounds-cons :
      (io : Backend) (left slot : ℕ) (s : Slots) (one more : Bool × List SettingsCall × Slots)
      → Round io slot s one
      → Rounds io left (slot + 1) one.2 more
      → Rounds io (suc left) slot s (one.0 && more.0, one.1 ++ more.1, more.2)
  Rounds-cons io left slot s one more first rest = record {
    valid = rest.valid;
    below = λ j lt.
        rest.below j (omega arith) ∙ first.texts j ∙ rw (==_false slot j (λ e. omega arith));
    texts = λ j le lt. elim (Bool-cases (slot == j)) [
      | inl same ↦ rest.below j (ground arith) ∙ first.texts j ∙ rw same
      | inr differ ↦
          rest.texts j (ground arith) (omega arith)
          ∙ expected_after io slot j s one first (ground arith)
    ];
    fine = ap₂ ◌&&◌ first.fine (
        rest.fine
        ∙ all_saved_cong io s one.2 left (slot + 1) (λ j le. first.others j (λ e. omega arith)));
  }

  commit_slots-Rounds :
      (io : Backend) (left slot : ℕ) (s : Slots)
      → slot + left ≤ c.slot_count
      → IsValid c s
      → Rounds io left slot s (commit_slots c io left slot s)
  unfolding commit_slots
  commit_slots-Rounds io zero slot s h v = record {
    valid = v;
    below = λ j lt. refl;
    texts = λ j le lt. absurd (omega arith);
    fine = refl;
  }
  commit_slots-Rounds io (suc left) slot s h v =
      let first = commit_slot-Round io slot s (omega arith) v in
      Rounds-cons io left slot s (commit_slot c io slot s)
        (commit_slots c io left (slot + 1) (commit_slot c io slot s).2) first
        (commit_slots-Rounds io left (slot + 1) (commit_slot c io slot s).2 (omega arith)
          first.valid)

  mark_initialized-IsValid :
      (st : Status) (s : Slots)
      → IsValid c s
      → s.defaults_initialized ≡ false
      → IsValid c (mark_initialized st s)
        × ((j : ℕ) → contents (mark_initialized st s) j ≡ contents s j)
        × ((mark_initialized st s).defaults_initialized ≡ is_ok st)
  unfolding mark_initialized contents
  mark_initialized-IsValid (ok u) s v f = (record { slot = v.slot }, λ j. refl, refl)
  mark_initialized-IsValid (err e) s v f = (v, λ j. refl, f)

  flag_kept :
      (slot : ℕ) (st : Status) (s : Slots)
      → (mark_saved slot st s).1.defaults_initialized ≡ s.defaults_initialized
  unfolding mark_saved
  flag_kept slot (ok u) s = refl
  flag_kept slot (err e) s = refl

  flag_replaced :
      (slot : ℕ) (bytes : List ℕ) (n : ℕ) (s : Slots)
      → (slot_replace slot bytes n s).defaults_initialized ≡ s.defaults_initialized
  unfolding slot_replace
  flag_replaced slot bytes n s = refl

  slot_flag_kept :
      (io : Backend) (slot : ℕ) (s : Slots)
      → (commit_slot c io slot s).2.defaults_initialized ≡ s.defaults_initialized
  unfolding commit_slot
  slot_flag_kept io slot s = elim (Bool-cases (s.has_persisted slot)) [
    | inl seen ↦ rw seen
    | inr unseen ↦ rw unseen (flag_kept slot _ _ ∙ flag_replaced slot _ _ s)
  ]

  slots_flag_kept :
      (io : Backend) (left slot : ℕ) (s : Slots)
      → (commit_slots c io left slot s).2.defaults_initialized ≡ s.defaults_initialized
  unfolding commit_slots
  slots_flag_kept io zero slot s = refl
  slots_flag_kept io (suc left) slot s =
      slots_flag_kept io left (slot + 1) (commit_slot c io slot s).2 ∙ slot_flag_kept io slot s

  -- The first commit gives every slot for which no setting was seen its default text and leaves the
  -- texts of the others alone; the defaults count as initialised afterwards exactly if every default
  -- that was needed and then the marker could be saved.
  pub commit_defaults-texts :
      (io : Backend) (s : Slots)
      → IsValid c s
      → s.defaults_initialized ≡ false
      → let (calls, s') = commit_defaults c io s in
        IsValid c s'
        × ((j : ℕ) → j < c.slot_count → contents s' j ≡ expected s j)
        × (s'.defaults_initialized
            ≡ (all_saved io s c.slot_count 0 && is_ok (io.save defaults_setting_path (1 ∷ []))))
  unfolding commit_defaults
  commit_defaults-texts io s v first =
      let all = commit_slots-Rounds io c.slot_count 0 s (omega arith) v in
      let kept = slots_flag_kept io c.slot_count 0 s ∙ first in
      elim (Bool-cases (commit_slots c io c.slot_count 0 s).0) [
        | inl fine ↦
            let (v', t, f) =
              mark_initialized-IsValid (io.save defaults_setting_path (1 ∷ []))
                (commit_slots c io c.slot_count 0 s).2 all.valid kept in
            simp (first, fine, sym all.fine ∙ fine)
              (v', λ j lt. t j ∙ all.texts j (omega arith) (omega arith), f)
        | inr bad ↦
            simp (first, bad, sym all.fine ∙ bad)
              (all.valid, λ j lt. all.texts j (omega arith) (omega arith), kept)
      ]
