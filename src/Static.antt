-- ===== src/Static.antt =====
-- zmk_runtime_macro_execute of runtime_macro_executor.c and the static behavior,
-- behaviors/behavior_runtime_macro.c: a key of the keymap types the text of a static slot.
use zmk_module_runtime_macro.Base.{
  ℕ, ◌+◌, ◌%◌, ◌^◌, ◌≤◌, ◌<◌, ◌≡◌, refl, sym, ap, ◌∙◌, inl, inr, false, not, some, List, [], ◌∷◌,
  ◌++◌, arith, if◌then◌else◌, lt→ltb, Bool-cases, length, take, length-take_of_le, take-append,
  take-length,
}
use zmk_module_runtime_macro.Config.{
  Config, InRange, executor_max_text_len, einval, Result, ok, err, Status, done,
}
use zmk_module_runtime_macro.Executor.{Executor, Scheduling, taken, start, run, step, idle}
use zmk_module_runtime_macro.Executor.Invariant
use zmk_module_runtime_macro.Executor.Invariant.{start_idle}
use zmk_module_runtime_macro.Executor.Typing.{
  Stroke, bytes_of, works_of, keys_of, Mapped, run-types_text,
}
use zmk_module_runtime_macro.Slots.{Slots, slot_is_valid, slot_copy}
use zmk_module_runtime_macro.Slots.Invariant.{IsValid, contents, slot_copy-contents}

module _ (c : Config) where
  -- What zmk_runtime_macro_execute does with the snapshot.
  unfoldable pub execute_snapshot : Result (List ℕ × ℕ) → Scheduling → Executor → Status × Executor
  unfolding start
  execute_snapshot (err e) answer x = (err e, x)
  execute_snapshot (ok (snapshot, n)) answer x = start c (some snapshot) n answer x

  -- zmk_runtime_macro_execute, with the work queue's answer
  unfoldable pub execute : ℕ → Scheduling → Slots → Executor → Status × Executor
  unfolding execute_snapshot slot_copy
  execute slot answer s x = execute_snapshot (slot_copy c slot (c.max_text_len + 1) s) answer x

  -- on_keymap_binding_pressed: the 32-bit cell is checked before it is narrowed to a uint8_t. 0
  -- stands for ZMK_BEHAVIOR_OPAQUE.
  unfoldable pub static_pressed : ℕ → Scheduling → Slots → Executor → Status × Executor
  unfolding execute
  static_pressed cell answer s x =
      if not (slot_is_valid c cell) then (err einval, x) else execute (cell % 2 ^ 8) answer s x

  -- on_keymap_binding_released
  unfoldable pub static_released : ℕ → Status
  static_released cell = if not (slot_is_valid c cell) then err einval else done

  -- A start reads no more of the text than its length.
  start_prefix :
      (a b : List ℕ) (n : ℕ) (answer : Scheduling) (x : Executor)
      → take n a ≡ take n b
      → start c (some a) n answer x ≡ start c (some b) n answer x
  unfolding start
  start_prefix a b n answer x e = rw e refl

  capacity : InRange c → c.max_text_len ≤ executor_max_text_len c
  capacity r = elim (Bool-cases c.dynamic) [
    | inl on ↦ rw on (omega (arith, r.text_le))
    | inr off ↦ rw off (omega arith)
  ]

  execute_valid :
      (slot : ℕ) (answer : Scheduling) (s : Slots) (x : Executor)
      → IsValid c s
      → slot < c.slot_count
      → execute slot answer s x
        ≡ start c (some (contents s slot)) (length (contents s slot)) answer x
  execute_valid slot answer s x v lt =
      unfolded
      ∙ start_prefix (contents s slot ++ 0 ∷ []) (contents s slot) (length (contents s slot)) answer
          x (take-append (contents s slot) (0 ∷ []) ∙ sym (take-length (contents s slot)))
    where
      unfolded :
          execute slot answer s x
          ≡ start c (some (contents s slot ++ 0 ∷ [])) (length (contents s slot)) answer x
      unfolded =
          unfold execute execute_snapshot in
          ap (λ o. execute_snapshot o answer x)
            ((slot_copy-contents c slot (c.max_text_len + 1) s v).0 lt
              (omega (arith, (v.slot slot lt).fits)))

  static_pressed-execute :
      (r : InRange c) (cell : ℕ) (answer : Scheduling) (s : Slots) (x : Executor)
      → cell < c.slot_count
      → static_pressed cell answer s x ≡ execute cell answer s x
  unfolding static_pressed
  static_pressed-execute r cell answer s x lt =
      let narrow : cell % 2 ^ 8 ≡ cell = omega (arith, r.slots_le) in
      rw (narrow, lt→ltb cell c.slot_count lt)

  contents-capacity :
      (r : InRange c) (s : Slots) (slot : ℕ)
      → IsValid c s
      → slot < c.slot_count
      → length (contents s slot) ≤ executor_max_text_len c
  unfolding contents
  contents-capacity r s slot v lt =
      let i = v.slot slot lt in
      rw (length-take_of_le (s.size slot) (s.text slot) (omega (arith, i.full, i.fits)))
        (omega (arith, i.fits, capacity r))

  -- While the executor is idle, and provided that the work queue takes every request, a key bound to a
  -- static slot in range whose text is not empty types that text: the press gives 0, and the runs of
  -- the work item that follow press and release the key of each byte in order, at the times of the
  -- runs, and leave the executor idle and wiped.
  pub static_pressed-types :
      (r : InRange c) (cell : ℕ) (k : Stroke) (ks : List Stroke) (s : Slots) (x : Executor)
      → IsValid c s
      → Invariant.IsValid c x
      → x.busy ≡ false
      → cell < c.slot_count
      → contents s cell ≡ bytes_of (k ∷ ks)
      → Mapped (k ∷ ks)
      → let (status, y) = static_pressed cell taken s x in
        (status ≡ done) × (run c (works_of c (k ∷ ks)) y ≡ (keys_of (k ∷ ks), idle c))
  static_pressed-types r cell k ks s x v w off lt e m = rw started (
    ((start_idle c bs (length bs) taken x w (omega arith) fits off).1 (λ z. omega arith) refl).0,
    unfold run step in run-types_text c k ks x w off fits m,
  )
    where
      bs : List ℕ
      bs = bytes_of (k ∷ ks)

      fits : length bs ≤ executor_max_text_len c
      fits = rw e at (contents-capacity r s cell v lt)

      started : static_pressed cell taken s x ≡ start c (some bs) (length bs) taken x
      started =
          static_pressed-execute r cell taken s x lt
          ∙ execute_valid cell taken s x v lt
          ∙ ap (λ t. start c (some t) (length t) taken x) e
