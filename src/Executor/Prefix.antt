-- ===== src/Executor/Prefix.antt =====
-- What a text can come to where the work queue may refuse: never anything but a first part of it.
use zmk_module_runtime_macro.Base.{
  ℕ, zero, suc, ◌+◌, ◌≤◌, ◌<◌, ◌≡◌, refl, ap, ap₂, ◌∙◌, ◌≢◌, inl, inr, true, false, none, some,
  List, [], ◌∷◌, ◌++◌, map, arith, leb, ◌==◌, if◌then◌else◌, ==_iff, Bool-cases, length, get_or,
  take, drop, length-take_of_le, get_or-take,
}
use mathlib.Core.Path.{subst}
use native.Mathlib.Numerals.{add-one}
use zmk_module_runtime_macro.Config.{Config, executor_max_text_len, Result, ok, err}
use zmk_module_runtime_macro.Ascii.{ascii_to_keycode}
use zmk_module_runtime_macro.Executor.{
  Phase, press, release, Executor, KeyEvent, Scheduling, taken, refused, schedule, finish,
  press_key, next_key, work_phase, work_handler, raise, starts, start, step, run,
}
use zmk_module_runtime_macro.Executor.Invariant.{
  IsValid, start_idle, start-IsValid, work_handler-IsValid,
}
use zmk_module_runtime_macro.Executor.End.{work_events}

-- The keycodes of the keys that are pressed, in order.
abbrev pub pressed_keys : List KeyEvent → List ℕ
pressed_keys [] = []
pressed_keys (e ∷ es) = if e.pressed then e.encoded ∷ pressed_keys es else pressed_keys es

-- The keys are those of the first so many bytes.
abbrev pub TypesFirst : List ℕ → List ℕ → Type 0
TypesFirst bytes keys = (m : ℕ) × (map ascii_to_keycode (take m bytes) ≡ map (λ k. ok k) keys)

-- The bytes whose keys are still to be pressed.
abbrev left_from : Phase → ℕ → ℕ
left_from press i = i
left_from release i = i + 1

abbrev to_type : Executor → List ℕ
to_type x = drop (left_from x.phase x.index) (take x.length x.text)

drop_at :
    (i : ℕ) (bytes : List ℕ)
    → i < length bytes
    → drop i bytes ≡ get_or bytes i 0 ∷ drop (suc i) bytes
drop_at i [] h = absurd (omega arith)
drop_at zero (b ∷ bytes) h = refl
drop_at (suc i) (b ∷ bytes) h = drop_at i bytes (omega arith)

nothing : {bytes : List ℕ} → TypesFirst bytes []
nothing = (0, refl)

module _ (c : Config) where
  idle_types_nothing :
      (items : List (ℕ × Scheduling)) (x : Executor)
      → x.busy ≡ false
      → (run c (work_events c items) x).0 ≡ []
  unfolding run step work_handler
  idle_types_nothing [] x free = refl
  idle_types_nothing ((now, s) ∷ items) x free =
      rw free (idle_types_nothing items (record x { busy = false; scheduled = none }) refl)

  after_idle :
      (items : List (ℕ × Scheduling)) (x : Executor) (bytes : List ℕ)
      → x.busy ≡ false
      → TypesFirst bytes (pressed_keys (run c (work_events c items) x).0)
  after_idle items x bytes free = rw (idle_types_nothing items x free) nothing

  one_more :
      (bytes rest keys : List ℕ) (b k : ℕ)
      → bytes ≡ b ∷ rest
      → ascii_to_keycode b ≡ ok k
      → TypesFirst rest keys
      → TypesFirst bytes (k ∷ keys)
  one_more bytes rest keys b k e mapped h = (suc h.0, rw e (ap₂ (λ r rs. r ∷ rs) mapped h.1))

  -- The bytes left, where a key is about to be pressed.
  next_byte :
      (x : Executor)
      → IsValid c x
      → x.index < x.length
      → drop x.index (take x.length x.text)
        ≡ get_or x.text x.index 0 ∷ drop (x.index + 1) (take x.length x.text)
  next_byte x v inside = rw add-one (
      drop_at x.index (take x.length x.text)
        (omega (arith, length-take_of_le x.length x.text (omega (arith, v.fits, v.size)), inside))
      ∙ ap (λ b. b ∷ drop (suc x.index) (take x.length x.text))
          (get_or-take x.length x.index x.text 0 inside))

  module _ (items : List (ℕ × Scheduling)) where
    -- The keys that the runs press from a state on.
    abbrev pressed_from : Executor → List ℕ
    pressed_from x = pressed_keys (run c (work_events c items) x).0

    abbrev after : List KeyEvent × Executor → List ℕ
    after r = pressed_keys (r.0 ++ (run c (work_events c items) r.1).0)

    -- What one run of the work item adds to the keys of the runs behind it.
    work_phase-TypesFirst :
        (p : Phase) (now : ℕ) (s : Scheduling) (key : Result ℕ) (x : Executor)
        → ascii_to_keycode (get_or x.text x.index 0) ≡ key
        → drop x.index (take x.length x.text)
          ≡ get_or x.text x.index 0 ∷ drop (x.index + 1) (take x.length x.text)
        → (let y = (work_phase c p now s key x).1 in TypesFirst (to_type y) (pressed_from y))
        → TypesFirst
            (drop (left_from p x.index) (take x.length x.text))
            (after (work_phase c p now s key x))
    unfolding work_phase press_key next_key raise finish schedule
    work_phase-TypesFirst press now taken (ok k) x mapped e rest = one_more _ _ _ _ k e mapped rest
    work_phase-TypesFirst press now (refused f) (ok k) x mapped e rest =
        one_more _ _ _ _ k e mapped (after_idle items (finish c x) _ refl)
    work_phase-TypesFirst press now s (err f) x mapped e rest = after_idle items (finish c x) _ refl
    work_phase-TypesFirst release now taken key x mapped e rest =
        elim (Bool-cases (leb x.length (x.index + 1))) [
          | inl last ↦ rw last (after_idle items (finish c x) _ refl)
          | inr more ↦ rw more (rw more at rest)
        ]
    work_phase-TypesFirst release now (refused f) key x mapped e rest =
        elim (Bool-cases (leb x.length (x.index + 1))) [
          | inl last ↦ rw last (after_idle items (finish c x) _ refl)
          | inr more ↦ rw more (after_idle items (finish c x) _ refl)
        ]

    work_handler-TypesFirst :
        (now : ℕ) (s : Scheduling) (x : Executor)
        → IsValid c x
        → (let y = (work_handler c now s x).1 in TypesFirst (to_type y) (pressed_from y))
        → TypesFirst (to_type x) (after (work_handler c now s x))
    unfolding work_handler
    work_handler-TypesFirst now s x v rest = elim (Bool-cases x.busy) [
      | inr free ↦ rw free (after_idle items (record x { busy = false; scheduled = none }) _ refl)
      | inl busy ↦ rw busy (
          work_phase-TypesFirst x.phase now s _ (record x { busy = true; scheduled = none }) refl
            (next_byte x v (v.inside busy)) (rw busy at rest))
    ]

  runs-TypesFirst :
      (items : List (ℕ × Scheduling)) (x : Executor)
      → IsValid c x
      → TypesFirst (to_type x) (pressed_keys (run c (work_events c items) x).0)
  unfolding run step
  runs-TypesFirst [] x v = nothing
  runs-TypesFirst ((now, s) ∷ items) x v =
      work_handler-TypesFirst items now s x v
        (runs-TypesFirst items _ (work_handler-IsValid c now s x v))

  -- Whatever the work queue answers, a start on an idle executor of a text within the capacity, and any
  -- runs of its work item, press no keys but those of the first so many bytes of the text, in their
  -- order.
  pub run-TypesFirst :
      (bytes : List ℕ) (n : ℕ) (s : Scheduling) (items : List (ℕ × Scheduling)) (x : Executor)
      → IsValid c x
      → x.busy ≡ false
      → n ≤ length bytes
      → n ≤ executor_max_text_len c
      → TypesFirst
          (take n bytes)
          (pressed_keys (run c (starts (some bytes) n s ∷ work_events c items) x).0)
  unfolding run step
  run-TypesFirst bytes n s items x v free readable fits =
      let started = start_idle c bytes n s x v readable fits free in
      elim (Bool-cases (n == 0)) [
        | inl nought ↦ refused_start (ap (λ r. r.1) (started.0 ((==_iff n 0).0 nought)))
        | inr text ↦ answered s refl (λ z. cc ((==_iff n 0).1 z, text))
      ]
    where
      refused_start :
          (start c (some bytes) n s x).1 ≡ finish c x
          → TypesFirst
              (take n bytes)
              (pressed_keys (run c (work_events c items) (start c (some bytes) n s x).1).0)
      refused_start e = rw e (after_idle items (finish c x) _ (unfold finish in refl))

      answered :
          (a : Scheduling)
          → s ≡ a
          → n ≢ 0
          → TypesFirst
              (take n bytes)
              (pressed_keys (run c (work_events c items) (start c (some bytes) n s x).1).0)
      answered (refused f) e text =
          refused_start (ap (λ r. r.1) ((start_idle c bytes n s x v readable fits free).2 f text e))
      answered taken e text =
          let h = ((start_idle c bytes n s x v readable fits free).1 text e).1 in
          subst
            (λ t.
              TypesFirst t
                (pressed_keys (run c (work_events c items) (start c (some bytes) n s x).1).0))
            (ap₂
                (λ i l.
                  drop (left_from (start c (some bytes) n s x).1.phase i)
                    (take l (start c (some bytes) n s x).1.text))
                h.index h.length
              ∙ ap (λ p. drop (left_from p 0) (take n (start c (some bytes) n s x).1.text)) h.phase
              ∙ h.text)
            (runs-TypesFirst items _ (start-IsValid c (some bytes) n s x v))
