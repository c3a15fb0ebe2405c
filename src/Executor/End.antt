-- ===== src/Executor/End.antt =====
-- The executor comes to an end, whatever the work queue answers.
use zmk_module_runtime_macro.Base.{
  ℕ, ◌+◌, ◌-◌, ◌*◌, ◌≤◌, ◌<◌, ◌≡◌, refl, ◌⊎◌, inl, inr, true, false, none, List, [], ◌∷◌, arith,
  leb, Bool-cases, length,
}
use zmk_module_runtime_macro.Config.{Config, Result, ok, err}
use zmk_module_runtime_macro.Executor.{
  Phase, press, release, Executor, Scheduling, taken, refused, schedule, finish, press_key,
  next_key, work_phase, work_handler, Event, works, step, run,
}
use zmk_module_runtime_macro.Executor.Invariant.{IsValid, work_handler-IsValid}

-- The runs of the work item that an executor still needs: two for each key, and one for a release.
abbrev pub rounds : Phase → ℕ → ℕ
rounds press keys = 2 * keys
rounds release keys = 2 * keys - 1

abbrev pub rounds_left : Executor → ℕ
rounds_left x = rounds x.phase (x.length - x.index)

-- A run of the work item at a time, with the answer of the work queue.
abbrev pub work_events : (c : Config) → List (ℕ × Scheduling) → List (Event c)
work_events c [] = []
work_events c ((now, s) ∷ items) = works now s ∷ work_events c items

some_round : (p : Phase) (n : ℕ) → 0 < n → 0 < rounds p n
some_round press n h = omega arith
some_round release n h = omega arith

room : {m n : ℕ} → m < n → 0 < n - m
room h = omega arith

-- Idle, or nearer to it.
abbrev Nearer : Executor → Executor → Type 0
Nearer x y = (y.busy ≡ false) ⊎ (rounds_left y < rounds_left x)

module _ (c : Config) where
  press_key-Nearer :
      (now k : ℕ) (s : Scheduling) (x : Executor)
      → x.phase ≡ press
      → x.index < x.length
      → Nearer x (press_key c now k s x).1
  unfolding press_key finish schedule
  press_key-Nearer now k (refused e) x at_press inside = inl refl
  press_key-Nearer now k taken x at_press inside = inr (rw at_press (omega arith))

  next_key-Nearer :
      (s : Scheduling) (x : Executor)
      → x.phase ≡ release
      → x.index + 1 < x.length
      → Nearer x (next_key c s (record x { index = x.index + 1 }))
  unfolding next_key finish schedule
  next_key-Nearer (refused e) x at_release inside = inl refl
  next_key-Nearer taken x at_release inside = inr (rw at_release (omega arith))

  work_phase-Nearer :
      (p : Phase) (now : ℕ) (s : Scheduling) (key : Result ℕ) (x : Executor)
      → x.phase ≡ p
      → x.index < x.length
      → Nearer x (work_phase c p now s key x).1
  unfolding work_phase finish
  work_phase-Nearer press now s (ok k) x at_press inside =
      press_key-Nearer now k s x at_press inside
  work_phase-Nearer press now s (err e) x at_press inside = inl refl
  work_phase-Nearer release now s key x at_release inside =
      elim (Bool-cases (leb x.length (x.index + 1))) [
        | inl last ↦ rw last (inl refl)
        | inr more ↦ rw more (next_key-Nearer s x at_release (ground arith))
      ]

  work_handler-Nearer :
      (now : ℕ) (s : Scheduling) (x : Executor) → IsValid c x → Nearer x (work_handler c now s x).1
  unfolding work_handler
  work_handler-Nearer now s x v = elim (Bool-cases x.busy) [
    | inl busy ↦ rw busy (
        work_phase-Nearer x.phase now s _ (record x { busy = true; scheduled = none }) refl
          (v.inside busy))
    | inr free ↦ rw free (inl refl)
  ]

  stays_idle :
      (items : List (ℕ × Scheduling)) (x : Executor)
      → x.busy ≡ false
      → (run c (work_events c items) x).1.busy ≡ false
  unfolding run step work_handler
  stays_idle [] x free = free
  stays_idle ((now, s) ∷ items) x free =
      rw free (stays_idle items (record x { busy = false; scheduled = none }) refl)

  -- From every valid state the executor comes to an end: after twice as many runs of its work item
  -- as keys are left, one less if a key is down, it is idle, whatever the work queue answers.
  pub run-ends :
      (items : List (ℕ × Scheduling)) (x : Executor)
      → IsValid c x
      → rounds_left x ≤ length items
      → (run c (work_events c items) x).1.busy ≡ false
  unfolding run step
  run-ends [] x v enough = elim (Bool-cases x.busy) [
    | inl busy ↦ absurd (omega (arith, some_round x.phase _ (room (v.inside busy)), enough))
    | inr free ↦ free
  ]
  run-ends ((now, s) ∷ items) x v enough = elim (work_handler-Nearer now s x v) [
    | inl free ↦ stays_idle items _ free
    | inr near ↦ run-ends items _ (work_handler-IsValid c now s x v) (omega (arith, near, enough))
  ]
