-- ===== src/Executor/Keys.antt =====
-- The key events of runtime_macro_executor.c: which key is down, and that none stays down.
use zmk_module_runtime_macro.Base.{
  ℕ, ◌≡◌, refl, sym, ap, ◌∙◌, inl, inr, true, false, Option, none, some, List, [], ◌∷◌, ◌++◌, arith,
  ◌==◌, if◌then◌else◌, Bool-cases, Option-cases, get_or, take, write_at,
}
use zmk_module_runtime_macro.Config.{Config, Result, ok, err}
use zmk_module_runtime_macro.Ascii.{ascii_to_keycode}
use zmk_module_runtime_macro.Executor.{
  Phase, press, release, Executor, KeyEvent, Scheduling, taken, refused, schedule, finish,
  work_phase, work_handler, submit, start, idle, Event, starts, works, step, run,
}
use zmk_module_runtime_macro.Executor.Invariant.{IsValid, step-IsValid, idle-IsValid, run-IsValid}

-- The key that the executor holds down.
abbrev pub held_in : Phase → ℕ → Option ℕ
held_in press k = none
held_in release k = some k

abbrev pub held : Executor → Option ℕ
held x = held_in x.phase x.encoded

-- A listener that follows the events with the key that is down, if the keys alternate properly: a
-- press only when no key is down, a release only of the key that is down.
abbrev pub follow_one : KeyEvent → Option ℕ → Option (Option ℕ)
follow_one k none = if k.pressed then some (some k.encoded) else none
follow_one k (some e) = if k.pressed then none else (if e == k.encoded then some none else none)

pub follow : List KeyEvent → Option ℕ → Option (Option ℕ)
follow [] d = some d
follow (k ∷ ks) d = elim (follow_one k d) [ none ↦ none | some d' ↦ follow ks d' ]

follow-append :
    (ks ls : List KeyEvent) (d e : Option ℕ)
    → follow ks d ≡ some e
    → follow (ks ++ ls) d ≡ follow ls e
unfolding follow
follow-append [] ls d e h = ground arith
follow-append (k ∷ ks) ls d e h = elim (Option-cases (follow_one k d)) [
  | inl n ↦ cc (rw (n, follow) at h)
  | inr (d', s) ↦ rw (s, follow) (follow-append ks ls d' e (rw (s, follow) at h))
]

module _ (c : Config) where
  work_phase-follow :
      (p : Phase) (now : ℕ) (s : Scheduling) (k : Result ℕ) (x : Executor)
      → x.phase ≡ p
      → follow (work_phase c p now s k x).0 (held_in p x.encoded)
        ≡ some (held (work_phase c p now s k x).1)
  unfolding work_phase follow schedule
  work_phase-follow press now taken (ok k) x e = refl
  work_phase-follow press now (refused f) (ok k) x e = ground arith
  work_phase-follow press now s (err f) x e = refl
  work_phase-follow release now taken k x e = ground arith
  work_phase-follow release now (refused f) k x e = ground arith

  work_handler-follow :
      (now : ℕ) (s : Scheduling) (x : Executor)
      → follow (work_handler c now s x).0 (held x) ≡ some (held (work_handler c now s x).1)
  unfolding work_handler follow
  work_handler-follow now s x = elim (Bool-cases x.busy) [
    | inl on ↦ simp on (
        work_phase-follow x.phase now s (ascii_to_keycode (get_or x.text x.index 0))
          (record x { busy = true; scheduled = none }) refl)
    | inr off ↦ simp off
  ]

  submit-held : (s : Scheduling) (x : Executor) → x.phase ≡ press → held (submit c s x).1 ≡ none
  unfolding submit schedule finish
  submit-held taken x e = rw e
  submit-held (refused f) x e = refl

  start-held :
      (t : Option (List ℕ)) (n : ℕ) (s : Scheduling) (x : Executor)
      → IsValid c x
      → held (start c t n s x).1 ≡ held x
  unfolding start finish
  start-held none n s x v = ground (arith, v.key_up)
  start-held (some bytes) n s x v = ground (
    arith,
    v.key_up,
    submit-held s
        (record x {
          text = write_at n (0 ∷ []) (write_at 0 (take n bytes) x.text);
          length = n;
          index = 0;
          phase = press;
          busy = true;
        })
        refl,
  )

  step-follow :
      (e : Event c) (x : Executor)
      → IsValid c x
      → follow (step c e x).0 (held x) ≡ some (held (step c e x).1)
  unfolding step follow
  step-follow (starts t n s) x v = ap some (sym (start-held t n s x v))
  step-follow (works now s) x v = work_handler-follow now s x

  -- From a valid executor, after any history of starts and work items, whatever the work queue
  -- answers: presses and releases alternate, each release is of the key that is down, and the key
  -- that is down at the end is the one that the executor holds.
  pub run-follow :
      (es : List (Event c)) (x : Executor)
      → IsValid c x
      → follow (run c es x).0 (held x) ≡ some (held (run c es x).1)
  unfolding run follow
  run-follow [] x v = refl
  run-follow (e ∷ es) x v =
      follow-append (step c e x).0 (run c es (step c e x).1).0 (held x) (held (step c e x).1)
        (step-follow e x v)
      ∙ run-follow es (step c e x).1 (step-IsValid c e x v)

  -- After any history from boot that leaves the executor idle, every key that was pressed has been
  -- released.
  pub run-no_stuck_key :
      (es : List (Event c))
      → (run c es (idle c)).1.busy ≡ false
      → follow (run c es (idle c)).0 none ≡ some none
  run-no_stuck_key es off =
      unfold idle in
      run-follow es (idle c) (idle-IsValid c)
      ∙ ap some (rw ((run-IsValid c es (idle c) (idle-IsValid c)).key_up off) refl)
