-- ===== src/Executor/Invariant.antt =====
-- The invariant of runtime_macro_executor_state, and what start answers.
use zmk_module_runtime_macro.Base.{
  ℕ, ◌+◌, ◌≤◌, ◌<◌, ◌≡◌, refl, ◌≢◌, inl, inr, true, false, not, ◌||◌, Option, none, some, List, [],
  ◌∷◌, arith, ltb, leb, ◌==◌, Bool-cases, length, get_or, take, length-replicate, write_at, zeros,
  length-write_at, ltb-false, ==_false, take-write_at_nul, get_or-write_at_nul,
}
use zmk_module_runtime_macro.Config.{
  Config, executor_max_text_len, Errno, einval, ebusy, Result, ok, err, done,
}
use zmk_module_runtime_macro.Ascii.{ascii_to_keycode}
use zmk_module_runtime_macro.Executor.{
  Phase, press, release, Executor, Scheduling, taken, refused, schedule, finish, press_key,
  next_key, work_phase, work_handler, submit, start, idle, Event, starts, works, step, run,
}

-- An idle executor holds no text and no key; a busy one is inside its text and will run again.
pub record IsValid (c : Config) (x : Executor) : Type 0 where
  pub size : length x.text ≡ executor_max_text_len c + 1
  pub wiped : x.busy ≡ false → x.text ≡ zeros (executor_max_text_len c + 1)
  pub at_start : x.busy ≡ false → (x.length ≡ 0) × (x.index ≡ 0) × (x.encoded ≡ 0)
  pub key_up : x.busy ≡ false → x.phase ≡ press
  pub inside : x.busy ≡ true → x.index < x.length
  pub fits : x.length ≤ executor_max_text_len c
  pub pending : x.busy ≡ true → (d : ℕ) × (x.scheduled ≡ some d)

-- The executor has a text to type, from its first byte on, in a work item that is pending at once.
pub record Started (bytes : List ℕ) (n : ℕ) (x : Executor) : Type 0 where
  pub text : take n x.text ≡ take n bytes
  pub ended : get_or x.text n 1 ≡ 0
  pub length : x.length ≡ n
  pub index : x.index ≡ 0
  pub phase : x.phase ≡ press
  pub busy : x.busy ≡ true
  pub scheduled : x.scheduled ≡ some 0

module _ (c : Config) where
  pub idle-IsValid : IsValid c (idle c)
  unfolding idle
  idle-IsValid = record {
    size = length-replicate (executor_max_text_len c + 1) 0;
    wiped = λ h. refl;
    at_start = λ h. (refl, refl, refl);
    key_up = λ h. refl;
    inside = λ h. cc;
    fits = omega arith;
    pending = λ h. cc;
  }

  finish-IsValid : (x : Executor) → IsValid c (finish c x)
  unfolding finish
  finish-IsValid x = record {
    size = length-replicate (executor_max_text_len c + 1) 0;
    wiped = λ h. refl;
    at_start = λ h. (refl, refl, refl);
    key_up = λ h. refl;
    inside = λ h. cc;
    fits = omega arith;
    pending = λ h. cc;
  }

  press_key-IsValid :
      (now k : ℕ) (s : Scheduling) (x : Executor)
      → length x.text ≡ executor_max_text_len c + 1
      → x.busy ≡ true
      → x.index < x.length
      → x.length ≤ executor_max_text_len c
      → IsValid c (press_key c now k s x).1
  unfolding press_key schedule
  press_key-IsValid now k taken x size busy inside fits = record {
    size = size;
    wiped = λ h. cc;
    at_start = λ h. absurd (cc);
    key_up = λ h. cc;
    inside = λ h. inside;
    fits = fits;
    pending = λ h. (c.tap_ms, refl);
  }
  press_key-IsValid now k (refused e) x size busy inside fits =
      finish-IsValid (record x { encoded = k; phase = release })

  next_key-IsValid :
      (s : Scheduling) (x : Executor)
      → length x.text ≡ executor_max_text_len c + 1
      → x.busy ≡ true
      → x.index < x.length
      → x.length ≤ executor_max_text_len c
      → IsValid c (next_key c s x)
  unfolding next_key schedule
  next_key-IsValid taken x size busy inside fits = record {
    size = size;
    wiped = λ h. cc;
    at_start = λ h. absurd (cc);
    key_up = λ h. refl;
    inside = λ h. inside;
    fits = fits;
    pending = λ h. (c.wait_ms, refl);
  }
  next_key-IsValid (refused e) x size busy inside fits = finish-IsValid (record x { phase = press })

  work_phase-IsValid :
      (p : Phase) (now : ℕ) (s : Scheduling) (k : Result ℕ) (x : Executor)
      → length x.text ≡ executor_max_text_len c + 1
      → x.busy ≡ true
      → x.index < x.length
      → x.length ≤ executor_max_text_len c
      → IsValid c (work_phase c p now s k x).1
  unfolding work_phase
  work_phase-IsValid press now s (ok k) x size busy inside fits =
      press_key-IsValid now k s x size busy inside fits
  work_phase-IsValid press now s (err e) x size busy inside fits = finish-IsValid x
  work_phase-IsValid release now s k x size busy inside fits =
      elim (Bool-cases (leb x.length (x.index + 1))) [
        | inl last ↦ rw last (finish-IsValid (record x { index = x.index + 1 }))
        | inr more ↦
            rw more
              (next_key-IsValid s (record x { index = x.index + 1 }) size busy (ground arith) fits)
      ]

  pub work_handler-IsValid :
      (now : ℕ) (s : Scheduling) (x : Executor) → IsValid c x → IsValid c (work_handler c now s x).1
  unfolding work_handler
  work_handler-IsValid now s x v = elim (Bool-cases x.busy) [
    | inl on ↦ rw on (
        work_phase-IsValid x.phase now s (ascii_to_keycode (get_or x.text x.index 0))
          (record x { busy = true; scheduled = none }) v.size refl (v.inside on) v.fits)
    | inr off ↦ rw off (record {
      size = v.size;
      wiped = λ h. v.wiped off;
      at_start = λ h. v.at_start off;
      key_up = λ h. v.key_up off;
      inside = λ h. cc;
      fits = v.fits;
      pending = λ h. cc;
    })
  ]

  -- Every scheduling answer leaves a started executor valid.
  submit-IsValid :
      (s : Scheduling) (x : Executor)
      → length x.text ≡ executor_max_text_len c + 1
      → x.busy ≡ true
      → x.index < x.length
      → x.length ≤ executor_max_text_len c
      → IsValid c (submit c s x).1
  unfolding submit schedule
  submit-IsValid taken x size busy inside fits = record {
    size = size;
    wiped = λ h. cc;
    at_start = λ h. absurd (cc);
    key_up = λ h. cc;
    inside = λ h. inside;
    fits = fits;
    pending = λ h. (0, refl);
  }
  submit-IsValid (refused e) x size busy inside fits = finish-IsValid x

  pub start-IsValid :
      (t : Option (List ℕ)) (n : ℕ) (s : Scheduling) (x : Executor)
      → IsValid c x
      → IsValid c (start c t n s x).1
  unfolding start
  start-IsValid none n s x v = elim (Bool-cases (not (n == 0) || ltb (executor_max_text_len c) n)) [
    | inl bad ↦ rw bad v
    | inr fine ↦ elim (Bool-cases x.busy) [
      | inl on ↦ simp (fine, on) v
      | inr off ↦ rw (fine, off) (finish-IsValid (record x { busy = true }))
    ]
  ]
  start-IsValid (some bytes) n s x v = elim (Bool-cases (ltb (executor_max_text_len c) n)) [
    | inl long ↦ rw long v
    | inr fine ↦ elim (Bool-cases x.busy) [
      | inl on ↦ simp (fine, on) v
      | inr off ↦ elim (Bool-cases (n == 0)) [
        | inl empty ↦ rw (fine, off, empty) (finish-IsValid (record x { busy = true }))
        | inr more ↦
            rw (fine, off, more)
              (submit-IsValid s _
                (omega (
                  arith,
                  v.size,
                  length-write_at n (0 ∷ []) (write_at 0 (take n bytes) x.text),
                  length-write_at 0 (take n bytes) x.text,
                ))
                refl (ground arith) (ground arith))
      ]
    ]
  ]

  pub step-IsValid : (e : Event c) (x : Executor) → IsValid c x → IsValid c (step c e x).1
  unfolding step
  step-IsValid (starts t n s) x v = start-IsValid t n s x v
  step-IsValid (works now s) x v = work_handler-IsValid now s x v

  -- Through every history of starts and runs of its work item, whatever the work queue answers, the
  -- executor stays valid: idle it holds no text and no key, busy it is inside its text, which fits,
  -- and its work item is pending.
  pub run-IsValid : (es : List (Event c)) (x : Executor) → IsValid c x → IsValid c (run c es x).1
  unfolding run
  run-IsValid [] x v = v
  run-IsValid (e ∷ es) x v = run-IsValid es (step c e x).1 (step-IsValid e x v)

  -- A text that is too long, or a NULL text with a length, is refused with EINVAL, whatever runs;
  -- while a text is being typed any other start is refused with EBUSY; neither changes anything.
  pub start_refused :
      (t : Option (List ℕ)) (n : ℕ) (s : Scheduling) (x : Executor)
      → (executor_max_text_len c < n → start c t n s x ≡ (err einval, x))
        × (t ≡ none → n ≢ 0 → start c t n s x ≡ (err einval, x))
        × (n ≤ executor_max_text_len c
            → (n ≢ 0 → t ≢ none)
            → x.busy ≡ true
            → start c t n s x ≡ (err ebusy, x))
  unfolding start
  start_refused none n s x = (
    λ h. ground arith,
    λ e h. ground arith,
    λ h k b. elim (Bool-cases (n == 0)) [
      | inl z ↦ ground arith
      | inr m ↦ absurd (k (ground arith) refl)
    ],
  )
  start_refused (some bytes) n s x = (λ h. ground arith, λ e h. cc, λ h k b. ground arith)

  -- An idle executor takes an empty text with 0 and stays idle. Of any other text within the capacity
  -- it keeps a copy with a NUL behind it, which it is about to type from its first byte on, if the
  -- work queue takes the work item; otherwise the error comes back with nothing kept.
  pub start_idle :
      (bytes : List ℕ) (n : ℕ) (s : Scheduling) (x : Executor)
      → IsValid c x
      → n ≤ length bytes
      → n ≤ executor_max_text_len c
      → x.busy ≡ false
      → (n ≡ 0 → start c (some bytes) n s x ≡ (done, finish c x))
        × (n ≢ 0
            → s ≡ taken
            → ((start c (some bytes) n s x).0 ≡ done)
              × Started bytes n (start c (some bytes) n s x).1)
        × ((e : Errno) → n ≢ 0 → s ≡ refused e → start c (some bytes) n s x ≡ (err e, finish c x))
  unfolding start submit schedule finish
  start_idle bytes n taken x v readable h off = (
    λ z. ground arith,
    λ z e.
        simp (ltb-false (executor_max_text_len c) n h, off, ==_false n 0 z)
          (
            refl,
            record {
              text = take-write_at_nul bytes n x.text readable room;
              ended =
                  get_or-write_at_nul n _
                    (omega (arith, room, length-write_at 0 (take n bytes) x.text));
              length = refl;
              index = refl;
              phase = refl;
              busy = refl;
              scheduled = refl;
            },
          ),
    λ e z q. cc,
  )
    where
      room : n < length x.text
      room = omega (arith, v.size)
  start_idle bytes n (refused f) x v readable h off =
      (λ z. ground arith, λ z e. cc, λ e z q. ground arith)
