-- ===== src/Executor.antt =====
-- runtime_macro_executor.c: the single executor that types a text one key at a time. A call of the
-- work queue or of the keycode event bus is an effect of the step: the request for the work item
-- stands in `scheduled`, the raised events in the step's output.

pub mod Invariant
pub mod Keys
pub mod End
pub mod Prefix
pub mod Typing
use zmk_module_runtime_macro.Base.{
  ℕ, ◌+◌, Bool, true, false, not, ◌||◌, Option, none, some, List, [], ◌∷◌, ◌++◌, ltb, leb, ◌==◌,
  if◌then◌else◌, get_or, take, write_at, zeros,
}
use zmk_module_runtime_macro.Config.{
  Config, executor_max_text_len, Errno, einval, ebusy, Result, ok, err, Status, done,
}
use zmk_module_runtime_macro.Ascii.{ascii_to_keycode}

-- enum runtime_macro_executor_phase
pub data Phase : Type 0 where
  press release : Phase

-- struct runtime_macro_executor_state, with the busy flag and the delay in ms for which the work
-- item is pending.
pub record Executor : Type 0 where
  pub text : List ℕ
  pub length : ℕ
  pub index : ℕ
  pub encoded : ℕ
  pub phase : Phase
  pub busy : Bool
  pub scheduled : Option ℕ

-- raise_zmk_keycode_state_changed_from_encoded(encoded, pressed, timestamp)
pub record KeyEvent : Type 0 where
  pub encoded : ℕ
  pub pressed : Bool
  pub timestamp : ℕ

-- Whether k_work_schedule or k_work_reschedule took the work item (a result of at least 0).
pub data Scheduling : Type 0 where
  taken : Scheduling
  refused : Errno → Scheduling

-- k_work_(re)schedule(&runtime_macro_executor_work, delay)
unfoldable pub schedule : ℕ → Scheduling → Executor → Executor
schedule delay taken x = record x { scheduled = some delay }
schedule delay (refused e) x = x

-- runtime_macro_executor_raise
unfoldable pub raise : Executor → Bool → ℕ → KeyEvent
raise x pressed now = record { encoded = x.encoded; pressed = pressed; timestamp = now }

module _ (c : Config) where
  -- runtime_macro_executor_finish
  unfoldable pub finish : Executor → Executor
  finish x = record x {
    text = zeros (executor_max_text_len c + 1);
    length = 0;
    index = 0;
    encoded = 0;
    phase = press;
    busy = false;
  }

  -- The PRESS case, once the byte has its keycode.
  unfoldable pub press_key : ℕ → ℕ → Scheduling → Executor → List KeyEvent × Executor
  unfolding finish raise schedule
  press_key now keycode taken x =
      let held = record x { encoded = keycode; phase = release } in
      (raise held true now ∷ [], schedule c.tap_ms taken held)
  press_key now keycode (refused e) x =
      let held = record x { encoded = keycode; phase = release } in
      (raise held true now ∷ raise held false now ∷ [], finish held)

  -- The RELEASE case when another character follows.
  unfoldable pub next_key : Scheduling → Executor → Executor
  unfolding finish schedule
  next_key taken x = schedule c.wait_ms taken (record x { phase = press })
  next_key (refused e) x = finish (record x { phase = press })

  unfoldable pub work_phase :
      Phase → ℕ → Scheduling → Result ℕ → Executor → List KeyEvent × Executor
  unfolding press_key next_key finish raise
  work_phase press now s (ok keycode) x = press_key now keycode s x
  work_phase press now s (err e) x = ([], finish x)
  work_phase release now s keycode x =
      let next = record x { index = x.index + 1 } in
      (raise x false now ∷ [], if leb next.length next.index then finish next else next_key s next)

  -- runtime_macro_executor_work_handler, at the time `now`, with the answer of the one scheduling
  -- call that it makes at most. The pending work item is taken off the queue when it runs.
  unfoldable pub work_handler : ℕ → Scheduling → Executor → List KeyEvent × Executor
  unfolding work_phase
  work_handler now s x0 =
      let x = record x0 { scheduled = none } in
      if x.busy
      then work_phase x.phase now s (ascii_to_keycode (get_or x.text x.index 0)) x
      else ([], x)

  -- The rest of zmk_runtime_macro_executor_start, after the snapshot.
  unfoldable pub submit : Scheduling → Executor → Status × Executor
  unfolding finish schedule
  submit taken x = (done, schedule 0 taken x)
  submit (refused e) x = (err e, finish x)

  -- zmk_runtime_macro_executor_start(text, length); `none` is a NULL text.
  unfoldable pub start : Option (List ℕ) → ℕ → Scheduling → Executor → Status × Executor
  unfolding submit finish
  start none n s x =
      if not (n == 0) || ltb (executor_max_text_len c) n
      then (err einval, x)
      else if x.busy
      then (err ebusy, x)
      else (done, finish (record x { busy = true }))
  start (some bytes) n s x =
      if ltb (executor_max_text_len c) n
      then (err einval, x)
      else if x.busy
      then (err ebusy, x)
      else if n == 0
      then (done, finish (record x { busy = true }))
      else submit s (record x {
        text = write_at n (0 ∷ []) (write_at 0 (take n bytes) x.text);
        length = n;
        index = 0;
        phase = press;
        busy = true;
      })

  -- zmk_runtime_macro_is_busy
  unfoldable pub is_busy : Executor → Bool
  is_busy x = x.busy

  -- The static variables at boot.
  unfoldable pub idle : Executor
  idle = record {
    text = zeros (executor_max_text_len c + 1);
    length = 0;
    index = 0;
    encoded = 0;
    phase = press;
    busy = false;
    scheduled = none;
  }

  -- What happens to the executor: a caller starts a text, or the work queue runs the work item.
  pub data Event : Type 0 where
    starts : Option (List ℕ) → ℕ → Scheduling → Event
    works : ℕ → Scheduling → Event

  unfoldable pub step : Event → Executor → List KeyEvent × Executor
  step (starts text n s) x = ([], (start text n s x).1)
  step (works now s) x = work_handler now s x

  -- A history of such events, oldest first, with all the key events that it raises.
  unfoldable pub run : List Event → Executor → List KeyEvent × Executor
  run [] x = ([], x)
  run (e ∷ es) x = let (keys, y) = step e x in let (more, z) = run es y in (keys ++ more, z)
