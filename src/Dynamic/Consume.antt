-- ===== src/Dynamic/Consume.antt =====
-- What zmk_runtime_macro_dynamic_execute_slot does to a slot and to the executor.
use zmk_module_runtime_macro.Base.{
  ℕ, ◌≤◌, ◌<◌, ◌≡◌, refl, ap, ◌∙◌, ◌≢◌, inl, inr, true, false, ◌&&◌, some, arith, ◌==◌, length,
  if◌then◌else◌, lt→ltb, ==_false, Bool-cases,
}
use zmk_module_runtime_macro.Config.{Config, executor_max_text_len, Errno, ebusy, err, Status, done}
use zmk_module_runtime_macro.Executor.{Executor, Scheduling, taken, refused, start}
use zmk_module_runtime_macro.Executor.Invariant.{Started, start_idle, start_refused}
use zmk_module_runtime_macro.Dynamic.Defs.{
  DynamicSlot, Dynamic, cleared, clear_committed, expire_due,
}
use zmk_module_runtime_macro.Dynamic.Slots.{clear_committed-slots, rearm-slots}
use zmk_module_runtime_macro.Dynamic.Invariant.{IsEntry, expire_due-IsValid}
use zmk_module_runtime_macro.Dynamic.Execute.{Store, after_start, execute_slot}
use zmk_module_runtime_macro.Dynamic.History.{StoreIsValid}

module _ (c : Config) where
  after_start-slots :
      (now slot : ℕ) (d : Dynamic) (x : Executor) (j : ℕ)
      → (after_start c now slot d (done, x)).1.dynamic.slots j ≡ (
          if (d.slots slot).committed_consume_on_accept && slot == j
          then cleared (d.slots j)
          else d.slots j)
  unfolding after_start
  after_start-slots now slot d x j = elim (Bool-cases (d.slots slot).committed_consume_on_accept) [
    | inl once ↦
        rw once (rearm-slots c now (clear_committed slot d) j ∙ clear_committed-slots slot d j)
    | inr kept ↦ rw kept
  ]

  -- The store while a slot's text is handed to the executor.
  execute_slot_text :
      (now slot : ℕ) (answer : Scheduling) (st : Store)
      → slot < c.dynamic_slot_count
      → IsEntry ((expire_due c now st.dynamic).slots slot)
      → ((expire_due c now st.dynamic).slots slot).committed_valid ≡ true
      → let d = expire_due c now st.dynamic in
        let e = d.slots slot in
        execute_slot c now slot answer st
        ≡ after_start c now slot d
            (start c (some e.committed) e.committed_length answer st.executor)
  unfolding execute_slot
  execute_slot_text now slot answer st lt i text =
      let filled = i.sized text in
      let nonempty : (((expire_due c now st.dynamic).slots slot).committed_length == 0) ≡ false =
        ==_false ((expire_due c now st.dynamic).slots slot).committed_length 0
          (λ z. omega (arith, filled.0, z)) in
      rw (lt→ltb slot c.dynamic_slot_count lt, text, nonempty)

  -- Executing a slot whose text has not expired: an idle executor that the work queue accepts gets the
  -- bytes of this slot, ended by a NUL, to type from the first on, and the slot is wiped exactly if it
  -- is to be consumed, every other slot being kept; where the work queue refuses, its error comes back,
  -- and where the executor is busy EBUSY, with no slot changed.
  pub execute_slot-consumes :
      (now slot : ℕ) (answer : Scheduling) (st : Store)
      → StoreIsValid c st
      → c.dynamic ≡ true
      → slot < c.dynamic_slot_count
      → ((expire_due c now st.dynamic).slots slot).committed_valid ≡ true
      → let d = expire_due c now st.dynamic in
        let e = d.slots slot in
        let (r, st') = execute_slot c now slot answer st in
        (st.executor.busy ≡ false
          → answer ≡ taken
          → (r ≡ done)
            × Started e.committed e.committed_length st'.executor
            × ((j : ℕ)
                → st'.dynamic.slots j ≡ (
                    if e.committed_consume_on_accept && slot == j
                    then cleared (d.slots j)
                    else d.slots j)))
        × ((f : Errno)
            → st.executor.busy ≡ false
            → answer ≡ refused f
            → (r ≡ err f) × (st'.dynamic ≡ d))
        × (st.executor.busy ≡ true
            → (r ≡ err ebusy) × (st'.dynamic ≡ d) × (st'.executor ≡ st.executor))
  execute_slot-consumes now slot answer st v on lt text = (accepted, rejected, busy)
    where
      d : Dynamic
      d = expire_due c now st.dynamic

      e : DynamicSlot
      e = d.slots slot

      i : IsEntry e
      i = (expire_due-IsValid c now st.dynamic v.dynamic).entry slot lt

      answered : Status × Executor
      answered = start c (some e.committed) e.committed_length answer st.executor

      entered : execute_slot c now slot answer st ≡ after_start c now slot d answered
      entered = execute_slot_text now slot answer st lt i text

      fits : e.committed_length ≤ executor_max_text_len c
      fits = simp on (i.sized text).1

      readable : e.committed_length ≤ length e.committed
      readable = omega (arith, i.full, i.sized text)

      filled : e.committed_length ≢ 0
      filled z = omega (arith, (i.sized text).0, z)

      accepted :
          st.executor.busy ≡ false
          → answer ≡ taken
          → ((execute_slot c now slot answer st).0 ≡ done)
            × Started e.committed e.committed_length (execute_slot c now slot answer st).1.executor
            × ((j : ℕ)
                → (execute_slot c now slot answer st).1.dynamic.slots j ≡ (
                    if e.committed_consume_on_accept && slot == j
                    then cleared (d.slots j)
                    else d.slots j))
      accepted off q =
          let s =
            (start_idle c e.committed e.committed_length answer st.executor v.executor readable fits
                off).1
              filled q in
          let whole : answered ≡ (done, answered.1) = ap (λ (r : Status). (r, answered.1)) s.0 in
          rw (entered ∙ ap (after_start c now slot d) whole)
            (unfold after_start in (refl, s.1, after_start-slots now slot d answered.1))

      rejected :
          (f : Errno)
          → st.executor.busy ≡ false
          → answer ≡ refused f
          → ((execute_slot c now slot answer st).0 ≡ err f)
            × ((execute_slot c now slot answer st).1.dynamic ≡ d)
      rejected f off q =
          let s =
            (start_idle c e.committed e.committed_length answer st.executor v.executor readable fits
                off).2
              f filled q in
          rw (entered ∙ ap (after_start c now slot d) s) (unfold after_start in (refl, refl))

      busy :
          st.executor.busy ≡ true
          → ((execute_slot c now slot answer st).0 ≡ err ebusy)
            × ((execute_slot c now slot answer st).1.dynamic ≡ d)
            × ((execute_slot c now slot answer st).1.executor ≡ st.executor)
      busy b =
          let s =
            (start_refused c (some e.committed) e.committed_length answer st.executor).2 fits
              (λ _ n. cc) b in
          rw (entered ∙ ap (after_start c now slot d) s) (unfold after_start in (refl, refl, refl))
