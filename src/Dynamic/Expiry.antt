-- ===== src/Dynamic/Expiry.antt =====
-- The time to live in runtime_macro_dynamic.c: what a check expires, and for when the timer is armed.
use zmk_module_runtime_macro.Base.{
  ℕ, zero, suc, ◌+◌, ◌≤◌, ◌<◌, ◌≡◌, refl, ap, ◌∙◌, ◌≢◌, ◌⊎◌, inl, inr, true, false, ◌&&◌, Option,
  none, some, arith, ltb, ◌==◌, if◌then◌else◌, lt→ltb, le→leb, ==_iff, Bool-cases,
}
use zmk_module_runtime_macro.Config.{Config}
use zmk_module_runtime_macro.Dynamic.Defs.{
  DynamicSlot, Dynamic, for_slots, has_deadline, earlier, earliest, due_at, cleared,
  clear_committed, cancel_staging, expire_slot, is_due, expire_if_due, rearm, expire_due,
  ttl_work_handler, check_expiry,
}
use zmk_module_runtime_macro.Dynamic.Slots.{visits, expired, expire_due-slots}
use zmk_module_runtime_macro.Dynamic.Invariant.{IsValid}

earlier-le :
    (e : DynamicSlot) (acc : ℕ)
    → (acc ≢ 0 → (earlier e acc ≢ 0) × (earlier e acc ≤ acc))
      × (has_deadline e ≡ true → (earlier e acc ≢ 0) × (earlier e acc ≤ e.ttl_deadline_ms))
unfolding earlier has_deadline
earlier-le e acc = (λ h. ground arith, λ h. ground arith)

earlier-from :
    (e : DynamicSlot) (acc : ℕ)
    → (earlier e acc ≡ acc) ⊎ ((has_deadline e ≡ true) × (earlier e acc ≡ e.ttl_deadline_ms))
unfolding earlier has_deadline
earlier-from e acc = ground arith

module _ (slots : ℕ → DynamicSlot) where
  earliest-le_acc :
      (left slot acc : ℕ)
      → acc ≢ 0
      → (earliest slots left slot acc ≢ 0) × (earliest slots left slot acc ≤ acc)
  unfolding earliest
  earliest-le_acc zero slot acc h = (h, omega arith)
  earliest-le_acc (suc left) slot acc h =
      let (p, q) = (earlier-le (slots slot) acc).0 h in
      let (p', q') = earliest-le_acc left (slot + 1) (earlier (slots slot) acc) p in
      (p', omega arith)

  -- The search finds a deadline that is no later than that of any slot visited.
  earliest-le :
      (left slot acc j : ℕ)
      → slot ≤ j
      → j < slot + left
      → has_deadline (slots j) ≡ true
      → (earliest slots left slot acc ≢ 0)
        × (earliest slots left slot acc ≤ (slots j).ttl_deadline_ms)
  unfolding earliest
  earliest-le zero slot acc j le lt h = absurd (omega arith)
  earliest-le (suc left) slot acc j le lt h = elim (Bool-cases (slot == j)) [
    | inl same ↦
        let e : slot ≡ j = (==_iff slot j).0 same in
        let (p, q) = (earlier-le (slots slot) acc).1 (ap (λ k. has_deadline (slots k)) e ∙ h) in
        let (p', q') = earliest-le_acc left (slot + 1) (earlier (slots slot) acc) p in
        (p', omega (arith, ap (λ k. (slots k).ttl_deadline_ms) e))
    | inr differ ↦
        earliest-le left (slot + 1) (earlier (slots slot) acc) j (ground arith) (omega arith) h
  ]

  -- It finds none only if no slot visited has one.
  earliest-from :
      (left slot acc : ℕ)
      → (earliest slots left slot acc ≡ acc)
        ⊎ ((j : ℕ) × (slot ≤ j)
            × (j < slot + left)
            × (has_deadline (slots j) ≡ true)
            × (earliest slots left slot acc ≡ (slots j).ttl_deadline_ms))
  unfolding earliest
  earliest-from zero slot acc = inl refl
  earliest-from (suc left) slot acc =
      elim (earliest-from left (slot + 1) (earlier (slots slot) acc)) [
        | inr (j, le, lt, h, e) ↦ inr (j, omega arith, omega arith, h, e)
        | inl e ↦ elim (earlier-from (slots slot) acc) [
          | inl e' ↦ inl (e ∙ e')
          | inr (h, e') ↦ inr (slot, omega arith, omega arith, h, e ∙ e')
        ]
      ]

visits_all : (n j : ℕ) → j < n → visits n 0 j ≡ true
visits_all n j h = rw (le→leb 0 j (omega arith), lt→ltb j (0 + n) (omega arith))

module _ (c : Config) where
  -- A check expires exactly the slots whose deadline has come: such a slot is wiped, every other slot
  -- is as it was, and afterwards no slot holds text whose deadline has come.
  pub check_expiry-slots :
      (now : ℕ) (d : Dynamic) (j : ℕ)
      → IsValid c d
      → j < c.dynamic_slot_count
      → let e = d.slots j in
        let e' = (check_expiry c now d).slots j in
        (e.committed_valid ≡ true → e.ttl_deadline_ms ≤ now → e' ≡ cleared e)
        × (e.committed_valid ≡ true → now < e.ttl_deadline_ms → e' ≡ e)
        × (e.committed_valid ≡ false → e' ≡ e)
        × (e'.committed_valid ≡ true → now < e'.ttl_deadline_ms)
  unfolding check_expiry rearm
  check_expiry-slots now d j v lt =
      let e = d.slots j in
      let timed = (v.entry j lt).timed in
      let out : (expire_due c now d).slots j ≡ expired now e =
        expire_due-slots c now d j ∙ rw (visits_all c.dynamic_slot_count j lt) in
      rw out (
        unfold is_due in λ on due. ground (arith, timed on),
        unfold is_due in λ on fresh. ground arith,
        unfold is_due in λ off. ground arith,
        unfold is_due cleared in λ on. ground arith,
      )

  due_at_later : (now t : ℕ) → t ≢ 0 → due_at now t ≡ some (if ltb now t then t else now + 1)
  unfolding due_at
  due_at_later now zero h = absurd (h refl)
  due_at_later now (suc t) h = elim (Bool-cases (ltb now (suc t))) [
    | inl later ↦ rw later (ap some (ground arith))
    | inr passed ↦ rw passed refl
  ]

  -- Re-arming sets the work item for the earliest deadline of a slot with text, or for the next
  -- millisecond if that deadline has come; with no deadline at all the work item is cancelled. The two
  -- generations agree.
  pub rearm_arms :
      (now : ℕ) (d : Dynamic)
      → ((j : ℕ)
          → j < c.dynamic_slot_count
          → has_deadline (d.slots j) ≡ true
          → (k : ℕ) × (k < c.dynamic_slot_count)
            × (has_deadline (d.slots k) ≡ true)
            × ((d.slots k).ttl_deadline_ms ≤ (d.slots j).ttl_deadline_ms)
            × ((rearm c now d).ttl_work
                ≡ some (
                    if ltb now (d.slots k).ttl_deadline_ms
                    then (d.slots k).ttl_deadline_ms
                    else now + 1)))
        × (((j : ℕ) → j < c.dynamic_slot_count → has_deadline (d.slots j) ≡ false)
            → (rearm c now d).ttl_work ≡ none)
        × ((rearm c now d).ttl_work_generation ≡ (rearm c now d).ttl_generation)
  unfolding rearm
  rearm_arms now d = (armed, cancelled, refl)
    where
      first : ℕ
      first = earliest d.slots c.dynamic_slot_count 0 0

      armed :
          (j : ℕ)
          → j < c.dynamic_slot_count
          → has_deadline (d.slots j) ≡ true
          → (k : ℕ) × (k < c.dynamic_slot_count)
            × (has_deadline (d.slots k) ≡ true)
            × ((d.slots k).ttl_deadline_ms ≤ (d.slots j).ttl_deadline_ms)
            × (due_at now first
                ≡ some (
                    if ltb now (d.slots k).ttl_deadline_ms
                    then (d.slots k).ttl_deadline_ms
                    else now + 1))
      armed j lt h =
          let (ne, le) =
            earliest-le d.slots c.dynamic_slot_count 0 0 j (omega arith) (omega arith) h in
          elim (earliest-from d.slots c.dynamic_slot_count 0 0) [
            | inl e ↦ absurd (ne e)
            | inr (k, from, below, p, e) ↦ (
              k,
              omega arith,
              p,
              omega (arith, e, le),
              due_at_later now first ne ∙ ap (λ t. some (if ltb now t then t else now + 1)) e,
            )
          ]

      cancelled :
          ((j : ℕ) → j < c.dynamic_slot_count → has_deadline (d.slots j) ≡ false)
          → due_at now (earliest d.slots c.dynamic_slot_count 0 0) ≡ none
      cancelled h = elim (earliest-from d.slots c.dynamic_slot_count 0 0) [
        | inl e ↦ rw e (unfold due_at in refl)
        | inr (j, le, lt, p, e) ↦ absurd (cc (h j (omega arith)))
      ]

  -- The state but for the pending work item.
  with_work : Option ℕ → Dynamic → Dynamic
  with_work w d = record d { ttl_work = w }

  expire_if_due-with_work :
      (now i : ℕ) (w : Option ℕ) (d : Dynamic)
      → expire_if_due now i (with_work w d) ≡ with_work w (expire_if_due now i d)
  unfolding expire_if_due expire_slot clear_committed cancel_staging with_work
  expire_if_due-with_work now i w d = elim (Bool-cases (is_due now (d.slots i))) [
    | inr fresh ↦ rw fresh
    | inl due ↦ elim (Bool-cases (d.staging_active && d.staging_slot == i)) [
      | inl hit ↦ simp (due, hit)
      | inr miss ↦ simp (due, miss)
    ]
  ]

  for_slots-with_work :
      (now left slot : ℕ) (w : Option ℕ) (d : Dynamic)
      → for_slots (expire_if_due now) left slot (with_work w d)
        ≡ with_work w (for_slots (expire_if_due now) left slot d)
  unfolding for_slots
  for_slots-with_work now zero slot w d = refl
  for_slots-with_work now (suc left) slot w d =
      ap (for_slots (expire_if_due now) left (slot + 1)) (expire_if_due-with_work now slot w d)
      ∙ for_slots-with_work now left (slot + 1) w (expire_if_due now slot d)

  expire_due-with_work :
      (now : ℕ) (w : Option ℕ) (d : Dynamic)
      → expire_due c now (with_work w d) ≡ with_work w (expire_due c now d)
  unfolding expire_due
  expire_due-with_work now w d = for_slots-with_work now c.dynamic_slot_count 0 w d

  rearm-with_work :
      (now : ℕ) (w : Option ℕ) (d : Dynamic) → rearm c now (with_work w d) ≡ rearm c now d
  unfolding rearm with_work
  rearm-with_work now w d = refl

  -- In every valid state the timer does exactly what a check does: its test for a stale arming, which
  -- compares the two generations, never rejects a run.
  pub ttl_work_handler-eq-check_expiry :
      (now : ℕ) (d : Dynamic) → IsValid c d → ttl_work_handler c now d ≡ check_expiry c now d
  ttl_work_handler-eq-check_expiry now d v =
      current
      ∙ ap (rearm c now) (expire_due-with_work now none d)
      ∙ rearm-with_work now none (expire_due c now d)
      ∙ checked
    where
      current : ttl_work_handler c now d ≡ rearm c now (expire_due c now (with_work none d))
      current =
          unfold ttl_work_handler with_work in
          rw ((==_iff d.ttl_work_generation d.ttl_generation).1 v.agree)

      checked : rearm c now (expire_due c now d) ≡ check_expiry c now d
      checked = unfold check_expiry in refl
