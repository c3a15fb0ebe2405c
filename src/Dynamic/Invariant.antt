-- ===== src/Dynamic/Invariant.antt =====
-- The invariant of the dynamic store of runtime_macro_dynamic.c, kept by every operation.
use zmk_module_runtime_macro.Base.{
  ℕ, ◌≤◌, ◌<◌, ◌≡◌, refl, inl, inr, Bool, true, false, not, ◌&&◌, ◌||◌, Option, none, List, [], ◌∷◌,
  ◌++◌, arith, ltb, ◌==◌, Bool-cases, length, take, length-replicate, zeros,
}
use zmk_module_runtime_macro.Config.{Config, dynamic_max_text_len}
use zmk_module_runtime_macro.Dynamic.Defs.{
  DynamicSlot, Dynamic, min_ttl_seconds, max_ttl_seconds, chunk_is_valid, cleared, clear_committed,
  cancel_staging, expire_slot, is_due, expire_if_due, dynamic_slot_is_valid, rearm, expire_due,
  ttl_work_handler, begin_locked,
}
use zmk_module_runtime_macro.Dynamic.Slots.{for_slots_inv}

-- A slot holds mapped text with a deadline, or is wiped.
pub record IsEntry (e : DynamicSlot) : Type 0 where
  pub full : length e.committed ≡ dynamic_max_text_len
  pub sized :
      e.committed_valid ≡ true
      → (1 ≤ e.committed_length) × (e.committed_length ≤ dynamic_max_text_len)
  pub timed : e.committed_valid ≡ true → 0 < e.ttl_deadline_ms
  pub mapped :
      e.committed_valid ≡ true → chunk_is_valid (take e.committed_length e.committed) ≡ true
  pub wiped :
      e.committed_valid ≡ false
      → (e.committed ≡ zeros dynamic_max_text_len)
        × (e.committed_length ≡ 0)
        × (e.ttl_deadline_ms ≡ 0)

-- The staging buffer holds the mapped bytes received of an upload that is not complete, or is wiped.
pub record IsStaging (c : Config) (d : Dynamic) : Type 0 where
  pub full : length d.staging ≡ dynamic_max_text_len
  pub target : d.staging_active ≡ true → d.staging_slot < c.dynamic_slot_count
  pub expects : d.staging_expected_length ≤ dynamic_max_text_len
  pub more : d.staging_active ≡ true → d.staging_received < d.staging_expected_length
  pub timed :
      d.staging_active ≡ true
      → (min_ttl_seconds ≤ d.staging_ttl_seconds) × (d.staging_ttl_seconds ≤ max_ttl_seconds)
  pub mapped : chunk_is_valid (take d.staging_received d.staging) ≡ true
  pub wiped :
      d.staging_active ≡ false → (d.staging ≡ zeros dynamic_max_text_len) × (d.staging_received ≡ 0)

pub record IsValid (c : Config) (d : Dynamic) : Type 0 where
  pub entry : (i : ℕ) → i < c.dynamic_slot_count → IsEntry (d.slots i)
  pub staging : IsStaging c d
  pub agree : d.ttl_work_generation ≡ d.ttl_generation

-- The bytes of the store are mapped.
pub chunk_is_valid-append :
    (xs ys : List ℕ)
    → chunk_is_valid xs ≡ true
    → chunk_is_valid ys ≡ true
    → chunk_is_valid (xs ++ ys) ≡ true
unfolding chunk_is_valid
chunk_is_valid-append [] ys h k = k
chunk_is_valid-append (x ∷ xs) ys h k = ground (arith, chunk_is_valid-append xs ys)

pub chunk_is_valid_nil : chunk_is_valid [] ≡ true
unfolding chunk_is_valid
chunk_is_valid_nil = refl

pub cleared-IsEntry : (e : DynamicSlot) → IsEntry (cleared e)
unfolding cleared
cleared-IsEntry e = record {
  full = length-replicate {A = ℕ} dynamic_max_text_len 0;
  sized = λ h. cc;
  timed = λ h. cc;
  mapped = λ h. cc;
  wiped = λ h. (refl, refl, refl);
}

module _ (c : Config) where
  pub cancel_staging-IsValid : (d : Dynamic) → IsValid c d → IsValid c (cancel_staging d)
  unfolding cancel_staging
  cancel_staging-IsValid d v = record {
    entry = v.entry;
    staging = record {
      full = length-replicate {A = ℕ} dynamic_max_text_len 0;
      target = λ h. cc;
      expects = omega arith;
      more = λ h. cc;
      timed = λ h. cc;
      mapped = chunk_is_valid_nil;
      wiped = λ h. (refl, refl);
    };
    agree = v.agree;
  }

  -- What an operation does to the slots and to the timer leaves the staging as it is.
  restage :
      (d : Dynamic) (s : ℕ → DynamicSlot) (g w : ℕ) (t : Option ℕ)
      → IsStaging c d
      → IsStaging c
          (record d { slots = s; ttl_generation = g; ttl_work_generation = w; ttl_work = t })
  restage d s g w t v = record {
    full = v.full;
    target = v.target;
    expects = v.expects;
    more = v.more;
    timed = v.timed;
    mapped = v.mapped;
    wiped = v.wiped;
  }

  pub clear_committed-IsValid :
      (slot : ℕ) (d : Dynamic) → IsValid c d → IsValid c (clear_committed slot d)
  unfolding clear_committed
  clear_committed-IsValid slot d v = record {
    entry = λ i lt. elim (Bool-cases (slot == i)) [
      | inl same ↦ rw same (cleared-IsEntry (d.slots slot))
      | inr differ ↦ rw differ (v.entry i lt)
    ];
    staging = restage d _ d.ttl_generation d.ttl_work_generation d.ttl_work v.staging;
    agree = v.agree;
  }

  pub expire_slot-IsValid : (slot : ℕ) (d : Dynamic) → IsValid c d → IsValid c (expire_slot slot d)
  unfolding expire_slot
  expire_slot-IsValid slot d v =
      let v' = clear_committed-IsValid slot d v in
      elim (Bool-cases (d.staging_active && d.staging_slot == slot)) [
        | inl hit ↦ rw hit (cancel_staging-IsValid (clear_committed slot d) v')
        | inr miss ↦ rw miss v'
      ]

  expire_if_due-IsValid :
      (now slot : ℕ) (d : Dynamic) → IsValid c d → IsValid c (expire_if_due now slot d)
  unfolding expire_if_due
  expire_if_due-IsValid now slot d v = elim (Bool-cases (is_due now (d.slots slot))) [
    | inl due ↦ rw due (expire_slot-IsValid slot d v)
    | inr fresh ↦ rw fresh v
  ]

  pub expire_due-IsValid : (now : ℕ) (d : Dynamic) → IsValid c d → IsValid c (expire_due c now d)
  unfolding expire_due
  expire_due-IsValid now d v =
      for_slots_inv (IsValid c) (expire_if_due now) c.dynamic_slot_count c.dynamic_slot_count 0 d
        (λ i e lt. expire_if_due-IsValid now i e) (omega arith) v

  pub rearm-IsValid : (now : ℕ) (d : Dynamic) → IsValid c d → IsValid c (rearm c now d)
  unfolding rearm
  rearm-IsValid now d v = record {
    entry = v.entry;
    staging = restage d d.slots _ _ _ v.staging;
    agree = refl;
  }

  pub ttl_work_handler-IsValid :
      (now : ℕ) (d : Dynamic) → IsValid c d → IsValid c (ttl_work_handler c now d)
  unfolding ttl_work_handler
  ttl_work_handler-IsValid now d v =
      let taken_off : IsValid c (record d { ttl_work = none }) = record {
        entry = v.entry;
        staging = restage d d.slots d.ttl_generation d.ttl_work_generation none v.staging;
        agree = v.agree;
      } in
      elim (Bool-cases (d.ttl_work_generation == d.ttl_generation)) [
        | inl current ↦ simp current (
            rearm-IsValid now (expire_due c now (record d { ttl_work = none }))
              (expire_due-IsValid now (record d { ttl_work = none }) taken_off))
        | inr stale ↦ simp stale (rearm-IsValid now (record d { ttl_work = none }) taken_off)
      ]

  pub begin_locked-IsValid :
      (slot total longest ttl : ℕ) (consume : Bool) (d : Dynamic)
      → longest ≤ dynamic_max_text_len
      → IsValid c d
      → IsValid c (begin_locked c slot total longest ttl consume d).1
  unfolding begin_locked
  begin_locked-IsValid slot total longest ttl consume d h v =
      let v' = cancel_staging-IsValid d v in
      elim (Bool-cases (
        not (dynamic_slot_is_valid c slot)
        || total == 0
        || ltb longest total
        || ltb ttl min_ttl_seconds
        || ltb max_ttl_seconds ttl)) [
          | inl bad ↦ rw bad v'
          | inr fine ↦ rw fine (
              unfold cancel_staging in
              record {
                entry = v.entry;
                staging = record {
                  full = v'.staging.full;
                  target = λ _. ground arith;
                  expects = ground arith;
                  more = λ _. ground arith;
                  timed = λ _. ground arith;
                  mapped = chunk_is_valid_nil;
                  wiped = λ q. absurd (cc);
                };
                agree = v.agree;
              })
        ]
