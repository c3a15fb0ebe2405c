-- ===== src/Dynamic/Defs.antt =====
-- The state and the operations of runtime_macro_dynamic.c, but for the start of a text.
use zmk_module_runtime_macro.Base.{
  ℕ, zero, suc, ◌+◌, ◌-◌, ◌*◌, ◌%◌, ◌^◌, Bool, true, false, not, ◌&&◌, ◌||◌, Option, none, some,
  List, [], ◌∷◌, ltb, ◌==◌, if◌then◌else◌, take, update, write_at, zeros,
}
use zmk_module_runtime_macro.Config.{
  Config, dynamic_max_text_len, einval, enoent, err, Status, done,
}
use zmk_module_runtime_macro.Ascii.{ascii_to_keycode}
use zmk_module_runtime_macro.Ascii.Alphabet.{accepts}

-- struct zmk_runtime_macro_dynamic_slot
pub record DynamicSlot : Type 0 where
  pub committed : List ℕ
  pub ttl_deadline_ms : ℕ
  pub ttl_generation : ℕ
  pub committed_length : ℕ
  pub committed_valid : Bool
  pub committed_consume_on_accept : Bool

-- struct zmk_runtime_macro_dynamic_state, with the time at which the work item is due.
pub record Dynamic : Type 0 where
  pub slots : ℕ → DynamicSlot
  pub staging : List ℕ
  pub staging_slot : ℕ
  pub staging_expected_length : ℕ
  pub staging_received : ℕ
  pub staging_active : Bool
  pub staging_ttl_seconds : ℕ
  pub staging_consume_on_accept : Bool
  pub ttl_generation : ℕ
  pub ttl_work_generation : ℕ
  pub ttl_work : Option ℕ

-- ZMK_RUNTIME_MACRO_DYNAMIC_MIN_TTL_SECONDS and MAX_TTL_SECONDS, the bound of the legacy entry
-- points, and the wrapping `++` of a uint32_t.
abbrev pub min_ttl_seconds : ℕ
min_ttl_seconds = 1

abbrev pub max_ttl_seconds : ℕ
max_ttl_seconds = 86400

abbrev pub legacy_max_text_len : ℕ
legacy_max_text_len = 256

unfoldable pub next_generation : ℕ → ℕ
next_generation g = (g + 1) % 2 ^ 32

-- The loop `for (slot = from; slot < from + left; slot++)` over the state.
unfoldable pub for_slots : (ℕ → Dynamic → Dynamic) → ℕ → ℕ → Dynamic → Dynamic
for_slots body zero slot d = d
for_slots body (suc left) slot d = for_slots body left (slot + 1) (body slot d)

-- The bytes that runtime_macro_dynamic_byte_is_valid accepts, all of a chunk.
unfoldable pub chunk_is_valid : List ℕ → Bool
chunk_is_valid [] = true
chunk_is_valid (b ∷ bs) = accepts (ascii_to_keycode b) && chunk_is_valid bs

-- Whether a slot has text with a deadline (the negation of the loops' `continue` test).
unfoldable pub has_deadline : DynamicSlot → Bool
has_deadline e = not (not e.committed_valid || e.ttl_deadline_ms == 0)

-- One round of the search for the earliest deadline, 0 being none.
unfoldable pub earlier : DynamicSlot → ℕ → ℕ
unfolding has_deadline
earlier e acc =
    if has_deadline e
    then (if acc == 0 || ltb e.ttl_deadline_ms acc then e.ttl_deadline_ms else acc)
    else acc

unfoldable pub earliest : (ℕ → DynamicSlot) → ℕ → ℕ → ℕ → ℕ
unfolding earlier
earliest slots zero slot acc = acc
earliest slots (suc left) slot acc = earliest slots left (slot + 1) (earlier (slots slot) acc)

-- When the work item is due: after the delay to the deadline, or 1 ms if that has passed.
unfoldable pub due_at : ℕ → ℕ → Option ℕ
due_at now zero = none
due_at now (suc deadline) = some (now + (if ltb now (suc deadline) then suc deadline - now else 1))

-- runtime_macro_dynamic_clear_committed_locked, on the slot
unfoldable pub cleared : DynamicSlot → DynamicSlot
unfolding next_generation
cleared e = record {
  committed = zeros dynamic_max_text_len;
  ttl_deadline_ms = 0;
  ttl_generation = next_generation e.ttl_generation;
  committed_length = 0;
  committed_valid = false;
  committed_consume_on_accept = true;
}

unfoldable pub clear_committed : ℕ → Dynamic → Dynamic
unfolding cleared
clear_committed slot d = record d { slots = update d.slots slot (cleared (d.slots slot)) }

-- runtime_macro_dynamic_cancel_staging_locked
unfoldable pub cancel_staging : Dynamic → Dynamic
cancel_staging d = record d {
  staging = zeros dynamic_max_text_len;
  staging_slot = 0;
  staging_expected_length = 0;
  staging_received = 0;
  staging_active = false;
  staging_ttl_seconds = 0;
  staging_consume_on_accept = true;
}

-- runtime_macro_dynamic_expire_slot_locked
unfoldable pub expire_slot : ℕ → Dynamic → Dynamic
unfolding clear_committed cancel_staging
expire_slot slot d =
    let d' = clear_committed slot d in
    if d.staging_active && d.staging_slot == slot then cancel_staging d' else d'

-- Whether the loop of expire_due expires a slot.
unfoldable pub is_due : ℕ → DynamicSlot → Bool
is_due now e = not (not e.committed_valid || e.ttl_deadline_ms == 0 || ltb now e.ttl_deadline_ms)

unfoldable pub expire_if_due : ℕ → ℕ → Dynamic → Dynamic
unfolding is_due expire_slot
expire_if_due now slot d = if is_due now (d.slots slot) then expire_slot slot d else d

module _ (c : Config) where
  -- runtime_macro_dynamic_slot_is_valid
  abbrev pub dynamic_slot_is_valid : ℕ → Bool
  dynamic_slot_is_valid slot = ltb slot c.dynamic_slot_count

  -- runtime_macro_dynamic_rearm_ttl_locked
  unfoldable pub rearm : ℕ → Dynamic → Dynamic
  unfolding earliest due_at next_generation
  rearm now d = record d {
    ttl_generation = next_generation d.ttl_generation;
    ttl_work_generation = next_generation d.ttl_generation;
    ttl_work = due_at now (earliest d.slots c.dynamic_slot_count 0 0);
  }

  -- runtime_macro_dynamic_expire_due_locked
  unfoldable pub expire_due : ℕ → Dynamic → Dynamic
  unfolding for_slots expire_if_due
  expire_due now d = for_slots (expire_if_due now) c.dynamic_slot_count 0 d

  -- runtime_macro_dynamic_ttl_work_handler; the pending work item is taken off the queue as it runs.
  unfoldable pub ttl_work_handler : ℕ → Dynamic → Dynamic
  unfolding expire_due rearm
  ttl_work_handler now d0 =
      let d = record d0 { ttl_work = none } in
      rearm now (if d.ttl_work_generation == d.ttl_generation then expire_due now d else d)

  -- runtime_macro_dynamic_begin_locked
  unfoldable pub begin_locked : ℕ → ℕ → ℕ → ℕ → Bool → Dynamic → Status × Dynamic
  unfolding cancel_staging
  begin_locked slot total max_length ttl consume d =
      if not (dynamic_slot_is_valid slot)
        || total == 0
        || ltb max_length total
        || ltb ttl min_ttl_seconds
        || ltb max_ttl_seconds ttl
      then (err einval, cancel_staging d)
      else (
        done,
        record (cancel_staging d) {
          staging_slot = slot;
          staging_expected_length = total;
          staging_ttl_seconds = ttl;
          staging_consume_on_accept = consume;
          staging_active = true;
        },
      )

  -- The slot that runtime_macro_dynamic_commit_locked writes.
  unfoldable pub committed_slot : ℕ → Dynamic → DynamicSlot → DynamicSlot
  unfolding next_generation
  committed_slot now d e = record {
    committed =
        write_at d.staging_expected_length
          (zeros (dynamic_max_text_len - d.staging_expected_length))
          (write_at 0 (take d.staging_expected_length d.staging) e.committed);
    ttl_deadline_ms = now + d.staging_ttl_seconds * 1000;
    ttl_generation = next_generation e.ttl_generation;
    committed_length = d.staging_expected_length % 2 ^ 16;
    committed_valid = true;
    committed_consume_on_accept = d.staging_consume_on_accept;
  }

  -- runtime_macro_dynamic_commit_locked
  unfoldable pub commit_locked : ℕ → Dynamic → Dynamic
  unfolding committed_slot cancel_staging rearm
  commit_locked now d = rearm now (
      cancel_staging (record d {
        slots = update d.slots d.staging_slot (committed_slot now d (d.slots d.staging_slot));
      }))

  -- The end of runtime_macro_dynamic_append_locked, once the chunk is accepted.
  unfoldable pub store_chunk : ℕ → ℕ → List ℕ → ℕ → Dynamic → Dynamic
  unfolding commit_locked
  store_chunk now offset bytes n d =
      let d' = record d {
        staging = write_at offset (take n bytes) d.staging;
        staging_received = d.staging_received + n;
      } in
      if d'.staging_received == d'.staging_expected_length then commit_locked now d' else d'

  -- Whether a chunk does not fit the transaction; `none` is a NULL pointer.
  unfoldable pub chunk_is_misplaced : ℕ → ℕ → Dynamic → Bool
  chunk_is_misplaced offset n d =
      n == 0
      || not (offset == d.staging_received)
      || ltb d.staging_expected_length offset
      || ltb (d.staging_expected_length - offset) n

  -- The part of runtime_macro_dynamic_append_locked after the slot is checked; `none` is a NULL pointer.
  unfoldable pub append_chunk : ℕ → ℕ → Option (List ℕ) → ℕ → Dynamic → Status × Dynamic
  unfolding store_chunk chunk_is_misplaced cancel_staging
  append_chunk now offset none n d = (err einval, cancel_staging d)
  append_chunk now offset (some bytes) n d =
      if chunk_is_misplaced offset n d || not (chunk_is_valid (take n bytes))
      then (err einval, cancel_staging d)
      else (done, store_chunk now offset bytes n d)

  -- runtime_macro_dynamic_append_locked
  unfoldable pub append_locked : ℕ → ℕ → ℕ → Option (List ℕ) → ℕ → Dynamic → Status × Dynamic
  unfolding append_chunk cancel_staging
  append_locked now slot offset bytes n d =
      if not d.staging_active
      then (err enoent, d)
      else if not (dynamic_slot_is_valid slot) || not (slot == d.staging_slot)
      then (err einval, cancel_staging d)
      else append_chunk now offset bytes n d

  -- zmk_runtime_macro_dynamic_begin_slot
  unfoldable pub begin_slot : ℕ → ℕ → ℕ → ℕ → Bool → Dynamic → Status × Dynamic
  unfolding expire_due begin_locked
  begin_slot now slot total ttl consume d =
      begin_locked slot total dynamic_max_text_len ttl consume (expire_due now d)

  -- zmk_runtime_macro_dynamic_begin_with_options, and zmk_runtime_macro_dynamic_begin with `true`
  unfoldable pub begin_with_options : ℕ → ℕ → ℕ → Bool → Dynamic → Status × Dynamic
  unfolding expire_due begin_locked
  begin_with_options now total ttl consume d =
      begin_locked 0 total legacy_max_text_len ttl consume (expire_due now d)

  -- zmk_runtime_macro_dynamic_append_slot
  unfoldable pub append_slot : ℕ → ℕ → ℕ → Option (List ℕ) → ℕ → Dynamic → Status × Dynamic
  unfolding expire_due append_locked
  append_slot now slot offset bytes n d = append_locked now slot offset bytes n (expire_due now d)

  -- zmk_runtime_macro_dynamic_cancel_staging
  unfoldable pub cancel : ℕ → Dynamic → Dynamic
  unfolding expire_due cancel_staging
  cancel now d = cancel_staging (expire_due now d)

  -- zmk_runtime_macro_dynamic_clear_slot
  unfoldable pub clear_slot : ℕ → ℕ → Dynamic → Dynamic
  unfolding expire_slot rearm
  clear_slot now slot d = if dynamic_slot_is_valid slot then rearm now (expire_slot slot d) else d

  -- zmk_runtime_macro_dynamic_clear_all, and zmk_runtime_macro_dynamic_clear
  unfoldable pub clear_all : ℕ → Dynamic → Dynamic
  unfolding for_slots clear_committed cancel_staging rearm
  clear_all now d = rearm now (cancel_staging (for_slots clear_committed c.dynamic_slot_count 0 d))

  -- zmk_runtime_macro_dynamic_check_expiry
  unfoldable pub check_expiry : ℕ → Dynamic → Dynamic
  unfolding expire_due rearm
  check_expiry now d = rearm now (expire_due now d)

  -- One round of the loop of zmk_runtime_macro_dynamic_reset
  unfoldable pub reset_slot : ℕ → Dynamic → Dynamic
  unfolding cleared
  reset_slot slot d = record d {
    slots = update d.slots slot (record (cleared (d.slots slot)) { ttl_generation = 0 });
  }

  -- zmk_runtime_macro_dynamic_reset
  unfoldable pub reset : Dynamic → Dynamic
  unfolding for_slots reset_slot cancel_staging
  reset d =
      record (cancel_staging
        (for_slots reset_slot c.dynamic_slot_count 0 (record d { ttl_work = none }))) {
          ttl_generation = 0;
          ttl_work_generation = 0;
        }
