-- ===== src/Dynamic/Receive.antt =====
-- One step of an upload to a dynamic slot: what expiry leaves alone, and what a chunk adds.
use zmk_module_runtime_macro.Base.{
  ℕ, ◌+◌, ◌-◌, ◌≤◌, ◌<◌, ◌≡◌, refl, sym, ap, ◌∙◌, ◌≢◌, inl, inr, Bool, true, false, ◌&&◌, some,
  List, ◌++◌, arith, ◌==◌, lt→ltb, ltb-false, ==_false, ==_iff, Bool-cases, length, take,
  length-append, take-length, update, write_at, length-write_at, take-write_at,
}
use zmk_module_runtime_macro.Config.{Config, dynamic_max_text_len, done}
use zmk_module_runtime_macro.Dynamic.Defs.{
  Dynamic, chunk_is_valid, cleared, clear_committed, expire_slot, is_due, expire_if_due, expire_due,
  commit_locked, store_chunk, chunk_is_misplaced, append_chunk, append_locked,
}
use zmk_module_runtime_macro.Dynamic.Slots.{for_slots_inv}

module _ (c : Config) where
  -- Expiry that does not reach the upload's slot changes the slots only.
  pub record Keeps (d e : Dynamic) : Type 0 where
    pub rest : e ≡ record d { slots = e.slots }
    pub target : e.slots d.staging_slot ≡ d.slots d.staging_slot

  expire_slot-Keeps :
      (i : ℕ) (d e : Dynamic) → d.staging_slot ≢ i → Keeps d e → Keeps d (expire_slot i e)
  unfolding expire_slot clear_committed
  expire_slot-Keeps i d e ne k = simp miss kept
    where
      miss : (e.staging_active && e.staging_slot == i) ≡ false
      miss =
          ap (λ (x : Dynamic). e.staging_active && x.staging_slot == i) k.rest
          ∙ simp (==_false d.staging_slot i ne) (ground arith)

      kept : Keeps d (clear_committed i e)
      kept = record {
        rest =
            ap (λ (x : Dynamic). record x { slots = update e.slots i (cleared (e.slots i)) })
              k.rest;
        target = rw (==_false i d.staging_slot (λ q. ne (sym q))) k.target;
      }

  expire_if_due-Keeps :
      (now i : ℕ) (d e : Dynamic)
      → is_due now (d.slots d.staging_slot) ≡ false
      → Keeps d e
      → Keeps d (expire_if_due now i e)
  unfolding expire_if_due
  expire_if_due-Keeps now i d e fresh k = elim (Bool-cases (is_due now (e.slots i))) [
    | inr still ↦ rw still k
    | inl due ↦ rw due (expire_slot-Keeps i d e (apart due) k)
  ]
    where
      apart : is_due now (e.slots i) ≡ true → d.staging_slot ≢ i
      apart due q =
          let here : is_due now (e.slots d.staging_slot) ≡ true =
            ap (λ j. is_due now (e.slots j)) q ∙ due in
          let there : is_due now (e.slots d.staging_slot) ≡ is_due now (d.slots d.staging_slot) =
            ap (is_due now) k.target in
          cc

  pub expire_due-Keeps :
      (now : ℕ) (d : Dynamic)
      → is_due now (d.slots d.staging_slot) ≡ false
      → Keeps d (expire_due c now d)
  unfolding expire_due
  expire_due-Keeps now d fresh =
      for_slots_inv (Keeps d) (expire_if_due now) c.dynamic_slot_count c.dynamic_slot_count 0 d
        (λ i e lt. expire_if_due-Keeps now i d e fresh) (omega arith)
        (record { rest = refl; target = refl })

  -- An upload of `total` bytes to a slot has received these.
  pub record Receives (slot total ttl : ℕ) (consume : Bool) (bytes : List ℕ) (d : Dynamic)
      : Type 0 where
    pub active : d.staging_active ≡ true
    pub slot_is : d.staging_slot ≡ slot
    pub expects : d.staging_expected_length ≡ total
    pub received : d.staging_received ≡ length bytes
    pub holds : take (length bytes) d.staging ≡ bytes
    pub full : length d.staging ≡ dynamic_max_text_len
    pub ttl_is : d.staging_ttl_seconds ≡ ttl
    pub consumes : d.staging_consume_on_accept ≡ consume

  pub Keeps-Receives :
      (slot total ttl : ℕ) (consume : Bool) (bytes : List ℕ) (d e : Dynamic)
      → Keeps d e
      → Receives slot total ttl consume bytes d
      → Receives slot total ttl consume bytes e
  Keeps-Receives slot total ttl consume bytes d e k r = rw k.rest (record {
    active = r.active;
    slot_is = r.slot_is;
    expects = r.expects;
    received = r.received;
    holds = r.holds;
    full = r.full;
    ttl_is = r.ttl_is;
    consumes = r.consumes;
  })

  pub append_accepts :
      (now slot total ttl : ℕ) (consume : Bool) (bytes chunk : List ℕ) (d : Dynamic)
      → Receives slot total ttl consume bytes d
      → slot < c.dynamic_slot_count
      → 1 ≤ length chunk
      → chunk_is_valid chunk ≡ true
      → length bytes + length chunk ≤ total
      → append_locked c now slot (length bytes) (some chunk) (length chunk) d
        ≡ (done, store_chunk c now (length bytes) chunk (length chunk) d)
  unfolding append_locked append_chunk
  append_accepts now slot total ttl consume bytes chunk d r lt nonempty mapped room =
      simp (r.active, lt→ltb slot c.dynamic_slot_count lt, here, placed, take-length chunk, mapped)
    where
      here : (slot == d.staging_slot) ≡ true
      here = (==_iff slot d.staging_slot).1 (sym r.slot_is)

      placed : chunk_is_misplaced c (length bytes) (length chunk) d ≡ false
      placed =
          unfold chunk_is_misplaced in
          simp (
            r.received,
            r.expects,
            ==_false (length chunk) 0 (λ z. omega arith),
            (==_iff (length bytes) (length bytes)).1 refl,
            ltb-false total (length bytes) (omega arith),
            ltb-false (total - length bytes) (length chunk) (omega arith),
          )

  -- The state with the chunk in the staging buffer.
  abbrev pub extended : ℕ → List ℕ → Dynamic → Dynamic
  extended offset chunk d = record d {
    staging = write_at offset chunk d.staging;
    staging_received = d.staging_received + length chunk;
  }

  pub extended-Receives :
      (slot total ttl : ℕ) (consume : Bool) (bytes chunk : List ℕ) (d : Dynamic)
      → Receives slot total ttl consume bytes d
      → length bytes + length chunk ≤ total
      → total ≤ dynamic_max_text_len
      → Receives slot total ttl consume (bytes ++ chunk) (extended (length bytes) chunk d)
  extended-Receives slot total ttl consume bytes chunk d r room max = record {
    active = r.active;
    slot_is = r.slot_is;
    expects = r.expects;
    received = ap (λ n. n + length chunk) r.received ∙ sym (length-append bytes chunk);
    holds =
        ap (λ n. take n (write_at (length bytes) chunk d.staging)) (length-append bytes chunk)
        ∙ take-write_at (length bytes) chunk d.staging (omega (arith, r.full))
        ∙ ap (λ t. t ++ chunk) r.holds;
    full = length-write_at (length bytes) chunk d.staging ∙ r.full;
    ttl_is = r.ttl_is;
    consumes = r.consumes;
  }

  pub store_chunk_more :
      (now offset : ℕ) (chunk : List ℕ) (d : Dynamic)
      → d.staging_received + length chunk < d.staging_expected_length
      → store_chunk c now offset chunk (length chunk) d ≡ extended offset chunk d
  unfolding store_chunk
  store_chunk_more now offset chunk d h = simp (
    take-length chunk,
    ==_false (d.staging_received + length chunk) d.staging_expected_length (λ e. omega arith),
  )

  pub store_chunk_last :
      (now offset : ℕ) (chunk : List ℕ) (d : Dynamic)
      → d.staging_received + length chunk ≡ d.staging_expected_length
      → store_chunk c now offset chunk (length chunk) d
        ≡ commit_locked c now (extended offset chunk d)
  unfolding store_chunk
  store_chunk_last now offset chunk d h = simp (
    take-length chunk,
    (==_iff (d.staging_received + length chunk) d.staging_expected_length).1 h,
  )
