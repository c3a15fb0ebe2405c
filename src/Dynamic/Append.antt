-- ===== src/Dynamic/Append.antt =====
-- runtime_macro_dynamic_append_locked: a chunk goes behind the bytes received, and the last one
-- commits the upload.
use zmk_module_runtime_macro.Base.{
  ℕ, ◌+◌, ◌-◌, ◌%◌, ◌^◌, ◌≤◌, ◌<◌, ◌≡◌, refl, sym, ap, ◌∙◌, inl, inr, true, not, ◌||◌, Option, none,
  some, List, ◌++◌, arith, ltb, ◌==◌, ==_iff, Bool-cases, length, take, length-take_of_le,
  length-replicate, update, write_at, zeros, length-write_at, take-write_at, take-write_at_below,
}
use zmk_module_runtime_macro.Config.{Config, dynamic_max_text_len}
use zmk_module_runtime_macro.Dynamic.Defs.{
  DynamicSlot, Dynamic, chunk_is_valid, cancel_staging, dynamic_slot_is_valid, committed_slot,
  commit_locked, store_chunk, chunk_is_misplaced, append_chunk, append_locked,
}
use zmk_module_runtime_macro.Dynamic.Invariant.{
  IsEntry, IsValid, chunk_is_valid-append, cancel_staging-IsValid, rearm-IsValid,
}

-- The bytes of a slot that a commit fills are those staged.
pub take-committed :
    (n : ℕ) (staging buf : List ℕ)
    → n ≤ length staging
    → n ≤ length buf
    → take n (write_at n (zeros (dynamic_max_text_len - n)) (write_at 0 (take n staging) buf))
      ≡ take n staging
take-committed n staging buf h k =
    take-write_at_below n n (zeros (dynamic_max_text_len - n)) (write_at 0 (take n staging) buf)
      (omega arith)
    ∙ ap (λ m. take m (write_at 0 (take n staging) buf)) (omega (arith, sized))
    ∙ take-write_at 0 (take n staging) buf (omega (arith, sized))
  where
    sized : length (take n staging) ≡ n
    sized = length-take_of_le n staging h

module _ (c : Config) where
  committed_slot-IsEntry :
      (now : ℕ) (d : Dynamic) (e : DynamicSlot)
      → length e.committed ≡ dynamic_max_text_len
      → length d.staging ≡ dynamic_max_text_len
      → 1 ≤ d.staging_expected_length
      → d.staging_expected_length ≤ dynamic_max_text_len
      → 1 ≤ d.staging_ttl_seconds
      → chunk_is_valid (take d.staging_expected_length d.staging) ≡ true
      → IsEntry (committed_slot c now d e)
  unfolding committed_slot
  committed_slot-IsEntry now d e old new lo hi ttl mapped =
      let n = d.staging_expected_length in
      let same : n % 2 ^ 16 ≡ n = omega arith in
      record {
        full =
            length-write_at n (zeros (dynamic_max_text_len - n))
              (write_at 0 (take n d.staging) e.committed)
            ∙ length-write_at 0 (take n d.staging) e.committed
            ∙ old;
        sized = λ _. omega arith;
        timed = λ _. omega arith;
        mapped = λ _. rw same (
            ap chunk_is_valid (take-committed n d.staging e.committed (omega arith) (omega arith))
            ∙ mapped);
        wiped = λ h. absurd (cc);
      }

  -- A state in which the upload is complete.
  record Complete (d : Dynamic) : Type 0 where
    full : length d.staging ≡ dynamic_max_text_len
    target : d.staging_slot < c.dynamic_slot_count
    lo : 1 ≤ d.staging_expected_length
    hi : d.staging_expected_length ≤ dynamic_max_text_len
    ttl : 1 ≤ d.staging_ttl_seconds
    mapped : chunk_is_valid (take d.staging_expected_length d.staging) ≡ true
    entry : (i : ℕ) → i < c.dynamic_slot_count → IsEntry (d.slots i)
    agree : d.ttl_work_generation ≡ d.ttl_generation

  commit_locked-IsValid : (now : ℕ) (d : Dynamic) → Complete d → IsValid c (commit_locked c now d)
  unfolding commit_locked
  commit_locked-IsValid now d v =
      let filled = committed_slot c now d (d.slots d.staging_slot) in
      rearm-IsValid c now
        (cancel_staging (record d { slots = update d.slots d.staging_slot filled }))
        (unfold cancel_staging in
          record {
            entry = λ i lt. elim (Bool-cases (d.staging_slot == i)) [
              | inl same ↦ rw same (
                  committed_slot-IsEntry now d (d.slots d.staging_slot)
                    (v.entry d.staging_slot v.target).full v.full v.lo v.hi v.ttl v.mapped)
              | inr differ ↦ rw differ (v.entry i lt)
            ];
            staging = record {
              full = length-replicate {A = ℕ} dynamic_max_text_len 0;
              target = λ h. cc;
              expects = omega arith;
              more = λ h. cc;
              timed = λ h. cc;
              mapped = unfold chunk_is_valid in refl;
              wiped = λ h. (refl, refl);
            };
            agree = v.agree;
          })

  staged :
      (n : ℕ) (bytes : List ℕ) (d : Dynamic)
      → length d.staging ≡ dynamic_max_text_len
      → n ≤ length bytes
      → d.staging_received + n ≤ dynamic_max_text_len
      → take (d.staging_received + n) (write_at d.staging_received (take n bytes) d.staging)
        ≡ take d.staging_received d.staging ++ take n bytes
  staged n bytes d full h room =
      ap (λ k. take (d.staging_received + k) (write_at d.staging_received (take n bytes) d.staging))
        (sym sized)
      ∙ take-write_at d.staging_received (take n bytes) d.staging (omega (arith, sized))
    where
      sized : length (take n bytes) ≡ n
      sized = length-take_of_le n bytes h

  store_chunk-IsValid :
      (now n : ℕ) (bytes : List ℕ) (d : Dynamic)
      → IsValid c d
      → d.staging_active ≡ true
      → n ≤ length bytes
      → d.staging_received + n ≤ d.staging_expected_length
      → chunk_is_valid (take n bytes) ≡ true
      → IsValid c (store_chunk c now d.staging_received bytes n d)
  unfolding store_chunk
  store_chunk-IsValid now n bytes d v on h fits mapped =
      let s = v.staging in
      let room : d.staging_received + n ≤ dynamic_max_text_len = omega (arith, s.expects) in
      let all : chunk_is_valid
            (take (d.staging_received + n) (write_at d.staging_received (take n bytes) d.staging))
          ≡ true =
        ap chunk_is_valid (staged n bytes d s.full h room)
        ∙ chunk_is_valid-append (take d.staging_received d.staging) (take n bytes) s.mapped
            mapped in
      let full = length-write_at d.staging_received (take n bytes) d.staging ∙ s.full in
      elim (Bool-cases (d.staging_received + n == d.staging_expected_length)) [
        | inl last ↦
            let e : d.staging_received + n ≡ d.staging_expected_length = (==_iff _ _).0 last in
            rw last (
              commit_locked-IsValid now
                (record d {
                  staging = write_at d.staging_received (take n bytes) d.staging;
                  staging_received = d.staging_received + n;
                })
                (record {
                  full = full;
                  target = s.target on;
                  lo = omega (arith, s.more on);
                  hi = s.expects;
                  ttl = (s.timed on).0;
                  mapped = rw e at all;
                  entry = v.entry;
                  agree = v.agree;
                }))
        | inr short ↦ rw short (record {
          entry = v.entry;
          staging = record {
            full = full;
            target = s.target;
            expects = s.expects;
            more = λ _. ground arith;
            timed = s.timed;
            mapped = all;
            wiped = λ q. absurd (cc);
          };
          agree = v.agree;
        })
      ]

  append_chunk-IsValid :
      (now offset : ℕ) (bytes : Option (List ℕ)) (n : ℕ) (d : Dynamic)
      → ((chunk : List ℕ) → bytes ≡ some chunk → n ≤ length chunk)
      → IsValid c d
      → d.staging_active ≡ true
      → IsValid c (append_chunk c now offset bytes n d).1
  unfolding append_chunk chunk_is_misplaced
  append_chunk-IsValid now offset none n d h v on = cancel_staging-IsValid c d v
  append_chunk-IsValid now offset (some bytes) n d h v on =
      elim (Bool-cases (
        (n == 0
          || not (offset == d.staging_received)
          || ltb d.staging_expected_length offset
          || ltb (d.staging_expected_length - offset) n)
        || not (chunk_is_valid (take n bytes)))) [
          | inl bad ↦ rw bad (cancel_staging-IsValid c d v)
          | inr fine ↦
              let same : offset ≡ d.staging_received = ground arith in
              rw fine (
                rw same (
                  store_chunk-IsValid now n bytes d v on (h bytes refl) (ground arith)
                    (ground arith)))
        ]

  -- With a chunk of readable bytes, or a NULL pointer, an append leaves the store valid.
  pub append_locked-IsValid :
      (now slot offset : ℕ) (bytes : Option (List ℕ)) (n : ℕ) (d : Dynamic)
      → ((chunk : List ℕ) → bytes ≡ some chunk → n ≤ length chunk)
      → IsValid c d
      → IsValid c (append_locked c now slot offset bytes n d).1
  unfolding append_locked
  append_locked-IsValid now slot offset bytes n d h v = elim (Bool-cases d.staging_active) [
    | inr off ↦ simp off v
    | inl on ↦
        elim (Bool-cases (not (dynamic_slot_is_valid c slot) || not (slot == d.staging_slot))) [
          | inl wrong ↦ simp (on, wrong) (cancel_staging-IsValid c d v)
          | inr right ↦ simp (on, right) (append_chunk-IsValid now offset bytes n d h v on)
        ]
  ]
