-- ===== src/Dynamic/Upload.antt =====
-- A whole upload to a dynamic slot: a begin and its chunks in order.
use zmk_module_runtime_macro.Base.{
  ℕ, ◌+◌, ◌-◌, ◌*◌, ◌%◌, ◌^◌, ◌≤◌, ◌<◌, ◌≡◌, refl, sym, ap, ◌∙◌, Bool, true, false, some, List, [],
  ◌∷◌, ◌++◌, append-nil, append_assoc, arith, lt→ltb, ltb-false, ==_false, ==_iff, length, take,
  length-append, length-replicate, All, write_at, zeros,
}
use zmk_module_runtime_macro.Config.{Config, dynamic_max_text_len, Status, done}
use zmk_module_runtime_macro.Dynamic.Defs.{
  DynamicSlot, Dynamic, min_ttl_seconds, max_ttl_seconds, chunk_is_valid, cancel_staging, is_due,
  rearm, expire_due, begin_locked, committed_slot, commit_locked, store_chunk, begin_slot,
  append_slot,
}
use zmk_module_runtime_macro.Dynamic.Slots.{expired}
use zmk_module_runtime_macro.Dynamic.Invariant.{
  IsEntry, IsValid, expire_due-IsValid, begin_locked-IsValid,
}
use zmk_module_runtime_macro.Dynamic.Append.{take-committed}
use zmk_module_runtime_macro.Dynamic.Receive.{
  Keeps, expire_due-Keeps, Receives, Keeps-Receives, append_accepts, extended, extended-Receives,
  store_chunk_more, store_chunk_last,
}

-- The chunks of an upload with their times, and the bytes that they make up.
abbrev pub joined : List (ℕ × List ℕ) → List ℕ
joined [] = []
joined ((t, chunk) ∷ more) = chunk ++ joined more

-- The slots as expiry at each of the times in turn leaves them.
abbrev pub aged : List (ℕ × List ℕ) → DynamicSlot → DynamicSlot
aged [] e = e
aged ((t, chunk) ∷ more) e = aged more (expired t e)

abbrev pub last_time : ℕ → List (ℕ × List ℕ) → ℕ
last_time t [] = t
last_time t ((u, chunk) ∷ more) = last_time u more

-- The text that a slot holds before the upload does not run out during it.
abbrev pub Outlives : DynamicSlot → List (ℕ × List ℕ) → Type 0
Outlives e = All (λ p. is_due p.0 e ≡ false)

Outlives-same :
    (e e' : DynamicSlot) (xs : List (ℕ × List ℕ)) → e' ≡ e → Outlives e xs → Outlives e' xs
Outlives-same e e' [] q h = tt
Outlives-same e e' (x ∷ xs) q h = (ap (is_due x.0) q ∙ h.0, Outlives-same e e' xs q h.1)

-- Each chunk has bytes, all of them mapped.
abbrev pub Sound : List (ℕ × List ℕ) → Type 0
Sound = All (λ p. (1 ≤ length p.1) × (chunk_is_valid p.1 ≡ true))

module _ (c : Config) where
  -- The answers to the chunks, and the store after them.
  pub append_all : ℕ → ℕ → List (ℕ × List ℕ) → Dynamic → List Status × Dynamic
  append_all slot offset [] d = ([], d)
  append_all slot offset ((t, chunk) ∷ more) d =
      let (r, d') = append_slot c t slot offset (some chunk) (length chunk) d in
      let (rs, d'') = append_all slot (offset + length chunk) more d' in (r ∷ rs, d'')

  abbrev pub AllDone : List Status → Type 0
  AllDone = All (λ r. r ≡ done)

  -- The slot holds the text until the deadline, and no upload is active.
  pub record Uploaded (slot : ℕ) (text : List ℕ) (deadline : ℕ) (consume : Bool) (d : Dynamic)
      : Type 0 where
    pub valid : (d.slots slot).committed_valid ≡ true
    pub size : (d.slots slot).committed_length ≡ length text
    pub text_is : take (length text) (d.slots slot).committed ≡ text
    pub deadline_is : (d.slots slot).ttl_deadline_ms ≡ deadline
    pub consumes : (d.slots slot).committed_consume_on_accept ≡ consume
    pub no_staging : d.staging_active ≡ false

  commit_locked-slot :
      (now : ℕ) (d : Dynamic)
      → (commit_locked c now d).slots d.staging_slot
        ≡ committed_slot c now d (d.slots d.staging_slot)
  unfolding commit_locked cancel_staging rearm
  commit_locked-slot now d = simp ((==_iff d.staging_slot d.staging_slot).1 refl)

  commit_locked-Uploaded :
      (now slot ttl : ℕ) (consume : Bool) (bytes : List ℕ) (d : Dynamic)
      → Receives c slot (length bytes) ttl consume bytes d
      → length bytes ≤ dynamic_max_text_len
      → length (d.slots slot).committed ≡ dynamic_max_text_len
      → Uploaded slot bytes (now + ttl * 1000) consume (commit_locked c now d)
  commit_locked-Uploaded now slot ttl consume bytes d r max full = record {
    valid = ap (λ e. e.committed_valid) written ∙ unfold committed_slot in refl;
    size =
        ap (λ e. e.committed_length) written
        ∙ unfold committed_slot in ap (λ n. n % 2 ^ 16) r.expects ∙ omega arith;
    text_is =
        ap (λ e. take (length bytes) e.committed) written
        ∙ unfold committed_slot in
          ap
            (λ n. take (length bytes) (
              write_at n (zeros (dynamic_max_text_len - n))
                (write_at 0 (take n d.staging) (d.slots slot).committed)))
            r.expects
          ∙ take-committed (length bytes) d.staging (d.slots slot).committed (omega (arith, r.full))
              (omega (arith, full))
          ∙ r.holds;
    deadline_is =
        ap (λ e. e.ttl_deadline_ms) written
        ∙ unfold committed_slot in ap (λ n. now + n * 1000) r.ttl_is;
    consumes =
        ap (λ e. e.committed_consume_on_accept) written ∙ unfold committed_slot in r.consumes;
    no_staging = unfold commit_locked cancel_staging rearm in refl;
  }
    where
      written : (commit_locked c now d).slots slot ≡ committed_slot c now d (d.slots slot)
      written = rw (sym r.slot_is) (commit_locked-slot now d)

  -- A chunk arrives before the old text of the slot runs out.
  arrives :
      (now slot total ttl : ℕ) (consume : Bool) (bytes chunk : List ℕ) (d : Dynamic)
      → Receives c slot total ttl consume bytes d
      → slot < c.dynamic_slot_count
      → (1 ≤ length chunk) × (chunk_is_valid chunk ≡ true)
      → length bytes + length chunk ≤ total
      → is_due now (d.slots slot) ≡ false
      → let e = expire_due c now d in
        (append_slot c now slot (length bytes) (some chunk) (length chunk) d
          ≡ (done, store_chunk c now (length bytes) chunk (length chunk) e))
        × Receives c slot total ttl consume bytes e
        × (e.slots slot ≡ d.slots slot)
  unfolding append_slot
  arrives now slot total ttl consume bytes chunk d r lt sound room fresh = (
    append_accepts c now slot total ttl consume bytes chunk (expire_due c now d) kept lt sound.0
        sound.1 room,
    kept,
    rw (sym r.slot_is) keeps.target,
  )
    where
      keeps : Keeps c d (expire_due c now d)
      keeps = expire_due-Keeps c now d (ap (λ i. is_due now (d.slots i)) r.slot_is ∙ fresh)

      kept : Receives c slot total ttl consume bytes (expire_due c now d)
      kept = Keeps-Receives c slot total ttl consume bytes d (expire_due c now d) keeps r

  last_chunk :
      (now slot total ttl : ℕ) (consume : Bool) (bytes chunk : List ℕ) (d : Dynamic)
      → Receives c slot total ttl consume bytes d
      → slot < c.dynamic_slot_count
      → total ≤ dynamic_max_text_len
      → length (d.slots slot).committed ≡ dynamic_max_text_len
      → (1 ≤ length chunk) × (chunk_is_valid chunk ≡ true)
      → is_due now (d.slots slot) ≡ false
      → length bytes + length chunk ≡ total
      → let (r, d') = append_slot c now slot (length bytes) (some chunk) (length chunk) d in
        (r ≡ done) × Uploaded slot (bytes ++ chunk) (now + ttl * 1000) consume d'
  last_chunk now slot total ttl consume bytes chunk d r lt max full sound fresh len =
      rw (arrived.0 ∙ ap (λ (x : Dynamic). (done, x)) last) (refl, committed)
    where
      e : Dynamic
      e = expire_due c now d

      arrived :
          (append_slot c now slot (length bytes) (some chunk) (length chunk) d
            ≡ (done, store_chunk c now (length bytes) chunk (length chunk) e))
          × Receives c slot total ttl consume bytes e
          × (e.slots slot ≡ d.slots slot)
      arrived = arrives now slot total ttl consume bytes chunk d r lt sound (omega arith) fresh

      last :
          store_chunk c now (length bytes) chunk (length chunk) e
          ≡ commit_locked c now (extended c (length bytes) chunk e)
      last =
          store_chunk_last c now (length bytes) chunk e
            (ap (λ n. n + length chunk) arrived.1.received ∙ len ∙ sym arrived.1.expects)

      whole : total ≡ length (bytes ++ chunk)
      whole = sym len ∙ sym (length-append bytes chunk)

      complete :
          Receives c slot
            (length (bytes ++ chunk))
            ttl
            consume
            (bytes ++ chunk)
            (extended c (length bytes) chunk e)
      complete =
          rw (sym whole)
            (extended-Receives c slot total ttl consume bytes chunk e arrived.1 (omega arith) max)

      committed :
          Uploaded slot
            (bytes ++ chunk)
            (now + ttl * 1000)
            consume
            (commit_locked c now (extended c (length bytes) chunk e))
      committed =
          commit_locked-Uploaded now slot ttl consume (bytes ++ chunk)
            (extended c (length bytes) chunk e) complete (omega (arith, whole))
            (ap (λ x. length x.committed) arrived.2 ∙ full)

  next_chunk :
      (now slot total ttl : ℕ) (consume : Bool) (bytes chunk : List ℕ) (d : Dynamic)
      → Receives c slot total ttl consume bytes d
      → slot < c.dynamic_slot_count
      → total ≤ dynamic_max_text_len
      → (1 ≤ length chunk) × (chunk_is_valid chunk ≡ true)
      → is_due now (d.slots slot) ≡ false
      → length bytes + length chunk < total
      → let (r, d') = append_slot c now slot (length bytes) (some chunk) (length chunk) d in
        (r ≡ done)
        × Receives c slot total ttl consume (bytes ++ chunk) d'
        × (d'.slots slot ≡ d.slots slot)
  next_chunk now slot total ttl consume bytes chunk d r lt max sound fresh len =
      rw (arrived.0 ∙ ap (λ (x : Dynamic). (done, x)) stored) (
        refl,
        extended-Receives c slot total ttl consume bytes chunk e arrived.1 (omega arith) max,
        arrived.2,
      )
    where
      e : Dynamic
      e = expire_due c now d

      arrived :
          (append_slot c now slot (length bytes) (some chunk) (length chunk) d
            ≡ (done, store_chunk c now (length bytes) chunk (length chunk) e))
          × Receives c slot total ttl consume bytes e
          × (e.slots slot ≡ d.slots slot)
      arrived = arrives now slot total ttl consume bytes chunk d r lt sound (omega arith) fresh

      stored :
          store_chunk c now (length bytes) chunk (length chunk) e
          ≡ extended c (length bytes) chunk e
      stored =
          store_chunk_more c now (length bytes) chunk e
            (omega (arith, arrived.1.received, arrived.1.expects))

  uploads :
      (slot total ttl : ℕ) (consume : Bool) (bytes : List ℕ) (t : ℕ) (chunk : List ℕ)
      (more : List (ℕ × List ℕ)) (d : Dynamic)
      → Receives c slot total ttl consume bytes d
      → slot < c.dynamic_slot_count
      → total ≤ dynamic_max_text_len
      → length (d.slots slot).committed ≡ dynamic_max_text_len
      → Sound ((t, chunk) ∷ more)
      → Outlives (d.slots slot) ((t, chunk) ∷ more)
      → length bytes + length (joined ((t, chunk) ∷ more)) ≡ total
      → let (rs, d') = append_all slot (length bytes) ((t, chunk) ∷ more) d in
        AllDone rs
        × Uploaded slot
            (bytes ++ joined ((t, chunk) ∷ more))
            (last_time t more + ttl * 1000)
            consume
            d'
  unfolding append_all
  uploads slot total ttl consume bytes t chunk [] d r lt max full sound fresh len =
      let (answer, done_) =
        last_chunk t slot total ttl consume bytes chunk d r lt max full sound.0 fresh.0
          (ap (λ x. length bytes + length x) (sym (append-nil chunk)) ∙ len) in
      ((answer, tt), rw (append-nil chunk) done_)
  uploads slot total ttl consume bytes t chunk ((u, next) ∷ more) d r lt max full sound fresh len =
      let parts : length (joined ((t, chunk) ∷ (u, next) ∷ more))
          ≡ length chunk + length (next ++ joined more) =
        length-append chunk (next ++ joined more) in
      let after : length (next ++ joined more) ≡ length next + length (joined more) =
        length-append next (joined more) in
      let some_next : 1 ≤ length next = sound.1.0.0 in
      let (answer, received, same) =
        next_chunk t slot total ttl consume bytes chunk d r lt max sound.0 fresh.0
          (omega (arith, len, parts, after, some_next)) in
      let rest =
        uploads slot total ttl consume (bytes ++ chunk) u next more
          (append_slot c t slot (length bytes) (some chunk) (length chunk) d).1 received lt max
          (ap (λ x. length x.committed) same ∙ full) sound.1
          (Outlives-same (d.slots slot) _ ((u, next) ∷ more) same fresh.1)
          (ap (λ n. n + length (next ++ joined more)) (length-append bytes chunk)
            ∙ omega (arith, len, parts)) in
      let (answers, uploaded) =
        rw (length-append bytes chunk, append_assoc bytes chunk (next ++ joined more)) at rest in
      ((answer, answers), uploaded)

  begin_slot-Receives :
      (now slot total ttl : ℕ) (consume : Bool) (d : Dynamic)
      → slot < c.dynamic_slot_count
      → 1 ≤ total
      → total ≤ dynamic_max_text_len
      → min_ttl_seconds ≤ ttl
      → ttl ≤ max_ttl_seconds
      → ((begin_slot c now slot total ttl consume d).0 ≡ done)
        × Receives c slot total ttl consume [] (begin_slot c now slot total ttl consume d).1
  unfolding begin_slot begin_locked cancel_staging
  begin_slot-Receives now slot total ttl consume d lt lo hi soon late =
      simp
        (
          lt→ltb slot c.dynamic_slot_count lt,
          ==_false total 0 (λ z. omega arith),
          ltb-false dynamic_max_text_len total hi,
          ltb-false ttl min_ttl_seconds soon,
          ltb-false max_ttl_seconds ttl late,
        )
        (
          refl,
          record {
            active = refl;
            slot_is = refl;
            expects = refl;
            received = refl;
            holds = refl;
            full = length-replicate {A = ℕ} dynamic_max_text_len 0;
            ttl_is = refl;
            consumes = refl;
          },
        )

  -- An upload that is begun within the bounds and whose chunks, none empty and all of mapped bytes,
  -- come in order and add up to the announced length, before the old text of the slot runs out, is
  -- answered with 0 at every step; then the slot holds exactly the bytes sent, until the time to live
  -- from the last chunk has passed, and the upload is closed.
  pub upload_stores :
      (now slot total ttl : ℕ) (consume : Bool) (t : ℕ) (chunk : List ℕ) (more : List (ℕ × List ℕ))
      (d : Dynamic)
      → slot < c.dynamic_slot_count
      → 1 ≤ total
      → total ≤ dynamic_max_text_len
      → min_ttl_seconds ≤ ttl
      → ttl ≤ max_ttl_seconds
      → IsValid c d
      → Sound ((t, chunk) ∷ more)
      → Outlives ((begin_slot c now slot total ttl consume d).1.slots slot) ((t, chunk) ∷ more)
      → length (joined ((t, chunk) ∷ more)) ≡ total
      → let (r, d') = begin_slot c now slot total ttl consume d in
        let (rs, d'') = append_all slot 0 ((t, chunk) ∷ more) d' in
        (r ≡ done)
        × AllDone rs
        × Uploaded slot (joined ((t, chunk) ∷ more)) (last_time t more + ttl * 1000) consume d''
  upload_stores now slot total ttl consume t chunk more d lt lo hi soon late v sound fresh len =
      let (begun, receives) = begin_slot-Receives now slot total ttl consume d lt lo hi soon late in
      let d' = (begin_slot c now slot total ttl consume d).1 in
      let (answers, uploaded) =
        uploads slot total ttl consume [] t chunk more d' receives lt hi begun-IsValid.full sound
          fresh (omega (arith, len)) in
      (begun, answers, uploaded)
    where
      begun-IsValid : IsEntry ((begin_slot c now slot total ttl consume d).1.slots slot)
      begun-IsValid =
          unfold begin_slot in
          (begin_locked-IsValid c slot total dynamic_max_text_len ttl consume (expire_due c now d)
              (omega arith) (expire_due-IsValid c now d v)).entry
            slot lt
