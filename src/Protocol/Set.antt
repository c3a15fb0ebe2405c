-- ===== src/Protocol/Set.antt =====
-- The chunks of one SET in runtime_macro_protocol_process_set: what the staging buffer holds after
-- each, and what the last one stores.
pub mod Step
use zmk_module_runtime_macro.Base.{
  ℕ, zero, suc, ◌+◌, ◌-◌, ◌*◌, ◌/◌, ◌%◌, ◌^◌, ◌≤◌, ◌<◌, min, ◌≡◌, refl, sym, ap, ap₂, ◌∙◌, fun_ext,
  ◌≢◌, ◌↔◌, ◌⊎◌, inl, inr, Bool, true, false, not, ◌&&◌, ◌||◌, Option, none, some, List, [], ◌∷◌,
  ◌++◌, map, append-nil, append_assoc, arith, ltb, leb, ◌==◌, if◌then◌else◌, ltb→lt, lt→ltb, leb→le,
  le→leb, leb-false, ltb-false, ==_false, ==_iff, tests, Bool-cases, if_field, Holds, Holds-if,
  Option-cases, length, get_or, take, drop, replicate, length-append, length-take_of_le,
  length-drop, length-replicate, take-append, take-length, take_idem, drop-append, get_or-take, All,
  All-append, All-take, bytes_equal, bytes_equal→eq, bytes_equal_refl, update, all_below,
  all_below_sound, codes, decimal_from, decimal, write_at, zeros, length-write_at, take-write_at,
  get_or-write_at_below, get_or-write_at_self, take-write_at_below,
}
use zmk_module_runtime_macro.Config.{
  Config, InRange, dynamic_max_text_len, executor_max_text_len, Errno, einval, enoent, eio, ebusy,
  enospc, enodata, eperm, eagain, eacces, enodev, enotsup, other, Result, ok, err, Status, done,
}
use zmk_module_runtime_macro.Slots.{
  Slots, Backend, SettingsCall, bytes_are_valid, text_is_valid, slot_is_valid, slot_replace,
  slot_set,
}
use zmk_module_runtime_macro.Protocol.Frame.{
  Frame, payload_size, protocol_version, all_zeros, payload_tail_is_zero, status_code, set_success,
}
use zmk_module_runtime_macro.Protocol.State.{Protocol, clear_set}
use zmk_module_runtime_macro.Protocol.Macros.{
  set_payload_is_valid, commit_response, first_chunk, later_chunk, is_foreign_chunk, commit_set,
  after_chunk, place_chunk, process_set,
}

-- A SET frame with a chunk.
abbrev pub set_frame : ℕ → ℕ → ℕ → ℕ → List ℕ → Frame
set_frame id slot total offset chunk = record {
  version = protocol_version;
  opcode = 0x03;
  request_id = id;
  status = 0;
  slot = slot;
  payload_length = length chunk;
  offset = offset;
  total_length = total;
  payload = chunk ++ zeros (payload_size - length chunk);
}

-- A chunk that a frame can carry: some bytes, at most 22, each in the ASCII map.
pub record IsChunk (chunk : List ℕ) : Type 0 where
  pub some_bytes : 1 ≤ length chunk
  pub fits : length chunk ≤ payload_size
  pub mapped : bytes_are_valid chunk ≡ true

-- The transaction of a context has received a text.
pub record Staged (c : Config) (id slot total : ℕ) (text : List ℕ) (p : Protocol) : Type 0 where
  pub active : p.set_active ≡ true
  pub request_id : p.set_request_id ≡ id
  pub for_slot : p.set_slot ≡ slot
  pub of_total : p.set_total_length ≡ total
  pub received : p.set_received_length ≡ length text
  pub room : length p.set_staging ≡ c.max_text_len
  pub staged : take (length text) p.set_staging ≡ text

-- A slot and a length that SET accepts.
pub record Fits (c : Config) (slot total : ℕ) : Type 0 where
  pub slot_below : slot < c.slot_count
  pub total_le : total ≤ c.max_text_len
  pub text_le : c.max_text_len ≤ 256

all_zeros-zeros : (n : ℕ) → all_zeros (zeros n) ≡ true
unfolding all_zeros
all_zeros-zeros zero = refl
all_zeros-zeros (suc n) = all_zeros-zeros n

module _ (id slot total offset : ℕ) (chunk : List ℕ) where
  -- The rest of the payload is zero.
  pub set_frame-tail :
      payload_tail_is_zero (set_frame id slot total offset chunk) (length chunk) ≡ true
  unfolding payload_tail_is_zero
  set_frame-tail =
      ap all_zeros (drop-append chunk (zeros (payload_size - length chunk)))
      ∙ all_zeros-zeros (payload_size - length chunk)

  set_frame-valid :
      IsChunk chunk
      → set_payload_is_valid (set_frame id slot total offset chunk) (length chunk) ≡ true
  unfolding set_payload_is_valid
  set_frame-valid h =
      ap bytes_are_valid (take-append chunk (zeros (payload_size - length chunk))) ∙ h.mapped

-- Only the first bytes of the source count.
slot_set-take :
    (c : Config) (io : Backend) (slot : ℕ) (bytes : List ℕ) (n : ℕ) (s : Slots)
    → slot_set c io slot (some bytes) n s ≡ slot_set c io slot (some (take n bytes)) n s
unfolding slot_set text_is_valid slot_replace
slot_set-take c io slot bytes n s = rw (take_idem n bytes)

from_zero : (n : ℕ) → n ≡ 0 + n
from_zero n = omega arith

-- A chunk taken from a frame's payload stands behind what the buffer held.
placed :
    (o : ℕ) (chunk rest buf : List ℕ)
    → o + length chunk ≤ length buf
    → take (o + length chunk) (write_at o (take (length chunk) (chunk ++ rest)) buf)
      ≡ take o buf ++ chunk
placed o chunk rest buf h =
    ap (λ bs. take (o + length chunk) (write_at o bs buf)) (take-append chunk rest)
    ∙ take-write_at o chunk buf h

module _ (c : Config) (id slot total : ℕ) where
  zero_room :
      (chunk : List ℕ)
      → length chunk ≤ total
      → Fits c slot total
      → 0 + length chunk ≤ length (zeros c.max_text_len)
  zero_room chunk le fits = omega (arith, length-replicate {A = ℕ} c.max_text_len 0, fits.total_le)

  -- What the first chunk leaves in the context.
  pub first_chunk-Staged :
      (chunk : List ℕ) (p : Protocol)
      → length chunk ≤ total
      → Fits c slot total
      → Staged c id slot total chunk (first_chunk (set_frame id slot total 0 chunk) (clear_set c p))
  unfolding first_chunk clear_set
  first_chunk-Staged chunk p le fits = record {
    active = refl;
    request_id = refl;
    for_slot = refl;
    of_total = refl;
    received = refl;
    room = length-write_at 0 _ (zeros c.max_text_len) ∙ length-replicate c.max_text_len 0;
    staged =
        ap
          (λ n. take n (
            write_at 0 (take (length chunk) (chunk ++ zeros (payload_size - length chunk)))
              (zeros c.max_text_len)))
          (from_zero (length chunk))
        ∙ placed 0 chunk _ (zeros c.max_text_len) (zero_room chunk le fits);
  }

  pub later_chunk-Staged :
      (text chunk : List ℕ) (p : Protocol)
      → length text + length chunk ≤ total
      → Fits c slot total
      → Staged c id slot total text p
      → Staged c id slot total
          (text ++ chunk)
          (later_chunk (set_frame id slot total (length text) chunk) p)
  unfolding later_chunk
  later_chunk-Staged text chunk p le fits h = record {
    active = h.active;
    request_id = h.request_id;
    for_slot = h.for_slot;
    of_total = h.of_total;
    received = omega (arith, h.received, length-append text chunk, fits.total_le, fits.text_le, le);
    room = length-write_at (length text) _ p.set_staging ∙ h.room;
    staged =
        ap
          (λ n. take n (
            write_at (length text)
              (take (length chunk) (chunk ++ zeros (payload_size - length chunk))) p.set_staging))
          (length-append text chunk)
        ∙ placed (length text) chunk _ p.set_staging (omega (arith, h.room, fits.total_le, le))
        ∙ ap (λ t. t ++ chunk) h.staged;
  }

  module _ (io : Backend) (r : Frame) (s : Slots) where
    process_set-place_chunk :
        (offset : ℕ) (chunk : List ℕ) (p : Protocol)
        → IsChunk chunk
        → offset + length chunk ≤ total
        → Fits c slot total
        → process_set c io (set_frame id slot total offset chunk) r p s
          ≡ place_chunk c io (set_frame id slot total offset chunk) r p s
    unfolding process_set
    process_set-place_chunk offset chunk p h le fits = rw (
      lt→ltb slot c.slot_count fits.slot_below,
      ltb-false c.max_text_len total fits.total_le,
      ltb-false total offset (omega arith),
      ltb-false (total - offset) (length chunk) (omega arith),
      ==_false total 0 (λ e. absurd (omega (arith, h.some_bytes))),
      ==_false (length chunk) 0 (λ e. absurd (omega (arith, h.some_bytes))),
      set_frame-valid id slot total offset chunk h,
    )

    -- An incomplete transaction only answers.
    pub after_chunk_incomplete :
        (text : List ℕ) (p : Protocol)
        → Staged c id slot total text p
        → length text < total
        → after_chunk c io r p s ≡ (set_success (length text) total r, p, s)
    unfolding after_chunk
    after_chunk_incomplete text p h lt =
        rw (h.received, h.of_total, ==_false (length text) total (λ e. absurd (omega arith)))

    -- A complete one stores the text.
    pub after_chunk_complete :
        (text : List ℕ) (p : Protocol)
        → Staged c id slot total text p
        → length text ≡ total
        → after_chunk c io r p s ≡ (
          commit_response (slot_set c io slot (some text) total s).0 total total r,
          clear_set c p,
          (slot_set c io slot (some text) total s).2,
        )
    unfolding after_chunk commit_set
    after_chunk_complete text p h full =
        rw (h.received ∙ full, h.of_total, h.for_slot, (==_iff total total).1 refl, stored)
      where
        stored :
            slot_set c io slot (some p.set_staging) total s ≡ slot_set c io slot (some text) total s
        stored =
            slot_set-take c io slot p.set_staging total s
            ∙ ap (λ b. slot_set c io slot (some b) total s)
                (ap (λ n. take n p.set_staging) (sym full) ∙ h.staged)

    pub process_set-first :
        (chunk : List ℕ) (p : Protocol)
        → IsChunk chunk
        → length chunk ≤ total
        → Fits c slot total
        → process_set c io (set_frame id slot total 0 chunk) r p s
          ≡ after_chunk c io r (first_chunk (set_frame id slot total 0 chunk) (clear_set c p)) s
    process_set-first chunk p h le fits =
        process_set-place_chunk 0 chunk p h (omega arith) fits ∙ unfold place_chunk in refl

    pub process_set-next :
        (text chunk : List ℕ) (p : Protocol)
        → IsChunk chunk
        → 1 ≤ length text
        → length text + length chunk ≤ total
        → Fits c slot total
        → Staged c id slot total text p
        → process_set c io (set_frame id slot total (length text) chunk) r p s
          ≡ after_chunk c io r (later_chunk (set_frame id slot total (length text) chunk) p) s
    process_set-next text chunk p h some_text le fits staged =
        process_set-place_chunk (length text) chunk p h le fits ∙ placing
      where
        own : is_foreign_chunk (set_frame id slot total (length text) chunk) p ≡ false
        own =
            unfold is_foreign_chunk in
            rw (
              staged.active,
              (==_iff p.set_request_id id).1 staged.request_id,
              (==_iff p.set_slot slot).1 staged.for_slot,
              (==_iff p.set_total_length total).1 staged.of_total,
            )

        placing :
            place_chunk c io (set_frame id slot total (length text) chunk) r p s
            ≡ after_chunk c io r (later_chunk (set_frame id slot total (length text) chunk) p) s
        placing =
            unfold place_chunk in
            rw (
              ==_false (length text) 0 (λ e. absurd (omega arith)),
              own,
              (==_iff (length text) p.set_received_length).1 (sym staged.received),
            )
