-- ===== src/Protocol/Invariant/Texts.antt =====
-- SET and CLEAR keep the invariant of a context and that of the static slots.
use zmk_module_runtime_macro.Base.{
  ℕ, ◌+◌, ◌-◌, ◌%◌, ◌^◌, ◌≤◌, ◌<◌, ◌≡◌, ◌∙◌, inl, inr, true, false, not, ◌||◌, some, List, arith,
  ltb, ◌==◌, Bool-cases, Holds, length, length-replicate, zeros, length-write_at,
}
use zmk_module_runtime_macro.Config.{Config}
use zmk_module_runtime_macro.Slots.{
  Slots, Backend, text_is_valid, slot_is_valid, slot_set, slot_clear,
}
use zmk_module_runtime_macro.Slots.Invariant.{slot_replace-IsValid, slot_clear_empties}
use zmk_module_runtime_macro.Slots.Invariant as SlotsInvariant
use zmk_module_runtime_macro.Protocol.Frame.{Frame, FrameStatus}
use zmk_module_runtime_macro.Protocol.State.{Protocol, clear_set}
use zmk_module_runtime_macro.Protocol.Macros.{
  first_chunk, later_chunk, is_foreign_chunk, commit_set, after_chunk, place_chunk, process_set,
  process_clear, refuse_set,
}
use zmk_module_runtime_macro.Protocol.Invariant.Handlers.{below, at_most}
use zmk_module_runtime_macro.Protocol.Invariant.{
  ContextIsValid, Holds-case, no_set, clear_set-ContextIsValid,
}

-- Between a chunk and the end of SET: the transaction may be complete.
record Chunked (c : Config) (p : Protocol) : Type 0 where
  room : length p.set_staging ≡ c.max_text_len
  total_le : p.set_total_length ≤ c.max_text_len
  received_le : p.set_received_length ≤ p.set_total_length
  target : p.set_slot < c.slot_count
  others : ContextIsValid c (clear_set c p)

-- The context and the slots that SET leaves, and the slots that CLEAR leaves.
abbrev pub SetLeavesValid : Config → Frame × Protocol × Slots → Type 0
SetLeavesValid c x = ContextIsValid c x.1 × SlotsInvariant.IsValid c x.2

abbrev pub ClearLeavesValid : Config → Frame × Slots → Type 0
ClearLeavesValid c x = SlotsInvariant.IsValid c x.1

module _ (c : Config) (s : Slots) (valid : SlotsInvariant.IsValid c s) where
  slot_set-IsValid :
      (io : Backend) (slot : ℕ) (bytes : List ℕ) (n : ℕ)
      → n ≤ length bytes
      → SlotsInvariant.IsValid c (slot_set c io slot (some bytes) n s).2
  unfolding slot_set
  slot_set-IsValid io slot bytes n readable =
      elim (Bool-cases (
        not (slot_is_valid c slot) || ltb c.max_text_len n || not (text_is_valid (some bytes) n))) [
          | inl refused ↦ rw refused valid
          | inr taken ↦ rw taken (
              slot_replace-IsValid c slot bytes n s (ground arith) readable (ground arith)
                (unfold text_is_valid in ground arith) valid)
        ]

  refused_set :
      (e : FrameStatus) (r : Frame) (p : Protocol)
      → ContextIsValid c p
      → Holds (SetLeavesValid c) (refuse_set c e r p s)
  refused_set e r p h = record { at = (clear_set-ContextIsValid c p h, valid) }

  after_chunk-LeavesValid :
      (io : Backend) (r : Frame) (p : Protocol)
      → Chunked c p
      → Holds (SetLeavesValid c) (after_chunk c io r p s)
  unfolding after_chunk commit_set
  after_chunk-LeavesValid io r p h =
      Holds-case (p.set_received_length == p.set_total_length) _ _
        (λ _. record {
          at = (
            h.others,
            slot_set-IsValid io p.set_slot p.set_staging p.set_total_length
                (omega (arith, h.room, h.total_le)),
          );
        })
        (λ more. record {
          at = (
            record {
              set = record {
                room = h.room;
                total_le = h.total_le;
                more = λ _. short more;
                target = λ _. h.target;
              };
              password = unfold clear_set in h.others.password;
              dynamic = unfold clear_set in h.others.dynamic;
            },
            valid,
          );
        })
    where
      short :
          (p.set_received_length == p.set_total_length) ≡ false
          → p.set_received_length < p.set_total_length
      short more = ground (arith, h.received_le)

  module _ (io : Backend) (q r : Frame) (p : Protocol) (h : ContextIsValid c p) where
    first_chunk-Chunked :
        not (slot_is_valid c q.slot) ≡ false
        → ltb c.max_text_len q.total_length ≡ false
        → ltb (q.total_length - q.offset) q.payload_length ≡ false
        → Chunked c (first_chunk q (clear_set c p))
    unfolding first_chunk clear_set
    first_chunk-Chunked slot_ok total_ok length_ok = record {
      room = length-write_at 0 _ (zeros c.max_text_len) ∙ length-replicate c.max_text_len 0;
      total_le = at_most q.total_length c.max_text_len total_ok;
      received_le = within (at_most q.payload_length (q.total_length - q.offset) length_ok);
      target = below q.slot c.slot_count slot_ok;
      others = record { set = no_set c; password = h.password; dynamic = h.dynamic };
    }
      where
        within : q.payload_length ≤ q.total_length - q.offset → q.payload_length ≤ q.total_length
        within le = omega arith

    later_chunk-Chunked :
        ltb q.total_length q.offset ≡ false
        → ltb (q.total_length - q.offset) q.payload_length ≡ false
        → is_foreign_chunk q p ≡ false
        → not (q.offset == p.set_received_length) ≡ false
        → c.max_text_len ≤ 256
        → Chunked c (later_chunk q p)
    unfolding later_chunk clear_set is_foreign_chunk
    later_chunk-Chunked offset_ok length_ok own in_order small = record {
      room = length-write_at q.offset _ p.set_staging ∙ h.set.room;
      total_le = h.set.total_le;
      received_le = received;
      target = h.set.target active;
      others = record { set = no_set c; password = h.password; dynamic = h.dynamic };
    }
      where
        active : p.set_active ≡ true
        active = ground arith

        same_total : p.set_total_length ≡ q.total_length
        same_total = ground arith

        at_offset : q.offset ≡ p.set_received_length
        at_offset = ground arith

        received : (p.set_received_length + q.payload_length) % 2 ^ 16 ≤ p.set_total_length
        received = omega (
          arith,
          same_total,
          at_offset,
          at_most q.offset q.total_length offset_ok,
          at_most q.payload_length (q.total_length - q.offset) length_ok,
        )

    placed :
        c.max_text_len ≤ 256
        → not (slot_is_valid c q.slot) ≡ false
        → ltb c.max_text_len q.total_length ≡ false
        → ltb q.total_length q.offset ≡ false
        → ltb (q.total_length - q.offset) q.payload_length ≡ false
        → Holds (SetLeavesValid c) (place_chunk c io q r p s)
    unfolding place_chunk
    placed small slot_ok total_ok offset_ok length_ok =
        search
          (
            Holds-case, refused_set, after_chunk-LeavesValid, first_chunk-Chunked,
            later_chunk-Chunked,
          )
          depth 12

    pub process_set-LeavesValid :
        c.max_text_len ≤ 256 → Holds (SetLeavesValid c) (process_set c io q r p s)
    unfolding process_set
    process_set-LeavesValid small = search (Holds-case, refused_set, placed) depth 24

    pub process_clear-LeavesValid : Holds (ClearLeavesValid c) (process_clear c io q r s)
    unfolding process_clear
    process_clear-LeavesValid = search (Holds-case, unchanged, emptied) depth 8
      where
        unchanged : (f : Frame) → Holds (ClearLeavesValid c) (f, s)
        unchanged f = record { at = valid }

        emptied :
            not (slot_is_valid c q.slot) ≡ false
            → (f : Frame) → Holds (ClearLeavesValid c) (f, (slot_clear c io q.slot s).2)
        emptied slot_ok f = record {
          at = (slot_clear_empties c io q.slot s valid (below q.slot c.slot_count slot_ok)).3;
        }
