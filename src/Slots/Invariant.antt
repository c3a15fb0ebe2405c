-- ===== src/Slots/Invariant.antt =====
-- The slots of runtime_macro.c as a map from slots to texts, and the invariant of their buffers.
use native.Mathlib.Numerals.{add-one}
use zmk_module_runtime_macro.Base.{
  ℕ, zero, suc, ◌+◌, ◌≤◌, ◌<◌, ◌≡◌, refl, ap, ◌∙◌, inl, inr, true, some, List, [], ◌∷◌, ◌++◌, arith,
  ltb, ◌==◌, if◌then◌else◌, lt→ltb, le→leb, leb-false, ltb-false, ==_iff, Bool-cases, length,
  get_or, take, length-take_of_le, length-replicate, update, write_at, zeros, length-write_at,
  take-write_at_nul, get_or-write_at_nul,
}
use zmk_module_runtime_macro.Config.{Config, einval, enospc, ok, err}
use zmk_module_runtime_macro.Slots.{
  Slots, saves, deletes, Backend, bytes_are_valid, text_is_valid, slot_setting_name, slot_replace,
  slot_copy, slot_set, slot_clear,
}

-- One slot: a full buffer with the text's bytes, all mapped, and a NUL behind them.
pub record IsSlot (c : Config) (buf : List ℕ) (n : ℕ) : Type 0 where
  pub full : length buf ≡ c.max_text_len + 1
  pub fits : n ≤ c.max_text_len
  pub ended : get_or buf n 1 ≡ 0
  pub mapped : bytes_are_valid (take n buf) ≡ true

-- All slots.
pub record IsValid (c : Config) (s : Slots) : Type 0 where
  pub slot : (i : ℕ) → i < c.slot_count → IsSlot c (s.text i) (s.size i)

-- The text of a slot: what a reader of the buffer gets, without the NUL.
unfoldable pub contents : Slots → ℕ → List ℕ
contents s i = take (s.size i) (s.text i)

write_at_nothing : (buf : List ℕ) → write_at 0 [] buf ≡ buf
write_at_nothing [] = refl
write_at_nothing (b ∷ buf) = refl

replaced : List ℕ → ℕ → List ℕ → List ℕ
replaced bytes n buf = write_at n (0 ∷ []) (if ltb 0 n then write_at 0 (take n bytes) buf else buf)

replaced-eq :
    (bytes : List ℕ) (n : ℕ) (buf : List ℕ)
    → replaced bytes n buf ≡ write_at n (0 ∷ []) (write_at 0 (take n bytes) buf)
unfolding replaced
replaced-eq bytes zero buf = rw write_at_nothing
replaced-eq bytes (suc n) buf = rw (lt→ltb 0 (suc n) (omega arith))

length-replaced :
    (bytes : List ℕ) (n : ℕ) (buf : List ℕ) → length (replaced bytes n buf) ≡ length buf
length-replaced bytes n buf =
    ap length (replaced-eq bytes n buf)
    ∙ length-write_at n (0 ∷ []) (write_at 0 (take n bytes) buf)
    ∙ length-write_at 0 (take n bytes) buf

take-replaced :
    (bytes : List ℕ) (n : ℕ) (buf : List ℕ)
    → n ≤ length bytes
    → n < length buf
    → take n (replaced bytes n buf) ≡ take n bytes
take-replaced bytes n buf h k =
    ap (take n) (replaced-eq bytes n buf) ∙ take-write_at_nul bytes n buf h k

replaced-ended :
    (bytes : List ℕ) (n : ℕ) (buf : List ℕ) → n < length buf → get_or (replaced bytes n buf) n 1 ≡ 0
replaced-ended bytes n buf k =
    ap (λ b. get_or b n 1) (replaced-eq bytes n buf)
    ∙ get_or-write_at_nul n (write_at 0 (take n bytes) buf)
        (omega (arith, length-write_at 0 (take n bytes) buf))

module _ (c : Config) where
  -- Replacing the text of one slot changes that text and nothing else of the map.
  pub contents-slot_replace :
      (slot : ℕ) (bytes : List ℕ) (n : ℕ) (s : Slots) (j : ℕ)
      → n ≤ length bytes
      → n < length (s.text slot)
      → contents (slot_replace slot bytes n s) j
        ≡ (if slot == j then take n bytes else contents s j)
  unfolding contents slot_replace
  contents-slot_replace slot bytes n s j h k = elim (Bool-cases (slot == j)) [
    | inl same ↦ rw same (unfold replaced in take-replaced bytes n (s.text slot) h k)
    | inr differ ↦ rw differ
  ]

  pub slot_replace-IsValid :
      (slot : ℕ) (bytes : List ℕ) (n : ℕ) (s : Slots)
      → slot < c.slot_count
      → n ≤ length bytes
      → n ≤ c.max_text_len
      → bytes_are_valid (take n bytes) ≡ true
      → IsValid c s
      → IsValid c (slot_replace slot bytes n s)
  unfolding slot_replace
  slot_replace-IsValid slot bytes n s lt h k mapped v = record { slot = each }
    where
      before : IsSlot c (s.text slot) (s.size slot)
      before = v.slot slot lt

      fresh : IsSlot c (replaced bytes n (s.text slot)) n
      fresh = record {
        full = length-replaced bytes n (s.text slot) ∙ before.full;
        fits = k;
        ended = replaced-ended bytes n (s.text slot) (omega (arith, before.full));
        mapped =
            ap bytes_are_valid (take-replaced bytes n (s.text slot) h (omega (arith, before.full)))
            ∙ mapped;
      }

      each :
          (i : ℕ)
          → i < c.slot_count
          → IsSlot c ((slot_replace slot bytes n s).text i) ((slot_replace slot bytes n s).size i)
      each i il = elim (Bool-cases (slot == i)) [
        | inl same ↦ rw same (unfold replaced in fresh)
        | inr differ ↦ rw differ (v.slot i il)
      ]

  slot_set_accepted :
      (io : Backend) (slot : ℕ) (bytes : List ℕ) (n : ℕ) (s : Slots)
      → slot < c.slot_count
      → n ≤ c.max_text_len
      → bytes_are_valid (take n bytes) ≡ true
      → let s' = slot_replace slot bytes n s in
        let value = take n (s'.text slot) in
        slot_set c io slot (some bytes) n s
        ≡ (io.save (slot_setting_name slot) value, saves (slot_setting_name slot) value ∷ [], s')
  unfolding slot_set text_is_valid
  slot_set_accepted io slot bytes n s lt h mapped =
      rw (lt→ltb slot c.slot_count lt, ltb-false c.max_text_len n h, mapped)

  -- A text of mapped bytes within the limit is stored in its slot and nowhere else, whatever the
  -- settings library answers: it is asked once, to save exactly this text under the slot's name,
  -- and its answer is the result.
  pub slot_set_stores :
      (io : Backend) (slot : ℕ) (bytes : List ℕ) (n : ℕ) (s : Slots)
      → IsValid c s
      → slot < c.slot_count
      → n ≤ length bytes
      → n ≤ c.max_text_len
      → bytes_are_valid (take n bytes) ≡ true
      → let (r, calls, s') = slot_set c io slot (some bytes) n s in
        (r ≡ io.save (slot_setting_name slot) (take n bytes))
        × (calls ≡ saves (slot_setting_name slot) (take n bytes) ∷ [])
        × ((j : ℕ) → contents s' j ≡ (if slot == j then take n bytes else contents s j))
        × IsValid c s'
  slot_set_stores io slot bytes n s v lt h k mapped =
      rw (slot_set_accepted io slot bytes n s lt k mapped) (
        ap (io.save (slot_setting_name slot)) value,
        ap (λ t. saves (slot_setting_name slot) t ∷ []) value,
        (λ j. contents-slot_replace slot bytes n s j h room),
        slot_replace-IsValid slot bytes n s lt h k mapped v,
      )
    where
      room : n < length (s.text slot)
      room = omega (arith, (v.slot slot lt).full)

      value : take n ((slot_replace slot bytes n s).text slot) ≡ take n bytes
      value =
          unfold slot_replace replaced in
          rw ((==_iff slot slot).1 refl) (take-replaced bytes n (s.text slot) h room)

  zeros-mapped : (n : ℕ) → get_or (zeros (n + 1)) 0 1 ≡ 0
  zeros-mapped n = rw add-one

  -- Clearing a slot empties it and no other, and deletes its setting.
  pub slot_clear_empties :
      (io : Backend) (slot : ℕ) (s : Slots)
      → IsValid c s
      → slot < c.slot_count
      → let (r, calls, s') = slot_clear c io slot s in
        (r ≡ io.delete (slot_setting_name slot))
        × (calls ≡ deletes (slot_setting_name slot) ∷ [])
        × ((j : ℕ) → contents s' j ≡ (if slot == j then [] else contents s j))
        × IsValid c s'
  unfolding slot_clear contents
  slot_clear_empties io slot s v lt =
      rw (lt→ltb slot c.slot_count lt) (refl, refl, texts, record { slot = each })
    where
      cleared : Slots
      cleared = record s {
        text = update s.text slot (zeros (c.max_text_len + 1));
        size = update s.size slot 0;
      }

      texts :
          (j : ℕ)
          → take (cleared.size j) (cleared.text j)
            ≡ (if slot == j then [] else take (s.size j) (s.text j))
      texts j = elim (Bool-cases (slot == j)) [ inl same ↦ rw same | inr differ ↦ rw differ ]

      each : (i : ℕ) → i < c.slot_count → IsSlot c (cleared.text i) (cleared.size i)
      each i il = elim (Bool-cases (slot == i)) [
        | inl same ↦ rw same (record {
          full = length-replicate (c.max_text_len + 1) 0;
          fits = omega arith;
          ended = zeros-mapped c.max_text_len;
          mapped = unfold bytes_are_valid in refl;
        })
        | inr differ ↦ rw differ (v.slot i il)
      ]

  take-suc-end :
      (n : ℕ) (buf : List ℕ)
      → n < length buf
      → get_or buf n 1 ≡ 0
      → take (n + 1) buf ≡ take n buf ++ 0 ∷ []
  take-suc-end n [] h e = elim h [ ]
  take-suc-end zero (b ∷ buf) h e = ap (λ x. x ∷ []) e
  take-suc-end (suc n) (b ∷ buf) h e =
      rw add-one (ap (◌∷◌ b) (rw add-one at (take-suc-end n buf (omega arith) e)))

  -- A copy into a buffer with room for the NUL gives the slot's text, its NUL and its length; into
  -- any other it is ENOSPC, and of a slot out of range EINVAL.
  pub slot_copy-contents :
      (slot size : ℕ) (s : Slots)
      → IsValid c s
      → (slot < c.slot_count
          → s.size slot < size
          → slot_copy c slot size s ≡ ok (contents s slot ++ 0 ∷ [], length (contents s slot)))
        × (slot < c.slot_count → size ≤ s.size slot → slot_copy c slot size s ≡ err enospc)
        × (c.slot_count ≤ slot → slot_copy c slot size s ≡ err einval)
  unfolding slot_copy contents
  slot_copy-contents slot size s v = (
    (λ lt room.
        let i = v.slot slot lt in
        rw
          (
            lt→ltb slot c.slot_count lt,
            leb-false size (s.size slot) room,
            length-take_of_le (s.size slot) (s.text slot) (omega (arith, i.full, i.fits)),
          )
          (ap (λ t. ok (t, s.size slot))
            (take-suc-end (s.size slot) (s.text slot) (omega (arith, i.full, i.fits)) i.ended))),
    (λ lt small. rw (lt→ltb slot c.slot_count lt, le→leb size (s.size slot) small)),
    (λ out. rw (ltb-false slot c.slot_count out)),
  )
