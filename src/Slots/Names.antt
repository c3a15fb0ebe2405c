-- ===== src/Slots/Names.antt =====
-- The names of the slots' settings: what runtime_macro_parse_slot reads and what is written.
use zmk_module_runtime_macro.Base.{
  ℕ, ◌+◌, ◌-◌, ◌*◌, ◌/◌, ◌%◌, ◌^◌, ◌≤◌, ◌<◌, ◌≡◌, refl, sym, ap, ap₂, ◌≢◌, ◌↔◌, inl, inr, Bool,
  ◌&&◌, some, List, [], ◌∷◌, arith, ltb, leb, ◌==◌, lt→ltb, ltb-false, ==_false, Bool-cases,
  decimal,
}
use zmk_module_runtime_macro.Config.{Config, InRange, Result, ok, err}
use zmk_module_runtime_macro.Slots.Settings.{parse_digits, as_uint8, parse_slot}

abbrev digit_test : ℕ → Bool
digit_test ch = leb b'0' ch && leb ch b'9'

module _ (c : Config) (r : InRange c) where
  -- One digit of the loop.
  parse_digits_cons :
      (v ch : ℕ) (rest : List ℕ) (n : ℕ)
      → parse_digits c v (ch ∷ rest) ≡ ok n
      → (b'0' ≤ ch)
        × (ch ≤ b'9')
        × (v * 10 + (ch - b'0') < c.slot_count)
        × (parse_digits c (v * 10 + (ch - b'0')) rest ≡ ok n)
  unfolding parse_digits
  parse_digits_cons v ch rest n e = ground arith

  parse_digits_step :
      (v ch : ℕ) (rest : List ℕ)
      → b'0' ≤ ch
      → ch ≤ b'9'
      → v * 10 + (ch - b'0') < c.slot_count
      → parse_digits c v (ch ∷ rest) ≡ parse_digits c (v * 10 + (ch - b'0')) rest
  unfolding parse_digits
  parse_digits_step v ch rest lo hi lt = ground (arith, r.slots_le)

  decimal_one : (m : ℕ) → m < 10 → decimal m ≡ (m + 48) ∷ []
  unfolding decimal
  decimal_one m h = rw (lt→ltb m 10 h)

  decimal_two : (m : ℕ) → 10 ≤ m → m < 100 → decimal m ≡ (m / 10 + 48) ∷ (m % 10 + 48) ∷ []
  unfolding decimal
  decimal_two m lo hi = rw (ltb-false m 10 lo, lt→ltb (m / 10) 10 (omega arith))

  parse_digits_large :
      (v : ℕ) (rest : List ℕ) (n : ℕ)
      → c.slot_count ≤ v * 10
      → parse_digits c v rest ≡ ok n
      → rest ≡ []
  parse_digits_large v [] n h e = refl
  parse_digits_large v (ch ∷ rest) n h e = absurd (omega (arith, parse_digits_cons v ch rest n e))

  parse_digits_nil : (v n : ℕ) → parse_digits c v [] ≡ ok n → v ≡ n
  unfolding parse_digits
  parse_digits_nil v n e = ground arith

  as_uint8_inv : (x : Result ℕ) (n : ℕ) → as_uint8 x ≡ ok n → (v : ℕ) × (x ≡ ok v) × (v % 2 ^ 8 ≡ n)
  unfolding as_uint8
  as_uint8_inv (ok v) n e = (v, refl, ground arith)
  as_uint8_inv (err f) n e = absurd (cc)

  one_digit :
      (ch n : ℕ) → parse_digits c 0 (ch ∷ []) ≡ ok n → (n < c.slot_count) × (ch ∷ [] ≡ decimal n)
  one_digit ch n e =
      let (lo, hi, lt, rest) = parse_digits_cons 0 ch [] n e in
      let value : n ≡ ch - 48 = omega (arith, parse_digits_nil (0 * 10 + (ch - 48)) n rest) in
      (
        omega arith,
        rw value (rw (decimal_one (ch - 48) (omega arith)) (ap (λ x. x ∷ []) (omega arith))),
      )

  more_digits :
      (ch d : ℕ) (rest : List ℕ) (n : ℕ)
      → ch ≢ b'0'
      → parse_digits c 0 (ch ∷ d ∷ rest) ≡ ok n
      → (n < c.slot_count) × (ch ∷ d ∷ rest ≡ decimal n)
  more_digits ch d rest n ne e =
      let (lo, hi, lt, e') = parse_digits_cons 0 ch (d ∷ rest) n e in
      let (lo', hi', lt', e'') = parse_digits_cons (0 * 10 + (ch - 48)) d rest n e' in
      let v : ℕ = (0 * 10 + (ch - 48)) * 10 + (d - 48) in
      let first : ch ≢ 48 = ne in
      let empty : rest ≡ [] = parse_digits_large v rest n (omega (arith, r.slots_le)) e'' in
      let value : n ≡ v = sym (parse_digits_nil v n (rw empty at e'')) in
      (
        omega arith,
        rw (empty, value, decimal_two v (omega arith) (omega (arith, r.slots_le)))
            (ap₂ (λ (x y : ℕ). x ∷ y ∷ []) (omega arith) (omega arith)),
      )

  parse_slot_sound :
      (name : List ℕ) (n : ℕ)
      → parse_slot c (some name) ≡ ok n
      → (n < c.slot_count) × (name ≡ decimal n)
  unfolding parse_slot
  parse_slot_sound [] n e = absurd (cc)
  parse_slot_sound (ch ∷ []) n e =
      let (v, p, q) = as_uint8_inv (parse_digits c 0 (ch ∷ [])) n e in
      let (lt, eq) = one_digit ch v p in
      let same : n ≡ v = omega (arith, r.slots_le) in (omega arith, rw same eq)
  parse_slot_sound (ch ∷ d ∷ rest) n e = elim (Bool-cases (ch == b'0')) [
    | inl lead ↦ absurd (cc (rw lead at e))
    | inr fine ↦
        let (v, p, q) = as_uint8_inv (parse_digits c 0 (ch ∷ d ∷ rest)) n (rw fine at e) in
        let (lt, eq) = more_digits ch d rest v (ground arith) p in
        let same : n ≡ v = omega (arith, r.slots_le) in (omega arith, rw same eq)
  ]

  parse_digits_end : (v n : ℕ) → v ≡ n → n < c.slot_count → as_uint8 (parse_digits c v []) ≡ ok n
  unfolding parse_digits as_uint8
  parse_digits_end v n e lt = ap ok (omega (arith, r.slots_le))

  parse_slot_complete : (n : ℕ) → n < c.slot_count → parse_slot c (some (decimal n)) ≡ ok n
  unfolding parse_slot
  parse_slot_complete n lt = elim (Bool-cases (ltb n 10)) [
    | inl small ↦
        rw
          (
            decimal_one n (ground arith),
            parse_digits_step 0 (n + 48) [] (omega arith) (ground arith) (omega arith),
          )
          (parse_digits_end (0 * 10 + (n + 48 - 48)) n (omega arith) lt)
    | inr large ↦
        let lo : 10 ≤ n = ground arith in
        rw
          (
            decimal_two n lo (omega (arith, r.slots_le)),
            ==_false (n / 10 + 48) 48 (λ e. omega arith),
            parse_digits_step 0 (n / 10 + 48) ((n % 10 + 48) ∷ []) (omega arith)
                (omega (arith, r.slots_le)) (omega (arith, r.slots_le)),
            parse_digits_step (0 * 10 + (n / 10 + 48 - 48)) (n % 10 + 48) [] (omega arith)
                (omega arith) (omega arith),
          )
          (parse_digits_end _ n (omega arith) lt)
  ]

  -- A slot's name is read as a number exactly if it is the decimal numeral, with no leading zero,
  -- of a slot in range: these and no other names are accepted.
  pub parse_slot_iff :
      (name : List ℕ) (n : ℕ)
      → (parse_slot c (some name) ≡ ok n) ↔ ((n < c.slot_count) × (name ≡ decimal n))
  parse_slot_iff name n = (parse_slot_sound name n, λ p. rw p.1 (parse_slot_complete n p.0))
