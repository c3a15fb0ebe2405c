-- ===== src/Ascii/Alphabet.antt =====
-- The alphabet of runtime_macro_ascii.c: which bytes have a keycode, and what the keycodes are.
use zmk_module_runtime_macro.Base.{
  ℕ, ◌^◌, ◌/◌, ◌%◌, ◌≤◌, ◌<◌, ◌≡◌, refl, sym, ◌∙◌, ◌⊎◌, inl, inr, Bool, true, false, ◌&&◌, ◌||◌,
  List, [], ◌∷◌, arith, if◌then◌else◌, ltb, leb, ◌==◌, all_below, all_below_sound, Bool-cases,
  ltb→lt, ==_iff,
}
use zmk_module_runtime_macro.Config.{Result, ok, err, einval}
use zmk_module_runtime_macro.Ascii.{ascii_to_keycode, entries}

-- Whether the C call returns 0.
abbrev pub accepts : Result ℕ → Bool
accepts (ok e) = true
accepts (err e) = false

-- The alphabet that the header documents: printable ASCII, LF, Tab and Backspace.
abbrev pub in_alphabet : ℕ → Bool
in_alphabet b = b == 8 || b == 9 || b == 10 || (leb 32 b && leb b 126)

abbrev same : Bool → Bool → Bool
same true x = x
same false true = false
same false false = true

same→eq : (x y : Bool) → same x y ≡ true → x ≡ y
same→eq x y h = ground arith

alphabet_table : all_below 128 (λ b. same (accepts (ascii_to_keycode b)) (in_alphabet b)) ≡ true
unfolding ascii_to_keycode
alphabet_table = refl

pub ascii_to_keycode_high : (b : ℕ) → 128 ≤ b → ascii_to_keycode b ≡ err einval
unfolding ascii_to_keycode
ascii_to_keycode_high b h = ground arith

-- A byte has a keycode exactly when it is printable ASCII, LF, Tab or Backspace.
pub accepts-ascii_to_keycode : (b : ℕ) → accepts (ascii_to_keycode b) ≡ in_alphabet b
accepts-ascii_to_keycode b = elim (Bool-cases (ltb b 128)) [
  | inl low ↦ same→eq _ _ (
      all_below_sound 128 (λ x. same (accepts (ascii_to_keycode x)) (in_alphabet x)) b
        alphabet_table (ltb→lt b 128 low))
  | inr high ↦ rw (ascii_to_keycode_high b (ground arith)) (ground arith)
]

-- The byte of a keycode, by a search through the entries of the map.
abbrev byte_of : List (ℕ × ℕ) → ℕ → ℕ
byte_of [] e = 0
byte_of ((k, v) ∷ m) e = if v == e then k else byte_of m e

abbrev inverts : ℕ → Result ℕ → Bool
inverts b (ok e) = byte_of entries e == b
inverts b (err e) = true

inverse_table : all_below 128 (λ b. inverts b (ascii_to_keycode b)) ≡ true
unfolding ascii_to_keycode
inverse_table = refl

ok_below : (b e : ℕ) → ascii_to_keycode b ≡ ok e → b < 128
ok_below b e h = elim (Bool-cases (ltb b 128)) [
  | inl low ↦ ltb→lt b 128 low
  | inr high ↦ absurd (cc (ascii_to_keycode_high b (ground arith)))
]

byte_of_keycode : (b e : ℕ) → ascii_to_keycode b ≡ ok e → byte_of entries e ≡ b
byte_of_keycode b e h = (==_iff _ b).0 (
    rw h at
      (all_below_sound 128 (λ x. inverts x (ascii_to_keycode x)) b inverse_table (ok_below b e h)))

-- No two bytes share a keycode, so the text can be told from the keys that are sent.
pub ascii_to_keycode-injective :
    (a b e : ℕ) → ascii_to_keycode a ≡ ok e → ascii_to_keycode b ≡ ok e → a ≡ b
ascii_to_keycode-injective a b e p q = sym (byte_of_keycode a e p) ∙ byte_of_keycode b e q

-- On the keyboard page with a usage, and no modifier but the left shift.
abbrev pub well_formed : ℕ → Bool
well_formed e =
    e / 2 ^ 16 % 2 ^ 8 == 7 && ltb 0 (e % 2 ^ 16) && (e / 2 ^ 24 == 0 || e / 2 ^ 24 == 2)

abbrev keycode_ok : Result ℕ → Bool
keycode_ok (ok e) = well_formed e
keycode_ok (err e) = true

keycode_table : all_below 128 (λ b. keycode_ok (ascii_to_keycode b)) ≡ true
unfolding ascii_to_keycode
keycode_table = refl

-- Each keycode is a usage other than 0 on page 7, with the left shift or no modifier.
pub ascii_to_keycode-well_formed :
    (b e : ℕ)
    → ascii_to_keycode b ≡ ok e
    → (e / 2 ^ 16 % 2 ^ 8 ≡ 7) × (0 < e % 2 ^ 16) × ((e / 2 ^ 24 ≡ 0) ⊎ (e / 2 ^ 24 ≡ 2))
ascii_to_keycode-well_formed b e h = parts e (
    rw h at
      (all_below_sound 128 (λ x. keycode_ok (ascii_to_keycode x)) b keycode_table (ok_below b e h)))
  where
    parts :
        (e : ℕ)
        → well_formed e ≡ true
        → (e / 2 ^ 16 % 2 ^ 8 ≡ 7) × (0 < e % 2 ^ 16) × ((e / 2 ^ 24 ≡ 0) ⊎ (e / 2 ^ 24 ≡ 2))
    parts e h = ground arith
