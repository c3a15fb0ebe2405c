-- ===== src/Base/Buffer.antt =====
-- C byte buffers of fixed size: `memcpy` into one at an offset, and clearing one.
use Prim.Native.Nat.{ℕ, zero, suc, ◌+◌, ◌≤◌, ◌<◌}
use mathlib.Core.Path.{◌≡◌, refl, ap, ◌∙◌}
use mathlib.Core.List.{List, [], ◌∷◌, ◌++◌}
use native.Mathlib.Omega.{arith}
use zmk_module_runtime_macro.Base.Lists.{length-take_of_le, length, get_or, take, replicate}

-- The buffer after `memcpy(buffer + offset, bytes, length of bytes)`. A byte that would land past
-- the end is dropped; the callers' bounds rule that out.
abbrev pub write_at : ℕ → List ℕ → List ℕ → List ℕ
write_at offset bytes [] = []
write_at (suc o) bytes (b ∷ buffer) = b ∷ write_at o bytes buffer
write_at zero [] (b ∷ buffer) = b ∷ buffer
write_at zero (x ∷ bytes) (b ∷ buffer) = x ∷ write_at zero bytes buffer

-- A buffer of `n` zero bytes.
abbrev pub zeros : ℕ → List ℕ
zeros n = replicate n 0

pub length-write_at : (o : ℕ) (bs buf : List ℕ) → length (write_at o bs buf) ≡ length buf
length-write_at zero bs [] = refl
length-write_at (suc o) bs [] = refl
length-write_at (suc o) bs (b ∷ buf) = ap suc (length-write_at o bs buf)
length-write_at zero [] (b ∷ buf) = refl
length-write_at zero (x ∷ bs) (b ∷ buf) = ap suc (length-write_at zero bs buf)

-- Appending in place: the first `o` bytes stay, and the new bytes follow them.
pub take-write_at :
    (o : ℕ) (bs buf : List ℕ)
    → o + length bs ≤ length buf
    → take (o + length bs) (write_at o bs buf) ≡ take o buf ++ bs
take-write_at zero [] [] h = refl
take-write_at zero [] (b ∷ buf) h = refl
take-write_at zero (x ∷ bs) [] h = absurd (omega arith)
take-write_at zero (x ∷ bs) (b ∷ buf) h =
    rw (from_zero (suc (length bs)))
      (ap (◌∷◌ x) (rw (from_zero (length bs)) at (take-write_at zero bs buf (omega arith))))
  where
    from_zero : (n : ℕ) → 0 + n ≡ n
    from_zero n = omega arith
take-write_at (suc o) bs [] h = absurd (omega arith)
take-write_at (suc o) bs (b ∷ buf) h =
    rw (shift o (length bs)) (ap (◌∷◌ b) (take-write_at o bs buf (omega arith)))
  where
    shift : (m n : ℕ) → suc m + n ≡ suc (m + n)
    shift m n = omega arith

-- A byte before the written range stays.
pub get_or-write_at_below :
    (o i : ℕ) (bs buf : List ℕ) → i < o → get_or (write_at o bs buf) i 0 ≡ get_or buf i 0
get_or-write_at_below zero i bs buf h = elim h [ ]
get_or-write_at_below (suc o) i bs [] h = refl
get_or-write_at_below (suc o) zero bs (b ∷ buf) h = refl
get_or-write_at_below (suc o) (suc i) bs (b ∷ buf) h =
    get_or-write_at_below o i bs buf (omega arith)

-- The first byte written can be read back.
pub get_or-write_at_self :
    (o x : ℕ) (buf : List ℕ) → o < length buf → get_or (write_at o (x ∷ []) buf) o 0 ≡ x
get_or-write_at_self zero x [] h = elim h [ ]
get_or-write_at_self zero x (b ∷ buf) h = refl
get_or-write_at_self (suc o) x [] h = elim h [ ]
get_or-write_at_self (suc o) x (b ∷ buf) h = get_or-write_at_self o x buf (omega arith)

-- The bytes before an offset survive a write at it.
pub take-write_at_below :
    (n o : ℕ) (bs buf : List ℕ) → n ≤ o → take n (write_at o bs buf) ≡ take n buf
take-write_at_below zero o bs buf h = refl
take-write_at_below (suc n) zero bs buf h = elim h [ ]
take-write_at_below (suc n) (suc o) bs [] h = refl
take-write_at_below (suc n) (suc o) bs (b ∷ buf) h =
    ap (◌∷◌ b) (take-write_at_below n o bs buf (omega arith))

-- A NUL at an index can be read back, and so can a text that was copied in front of it.
pub get_or-write_at_nul :
    (o : ℕ) (buf : List ℕ) → o < length buf → get_or (write_at o (0 ∷ []) buf) o 1 ≡ 0
get_or-write_at_nul zero [] h = elim h [ ]
get_or-write_at_nul zero (b ∷ buf) h = refl
get_or-write_at_nul (suc o) [] h = elim h [ ]
get_or-write_at_nul (suc o) (b ∷ buf) h = get_or-write_at_nul o buf (omega arith)

pub take-write_at_nul :
    (bytes : List ℕ) (n : ℕ) (buf : List ℕ)
    → n ≤ length bytes
    → n < length buf
    → take n (write_at n (0 ∷ []) (write_at 0 (take n bytes) buf)) ≡ take n bytes
take-write_at_nul bytes n buf h k =
    take-write_at_below n n (0 ∷ []) (write_at 0 (take n bytes) buf) (omega arith)
    ∙ ap (λ m. take m (write_at 0 (take n bytes) buf)) (omega (arith, sized))
    ∙ take-write_at 0 (take n bytes) buf (omega (arith, sized))
  where
    sized : length (take n bytes) ≡ n
    sized = length-take_of_le n bytes h
