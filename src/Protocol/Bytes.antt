-- ===== src/Protocol/Bytes.antt =====
-- The bytes of a frame: what is written is what is read.
use zmk_module_runtime_macro.Base.{
  ℕ, ◌+◌, ◌*◌, ◌/◌, ◌%◌, ◌^◌, ◌<◌, ◌≡◌, refl, sym, ap, ◌∙◌, ◌↔◌, List, ◌∷◌, arith, length, take,
  take-length, All,
}
use zmk_module_runtime_macro.Protocol.Frame.{
  Frame, frame_size, payload_size, get_u16, put_u16, frame_of, bytes_of_frame,
}

-- A frame whose numbers fit the bytes that they have.
pub record IsEncodable (f : Frame) : Type 0 where
  pub offset_le : f.offset < 2 ^ 16
  pub total_le : f.total_length < 2 ^ 16
  pub whole : length f.payload ≡ payload_size

-- 32 bytes.
abbrev pub IsFrame : List ℕ → Type 0
IsFrame bytes = (length bytes ≡ frame_size) × All (λ b. b < 2 ^ 8) bytes

joined_u16 : (value : ℕ) → value < 2 ^ 16 → value % 2 ^ 8 + value / 2 ^ 8 % 2 ^ 8 * 2 ^ 8 ≡ value
joined_u16 value h = omega arith

low_of : (a b : ℕ) → a < 2 ^ 8 → (a + b * 2 ^ 8) % 2 ^ 8 ≡ a
low_of a b h = omega arith

high_of : (a b : ℕ) → a < 2 ^ 8 → b < 2 ^ 8 → (a + b * 2 ^ 8) / 2 ^ 8 % 2 ^ 8 ≡ b
high_of a b ha hb = omega arith

frame_of-bytes_of_frame : (f : Frame) → IsEncodable f → frame_of (bytes_of_frame f) ≡ f
unfolding frame_of bytes_of_frame get_u16 put_u16
frame_of-bytes_of_frame f h =
    rw (joined_u16 f.offset h.offset_le, joined_u16 f.total_length h.total_le, kept) refl
  where
    kept : take payload_size f.payload ≡ f.payload
    kept = ap (λ n. take n f.payload) (sym h.whole) ∙ take-length f.payload

bytes_of_frame-frame_of : (bytes : List ℕ) → IsFrame bytes → bytes_of_frame (frame_of bytes) ≡ bytes
unfolding frame_of bytes_of_frame get_u16 put_u16
bytes_of_frame-frame_of (b0 ∷ b1 ∷ b2 ∷ b3 ∷ b4 ∷ b5 ∷ b6 ∷ b7 ∷ b8 ∷ b9 ∷ payload) h =
    let words = h.1.1.1.1.1.1.1 in
    rw
      (
        low_of b6 b7 words.0,
        high_of b6 b7 words.0 words.1.0,
        low_of b8 b9 words.1.1.0,
        high_of b8 b9 words.1.1.0 words.1.1.1.0,
        kept,
      )
      refl
  where
    whole : payload_size ≡ length payload
    whole = omega (arith, h.0)

    kept : take payload_size payload ≡ payload
    kept = ap (λ n. take n payload) whole ∙ take-length payload
bytes_of_frame-frame_of bytes h = absurd (omega (arith, h.0))

-- 32 bytes are the encoding of a frame whose numbers fit the bytes that they have, and whose payload
-- has 22 bytes, exactly if the frame is what is read from them.
pub bytes_of_frame_iff :
    (f : Frame) (bytes : List ℕ)
    → IsEncodable f
    → IsFrame bytes
    → (bytes_of_frame f ≡ bytes) ↔ (frame_of bytes ≡ f)
bytes_of_frame_iff f bytes hf hb = (
  λ e. ap frame_of (sym e) ∙ frame_of-bytes_of_frame f hf,
  λ e. ap bytes_of_frame (sym e) ∙ bytes_of_frame-frame_of bytes hb,
)
