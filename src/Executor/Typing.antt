-- ===== src/Executor/Typing.antt =====
-- A text of one or more bytes that starts, and that the work queue never refuses, is typed in full.
use zmk_module_runtime_macro.Base.{
  ℕ, zero, suc, ◌+◌, ◌≤◌, ◌<◌, ◌≡◌, refl, ap, ◌∙◌, true, false, Option, some, List, [], ◌∷◌, ◌++◌,
  arith, le→leb, leb-false, length, get_or, take, take-length, All, write_at, get_or-write_at_below,
}
use zmk_module_runtime_macro.Config.{Config, executor_max_text_len, ok, Status, done}
use zmk_module_runtime_macro.Ascii.{ascii_to_keycode}
use zmk_module_runtime_macro.Executor.{
  press, Executor, KeyEvent, taken, next_key, work_handler, start, idle, Event, starts, works, step,
  run,
}
use zmk_module_runtime_macro.Executor.Invariant.{IsValid}

-- A character of a text, with the times at which the work item presses and releases its key.
pub record Stroke : Type 0 where
  pub byte : ℕ
  pub keycode : ℕ
  pub pressed_at : ℕ
  pub released_at : ℕ

-- The bytes of a text, the work items that type it, and the key events that it stands for.
abbrev pub bytes_of : List Stroke → List ℕ
bytes_of [] = []
bytes_of (k ∷ ks) = k.byte ∷ bytes_of ks

abbrev pub works_of : (c : Config) → List Stroke → List (Event c)
works_of c [] = []
works_of c (k ∷ ks) = works k.pressed_at taken ∷ works k.released_at taken ∷ works_of c ks

abbrev pub keys_of : List Stroke → List KeyEvent
keys_of [] = []
keys_of (k ∷ ks) =
    record { encoded = k.keycode; pressed = true; timestamp = k.pressed_at }
    ∷ record { encoded = k.keycode; pressed = false; timestamp = k.released_at }
    ∷ keys_of ks

-- Each byte has the keycode that the stroke names.
abbrev pub Mapped : List Stroke → Type 0
Mapped = All (λ k. ascii_to_keycode k.byte ≡ ok k.keycode)

-- The buffer holds the bytes from an index on.
abbrev Holds : List ℕ → ℕ → List ℕ → Type 0
Holds t i [] = Unit
Holds t i (b ∷ bs) = (get_or t i 0 ≡ b) × Holds t (i + 1) bs

Holds-suffix :
    (t : List ℕ) (i : ℕ) (bs : List ℕ)
    → ((j : ℕ) → j < length bs → get_or t (i + j) 0 ≡ get_or bs j 0)
    → Holds t i bs
Holds-suffix t i [] h = tt
Holds-suffix t i (b ∷ bs) h = (
  ap (λ k. get_or t k 0) (omega arith) ∙ h 0 (omega arith),
  Holds-suffix t (i + 1) bs
      (λ j lt. ap (λ k. get_or t k 0) (omega arith) ∙ h (suc j) (omega arith)),
)

get_or-write_at_start :
    (bs buf : List ℕ) (j : ℕ)
    → length bs ≤ length buf
    → j < length bs
    → get_or (write_at 0 bs buf) j 0 ≡ get_or bs j 0
get_or-write_at_start [] buf j h lt = elim lt [ ]
get_or-write_at_start (b ∷ bs) [] j h lt = elim h [ ]
get_or-write_at_start (b ∷ bs) (x ∷ buf) zero h lt = refl
get_or-write_at_start (b ∷ bs) (x ∷ buf) (suc j) h lt =
    get_or-write_at_start bs buf j (omega arith) (omega arith)

snapshot-Holds :
    (bs buf : List ℕ)
    → length bs < length buf
    → Holds (write_at (length bs) (0 ∷ []) (write_at 0 (take (length bs) bs) buf)) 0 bs
snapshot-Holds bs buf h = rw (take-length bs) (
    Holds-suffix _ 0 bs (λ j lt.
      ap (λ k. get_or (write_at (length bs) (0 ∷ []) (write_at 0 bs buf)) k 0) (omega arith)
      ∙ get_or-write_at_below (length bs) j (0 ∷ []) (write_at 0 bs buf) lt
      ∙ get_or-write_at_start bs buf j (omega arith) lt))

module _ (c : Config) where
  -- The executor at the start of a character.
  abbrev ready : List ℕ → ℕ → ℕ → ℕ → Option ℕ → Executor
  ready t n i e d = record {
    text = t;
    length = n;
    index = i;
    encoded = e;
    phase = press;
    busy = true;
    scheduled = d;
  }

  stroke_more :
      (k : Stroke) (es : List (Event c)) (t : List ℕ) (n i e : ℕ) (d : Option ℕ)
      → get_or t i 0 ≡ k.byte
      → ascii_to_keycode k.byte ≡ ok k.keycode
      → i + 1 < n
      → let rest = run c es (ready t n (i + 1) k.keycode (some c.wait_ms)) in
        run c (works k.pressed_at taken ∷ works k.released_at taken ∷ es) (ready t n i e d)
        ≡ (keys_of (k ∷ []) ++ rest.0, rest.1)
  unfolding run step work_handler next_key
  stroke_more k es t n i e d g m lt = rw (g, m, leb-false n (i + 1) lt)

  stroke_last :
      (k : Stroke) (t : List ℕ) (n i e : ℕ) (d : Option ℕ)
      → get_or t i 0 ≡ k.byte
      → ascii_to_keycode k.byte ≡ ok k.keycode
      → n ≤ i + 1
      → run c (works k.pressed_at taken ∷ works k.released_at taken ∷ []) (ready t n i e d)
        ≡ (keys_of (k ∷ []), idle c)
  unfolding run step work_handler idle
  stroke_last k t n i e d g m le = rw (g, m, le→leb n (i + 1) le)

  strokes :
      (k : Stroke) (ks : List Stroke) (t : List ℕ) (n i e : ℕ) (d : Option ℕ)
      → Holds t i (bytes_of (k ∷ ks))
      → Mapped (k ∷ ks)
      → n ≡ i + length (bytes_of (k ∷ ks))
      → run c (works_of c (k ∷ ks)) (ready t n i e d) ≡ (keys_of (k ∷ ks), idle c)
  strokes k [] t n i e d h m eq = stroke_last k t n i e d h.0 m.0 (omega arith)
  strokes k (k' ∷ ks) t n i e d h m eq =
      stroke_more k (works_of c (k' ∷ ks)) t n i e d h.0 m.0 (omega arith)
      ∙ ap (λ (r : List KeyEvent × Executor). (keys_of (k ∷ []) ++ r.0, r.1))
          (strokes k' ks t n (i + 1) k.keycode (some c.wait_ms) h.1 m.1 (omega arith))

  start_text :
      (b : ℕ) (bs : List ℕ) (x : Executor)
      → IsValid c x
      → x.busy ≡ false
      → length (b ∷ bs) ≤ executor_max_text_len c
      → start c (some (b ∷ bs)) (length (b ∷ bs)) taken x ≡ (
        done,
        ready
            (write_at
              (length (b ∷ bs))
              (0 ∷ [])
              (write_at 0 (take (length (b ∷ bs)) (b ∷ bs)) x.text))
            (length (b ∷ bs))
            0
            x.encoded
            (some 0),
      )
  unfolding start
  start_text b bs x v off fits = ground arith

  -- Provided that the work queue takes every request, an idle executor that is given a text of one or
  -- more mapped bytes within its capacity presses and releases the key of each byte in order, at the
  -- times at which its work item runs, and is then idle again with its buffer wiped.
  pub run-types_text :
      (k : Stroke) (ks : List Stroke) (x : Executor)
      → IsValid c x
      → x.busy ≡ false
      → length (bytes_of (k ∷ ks)) ≤ executor_max_text_len c
      → Mapped (k ∷ ks)
      → run c
          (starts (some (bytes_of (k ∷ ks))) (length (bytes_of (k ∷ ks))) taken
            ∷ works_of c (k ∷ ks))
          x
        ≡ (keys_of (k ∷ ks), idle c)
  run-types_text k ks x v off fits m =
      first ∙ strokes k ks _ _ 0 x.encoded (some 0) holds m (omega arith)
    where
      bs : List ℕ
      bs = bytes_of (k ∷ ks)

      buffer : List ℕ
      buffer = write_at (length bs) (0 ∷ []) (write_at 0 (take (length bs) bs) x.text)

      holds : Holds buffer 0 bs
      holds = snapshot-Holds bs x.text (omega (arith, v.size))

      first :
          run c (starts (some bs) (length bs) taken ∷ works_of c (k ∷ ks)) x
          ≡ run c (works_of c (k ∷ ks)) (ready buffer (length bs) 0 x.encoded (some 0))
      first =
          unfold run step in
          ap (λ (r : Status × Executor). run c (works_of c (k ∷ ks)) r.1)
            (start_text k.byte (bytes_of ks) x v off fits)
