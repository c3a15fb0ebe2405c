-- ===== src/Protocol/RoundTrip.antt =====
-- A client that writes a text with SET frames and reads it with GET frames.
use zmk_module_runtime_macro.Base.{
  ℕ, ◌+◌, ◌*◌, ◌≤◌, ◌≡◌, refl, ap, ◌∙◌, true, some, List, [], ◌∷◌, arith, ◌==◌, if◌then◌else◌,
  ==_false, ==_iff, length, take, length-take_of_le, take-length, take_beyond, All,
}
use zmk_module_runtime_macro.Config.{Config}
use zmk_module_runtime_macro.Slots.{Slots, bytes_are_valid, slot_set}
use zmk_module_runtime_macro.Slots.Invariant.{IsValid, contents, slot_set_stores}
use zmk_module_runtime_macro.Protocol.Frame.{Frame, payload_size}
use zmk_module_runtime_macro.Protocol.State.{Core, Env}
use zmk_module_runtime_macro.Protocol.Set.{Fits}
use zmk_module_runtime_macro.Protocol.Serve.{serve, Attended}
use zmk_module_runtime_macro.Protocol.Upload.{
  Chunks, joined, envs_of, set_frames, Stored, bytes_are_valid-append, set_frames-slot_set,
}
use zmk_module_runtime_macro.Protocol.Download.{bodies, get_frames, reads_from}

joined-valid : (items : Chunks) → All Stored items → bytes_are_valid (joined items) ≡ true
unfolding joined
joined-valid [] h = unfold bytes_are_valid in refl
joined-valid ((env, chunk) ∷ rest) h =
    bytes_are_valid-append chunk (joined rest) h.0.0.mapped (joined-valid rest h.1)

module _ (c : Config) (id slot : ℕ) (env : Env) (chunk : List ℕ) (items : Chunks) (k : Core)
    (s : Slots) where
  -- The text, and what is left when its frames are served.
  abbrev pub uploaded_text : List ℕ
  uploaded_text = joined ((env, chunk) ∷ items)

  abbrev pub after_upload : List Frame × Core × Slots
  after_upload = serve c (set_frames id slot (length uploaded_text) 0 ((env, chunk) ∷ items)) k s

  -- A text that was uploaded with SET frames, under the conditions of the upload, is read back by GET
  -- frames for offset 0, 22, 44 and so on up to its end, while access lasts: all responses are OK, and
  -- their payloads one after the other are the text. Other slots keep their texts.
  pub set_frames-get_frames :
      (envs : List Env) (id' : ℕ)
      → IsValid c s
      → Fits c slot (length uploaded_text)
      → All Stored ((env, chunk) ∷ items)
      → Attended c (envs_of ((env, chunk) ∷ items)) k.auth
      → length uploaded_text ≤ payload_size * length envs
      → payload_size * length envs ≤ length uploaded_text + payload_size
      → Attended c envs after_upload.1.auth
      → let r = serve c (get_frames id' slot 0 envs) after_upload.1 after_upload.2 in
        All (λ (f : Frame). f.status ≡ 0) r.0
        × (bodies r.0 ≡ uploaded_text)
        × ((j : ℕ) → ¬ (slot ≡ j) → contents after_upload.2 j ≡ contents s j)
  set_frames-get_frames envs id' valid fits ready live enough no_more live' = (
    read.0,
    read.1 ∙ ap (take (payload_size * length envs)) held ∙ take_beyond _ uploaded_text enough,
    (λ j away. texts j ∙ rw (==_false slot j away)),
  )
    where
      mapped : bytes_are_valid (take (length uploaded_text) uploaded_text) ≡ true
      mapped =
          ap bytes_are_valid (take-length uploaded_text) ∙ joined-valid ((env, chunk) ∷ items) ready

      stored :
          after_upload.2 ≡ (slot_set c env.io slot (some uploaded_text) (length uploaded_text) s).2
      stored = (set_frames-slot_set c id slot env chunk items k s fits ready live).1 env.io

      at_most : length uploaded_text ≤ length uploaded_text
      at_most = omega arith

      now_valid : IsValid c after_upload.2
      now_valid =
          rw stored
            (slot_set_stores c env.io slot uploaded_text (length uploaded_text) s valid
              fits.slot_below at_most fits.total_le mapped).3

      texts :
          (j : ℕ)
          → contents after_upload.2 j
            ≡ (if slot == j then take (length uploaded_text) uploaded_text else contents s j)
      texts j = rw stored (
          (slot_set_stores c env.io slot uploaded_text (length uploaded_text) s valid
              fits.slot_below at_most fits.total_le mapped).2
            j)

      held : contents after_upload.2 slot ≡ uploaded_text
      held = texts slot ∙ rw ((==_iff slot slot).1 refl) (take-length uploaded_text)

      sized : after_upload.2.size slot ≡ length uploaded_text
      sized =
          unfold contents in
          omega (
            arith,
            ap length held,
            length-take_of_le (after_upload.2.size slot) (after_upload.2.text slot) (
                omega (
                  arith,
                  (now_valid.slot slot fits.slot_below).full,
                  (now_valid.slot slot fits.slot_below).fits,
                )),
          )

      read :
          All
            (λ (f : Frame). f.status ≡ 0)
            (serve c (get_frames id' slot 0 envs) after_upload.1 after_upload.2).0
          × (bodies (serve c (get_frames id' slot 0 envs) after_upload.1 after_upload.2).0
              ≡ take (payload_size * length envs) (contents after_upload.2 slot))
          × ((serve c (get_frames id' slot 0 envs) after_upload.1 after_upload.2).2
              ≡ after_upload.2)
      read =
          reads_from c after_upload.2 now_valid slot fits.slot_below fits.text_le envs id' 0
            after_upload.1 (omega (arith, sized, no_more)) live'
