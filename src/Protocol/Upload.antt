-- ===== src/Protocol/Upload.antt =====
-- A text that a client uploads with SET frames, through zmk_runtime_macro_protocol_process.
mod Steps
pub use zmk_module_runtime_macro.Protocol.Upload.Steps.{Chunks, Stored, bytes_are_valid-append}
unfoldable pub use zmk_module_runtime_macro.Protocol.Upload.Steps.{joined, set_frames, envs_of}
use zmk_module_runtime_macro.Protocol.Upload.Steps.{
  Receiving, taken_in, taken_in-Receiving, Uploaded, last_chunk, earlier_chunk, later_times,
  next-SameNotes, first-SameNotes, SameNotes,
}
use zmk_module_runtime_macro.Base.{
  ℕ, ◌+◌, ◌≤◌, ◌<◌, ◌≡◌, refl, sym, ap, ◌∙◌, inl, inr, true, not, ◌||◌, some, List, [], ◌∷◌, ◌++◌,
  append-nil, append_assoc, arith, ltb, lt→ltb, ltb-false, Bool-cases, length, take, length-append,
  take-length, All,
}
use zmk_module_runtime_macro.Config.{Config, done}
use mathlib.Core.Path.{subst}
use zmk_module_runtime_macro.Slots.{
  Slots, Backend, bytes_are_valid, text_is_valid, slot_is_valid, slot_set,
}
use zmk_module_runtime_macro.Auth.State.{
  AuthState, state_open, state_protected, state_error_locked, Auth,
}
use zmk_module_runtime_macro.Protocol.Frame.{Frame, init_response, set_success, status_code}
use zmk_module_runtime_macro.Protocol.State.{Protocol, Core, Env, state_code, clear_set}
use zmk_module_runtime_macro.Protocol.Macros.{
  process_set, after_chunk, commit_response, first_chunk, later_chunk,
}
use zmk_module_runtime_macro.Protocol.Dispatch.{process_frame}
use zmk_module_runtime_macro.Protocol.Access.{note_auth-auth}
use zmk_module_runtime_macro.Protocol.Session.{
  Live, extended, Noted, note_auth-Noted, note_auth-notes,
}
use zmk_module_runtime_macro.Protocol.Set.{
  set_frame, IsChunk, Staged, Fits, first_chunk-Staged, later_chunk-Staged, process_set-first,
  process_set-next,
}
use zmk_module_runtime_macro.Protocol.Serve.{serve, Attended, noted_core}
use zmk_module_runtime_macro.Protocol.Set.Step.{process_frame_incomplete, process_frame_complete}

module _ (c : Config) (id slot total : ℕ) where
  -- Where a chunk goes: the transaction that it leaves, and the text that this has received.
  record Goes (env : Env) (chunk : List ℕ) (offset : ℕ) (text : List ℕ) (p : Protocol) (k : Core)
      (s : Slots) : Type 0 where
    staged : Staged c id slot total text p
    mapped : bytes_are_valid text ≡ true
    same : SameNotes (noted_core c env.now k).protocol p
    up_to : offset + length chunk ≡ length text
    handled :
        process_set c env.io
          (set_frame id slot total offset chunk)
          (init_response (set_frame id slot total offset chunk))
          (noted_core c env.now k).protocol
          s
        ≡ after_chunk c env.io (init_response (set_frame id slot total offset chunk)) p s

  received_some :
      (offset : ℕ) (chunk text : List ℕ)
      → 1 ≤ length chunk
      → offset + length chunk ≡ length text
      → 1 ≤ length text
  received_some offset chunk text some_bytes e = omega arith

  -- The chunk that follows a chunk.
  followed_by :
      Fits c slot total
      → (env env' : Env) (chunk chunk' : List ℕ) (offset : ℕ) (text : List ℕ) (p : Protocol)
        (k : Core) (s : Slots)
      → IsChunk chunk
      → IsChunk chunk'
      → length text + length chunk' ≤ total
      → Goes env chunk offset text p k s
      → (p' : Protocol) × Goes env' chunk'
          (length text)
          (text ++ chunk')
          p'
          (taken_in c id slot total env.now (noted_core c env.now k) p)
          s
  followed_by fits env env' chunk chunk' offset text p k s ready ready' le g = (
    later_chunk (set_frame id slot total (length text) chunk') now_noted.protocol,
    record {
      staged = later_chunk-Staged c id slot total text chunk' now_noted.protocol le fits staged;
      mapped = bytes_are_valid-append text chunk' g.mapped ready'.mapped;
      same = next-SameNotes c id slot total (length text) chunk' now_noted.protocol;
      up_to = sym (length-append text chunk');
      handled =
          process_set-next c id slot total env'.io _ s text chunk' now_noted.protocol ready'
            (received_some offset chunk text ready.some_bytes g.up_to) le fits staged;
    },
  )
    where
      k' : Core
      k' = taken_in c id slot total env.now (noted_core c env.now k) p

      now_noted : Core
      now_noted = noted_core c env'.now k'

      left : Receiving c id slot total text k'
      left =
          taken_in-Receiving c id slot total env.now _ p text (note_auth-notes c env.now k) g.same
            g.staged (received_some offset chunk text ready.some_bytes g.up_to) g.mapped

      staged : Staged c id slot total text now_noted.protocol
      staged =
          subst (λ (x : Core). Staged c id slot total text x.protocol)
            (sym (note_auth-Noted c env'.now k' left.noted)) left.staged

  -- The chunks from one on.
  uploads_from :
      Fits c slot total
      → (items : Chunks) (env : Env) (chunk : List ℕ) (offset : ℕ) (text whole : List ℕ)
        (p : Protocol) (k : Core) (s : Slots)
      → All Stored ((env, chunk) ∷ items)
      → Attended c (envs_of ((env, chunk) ∷ items)) k.auth
      → Goes env chunk offset text p k s
      → text ++ joined items ≡ whole
      → length whole ≡ total
      → Uploaded c id slot total whole s
          (serve c (set_frames id slot total offset ((env, chunk) ∷ items)) k s)
  unfolding Attended envs_of joined set_frames
  uploads_from fits [] env chunk offset text whole p k s ready live g w full =
      let e : text ≡ whole = sym (append-nil text) ∙ w in
      rw⁻¹ e (
        last_chunk c id slot total fits env chunk ready.0 offset text p k s live.0 g.staged g.mapped
          (ap length e ∙ full) g.handled)
  uploads_from fits ((env', chunk') ∷ items) env chunk offset text whole p k s ready live g w full =
      earlier_chunk c id slot total fits env chunk ready.0 offset text whole p k s _ live.0 g.staged
        short g.handled
        (rw g.up_to (
          uploads_from fits items env' chunk' (length text) (text ++ chunk') whole next.0 _ s
            ready.1
            (later_times c id slot total env.now k p (envs_of ((env', chunk') ∷ items)) live.1)
            next.1 (append_assoc text chunk' (joined items) ∙ w) full))
    where
      counted : length text + (length chunk' + length (joined items)) ≡ total
      counted = omega (
        arith,
        length-append text (chunk' ++ joined items),
        length-append chunk' (joined items),
        ap length w,
        full,
      )

      short : length text < total
      short = omega (arith, counted, ready.1.0.0.some_bytes)

      next :
          (p' : Protocol) × Goes env' chunk'
            (length text)
            (text ++ chunk')
            p'
            (taken_in c id slot total env.now (noted_core c env.now k) p)
            s
      next =
          followed_by fits env env' chunk chunk' offset text p k s ready.0.0 ready.1.0.0
            (omega (arith, counted)) g

-- A text of the ASCII map that fits the slots, sent in SET frames of 1 to 22 bytes, one after the
-- other with the same request id and slot, while access lasts and the settings library stores what
-- it is given: every response is OK, and the slots afterwards are those of one zmk_runtime_macro_slot_set
-- of the whole text, whatever the context and the slots held before.
pub set_frames-slot_set :
    (c : Config) (id slot : ℕ) (env : Env) (chunk : List ℕ) (items : Chunks) (k : Core) (s : Slots)
    → Fits c slot (length (joined ((env, chunk) ∷ items)))
    → All Stored ((env, chunk) ∷ items)
    → Attended c (envs_of ((env, chunk) ∷ items)) k.auth
    → All
        (λ (f : Frame). f.status ≡ 0)
        (serve c
          (set_frames id slot (length (joined ((env, chunk) ∷ items))) 0 ((env, chunk) ∷ items))
          k
          s).0
      × ((io : Backend)
          → (serve c
              (set_frames id slot (length (joined ((env, chunk) ∷ items))) 0 ((env, chunk) ∷ items))
              k
              s).2
            ≡ (slot_set c io slot
                (some (joined ((env, chunk) ∷ items)))
                (length (joined ((env, chunk) ∷ items)))
                s).2)
set_frames-slot_set c id slot env chunk items k s fits ready live =
    uploads_from c id slot (length whole) fits items env chunk 0 chunk whole placed k s ready live
      (record {
        staged = first_chunk-Staged c id slot (length whole) chunk here.protocol short fits;
        mapped = ready.0.0.mapped;
        same = first-SameNotes c id slot (length whole) chunk here.protocol;
        up_to = omega arith;
        handled =
            process_set-first c id slot (length whole) env.io _ s chunk here.protocol ready.0.0
              short fits;
      })
      (unfold joined in refl) refl
  where
    whole : List ℕ
    whole = joined ((env, chunk) ∷ items)

    here : Core
    here = noted_core c env.now k

    placed : Protocol
    placed = first_chunk (set_frame id slot (length whole) 0 chunk) (clear_set c here.protocol)

    short : length chunk ≤ length whole
    short = unfold joined in omega (arith, length-append chunk (joined items))
