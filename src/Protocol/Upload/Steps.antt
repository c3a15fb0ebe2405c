-- ===== src/Protocol/Upload/Steps.antt =====
-- The frames of an upload one by one: the last chunk of a text, and a chunk with others behind it.
use zmk_module_runtime_macro.Base.{
  ℕ, ◌+◌, ◌≤◌, ◌<◌, ◌≡◌, refl, sym, ap, ◌∙◌, inl, inr, true, not, ◌||◌, some, List, [], ◌∷◌, ◌++◌,
  arith, ltb, lt→ltb, ltb-false, Bool-cases, length, take, take-length, All,
}
use zmk_module_runtime_macro.Config.{Config, done}
use zmk_module_runtime_macro.Slots.{
  Slots, Backend, bytes_are_valid, text_is_valid, slot_is_valid, slot_set,
}
use zmk_module_runtime_macro.Auth.State.{
  AuthState, state_open, state_protected, state_error_locked, Auth,
}
use zmk_module_runtime_macro.Protocol.Frame.{Frame, init_response, set_success, status_code}
use zmk_module_runtime_macro.Protocol.State.{Protocol, Core, Env, state_code, clear_set}
use zmk_module_runtime_macro.Protocol.Macros.{
  process_set, after_chunk, commit_response, first_chunk, later_chunk,
}
use zmk_module_runtime_macro.Protocol.Dispatch.{process_frame}
use zmk_module_runtime_macro.Protocol.Access.{note_auth-auth}
use zmk_module_runtime_macro.Protocol.Session.{Live, extended, Noted}
use zmk_module_runtime_macro.Protocol.Set.{set_frame, IsChunk, Staged, Fits}
use zmk_module_runtime_macro.Protocol.Serve.{serve, Attended, noted_core}
use zmk_module_runtime_macro.Protocol.Set.Step.{process_frame_incomplete, process_frame_complete}

-- The chunks of an upload, each with the circumstances of its frame, and the text that they make up.
abbrev pub Chunks : Type 0
Chunks = List (Env × List ℕ)

unfoldable pub joined : Chunks → List ℕ
joined [] = []
joined ((env, chunk) ∷ rest) = chunk ++ joined rest

-- The frames that carry them, in order.
unfoldable pub set_frames : ℕ → ℕ → ℕ → ℕ → Chunks → List (Env × Frame)
set_frames id slot total offset [] = []
set_frames id slot total offset ((env, chunk) ∷ rest) =
    (env, set_frame id slot total offset chunk)
    ∷ set_frames id slot total (offset + length chunk) rest

unfoldable pub envs_of : Chunks → List Env
envs_of [] = []
envs_of ((env, chunk) ∷ rest) = env ∷ envs_of rest

-- A chunk that a frame can carry, at a time when the settings library stores what it is given.
abbrev pub Stored : Env × List ℕ → Type 0
Stored x = IsChunk x.1 × ((name value : List ℕ) → x.0.io.save name value ≡ done)

-- Between two frames of an upload.
pub record Receiving (c : Config) (id slot total : ℕ) (text : List ℕ) (k : Core) : Type 0 where
  pub staged : Staged c id slot total text k.protocol
  pub noted : Noted k
  pub some_text : 1 ≤ length text
  pub mapped : bytes_are_valid text ≡ true

pub bytes_are_valid-append :
    (xs ys : List ℕ)
    → bytes_are_valid xs ≡ true
    → bytes_are_valid ys ≡ true
    → bytes_are_valid (xs ++ ys) ≡ true
unfolding bytes_are_valid
bytes_are_valid-append [] ys hx hy = hy
bytes_are_valid-append (x ∷ xs) ys hx hy = ground (arith, bytes_are_valid-append xs ys)

module _ (c : Config) (io : Backend) (slot : ℕ) (text : List ℕ) (total : ℕ) (s : Slots) where
  -- A text that fits is accepted, and what is stored does not depend on the settings library.
  slot_set-accepts :
      slot < c.slot_count
      → total ≤ c.max_text_len
      → length text ≡ total
      → bytes_are_valid text ≡ true
      → ((name value : List ℕ) → io.save name value ≡ done)
      → (slot_set c io slot (some text) total s).0 ≡ done
  unfolding slot_set text_is_valid
  slot_set-accepts slot_below total_le full mapped stores =
      rw
        (
          lt→ltb slot c.slot_count slot_below,
          ltb-false c.max_text_len total total_le,
          ap (λ n. take n text) (sym full) ∙ take-length text,
          mapped,
        )
        (stores _ _)

  slot_set-same :
      (io' : Backend)
      → (slot_set c io slot (some text) total s).2 ≡ (slot_set c io' slot (some text) total s).2
  unfolding slot_set
  slot_set-same io' =
      elim (Bool-cases (
        not (slot_is_valid c slot)
        || ltb c.max_text_len total
        || not (text_is_valid (some text) total))) [
          | inl refused ↦ rw refused
          | inr taken ↦ rw taken
        ]

-- The part of a context that the follow-up of the authentication reads.
pub record SameNotes (p p' : Protocol) : Type 0 where
  pub known : p'.auth_state_known ≡ p.auth_state_known
  pub state : p'.auth_state ≡ p.auth_state
  pub session : p'.auth_session_authenticated ≡ p.auth_session_authenticated

extended-keeps :
    (c : Config) (s : AuthState) (now : ℕ) (a : Auth)
    → ((extended c s now a).state ≡ a.state)
      × ((extended c s now a).session_active ≡ a.session_active)
unfolding extended
extended-keeps c state_open now a = (refl, refl)
extended-keeps c state_protected now a = (refl, refl)
extended-keeps c state_error_locked now a = (refl, refl)

module _ (c : Config) (id slot total : ℕ) where
  -- The context after a chunk that was taken in.
  pub taken_in : (now : ℕ) (k : Core) (p : Protocol) → Core
  taken_in now k p = record k { protocol = p; auth = extended c k.auth.state now k.auth }

  pub taken_in-Receiving :
      (now : ℕ) (k : Core) (p : Protocol) (text : List ℕ)
      → Noted k
      → SameNotes k.protocol p
      → Staged c id slot total text p
      → 1 ≤ length text
      → bytes_are_valid text ≡ true
      → Receiving c id slot total text (taken_in now k p)
  unfolding taken_in
  taken_in-Receiving now k p text noted same staged some_text mapped =
      let e = extended-keeps c k.auth.state now k.auth in
      record {
        staged = staged;
        noted = record {
          known = same.known ∙ noted.known;
          state = same.state ∙ noted.state ∙ ap state_code (sym e.0);
          session = same.session ∙ noted.session ∙ sym e.1;
        };
        some_text = some_text;
        mapped = mapped;
      }

  -- What an upload comes to: every response is OK, and the slots are those of one slot_set.
  abbrev pub Uploaded : List ℕ → Slots → List Frame × Core × Slots → Type 0
  Uploaded whole s x =
      All (λ (f : Frame). f.status ≡ 0) x.0
      × ((io : Backend) → x.2 ≡ (slot_set c io slot (some whole) total s).2)

  serve-step :
      (env : Env) (q : Frame) (rest : List (Env × Frame)) (k : Core) (s : Slots) (whole : List ℕ)
      (r : Frame × Core × Slots)
      → process_frame c env q k s ≡ r
      → r.0.status ≡ 0
      → Uploaded whole s (serve c rest r.1 r.2)
      → Uploaded whole s (serve c ((env, q) ∷ rest) k s)
  unfolding serve
  serve-step env q rest k s whole r eq good h = rw eq ((good, h.0), h.1)

  module _ (fits : Fits c slot total) (env : Env) (chunk : List ℕ)
      (ready : Stored (env, chunk)) where
    -- The last chunk of an upload, once it is known where it goes.
    pub last_chunk :
        (offset : ℕ) (text : List ℕ) (p : Protocol) (k : Core) (s : Slots)
        → Live env.now k.auth
        → Staged c id slot total text p
        → bytes_are_valid text ≡ true
        → length text ≡ total
        → process_set c env.io
            (set_frame id slot total offset chunk)
            (init_response (set_frame id slot total offset chunk))
            (noted_core c env.now k).protocol
            s
          ≡ after_chunk c env.io (init_response (set_frame id slot total offset chunk)) p s
        → Uploaded text s (serve c (set_frames id slot total offset ((env, chunk) ∷ [])) k s)
    unfolding serve set_frames
    last_chunk offset text p k s live staged mapped full handled = (
      (ap (λ (f : Frame). f.status) done_with.0 ∙ good, tt),
      λ io. done_with.1 ∙ slot_set-same c env.io slot text total s io,
    )
      where
        q : Frame
        q = set_frame id slot total offset chunk

        done_with :
            ((process_frame c env q k s).0
              ≡ commit_response
                  (slot_set c env.io slot (some text) total s).0
                  total
                  total
                  (init_response q))
            × ((process_frame c env q k s).2 ≡ (slot_set c env.io slot (some text) total s).2)
        done_with =
            process_frame_complete c env id slot total offset chunk text p staged k s ready.0 live
              handled full

        good :
            (commit_response
              (slot_set c env.io slot (some text) total s).0
              total
              total
              (init_response q)).status
            ≡ 0
        good =
            unfold commit_response set_success status_code in
            ap (λ a. (commit_response a total total (init_response q)).status)
              (slot_set-accepts c env.io slot text total s fits.slot_below fits.total_le full mapped
                ready.1)

    -- A chunk with others behind it.
    pub earlier_chunk :
        (offset : ℕ) (text whole : List ℕ) (p : Protocol) (k : Core) (s : Slots)
        (rest : List (Env × Frame))
        → Live env.now k.auth
        → Staged c id slot total text p
        → length text < total
        → process_set c env.io
            (set_frame id slot total offset chunk)
            (init_response (set_frame id slot total offset chunk))
            (noted_core c env.now k).protocol
            s
          ≡ after_chunk c env.io (init_response (set_frame id slot total offset chunk)) p s
        → Uploaded whole s (serve c rest (taken_in env.now (noted_core c env.now k) p) s)
        → Uploaded whole s (serve c ((env, set_frame id slot total offset chunk) ∷ rest) k s)
    unfolding taken_in set_success status_code
    earlier_chunk offset text whole p k s rest live staged lt handled h =
        serve-step env _ rest k s whole _
          (process_frame_incomplete c env id slot total offset chunk text p staged k s ready.0 live
            handled lt)
          refl h

  pub later_times :
      (now : ℕ) (k : Core) (p : Protocol) (rest : List Env)
      → Attended c rest (extended c k.auth.state now k.auth)
      → Attended c rest (taken_in now (noted_core c now k) p).auth
  unfolding taken_in
  later_times now k p rest h = rw (note_auth-auth c now k.auth.state k.auth.session_active k) h

  pub next-SameNotes :
      (offset : ℕ) (chunk : List ℕ) (p : Protocol)
      → SameNotes p (later_chunk (set_frame id slot total offset chunk) p)
  unfolding later_chunk
  next-SameNotes offset chunk p = record { known = refl; state = refl; session = refl }

  pub first-SameNotes :
      (chunk : List ℕ) (p : Protocol)
      → SameNotes p (first_chunk (set_frame id slot total 0 chunk) (clear_set c p))
  unfolding first_chunk clear_set
  first-SameNotes chunk p = record { known = refl; state = refl; session = refl }
