-- ===== src/Protocol/Set/Step.antt =====
-- One SET frame through zmk_runtime_macro_protocol_process, for a client with access.
use zmk_module_runtime_macro.Base.{ℕ, ◌<◌, ◌≡◌, refl, ap, ◌∙◌, some, List, ltb-false, length}
use zmk_module_runtime_macro.Config.{Config, Status}
use zmk_module_runtime_macro.Slots.{Slots, SettingsCall, slot_set}
use zmk_module_runtime_macro.Protocol.Frame.{
  Frame, payload_size, init_response, set_success, known_opcode, op_set,
}
use zmk_module_runtime_macro.Protocol.State.{Protocol, Core, Env, clear_set}
use zmk_module_runtime_macro.Protocol.Macros.{process_set, after_chunk, commit_response}
use zmk_module_runtime_macro.Protocol.Dispatch.{manage, keep_session, dispatch, process_frame}
use zmk_module_runtime_macro.Protocol.Session.{Live, extended}
use zmk_module_runtime_macro.Protocol.Serve.{
  noted_core, noted_core-Live, process_frame-manage, keep_session-response, keep_session-success,
}
use zmk_module_runtime_macro.Protocol.Set.{
  set_frame, set_frame-tail, IsChunk, Staged, after_chunk_incomplete, after_chunk_complete,
}

module _ (c : Config) (env : Env) (id slot total offset : ℕ) (chunk : List ℕ) where
  abbrev frame : Frame
  frame = set_frame id slot total offset chunk

  -- A well-formed SET comes to its handler.
  process_frame-set :
      (k : Core) (s : Slots)
      → IsChunk chunk
      → Live env.now k.auth
      → process_frame c env frame k s
        ≡ keep_session c env.now
            (manage c op_set env frame (init_response frame) (noted_core c env.now k) s)
  unfolding dispatch
  process_frame-set k s h live =
      process_frame-manage c env frame op_set k s
        (record {
          version = refl;
          known = unfold known_opcode in refl;
          no_status = refl;
          fits = ltb-false payload_size (length chunk) h.fits;
          tail = set_frame-tail id slot total offset chunk;
        })
        (λ x. refl) live

  module _ (text : List ℕ) (p : Protocol) (staged : Staged c id slot total text p) where
    pub process_frame_incomplete :
        (k : Core) (s : Slots)
        → IsChunk chunk
        → Live env.now k.auth
        → process_set c env.io frame (init_response frame) (noted_core c env.now k).protocol s
          ≡ after_chunk c env.io (init_response frame) p s
        → length text < total
        → process_frame c env frame k s ≡ (
          set_success (length text) total (init_response frame),
          record (noted_core c env.now k) {
            protocol = p;
            auth =
                extended c
                  (noted_core c env.now k).auth.state
                  env.now
                  (noted_core c env.now k).auth;
          },
          s,
        )
    process_frame_incomplete k s h live handled lt =
        process_frame-set k s h live
        ∙ ap (keep_session c env.now) handling
        ∙ keep_session-success c env frame _ (noted_core-Live c env frame k live)
            (unfold set_success in refl)
      where
        handling : manage c op_set env frame (init_response frame) (noted_core c env.now k) s ≡ (
          set_success (length text) total (init_response frame),
          record (noted_core c env.now k) { protocol = p },
          s,
        )
        handling =
            unfold manage in
            ap
              (λ (x : Frame × Protocol × Slots).
                (x.0, record (noted_core c env.now k) { protocol = x.1 }, x.2))
              (handled
                ∙ after_chunk_incomplete c id slot total env.io (init_response frame) s text p
                    staged lt)

    pub process_frame_complete :
        (k : Core) (s : Slots)
        → IsChunk chunk
        → Live env.now k.auth
        → process_set c env.io frame (init_response frame) (noted_core c env.now k).protocol s
          ≡ after_chunk c env.io (init_response frame) p s
        → length text ≡ total
        → ((process_frame c env frame k s).0
            ≡ commit_response
                (slot_set c env.io slot (some text) total s).0
                total
                total
                (init_response frame))
          × ((process_frame c env frame k s).2 ≡ (slot_set c env.io slot (some text) total s).2)
    process_frame_complete k s h live handled full = (
      ap (λ (x : Frame × Core × Slots). x.0) served
          ∙ (keep_session-response c env frame stored live').0,
      ap (λ (x : Frame × Core × Slots). x.2) served
          ∙ (keep_session-response c env frame stored live').1,
    )
      where
        live' : Live env.now (noted_core c env.now k).auth
        live' = noted_core-Live c env frame k live

        written : Status × List SettingsCall × Slots
        written = slot_set c env.io slot (some text) total s

        stored : Frame × Core × Slots
        stored = (
          commit_response written.0 total total (init_response frame),
          record (noted_core c env.now k) { protocol = clear_set c p },
          written.2,
        )

        handling :
            manage c op_set env frame (init_response frame) (noted_core c env.now k) s ≡ stored
        handling =
            unfold manage in
            ap
              (λ (x : Frame × Protocol × Slots).
                (x.0, record (noted_core c env.now k) { protocol = x.1 }, x.2))
              (handled
                ∙ after_chunk_complete c id slot total env.io (init_response frame) s text p staged
                    full)

        served : process_frame c env frame k s ≡ keep_session c env.now stored
        served = process_frame-set k s h live ∙ ap (keep_session c env.now) handling
