-- ===== src/Lib.antt =====
-- Reji Studio is a streaming program: it captures the desktop, encodes it, and sends it with sound to
-- a server, while a rule engine watches and heals it. This library models the C++ core that runs one
-- session, src/pipeline, and proves what keeps it correct.
--
-- The parts and their files:
--   Base          tests, lists, machine words, signed integers, single precision rounding
--   Policy        src/pipeline/include/bitrate_policy.h, frame_drop_policy.h, frame_repeat_policy.h,
--                 reinit_trigger_policy.h
--   Source        src/pipeline/existing_desktop_source.cpp, include/desktop_source_logic.h, i_source.h
--   Audio         src/pipeline/audio: audio_ring.h (Ring, with the two threads in Ring.Threads),
--                 av_sync.h (Sync), aac_config.h and flv_audio_tag.h (Format), audio_encode_bridge.cpp
--                 (Bridge)
--   Diag          src/pipeline/include/send_diag.h
--   Metrics       src/pipeline/metrics_collector.cpp
--   Router        src/pipeline/command_router.cpp
--   Pacer         src/pipeline/frame_pacer.cpp
--   Encode        src/pipeline/encode_subsystem.cpp
--   Output        src/pipeline/output_subsystem.cpp
--   Interop       src/pipeline/gpu_interop_subsystem.cpp
--   Recovery      src/pipeline/recovery_coordinator.cpp
--   Pipeline      src/pipeline/pipeline.cpp: State (Pipeline::Impl), Setup (init), Commands
--                 (start_stream, stop_stream, apply_action, apply_frame_cmd, apply_command), Packet
--                 (on_packet), Frame (run_frame), Teardown (shutdown), Adapters; the other modules
--                 there hold proofs
--   Copy          src/pipeline/capture/pitch_copy.h
--   Dxgi          src/pipeline/capture/capture_dxgi.cpp: Session (DxgiCaptureSession), Adapters
--                 (scan_gpus, find_display_adapter, find_encode_adapter), Pipeline (init, shutdown),
--                 Preview (init_preview_staging, map_preview_frame), Frame (capture_next), Spin (its
--                 wait for a copy); and gpu_resource_manager.cpp: Transfer; the other modules there hold
--                 proofs
--   Wgc           src/pipeline/capture/capture_wgc.cpp
--   Optimizer     src/pipeline/copy_optimizer.cpp: Lifecycle (init, shutdown), Submit (execute_copy);
--                 the other modules there hold proofs
--   Preview       src/ui/preview_widget.cpp: Paint (submitD3D11Frame, paintGL);
--                 src/pipeline/gpu/external_memory_bridge.cpp with slot_ring.h: Bridge; the
--                 other modules there hold proofs
--   Aac           src/pipeline/audio/aac_encoder.cpp: Codec; Owned, Opening and Life hold proofs
--   Rtmp          src/pipeline/output/rtmp_transport.cpp
--   Seh           src/pipeline/seh_filter.cpp
--   Nvenc         src/pipeline/encode/encode_nvenc.cpp: Session (load_dll to shutdown), Frame
--                 (encode_frame), Rates (set_bitrate, set_resolution, set_fps_limit); Handles and
--                 Reconfigure hold proofs
--   Srt           src/pipeline/output/srt_output.cpp: Setup (init_internal), Worker (worker_loop), Send
--                 (send_internal, apply_bitrate), Close (shutdown); Losses and Lives hold proofs
--   Wasapi        src/pipeline/audio/wasapi_capture.cpp: Packet (capture_loop), Engine
--                 (supervisor_main); Buffers, Drops and States hold proofs
--   Trace         the calls on what the pipeline does not own
--   Examples      the theorems at concrete inputs, and tests
--
-- How they interact: the rule engine's actions become commands in the router's ring; a turn of the
-- frame thread (Pipeline.Frame) drains the router, captures, encodes, hands each packet to the
-- transport and the waiting sound to the encoder of the bridge, recovers from a lost device, and
-- reports its sample. The operations keep the names of the source; a state is a record that an
-- operation takes and returns, and what foreign code answers (the encoder, the transport, the
-- system, the Rust side) is an argument. Calls on foreign objects are events of a trace.
--
-- Below the pipeline lie the devices: the encoder (Nvenc) behind Encode, the SRT transport (Srt)
-- behind Output, the sound device (Wasapi) before the audio ring. The pipeline's model takes their
-- answers as arguments, and they are modelled on their own over the answers of NVENC, libsrt and
-- WASAPI, with a journal of the calls on those. Seh is the filter that guards the foreign calls.
-- Aac is the encoder that the bridge of Audio feeds, over the answers of Media Foundation; Rtmp is the
-- other transport behind Output. Dxgi and Wgc are the two captures behind Source, over the answers
-- of DXGI, D3D11 and WinRT. Of a captured frame Dxgi also fills a texture shared with Vulkan; Preview has Optimizer copy it into an
-- image in the slot that the bridge gives, and draws: the widget's state holds the optimizer's, so that
-- the two run on one state.
--
-- Bounds and fuel: the counters are 32 or 64 bits wide with their wrap-around written out; int64_t
-- arithmetic is exact, since a signed overflow is undefined. The loop over the frame commands has 16
-- rounds of fuel for at most 15 commands, and the loop over the audio ring 17 for at most 16 chunks;
-- the theorems on drains show that both end by their own test. The wait for a copy in capture_next has
-- the rounds that its caller gives; they are enough when the clock moves on by 100 ms within them, after
-- the 4096 busy ones, and a wait that has used them up is a result of its own.
--
-- Not modelled: what D3D11, Vulkan, OpenGL and Media Foundation do with their calls, the Zig code of the
-- bridge and of RTMP, log lines, measured durations, COM, the values of the sound samples, the two float
-- rates of a sample, the profiler, the windows of the user interface except the preview's paintGL, and
-- the Rust orchestrator. An
-- operation of one thread is one step, except in Audio.Ring.Threads, where the loads and stores of
-- both threads interleave; the orders of the atomics are read as sequential consistency. A positive
-- float scale is a whole number over a power of two.
pub mod Aac
pub mod Audio
pub mod Base
pub mod Copy
pub mod Diag
pub mod Dxgi
pub mod Encode
pub mod Examples
pub mod Interop
pub mod Metrics
pub mod Nvenc
pub mod Optimizer
pub mod Output
pub mod Pacer
pub mod Pipeline
pub mod Policy
pub mod Preview
pub mod Recovery
pub mod Router
pub mod Rtmp
pub mod Seh
pub mod Source
pub mod Srt
pub mod Trace
pub mod Wasapi
pub mod Wgc
