-- ===== src/Srt/Close.antt =====
-- src/pipeline/output/srt_output.cpp: closing the transport.
use reji_studio.Base.{ℕ, true, false, Option, none, some, List, [], ◌∷◌, ◌++◌, if◌then◌else◌}
use reji_studio.Output.{is_zero}
use reji_studio.Srt.{
  SrtCall, close_socket, release_epoll, global_cleanup, Registry, release, Srt, Done,
}

-- The worker is joined here; its last passes are those before the call.
unfoldable pub prepare_shutdown : Srt → Srt
prepare_shutdown s =
    if s.initialized
    then record s { initialized = false; shutting_down = true; connected = false }
    else s

abbrev pub closing : Option ℕ → List SrtCall
closing none = []
closing (some k) = close_socket k ∷ []

abbrev pub releasing : Option ℕ → List SrtCall
releasing none = []
releasing (some e) = release_epoll e ∷ []

-- The reference is given up, and with the last one the library.
unfoldable pub do_seh_cleanup : Registry → Srt → Registry × Done
unfolding release
do_seh_cleanup r s =
    let r' = release r in
    let last = if is_zero r'.refs then global_cleanup ∷ [] else [] in
    if s.already_cleaned_up then (r, record { state = s; ok = true; calls = [] }) else (
      r',
      record {
        state = record s {
          already_cleaned_up = true;
          sock = none;
          client_sock = none;
          epoll_id = none;
        };
        ok = true;
        calls = releasing s.epoll_id ++ (closing s.client_sock ++ (closing s.sock ++ last));
      },
    )

-- SrtOutput::shutdown, and what the destructor does.
unfoldable pub shutdown : Registry → Srt → Registry × Done
unfolding prepare_shutdown do_seh_cleanup
shutdown r s = do_seh_cleanup r (prepare_shutdown s)
