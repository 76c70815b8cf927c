-- ===== src/Seh.antt =====
-- src/pipeline/include/seh_filter.h and seh_filter.cpp: which structured exceptions a guarded call
-- swallows, and the valve that ends the process when one call site keeps faulting. The tick count is
-- an argument; the log lines are left out. The children state when the valve opens.
pub mod Valve
pub mod Opens
use reji_studio.Base.{
  ℕ, ◌+◌, ◌%◌, ◌^◌, Bool, true, false, ◌&&◌, ◌||◌, Option, none, some, List, [], ◌∷◌, leb, ltb,
  ◌==◌, update, sub_u64, add_u32, if◌then◌else◌,
}

abbrev pub av_window_ms : ℕ
av_window_ms = 60_000

abbrev pub av_threshold : ℕ
av_threshold = 3

pub data SehSite : Type 0 where
  cmd_drain : SehSite
  ws_dequeue : SehSite
  get_ws_port : SehSite
  start_monitor : SehSite
  uninit_com : SehSite
  shutdown_subsys : SehSite
  srt_send : SehSite
  metrics_push : SehSite
  connection_lost : SehSite
  copy_opt_wait : SehSite
  copy_opt_shutdown : SehSite
  wasapi_get_buffer : SehSite
  wasapi_release_buffer : SehSite
  wasapi_next_packet : SehSite
  wasapi_audio_stop : SehSite
  wasapi_shutdown_leaf : SehSite
  srt_leaf_sendmsg : SehSite
  srt_leaf_close : SehSite
  srt_leaf_epoll_release : SehSite
  srt_leaf_setsockopt : SehSite
  srt_leaf_global_cleanup : SehSite
  site_count : SehSite

-- static_cast<std::size_t>(site)
unfoldable pub site_index : SehSite → ℕ
site_index cmd_drain = 0
site_index ws_dequeue = 1
site_index get_ws_port = 2
site_index start_monitor = 3
site_index uninit_com = 4
site_index shutdown_subsys = 5
site_index srt_send = 6
site_index metrics_push = 7
site_index connection_lost = 8
site_index copy_opt_wait = 9
site_index copy_opt_shutdown = 10
site_index wasapi_get_buffer = 11
site_index wasapi_release_buffer = 12
site_index wasapi_next_packet = 13
site_index wasapi_audio_stop = 14
site_index wasapi_shutdown_leaf = 15
site_index srt_leaf_sendmsg = 16
site_index srt_leaf_close = 17
site_index srt_leaf_epoll_release = 18
site_index srt_leaf_setsockopt = 19
site_index srt_leaf_global_cleanup = 20
site_index site_count = 21

-- g_av_window_ms and g_av_count
pub record AvTable : Type 0 where
  pub window : ℕ → ℕ
  pub hits : ℕ → ℕ

abbrev pub fresh_table : AvTable
fresh_table = record { window = λ _. 0; hits = λ _. 0 }

-- One more access violation in a cell: a new window, or one more in the window that is open.
unfoldable pub av_cell : ℕ → ℕ → ℕ → ℕ × ℕ
av_cell start hits now_ms =
    if ltb av_window_ms (sub_u64 now_ms start) then (now_ms, 1) else (start, add_u32 hits 1)

unfoldable pub seh_register_av : AvTable → SehSite → ℕ → AvTable × Bool
seh_register_av g site now_ms =
    let i = site_index site in
    let cell = av_cell (g.window i) (g.hits i) now_ms in
    if leb 21 i then (g, false) else (
      record { window = update g.window i cell.0; hits = update g.hits i cell.1 },
      leb av_threshold cell.1,
    )

-- The codes of winnt.h.
abbrev pub exception_access_violation : ℕ
exception_access_violation = 3_221_225_477

abbrev pub exception_stack_overflow : ℕ
exception_stack_overflow = 3_221_225_725

abbrev pub exception_breakpoint : ℕ
exception_breakpoint = 2_147_483_651

abbrev pub exception_single_step : ℕ
exception_single_step = 2_147_483_652

unfoldable pub seh_is_passthrough : ℕ → Bool
seh_is_passthrough code =
    (code == exception_stack_overflow)
    || ((code == exception_breakpoint) || (code == exception_single_step))

pub record SehCapture : Type 0 where
  pub code : ℕ
  pub address : ℕ
  pub fired : Bool
  pub escalate : Bool

abbrev pub no_capture : SehCapture
no_capture = record { code = 0; address = 0; fired = false; escalate = false }

pub data Disposition : Type 0 where
  continue_search : Disposition
  execute_handler : Disposition

-- An exception record, where there is one: its code and its address.
pub record Fault : Type 0 where
  pub raised : ℕ
  pub at : ℕ

abbrev pub code_of : Option Fault → ℕ
code_of none = 0
code_of (some f) = f.raised

abbrev pub address_of : Option Fault → ℕ
address_of none = 0
address_of (some f) = f.at

pub record Filtered : Type 0 where
  pub table : AvTable
  pub out : SehCapture
  pub disposition : Disposition

-- The && calls seh_register_av for an access violation only.
unfoldable pub seh_filter : AvTable → Option Fault → SehSite → SehCapture → ℕ → Filtered
unfolding seh_is_passthrough seh_register_av
seh_filter g ep site out tick =
    let code = code_of ep in
    let counted = seh_register_av g site tick in
    let is_av = code == exception_access_violation in
    if seh_is_passthrough code
    then record { table = g; out = out; disposition = continue_search }
    else record {
      table = if is_av then counted.0 else g;
      out = record {
        code = code;
        address = address_of ep;
        fired = true;
        escalate = is_av && counted.1;
      };
      disposition = execute_handler;
    }

-- Whether the report ends the process by __fastfail.
unfoldable pub seh_report : SehCapture → Bool
seh_report cap = if cap.fired then cap.escalate else false
