-- ===== src/Dxgi/Starts.antt =====
-- The frames of the duplication in init and shutdown of DxgiCapturePipeline in capture_dxgi.cpp.
use reji_studio.Base.{
  ℕ, ◌+◌, ◌≡◌, Bool, true, false, ◌&&◌, Option, none, some, List, [], ◌++◌, refl, arith,
  if◌then◌else◌, not, ap, sym, subst,
}
use reji_studio.Dxgi.{DxgiCall, DxgiCaptureSession, new_session}
use reji_studio.Dxgi.Session
use reji_studio.Dxgi.Session.{create_duplication, reinit, release_frame, acquire}
use reji_studio.Dxgi.Transfer
use reji_studio.Dxgi.Transfer.{
  GpuResourceManager, new_manager, ManagerAnswers, Managed, create_same_adapter_staging,
  open_shared, create_cross_adapter_shared, create_cpu_fallback_staging, fall_back, sized_for,
  make_textures, finish, TransferAnswers, upload, transfer_by_cpu, transfer, close_shared,
}
use reji_studio.Dxgi.Adapters.{Adapter, scan_gpus, find_display_adapter, find_encode_adapter}
use reji_studio.Dxgi.Pipeline
use reji_studio.Dxgi.Pipeline.{
  DxgiCapturePipeline, InitAnswers, drop_session, drop_manager, with_manager, with_session,
  with_contexts, on_display, on_factory,
}
use reji_studio.Dxgi.Held.{
  owned, owned_by, IsBalanced, IsQuiet, IsBalanced-append, IsQuiet-append, IsBalanced-quiet,
  create_duplication-frees, shutdown-gives,
}

open_shared-IsQuiet :
    (m : GpuResourceManager) (a : ManagerAnswers) (h : Option ℕ) → IsQuiet (open_shared m a h).calls
unfolding open_shared
open_shared-IsQuiet m a none = (refl, refl)
open_shared-IsQuiet m a (some h) = ground arith

shared-IsQuiet :
    (m : GpuResourceManager) (a : ManagerAnswers) → IsQuiet (create_cross_adapter_shared m a).calls
unfolding create_cross_adapter_shared
shared-IsQuiet m a =
    let shared = record m { shared_tex_display = a.shared_tex } in
    ground (arith, open_shared-IsQuiet shared a a.new_handle)

IsQuiet-if :
    (b : Bool) (x y : Managed)
    → IsQuiet x.calls
    → IsQuiet y.calls
    → IsQuiet (if b then x else y).calls
IsQuiet-if true x y p q = p
IsQuiet-if false x y p q = q

textures-IsQuiet :
    (m : GpuResourceManager) (width height : ℕ) (a : ManagerAnswers)
    → IsQuiet (Transfer.init m width height a).calls
unfolding Transfer.init finish fall_back make_textures create_same_adapter_staging
textures-IsQuiet m width height a =
    let sized = sized_for m width height a in
    let made = make_textures sized a in
    let back = fall_back made a in
    let quiet =
      IsQuiet-if sized.same_adapter (create_same_adapter_staging sized a)
        (create_cross_adapter_shared sized a) (refl, refl) (shared-IsQuiet sized a) in
    let cpu = create_cpu_fallback_staging made.manager a in
    IsQuiet-if (not back.ok) back (record back { manager = record (back.manager) { ready = true } })
      (IsQuiet-if (not made.ok && not made.manager.same_adapter)
        (record {
          manager = record (cpu.manager) { use_cpu_fallback = cpu.ok };
          ok = cpu.ok;
          calls = made.calls;
        })
        made quiet quiet)
      (IsQuiet-if (not made.ok && not made.manager.same_adapter)
        (record {
          manager = record (cpu.manager) { use_cpu_fallback = cpu.ok };
          ok = cpu.ok;
          calls = made.calls;
        })
        made quiet quiet)

close_shared-IsQuiet : (h : Option ℕ) → IsQuiet (close_shared h)
unfolding close_shared
close_shared-IsQuiet none = (refl, refl)
close_shared-IsQuiet (some h) = (refl, refl)

drop_manager-IsQuiet : (m : Option GpuResourceManager) → IsQuiet (drop_manager m)
unfolding drop_manager Transfer.shutdown
drop_manager-IsQuiet none = (refl, refl)
drop_manager-IsQuiet (some m) = close_shared-IsQuiet m.shared_handle

drop_session-gives : (s : Option DxgiCaptureSession) → IsBalanced (owned_by s) (drop_session s) 0
unfolding drop_session
drop_session-gives none = refl
drop_session-gives (some s) = shutdown-gives s

init_session-frees :
    (s : DxgiCaptureSession) (index timeout : ℕ) (a : Session.DuplicationAnswers)
    → owned (Session.init s index timeout a).0 ≡ 0
unfolding Session.init
init_session-frees s index timeout a =
    let given_config = record s { has_device = true; output_index = index; timeout_ms = timeout } in
    ground (arith, create_duplication-frees given_config a)

-- A start from a pipeline that owned `before`.
IsSettled : ℕ → Pipeline.Started → Type 0
IsSettled before o = IsBalanced before o.calls (owned_by o.state.capture)

IsSettled-if :
    (b : Bool) (before : ℕ) (x y : Pipeline.Started)
    → IsSettled before x
    → IsSettled before y
    → IsSettled before (if b then x else y)
IsSettled-if true before x y p q = p
IsSettled-if false before x y p q = q

unchanged-IsSettled :
    (p q : DxgiCapturePipeline)
    → q.capture ≡ p.capture
    → IsSettled (owned_by p.capture) (Pipeline.fails q [])
unfolding IsSettled
unchanged-IsSettled p q e = ap (λ c. 0 + owned_by c) (sym e)

with_manager-IsSettled :
    (p : DxgiCapturePipeline) (a : InitAnswers) (s : DxgiCaptureSession) (before : ℕ)
    (calls : List DxgiCall)
    → IsBalanced before calls 0
    → owned_by p.capture ≡ 0
    → IsSettled before (with_manager p a s calls)
unfolding with_manager IsSettled
with_manager-IsSettled p a s before calls h free =
    let o = Transfer.init new_manager s.width s.height a.textures in
    let made = record p { resource_mgr = some o.manager } in
    let rest = drop_manager p.resource_mgr ++ o.calls in
    let all = calls ++ rest in
    let settled =
      subst (λ n. IsBalanced before all n) (sym free)
        (IsBalanced-append before calls 0 rest 0 h (
          IsBalanced-quiet 0 rest (
            IsQuiet-append (drop_manager p.resource_mgr) o.calls
              (drop_manager-IsQuiet p.resource_mgr)
              (textures-IsQuiet new_manager s.width s.height a.textures)))) in
    IsSettled-if (not o.ok) before (Pipeline.fails made all)
      (record { state = record made { initialized = true }; ok = true; calls = all }) settled
      settled

with_session-IsSettled :
    (p : DxgiCapturePipeline) (a : InitAnswers) → IsSettled (owned_by p.capture) (with_session p a)
unfolding with_session IsSettled
with_session-IsSettled p a =
    let o = Session.init new_session p.output_index p.timeout_ms a.duplication in
    let made = record p { capture = some (o.0) } in
    let gone = drop_session p.capture in
    let free = init_session-frees new_session p.output_index p.timeout_ms a.duplication in
    IsSettled-if (not o.1) (owned_by p.capture) (Pipeline.fails made gone)
      (with_manager made a (o.0) gone)
      (subst (λ n. IsBalanced (owned_by p.capture) gone n) (sym free)
        (drop_session-gives p.capture))
      (with_manager-IsSettled made a (o.0) (owned_by p.capture) gone (drop_session-gives p.capture)
        free)

with_contexts-IsSettled :
    (p : DxgiCapturePipeline) (a : InitAnswers) (d e : Adapter)
    → IsSettled (owned_by p.capture) (with_contexts p a d e)
unfolding with_contexts
with_contexts-IsSettled p a d e =
    let shown = record p { display_ctx = some d.pointer } in
    let both = record shown { encode_ctx = some e.pointer } in
    let rest = if not a.encode_device then Pipeline.fails both [] else with_session both a in
    IsSettled-if (not a.display_device) (owned_by p.capture) (Pipeline.fails shown []) rest
      (unchanged-IsSettled p shown refl)
      (IsSettled-if (not a.encode_device) (owned_by p.capture) (Pipeline.fails both [])
        (with_session both a) (unchanged-IsSettled p both refl) (with_session-IsSettled both a))

on_display-IsSettled :
    (p : DxgiCapturePipeline) (a : InitAnswers) (adapters : List Adapter) (d : Option Adapter)
    → IsSettled (owned_by p.capture) (on_display p a adapters d)
unfolding on_display
on_display-IsSettled p a adapters none = unchanged-IsSettled p p refl
on_display-IsSettled p a adapters (some d) =
    with_contexts-IsSettled p a d (find_encode_adapter p.allow_cross_adapter adapters d)

on_factory-IsSettled :
    (p : DxgiCapturePipeline) (a : InitAnswers) (f : Option (List Adapter))
    → IsSettled (owned_by p.capture) (on_factory p a f)
unfolding on_factory
on_factory-IsSettled p a none = unchanged-IsSettled p p refl
on_factory-IsSettled p a (some adapters) =
    on_display-IsSettled (record p { gpu_scan = (scan_gpus adapters).0 }) a adapters
      (find_display_adapter adapters)

pub init-IsBalanced :
    (p : DxgiCapturePipeline) (index timeout : ℕ) (cross : Bool) (a : InitAnswers)
    → let o = Pipeline.init p index timeout cross a in
      IsBalanced (owned_by p.capture) o.calls (owned_by o.state.capture)
unfolding Pipeline.init IsSettled
init-IsBalanced p index timeout cross a = on_factory-IsSettled _ a a.adapters

pub shutdown-IsBalanced :
    (p : DxgiCapturePipeline) → IsBalanced (owned_by p.capture) (Pipeline.shutdown p).1 0
unfolding Pipeline.shutdown
shutdown-IsBalanced p =
    IsBalanced-append (owned_by p.capture) (drop_manager p.resource_mgr) (owned_by p.capture)
      (drop_session p.capture) 0
      (IsBalanced-quiet (owned_by p.capture) (drop_manager p.resource_mgr)
        (drop_manager-IsQuiet p.resource_mgr))
      (drop_session-gives p.capture)
