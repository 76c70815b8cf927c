-- ===== src/Dxgi/Delivery.antt =====
-- What gpu_resource_manager.cpp delivers after each outcome of its init.
use reji_studio.Base.{
  ℕ, ◌≡◌, Bool, true, false, ◌&&◌, Option, none, some, refl, arith, ◌==◌, ◌∙◌, if◌then◌else◌,
}
use reji_studio.Dxgi.{is_ok, succeeded}
use reji_studio.Dxgi.Transfer.{
  GpuResourceManager, new_manager, ManagerAnswers, Managed, is_held, create_same_adapter_staging,
  open_shared, create_cross_adapter_shared, create_cpu_fallback_staging, fall_back, sized_for,
  make_textures, finish, init, TransferAnswers, upload, transfer_by_cpu, transfer,
}

-- The adapters are one; the display's texture is shared with the encoder's adapter.
abbrev pub is_one : ManagerAnswers → Bool
is_one a = (a.display_luid.0 == a.encode_luid.0) && (a.display_luid.1 == a.encode_luid.1)

abbrev pub shares : ManagerAnswers → Bool
shares a =
    is_held a.shared_tex
    && (a.has_resource1 && (is_held a.new_handle && (a.has_device1 && is_held a.opened_tex)))

abbrev pub delivers : ManagerAnswers → TransferAnswers → Option ℕ
delivers a t =
    if is_one a
    then a.plain_tex
    else if shares a
    then none
    else if succeeded t.read_map && is_ok t.write_map
    then a.upload_tex
    else none

-- A manager that is not yet ready and does not fall back, in a topology.
record IsFresh (same : Bool) (m : GpuResourceManager) : Type 0 where
  topology : m.same_adapter ≡ same
  no_fallback : m.use_cpu_fallback ≡ false

open_shared-ok :
    (same : Bool) (m : GpuResourceManager) (a : ManagerAnswers) (h : Option ℕ)
    → IsFresh same m
    → ((open_shared m a h).ok ≡ is_held h && (a.has_device1 && is_held a.opened_tex))
      × IsFresh same (open_shared m a h).manager
unfolding open_shared
open_shared-ok same m a none f = (refl, f)
open_shared-ok same m a (some h) f = (
  ground arith,
  record { topology = ground (arith, f.topology); no_fallback = ground (arith, f.no_fallback) },
)

cross-ok :
    (same : Bool) (m : GpuResourceManager) (a : ManagerAnswers)
    → IsFresh same m
    → ((create_cross_adapter_shared m a).ok ≡ shares a)
      × IsFresh same (create_cross_adapter_shared m a).manager
unfolding create_cross_adapter_shared
cross-ok same m a f =
    let shared = record m { shared_tex_display = a.shared_tex } in
    let o =
      open_shared-ok same shared a a.new_handle
        (record { topology = f.topology; no_fallback = f.no_fallback }) in
    (
      ground (arith, o.0),
      record {
        topology = ground (arith, f.topology, o.1.topology);
        no_fallback = ground (arith, f.no_fallback, o.1.no_fallback);
      },
    )

-- What a manager delivers, once ready.
sends : GpuResourceManager → TransferAnswers → Option ℕ
sends m t =
    if m.use_cpu_fallback
    then if succeeded t.read_map && is_ok t.write_map then m.cpu_upload_encode else none
    else if m.same_adapter
    then m.encode_tex
    else none

transfer-sends :
    (m : GpuResourceManager) (src : ℕ) (t : TransferAnswers)
    → m.ready ≡ true
    → (transfer m src t).0 ≡ sends m t
unfolding transfer transfer_by_cpu upload sends
transfer-sends m src t h = ground arith

cpu-sends :
    (o : Managed) (a : ManagerAnswers) (t : TransferAnswers)
    → o.ok ≡ false
    → IsFresh false o.manager
    → (fall_back o a).ok ≡ true
    → sends (fall_back o a).manager t
      ≡ (if succeeded t.read_map && is_ok t.write_map then a.upload_tex else none)
unfolding fall_back create_cpu_fallback_staging sends
cpu-sends o a t bad f ok = ground (arith, bad, f.topology, f.no_fallback, ok)

same-delivers :
    (m : GpuResourceManager) (a : ManagerAnswers) (src : ℕ) (t : TransferAnswers)
    → IsFresh true m
    → (finish (fall_back (create_same_adapter_staging m a) a)).ok ≡ true
    → (transfer (finish (fall_back (create_same_adapter_staging m a) a)).manager src t).0
      ≡ a.plain_tex
unfolding finish fall_back create_same_adapter_staging transfer
same-delivers m a src t f ok = ground (arith, f.topology, f.no_fallback, ok)

finish-sends :
    (o : Managed) (src : ℕ) (t : TransferAnswers)
    → (finish o).ok ≡ true
    → (o.ok ≡ true) × ((transfer (finish o).manager src t).0 ≡ sends o.manager t)
unfolding finish transfer transfer_by_cpu upload sends
finish-sends o src t ok = ground (arith, ok)

kept-sends :
    (o : Managed) (a : ManagerAnswers) (t : TransferAnswers)
    → o.ok ≡ true
    → IsFresh false o.manager
    → sends (fall_back o a).manager t ≡ none
unfolding fall_back sends
kept-sends o a t good f = ground (arith, good, f.topology, f.no_fallback)

cross-sends :
    (o : Managed) (a : ManagerAnswers) (t : TransferAnswers) (shared : Bool)
    → o.ok ≡ shared
    → IsFresh false o.manager
    → (fall_back o a).ok ≡ true
    → sends (fall_back o a).manager t ≡ (
        if shared
        then none
        else if succeeded t.read_map && is_ok t.write_map
        then a.upload_tex
        else none)
cross-sends o a t true e f ok = kept-sends o a t e f
cross-sends o a t false e f ok = cpu-sends o a t e f ok

topology-delivers :
    (same : Bool) (m : GpuResourceManager) (a : ManagerAnswers) (src : ℕ) (t : TransferAnswers)
    → IsFresh same m
    → let made =
        if same then create_same_adapter_staging m a else create_cross_adapter_shared m a in
      (finish (fall_back made a)).ok ≡ true
      → (transfer (finish (fall_back made a)).manager src t).0 ≡ (
          if same
          then a.plain_tex
          else if shares a
          then none
          else if succeeded t.read_map && is_ok t.write_map
          then a.upload_tex
          else none)
topology-delivers true m a src t f ok = same-delivers m a src t f ok
topology-delivers false m a src t f ok =
    let made = create_cross_adapter_shared m a in
    let o = finish-sends (fall_back made a) src t ok in
    let c = cross-ok false m a f in o.1 ∙ cross-sends made a t (shares a) (c.0) (c.1) (o.0)

-- Once init of a new resource manager has succeeded, and whatever the two adapters were and D3D11
-- answers, a transfer delivers: with one adapter, the texture made on it; with two whose sharing fails,
-- the texture of the copy through the processor, if both of its mappings succeed, and null if not; with
-- two whose sharing succeeds, always null.
pub init-delivers :
    (width height : ℕ) (a : ManagerAnswers) (src : ℕ) (t : TransferAnswers)
    → (init new_manager width height a).ok ≡ true
    → (transfer (init new_manager width height a).manager src t).0 ≡ delivers a t
unfolding init make_textures sized_for
init-delivers width height a src t ok =
    topology-delivers (is_one a) (sized_for new_manager width height a) a src t
      (record { topology = refl; no_fallback = refl }) ok
