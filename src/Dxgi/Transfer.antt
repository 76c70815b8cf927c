-- ===== src/Dxgi/Transfer.antt =====
-- GpuResourceManager of gpu_resource_manager.h and gpu_resource_manager.cpp: the textures on the
-- encoder's side and the transfer of a frame to them.
use reji_studio.Base.{
  ℕ, Bool, true, false, ◌&&◌, not, Option, none, some, List, [], ◌∷◌, ◌++◌, ◌==◌, if◌then◌else◌,
}
use reji_studio.Dxgi.{
  Hr, is_ok, succeeded, DxgiCall, copied, mapped, unmapped, rows_copied, exported, closed_handle,
}

-- GpuResourceManager. The descriptions of the adapters are left out, and so is the buffer
-- cpu_transfer_buf_, which nothing fills.
pub record GpuResourceManager : Type 0 where
  pub shared_tex_display : Option ℕ
  pub encode_tex : Option ℕ
  pub cpu_staging_display : Option ℕ
  pub cpu_upload_encode : Option ℕ
  pub shared_handle : Option ℕ
  pub tex_width : ℕ
  pub tex_height : ℕ
  pub encode_is_display : Bool
  pub same_adapter : Bool
  pub use_cpu_fallback : Bool
  pub ready : Bool

abbrev pub new_manager : GpuResourceManager
new_manager = record {
  shared_tex_display = none;
  encode_tex = none;
  cpu_staging_display = none;
  cpu_upload_encode = none;
  shared_handle = none;
  tex_width = 0;
  tex_height = 0;
  encode_is_display = false;
  same_adapter = false;
  use_cpu_fallback = false;
  ready = false;
}

-- What init is answered: the LUIDs' low and high parts, and the textures, interfaces and the handle
-- that are created, null where a call fails.
pub record ManagerAnswers : Type 0 where
  pub display_luid : ℕ × ℕ
  pub encode_luid : ℕ × ℕ
  pub plain_tex : Option ℕ
  pub shared_tex : Option ℕ
  pub has_resource1 : Bool
  pub new_handle : Option ℕ
  pub has_device1 : Bool
  pub opened_tex : Option ℕ
  pub staging_tex : Option ℕ
  pub upload_tex : Option ℕ

pub record Managed : Type 0 where
  pub manager : GpuResourceManager
  pub ok : Bool
  pub calls : List DxgiCall

abbrev pub is_held : Option ℕ → Bool
is_held none = false
is_held (some x) = true

unfoldable pub create_same_adapter_staging : GpuResourceManager → ManagerAnswers → Managed
create_same_adapter_staging m a = record {
  manager = record m { encode_tex = a.plain_tex };
  ok = is_held a.plain_tex;
  calls = [];
}

-- With the exported handle: the import on the encoder's device.
unfoldable pub open_shared : GpuResourceManager → ManagerAnswers → Option ℕ → Managed
open_shared m a none = record { manager = m; ok = false; calls = [] }
open_shared m a (some h) =
    let with = record m { shared_handle = some h } in
    let opened = record with { encode_tex = a.opened_tex } in
    if not a.has_device1
    then record {
      manager = record with { shared_handle = none };
      ok = false;
      calls = exported h ∷ closed_handle h ∷ [];
    }
    else if not (is_held a.opened_tex)
    then record {
      manager = record opened { shared_handle = none };
      ok = false;
      calls = exported h ∷ closed_handle h ∷ [];
    }
    else record { manager = opened; ok = true; calls = exported h ∷ [] }

unfoldable pub create_cross_adapter_shared : GpuResourceManager → ManagerAnswers → Managed
unfolding open_shared
create_cross_adapter_shared m a =
    let shared = record m { shared_tex_display = a.shared_tex } in
    if not (is_held a.shared_tex)
    then record { manager = shared; ok = false; calls = [] }
    else if not a.has_resource1
    then record { manager = shared; ok = false; calls = [] }
    else open_shared shared a a.new_handle

unfoldable pub create_cpu_fallback_staging : GpuResourceManager → ManagerAnswers → Managed
create_cpu_fallback_staging m a =
    let staged = record m { cpu_staging_display = a.staging_tex } in
    if not (is_held a.staging_tex)
    then record { manager = staged; ok = false; calls = [] }
    else record {
      manager = record staged { cpu_upload_encode = a.upload_tex };
      ok = is_held a.upload_tex;
      calls = [];
    }

-- if (!ok && !same_adapter_).
unfoldable pub fall_back : Managed → ManagerAnswers → Managed
unfolding create_cpu_fallback_staging
fall_back o a =
    let cpu = create_cpu_fallback_staging o.manager a in
    if not o.ok && not o.manager.same_adapter
    then record {
      manager = record (cpu.manager) { use_cpu_fallback = cpu.ok };
      ok = cpu.ok;
      calls = o.calls;
    }
    else o

-- The topology, by comparison of the LUIDs, and the size.
unfoldable pub sized_for : GpuResourceManager → ℕ → ℕ → ManagerAnswers → GpuResourceManager
sized_for m width height a =
    let same = (a.display_luid.0 == a.encode_luid.0) && (a.display_luid.1 == a.encode_luid.1) in
    record m {
      same_adapter = same;
      encode_is_display = same;
      tex_width = width;
      tex_height = height;
    }

unfoldable pub make_textures : GpuResourceManager → ManagerAnswers → Managed
unfolding create_same_adapter_staging create_cross_adapter_shared
make_textures m a =
    if m.same_adapter then create_same_adapter_staging m a else create_cross_adapter_shared m a

unfoldable pub finish : Managed → Managed
finish o = if not o.ok then o else record o { manager = record (o.manager) { ready = true } }

unfoldable pub init : GpuResourceManager → ℕ → ℕ → ManagerAnswers → Managed
unfolding make_textures fall_back sized_for finish
init m width height a = finish (fall_back (make_textures (sized_for m width height a) a) a)

-- What transfer is answered: by Map on each side, with the row pitches.
pub record TransferAnswers : Type 0 where
  pub read_map : Hr
  pub read_pitch : ℕ
  pub write_map : Hr
  pub write_pitch : ℕ

unfoldable pub upload : GpuResourceManager → TransferAnswers → List DxgiCall
upload m a =
    if succeeded a.write_map
    then mapped m.cpu_upload_encode
      ∷ rows_copied a.write_pitch a.read_pitch m.tex_height
      ∷ unmapped m.cpu_upload_encode
      ∷ []
    else []

unfoldable pub transfer_by_cpu : GpuResourceManager → ℕ → TransferAnswers → Option ℕ × List DxgiCall
unfolding upload
transfer_by_cpu m src a =
    let copy = copied m.cpu_staging_display (some src) in
    if not (succeeded a.read_map) then (none, copy ∷ []) else (
      if is_ok a.write_map then m.cpu_upload_encode else none,
      copy ∷ mapped m.cpu_staging_display ∷ (upload m a ++ (unmapped m.cpu_staging_display ∷ [])),
    )

-- The source is a texture: the caller passes the one that acquire has given.
unfoldable pub transfer : GpuResourceManager → ℕ → TransferAnswers → Option ℕ × List DxgiCall
unfolding transfer_by_cpu
transfer m src a =
    let by_cpu = transfer_by_cpu m src a in
    if not m.ready
    then (none, [])
    else if m.use_cpu_fallback
    then by_cpu
    else if m.same_adapter
    then (m.encode_tex, copied m.encode_tex (some src) ∷ [])
    else (none, [])

unfoldable pub close_shared : Option ℕ → List DxgiCall
close_shared none = []
close_shared (some h) = closed_handle h ∷ []

unfoldable pub shutdown : GpuResourceManager → GpuResourceManager × List DxgiCall
unfolding close_shared
shutdown m = (
  record m {
    ready = false;
    use_cpu_fallback = false;
    encode_tex = none;
    shared_tex_display = none;
    cpu_staging_display = none;
    cpu_upload_encode = none;
    shared_handle = none;
  },
  close_shared m.shared_handle,
)
