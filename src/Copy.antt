-- ===== src/Copy.antt =====
-- src/pipeline/capture/pitch_copy.h: a picture copied row by row between buffers of different pitch.
-- A buffer is its bytes by their address from its start.
pub mod Rows
use reji_studio.Base.{ℕ, zero, suc, ◌+◌, ◌*◌, update, min}

-- memcpy of n bytes, from an address of one buffer to an address of the other.
unfoldable pub memcpy : (ℕ → ℕ) → ℕ → (ℕ → ℕ) → ℕ → ℕ → ℕ → ℕ
memcpy dst to src from zero = dst
memcpy dst to src from (suc n) = update (memcpy dst to src from n) (to + n) (src (from + n))

-- for (uint32_t y = 0; y < height; ++y), with the rows left and the row.
unfoldable pub copy_rows : (ℕ → ℕ) → ℕ → (ℕ → ℕ) → ℕ → ℕ → ℕ → ℕ → ℕ → ℕ
copy_rows dst dst_pitch src src_pitch bytes zero y = dst
copy_rows dst dst_pitch src src_pitch bytes (suc left) y =
    copy_rows (memcpy dst (y * dst_pitch) src (y * src_pitch) bytes) dst_pitch src src_pitch bytes
      left (y + 1)

unfoldable pub copy_mapped_rows : (ℕ → ℕ) → ℕ → (ℕ → ℕ) → ℕ → ℕ → ℕ → ℕ
unfolding copy_rows memcpy
copy_mapped_rows dst dst_pitch src src_pitch height =
    copy_rows dst dst_pitch src src_pitch (min src_pitch dst_pitch) height 0
