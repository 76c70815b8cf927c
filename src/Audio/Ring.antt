-- ===== src/Audio/Ring.antt =====
-- src/pipeline/audio/audio_ring.h: the lock-free ring between the capture thread and the encode
-- thread. A float sample is its bit pattern; the samples are only copied. The two counters are
-- atomic uint64_t that run on and wrap; a slot is picked by their low four bits.
pub mod Window
pub mod Refine
pub mod Threads
use reji_studio.Base.{
  ℕ, ◌+◌, ◌*◌, ◌<◌, Bool, true, false, ◌||◌, Option, none, some, List, ◌++◌, bit_and, leb, ltb,
  ◌==◌, if◌then◌else◌, take, drop, update, add_u32, add_u64, sub_u64,
}
use reji_studio.Base.Int.{ℤ}

abbrev pub capacity : ℕ
capacity = 16

abbrev pub max_samples_per_chunk : ℕ
max_samples_per_chunk = 8192

abbrev pub mask : ℕ
mask = 15

pub record Slot : Type 0 where
  pub pts_us : ℤ
  pub frames : ℕ
  pub channels : ℕ
  pub sample_rate : ℕ
  pub count : ℕ
  pub samples : List ℕ

pub record AudioRing : Type 0 where
  pub slots : ℕ → Slot
  pub head : ℕ
  pub tail : ℕ
  pub dropped_full : ℕ
  pub rejected_invalid : ℕ

-- memcpy of `n` samples over the front of a slot: what lay behind them stays.
unfoldable pub copy_samples : List ℕ → List ℕ → ℕ → List ℕ
copy_samples old new n = take n new ++ drop n old

-- The arguments of one `push`; a null pointer is `none`.
pub record Chunk : Type 0 where
  pub samples : Option (List ℕ)
  pub frames : ℕ
  pub channels : ℕ
  pub sample_rate : ℕ
  pub pts_us : ℤ

abbrev pub data_of : Option (List ℕ) → List ℕ → List ℕ
data_of none d = d
data_of (some xs) d = xs

abbrev pub is_null : Option (List ℕ) → Bool
is_null none = true
is_null (some xs) = false

-- uint64_t n = frames * channels: a product of two 32-bit values fits 64 bits.
abbrev pub sample_count : Chunk → ℕ
sample_count c = c.frames * c.channels

unfoldable pub is_invalid : Chunk → Bool
is_invalid c =
    is_null c.samples || sample_count c == 0 || ltb max_samples_per_chunk (sample_count c)

-- The slot that is written, over its old contents.
unfoldable pub fill_slot : Slot → Chunk → Slot
unfolding copy_samples
fill_slot old c = record {
  pts_us = c.pts_us;
  frames = c.frames;
  channels = c.channels;
  sample_rate = c.sample_rate;
  count = sample_count c;
  samples = copy_samples old.samples (data_of c.samples old.samples) (sample_count c);
}

unfoldable pub push : AudioRing → Chunk → AudioRing × Bool
push r c =
    if is_invalid c
    then (record r { rejected_invalid = add_u32 r.rejected_invalid 1 }, false)
    else if leb capacity (sub_u64 r.tail r.head)
    then (record r { dropped_full = add_u32 r.dropped_full 1 }, false)
    else (
      record r {
        slots = update r.slots (bit_and r.tail mask) (fill_slot (r.slots (bit_and r.tail mask)) c);
        tail = add_u64 r.tail 1;
      },
      true,
    )

-- What `fn` is called with: the first frames * channels samples are its to read.
pub record Delivered : Type 0 where
  pub samples : List ℕ
  pub frames : ℕ
  pub channels : ℕ
  pub sample_rate : ℕ
  pub pts_us : ℤ

unfoldable pub deliver : Slot → Delivered
deliver s = record {
  samples = take (s.frames * s.channels) s.samples;
  frames = s.frames;
  channels = s.channels;
  sample_rate = s.sample_rate;
  pts_us = s.pts_us;
}

unfoldable pub consume : AudioRing → AudioRing × Option Delivered
consume r =
    if r.head == r.tail
    then (r, none)
    else (record r { head = add_u64 r.head 1 }, some (deliver (r.slots (bit_and r.head mask))))

unfoldable pub size : AudioRing → ℕ
size r = sub_u64 r.tail r.head

unfoldable pub is_empty : AudioRing → Bool
unfolding size
is_empty r = size r == 0

unfoldable pub dropped : AudioRing → ℕ
dropped r = add_u32 r.dropped_full r.rejected_invalid
