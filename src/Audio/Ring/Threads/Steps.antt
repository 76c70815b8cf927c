-- ===== src/Audio/Ring/Threads/Steps.antt =====
-- The two threads of audio_ring.h: their places and the steps of each.
use reji_studio.Base.{
  ℕ, bit_and, ◌≡◌, true, false, List, [], ◌∷◌, ◌++◌, leb, ◌==◌, update, add_u64, sub_u64, add_u32,
}
use reji_studio.Audio.Ring.{
  AudioRing, Slot, Chunk, Delivered, capacity, mask, is_invalid, fill_slot, deliver,
}
use reji_studio.Audio.Ring.Refine.{IsBacked, delivered_of}

-- Where a thread stands between its atomic operations.
pub data Producer : Type 0 where
  resting : Producer
  writing : Chunk → Producer
  written : Chunk → Producer

pub data Consumer : Type 0 where
  resting : Consumer
  reading : Consumer
  done : Consumer

pub record System : Type 0 where
  pub ring : AudioRing
  pub producer : Producer
  pub consumer : Consumer
  pub sent : List Delivered
  pub got : List Delivered

abbrev pub tail_slot : AudioRing → ℕ
tail_slot r = bit_and r.tail mask

abbrev pub head_slot : AudioRing → ℕ
head_slot r = bit_and r.head mask

abbrev pub write_slot : AudioRing → Slot → AudioRing
write_slot r v = record r { slots = update r.slots (tail_slot r) v }

pub data Step : System → System → Type 0 where
  -- The checks of `push`: the chunk, then the room by the consumer's counter.
  reject :
      (s : System) (c : Chunk)
      → s.producer ≡ Producer.resting
      → is_invalid c ≡ true
      → Step s (record s {
        ring = record s.ring { rejected_invalid = add_u32 s.ring.rejected_invalid 1 };
      })
  overflow :
      (s : System) (c : Chunk)
      → s.producer ≡ Producer.resting
      → is_invalid c ≡ false
      → leb capacity (sub_u64 s.ring.tail s.ring.head) ≡ true
      → Step s (record s { ring = record s.ring { dropped_full = add_u32 s.ring.dropped_full 1 } })
  admit :
      (s : System) (c : Chunk)
      → s.producer ≡ Producer.resting
      → IsBacked c
      → is_invalid c ≡ false
      → leb capacity (sub_u64 s.ring.tail s.ring.head) ≡ false
      → Step s (record s { producer = Producer.writing c })
  -- A part of the fields and samples is in place, the rest is anything.
  scribble :
      (s : System) (c : Chunk) (torn : Slot)
      → s.producer ≡ Producer.writing c
      → Step s (record s { ring = write_slot s.ring torn })
  fill :
      (s : System) (c : Chunk) (old : Slot)
      → s.producer ≡ Producer.writing c
      → Step s
          (record s { ring = write_slot s.ring (fill_slot old c); producer = Producer.written c })
  publish :
      (s : System) (c : Chunk)
      → s.producer ≡ Producer.written c
      → Step s (record s {
        ring = record s.ring { tail = add_u64 s.ring.tail 1 };
        producer = Producer.resting;
        sent = s.sent ++ (delivered_of c ∷ []);
      })
  -- `consume`: the test for an empty ring, the call of `fn`, the store of the counter.
  find_chunk :
      (s : System)
      → s.consumer ≡ Consumer.resting
      → (s.ring.head == s.ring.tail) ≡ false
      → Step s (record s { consumer = Consumer.reading })
  call :
      (s : System)
      → s.consumer ≡ Consumer.reading
      → Step s (record s {
        consumer = Consumer.done;
        got = s.got ++ (deliver (s.ring.slots (head_slot s.ring)) ∷ []);
      })
  advance :
      (s : System)
      → s.consumer ≡ Consumer.done
      → Step s (record s {
        ring = record s.ring { head = add_u64 s.ring.head 1 };
        consumer = Consumer.resting;
      })

pub data Reach (s : System) : System → Type 0 where
  here : Reach s s
  next : {t u : System} → Reach s t → Step t u → Reach s u

-- A ring just built, both threads at rest.
pub record IsFresh (s : System) : Type 0 where
  pub head_zero : s.ring.head ≡ 0
  pub tail_zero : s.ring.tail ≡ 0
  pub producer_rests : s.producer ≡ Producer.resting
  pub consumer_rests : s.consumer ≡ Consumer.resting
  pub nothing_sent : s.sent ≡ []
  pub nothing_got : s.got ≡ []

-- How many chunks at the front have been handed over but not yet released.
abbrev pub handed : Consumer → ℕ
handed Consumer.resting = 0
handed Consumer.reading = 0
handed Consumer.done = 1

abbrev pub needs_chunk : Consumer → ℕ
needs_chunk Consumer.resting = 0
needs_chunk Consumer.reading = 1
needs_chunk Consumer.done = 1

abbrev pub needs_room : Producer → ℕ
needs_room Producer.resting = 0
needs_room (Producer.writing c) = 1
needs_room (Producer.written c) = 1

-- The chunk that a producer is about to publish lies whole in its slot.
abbrev pub Ready : AudioRing → Producer → Type 0
Ready r Producer.resting = Unit {0}
Ready r (Producer.writing c) = IsBacked c × (is_invalid c ≡ false)
Ready r (Producer.written c) = deliver (r.slots (tail_slot r)) ≡ delivered_of c
