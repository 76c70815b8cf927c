-- ===== src/Audio/Ring/Threads.antt =====
-- `push` and `consume` of audio_ring.h as the two threads run them: each load and store of a counter
-- is a step of its own, and the copy into a slot is any number of partial writes. The acquire and
-- release orders of the code are read as sequential consistency. `sent` and `got` record what the
-- producer published and what the consumer was handed; the code keeps no such record.
pub mod Steps
use mathlib.Core.List.{append_assoc}
use reji_studio.Base.{
  ℕ, inl, inr, Bool-cases, zero, suc, ◌+◌, ◌≤◌, ◌<◌, bit_and, ◌≡◌, refl, sym, ap, ◌∙◌, true, false,
  List, [], ◌∷◌, ◌++◌, arith, leb, ◌==◌, update, add_u64, sub_u64, add_u32, drop, length,
}
use reji_studio.Base.Bits.{bit_and-fifteen}
use reji_studio.Audio.Ring.{
  AudioRing, Slot, Chunk, Delivered, capacity, mask, is_invalid, fill_slot, deliver, push,
}
use reji_studio.Audio.Ring.Refine.{
  IsValid, IsBacked, contents, delivered_of, contents-read, contents-write_free, contents-publish,
  contents-counters, contents-empty, length-contents, deliver-fill_slot, valid_not_null,
}
use reji_studio.Audio.Ring.Threads.Steps.{
  reject, overflow, admit, scribble, fill, publish, find_chunk, call, advance, here, next, Producer,
  Consumer, System, tail_slot, head_slot, write_slot, Step, Reach, IsFresh, handed, needs_chunk,
  needs_room, Ready,
}

pub record Inv (s : System) : Type 0 where
  pub valid : IsValid s.ring
  pub ledger : s.sent ≡ s.got ++ drop (handed s.consumer) (contents s.ring)
  pub chunk_there : needs_chunk s.consumer ≤ sub_u64 s.ring.tail s.ring.head
  pub room_there : sub_u64 s.ring.tail s.ring.head + needs_room s.producer ≤ capacity
  pub ready : Ready s.ring s.producer

abbrev room_of : System → ℕ
room_of s = sub_u64 s.ring.tail s.ring.head

write_slot-keeps :
    (s : System) (v : Slot)
    → Inv s
    → room_of s < capacity
    → contents (write_slot s.ring v) ≡ contents s.ring
write_slot-keeps s v inv room = contents-write_free s.ring v inv.valid room

drop-append : (k : ℕ) (xs ys : List Delivered) → k ≤ length xs → drop k (xs ++ ys) ≡ drop k xs ++ ys
drop-append zero xs ys h = refl
drop-append (suc k) [] ys h = absurd (omega arith)
drop-append (suc k) (x ∷ xs) ys h = drop-append k xs ys (omega arith)

tail_slot-write : (r : AudioRing) (v : Slot) → (write_slot r v).slots (tail_slot r) ≡ v
tail_slot-write r v = ground arith

Ready-head : (r : AudioRing) (h : ℕ) (p : Producer) → Ready r p → Ready (record r { head = h }) p
Ready-head r h Producer.resting v = v
Ready-head r h (Producer.writing c) v = v
Ready-head r h (Producer.written c) v = v

Ready-fill :
    (r : AudioRing) (old : Slot) (c : Chunk)
    → Ready r (Producer.writing c)
    → Ready (write_slot r (fill_slot old c)) (Producer.written c)
Ready-fill r old c v =
    ap deliver (tail_slot-write r (fill_slot old c))
    ∙ deliver-fill_slot old c v.0 (valid_not_null c v.1)

-- The contents with a chunk at their front.
front :
    (s : System)
    → Inv s
    → needs_chunk s.consumer ≡ 1
    → contents s.ring
      ≡ deliver (s.ring.slots (head_slot s.ring))
        ∷ contents (record s.ring { head = add_u64 s.ring.head 1 })
front s i h = contents-read s.ring i.valid (omega (arith, h, i.chunk_there))

handed-le : (c : Consumer) → handed c ≤ needs_chunk c
handed-le Consumer.resting = omega arith
handed-le Consumer.reading = omega arith
handed-le Consumer.done = omega arith

ledger-publish :
    (k : ℕ) (got xs ys : List Delivered)
    → k ≤ length xs
    → (got ++ drop k xs) ++ ys ≡ got ++ drop k (xs ++ ys)
ledger-publish k got xs ys h =
    append_assoc got (drop k xs) ys ∙ ap (λ l. got ++ l) (sym (drop-append k xs ys h))

pub Step-Inv : {s t : System} → Step s t → Inv s → Inv t
Step-Inv (reject s c p bad) i = record {
  valid = ground arith;
  ledger =
      i.ledger
      ∙ ap (λ l. s.got ++ drop (handed s.consumer) l)
          (sym (contents-counters s.ring s.ring.dropped_full (add_u32 s.ring.rejected_invalid 1)));
  chunk_there = i.chunk_there;
  room_there = i.room_there;
  ready = rw p tt;
}
Step-Inv (overflow s c p good full) i = record {
  valid = ground arith;
  ledger =
      i.ledger
      ∙ ap (λ l. s.got ++ drop (handed s.consumer) l)
          (sym (contents-counters s.ring (add_u32 s.ring.dropped_full 1) s.ring.rejected_invalid));
  chunk_there = i.chunk_there;
  room_there = i.room_there;
  ready = rw p tt;
}
Step-Inv (admit s c p b good room) i = record {
  valid = i.valid;
  ledger = i.ledger;
  chunk_there = i.chunk_there;
  room_there = ground arith;
  ready = (b, good);
}
Step-Inv (scribble s c torn p) i = record {
  valid = ground arith;
  ledger = rw (write_slot-keeps s torn i (ground arith)) i.ledger;
  chunk_there = i.chunk_there;
  room_there = i.room_there;
  ready = rw p (rw p at i.ready);
}
Step-Inv (fill s c old p) i = record {
  valid = ground arith;
  ledger = rw (write_slot-keeps s (fill_slot old c) i (ground arith)) i.ledger;
  chunk_there = i.chunk_there;
  room_there = ground arith;
  ready = Ready-fill s.ring old c (rw p at i.ready);
}
Step-Inv (publish s c p) i = record {
  valid = ground arith;
  ledger =
      ap (λ l. l ++ (delivered_of c ∷ [])) i.ledger
      ∙ ledger-publish (handed s.consumer) s.got (contents s.ring) (delivered_of c ∷ [])
          (omega (arith, length-contents s.ring, handed-le s.consumer, i.chunk_there))
      ∙ ap (λ l. s.got ++ drop (handed s.consumer) l)
          (sym (
            contents-publish s.ring i.valid (ground arith)
            ∙ ap (λ d. contents s.ring ++ (d ∷ [])) (rw p at i.ready)));
  chunk_there = ground arith;
  room_there = ground arith;
  ready = tt;
}
Step-Inv (find_chunk s p ne) i = record {
  valid = i.valid;
  ledger = ground arith;
  chunk_there = ground arith;
  room_there = i.room_there;
  ready = i.ready;
}
Step-Inv (call s p) i = record {
  valid = i.valid;
  ledger =
      (rw p at i.ledger)
      ∙ rw (front s i (rw p refl)) (
          sym (
            append_assoc s.got (deliver (s.ring.slots (head_slot s.ring)) ∷ [])
              (contents (record s.ring { head = add_u64 s.ring.head 1 }))));
  chunk_there = ground arith;
  room_there = i.room_there;
  ready = i.ready;
}
Step-Inv (advance s p) i = record {
  valid = ground arith;
  ledger = rw (front s i (rw p refl)) at (rw p at i.ledger);
  chunk_there = ground arith;
  room_there = ground arith;
  ready = Ready-head s.ring (add_u64 s.ring.head 1) s.producer i.ready;
}

Fresh-Inv : {s : System} → IsFresh s → Inv s
Fresh-Inv {s} f = record {
  valid = ground arith;
  ledger =
      rw (f.nothing_sent, f.nothing_got, f.consumer_rests)
        (sym (contents-empty s.ring (ground arith) (ground arith)));
  chunk_there = rw f.consumer_rests (omega arith);
  room_there = rw f.producer_rests (ground arith);
  ready = rw f.producer_rests tt;
}

pub Reach-Inv : {s t : System} → IsFresh s → Reach s t → Inv t
Reach-Inv f here = Fresh-Inv f
Reach-Inv f (next r st) = Step-Inv st (Reach-Inv f r)

length-drop-le : (k : ℕ) (xs : List Delivered) → length (drop k xs) ≤ length xs
length-drop-le zero xs = omega arith
length-drop-le (suc k) [] = omega arith
length-drop-le (suc k) (x ∷ xs) = omega (arith, length-drop-le k xs)

-- Under every interleaving of the two threads from a new ring, torn copies included, the chunks
-- handed to the consumer are the first of the chunks published, in order and whole, and at most
-- 16 published chunks are still to come: none is lost, repeated or damaged.
pub delivered_in_order :
    {s t : System}
    → IsFresh s
    → Reach s t
    → (rest : List Delivered) × (t.sent ≡ t.got ++ rest) × (length rest ≤ capacity)
delivered_in_order {t} f r = (
  drop (handed t.consumer) (contents t.ring),
  i.ledger,
  omega (
    arith,
    length-drop-le (handed t.consumer) (contents t.ring),
    length-contents t.ring,
    i.room_there,
  ),
)
  where
    i : Inv t
    i = Reach-Inv f r

write_slot-other :
    (s : System) (v : Slot)
    → Inv s
    → needs_chunk s.consumer ≡ 1
    → needs_room s.producer ≡ 1
    → (write_slot s.ring v).slots (head_slot s.ring) ≡ s.ring.slots (head_slot s.ring)
write_slot-other s v i w p =
    rw (bit_and-fifteen s.ring.head, bit_and-fifteen s.ring.tail) (ground arith)

-- The slot that the consumer works on, from the test for an empty ring to the store of the head,
-- is not written by any step of either thread.
pub slot_stable :
    {s t : System}
    → Inv s
    → needs_chunk s.consumer ≡ 1
    → Step s t
    → t.ring.slots (head_slot s.ring) ≡ s.ring.slots (head_slot s.ring)
slot_stable i w (reject s c p bad) = refl
slot_stable i w (overflow s c p good full) = refl
slot_stable i w (admit s c p b good room) = refl
slot_stable i w (scribble s c torn p) = write_slot-other s torn i w (rw p refl)
slot_stable i w (fill s c old p) = write_slot-other s (fill_slot old c) i w (rw p refl)
slot_stable i w (publish s c p) = refl
slot_stable i w (find_chunk s p ne) = refl
slot_stable i w (call s p) = refl
slot_stable i w (advance s p) = refl

-- The steps of one call with no other thread between them come to what `push` computes.
pub push_steps :
    (s : System) (c : Chunk)
    → s.producer ≡ Producer.resting
    → IsBacked c
    → (t : System) × Reach s t × (t.ring ≡ (push s.ring c).0)
unfolding push
push_steps s c p b = elim (Bool-cases (is_invalid c)) [
  | inl bad ↦ rw bad (_, next here (reject s c p bad), refl)
  | inr good ↦ rw good (elim (Bool-cases (leb capacity (sub_u64 s.ring.tail s.ring.head))) [
    | inl full ↦ rw full (_, next here (overflow s c p good full), refl)
    | inr room ↦ rw room (
      _,
      next
          (next (next here (admit s c p b good room)) (
            fill (record s { producer = Producer.writing c }) c (s.ring.slots (tail_slot s.ring))
              refl))
          (publish _ c refl),
      refl,
    )
  ])
]
