-- ===== src/Audio/Ring/Refine.antt =====
-- The ring is a bounded first-in first-out queue of the chunks it was given, across the wrap of its
-- 64-bit counters.
use mathlib.Core.List.{map-append}
use mathlib.Core.Bool.{false≢true}
use reji_studio.Base.{
  ℕ, zero, suc, sym, Option-cases, length-map, ◌-◌, ◌*◌, ◌%◌, ◌^◌, ◌≤◌, ◌<◌, bit_and, ◌≡◌, refl, ap,
  ◌∙◌, ◌≢◌, inl, inr, Bool, true, false, Option, none, some, List, [], ◌∷◌, ◌++◌, map, arith, leb,
  ◌==◌, if◌then◌else◌, Bool-cases, take, drop, update, add_u64, sub_u64, length,
}
use reji_studio.Base.Bits.{bit_and-fifteen}
use reji_studio.Audio.Ring.{
  AudioRing, Slot, Chunk, Delivered, capacity, mask, is_null, is_invalid, sample_count, data_of,
  fill_slot, copy_samples, deliver, push, consume,
}
use reji_studio.Audio.Ring.Window.{
  window, length-window, window-zero, window_of_pos, window-update, window-update_free, window-suc,
}

-- The counters are 64-bit words, and at most 16 slots lie between them.
pub record IsValid (r : AudioRing) : Type 0 where
  pub head_word : r.head < 2 ^ 64
  pub tail_word : r.tail < 2 ^ 64
  pub fits : sub_u64 r.tail r.head ≤ capacity

-- The chunks in the ring, as `consume` will deliver them, oldest first.
pub contents : AudioRing → List Delivered
contents r = map deliver (window r.slots r.head (sub_u64 r.tail r.head))

-- The chunk as its producer meant it.
unfoldable pub delivered_of : Chunk → Delivered
delivered_of c = record {
  samples = take (sample_count c) (data_of c.samples []);
  frames = c.frames;
  channels = c.channels;
  sample_rate = c.sample_rate;
  pts_us = c.pts_us;
}

-- The producer's pointer covers the samples that it announces.
abbrev pub IsBacked : Chunk → Type 0
IsBacked c = sample_count c ≤ length (data_of c.samples [])

take-append_of_le : (n : ℕ) (xs ys : List ℕ) → n ≤ length xs → take n (take n xs ++ ys) ≡ take n xs
take-append_of_le zero xs ys h = refl
take-append_of_le (suc n) [] ys h = absurd (omega arith)
take-append_of_le (suc n) (x ∷ xs) ys h = ap (λ l. x ∷ l) (take-append_of_le n xs ys (omega arith))

pub deliver-fill_slot :
    (old : Slot) (c : Chunk)
    → IsBacked c
    → is_null c.samples ≡ false
    → deliver (fill_slot old c) ≡ delivered_of c
unfolding deliver fill_slot copy_samples delivered_of
deliver-fill_slot old c b nn = elim (Option-cases c.samples) [
  | inl e ↦ absurd (false≢true (sym nn ∙ ap is_null e))
  | inr (xs, e) ↦ ground (
    arith,
    take-append_of_le (c.frames * c.channels) xs (drop (c.frames * c.channels) old.samples),
  )
]

-- The bounded queue that the ring stands for: what a push of `c` makes of its contents.
unfoldable pub queue_push : List Delivered → Chunk → List Delivered × Bool
unfolding delivered_of
queue_push q c =
    if is_invalid c
    then (q, false)
    else if leb capacity (length q)
    then (q, false)
    else (q ++ (delivered_of c ∷ []), true)

unfoldable pub queue_pop : List Delivered → List Delivered × Option Delivered
queue_pop [] = ([], none)
queue_pop (d ∷ q) = (q, some d)

pub push-IsValid : (r : AudioRing) (c : Chunk) → IsValid r → IsValid (push r c).0
unfolding push
push-IsValid r c v = ground arith

pub consume-IsValid : (r : AudioRing) → IsValid r → IsValid (consume r).0
unfolding consume
consume-IsValid r v = ground arith

-- A slot written behind the newest one, with the tail moved over it, extends the contents.
pub contents-write :
    (r : AudioRing) (s : Slot)
    → IsValid r
    → sub_u64 r.tail r.head < capacity
    → contents
        (record r { slots = update r.slots (bit_and r.tail mask) s; tail = add_u64 r.tail 1 })
      ≡ contents r ++ (deliver s ∷ [])
unfolding contents
contents-write r s v room =
    rw (bit_and-fifteen r.tail, grown)
      (rw
        (window-update r.slots s (sub_u64 r.tail r.head) r.head r.tail room (omega arith)
          (omega arith))
        (map-append deliver (window r.slots r.head (sub_u64 r.tail r.head)) (s ∷ [])))
  where
    grown : sub_u64 (add_u64 r.tail 1) r.head ≡ suc (sub_u64 r.tail r.head)
    grown = omega arith

-- `contents` looks at the slots and the two counters only.
pub contents-counters :
    (r : AudioRing) (d j : ℕ)
    → contents (record r { dropped_full = d; rejected_invalid = j }) ≡ contents r
unfolding contents
contents-counters r d j = refl

-- A write into the slot behind the newest one is not seen.
pub contents-write_free :
    (r : AudioRing) (s : Slot)
    → IsValid r
    → sub_u64 r.tail r.head < capacity
    → contents (record r { slots = update r.slots (bit_and r.tail mask) s }) ≡ contents r
unfolding contents
contents-write_free r s v room = rw (bit_and-fifteen r.tail) (
    ap (map deliver) (
      window-update_free r.slots s (sub_u64 r.tail r.head) (sub_u64 r.tail r.head) r.head r.tail
        (omega arith) room (omega arith)))

-- Moving the tail over a slot makes that slot the newest of the contents.
pub contents-publish :
    (r : AudioRing)
    → IsValid r
    → sub_u64 r.tail r.head < capacity
    → contents (record r { tail = add_u64 r.tail 1 })
      ≡ contents r ++ (deliver (r.slots (bit_and r.tail mask)) ∷ [])
unfolding contents
contents-publish r v room =
    rw (bit_and-fifteen r.tail, grown)
      (rw (window-suc r.slots (sub_u64 r.tail r.head) r.head r.tail (omega arith)) (
        map-append deliver (window r.slots r.head (sub_u64 r.tail r.head))
          (r.slots (r.tail % 16) ∷ [])))
  where
    grown : sub_u64 (add_u64 r.tail 1) r.head ≡ suc (sub_u64 r.tail r.head)
    grown = omega arith

pub length-contents : (r : AudioRing) → length (contents r) ≡ sub_u64 r.tail r.head
unfolding contents
length-contents r =
    length-map deliver (window r.slots r.head (sub_u64 r.tail r.head))
    ∙ length-window r.slots r.head (sub_u64 r.tail r.head)

pub valid_not_null : (c : Chunk) → is_invalid c ≡ false → is_null c.samples ≡ false
unfolding is_invalid
valid_not_null c h = ground arith

-- A push does to the ring what it does to the bounded queue of its contents, and returns the same
-- flag: a chunk is refused exactly when it is empty, too long or null, or the queue holds 16.
pub push_refines :
    (r : AudioRing) (c : Chunk)
    → IsValid r
    → IsBacked c
    → (contents (push r c).0, (push r c).1) ≡ queue_push (contents r) c
unfolding push queue_push contents
push_refines r c v b = elim (Bool-cases (is_invalid c)) [
  | inl bad ↦ rw bad refl
  | inr good ↦
      rw (good, length-contents r)
        (elim (Bool-cases (leb capacity (sub_u64 r.tail r.head))) [
          | inl full ↦ rw full refl
          | inr room ↦ rw room (
              ground (
                arith,
                contents-write r (fill_slot (r.slots (bit_and r.tail mask)) c) v (ground arith),
                deliver-fill_slot (r.slots (bit_and r.tail mask)) c b (valid_not_null c good),
              ))
        ])
]

pub contents-empty : (r : AudioRing) → IsValid r → r.head ≡ r.tail → contents r ≡ []
unfolding contents
contents-empty r v e = rw (none_left, window-zero r.slots r.head) refl
  where
    none_left : sub_u64 r.tail r.head ≡ 0
    none_left = omega arith

pub contents-read :
    (r : AudioRing)
    → IsValid r
    → r.head ≢ r.tail
    → contents r
      ≡ deliver (r.slots (bit_and r.head mask)) ∷ contents (record r { head = add_u64 r.head 1 })
unfolding contents
contents-read r v ne =
    rw (bit_and-fifteen r.head, shrunk)
      (ap (map deliver) (window_of_pos r.slots r.head (sub_u64 r.tail r.head) (omega arith)))
  where
    shrunk : sub_u64 r.tail (add_u64 r.head 1) ≡ sub_u64 r.tail r.head - 1
    shrunk = omega arith

-- A consume hands over the oldest chunk of the contents and leaves the others; it fails on the
-- empty ring only.
pub consume_refines :
    (r : AudioRing) → IsValid r → (contents (consume r).0, (consume r).1) ≡ queue_pop (contents r)
unfolding consume queue_pop
consume_refines r v = elim (Bool-cases (r.head == r.tail)) [
  | inl e ↦ rw e (rw (contents-empty r v (ground arith)))
  | inr ne ↦ rw ne (rw (contents-read r v (ground arith)))
]
