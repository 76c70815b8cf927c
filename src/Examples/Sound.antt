-- ===== src/Examples/Sound.antt =====
-- The sound path's theorems at concrete chunks.
use reji_studio.Base.{◌≤◌, ◌≡◌, refl, true, some, List, [], ◌∷◌, ◌++◌, arith, length, add_u64, ◌||◌}
use reji_studio.Base.Int.{ℤ, pos, negsuc}
use reji_studio.Audio.Ring.{Chunk, Delivered, is_invalid, fill_slot, deliver, push, consume}
use reji_studio.Audio.Ring.Refine.{
  IsValid, contents, delivered_of, queue_push, queue_pop, push_refines, consume_refines,
}
use reji_studio.Audio.Ring.Threads.{delivered_in_order}
use reji_studio.Audio.Ring.Threads.Steps.{
  System, Producer, Consumer, IsFresh, Reach, Step, write_slot, head_slot,
}
use reji_studio.Audio.Format.{
  make_audio_specific_config, sampling_frequency_index, with_channels, asc_bytes, asc_bits,
  parse_asc, Says, parse-make_audio_specific_config,
}
use reji_studio.Audio.Bridge.{AudioEncodeBridge, Wire, drain, new_bridge}
use reji_studio.Audio.Bridge.Drain.{starts, asc_answer, drain_feeds}
use reji_studio.Audio.Bridge.Drain.Chunks.{matching, all_match}
use reji_studio.Examples.Fixtures.{empty_slot, new_ring, mixed_ring, quiet_aac, taking}

abbrev chunk : Chunk
chunk = record {
  samples = some (1 ∷ 2 ∷ []);
  frames = 1;
  channels = 2;
  sample_rate = 48000;
  pts_us = pos 40;
}

new_ring-IsValid : IsValid new_ring
new_ring-IsValid = record { head_word = omega arith; tail_word = omega arith; fits = omega arith }

mixed_ring-IsValid : IsValid mixed_ring
mixed_ring-IsValid = record { head_word = omega arith; tail_word = omega arith; fits = omega arith }

push_refines_example :
    (contents (push new_ring chunk).0, (push new_ring chunk).1)
    ≡ queue_push (contents new_ring) chunk
push_refines_example = push_refines new_ring chunk new_ring-IsValid (omega arith)

consume_refines_example :
    (contents (consume mixed_ring).0, (consume mixed_ring).1) ≡ queue_pop (contents mixed_ring)
consume_refines_example = consume_refines mixed_ring mixed_ring-IsValid

abbrev at_rest : System
at_rest = record {
  ring = new_ring;
  producer = Producer.resting;
  consumer = Consumer.resting;
  sent = [];
  got = [];
}

abbrev copying : System
copying = record at_rest { producer = Producer.writing chunk }

abbrev copied : System
copied = record copying {
  ring = write_slot new_ring (fill_slot empty_slot chunk);
  producer = Producer.written chunk;
}

abbrev published : System
published = record copied {
  ring = record (copied.ring) { tail = add_u64 0 1 };
  producer = Producer.resting;
  sent = delivered_of chunk ∷ [];
}

abbrev found : System
found = record published { consumer = Consumer.reading }

-- The consumer has been handed the chunk and has not released its slot yet.
abbrev handed_over : System
handed_over = record found {
  consumer = Consumer.done;
  got = deliver (found.ring.slots (head_slot found.ring)) ∷ [];
}

at_rest-IsFresh : IsFresh at_rest
at_rest-IsFresh = record {
  head_zero = refl;
  tail_zero = refl;
  producer_rests = refl;
  consumer_rests = refl;
  nothing_sent = refl;
  nothing_got = refl;
}

run : Reach at_rest handed_over
unfolding is_invalid
run =
    Reach.next
      (Reach.next
        (Reach.next
          (Reach.next
            (Reach.next Reach.here (Step.admit at_rest chunk refl (omega arith) refl refl))
            (Step.fill copying chunk empty_slot refl))
          (Step.publish copied chunk refl))
        (Step.find_chunk published refl refl))
      (Step.call found refl)

delivered_in_order_example :
    (rest : List Delivered) × (handed_over.sent ≡ handed_over.got ++ rest) × (length rest ≤ 16)
delivered_in_order_example = delivered_in_order at_rest-IsFresh run

parse-make_audio_specific_config_example : Says 48000 2 (parse_asc (0x11, 0x90)) × (1 ≤ 2) × (2 ≤ 7)
unfolding make_audio_specific_config sampling_frequency_index with_channels asc_bytes asc_bits
parse-make_audio_specific_config_example =
    parse-make_audio_specific_config 48000 2 (0x11, 0x90) refl

abbrev drifting : List (ℤ × ℤ)
drifting = (pos 300, pos 1500) ∷ (pos 300, pos 2100) ∷ (negsuc 400, pos 2600) ∷ []

abbrev bridge : AudioEncodeBridge
bridge = record (new_bridge mixed_ring) {
  sample_rate = 48000;
  channels = 2;
  bitrate_bps = 128000;
  has_out = true;
  enabled = true;
}

abbrev wire : Wire
wire = record {
  output = record { transport = some 3; transport_atomic = some 3 };
  at_start = taking;
  later = taking;
}

drain_feeds_example :
    ((drain bridge quiet_aac wire (pos 16_000)).0.fed
      ≡ [] ++ matching 2 48000 (contents mixed_ring))
    × (contents (drain bridge quiet_aac wire (pos 16_000)).0.ring ≡ [])
    × ((drain bridge quiet_aac wire (pos 16_000)).0.enabled
        ≡ all_match 2 48000 (contents mixed_ring))
    × ((drain bridge quiet_aac wire (pos 16_000)).0.asc_sent
        ≡ (asc_answer bridge quiet_aac wire taking || asc_answer bridge quiet_aac wire taking))
unfolding starts
drain_feeds_example = drain_feeds bridge quiet_aac wire (pos 16_000) mixed_ring-IsValid refl refl
