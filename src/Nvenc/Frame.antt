-- ===== src/Nvenc/Frame.antt =====
-- src/pipeline/encode/encode_nvenc.cpp: one frame, from the texture to the packet.
use reji_studio.Base.{
  ℕ, ◌+◌, ◌%◌, ◌^◌, Bool, true, false, ◌&&◌, Option, none, some, List, [], ◌∷◌, ◌++◌, ◌==◌,
  if◌then◌else◌, ltb, not,
}
use reji_studio.Base.Int.{ℤ}
use reji_studio.Nvenc.{
  resource, mapped, locked, NvCall, took, gave_back, encode_picture, hand_over, Impl, Outcome,
  and_then, refused, bitstream_pool_size,
}
use reji_studio.Nvenc.Session.{give_back}

pub data Status : Type 0 where
  success : Status
  need_more_input : Status
  failure : Status

-- What a locked bitstream shows: its size, and whether the picture is of type IDR or I.
pub record Bitstream : Type 0 where
  pub size : ℕ
  pub is_intra : Bool

-- The answers to one frame's calls; a failing registration, mapping or lock answers `none`.
pub record FrameAnswers : Type 0 where
  pub registered : Option ℕ
  pub mapped_input : Option ℕ
  pub encoded : Status
  pub bitstream : Option Bitstream

-- The old registration is given up before the new one is asked for.
unfoldable pub register_anew : Impl → ℕ → FrameAnswers → Outcome
register_anew s tex a =
    let dropped = give_back resource s.reg_res in
    elim a.registered [
      | none ↦ record {
        state = record s {
          reg_res = none;
          reg_tex = elim s.reg_res [ none ↦ s.reg_tex | some r ↦ none ];
        };
        ok = false;
        calls = dropped;
      }
      | some r ↦ record {
        state = record s { reg_res = some r; reg_tex = some tex };
        ok = true;
        calls = dropped ++ took (resource r) ∷ [];
      }
    ]

-- tex == reg_tex && reg_res
abbrev pub is_cached : ℕ → Option ℕ → Option ℕ → Bool
is_cached tex none res = false
is_cached tex (some t) none = false
is_cached tex (some t) (some r) = tex == t

unfoldable pub ensure_registered : Impl → ℕ → FrameAnswers → Outcome
unfolding register_anew
ensure_registered s tex a =
    if is_cached tex s.reg_tex s.reg_res
    then record { state = s; ok = true; calls = [] }
    else register_anew s tex a

-- The packet goes to the callback, if one is set and the bitstream is not empty.
unfoldable pub delivered : Bool → Bitstream → ℤ → List NvCall
delivered on_packet b pts =
    if on_packet && ltb 0 b.size
    then hand_over (record { size = b.size; is_keyframe = b.is_intra; pts = pts }) ∷ []
    else []

unfoldable pub drain_one : ℤ → FrameAnswers → Impl → Outcome
unfolding delivered
drain_one pts a s =
    let out = s.out_bufs s.out_idx in
    elim a.bitstream [
      | none ↦ refused s
      | some b ↦ record {
        state = record s { out_idx = (s.out_idx + 1) % bitstream_pool_size };
        ok = true;
        calls = took (locked out) ∷ delivered s.on_packet b pts ++ gave_back (locked out) ∷ [];
      }
    ]

-- What follows EncodePicture and its unmapping.
unfoldable pub after_picture : ℤ → FrameAnswers → Impl → Status → Outcome
unfolding drain_one
after_picture pts a s success = drain_one pts a s
after_picture pts a s need_more_input = record { state = s; ok = true; calls = [] }
after_picture pts a s failure = refused s

-- From MapInputResource on, with its answer.
unfoldable pub submit_mapped : ℤ → Bool → FrameAnswers → Impl → Option ℕ → Outcome
unfolding after_picture
submit_mapped pts force_idr a s none = refused s
submit_mapped pts force_idr a s (some m) =
    let rest = after_picture pts a (record s { frame_idx = s.frame_idx + 1 }) a.encoded in
    record rest {
      calls =
          took (mapped m)
          ∷ encode_picture m (s.out_bufs s.out_idx) force_idr pts (s.frame_idx % 2 ^ 32)
          ∷ gave_back (mapped m)
          ∷ rest.calls;
    }

unfoldable pub submit : ℤ → Bool → FrameAnswers → Impl → Outcome
unfolding submit_mapped
submit pts force_idr a s = submit_mapped pts force_idr a s a.mapped_input

unfoldable pub encode_one : Impl → ℕ → ℤ → Bool → FrameAnswers → Outcome
unfolding ensure_registered submit and_then
encode_one s tex pts force_idr a = and_then (ensure_registered s tex a) (submit pts force_idr a)

unfoldable pub encode_frame : Impl → Option ℕ → ℤ → Bool → FrameAnswers → Outcome
unfolding encode_one
encode_frame s none pts force_idr a = refused s
encode_frame s (some tex) pts force_idr a =
    if not s.initialized then refused s else encode_one s tex pts force_idr a
