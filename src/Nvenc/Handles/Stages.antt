-- ===== src/Nvenc/Handles/Stages.antt =====
-- The single stages of encode_nvenc.cpp, handle by handle.
use reji_studio.Base.{ℕ, ◌+◌, ◌≡◌, Bool, Option, none, some, arith, refl}
use reji_studio.Base.Int.{ℤ}
use reji_studio.Nvenc.{Handle, Impl}
use reji_studio.Nvenc.Session.{
  InitAnswers, load_dll, open_session, init_encoder, create_bufs, create_output_bufs, destroy,
  destroy_bufs, clear_bufs,
}
use reji_studio.Nvenc.Frame.{
  FrameAnswers, Status, success, need_more_input, failure, ensure_registered, delivered, drain_one,
  after_picture, submit, submit_mapped,
}
use reji_studio.Nvenc.Handles.{IsBalanced, acquired, released, holds}

pub load_dll-IsBalanced :
    (k : Handle) (v : ℕ) (s : Impl) (a : InitAnswers)
    → s.dll ≡ none
    → IsBalanced k s (load_dll v s a)
unfolding load_dll
load_dll-IsBalanced k v s a e = ground (arith, e)

pub open_session-IsBalanced :
    (k : Handle) (a : InitAnswers) (s : Impl)
    → s.nv_session ≡ none
    → IsBalanced k s (open_session a s)
unfolding open_session
open_session-IsBalanced k a s e = ground (arith, e)

pub init_encoder-IsBalanced :
    (k : Handle) (a : InitAnswers) (s : Impl) → IsBalanced k s (init_encoder a s)
unfolding init_encoder
init_encoder-IsBalanced k a s = ground arith

pub create_output_bufs-IsBalanced :
    (k : Handle) (a : InitAnswers) (s : Impl)
    → s.out_bufs 0 ≡ none
    → s.out_bufs 1 ≡ none
    → s.out_bufs 2 ≡ none
    → IsBalanced k s (create_output_bufs a s)
unfolding create_output_bufs create_bufs
create_output_bufs-IsBalanced k a s p q r = ground (arith, p, q, r)

pub register-IsBalanced :
    (k : Handle) (s : Impl) (tex : ℕ) (a : FrameAnswers)
    → IsBalanced k s (ensure_registered s tex a)
unfolding ensure_registered
register-IsBalanced k s tex a = ground arith

drain_one-IsBalanced :
    (k : Handle) (pts : ℤ) (a : FrameAnswers) (s : Impl) → IsBalanced k s (drain_one pts a s)
unfolding drain_one delivered
drain_one-IsBalanced k pts a s = ground arith

after_picture-IsBalanced :
    (k : Handle) (pts : ℤ) (a : FrameAnswers) (s : Impl) (st : Status)
    → IsBalanced k s (after_picture pts a s st)
unfolding after_picture
after_picture-IsBalanced k pts a s success = drain_one-IsBalanced k pts a s
after_picture-IsBalanced k pts a s need_more_input = refl
after_picture-IsBalanced k pts a s failure = refl

counted : (k : Handle) (s : Impl) → holds k (record s { frame_idx = s.frame_idx + 1 }) ≡ holds k s
counted k s = ground arith

submit_mapped-IsBalanced :
    (k : Handle) (pts : ℤ) (idr : Bool) (a : FrameAnswers) (s : Impl) (m : Option ℕ)
    → IsBalanced k s (submit_mapped pts idr a s m)
unfolding submit_mapped
submit_mapped-IsBalanced k pts idr a s none = refl
submit_mapped-IsBalanced k pts idr a s (some m) =
    let counting = record s { frame_idx = s.frame_idx + 1 } in
    omega (arith, counted k s, after_picture-IsBalanced k pts a counting a.encoded)

pub submit-IsBalanced :
    (k : Handle) (pts : ℤ) (idr : Bool) (a : FrameAnswers) (s : Impl)
    → IsBalanced k s (submit pts idr a s)
unfolding submit
submit-IsBalanced k pts idr a s = submit_mapped-IsBalanced k pts idr a s a.mapped_input

pub destroy-gives_all :
    (k : Handle) (s : Impl)
    → released k (destroy s).calls ≡ acquired k (destroy s).calls + holds k s
unfolding destroy destroy_bufs
destroy-gives_all k s = ground arith

pub destroy-holds : (k : Handle) (s : Impl) → holds k (destroy s).state ≡ 0
unfolding destroy clear_bufs
destroy-holds k s = ground arith
