-- ===== src/Nvenc/Handles.antt =====
-- The handles of encode_nvenc.cpp: who takes one, who gives it back, who holds it.
pub mod Stages
pub mod Setup
pub mod Requests
pub mod Whole
use reji_studio.Base.{
  one_if, is_at, ℕ, ◌+◌, ◌≡◌, Bool, true, false, Option, none, some, List, [], ◌∷◌, ◌++◌, ◌==◌,
  if◌then◌else◌, arith,
}
use reji_studio.Nvenc.{
  Handle, library, session, buffer, resource, mapped, locked, NvCall, took, gave_back, Impl,
  Outcome, and_then,
}

abbrev pub same_pointer : Option ℕ → Option ℕ → Bool
same_pointer none none = true
same_pointer (some a) (some b) = a == b
same_pointer _ _ = false

abbrev pub same : Handle → Handle → Bool
same (library a) (library b) = a == b
same (session a) (session b) = a == b
same (buffer a) (buffer b) = a == b
same (resource a) (resource b) = a == b
same (mapped a) (mapped b) = a == b
same (locked a) (locked b) = same_pointer a b
same _ _ = false

-- How often a call, and a journal, takes a handle and gives it back.
abbrev pub takes : Handle → NvCall → ℕ
takes k (took h) = one_if (same h k)
takes k _ = 0

abbrev pub gives : Handle → NvCall → ℕ
gives k (gave_back h) = one_if (same h k)
gives k _ = 0

abbrev pub acquired : Handle → List NvCall → ℕ
acquired k [] = 0
acquired k (c ∷ cs) = takes k c + acquired k cs

abbrev pub released : Handle → List NvCall → ℕ
released k [] = 0
released k (c ∷ cs) = gives k c + released k cs

-- How many members of the state hold a handle. Nothing stays mapped or locked between calls.
abbrev pub holds : Handle → Impl → ℕ
holds (library x) s = is_at s.dll x
holds (session x) s = is_at s.nv_session x
holds (buffer x) s = is_at (s.out_bufs 0) x + (is_at (s.out_bufs 1) x + is_at (s.out_bufs 2) x)
holds (resource x) s = is_at s.reg_res x
holds (mapped x) s = 0
holds (locked x) s = 0

-- What an operation takes is what it gives back and what the state holds more than before.
abbrev pub IsBalanced : Handle → Impl → Outcome → Type 0
IsBalanced k s o = acquired k o.calls + holds k s ≡ released k o.calls + holds k o.state

pub acquired-append :
    (k : Handle) (xs ys : List NvCall) → acquired k (xs ++ ys) ≡ acquired k xs + acquired k ys
acquired-append k [] ys = omega arith
acquired-append k (c ∷ xs) ys = omega (arith, acquired-append k xs ys)

pub released-append :
    (k : Handle) (xs ys : List NvCall) → released k (xs ++ ys) ≡ released k xs + released k ys
released-append k [] ys = omega arith
released-append k (c ∷ xs) ys = omega (arith, released-append k xs ys)

-- Two stages in a row: the second is balanced in the state that the first leaves.
pub IsBalanced-join :
    (k : Handle) (s : Impl) (o n : Outcome)
    → IsBalanced k s o
    → IsBalanced k o.state n
    → acquired k (o.calls ++ n.calls) + holds k s
      ≡ released k (o.calls ++ n.calls) + holds k n.state
IsBalanced-join k s o n p q =
    omega (arith, p, q, acquired-append k o.calls n.calls, released-append k o.calls n.calls)

join_if :
    (k : Handle) (s : Impl) (b : Bool) (o n : Outcome)
    → IsBalanced k s o
    → IsBalanced k o.state n
    → IsBalanced k s (if b then record n { calls = o.calls ++ n.calls } else o)
join_if k s true o n p q = IsBalanced-join k s o n p q
join_if k s false o n p q = p

pub IsBalanced-and_then :
    (k : Handle) (s : Impl) (o : Outcome) (next : Impl → Outcome)
    → IsBalanced k s o
    → IsBalanced k o.state (next o.state)
    → IsBalanced k s (and_then o next)
unfolding and_then
IsBalanced-and_then k s o next p q = join_if k s o.ok o (next o.state) p q
