-- ===== src/Rtmp.antt =====
-- src/pipeline/output/rtmp_transport.h and rtmp_transport.cpp: the owner of a transport made by the Zig
-- library. The library is foreign: its answers are arguments, and a journal keeps its calls with the
-- handle they are given. Exceptions are left out.
use reji_studio.Base.{
  ℕ, ◌≡◌, Bool, true, false, ◌||◌, not, Option, none, some, List, [], ◌∷◌, ◌++◌, refl,
  if◌then◌else◌,
}

pub data ZigCall : Type 0 where
  created : ℕ → ZigCall
  initialized : ℕ → ZigCall
  sent : ℕ → ZigCall
  sent_config : ℕ → ZigCall
  sent_audio : ℕ → ZigCall
  asked : ℕ → ZigCall
  closed : ℕ → ZigCall
  destroyed : ℕ → ZigCall

-- handle_, and what a call returns.
pub record Called : Type 0 where
  pub handle : Option ℕ
  pub result : Bool
  pub calls : List ZigCall

-- With the handle that rj_rtmp_create gives.
unfoldable pub init_created : Option ℕ → Bool → Called
init_created none init_ok = record { handle = none; result = false; calls = [] }
init_created (some h) init_ok =
    if init_ok
    then record { handle = some h; result = true; calls = created h ∷ initialized h ∷ [] }
    else record {
      handle = none;
      result = false;
      calls = created h ∷ initialized h ∷ destroyed h ∷ [];
    }

-- Whether the host and the key are given; then the new handle and the answer of rj_rtmp_init.
unfoldable pub init : Option ℕ → Bool → Bool → Option ℕ → Bool → Called
unfolding init_created
init (some h) has_host has_key new_handle init_ok = record {
  handle = some h;
  result = false;
  calls = [];
}
init none has_host has_key new_handle init_ok =
    if not has_host || not has_key
    then record { handle = none; result = false; calls = [] }
    else init_created new_handle init_ok

-- A call through the handle, false without one.
unfoldable pub through : (ℕ → ZigCall) → Option ℕ → Bool → Called
through call none answer = record { handle = none; result = false; calls = [] }
through call (some h) answer = record { handle = some h; result = answer; calls = call h ∷ [] }

unfoldable pub send : Option ℕ → Bool → Called
unfolding through
send handle answer = through sent handle answer

unfoldable pub set_audio_config : Option ℕ → Bool → Called
unfolding through
set_audio_config handle answer = through sent_config handle answer

unfoldable pub send_audio : Option ℕ → Bool → Called
unfolding through
send_audio handle answer = through sent_audio handle answer

unfoldable pub is_connected : Option ℕ → Bool → Called
unfolding through
is_connected handle answer = through asked handle answer

unfoldable pub shutdown : Option ℕ → Called
shutdown none = record { handle = none; result = true; calls = [] }
shutdown (some h) = record { handle = some h; result = true; calls = closed h ∷ [] }

-- ~RtmpTransport.
unfoldable pub destroy : Option ℕ → Called
destroy none = record { handle = none; result = true; calls = [] }
destroy (some h) = record { handle = none; result = true; calls = destroyed h ∷ [] }

-- What is done with a transport, with the answers.
pub data Use : Type 0 where
  start : Bool → Bool → Option ℕ → Bool → Use
  packet : Bool → Use
  audio_config : Bool → Use
  audio_packet : Bool → Use
  connected : Bool → Use
  stop : Use

unfoldable pub use_once : Option ℕ → Use → Called
unfolding init send set_audio_config send_audio is_connected shutdown
use_once h (start has_host has_key fresh ok) = init h has_host has_key fresh ok
use_once h (packet answer) = send h answer
use_once h (audio_config answer) = set_audio_config h answer
use_once h (audio_packet answer) = send_audio h answer
use_once h (connected answer) = is_connected h answer
use_once h stop = shutdown h

-- A transport's uses, and its end.
unfoldable pub life : Option ℕ → List Use → List ZigCall
unfolding use_once destroy
life h [] = (destroy h).calls
life h (u ∷ us) = let o = use_once h u in o.calls ++ life o.handle us

-- Every call is given the handle that the library has given and has not been told to destroy, at most
-- one at a time, and none is left: the handles there are before and after a journal.
abbrev pub IsOrdered : Option ℕ → List ZigCall → Type 0
IsOrdered none [] = Unit
IsOrdered (some h) [] = ⊥
IsOrdered none (created k ∷ cs) = IsOrdered (some k) cs
IsOrdered (some h) (created k ∷ cs) = ⊥
IsOrdered none (_ ∷ cs) = ⊥
IsOrdered (some h) (destroyed k ∷ cs) = (k ≡ h) × IsOrdered none cs
IsOrdered (some h) (initialized k ∷ cs) = (k ≡ h) × IsOrdered (some h) cs
IsOrdered (some h) (sent k ∷ cs) = (k ≡ h) × IsOrdered (some h) cs
IsOrdered (some h) (sent_config k ∷ cs) = (k ≡ h) × IsOrdered (some h) cs
IsOrdered (some h) (sent_audio k ∷ cs) = (k ≡ h) × IsOrdered (some h) cs
IsOrdered (some h) (asked k ∷ cs) = (k ≡ h) × IsOrdered (some h) cs
IsOrdered (some h) (closed k ∷ cs) = (k ≡ h) × IsOrdered (some h) cs

start-IsOrdered :
    (fresh : Option ℕ) (ok : Bool) (cs : List ZigCall)
    → IsOrdered (init_created fresh ok).handle cs
    → IsOrdered none ((init_created fresh ok).calls ++ cs)
unfolding init_created
start-IsOrdered none ok cs h = h
start-IsOrdered (some k) true cs h = (refl, h)
start-IsOrdered (some k) false cs h = (refl, (refl, h))

start-if :
    (b : Bool) (o : Called) (cs : List ZigCall)
    → (IsOrdered o.handle cs → IsOrdered none (o.calls ++ cs))
    → let p : Called = if b then record { handle = none; result = false; calls = [] } else o in
      IsOrdered p.handle cs → IsOrdered none (p.calls ++ cs)
start-if true o cs f h = h
start-if false o cs f h = f h

use-IsOrdered :
    (h : Option ℕ) (u : Use) (cs : List ZigCall)
    → IsOrdered (use_once h u).handle cs
    → IsOrdered h ((use_once h u).calls ++ cs)
unfolding use_once init send set_audio_config send_audio is_connected shutdown through
use-IsOrdered none (start has_host has_key fresh ok) cs o =
    start-if (not has_host || not has_key) (init_created fresh ok) cs (start-IsOrdered fresh ok cs)
      o
use-IsOrdered none (packet answer) cs o = o
use-IsOrdered none (audio_config answer) cs o = o
use-IsOrdered none (audio_packet answer) cs o = o
use-IsOrdered none (connected answer) cs o = o
use-IsOrdered none stop cs o = o
use-IsOrdered (some h) (start has_host has_key fresh ok) cs o = o
use-IsOrdered (some h) (packet answer) cs o = (refl, o)
use-IsOrdered (some h) (audio_config answer) cs o = (refl, o)
use-IsOrdered (some h) (audio_packet answer) cs o = (refl, o)
use-IsOrdered (some h) (connected answer) cs o = (refl, o)
use-IsOrdered (some h) stop cs o = (refl, o)

-- Over any uses of an RTMP transport in any order, and its end, with any answers of the library: every
-- call of the library is given the handle that it created last and that is not destroyed, no second
-- handle is created while there is one, and at the end every handle created has been destroyed once.
pub life-IsOrdered : (h : Option ℕ) (us : List Use) → IsOrdered h (life h us)
unfolding life destroy
life-IsOrdered none [] = tt
life-IsOrdered (some h) [] = (refl, tt)
life-IsOrdered h (u ∷ us) =
    use-IsOrdered h u (life (use_once h u).handle us) (life-IsOrdered (use_once h u).handle us)
