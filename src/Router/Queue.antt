-- ===== src/Router/Queue.antt =====
-- The ring of frame commands is a bounded queue of 15 places.
use reji_studio.Base.{
  ℕ, zero, suc, ◌+◌, ◌-◌, ◌%◌, ◌<◌, ◌≡◌, refl, ap, ap₂, inl, inr, Bool-cases, Bool, true, false,
  List, [], ◌∷◌, ◌++◌, arith, ltb, ◌==◌, if◌then◌else◌, update, length,
}
use reji_studio.Router.{CommandRouter, FrameCmd, push_frame_cmd}

-- The commands from `tail` on, `n` of them, going round at 16.
unfoldable pub ring_window : (ℕ → FrameCmd) → ℕ → ℕ → List FrameCmd
ring_window buf tail zero = []
ring_window buf tail (suc n) = buf tail ∷ ring_window buf ((tail + 1) % 16) n

abbrev pub waiting : CommandRouter → ℕ
waiting r = (r.frame_cmd_head + 16 - r.frame_cmd_tail) % 16

-- The commands that wait, oldest first.
unfoldable pub queued : CommandRouter → List FrameCmd
queued r = ring_window r.frame_cmd_buf r.frame_cmd_tail (waiting r)

pub record IsValid (r : CommandRouter) : Type 0 where
  pub head_in : r.frame_cmd_head < 16
  pub tail_in : r.frame_cmd_tail < 16

pub length-ring_window : (buf : ℕ → FrameCmd) (tail n : ℕ) → length (ring_window buf tail n) ≡ n
unfolding ring_window
length-ring_window buf tail zero = refl
length-ring_window buf tail (suc n) = ap suc (length-ring_window buf ((tail + 1) % 16) n)

ring_window-update :
    (buf : ℕ → FrameCmd) (c : FrameCmd) (n tail head : ℕ)
    → n < 16
    → tail < 16
    → head ≡ (tail + n) % 16
    → ring_window (update buf head c) tail (suc n) ≡ ring_window buf tail n ++ (c ∷ [])
unfolding ring_window
ring_window-update buf c zero tail head h t e = ground arith
ring_window-update buf c (suc n) tail head h t e =
    ap₂ ◌∷◌ (ground arith)
      (ring_window-update buf c n ((tail + 1) % 16) head (omega arith) (omega arith) (omega arith))

pub push_frame_cmd-IsValid :
    (r : CommandRouter) (c : FrameCmd) → IsValid r → IsValid (push_frame_cmd r c).0
unfolding push_frame_cmd
push_frame_cmd-IsValid r c v = ground arith

-- What a push shows of the queue.
abbrev pub queued_result : CommandRouter × Bool → List FrameCmd × Bool
queued_result (r, accepted) = (queued r, accepted)

-- A push appends the command and succeeds while fewer than 15 wait; otherwise it refuses it and
-- changes nothing.
pub queued-push_frame_cmd :
    (r : CommandRouter) (c : FrameCmd)
    → IsValid r
    → queued_result (push_frame_cmd r c)
      ≡ (if ltb (length (queued r)) 15 then (queued r ++ (c ∷ []), true) else (queued r, false))
unfolding push_frame_cmd queued
queued-push_frame_cmd r c v =
    rw (length-ring_window r.frame_cmd_buf r.frame_cmd_tail (waiting r))
      (elim (Bool-cases (ltb (waiting r) 15)) [
        | inl room ↦
            let grown : ((r.frame_cmd_head + 1) % 16 + 16 - r.frame_cmd_tail) % 16
                ≡ suc (waiting r) =
              ground arith in
            let open_ : ((r.frame_cmd_head + 1) % 16 == r.frame_cmd_tail) ≡ false = ground arith in
            rw (room, open_, grown)
              (rw
                (ring_window-update r.frame_cmd_buf c (waiting r) r.frame_cmd_tail r.frame_cmd_head
                  (ground arith) v.tail_in (omega arith))
                refl)
        | inr none_left ↦
            let full : ((r.frame_cmd_head + 1) % 16 == r.frame_cmd_tail) ≡ true = ground arith in
            rw (none_left, full) refl
      ])
