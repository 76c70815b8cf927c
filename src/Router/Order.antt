-- ===== src/Router/Order.antt =====
-- One frame's drain applies every waiting item exactly once, in a fixed order.
use reji_studio.Base.{
  ℕ, zero, suc, ◌+◌, ◌%◌, ◌≤◌, ◌<◌, min, ◌≡◌, refl, sym, subst, true, false, List, [], ◌∷◌, arith,
  ◌==◌,
}
use reji_studio.Base.Int.{ℤ, pos_part}
use reji_studio.Router.{
  CommandRouter, FrameCmd, RjCommand, Handlers, Inbox, clamp_count, apply_commands, apply_ws,
  apply_all_ws, drain_frame_cmds, drain_and_apply,
}
use reji_studio.Router.Queue.{IsValid, queued, ring_window, waiting}

module _ {ℓ} {S : Type ℓ} where
  unfoldable pub fold {κ} : {A : Type κ} → (S → A → S) → S → List A → S
  fold f s [] = s
  fold f s (x ∷ xs) = fold f (f s x) xs

-- The first `n` entries of a buffer from `i` on.
unfoldable pub entries : ℕ → ℕ → (ℕ → RjCommand) → List RjCommand
entries zero i buf = []
entries (suc n) i buf = buf i ∷ entries n (i + 1) buf

module _ {ℓ} {S : Type ℓ} (h : Handlers S) where
  apply_commands-fold :
      (n i : ℕ) (buf : ℕ → RjCommand) (s : S)
      → apply_commands h n i buf s ≡ fold h.apply_command s (entries n i buf)
  unfolding apply_commands fold entries
  apply_commands-fold zero i buf s = refl
  apply_commands-fold (suc n) i buf s =
      apply_commands-fold n (i + 1) buf (h.apply_command s (buf i))

  apply_all_ws-fold : (s : S) (cs : List (ℕ × ℤ)) → apply_all_ws h s cs ≡ fold (apply_ws h) s cs
  unfolding apply_all_ws fold
  apply_all_ws-fold s [] = refl
  apply_all_ws-fold s (c ∷ cs) = apply_all_ws-fold (apply_ws h s c) cs

  drain_frame_cmds-fold :
      (fuel n tail head : ℕ) (buf : ℕ → FrameCmd) (s : S)
      → n ≤ fuel
      → n < 16
      → tail < 16
      → head ≡ (tail + n) % 16
      → drain_frame_cmds h fuel buf tail head s
        ≡ (head, fold h.apply_frame_cmd s (ring_window buf tail n))
  unfolding drain_frame_cmds fold ring_window
  drain_frame_cmds-fold zero zero tail head buf s le lt t e = ground arith
  drain_frame_cmds-fold zero (suc n) tail head buf s le lt t e = absurd (omega arith)
  drain_frame_cmds-fold (suc fuel) zero tail head buf s le lt t e =
      let same : (tail == head) ≡ true = ground arith in rw same (ground arith)
  drain_frame_cmds-fold (suc fuel) (suc n) tail head buf s le lt t e =
      let apart : (tail == head) ≡ false = ground arith in
      rw apart (
        drain_frame_cmds-fold fuel n ((tail + 1) % 16) head buf (h.apply_frame_cmd s (buf tail))
          (omega arith) (omega arith) (omega arith) (omega arith))

  -- One frame applies the drained commands (8 at most, none for a negative count), then every
  -- WebSocket command, then every frame command that waited when the drain began, each once and
  -- oldest first; the loop ends by its own test, and afterwards no frame command waits.
  pub drain_and_apply_order :
      (r : CommandRouter) (inbox : Inbox) (s : S)
      → IsValid r
      → ((drain_and_apply h r inbox s).1
          ≡ fold h.apply_frame_cmd
              (fold
                (apply_ws h)
                (fold h.apply_command s (entries (min (pos_part inbox.drained) 8) 0 inbox.commands))
                inbox.ws_commands)
              (queued r))
        × (queued (drain_and_apply h r inbox s).0 ≡ [])
        × IsValid (drain_and_apply h r inbox s).0
  unfolding drain_and_apply clamp_count queued ring_window
  drain_and_apply_order r inbox s v =
      rw (apply_commands-fold, apply_all_ws-fold)
        (rw
          (drain_frame_cmds-fold 16 (waiting r) r.frame_cmd_tail r.frame_cmd_head r.frame_cmd_buf _
            (omega arith) (omega arith) v.tail_in (omega arith))
          (refl, ground arith, ground arith))

-- What every handler keeps, a drain keeps.
module _ {ℓ κ} {S : Type ℓ} (P : S → Type κ) where
  fold-keeps {ι} :
      {A : Type ι} (f : S → A → S) (keeps : (s : S) (x : A) → P s → P (f s x)) (s : S) (xs : List A)
      → P s
      → P (fold f s xs)
  unfolding fold
  fold-keeps f keeps s [] p = p
  fold-keeps f keeps s (x ∷ xs) p = fold-keeps f keeps (f s x) xs (keeps s x p)

  pub drain_and_apply-keeps :
      (h : Handlers S) (command : (s : S) (c : RjCommand) → P s → P (h.apply_command s c))
      (ws : (s : S) (c : ℕ × ℤ) → P s → P (apply_ws h s c))
      (frame_cmd : (s : S) (c : FrameCmd) → P s → P (h.apply_frame_cmd s c)) (r : CommandRouter)
      (inbox : Inbox) (s : S)
      → IsValid r
      → P s
      → P (drain_and_apply h r inbox s).1
  drain_and_apply-keeps h command ws frame_cmd r inbox s v p =
      subst P (sym (drain_and_apply_order h r inbox s v).0) (
        fold-keeps h.apply_frame_cmd frame_cmd _ (queued r) (
          fold-keeps (apply_ws h) ws _ inbox.ws_commands (
            fold-keeps h.apply_command command s
              (entries (min (pos_part inbox.drained) 8) 0 inbox.commands) p)))
