-- ===== src/Aac/Opening.antt =====
-- What init of AacEncoder in aac_encoder.cpp takes and keeps.
use reji_studio.Base.{
  ℕ, ◌+◌, ◌≡◌, Bool, true, false, not, Option, none, some, List, [], ◌∷◌, refl, arith,
  if◌then◌else◌, ltb,
}
use reji_studio.Aac.{MfCall, mf_startup, created_mft, AacEncoder, Coded}
use reji_studio.Aac.Codec.{shutdown, give_up, InitAnswers, take_ids, set_up, with_mft, start_up}
use reji_studio.Aac.Owned.{
  Thing, library, transform, sample, opened, closed, owns, opened-append, closed-append,
  shutdown-closes,
}

-- No transform, and Media Foundation not started.
unfoldable pub IsIdle : AacEncoder → Type 0
IsIdle s = (s.mft ≡ none) × (s.mf_started ≡ false)

-- A start from nothing: what is taken and not given back is owned, and nothing is if it fails.
unfoldable pub IsFair : Thing → Coded → Type 0
IsFair t o =
    (opened t o.calls ≡ closed t o.calls + owns t o.state)
    × (o.state.initialized ≡ false → IsIdle o.state)

IsFair-if :
    (b : Bool) (t : Thing) (x y : Coded) → IsFair t x → IsFair t y → IsFair t (if b then x else y)
IsFair-if true t x y p q = p
IsFair-if false t x y p q = q

give_up-IsFair :
    (t : Thing) (s : AacEncoder) (calls : List MfCall)
    → opened t calls ≡ closed t calls + owns t s
    → IsFair t (give_up s calls)
unfolding give_up shutdown IsFair IsIdle
give_up-IsFair t s calls h =
    let o = shutdown-closes t s in
    (
      omega (
        arith,
        h,
        o.0,
        o.1,
        o.2,
        opened-append t calls (shutdown s).1,
        closed-append t calls (shutdown s).1,
      ),
      λ e. (refl, refl),
    )

ids-owns : (t : Thing) (s : AacEncoder) (ids : Option (ℕ × ℕ)) → owns t (take_ids s ids) ≡ owns t s
unfolding take_ids
ids-owns library s none = refl
ids-owns (transform x) s none = refl
ids-owns (sample x) s none = refl
ids-owns library s (some ids) = refl
ids-owns (transform x) s (some ids) = refl
ids-owns (sample x) s (some ids) = refl

told-owns :
    (t : Thing) (s : AacEncoder) (provides ready : Bool) (size : ℕ)
    → owns t (record s {
      output_provides_samples = provides;
      output_sample_size = size;
      initialized = ready;
    })
      ≡ owns t s
told-owns library s provides ready size = refl
told-owns (transform x) s provides ready size = refl
told-owns (sample x) s provides ready size = refl

started-owns :
    (t : Thing) (s : AacEncoder)
    → s.mft ≡ none
    → s.mf_started ≡ true
    → opened t (mf_startup ∷ []) ≡ closed t (mf_startup ∷ []) + owns t s
started-owns library s e on = ground (arith, on)
started-owns (transform x) s e on = ground (arith, e)
started-owns (sample x) s e on = refl

created-owns :
    (t : Thing) (s : AacEncoder) (m : ℕ)
    → s.mf_started ≡ true
    → let calls = mf_startup ∷ created_mft m ∷ [] in
      opened t calls ≡ closed t calls + owns t (record s { mft = some m })
created-owns library s m on = ground (arith, on)
created-owns (transform x) s m on = ground arith
created-owns (sample x) s m on = refl

pub idle-none : (t : Thing) (s : AacEncoder) → s.mft ≡ none → s.mf_started ≡ false → owns t s ≡ 0
idle-none library s e off = ground (arith, off)
idle-none (transform x) s e off = ground (arith, e)
idle-none (sample x) s e off = refl

idle-owns : (t : Thing) (s : AacEncoder) → s.mft ≡ none → s.mf_started ≡ false → 0 ≡ 0 + owns t s
idle-owns t s e off = omega (arith, idle-none t s e off)

set_up-IsFair :
    (t : Thing) (s : AacEncoder) (a : InitAnswers) (calls : List MfCall)
    → opened t calls ≡ closed t calls + owns t s
    → IsFair t (set_up s a calls)
unfolding set_up IsFair
set_up-IsFair t s a calls h =
    let named = take_ids s a.stream_ids in
    let size = if ltb 0 a.info_size then a.info_size else 8192 in
    let told = record named { output_provides_samples = a.provides; output_sample_size = size } in
    let same = ids-owns t s a.stream_ids in
    let kept : opened t calls ≡ closed t calls + owns t named = omega (arith, h, same) in
    let up = record told { initialized = true } in
    let ready : Coded = record { state = up; ok = true; calls = calls } in
    let last : Coded = if not a.begin_ok then give_up told calls else ready in
    let third : Coded = if not a.info_ok then give_up named calls else last in
    let second : Coded = if not a.input_type_ok then give_up named calls else third in
    let failed = give_up-IsFair t named calls kept in
    IsFair-if (not a.output_type_ok) t (give_up named calls) second failed (
      IsFair-if (not a.input_type_ok) t (give_up named calls) third failed (
        IsFair-if (not a.info_ok) t (give_up named calls) last failed (
          IsFair-if (not a.begin_ok) t (give_up told calls) ready
            (give_up-IsFair t told calls
              (omega (arith, kept, told-owns t named a.provides named.initialized size)))
            (
              omega (arith, kept, told-owns t named a.provides true size),
              λ e. absurd (ground (arith, e)),
            ))))

mft-IsFair :
    (t : Thing) (s : AacEncoder) (a : InitAnswers) (m : Option ℕ)
    → s.mft ≡ none
    → s.mf_started ≡ true
    → IsFair t (with_mft s a m)
unfolding with_mft
mft-IsFair t s a none e on = give_up-IsFair t s (mf_startup ∷ []) (started-owns t s e on)
mft-IsFair t s a (some m) e on =
    set_up-IsFair t (record s { mft = some m }) a (mf_startup ∷ created_mft m ∷ [])
      (created-owns t s m on)

pub start-IsFair :
    (t : Thing) (s : AacEncoder) (a : InitAnswers) (bytes : Option (ℕ × ℕ))
    → s.mft ≡ none
    → s.mf_started ≡ false
    → IsFair t (start_up s a bytes)
unfolding start_up IsFair IsIdle
start-IsFair t s a none e off = (idle-owns t s e off, λ i. (e, off))
start-IsFair t s a (some (high, low)) e off =
    let described = record s { asc = high ∷ low ∷ [] } in
    IsFair-if (not a.startup_ok) t (give_up described [])
      (with_mft (record described { mf_started = true }) a a.new_mft)
      (give_up-IsFair t described [] (idle-owns t described e off))
      (mft-IsFair t (record described { mf_started = true }) a a.new_mft e refl)
