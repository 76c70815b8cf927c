-- ===== src/Aac/Owned.antt =====
-- What AacEncoder of aac_encoder.cpp starts, creates and is given, and what it gives back.
use reji_studio.Base.{
  one_if, is_at, ℕ, ◌+◌, ◌*◌, ◌/◌, ◌%◌, ◌^◌, ◌≡◌, Bool, true, false, ◌||◌, not, Option, none, some,
  List, [], ◌∷◌, ◌++◌, ◌==◌, refl, arith, if◌then◌else◌,
}
use reji_studio.Base.Int.{ℤ, ◌*ℤ◌}
use reji_studio.Aac.{
  MfCall, mf_startup, mf_shutdown, created_mft, released_mft, input, got_sample, released_sample,
  AacEncoder,
}
use reji_studio.Aac.Codec.{
  release_mft, shutdown, OutputAnswer, no_memory, need_more_input, output_failed, produced,
  got_given, release_given, deliver, to_read, drain_outputs, InputAnswer, taken, not_accepting,
  input_failed, FeedAnswers, is_true, after_first, feed_pcm, encode, drain,
}

pub data Thing : Type 0 where
  library : Thing
  transform : ℕ → Thing
  sample : ℕ → Thing

abbrev pub opens : Thing → MfCall → ℕ
opens library mf_startup = 1
opens (transform x) (created_mft m) = one_if (m == x)
opens (sample x) (got_sample m) = one_if (m == x)
opens _ _ = 0

abbrev pub closes : Thing → MfCall → ℕ
closes library mf_shutdown = 1
closes (transform x) (released_mft m) = one_if (m == x)
closes (sample x) (released_sample m) = one_if (m == x)
closes _ _ = 0

abbrev pub opened : Thing → List MfCall → ℕ
opened t [] = 0
opened t (c ∷ cs) = opens t c + opened t cs

abbrev pub closed : Thing → List MfCall → ℕ
closed t [] = 0
closed t (c ∷ cs) = closes t c + closed t cs

abbrev pub owns : Thing → AacEncoder → ℕ
owns library s = one_if s.mf_started
owns (transform x) s = is_at s.mft x
owns (sample x) s = 0

pub opened-append :
    (t : Thing) (xs ys : List MfCall) → opened t (xs ++ ys) ≡ opened t xs + opened t ys
opened-append t [] ys = omega arith
opened-append t (c ∷ xs) ys = omega (arith, opened-append t xs ys)

pub closed-append :
    (t : Thing) (xs ys : List MfCall) → closed t (xs ++ ys) ≡ closed t xs + closed t ys
closed-append t [] ys = omega arith
closed-append t (c ∷ xs) ys = omega (arith, closed-append t xs ys)

-- As much is given back as taken.
unfoldable pub IsEven : Thing → List MfCall → Type 0
IsEven t calls = opened t calls ≡ closed t calls

IsEven-append : (t : Thing) (xs ys : List MfCall) → IsEven t xs → IsEven t ys → IsEven t (xs ++ ys)
unfolding IsEven
IsEven-append t xs ys p q = omega (arith, p, q, opened-append t xs ys, closed-append t xs ys)

pub shutdown-closes :
    (t : Thing) (s : AacEncoder)
    → (opened t (shutdown s).1 ≡ 0)
      × (closed t (shutdown s).1 ≡ owns t s)
      × (owns t (shutdown s).0 ≡ 0)
unfolding shutdown release_mft
shutdown-closes library s = ground arith
shutdown-closes (transform x) s = ground arith
shutdown-closes (sample x) s = ground arith

given-released :
    (t : Thing) (provides : Bool) (given : Option ℕ)
    → (opened t (got_given provides given) ≡ closed t (release_given provides given))
      × (closed t (got_given provides given) ≡ 0)
      × (opened t (release_given provides given) ≡ 0)
unfolding got_given release_given
given-released t provides none = (refl, refl, refl)
given-released t false (some x) = (refl, refl, refl)
given-released library true (some x) = (refl, refl, refl)
given-released (transform y) true (some x) = (refl, refl, refl)
given-released (sample y) true (some x) = (refl, refl, refl)

-- What is got, used and released in a turn, and the turns after it.
turn-IsEven :
    (t : Thing) (provides : Bool) (given : Option ℕ) (uses later : List MfCall)
    → IsEven t uses
    → IsEven t later
    → IsEven t (got_given provides given ++ (uses ++ (release_given provides given ++ later)))
unfolding IsEven
turn-IsEven t provides given uses later h k =
    let got = got_given provides given in
    let back = release_given provides given in
    let g = given-released t provides given in
    omega (
      arith,
      h,
      k,
      g.0,
      g.1,
      g.2,
      opened-append t got (uses ++ (back ++ later)),
      closed-append t got (uses ++ (back ++ later)),
      opened-append t uses (back ++ later),
      closed-append t uses (back ++ later),
      opened-append t back later,
      closed-append t back later,
    )

end-IsEven :
    (t : Thing) (provides : Bool) (given : Option ℕ)
    → IsEven t (got_given provides given ++ release_given provides given)
unfolding IsEven
end-IsEven t provides given =
    let g = given-released t provides given in
    omega (
      arith,
      g.0,
      g.1,
      g.2,
      opened-append t (got_given provides given) (release_given provides given),
      closed-append t (got_given provides given) (release_given provides given),
    )

deliver-IsEven : (t : Thing) (s : AacEncoder) (read : Option (ℕ × ℤ)) → IsEven t (deliver s read)
unfolding deliver IsEven
deliver-IsEven t s none = refl
deliver-IsEven library s (some (len, time)) = ground arith
deliver-IsEven (transform x) s (some (len, time)) = ground arith
deliver-IsEven (sample x) s (some (len, time)) = ground arith

drain_outputs-IsEven :
    (t : Thing) (s : AacEncoder) (turns : List OutputAnswer) → IsEven t (drain_outputs s turns).1
unfolding drain_outputs IsEven
drain_outputs-IsEven t s [] = refl
drain_outputs-IsEven t s (no_memory ∷ rest) = refl
drain_outputs-IsEven t s (need_more_input given ∷ rest) =
    end-IsEven t s.output_provides_samples given
drain_outputs-IsEven t s (output_failed given ∷ rest) = end-IsEven t s.output_provides_samples given
drain_outputs-IsEven t s (produced given read ∷ rest) =
    let out = deliver s (to_read s.output_provides_samples given read) in
    turn-IsEven t s.output_provides_samples given out (drain_outputs s rest).1
      (deliver-IsEven t s (to_read s.output_provides_samples given read))
      (drain_outputs-IsEven t s rest)

offer-IsEven :
    (t : Thing) (n d : ℕ) (time : ℤ) (calls : List MfCall)
    → IsEven t calls
    → IsEven t (input n time d ∷ calls)
unfolding IsEven
offer-IsEven library n d time calls h = omega (arith, h)
offer-IsEven (transform x) n d time calls h = omega (arith, h)
offer-IsEven (sample x) n d time calls h = omega (arith, h)

IsEven-if :
    (b : Bool) (t : Thing) (x y : Bool × List MfCall)
    → IsEven t x.1
    → IsEven t y.1
    → IsEven t (if b then x else y).1
IsEven-if true t x y p q = p
IsEven-if false t x y p q = q

nothing-IsEven : (t : Thing) → IsEven t []
unfolding IsEven
nothing-IsEven t = refl

first-IsEven :
    (t : Thing) (s : AacEncoder) (a : FeedAnswers) (n d : ℕ) (time : ℤ) (first : InputAnswer)
    → IsEven t (after_first s a (input n time d) first).1
unfolding after_first
first-IsEven t s a n d time taken = offer-IsEven t n d time [] (nothing-IsEven t)
first-IsEven t s a n d time input_failed = offer-IsEven t n d time [] (nothing-IsEven t)
first-IsEven t s a n d time not_accepting =
    let o = drain_outputs s a.turns in
    let offer = input n time d in
    IsEven-if (not (is_true o.0)) t (false, offer ∷ o.1)
      (a.second_ok, offer ∷ (o.1 ++ (offer ∷ [])))
      (offer-IsEven t n d time o.1 (drain_outputs-IsEven t s a.turns))
      (offer-IsEven t n d time (o.1 ++ (offer ∷ [])) (
        IsEven-append t o.1 (offer ∷ []) (drain_outputs-IsEven t s a.turns)
          (offer-IsEven t n d time [] (nothing-IsEven t))))

feed-IsEven :
    (t : Thing) (s : AacEncoder) (n : ℕ) (pts : ℤ) (a : FeedAnswers)
    → IsEven t (feed_pcm s n pts a).1
unfolding feed_pcm
feed-IsEven t s n pts a =
    let duration = n / s.cfg.channels * 10_000_000 / s.cfg.sample_rate in
    IsEven-if (not a.made) t (false, []) (after_first s a (input n (pts *ℤ 10) duration) a.first)
      (nothing-IsEven t) (first-IsEven t s a n duration (pts *ℤ 10) a.first)

pub encode-IsEven :
    (t : Thing) (s : AacEncoder) (given : Bool) (frames : ℕ) (pts : ℤ) (a : FeedAnswers)
    (turns : List OutputAnswer)
    → IsEven t (encode s given frames pts a turns).1
unfolding encode
encode-IsEven t s given frames pts a turns =
    let fed = feed_pcm s (frames * s.cfg.channels % 2 ^ 32) pts a in
    let out = drain_outputs s turns in
    let both = feed-IsEven t s (frames * s.cfg.channels % 2 ^ 32) pts a in
    IsEven-if (not s.initialized || (not given || (frames == 0))) t (false, [])
      (if not fed.0 then fed else (is_true out.0, fed.1 ++ out.1)) (nothing-IsEven t)
      (IsEven-if (not fed.0) t fed (is_true out.0, fed.1 ++ out.1) both
        (IsEven-append t fed.1 out.1 both (drain_outputs-IsEven t s turns)))

pub drain-IsEven :
    (t : Thing) (s : AacEncoder) (told : Bool) (turns : List OutputAnswer)
    → IsEven t (drain s told turns).1
unfolding drain
drain-IsEven t s told turns =
    let out = drain_outputs s turns in
    let rest : Bool × List MfCall = if not told then (false, []) else (is_true out.0, out.1) in
    IsEven-if (not s.initialized) t (false, []) rest (nothing-IsEven t)
      (IsEven-if (not told) t (false, []) (is_true out.0, out.1) (nothing-IsEven t)
        (drain_outputs-IsEven t s turns))
