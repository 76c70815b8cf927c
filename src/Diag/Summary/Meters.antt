-- ===== src/Diag/Summary/Meters.antt =====
-- The single statistics of send_diag.h, and the means over a list of samples.
use reji_studio.Base.{
  ℕ, suc, ◌+◌, ◌-◌, ◌*◌, ◌^◌, ◌≤◌, ◌<◌, ◌≡◌, refl, ap, ◌∙◌, Bool, true, false, Option, none, some,
  List, [], ◌∷◌, arith, if◌then◌else◌, length, sum, maximum, All, add_u32,
}
use reji_studio.Diag.{Acc, empty_acc, add, SendDiag, fresh_window, Sample, record_sample}

-- What is timed.
pub data Meter : Type 0 where
  cap capn enc sendv senda d3d prev tot pace copy encp lock ecb : Meter

-- What is counted without a time.
pub data Tally : Type 0 where
  frames nulls dups idrs misses sent failed : Tally

abbrev pub meter : Meter → SendDiag → Acc
meter Meter.cap d = d.cap
meter Meter.capn d = d.capn
meter Meter.enc d = d.enc
meter Meter.sendv d = d.sendv
meter Meter.senda d = d.senda
meter Meter.d3d d = d.d3d
meter Meter.prev d = d.prev
meter Meter.tot d = d.tot
meter Meter.pace d = d.pace
meter Meter.copy d = d.copy
meter Meter.encp d = d.encp
meter Meter.lock d = d.lock
meter Meter.ecb d = d.ecb

abbrev pub tally : Tally → SendDiag → ℕ
tally Tally.frames d = d.n_frames
tally Tally.nulls d = d.n_null
tally Tally.dups d = d.n_dup
tally Tally.idrs d = d.n_idr_fallback
tally Tally.misses d = d.n_prev_miss
tally Tally.sent d = d.n_sendv_ok
tally Tally.failed d = d.n_sendv_fail

-- The one time that a sample puts on a meter, if it does.
abbrev time_of : Meter → Sample → Option ℕ
time_of Meter.cap (Sample.capture us true) = some us
time_of Meter.capn (Sample.capture us false) = some us
time_of Meter.enc (Sample.encode us) = some us
time_of Meter.sendv (Sample.send_video us b) = some us
time_of Meter.senda (Sample.audio_drain us) = some us
time_of Meter.d3d (Sample.interop us) = some us
time_of Meter.prev (Sample.preview us) = some us
time_of Meter.tot (Sample.total us) = some us
time_of Meter.pace (Sample.paced us) = some us
time_of Meter.copy (Sample.copied us) = some us
time_of Meter.encp (Sample.enc_split a b c) = some a
time_of Meter.lock (Sample.enc_split a b c) = some b
time_of Meter.ecb (Sample.enc_split a b c) = some c
time_of _ _ = none

abbrev counts_for : Tally → Sample → Bool
counts_for Tally.frames (Sample.capture us true) = true
counts_for Tally.nulls (Sample.capture us false) = true
counts_for Tally.dups Sample.repeat = true
counts_for Tally.idrs Sample.idr_fallback = true
counts_for Tally.misses Sample.preview_miss = true
counts_for Tally.sent (Sample.send_video us true) = true
counts_for Tally.failed (Sample.send_video us false) = true
counts_for _ _ = false

-- The samples of a window, newest first, their times on a meter and their number for a tally.
abbrev pub record_all : SendDiag → List Sample → SendDiag
record_all d [] = d
record_all d (s ∷ older) = record_sample (record_all d older) s

abbrev cons_some : Option ℕ → List ℕ → List ℕ
cons_some none ts = ts
cons_some (some t) ts = t ∷ ts

unfoldable pub times : Meter → List Sample → List ℕ
times m [] = []
times m (s ∷ older) = cons_some (time_of m s) (times m older)

unfoldable pub number : Tally → List Sample → ℕ
number t [] = 0
number t (s ∷ older) = (if counts_for t s then 1 else 0) + number t older

abbrev add_some : Acc → Option ℕ → Acc
add_some a none = a
add_some a (some us) = add a us

meter-record :
    (m : Meter) (s : Sample) (d : SendDiag)
    → meter m (record_sample d s) ≡ add_some (meter m d) (time_of m s)
unfolding record_sample
meter-record m (Sample.capture us true) d = ground arith
meter-record m (Sample.capture us false) d = ground arith
meter-record m (Sample.encode us) d = ground arith
meter-record m (Sample.enc_split a b c) d = ground arith
meter-record m Sample.preview_miss d = ground arith
meter-record m (Sample.interop us) d = ground arith
meter-record m (Sample.preview us) d = ground arith
meter-record m (Sample.total us) d = ground arith
meter-record m (Sample.paced us) d = ground arith
meter-record m (Sample.send_video us true) d = ground arith
meter-record m (Sample.send_video us false) d = ground arith
meter-record m (Sample.audio_drain us) d = ground arith
meter-record m Sample.repeat d = ground arith
meter-record m (Sample.copied us) d = ground arith
meter-record m Sample.idr_fallback d = ground arith

tally-record :
    (t : Tally) (s : Sample) (d : SendDiag)
    → tally t (record_sample d s) ≡ (if counts_for t s then add_u32 (tally t d) 1 else tally t d)
unfolding record_sample
tally-record t (Sample.capture us true) d = ground arith
tally-record t (Sample.capture us false) d = ground arith
tally-record t (Sample.encode us) d = ground arith
tally-record t (Sample.enc_split a b c) d = ground arith
tally-record t Sample.preview_miss d = ground arith
tally-record t (Sample.interop us) d = ground arith
tally-record t (Sample.preview us) d = ground arith
tally-record t (Sample.total us) d = ground arith
tally-record t (Sample.paced us) d = ground arith
tally-record t (Sample.send_video us true) d = ground arith
tally-record t (Sample.send_video us false) d = ground arith
tally-record t (Sample.audio_drain us) d = ground arith
tally-record t Sample.repeat d = ground arith
tally-record t (Sample.copied us) d = ground arith
tally-record t Sample.idr_fallback d = ground arith

abbrev pub acc_of : List ℕ → Acc
acc_of ts = record { sum_us = sum ts; max_us = maximum ts; count = length ts }

abbrev pub Words : List ℕ → Type 0
Words ts = All (λ t. t < 2 ^ 32) ts

pub sum-le : (ts : List ℕ) → Words ts → sum ts ≤ (2 ^ 32 - 1) * length ts
sum-le [] h = omega arith
sum-le (t ∷ ts) h = omega (arith, sum-le ts h.1)

add-acc_of :
    (ts : List ℕ) (us : ℕ)
    → Words (us ∷ ts)
    → length ts + 1 < 2 ^ 32
    → add (acc_of ts) us ≡ acc_of (us ∷ ts)
unfolding add
add-acc_of ts us h l = ground (arith, sum-le ts h.1)

length-times : (m : Meter) (ss : List Sample) → length (times m ss) ≤ length ss
unfolding times
length-times m [] = omega arith
length-times m (s ∷ older) = grow (time_of m s) (times m older) (length-times m older)
  where
    grow :
        (o : Option ℕ) (ts : List ℕ)
        → length ts ≤ length older
        → length (cons_some o ts) ≤ suc (length older)
    grow none ts h = omega arith
    grow (some t) ts h = omega arith

Words-tail : (o : Option ℕ) (ts : List ℕ) → Words (cons_some o ts) → Words ts
Words-tail none ts h = h
Words-tail (some t) ts h = h.1

add_some-acc_of :
    (o : Option ℕ) (ts : List ℕ)
    → Words (cons_some o ts)
    → length ts + 1 < 2 ^ 32
    → add_some (acc_of ts) o ≡ acc_of (cons_some o ts)
add_some-acc_of none ts h l = refl
add_some-acc_of (some us) ts h l = add-acc_of ts us h l

meter_fresh : (m : Meter) (w : ℕ) → meter m (fresh_window w) ≡ empty_acc
meter_fresh m w = ground arith

tally_fresh : (t : Tally) (w : ℕ) → tally t (fresh_window w) ≡ 0
tally_fresh t w = ground arith

pub meter_lem :
    (m : Meter) (w : ℕ) (ss : List Sample)
    → Words (times m ss)
    → length ss < 2 ^ 32
    → meter m (record_all (fresh_window w) ss) ≡ acc_of (times m ss)
unfolding times
meter_lem m w [] h l = meter_fresh m w
meter_lem m w (s ∷ older) h l =
    meter-record m s (record_all (fresh_window w) older)
    ∙ ap (λ a. add_some a (time_of m s))
        (meter_lem m w older (Words-tail (time_of m s) (times m older) h) (omega arith))
    ∙ add_some-acc_of (time_of m s) (times m older) h (omega (arith, length-times m older))

number-le : (t : Tally) (ss : List Sample) → number t ss ≤ length ss
unfolding number
number-le t [] = omega arith
number-le t (s ∷ older) = ground (arith, number-le t older)

pub tally_lem :
    (t : Tally) (w : ℕ) (ss : List Sample)
    → length ss < 2 ^ 32
    → tally t (record_all (fresh_window w) ss) ≡ number t ss
unfolding number
tally_lem t w [] l = tally_fresh t w
tally_lem t w (s ∷ older) l =
    tally-record t s (record_all (fresh_window w) older)
    ∙ ground (arith, tally_lem t w older (omega arith), number-le t older)
