-- ===== src/Performance/Histogram/Window.antt =====
-- services/api/performance.py: what `LatencyHistogram` keeps of the durations that it is told.
use mathlib.Core.List.{append-nil, append_assoc}
use cine_vault.Prelude.{
  ℕ, zero, suc, ◌-◌, ◌≤◌, ◌<◌, String, ◌≡◌, refl, sym, ◌∙◌, ap, List, [], ◌∷◌, ◌++◌, arith, leb,
  length, drop, length-append, ◌==◌, string_eq, if◌then◌else◌, Bool-cases, inl, inr,
}
use cine_vault.Prelude.Dict.{lookup-insert}
use cine_vault.Performance.Histogram.{Samples, samples_of, push, max_samples, record_sample}

-- The last `n` elements, all of them where there are fewer.
abbrev pub newest : ℕ → List ℕ → List ℕ
newest n xs = drop (length xs - n) xs

abbrev pub record_all : List (String × ℕ) → Samples → Samples
record_all [] h = h
record_all ((operation, duration) ∷ calls) h = record_all calls (record_sample operation duration h)

-- The durations that a list of calls records for an operation.
abbrev pub durations_of : String → List (String × ℕ) → List ℕ
durations_of operation [] = []
durations_of operation ((o, duration) ∷ calls) =
    let rest = durations_of operation calls in if o == operation then duration ∷ rest else rest

length-drop : (k : ℕ) (xs : List ℕ) → length (drop k xs) ≡ length xs - k
length-drop zero xs = omega arith
length-drop (suc k) [] = omega arith
length-drop (suc k) (x ∷ xs) = omega (arith, length-drop k xs)

drop-append : (k : ℕ) (xs ys : List ℕ) → k ≤ length xs → drop k (xs ++ ys) ≡ drop k xs ++ ys
drop-append zero xs ys h = refl
drop-append (suc k) [] ys h = absurd (omega arith)
drop-append (suc k) (x ∷ xs) ys h = drop-append k xs ys (omega arith)

drop-suc : (k : ℕ) (xs : List ℕ) → drop 1 (drop k xs) ≡ drop (suc k) xs
drop-suc zero xs = refl
drop-suc (suc k) [] = refl
drop-suc (suc k) (x ∷ xs) = drop-suc k xs

-- Pushing onto the newest samples gives the newest samples of the longer list.
push-newest :
    (bound duration : ℕ) (xs : List ℕ)
    → 0 < bound
    → push bound duration (newest bound xs) ≡ newest bound (xs ++ duration ∷ [])
push-newest bound duration xs h =
    let k = length xs - bound in
    let len = length-drop k xs in
    let longer = length-append xs (duration ∷ []) in
    elim (Bool-cases (leb bound (length (newest bound xs)))) [
      | inl e ↦
          (let next : length (xs ++ duration ∷ []) - bound ≡ suc k = ground (arith, len, longer) in
            rw (e, next, drop-suc k xs)
              (sym (drop-append (suc k) xs (duration ∷ []) (ground (arith, len)))))
      | inr e ↦
          (let all : k ≡ 0 = ground (arith, len) in
            let next : length (xs ++ duration ∷ []) - bound ≡ 0 = ground (arith, len, longer) in
            rw (e, next, all) refl)
    ]

samples_of-record_sample :
    (operation o : String) (duration : ℕ) (h : Samples)
    → samples_of operation (record_sample o duration h) ≡ (
        if o == operation
        then push max_samples duration (samples_of operation h)
        else samples_of operation h)
unfolding record_sample
samples_of-record_sample operation o duration h = ground (
  arith,
  lookup-insert o operation (push max_samples duration (samples_of o h)) h,
  string_eq.same_iff o operation,
)

samples_of-record_all :
    (operation : String) (calls : List (String × ℕ)) (h : Samples) (before : List ℕ)
    → samples_of operation h ≡ newest max_samples before
    → samples_of operation (record_all calls h)
      ≡ newest max_samples (before ++ durations_of operation calls)
samples_of-record_all operation [] h before e = rw (append-nil before) e
samples_of-record_all operation ((o, duration) ∷ calls) h before e =
    let sampled = samples_of-record_sample operation o duration h in
    elim (Bool-cases (o == operation)) [
      | inl same ↦ rw same (
          samples_of-record_all operation calls (record_sample o duration h)
            (before ++ duration ∷ [])
            (rw (sampled, same, e) (push-newest max_samples duration before (omega arith)))
          ∙ ap (newest max_samples)
              (append_assoc before (duration ∷ []) (durations_of operation calls)))
      | inr other ↦ rw other (
          samples_of-record_all operation calls (record_sample o duration h) before
            (rw (sampled, other) e))
    ]

-- After any calls on an empty histogram, whatever their order, the samples of an operation are the last
-- 10000 durations recorded for it, oldest first: all of them where there were no more.
pub samples_are_newest :
    (operation : String) (calls : List (String × ℕ))
    → samples_of operation (record_all calls []) ≡ newest max_samples (durations_of operation calls)
samples_are_newest operation calls = samples_of-record_all operation calls [] [] refl
