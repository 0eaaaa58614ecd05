-- ===== src/Auth/RateLimit/Window.antt =====
-- services/api/rate_limiter.py: the sliding window of the fallback limiter, and when the fallback is used.
use cine_vault.Prelude.{
  ℕ, ◌≤◌, ◌<◌, String, ◌≡◌, refl, sym, ap, ◌∙◌, false, List, [], ◌∷◌, ◌++◌, arith, leb, length,
  length-append, filter, pair_eq, inl, inr, Bool-cases, Result, ok, err,
}
use cine_vault.Prelude.Dict.{insert, lookup-insert_self}
use cine_vault.Auth.RateLimit.{Requests, timestamps_of, is_live, check_in_memory, RateLimitError}

module _ (window_sec : ℕ) where
  abbrev live : ℕ → List ℕ → List ℕ
  live now = filter (is_live window_sec now)

  -- What has left an earlier window has left a later one.
  live-live : (t u : ℕ) (ts : List ℕ) → t ≤ u → live u (live t ts) ≡ live u ts
  live-live t u [] h = refl
  live-live t u (x ∷ ts) h = elim (Bool-cases (is_live window_sec t x)) [
    | inl e ↦ elim (Bool-cases (is_live window_sec u x)) [
      | inl e' ↦ rw (e, e') (ap (◌∷◌ x) (live-live t u ts h))
      | inr e' ↦ rw (e, e') (live-live t u ts h)
    ]
    | inr e ↦ rw (e, not_live_later e) (live-live t u ts h)
  ]
    where
      not_live_later : is_live window_sec t x ≡ false → is_live window_sec u x ≡ false
      not_live_later e = ground arith

  live-append : (now : ℕ) (ts us : List ℕ) → live now (ts ++ us) ≡ live now ts ++ live now us
  live-append now [] us = refl
  live-append now (x ∷ ts) us = elim (Bool-cases (is_live window_sec now x)) [
    | inl e ↦ rw e (ap (◌∷◌ x) (live-append now ts us))
    | inr e ↦ rw e (live-append now ts us)
  ]

  length-live-le : (now : ℕ) (ts : List ℕ) → length (live now ts) ≤ length ts
  length-live-le now [] = omega arith
  length-live-le now (x ∷ ts) = ground (arith, length-live-le now ts)

live-append_now :
    (window_sec now : ℕ) (ts : List ℕ)
    → 0 < window_sec
    → live window_sec now (ts ++ now ∷ []) ≡ live window_sec now ts ++ now ∷ []
live-append_now window_sec now ts h =
    live-append window_sec now ts (now ∷ []) ∙ ap (◌++◌ (live window_sec now ts)) (ground arith)

timestamps_of-insert :
    (key : String × String) (ts : List ℕ) (requests : Requests)
    → timestamps_of key (insert key ts requests) ≡ ts
timestamps_of-insert key ts requests = ground (arith, lookup-insert_self key ts requests)

-- The times of the admitted requests after one more check.
abbrev admit : ℕ → Result RateLimitError (Unit {0}) → List ℕ → List ℕ
admit now (ok u) admitted = admitted ++ now ∷ []
admit now (err e) admitted = admitted

module _ (key : String × String) (limit window_sec : ℕ) where
  abbrev serve_one : ℕ → Requests × List ℕ → Requests × List ℕ
  serve_one now s =
      let (r, requests) = check_in_memory key limit window_sec now s.0 in
      (requests, admit now r s.1)

  -- The limiter after requests of one client and scope at the given times, with the times of those that it
  -- admitted.
  abbrev pub serve : List ℕ → Requests × List ℕ → Requests × List ℕ
  serve [] s = s
  serve (now ∷ times) s = serve times (serve_one now s)

  -- The limiter remembers the admitted requests of the window, and these are within the limit.
  abbrev IsBounded : ℕ → Requests × List ℕ → Type 0
  IsBounded now s =
      (live window_sec now s.1 ≡ live window_sec now (timestamps_of key s.0))
      × (length (live window_sec now s.1) ≤ limit)

  IsBounded-later : (t now : ℕ) (s : Requests × List ℕ) → t ≤ now → IsBounded t s → IsBounded now s
  IsBounded-later t now s h (same, few) = (
    sym (live-live window_sec t now s.1 h)
        ∙ (ap (live window_sec now) same ∙ live-live window_sec t now (timestamps_of key s.0) h),
    omega (
      arith,
      length-live-le window_sec now (live window_sec t s.1),
      ap (λ (l : List ℕ). length l) (live-live window_sec t now s.1 h),
    ),
  )

  stored_after :
      (now : ℕ) (s : Requests × List ℕ)
      → 0 < window_sec
      → live window_sec now (
          timestamps_of key
            (insert key (live window_sec now (timestamps_of key s.0) ++ now ∷ []) s.0))
        ≡ live window_sec now (timestamps_of key s.0) ++ now ∷ []
  stored_after now s w =
      let kept = live window_sec now (timestamps_of key s.0) in
      ap (live window_sec now) (timestamps_of-insert key (kept ++ now ∷ []) s.0)
      ∙ (live-append_now window_sec now kept w
          ∙ ap (λ (l : List ℕ). l ++ now ∷ [])
              (live-live window_sec now now (timestamps_of key s.0) (omega arith)))

  leb-false : (n : ℕ) → leb limit n ≡ false → n < limit
  leb-false n h = ground arith

  serve_one-IsBounded :
      (now : ℕ) (s : Requests × List ℕ)
      → 0 < window_sec
      → IsBounded now s
      → IsBounded now (serve_one now s)
  unfolding check_in_memory
  serve_one-IsBounded now s w (same, few) =
      elim (Bool-cases (leb limit (length (live window_sec now (timestamps_of key s.0))))) [
        | inl full ↦ rw full (same, few)
        | inr room ↦ rw room (
          live-append_now window_sec now s.1 w
              ∙ (ap (λ (l : List ℕ). l ++ now ∷ []) same ∙ sym (stored_after now s w)),
          omega (
            arith,
            ap (λ (l : List ℕ). length l) (live-append_now window_sec now s.1 w),
            length-append (live window_sec now s.1) (now ∷ []),
            ap (λ (l : List ℕ). length l) same,
            leb-false (length (live window_sec now (timestamps_of key s.0))) room,
          ),
        )
      ]

-- Times that do not go back, from `t` on.
abbrev pub IsOrdered : ℕ → List ℕ → Type 0
IsOrdered t [] = Unit
IsOrdered t (now ∷ times) = (t ≤ now) × IsOrdered now times

abbrev pub final : ℕ → List ℕ → ℕ
final t [] = t
final t (now ∷ times) = final now times

serve-IsBounded :
    (key : String × String) (limit window_sec t : ℕ) (times : List ℕ) (s : Requests × List ℕ)
    → 0 < window_sec
    → IsOrdered t times
    → IsBounded key limit window_sec t s
    → IsBounded key limit window_sec (final t times) (serve key limit window_sec times s)
serve-IsBounded key limit window_sec t [] s w o b = b
serve-IsBounded key limit window_sec t (now ∷ times) s w o b =
    serve-IsBounded key limit window_sec now times (serve_one key limit window_sec now s) w o.1 (
      serve_one-IsBounded key limit window_sec now s w
        (IsBounded-later key limit window_sec t now s o.0 b))

-- However many requests one client makes in one scope, at times that do not go back: at the time of the last
-- one, at most `limit` of the requests that the in-memory limiter has admitted since it started lie
-- within the window before that time.
pub sliding_window_bound :
    (key : String × String) (limit window_sec t : ℕ) (times : List ℕ)
    → 0 < window_sec
    → IsOrdered t times
    → length
        (filter (is_live window_sec (final t times)) (serve key limit window_sec times ([], [])).1)
      ≤ limit
sliding_window_bound key limit window_sec t times w o =
    (serve-IsBounded key limit window_sec t times ([], []) w o (refl, omega arith)).1
