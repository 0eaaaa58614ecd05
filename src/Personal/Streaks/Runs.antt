-- ===== src/Personal/Streaks/Runs.antt =====
-- services/api/repositories/personal.py: a streak against the days on which something was watched.
use mathlib.Core.Path.{subst}
use cine_vault.Prelude.{
  ℕ, zero, suc, ◌+◌, ◌-◌, ◌≤◌, ◌<◌, max, true, false, ◌≡◌, ◌≢◌, ◌⊎◌, refl, sym, List, [], ◌∷◌, map,
  Option, none, some, arith, ltb, contains, nat_eq, ◌==◌, Bool-cases, inl, inr,
}
use cine_vault.Personal.Streaks.{Streak, new_streak, moved_to, update_user_streak}

-- A day of watching and the clock, the newest first.
abbrev pub Log : Type 0
Log = List (ℕ × ℕ)

abbrev pub days_of : Log → List ℕ
days_of = map (λ e. e.0)

abbrev pub streak_of : Log → Option Streak
streak_of [] = none
streak_of ((day, now) ∷ log) = some (update_user_streak day now (streak_of log))

-- The days of the log never go back.
abbrev pub IsOrdered : List ℕ → Type 0
IsOrdered [] = Unit
IsOrdered (d ∷ []) = Unit
IsOrdered (d ∷ e ∷ days) = (e ≤ d) × IsOrdered (e ∷ days)

-- `n` days in a row, from `a` on.
abbrev pub IsRun : List ℕ → ℕ → ℕ → Type 0
IsRun days a n = (k : ℕ) → k < n → contains (a + k) days ≡ true

-- The row tells of the days: the run that ends with the last day, from `first` on, which the day before does
-- not continue, and the length of the longest run.
pub record Tells (days : List ℕ) (last : ℕ) (s : Streak) : Type 0 where
  pub at : s.last_watch_date ≡ some last
  pub newest : (d : ℕ) → contains d days ≡ true → d ≤ last
  pub seen : contains last days ≡ true
  pub first : ℕ
  pub ends : first + s.current_streak ≡ last + 1
  pub current : IsRun days first s.current_streak
  pub positive : 1 ≤ s.current_streak
  pub begins : (d : ℕ) → d + 1 ≡ first → contains d days ≡ false
  pub at_most : (a n : ℕ) → IsRun days a n → n ≤ s.longest_streak
  pub best : ℕ
  pub longest : IsRun days best s.longest_streak

in_cons :
    (d x : ℕ) (days : List ℕ) → contains x (d ∷ days) ≡ true → (d ≡ x) ⊎ (contains x days ≡ true)
in_cons d x days h = ground (arith, nat_eq.same_iff d x)

cons_in : (d x : ℕ) (days : List ℕ) → contains x days ≡ true → contains x (d ∷ days) ≡ true
cons_in d x days h = ground arith

head_in : (d : ℕ) (days : List ℕ) → contains d (d ∷ days) ≡ true
head_in d days = ground (arith, nat_eq.same_iff d d)

not_in : (d x : ℕ) (days : List ℕ) → d ≢ x → contains x days ≡ false → contains x (d ∷ days) ≡ false
not_in d x days h k = ground (arith, nat_eq.same_iff d x)

-- A run in the days with a newer one is a run without it, or ends with it.
IsRun-cases :
    (d a n : ℕ) (days : List ℕ)
    → ((x : ℕ) → contains x days ≡ true → x < d)
    → IsRun (d ∷ days) a n
    → (IsRun days a n) ⊎ (a + n ≡ d + 1)
IsRun-cases d a zero days newest run = inl (λ k h. absurd (omega arith))
IsRun-cases d a (suc m) days newest run = elim (Bool-cases (ltb d (a + suc m))) [
  | inl e ↦ inr (elim (in_cons d (a + m) days (run m (omega arith))) [
    | inl same ↦ ground arith
    | inr old ↦ (let less = newest (a + m) old in absurd (ground arith))
  ])
  | inr e ↦ inl (λ k h. elim (in_cons d (a + k) days (run k h)) [
    | inl same ↦ absurd (ground arith)
    | inr old ↦ old
  ])
]

-- A run that ends with the newest day does not start before `first`, if no run goes on over it.
IsRun-start :
    (d a n first : ℕ) (days : List ℕ)
    → ((x : ℕ) → x + 1 ≡ first → contains x days ≡ false)
    → first ≤ d
    → IsRun (d ∷ days) a n
    → a + n ≡ d + 1
    → first ≤ a
IsRun-start d a n first days begins le run ends = elim (Bool-cases (ltb a first)) [
  | inr e ↦ ground arith
  | inl e ↦
      (let k = first - (a + 1) in
        let at : a + k + 1 ≡ first = ground arith in
        let absent = begins (a + k) at in
        elim (in_cons d (a + k) days (run k (omega (arith, at, le, ends)))) [
          | inl same ↦ absurd (omega (arith, same, at, le))
          | inr old ↦ absurd (ground (arith, old, absent))
        ])
]

longer-IsRun :
    (days : List ℕ) (a n b m : ℕ)
    → IsRun days a n
    → IsRun days b m
    → (c : ℕ) × IsRun days c (max n m)
longer-IsRun days a n b m r q = elim (Bool-cases (ltb n m)) [
  | inl e ↦ (let at : max n m ≡ m = ground arith in (b, rw at q))
  | inr e ↦ (let at : max n m ≡ n = ground arith in (a, rw at r))
]

first-Tells : (d now : ℕ) → Tells (d ∷ []) d (new_streak d now)
first-Tells d now = record {
  at = refl;
  newest = λ x h. ground (arith, nat_eq.same_iff d x);
  seen = head_in d [];
  first = d;
  ends = refl;
  current = λ k h. ground (arith, nat_eq.same_iff d (d + k));
  positive = omega arith;
  begins = λ x h. ground (arith, nat_eq.same_iff d x);
  at_most = λ a n run. elim (IsRun-cases d a n [] (λ x h. absurd (ground arith)) run) [
    | inl old ↦ elim (Bool-cases (ltb 0 n)) [
      | inl some_day ↦ (let found = old 0 (ground arith) in absurd (ground (arith, found)))
      | inr no_day ↦ ground arith
    ]
    | inr ends ↦
        (let le = IsRun-start d a n d [] (λ x h. refl) (omega arith) run ends in
          omega (arith, le, ends))
  ];
  best = d;
  longest = λ k h. ground (arith, nat_eq.same_iff d (d + k));
}

same-Tells :
    (days : List ℕ) (last now : ℕ) (s : Streak)
    → Tells days last s
    → Tells (last ∷ days) last (record s { updated_at = now })
same-Tells days last now s t =
    let back : (x : ℕ) → contains x (last ∷ days) ≡ true → contains x days ≡ true = λ x h.
      elim (in_cons last x days h) [
        | inl same ↦ subst (λ y. contains y days ≡ true) same t.seen
        | inr old ↦ old
      ] in
    record {
      at = t.at;
      newest = λ x h. t.newest x (back x h);
      seen = head_in last days;
      first = t.first;
      ends = t.ends;
      current = λ k h. cons_in last (t.first + k) days (t.current k h);
      positive = t.positive;
      begins = λ x h.
          (let ends = t.ends in
            let positive = t.positive in
            not_in last x days (λ same. omega (arith, h, ends, positive, same)) (t.begins x h));
      at_most = λ a n run. t.at_most a n (λ k h. back (a + k) (run k h));
      best = t.best;
      longest = λ k h. cons_in last (t.best + k) days (t.longest k h);
    }

-- A newer day `d`, with the run that ends with it: all runs of the days with `d` end with `d`, or are old.
newer-Tells :
    (days : List ℕ) (last d now first run : ℕ) (s : Streak)
    → Tells days last s
    → last < d
    → first + run ≡ d + 1
    → 1 ≤ run
    → IsRun (d ∷ days) first run
    → ((x : ℕ) → x + 1 ≡ first → contains x days ≡ false)
    → Tells (d ∷ days) d (moved_to run d now s)
newer-Tells days last d now first run s t less ends positive is_run begins =
    let all_older : (x : ℕ) → contains x days ≡ true → x < d =
      λ x h. (let le = t.newest x h in omega (arith, le)) in
    let old_longest : IsRun (d ∷ days) t.best s.longest_streak =
      λ k h. cons_in d (t.best + k) days (t.longest k h) in
    let (best, longest) =
      longer-IsRun (d ∷ days) t.best s.longest_streak first run old_longest is_run in
    record {
      at = refl;
      newest = λ x h. elim (in_cons d x days h) [
        | inl same ↦ omega (arith, same)
        | inr old ↦ (let le = all_older x old in omega (arith, le))
      ];
      seen = head_in d days;
      first = first;
      ends = ends;
      current = is_run;
      positive = positive;
      begins = λ x h. not_in d x days (λ same. omega (arith, h, ends, positive, same)) (begins x h);
      at_most = λ a n r. elim (IsRun-cases d a n days all_older r) [
        | inl old ↦ (let le = t.at_most a n old in omega (arith, le))
        | inr at_end ↦
            (let le =
                IsRun-start d a n first days begins (omega (arith, ends, positive)) r at_end in
              omega (arith, le, at_end, ends))
      ];
      best = best;
      longest = longest;
    }

next-Tells :
    (days : List ℕ) (last now : ℕ) (s : Streak)
    → Tells days last s
    → Tells ((last + 1) ∷ days) (last + 1) (moved_to (s.current_streak + 1) (last + 1) now s)
next-Tells days last now s t =
    let d = last + 1 in
    let ends = t.ends in
    newer-Tells days last d now t.first (s.current_streak + 1) s t (omega arith)
      (omega (arith, ends)) (omega arith)
      (λ k h. elim (Bool-cases (ltb k s.current_streak)) [
        | inl less ↦ cons_in d (t.first + k) days (t.current k (ground arith))
        | inr e ↦
            (let same : d ≡ t.first + k = ground (arith, ends) in
              ground (arith, nat_eq.same_iff d (t.first + k)))
      ])
      t.begins

later-Tells :
    (days : List ℕ) (last d now : ℕ) (s : Streak)
    → Tells days last s
    → last + 1 < d
    → Tells (d ∷ days) d (moved_to 1 d now s)
later-Tells days last d now s t less =
    newer-Tells days last d now d 1 s t (omega arith) refl (omega arith)
      (λ k h. ground (arith, nat_eq.same_iff d (d + k)))
      (λ x h. elim (Bool-cases (contains x days)) [
        | inl e ↦ (let le = t.newest x e in absurd (omega (arith, le, h)))
        | inr e ↦ e
      ])

step-Tells :
    (days : List ℕ) (last d now : ℕ) (s : Streak)
    → Tells days last s
    → last ≤ d
    → Tells (d ∷ days) d (update_user_streak d now (some s))
unfolding update_user_streak
step-Tells days last d now s t le = elim (Bool-cases (d == last)) [
  | inl e ↦
      rw (update_user_streak, t.at, e)
        (subst (λ x. Tells (x ∷ days) x (record s { updated_at = now }))
          (sym ((nat_eq.same_iff d last).0 e)) (same-Tells days last now s t))
  | inr e ↦ elim (Bool-cases (d == last + 1)) [
    | inl f ↦
        rw (update_user_streak, t.at, e, f)
          (subst (λ x. Tells (x ∷ days) x (moved_to (s.current_streak + 1) x now s))
            (sym ((nat_eq.same_iff d (last + 1)).0 f)) (next-Tells days last now s t))
    | inr f ↦
        (let further : last + 1 < d =
            ground (arith, nat_eq.same_iff d last, nat_eq.same_iff d (last + 1)) in
          let g : ltb (last + 1) d ≡ true = ground arith in
          rw (update_user_streak, t.at, e, f, g) (later-Tells days last d now s t further))
  ]
]

-- After days of watching that never go back, the row of the user has the last day; the current streak is the
-- number of consecutive days that end with it, as far back as they go, and the longest streak is the
-- greatest number of consecutive days on which the user watched.
pub streak_of-Tells :
    (day now : ℕ) (log : Log)
    → IsOrdered (day ∷ days_of log)
    → Tells (day ∷ days_of log) day (update_user_streak day now (streak_of log))
unfolding update_user_streak
streak_of-Tells day now [] h = first-Tells day now
streak_of-Tells day now ((d, earlier) ∷ log) h =
    step-Tells (d ∷ days_of log) d day now (update_user_streak d earlier (streak_of log))
      (streak_of-Tells d earlier log h.1) h.0
