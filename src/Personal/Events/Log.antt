-- ===== src/Personal/Events/Log.antt =====
-- services/api/repositories/personal.py: the log of watch events is append-only.
use cine_vault.Prelude.{
  ℕ, String, true, ◌&&◌, ◌≡◌, ◌≢◌, refl, List, [], ◌∷◌, ◌++◌, map, none, some, arith, string_eq,
  ◌==◌, Bool-cases, Option-cases, inl, inr,
}
use cine_vault.Personal.Events.{
  WatchEvent, WatchEventCreate, History, event_response, find_event, new_event, create_watch_event,
  tombstoned, owns, delete_watch_event,
}

-- The second log has the events of the first in their places, tombstoned at most, and then others.
pub data Extends : List WatchEvent → List WatchEvent → Type 0 where
  grown : (added : List WatchEvent) → Extends [] added
  kept : {es fs : List WatchEvent} (e : WatchEvent) → Extends es fs → Extends (e ∷ es) (e ∷ fs)
  erased :
      {es fs : List WatchEvent} (e : WatchEvent)
      → Extends es fs
      → Extends (e ∷ es) (record e { is_tombstoned = true } ∷ fs)

same-Extends : (es : List WatchEvent) → Extends es es
same-Extends [] = grown []
same-Extends (e ∷ es) = kept e (same-Extends es)

append-Extends : (es fs : List WatchEvent) → Extends es (es ++ fs)
append-Extends [] fs = grown fs
append-Extends (e ∷ es) fs = kept e (append-Extends es fs)

tombstoned-Extends :
    (user id : String) (es : List WatchEvent) → Extends es (map (tombstoned user id) es)
tombstoned-Extends user id [] = grown []
tombstoned-Extends user id (e ∷ es) =
    elim (Bool-cases (e.watch_event_id == id && e.user_id == user)) [
      | inl h ↦ rw h (erased e (tombstoned-Extends user id es))
      | inr h ↦ rw h (kept e (tombstoned-Extends user id es))
    ]

trans-Extends : {es fs gs : List WatchEvent} → Extends es fs → Extends fs gs → Extends es gs
trans-Extends (grown added) k = grown _
trans-Extends (kept e h) (kept _ k) = kept e (trans-Extends h k)
trans-Extends (kept e h) (erased _ k) = erased e (trans-Extends h k)
trans-Extends (erased e h) (kept _ k) = erased e (trans-Extends h k)
trans-Extends (erased e h) (erased _ k) = erased e (trans-Extends h k)

-- No two events have the same id.
abbrev pub IsUnique : List WatchEvent → Type 0
IsUnique [] = Unit
IsUnique (e ∷ es) = (find_event e.watch_event_id es ≡ none) × IsUnique es

find_event-append :
    (id : String) (es : List WatchEvent) (e : WatchEvent)
    → find_event id es ≡ none
    → e.watch_event_id ≢ id
    → find_event id (es ++ e ∷ []) ≡ none
find_event-append id [] e h k = ground (arith, string_eq.same_iff e.watch_event_id id)
find_event-append id (f ∷ es) e h k = elim (Bool-cases (f.watch_event_id == id)) [
  | inl same ↦ absurd (ground arith)
  | inr other ↦ rw other (find_event-append id es e (ground arith) k)
]

append-IsUnique :
    (es : List WatchEvent) (e : WatchEvent)
    → find_event e.watch_event_id es ≡ none
    → IsUnique es
    → IsUnique (es ++ e ∷ [])
append-IsUnique [] e h u = (refl, tt)
append-IsUnique (f ∷ es) e h u = elim (Bool-cases (f.watch_event_id == e.watch_event_id)) [
  | inl same ↦ absurd (ground arith)
  | inr other ↦ (
    find_event-append f.watch_event_id es e u.0
        (λ same. ground (arith, string_eq.same_iff f.watch_event_id e.watch_event_id)),
    append-IsUnique es e (ground arith) u.1,
  )
]

find_event-tombstoned :
    (user id key : String) (es : List WatchEvent)
    → find_event key es ≡ none
    → find_event key (map (tombstoned user id) es) ≡ none
find_event-tombstoned user id key [] h = refl
find_event-tombstoned user id key (e ∷ es) h = elim (Bool-cases (e.watch_event_id == key)) [
  | inl same ↦ absurd (ground arith)
  | inr other ↦ elim (Bool-cases (e.watch_event_id == id && e.user_id == user)) [
    | inl t ↦ rw (t, other) (find_event-tombstoned user id key es (ground arith))
    | inr t ↦ rw (t, other) (find_event-tombstoned user id key es (ground arith))
  ]
]

tombstoned-IsUnique :
    (user id : String) (es : List WatchEvent) → IsUnique es → IsUnique (map (tombstoned user id) es)
tombstoned-IsUnique user id [] u = tt
tombstoned-IsUnique user id (e ∷ es) u =
    let absent = find_event-tombstoned user id e.watch_event_id es u.0 in
    let rest = tombstoned-IsUnique user id es u.1 in
    elim (Bool-cases (e.watch_event_id == id && e.user_id == user)) [
      | inl t ↦ rw t (absent, rest)
      | inr t ↦ rw t (absent, rest)
    ]

-- Calls that write the log, of any users.
pub data Call : Type 0 where
  create : String → WatchEventCreate → String → ℕ → Call
  delete : String → String → Call

abbrev pub apply : (String → ℕ) → Call → History → History
apply total_episodes (create user body id now) h =
    (create_watch_event total_episodes user body id now h).1
apply total_episodes (delete user id) h = (delete_watch_event user id h).1

abbrev pub run : (String → ℕ) → List Call → History → History
run total_episodes [] h = h
run total_episodes (c ∷ calls) h = run total_episodes calls (apply total_episodes c h)

pub record AppendOnly (before after : List WatchEvent) : Type 0 where
  pub extends : Extends before after
  pub unique : IsUnique after

apply-AppendOnly :
    (total_episodes : String → ℕ) (c : Call) (h : History)
    → IsUnique h.events
    → AppendOnly h.events (apply total_episodes c h).events
unfolding create_watch_event delete_watch_event
apply-AppendOnly total_episodes (create user body id now) h u =
    elim (Option-cases (find_event id h.events)) [
      | inr (e, known) ↦
          rw (apply, create_watch_event, known)
            (record { extends = same-Extends h.events; unique = u })
      | inl new ↦
          rw (apply, create_watch_event, new)
            (record {
              extends = append-Extends h.events (new_event user body id now ∷ []);
              unique = append-IsUnique h.events (new_event user body id now) new u;
            })
    ]
apply-AppendOnly total_episodes (delete user id) h u = elim (Bool-cases (owns user id h.events)) [
  | inl own ↦
      rw (apply, delete_watch_event, own)
        (record {
          extends = tombstoned-Extends user id h.events;
          unique = tombstoned-IsUnique user id h.events u;
        })
  | inr other ↦
      rw (apply, delete_watch_event, other) (record { extends = same-Extends h.events; unique = u })
]

-- Whatever calls are made on a log with distinct ids, it stays one, and it has all its events in their places,
-- unchanged but for the tombstone.
pub run-AppendOnly :
    (total_episodes : String → ℕ) (calls : List Call) (h : History)
    → IsUnique h.events
    → AppendOnly h.events (run total_episodes calls h).events
run-AppendOnly total_episodes [] h u = record { extends = same-Extends h.events; unique = u }
run-AppendOnly total_episodes (c ∷ calls) h u =
    let step = apply-AppendOnly total_episodes c h u in
    let rest = run-AppendOnly total_episodes calls (apply total_episodes c h) step.unique in
    record { extends = trans-Extends step.extends rest.extends; unique = rest.unique }

known_event :
    (total : String → ℕ) (user : String) (body : WatchEventCreate) (id : String) (now : ℕ)
    (h : History) (e : WatchEvent)
    → find_event id h.events ≡ some e
    → create_watch_event total user body id now h
      ≡ (event_response user body.progress_percentage e, h)
unfolding create_watch_event
known_event total user body id now h e k = rw (create_watch_event, k) refl

find_event-own :
    (es : List WatchEvent) (e : WatchEvent)
    → find_event e.watch_event_id es ≡ none
    → find_event e.watch_event_id (es ++ e ∷ []) ≡ some e
find_event-own [] e h = ground (arith, string_eq.same_iff e.watch_event_id e.watch_event_id)
find_event-own (f ∷ es) e h = elim (Bool-cases (f.watch_event_id == e.watch_event_id)) [
  | inl same ↦ absurd (ground arith)
  | inr other ↦ rw other (find_event-own es e (ground arith))
]

find_event-created :
    (total : String → ℕ) (user : String) (body : WatchEventCreate) (id : String) (now : ℕ)
    (h : History)
    → let (answer, after) = create_watch_event total user body id now h in
      (e : WatchEvent) × (find_event id after.events ≡ some e)
      × (answer ≡ event_response user body.progress_percentage e)
unfolding create_watch_event
find_event-created total user body id now h = elim (Option-cases (find_event id h.events)) [
  | inr (e, known) ↦ rw (create_watch_event, known) (e, known, refl)
  | inl new ↦
      (let e = new_event user body id now in
        rw (create_watch_event, new) (e, find_event-own h.events e new, refl))
]

pub create_watch_event-again :
    (total total' : String → ℕ) (user user' : String) (body body' : WatchEventCreate) (id : String)
    (now now' : ℕ) (h : History)
    → let (first, after) = create_watch_event total user body id now h in
      let second = create_watch_event total' user' body' id now' after in
      second ≡ (
        record first {
          user_id = user';
          progress_percentage = body'.progress_percentage;
          created_at = second.0.created_at;
        },
        after,
      )
create_watch_event-again total total' user user' body body' id now now' h =
    let after = (create_watch_event total user body id now h).1 in
    let (e, found, answer) = find_event-created total user body id now h in
    rw (known_event total' user' body' id now' after e found, answer) refl
