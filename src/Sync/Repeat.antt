-- ===== src/Sync/Repeat.antt =====
-- services/api/repositories/sync.py: what a push answers, and what a second push of it does.
use mathlib.Core.Path.{subst}
use cine_vault.Prelude.{
  ℕ, suc, ◌≤◌, ◌<◌, All-imp, String, true, not, ◌||◌, ◌≡◌, ◌⊎◌, refl, sym, ap, ◌∙◌, List, [], ◌∷◌,
  map, arith, length, contains, Result, ok, err, string_eq, Bool-cases, Result-cases, inl, inr, All,
  ◌+◌,
}
use cine_vault.Sync.Stores.{
  MutationItem, SyncError, Server, Context, check_and_set_idempotency, check_database, stage_outbox,
  idempotency_ttl,
}
use cine_vault.Sync.Push.{
  PersonalRepository, valkey_key, dispatch, Outcome, acknowledged, failed, raised, execute_item,
  process_item, SyncPushResponse, response, acknowledge, fail, answered, process_push_mutations,
}
use cine_vault.Sync.Known.{
  full_key, is_settled, IsKnown, AreWithin, set-IsKnown, set-is_settled, set-keeps,
}

abbrev pub all_acknowledged : List MutationItem → SyncPushResponse
all_acknowledged items = response (map (λ i. i.mutation_id) items) []

Outcome-cases :
    (o : Outcome)
    → (o ≡ acknowledged) ⊎ (((e : SyncError) × (o ≡ failed e)) ⊎ ((e : SyncError) × (o ≡ raised e)))
Outcome-cases acknowledged = inl refl
Outcome-cases (failed e) = inr (inl (e, refl))
Outcome-cases (raised e) = inr (inr (e, refl))

answered-ok :
    (f : SyncPushResponse → SyncPushResponse) (p : Result SyncError SyncPushResponse)
    (r : SyncPushResponse)
    → answered f p ≡ ok r
    → (q : SyncPushResponse) × (p ≡ ok q) × (r ≡ f q)
answered-ok f (ok q) r h = (q, refl, ground arith)
answered-ok f (err e) r h = absurd (ground arith)

-- What a mutation may add to an answer.
abbrev AddsItem : MutationItem → (SyncPushResponse → SyncPushResponse) → Type 0
AddsItem item f =
    (f ≡ acknowledge item.mutation_id) ⊎ ((e : SyncError) × (f ≡ fail item.mutation_id e))

-- The ids of a push, each taken by one of the two lists.
pub data Splits : List MutationItem → List String → List (String × SyncError) → Type 0 where
  none_left : Splits [] [] []
  acks :
      {items : List MutationItem} {ids : List String} {errors : List (String × SyncError)}
      (item : MutationItem)
      → Splits items ids errors
      → Splits (item ∷ items) (item.mutation_id ∷ ids) errors
  fails :
      {items : List MutationItem} {ids : List String} {errors : List (String × SyncError)}
      (item : MutationItem) (e : SyncError)
      → Splits items ids errors
      → Splits (item ∷ items) ids ((item.mutation_id, e) ∷ errors)

pub record Answers (items : List MutationItem) (r : SyncPushResponse) : Type 0 where
  pub splits : Splits items r.acknowledged_mutation_ids r.failed_mutations
  pub counted : r.processed_count ≡ length r.acknowledged_mutation_ids
  pub complete : r.processed_count + length r.failed_mutations ≡ length items

Answers-add :
    (item : MutationItem) (items : List MutationItem) (f : SyncPushResponse → SyncPushResponse)
    (r : SyncPushResponse)
    → AddsItem item f
    → Answers items r
    → Answers (item ∷ items) (f r)
Answers-add item items f r (inl e) a =
    subst (λ g. Answers (item ∷ items) (g r)) (sym e)
      (record {
        splits = acks item a.splits;
        counted = refl;
        complete = omega (arith, a.counted, a.complete);
      })
Answers-add item items f r (inr (x, e)) a =
    subst (λ g. Answers (item ∷ items) (g r)) (sym e)
      (record {
        splits = fails item x a.splits;
        counted = refl;
        complete = omega (arith, a.counted, a.complete);
      })

module _ {S W : Type 0} (c : Context) (repo : PersonalRepository S W) (user : String) where
  execute_item-valkey :
      (item : MutationItem) (s : Server S W) → (execute_item c repo user item s).1.valkey ≡ s.valkey
  unfolding execute_item
  execute_item-valkey item s = elim (Result-cases (dispatch c repo user item s.stores).0) [
    | inl (e, h) ↦ rw (execute_item, h) refl
    | inr (a, h) ↦
        elim (Result-cases (stage_outbox c user item (dispatch c repo user item s.stores).1).0) [
          | inl (e, k) ↦ rw (execute_item, h, k) refl
          | inr (b, k) ↦ rw (execute_item, h, k) refl
        ]
  ]

  process_item-valkey :
      (now : ℕ) (item : MutationItem) (s : Server S W)
      → (process_item c repo user now item s).1.valkey
        ≡ (check_and_set_idempotency now
            (valkey_key user item.mutation_id)
            idempotency_ttl
            s.valkey).1
  unfolding process_item
  process_item-valkey now item s =
      let set =
        check_and_set_idempotency now (valkey_key user item.mutation_id) idempotency_ttl s.valkey in
      let checked = check_database c user item.mutation_id s.stores in
      elim (Bool-cases (not set.0 || contains item.mutation_id s.processed)) [
        | inl d ↦ rw (process_item, d) refl
        | inr d ↦ elim (Result-cases checked.0) [
          | inl (e, h) ↦ rw (process_item, d, h) refl
          | inr (found, h) ↦ elim (Bool-cases found) [
            | inl f ↦ rw (process_item, d, h, f) refl
            | inr f ↦
                rw (process_item, d, h, f)
                  (execute_item-valkey item (record s { valkey = set.1; stores = checked.1 }))
          ]
        ]
      ]

  process_item-known :
      (now until : ℕ) (item : MutationItem) (s : Server S W)
      → now ≤ until
      → IsKnown user until s.valkey item
      → process_item c repo user now item s ≡ (acknowledged, s)
  unfolding process_item check_and_set_idempotency
  process_item-known now until item s b h = rw (h.0, h.1 now b) refl

  -- The push of a first mutation and the rest: what it adds to the answer for the rest, unless it raises.
  push-step :
      (times : ℕ → ℕ) (item : MutationItem) (items : List MutationItem) (s : Server S W)
      → let s' = (process_item c repo user (times 0) item s).1 in
        let rest = process_push_mutations c repo user (λ n. times (suc n)) items s' in
        ((f : SyncPushResponse → SyncPushResponse) × AddsItem item f
          × (process_push_mutations c repo user times (item ∷ items) s
              ≡ (answered f rest.0, rest.1)))
        ⊎ ((e : SyncError) × (process_push_mutations c repo user times (item ∷ items) s
              ≡ (err e, s')))
  unfolding process_push_mutations
  push-step times item items s =
      elim (Outcome-cases (process_item c repo user (times 0) item s).0) [
        | inl e ↦ inl (acknowledge item.mutation_id, inl refl, rw (process_push_mutations, e) refl)
        | inr (inl (x, e)) ↦
            inl (fail item.mutation_id x, inr (x, refl), rw (process_push_mutations, e) refl)
        | inr (inr (x, e)) ↦ inr (x, rw (process_push_mutations, e) refl)
      ]

  push-known :
      (times : ℕ → ℕ) (until : ℕ) (items : List MutationItem) (s : Server S W)
      → ((n : ℕ) → n < length items → times n ≤ until)
      → All (IsKnown user until s.valkey) items
      → process_push_mutations c repo user times items s ≡ (ok (all_acknowledged items), s)
  unfolding process_push_mutations
  push-known times until [] s b h = refl
  push-known times until (item ∷ items) s b h =
      let known = process_item-known (times 0) until item s (b 0 (omega arith)) h.0 in
      let e : (process_item c repo user (times 0) item s).0 ≡ acknowledged = ap (λ p. p.0) known in
      let at_s : (process_item c repo user (times 0) item s).1 ≡ s = ap (λ p. p.1) known in
      let rest =
        push-known (λ n. times (suc n)) until items s (λ n k. b (suc n) (omega (arith, k))) h.1 in
      (rw (process_push_mutations, e) (rw at_s refl))
      ∙ ap (λ p. (answered (acknowledge item.mutation_id) p.0, p.1)) rest

  module _ (start until : ℕ) where
    push-keeps :
        (times : ℕ → ℕ) (items : List MutationItem) (other : MutationItem) (s : Server S W)
        → IsKnown user until s.valkey other
        → IsKnown user until (process_push_mutations c repo user times items s).1.valkey other
    unfolding process_push_mutations
    push-keeps times [] other s h = h
    push-keeps times (item ∷ items) other s h =
        let s' = (process_item c repo user (times 0) item s).1 in
        let known : IsKnown user until s'.valkey other =
          subst (λ v. IsKnown user until v other) (sym (process_item-valkey (times 0) item s))
            (set-keeps user (valkey_key user item.mutation_id) until (times 0) other s.valkey h) in
        elim (push-step times item items s) [
          | inl (f, adds, e) ↦
              subst (λ p. IsKnown user until p.1.valkey other) (sym e)
                (push-keeps (λ n. times (suc n)) items other s' known)
          | inr (x, e) ↦ subst (λ p. IsKnown user until p.1.valkey other) (sym e) known
        ]

    -- A push that answers has told Valkey about each of its mutations.
    push-learns :
        (times : ℕ → ℕ) (items : List MutationItem) (s : Server S W) (r : SyncPushResponse)
        → s.valkey.available ≡ true
        → AreWithin start until (length items) times
        → All (λ i. is_settled start until (full_key user i) s.valkey.keys ≡ true) items
        → (process_push_mutations c repo user times items s).0 ≡ ok r
        → All (IsKnown user until (process_push_mutations c repo user times items s).1.valkey) items
    unfolding process_push_mutations
    push-learns times [] s r a w fresh h = tt
    push-learns times (item ∷ items) s r a w fresh h =
        let s' = (process_item c repo user (times 0) item s).1 in
        let bounds = w 0 (omega arith) in
        let valkey = sym (process_item-valkey (times 0) item s) in
        let known : IsKnown user until s'.valkey item =
          subst (λ v. IsKnown user until v item) valkey
            (set-IsKnown user start until (times 0) bounds item s.valkey a fresh.0) in
        let still =
          All-imp (λ i. is_settled start until (full_key user i) s.valkey.keys ≡ true)
            (λ i. is_settled start until (full_key user i) s'.valkey.keys ≡ true)
            (λ i f.
              subst (λ v. is_settled start until (full_key user i) v.keys ≡ true) valkey
                (set-is_settled user start until (times 0) bounds (valkey_key user item.mutation_id)
                  (full_key user i) s.valkey f))
            items fresh.1 in
        let rest = process_push_mutations c repo user (λ n. times (suc n)) items s' in
        elim (push-step times item items s) [
          | inl (f, adds, e) ↦
              (let (q, answer, is) = answered-ok f rest.0 r (sym (ap (λ p. p.0) e) ∙ h) in
                subst (λ p. All (IsKnown user until p.1.valkey) (item ∷ items)) (sym e)
                  (
                    push-keeps (λ n. times (suc n)) items item s' known,
                    push-learns (λ n. times (suc n)) items s' q known.0
                        (λ n k. w (suc n) (omega (arith, k))) still answer,
                  ))
          | inr (x, e) ↦
              (let refused : err x ≡ ok r = sym (ap (λ p. p.0) e) ∙ h in
                absurd (ground (arith, refused)))
        ]

    -- While Valkey answers, and keeps a key for the day that it is set for: a push that answers makes every one
    -- of its mutations a duplicate until a day has passed since the first, also the failed ones. The same push
    -- within that time acknowledges all of them and changes nothing, if no older key of them expires in it.
    pub push_again :
        (times times' : ℕ → ℕ) (items : List MutationItem) (s s' : Server S W)
        (r : SyncPushResponse)
        → s.valkey.available ≡ true
        → AreWithin start until (length items) times
        → All (λ i. is_settled start until (full_key user i) s.valkey.keys ≡ true) items
        → ((n : ℕ) → n < length items → times' n ≤ until)
        → process_push_mutations c repo user times items s ≡ (ok r, s')
        → process_push_mutations c repo user times' items s' ≡ (ok (all_acknowledged items), s')
    push_again times times' items s s' r a w fresh b h = push-known times' until items s' b (
        subst (λ p. All (IsKnown user until p.1.valkey) items) h
          (push-learns times items s r a w fresh (ap (λ p. p.0) h)))

  -- A push that answers has acknowledged or failed each of its mutations, once each and in their order, and
  -- counts the acknowledged ones.
  pub push-Answers :
      (times : ℕ → ℕ) (items : List MutationItem) (s s' : Server S W) (r : SyncPushResponse)
      → process_push_mutations c repo user times items s ≡ (ok r, s')
      → Answers items r
  unfolding process_push_mutations
  push-Answers times [] s s' r h =
      let is : response [] [] ≡ r = ground (arith, ap (λ p. p.0) h) in
      subst (Answers []) is (record { splits = none_left; counted = refl; complete = refl })
  push-Answers times (item ∷ items) s s' r h =
      let s'' = (process_item c repo user (times 0) item s).1 in
      let rest = process_push_mutations c repo user (λ n. times (suc n)) items s'' in
      elim (push-step times item items s) [
        | inl (f, adds, e) ↦
            (let (q, answer, is) = answered-ok f rest.0 r (ap (λ p. p.0) (sym e ∙ h)) in
              let before =
                push-Answers (λ n. times (suc n)) items s'' rest.1 q
                  (ap (λ x. (x, rest.1)) answer) in
              subst (Answers (item ∷ items)) (sym is) (Answers-add item items f q adds before))
        | inr (x, e) ↦
            (let refused : err x ≡ ok r = ap (λ p. p.0) (sym e ∙ h) in
              absurd (ground (arith, refused)))
      ]
