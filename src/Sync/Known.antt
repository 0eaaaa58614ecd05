-- ===== src/Sync/Known.antt =====
-- services/api/valkey.py and services/api/repositories/sync.py: how long Valkey knows the mutations of a push.
use Prim.Native.String.{◌++◌ as str_append}
use cine_vault.Prelude.{
  ℕ, ◌≤◌, ◌<◌, leb, ltb, ◌&&◌, ◌==◌, Bool, String, true, not, ◌||◌, ◌≡◌, refl, List, [], ◌∷◌, arith,
  string_eq, Bool-cases, inl, inr, ◌+◌,
}
use cine_vault.Sync.Stores.{
  MutationItem, Valkey, check_and_set_idempotency, is_set, idempotency_ttl,
}
use cine_vault.Sync.Push.{valkey_key}

abbrev pub full_key : String → MutationItem → String
full_key user item = str_append "idempotency:" (valkey_key user item.mutation_id)

-- No entry of the key expires between the two times: each has expired at the first, or lasts past the second.
abbrev pub is_settled : ℕ → ℕ → String → List (String × ℕ) → Bool
is_settled start until key [] = true
is_settled start until key ((k, expiry) ∷ ks) =
    (not (k == key) || leb expiry start || ltb until expiry) && is_settled start until key ks

-- Valkey answers, and has the key of the mutation at the time and before.
abbrev pub IsKnown : String → ℕ → Valkey → MutationItem → Type 0
IsKnown user until v item =
    (v.available ≡ true) × ((now : ℕ) → now ≤ until → is_set (full_key user item) now v.keys ≡ true)

-- The times at which Valkey is asked in a push of so many mutations: none before the first time, and none a
-- day or more before the second.
abbrev pub AreWithin : ℕ → ℕ → ℕ → (ℕ → ℕ) → Type 0
AreWithin start until count times =
    (n : ℕ) → n < count → (start ≤ times n) × (until < times n + idempotency_ttl)

is_set-lasts :
    (start until now later : ℕ) (key : String) (ks : List (String × ℕ))
    → is_settled start until key ks ≡ true
    → start ≤ now
    → later ≤ until
    → is_set key now ks ≡ true
    → is_set key later ks ≡ true
is_set-lasts start until now later key [] s a b h = absurd (ground arith)
is_set-lasts start until now later key ((k, expiry) ∷ ks) s a b h =
    elim (Bool-cases (is_set key now ks)) [
      | inl e ↦
          (let rest : is_settled start until key ks ≡ true = ground (arith, s) in
            let found = is_set-lasts start until now later key ks rest a b e in
            ground (arith, found))
      | inr e ↦ ground (arith, s, a, b, h, e)
    ]

module _ (user : String) (start until now : ℕ)
    (bounds : (start ≤ now) × (until < now + idempotency_ttl)) where
  pub set-IsKnown :
      (item : MutationItem) (v : Valkey)
      → v.available ≡ true
      → is_settled start until (full_key user item) v.keys ≡ true
      → IsKnown user until
          (check_and_set_idempotency now (valkey_key user item.mutation_id) idempotency_ttl v).1
          item
  unfolding check_and_set_idempotency
  set-IsKnown item v h s = elim (Bool-cases (is_set (full_key user item) now v.keys)) [
    | inl e ↦ rw (h, e) (refl, λ t b. is_set-lasts start until now t _ v.keys s bounds.0 b e)
    | inr e ↦
        rw (h, e)
          (
            refl,
            λ t b.
                (let fits = bounds.1 in
                  ground
                    (arith, fits, b, string_eq.same_iff (full_key user item) (full_key user item))),
          )
  ]

  pub set-is_settled :
      (key other : String) (v : Valkey)
      → is_settled start until other v.keys ≡ true
      → is_settled start until other (check_and_set_idempotency now key idempotency_ttl v).1.keys
        ≡ true
  unfolding check_and_set_idempotency
  set-is_settled key other v h = let fits = bounds.1 in ground (arith, fits)

pub set-keeps :
    (user key : String) (until now : ℕ) (item : MutationItem) (v : Valkey)
    → IsKnown user until v item
    → IsKnown user until (check_and_set_idempotency now key idempotency_ttl v).1 item
unfolding check_and_set_idempotency
set-keeps user key until now item v h =
    ((let a = h.0 in ground (arith, a)), λ t b. (let live = h.1 t b in ground (arith, live)))
