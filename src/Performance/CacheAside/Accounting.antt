-- ===== src/Performance/CacheAside/Accounting.antt =====
-- services/api/performance.py: what `CacheAside` returns and counts.
use cine_vault.Prelude.{
  ℕ, ◌+◌, String, Bool, true, false, ◌≡◌, refl, List, none, some, arith, ok, string_eq,
  if◌then◌else◌,
}
use cine_vault.Prelude.Dict.{Dict, lookup-insert_self}
use cine_vault.Performance.CacheAside.{
  count_of, bump, lookups_of, cache_key, Manager, Codec, Fetch, CacheState, fetch_and_store,
  get_or_fetch,
}

count_of-bump :
    (namespace : String) (d : Dict String ℕ)
    → count_of namespace (bump namespace d) ≡ count_of namespace d + 1
count_of-bump namespace d =
    ground (arith, lookup-insert_self namespace (count_of namespace d + 1) d)

module _ (manager : Manager) {E V : Type 0} (codec : Codec V) (namespace : String) (ttl : ℕ) where
  open manager use {get, set}

  -- The cache holds a text for the key, which the deserializer refuses.
  abbrev pub is_undecodable : List String → Fetch E V → CacheState manager → Bool
  is_undecodable key_parts f s = elim (get (cache_key namespace key_parts) s.store f.read_at) [
    | none ↦ false
    | some cached ↦ elim (codec.deserialize cached) [ none ↦ true | some v ↦ false ]
  ]

  -- Every call counts as one lookup, whether `fetch_fn` returns or raises, but as two, a hit and a miss,
  -- where the cached text cannot be decoded.
  pub lookups_counted :
      (key_parts : List String) (f : Fetch E V) (s : CacheState manager)
      → let s' = (get_or_fetch manager codec namespace ttl key_parts f s).1 in
        lookups_of namespace s'.metrics
        ≡ lookups_of namespace s.metrics + (if is_undecodable key_parts f s then 2 else 1)
  unfolding get_or_fetch fetch_and_store
  lookups_counted key_parts f s =
      ground
        (arith, count_of-bump namespace s.metrics.hits, count_of-bump namespace s.metrics.misses)

  -- A value that was fetched on a miss is served from the cache by a later call with the same key, whatever
  -- that call would fetch, provided that Valkey still holds the text when it is read again and that the
  -- serializer's text for the value is read back as the value.
  pub fetched_then_cached :
      (key_parts : List String) (f f' : Fetch E V) (s : CacheState manager) (v : V) (text : String)
      → get (cache_key namespace key_parts) s.store f.read_at ≡ none
      → f.fetched ≡ ok v
      → codec.serialize v ≡ some text
      → codec.deserialize text ≡ some v
      → get
          (cache_key namespace key_parts)
          (set (cache_key namespace key_parts) text ttl s.store f.written_at)
          f'.read_at
        ≡ some text
      → let (r, s') = get_or_fetch manager codec namespace ttl key_parts f s in
        (r ≡ ok (v, false))
        × ((get_or_fetch manager codec namespace ttl key_parts f' s').0 ≡ ok (v, true))
  unfolding get_or_fetch fetch_and_store
  fetched_then_cached key_parts f f' s v text miss fetched ser de held = (
    rw (get_or_fetch, miss, fetch_and_store, fetched) refl,
    rw (get_or_fetch, miss, fetch_and_store, fetched, ser, held, de) refl,
  )
