-- ===== src/Cache.antt =====
-- src/worker_harness/cache.py: the cache with an expiry per key. Each operation runs under the lock
-- of the cache and is one step; times are those of the monotonic clock.
pub mod Laws
pub mod Refines
pub mod Response
mod Examples
use worker_harness.Base.{
  ℕ, zero, suc, ◌+◌, String, Bool, true, false, ◌&&◌, not, Option, none, some, List, [], ◌∷◌,
  length, is_some, ltb, ◌==◌, starts_with, if◌then◌else◌,
}
use worker_harness.Dict.{Dict, put, remove}
use worker_harness.Dict.{get as dict_get}

pub record Entry (V : Type 0) : Type 0 where
  pub value : V
  pub expires_at : ℕ

pub record TtlCache (V : Type 0) : Type 0 where
  pub store : Dict (Entry V)
  pub hits : ℕ
  pub misses : ℕ
  pub evictions : ℕ
  pub size_gauge : ℕ

module _ {V : Type 0} where
  unfoldable pub new_cache : TtlCache V
  new_cache = record { store = []; hits = 0; misses = 0; evictions = 0; size_gauge = 0 }

  abbrev missed : TtlCache V → TtlCache V
  missed c = record c { misses = c.misses + 1 }

  -- `del store[key]`, the gauge and the eviction counter
  abbrev dropped : String → TtlCache V → TtlCache V
  dropped key c = record c {
    store = remove key c.store;
    size_gauge = length (remove key c.store);
    evictions = c.evictions + 1;
  }

  unfoldable pub get : String → ℕ → TtlCache V → Option V × TtlCache V
  get key now c = elim (dict_get key c.store) [
    | none ↦ (none, missed c)
    | some entry ↦
        if ltb entry.expires_at now
        then (none, missed (dropped key c))
        else (some entry.value, record c { hits = c.hits + 1 })
  ]

  unfoldable pub set : String → V → ℕ → ℕ → TtlCache V → TtlCache V
  set key value ttl_seconds now c =
      let store = put key (record { value = value; expires_at = now + ttl_seconds }) c.store in
      record c { store = store; size_gauge = length store }

  unfoldable pub invalidate : String → TtlCache V → Bool × TtlCache V
  invalidate key c = if is_some (dict_get key c.store) then (true, dropped key c) else (false, c)

  -- `[k for k in store if k.startswith(prefix)]`
  unfoldable pub keys_under : String → Dict (Entry V) → List String
  keys_under prefix [] = []
  keys_under prefix ((k, _) ∷ es) =
      let rest = keys_under prefix es in if starts_with prefix k then k ∷ rest else rest

  unfoldable pub remove_all : List String → Dict (Entry V) → Dict (Entry V)
  remove_all [] store = store
  remove_all (k ∷ ks) store = remove_all ks (remove k store)

  unfoldable pub invalidate_prefix : String → TtlCache V → ℕ × TtlCache V
  invalidate_prefix prefix c =
      let keys = keys_under prefix c.store in
      let store = remove_all keys c.store in
      (
        length keys,
        record c {
          store = store;
          evictions = c.evictions + length keys;
          size_gauge = length store;
        },
      )

  unfoldable pub clear : TtlCache V → TtlCache V
  clear c = record c { store = []; size_gauge = 0; evictions = c.evictions + 1 }

  -- `cached_response`: the wrapper of a handler. The handler runs only on a miss and its result is
  -- stored; `none` is a handler that raised, which stores nothing.
  unfoldable pub cached_response :
      String → ℕ → ℕ → ℕ → Option V → TtlCache V → Option V × TtlCache V
  cached_response key ttl_seconds now later handler c =
      let (cached, after) = get key now c in
      elim cached [
        | some v ↦ (some v, after)
        | none ↦ elim handler [
          | none ↦ (none, after)
          | some v ↦ (some v, set key v ttl_seconds later after)
        ]
      ]
