-- ===== src/Cache/Examples.antt =====
-- Runs of the cache.
use worker_harness.Base.{ℕ, ◌+◌, ◌≤◌, ◌≡◌, refl, some, none, Option, [], ◌∷◌, arith}
use worker_harness.Cache.{TtlCache, new_cache, get, cached_response}
use worker_harness.Cache.Refines.{gets, sets, Log, run, fresh, standing, value_of, get-standing}
use worker_harness.Cache.Response.{Called, cached_response_serves}
use worker_harness.Dict.{get as dict_get}

abbrev log : Log ℕ
log = (gets "jobs", 7) ∷ (sets "workers" 2 5, 4) ∷ (sets "jobs" 1 5, 3) ∷ []

get-standing_example : (get "jobs" 8 (run log)).0 ≡ value_of (fresh 8 (standing "jobs" log))
get-standing_example = get-standing "jobs" log 8 (omega arith, (omega arith, (omega arith, tt)))

abbrev empty : TtlCache ℕ
empty = new_cache

empty_misses : (get "jobs" 3 empty).0 ≡ none
unfolding get new_cache dict_get
empty_misses = refl

cached_response_serves_example :
    ((v ttl t u : ℕ) (handler : Option ℕ) (after : TtlCache ℕ)
      → Called (3 + 5) (cached_response "jobs" 5 3 3 (some v) empty).1 after
      → t ≤ 3 + 5
      → (cached_response "jobs" ttl t u handler after).0 ≡ some v)
    × ((ttl t u : ℕ) (handler : Option ℕ)
        → (cached_response "jobs" ttl t u handler (cached_response "jobs" 5 3 3 none empty).1).0
          ≡ handler)
cached_response_serves_example = cached_response_serves "jobs" 5 3 3 empty empty_misses
