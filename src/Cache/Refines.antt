-- ===== src/Cache/Refines.antt =====
-- The cache of cache.py against a map without lazy deletion.
use worker_harness.Base.{
  ℕ, ◌+◌, ◌≤◌, ◌≡◌, refl, ap, ◌∙◌, String, Option, none, some, List, [], ◌∷◌, ltb, ◌==◌, string_eq,
  string_discrete, starts_with, arith, if◌then◌else◌,
}
use worker_harness.Dict.{get as dict_get}
use worker_harness.Dict.Laws.{get-put, get-put-other, get-remove, get-remove-other}
use worker_harness.Cache.{
  Entry, TtlCache, new_cache, get, set, invalidate, invalidate_prefix, clear,
}
use worker_harness.Cache.Laws.{get-remove_all-keys_under}

pub data Op (V : Type 0) : Type 0 where
  gets : String → Op V
  sets : String → V → ℕ → Op V
  invalidates : String → Op V
  invalidates_prefix : String → Op V
  clears : Op V

module _ {V : Type 0} where
  unfoldable pub run_op : Op V → ℕ → TtlCache V → TtlCache V
  run_op (gets key) now c = (get key now c).1
  run_op (sets key v ttl) now c = set key v ttl now c
  run_op (invalidates key) now c = (invalidate key c).1
  run_op (invalidates_prefix prefix) now c = (invalidate_prefix prefix c).1
  run_op clears now c = clear c

  -- What was last set under a key and not invalidated since.
  unfoldable pub last_set : String → Op V → ℕ → Option (Entry V) → Option (Entry V)
  last_set j (gets key) now e = e
  last_set j (sets key v ttl) now e =
      if key == j then some (record { value = v; expires_at = now + ttl }) else e
  last_set j (invalidates key) now e = if key == j then none else e
  last_set j (invalidates_prefix prefix) now e = if starts_with prefix j then none else e
  last_set j clears now e = none

  unfoldable pub fresh : ℕ → Option (Entry V) → Option (Entry V)
  fresh now none = none
  fresh now (some e) = if ltb e.expires_at now then none else some e

  abbrev pub value_of : Option (Entry V) → Option V
  value_of none = none
  value_of (some e) = some e.value

  fresh-later :
      (t now : ℕ) (a b : Option (Entry V))
      → t ≤ now
      → fresh t a ≡ fresh t b
      → fresh now a ≡ fresh now b
  unfolding fresh
  fresh-later t now none none h e = refl
  fresh-later t now none (some b) h e = ground (arith, h, e)
  fresh-later t now (some a) none h e = ground (arith, h, e)
  fresh-later t now (some a) (some b) h e = ground (arith, h, e)

  get-fresh :
      (key : String) (now : ℕ) (c : TtlCache V)
      → (get key now c).0 ≡ value_of (fresh now (dict_get key c.store))
  unfolding get fresh
  get-fresh key now c = ground arith

  get_keeps :
      (j key : String) (now : ℕ) (c : TtlCache V)
      → fresh now (dict_get j (get key now c).1.store) ≡ fresh now (dict_get j c.store)
  unfolding get fresh
  get_keeps j key now c = elim (string_discrete key j) [
    | yes same ↦ ground (arith, same, get-remove key c.store)
    | no ne ↦ ground (arith, get-remove-other key j c.store ne)
  ]

  run_op-fresh :
      (j : String) (op : Op V) (now : ℕ) (c : TtlCache V) (e : Option (Entry V))
      → fresh now (dict_get j c.store) ≡ fresh now e
      → fresh now (dict_get j (run_op op now c).store) ≡ fresh now (last_set j op now e)
  unfolding run_op last_set set invalidate invalidate_prefix clear dict_get
  run_op-fresh j (gets key) now c e h = get_keeps j key now c ∙ h
  run_op-fresh j (sets key v ttl) now c e h = elim (string_discrete key j) [
    | yes same ↦
        ground (arith, same, get-put key (record { value = v; expires_at = now + ttl }) c.store)
    | no ne ↦ ground (
      arith,
      h,
      ne,
      get-put-other key j (record { value = v; expires_at = now + ttl }) c.store ne,
    )
  ]
  run_op-fresh j (invalidates key) now c e h = elim (string_discrete key j) [
    | yes same ↦ ground (arith, same, get-remove key c.store)
    | no ne ↦ ground (arith, h, ne, get-remove-other key j c.store ne)
  ]
  run_op-fresh j (invalidates_prefix prefix) now c e h =
      ground (arith, h, get-remove_all-keys_under prefix j c.store)
  run_op-fresh j clears now c e h = refl

-- Operations with their times, the last one first.
abbrev pub Log : Type 0 → Type 0
Log V = List (Op V × ℕ)

-- The log is in the order of the clock, and the clock has reached a time.
abbrev pub IsUpTo : {V : Type 0} → ℕ → Log V → Type 0
IsUpTo now [] = Unit
IsUpTo now ((op, t) ∷ log) = (t ≤ now) × IsUpTo t log

module _ {V : Type 0} where
  unfoldable pub run : Log V → TtlCache V
  run [] = new_cache
  run ((op, now) ∷ log) = run_op op now (run log)

  unfoldable pub standing : String → Log V → Option (Entry V)
  standing j [] = none
  standing j ((op, now) ∷ log) = last_set j op now (standing j log)

  run-fresh :
      (j : String) (log : Log V) (now : ℕ)
      → IsUpTo now log
      → fresh now (dict_get j (run log).store) ≡ fresh now (standing j log)
  unfolding run standing new_cache dict_get
  run-fresh j [] now h = refl
  run-fresh j ((op, t) ∷ log) now (h, order) =
      fresh-later t now (dict_get j (run_op op t (run log)).store)
        (last_set j op t (standing j log)) h
        (run_op-fresh j op t (run log) (standing j log) (run-fresh j log t order))

  -- After any operations in the order of the clock, `get` returns the value that was last set under the
  -- key and not invalidated since, if its time to live has not passed, and nothing else.
  pub get-standing :
      (key : String) (log : Log V) (now : ℕ)
      → IsUpTo now log
      → (get key now (run log)).0 ≡ value_of (fresh now (standing key log))
  get-standing key log now order =
      get-fresh key now (run log) ∙ ap value_of (run-fresh key log now order)
