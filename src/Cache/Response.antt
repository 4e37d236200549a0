-- ===== src/Cache/Response.antt =====
-- `cached_response` in cache.py: how long a handler's result serves.
use worker_harness.Base.{
  ℕ, ◌+◌, ◌≤◌, ◌≡◌, String, false, Option, none, some, arith, ◌==◌, string_eq, inl, inr, Bool-cases,
  Option-cases,
}
use worker_harness.Dict.Laws.{get-put, get-put-other, get-remove, get-remove-other}
use worker_harness.Dict.{get as dict_get}
use worker_harness.Cache.{TtlCache, get, set, cached_response}

module _ {V : Type 0} where
  -- The caches that calls of handlers lead to until a time, of any keys and in any order; `none` is a
  -- handler that raised.
  pub data Called (until : ℕ) (start : TtlCache V) : TtlCache V → Type 0 where
    ready : Called until start start
    call :
        {c : TtlCache V} (key : String) (ttl now later : ℕ) (handler : Option V)
        → Called until start c
        → now ≤ until
        → Called until start (cached_response key ttl now later handler c).1

  abbrev Holds : String → V → ℕ → TtlCache V → Type 0
  Holds key v until c = dict_get key c.store ≡ some (record { value = v; expires_at = until })

  -- A hit keeps the entry and gives its value.
  get-Holds :
      (key : String) (v : V) (until now : ℕ) (c : TtlCache V)
      → Holds key v until c
      → now ≤ until
      → ((get key now c).0 ≡ some v) × Holds key v until (get key now c).1
  unfolding get
  get-Holds key v until now c h soon = ground (arith, h, soon)

  get-Holds-other :
      (key other : String) (v : V) (until now : ℕ) (c : TtlCache V)
      → (other == key) ≡ false
      → Holds key v until c
      → Holds key v until (get other now c).1
  unfolding get
  get-Holds-other key other v until now c ne h = elim (Option-cases (dict_get other c.store)) [
    | inl absent ↦ ground (arith, absent, h)
    | inr (entry, found) ↦
        ground
          (arith, found, h, ne, string_eq.eq?_iff other key, get-remove-other other key c.store)
  ]

  set-Holds-other :
      (key other : String) (v u : V) (until ttl now : ℕ) (c : TtlCache V)
      → (other == key) ≡ false
      → Holds key v until c
      → Holds key v until (set other u ttl now c)
  unfolding set
  set-Holds-other key other v u until ttl now c ne h = ground (
    arith,
    h,
    ne,
    string_eq.eq?_iff other key,
    get-put-other other key (record { value = u; expires_at = now + ttl }) c.store,
  )

  call-Holds :
      (key other : String) (v : V) (until ttl now later : ℕ) (handler : Option V) (c : TtlCache V)
      → Holds key v until c
      → now ≤ until
      → Holds key v until (cached_response other ttl now later handler c).1
  unfolding cached_response
  call-Holds key other v until ttl now later handler c h soon = elim (Bool-cases (other == key)) [
    | inl same ↦
        let (hit, held) = get-Holds key v until now c h soon in
        rw ((string_eq.eq?_iff other key).0 same) (ground (arith, hit, held))
    | inr ne ↦
        let held = get-Holds-other key other v until now c ne h in
        elim (Option-cases (get other now c).0) [
          | inr (u, hit) ↦ ground (arith, hit, held)
          | inl miss ↦ elim (Option-cases handler) [
            | inl raised ↦ ground (arith, miss, raised, held)
            | inr (u, answered) ↦ ground (
              arith,
              miss,
              answered,
              set-Holds-other key other v u until ttl later (get other now c).1 ne held,
            )
          ]
        ]
  ]

  serves :
      (key : String) (v : V) (until ttl now later : ℕ) (handler : Option V) (c : TtlCache V)
      → Holds key v until c
      → now ≤ until
      → (cached_response key ttl now later handler c).0 ≡ some v
  unfolding cached_response
  serves key v until ttl now later handler c h soon =
      let (hit, _) = get-Holds key v until now c h soon in ground (arith, hit)

  Called-Holds :
      (key : String) (v : V) (until : ℕ) (start : TtlCache V) {c : TtlCache V}
      → Called until start c
      → Holds key v until start
      → Holds key v until c
  Called-Holds key v until start ready h = h
  Called-Holds key v until start (call {c} other ttl now later handler s soon) h =
      call-Holds key other v until ttl now later handler c (Called-Holds key v until start s h) soon

  missed_gone :
      (key : String) (now : ℕ) (c : TtlCache V)
      → (get key now c).0 ≡ none
      → dict_get key (get key now c).1.store ≡ none
  unfolding get
  missed_gone key now c miss = elim (Option-cases (dict_get key c.store)) [
    | inl absent ↦ ground (arith, absent)
    | inr (entry, found) ↦ ground (arith, found, miss, get-remove key c.store)
  ]

  gone_missed :
      (key : String) (now : ℕ) (c : TtlCache V)
      → dict_get key c.store ≡ none
      → (get key now c).0 ≡ none
  unfolding get
  gone_missed key now c gone = ground (arith, gone)

  miss_stores :
      (key : String) (ttl now later : ℕ) (v : V) (c : TtlCache V)
      → (get key now c).0 ≡ none
      → Holds key v (later + ttl) (cached_response key ttl now later (some v) c).1
  unfolding cached_response set
  miss_stores key ttl now later v c miss = ground (
    arith,
    miss,
    get-put key (record { value = v; expires_at = later + ttl }) (get key now c).1.store,
  )

  pub cached_response_serves :
      (key : String) (ttl now later : ℕ) (c : TtlCache V)
      → (get key now c).0 ≡ none
      → ((v : V) (ttl' t u : ℕ) (handler : Option V) (after : TtlCache V)
          → Called (later + ttl) (cached_response key ttl now later (some v) c).1 after
          → t ≤ later + ttl
          → (cached_response key ttl' t u handler after).0 ≡ some v)
        × ((ttl' t u : ℕ) (handler : Option V)
            → (cached_response key ttl' t u handler (cached_response key ttl now later none c).1).0
              ≡ handler)
  cached_response_serves key ttl now later c miss = (
    (λ v ttl' t u handler after calls soon.
        serves key v (later + ttl) ttl' t u handler after
          (Called-Holds key v (later + ttl) _ calls (miss_stores key ttl now later v c miss)) soon),
    (λ ttl' t u handler.
        unfold cached_response in
        let gone = missed_gone key now c miss in
        let again = gone_missed key t (get key now c).1 gone in
        elim (Option-cases handler) [
          | inl raised ↦ ground (arith, miss, again, raised)
          | inr (v, answered) ↦ ground (arith, miss, again, answered)
        ]),
  )
