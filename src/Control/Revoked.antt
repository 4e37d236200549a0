-- ===== src/Control/Revoked.antt =====
-- Who is let in, and that the token of a finished session opens nothing.
use mathlib.Core.Option.{some-injective}
use worker_harness.Base.{
  subst, ap, ℕ, String, true, false, ◌&&◌, ◌||◌, not, Option, none, some, List, [], ◌∷◌, ◌≡◌, inl,
  inr, refl, arith, ◌==◌, string_eq, is_empty, Bool-cases,
}
use worker_harness.Paths.{mem_text}
use worker_harness.PiSessions.{
  PiSession, PiSessionState, Store, is_over, has_session_id, finish_pi_session,
  get_pi_session_by_token_hash,
}
use worker_harness.Table.{find_where, update_where}
use worker_harness.Table.Laws.{find_where_sound}
use worker_harness.Control.Auth.{
  no_empty_text, Access, operator, session, refused, Settings, bearer, admit, admit_token,
  require_role,
}

-- Why a caller is let in.
pub data IsGranted (settings : Settings) (allowed : List String) (st : Store)
    : Option String → Access → Type 0 where
  -- nothing is configured that could ask for a token
  open_door :
      is_empty settings.operator_token ≡ true
      → settings.has_machines ≡ false
      → mem_text "operator" allowed ≡ true
      → IsGranted settings allowed st none operator
  by_operator :
      (header : String)
      → bearer settings header ≡ some settings.operator_token
      → is_empty settings.operator_token ≡ false
      → mem_text "operator" allowed ≡ true
      → IsGranted settings allowed st (some header) operator
  by_session :
      (header token : String) (s : PiSession)
      → bearer settings header ≡ some token
      → get_pi_session_by_token_hash (settings.sha256 token) st ≡ some s
      → s.token_hash ≡ settings.sha256 token
      → is_over s.state ≡ false
      → mem_text s.role allowed ≡ true
      → IsGranted settings allowed st (some header) (session s)
  denied :
      (header : Option String) (status : ℕ) → IsGranted settings allowed st header (refused status)

module _ (settings : Settings) (allowed : List String) (st : Store) where
  own-token :
      (token : String) (s : PiSession)
      → get_pi_session_by_token_hash (settings.sha256 token) st ≡ some s
      → s.token_hash ≡ settings.sha256 token
  unfolding get_pi_session_by_token_hash
  own-token token s e =
      (string_eq.eq?_iff s.token_hash (settings.sha256 token)).0
        (find_where_sound (λ r. r.token_hash == settings.sha256 token) st.sessions s e)

  admit-IsGranted :
      (header token : String) (o : Option PiSession)
      → bearer settings header ≡ some token
      → get_pi_session_by_token_hash (settings.sha256 token) st ≡ o
      → IsGranted settings allowed st (some header) (admit allowed o)
  unfolding admit
  admit-IsGranted header token none b e = denied _ _
  admit-IsGranted header token (some s) b e = elim (Bool-cases (is_over s.state)) [
    | inl over ↦ rw over (denied _ _)
    | inr live ↦ elim (Bool-cases (mem_text s.role allowed)) [
      | inr other ↦ rw (live, other) (denied _ _)
      | inl in_role ↦
          rw (live, in_role) (by_session header token s b e (own-token token s e) live in_role)
    ]
  ]

  token-IsGranted :
      (header : String) (o : Option String)
      → bearer settings header ≡ o
      → IsGranted settings allowed st (some header) (admit_token settings allowed st o)
  unfolding admit_token
  token-IsGranted header none b = denied _ _
  token-IsGranted header (some token) b =
      elim (Bool-cases
        (not (is_empty settings.operator_token) && token == settings.operator_token)) [
          | inr other ↦ rw other (admit-IsGranted header token _ b refl)
          | inl same ↦ elim (Bool-cases (mem_text "operator" allowed)) [
            | inr closed ↦ rw (same, closed) (denied _ _)
            | inl granted ↦
                rw (same, granted)
                  (by_operator header
                    (ground (arith, string_eq.eq?_iff token settings.operator_token)) (ground arith)
                    granted)
          ]
        ]

  -- A caller is let in only as the operator, where nothing asks for a token or the operator's token is
  -- shown, or as the session, not over, whose token is shown; and only in a role that is allowed.
  pub require_role-IsGranted :
      (header : Option String)
      → IsGranted settings allowed st header (require_role settings allowed st header)
  unfolding require_role
  require_role-IsGranted none =
      elim (Bool-cases (not (is_empty settings.operator_token) || settings.has_machines)) [
        | inl asks ↦ rw asks (denied _ _)
        | inr none_asks ↦ elim (Bool-cases (mem_text "operator" allowed)) [
          | inr closed ↦ rw (none_asks, closed) (denied _ _)
          | inl granted ↦ rw (none_asks, granted) (open_door (ground arith) (ground arith) granted)
        ]
      ]
  require_role-IsGranted (some header) = token-IsGranted header (bearer settings header) refl

abbrev session_of : PiSession → Access → PiSession
session_of s (session r) = r
session_of s operator = s
session_of s (refused _) = s

abbrev finished_row : PiSessionState → String → ℕ → PiSession → PiSession
finished_row state detail now r = record r {
  state = state;
  detail = detail;
  updated_at = now;
  question = "";
  token_hash = "";
  bridge_incarnation = none;
  terminal_attachable = false;
}

-- The row that a shown token finds is none of a session that was finished.
finished-token :
    (x hash : String) (state : PiSessionState) (detail : String) (now : ℕ) (rows : List PiSession)
    (s : PiSession)
    → ("" == hash) ≡ false
    → find_where
        (λ r. r.token_hash == hash)
        (update_where (has_session_id x) (finished_row state detail now) rows)
      ≡ some s
    → has_session_id x s ≡ false
unfolding find_where update_where
finished-token x hash state detail now [] s h = λ e. absurd (ground arith)
finished-token x hash state detail now (r ∷ rs) s h = elim (Bool-cases (has_session_id x r)) [
  | inl own ↦ rw (own, h) (finished-token x hash state detail now rs s h)
  | inr other ↦ rw other (elim (Bool-cases (r.token_hash == hash)) [
    | inl found ↦
        rw found (λ e. subst (λ t. has_session_id x t ≡ false) (some-injective r s e) other)
    | inr missed ↦ rw missed (finished-token x hash state detail now rs s h)
  ])
]

granted-finished :
    (st : Store) {settings : Settings} {allowed : List String} {header : Option String} {a : Access}
    (x : String) (state : PiSessionState) (detail : String) (now : ℕ) (s : PiSession)
    → ((token : String) → is_empty (settings.sha256 token) ≡ false)
    → IsGranted settings allowed (finish_pi_session x state detail now st) header a
    → a ≡ session s
    → has_session_id x s ≡ false
unfolding finish_pi_session get_pi_session_by_token_hash
granted-finished st x state detail now s hashes (open_door _ _ _) e = absurd (ground arith)
granted-finished st x state detail now s hashes (by_operator _ _ _ _) e = absurd (ground arith)
granted-finished st x state detail now s hashes (denied _ _) e = absurd (ground arith)
granted-finished st {settings} {allowed} x state detail now s hashes
      (by_session header token s' b found own live in_role) e =
    finished-token x (settings.sha256 token) state detail now st.sessions s
      (no_empty_text (settings.sha256 token) (hashes token))
      (subst
        (λ t.
          get_pi_session_by_token_hash (settings.sha256 token)
            (finish_pi_session x state detail now st)
          ≡ some t)
        (ap (session_of s) e) found)

-- Once a session is finished its token lets nobody in as that session any more, whatever header is
-- shown, provided no token has the empty text as its hash.
pub require_role-finished :
    (settings : Settings) (allowed : List String) (st : Store) (header : Option String) (x : String)
    (state : PiSessionState) (detail : String) (now : ℕ) (s : PiSession)
    → ((token : String) → is_empty (settings.sha256 token) ≡ false)
    → require_role settings allowed (finish_pi_session x state detail now st) header ≡ session s
    → has_session_id x s ≡ false
require_role-finished settings allowed st header x state detail now s hashes e =
    granted-finished st x state detail now s hashes
      (require_role-IsGranted settings allowed (finish_pi_session x state detail now st) header) e
