-- ===== src/Control/Auth.antt =====
-- src/worker_harness/heartbeat.py: `_operator_token`, `require_role` and `require_api_caller`.
use Prim.Native.Char.{code}
use Prim.Native.String.{String, [], ◌∷◌}
use worker_harness.Base.{
  ℕ, Bool, true, false, ◌&&◌, ◌||◌, not, Option, none, some, List, ltb, ◌==◌, nat_eq, string_eq,
  if◌then◌else◌, is_empty, strip, starts_with, ◌≡◌, subst, sym, inl, inr, Bool-cases, arith,
}
use worker_harness.Paths.{mem_text}
use worker_harness.PiSessions.{PiSession, Store, is_over, get_pi_session_by_token_hash}

-- The caller that is let in, or the status of the refusal.
pub data Access : Type 0 where
  operator : Access
  session : PiSession → Access
  refused : ℕ → Access

-- The token that an operator must show, and whether there are machines.
pub record Settings : Type 0 where
  pub operator_token : String
  pub has_machines : Bool
  pub lower : String → String
  pub sha256 : String → String

pub no_empty_text : (s : String) → is_empty s ≡ false → ("" == s) ≡ false
no_empty_text s filled = elim (Bool-cases ("" == s)) [
  | inr other ↦ other
  | inl same ↦
      let empty : is_empty "" ≡ false =
        subst (λ t. is_empty t ≡ false) (sym ((string_eq.eq?_iff "" s).0 same)) filled in
      absurd (ground arith)
]

-- `s.partition(" ")` without the separator; `none` where there is no space.
unfoldable pub partition_space : String → Option (String × String)
partition_space [] = none
partition_space (c ∷ s) =
    let rest : Option (String × String) = elim (partition_space s) [
      | none ↦ none
      | some (head, tail) ↦ some (c ∷ head, tail)
    ] in
    if code c == 32 then some ("", s) else rest

unfoldable pub is_ascii : String → Bool
is_ascii [] = true
is_ascii (c ∷ s) = ltb (code c) 128 && is_ascii s

-- `token` of `Bearer token`, stripped.
unfoldable pub bearer : Settings → String → Option String
bearer settings authorization = elim (partition_space authorization) as (λ _. Option String) [
  | none ↦ none
  | some (scheme, token) ↦
      if settings.lower scheme == "bearer" && not (is_empty (strip token)) && is_ascii token
      then some (strip token)
      else none
]

abbrev as_operator : List String → Access
as_operator allowed = if mem_text "operator" allowed then operator else refused 403

-- A session whose token was shown.
unfoldable pub admit : List String → Option PiSession → Access
admit allowed none = refused 401
admit allowed (some caller) =
    if is_over caller.state
    then refused 401
    else if not (mem_text caller.role allowed)
    then refused 403
    else session caller

unfoldable pub admit_token : Settings → List String → Store → Option String → Access
unfolding admit
admit_token settings allowed st none = refused 401
admit_token settings allowed st (some token) =
    if not (is_empty settings.operator_token) && token == settings.operator_token
    then as_operator allowed
    else admit allowed (get_pi_session_by_token_hash (settings.sha256 token) st)

unfoldable pub require_role : Settings → List String → Store → Option String → Access
unfolding admit_token bearer
require_role settings allowed st none =
    if not (is_empty settings.operator_token) || settings.has_machines
    then refused 401
    else as_operator allowed
require_role settings allowed st (some authorization) =
    admit_token settings allowed st (bearer settings authorization)

abbrev api_roles : String → List String
api_roles path =
    let common : List String = List.◌∷◌ "operator" (List.◌∷◌ "pm" (List.◌∷◌ "task" List.[])) in
    if starts_with "/api/v1/pi/" path
    then List.◌∷◌ "operator" (List.◌∷◌ "pm" (List.◌∷◌ "task" (List.◌∷◌ "orchestrator" List.[])))
    else common

-- `none` where the request needs no caller; the type of the connection is the flag.
unfoldable pub require_api_caller : Settings → String → Bool → Store → Option String → Option Access
unfolding require_role
require_api_caller settings path is_websocket st authorization =
    if path == "/health" || is_websocket
    then none
    else some (require_role settings (api_roles path) st authorization)
