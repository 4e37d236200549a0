-- ===== src/Control/Gateway.antt =====
-- src/worker_harness/heartbeat.py: the terminals that are attached to a session, of which there is a
-- bound. The handlers run under the gateway's lock and are steps.
use Prim.Native.String.{compare}
use Prim.Native.Nat.{Ordering}
use worker_harness.Base.{
  ℕ, ◌+◌, String, Bool, true, false, ◌&&◌, ◌||◌, Option, none, some, [], ◌∷◌, length, min, max, ltb,
  leb, ◌==◌, nat_eq, string_eq, if◌then◌else◌,
}
use worker_harness.Dict
use worker_harness.Dict.{Dict}
use worker_harness.Models.{ℤ, pos, negsuc}

-- `_positive_int_env`: the variable as an integer, where it is one.
unfoldable pub positive_int_env : Option ℤ → ℕ → ℕ
positive_int_env (some (pos n)) default = if ltb 0 n then n else default
positive_int_env _ default = default

-- `_terminal_dimension`: the value as an integer, where it is one that is not falsy.
unfoldable pub terminal_dimension : Option ℤ → ℕ → ℕ
terminal_dimension none fallback = max 1 (min 1000 fallback)
terminal_dimension (some (pos n)) fallback = max 1 (min 1000 n)
terminal_dimension (some (negsuc n)) fallback = 1

-- An attachment, with its identity as an object.
pub record Attachment : Type 0 where
  pub id : String
  pub object : ℕ
  pub last_activity : ℕ
  pub rows : ℕ
  pub cols : ℕ

-- A frame of the client: input, which is bytes or no JSON object, a resize, or another object.
pub data Frame : Type 0 where
  input other : Frame
  resize : (rows cols : Option ℤ) → Frame

unfoldable pub note_client_frame : Frame → ℕ → Attachment → Attachment
note_client_frame input now a = record a { last_activity = now }
note_client_frame other now a = record a { last_activity = now }
note_client_frame (resize rows cols) now a =
    let r = terminal_dimension rows a.rows in
    let c = terminal_dimension cols a.cols in
    if r == a.rows && c == a.cols then a else record a { rows = r; cols = c; last_activity = now }

pub record Gateway : Type 0 where
  pub attachments : Dict (Dict Attachment)
  pub max_per_session : ℕ
  pub evictions_total : ℕ

-- `a < b` of two texts
unfoldable pub text_ltb : String → String → Bool
text_ltb a b = elim (compare a b) as (λ _. Bool) [ Ordering.lt ↦ true | _ ↦ false ]

-- `(last_activity, id)` in the order of tuples
unfoldable pub idle_before : Attachment → Attachment → Bool
idle_before a b =
    ltb a.last_activity b.last_activity
    || (a.last_activity == b.last_activity && text_ltb a.id b.id)

-- `min(active.values(), key=...)`: the first of the least.
unfoldable pub longest_idle : Attachment → Dict Attachment → Attachment
longest_idle a [] = a
longest_idle a ((_, b) ∷ rest) = longest_idle (if idle_before b a then b else a) rest

unfoldable pub victim_of : Dict Attachment → Option Attachment
victim_of [] = none
victim_of ((_, a) ∷ rest) = some (longest_idle a rest)

abbrev pub or_empty : Option (Dict Attachment) → Dict Attachment
or_empty none = []
or_empty (some active) = active

-- `pi_gateway_attachments.setdefault(session_id, {})`
unfoldable pub active_of : String → Gateway → Dict Attachment
active_of session_id g = or_empty (Dict.get session_id g.attachments)

abbrev with_active : String → Dict Attachment → ℕ → Gateway → Gateway
with_active session_id active evicted g = record g {
  attachments = Dict.put session_id active g.attachments;
  evictions_total = g.evictions_total + evicted;
}

-- The victim, whose `evict` is set, and the attachments after it.
unfoldable pub make_room : Option Attachment → Dict Attachment → Dict Attachment
make_room none active = active
make_room (some victim) active = Dict.remove victim.id active

-- `_reserve_gateway_attachment`
unfoldable pub reserve_gateway_attachment :
    String → Attachment → Gateway → Option Attachment × Gateway
unfolding make_room
reserve_gateway_attachment session_id a g =
    let active = active_of session_id g in
    if leb g.max_per_session (length active)
    then (
      victim_of active,
      with_active session_id (Dict.put a.id a (make_room (victim_of active) active)) 1 g,
    )
    else (none, with_active session_id (Dict.put a.id a active) 0 g)

-- `active.get(attachment.id) is attachment`
unfoldable pub is_own_entry : Attachment → Option Attachment → Bool
is_own_entry a none = false
is_own_entry a (some b) = b.object == a.object

abbrev pub is_no_entry : Dict Attachment → Bool
is_no_entry [] = true
is_no_entry (x ∷ xs) = false

-- `_release_gateway_attachment`
unfoldable pub release_from : String → Attachment → Option (Dict Attachment) → Gateway → Gateway
release_from session_id a none g = g
release_from session_id a (some active) g =
    let left = Dict.remove a.id active in
    if is_own_entry a (Dict.get a.id active)
    then record g {
      attachments =
          if is_no_entry left
          then Dict.remove session_id g.attachments
          else Dict.put session_id left g.attachments;
    }
    else g

unfoldable pub release_gateway_attachment : String → Attachment → Gateway → Gateway
unfolding release_from
release_gateway_attachment session_id a g =
    release_from session_id a (Dict.get session_id g.attachments) g
