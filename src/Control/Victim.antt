-- ===== src/Control/Victim.antt =====
-- Who has to leave when a terminal is attached to a session that is full.
use mathlib.Core.Option.{some-injective}
use worker_harness.Base.{
  ℕ, ◌≤◌, String, true, false, Option, none, some, [], ◌∷◌, length, ◌≡◌, ◌≢◌, ◌⊎◌, inl, inr, refl,
  sym, ap, ◌∙◌, arith, is_some, leb, string_eq, nat_eq, Bool-cases,
}
use worker_harness.Dict.{Dict, put, remove, get}
use worker_harness.Table.{All}
use worker_harness.Control.Gateway.{
  Attachment, Gateway, longest_idle, victim_of, idle_before, active_of, or_empty, make_room,
  reserve_gateway_attachment,
}
use worker_harness.Dict.Laws.{get-put, get-put-other, get-remove-other}

-- Every attachment is kept under its own id.
abbrev pub IsKeyed : Dict Attachment → Type 0
IsKeyed d = All (λ e. e.0 ≡ e.1.id) d

get-here :
    (j k : String) (b : Attachment) (d : Dict Attachment)
    → j ≡ k
    → is_some (get k ((j, b) ∷ d)) ≡ true
unfolding get
get-here j k b d e = ground (arith, (string_eq.eq?_iff j k).1 e)

get-later :
    (j k : String) (b : Attachment) (d : Dict Attachment)
    → is_some (get k d) ≡ true
    → is_some (get k ((j, b) ∷ d)) ≡ true
unfolding get
get-later j k b d h = ground arith

longest_idle-found :
    (a : Attachment) (d : Dict Attachment) (v : Attachment)
    → IsKeyed d
    → longest_idle a d ≡ v
    → (v ≡ a) ⊎ (is_some (get v.id d) ≡ true)
unfolding longest_idle
longest_idle-found a [] v h = λ e. inl (sym e)
longest_idle-found a ((j, b) ∷ d) v h = elim (Bool-cases (idle_before b a)) [
  | inl older ↦ rw older (λ e. elim (longest_idle-found b d v h.1 e) [
    | inl same ↦ inr (get-here j v.id b d (h.0 ∙ ap (λ t. t.id) (sym same)))
    | inr found ↦ inr (get-later j v.id b d found)
  ])
  | inr newer ↦ rw newer (λ e. elim (longest_idle-found a d v h.1 e) [
    | inl same ↦ inl same
    | inr found ↦ inr (get-later j v.id b d found)
  ])
]

-- The victim is attached under its id.
pub victim_of-found :
    (d : Dict Attachment) (v : Attachment)
    → IsKeyed d
    → victim_of d ≡ some v
    → is_some (get v.id d) ≡ true
unfolding victim_of
victim_of-found [] v h e = absurd (ground arith)
victim_of-found ((j, a) ∷ d) v h e =
    elim (longest_idle-found a d v h.1 (some-injective (longest_idle a d) v e)) [
      | inl same ↦ get-here j v.id a d (h.0 ∙ ap (λ t. t.id) (sym same))
      | inr found ↦ get-later j v.id a d found
    ]

abbrev pub IsIdlest : Attachment → Dict Attachment → Type 0
IsIdlest v d = All (λ e. v.last_activity ≤ e.1.last_activity) d

idle_before_le :
    (a b : Attachment)
    → ((idle_before b a ≡ true) → b.last_activity ≤ a.last_activity)
      × ((idle_before b a ≡ false) → a.last_activity ≤ b.last_activity)
unfolding idle_before
idle_before_le a b = ((λ h. ground arith), (λ h. ground arith))

longest_idle-IsIdlest :
    (a : Attachment) (d : Dict Attachment) (v : Attachment)
    → longest_idle a d ≡ v
    → (v.last_activity ≤ a.last_activity) × IsIdlest v d
unfolding longest_idle
longest_idle-IsIdlest a [] v = λ e. (rw e (omega arith), tt)
longest_idle-IsIdlest a ((j, b) ∷ d) v = elim (Bool-cases (idle_before b a)) [
  | inl older ↦ rw older (λ e.
      let (least, rest) = longest_idle-IsIdlest b d v e in
      let before = (idle_before_le a b).0 older in (omega arith, (least, rest)))
  | inr newer ↦ rw newer (λ e.
      let (least, rest) = longest_idle-IsIdlest a d v e in
      let before = (idle_before_le a b).1 newer in (least, (omega arith, rest)))
]

-- What an admission does to the attachments of its session.
pub record IsAdmission (a : Attachment) (m : ℕ) (before : Dict Attachment)
    (victim : Option Attachment) (after : Dict Attachment) : Type 0 where
  pub attached : get a.id after ≡ some a
  pub evicted : (v : Attachment) → victim ≡ some v → (m ≤ length before) × IsIdlest v before
  pub others :
      (k : String)
      → a.id ≢ k
      → ((v : Attachment) → victim ≡ some v → v.id ≢ k)
      → get k after ≡ get k before

victim_of-IsIdlest : (d : Dict Attachment) (v : Attachment) → victim_of d ≡ some v → IsIdlest v d
unfolding victim_of
victim_of-IsIdlest [] v e = absurd (ground arith)
victim_of-IsIdlest ((j, a) ∷ d) v e =
    longest_idle-IsIdlest a d v (some-injective (longest_idle a d) v e)

room_for :
    (a : Attachment) (m : ℕ) (d : Dict Attachment) (o : Option Attachment)
    → victim_of d ≡ o
    → m ≤ length d
    → IsAdmission a m d o (put a.id a (make_room o d))
unfolding make_room
room_for a m d none e full = record {
  attached = get-put a.id a d;
  evicted = λ v h. absurd (ground arith);
  others = λ k other_id kept. get-put-other a.id k a d other_id;
}
room_for a m d (some v) e full = record {
  attached = get-put a.id a (remove v.id d);
  evicted = λ u h. (full, victim_of-IsIdlest d u (e ∙ h));
  others = λ k other_id kept.
      get-put-other a.id k a (remove v.id d) other_id ∙ get-remove-other v.id k d (kept v refl);
}

-- An attachment is always admitted. It costs another its place only where the session is full, and then
-- the one that has been idle longest; every other stays as it is.
pub reserve_gateway_attachment-IsAdmission :
    (x : String) (a : Attachment) (g : Gateway)
    → IsAdmission a g.max_per_session
        (active_of x g)
        (reserve_gateway_attachment x a g).0
        (active_of x (reserve_gateway_attachment x a g).1)
unfolding reserve_gateway_attachment active_of
reserve_gateway_attachment-IsAdmission x a g =
    let active = or_empty (get x g.attachments) in
    elim (Bool-cases (leb g.max_per_session (length active))) [
      | inl full ↦
          rw (full, get-put x (put a.id a (make_room (victim_of active) active)) g.attachments)
            (room_for a g.max_per_session active (victim_of active) refl (ground arith))
      | inr room ↦
          rw (room, get-put x (put a.id a active) g.attachments)
            (record {
              attached = get-put a.id a active;
              evicted = λ v h. absurd (ground arith);
              others = λ k other_id kept. get-put-other a.id k a active other_id;
            })
    ]
