-- ===== src/Control/Admission.antt =====
-- How many terminals are attached to a session, whatever the clients do.
use worker_harness.Base.{
  ℕ, ◌≤◌, ◌<◌, String, Option, none, some, [], ◌∷◌, length, ◌≡◌, inl, inr, refl, sym, ◌∙◌, arith,
  leb, string_eq, nat_eq, Bool-cases,
}
use worker_harness.Dict
use worker_harness.Dict.{Dict, put, remove, get}
use worker_harness.Table.{All}
use worker_harness.Control.Gateway.{
  Attachment, Frame, input, other, resize, note_client_frame, Gateway, victim_of, active_of,
  or_empty, make_room, reserve_gateway_attachment, is_own_entry, is_no_entry, release_from,
  release_gateway_attachment,
}
use worker_harness.Dict.Entries.{
  All-put, All-remove, All-get, length-put, length-put-again, length-remove, length-remove-present,
}
use worker_harness.Control.Victim.{IsKeyed, victim_of-found}

-- What holds of the attachments of one session.
pub record IsActive (m : ℕ) (d : Dict Attachment) : Type 0 where
  pub bounded : length d ≤ m
  pub keyed : IsKeyed d

-- What the client does to the attachment that is kept under an id.
unfoldable pub note_in : String → Frame → ℕ → Option Attachment → Dict Attachment → Dict Attachment
note_in id frame now none d = d
note_in id frame now (some a) d = put id (note_client_frame frame now a) d

unfoldable pub note : String → String → Frame → ℕ → Option (Dict Attachment) → Gateway → Gateway
note x id frame now none g = g
note x id frame now (some d) g = record g {
  attachments = put x (note_in id frame now (get id d) d) g.attachments;
}

-- One request, or one frame of a client.
pub data Step (g : Gateway) : Gateway → Type 0 where
  admitted : (x : String) (a : Attachment) → Step g (reserve_gateway_attachment x a g).1
  released : (x : String) (a : Attachment) → Step g (release_gateway_attachment x a g)
  framed :
      (x id : String) (frame : Frame) (now : ℕ)
      → Step g (note x id frame now (get x g.attachments) g)

pub data Served (m : ℕ) : Gateway → Type 0 where
  opened : Served m (record { attachments = []; max_per_session = m; evictions_total = 0 })
  next : {g after : Gateway} → Served m g → Step g after → Served m after

note_client_frame-id :
    (frame : Frame) (now : ℕ) (a : Attachment) → (note_client_frame frame now a).id ≡ a.id
unfolding note_client_frame
note_client_frame-id input now a = refl
note_client_frame-id other now a = refl
note_client_frame-id (resize rows cols) now a = ground arith

module _ (m : ℕ) (positive : 1 ≤ m) where
  roomed :
      (a : Attachment) (d : Dict Attachment) (o : Option Attachment)
      → victim_of d ≡ o
      → IsActive m d
      → (m ≤ length d)
      → IsActive m (put a.id a (make_room o d))
  unfolding make_room victim_of
  roomed a [] none e h full = absurd (ground arith)
  roomed a (x ∷ d) none e h full = absurd (ground arith)
  roomed a d (some v) e h full = record {
    bounded =
        let short = length-remove-present v.id d (victim_of-found d v h.keyed e) in
        let grown = length-put a.id a (remove v.id d) in let most = h.bounded in omega arith;
    keyed =
        All-put (λ e. e.0 ≡ e.1.id) a.id a (remove v.id d) refl
          (All-remove (λ e. e.0 ≡ e.1.id) v.id d h.keyed);
  }

  added :
      (a : Attachment) (d : Dict Attachment)
      → IsActive m d
      → length d < m
      → IsActive m (put a.id a d)
  added a d h room = record {
    bounded = let grown = length-put a.id a d in omega arith;
    keyed = All-put (λ e. e.0 ≡ e.1.id) a.id a d refl h.keyed;
  }

  abbrev IsWithin : Gateway → Type 0
  IsWithin g = All (λ e. IsActive m e.1) g.attachments × (g.max_per_session ≡ m)

  or_empty-IsActive :
      (x : String) (g : Gateway) (o : Option (Dict Attachment))
      → Dict.get x g.attachments ≡ o
      → IsWithin g
      → IsActive m (or_empty o)
  or_empty-IsActive x g none e h = record { bounded = omega arith; keyed = tt }
  or_empty-IsActive x g (some d) e h = (All-get (λ e. IsActive m e.1) x g.attachments d h.0 e)

  reserve-IsWithin :
      (x : String) (a : Attachment) (g : Gateway)
      → IsWithin g
      → IsWithin (reserve_gateway_attachment x a g).1
  unfolding reserve_gateway_attachment active_of
  reserve-IsWithin x a g h =
      let active = or_empty (Dict.get x g.attachments) in
      let holds = or_empty-IsActive x g (Dict.get x g.attachments) refl h in
      let same = h.1 in
      elim (Bool-cases (leb g.max_per_session (length active))) [
        | inl full ↦ rw full (
          All-put (λ e. IsActive m e.1) x _ g.attachments
              (roomed a active (victim_of active) refl holds (ground arith)) h.0,
          same,
        )
        | inr room ↦ rw room (
          All-put (λ e. IsActive m e.1) x _ g.attachments (added a active holds (ground arith)) h.0,
          same,
        )
      ]

  released-IsActive : (k : String) (d : Dict Attachment) → IsActive m d → IsActive m (remove k d)
  released-IsActive k d h = record {
    bounded = let fewer = length-remove k d in let most = h.bounded in omega arith;
    keyed = All-remove (λ e. e.0 ≡ e.1.id) k d h.keyed;
  }

  release-IsWithin :
      (x : String) (a : Attachment) (g : Gateway) (o : Option (Dict Attachment))
      → Dict.get x g.attachments ≡ o
      → IsWithin g
      → IsWithin (release_from x a o g)
  unfolding release_from
  release-IsWithin x a g none e h = h
  release-IsWithin x a g (some d) e h = elim (Bool-cases (is_own_entry a (Dict.get a.id d))) [
    | inr other_one ↦ rw other_one h
    | inl own ↦ elim (Bool-cases (is_no_entry (remove a.id d))) [
      | inl last ↦ rw (own, last) (All-remove (λ e. IsActive m e.1) x g.attachments h.0, h.1)
      | inr more ↦
          rw (own, more)
            (
              All-put (λ e. IsActive m e.1) x (remove a.id d) g.attachments
                  (released-IsActive a.id d (or_empty-IsActive x g (some d) e h)) h.0,
              h.1,
            )
    ]
  ]

  noted-IsActive :
      (id : String) (frame : Frame) (now : ℕ) (d : Dict Attachment) (o : Option Attachment)
      → get id d ≡ o
      → IsActive m d
      → IsActive m (note_in id frame now o d)
  unfolding note_in
  noted-IsActive id frame now d none e h = h
  noted-IsActive id frame now d (some a) e h = record {
    bounded =
        let same = length-put-again id (note_client_frame frame now a) d (rw e refl) in
        let most = h.bounded in omega arith;
    keyed =
        All-put (λ e. e.0 ≡ e.1.id) id (note_client_frame frame now a) d
          (All-get (λ e. e.0 ≡ e.1.id) id d a h.keyed e ∙ sym (note_client_frame-id frame now a))
          h.keyed;
  }

  note-IsWithin :
      (x id : String) (frame : Frame) (now : ℕ) (g : Gateway) (o : Option (Dict Attachment))
      → Dict.get x g.attachments ≡ o
      → IsWithin g
      → IsWithin (note x id frame now o g)
  unfolding note
  note-IsWithin x id frame now g none e h = h
  note-IsWithin x id frame now g (some d) e h = (
    All-put (λ e. IsActive m e.1) x _ g.attachments
        (noted-IsActive id frame now d (get id d) refl (or_empty-IsActive x g (some d) e h)) h.0,
    h.1,
  )

  Step-IsWithin : {g after : Gateway} → Step g after → IsWithin g → IsWithin after
  unfolding release_gateway_attachment
  Step-IsWithin {g} (admitted x a) h = reserve-IsWithin x a g h
  Step-IsWithin {g} (released x a) h = release-IsWithin x a g (Dict.get x g.attachments) refl h
  Step-IsWithin {g} (framed x id frame now) h =
      note-IsWithin x id frame now g (Dict.get x g.attachments) refl h

  Served-IsWithin : {g : Gateway} → Served m g → IsWithin g
  Served-IsWithin opened = (tt, refl)
  Served-IsWithin (next s step) = Step-IsWithin step (Served-IsWithin s)

  -- Whatever clients attach, type, resize and leave, in any order, no session ever has more
  -- attachments than the gateway's bound, which is at least one, and each is kept under its own id.
  pub Served-IsActive : {g : Gateway} → Served m g → (x : String) → IsActive m (active_of x g)
  unfolding active_of
  Served-IsActive {g} s x =
      or_empty-IsActive x g (Dict.get x g.attachments) refl (Served-IsWithin s)
