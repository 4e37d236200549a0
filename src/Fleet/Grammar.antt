-- ===== src/Fleet/Grammar.antt =====
-- `herdr_agent_name` keeps to the grammar of agent names.
use Prim.Native.Char.{code}
use Prim.Native.String.{String, [], ◌∷◌}
use worker_harness.Base.{
  ℕ, zero, suc, ◌≤◌, Bool, true, false, ◌≡◌, refl, inl, inr, arith, nat_eq, prefix, Bool-cases,
}
use worker_harness.Fleet.Names.{
  is_name_char, is_letter, squeeze, lstrip_dash, rstrip_dash, starts_alpha, or_agent,
  herdr_agent_name,
}

abbrev pub AllName : String → Type 0
AllName [] = Unit {0}
AllName (c ∷ s) = (is_name_char (code c) ≡ true) × AllName s

abbrev pub text_length : String → ℕ
text_length [] = 0
text_length (c ∷ s) = suc (text_length s)

-- `^[a-z][a-z0-9_-]{0,31}$`
pub record IsAgentName (s : String) : Type 0 where
  pub led : starts_alpha s ≡ true
  pub chars : AllName s
  pub short : text_length s ≤ 32

squeeze-AllName : (within : Bool) (s : String) → AllName (squeeze within s)
unfolding squeeze is_name_char
squeeze-AllName within [] = tt
squeeze-AllName within (c ∷ s) = ground (arith, squeeze-AllName false s, squeeze-AllName true s)

lstrip_dash-AllName : (s : String) → AllName s → AllName (lstrip_dash s)
unfolding lstrip_dash
lstrip_dash-AllName [] h = tt
lstrip_dash-AllName (c ∷ s) (p, h) = ground (arith, lstrip_dash-AllName s h)

rstrip_dash-AllName : (u : Bool) (s : String) → AllName s → AllName (rstrip_dash u s)
unfolding rstrip_dash
rstrip_dash-AllName u [] h = tt
rstrip_dash-AllName u (c ∷ s) (p, h) = ground (arith, rstrip_dash-AllName u s h)

rstrip_dash-le : (u : Bool) (s : String) → text_length (rstrip_dash u s) ≤ text_length s
unfolding rstrip_dash
rstrip_dash-le u [] = omega arith
rstrip_dash-le u (c ∷ s) = ground (arith, rstrip_dash-le u s)

prefix-AllName : (n : ℕ) (s : String) → AllName s → AllName (prefix n s)
unfolding prefix
prefix-AllName zero s h = tt
prefix-AllName (suc n) [] h = tt
prefix-AllName (suc n) (c ∷ s) (p, h) = (p, prefix-AllName n s h)

prefix-le : (n : ℕ) (s : String) → text_length (prefix n s) ≤ n
unfolding prefix
prefix-le zero s = omega arith
prefix-le (suc n) [] = omega arith
prefix-le (suc n) (c ∷ s) = omega (arith, prefix-le n s)

-- A letter in front stays in front.
trimmed-starts_alpha :
    (s : String) → starts_alpha s ≡ true → (starts_alpha (rstrip_dash true (prefix 32 s)) ≡ true)
unfolding rstrip_dash prefix starts_alpha is_letter
trimmed-starts_alpha [] h = absurd (ground arith)
trimmed-starts_alpha (c ∷ s) h = ground arith

or_agent_lem : (t : String) → starts_alpha t ≡ true → or_agent t ≡ t
unfolding starts_alpha
or_agent_lem [] h = absurd (ground arith)
or_agent_lem (c ∷ t) h = refl

led-IsAgentName :
    (s : String)
    → starts_alpha s ≡ true
    → AllName s
    → IsAgentName (or_agent (rstrip_dash true (prefix 32 s)))
led-IsAgentName s a h =
    let led = trimmed-starts_alpha s a in
    rw (or_agent_lem _ led) (record {
      led = led;
      chars = rstrip_dash-AllName true (prefix 32 s) (prefix-AllName 32 s h);
      short = omega (arith, rstrip_dash-le true (prefix 32 s), prefix-le 32 s);
    })

-- Whatever the name of a session is, the name that herdr is given is a letter and at most 31 more
-- letters, digits, dashes and underscores.
pub herdr_agent_name-IsAgentName :
    (lower : String → String) (name : String) → IsAgentName (herdr_agent_name lower name)
unfolding herdr_agent_name
herdr_agent_name-IsAgentName lower name =
    let cleaned = rstrip_dash false (lstrip_dash (squeeze false (lower name))) in
    let chars =
      rstrip_dash-AllName false _ (lstrip_dash-AllName _ (squeeze-AllName false (lower name))) in
    elim (Bool-cases (starts_alpha cleaned)) [
      | inl e ↦ rw e (led-IsAgentName cleaned e chars)
      | inr e ↦ rw e (
          led-IsAgentName ("a" ∷ cleaned) (unfold starts_alpha is_letter in refl)
            (unfold is_name_char in refl, chars))
    ]
