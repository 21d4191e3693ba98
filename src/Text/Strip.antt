-- ===== src/Text/Strip.antt =====
-- `str.strip` on a text that is already trimmed, and prefixes.
use fm_robot_agent.Prelude.{
  ℕ, ◌≡◌, refl, Bool, true, false, [], ◌∷◌, ◌++◌, arith, ◌==◌, All, inl, inr, Bool-cases,
  false≢true,
}
use fm_robot_agent.Text.{
  Str, is_space, drop_while, rstrip_by, trim_cons, strip, starts_with, before, after, contains,
}

-- No space at either end.
abbrev pub IsTrimmed : Str → Type 0
IsTrimmed s = (rstrip_by is_space s ≡ s) × (drop_while is_space s ≡ s)

pub strip-IsTrimmed_eq : (s : Str) → IsTrimmed s → strip s ≡ s
unfolding strip
strip-IsTrimmed_eq s h = rw h.0 h.1

trim_cons-cons : (p : ℕ → Bool) (c d : ℕ) (s : Str) → trim_cons p c (d ∷ s) ≡ c ∷ d ∷ s
unfolding trim_cons
trim_cons-cons p c d s = refl

-- What stands before a character that stays is not trimmed at the right end.
pub rstrip_by-append :
    (p : ℕ → Bool) (s t : Str) (c : ℕ)
    → p c ≡ false
    → rstrip_by p (s ++ c ∷ t) ≡ s ++ c ∷ rstrip_by p t
unfolding rstrip_by
rstrip_by-append p [] t c h = elim (rstrip_by p t) as (λ r. trim_cons p c r ≡ c ∷ r) [
  | [] ↦ rw h
  | d ∷ r ↦ refl
]
rstrip_by-append p (d ∷ []) t c h = rw (rstrip_by-append p [] t c h)
rstrip_by-append p (d ∷ e ∷ s) t c h = rw (rstrip_by-append p (e ∷ s) t c h)

pub drop_while-cons : (p : ℕ → Bool) (c : ℕ) (s : Str) → p c ≡ false → drop_while p (c ∷ s) ≡ c ∷ s
unfolding drop_while
drop_while-cons p c s h = rw h

abbrev pub IsWord : Str → Type 0
IsWord = All (λ c. is_space c ≡ false)

rstrip_by-word : (s : Str) → IsWord s → rstrip_by is_space s ≡ s
unfolding rstrip_by
rstrip_by-word [] h = refl
rstrip_by-word (c ∷ []) h = rw h.0
rstrip_by-word (c ∷ d ∷ s) h = rw (rstrip_by-word (d ∷ s) h.1)

drop_while-word : (s : Str) → IsWord s → drop_while is_space s ≡ s
unfolding drop_while
drop_while-word [] h = refl
drop_while-word (c ∷ s) h = rw h.0

-- A text without spaces is trimmed.
pub IsWord-IsTrimmed : (s : Str) → IsWord s → IsTrimmed s
IsWord-IsTrimmed s h = (rstrip_by-word s h, drop_while-word s h)

pub starts_with-append : (p s : Str) → starts_with p (p ++ s) ≡ true
unfolding starts_with
starts_with-append [] s = refl
starts_with-append (c ∷ p) s = ground (arith, starts_with-append p s)

-- A text with a prefix is the prefix and a rest.
pub starts_with-split : (p s : Str) → starts_with p s ≡ true → (r : Str) × (s ≡ p ++ r)
unfolding starts_with
starts_with-split [] s h = (s, refl)
starts_with-split (c ∷ p) [] h = absurd (false≢true h)
starts_with-split (c ∷ p) (d ∷ s) h = elim (Bool-cases (c == d)) [
  | inl e ↦ let (r, q) = starts_with-split p s (rw e at h) in (r, ground (arith, q))
  | inr e ↦ absurd (false≢true (rw e at h))
]

-- `partition` at a separator that the first part does not hold.
module _ (sep : ℕ) where
  abbrev pub Without : Str → Type 0
  Without s = All (λ c. (c == sep) ≡ false) s

  pub before-append : (s t : Str) → Without s → before sep (s ++ sep ∷ t) ≡ s
  unfolding before
  before-append [] t h = ground arith
  before-append (c ∷ s) t h = rw (h.0, before-append s t h.1)

  pub after-append : (s t : Str) → Without s → after sep (s ++ sep ∷ t) ≡ t
  unfolding after
  after-append [] t h = ground arith
  after-append (c ∷ s) t h = rw (h.0, after-append s t h.1)

  pub contains-append : (s t : Str) → contains sep (s ++ sep ∷ t) ≡ true
  unfolding contains
  contains-append [] t = ground arith
  contains-append (c ∷ s) t = ground (arith, contains-append s t)
