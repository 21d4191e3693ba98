-- ===== src/Text/Trimmed.antt =====
-- `str.strip` gives a trimmed text.
use fm_robot_agent.Prelude.{ℕ, ◌≡◌, refl, ap, ◌∙◌, Bool, true, false, [], ◌∷◌, if◌then◌else◌}
use fm_robot_agent.Text.{Str, is_space, drop_while, rstrip_by, trim_cons, strip}
use fm_robot_agent.Text.Strip.{IsTrimmed}

tail : Str → Str
tail [] = []
tail (c ∷ s) = s

module _ (p : ℕ → Bool) where
  trim_kept :
      (c : ℕ) (r : Str) → rstrip_by p r ≡ r → rstrip_by p (trim_cons p c r) ≡ trim_cons p c r
  unfolding rstrip_by trim_cons
  trim_kept c [] e = go (p c) refl
    where
      go :
          (b : Bool) → p c ≡ b → rstrip_by p (if b then [] else c ∷ []) ≡ (if b then [] else c ∷ [])
      go true h = refl
      go false h = ap (λ b. if b then [] else c ∷ []) h
  trim_kept c (d ∷ r) e = ap (trim_cons p c) e

  rstrip_by-rstrip_by : (s : Str) → rstrip_by p (rstrip_by p s) ≡ rstrip_by p s
  unfolding rstrip_by
  rstrip_by-rstrip_by [] = refl
  rstrip_by-rstrip_by (c ∷ s) = trim_kept c (rstrip_by p s) (rstrip_by-rstrip_by s)

  drop_while-drop_while : (s : Str) → drop_while p (drop_while p s) ≡ drop_while p s
  unfolding drop_while
  drop_while-drop_while [] = refl
  drop_while-drop_while (c ∷ s) = go (p c) refl (drop_while-drop_while s)
    where
      go :
          (b : Bool)
          → p c ≡ b
          → drop_while p (drop_while p s) ≡ drop_while p s
          → drop_while p (if b then drop_while p s else c ∷ s)
            ≡ (if b then drop_while p s else c ∷ s)
      go true h e = e
      go false h e = ap (λ b. if b then drop_while p s else c ∷ s) h

  tail_kept : (c : ℕ) (s : Str) → rstrip_by p (c ∷ s) ≡ c ∷ s → rstrip_by p s ≡ s
  unfolding rstrip_by trim_cons tail
  tail_kept c s e = go (rstrip_by p s) refl e
    where
      empty : (b : Bool) → (if b then [] else c ∷ []) ≡ c ∷ s → [] ≡ s
      empty true k = cc
      empty false k = ap tail k

      go : (r : Str) → rstrip_by p s ≡ r → trim_cons p c r ≡ c ∷ s → rstrip_by p s ≡ s
      go [] h k = h ∙ empty (p c) k
      go (d ∷ r) h k = h ∙ ap tail k

  drop_while_kept : (s : Str) → rstrip_by p s ≡ s → rstrip_by p (drop_while p s) ≡ drop_while p s
  unfolding drop_while
  drop_while_kept [] e = e
  drop_while_kept (c ∷ s) e = go (p c) (drop_while_kept s (tail_kept c s e))
    where
      go :
          (b : Bool)
          → rstrip_by p (drop_while p s) ≡ drop_while p s
          → rstrip_by p (if b then drop_while p s else c ∷ s)
            ≡ (if b then drop_while p s else c ∷ s)
      go true h = h
      go false h = e

pub strip-IsTrimmed : (s : Str) → IsTrimmed (strip s)
unfolding strip
strip-IsTrimmed s = (
  drop_while_kept is_space (rstrip_by is_space s) (rstrip_by-rstrip_by is_space s),
  drop_while-drop_while is_space (rstrip_by is_space s),
)
