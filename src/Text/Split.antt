-- ===== src/Text/Split.antt =====
-- `str.split` at one character and `str.join` undo each other.
use fm_robot_agent.Prelude.{
  ℕ, ◌≡◌, refl, List, [], ◌∷◌, ◌++◌, arith, ◌==◌, ap, sym, inl, inr, Bool-cases, ==_iff,
}
use fm_robot_agent.Text.{Str, prepend, split, join}
use fm_robot_agent.Text.Strip.{Without}

module _ (c : ℕ) where
  -- The part in front of a separator comes out whole.
  pub split-append : (s t : Str) → Without c s → split c (s ++ c ∷ t) ≡ s ∷ split c t
  unfolding split
  split-append [] t h = ground arith
  split-append (d ∷ s) t h = rw (h.0, split-append s t h.1)

  pub split-Without : (s : Str) → Without c s → split c s ≡ s ∷ []
  unfolding split
  split-Without [] h = refl
  split-Without (d ∷ s) h = rw (h.0, split-Without s h.1)

  join-prepend : (d : ℕ) (ls : List Str) → join (c ∷ []) (prepend d ls) ≡ d ∷ join (c ∷ []) ls
  unfolding join
  join-prepend d [] = refl
  join-prepend d (l ∷ []) = refl
  join-prepend d (l ∷ m ∷ ls) = refl

  split-cons : (s : Str) → (l : Str) × (ls : List Str) × (split c s ≡ l ∷ ls)
  unfolding split
  split-cons [] = ([], [], refl)
  split-cons (d ∷ s) = elim (Bool-cases (d == c)) [
    | inl e ↦ ([], split c s, rw e)
    | inr e ↦ let (l, ls, p) = split-cons s in (d ∷ l, ls, rw (e, p))
  ]

  join-empty : (s : Str) → join (c ∷ []) ([] ∷ split c s) ≡ c ∷ join (c ∷ []) (split c s)
  unfolding join
  join-empty s = let (l, ls, p) = split-cons s in rw p

  -- Joining the parts gives the text back.
  pub join-split : (s : Str) → join (c ∷ []) (split c s) ≡ s
  unfolding split
  join-split [] = unfold join in refl
  join-split (d ∷ s) = elim (Bool-cases (d == c)) [
    | inl e ↦ rw (e, join-empty s, join-split s) (ap (λ x. x ∷ s) (sym ((==_iff d c).0 e)))
    | inr e ↦ rw (e, join-prepend d (split c s), join-split s)
  ]
