-- ===== src/Int.antt =====
-- Python's integers over the native numbers, and their decimal text.
pub mod Shown
use fm_robot_agent.Prelude.{
  ℕ, zero, suc, ◌+◌, ◌/◌, ◌%◌, Bool, List, [], ◌∷◌, ltb, leb, if◌then◌else◌,
}

-- `negsuc n` is -(n + 1).
pub data ℤ : Type 0 where
  pos : ℕ → ℤ
  negsuc : ℕ → ℤ

abbrev pub pos_part : ℤ → ℕ
pos_part (pos n) = n
pos_part (negsuc n) = 0

abbrev pub neg_part : ℤ → ℕ
neg_part (pos n) = 0
neg_part (negsuc n) = suc n

abbrev pub leb_ℤ : ℤ → ℤ → Bool
leb_ℤ a b = leb (pos_part a + neg_part b) (pos_part b + neg_part a)

-- The decimal digits of `n` in front of a text; `suc n` rounds are enough.
show_digits : ℕ → ℕ → List ℕ → List ℕ
show_digits zero n text = text
show_digits (suc fuel) n text =
    let more = show_digits fuel (n / 10) ((48 + n % 10) ∷ text) in
    if ltb n 10 then (48 + n) ∷ text else more

unfoldable pub show_ℕ : ℕ → List ℕ
unfolding show_digits
show_ℕ n = show_digits (suc n) n []

-- `str(n)` of an integer.
unfoldable pub show_ℤ : ℤ → List ℕ
unfolding show_ℕ
show_ℤ (pos n) = show_ℕ n
show_ℤ (negsuc n) = 45 ∷ show_ℕ (suc n)
