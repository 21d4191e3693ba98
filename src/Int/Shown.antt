-- ===== src/Int/Shown.antt =====
-- The decimal text of a number has no space in it.
use fm_robot_agent.Prelude.{
  ℕ, zero, suc, ◌+◌, ◌/◌, ◌%◌, ◌<◌, ◌≡◌, refl, Bool, true, false, [], ◌∷◌, ltb, ltb→lt,
  if◌then◌else◌, arith,
}
use fm_robot_agent.Int.{ℤ, pos, negsuc, show_digits, show_ℕ, show_ℤ}
use fm_robot_agent.Text.{Str, is_space}
use fm_robot_agent.Text.Strip.{IsWord}

digit_stays : (n : ℕ) → n < 10 → is_space (48 + n) ≡ false
unfolding is_space
digit_stays n h = ground arith

show_digits-IsWord : (fuel n : ℕ) (text : Str) → IsWord text → IsWord (show_digits fuel n text)
unfolding show_digits
show_digits-IsWord zero n text h = h
show_digits-IsWord (suc fuel) n text h = go (ltb n 10) refl (
    show_digits-IsWord fuel (n / 10) ((48 + n % 10) ∷ text) (digit_stays (n % 10) (omega arith), h))
  where
    go :
        (b : Bool)
        → ltb n 10 ≡ b
        → IsWord (show_digits fuel (n / 10) ((48 + n % 10) ∷ text))
        → IsWord (if b then (48 + n) ∷ text else show_digits fuel (n / 10) ((48 + n % 10) ∷ text))
    go true e more = (digit_stays n (ltb→lt n 10 e), h)
    go false e more = more

pub show_ℤ-IsWord : (z : ℤ) → IsWord (show_ℤ z)
unfolding show_ℤ show_ℕ is_space
show_ℤ-IsWord (pos n) = show_digits-IsWord (suc n) n [] tt
show_ℤ-IsWord (negsuc n) = (refl, show_digits-IsWord (suc (suc n)) (suc n) [] tt)
