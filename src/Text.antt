-- ===== src/Text.antt =====
-- Python's `str` as a list of code points, with the methods that the agent calls.
pub mod Lines
pub mod Strip
pub mod Split
pub mod Trimmed
use mathlib.Core.List.{reverse}
use fm_robot_agent.Prelude.{
  ℕ, ◌≡◌, refl, ◌↔◌, Bool, true, false, ◌&&◌, ◌||◌, List, [], ◌∷◌, ◌++◌, arith, ◌==◌, leb, ==_iff,
  if◌then◌else◌, ap,
}

abbrev pub Str : Type 0
Str = List ℕ

unfoldable pub str_eq : Str → Str → Bool
str_eq [] [] = true
str_eq [] (d ∷ t) = false
str_eq (c ∷ s) [] = false
str_eq (c ∷ s) (d ∷ t) = c == d && str_eq s t

pub str_eq_iff : (s t : Str) → (str_eq s t ≡ true) ↔ (s ≡ t)
unfolding str_eq
str_eq_iff [] [] = ground arith
str_eq_iff [] (d ∷ t) = ground arith
str_eq_iff (c ∷ s) [] = ground arith
str_eq_iff (c ∷ s) (d ∷ t) = ground (arith, str_eq_iff s t)

pub str_eq_refl : (s : Str) → str_eq s s ≡ true
str_eq_refl s = (str_eq_iff s s).1 refl

-- `s.startswith(prefix)`
unfoldable pub starts_with : Str → Str → Bool
starts_with [] s = true
starts_with (p ∷ ps) [] = false
starts_with (p ∷ ps) (c ∷ s) = p == c && starts_with ps s

-- What `str.isspace` counts as a space, and so what `str.strip` removes.
unfoldable pub is_space : ℕ → Bool
is_space c =
    (leb 9 c && leb c 13)
    || (leb 28 c && leb c 32)
    || c == 133
    || c == 160
    || c == 5760
    || (leb 8192 c && leb c 8202)
    || c == 8232
    || c == 8233
    || c == 8239
    || c == 8287
    || c == 12288

unfoldable pub drop_while : (ℕ → Bool) → Str → Str
drop_while p [] = []
drop_while p (c ∷ s) = let rest = drop_while p s in if p c then rest else c ∷ s

unfoldable pub trim_cons : (ℕ → Bool) → ℕ → Str → Str
trim_cons p c [] = if p c then [] else c ∷ []
trim_cons p c (d ∷ s) = c ∷ d ∷ s

-- `s.rstrip(chars)`
unfoldable pub rstrip_by : (ℕ → Bool) → Str → Str
unfolding trim_cons
rstrip_by p [] = []
rstrip_by p (c ∷ s) = trim_cons p c (rstrip_by p s)

-- `s.strip()`
unfoldable pub strip : Str → Str
unfolding is_space drop_while rstrip_by
strip s = drop_while is_space (rstrip_by is_space s)

-- `s.partition(c)`: what stands before the first `c`, and what stands behind it.
unfoldable pub before : ℕ → Str → Str
before c [] = []
before c (d ∷ s) = let rest = before c s in if d == c then [] else d ∷ rest

unfoldable pub after : ℕ → Str → Str
after c [] = []
after c (d ∷ s) = let rest = after c s in if d == c then s else rest

-- `c in s` for a character
unfoldable pub contains : ℕ → Str → Bool
contains c [] = false
contains c (d ∷ s) = d == c || contains c s

abbrev pub prepend : ℕ → List Str → List Str
prepend c [] = (c ∷ []) ∷ []
prepend c (l ∷ ls) = (c ∷ l) ∷ ls

-- `s.split(c)` for a character
unfoldable pub split : ℕ → Str → List Str
split c [] = [] ∷ []
split c (d ∷ s) = let rest = split c s in if d == c then [] ∷ rest else prepend d rest

-- `sep.join(parts)`
unfoldable pub join : Str → List Str → Str
join sep [] = []
join sep (p ∷ []) = p
join sep (p ∷ q ∷ ps) = p ++ (sep ++ join sep (q ∷ ps))

-- `s.replace(a, b)` for two characters
unfoldable pub replace : ℕ → ℕ → Str → Str
replace a b [] = []
replace a b (c ∷ s) = (if c == a then b else c) ∷ replace a b s
