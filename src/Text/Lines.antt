-- ===== src/Text/Lines.antt =====
-- `str.splitlines`, and that it undoes joining lines with a newline behind each.
use fm_robot_agent.Prelude.{
  ℕ, ◌≡◌, refl, Bool, false, ◌&&◌, ◌||◌, List, [], ◌∷◌, ◌++◌, arith, ◌==◌, leb, All, All-append, ap,
  inl, inr, Bool-cases, append_assoc, if◌then◌else◌,
}
use fm_robot_agent.Text.{Str, prepend, join}

-- The characters at which `str.splitlines` ends a line.
unfoldable pub is_break : ℕ → Bool
is_break c = (leb 10 c && leb c 13) || (leb 28 c && leb c 30) || c == 133 || c == 8232 || c == 8233

-- The flag says that the character before was a carriage return, whose line feed ends no line.
unfoldable pub lines_from : Bool → Str → List Str
unfolding is_break
lines_from cr [] = []
lines_from cr (c ∷ s) =
    let rest = lines_from (c == 13) s in
    if cr && c == 10 then rest else if is_break c then [] ∷ rest else prepend c rest

unfoldable pub splitlines : Str → List Str
unfolding lines_from
splitlines = lines_from false

abbrev pub IsLine : Str → Type 0
IsLine l = All (λ c. is_break c ≡ false) l

break_not_return : (c : ℕ) → is_break c ≡ false → (c == 13) ≡ false
unfolding is_break
break_not_return c h = ground arith

-- A line's text and a newline in front of a rest that starts a new line.
lines_from-line : (l s : Str) → IsLine l → lines_from false (l ++ 10 ∷ s) ≡ l ∷ lines_from false s
unfolding lines_from
lines_from-line [] s h = refl
lines_from-line (c ∷ l) s h = rw (h.0, break_not_return c h.0, lines_from-line l s h.1)

-- Splitting gives lines: none holds a line break.
prepend-IsLine :
    (c : ℕ) (ls : List Str) → is_break c ≡ false → All IsLine ls → All IsLine (prepend c ls)
prepend-IsLine c [] b h = ((b, tt), tt)
prepend-IsLine c (l ∷ ls) b h = ((b, h.0), h.1)

lines_from-IsLine : (cr : Bool) (s : Str) → All IsLine (lines_from cr s)
unfolding lines_from
lines_from-IsLine cr [] = tt
lines_from-IsLine cr (c ∷ s) = elim (Bool-cases (cr && c == 10)) [
  | inl joined ↦ rw joined (lines_from-IsLine (c == 13) s)
  | inr other ↦ rw other (elim (Bool-cases (is_break c)) [
    | inl b ↦ rw b (tt, lines_from-IsLine (c == 13) s)
    | inr b ↦ rw b (prepend-IsLine c (lines_from (c == 13) s) b (lines_from-IsLine (c == 13) s))
  ])
]

pub splitlines-IsLine : (s : Str) → All IsLine (splitlines s)
unfolding splitlines
splitlines-IsLine s = lines_from-IsLine false s

-- Every line with a newline behind it.
abbrev unlines : List Str → Str
unlines [] = []
unlines (l ∷ ls) = l ++ 10 ∷ unlines ls

splitlines-unlines : (ls : List Str) → All IsLine ls → splitlines (unlines ls) ≡ ls
unfolding splitlines
splitlines-unlines [] h = unfold lines_from in refl
splitlines-unlines (l ∷ ls) h =
    rw (lines_from-line l (unlines ls) h.0) (ap (λ t. l ∷ t) (splitlines-unlines ls h.1))

join-unlines : (l : Str) (ls : List Str) → join (10 ∷ []) (l ∷ ls) ++ 10 ∷ [] ≡ unlines (l ∷ ls)
unfolding join
join-unlines l [] = refl
join-unlines l (m ∷ ls) = simp append_assoc (ap (λ t. l ++ 10 ∷ t) (join-unlines m ls))

-- Lines joined by newlines, with one behind the last, split into the same lines.
pub splitlines-join :
    (ls : List Str) (l : Str)
    → All IsLine ls
    → IsLine l
    → splitlines (join (10 ∷ []) (ls ++ l ∷ []) ++ 10 ∷ []) ≡ ls ++ l ∷ []
splitlines-join [] l h k = rw join-unlines (splitlines-unlines (l ∷ []) (k, tt))
splitlines-join (p ∷ ps) l h k =
    rw join-unlines
      (splitlines-unlines (p ∷ (ps ++ l ∷ [])) (h.0, All-append IsLine ps (l ∷ []) h.1 (k, tt)))
