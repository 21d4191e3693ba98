-- ===== src/Stage/Once.antt =====
-- src/fm_robot_agent/stage.py: no entry is moved out twice, and what was moved is brought back.
use fm_robot_agent.Prelude.{
  ℕ, ◌+◌, ◌≤◌, ◌≡◌, refl, sym, ap, ◌∙◌, Bool, true, false, ◌||◌, none, List, [], ◌∷◌, ◌++◌, codes,
  if◌then◌else◌, is_some, arith, false≢true,
}
use fm_robot_agent.Text.{Str, str_eq, str_eq_iff}
use fm_robot_agent.Stage.{managed, set, Dirs, next_from, move_out, out_of, bring_back}
use fm_robot_agent.Stage.Atomic.{listed, picked}

pub times : Str → List Str → ℕ
times q [] = 0
times q (n ∷ names) = (if str_eq q n then 1 else 0) + times q names

pub none_yet : (q : Str) → times q [] ≡ 0
unfolding times
none_yet q = refl

times-append :
    (q name : Str) (names : List Str)
    → times q (names ++ name ∷ []) ≡ times q names + (if str_eq q name then 1 else 0)
unfolding times
times-append q name [] = omega arith
times-append q name (n ∷ names) = omega (arith, times-append q name names)

abbrev the_same : {a b : Str} → str_eq a b ≡ true → a ≡ b
the_same {a} {b} e = (str_eq_iff a b).0 e

first : Str → ℕ
first [] = 0
first (c ∷ s) = c

first_of : (q : Str) (c : ℕ) (s : Str) → str_eq q (c ∷ s) ≡ true → first q ≡ c
unfolding first
first_of q c s e = ap first (the_same e)

abbrev one : Bool → ℕ
one b = if b then 1 else 0

-- At most one of the tests holds, where they are of four values.
one_of_four :
    (h : ℕ) (a b c d : Bool)
    → (a ≡ true → h ≡ 114)
    → (b ≡ true → h ≡ 112)
    → (c ≡ true → h ≡ 97)
    → (d ≡ true → h ≡ 103)
    → one a + (one b + (one c + (one d + 0))) ≤ 1
one_of_four h a b c d ha hb hc hd = ground arith

pub managed_once : (q : Str) → times q managed ≤ 1
unfolding times
managed_once q =
    one_of_four (first q) (str_eq q (codes "robot.urdf")) (str_eq q (codes "packages"))
      (str_eq q (codes "arms")) (str_eq q (codes "grippers")) (first_of q 114 _) (first_of q 112 _)
      (first_of q 97 _) (first_of q 103 _)

unlisted : (q : Str) (names : List Str) → times q names ≡ 0 → listed q names ≡ false
unfolding times
unlisted q [] e = refl
unlisted q (n ∷ names) e = go (str_eq q n) (unlisted q names) e
  where
    go :
        (b : Bool)
        → (times q names ≡ 0 → listed q names ≡ false)
        → one b + times q names ≡ 0
        → b || listed q names ≡ false
    go true rest e = elim (never (times q names) e) [ ]
      where
        never : (n : ℕ) → 1 + n ≡ 0 → ⊥
        never n e = omega (arith, e)
    go false rest e = rest (omega (arith, e))

pub out_of_times :
    {T : Type 0} (q : Str) (names moved : List Str) (d : Dirs T)
    → times q (out_of names moved d).0.0 ≤ times q moved + times q names
unfolding out_of times
out_of_times q [] moved d = omega arith
out_of_times {T} q (name ∷ names) moved d =
    let left = (next_from d.fails_after).1 in
    picked {A = (List Str × Bool) × Dirs T}
      (λ r. times q (r.0.0) ≤ times q moved + ((if str_eq q name then 1 else 0) + times q names))
      (is_some (d.bundle name)) ((next_from d.fails_after).0) _ _ _
      (λ there. omega (
        arith,
        out_of_times q names (moved ++ name ∷ []) (move_out name left d),
        times-append q name moved,
      ))
      (omega arith) (omega (arith, out_of_times q names moved d))

pub bring_back_lem :
    {T : Type 0} (q : Str) (moved : List Str) (d : Dirs T)
    → times q moved ≤ 1
    → (bring_back moved d).bundle q ≡ (if listed q moved then d.old q else d.bundle q)
unfolding bring_back times
bring_back_lem q [] d h = refl
bring_back_lem q (name ∷ names) d h =
    bring_back_lem q names
      (record d { bundle = set name (d.old name) d.bundle; old = set name none d.old })
      (omega (arith, h))
    ∙ go (listed q names) (str_eq q name) refl refl h
  where
    go :
        (l b : Bool)
        → listed q names ≡ l
        → str_eq q name ≡ b
        → (if b then 1 else 0) + times q names ≤ 1
        → (if l then (if b then none else d.old q) else (if b then d.old name else d.bundle q))
          ≡ (if b || l then d.old q else d.bundle q)
    go true true e f k = elim (false≢true (sym (unlisted q names (omega (arith, k))) ∙ e)) [ ]
    go true false e f k = refl
    go false true e f k = ap d.old (sym (the_same f))
    go false false e f k = refl
