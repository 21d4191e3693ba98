-- ===== src/Config/EnvFile/Laws.antt =====
-- What a reader of an env file finds after `env_replaced` (src/fm_robot_agent/config.py).
use mathlib.Core.List.{foldl, foldl-append}
use fm_robot_agent.Prelude.{
  ℕ, ◌≡◌, refl, sym, subst, false≢true, ◌∙◌, ap, Bool, true, false, not, Option, none, some, List,
  [], ◌∷◌, ◌++◌, arith, ◌==◌, All, All-append, All-keep, keep, inl, inr, Bool-cases, append_assoc,
  if◌then◌else◌,
}
use fm_robot_agent.Text.{Str, str_eq, is_space, strip, starts_with}
use fm_robot_agent.Text.Lines.{is_break, splitlines, IsLine, splitlines-IsLine, splitlines-join}
use fm_robot_agent.Text.Strip.{
  IsTrimmed, strip-IsTrimmed_eq, rstrip_by-append, drop_while-cons, IsWord, IsWord-IsTrimmed,
  starts_with-append, starts_with-split, Without, before-append, after-append, contains-append,
}
use fm_robot_agent.Dict.{Dict, get, insert, get-insert}
use fm_robot_agent.Config.EnvFile.{assignment, assign, store, env_values, assigns, env_replaced}

-- A key that an env file can hold: no comment sign in front, no space and no `=` in it.
abbrev pub IsKey : Str → Type 0
IsKey [] = ⊥
IsKey (c ∷ k) = ((35 == c) ≡ false) × IsWord (c ∷ k) × Without 61 (c ∷ k)

-- A value that an env file can hold: trimmed, on one line.
abbrev pub IsValue : Str → Type 0
IsValue v = IsTrimmed v × IsLine v

is_space-break : (c : ℕ) → is_space c ≡ false → is_break c ≡ false
unfolding is_space is_break
is_space-break c h = ground arith

pub IsWord-IsLine : (s : Str) → IsWord s → IsLine s
IsWord-IsLine [] h = tt
IsWord-IsLine (c ∷ s) h = (is_space-break c h.0, IsWord-IsLine s h.1)

IsKey-IsWord : (k : Str) → IsKey k → IsWord k
IsKey-IsWord [] h = elim h [ ]
IsKey-IsWord (c ∷ k) h = h.1

starts_hash : (c : ℕ) (s : Str) → (35 == c) ≡ false → starts_with (35 ∷ []) (c ∷ s) ≡ false
unfolding starts_with
starts_hash c s h = rw h

abbrev pub line_of : Str → Str → Str
line_of k v = k ++ 61 ∷ v

line_of-IsLine : (k v : Str) → IsWord k → IsLine v → IsLine (line_of k v)
line_of-IsLine k v h g = All-append _ k (61 ∷ v) (IsWord-IsLine k h) (unfold is_break in refl, g)

pub strip-line_of : (k v : Str) → IsKey k → IsTrimmed v → strip (line_of k v) ≡ line_of k v
unfolding strip
strip-line_of [] v h g = elim h [ ]
strip-line_of (c ∷ k) v h g =
    rw (rstrip_by-append is_space (c ∷ k) v 61 (unfold is_space in refl), g.0)
      (drop_while-cons is_space c (k ++ 61 ∷ v) h.1.0)

-- Any line whose trimmed text is `key=rest` assigns that key.
assignment-line :
    (line k r : Str) → IsKey k → strip line ≡ line_of k r → assignment line ≡ some (k, strip r)
unfolding assignment
assignment-line line [] r h e = elim h [ ]
assignment-line line (c ∷ k) r h e = rw (
  e,
  starts_hash c (k ++ 61 ∷ r) h.0,
  contains-append 61 (c ∷ k) r,
  before-append 61 (c ∷ k) r h.2,
  after-append 61 (c ∷ k) r h.2,
  strip-IsTrimmed_eq (c ∷ k) (IsWord-IsTrimmed (c ∷ k) h.1),
)

-- The line that `env_replaced` adds assigns the key the value.
assignment-line_of : (k v : Str) → IsKey k → IsTrimmed v → assignment (line_of k v) ≡ some (k, v)
assignment-line_of k v h g =
    assignment-line (line_of k v) k v h (strip-line_of k v h g)
    ∙ ap (λ t. some (k, t)) (strip-IsTrimmed_eq v g)

assigns-line_of : (k v : Str) → IsKey k → IsTrimmed v → assigns k (line_of k v) ≡ true
unfolding assigns
assigns-line_of k v h g =
    rw (strip-line_of k v h g, ← append_assoc k (61 ∷ []) v) (starts_with-append (k ++ 61 ∷ []) v)

-- The trimmed line begins with the key and an equals sign.
abbrev pub Begins : Str → Str → Type 0
Begins k line = (r : Str) × (strip line ≡ k ++ 61 ∷ r)

-- What `assigns` tests.
assigns-Begins : (k line : Str) → assigns k line ≡ true → Begins k line
unfolding assigns
assigns-Begins k line e =
    let (r, split) = starts_with-split (k ++ 61 ∷ []) (strip line) e in
    (r, split ∙ append_assoc k (61 ∷ []) r)

Begins-assigns : (k line : Str) → Begins k line → assigns k line ≡ true
unfolding assigns
Begins-assigns k line (r, e) =
    rw (e, ← append_assoc k (61 ∷ []) r) (starts_with-append (k ++ 61 ∷ []) r)

-- The lines that it takes out assign the key.
assignment-assigns :
    (k line : Str) → IsKey k → assigns k line ≡ true → (v : Str) × (assignment line ≡ some (k, v))
assignment-assigns k line h e =
    let (r, split) = assigns-Begins k line e in (strip r, assignment-line line k r h split)

get-store :
    (o : Option (Str × Str)) (j : Str) (d e : Dict Str)
    → get j d ≡ get j e
    → get j (store o d) ≡ get j (store o e)
get-store none j d e h = h
get-store (some (i, v)) j d e h = rw (get-insert i j v d, get-insert i j v e, h)

keep-keep :
    (p : Str → Bool) (ls : List Str) (l : Str)
    → p l ≡ false
    → keep p (keep p ls ++ l ∷ []) ≡ keep p ls
keep-keep p [] l h = rw h
keep-keep p (m ∷ ls) l h = elim (Bool-cases (p m)) [
  | inl t ↦ rw (t, t, keep-keep p ls l h)
  | inr f ↦ rw (f, keep-keep p ls l h)
]

-- The second lines are the first ones but for those that begin with the key and an equals sign.
pub data Rewritten (k : Str) : List Str → List Str → Type 0 where
  no_lines : Rewritten k [] []
  left_out : (l : Str) (ls ms : List Str) → Begins k l → Rewritten k ls ms → Rewritten k (l ∷ ls) ms
  left_in :
      (l : Str) (ls ms : List Str)
      → (Begins k l → ⊥)
      → Rewritten k ls ms
      → Rewritten k (l ∷ ls) (l ∷ ms)

module _ (k : Str) (key : IsKey k) where
  abbrev kept : List Str → List Str
  kept = keep (λ line. not (assigns k line))

  -- Taking those lines out changes no other key.
  get-kept :
      (j : Str) (ls : List Str) (d e : Dict Str)
      → str_eq k j ≡ false
      → get j d ≡ get j e
      → get j (foldl assign d (kept ls)) ≡ get j (foldl assign e ls)
  unfolding assign
  get-kept j [] d e ne h = h
  get-kept j (l ∷ ls) d e ne h = elim (Bool-cases (assigns k l)) [
    | inl dropped ↦
        let (v, a) = assignment-assigns k l key dropped in
        rw (dropped, a) (get-kept j ls d (insert k v e) ne (rw (get-insert k j v e, ne) h))
    | inr stays ↦
        rw stays (get-kept j ls (assign d l) (assign e l) ne (get-store (assignment l) j d e h))
  ]

  kept-Rewritten : (ls : List Str) → Rewritten k ls (kept ls)
  kept-Rewritten [] = no_lines
  kept-Rewritten (l ∷ ls) = elim (Bool-cases (assigns k l)) [
    | inl dropped ↦
        subst (λ b. Rewritten k (l ∷ ls) (if not b then l ∷ kept ls else kept ls)) (sym dropped)
          (left_out l ls (kept ls) (assigns-Begins k l dropped) (kept-Rewritten ls))
    | inr held ↦
        subst (λ b. Rewritten k (l ∷ ls) (if not b then l ∷ kept ls else kept ls)) (sym held)
          (left_in l ls (kept ls) (λ b. false≢true (sym held ∙ Begins-assigns k l b))
            (kept-Rewritten ls))
  ]

  kept-IsLine : (text : Str) → All IsLine (kept (splitlines text))
  kept-IsLine text =
      All-keep IsLine (λ line. not (assigns k line)) (splitlines text) (splitlines-IsLine text)

  module _ (text v : Str) (value : IsValue v) where
    pub lines-env_replaced :
        splitlines (env_replaced text k v) ≡ kept (splitlines text) ++ (k ++ 61 ∷ v) ∷ []
    unfolding env_replaced
    lines-env_replaced =
        splitlines-join (kept (splitlines text)) (line_of k v) (kept-IsLine text)
          (line_of-IsLine k v (IsKey-IsWord k key) value.1)

    -- For a key and a value that an env file can hold, the lines of the replaced text are, in
    -- their order, those lines of the text that do not begin, once trimmed, with the key and an
    -- equals sign, and then the assignment.
    pub splitlines-env_replaced :
        (rest : List Str) × Rewritten k (splitlines text) rest
        × (splitlines (env_replaced text k v) ≡ rest ++ (k ++ 61 ∷ v) ∷ [])
    splitlines-env_replaced =
        (kept (splitlines text), kept-Rewritten (splitlines text), lines-env_replaced)

    -- For a key and a value that an env file can hold, a reader of the replaced text finds the
    -- value under the key, and under every other key what it found before.
    pub get-env_replaced :
        (j : Str)
        → get j (env_values (env_replaced text k v))
          ≡ (if str_eq k j then some v else get j (env_values text))
    unfolding env_values
    get-env_replaced j =
        rw (lines-env_replaced, foldl-append, assigned, get-insert)
          (elim (Bool-cases (str_eq k j)) [
            | inl same ↦ rw same
            | inr other ↦ rw other (get-kept j (splitlines text) [] [] other refl)
          ])
      where
        assigned : (d : Dict Str) → assign d (line_of k v) ≡ insert k v d
        assigned d = unfold assign in rw (assignment-line_of k v key value.0)

    -- For a key and a value that an env file can hold, replacing the value and then replacing it
    -- again by any text is the second replacement alone.
    pub env_replaced-env_replaced :
        (w : Str) → env_replaced (env_replaced text k v) k w ≡ env_replaced text k w
    unfolding env_replaced
    env_replaced-env_replaced w = rw (
      lines-env_replaced,
      keep-keep (λ line. not (assigns k line)) (splitlines text) (line_of k v)
          (ap not (assigns-line_of k v key value.0)),
    )
