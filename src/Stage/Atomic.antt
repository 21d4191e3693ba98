-- ===== src/Stage/Atomic.antt =====
-- src/fm_robot_agent/stage.py: a swap that fails has left the bundle as it was.
use fm_robot_agent.Prelude.{
  ℕ, ◌≡◌, refl, sym, ap, ◌∙◌, subst, Bool, true, false, ◌||◌, Option, none, some, List, [], ◌∷◌,
  ◌++◌, if◌then◌else◌, is_some, some_of, arith, inl, inr, ◌⊎◌,
}
use fm_robot_agent.Text.{Str, str_eq, str_eq_iff}
use fm_robot_agent.Stage.{set, Dirs, next_from, move_out, move_in, out_of, into, remove_placed}

abbrev pub listed : Str → List Str → Bool
listed q names = some_of (str_eq q) names

listed-append :
    (q name : Str) (names : List Str)
    → listed q (names ++ name ∷ []) ≡ listed q names || str_eq q name
listed-append q name [] = ground arith
listed-append q name (n ∷ names) = ground (arith, listed-append q name names)

pub either : {A : Type 0} (P : A → Type 0) (c : Bool) (x y : A) → P x → P y → P (if c then x else y)
either P true x y h k = h
either P false x y h k = k

pub picked :
    {A : Type 0} (P : A → Type 0) (b c : Bool) (x y z : A)
    → (b ≡ true → P x)
    → P y
    → P z
    → P (if b then (if c then x else y) else z)
picked P true c x y z h k l = either P c x y (h refl) k
picked P false c x y z h k l = l

-- One name, in a bundle that held `was` of it.
module _ {T : Type 0} (q : Str) (was : Option T) where
  -- Moved away and kept, or still there.
  abbrev pub Away : Bool → Dirs T → Type 0
  Away true d = (d.bundle q ≡ none) × (d.old q ≡ was)
  Away false d = d.bundle q ≡ was

  failed-Away :
      (b : Bool) (left : Option ℕ) (d : Dirs T)
      → Away b d
      → Away b (record d { fails_after = left })
  failed-Away true left d h = h
  failed-Away false left d h = h

  move_out-Away :
      (name : Str) (moved : List Str) (left : Option ℕ) (d : Dirs T)
      → is_some (d.bundle name) ≡ true
      → Away (listed q moved) d
      → Away (listed q (moved ++ name ∷ [])) (move_out name left d)
  move_out-Away name moved left d there h =
      subst (λ b. Away b (move_out name left d)) (sym (listed-append q name moved))
        (go (listed q moved) (str_eq q name) refl h)
    where
      stayed : (l : Bool) → d.bundle name ≡ d.bundle q → Away l d → d.bundle q ≡ was
      stayed true e h = elim (gone (d.bundle name) there (e ∙ h.0)) [ ]
        where
          gone : (o : Option T) → is_some o ≡ true → o ≡ none → ⊥
          gone none a b = cc
          gone (some x) a b = cc
      stayed false e h = h

      go : (l b : Bool) → str_eq q name ≡ b → Away l d → Away (l || b) (move_out name left d)
      go true true e h =
          let same = ap d.bundle (sym ((str_eq_iff q name).0 e)) in
          (
            ap (λ b. if b then none else d.bundle q) e,
            ap (λ b. if b then d.bundle name else d.old q) e ∙ same ∙ stayed true same h,
          )
      go false true e h =
          let same = ap d.bundle (sym ((str_eq_iff q name).0 e)) in
          (
            ap (λ b. if b then none else d.bundle q) e,
            ap (λ b. if b then d.bundle name else d.old q) e ∙ same ∙ stayed false same h,
          )
      go true false e h = (
        ap (λ b. if b then none else d.bundle q) e ∙ h.0,
        ap (λ b. if b then d.bundle name else d.old q) e ∙ h.1,
      )
      go false false e h = ap (λ b. if b then none else d.bundle q) e ∙ h

  -- The first loop keeps it so.
  pub out_of-Away :
      (names moved : List Str) (d : Dirs T)
      → Away (listed q moved) d
      → let r = out_of names moved d in Away (listed q (r.0.0)) (r.1)
  unfolding out_of
  out_of-Away [] moved d h = h
  out_of-Away (name ∷ names) moved d h =
      let left = (next_from d.fails_after).1 in
      picked {A = (List Str × Bool) × Dirs T} (λ r. Away (listed q (r.0.0)) (r.1))
        (is_some (d.bundle name)) ((next_from d.fails_after).0) _ _ _
        (λ there.
          out_of-Away names (moved ++ name ∷ []) (move_out name left d)
            (move_out-Away name moved left d there h))
        (failed-Away (listed q moved) left d h) (out_of-Away names moved d h)

  -- Placed, or as the first loop left it.
  abbrev pub Placed : Bool → Bool → Dirs T → Type 0
  Placed true m d = (m ≡ true → d.old q ≡ was)
  Placed false m d = Away m d

  failed-Placed :
      (b m : Bool) (left : Option ℕ) (d : Dirs T)
      → Placed b m d
      → Placed b m (record d { fails_after = left })
  failed-Placed true m left d h = h
  failed-Placed false m left d h = failed-Away m left d h

  move_in-Placed :
      (name : Str) (placed : List Str) (m : Bool) (left : Option ℕ) (d : Dirs T)
      → Placed (listed q placed) m d
      → Placed (listed q (placed ++ name ∷ [])) m (move_in name left d)
  move_in-Placed name placed m left d h =
      subst (λ b. Placed b m (move_in name left d)) (sym (listed-append q name placed))
        (go (listed q placed) (str_eq q name) m refl h)
    where
      kept_old : (m : Bool) → Away m d → m ≡ true → d.old q ≡ was
      kept_old true h e = h.1
      kept_old false h e = cc

      go :
          (p b m : Bool)
          → str_eq q name ≡ b
          → Placed p m d
          → Placed (p || b) m (move_in name left d)
      go true b m e h = h
      go false true m e h = kept_old m h
      go false false true e h = (ap (λ b. if b then d.new name else d.bundle q) e ∙ h.0, h.1)
      go false false false e h = ap (λ b. if b then d.new name else d.bundle q) e ∙ h

  pub into-Placed :
      (names placed : List Str) (m : Bool) (d : Dirs T)
      → Placed (listed q placed) m d
      → let r = into names placed d in Placed (listed q (r.0.0)) m (r.1)
  unfolding into
  into-Placed [] placed m d h = h
  into-Placed (name ∷ names) placed m d h =
      let left = (next_from d.fails_after).1 in
      either {A = (List Str × Bool) × Dirs T} (λ r. Placed (listed q (r.0.0)) m (r.1))
        ((next_from d.fails_after).0) _ _
        (into-Placed names (placed ++ name ∷ []) m (move_in name left d)
          (move_in-Placed name placed m left d h))
        (failed-Placed (listed q placed) m left d h)

  -- A name that is to be moved is gone once the first loop has ended.
  move_out-Gone :
      (name : Str) (left : Option ℕ) (d : Dirs T)
      → d.bundle q ≡ none
      → (move_out name left d).bundle q ≡ none
  move_out-Gone name left d h = either (λ o. o ≡ none) (str_eq q name) none (d.bundle q) refl h

  pub out_of-Gone :
      (names moved : List Str) (d : Dirs T)
      → (listed q names ≡ true) ⊎ (d.bundle q ≡ none)
      → let r = out_of names moved d in r.0.1 ≡ true → (r.1).bundle q ≡ none
  unfolding out_of
  out_of-Gone [] moved d (inl h) = λ e. cc
  out_of-Gone [] moved d (inr h) = λ e. h
  out_of-Gone (name ∷ names) moved d h =
      let left = (next_from d.fails_after).1 in
      picked_both (is_some (d.bundle name)) ((next_from d.fails_after).0) _ _ _
        (λ there.
          out_of-Gone names (moved ++ name ∷ []) (move_out name left d)
            (still (str_eq q name) refl left h))
        (λ e. cc) (λ absent. out_of-Gone names moved d (either_way (str_eq q name) refl absent h))
    where
      picked_both :
          (b c : Bool) (x y z : (List Str × Bool) × Dirs T)
          → (b ≡ true → x.0.1 ≡ true → (x.1).bundle q ≡ none)
          → (y.0.1 ≡ true → (y.1).bundle q ≡ none)
          → (b ≡ false → z.0.1 ≡ true → (z.1).bundle q ≡ none)
          → let r = (if b then (if c then x else y) else z) in r.0.1 ≡ true → (r.1).bundle q ≡ none
      picked_both true true x y z h k l = h refl
      picked_both true false x y z h k l = k
      picked_both false c x y z h k l = l refl

      still :
          (b : Bool)
          → str_eq q name ≡ b
          → (left : Option ℕ) → (b || listed q names ≡ true) ⊎ (d.bundle q ≡ none)
          → (listed q names ≡ true) ⊎ ((move_out name left d).bundle q ≡ none)
      still true e left h = inr (ap (λ b. if b then none else d.bundle q) e)
      still false e left (inl h) = inl h
      still false e left (inr h) = inr (move_out-Gone name left d h)

      empty : (o : Option T) → is_some o ≡ false → o ≡ none
      empty none e = refl
      empty (some x) e = cc

      either_way :
          (b : Bool)
          → str_eq q name ≡ b
          → is_some (d.bundle name) ≡ false
          → (b || listed q names ≡ true) ⊎ (d.bundle q ≡ none)
          → (listed q names ≡ true) ⊎ (d.bundle q ≡ none)
      either_way true e absent h =
          inr (ap d.bundle ((str_eq_iff q name).0 e) ∙ empty (d.bundle name) absent)
      either_way false e absent h = h

  -- What is placed is among the entries.
  pub into-listed :
      (names placed : List Str) (d : Dirs T)
      → listed q (into names placed d).0.0 ≡ true
      → (listed q placed ≡ true) ⊎ (listed q names ≡ true)
  unfolding into
  into-listed [] placed d h = inl h
  into-listed (name ∷ names) placed d h =
      go ((next_from d.fails_after).0)
        (into-listed names (placed ++ name ∷ []) (move_in name ((next_from d.fails_after).1) d)) h
    where
      split : (p b l : Bool) → (p || b ≡ true) ⊎ (l ≡ true) → (p ≡ true) ⊎ (b || l ≡ true)
      split true b l h = inl refl
      split false true l h = inr refl
      split false false l (inl h) = cc
      split false false l (inr h) = inr h

      go :
          (c : Bool)
          → (listed q
                  (into names
                    (placed ++ name ∷ [])
                    (move_in name ((next_from d.fails_after).1) d)).0.0
                ≡ true
              → (listed q (placed ++ name ∷ []) ≡ true) ⊎ (listed q names ≡ true))
          → listed q (
              (if c
                then into names (placed ++ name ∷ []) (move_in name ((next_from d.fails_after).1) d)
                else ((placed, false), record d { fails_after = (next_from d.fails_after).1 })).0.0)
            ≡ true
          → (listed q placed ≡ true) ⊎ (str_eq q name || listed q names ≡ true)
      go true rec h =
          split (listed q placed) (str_eq q name) (listed q names) (
            subst (λ b. (b ≡ true) ⊎ (listed q names ≡ true)) (listed-append q name placed) (rec h))
      go false rec h = inl h

  pub remove_placed_lem :
      (placed : List Str) (d : Dirs T)
      → ((remove_placed placed d).bundle q ≡ (if listed q placed then none else d.bundle q))
        × ((remove_placed placed d).old q ≡ d.old q)
  unfolding remove_placed
  remove_placed_lem [] d = (refl, refl)
  remove_placed_lem (name ∷ names) d =
      let (e, h) = remove_placed_lem names (record d { bundle = set name none d.bundle }) in
      (e ∙ nested (listed q names) (str_eq q name), h)
    where
      nested :
          (l b : Bool)
          → (if l then none else (if b then none else d.bundle q))
            ≡ (if b || l then none else d.bundle q)
      nested true true = refl
      nested true false = refl
      nested false true = refl
      nested false false = refl
