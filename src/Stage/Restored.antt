-- ===== src/Stage/Restored.antt =====
-- src/fm_robot_agent/stage.py: a swap that fails has left the bundle as it was.
use fm_robot_agent.Prelude.{
  ◌≤◌, ◌≡◌, refl, sym, ap, ◌∙◌, subst, Bool, true, false, ◌&&◌, ◌||◌, none, List, [], ◌∷◌,
  if◌then◌else◌, every, arith, ◌⊎◌, inl, inr,
}
use fm_robot_agent.Text.{Str, str_eq, str_eq_iff}
use fm_robot_agent.Stage.{managed, Dirs, out_of, into, remove_placed, undo, swap_in, swap}
use fm_robot_agent.Stage.Atomic.{
  listed, Away, Placed, out_of-Away, out_of-Gone, into-Placed, into-listed, remove_placed_lem,
}
use fm_robot_agent.Stage.Once.{times, managed_once, none_yet, out_of_times, bring_back_lem}

-- An entry is one of those that are managed.
listed-managed :
    (q : Str) (entries : List Str)
    → every (λ e. listed e managed) entries ≡ true
    → listed q entries ≡ true
    → listed q managed ≡ true
listed-managed q [] h e = cc
listed-managed q (n ∷ entries) h e =
    go (str_eq q n) refl (listed-managed q entries (right (listed n managed) _ h))
      (left (listed n managed) _ h) e
  where
    left : (a b : Bool) → a && b ≡ true → a ≡ true
    left a b h = grind arith

    right : (a b : Bool) → a && b ≡ true → b ≡ true
    right a b h = grind arith

    go :
        (b : Bool)
        → str_eq q n ≡ b
        → (listed q entries ≡ true → listed q managed ≡ true)
        → listed n managed ≡ true
        → b || listed q entries ≡ true
        → listed q managed ≡ true
    go true e rest h k = subst (λ n. listed n managed ≡ true) (sym ((str_eq_iff q n).0 e)) h
    go false e rest h k = rest k

module _ {T : Type 0} (q : Str) (entries : List Str) (d : Dirs T) where
  undo_lem :
      (placed moved : List Str) (d' : Dirs T)
      → times q moved ≤ 1
      → Placed q (d.bundle q) (listed q placed) (listed q moved) d'
      → (listed q placed ≡ true → listed q moved ≡ false → d.bundle q ≡ none)
      → (undo placed moved d').bundle q ≡ d.bundle q
  unfolding undo
  undo_lem placed moved d' once h gone =
      let (e, o) = remove_placed_lem q none placed d' in
      bring_back_lem q moved (remove_placed placed d') once
      ∙ ap (λ x. if listed q moved then x else (remove_placed placed d').bundle q) o
      ∙ ap (λ x. if listed q moved then d'.old q else x) e
      ∙ go (listed q placed) (listed q moved) h gone
    where
      go :
          (p m : Bool)
          → Placed q (d.bundle q) p m d'
          → (p ≡ true → m ≡ false → d.bundle q ≡ none)
          → (if m then d'.old q else (if p then none else d'.bundle q)) ≡ d.bundle q
      go true true h gone = h refl
      go true false h gone = sym (gone refl refl)
      go false true h gone = h.1
      go false false h gone = h

  swapped :
      (moved : List Str) (ended : Bool) (d1 : Dirs T)
      → every (λ e. listed e managed) entries ≡ true
      → Away q (d.bundle q) (listed q moved) d1
      → times q moved ≤ 1
      → (ended ≡ true → listed q managed ≡ true → d1.bundle q ≡ none)
      → (swap_in entries ((moved, ended), d1)).0 ≡ false
      → (swap_in entries ((moved, ended), d1)).1.bundle q ≡ d.bundle q
  unfolding swap_in
  swapped moved false d1 known away once gone failed = undo_lem [] moved d1 once away (λ e. cc)
  swapped moved true d1 known away once gone failed =
      let (placed, _) = (into entries [] d1).0 in
      undone ((into entries [] d1).0.1) ((into entries [] d1).1)
        (undo placed moved ((into entries [] d1).1)) failed
        (undo_lem placed moved ((into entries [] d1).1) once
          (into-Placed q (d.bundle q) entries [] (listed q moved) d1 away)
          (λ p m.
            sym (subst (λ b. Away q (d.bundle q) b d1) m away)
            ∙ gone refl (among (into-listed q (d.bundle q) entries [] d1 p))))
    where
      among : (listed q [] ≡ true) ⊎ (listed q entries ≡ true) → listed q managed ≡ true
      among (inl e) = cc
      among (inr e) = listed-managed q entries known e

      undone :
          (b : Bool) (x y : Dirs T)
          → (if◌then◌else◌ {A = Bool × Dirs T} b (true, x) (false, y)).0 ≡ false
          → y.bundle q ≡ d.bundle q
          → (if◌then◌else◌ {A = Bool × Dirs T} b (true, x) (false, y)).1.bundle q ≡ d.bundle q
      undone true x y e h = cc
      undone false x y e h = h

  -- Where every new entry is one of those that staging manages, and no call after the first
  -- failing one fails, a swap that raises has left the bundle with what it held under every name.
  pub swap-restored :
      every (λ e. listed e managed) entries ≡ true
      → (swap entries d).0 ≡ false
      → (swap entries d).1.bundle q ≡ d.bundle q
  unfolding swap
  swap-restored known failed =
      let r = out_of managed [] d in
      swapped (r.0.0) (r.0.1) (r.1) known (out_of-Away q (d.bundle q) managed [] d refl)
        (omega (arith, out_of_times q managed [] d, none_yet q, managed_once q))
        (λ ended there. out_of-Gone q (d.bundle q) managed [] d (inl there) ended) failed
