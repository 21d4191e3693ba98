-- ===== src/Pose/Switching.antt =====
-- src/fm_robot_agent/pose_move.py: a switch that is said to have been made has been made.
use fm_robot_agent.Prelude.{
  and_split, and_true, ◌≡◌, refl, Bool, true, false, not, ◌&&◌, ◌||◌, Option, none, some, List, [],
  ◌∷◌, every, keep, arith, if◌then◌else◌,
}
use fm_robot_agent.Text.{Str}
use fm_robot_agent.Dict.{Dict}
use fm_robot_agent.Pose.Controllers.{
  is_active, switch_needed, is_empty, or_empty, Manager, confirm, switch_from, switch_controllers,
}

every_empty : (q : Str → Bool) (xs : List Str) → is_empty xs ≡ true → every q xs ≡ true
every_empty q [] h = refl
every_empty q (x ∷ xs) h = cc

-- What holds of those kept holds of all, where it holds of the others too.
every-keep :
    {A : Type 0} (p q r : A → Bool)
    → ((x : A) → p x ≡ false → r x ≡ true)
    → ((x : A) → q x ≡ true → r x ≡ true)
    → (xs : List A) → every q (keep p xs) ≡ true
    → every r xs ≡ true
every-keep p q r f g [] h = refl
every-keep {A} p q r f g (x ∷ xs) h = go (p x) refl (every-keep p q r f g xs) h
  where
    go :
        (b : Bool)
        → p x ≡ b
        → (every q (keep p xs) ≡ true → every r xs ≡ true)
        → every q (if b then x ∷ keep p xs else keep p xs) ≡ true
        → r x && every r xs ≡ true
    go true e rest h = let (hx, hxs) = and_split (q x) _ h in and_true (r x) _ (g x hx) (rest hxs)
    go false e rest h = and_true (r x) _ (f x e) (rest h)

-- Each controller was or now is as wanted.
abbrev pub Reached : Dict Str → Dict Str → List Str → List Str → Type 0
Reached before after activate deactivate =
    (every (λ c. is_active before c || is_active after c) activate ≡ true)
    × (every (λ c. not (is_active before c) || not (is_active after c)) deactivate ≡ true)

needed-Reached :
    (before after : Dict Str) (activate deactivate : List Str)
    → every (is_active after) (switch_needed before activate deactivate).0 ≡ true
    → every (λ c. not (is_active after c)) (switch_needed before activate deactivate).1 ≡ true
    → Reached before after activate deactivate
unfolding switch_needed
needed-Reached before after activate deactivate h k = (
  every-keep _ _ _ (λ c e. grind arith) (λ c e. grind arith) activate h,
  every-keep _ _ _ (λ c e. grind arith) (λ c e. grind arith) deactivate k,
)

module _ {S : Type 0} (manager : Manager S) where
  -- What the manager says once the switch has been requested.
  unfoldable pub states_after : Dict Str → List Str → List Str → S → Dict Str
  states_after before activate deactivate s =
      let (on, off) = switch_needed before activate deactivate in
      or_empty (manager.read_states (manager.request on off s).1).0

  confirm-true :
      (on off : List Str) (agreed : Bool) (s : S)
      → (confirm manager on off agreed s).0 ≡ true
      → let after = or_empty (manager.read_states s).0 in
        (every (is_active after) on ≡ true) × (every (λ c. not (is_active after c)) off ≡ true)
  unfolding confirm
  confirm-true on off false s h = cc
  confirm-true on off true s h = and_split _ _ h

  switch_from-Reached :
      (activate deactivate : List Str) (before : Dict Str) (s : S)
      → (switch_from manager activate deactivate (some before) s).0 ≡ true
      → Reached before (states_after before activate deactivate s) activate deactivate
  unfolding switch_from states_after
  switch_from-Reached activate deactivate before s h =
      let on = (switch_needed before activate deactivate).0 in
      let off = (switch_needed before activate deactivate).1 in
      let (hon, hoff) = go on off (manager.request on off s) (is_empty on && is_empty off) refl h in
      needed-Reached before _ activate deactivate hon hoff
    where
      go :
          (on off : List Str) (r : Bool × S) (b : Bool)
          → is_empty on && is_empty off ≡ b
          → (if b then (true, s) else confirm manager on off r.0 r.1).0 ≡ true
          → (every (is_active (or_empty (manager.read_states r.1).0)) on ≡ true)
            × (every (λ c. not (is_active (or_empty (manager.read_states r.1).0) c)) off ≡ true)
      go on off r true e h =
          let (h0, h1) = and_split (is_empty on) _ e in (every_empty _ on h0, every_empty _ off h1)
      go on off r false e h = confirm-true on off r.0 r.1 h

  -- Where `switch_controllers` answers that the switch is made, the states could be read, every
  -- controller to activate was active before it or is active in the states after the request, and
  -- every controller to deactivate was not active before or is not active after.
  pub switch_controllers-Reached :
      (activate deactivate : List Str) (s : S)
      → (switch_controllers manager activate deactivate s).0 ≡ true
      → (before : Dict Str) × ((manager.read_states s).0 ≡ some before)
        × Reached before
            (states_after before activate deactivate (manager.read_states s).1)
            activate
            deactivate
  unfolding switch_controllers switch_from
  switch_controllers-Reached activate deactivate s h = go (manager.read_states s).0 refl h
    where
      go :
          (o : Option (Dict Str))
          → (manager.read_states s).0 ≡ o
          → (switch_from manager activate deactivate o (manager.read_states s).1).0 ≡ true
          → (before : Dict Str) × ((manager.read_states s).0 ≡ some before)
            × Reached before
                (states_after before activate deactivate (manager.read_states s).1)
                activate
                deactivate
      go none e h = cc
      go (some before) e h = (before, e, switch_from-Reached activate deactivate before _ h)
