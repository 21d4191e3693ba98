-- ===== src/Pose/Move/Reads.antt =====
-- src/fm_robot_agent/pose_move.py: the steps that ask nothing of the robot, and a call for a plan.
use fm_robot_agent.Prelude.{
  ◌≡◌, refl, sym, ◌∙◌, subst, Bool, true, false, Option, none, some, List, [], ◌∷◌,
}
use fm_robot_agent.Text.{Str}
use fm_robot_agent.Dict.{Dict, get}
use fm_robot_agent.Pose.Move.{
  Ending, Goal, measured, Log, Numbers, Robot, ◌>>=◌, at_key, at_keys, found,
}
use fm_robot_agent.Pose.Move.Ends.{Ends, on_return, on_raise, chain, weaken, answered, at_every_end}
use fm_robot_agent.Pose.Move.Steps.{
  measure, offsets, largest, left, plan, divided, divided_if, distances,
}
use fm_robot_agent.Pose.Move.Run.{plan_or_move, with_readings, run}

-- The log is as it was.
abbrev pub Same : {F : Type 0} → Log F → Log F → Type 0
Same l l' = l' ≡ l

module _ {F : Type 0} where
  found-Ends :
      {A : Type 0} (o : Option A) (l : Log F) → Ends (λ _. Same l) (Same l) (Same l) (found o l)
  found-Ends none l = on_raise _ l refl
  found-Ends (some a) l = on_return a l refl

  pub at_keys-Ends :
      (readings : Dict F) (names : List Str) (l : Log F)
      → Ends (λ _. Same l) (Same l) (Same l) (at_keys readings names l)
  unfolding at_keys at_key
  at_keys-Ends readings [] l = on_return [] l refl
  at_keys-Ends readings (name ∷ names) l =
      chain (at_key readings name) _ l (found-Ends (get name readings) l) (λ value l' e.
        chain (at_keys readings names) _ l'
          (weaken (at_keys readings names l') (at_keys-Ends readings names l') (λ _ _ h. h ∙ e)
            (λ _ h. h ∙ e) (λ _ h. h ∙ e))
          (λ values l'' h. on_return (value ∷ values) l'' h))

  pub same_as :
      {A : Type 0} (l' l : Log F)
      → l' ≡ l
      → (r : Ending A × Log F) → Ends (λ _. Same l') (Same l') (Same l') r
      → Ends (λ _. Same l) (Same l) (Same l) r
  same_as l' l e r h = weaken r h (λ _ _ e'. e' ∙ e) (λ _ e'. e' ∙ e) (λ _ e'. e' ∙ e)

module _ (numbers : Numbers) (robot : Robot numbers.F) where
  open numbers use {F}

  distances-Ends :
      (targets readings : Dict F) (l : Log F)
      → Ends (λ _. Same l) (Same l) (Same l) (distances numbers robot targets readings l)
  unfolding distances at_key
  distances-Ends [] readings l = on_return _ l refl
  distances-Ends ((name, target) ∷ targets) readings l =
      chain (at_key readings name) _ l (found-Ends (get name readings) l) (λ reading l1 e1.
        chain (distances numbers robot targets readings) _ l1
          (same_as l1 l e1 _ (distances-Ends targets readings l1))
          (λ rest l2 e2. on_return _ l2 e2))

  pub offsets-Ends :
      (turn : F → F → F) (targets readings : Dict F) (l : Log F)
      → Ends (λ _. Same l) (Same l) (Same l) (offsets numbers robot turn targets readings l)
  unfolding offsets at_key
  offsets-Ends turn [] readings l = on_return _ l refl
  offsets-Ends turn ((name, target) ∷ targets) readings l =
      chain (at_key readings name) _ l (found-Ends (get name readings) l) (λ reading l1 e1.
        chain (offsets numbers robot turn targets readings) _ l1
          (same_as l1 l e1 _ (offsets-Ends turn targets readings l1))
          (λ rest l2 e2. on_return _ l2 e2))

  largest-Ends :
      (xs : List F) (l : Log F) → Ends (λ _. Same l) (Same l) (Same l) (largest numbers robot xs l)
  unfolding largest
  largest-Ends [] l = on_raise _ l refl
  largest-Ends (x ∷ xs) l = on_return _ l refl

  divided_if-Ends :
      (zero : Bool) (a b : F) (l : Log F)
      → Ends (λ _. Same l) (Same l) (Same l) (divided_if numbers robot zero a b l)
  divided_if-Ends true a b l = on_raise _ l refl
  divided_if-Ends false a b l = on_return _ l refl

  pub plan-Ends :
      (targets readings : Dict F) (max_speed min_s : F) (l : Log F)
      → Ends (λ _. Same l) (Same l) (Same l) (plan numbers robot targets readings max_speed min_s l)
  unfolding plan
  plan-Ends targets readings max_speed min_s l =
      chain (distances numbers robot targets readings) _ l (distances-Ends targets readings l)
        (λ ds l1 e1.
          chain (largest numbers robot ds) _ l1 (same_as l1 l e1 _ (largest-Ends ds l1)) (λ d l2 e2.
            chain
              (divided numbers robot
                (numbers.times (numbers.over_by (numbers.number 3) (numbers.number 2)) d) max_speed)
              _ l2 (same_as l2 l e2 _ (divided_if-Ends (numbers.is_zero max_speed) _ max_speed l2))
              (λ time l3 e3. on_return _ l3 e3)))

  -- A call for a plan measures once, and asks nothing else of the robot.
  planned-Same :
      (readings : Option (Dict F)) (end_s : F) (goal : Goal F) (l : Log F)
      → goal.plan_only ≡ true
      → Ends (λ _. Same l) (Same l) (Same l) (with_readings numbers robot readings end_s goal l)
  unfolding with_readings plan_or_move
  planned-Same none end_s goal l p = on_return _ l refl
  planned-Same (some readings) end_s goal l p =
      chain (plan numbers robot goal.targets readings _ _) _ l
        (plan-Ends goal.targets readings _ _ l)
        (λ duration l1 e1.
          subst
            (λ b.
              Ends (λ _. Same l) (Same l) (Same l)
                (plan_or_move numbers robot b end_s goal readings duration l1))
            (sym p)
            (chain (offsets numbers robot numbers.minus goal.targets readings) _ l1
              (same_as l1 l e1 _ (offsets-Ends numbers.minus goal.targets readings l1))
              (λ moves l2 e2. on_return _ l2 e2)))

  one_measure :
      (t end_s : F) (goal : Goal F) (l : Log F)
      → goal.plan_only ≡ true
      → ((measure numbers robot t >>= λ readings. with_readings numbers robot readings end_s goal)
          l).1
        ≡ measured t ∷ l
  unfolding measure
  one_measure t end_s goal l p = at_every_end {Q = Same (measured t ∷ l)} _ (
      chain {P = λ _. Same (measured t ∷ l)} (measure numbers robot t) _ l
        (answered {P = λ _. Same (measured t ∷ l)} (robot.measure l) _ (λ _ _. refl) refl refl)
        (λ readings l1 e1. same_as l1 _ e1 _ (planned-Same readings end_s goal l1 p)))

  -- A run for a plan measures the joints once, and makes no other call on the robot, whatever the
  -- measurement answers.
  pub run-plan_only :
      (goal : Goal F) (l : Log F)
      → goal.plan_only ≡ true
      → (t : F) × ((run numbers robot goal l).1 ≡ measured t ∷ l)
  unfolding run left
  run-plan_only goal l p = (_, one_measure _ _ goal l p)
