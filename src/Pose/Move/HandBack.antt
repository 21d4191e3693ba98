-- ===== src/Pose/Move/HandBack.antt =====
-- src/fm_robot_agent/pose_move.py: `_hand_back` and `_recover`, from any point of a move.
use fm_robot_agent.Prelude.{
  ◌≡◌, refl, ◌∙◌, ap, ◌⊎◌, inl, inr, Bool, true, false, Option, some, List, [], ◌∷◌, codes,
}
use fm_robot_agent.Text.{Str}
use fm_robot_agent.Dict.{Dict}
use fm_robot_agent.Pose.Controllers.{joints_of}
use fm_robot_agent.Pose.Move.{
  exception, returned, raised, over, back, Reply, measured, readied, switched, sent, waited,
  cancelled, seeded, Log, Numbers, Robot, M, pure, on_exception, at_keys,
}
use fm_robot_agent.Pose.Move.Ends.{
  Ends, on_return, chain, rescued, weaken, answered, answered_as, raised_as,
}
use fm_robot_agent.Pose.Move.Reads.{Same, at_keys-Ends}
use fm_robot_agent.Pose.Move.Steps.{
  arms, measure, switch, seed, cancel, recover, seed_arms, give_back, settle, hand_back, or_known,
}

-- Since the last goal was sent to an arm, the forward controllers have been asked for.
abbrev pub quiet : {F : Type 0} → Log F → Bool
quiet [] = true
quiet (measured t ∷ l) = quiet l
quiet (readied t ∷ l) = quiet l
quiet (switched over r ∷ l) = quiet l
quiet (switched back r ∷ l) = true
quiet (sent side ps t ∷ l) = false
quiet (waited t ∷ l) = quiet l
quiet (cancelled ∷ l) = quiet l
quiet (seeded side ps ∷ l) = quiet l

-- The last calls: the forward controllers switched on, and both arms seeded.
abbrev pub HandedBack : {F : Type 0} → Log F → Type 0
HandedBack {F} l =
    (left_arm : List F) × (right_arm : List F) × (rest : Log F) × (l
      ≡ seeded (codes "r") right_arm
        ∷ seeded (codes "l") left_arm
        ∷ switched back (returned true)
        ∷ rest)

abbrev pub Quiet : {F : Type 0} → Log F → Type 0
Quiet l = quiet l ≡ true

-- The arms have been asked back, and are handed back where `b` says so.
abbrev pub Given : {F : Type 0} → Bool → Log F → Type 0
Given {F} b l = Quiet l × (b ≡ true → (rest : Log F) × (l ≡ switched back (returned true) ∷ rest))

-- A reply of `_hand_back`.
abbrev pub Handed : {F : Type 0} → Reply F → Log F → Type 0
Handed reply l = Quiet l × (reply.handed_back ≡ some true → HandedBack l)

module _ {F : Type 0} where
  -- A call that leaves the log as it was leaves it quiet.
  pub held :
      {A : Type 0} (m : M F A) (l : Log F)
      → Quiet l
      → Ends (λ _. Same l) (Same l) (Same l) (m l)
      → Ends (λ _. Same l) Quiet Quiet (m l)
  held m l q h = weaken (m l) h (λ _ _ e. e) (λ _ e. ap quiet e ∙ q) (λ _ e. ap quiet e ∙ q)

  handed_back_quiet : {l : Log F} → HandedBack l → Quiet l
  handed_back_quiet (left_arm, right_arm, rest, e) = ap quiet e

module _ (numbers : Numbers) (robot : Robot numbers.F)
    (measure_returns : (l : Log numbers.F)
      → (r : Option (Dict numbers.F)) × (robot.measure l ≡ returned r))
    (cancel_ends : (l : Log numbers.F)
      → (robot.cancel l ≡ returned tt)
        ⊎ ((e : Str) × (robot.cancel l ≡ raised (exception e)))) where
  open numbers use {F}

  give_back-Given :
      (last_known : Dict F) (l : Log F)
      → Ends (λ given. Given given.0) Quiet Quiet (give_back numbers robot last_known l)
  unfolding give_back measure switch
  give_back-Given last_known l =
      let (now, e) = measure_returns l in
      chain (measure numbers robot (numbers.number 2)) _ l
        (answered_as {P = λ _ _. Unit {0}} {Q = Quiet} {R = Quiet} (robot.measure l) now _ e tt)
        (λ now l' _.
          chain (switch numbers robot back) (λ b. pure (b, or_known now last_known)) l'
            (answered {P = Given} (robot.switch back l') _
              (λ b e'.
                (refl, λ is_true. (l', ap (λ r. switched back r ∷ l') (e' ∙ ap returned is_true))))
              refl refl)
            (λ b l'' given. on_return (b, or_known now last_known) l'' given))

  seed_arms-HandedBack :
      (now : Dict F) (l : Log F)
      → Given true l
      → Ends (λ _. HandedBack) Quiet Quiet (seed_arms numbers robot now arms l)
  unfolding seed_arms seed
  seed_arms-HandedBack now l (q, switched_back) =
      let (rest, switched_l) = switched_back refl in
      chain (at_keys now (joints_of (codes "l"))) _ l
        (held (at_keys now (joints_of (codes "l"))) l q (at_keys-Ends now _ l))
        (λ left_arm l1 e1.
          chain (seed numbers robot (codes "l") left_arm) _ l1
            (answered {P = λ _ l'. l' ≡ seeded (codes "l") left_arm ∷ l} (robot.seed l1) _
              (λ _ _. ap (λ k. seeded (codes "l") left_arm ∷ k) e1) (ap quiet e1 ∙ q)
              (ap quiet e1 ∙ q))
            (λ _ l2 e2.
              chain (at_keys now (joints_of (codes "r"))) _ l2
                (held (at_keys now (joints_of (codes "r"))) l2 (ap quiet e2 ∙ q)
                  (at_keys-Ends now _ l2))
                (λ right_arm l3 e3.
                  chain (seed numbers robot (codes "r") right_arm) _ l3
                    (answered
                      {P = λ _ l'.
                        l' ≡ seeded (codes "r") right_arm ∷ seeded (codes "l") left_arm ∷ l}
                      (robot.seed l3) _
                      (λ _ _. ap (λ k. seeded (codes "r") right_arm ∷ k) (e3 ∙ e2))
                      (ap quiet (e3 ∙ e2) ∙ q) (ap quiet (e3 ∙ e2) ∙ q))
                    (λ _ l4 e4. on_return tt l4 (
                      left_arm,
                      right_arm,
                      rest,
                      e4
                          ∙ ap (λ k. seeded (codes "r") right_arm ∷ seeded (codes "l") left_arm ∷ k)
                              switched_l,
                    )))))

  settle-Handed :
      (why : Str) (given : Bool × Dict F) (l : Log F)
      → Given given.0 l
      → Ends Handed Quiet Quiet (settle numbers robot why given l)
  unfolding settle
  settle-Handed why (false, now) l (q, _) = on_return _ l (q, λ e. cc)
  settle-Handed why (true, now) l g =
      chain (seed_arms numbers robot now arms) _ l (seed_arms-HandedBack now l g)
        (λ _ l' h. on_return _ l' (handed_back_quiet h, λ _. h))

  pub hand_back-Handed :
      (last_known : Dict F) (why : Str) (l : Log F)
      → Ends Handed Quiet Quiet (hand_back numbers robot last_known why l)
  unfolding hand_back
  hand_back-Handed last_known why l =
      chain (on_exception (give_back numbers robot last_known) (λ e. pure (false, last_known))) _ l
        (rescued (give_back numbers robot last_known) _ l (give_back-Given last_known l)
          (λ e l' q. on_return (false, last_known) l' (q, λ is_true. cc)))
        (λ given l' g. settle-Handed why given l' g)

  pub recover-Ends : (l : Log F) → Ends (λ _ _. Unit {0}) Quiet Quiet (recover numbers robot l)
  unfolding recover cancel
  recover-Ends l =
      rescued (cancel numbers robot) (λ e. pure tt) l
        (elim (cancel_ends l)
          as (λ _. Ends (λ _ _. Unit {0}) (λ _. Unit {0}) Quiet (cancel numbers robot l)) [
            | inl e ↦
                answered_as {P = λ _ _. Unit {0}} {Q = λ _. Unit {0}} (robot.cancel l) tt _ e tt
            | inr (e, h) ↦
                raised_as {P = λ _ _. Unit {0}} {Q = λ _. Unit {0}} (robot.cancel l) e _ h tt
          ])
        (λ e l' _. on_return tt l' tt)
