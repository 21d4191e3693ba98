-- ===== src/Pose/Move/Safety.antt =====
-- src/fm_robot_agent/pose_move.py: after a move the arms are held on purpose, or have been given back
-- or were never moved.
use fm_robot_agent.Prelude.{
  ◌≡◌, refl, ◌∙◌, ap, ◌⊎◌, inl, inr, Bool, true, false, Option, none, some, [], codes,
}
use fm_robot_agent.Text.{Str}
use fm_robot_agent.Dict.{Dict}
use fm_robot_agent.Pose.Move.{
  Stop, exception, interrupt, returned, raised, over, Goal, Reply, Log, Numbers, Robot, pure, ◌>>=◌,
}
use fm_robot_agent.Pose.Move.Ends.{
  Ends, on_return, on_interrupt, chain, caught, weaken, answered, anything,
}
use fm_robot_agent.Pose.Move.Reads.{offsets-Ends, plan-Ends}
use fm_robot_agent.Pose.Move.Steps.{
  arms, measure, switch, recover, hand_back, or_known, offsets, largest, left, plan, plain,
  servers_ready,
}
use fm_robot_agent.Pose.Move.Run.{
  send_arms, waiting, failed_code, why_failed, sizes, arrive, judge, finish, conclude, move,
  try_move, rescue_arms, reraise, switch_and_move, when_ready, in_time, plan_or_move, with_readings,
  run,
}
use fm_robot_agent.Pose.Move.HandBack.{
  quiet, HandedBack, Quiet, Handed, held, hand_back-Handed, recover-Ends,
}

-- A reply after a move, and the calls made until then.
pub record Settled {F : Type 0} (reply : Reply F) (l : Log F) : Type 0 where
  pub held_or_back : ((reply.ok ≡ true) × (reply.handed_back ≡ some false)) ⊎ (quiet l ≡ true)
  pub really_back : reply.handed_back ≡ some true → HandedBack l

module _ (numbers : Numbers) (robot : Robot numbers.F)
    (measure_returns : (l : Log numbers.F)
      → (r : Option (Dict numbers.F)) × (robot.measure l ≡ returned r))
    (cancel_ends : (l : Log numbers.F)
      → (robot.cancel l ≡ returned tt)
        ⊎ ((e : Str) × (robot.cancel l ≡ raised (exception e)))) where
  open numbers use {F}

  abbrev Any : Log F → Type 0
  Any l = Unit {0}

  arrive-Settled :
      (back_after : Bool) (after off : Dict F) (duration : F) (l : Log F)
      → Ends Settled Any Any (arrive numbers robot back_after after off duration l)
  unfolding arrive
  arrive-Settled false after off duration l =
      on_return _ l (record { held_or_back = inl (refl, refl); really_back = λ e. cc })
  arrive-Settled true after off duration l =
      chain (hand_back numbers robot after []) _ l
        (weaken _ (hand_back-Handed numbers robot measure_returns cancel_ends after [] l)
          (λ _ _ h. h) (λ _ _. tt) (λ _ _. tt))
        (λ given l' h. on_return _ l' (record { held_or_back = inr (h.0); really_back = h.1 }))

  judge-Settled :
      (short : Bool) (goal : Goal F) (after off : Dict F) (duration : F) (l : Log F)
      → Ends Settled Any Any (judge numbers robot short goal after off duration l)
  unfolding judge
  judge-Settled false goal after off duration l = arrive-Settled goal.hand_back after off duration l
  judge-Settled true goal after off duration l =
      chain (hand_back numbers robot after (codes "a joint stopped short of its target")) _ l
        (weaken _ (hand_back-Handed numbers robot measure_returns cancel_ends after _ l)
          (λ _ _ h. h) (λ _ _. tt) (λ _ _. tt))
        (λ given l' h. on_return _ l' (record { held_or_back = inr (h.0); really_back = h.1 }))

  finish-Settled :
      (goal : Goal F) (readings : Dict F) (duration : F) (l : Log F)
      → Ends Settled Any Any (finish numbers robot goal readings duration l)
  unfolding finish
  finish-Settled goal readings duration l =
      chain (measure numbers robot (numbers.number 2)) _ l (anything _) (λ now l1 _.
        chain (offsets numbers robot _ goal.targets (or_known now readings)) _ l1 (anything _)
          (λ off l2 _.
            chain (largest numbers robot (sizes numbers robot off)) _ l2 (anything _)
              (λ worst l3 _. judge-Settled _ goal _ off duration l3)))

  conclude-Settled :
      (failed : Bool) (why : Str) (goal : Goal F) (readings : Dict F) (duration : F) (l : Log F)
      → Ends Settled Any Any (conclude numbers robot failed why goal readings duration l)
  unfolding conclude
  conclude-Settled true why goal readings duration l =
      chain (recover numbers robot) _ l (anything _) (λ _ l' _.
        weaken _ (hand_back-Handed numbers robot measure_returns cancel_ends readings why l')
          (λ given _ h. record { held_or_back = inr (h.0); really_back = h.1 }) (λ _ _. tt)
          (λ _ _. tt))
  conclude-Settled false why goal readings duration l = finish-Settled goal readings duration l

  move-Settled :
      (end_s : F) (goal : Goal F) (readings : Dict F) (duration : F) (l : Log F)
      → Ends Settled Any Any (move numbers robot end_s goal readings duration l)
  unfolding move
  move-Settled end_s goal readings duration l =
      chain (send_arms numbers robot goal.targets readings duration arms) _ l (anything _)
        (λ accepted l1 _.
          chain (waiting numbers robot end_s duration accepted) _ l1 (anything _) (λ results l2 _.
            conclude-Settled (failed_code numbers robot results)
              (why_failed numbers robot accepted results) goal readings duration l2))

  rescue_arms-Settled :
      (readings : Dict F) (stop : Stop) (l : Log F)
      → Ends Settled Quiet Quiet (rescue_arms numbers robot readings stop l)
  unfolding rescue_arms
  rescue_arms-Settled readings stop l =
      chain (recover numbers robot) _ l (recover-Ends numbers robot measure_returns cancel_ends l)
        (λ _ l1 _.
          chain (hand_back numbers robot readings _) _ l1
            (hand_back-Handed numbers robot measure_returns cancel_ends readings _ l1)
            (λ given l2 h. reraised stop given l2 h))
    where
      reraised :
          (stop : Stop) (given : Reply F) (l : Log F)
          → Handed given l
          → Ends Settled Quiet Quiet (reraise numbers robot stop given l)
      reraised (exception e) given l h =
          on_return _ l (record { held_or_back = inr (h.0); really_back = h.1 })
      reraised (interrupt e) given l h = on_interrupt e l (h.0)

  -- A reply before any move.
  unmoved :
      {Q R : Log F → Type 0} (message : Str) (l : Log F)
      → Quiet l
      → Ends Settled Q R (pure (plain numbers robot false message) l)
  unmoved message l q = on_return _ l (record { held_or_back = inr q; really_back = λ h. cc })

  try_move-Settled :
      (b : Bool) (end_s : F) (goal : Goal F) (readings : Dict F) (duration : F) (l : Log F)
      → Quiet l
      → Ends Settled Any Any (try_move numbers robot b end_s goal readings duration l)
  unfolding try_move
  try_move-Settled false end_s goal readings duration l q = unmoved _ l q
  try_move-Settled true end_s goal readings duration l q =
      move-Settled end_s goal readings duration l

  switch_and_move-Settled :
      (end_s : F) (goal : Goal F) (readings : Dict F) (duration : F) (l : Log F)
      → Quiet l
      → Ends Settled Quiet Quiet (switch_and_move numbers robot end_s goal readings duration l)
  unfolding switch_and_move switch
  switch_and_move-Settled end_s goal readings duration l q =
      caught {Q = Any} {R = Any}
        (do
          switched_over ← switch numbers robot over
          try_move numbers robot switched_over end_s goal readings duration)
        (rescue_arms numbers robot readings) l
        (chain (switch numbers robot over) _ l
          (answered {P = λ _. Quiet} {Q = Any} {R = Any} (robot.switch over l) _ (λ _ _. q) tt tt)
          (λ b l' q'. try_move-Settled b end_s goal readings duration l' q'))
        (λ stop l'. rescue_arms-Settled readings stop l')

  when_ready-Settled :
      (ready : Bool) (end_s : F) (goal : Goal F) (readings : Dict F) (duration : F) (l : Log F)
      → Quiet l
      → Ends Settled Quiet Quiet (when_ready numbers robot ready end_s goal readings duration l)
  unfolding when_ready
  when_ready-Settled false end_s goal readings duration l q = unmoved _ l q
  when_ready-Settled true end_s goal readings duration l q =
      switch_and_move-Settled end_s goal readings duration l q

  in_time-Settled :
      (b : Bool) (end_s : F) (goal : Goal F) (readings : Dict F) (duration : F) (l : Log F)
      → Quiet l
      → Ends Settled Quiet Quiet (in_time numbers robot b end_s goal readings duration l)
  unfolding in_time left servers_ready
  in_time-Settled false end_s goal readings duration l q = unmoved _ l q
  in_time-Settled true end_s goal readings duration l q =
      chain (servers_ready numbers robot _) _ l
        (answered {P = λ _. Quiet} (robot.servers_ready l) _ (λ _ _. q) q q)
        (λ ready l' q'. when_ready-Settled ready end_s goal readings duration l' q')

  plan_or_move-Settled :
      (only : Bool) (end_s : F) (goal : Goal F) (readings : Dict F) (duration : F) (l : Log F)
      → Quiet l
      → Ends Settled Quiet Quiet (plan_or_move numbers robot only end_s goal readings duration l)
  unfolding plan_or_move left
  plan_or_move-Settled true end_s goal readings duration l q =
      chain (offsets numbers robot _ goal.targets readings) _ l
        (held (offsets numbers robot numbers.minus goal.targets readings) l q
          (offsets-Ends numbers robot numbers.minus goal.targets readings l))
        (λ moves l' e.
          on_return _ l' (record { held_or_back = inr (ap quiet e ∙ q); really_back = λ h. cc }))
  plan_or_move-Settled false end_s goal readings duration l q =
      in_time-Settled _ end_s goal readings duration l q

  with_readings-Settled :
      (readings : Option (Dict F)) (end_s : F) (goal : Goal F) (l : Log F)
      → Quiet l
      → Ends Settled Quiet Quiet (with_readings numbers robot readings end_s goal l)
  unfolding with_readings
  with_readings-Settled none end_s goal l q = unmoved _ l q
  with_readings-Settled (some readings) end_s goal l q =
      chain (plan numbers robot goal.targets readings _ _) _ l
        (held (plan numbers robot goal.targets readings _ _) l q
          (plan-Ends numbers robot goal.targets readings _ _ l))
        (λ duration l' e.
          plan_or_move-Settled goal.plan_only end_s goal readings duration l' (ap quiet e ∙ q))

  -- A move whose measurements raise nothing and whose cancelling is not interrupted ends as
  -- follows, from a log in which no goal has been sent since the last switch back: a reply says
  -- that the move succeeded and holds the arms, or no goal has been sent since the forward
  -- controllers were last asked for, and where it says that the arms were handed back its last
  -- calls were that switch, which succeeded, and one seed for each arm; where an exception or an
  -- interrupt escapes, no goal has been sent since the last switch back.
  pub run-Settled :
      (goal : Goal F) (l : Log F)
      → quiet l ≡ true
      → Ends Settled (λ l'. quiet l' ≡ true) (λ l'. quiet l' ≡ true) (run numbers robot goal l)
  unfolding run left measure
  run-Settled goal l q =
      chain (measure numbers robot _) _ l
        (answered {P = λ _. Quiet} (robot.measure l) _ (λ _ _. q) q q)
        (λ readings l' q'. with_readings-Settled readings _ goal l' q')
