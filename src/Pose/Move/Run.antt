-- ===== src/Pose/Move/Run.antt =====
-- src/fm_robot_agent/pose_move.py: `Mover.run` and `Mover._move`. The codes in one message are left
-- out.
use fm_robot_agent.Prelude.{
  ℕ, Bool, true, false, not, Option, none, some, List, [], ◌∷◌, ◌++◌, codes, some_of, ◌==◌,
  if◌then◌else◌,
}
use fm_robot_agent.Text.{Str}
use fm_robot_agent.Dict.{Dict, get}
use fm_robot_agent.Pose.Controllers.{joints_of}
use fm_robot_agent.Pose.Move.{
  Stop, exception, interrupt, over, Goal, Reply, Numbers, Robot, M, pure, raise, ◌>>=◌, ◌>>◌,
  on_any, at_key,
}
use fm_robot_agent.Pose.Move.Steps.{
  arms, or_else, or_known, measure, servers_ready, switch, send, wait, left, plan, offsets, largest,
  plain, recover, hand_back,
}

module _ (numbers : Numbers) (robot : Robot numbers.F) where
  open numbers use {F, number, infinity, minus, plus, over_by, absolute, lt, round1, fixed0, fixed1}

  -- `[targets.get(n, measured[n]) for n in …]`
  unfoldable pub waypoint : Dict F → Dict F → List Str → M F (List F)
  waypoint targets readings [] = pure []
  waypoint targets readings (name ∷ names) = do
    reading ← at_key readings name
    rest ← waypoint targets readings names
    pure (or_else (get name targets) reading ∷ rest)

  abbrev going_on : Bool → M F Bool → M F Bool
  going_on true rest = rest
  going_on false rest = pure false

  -- `all(self.c.send(…) for side in ARMS)`, which stops at the first refusal.
  unfoldable pub send_arms : Dict F → Dict F → F → List Str → M F Bool
  send_arms targets readings duration [] = pure true
  send_arms targets readings duration (side ∷ sides) = do
    positions ← waypoint targets readings (joints_of side)
    accepted ← send numbers robot side positions duration
    going_on accepted (send_arms targets readings duration sides)

  abbrev pub waiting : F → F → Bool → M F (Option (List ℕ))
  waiting end_s duration false = pure none
  waiting end_s duration true = do
    time ← left numbers robot end_s (plus duration (number 10))
    wait numbers robot time

  abbrev pub failed_code : Option (List ℕ) → Bool
  failed_code none = true
  failed_code (some results) = some_of (λ c. not (c == 0)) results

  abbrev pub why_failed : Bool → Option (List ℕ) → Str
  why_failed false results = codes "a controller refused the move"
  why_failed true none = codes "the move did not finish in time"
  why_failed true (some results) = codes "a controller reported an error"

  abbrev moved : F → Str
  moved duration = codes "moved in " ++ fixed1 duration ++ codes " s"

  abbrev handed : Reply F → Bool
  handed reply = or_else reply.handed_back false

  -- The reply to a move that reached its targets, by whether the arms are to be handed back.
  unfoldable pub arrive : Bool → Dict F → Dict F → F → M F (Reply F)
  arrive false after off duration =
      pure (record (plain numbers robot true (moved duration ++ codes "; holding")) {
        duration_s = some (round1 duration);
        error_rad = some off;
        handed_back = some false;
      })
  arrive true after off duration = do
    given ← hand_back numbers robot after []
    pure (record given {
      ok = handed given;
      duration_s = some (round1 duration);
      error_rad = some off;
      message = moved duration ++ (if handed given then [] else codes "; " ++ given.message);
    })

  abbrev pub sizes : Dict F → List F
  sizes [] = []
  sizes ((name, off) ∷ offs) = absolute off ∷ sizes offs

  unfoldable pub judge : Bool → Goal F → Dict F → Dict F → F → M F (Reply F)
  judge false goal after off duration = arrive goal.hand_back after off duration
  judge true goal after off duration = do
    given ← hand_back numbers robot after (codes "a joint stopped short of its target")
    pure (record given { ok = false; error_rad = some off })

  -- `_move` where both arms have finished.
  unfoldable pub finish : Goal F → Dict F → F → M F (Reply F)
  finish goal readings duration = do
    now ← measure numbers robot (number 2)
    off ←
        offsets numbers robot (λ target reading. minus reading target) goal.targets
          (or_known now readings)
    worst ← largest numbers robot (sizes off)
    judge (lt (over_by (number 5) (number 100)) worst) goal (or_known now readings) off duration

  -- `_move` once the arms have answered, by whether the move failed.
  unfoldable pub conclude : Bool → Str → Goal F → Dict F → F → M F (Reply F)
  conclude true why goal readings duration = do
    recover numbers robot
    hand_back numbers robot readings why
  conclude false why goal readings duration = finish goal readings duration

  -- `_move`
  unfoldable pub move : F → Goal F → Dict F → F → M F (Reply F)
  move end_s goal readings duration = do
    accepted ← send_arms goal.targets readings duration arms
    results ← waiting end_s duration accepted
    conclude (failed_code results) (why_failed accepted results) goal readings duration

  -- The `try` block of `run`, by whether the controllers switched.
  unfoldable pub try_move : Bool → F → Goal F → Dict F → F → M F (Reply F)
  try_move false end_s goal readings duration = pure (
      plain numbers robot false
        (codes "the trajectory controllers could not be switched on; nothing moved"))
  try_move true end_s goal readings duration = move end_s goal readings duration

  -- Its handler: an interrupt goes on after the arms have been handed back.
  abbrev pub reraise : Stop → Reply F → M F (Reply F)
  reraise (exception e) given = pure (record given { ok = false })
  reraise (interrupt e) given = raise (interrupt e)

  abbrev stop_name : Stop → Str
  stop_name (exception e) = e
  stop_name (interrupt e) = e

  unfoldable pub rescue_arms : Dict F → Stop → M F (Reply F)
  rescue_arms readings stop = do
    recover numbers robot
    given ←
        hand_back numbers robot readings (codes "the move failed (" ++ stop_name stop ++ codes ")")
    reraise stop given

  unfoldable pub switch_and_move : F → Goal F → Dict F → F → M F (Reply F)
  switch_and_move end_s goal readings duration =
      on_any
        (do
          switched_over ← switch numbers robot over
          try_move switched_over end_s goal readings duration)
        (rescue_arms readings)

  unfoldable pub when_ready : Bool → F → Goal F → Dict F → F → M F (Reply F)
  when_ready false end_s goal readings duration =
      pure (
        plain numbers robot false
          (codes "the trajectory controllers did not answer; nothing moved"))
  when_ready true end_s goal readings duration = switch_and_move end_s goal readings duration

  unfoldable pub in_time : Bool → F → Goal F → Dict F → F → M F (Reply F)
  in_time false end_s goal readings duration = pure (
      plain numbers robot false (
        codes "the move would take "
        ++ fixed0 duration
        ++ codes " s, past its deadline; nothing moved"))
  in_time true end_s goal readings duration = do
    time ← left numbers robot end_s (number 5)
    ready ← servers_ready numbers robot time
    when_ready ready end_s goal readings duration

  unfoldable pub plan_or_move : Bool → F → Goal F → Dict F → F → M F (Reply F)
  plan_or_move true end_s goal readings duration = do
    moves ← offsets numbers robot minus goal.targets readings
    pure
        (record (plain numbers robot true
          (codes "would move for " ++ fixed1 duration ++ codes " s")) {
            duration_s = some (round1 duration);
            moves = some moves;
          })
  plan_or_move false end_s goal readings duration = do
    budget ← left numbers robot end_s infinity
    in_time (not (lt budget (plus duration (number 10)))) end_s goal readings duration

  unfoldable pub with_readings : Option (Dict F) → F → Goal F → M F (Reply F)
  with_readings none end_s goal =
      pure (plain numbers robot false (codes "no joint states from both arms; nothing moved"))
  with_readings (some readings) end_s goal = do
    duration ←
        plan numbers robot goal.targets readings
          (or_else goal.max_speed (over_by (number 1) (number 4))) (or_else goal.min_s (number 6))
    plan_or_move goal.plan_only end_s goal readings duration

  unfoldable pub run : Goal F → M F (Reply F)
  run goal l =
      let end_s = plus (robot.clock l) (or_else goal.deadline_s (number 60)) in
      (do
        time ← left numbers robot end_s (number 5)
        readings ← measure numbers robot time
        with_readings readings end_s goal)
        l
