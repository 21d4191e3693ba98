-- ===== src/Tests/Pose.antt =====
-- Runs of a pose move and of a switch of controllers, on whole numbers.
use fm_robot_agent.Prelude.{
  ℕ, ◌+◌, ◌-◌, ◌*◌, ◌≡◌, refl, inl, Bool, true, false, Option, none, some, [], ◌∷◌, ◌++◌, codes,
  map, ltb, ◌==◌, if◌then◌else◌,
}
use fm_robot_agent.Text.{Str, str_eq}
use fm_robot_agent.Dict.{Dict, get}
use fm_robot_agent.Pose.Controllers.{
  joints_of, Manager, switch_controllers, switch_from, confirm, switch_needed,
}
use fm_robot_agent.Pose.Switching.{Reached, states_after, switch_controllers-Reached}
use fm_robot_agent.Pose.Move.{
  at_key, at_keys, Ending, returned, measured, Numbers, Robot, Goal, Reply,
}
use fm_robot_agent.Pose.Move.Ends.{Ends}
use fm_robot_agent.Pose.Move.Steps.{
  left, measure, plan, distances, largest, servers_ready, switch, send, wait, recover, cancel,
  hand_back, give_back, settle, seed_arms, seed,
}
use fm_robot_agent.Pose.Move.Run.{
  run, with_readings, plan_or_move, in_time, when_ready, switch_and_move, try_move, move, send_arms,
  waypoint, conclude,
}
use fm_robot_agent.Pose.Move.Reads.{run-plan_only}
use fm_robot_agent.Pose.Move.Safety.{Settled, run-Settled}
use fm_robot_agent.Pose.Move.HandBack.{quiet}

abbrev whole : Numbers
whole = record {
  F = ℕ;
  number = λ n. n;
  infinity = 1000000;
  minus = λ a b. a - b;
  plus = λ a b. a + b;
  times = λ a b. a * b;
  over_by = λ a b. a;
  absolute = λ a. a;
  lt = ltb;
  is_zero = λ a. a == 0;
  round1 = λ a. a;
  round4 = λ a. a;
  fixed0 = λ a. [];
  fixed1 = λ a. [];
}

abbrev all_at : ℕ → Dict ℕ
all_at n = map (λ name. (name, n)) (joints_of (codes "l") ++ joints_of (codes "r"))

abbrev steady : Robot ℕ
steady = record {
  clock = λ l. 0;
  measure = λ l. returned (some (all_at 1));
  servers_ready = λ l. returned true;
  switch = λ way l. returned true;
  send = λ l. returned true;
  wait = λ l. returned (some (0 ∷ 4 ∷ []));
  cancel = λ l. returned tt;
  seed = λ l. returned tt;
}

abbrev goal : Bool → Goal ℕ
goal only = record {
  targets = all_at 2;
  max_speed = some 1;
  min_s = some 6;
  deadline_s = some 60;
  hand_back = true;
  plan_only = only;
}

-- A controller reports an error, and the arms are handed back.
reply : Ending (Reply ℕ) → Option Bool
reply (returned r) = r.handed_back
reply _ = none

handed_back_after_error : reply (run whole steady (goal false) []).0 ≡ some true
unfolding run left measure with_readings plan distances at_key largest plan_or_move in_time
    servers_ready when_ready switch_and_move switch try_move move send_arms waypoint send wait
    conclude recover cancel hand_back give_back settle seed_arms at_keys seed reply joints_of get
    str_eq
handed_back_after_error = refl

run-Settled_example :
    Ends Settled (λ l. quiet l ≡ true) (λ l. quiet l ≡ true) (run whole steady (goal false) [])
run-Settled_example =
    run-Settled whole steady (λ l. (some (all_at 1), refl)) (λ l. inl refl) (goal false) [] refl

run-plan_only_example : (t : ℕ) × ((run whole steady (goal true) []).1 ≡ measured t ∷ [])
run-plan_only_example = run-plan_only whole steady (goal true) [] refl

abbrev obedient : Manager Bool
obedient = record {
  read_states = λ b. (
    some (
        (codes "jtc", if b then codes "active" else codes "inactive")
        ∷ (codes "forward", if b then codes "inactive" else codes "active")
        ∷ []),
    b,
  );
  request = λ on off b. (true, true);
}

switched : (switch_controllers obedient (codes "jtc" ∷ []) (codes "forward" ∷ []) false).0 ≡ true
unfolding switch_controllers switch_from confirm switch_needed get str_eq
switched = refl

switch_controllers-Reached_example :
    (before : Dict Str) × ((obedient.read_states false).0 ≡ some before)
    × Reached before
        (states_after obedient before (codes "jtc" ∷ []) (codes "forward" ∷ []) false)
        (codes "jtc" ∷ [])
        (codes "forward" ∷ [])
switch_controllers-Reached_example =
    switch_controllers-Reached obedient (codes "jtc" ∷ []) (codes "forward" ∷ []) false switched
