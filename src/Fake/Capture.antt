-- ===== src/Fake/Capture.antt =====
-- src/fm_robot_agent/fake.py: takes, collection, poses and the stop of the fake robot.
use fm_robot_agent.Prelude.{
  ℕ, ◌+◌, Bool, true, false, not, ◌&&◌, ◌||◌, Option, none, some, is_some, List, [], ◌∷◌, ◌++◌,
  codes, length, if◌then◌else◌, ◌==◌,
}
use fm_robot_agent.Int.{pos}
use fm_robot_agent.Text.{Str, str_eq}
use fm_robot_agent.Dict.{get, insert}
use fm_robot_agent.Json.{null, bool, int, str, arr, obj, nil, cons, Fields, end, field, merge}
use fm_robot_agent.Protocol.{task_not_recorded, perception_debug_lease_s}
use fm_robot_agent.Fake.{Answer, Fake, idle, yes, no, or_null, four_digits}

abbrev pub listed : Option (List Str) → List Str
listed none = []
listed (some slugs) = slugs

-- `self._episodes.get(dataset, [])`, by slug.
unfoldable pub episodes : Str → Fake → List Str
episodes dataset f = listed (get dataset f.takes)

abbrev pub shown : Option Str → Str
shown none = codes "None"
shown (some s) = s

abbrev pub is_empty : Str → Bool
is_empty [] = true
is_empty (c ∷ s) = false

-- `episode != self.recording_episode`
abbrev pub stale : Str → Option Str → Bool
stale episode none = true
stale episode (some e) = not (str_eq episode e)

-- `record`, where the action is `start`.
unfoldable pub start_take : Str → Option Str → Fake → Answer × Fake
start_take dataset (some into) f = (no (codes "already recording into " ++ into) end, f)
start_take dataset none f =
    let slugs = episodes dataset f in
    let slug = four_digits (length slugs) in
    (
      yes (codes "recording") (field (codes "episode") (str slug) end),
      record f {
        takes = insert dataset (slugs ++ slug ∷ []) f.takes;
        recording = some dataset;
        recording_episode = some slug;
      },
    )

-- `record`, where it is `stop`.
unfoldable pub stop_take : Option Str → Fake → Answer × Fake
stop_take none f = (no (codes "not recording") end, f)
stop_take (some into) f =
    (yes (codes "stopped") end, record f { recording = none; recording_episode = none })

unfoldable pub record_take : Str → Str → Str → Str → Str → Fake → Answer × Fake
record_take dataset action task note episode f =
    if not (is_empty task)
    then (task_not_recorded (codes "the fake recorder"), f)
    else if str_eq action (codes "stop")
        && not (is_empty episode)
        && stale episode f.recording_episode
    then (
      no (codes "stale stop: episode " ++ shown f.recording_episode ++ codes " is recording") end,
      f,
    )
    else if str_eq action (codes "start")
    then start_take dataset f.recording f
    else stop_take f.recording f

unfoldable pub run_name : ℕ → Str
run_name n = codes "run-" ++ four_digits n

abbrev last_run : Option Str → ℕ → Option Str
last_run (some run) n = some run
last_run none n = if n == 0 then none else some (run_name n)

-- `_loop`
unfoldable pub loop : Fake → Fields (Unit {0})
loop f =
    field (codes "loop")
      (obj (
        field (codes "active") (bool (is_some f.collecting)) (
          field (codes "run") (or_null (last_run f.collecting f.collect_runs)) (
            field (codes "cycles") (int (pos 0)) (
              field (codes "successes") (int (pos 0))
                (field (codes "stop_reason") null (field (codes "free_gb") (int (pos 0)) end)))))))
      (field (codes "warnings") (arr nil) end)

unfoldable pub start_loop : Option Str → Fake → Answer × Fake
start_loop (some run) f = (
  no (codes "a collection loop is already running; stop it first")
      (merge (field (codes "code") (str (codes "already_running")) end) (loop f)),
  f,
)
start_loop none f =
    let run = run_name (f.collect_runs + 1) in
    let g = record f { collect_runs = f.collect_runs + 1; collecting = some run } in
    (yes (codes "started run " ++ run) (loop g), g)

unfoldable pub collect : Str → Fake → Answer × Fake
collect action f =
    let g = record f { collecting = none } in
    if str_eq action (codes "start")
    then start_loop f.collecting f
    else if str_eq action (codes "stop")
    then (yes (codes "stopped") (loop g), g)
    else (
      yes (if is_some f.collecting then codes "loop running" else codes "loop stopped") (loop f),
      f,
    )

unfoldable pub pose : Str → Str → Fake → Answer × Fake
pose action name f =
    let target = (if str_eq action (codes "home") then codes "home" else name) in
    if str_eq action (codes "list")
    then (
      yes (codes "board-1, home") (
          field (codes "poses") (arr (cons (str (codes "board-1")) (cons (str (codes "home")) nil)))
            end),
      f,
    )
    else if not (str_eq target (codes "board-1") || str_eq target (codes "home"))
    then (no (codes "no pose " ++ target) end, f)
    else (yes (action ++ 32 ∷ target) end, record f { posed = some (action, target) })

unfoldable pub perception_debug : Bool → Fake → Answer × Fake
perception_debug enabled f = (
  yes (codes "perception debug " ++ (if enabled then codes "on" else codes "off")) (
      field (codes "enabled") (bool enabled)
        (field (codes "lease_s") (int (pos perception_debug_lease_s)) end)),
  record f { perception_debug_enabled = enabled },
)

unfoldable pub stop : Fake → Answer × Fake
stop f = (
  yes (codes "stopped") (field (codes "state") (str idle) end),
  record f { recording = none; mode = idle },
)
