-- ===== src/Fake.antt =====
-- src/fm_robot_agent/fake.py: the robot that says yes and remembers what it was told.
pub mod Capture
pub mod Takes
pub mod Rollback
use fm_robot_agent.Prelude.{
  ℕ, suc, ◌+◌, Bool, true, false, not, ◌&&◌, ◌||◌, Option, none, some, is_some, List, [], ◌∷◌, ◌++◌,
  codes, length, ltb, if◌then◌else◌, ◌==◌, map,
}
use fm_robot_agent.Int.{show_ℕ, pos}
use fm_robot_agent.Text.{Str, str_eq}
use fm_robot_agent.Dict.{Dict, get, insert, has}
use fm_robot_agent.Json.{Json, null, bool, int, str, arr, obj, Items, nil, cons, Fields, end, field}
use fm_robot_agent.Protocol.{Outcome, Setting, perception_debug_lease_s}
use fm_robot_agent.Config.{Class, severing, motion, tuning, unknown, mode_alias, class_name}

-- No value of this robot holds a float.
abbrev pub Answer : Type 0
Answer = Outcome (Unit {0})

abbrev pub idle : Str
idle = codes "idle"

-- `value in MODES`
unfoldable pub known_mode : Str → Bool
known_mode m = str_eq m idle || str_eq m (codes "teleop")

abbrev pub mode_key : Str
mode_key = codes "ARMS_CONTROL_CONFIG_FILE"

-- `FAKE_KEYS`, in the order of its sorted items.
abbrev pub fake_keys : Dict Class
fake_keys =
    (codes "ANVIL_SOMETHING_NEW", unknown)
    ∷ (mode_key, Class.mode)
    ∷ (codes "CYCLONEDDS_IFACE", severing)
    ∷ (codes "CYCLONEDDS_VERBOSITY", tuning)
    ∷ (codes "TELEOP_POSITION_SCALE", motion)
    ∷ []

-- The attributes of a `FakeAdapter`; of an episode, which holds nothing else, the slug.
pub record Fake : Type 0 where
  pub mode : Str
  pub running : Bool
  pub recording : Option Str
  pub recording_episode : Option Str
  pub pinned : Option Str
  pub collecting : Option Str
  pub collect_runs : ℕ
  pub perception_debug_enabled : Bool
  pub takes : Dict (List Str)
  pub values : Dict Str
  pub pending : Option (Str × Str)
  pub posed : Option (Str × Str)

abbrev pub fresh : Fake
fresh = record {
  mode = idle;
  running = false;
  recording = none;
  recording_episode = none;
  pinned = none;
  collecting = none;
  collect_runs = 0;
  perception_debug_enabled = false;
  takes = [];
  values =
      (mode_key, idle)
      ∷ (codes "CYCLONEDDS_IFACE", codes "eth0")
      ∷ (codes "TELEOP_POSITION_SCALE", codes "1.0")
      ∷ (codes "CYCLONEDDS_VERBOSITY", codes "warning")
      ∷ (codes "ANVIL_SOMETHING_NEW", codes "whatever the vendor added")
      ∷ [];
  pending = none;
  posed = none;
}

abbrev pub yes : Str → Fields (Unit {0}) → Answer
yes m d = record { ok = true; message = m; detail = d }

abbrev pub no : Str → Fields (Unit {0}) → Answer
no m d = record { ok = false; message = m; detail = d }

abbrev pub or_null : Option Str → Json (Unit {0})
or_null none = null
or_null (some s) = str s

abbrev pub slug_of : Option Str → Json (Unit {0})
slug_of none = null
slug_of (some s) = obj (field (codes "slug") (str s) end)

-- `f"{n:04d}"`
unfoldable pub four_digits : ℕ → Str
four_digits n =
    if ltb n 10
    then codes "000" ++ show_ℕ n
    else if ltb n 100
    then codes "00" ++ show_ℕ n
    else if ltb n 1000
    then codes "0" ++ show_ℕ n
    else show_ℕ n

unfoldable pub session : Str → Str → Fake → Answer × Fake
session action dataset f =
    let pinned_by : Fake → Answer =
      λ g. yes (codes "pinned session") (field (codes "session") (slug_of g.pinned) end) in
    if not (str_eq action (codes "get")) && is_some f.recording
    then (no (codes "recording; stop it before changing the pin") end, f)
    else (let g =
          (if str_eq action (codes "set")
            then record f { pinned = some dataset }
            else if str_eq action (codes "clear")
            then record f { pinned = none }
            else f) in
        (pinned_by g, g))

unfoldable pub up : Fake → Answer × Fake
up f = (yes (codes "fake robot up") end, record f { running = true })

unfoldable pub down : Fake → Answer × Fake
down f = (yes (codes "fake robot down") end, record f { running = false })

abbrev pub class_of : Option Class → Class
class_of none = unknown
class_of (some c) = c

abbrev pub is_class : Class → Class → Bool
is_class a b = str_eq (class_name a) (class_name b)

-- `config_write` once the key is known to be held, with its previous value.
unfoldable pub write_held : Class → Str → Str → Str → Fake → Answer × Fake
write_held c key previous value f =
    if is_class c motion && f.running
    then (no (key ++ codes " is a motion key and this robot is busy") end, f)
    else if is_class c Class.mode && not (known_mode value)
    then (no (codes "unknown mode " ++ value) end, f)
    else (
      yes (key ++ 61 ∷ value) (field (codes "class") (str (class_name c)) end),
      record f {
        values = insert key value f.values;
        mode = (if is_class c Class.mode then value else f.mode);
        pending = (if is_class c severing then some (key, previous) else f.pending);
      },
    )

abbrev pub write_classed : Class → Str → Option Str → Str → Fake → Answer × Fake
write_classed unknown key held value f =
    (no (key ++ codes " is unclassified and cannot be written") end, f)
write_classed c key none value f =
    (no (key ++ codes " is unclassified and cannot be written") end, f)
write_classed c key (some previous) value f = write_held c key previous value f

-- `if key == MODE_ALIAS: key = …`
abbrev pub unaliased : Str → Str
unaliased key = if str_eq key mode_alias then mode_key else key

unfoldable pub config_write : Str → Str → Fake → Answer × Fake
config_write alias value f =
    let key = unaliased alias in
    write_classed (class_of (get key fake_keys)) key (get key f.values) value f

unfoldable pub set_mode : Str → Fake → Answer × Fake
set_mode value f = config_write mode_alias value f

unfoldable pub roll_back : Option (Str × Str) → Fake → Answer × Fake
roll_back none f = (no (codes "no change is open") end, f)
roll_back (some (key, previous)) f = (
  yes (key ++ codes " restored") (field (codes "key") (str key) end),
  record f { values = insert key previous f.values; pending = none },
)

unfoldable pub config_rollback : Fake → Answer × Fake
config_rollback f = roll_back f.pending f
