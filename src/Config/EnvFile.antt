-- ===== src/Config/EnvFile.antt =====
-- src/fm_robot_agent/config.py: `env_values` and `env_replaced`, on the text of an env file.

pub mod Laws
use mathlib.Core.List.{foldl}
use fm_robot_agent.Prelude.{
  Bool, true, false, not, ◌||◌, Option, none, some, [], ◌∷◌, ◌++◌, keep, if◌then◌else◌,
}
use fm_robot_agent.Text.{Str, starts_with, strip, before, after, contains, join}
use fm_robot_agent.Text.Lines.{splitlines}
use fm_robot_agent.Dict.{Dict, insert}

abbrev str_empty : Str → Bool
str_empty [] = true
str_empty (c ∷ s) = false

-- The assignment that a line makes, if it makes one. `b'='` is 61, `b'#'` is 35.
unfoldable pub assignment : Str → Option (Str × Str)
assignment line =
    let stripped = strip line in
    if str_empty stripped || starts_with (35 ∷ []) stripped || not (contains 61 stripped)
    then none
    else some (strip (before 61 stripped), strip (after 61 stripped))

abbrev pub store : Option (Str × Str) → Dict Str → Dict Str
store none values = values
store (some (k, v)) values = insert k v values

unfoldable pub assign : Dict Str → Str → Dict Str
assign values line = store (assignment line) values

-- `env_values`: the last assignment of a key wins.
unfoldable pub env_values : Str → Dict Str
env_values text = foldl assign [] (splitlines text)

-- `line.strip().startswith(f"{key}=")`
unfoldable pub assigns : Str → Str → Bool
assigns key line = starts_with (key ++ 61 ∷ []) (strip line)

-- `env_replaced`: the key assigned once, on a line of its own at the end.
unfoldable pub env_replaced : Str → Str → Str → Str
env_replaced text key value =
    join (10 ∷ [])
      (keep (λ line. not (assigns key line)) (splitlines text) ++ (key ++ 61 ∷ value) ∷ [])
    ++ 10 ∷ []
