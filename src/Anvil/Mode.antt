-- ===== src/Anvil/Mode.antt =====
-- src/fm_robot_agent/anvil.py: the robot's mode, as its env file names it.
use mathlib.Core.List.{foldl, foldl-append}
use fm_robot_agent.Prelude.{
  ◌≡◌, ◌∙◌, ap, true, Option, none, some, [], ◌∷◌, ◌++◌, codes, length, ◌+◌, if◌then◌else◌, not,
  keep, ℕ, zero, suc, arith,
}
use fm_robot_agent.Text.{Str, strip, starts_with, is_space}
use fm_robot_agent.Text.Lines.{splitlines}
use fm_robot_agent.Text.Strip.{strip-IsTrimmed_eq, starts_with-append}
use fm_robot_agent.Config.EnvFile.{assigns, env_replaced}
use fm_robot_agent.Config.EnvFile.Laws.{IsKey, IsValue, line_of, strip-line_of, lines-env_replaced}

abbrev pub mode_key : Str
mode_key = codes "ARMS_CONTROL_CONFIG_FILE"

-- `s[n:]`
abbrev pub drop : ℕ → Str → Str
drop zero s = s
drop (suc n) [] = []
drop (suc n) (c ∷ s) = drop n s

-- One turn of the loop of `read_mode`.
unfoldable pub mode_line : Option Str → Str → Option Str
mode_line value line =
    let stripped = strip line in
    if starts_with (mode_key ++ 61 ∷ []) stripped
    then some (strip (drop (length mode_key + 1) stripped))
    else value

-- `read_mode`, on the file's text; nothing where the file cannot be read.
unfoldable pub read_mode : Option Str → Option Str
read_mode none = none
read_mode (some text) = foldl mode_line none (splitlines text)

mode_key-IsKey : IsKey mode_key
unfolding is_space
mode_key-IsKey = ground arith

-- The line that a write of the mode adds.
mode_line-assigned :
    (v : Str) (held : Option Str) → IsValue v → mode_line held (line_of mode_key v) ≡ some v
unfolding mode_line
mode_line-assigned v held value =
    rw (strip-line_of mode_key v mode_key-IsKey value.0, starts)
      (ap some (strip-IsTrimmed_eq v value.0))
  where
    starts : starts_with (mode_key ++ 61 ∷ []) (mode_key ++ 61 ∷ v) ≡ true
    starts = starts_with-append (mode_key ++ 61 ∷ []) v

-- For a mode that an env file can hold, the text in which it replaces the mode's key is one from
-- which `read_mode` reads that mode.
pub read_mode-env_replaced :
    (text v : Str) → IsValue v → read_mode (some (env_replaced text mode_key v)) ≡ some v
unfolding read_mode
read_mode-env_replaced text v value =
    let held = keep (λ line. not (assigns mode_key line)) (splitlines text) in
    ap (foldl mode_line none) (lines-env_replaced mode_key mode_key-IsKey text v value)
    ∙ foldl-append mode_line none held (line_of mode_key v ∷ [])
    ∙ mode_line-assigned v (foldl mode_line none held) value
