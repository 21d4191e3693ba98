-- ===== src/Config.antt =====
-- src/fm_robot_agent/config.py: what a configuration key is, and env files read and written.
pub mod EnvFile
use fm_robot_agent.Prelude.{Bool, true, false, ◌||◌, List, [], ◌∷◌, codes, some_of}
use fm_robot_agent.Text.{Str, str_eq}

-- The five classes of a configuration key.
pub data Class : Type 0 where
  severing motion tuning mode unknown : Class

-- `klass in WRITABLE_CLASSES`
unfoldable pub writable : Class → Bool
writable unknown = false
writable _ = true

abbrev pub mode_alias : Str
mode_alias = codes "mode"

-- The wire's word for a class.
abbrev pub class_name : Class → Str
class_name severing = codes "severing"
class_name motion = codes "motion"
class_name tuning = codes "tuning"
class_name mode = codes "mode"
class_name unknown = codes "unknown"
