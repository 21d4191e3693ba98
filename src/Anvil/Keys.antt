-- ===== src/Anvil/Keys.antt =====
-- src/fm_robot_agent/anvil.py: the classes of the keys in `.env.config`, the checks on a value, and
-- `config_read` and `config_write`. What Python's `float`, `int`, `str.lower` and `ipaddress` make of
-- a text, the names in the `config` directory and the call of docker are parameters.
pub mod Values
pub mod Guards
use fm_robot_agent.Prelude.{
  ℕ, Bool, true, false, not, ◌&&◌, ◌||◌, Option, none, some, List, [], ◌∷◌, ◌++◌, codes, every,
  some_of, leb, length, map, ◌==◌, if◌then◌else◌,
}
use fm_robot_agent.Int.{ℤ, pos, leb_ℤ, show_ℤ}
use fm_robot_agent.Text.{Str, str_eq, strip}
use fm_robot_agent.Dict.{Dict}
use fm_robot_agent.Config.{Class, severing, motion, tuning, mode, unknown, mode_alias}
use fm_robot_agent.Config.EnvFile.{env_values}
use fm_robot_agent.Anvil.World.{Place, env_config, World, M, pure, ◌>>=◌, ◌>>◌, read}
use fm_robot_agent.Anvil.Pair.{Writer, Texts, write_paired}
use fm_robot_agent.Anvil.Mode.{mode_key}
use fm_robot_agent.Anvil.Severing.{Codec, Answer, answer, write_severing}

abbrev pub classes : List (Str × Class)
classes =
    (codes "ROS_DOMAIN_ID", severing)
    ∷ (codes "CYCLONEDDS_IFACE", severing)
    ∷ (codes "CYCLONEDDS_TRANSPORT", severing)
    ∷ (codes "ENABLE_CYCLONEDDS", severing)
    ∷ (codes "CYCLONEDDS_ALLOW_MULTICAST", severing)
    ∷ (codes "TELEOP_POSITION_SCALE", motion)
    ∷ (codes "ENABLE_VR_TELEOP", motion)
    ∷ (codes "CYCLONEDDS_PEER_IP", tuning)
    ∷ (codes "CYCLONEDDS_FRAGMENT_SIZE", tuning)
    ∷ (codes "CYCLONEDDS_MAX_MESSAGE_SIZE", tuning)
    ∷ (codes "CYCLONEDDS_WHC_HIGH", tuning)
    ∷ (codes "CYCLONEDDS_VERBOSITY", tuning)
    ∷ (mode_key, mode)
    ∷ []

class_in : List (Str × Class) → Str → Class
class_in [] key = unknown
class_in ((k, c) ∷ rest) key = if str_eq k key then c else class_in rest key

-- `CONFIG_CLASSES.get(key, UNKNOWN)`
unfoldable pub class_of : Str → Class
unfolding class_in
class_of key = class_in classes key

abbrev pub peer_key : Str
peer_key = codes "CYCLONEDDS_PEER_IP"

abbrev pub boolean_values : List Str
boolean_values = codes "true" ∷ codes "false" ∷ []

abbrev pub transport_modes : List Str
transport_modes = codes "udp" ∷ codes "tcp" ∷ []

abbrev pub verbosity_levels : List Str
verbosity_levels =
    codes "finest"
    ∷ codes "finer"
    ∷ codes "fine"
    ∷ codes "config"
    ∷ codes "info"
    ∷ codes "warning"
    ∷ codes "severe"
    ∷ codes "none"
    ∷ []

abbrev pub is_boolean_key : Str → Bool
is_boolean_key key =
    some_of (str_eq key) (
      codes "ENABLE_CYCLONEDDS"
      ∷ codes "CYCLONEDDS_ALLOW_MULTICAST"
      ∷ codes "ENABLE_VR_TELEOP"
      ∷ [])

-- `_options`
unfoldable pub options : Str → List Str
options key =
    if str_eq key (codes "CYCLONEDDS_VERBOSITY")
    then verbosity_levels
    else if str_eq key (codes "CYCLONEDDS_TRANSPORT")
    then transport_modes
    else if is_boolean_key key
    then boolean_values
    else []

-- A value, or the reason of a `ConfigError`.
pub data Validated : Type 0 where
  value : Str → Validated
  refusal : Str → Validated

abbrev pub is_iface_char : ℕ → Bool
is_iface_char c =
    (leb 65 c && leb c 90)
    || (leb 97 c && leb c 122)
    || (leb 48 c && leb c 57)
    || c == 46
    || c == 95
    || c == 45

-- `IFACE_PATTERN.match(value)`, on a trimmed value.
unfoldable pub is_iface : Str → Bool
is_iface s = leb 1 (length s) && leb (length s) 15 && every is_iface_char s

pub record TextRules (F : Type 0) : Type 0 where
  pub lower : Str → Str
  pub int_of : Str → Option ℤ
  pub float_of : Str → Option F
  -- `0 < scale <= MAX_TELEOP_SCALE`
  pub is_scale : F → Bool
  pub address_of : Str → Option Str

module _ {F : Type 0} (texts : TextRules F) where
  open texts use {lower, int_of, float_of, is_scale, address_of}

  abbrev pub above : Option ℤ → ℤ → Bool
  above none z = false
  above (some high) z = not (leb_ℤ z high)

  abbrev pub integer_in : Str → Option ℤ → ℤ → Option ℤ → Validated
  integer_in key none low high = refusal (key ++ codes " is an integer")
  integer_in key (some z) low high =
      if not (leb_ℤ low z) || above high z
      then refusal (key ++ codes " is out of range")
      else value (show_ℤ z)

  -- `_integer`
  unfoldable pub integer : Str → Str → ℤ → Option ℤ → Validated
  integer key text low high = integer_in key (int_of text) low high

  abbrev pub one_of : Str → Str → List Str → Validated
  one_of key lowered words =
      if some_of (str_eq lowered) words
      then value lowered
      else refusal (key ++ codes " is one of a few words")

  abbrev pub address : Option Str → Validated
  address none = refusal (codes "not an IP address")
  address (some text) = value text

  abbrev pub scale : Str → Option F → Validated
  scale text none = refusal (codes "TELEOP_POSITION_SCALE is a number")
  scale text (some x) =
      if is_scale x
      then value text
      else refusal (codes "TELEOP_POSITION_SCALE is between 0 and 5.0")

  -- `_validated` once the value is trimmed; `configs` are the robot's own.
  unfoldable pub validated_text : List Str → Str → Str → Validated
  validated_text configs key text =
      if str_eq key mode_key
      then (if some_of (str_eq text) configs then value text else refusal (codes "unknown config"))
      else if str_eq key (codes "ROS_DOMAIN_ID")
      then integer key text (pos 0) (some (pos 232))
      else if str_eq key (codes "CYCLONEDDS_IFACE")
      then (if is_iface text then value text else refusal (codes "not an interface name"))
      else if str_eq key peer_key
      then address (address_of text)
      else if is_boolean_key key
      then one_of key (lower text) boolean_values
      else if str_eq key (codes "CYCLONEDDS_TRANSPORT")
      then one_of key (lower text) transport_modes
      else if str_eq key (codes "CYCLONEDDS_VERBOSITY")
      then one_of key (lower text) verbosity_levels
      else if str_eq key (codes "TELEOP_POSITION_SCALE")
      then scale text (float_of text)
      else integer key text (pos 1) none

  -- `_validated`
  unfoldable pub validated : List Str → Str → Str → Validated
  validated configs key text = validated_text configs key (strip text)

  -- `_apply`, with the message of a recreation of the containers.
  unfoldable pub applied : M Str → Class → M Str
  applied recreate severing = recreate
  applied recreate mode = recreate
  applied recreate _ = pure (codes "no restart needed")

  module _ (codec : Codec) (writer : Writer) (configs : List Str) (recreate : M Str) where
    abbrev pub written : Class → Str → Str → M Answer
    written klass key text = do
      write_paired writer key text
      effect ← applied recreate klass
      pure (answer true (key ++ 61 ∷ text ++ codes "; " ++ effect))

    -- `config_write` by the class of a key, once its value has been validated.
    unfoldable pub write_classed : Class → Str → Str → M Answer
    write_classed motion key text w =
        if w.stack_up
        then (pure (
              answer false (key ++ codes " shapes motion and the stack is up; take it down first")))
            w
        else written motion key text w
    write_classed severing key text w = write_severing codec writer key text w
    write_classed klass key text w = written klass key text w

    abbrev pub write_validated : Class → Str → Validated → M Answer
    write_validated klass key (refusal reason) = pure (answer false reason)
    write_validated klass key (value text) = write_classed klass key text

    -- `config_write` once the key's name on the wire is known.
    unfoldable pub write_key : Class → Str → Str → M Answer
    write_key unknown key text =
        pure (answer false (key ++ codes " is not a key this agent classifies, so it is read-only"))
    write_key klass key text = write_validated klass key (validated configs key text)

    -- `config_write`
    unfoldable pub config_write : Str → Str → M Answer
    config_write key text =
        if str_eq key mode_alias
        then write_key (class_of mode_key) mode_key text
        else write_key (class_of key) key text

  -- One key as `config_read` reports it: its value, its class and its options.
  abbrev pub options_of : List Str → Class → Str → List Str
  options_of configs mode key = configs
  options_of configs _ key = options key

  abbrev pub setting_of : List Str → Str × Str → Str × Str × Class × List Str
  setting_of configs (key, text) = (key, text, class_of key, options_of configs (class_of key) key)

  -- `config_read`; `in_order` sorts by the key.
  unfoldable pub config_read :
      (List (Str × Str × Class × List Str) → List (Str × Str × Class × List Str))
      → List Str
      → World
      → List (Str × Str × Class × List Str)
  config_read in_order configs w =
      in_order (map (setting_of configs) (env_values (read w env_config)))
