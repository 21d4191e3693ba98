-- ===== src/Client/Usage.antt =====
-- src/fm_robot_agent/client.py: what the command line is refused for before any robot is asked.
pub mod Accepted
use fm_robot_agent.Prelude.{
  ℕ, Bool, true, false, not, ◌&&◌, ◌||◌, Option, none, some, [], ◌∷◌, ◌++◌, ◌==◌, leb, codes,
  some_of, is_some, if◌then◌else◌,
}
use fm_robot_agent.Text.{Str, str_eq, contains, join}
use fm_robot_agent.Verbs.Values.{is_digit}
use fm_robot_agent.Verbs.Handlers.{config_actions, session_actions, collect_actions}
use fm_robot_agent.Verbs.Key.{key_prefix}
use fm_robot_agent.Client.{namespace_of}
use fm_robot_agent.Client.Payload.{Args, value_or}

abbrev pub is_letter : ℕ → Bool
is_letter c = leb 97 c && leb c 122

-- `[0-9]{2}$`, which a newline may stand behind.
abbrev pub two_digits : Str → Bool
two_digits (a ∷ b ∷ []) = is_digit a && is_digit b
two_digits (a ∷ b ∷ c ∷ []) = is_digit a && is_digit b && c == 10
two_digits _ = false

-- `[a-z]+-[0-9]{2}$`, where a letter has been seen or not.
unfoldable pub card_from : Bool → Str → Bool
card_from seen [] = false
card_from seen (c ∷ s) =
    let rest = card_from true s in if is_letter c then rest else seen && c == 45 && two_digits s

-- `DEVICE_PATTERN.match`
unfoldable pub valid_device : Str → Bool
unfolding card_from
valid_device (f ∷ m ∷ d ∷ s) = f == 102 && m == 109 && d == 45 && card_from false s
valid_device _ = false

-- Python's truth of an optional text.
abbrev pub given : Option Str → Bool
given none = false
given (some []) = false
given (some (c ∷ s)) = true

abbrev when : Bool → Str → Option Str
when true message = some message
when false message = none

-- `args.value not in PERCEPTION_DEBUG_VALUES`
abbrev pub debug_value : Option Str → Bool
debug_value none = false
debug_value (some value) = str_eq value (codes "on") || str_eq value (codes "off")

-- `listing`
abbrev pub is_listing : Str → Bool
is_listing device = str_eq device (codes "list")

module _ {F : Type 0} where
  unfoldable pub config_error : Args F → Option Str
  config_error args =
      let action = value_or args.value (codes "get") in
      if not (some_of (str_eq action) config_actions)
      then some (codes "config takes one of: " ++ join (codes ", ") config_actions)
      else when (str_eq action (codes "set") && not (contains 61 (value_or args.assignment [])))
          (codes "config set takes KEY=VALUE")

  unfoldable pub session_error : Args F → Option Str
  session_error args =
      if not (some_of (str_eq (value_or args.value (codes "get"))) session_actions)
      then some (codes "session takes one of: " ++ join (codes ", ") session_actions)
      else when (str_eq (value_or args.value []) (codes "set") && str_eq args.dataset [])
          (codes "session set needs --dataset")

  abbrev pub start_flags : Args F → Bool
  start_flags args =
      given (some args.object)
      || args.no_record
      || is_some args.hours
      || is_some args.cycles
      || is_some args.speed

  unfoldable pub collect_error : Args F → Option Str
  collect_error args =
      let action = value_or args.value (codes "status") in
      if not (some_of (str_eq action) collect_actions)
      then some (codes "collect takes one of: " ++ join (codes ", ") collect_actions)
      else if str_eq action (codes "start")
      then when (not (given (some args.object))) (codes "collect start needs --object")
      else when (start_flags args)
          (codes "--object, --hours, --cycles, --speed and --no-record belong to collect start")

  -- The checks of a verb. A verb is one that the parser knows.
  unfoldable pub verb_error : Str → Args F → Option Str
  unfolding config_error session_error collect_error
  verb_error verb args =
      if str_eq verb (codes "mode")
      then when (not (given args.value)) (codes "mode needs a config")
      else if str_eq verb (codes "config")
      then config_error args
      else if str_eq verb (codes "record") || str_eq verb (codes "episodes")
      then when (str_eq args.dataset []) (verb ++ codes " needs --dataset")
      else if str_eq verb (codes "session")
      then session_error args
      else if str_eq verb (codes "perception_debug")
      then when (not (debug_value args.value)) (codes "perception_debug takes on or off")
      else if str_eq verb (codes "collect")
      then collect_error args
      else none

  abbrev pub verb_given : Option Str → Args F → Option Str
  verb_given none args = some (codes "a verb is required")
  verb_given (some verb) args = verb_error verb args

  -- The checks of `main`: the name `list` passes all of them. Python's `repr` is `repr`.
  unfoldable pub usage_error : (Str → Str) → Str → Option Str → Args F → Option Str
  unfolding valid_device verb_error
  usage_error repr device verb args =
      if is_listing device
      then none
      else if not (valid_device device)
      then some
          (repr device ++ codes " is not a device name (fm-rob-01), and only `list` queries many")
      else verb_given verb args

-- The key that `main` queries: every robot's status for `list`, and otherwise the verb of the device.
-- A verb that is not given is `None`, and is printed so.
abbrev verb_text : Option Str → Str
verb_text none = codes "None"
verb_text (some verb) = verb

unfoldable pub queried_key : Str → Option Str → Str
queried_key device verb =
    if is_listing device
    then key_prefix ++ codes "/*/status"
    else key_prefix ++ (47 ∷ (namespace_of device ++ (47 ∷ verb_text verb)))
