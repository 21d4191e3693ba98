-- ===== src/Verbs/Handlers.antt =====
-- src/fm_robot_agent/verbs.py: the handler of each verb. A handler refuses, or makes one call of
-- the adapter or the bundle.
use fm_robot_agent.Prelude.{
  Bool, true, false, not, Option, none, some, List, [], ◌∷◌, leb, codes, length, if◌then◌else◌,
}
use fm_robot_agent.Text.{Str, str_eq}
use fm_robot_agent.Dict.{Dict}
use fm_robot_agent.Config.{class_name, writable}
use fm_robot_agent.Json.{Json, bool, str, arr, obj, Items, nil, cons, Fields, end, field, get_json}
use fm_robot_agent.Protocol.{Action, pure, ◌>>=◌, Outcome, Setting, Adapter, Python}
use fm_robot_agent.Verbs.Reply.{Reply, envelope, refuse, outcome}
use fm_robot_agent.Verbs.Values.{truthy, or_else, scalar_text}
use fm_robot_agent.Verbs.Checks.{
  Checked, accepted, rejected, in_words, max_value_len, has_start_field, checked_args,
  collect_options,
}

abbrev pub config_actions : List Str
config_actions = codes "get" ∷ codes "set" ∷ codes "rollback" ∷ []

abbrev pub collect_actions : List Str
collect_actions = codes "start" ∷ codes "stop" ∷ codes "status" ∷ []

abbrev pub pose_actions : List Str
pose_actions = codes "list" ∷ codes "plan" ∷ codes "go" ∷ codes "home" ∷ []

abbrev pub session_actions : List Str
session_actions = codes "get" ∷ codes "set" ∷ codes "clear" ∷ []

abbrev pub calibration_actions : List Str
calibration_actions = codes "get" ∷ codes "set" ∷ []

abbrev pub record_actions : List Str
record_actions = codes "start" ∷ codes "stop" ∷ []

-- `args or None`
abbrev pub if_any : Dict Str → Option (Dict Str)
if_any [] = none
if_any (a ∷ args) = some (a ∷ args)

module _ {F : Type 0} where
  -- A JSON value that has to be a text; another gives none.
  abbrev pub is_text : Json F → Str → Bool
  is_text (str s) t = str_eq s t
  is_text _ t = false

  abbrev texts : List Str → Items F
  texts [] = nil
  texts (s ∷ ss) = cons (str s) (texts ss)

  -- `Setting.as_dict` of config.py
  unfoldable pub as_dict : Setting F → Fields F
  as_dict s = field (codes "key") (str s.key) (
      field (codes "value") s.value (
        field (codes "class") (str (class_name s.klass)) (
          field (codes "writable") (bool (writable s.klass)) (
            field (codes "options") (arr (texts s.options))
              (field (codes "help") (str s.help) end)))))

  unfoldable pub settings : List (Setting F) → Items F
  unfolding as_dict
  settings [] = nil
  settings (s ∷ ss) = cons (obj (as_dict s)) (settings ss)

module _ (py : Python) {S : Type 0} (adapter : Adapter py.F S) (key : Str) where
  open py use {F}

  -- `_outcome(key, …)` around a call of the adapter
  abbrev pub answer_with : Action S (Outcome F) → Action S (Reply F)
  answer_with call = do o ← call; pure (outcome key o)

  abbrev pub refused : Str → Action S (Reply F)
  refused message = pure (refuse key message)

  -- `_mode`, once its value is known to be a text
  unfoldable pub mode_with : Str → Checked (Dict Str) → Action S (Reply F)
  mode_with value (rejected message) = refused message
  mode_with value (accepted args) = answer_with (adapter.set_mode value (if_any args))

  unfoldable pub mode_value : Json F → Fields F → Action S (Reply F)
  mode_value (str (c ∷ value)) body =
      if leb (length (c ∷ value)) max_value_len
      then (let args = get_json (codes "args") body in
          mode_with (c ∷ value) (checked_args py (truthy py args) args))
      else refused (codes "mode is longer than 256 characters")
  mode_value _ body = refused (codes "mode needs a value")

  unfoldable pub mode : Fields F → Action S (Reply F)
  mode body = mode_value (get_json (codes "value") body) body

  -- the `set` of `_config`
  unfoldable pub config_set : Json F → Option Str → Action S (Reply F)
  config_set (str (c ∷ name)) none = refused (codes "set needs a value")
  config_set (str (c ∷ name)) (some []) = refused (codes "set needs a value")
  config_set (str (c ∷ name)) (some (d ∷ value)) =
      if leb (length (d ∷ value)) max_value_len
      then answer_with (adapter.config_write (c ∷ name) (d ∷ value))
      else refused (codes "value is longer than 256 characters")
  config_set _ value = refused (codes "set needs a key")

  unfoldable pub config : Fields F → Action S (Reply F)
  config body =
      let action = or_else py (get_json (codes "action") body) [] in
      if not (in_words action config_actions)
      then refused (codes "action must be one of ('get', 'set', 'rollback')")
      else if is_text action (codes "get")
      then (do
        held ← adapter.config_read
        pure (
            envelope key
              (field (codes "ok") (bool true) (field (codes "config") (arr (settings held)) end))
              true))
      else if is_text action (codes "rollback")
      then answer_with adapter.config_rollback
      else config_set (get_json (codes "key") body) (scalar_text py (get_json (codes "value") body))

  unfoldable pub collect_start : Checked (Dict Str) → Action S (Reply F)
  collect_start (rejected message) = refused message
  collect_start (accepted options) = answer_with (adapter.collect (codes "start") (some options))

  unfoldable pub collect_other : Json F → Action S (Reply F)
  collect_other (str action) = answer_with (adapter.collect action none)
  collect_other _ = refused (codes "action must be one of ('start', 'stop', 'status')")

  unfoldable pub collect : Fields F → Action S (Reply F)
  collect body =
      let action = or_else py (get_json (codes "action") body) (codes "status") in
      if not (in_words action collect_actions)
      then refused (codes "action must be one of ('start', 'stop', 'status')")
      else if is_text action (codes "start")
      then collect_start (collect_options py body)
      else if has_start_field body
      then refused (codes "object, hours, cycles, speed, no_record belong to a start")
      else collect_other action
