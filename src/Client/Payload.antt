-- ===== src/Client/Payload.antt =====
-- src/fm_robot_agent/client.py: the body that a typed verb carries to a robot.
pub mod Reaches
use fm_robot_agent.Prelude.{
  Bool, true, false, Option, none, some, List, [], ◌∷◌, codes, if◌then◌else◌,
}
use fm_robot_agent.Int.{ℤ}
use fm_robot_agent.Text.{Str, str_eq, before, after}
use fm_robot_agent.Json.{Json, null, bool, int, float, str, obj, Fields, end, field, put}

-- What the parser of arguments leaves, over the type `F` of floats: the arguments that a body is
-- built from. An `--arg` that is not given is no pairs.
pub record Args (F : Type 0) : Type 0 where
  pub value : Option Str
  pub assignment : Option Str
  pub arg : List Str
  pub dataset : Str
  pub task : Str
  pub note : Str
  pub episode : Str
  pub object : Str
  pub hours : Option F
  pub cycles : Option ℤ
  pub speed : Option F
  pub no_record : Bool

-- A body, `None`, or the `KeyError` of a value that the table of `on` and `off` does not hold.
pub data Payload (F : Type 0) : Type 0 where
  body : Fields F → Payload F
  no_body : Payload F
  key_error : Payload F

-- `given or default`
abbrev pub value_or : Option Str → Str → Str
value_or none default = default
value_or (some []) default = default
value_or (some (c ∷ s)) default = c ∷ s

module _ {F : Type 0} where
  abbrev text_or_null : Option Str → Json F
  text_or_null none = null
  text_or_null (some s) = str s

  -- `body[name] = text`, where there is a text
  abbrev put_text : Str → Str → Fields F → Fields F
  put_text name [] d = d
  put_text name (c ∷ s) d = put name (str (c ∷ s)) d

  -- `body[name] = number`, where one was given
  abbrev put_given : {A : Type 0} → (A → Json F) → Str → Option A → Fields F → Fields F
  put_given number name none d = d
  put_given number name (some x) d = put name (number x) d

  -- `dict(pair.partition("=")[::2] for pair in …)`, on a dict that grows from the left
  unfoldable pub supplied : List Str → Fields F → Fields F
  supplied [] d = d
  supplied (pair ∷ pairs) d = supplied pairs (put (before 61 pair) (str (after 61 pair)) d)

  abbrev with_args : Fields F → Fields F → Fields F
  with_args end d = d
  with_args (field k v rest) d = put (codes "args") (obj (field k v rest)) d

  unfoldable pub mode_body : Args F → Fields F
  unfolding supplied
  mode_body args =
      with_args (supplied args.arg end) (field (codes "value") (text_or_null args.value) end)

  unfoldable pub config_body : Args F → Fields F
  config_body args =
      let action = value_or args.value (codes "get") in
      let given = value_or args.assignment [] in
      if str_eq action (codes "set")
      then field (codes "action") (str (codes "set")) (
          field (codes "key") (str (before 61 given))
            (field (codes "value") (str (after 61 given)) end))
      else field (codes "action") (str action) end

  unfoldable pub record_body : Args F → Fields F
  record_body args = put_text (codes "episode") args.episode (
      put_text (codes "note") args.note (
        put_text (codes "task") args.task (
          field (codes "dataset") (str args.dataset)
            (field (codes "action") (str (value_or args.value (codes "start"))) end))))

  unfoldable pub session_body : Args F → Fields F
  session_body args =
      put_text (codes "dataset") args.dataset
        (field (codes "action") (str (value_or args.value (codes "get"))) end)

  unfoldable pub pose_body : Args F → Fields F
  pose_body args =
      put_text (codes "name") (value_or args.assignment [])
        (field (codes "action") (str (value_or args.value (codes "list"))) end)

  -- `{"enabled": PERCEPTION_DEBUG_VALUES[args.value]}`
  unfoldable pub perception_debug_body : Option Str → Payload F
  perception_debug_body none = key_error
  perception_debug_body (some value) =
      if str_eq value (codes "on")
      then body (field (codes "enabled") (bool true) end)
      else if str_eq value (codes "off")
      then body (field (codes "enabled") (bool false) end)
      else key_error

  abbrev put_flag : Str → Bool → Fields F → Fields F
  put_flag name true d = put name (bool true) d
  put_flag name false d = d

  unfoldable pub collect_body : Args F → Fields F
  collect_body args = put_flag (codes "no_record") args.no_record (
      put_given float (codes "speed") args.speed (
        put_given int (codes "cycles") args.cycles (
          put_given float (codes "hours") args.hours (
            put_text (codes "object") args.object
              (field (codes "action") (str (value_or args.value (codes "status"))) end)))))

  unfoldable pub build_payload : Str → Args F → Payload F
  unfolding perception_debug_body mode_body config_body record_body session_body pose_body
      collect_body
  build_payload verb args =
      if str_eq verb (codes "mode")
      then body (mode_body args)
      else if str_eq verb (codes "config")
      then body (config_body args)
      else if str_eq verb (codes "record")
      then body (record_body args)
      else if str_eq verb (codes "session")
      then body (session_body args)
      else if str_eq verb (codes "pose")
      then body (pose_body args)
      else if str_eq verb (codes "perception_debug")
      then perception_debug_body args.value
      else if str_eq verb (codes "collect")
      then body (collect_body args)
      else no_body
