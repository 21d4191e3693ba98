-- ===== src/Verbs/Equipment.antt =====
-- src/fm_robot_agent/verbs.py: the handlers of `pose`, `calibration`, `perception_debug`, `session`
-- and `record`.
use fm_robot_agent.Prelude.{
  ℕ, Bool, true, false, not, ◌&&◌, ◌||◌, Option, none, some, [], ◌++◌, leb, codes, length,
  if◌then◌else◌,
}
use fm_robot_agent.Text.{Str, str_eq}
use fm_robot_agent.Json.{Json, bool, str, obj, Fields, end, field, find, get_json, merge}
use fm_robot_agent.Protocol.{Action, pure, ◌>>=◌, Adapter, Bundle, Python}
use fm_robot_agent.Verbs.Reply.{Reply, envelope, refuse}
use fm_robot_agent.Verbs.Values.{truthy, or_else, valid_dataset, episode_pattern, pose_name}
use fm_robot_agent.Verbs.Checks.{in_words}
use fm_robot_agent.Verbs.Handlers.{
  pose_actions, session_actions, calibration_actions, record_actions, is_text, answer_with, refused,
}

module _ {F : Type 0} where
  abbrev pub json_text : Json F → Str
  json_text (str s) = s
  json_text _ = []

  -- `isinstance(value, str) and test(value)`
  abbrev pub text_such : (Str → Bool) → Json F → Bool
  text_such test (str s) = test s
  text_such test _ = false

  -- `body.get(name, "")`
  abbrev pub or_empty : Option (Json F) → Json F
  or_empty none = str []
  or_empty (some v) = v

  abbrev only_enabled : Fields F → Bool
  only_enabled end = true
  only_enabled (field k v d) = str_eq k (codes "enabled") && only_enabled d

  -- The boolean of a body that holds `enabled` and nothing else.
  unfoldable pub enabled_of : Fields F → Option Bool
  enabled_of body = elim (find (codes "enabled") body) [
    | some (bool b) ↦ if only_enabled body then some b else none
    | _ ↦ none
  ]

abbrev pub max_note_len : ℕ
max_note_len = 500

module _ (py : Python) {S : Type 0} (adapter : Adapter py.F S) (key : Str) where
  open py use {F}

  -- `_pose`. A name that is no text but false to Python is passed on as the empty text.
  unfoldable pub pose : Fields F → Action S (Reply F)
  pose body =
      let action = or_else py (get_json (codes "action") body) (codes "list") in
      let name = or_empty (find (codes "name") body) in
      if not (in_words action pose_actions)
      then refused py adapter key (codes "action must be one of ('list', 'plan', 'go', 'home')")
      else if is_text action (codes "plan") || is_text action (codes "go")
      then (if text_such pose_name name
          then answer_with py adapter key (adapter.pose (json_text action) (json_text name))
          else refused py adapter key
              (json_text action ++ codes " needs a pose name; list them with action list"))
      else if truthy py name
      then refused py adapter key (json_text action ++ codes " takes no pose name")
      else answer_with py adapter key (adapter.pose (json_text action) (json_text name))

  -- `_perception_debug`
  unfoldable pub perception_debug : Fields F → Action S (Reply F)
  perception_debug body = elim (enabled_of body) [
    | none ↦
        refused py adapter key
          (codes "perception_debug takes {\"enabled\": true|false} and nothing else")
    | some enabled ↦ answer_with py adapter key (adapter.perception_debug enabled)
  ]

  -- the `session` branch of `answer`
  unfoldable pub session : Fields F → Action S (Reply F)
  session body =
      let action = or_else py (get_json (codes "action") body) (codes "get") in
      let dataset = or_else py (get_json (codes "dataset") body) [] in
      if not (in_words action session_actions)
      then refused py adapter key (codes "action must be one of ('get', 'set', 'clear')")
      else if is_text action (codes "set") && not (text_such valid_dataset dataset)
      then refused py adapter key (codes "invalid dataset name")
      else answer_with py adapter key (
          adapter.session (json_text action)
            (if is_text action (codes "set") then json_text dataset else []))

  -- the `record` branch of `answer`, which is its last
  unfoldable pub record_take : Fields F → Action S (Reply F)
  record_take body =
      let dataset = or_else py (get_json (codes "dataset") body) [] in
      let action = or_else py (get_json (codes "action") body) [] in
      let task = or_else py (get_json (codes "task") body) [] in
      let note = or_else py (get_json (codes "note") body) [] in
      let episode = or_else py (get_json (codes "episode") body) [] in
      if not (text_such valid_dataset dataset)
      then refused py adapter key (codes "invalid dataset name")
      else if not (in_words action record_actions)
      then refused py adapter key (codes "action must be one of ('start', 'stop')")
      else if not (text_such (λ s. true) task)
      then refused py adapter key (codes "task must be the instruction sentence, as text")
      else if is_text action (codes "start") && (truthy py note || truthy py episode)
      then refused py adapter key (codes "note and episode belong to a stop")
      else if not (text_such (λ s. leb (length s) max_note_len) note)
      then refused py adapter key (codes "note must be text of at most 500 characters")
      else if not (text_such (λ s. leb (length s) 0 || episode_pattern s) episode)
      then refused py adapter key (codes "episode must be the recorder's numeric episode ID")
      else answer_with py adapter key (
          adapter.record_take (json_text dataset) (json_text action) (json_text task)
            (json_text note) (json_text episode))

-- `_calibration`, on the bundle's own state.
unfoldable pub calibration :
    (py : Python) {S : Type 0} → Bundle py.F S → Str → Fields py.F → Action S (Reply py.F)
calibration py bundle key body =
    let action = or_else py (get_json (codes "action") body) (codes "get") in
    if not (in_words action calibration_actions)
    then pure (refuse key (codes "action must be one of ('get', 'set')"))
    else if is_text action (codes "get")
    then (do
      cameras ← bundle.read_all
      pure (
          envelope key (field (codes "ok") (bool true) (field (codes "cameras") (obj cameras) end))
            true))
    else if not (text_such (λ s. true) (get_json (codes "camera") body))
    then pure (refuse key (codes "set needs a camera"))
    else (do
      entry ←
          bundle.write (json_text (get_json (codes "camera") body)) (get_json (codes "lens") body)
            (get_json (codes "mount") body)
      pure (
          envelope key
            (merge
              (field (codes "ok") (bool true)
                (field (codes "camera") (get_json (codes "camera") body) end))
              entry)
            true))
