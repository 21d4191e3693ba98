-- ===== src/Tests/Router.antt =====
-- The router's theorems of src/fm_robot_agent/verbs.py, on a robot that counts its calls.
use fm_robot_agent.Prelude.{◌≡◌, refl, false, none, some, [], ◌++◌, arith, codes}
use fm_robot_agent.Text.{Str, str_eq}
use fm_robot_agent.Json.{find, get_json}
use fm_robot_agent.Verbs.Key.{Verb, verb_name, key_of, verb_of, discovery_segment}
use fm_robot_agent.Verbs.Key.Addressing.{verb_of-key_of, verb_of-discovery, verb_of_sound, Names}
use fm_robot_agent.Verbs.Values.{or_else}
use fm_robot_agent.Verbs.Reply.{refuse}
use fm_robot_agent.Verbs.Router.{Query, answer}
use fm_robot_agent.Verbs.Router.Replies.{key-answer, discovery_commands_nothing}
use fm_robot_agent.Verbs.Router.Guards.{
  Guarded, IsCollectCall, IsRecordCall, collect-Guarded, record_take-Guarded,
}
use fm_robot_agent.Verbs.Router.Writes.{
  IsModeCall, IsConfigCall, IsPoseCall, mode-Guarded, config-Guarded, pose-Guarded,
}
use fm_robot_agent.Verbs.Handlers
use fm_robot_agent.Verbs.Equipment
use fm_robot_agent.Client.{namespace_of, device_of}
use fm_robot_agent.Client.Devices.{device_of-key_of}
use fm_robot_agent.Tests.Robot.{py, robot, bundle, stop_body}

abbrev name : Str
name = codes "fm-rob-01"

abbrev stop_query : Query
stop_query = record { key = key_of name (codes "stop"); parameters = []; payload = none }

abbrev wildcard_stop : Query
wildcard_stop = record {
  key = key_of discovery_segment (codes "stop");
  parameters = [];
  payload = none;
}

other_name : str_eq discovery_segment name ≡ false
unfolding str_eq
other_name = refl

stop_not_get :
    Handlers.is_text (or_else py (get_json (codes "action") stop_body) []) (codes "get") ≡ false
unfolding str_eq get_json find
stop_not_get = refl

key-answer_example :
    (answer py robot bundle name stop_query 0).0.key ≡ key_of name (verb_name Verb.stop)
key-answer_example =
    key-answer py robot bundle name stop_query 0 Verb.stop
      (verb_of-key_of name Verb.stop (ground arith))

discovery_commands_nothing_example :
    answer py robot bundle name wildcard_stop 0
    ≡ (refuse wildcard_stop.key (codes "unknown key " ++ py.repr wildcard_stop.key), 0)
discovery_commands_nothing_example =
    discovery_commands_nothing py robot bundle name wildcard_stop 0 Verb.stop other_name refl
      (ground arith)

collect-Guarded_example :
    Guarded name (IsCollectCall py robot name) (Handlers.collect py robot name stop_body)
collect-Guarded_example = collect-Guarded py robot name stop_body

record_take-Guarded_example :
    Guarded name (IsRecordCall py robot name) (Equipment.record_take py robot name stop_body)
record_take-Guarded_example = record_take-Guarded py robot name stop_body

mode-Guarded_example :
    Guarded name (IsModeCall py robot name) (Handlers.mode py robot name stop_body)
mode-Guarded_example = mode-Guarded py robot name stop_body

config-Guarded_example :
    Guarded name (IsConfigCall py robot name) (Handlers.config py robot name stop_body)
config-Guarded_example = config-Guarded py robot name stop_body stop_not_get

pose-Guarded_example :
    Guarded name (IsPoseCall py robot name) (Equipment.pose py robot name stop_body)
pose-Guarded_example = pose-Guarded py robot name stop_body

verb_of-key_of_example : verb_of (key_of name (codes "stop")) name ≡ some Verb.stop
verb_of-key_of_example = verb_of-key_of name Verb.stop (ground arith)

verb_of-discovery_example :
    verb_of (key_of discovery_segment (codes "status")) name ≡ some Verb.status
verb_of-discovery_example = verb_of-discovery name Verb.status other_name

verb_of_sound_example : Names (key_of name (codes "stop")) Verb.stop name
verb_of_sound_example =
    verb_of_sound (key_of name (codes "stop")) name Verb.stop verb_of-key_of_example

device_of-key_of_example :
    device_of (key_of (namespace_of (codes "fm-rob-01")) (codes "stop")) ≡ codes "fm-rob-01"
device_of-key_of_example =
    device_of-key_of (codes "fm-rob-01") Verb.stop (ground arith) (ground arith)
