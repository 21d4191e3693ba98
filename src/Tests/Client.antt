-- ===== src/Tests/Client.antt =====
-- Command lines of src/fm_robot_agent/client.py, and a robot that counts its calls.
use fm_robot_agent.Prelude.{ℕ, ◌≡◌, refl, false, Option, none, some, [], codes}
use fm_robot_agent.Text.{Str, str_eq}
use fm_robot_agent.Verbs.Key.{Verb}
use fm_robot_agent.Verbs.Handlers.{config, answer_with}
use fm_robot_agent.Client.Payload.{Args, body, build_payload}
use fm_robot_agent.Client.Payload.Reaches.{set_request, build_payload-config_write}
use fm_robot_agent.Client.Usage.{card_from, valid_device, verb_error, usage_error, queried_key}
use fm_robot_agent.Client.Usage.Accepted.{
  is_key_error, build_payload-no_key_error, Asked, usage_error-Asked, typed_verb,
}
use fm_robot_agent.Tests.Robot.{py, robot}

abbrev typed : Option Str → Option Str → Args ℕ
typed value assignment = record {
  value = value;
  assignment = assignment;
  arg = [];
  dataset = [];
  task = [];
  note = [];
  episode = [];
  object = [];
  hours = none;
  cycles = none;
  speed = none;
  no_record = false;
}

-- `config set A=b=c`: the value holds the second sign.
abbrev set_line : Args ℕ
set_line = typed (some (codes "set")) (some (codes "A=b=c"))

abbrev debug_line : Args ℕ
debug_line = typed (some (codes "on")) none

build_payload-config_write_example :
    (build_payload (codes "config") set_line ≡ body (set_request (codes "A") (codes "b=c")))
    × (config py robot [] (set_request (codes "A") (codes "b=c"))
        ≡ answer_with py robot [] (robot.config_write (codes "A") (codes "b=c")))
build_payload-config_write_example =
    build_payload-config_write py robot [] set_line 65 98 [] (codes "=c") refl refl (refl, tt) refl

debug_line_passes : verb_error (codes "perception_debug") debug_line ≡ none
unfolding verb_error str_eq
debug_line_passes = refl

build_payload-no_key_error_example :
    is_key_error (build_payload (codes "perception_debug") debug_line) ≡ false
build_payload-no_key_error_example =
    build_payload-no_key_error ℕ (codes "perception_debug") debug_line debug_line_passes

debug_line_accepted :
    usage_error (λ s. s) (codes "fm-rob-01") (some (codes "perception_debug")) debug_line ≡ none
unfolding usage_error valid_device card_from verb_error str_eq
debug_line_accepted = refl

usage_error-Asked_example :
    Asked
      (codes "fm-rob-01")
      (some Verb.perception_debug)
      (queried_key (codes "fm-rob-01") (typed_verb (some Verb.perception_debug)))
usage_error-Asked_example =
    usage_error-Asked ℕ (λ s. s) (codes "fm-rob-01") (some Verb.perception_debug) debug_line
      debug_line_accepted

-- `list` is asked of every robot, without a verb.
listing_accepted : usage_error (λ s. s) (codes "list") none debug_line ≡ none
unfolding usage_error str_eq
listing_accepted = refl
