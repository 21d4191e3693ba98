-- ===== src/Tests/Keys.antt =====
-- Writes of keys of the Anvil's env file, on a small host.
use fm_robot_agent.Prelude.{
  ◌≡◌, refl, ◌+◌, false, ◌&&◌, leb, true, none, some, [], codes, map, if◌then◌else◌,
}
use fm_robot_agent.Int.{pos, show_ℤ, show_ℕ}
use fm_robot_agent.Text.{Str, str_eq, strip, contains}
use fm_robot_agent.Text.Lines.{IsLine}
use fm_robot_agent.Text.Strip.{IsTrimmed}
use fm_robot_agent.Config.EnvFile.Laws.{IsValue}
use fm_robot_agent.Anvil.World.{World, pure}
use fm_robot_agent.Anvil.Pair.{Writer}
use fm_robot_agent.Anvil.Severing.{Codec}
use fm_robot_agent.Anvil.Keys.{
  peer_key, value, TextRules, validated, validated_text, integer, config_write,
}
use fm_robot_agent.Anvil.Keys.Values.{validated-IsValue}
use fm_robot_agent.Anvil.Keys.Guards.{Written, key_in_file, config_write-Written}

abbrev lower_ascii : Str → Str
lower_ascii s = map (λ c. if leb 65 c && leb c 90 then c + 32 else c) s

-- Every text is the number 42, and none is a float or an address.
abbrev forty_two : TextRules (Unit {0})
forty_two = record {
  lower = lower_ascii;
  int_of = λ s. some (pos 42);
  float_of = λ s. none;
  is_scale = λ x. true;
  address_of = λ s. none;
}

no_address : (s a : Str) → forty_two.address_of s ≡ some a → contains 37 s ≡ false → IsValue a
no_address s a e k = cc

no_float : (s : Str) (x : Unit {0}) → IsTrimmed s → forty_two.float_of s ≡ some x → IsLine s
no_float s x t e = cc

no_peer :
    str_eq (codes "ROS_DOMAIN_ID") peer_key ≡ true → contains 37 (strip (codes " 42 ")) ≡ false
unfolding str_eq
no_peer e = cc

domain_42 : validated forty_two [] (codes "ROS_DOMAIN_ID") (codes " 42 ") ≡ value (codes "42")
unfolding validated validated_text integer show_ℤ show_ℕ str_eq
domain_42 = refl

validated-IsValue_example : IsValue (codes "42")
validated-IsValue_example =
    validated-IsValue forty_two [] tt no_address no_float (codes "ROS_DOMAIN_ID") (codes " 42 ")
      (codes "42") no_peer domain_42

abbrev journal_codec : Codec
journal_codec = record {
  dumps = λ e. e.key;
  loads = λ t. some (record { key = t; value = []; files = [] });
  comms_first = true;
}

abbrev bench : World
bench = record {
  live = λ p. some (codes "ENABLE_VR_TELEOP=true");
  temps = λ p. none;
  can_write = λ p. true;
  stack_up = true;
  fates = [];
  glances = [];
}

abbrev keep_text : Writer
keep_text = record { sets = λ text alias v. text; leaves = λ text alias v. text }

-- `ENABLE_VR_TELEOP` is not the key of an address.
no_peer_either :
    str_eq (key_in_file (codes "ENABLE_VR_TELEOP")) peer_key ≡ true
    → contains 37 (strip (codes "False")) ≡ false
unfolding str_eq
no_peer_either e = cc

config_write-Written_example :
    Written forty_two journal_codec keep_text []
      (pure (codes "recreated"))
      (key_in_file (codes "ENABLE_VR_TELEOP"))
      (codes "False")
      bench
      (config_write forty_two journal_codec keep_text []
        (pure (codes "recreated"))
        (codes "ENABLE_VR_TELEOP")
        (codes "False")
        bench)
config_write-Written_example =
    config_write-Written forty_two journal_codec keep_text [] (pure (codes "recreated")) tt
      no_address no_float (codes "ENABLE_VR_TELEOP") (codes "False") bench no_peer_either
