-- ===== src/Tests/Files.antt =====
-- The theorems on src/fm_robot_agent/config.py at a small env file.
use fm_robot_agent.Prelude.{◌≡◌, refl, some, [], List, ◌∷◌, ◌++◌, arith, codes, if◌then◌else◌}
use fm_robot_agent.Text.{Str, str_eq, is_space, rstrip_by, drop_while}
use fm_robot_agent.Text.Lines.{splitlines, is_break}
use fm_robot_agent.Dict.{get}
use fm_robot_agent.Config.EnvFile.{env_values, env_replaced}
use fm_robot_agent.Anvil.Mode.{mode_key, read_mode, read_mode-env_replaced}
use fm_robot_agent.Config.EnvFile.Laws.{
  IsKey, IsValue, Rewritten, splitlines-env_replaced, get-env_replaced, env_replaced-env_replaced,
}

abbrev domain : Str
domain = codes "ROS_DOMAIN_ID"

abbrev held : Str
held =
    codes "ROS_DOMAIN_ID=7" ++ 10 ∷ codes "# kept" ++ 10 ∷ codes "CYCLONEDDS_IFACE=eth0" ++ 10 ∷ []

domain-IsKey : IsKey domain
unfolding is_space
domain-IsKey = ground arith

forty_two-IsValue : IsValue (codes "42")
unfolding rstrip_by is_space is_break drop_while
forty_two-IsValue = ((refl, refl), ground arith)

splitlines-env_replaced_example :
    (rest : List Str) × Rewritten domain (splitlines held) rest
    × (splitlines (env_replaced held domain (codes "42"))
        ≡ rest ++ (domain ++ 61 ∷ codes "42") ∷ [])
splitlines-env_replaced_example =
    splitlines-env_replaced domain domain-IsKey held (codes "42") forty_two-IsValue

get-env_replaced_example :
    get (codes "CYCLONEDDS_IFACE") (env_values (env_replaced held domain (codes "42"))) ≡ (
      if str_eq domain (codes "CYCLONEDDS_IFACE")
      then some (codes "42")
      else get (codes "CYCLONEDDS_IFACE") (env_values held))
get-env_replaced_example =
    get-env_replaced domain domain-IsKey held (codes "42") forty_two-IsValue
      (codes "CYCLONEDDS_IFACE")

env_replaced-env_replaced_example :
    env_replaced (env_replaced held domain (codes "42")) domain (codes "43")
    ≡ env_replaced held domain (codes "43")
env_replaced-env_replaced_example =
    env_replaced-env_replaced domain domain-IsKey held (codes "42") forty_two-IsValue (codes "43")

teleop-IsValue : IsValue (codes "teleop.yaml")
unfolding rstrip_by is_space is_break drop_while
teleop-IsValue = ((refl, refl), ground arith)

read_mode-env_replaced_example :
    read_mode (some (env_replaced held mode_key (codes "teleop.yaml"))) ≡ some (codes "teleop.yaml")
read_mode-env_replaced_example = read_mode-env_replaced held (codes "teleop.yaml") teleop-IsValue
