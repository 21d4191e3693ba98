-- ===== src/Tests/Fake.antt =====
-- The theorems on src/fm_robot_agent/fake.py at a fresh robot.
use fm_robot_agent.Prelude.{◌≡◌, refl, some, codes}
use fm_robot_agent.Dict.{get}
use fm_robot_agent.Fake.{fresh, config_write}
use fm_robot_agent.Fake.Takes.{OneMore, start_then_stop, start_then_stop-OneMore}
use fm_robot_agent.Fake.Rollback.{iface, Undone, config_write-Undone}
use fm_robot_agent.Text.{str_eq}

start_then_stop-OneMore_example :
    OneMore (codes "cups") fresh (start_then_stop (codes "cups") (codes "ok") fresh)
start_then_stop-OneMore_example = start_then_stop-OneMore (codes "cups") (codes "ok") fresh refl

held : get iface fresh.values ≡ some (codes "eth0")
unfolding get str_eq
held = refl

config_write-Undone_example :
    Undone (codes "wlan0") fresh (config_write iface (codes "wlan0") fresh)
config_write-Undone_example = config_write-Undone (codes "wlan0") (codes "eth0") fresh held
