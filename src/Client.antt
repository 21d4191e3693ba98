-- ===== src/Client.antt =====
-- src/fm_robot_agent/client.py: device names, and the robot that a reply's key names.
pub mod Devices
pub mod Payload
pub mod Usage
use fm_robot_agent.Prelude.{List, [], ◌∷◌, Bool, if◌then◌else◌}
use fm_robot_agent.Text.{Str, str_eq, split, join, replace}
use fm_robot_agent.Verbs.Key.{key_prefix}

-- The codes of `-`, `_` and `/` are 45, 95 and 47.
unfoldable pub namespace_of : Str → Str
namespace_of device = replace 45 95 device

-- A key of four parts, the first two of them the prefix.
unfoldable pub device_in : List Str → Str
device_in (a ∷ b ∷ namespace ∷ verb ∷ []) =
    if str_eq (join (47 ∷ []) (a ∷ b ∷ [])) key_prefix then replace 95 45 namespace else []
device_in _ = []

unfoldable pub device_of : Str → Str
device_of key = device_in (split 47 key)
