-- ===== src/Tests/Card.antt =====
-- The card of a robot, for src/fm_robot_agent/card.py.
use fm_robot_agent.Prelude.{ℕ, ◌≡◌, refl, codes}
use fm_robot_agent.Int.{pos}
use fm_robot_agent.Text.{str_eq}
use fm_robot_agent.Json.{int, str, obj, Fields, end, field, find, get_json}
use fm_robot_agent.Card.{RobotCard, holds, card_of, is_version, read_fields, read_card}
use fm_robot_agent.Card.Robot.{IsRobot, read_card-IsRobot}
use fm_robot_agent.Tests.Robot.{py}

abbrev fields : Fields ℕ
fields = field (codes "schema_version") (int (pos 1)) (
    field (codes "role") (str (codes "robot")) (
      field (codes "name") (str (codes "fm-rob-01"))
        (field (codes "robot") (str (codes "axol")) end)))

abbrev card : RobotCard
card = record { name = codes "fm-rob-01"; kind = codes "axol" }

card_reads : read_card py (holds (obj fields)) ≡ card_of card
unfolding read_card read_fields is_version get_json find str_eq
card_reads = refl

read_card-IsRobot_example :
    (d : Fields ℕ) × (holds (obj fields) ≡ holds (obj d)) × IsRobot py d card
read_card-IsRobot_example = read_card-IsRobot py (holds (obj fields)) card card_reads
