-- ===== src/Tests/Book.antt =====
-- A book of two poses, on whole numbers, and the states of a robot.
use fm_robot_agent.Prelude.{◌≡◌, refl, true, false, not, ◌&&◌, ◌↔◌, none, some, [], ◌∷◌, codes}
use fm_robot_agent.Int.{ℤ, pos, negsuc, leb_ℤ}
use fm_robot_agent.Text.{str_eq, starts_with}
use fm_robot_agent.Json.{Json, int, obj, end, field, find, get_json}
use fm_robot_agent.Dict.{get}
use fm_robot_agent.Calibration.{Number, whole, real}
use fm_robot_agent.Pose.Book.{
  Angles, found, is_pose_name, is_arm_joint, move_refusal, joints_in, checked_joints, check,
  check_each, read_book, pose_named,
}
use fm_robot_agent.Pose.Book.Bounds.{GoodPose, pose_named-GoodPose, move_refusal-none}

abbrev plain : Number ℤ → ℤ
plain (whole z) = z
plain (real z) = z

abbrev whole_angles : Angles
whole_angles = record {
  F = ℤ;
  is_finite = λ v. some true;
  past_max = λ v. not (leb_ℤ (negsuc 2) (plain v) && leb_ℤ (plain v) (pos 3));
  to_float = plain;
}

abbrev bent : Json ℤ
bent = obj (field (codes "follower_l_joint1") (int (negsuc 1)) end)

abbrev book : Json ℤ
book =
    obj (
      field (codes "poses") (obj (field (codes "home") bent (field (codes "board-1") bent end)))
        end)

board :
    pose_named whole_angles (λ text. some book) (some []) (codes "board-1")
    ≡ found ((codes "follower_l_joint1", negsuc 1) ∷ [])
unfolding pose_named read_book check_each check checked_joints joints_in is_pose_name is_arm_joint
    starts_with get get_json find str_eq
board = refl

pose_named-GoodPose_example :
    (is_pose_name (codes "board-1") ≡ true)
    × GoodPose whole_angles ((codes "follower_l_joint1", negsuc 1) ∷ [])
pose_named-GoodPose_example =
    pose_named-GoodPose whole_angles (λ text. some book) (some []) (codes "board-1")
      ((codes "follower_l_joint1", negsuc 1) ∷ []) board

move_refusal-none_example :
    (move_refusal true (some false) none ≡ none)
    ↔ ((true ≡ true) × (some false ≡ some false) × (none ≡ some false))
move_refusal-none_example = move_refusal-none true (some false) none
