-- ===== src/Pose.antt =====
-- src/fm_robot_agent/pose_move.py and arm_poses.py: named poses, and the slow move of both arms to
-- one. `Controllers` is the switch between controllers, `Move` the mover on an environment that
-- answers each call, `Book` the poses staged on the robot.
pub mod Controllers
pub mod Move
pub mod Switching
pub mod Book
