-- ===== src/Tests.antt =====
-- The theorems at concrete inputs: a small robot, a small host and the text of an env file.
mod Pose
mod Cdr
mod Stage
mod Book
mod Keys
mod Calibration
mod Robot
mod Router
mod Client
mod Card
mod Files
mod Host
mod Fake
