-- ===== src/Pose/Book.antt =====
-- src/fm_robot_agent/arm_poses.py: the poses staged on a robot, and why a move may not start. Floats
-- are a parameter, and so is `json`; the names in messages are left out.
pub mod Bounds
use fm_robot_agent.Prelude.{
  ℕ, Bool, true, false, not, ◌&&◌, ◌||◌, Option, none, some, List, [], ◌∷◌, ◌++◌, codes, every, leb,
  length, ◌==◌, if◌then◌else◌,
}
use fm_robot_agent.Text.{Str, str_eq, starts_with}
use fm_robot_agent.Json.{
  Json, null, bool, int, float, str, arr, obj, Fields, end, field, find, get_json,
}
use fm_robot_agent.Dict.{Dict, get}
use fm_robot_agent.Calibration.{Number, whole, real}

-- A pose or poses, an `AdapterError`, or the `OverflowError` that `math.isfinite` raises on a whole
-- number that is too large for a float.
pub data Found (A : Type 0) : Type 0 where
  found : A → Found A
  refused : Str → Found A
  overflow : Found A

infixl 5 ◌>>=◌
abbrev pub ◌>>=◌ : {A B : Type 0} → Found A → (A → Found B) → Found B
found a >>= f = f a
refused m >>= f = refused m
overflow >>= f = overflow

pub record Angles : Type 1 where
  pub F : Type 0
  -- `math.isfinite(value)`, nothing where it raises
  pub is_finite : Number F → Option Bool
  -- `abs(value) > MAX_ANGLE`
  pub past_max : Number F → Bool
  pub to_float : Number F → F

abbrev is_lower : ℕ → Bool
is_lower c = (leb 97 c && leb c 122) || (leb 48 c && leb c 57)

-- `POSE_NAME.fullmatch(name)`
unfoldable pub is_pose_name : Str → Bool
is_pose_name [] = false
is_pose_name (c ∷ s) = is_lower c && leb (length s) 31 && every (λ d. is_lower d || d == 45) s

abbrev is_side : ℕ → Bool
is_side c = c == 108 || c == 114

abbrev is_joint_number : ℕ → Bool
is_joint_number c = leb 49 c && leb c 55

joint_end : Str → Bool
joint_end (d ∷ []) = is_joint_number d
joint_end _ = false

side_end : Str → Bool
unfolding joint_end starts_with
side_end (c ∷ _' ∷ j ∷ o ∷ i ∷ n ∷ t ∷ rest) =
    is_side c && str_eq (_' ∷ j ∷ o ∷ i ∷ n ∷ t ∷ []) (codes "_joint") && joint_end rest
side_end _ = false

abbrev drop : ℕ → Str → Str
drop ℕ.zero s = s
drop (ℕ.suc n) [] = []
drop (ℕ.suc n) (c ∷ s) = drop n s

-- `JOINT_NAME.fullmatch(joint)`
unfoldable pub is_arm_joint : Str → Bool
unfolding side_end
is_arm_joint joint = starts_with (codes "follower_") joint && side_end (drop 9 joint)

-- `recording is not False`, and why.
abbrev pub unless_false : Option Bool → Str → Str → Option Str → Option Str
unless_false (some false) busy lost rest = rest
unless_false (some true) busy lost rest = some busy
unless_false none busy lost rest = some lost

-- `move_refusal`, by its code.
unfoldable pub move_refusal : Bool → Option Bool → Option Bool → Option Str
move_refusal false recording collecting = some (codes "not_armed")
move_refusal true recording collecting =
    unless_false recording (codes "recording") (codes "recording")
      (unless_false collecting (codes "collecting") (codes "collecting") none)

module _ (angles : Angles) where
  open angles use {F, is_finite, past_max, to_float}

  abbrev pub angle_if : Option Bool → Number F → Found F
  angle_if none v = overflow
  angle_if (some false) v = refused (codes "out of range")
  angle_if (some true) v = if past_max v then refused (codes "out of range") else found (to_float v)

  abbrev pub angle : Json F → Found F
  angle (int z) = angle_if (is_finite (whole z)) (whole z)
  angle (float x) = angle_if (is_finite (real x)) (real x)
  angle _ = refused (codes "out of range")

  -- The loop of `_check`.
  unfoldable pub joints_in : Fields F → Found (Dict F)
  joints_in end = found []
  joints_in (field joint value rest) =
      if not (is_arm_joint joint)
      then refused (codes "not an arm joint")
      else (do x ← angle value; joints ← joints_in rest; found ((joint, x) ∷ joints))

  -- `_check`, once the name is known to be one.
  unfoldable pub checked_joints : Json F → Found (Dict F)
  checked_joints (obj (field joint value rest)) = joints_in (field joint value rest)
  checked_joints _ = refused (codes "no joints")

  unfoldable pub check : Str → Json F → Found (Dict F)
  check name joints =
      if is_pose_name name then checked_joints joints else refused (codes "not a pose name")

  -- `{name: self._check(name, joints) for …}`
  unfoldable pub check_each : Fields F → Found (Dict (Dict F))
  check_each end = found []
  check_each (field name joints rest) = do
    pose ← check name joints
    poses ← check_each rest
    found ((name, pose) ∷ poses)

  abbrev pub is_there : Option (Json F) → Bool
  is_there none = false
  is_there (some v) = true

  abbrev pub poses_of : Json F → Found (Dict (Dict F))
  poses_of (obj poses) =
      if is_there (find (codes "home") poses)
      then check_each poses
      else refused (codes "no poses, or no home")
  poses_of _ = refused (codes "no poses, or no home")

  abbrev pub book_of : Option (Json F) → Found (Dict (Dict F))
  book_of none = refused (codes "not JSON")
  book_of (some (obj body)) = poses_of (get_json (codes "poses") body)
  book_of (some _) = refused (codes "no poses, or no home")

  -- `read`, of the file's text where there is a file, and of what `json.loads` makes of it.
  unfoldable pub read_book : (Str → Option (Json F)) → Option Str → Found (Dict (Dict F))
  read_book loads none = refused (codes "no calibration poses on this robot")
  read_book loads (some text) =
      if leb (length text) 65536
      then book_of (loads text)
      else refused (codes "the file is too large")

  abbrev pub named : Option (Dict F) → Found (Dict F)
  named none = refused (codes "no such pose")
  named (some joints) = found joints

  -- `pose`
  unfoldable pub pose_named : (Str → Option (Json F)) → Option Str → Str → Found (Dict F)
  pose_named loads file name = do poses ← read_book loads file; named (get name poses)
