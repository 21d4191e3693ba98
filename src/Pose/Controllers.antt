-- ===== src/Pose/Controllers.antt =====
-- src/fm_robot_agent/pose_move.py: controllers switched only where they still have to be.
use fm_robot_agent.Prelude.{
  Bool, true, false, not, ◌&&◌, Option, none, some, List, [], ◌∷◌, ◌++◌, codes, every, keep, map,
  if◌then◌else◌,
}
use fm_robot_agent.Text.{Str, str_eq}
use fm_robot_agent.Dict.{Dict, get}

-- The joints of a trajectory controller: seven, then the finger.
unfoldable pub joints_of : Str → List Str
joints_of side =
    map (λ i. codes "follower_" ++ side ++ codes "_joint" ++ i ∷ [])
      (b'1' ∷ b'2' ∷ b'3' ∷ b'4' ∷ b'5' ∷ b'6' ∷ b'7' ∷ [])
    ++ (codes "follower_" ++ side ++ codes "_finger_joint1") ∷ []

abbrev is_active_state : Option Str → Bool
is_active_state none = false
is_active_state (some s) = str_eq s (codes "active")

-- `states.get(c) == "active"`
abbrev pub is_active : Dict Str → Str → Bool
is_active states c = is_active_state (get c states)

unfoldable pub switch_needed : Dict Str → List Str → List Str → List Str × List Str
switch_needed states activate deactivate =
    (keep (λ c. not (is_active states c)) activate, keep (λ c. is_active states c) deactivate)

abbrev pub is_empty : List Str → Bool
is_empty [] = true
is_empty (c ∷ cs) = false

abbrev pub or_empty : Option (Dict Str) → Dict Str
or_empty none = []
or_empty (some states) = states

-- The controller manager, on a state of its own.
pub record Manager (S : Type 0) : Type 0 where
  pub read_states : S → Option (Dict Str) × S
  pub request : List Str → List Str → S → Bool × S

module _ {S : Type 0} (manager : Manager S) where
  -- The manager's states once more, after it has agreed.
  unfoldable pub confirm : List Str → List Str → Bool → S → Bool × S
  confirm on off false s = (false, s)
  confirm on off true s =
      let (after, s') = manager.read_states s in
      let states = or_empty after in
      (every (is_active states) on && every (λ c. not (is_active states c)) off, s')

  unfoldable pub switch_from : List Str → List Str → Option (Dict Str) → S → Bool × S
  switch_from activate deactivate none s = (false, s)
  switch_from activate deactivate (some before) s =
      let (on, off) = switch_needed before activate deactivate in
      let (agreed, s') = manager.request on off s in
      if is_empty on && is_empty off then (true, s) else confirm on off agreed s'

  unfoldable pub switch_controllers : List Str → List Str → S → Bool × S
  switch_controllers activate deactivate s =
      let (before, s') = manager.read_states s in switch_from activate deactivate before s'
