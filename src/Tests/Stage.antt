-- ===== src/Tests/Stage.antt =====
-- A swap whose last rename fails.
use fm_robot_agent.Prelude.{ℕ, ◌≡◌, refl, true, false, none, some, List, [], ◌∷◌, codes, every}
use fm_robot_agent.Text.{Str, str_eq}
use fm_robot_agent.Stage.Atomic.{listed}
use fm_robot_agent.Stage.{managed, Dirs, set, out_of, into, swap_in, swap}
use fm_robot_agent.Stage.Restored.{swap-restored}

abbrev entries : List Str
entries = codes "packages" ∷ codes "robot.urdf" ∷ []

-- Three names are held, and the second entry cannot be placed.
abbrev staged : Dirs ℕ
staged = record {
  bundle =
      set (codes "robot.urdf") (some 1)
        (set (codes "packages") (some 2) (set (codes "calibration") (some 3) (λ q. none)));
  new = set (codes "robot.urdf") (some 4) (set (codes "packages") (some 5) (λ q. none));
  old = λ q. none;
  fails_after = some 3;
}

fails : (swap entries staged).0 ≡ false
unfolding swap swap_in out_of into str_eq
fails = refl

known : every (λ e. listed e managed) entries ≡ true
unfolding str_eq
known = refl

swap-restored_example : (swap entries staged).1.bundle (codes "packages") ≡ some 2
unfolding str_eq
swap-restored_example = swap-restored (codes "packages") entries staged known fails
