-- ===== src/Stage.antt =====
-- src/fm_robot_agent/stage.py: `_swap`, on directories that say what each name holds. One call of the
-- operating system at most fails: `fails_after` is how many are done before it.
pub mod Atomic
pub mod Once
pub mod Restored
use fm_robot_agent.Prelude.{
  ℕ, zero, suc, Bool, true, false, Option, none, some, List, [], ◌∷◌, ◌++◌, codes, if◌then◌else◌,
  is_some,
}
use fm_robot_agent.Text.{Str, str_eq}

-- `MANAGED`
abbrev pub managed : List Str
managed = codes "robot.urdf" ∷ codes "packages" ∷ codes "arms" ∷ codes "grippers" ∷ []

abbrev pub Directory : Type 0 → Type 0
Directory T = Str → Option T

abbrev pub set : {T : Type 0} → Str → Option T → Directory T → Directory T
set name entry directory q = if str_eq q name then entry else directory q

pub record Dirs (T : Type 0) : Type 0 where
  pub bundle : Directory T
  pub new : Directory T
  pub old : Directory T
  pub fails_after : Option ℕ

-- Whether the next call is done, and how many are done after it.
abbrev pub next_from : Option ℕ → Bool × Option ℕ
next_from none = (true, none)
next_from (some zero) = (false, none)
next_from (some (suc n)) = (true, some n)

module _ {T : Type 0} where
  -- `entry.rename(old / name)`
  abbrev pub move_out : Str → Option ℕ → Dirs T → Dirs T
  move_out name left d = record d {
    bundle = set name none d.bundle;
    old = set name (d.bundle name) d.old;
    fails_after = left;
  }

  -- `entry.rename(bundle / entry.name)`
  abbrev pub move_in : Str → Option ℕ → Dirs T → Dirs T
  move_in name left d = record d {
    bundle = set name (d.new name) d.bundle;
    new = set name none d.new;
    fails_after = left;
  }

  -- The first loop, with `moved` so far; whether it ended.
  unfoldable pub out_of : List Str → List Str → Dirs T → (List Str × Bool) × Dirs T
  out_of [] moved d = ((moved, true), d)
  out_of (name ∷ names) moved d =
      let (is_done, left) = next_from d.fails_after in
      let skipped = out_of names moved d in
      let renamed = out_of names (moved ++ name ∷ []) (move_out name left d) in
      if is_some (d.bundle name)
      then (if is_done then renamed else ((moved, false), record d { fails_after = left }))
      else skipped

  -- The second loop, over the entries of `new`, with `placed` so far.
  unfoldable pub into : List Str → List Str → Dirs T → (List Str × Bool) × Dirs T
  into [] placed d = ((placed, true), d)
  into (name ∷ names) placed d =
      let (is_done, left) = next_from d.fails_after in
      let renamed = into names (placed ++ name ∷ []) (move_in name left d) in
      if is_done then renamed else ((placed, false), record d { fails_after = left })

  -- The handler's two loops: what was placed is removed, what was moved is renamed back.
  unfoldable pub remove_placed : List Str → Dirs T → Dirs T
  remove_placed [] d = d
  remove_placed (name ∷ names) d =
      remove_placed names (record d { bundle = set name none d.bundle })

  unfoldable pub bring_back : List Str → Dirs T → Dirs T
  bring_back [] d = d
  bring_back (name ∷ names) d =
      bring_back names
        (record d { bundle = set name (d.old name) d.bundle; old = set name none d.old })

  unfoldable pub undo : List Str → List Str → Dirs T → Dirs T
  undo placed moved d = bring_back moved (remove_placed placed d)

  -- `_swap` after its first loop; whether it returned.
  unfoldable pub swap_in : List Str → (List Str × Bool) × Dirs T → Bool × Dirs T
  swap_in entries ((moved, false), d) = (false, undo [] moved d)
  swap_in entries ((moved, true), d) =
      let ((placed, ended), d') = into entries [] d in
      if ended then (true, d') else (false, undo placed moved d')

  -- `_swap`; `entries` are the names in `new`, in the order of `iterdir`.
  unfoldable pub swap : List Str → Dirs T → Bool × Dirs T
  swap entries d = swap_in entries (out_of managed [] d)
