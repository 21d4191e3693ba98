-- ===== src/Anvil/Severing/Keeps.antt =====
-- src/fm_robot_agent/anvil.py: restarting and restoring never touch the journal.
use fm_robot_agent.Prelude.{
  refl, Bool, true, false, Option, none, some, List, [], ◌∷◌, ◌++◌, codes, not, keep, map,
  if◌then◌else◌,
}
use fm_robot_agent.Text.{Str}
use fm_robot_agent.Dict.{Dict, get}
use fm_robot_agent.Config.EnvFile.{env_values}
use fm_robot_agent.Anvil.World.{M, pure, ◌>>=◌, ◌>>◌, on_os, act}
use fm_robot_agent.Anvil.Calls.{Keeps, chain-Keeps, on_os-Keeps, on_adapter-Keeps}
use fm_robot_agent.Anvil.Host.{act-Keeps}
use fm_robot_agent.Anvil.Pair.{Writer, Texts, places, write_atomic, fleet_write, paired_keys}
use fm_robot_agent.Anvil.Pair.Reads.{Every, none_left, one_more}
use fm_robot_agent.Anvil.Pair.Atomic.{keep-Every}
use fm_robot_agent.Anvil.Pair.Elsewhere.{journal_of, Outside, write_atomic-Keeps, fleet_write-Keeps}
use fm_robot_agent.Anvil.Severing.{
  restore, run_quietly, restart_data_plane, restore_alias, where_wanted, restore_value, wanted,
  restore_keys, restore_through, restore_files,
}

run_quietly-Keeps : Keeps journal_of run_quietly
unfolding run_quietly
run_quietly-Keeps =
    on_os-Keeps journal_of (act (λ w. w)) (pure tt)
      (act-Keeps journal_of (λ w. w) (λ _ _. refl) (λ _. refl)) (λ _. refl)

pub restart-Keeps : Keeps journal_of restart_data_plane
unfolding restart_data_plane
restart-Keeps =
    chain-Keeps journal_of run_quietly (λ _. run_quietly) run_quietly-Keeps (λ _. run_quietly-Keeps)

restore-Keeps : (files : Texts) → Every Outside (places files) → Keeps journal_of (restore files)
unfolding restore
restore-Keeps [] none_left w = refl
restore-Keeps ((p, text) ∷ files) (one_more o os) w =
    chain-Keeps journal_of (on_os (write_atomic p text >> pure true) (pure false))
      (λ written. restore files >>= λ restored. pure (if written then p ∷ restored else restored))
      (on_os-Keeps journal_of (write_atomic p text >> pure true) (pure false)
        (chain-Keeps journal_of (write_atomic p text) (λ _. pure true) (write_atomic-Keeps p text o)
          (λ _ _. refl))
        (λ _. refl))
      (λ written.
        chain-Keeps journal_of (restore files)
          (λ restored. pure (if written then p ∷ restored else restored)) (restore-Keeps files os)
          (λ _ _. refl))
      w

module _ (writer : Writer) where
  restore_value-Keeps :
      (changed : Str) (value : Option Str) (others : M Bool)
      → Keeps journal_of others
      → Keeps journal_of (restore_value writer changed value others)
  restore_value-Keeps changed none others h w = h w
  restore_value-Keeps changed (some value) others h w =
      on_adapter-Keeps journal_of (fleet_write writer changed value >> pure true) (λ m. pure false)
        (chain-Keeps journal_of (fleet_write writer changed value) (λ _. pure true)
          (fleet_write-Keeps writer changed value) (λ _ _. refl))
        (λ _ _. refl) w

  restore_alias-Keeps :
      (changed : Str) (held : Dict Str) (aliases : List Str)
      → Keeps journal_of (restore_alias writer changed held aliases)
  unfolding restore_alias
  restore_alias-Keeps changed held [] w = refl
  restore_alias-Keeps changed held (alias ∷ aliases) w =
      restore_value-Keeps changed (get alias held) (restore_alias writer changed held aliases)
        (restore_alias-Keeps changed held aliases) w

  where_wanted-Keeps :
      (b : Bool) (m : M Bool) → Keeps journal_of m → Keeps journal_of (where_wanted b m)
  where_wanted-Keeps true m h w = h w
  where_wanted-Keeps false m h w = refl

  restore_keys-Keeps :
      (key : Str) (held : Dict Str) (keys : List Str)
      → Keeps journal_of (restore_keys writer key held keys)
  unfolding restore_keys
  restore_keys-Keeps key held [] w = refl
  restore_keys-Keeps key held (changed ∷ others) w =
      let one = restore_alias writer changed held (paired_keys changed) in
      chain-Keeps journal_of (where_wanted (wanted key changed) one)
        (λ written. restore_keys writer key held others >>= λ restored.
          pure (if written then changed ∷ restored else restored))
        (where_wanted-Keeps (wanted key changed) one
          (restore_alias-Keeps changed held (paired_keys changed)))
        (λ written.
          chain-Keeps journal_of (restore_keys writer key held others)
            (λ restored. pure (if written then changed ∷ restored else restored))
            (restore_keys-Keeps key held others) (λ _ _. refl))
        w

  restore_through-Keeps :
      (key : Str) (files : Texts) → Keeps journal_of (restore_through writer key files)
  unfolding restore_through
  restore_through-Keeps key [] w = refl
  restore_through-Keeps key ((p, text) ∷ files) w =
      let names = codes "ROS_DOMAIN_ID" ∷ codes "CYCLONEDDS_IFACE" ∷ [] in
      chain-Keeps journal_of (restore_keys writer key (env_values text) names)
        (λ changed.
          restore_through writer key files >>= λ restored. pure (map (λ _. p) changed ++ restored))
        (restore_keys-Keeps key (env_values text) names)
        (λ changed.
          chain-Keeps journal_of (restore_through writer key files)
            (λ restored. pure (map (λ _. p) changed ++ restored)) (restore_through-Keeps key files)
            (λ _ _. refl))
        w

  pub restore_files-Keeps :
      (files : Texts) (key : Str)
      → Every Outside (places files)
      → Keeps journal_of (restore_files writer files key)
  unfolding restore_files
  restore_files-Keeps files key os w =
      let direct = keep (λ e. w.can_write e.0) files in
      let others = keep (λ e. not (w.can_write e.0)) files in
      chain-Keeps journal_of (restore direct)
        (λ restored. restore_through writer key others >>= λ more. pure (restored ++ more))
        (restore-Keeps direct (keep-Every (λ e. w.can_write e.0) files os))
        (λ restored.
          chain-Keeps journal_of (restore_through writer key others)
            (λ more. pure (restored ++ more)) (restore_through-Keeps key others) (λ _ _. refl))
        w
