-- ===== src/Tests/Host.antt =====
-- The theorems on src/fm_robot_agent/anvil.py at a small host.
use fm_robot_agent.Prelude.{
  ◌≡◌, refl, inl, List, true, false, not, none, some, [], ◌∷◌, ◌++◌, Option, codes, if◌then◌else◌,
}
use fm_robot_agent.Text.{Str, before, after, str_eq}
use fm_robot_agent.Anvil.World.{
  returned, Place, env_config, comms_env, journal, same, World, Fate, done, fault, death, raised,
  adapter_error, read, act, write_temp, replace,
}
use fm_robot_agent.Anvil.Pair.{
  text_at, write_paired, write_edits, paired_edits, paired_keys, fleet_edit, stage, commit,
  write_atomic, undo, put_back, delegate, fleet_write, fleet_write_to, run_writer, Writer,
}
use fm_robot_agent.Anvil.Pair.Atomic.{write_paired-all_or_none}
use fm_robot_agent.Anvil.Severing.{
  Entry, Codec, journal_read, journal_open, write_journalled, write_severing, config_rollback,
  data_plane_returns, returns_by, data_plane_returns, returns_by,
}
use fm_robot_agent.Anvil.Severing.Recoverable.{
  entry_of, Recoverable, Stopped, write_severing-Recoverable,
}
use fm_robot_agent.Anvil.Severing.Window.{SeenInWindow, data_plane_returns-SeenInWindow}
use fm_robot_agent.Anvil.Severing.Restart.{AsBefore, restarted, write_severing-AsBefore}
use fm_robot_agent.Anvil.Severing.Rollback.{RolledBack, loader_alone, config_rollback-RolledBack}

-- The key, the value and the loader's file, a zero after each of the first two.
abbrev codec : Codec
codec = record {
  dumps = λ e. e.key ++ 0 ∷ e.value ++ 0 ∷ text_at env_config e.files;
  loads = λ t. some (record {
    key = before 0 t;
    value = before 0 (after 0 t);
    files = (env_config, after 0 (after 0 t)) ∷ [];
  });
  comms_first = true;
}

-- A command that spoils the file where it does not succeed.
abbrev writer : Writer
writer = record { sets = λ text alias value. text; leaves = λ text alias value. value }

abbrev files : Place → Option Str
files env_config = some (codes "ROS_DOMAIN_ID=7")
files comms_env = some (codes "FM_ROS_DOMAIN_ID=7")
files journal = none

abbrev host : List Fate → World
host fates = record {
  live = files;
  temps = λ p. none;
  can_write = λ p. true;
  stack_up = false;
  fates = fates;
  glances = [];
}

abbrev domain : Str
domain = codes "ROS_DOMAIN_ID"

-- The fleet's file goes through root's command, which fails.
abbrev halfway : World
halfway = record (host (done ∷ done ∷ fault ∷ [])) { can_write = λ p. not (same p comms_env) }

refused : write_paired writer domain (codes "8") halfway ≡ (
  raised (adapter_error (codes "FM_ROS_DOMAIN_ID could not be written")),
  (write_paired writer domain (codes "8") halfway).1,
)
unfolding write_paired write_edits paired_edits paired_keys fleet_edit stage commit delegate
    fleet_write fleet_write_to run_writer act write_temp replace put_back undo write_atomic str_eq
refused = refl

loader_not_fleet :
    env_config ≡ comms_env
    → halfway.can_write comms_env ≡ false
    → (text alias value : Str) → writer.leaves text alias value ≡ text
loader_not_fleet e h text alias value = cc

write_paired-all_or_none_example :
    read (write_paired writer domain (codes "8") halfway).1 env_config ≡ read halfway env_config
write_paired-all_or_none_example =
    write_paired-all_or_none writer domain (codes "8") halfway
      (write_paired writer domain (codes "8") halfway).1
      (codes "FM_ROS_DOMAIN_ID could not be written") refl refused env_config loader_not_fleet

abbrev transport : Str
transport = codes "CYCLONEDDS_TRANSPORT"

-- The process dies while it stages the file.
abbrev dying : World
dying = host (done ∷ done ∷ done ∷ death ∷ [])

reads_back :
    codec.loads (codec.dumps (entry_of codec transport (codes "tcp") dying))
    ≡ some (entry_of codec transport (codes "tcp") dying)
unfolding before after paired_edits paired_keys fleet_edit str_eq
reads_back = refl

shut : journal_read codec dying ≡ none
unfolding journal_read
shut = refl

stopped : Stopped (write_severing codec writer transport (codes "tcp") dying).0
unfolding write_severing write_journalled journal_read journal_open write_paired write_edits
    paired_edits paired_keys fleet_edit stage act write_temp replace str_eq
stopped = inl refl

write_severing-Recoverable_example :
    Recoverable codec transport
      (codes "tcp")
      dying
      (write_severing codec writer transport (codes "tcp") dying).1
write_severing-Recoverable_example =
    write_severing-Recoverable codec writer transport (codes "tcp") dying reads_back shut stopped

abbrev open_entry : Entry
open_entry = record {
  key = transport;
  value = codes "tcp";
  files = (env_config, codes "before") ∷ [];
}

abbrev pending : World
pending = record (host []) {
  live = λ p. if same p journal then some (codec.dumps open_entry) else files p;
}

pending_reads : journal_read codec pending ≡ some open_entry
unfolding journal_read before after
pending_reads = refl

config_rollback-RolledBack_example :
    RolledBack codec open_entry.files pending (config_rollback codec writer pending)
config_rollback-RolledBack_example =
    config_rollback-RolledBack codec writer open_entry pending refl refl refl
      (loader_alone (codes "before")) pending_reads

-- Telemetry comes back at the second look.
abbrev returning : World
returning = record (host []) {
  glances = record { now = 1000; last_seen = 900 } ∷ record { now = 6000; last_seen = 5500 } ∷ [];
}

returns : data_plane_returns returning ≡ (returned true, returning)
unfolding data_plane_returns returns_by
returns = refl

data_plane_returns-SeenInWindow_example : SeenInWindow returning.glances
data_plane_returns-SeenInWindow_example = data_plane_returns-SeenInWindow returning returns

-- What the process that dies leaves behind.
abbrev dead : World
dead = (write_severing codec writer transport (codes "tcp") dying).1

env_writable : dead.can_write env_config ≡ true
unfolding write_severing write_journalled journal_read journal_open write_paired write_edits
    paired_edits paired_keys fleet_edit stage act write_temp replace write_atomic str_eq
env_writable = refl

comms_writable : dead.can_write comms_env ≡ true
unfolding write_severing write_journalled journal_read journal_open write_paired write_edits
    paired_edits paired_keys fleet_edit stage act write_temp replace write_atomic str_eq
comms_writable = refl

write_severing-AsBefore_example :
    AsBefore codec transport (codes "tcp") dying (restarted codec writer dead)
write_severing-AsBefore_example =
    write_severing-AsBefore codec writer transport (codes "tcp") dying dead reads_back shut refl
      stopped env_writable comms_writable
