-- ===== src/Anvil/Severing.antt =====
-- src/fm_robot_agent/anvil.py and config.py: a change that can take telemetry away, journalled
-- before it is written and undone unless telemetry is seen after it. Printing is left out.
pub mod Keeps
pub mod Recoverable
pub mod Rollback
pub mod Window
pub mod Restart
use fm_robot_agent.Prelude.{
  ℕ, ◌+◌, Bool, true, false, not, Option, none, some, List, [], ◌∷◌, ◌++◌, codes, keep, ltb, map,
  if◌then◌else◌,
}
use fm_robot_agent.Text.{Str, str_eq, join}
use fm_robot_agent.Dict.{Dict, get}
use fm_robot_agent.Json.{end}
use fm_robot_agent.Protocol.{Outcome}
use fm_robot_agent.Config.EnvFile.{env_values}
use fm_robot_agent.Anvil.World.{
  Place, env_config, comms_env, journal, World, Glance, adapter_error, M, pure, raise, ◌>>=◌, ◌>>◌,
  on_os, on_adapter, set_live, act, write_temp, replace,
}
use fm_robot_agent.Anvil.Pair.{
  Writer, Texts, paired_keys, paired_edits, previous_of, write_atomic, fleet_write, write_paired,
}

-- What the journal records: the key, its new value, and the whole text of each file before.
pub record Entry : Type 0 where
  pub key : Str
  pub value : Str
  pub files : Texts

-- The journal's file, as `json` writes and reads it; nothing where `Journal.read` refuses it.
-- `comms_first` says that the path of the fleet's file comes before that of the loader's.
pub record Codec : Type 0 where
  pub dumps : Entry → Str
  pub loads : Str → Option Entry
  pub comms_first : Bool

-- The order that `sort_keys` gives the one or two files of a write.
abbrev pub in_path_order : Bool → Texts → Texts
in_path_order true (a ∷ b ∷ []) = b ∷ a ∷ []
in_path_order _ files = files

abbrev pub Answer : Type 0
Answer = Outcome (Unit {0})

abbrev pub verify_window_ms : ℕ
verify_window_ms = 90000

abbrev pub place_name : Place → Str
place_name env_config = codes ".env.config"
place_name comms_env = codes "fm-comms.env"
place_name journal = codes "journal"

abbrev pub answer : Bool → Str → Answer
answer b m = record { ok = b; message = m; detail = end }

-- `Journal.read`
abbrev pub entry_in : Codec → Option Str → Option Entry
entry_in codec none = none
entry_in codec (some t) = codec.loads t

unfoldable pub journal_read : Codec → World → Option Entry
journal_read codec w = entry_in codec (w.live journal)

-- `Journal.open`; its first call makes the directory.
unfoldable pub journal_open : Codec → Str → Str → Texts → M (Unit {0})
journal_open codec key value previous = do
  act (λ w. w)
  write_temp journal (
      codec.dumps
        (record { key = key; value = value; files = in_path_order codec.comms_first previous }))
  replace journal

-- `Journal.close`: the error of a removal is dropped.
unfoldable pub journal_close : M (Unit {0})
journal_close = on_os (act (set_live journal none)) (pure tt)

-- `restore` of config.py: a file that cannot be written is passed over.
unfoldable pub restore : Texts → M (List Place)
restore [] = pure []
restore ((p, text) ∷ files) = do
  written ← on_os (write_atomic p text >> pure true) (pure false)
  restored ← restore files
  pure (if written then p ∷ restored else restored)

-- `subprocess.run` with its errors dropped.
unfoldable pub run_quietly : M (Unit {0})
run_quietly = on_os (act (λ w. w)) (pure tt)

-- `_restart_data_plane`: the containers, then the bridge.
unfoldable pub restart_data_plane : M (Unit {0})
restart_data_plane = do run_quietly; run_quietly

-- The loop of `_data_plane_returns` with the probe that the service passes in, on what each turn of
-- it sees; the last look is the one after the window. The probe of a run without a session, which
-- asks the container, is left out. Where nothing more is seen, telemetry has not returned.
unfoldable pub returns_by : ℕ → ℕ → List Glance → Bool
returns_by since deadline [] = false
returns_by since deadline (g ∷ glances) =
    let later = returns_by since deadline glances in
    let seen = ltb since g.last_seen in
    if ltb g.now deadline then if seen then true else later else seen

abbrev pub window : List Glance → Bool
window [] = false
window (g ∷ glances) = returns_by g.now (g.now + verify_window_ms) glances

-- The first glance gives `since`.
unfoldable pub data_plane_returns : M Bool
data_plane_returns w = pure (window w.glances) w

-- `if key and changed != key: continue`
abbrev pub wanted : Str → Str → Bool
wanted [] changed = true
wanted (c ∷ key) changed = str_eq changed (c ∷ key)

abbrev pub where_wanted : Bool → M Bool → M Bool
where_wanted true m = m
where_wanted false m = pure false

module _ (writer : Writer) where
  abbrev pub restore_value : Str → Option Str → M Bool → M Bool
  restore_value changed none others = others
  restore_value changed (some value) others =
      on_adapter (fleet_write writer changed value >> pure true) (λ m. pure false)

  -- The first alias that the text holds is written through root's writer, and no other.
  unfoldable pub restore_alias : Str → Dict Str → List Str → M Bool
  restore_alias changed held [] = pure false
  restore_alias changed held (alias ∷ aliases) =
      restore_value changed (get alias held) (restore_alias changed held aliases)

  -- `for changed, aliases in PAIRED_KEYS.items()`
  unfoldable pub restore_keys : Str → Dict Str → List Str → M (List Str)
  restore_keys key held [] = pure []
  restore_keys key held (changed ∷ others) = do
    written ← where_wanted (wanted key changed) (restore_alias changed held (paired_keys changed))
    restored ← restore_keys key held others
    pure (if written then changed ∷ restored else restored)

  unfoldable pub restore_through : Str → Texts → M (List Place)
  restore_through key [] = pure []
  restore_through key ((p, text) ∷ files) = do
    changed ←
        restore_keys key (env_values text) (codes "ROS_DOMAIN_ID" ∷ codes "CYCLONEDDS_IFACE" ∷ [])
    restored ← restore_through key files
    pure (map (λ _. p) changed ++ restored)

  abbrev pub restore_both : Str → Texts → Texts → M (List Place)
  restore_both key direct others = do
    restored ← restore direct
    more ← restore_through key others
    pure (restored ++ more)

  -- `_restore_files`
  unfoldable pub restore_files : Texts → Str → M (List Place)
  restore_files files key w =
      restore_both key (keep (λ e. w.can_write e.0) files) (keep (λ e. not (w.can_write e.0)) files)
        w

  -- `_revert`
  unfoldable pub revert : Texts → Str → M (List Place)
  revert previous key = do
    restored ← restore_files previous key
    restart_data_plane
    journal_close
    pure restored

  -- The end of `_write_severing`.
  unfoldable pub conclude : Str → Str → Texts → Bool → M Answer
  conclude key value previous true = do
    journal_close
    pure (answer true (key ++ 61 ∷ value ++ codes "; telemetry returned"))
  conclude key value previous false = do
    restored ← revert previous key
    pure (
        answer false (
          key
          ++ 61 ∷ value
          ++ codes " killed telemetry; reverted "
          ++ join (codes ", ") (map place_name restored)))

-- `except AdapterError: self.journal.close(); raise`
unfoldable pub close_and_raise : Str → M Texts
close_and_raise m = do journal_close; raise (adapter_error m)

module _ (codec : Codec) (writer : Writer) where
  -- `_write_severing` from where it opens the journal.
  unfoldable pub write_journalled : Str → Str → Texts → M Answer
  write_journalled key value previous = do
    journal_open codec key value previous
    on_adapter (write_paired writer key value) close_and_raise
    restart_data_plane
    arrives ← data_plane_returns
    conclude writer key value previous arrives

  abbrev pub write_unless_open : Option Entry → Str → Str → M Answer
  write_unless_open (some e) key value w =
      pure (answer false (codes "a severing change is already open; roll it back first")) w
  write_unless_open none key value w =
      write_journalled key value (previous_of w (paired_edits w key value)) w

  -- `_write_severing`
  unfoldable pub write_severing : Str → Str → M Answer
  write_severing key value w = write_unless_open (journal_read codec w) key value w

  -- `config_rollback`, from the entry that it reads.
  unfoldable pub roll_back : Option Entry → M Answer
  roll_back none = pure (answer false (codes "no change is open"))
  roll_back (some e) = do
    restored ← restore_files writer e.files e.key
    restart_data_plane
    journal_close
    pure (
        answer true
          (e.key ++ codes " rolled back; restored " ++ join (codes ", ") (map place_name restored)))

  unfoldable pub config_rollback : M Answer
  config_rollback w = roll_back (journal_read codec w) w

  abbrev pub finish_by : Option Entry → M (Option Answer)
  finish_by none = pure none
  finish_by (some e) = do answered ← config_rollback; pure (some answered)

  -- `finish_open_change`, which the service calls when it starts.
  unfoldable pub finish_open_change : M (Option Answer)
  finish_open_change w = finish_by (journal_read codec w) w
