-- ===== src/Anvil/Pair.antt =====
-- src/fm_robot_agent/anvil.py: a key written to every file that holds it, or to none of them. The
-- texts of operating-system errors are left out of the messages.
pub mod Reads
pub mod Loops
pub mod Atomic
pub mod Elsewhere
use fm_robot_agent.Prelude.{
  not, Option, none, some, List, [], ◌∷◌, ◌++◌, codes, keep, map, if◌then◌else◌,
}
use fm_robot_agent.Text.{Str, str_eq}
use fm_robot_agent.Config.EnvFile.{env_replaced}
use fm_robot_agent.Anvil.World.{
  Place, env_config, comms_env, same, World, adapter_error, Ending, returned, raised, died, M, pure,
  raise, ◌>>=◌, ◌>>◌, on_os, on_adapter, Fate, done, fault, death, draw, set_live, set_temp, act,
  write_temp, replace, read,
}

-- `PAIRED_KEYS.get(key, ())`
unfoldable pub paired_keys : Str → List Str
paired_keys key =
    if str_eq key (codes "ROS_DOMAIN_ID")
    then codes "FM_ROS_DOMAIN_ID" ∷ codes "ROS_DOMAIN_ID" ∷ []
    else if str_eq key (codes "CYCLONEDDS_IFACE")
    then codes "FM_DDS_IFACE" ∷ []
    else []

-- What each file is to hold, or held, file by file.
abbrev pub Texts : Type 0
Texts = List (Place × Str)

abbrev pub places : Texts → List Place
places texts = map (λ e. e.0) texts

-- `texts[p]`
abbrev pub text_at : Place → Texts → Str
text_at p [] = []
text_at p ((q, t) ∷ ts) = if same q p then t else text_at p ts

unfoldable pub replaced_all : List Str → Str → Str → Str
replaced_all [] value text = text
replaced_all (alias ∷ aliases) value text =
    replaced_all aliases value (env_replaced text alias value)

-- the fleet file's part of `_paired_edits`
unfoldable pub fleet_edit : List Str → Option Str → Str → Texts
fleet_edit [] held value = []
fleet_edit (alias ∷ aliases) none value = []
fleet_edit (alias ∷ aliases) (some text) value =
    (comms_env, replaced_all (alias ∷ aliases) value text) ∷ []

-- `_paired_edits`
unfoldable pub paired_edits : World → Str → Str → Texts
paired_edits w key value =
    (env_config, env_replaced (read w env_config) key value)
    ∷ fleet_edit (paired_keys key) (w.live comms_env) value

-- `{path: self._read(path) for path in …}`
abbrev pub previous_of : World → Texts → Texts
previous_of w edits = map (λ e. (e.0, read w e.0)) edits

-- `_write_atomic`
unfoldable pub write_atomic : Place → Str → M (Unit {0})
write_atomic p text = do write_temp p text; replace p

-- The former text of each replaced file is written again, one file after another.
unfoldable pub undo : List Place → Texts → M (Unit {0})
undo [] previous = pure tt
undo (p ∷ ps) previous = do write_atomic p (text_at p previous); undo ps previous

-- `tmp.unlink(missing_ok=True)` for each
unfoldable pub unlink_temps : List Place → M (Unit {0})
unlink_temps [] = pure tt
unlink_temps (p ∷ ps) = do act (set_temp p none); unlink_temps ps

-- What the two loops do when they fail.
unfoldable pub unstage : List Place → Str → M (Unit {0})
unstage staged message = do unlink_temps staged; raise (adapter_error message)

unfoldable pub put_back : List Place → Texts → Str → M (Unit {0})
put_back replaced previous message = do undo replaced previous; raise (adapter_error message)

-- The command `fm-comms-set ALIAS VALUE` that root runs, as what it makes of the file's text: `sets`
-- where it succeeds, and `leaves` where it reports a failure, runs out of time or is not waited for.
pub record Writer : Type 0 where
  pub sets : Str → Str → Str → Str
  pub leaves : Str → Str → Str → Str

module _ (writer : Writer) where
  abbrev fleet_text : Str → World → World
  fleet_text text w = set_live comms_env (some text) w

  abbrev written_by : Str → Str → Fate → World → Ending (Unit {0}) × World
  written_by alias value done w =
      (returned tt, fleet_text (writer.sets (read w comms_env) alias value) w)
  written_by alias value fault w = (
    raised (adapter_error (alias ++ codes " could not be written")),
    fleet_text (writer.leaves (read w comms_env) alias value) w,
  )
  written_by alias value death w =
      (died, fleet_text (writer.leaves (read w comms_env) alias value) w)

  unfoldable pub run_writer : Str → Str → M (Unit {0})
  run_writer alias value w = let (d, w') = draw w in written_by alias value d w'

  -- `_fleet_write`: the writer sets both spellings of the domain from the first.
  unfoldable pub fleet_write_to : List Str → Str → M (Unit {0})
  unfolding run_writer
  fleet_write_to [] value = pure tt
  fleet_write_to (alias ∷ aliases) value = run_writer alias value

  unfoldable pub fleet_write : Str → Str → M (Unit {0})
  unfolding fleet_write_to
  fleet_write key value = fleet_write_to (paired_keys key) value

  module _ (key value : Str) (previous : Texts) where
    -- The first loop of `_write_paired`.
    unfoldable pub stage : Texts → List Place → M (List Place)
    stage [] staged = pure staged
    stage ((p, text) ∷ edits) staged = do
      on_os (write_temp p text) (unstage staged (key ++ codes " could not be staged"))
      stage edits (staged ++ p ∷ [])

    -- The second: one rename for each staged file, undone if a later one fails.
    unfoldable pub commit : List Place → List Place → M (List Place)
    commit [] replaced = pure replaced
    commit (p ∷ staged) replaced = do
      on_os (replace p) (put_back replaced previous (key ++ codes " could not be written"))
      commit staged (replaced ++ p ∷ [])

    -- The third: what this process may not replace goes through the writer.
    unfoldable pub delegate : List Place → List Place → M (Unit {0})
    delegate [] replaced = pure tt
    delegate (p ∷ delegated) replaced = do
      on_adapter (fleet_write key value) (put_back replaced previous)
      delegate delegated replaced

  -- `_write_paired` on the edits that it works out.
  unfoldable pub write_edits : Str → Str → Texts → M Texts
  write_edits key value edits w =
      let previous = previous_of w edits in
      let by_hand = keep (λ e. w.can_write e.0) edits in
      let delegated = places (keep (λ e. not (w.can_write e.0)) edits) in
      (do
        staged ← stage key value previous by_hand []
        replaced ← commit key value previous staged []
        delegate key value previous delegated replaced
        pure previous)
        w

  unfoldable pub write_paired : Str → Str → M Texts
  unfolding write_edits
  write_paired key value w = write_edits key value (paired_edits w key value) w
