-- ===== src/Anvil/Severing/Rollback.antt =====
-- src/fm_robot_agent/anvil.py: rolling back on a host where every call is done.
use fm_robot_agent.Prelude.{
  ◌≡◌, refl, sym, ◌∙◌, ap, subst, Bool, true, false, none, some, [], ◌∷◌, ◌++◌, not, keep,
  if◌then◌else◌, false≢true, codes, map,
}
use fm_robot_agent.Text.{Str, join}
use fm_robot_agent.Anvil.World.{
  Place, env_config, comms_env, journal, World, Ending, returned, raised, died, M, read, pure,
  ◌>>=◌, ◌>>◌, act, write_temp, replace,
}
use fm_robot_agent.Anvil.Pair.{Writer, Texts, places, text_at, write_atomic}
use fm_robot_agent.Anvil.Pair.Reads.{listed}
use fm_robot_agent.Anvil.Pair.Elsewhere.{Outside}
use fm_robot_agent.Anvil.Severing.{
  Entry, Codec, Answer, journal_read, journal_close, restore, run_quietly, restart_data_plane,
  restore_both, answer, place_name, restore_through, restore_files, roll_back, config_rollback,
}

abbrev accepted : Ending Answer → Bool
accepted (returned a) = a.ok
accepted (raised e) = false
accepted died = false

-- The answer is a success, each file of the entry reads as recorded, every other file as before,
-- and the journal is closed.
pub record RolledBack (codec : Codec) (files : Texts) (w : World) (r : Ending Answer × World)
    : Type 0 where
  pub succeeds : accepted r.0 ≡ true
  pub restores :
      (q : Place)
      → Outside q
      → read r.1 q ≡ (if listed q (places files) then text_at q files else read w q)
  pub closes : journal_read codec r.1 ≡ none

-- What an entry records of a paired write: the loader's file, and perhaps the fleet's, in either
-- order.
pub data Recorded : Texts → Type 0 where
  loader_alone : (t : Str) → Recorded ((env_config, t) ∷ [])
  loader_first : (t u : Str) → Recorded ((env_config, t) ∷ (comms_env, u) ∷ [])
  fleet_first : (t u : Str) → Recorded ((comms_env, u) ∷ (env_config, t) ∷ [])

all_direct :
    (w : World) (files : Texts)
    → Recorded files
    → w.can_write env_config ≡ true
    → w.can_write comms_env ≡ true
    → (keep (λ e. w.can_write e.0) files ≡ files) × (keep (λ e. not (w.can_write e.0)) files ≡ [])
all_direct w _ (loader_alone t) h k = (simp (h), simp (h))
all_direct w _ (loader_first t u) h k = (simp (h, k), simp (h, k))
all_direct w _ (fleet_first t u) h k = (simp (h, k), simp (h, k))

-- `config_rollback` with all its files written by hand.
rolled_with : (writer : Writer) → Entry → Texts × Texts → M Answer
rolled_with writer e files = do
  restored ← restore_both writer e.key files.0 files.1
  restart_data_plane
  journal_close
  pure (
      answer true
        (e.key ++ codes " rolled back; restored " ++ join (codes ", ") (map place_name restored)))

by_place : (P : Place → Type 0) → P env_config → P comms_env → (q : Place) → Outside q → P q
by_place P e c env_config o = e
by_place P e c comms_env o = c
by_place P e c journal o = elim (false≢true (sym o)) [ ]

rolled : (codec : Codec) (writer : Writer) → Entry → M Answer
rolled codec writer e = rolled_with writer e (e.files, [])

by_shape :
    (codec : Codec) (writer : Writer) (key value : Str) (w : World) (files : Texts)
    → Recorded files
    → RolledBack codec files w (
        rolled codec writer
          (record { key = key; value = value; files = files })
          (record w { fates = [] }))
unfolding rolled rolled_with restore restore_through restart_data_plane run_quietly journal_close
    journal_read write_atomic act write_temp replace
by_shape codec writer key value w _ (loader_alone t) = record {
  succeeds = refl;
  closes = refl;
  restores = by_place _ refl refl;
}
by_shape codec writer key value w _ (loader_first t u) = record {
  succeeds = refl;
  closes = refl;
  restores = by_place _ refl refl;
}
by_shape codec writer key value w _ (fleet_first t u) = record {
  succeeds = refl;
  closes = refl;
  restores = by_place _ refl refl;
}

rolled-RolledBack :
    (codec : Codec) (writer : Writer) (e : Entry) (w : World)
    → Recorded e.files
    → RolledBack codec e.files w (rolled codec writer e (record w { fates = [] }))
rolled-RolledBack codec writer e w p = by_shape codec writer e.key e.value w e.files p

-- With every call done, both files writable and an open journal that records files a paired write
-- writes, a rollback answers with a success, each recorded file reads as recorded, every other
-- file reads as before, and no change is open any more.
pub config_rollback-RolledBack :
    (codec : Codec) (writer : Writer) (e : Entry) (w : World)
    → w.fates ≡ []
    → w.can_write env_config ≡ true
    → w.can_write comms_env ≡ true
    → Recorded e.files
    → journal_read codec w ≡ some e
    → RolledBack codec e.files w (config_rollback codec writer w)
unfolding config_rollback roll_back restore_files rolled rolled_with
config_rollback-RolledBack codec writer e w calm h k p open_entry =
    let split = all_direct w e.files p h k in
    let calls : config_rollback codec writer w ≡ rolled codec writer e (record w { fates = [] }) =
      ap (λ o. roll_back codec writer o w) open_entry
      ∙ ap (λ ts. rolled_with writer e (ts, keep (λ x. not (w.can_write x.0)) e.files) w) split.0
      ∙ ap (λ ts. rolled_with writer e (e.files, ts) w) split.1
      ∙ ap (λ fs. rolled codec writer e (record w { fates = fs })) calm in
    subst (RolledBack codec e.files w) (sym calls) (rolled-RolledBack codec writer e w p)
