-- ===== src/Anvil/Severing/Restart.antt =====
-- src/fm_robot_agent/anvil.py: an agent that starts after a stopped severing write.
use fm_robot_agent.Prelude.{
  ◌≡◌, refl, sym, ◌∙◌, ap, subst, Bool, true, false, false≢true, none, some, [], if◌then◌else◌,
}
use fm_robot_agent.Text.{Str}
use fm_robot_agent.Config.EnvFile.{env_replaced}
use fm_robot_agent.Anvil.World.{
  Place, env_config, comms_env, journal, World, Ending, returned, raised, died, text_or_empty, read,
  continue, pure,
}
use fm_robot_agent.Anvil.Pair.{
  Writer, Texts, places, text_at, previous_of, paired_keys, paired_edits,
}
use fm_robot_agent.Anvil.Pair.Reads.{listed}
use fm_robot_agent.Anvil.Pair.Atomic.{Paired, alone, both, fleet_edit-Paired}
use fm_robot_agent.Anvil.Pair.Elsewhere.{Outside}
use fm_robot_agent.Anvil.Severing.{
  Entry, Codec, Answer, in_path_order, entry_in, journal_read, write_severing, config_rollback,
  finish_by, finish_open_change,
}
use fm_robot_agent.Anvil.Severing.Recoverable.{
  entry_of, Recoverable, unchanged, recorded, Stopped, write_severing-Recoverable,
}
use fm_robot_agent.Anvil.Severing.Rollback.{
  Recorded, loader_alone, loader_first, fleet_first, config_rollback-RolledBack,
}

-- Every file that the write would touch reads as it did in `w`, and no change is open.
pub record AsBefore (codec : Codec) (key value : Str) (w u : World) : Type 0 where
  pub same_texts :
      (q : Place)
      → Outside q
      → listed q (places (paired_edits w key value)) ≡ true
      → read u q ≡ read w q
  pub no_change : journal_read codec u ≡ none

-- What is recorded of a paired write, in the order of the paths.
previous-Recorded :
    (b : Bool) (w : World) (edits : Texts)
    → Paired edits
    → Recorded (in_path_order b (previous_of w edits))
previous-Recorded true w _ (alone t) = loader_alone (read w env_config)
previous-Recorded false w _ (alone t) = loader_alone (read w env_config)
previous-Recorded true w _ (both t u) = fleet_first (read w env_config) (read w comms_env)
previous-Recorded false w _ (both t u) = loader_first (read w env_config) (read w comms_env)

recalled :
    (b : Bool) (w : World) (edits : Texts)
    → Paired edits
    → (q : Place) → listed q (places edits) ≡ true
    → (x : Str)
    → let files = in_path_order b (previous_of w edits) in
      (if listed q (places files) then text_at q files else x) ≡ read w q
recalled true w _ (alone t) env_config h x = refl
recalled false w _ (alone t) env_config h x = refl
recalled b w _ (alone t) comms_env h x = elim (false≢true h) [ ]
recalled b w _ (alone t) journal h x = elim (false≢true h) [ ]
recalled true w _ (both t u) env_config h x = refl
recalled false w _ (both t u) env_config h x = refl
recalled true w _ (both t u) comms_env h x = refl
recalled false w _ (both t u) comms_env h x = refl
recalled b w _ (both t u) journal h x = elim (false≢true h) [ ]

continue_lem :
    (r : Ending Answer) (w : World) → (continue {A = Answer} (λ a. pure (some a)) r w).1 ≡ w
continue_lem (returned a) w = refl
continue_lem (raised e) w = refl
continue_lem died w = refl

-- The next agent's process, in which every call is done.
abbrev pub restarted : Codec → Writer → World → World
restarted codec writer v = (finish_open_change codec writer (record v { fates = [] })).1

finish_open :
    (codec : Codec) (writer : Writer) (e : Entry) (v : World)
    → journal_read codec v ≡ some e
    → restarted codec writer v ≡ (config_rollback codec writer (record v { fates = [] })).1
unfolding finish_open_change journal_read
finish_open codec writer e v h =
    let calm = record v { fates = [] } in
    let r = config_rollback codec writer calm in
    ap (λ o. (finish_by codec writer o calm).1) h ∙ continue_lem r.0 r.1

finish_shut :
    (codec : Codec) (writer : Writer) (v : World)
    → journal_read codec v ≡ none
    → restarted codec writer v ≡ record v { fates = [] }
unfolding finish_open_change journal_read
finish_shut codec writer v h = ap (λ o. (finish_by codec writer o (record v { fates = [] })).1) h

after_unchanged :
    (codec : Codec) (writer : Writer) (key value : Str) (w v : World)
    → journal_read codec w ≡ none
    → v.live ≡ w.live
    → AsBefore codec key value w (restarted codec writer v)
unfolding journal_read
after_unchanged codec writer key value w v shut h =
    let closed : journal_read codec v ≡ none = ap (λ f. entry_in codec (f journal)) h ∙ shut in
    subst (AsBefore codec key value w) (sym (finish_shut codec writer v closed))
      (record { same_texts = λ q _ _. ap (λ f. text_or_empty (f q)) h; no_change = closed })

after_recorded :
    (codec : Codec) (writer : Writer) (key value : Str) (w v : World)
    → v.can_write env_config ≡ true
    → v.can_write comms_env ≡ true
    → journal_read codec v ≡ some (entry_of codec key value w)
    → AsBefore codec key value w (restarted codec writer v)
unfolding journal_read paired_edits
after_recorded codec writer key value w v h k read_back =
    let calm = record v { fates = [] } in
    let edits = paired_edits w key value in
    let paired =
      fleet_edit-Paired (env_replaced (read w env_config) key value) (paired_keys key)
        (w.live comms_env) value in
    let rolled =
      config_rollback-RolledBack codec writer (entry_of codec key value w) calm refl h k
        (previous-Recorded codec.comms_first w edits paired) read_back in
    subst (AsBefore codec key value w)
      (sym (finish_open codec writer (entry_of codec key value w) v read_back))
      (record {
        same_texts = λ q o l.
            rolled.restores q o ∙ recalled codec.comms_first w edits paired q l (read calm q);
        no_change = rolled.closes;
      })

-- A severing write that begins with no change open, and in which the process dies or an `OSError`
-- escapes at any point, is undone by the next start: where the journal reads back the entry it is
-- given, both files can be written and every call of the new process is done, `finish_open_change`
-- leaves every file that the write would touch reading as before the write, and no change open.
pub write_severing-AsBefore :
    (codec : Codec) (writer : Writer) (key value : Str) (w v : World)
    → codec.loads (codec.dumps (entry_of codec key value w)) ≡ some (entry_of codec key value w)
    → journal_read codec w ≡ none
    → v ≡ (write_severing codec writer key value w).1
    → Stopped (write_severing codec writer key value w).0
    → v.can_write env_config ≡ true
    → v.can_write comms_env ≡ true
    → AsBefore codec key value w (restarted codec writer v)
write_severing-AsBefore codec writer key value w v law shut e stopped h k = by_state (
    subst (Recoverable codec key value w) (sym e)
      (write_severing-Recoverable codec writer key value w law shut stopped))
  where
    by_state :
        Recoverable codec key value w v → AsBefore codec key value w (restarted codec writer v)
    by_state (unchanged same) = after_unchanged codec writer key value w v shut same
    by_state (recorded read_back) = after_recorded codec writer key value w v h k read_back
