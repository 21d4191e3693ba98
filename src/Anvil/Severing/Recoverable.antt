-- ===== src/Anvil/Severing/Recoverable.antt =====
-- src/fm_robot_agent/anvil.py: a severing write that is cut off leaves the way back on disk.
use fm_robot_agent.Prelude.{
  ◌≡◌, refl, ◌∙◌, ap, ◌⊎◌, inl, inr, subst, Bool, true, false, Option, none, some, List, [], ◌∷◌,
  arith,
}
use fm_robot_agent.Text.{Str}
use fm_robot_agent.Config.EnvFile.{env_replaced}
use fm_robot_agent.Anvil.World.{
  env_config, comms_env, journal, World, adapter_error, os_error, Ending, returned, raised, died, M,
  pure, raise, ◌>>=◌, on_adapter, Fate, done, fault, death, draw_from, act_by, act, read, set_live,
}
use fm_robot_agent.Anvil.Calls.{
  Ensures, on_return, on_fault, on_refusal, on_death, chain-Ensures, os-Ensures, adapter-Ensures,
  weaken, keeps_Ensures,
}
use fm_robot_agent.Anvil.Host.{write_atomic-Ensures, act-Keeps}
use fm_robot_agent.Anvil.Pair.{
  Writer, Texts, places, write_atomic, paired_keys, write_paired, paired_edits, previous_of,
}
use fm_robot_agent.Anvil.Pair.Reads.{Every, none_left, one_more}
use fm_robot_agent.Anvil.Pair.Atomic.{Paired, alone, both, fleet_edit-Paired}
use fm_robot_agent.Anvil.Pair.Elsewhere.{journal_of, Outside, Still, write_paired-Still}
use fm_robot_agent.Anvil.Severing.{
  Entry, Codec, Answer, entry_in, in_path_order, journal_read, journal_open, journal_close,
  restart_data_plane, data_plane_returns, restore_files, revert, conclude, close_and_raise,
  write_journalled, write_severing, write_unless_open, window,
}
use fm_robot_agent.Anvil.Severing.Keeps.{restart-Keeps, restore_files-Keeps}

-- The journal's file is `j`, or has just been removed at the end of a call.
abbrev Open : Option Str → World → Type 0
Open j v = journal_of v ≡ j

journal_close_by :
    (w : World) (fs : List Fate)
    → Ensures
        (λ _ v. Unit)
        (λ v. v.live ≡ w.live)
        (λ _. ⊥)
        (Open (journal_of w))
        (let (d, w') = draw_from fs w in act_by (set_live journal none) d w')
journal_close_by w [] = on_return tt _ tt
journal_close_by w (done ∷ fs) = on_return tt _ tt
journal_close_by w (fault ∷ fs) = on_fault _ refl
journal_close_by w (death ∷ fs) = on_death _ refl

-- Where the process dies in removing the journal, it is still there.
journal_close-Ensures :
    (w : World) → Ensures (λ _ _. Unit) (λ _. ⊥) (λ _. ⊥) (Open (journal_of w)) (journal_close w)
unfolding journal_close act
journal_close-Ensures w =
    os-Ensures (act (set_live journal none)) (pure tt) w (journal_close_by w w.fates)
      (λ v _. on_return tt v tt)

module _ (writer : Writer) where
  revert-Ensures :
      (j : Option Str) (files : Texts) (key : Str) (w : World)
      → Every Outside (places files)
      → Open j w
      → Ensures (λ _ _. Unit) (Open j) (λ _. Unit) (Open j) (revert writer files key w)
  unfolding revert
  revert-Ensures j files key w os h =
      chain-Ensures {P = λ _. Open j} (restore_files writer files key)
        (λ restored. restart_data_plane >>= λ _. journal_close >>= λ _. pure restored) w
        (weaken (restore_files writer files key w)
          (keeps_Ensures journal_of j (restore_files writer files key w)
            (restore_files-Keeps writer files key os w ∙ h))
          (λ _ _ k. k) (λ _ k. k) (λ _ _. tt) (λ _ k. k))
        (λ restored v k.
          chain-Ensures {P = λ _. Open j} restart_data_plane
            (λ _. journal_close >>= λ _. pure restored) v
            (weaken (restart_data_plane v)
              (keeps_Ensures journal_of j (restart_data_plane v) (restart-Keeps v ∙ k)) (λ _ _ l. l)
              (λ _ l. l) (λ _ _. tt) (λ _ l. l))
            (λ _ u l.
              chain-Ensures journal_close (λ _. pure restored) u
                (weaken (journal_close u) (journal_close-Ensures u) (λ _ _ _. tt) (λ _. elim [ ])
                  (λ _. elim [ ]) (λ _ x. x ∙ l))
                (λ _ x _. on_return restored x tt)))

  conclude-Ensures :
      (j : Option Str) (key value : Str) (files : Texts) (verified : Bool) (w : World)
      → Every Outside (places files)
      → Open j w
      → Ensures
          (λ _ _. Unit)
          (Open j)
          (λ _. Unit)
          (Open j)
          (conclude writer key value files verified w)
  unfolding conclude
  conclude-Ensures j key value files true w os h =
      chain-Ensures journal_close (λ _. pure _) w
        (weaken (journal_close w) (journal_close-Ensures w) (λ _ _ _. tt) (λ _. elim [ ])
          (λ _. elim [ ]) (λ _ x. x ∙ h))
        (λ _ v _. on_return _ v tt)
  conclude-Ensures j key value files false w os h =
      chain-Ensures (revert writer files key) (λ restored. pure _) w
        (revert-Ensures j files key w os h) (λ _ v _. on_return _ v tt)

close_and_raise-Ensures :
    (j : Option Str) (m : Str) (w : World)
    → Open j w
    → Ensures {A = Texts} (λ _ v. Open j v) (Open j) (λ _. Unit) (Open j) (close_and_raise m w)
unfolding close_and_raise
close_and_raise-Ensures j m w h =
    chain-Ensures journal_close (λ _. raise (adapter_error m)) w
      (weaken (journal_close w) (journal_close-Ensures w) (λ _ _ _. tt) (λ _. elim [ ])
        (λ _. elim [ ]) (λ _ x. x ∙ h))
      (λ _ v _. on_refusal m v tt)

-- No file has changed, or the journal is `j`.
abbrev Covered : World → Option Str → World → Type 0
Covered w j v = (v.live ≡ w.live) ⊎ Open j v

module _ (codec : Codec) (writer : Writer) where
  abbrev entry_text : Str → Str → Texts → Str
  entry_text key value files =
      codec.dumps
        (record { key = key; value = value; files = in_path_order codec.comms_first files })

  journal_open-Ensures :
      (key value : Str) (files : Texts) (w : World)
      → let j = some (entry_text key value files) in
        Ensures
          (λ _. Open j)
          (Covered w j)
          (λ _. Unit)
          (Covered w j)
          (journal_open codec key value files w)
  unfolding journal_open write_atomic
  journal_open-Ensures key value files w =
      let text = entry_text key value files in
      let make = act (λ v. v) in
      chain-Ensures {P = λ _ v. v.live ≡ w.live} make (λ _. write_atomic journal text) w
        (weaken (make w)
          (keeps_Ensures (λ v. v.live) w.live (make w)
            (act-Keeps (λ v. v.live) (λ v. v) (λ _ _. refl) (λ _. refl) w))
          (λ _ _ k. k) (λ _ k. inl k) (λ _ _. tt) (λ _ k. inl k))
        (λ _ v k.
          weaken (write_atomic journal text v) (write_atomic-Ensures journal text v)
            (λ _ u e. ap (λ f. f journal) e) (λ u e. inl (e ∙ k)) (λ _ _. tt) (λ u e. inl (e ∙ k)))

  write_journalled-Ensures :
      (key value : Str) (files : Texts) (w : World)
      → Every Outside (places files)
      → let j = some (entry_text key value files) in
        Ensures
          (λ _ _. Unit)
          (Covered w j)
          (λ _. Unit)
          (Covered w j)
          (write_journalled codec writer key value files w)
  unfolding write_journalled data_plane_returns
  write_journalled-Ensures key value files w os =
      let j = some (entry_text key value files) in
      let finish : M Answer =
        restart_data_plane >>= λ _. data_plane_returns >>= conclude writer key value files in
      let attempt = on_adapter (write_paired writer key value) close_and_raise in
      chain-Ensures (journal_open codec key value files) (λ _. attempt >>= λ _. finish) w
        (journal_open-Ensures key value files w)
        (λ _ v k.
          weaken ((attempt >>= λ _. finish) v)
            (chain-Ensures {P = λ _. Open j} attempt (λ _. finish) v
              (adapter-Ensures {P = λ _. Open j} {Q = Open j} (write_paired writer key value)
                close_and_raise v
                (subst (λ i. Still i (write_paired writer key value v)) k
                  (write_paired-Still writer key value v))
                (λ m u l. close_and_raise-Ensures j m u l))
              (λ _ u l.
                chain-Ensures {P = λ _. Open j} restart_data_plane
                  (λ _. data_plane_returns >>= conclude writer key value files) u
                  (weaken (restart_data_plane u)
                    (keeps_Ensures journal_of j (restart_data_plane u) (restart-Keeps u ∙ l))
                    (λ _ _ x. x) (λ _ x. x) (λ _ _. tt) (λ _ x. x))
                  (λ _ x y. conclude-Ensures writer j key value files (window x.glances) x os y)))
            (λ _ _ _. tt) (λ _ x. inr x) (λ _ _. tt) (λ _ x. inr x))

abbrev pub Stopped : {A : Type 0} → Ending A → Type 0
Stopped r = (r ≡ died) ⊎ (r ≡ raised os_error)

not_returned : {A : Type 0} {a : A} → Stopped (returned a) → ⊥
not_returned (inl e) = ground arith
not_returned (inr e) = ground arith

not_refused : {A : Type 0} {m : Str} → Stopped {A = A} (raised (adapter_error m)) → ⊥
not_refused (inl e) = ground arith
not_refused (inr e) = ground arith

stopped_covered :
    {A : Type 0} {C : World → Type 0} (c : Ending A × World)
    → Ensures (λ _ _. Unit) C (λ _. Unit) C c
    → Stopped c.0
    → C c.1
stopped_covered _ (on_return a w p) s = elim (not_returned s) [ ]
stopped_covered _ (on_fault w p) s = p
stopped_covered _ (on_refusal m w p) s = elim (not_refused s) [ ]
stopped_covered _ (on_death w p) s = p

previous-Outside :
    (w : World) (edits : Texts) → Paired edits → Every Outside (places (previous_of w edits))
previous-Outside w _ (alone t) = one_more refl none_left
previous-Outside w _ (both t u) = one_more refl (one_more refl none_left)

-- The entry that a severing write journals.
abbrev pub entry_of : Codec → Str → Str → World → Entry
entry_of codec key value w = record {
  key = key;
  value = value;
  files = in_path_order codec.comms_first (previous_of w (paired_edits w key value));
}

-- What of the host a stopped severing write has left.
pub data Recoverable (codec : Codec) (key value : Str) (w v : World) : Type 0 where
  unchanged : v.live ≡ w.live → Recoverable codec key value w v
  recorded :
      journal_read codec v ≡ some (entry_of codec key value w) → Recoverable codec key value w v

-- With no change open and a journal that reads back the entry it is given, a severing write in
-- which the process dies or an `OSError` escapes has left every file as it was, or a journal that
-- records the key, the value and the former text of each file it writes.
pub write_severing-Recoverable :
    (codec : Codec) (writer : Writer) (key value : Str) (w : World)
    → codec.loads (codec.dumps (entry_of codec key value w)) ≡ some (entry_of codec key value w)
    → journal_read codec w ≡ none
    → Stopped (write_severing codec writer key value w).0
    → Recoverable codec key value w (write_severing codec writer key value w).1
unfolding write_severing journal_read paired_edits
write_severing-Recoverable codec writer key value w law shut stopped =
    let files = previous_of w (paired_edits w key value) in
    let run = write_journalled codec writer key value files w in
    let same_run : write_severing codec writer key value w ≡ run =
      ap (λ o. write_unless_open codec writer o key value w) shut in
    let paired =
      fleet_edit-Paired (env_replaced (read w env_config) key value) (paired_keys key)
        (w.live comms_env) value in
    let outside = previous-Outside w (paired_edits w key value) paired in
    elim (stopped_covered run (write_journalled-Ensures codec writer key value files w outside)
      (subst (λ r. Stopped r.0) same_run stopped)) [
        | inl h ↦ unchanged (ap (λ r. r.1.live) same_run ∙ h)
        | inr h ↦ recorded (ap (λ r. journal_read codec r.1) same_run ∙ ap (entry_in codec) h ∙ law)
      ]
