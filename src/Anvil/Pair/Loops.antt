-- ===== src/Anvil/Pair/Loops.antt =====
-- src/fm_robot_agent/anvil.py: what the three loops of a paired write ensure, run one after another.
use fm_robot_agent.Prelude.{◌≡◌, refl, ◌∙◌, Option, none, some, List, [], ◌∷◌, ◌++◌, codes}
use fm_robot_agent.Text.{Str}
use fm_robot_agent.Anvil.World.{
  Place, World, adapter_error, pure, raise, ◌>>=◌, ◌>>◌, on_os, on_adapter, Fate, done, fault,
  death, draw_from, set_temp, act, write_temp, replace, comms_env, env_config, journal, read,
  set_live,
}
use fm_robot_agent.Anvil.Calls.{
  Keeps, chain-Keeps, on_os-Keeps, Ensures, on_return, on_refusal, on_death, chain-Ensures,
  os-Ensures, adapter-Ensures, weaken, keeps_Ensures,
}
use fm_robot_agent.Anvil.Host.{write_temp-Keeps, act-Keeps, replace-Ensures}
use fm_robot_agent.Anvil.Pair.{
  Writer, Texts, places, unlink_temps, unstage, put_back, stage, commit, delegate, fleet_write,
  fleet_write_to, run_writer, written_by, paired_keys,
}
use fm_robot_agent.Anvil.Pair.Reads.{
  Reads, Held, Expected, texts_of, Any, touched, untouched, still-Reads, Every, Recalls, none_left,
  one_more, Every-append, put_back-Ensures,
}

-- What a loop over files leaves: the touched ones, whose former texts are known.
abbrev Touched : Texts → Expected → List Place → World → Type 0
Touched previous held touched_files v =
    Recalls previous held touched_files × Reads touched_files held v

unlink_temps-Keeps : (ps : List Place) → Keeps (λ w. w.live) (unlink_temps ps)
unfolding unlink_temps
unlink_temps-Keeps [] w = refl
unlink_temps-Keeps (p ∷ ps) w =
    chain-Keeps (λ w. w.live) (act (set_temp p none)) (λ _. unlink_temps ps)
      (act-Keeps (λ w. w.live) (set_temp p none) (λ _ _. refl) (λ _. refl))
      (λ _. unlink_temps-Keeps ps) w

unstage-Keeps : (ps : List Place) (message : Str) → Keeps (λ w. w.live) (unstage ps message)
unfolding unstage
unstage-Keeps ps message =
    chain-Keeps (λ w. w.live) (unlink_temps ps) (λ _. raise (adapter_error message))
      (unlink_temps-Keeps ps) (λ _ _. refl)

module _ (writer : Writer) (key value : Str) (previous : Texts) where
  stage-Keeps :
      (edits : Texts) (staged : List Place)
      → Keeps (λ w. w.live) (stage writer key value previous edits staged)
  unfolding stage
  stage-Keeps [] staged w = refl
  stage-Keeps ((p, text) ∷ edits) staged w =
      let undone = unstage staged (key ++ codes " could not be staged") in
      chain-Keeps (λ w. w.live) (on_os (write_temp p text) undone)
        (λ _. stage writer key value previous edits (staged ++ p ∷ []))
        (on_os-Keeps (λ w. w.live) (write_temp p text) undone (write_temp-Keeps p text)
          (unstage-Keeps staged (key ++ codes " could not be staged")))
        (λ _. stage-Keeps edits (staged ++ p ∷ [])) w

  commit-Ensures :
      (held : Expected) (staged files : List Place) (w : World)
      → Recalls previous held staged
      → Recalls previous held files
      → Reads files held w
      → Ensures
          (Touched previous held)
          Any
          (Held held)
          Any
          (commit writer key value previous staged files w)
  unfolding commit
  commit-Ensures held [] files w r d h = on_return files w (d, h)
  commit-Ensures held (p ∷ staged) files w (one_more e r) d h =
      let message = key ++ codes " could not be written" in
      let undone = put_back files previous message in
      chain-Ensures {P = λ _ v. Reads (files ++ p ∷ []) held v} (on_os (replace p) undone)
        (λ _. commit writer key value previous staged (files ++ p ∷ [])) w
        (os-Ensures {P = λ _ v. Reads (files ++ p ∷ []) held v} (replace p) undone w
          (weaken (replace p w) (replace-Ensures p w)
            (λ _ v k. touched held files p (w.temps p) w v h k)
            (λ v k. untouched held files w v h k) (λ _. elim [ ]) (λ _ _. tt))
          (λ v k.
            weaken (undone v) (put_back-Ensures previous held files message v d k) (λ _ _. elim [ ])
              (λ _ _. tt) (λ _ l. l) (λ _ _. tt)))
        (λ _ v k. commit-Ensures held staged (files ++ p ∷ []) v r (Every-append files d e) k)

  pub stage-Ensures :
      {P : Place → Type 0} (files : Place → Option Str) (edits : Texts) (staged : List Place)
      (w : World)
      → Every P (places edits)
      → Every P staged
      → w.live ≡ files
      → Ensures
          (λ a v. Every P a × (v.live ≡ files))
          (λ v. v.live ≡ files)
          (λ v. v.live ≡ files)
          (λ v. v.live ≡ files)
          (stage writer key value previous edits staged w)
  unfolding stage
  stage-Ensures files [] staged w r d h = on_return staged w (d, h)
  stage-Ensures files ((p, text) ∷ edits) staged w (one_more e r) d h =
      let message = key ++ codes " could not be staged" in
      let undone = unstage staged message in
      chain-Ensures {P = λ _ v. v.live ≡ files} (on_os (write_temp p text) undone)
        (λ _. stage writer key value previous edits (staged ++ p ∷ [])) w
        (keeps_Ensures (λ v. v.live) files (on_os (write_temp p text) undone w)
          (on_os-Keeps (λ v. v.live) (write_temp p text) undone (write_temp-Keeps p text)
              (unstage-Keeps staged message) w
            ∙ h))
        (λ _ v k. stage-Ensures files edits (staged ++ p ∷ []) v r (Every-append staged d e) k)

-- A command that does not succeed has changed nothing.
abbrev pub LeavesText : Writer → Type 0
LeavesText writer = (text alias value : Str) → writer.leaves text alias value ≡ text

-- The files read as in `w`.
abbrev SameTexts : (Place → Type 0) → World → World → Type 0
SameTexts matters w = Held (texts_of matters w)

left-SameTexts :
    (matters : Place → Type 0) (w : World) (t : Str)
    → (matters comms_env → t ≡ read w comms_env)
    → SameTexts matters w (set_live comms_env (some t) w)
left-SameTexts matters w t e = record { reads = λ q m _. by_place q m }
  where
    by_place : (q : Place) → matters q → read (set_live comms_env (some t) w) q ≡ read w q
    by_place env_config m = refl
    by_place comms_env m = e m
    by_place journal m = refl

run_writer_by-Ensures :
    (matters : Place → Type 0) (writer : Writer) (alias value : Str) (w : World) (fs : List Fate)
    → (matters comms_env → LeavesText writer)
    → Ensures
        (λ _. Any)
        (λ _. ⊥)
        (SameTexts matters w)
        Any
        (let (d, w') = draw_from fs w in written_by writer alias value d w')
run_writer_by-Ensures matters writer alias value w [] law = on_return tt _ tt
run_writer_by-Ensures matters writer alias value w (done ∷ fs) law = on_return tt _ tt
run_writer_by-Ensures matters writer alias value w (fault ∷ fs) law =
    let left = left-SameTexts matters w _ (λ m. law m (read w comms_env) alias value) in
    on_refusal _ _ (record { reads = left.reads })
run_writer_by-Ensures matters writer alias value w (death ∷ fs) law = on_death _ tt

fleet_write_to-Ensures :
    (matters : Place → Type 0) (writer : Writer) (aliases : List Str) (value : Str) (w : World)
    → (matters comms_env → LeavesText writer)
    → Ensures (λ _. Any) Any (SameTexts matters w) Any (fleet_write_to writer aliases value w)
unfolding fleet_write_to run_writer
fleet_write_to-Ensures matters writer [] value w law = on_return tt w tt
fleet_write_to-Ensures matters writer (alias ∷ aliases) value w law =
    weaken (run_writer writer alias value w)
      (run_writer_by-Ensures matters writer alias value w w.fates law) (λ _ _ _. tt) (λ _ _. tt)
      (λ _ k. k) (λ _ _. tt)

-- At most one file goes through the writer, the last, and one only where a failure leaves the text
-- of the fleet's file, if that matters.
abbrev pub AtMostOne : (Place → Type 0) → Writer → List Place → Type 0
AtMostOne matters writer [] = Unit
AtMostOne matters writer (p ∷ []) = matters comms_env → LeavesText writer
AtMostOne matters writer (p ∷ q ∷ ps) = ⊥

module _ (writer : Writer) (key value : Str) (previous : Texts) where
  delegate-Ensures :
      (held : Expected) (delegated files : List Place) (w : World)
      → AtMostOne held.matters writer delegated
      → Recalls previous held files
      → Reads files held w
      → Ensures
          (λ _. Any)
          Any
          (Held held)
          Any
          (delegate writer key value previous delegated files w)
  unfolding delegate fleet_write
  delegate-Ensures held [] files w one d h = on_return tt w tt
  delegate-Ensures held (p ∷ []) files w one d h =
      let sent = fleet_write_to writer (paired_keys key) value in
      chain-Ensures {P = λ _. Any} (on_adapter sent (put_back files previous)) (λ _. pure tt) w
        (adapter-Ensures {P = λ _. Any} sent (put_back files previous) w
          (fleet_write_to-Ensures held.matters writer (paired_keys key) value w one)
          (λ e v k.
            weaken (put_back files previous e v)
              (put_back-Ensures previous held files e v d (still-Reads held files w v h k))
              (λ _ _ _. tt) (λ _ _. tt) (λ _ l. l) (λ _ _. tt)))
        (λ _ v _. on_return tt v tt)
  delegate-Ensures held (p ∷ q ∷ ps) files w one d h = elim one [ ]

  pub loops_ensure :
      (held : Expected) (by_hand : Texts) (delegated : List Place) (w : World)
      → Recalls previous held (places by_hand)
      → AtMostOne held.matters writer delegated
      → w.live ≡ w.live
      → ((v : World) → v.live ≡ w.live → Held held v)
      → Ensures
          (λ _. Any)
          Any
          (Held held)
          Any
          ((do
            staged ← stage writer key value previous by_hand []
            replaced ← commit writer key value previous staged []
            delegate writer key value previous delegated replaced
            pure previous)
            w)
  loops_ensure held by_hand delegated w r one e h =
      chain-Ensures {P = λ a v. Recalls previous held a × Held held v}
        (stage writer key value previous by_hand [])
        (λ staged. commit writer key value previous staged [] >>= λ replaced.
          delegate writer key value previous delegated replaced >>= λ _. pure previous)
        w
        (weaken (stage writer key value previous by_hand [] w)
          (stage-Ensures writer key value previous w.live by_hand [] w r none_left refl)
          (λ a v k. (k.0, h v k.1)) (λ _ _. tt) h (λ _ _. tt))
        (λ staged v k.
          chain-Ensures (commit writer key value previous staged [])
            (λ replaced.
              delegate writer key value previous delegated replaced >>= λ _. pure previous)
            v (commit-Ensures writer key value previous held staged [] v k.0 none_left k.1)
            (λ replaced u l.
              chain-Ensures (delegate writer key value previous delegated replaced)
                (λ _. pure previous) u (delegate-Ensures held delegated replaced u one l.0 l.1)
                (λ _ x _. on_return previous x tt)))
