-- ===== src/Anvil/Pair/Elsewhere.antt =====
-- src/fm_robot_agent/anvil.py: a paired write, and what undoes it, never touch the journal.
use fm_robot_agent.Prelude.{
  ◌≡◌, refl, ◌∙◌, ap, false, Option, none, some, List, [], ◌∷◌, ◌++◌, codes, not, keep,
}
use fm_robot_agent.Text.{Str}
use fm_robot_agent.Config.EnvFile.{env_replaced}
use fm_robot_agent.Anvil.World.{
  Place, env_config, comms_env, journal, same, World, adapter_error, Ending, pure, raise, ◌>>=◌,
  ◌>>◌, on_os, on_adapter, Fate, done, fault, death, draw_from, write_temp, replace, replace_by,
  read, move,
}
use fm_robot_agent.Anvil.Calls.{
  Keeps, chain-Keeps, on_os-Keeps, on_adapter-Keeps, Ensures, on_return, chain-Ensures, weaken,
  keeps_Ensures,
}
use fm_robot_agent.Anvil.Host.{write_temp-Keeps, act-Keeps, update_other}
use fm_robot_agent.Anvil.Pair.{
  Writer, Texts, places, text_at, write_atomic, undo, put_back, stage, commit, delegate,
  fleet_write, fleet_write_to, run_writer, written_by, paired_keys, write_paired, paired_edits,
  previous_of,
}
use fm_robot_agent.Anvil.Pair.Reads.{Every, none_left, one_more, Every-append}
use fm_robot_agent.Anvil.Pair.Loops.{stage-Ensures}
use fm_robot_agent.Anvil.Pair.Atomic.{keep-Every, Paired, alone, both, fleet_edit-Paired}

abbrev pub journal_of : World → Option Str
journal_of w = w.live journal

abbrev pub Outside : Place → Type 0
Outside p = same p journal ≡ false

-- However the call ends, the journal's file is `j`.
abbrev pub Still : {A : Type 0} → Option Str → Ending A × World → Type 0
Still j =
    Ensures (λ _ v. journal_of v ≡ j) (λ v. journal_of v ≡ j) (λ v. journal_of v ≡ j)
      (λ v. journal_of v ≡ j)

move_keeps : (p : Place) → Outside p → (w : World) → journal_of (move p w) ≡ journal_of w
move_keeps p o w = update_other w.live p journal (w.temps p) o

replace_by-Keeps : (p : Place) (t : Option Str) → Outside p → Keeps journal_of (replace_by p t)
replace_by-Keeps p none o w = refl
replace_by-Keeps p (some t) o w = act-Keeps journal_of (move p) (λ _ _. refl) (move_keeps p o) w

pub replace-Keeps : (p : Place) → Outside p → Keeps journal_of (replace p)
unfolding replace
replace-Keeps p o w = replace_by-Keeps p (w.temps p) o w

pub write_atomic-Keeps : (p : Place) (t : Str) → Outside p → Keeps journal_of (write_atomic p t)
unfolding write_atomic
write_atomic-Keeps p t o =
    chain-Keeps journal_of (write_temp p t) (λ _. replace p)
      (λ w. ap (λ f. f journal) (write_temp-Keeps p t w)) (λ _. replace-Keeps p o)

undo-Keeps :
    (ps : List Place) (previous : Texts) → Every Outside ps → Keeps journal_of (undo ps previous)
unfolding undo
undo-Keeps [] previous none_left w = refl
undo-Keeps (p ∷ ps) previous (one_more o os) w =
    chain-Keeps journal_of (write_atomic p (text_at p previous)) (λ _. undo ps previous)
      (write_atomic-Keeps p (text_at p previous) o) (λ _. undo-Keeps ps previous os) w

put_back-Keeps :
    (ps : List Place) (previous : Texts) (m : Str)
    → Every Outside ps
    → Keeps journal_of (put_back ps previous m)
unfolding put_back
put_back-Keeps ps previous m os =
    chain-Keeps journal_of (undo ps previous) (λ _. raise (adapter_error m))
      (undo-Keeps ps previous os) (λ _ _. refl)

written_by_keeps :
    (writer : Writer) (alias value : Str) (w : World) (fs : List Fate)
    → journal_of (let (d, w') = draw_from fs w in written_by writer alias value d w').1
      ≡ journal_of w
written_by_keeps writer alias value w [] = refl
written_by_keeps writer alias value w (done ∷ fs) = refl
written_by_keeps writer alias value w (fault ∷ fs) = refl
written_by_keeps writer alias value w (death ∷ fs) = refl

fleet_write_to-Keeps :
    (writer : Writer) (aliases : List Str) (value : Str)
    → Keeps journal_of (fleet_write_to writer aliases value)
unfolding fleet_write_to run_writer
fleet_write_to-Keeps writer [] value w = refl
fleet_write_to-Keeps writer (alias ∷ aliases) value w =
    written_by_keeps writer alias value w w.fates

pub fleet_write-Keeps :
    (writer : Writer) (key value : Str) → Keeps journal_of (fleet_write writer key value)
unfolding fleet_write
fleet_write-Keeps writer key value = fleet_write_to-Keeps writer (paired_keys key) value

module _ (writer : Writer) (key value : Str) (previous : Texts) where
  commit_still :
      (j : Option Str) (staged files : List Place) (w : World)
      → Every Outside staged
      → Every Outside files
      → journal_of w ≡ j
      → Ensures
          (λ a v. Every Outside a × (journal_of v ≡ j))
          (λ v. journal_of v ≡ j)
          (λ v. journal_of v ≡ j)
          (λ v. journal_of v ≡ j)
          (commit writer key value previous staged files w)
  unfolding commit
  commit_still j [] files w r d h = on_return files w (d, h)
  commit_still j (p ∷ staged) files w (one_more o r) d h =
      let message = key ++ codes " could not be written" in
      let step = on_os (replace p) (put_back files previous message) in
      chain-Ensures {P = λ _ v. journal_of v ≡ j} step
        (λ _. commit writer key value previous staged (files ++ p ∷ [])) w
        (keeps_Ensures journal_of j (step w) (
          on_os-Keeps journal_of (replace p) (put_back files previous message) (replace-Keeps p o)
            (put_back-Keeps files previous message d) w
          ∙ h))
        (λ _ v k. commit_still j staged (files ++ p ∷ []) v r (Every-append files d o) k)

  delegate-Keeps :
      (delegated files : List Place)
      → Every Outside files
      → Keeps journal_of (delegate writer key value previous delegated files)
  unfolding delegate
  delegate-Keeps [] files d w = refl
  delegate-Keeps (p ∷ delegated) files d w =
      chain-Keeps journal_of (on_adapter (fleet_write writer key value) (put_back files previous))
        (λ _. delegate writer key value previous delegated files)
        (on_adapter-Keeps journal_of (fleet_write writer key value) (put_back files previous)
          (fleet_write-Keeps writer key value) (λ m. put_back-Keeps files previous m d))
        (λ _. delegate-Keeps delegated files d) w

  loops-Still :
      (by_hand : Texts) (delegated : List Place) (w : World)
      → Every Outside (places by_hand)
      → Still (journal_of w) (
          (do
            staged ← stage writer key value previous by_hand []
            replaced ← commit writer key value previous staged []
            delegate writer key value previous delegated replaced
            pure previous)
            w)
  loops-Still by_hand delegated w r =
      let j = journal_of w in
      chain-Ensures {P = λ a v. Every Outside a × (journal_of v ≡ j)}
        (stage writer key value previous by_hand [])
        (λ staged. commit writer key value previous staged [] >>= λ replaced.
          delegate writer key value previous delegated replaced >>= λ _. pure previous)
        w
        (weaken (stage writer key value previous by_hand [] w)
          (stage-Ensures writer key value previous w.live by_hand [] w r none_left refl)
          (λ a v k. (k.0, ap (λ f. f journal) k.1)) (λ v k. ap (λ f. f journal) k)
          (λ v k. ap (λ f. f journal) k) (λ v k. ap (λ f. f journal) k))
        (λ staged v k.
          chain-Ensures (commit writer key value previous staged [])
            (λ replaced.
              delegate writer key value previous delegated replaced >>= λ _. pure previous)
            v (commit_still j staged [] v k.0 none_left k.1)
            (λ replaced u l.
              chain-Ensures (delegate writer key value previous delegated replaced)
                (λ _. pure previous) u
                (keeps_Ensures journal_of j
                  (delegate writer key value previous delegated replaced u)
                  (delegate-Keeps delegated replaced l.0 u ∙ l.1))
                (λ _ x k'. on_return previous x k')))

pub Paired-Outside : (edits : Texts) → Paired edits → Every Outside (places edits)
Paired-Outside _ (alone t) = one_more refl none_left
Paired-Outside _ (both t u) = one_more refl (one_more refl none_left)

pub write_paired-Still :
    (writer : Writer) (key value : Str) (w : World)
    → Still (journal_of w) (write_paired writer key value w)
unfolding write_paired paired_edits
write_paired-Still writer key value w =
    let edits = paired_edits w key value in
    let paired =
      fleet_edit-Paired (env_replaced (read w env_config) key value) (paired_keys key)
        (w.live comms_env) value in
    loops-Still writer key value (previous_of w edits) (keep (λ e. w.can_write e.0) edits)
      (places (keep (λ e. not (w.can_write e.0)) edits)) w
      (keep-Every (λ e. w.can_write e.0) edits (Paired-Outside edits paired))
