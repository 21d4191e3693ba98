-- ===== src/Anvil/Pair/Atomic.antt =====
-- src/fm_robot_agent/anvil.py: a paired write that raises its error leaves every file as it was.
use fm_robot_agent.Prelude.{
  ◌≡◌, refl, sym, ◌∙◌, ap, Bool, true, false, Option, none, some, List, [], ◌∷◌, arith, subst,
  if◌then◌else◌, not, keep,
}
use fm_robot_agent.Text.{Str}
use fm_robot_agent.Config.EnvFile.{env_replaced}
use fm_robot_agent.Anvil.World.{
  Place, env_config, comms_env, World, adapter_error, Ending, raised, read, text_or_empty,
}
use fm_robot_agent.Anvil.Calls.{Ensures, on_return, on_fault, on_refusal, on_death}
use fm_robot_agent.Anvil.Pair.{
  Writer, Texts, places, paired_keys, write_paired, fleet_edit, paired_edits, previous_of,
}
use fm_robot_agent.Anvil.Pair.Reads.{
  Held, Expected, texts_of, Any, Every, Recalls, none_left, one_more,
}
use fm_robot_agent.Anvil.Pair.Loops.{AtMostOne, LeavesText, loops_ensure}

pub keep-Every :
    {P : Place → Type 0} (p : Place × Str → Bool) (edits : Texts)
    → Every P (places edits)
    → Every P (places (keep p edits))
keep-Every p [] r = none_left
keep-Every {P} p (e ∷ edits) (one_more f r) =
    elim (p e) as (λ b. Every P (places (if b then e ∷ keep p edits else keep p edits))) [
      | true ↦ one_more f (keep-Every p edits r)
      | false ↦ keep-Every p edits r
    ]

-- What the edits of a paired write have in common: the loader's file, and perhaps the fleet's.
pub data Paired : Texts → Type 0 where
  alone : (t : Str) → Paired ((env_config, t) ∷ [])
  both : (t u : Str) → Paired ((env_config, t) ∷ (comms_env, u) ∷ [])

pub fleet_edit-Paired :
    (t : Str) (aliases : List Str) (held : Option Str) (value : Str)
    → Paired ((env_config, t) ∷ fleet_edit aliases held value)
unfolding fleet_edit
fleet_edit-Paired t [] held value = alone t
fleet_edit-Paired t (alias ∷ aliases) none value = alone t
fleet_edit-Paired t (alias ∷ aliases) (some text) value = both t _

Paired-Recalls :
    (matters : Place → Type 0) (w : World) (edits : Texts)
    → Paired edits
    → Recalls (previous_of w edits) (texts_of matters w) (places edits)
Paired-Recalls matters w _ (alone t) = one_more refl none_left
Paired-Recalls matters w _ (both t u) = one_more refl (one_more refl none_left)

Paired-one :
    (matters : Place → Type 0) (writer : Writer) (can_write : Place → Bool) (edits : Texts)
    → Paired edits
    → can_write env_config ≡ true
    → (can_write comms_env ≡ false → matters comms_env → LeavesText writer)
    → AtMostOne matters writer (places (keep (λ e. not (can_write e.0)) edits))
Paired-one matters writer can_write _ (alone t) h law =
    subst (λ b. AtMostOne matters writer (places (if not b then (env_config, t) ∷ [] else [])))
      (sym h) tt
Paired-one matters writer can_write _ (both t u) h law =
    subst
      (λ b. AtMostOne matters writer (
        places (
          let rest = if not (can_write comms_env) then (comms_env, u) ∷ [] else [] in
          if not b then (env_config, t) ∷ rest else rest)))
      (sym h) (fleet_one (can_write comms_env) law)
  where
    fleet_one :
        (b : Bool)
        → (b ≡ false → matters comms_env → LeavesText writer)
        → AtMostOne matters writer (places (if not b then (comms_env, u) ∷ [] else []))
    fleet_one true k = tt
    fleet_one false k = k refl

pub write_paired-Ensures :
    (matters : Place → Type 0) (writer : Writer) (key value : Str) (w : World)
    → w.can_write env_config ≡ true
    → (w.can_write comms_env ≡ false → matters comms_env → LeavesText writer)
    → Ensures (λ _. Any) Any (Held (texts_of matters w)) Any (write_paired writer key value w)
unfolding write_paired paired_edits
write_paired-Ensures matters writer key value w h law =
    let edits = paired_edits w key value in
    let paired =
      fleet_edit-Paired (env_replaced (read w env_config) key value) (paired_keys key)
        (w.live comms_env) value in
    loops_ensure writer key value (previous_of w edits) (texts_of matters w)
      (keep (λ e. w.can_write e.0) edits) (places (keep (λ e. not (w.can_write e.0)) edits)) w
      (keep-Every (λ e. w.can_write e.0) edits (Paired-Recalls matters w edits paired))
      (Paired-one matters writer w.can_write edits paired h law) refl
      (λ v k. record { reads = λ q _ _. ap (λ f. text_or_empty (f q)) k })

refused_reads :
    (held : Expected) (r : Ending Texts × World)
    → Ensures {A = Texts} (λ _. Any) Any (Held held) Any r
    → (m : Str) (v : World) → r ≡ (raised (adapter_error m), v)
    → (q : Place) → held.matters q
    → read v q ≡ held.text q
refused_reads held _ (on_return a w p) m v e q i = ground arith
refused_reads held _ (on_fault w p) m v e q i = ground arith
refused_reads held _ (on_refusal n w p) m v e q i = ap (λ r. read r.1 q) (sym e) ∙ p.reads q i refl
refused_reads held _ (on_death w p) m v e q i = ground arith

-- Where the loader's file can be written, a paired write that raises an `AdapterError` has left
-- what each of the host's files reads as; for the fleet's file, where only root can write it, this
-- holds of a command of root's that leaves the text alone where it does not succeed.
pub write_paired-all_or_none :
    (writer : Writer) (key value : Str) (w v : World) (m : Str)
    → w.can_write env_config ≡ true
    → write_paired writer key value w ≡ (raised (adapter_error m), v)
    → (q : Place)
    → (q ≡ comms_env
        → w.can_write comms_env ≡ false
        → (text alias value : Str) → writer.leaves text alias value ≡ text)
    → read v q ≡ read w q
write_paired-all_or_none writer key value w v m h e q law =
    let matters : Place → Type 0 =
      λ p. p ≡ comms_env → w.can_write comms_env ≡ false → LeavesText writer in
    refused_reads (texts_of matters w) (write_paired writer key value w)
      (write_paired-Ensures matters writer key value w h (λ k i. i refl k)) m v e q law
