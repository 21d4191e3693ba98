-- ===== src/Anvil/Host.antt =====
-- src/fm_robot_agent/anvil.py: what the single file operations do, whatever the environment decides.
use fm_robot_agent.Prelude.{
  ◌≡◌, refl, ◌∙◌, ap, true, false, none, some, List, [], ◌∷◌, Option, none, some, if◌then◌else◌,
}
use fm_robot_agent.Text.{Str}
use fm_robot_agent.Anvil.World.{
  Place, env_config, comms_env, journal, same, update, World, Fate, done, fault, death, draw_from,
  act_by, write_by, act, write_temp, move, replace_by, replace,
}
use fm_robot_agent.Anvil.Calls.{
  weaken, Keeps, Ensures, on_return, on_fault, on_death, chain-Ensures,
}
use fm_robot_agent.Anvil.Pair.{write_atomic}

live-write_by :
    (p : Place) (t : Str) (w : World) (fs : List Fate)
    → (let (d, w') = draw_from fs w in write_by p t d w').1.live ≡ w.live
live-write_by p t w [] = refl
live-write_by p t w (done ∷ fs) = refl
live-write_by p t w (fault ∷ fs) = refl
live-write_by p t w (death ∷ fs) = refl

-- A temporary file that is written, or is not, changes no file itself.
pub write_temp-Keeps : (p : Place) (t : Str) → Keeps (λ w. w.live) (write_temp p t)
unfolding write_temp
write_temp-Keeps p t w = live-write_by p t w w.fates

act_by_keeps :
    {B : Type 0} (view : World → B) (f : World → World) (w : World)
    → ((fs : List Fate) → view (record w { fates = fs }) ≡ view w)
    → ((v : World) → view (f v) ≡ view v)
    → (fs : List Fate) → view (let (d, w') = draw_from fs w in act_by f d w').1 ≡ view w
act_by_keeps view f w hd hf [] = hf w
act_by_keeps view f w hd hf (done ∷ fs) = hf (record w { fates = fs }) ∙ hd fs
act_by_keeps view f w hd hf (fault ∷ fs) = hd fs
act_by_keeps view f w hd hf (death ∷ fs) = hd fs

-- An action keeps what its effect keeps.
pub act-Keeps :
    {B : Type 0} (view : World → B) (f : World → World)
    → ((fs : List Fate) (w : World) → view (record w { fates = fs }) ≡ view w)
    → ((v : World) → view (f v) ≡ view v)
    → Keeps view (act f)
unfolding act
act-Keeps view f hd hf w = act_by_keeps view f w (λ fs. hd fs w) hf w.fates

replace_by-Ensures :
    (p : Place) (w : World) (fs : List Fate)
    → Ensures
        (λ _ v. v.live ≡ update w.live p (w.temps p))
        (λ v. v.live ≡ w.live)
        (λ _. ⊥)
        (λ v. v.live ≡ w.live)
        (let (d, w') = draw_from fs w in act_by (move p) d w')
replace_by-Ensures p w [] = on_return tt _ refl
replace_by-Ensures p w (done ∷ fs) = on_return tt _ refl
replace_by-Ensures p w (fault ∷ fs) = on_fault _ refl
replace_by-Ensures p w (death ∷ fs) = on_death _ refl

act_move-Ensures :
    (p : Place) (w : World) (t : Option Str)
    → Ensures
        (λ _ v. v.live ≡ update w.live p (w.temps p))
        (λ v. v.live ≡ w.live)
        (λ _. ⊥)
        (λ v. v.live ≡ w.live)
        (replace_by p t w)
unfolding act
act_move-Ensures p w none = on_fault w refl
act_move-Ensures p w (some t) = replace_by-Ensures p w w.fates

-- A rename puts the temporary file in place of the file, or fails or dies and leaves it.
pub replace-Ensures :
    (p : Place) (w : World)
    → Ensures
        (λ _ v. v.live ≡ update w.live p (w.temps p))
        (λ v. v.live ≡ w.live)
        (λ _. ⊥)
        (λ v. v.live ≡ w.live)
        (replace p w)
unfolding replace
replace-Ensures p w = act_move-Ensures p w (w.temps p)

write_by-Ensures :
    (p : Place) (t : Str) (w : World) (fs : List Fate)
    → Ensures
        (λ _ v. (v.live ≡ w.live) × (v.temps ≡ update w.temps p (some t)))
        (λ v. v.live ≡ w.live)
        (λ _. ⊥)
        (λ v. v.live ≡ w.live)
        (let (d, w') = draw_from fs w in write_by p t d w')
write_by-Ensures p t w [] = on_return tt _ (refl, refl)
write_by-Ensures p t w (done ∷ fs) = on_return tt _ (refl, refl)
write_by-Ensures p t w (fault ∷ fs) = on_fault _ refl
write_by-Ensures p t w (death ∷ fs) = on_death _ refl

pub write_temp-Ensures :
    (p : Place) (t : Str) (w : World)
    → Ensures
        (λ _ v. (v.live ≡ w.live) × (v.temps ≡ update w.temps p (some t)))
        (λ v. v.live ≡ w.live)
        (λ _. ⊥)
        (λ v. v.live ≡ w.live)
        (write_temp p t w)
unfolding write_temp
write_temp-Ensures p t w = write_by-Ensures p t w w.fates

pub same_refl : (p : Place) → same p p ≡ true
same_refl env_config = refl
same_refl comms_env = refl
same_refl journal = refl

pub update_same : {A : Type 0} → (f : Place → A) (p : Place) (a : A) → update f p a p ≡ a
update_same f p a = ap (λ b. if b then a else f p) (same_refl p)

pub update_other :
    {A : Type 0} → (f : Place → A) (p q : Place) (a : A) → same p q ≡ false → update f p a q ≡ f q
update_other f p q a h = ap (λ b. if b then a else f q) h

-- A file written atomically holds the text, or is as it was.
pub write_atomic-Ensures :
    (p : Place) (t : Str) (w : World)
    → Ensures
        (λ _ v. v.live ≡ update w.live p (some t))
        (λ v. v.live ≡ w.live)
        (λ _. ⊥)
        (λ v. v.live ≡ w.live)
        (write_atomic p t w)
unfolding write_atomic
write_atomic-Ensures p t w =
    chain-Ensures (write_temp p t) (λ _. replace p) w
      (weaken (write_temp p t w) (write_temp-Ensures p t w) (λ _ _ h. h) (λ _ h. h) (λ _ h. h)
        (λ _ h. h))
      (λ _ v h.
        weaken (replace p v) (replace-Ensures p v)
          (λ _ u e.
            e
            ∙ ap (λ f. update f p (v.temps p)) h.0
            ∙ ap (update w.live p) (ap (λ f. f p) h.1 ∙ update_same w.temps p (some t)))
          (λ _ e. e ∙ h.0) (λ _ e. e) (λ _ e. e ∙ h.0))
