-- ===== src/Anvil/Pair/Reads.antt =====
-- src/fm_robot_agent/anvil.py: what the loops of a paired write leave of the files.
use fm_robot_agent.Prelude.{
  ◌≡◌, refl, ◌∙◌, ap, Bool, true, false, ◌||◌, Option, some, List, [], ◌∷◌, ◌++◌, arith, Bool-cases,
  inl, inr, if◌then◌else◌,
}
use fm_robot_agent.Text.{Str}
use fm_robot_agent.Anvil.World.{
  Place, env_config, comms_env, journal, same, update, World, adapter_error, raise, read,
  text_or_empty,
}
use fm_robot_agent.Anvil.Calls.{Ensures, on_return, on_refusal, chain-Ensures, weaken}
use fm_robot_agent.Anvil.Host.{update_other, write_atomic-Ensures}
use fm_robot_agent.Anvil.Pair.{Texts, text_at, write_atomic, undo, put_back}

abbrev pub listed : Place → List Place → Bool
listed q [] = false
listed q (p ∷ ps) = same p q || listed q ps

-- What the files are to read as, of those that matter.
pub record Expected : Type 1 where
  pub text : Place → Str
  pub matters : Place → Type 0

-- Outside `ps` every file that matters reads as in `held`.
pub record Reads (ps : List Place) (held : Expected) (w : World) : Type 0 where
  pub reads : (q : Place) → held.matters q → listed q ps ≡ false → read w q ≡ held.text q

-- What the files read as in `w`.
abbrev pub texts_of : (Place → Type 0) → World → Expected
texts_of matters w = record { text = read w; matters = matters }

-- No file has been touched.
abbrev pub Held : Expected → World → Type 0
Held held = Reads [] held

abbrev pub Any : World → Type 0
Any _ = Unit

listed-append :
    (q p : Place) (ps : List Place)
    → listed q (ps ++ p ∷ []) ≡ false
    → (listed q ps ≡ false) × (same p q ≡ false)
listed-append q p [] h = ground arith
listed-append q p (r ∷ ps) h = ground (arith, listed-append q p ps)

-- A file that is now one of the touched ones no longer matters.
pub touched :
    (held : Expected) (ps : List Place) (p : Place) (x : Option Str) (w v : World)
    → Reads ps held w
    → v.live ≡ update w.live p x
    → Reads (ps ++ p ∷ []) held v
touched held ps p x w v h e = record {
  reads = λ q m out.
      let out' = listed-append q p ps out in
      ap text_or_empty (ap (λ f. f q) e ∙ update_other w.live p q x out'.1) ∙ h.reads q m out'.0;
}

pub untouched :
    (held : Expected) (ps : List Place) (w v : World)
    → Reads ps held w
    → v.live ≡ w.live
    → Reads ps held v
untouched held ps w v h e = record {
  reads = λ q m out. ap (λ f. text_or_empty (f q)) e ∙ h.reads q m out;
}

pub still-Reads :
    (held : Expected) (ps : List Place) (w v : World)
    → Reads ps held w
    → Held (texts_of held.matters w) v
    → Reads ps held v
still-Reads held ps w v h k = record { reads = λ q m out. k.reads q m refl ∙ h.reads q m out }

same_sound : (p q : Place) → same p q ≡ true → p ≡ q
same_sound env_config env_config h = refl
same_sound comms_env comms_env h = refl
same_sound journal journal h = refl
same_sound env_config comms_env h = grind arith
same_sound env_config journal h = grind arith
same_sound comms_env env_config h = grind arith
same_sound comms_env journal h = grind arith
same_sound journal env_config h = grind arith
same_sound journal comms_env h = grind arith

-- A file that holds its former text again is no longer a touched one.
restored :
    (held : Expected) (ps : List Place) (p : Place) (w v : World)
    → Reads (p ∷ ps) held w
    → v.live ≡ update w.live p (some (held.text p))
    → Reads ps held v
restored held ps p w v h e = record {
  reads = λ q m out. ap (λ f. text_or_empty (f q)) e ∙ (elim (Bool-cases (same p q)) [
    | inl y ↦
        ap (λ b. text_or_empty (if b then some (held.text p) else w.live q)) y
        ∙ ap held.text (same_sound p q y)
    | inr n ↦
        ap (λ b. text_or_empty (if b then some (held.text p) else w.live q)) n
        ∙ h.reads q m (ap (λ b. b || listed q ps) n ∙ out)
  ]);
}

-- `P` of each of `ps`.
pub data Every (P : Place → Type 0) : List Place → Type 0 where
  none_left : Every P []
  one_more : {p : Place} {ps : List Place} → P p → Every P ps → Every P (p ∷ ps)

-- `previous` has the former text of each of `ps`.
abbrev pub Recalls : Texts → Expected → List Place → Type 0
Recalls previous held = Every (λ p. text_at p previous ≡ held.text p)

pub Every-append :
    {P : Place → Type 0} (ps : List Place) {p : Place} → Every P ps → P p → Every P (ps ++ p ∷ [])
Every-append [] none_left e = one_more e none_left
Every-append (q ∷ ps) (one_more f r) e = one_more f (Every-append ps r e)

pub undo-Ensures :
    (previous : Texts) (held : Expected) (ps : List Place) (w : World)
    → Recalls previous held ps
    → Reads ps held w
    → Ensures (λ _. Held held) Any (Held held) Any (undo ps previous w)
unfolding undo
undo-Ensures previous held [] w r h = on_return tt w h
undo-Ensures previous held (p ∷ ps) w (one_more e r) h =
    chain-Ensures (write_atomic p (text_at p previous)) (λ _. undo ps previous) w
      (weaken (write_atomic p (text_at p previous) w)
        (write_atomic-Ensures p (text_at p previous) w) (λ _ _ k. k) (λ _ _. tt) (λ _. elim [ ])
        (λ _ _. tt))
      (λ _ v k.
        undo-Ensures previous held ps v r
          (restored held ps p w v h (k ∙ ap (λ t. update w.live p (some t)) e)))

pub put_back-Ensures :
    (previous : Texts) (held : Expected) (ps : List Place) (message : Str) (w : World)
    → Recalls previous held ps
    → Reads ps held w
    → Ensures {A = Unit {0}} (λ _ _. ⊥) Any (Held held) Any (put_back ps previous message w)
unfolding put_back
put_back-Ensures previous held ps message w r h =
    chain-Ensures (undo ps previous) (λ _. raise (adapter_error message)) w
      (undo-Ensures previous held ps w r h) (λ _ v k. on_refusal message v k)
