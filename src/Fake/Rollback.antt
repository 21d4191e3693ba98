-- ===== src/Fake/Rollback.antt =====
-- src/fm_robot_agent/fake.py: a severing write and its rollback.
use fm_robot_agent.Prelude.{
  ◌≡◌, refl, sym, subst, ◌∙◌, ap, Bool, true, false, Option, none, some, codes, if◌then◌else◌,
}
use fm_robot_agent.Text.{Str, str_eq, str_eq_iff}
use fm_robot_agent.Dict.{get, insert, get-insert}
use fm_robot_agent.Config.{severing}
use fm_robot_agent.Fake.{
  Answer, Fake, config_write, config_rollback, roll_back, write_held, write_classed,
}

abbrev pub iface : Str
iface = codes "CYCLONEDDS_IFACE"

config_write-iface :
    (value previous : Str) (f : Fake)
    → get iface f.values ≡ some previous
    → config_write iface value f ≡ write_held severing iface previous value f
unfolding config_write str_eq get
config_write-iface value previous f held = ap (λ o. write_classed severing iface o value f) held

-- The write succeeded and is read back, and its rollback put every key, and the mode, back.
pub record Undone (value : Str) (f : Fake) (r : Answer × Fake) : Type 0 where
  pub written : r.0.ok ≡ true
  pub held : get iface r.1.values ≡ some value
  pub undone : (config_rollback r.1).0.ok ≡ true
  pub closed : (config_rollback r.1).1.pending ≡ none
  pub same_mode : (config_rollback r.1).1.mode ≡ f.mode
  pub same_values : (k : Str) → get k (config_rollback r.1).1.values ≡ get k f.values

put_back :
    (b : Bool) (previous value : Str) (o : Option Str)
    → (b ≡ true → o ≡ some previous)
    → (if b then some previous else if b then some value else o) ≡ o
put_back true previous value o h = sym (h refl)
put_back false previous value o h = refl

-- On the fake robot, a severing write succeeds and its value is read back; the rollback after it
-- succeeds, closes the change, and puts back every key's value and the mode.
pub config_write-Undone :
    (value previous : Str) (f : Fake)
    → get iface f.values ≡ some previous
    → Undone value f (config_write iface value f)
unfolding write_held config_rollback roll_back str_eq
config_write-Undone value previous f h =
    subst (Undone value f) (sym (config_write-iface value previous f h)) (record {
      written = refl;
      held = get-insert iface iface value f.values;
      undone = refl;
      closed = refl;
      same_mode = refl;
      same_values = λ k.
          get-insert iface k previous (insert iface value f.values)
          ∙ ap (λ o. if str_eq iface k then some previous else o)
              (get-insert iface k value f.values)
          ∙ put_back (str_eq iface k) previous value (get k f.values)
              (λ e. ap (λ j. get j f.values) (sym ((str_eq_iff iface k).0 e)) ∙ h);
    })
