-- ===== src/Verbs/Router/Writes.antt =====
-- src/fm_robot_agent/verbs.py: what `_mode`, `_config` and `_pose` hand to the adapter.
use fm_robot_agent.Prelude.{
  ℕ, ◌≡◌, refl, ◌⊎◌, inl, inr, ◌≤◌, true, false, not, ◌||◌, Option, none, some, [], ◌∷◌, arith,
  codes, length, leb, leb→le,
}
use fm_robot_agent.Text.{Str, str_eq, str_eq_iff}
use fm_robot_agent.Dict.{Dict}
use fm_robot_agent.Json.{Json, null, str, Fields, get_json}
use fm_robot_agent.Protocol.{Action, Outcome, Adapter, Python}
use fm_robot_agent.Verbs.Values.{pose_name, or_else, truthy}
use fm_robot_agent.Verbs.Checks.{Checked, accepted, rejected, in_words}
use fm_robot_agent.Verbs.Checks.Arguments.{IsShort, IsArguments, checked_args-IsArguments}
use fm_robot_agent.Verbs.Handlers
use fm_robot_agent.Verbs.Handlers.{
  refused, answer_with, config_actions, pose_actions, is_text, if_any,
}
use fm_robot_agent.Verbs.Equipment
use fm_robot_agent.Verbs.Equipment.{json_text, text_such, or_empty}
use fm_robot_agent.Verbs.Router.Guards.{
  Guarded, Guarded-if, Guarded-refuse, Guarded-call, Guarded-absurd, not-false, falsy_text,
}

plan_or_go :
    (a : Str)
    → (str_eq a (codes "plan") || str_eq a (codes "go")) ≡ true
    → (a ≡ codes "plan") ⊎ (a ≡ codes "go")
plan_or_go a h = ground (arith, str_eq_iff a (codes "plan"), str_eq_iff a (codes "go"))

list_or_home :
    (a : Str)
    → in_words {F = ⊥} (str a) pose_actions ≡ true
    → (str_eq a (codes "plan") || str_eq a (codes "go")) ≡ false
    → (a ≡ codes "list") ⊎ (a ≡ codes "home")
list_or_home a h n = ground (arith, str_eq_iff a (codes "list"), str_eq_iff a (codes "home"))

module _ (py : Python) {S : Type 0} (adapter : Adapter py.F S) (key : Str) where
  open py use {F}

  -- A mode is a short text, and its arguments are few, named and short, or not there at all.
  abbrev pub IsModeCall : Action S (Outcome F) → Type 0
  IsModeCall call =
      (value : Str) × (args : Dict Str) × IsShort value
      × IsArguments args
      × (call ≡ adapter.set_mode value (if_any args))

  mode_with-Guarded :
      (value : Str) (c : Checked (Dict Str))
      → IsShort value
      → ((args : Dict Str) → c ≡ accepted args → IsArguments args)
      → Guarded key IsModeCall (Handlers.mode_with py adapter key value c)
  unfolding Handlers.mode_with
  mode_with-Guarded value (rejected message) short h = search Guarded-refuse
  mode_with-Guarded value (accepted args) short h =
      Guarded-call key IsModeCall _ (value, args, short, h args refl, refl)

  short : (c : ℕ) (s : Str) → leb (length (c ∷ s)) 256 ≡ true → IsShort (c ∷ s)
  short c s h = (omega arith, leb→le (length (c ∷ s)) 256 h)

  mode_value-Guarded :
      (v : Json F) (body : Fields F)
      → Guarded key IsModeCall (Handlers.mode_value py adapter key v body)
  unfolding Handlers.mode_value
  mode_value-Guarded (str (c ∷ s)) body =
      search (Guarded-if, Guarded-refuse, mode_with-Guarded, short, checked_args-IsArguments) depth
        8
  mode_value-Guarded (str []) body = search Guarded-refuse
  mode_value-Guarded _ body = search Guarded-refuse

  -- `mode` refuses and changes nothing, or it makes one call of `set_mode`, with a name of 1 to
  -- 256 characters, at most 16 arguments, each of them named and short, or `None` where there are
  -- none.
  pub mode-Guarded : (body : Fields F) → Guarded key IsModeCall (Handlers.mode py adapter key body)
  unfolding Handlers.mode
  mode-Guarded body = mode_value-Guarded (get_json (codes "value") body) body

  abbrev pub IsConfigCall : Action S (Outcome F) → Type 0
  IsConfigCall call =
      (call ≡ adapter.config_rollback)
      ⊎ ((name : Str) × (value : Str) × (1 ≤ length name)
          × IsShort value
          × (call ≡ adapter.config_write name value))

  config_set-Guarded :
      (k : Json F) (v : Option Str)
      → Guarded key IsConfigCall (Handlers.config_set py adapter key k v)
  unfolding Handlers.config_set
  config_set-Guarded (str (c ∷ k)) none = search Guarded-refuse
  config_set-Guarded (str (c ∷ k)) (some []) = search Guarded-refuse
  config_set-Guarded (str (c ∷ k)) (some (d ∷ v)) =
      Guarded-if key IsConfigCall (leb (length (d ∷ v)) 256) _ _
        (λ h. Guarded-call key IsConfigCall _ (inr (c ∷ k, d ∷ v, omega arith, short d v h, refl)))
        (λ _. Guarded-refuse key IsConfigCall _)
  config_set-Guarded (str []) v = search Guarded-refuse
  config_set-Guarded null v = search Guarded-refuse
  config_set-Guarded _ v = search Guarded-refuse

  rollback-Guarded : Guarded key IsConfigCall (answer_with py adapter key adapter.config_rollback)
  rollback-Guarded = Guarded-call key IsConfigCall _ (inl refl)

  -- `config` with an action other than `get` refuses and changes nothing, or it makes one call: a
  -- rollback, or a write of a key that is not empty and a value of 1 to 256 characters.
  pub config-Guarded :
      (body : Fields F)
      → is_text (or_else py (get_json (codes "action") body) []) (codes "get") ≡ false
      → Guarded key IsConfigCall (Handlers.config py adapter key body)
  unfolding Handlers.config
  config-Guarded body other =
      search (Guarded-if, Guarded-refuse, Guarded-absurd, config_set-Guarded, rollback-Guarded)
        depth 8

  -- A plan and a move name a pose; a list and a return home name none.
  abbrev pub IsPoseCall : Action S (Outcome F) → Type 0
  IsPoseCall call =
      ((action : Str) × (name : Str) × ((action ≡ codes "plan") ⊎ (action ≡ codes "go"))
        × (pose_name name ≡ true)
        × (call ≡ adapter.pose action name))
      ⊎ (call ≡ adapter.pose (codes "list") [])
      ⊎ (call ≡ adapter.pose (codes "home") [])

  moving :
      (a n : Json F)
      → (is_text a (codes "plan") || is_text a (codes "go")) ≡ true
      → text_such pose_name n ≡ true
      → Guarded key IsPoseCall
          (answer_with py adapter key (adapter.pose (json_text a) (json_text n)))
  moving (str a) (str n) h k = Guarded-call key IsPoseCall _ (inl (a, n, plan_or_go a h, k, refl))
  moving (str a) null h k = cc
  moving (str a) _ h k = cc
  moving null n h k = cc
  moving _ n h k = cc

  still :
      (a n : Json F)
      → not (in_words a pose_actions) ≡ false
      → (is_text a (codes "plan") || is_text a (codes "go")) ≡ false
      → truthy py n ≡ false
      → Guarded key IsPoseCall
          (answer_with py adapter key (adapter.pose (json_text a) (json_text n)))
  still (str a) n h k m = Guarded-call key IsPoseCall _ (
      inr (elim (list_or_home a (not-false _ h) k) [
        | inl e ↦ inl (rw (e, falsy_text py adapter key n m))
        | inr e ↦ inr (rw (e, falsy_text py adapter key n m))
      ]))
  still null n h k m = cc
  still _ n h k m = cc

  -- `pose` refuses and changes nothing, or it makes one call: a plan or a move to a name that has
  -- the form of a pose's, or a list or a return home without a name.
  pub pose-Guarded : (body : Fields F) → Guarded key IsPoseCall (Equipment.pose py adapter key body)
  unfolding Equipment.pose
  pose-Guarded body = search (Guarded-if, Guarded-refuse, moving, still) depth 9
