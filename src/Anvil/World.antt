-- ===== src/Anvil/World.antt =====
-- The host under src/fm_robot_agent/anvil.py: the three files that a configuration write touches,
-- their `.tmp` neighbours, and an environment that decides at each operating-system call whether it
-- is done, fails with an `OSError`, or the agent's process dies in it. Files that are there can be
-- read; what cannot be read counts as absent.

use fm_robot_agent.Prelude.{ℕ, Bool, true, false, Option, none, some, List, [], ◌∷◌, if◌then◌else◌}
use fm_robot_agent.Text.{Str}

-- The loader's `.env.config`, the fleet's `/etc/fm-comms.env` and the journal.
pub data Place : Type 0 where
  env_config comms_env journal : Place

abbrev pub same : Place → Place → Bool
same env_config env_config = true
same comms_env comms_env = true
same journal journal = true
same _ _ = false

abbrev pub update {ℓ} : {A : Type ℓ} → (Place → A) → Place → A → Place → A
update f p a q = if same p q then a else f q

pub data Fate : Type 0 where
  done fault death : Fate

-- One look at the fabric: the clock, and when telemetry was last seen.
pub record Glance : Type 0 where
  pub now : ℕ
  pub last_seen : ℕ

pub record World : Type 0 where
  pub live : Place → Option Str
  pub temps : Place → Option Str
  pub can_write : Place → Bool
  pub stack_up : Bool
  pub fates : List Fate
  pub glances : List Glance

pub data Error : Type 0 where
  os_error : Error
  adapter_error : Str → Error

-- How a call ends; `died` is the end of the agent's process.
pub data Ending (A : Type 0) : Type 0 where
  returned : A → Ending A
  raised : Error → Ending A
  died : Ending A

abbrev pub M : Type 0 → Type 0
M A = World → Ending A × World

abbrev pub pure : {A : Type 0} → A → M A
pure a w = (returned a, w)

abbrev pub raise : {A : Type 0} → Error → M A
raise e w = (raised e, w)

abbrev pub continue : {A B : Type 0} → (A → M B) → Ending A → World → Ending B × World
continue f (returned a) w = f a w
continue f (raised e) w = (raised e, w)
continue f died w = (died, w)

infixl 5 ◌>>=◌ ◌>>◌
abbrev pub ◌>>=◌ : {A B : Type 0} → M A → (A → M B) → M B
◌>>=◌ m f w = let (r, w') = m w in continue f r w'

abbrev pub ◌>>◌ : {A B : Type 0} → M A → M B → M B
m >> n = m >>= λ _. n

-- `try: m except OSError: handler`, and the same for `AdapterError`.
abbrev pub after_os : {A : Type 0} → M A → Ending A → World → Ending A × World
after_os handler (raised os_error) w = handler w
after_os handler (raised (adapter_error m)) w = (raised (adapter_error m), w)
after_os handler (returned a) w = (returned a, w)
after_os handler died w = (died, w)

abbrev pub on_os : {A : Type 0} → M A → M A → M A
on_os m handler w = let (r, w') = m w in after_os handler r w'

abbrev pub after_adapter : {A : Type 0} → (Str → M A) → Ending A → World → Ending A × World
after_adapter handler (raised (adapter_error m)) w = handler m w
after_adapter handler (raised os_error) w = (raised os_error, w)
after_adapter handler (returned a) w = (returned a, w)
after_adapter handler died w = (died, w)

abbrev pub on_adapter : {A : Type 0} → M A → (Str → M A) → M A
on_adapter m handler w = let (r, w') = m w in after_adapter handler r w'

-- The environment's next decision; where it says nothing, calls are done.
abbrev pub draw_from : List Fate → World → Fate × World
draw_from [] w = (done, w)
draw_from (f ∷ fs) w = (f, record w { fates = fs })

abbrev pub draw : World → Fate × World
draw w = draw_from w.fates w

-- A call that changes the host by `f`, all at once or not at all.
abbrev pub act_by : (World → World) → Fate → World → Ending (Unit {0}) × World
act_by f done w = (returned tt, f w)
act_by f fault w = (raised os_error, w)
act_by f death w = (died, w)

unfoldable pub act : (World → World) → M (Unit {0})
act f w = let (d, w') = draw w in act_by f d w'

abbrev pub set_temp : Place → Option Str → World → World
set_temp p t w = record w { temps = update w.temps p t }

abbrev pub set_live : Place → Option Str → World → World
set_live p t w = record w { live = update w.live p t }

-- `tmp.write_text(text)`: a write that fails or is cut off leaves a file behind.
abbrev pub write_by : Place → Str → Fate → World → Ending (Unit {0}) × World
write_by p text done w = (returned tt, set_temp p (some text) w)
write_by p text fault w = (raised os_error, set_temp p (some []) w)
write_by p text death w = (died, set_temp p (some []) w)

unfoldable pub write_temp : Place → Str → M (Unit {0})
write_temp p text w = let (d, w') = draw w in write_by p text d w'

-- `os.replace(tmp, path)`
abbrev pub move : Place → World → World
move p w = set_temp p none (set_live p (w.temps p) w)

abbrev pub replace_by : Place → Option Str → M (Unit {0})
replace_by p none = raise os_error
replace_by p (some t) = act (move p)

unfoldable pub replace : Place → M (Unit {0})
replace p w = replace_by p (w.temps p) w

-- `path.read_text()`, or empty where there is none.
abbrev pub text_or_empty : Option Str → Str
text_or_empty none = []
text_or_empty (some t) = t

abbrev pub read : World → Place → Str
read w p = text_or_empty (w.live p)
