-- ===== src/Pose/Move.antt =====
-- src/fm_robot_agent/pose_move.py: one move inside one time budget. What the controllers answer, and
-- what a call raises, is a function of all the calls made before; numbers are of any type.
pub mod Steps
pub mod Run
pub mod Ends
pub mod Reads
pub mod HandBack
pub mod Safety
use fm_robot_agent.Prelude.{
  Bool, true, false, not, ◌&&◌, ◌||◌, Option, none, some, List, [], ◌∷◌, ◌++◌, ℕ, codes, map,
  some_of, ◌==◌, if◌then◌else◌,
}
use fm_robot_agent.Text.{Str}
use fm_robot_agent.Dict.{Dict, get, insert}
use fm_robot_agent.Pose.Controllers.{joints_of}

-- An `Exception` by the name of its class, or another `BaseException`.
pub data Stop : Type 0 where
  exception : Str → Stop
  interrupt : Str → Stop

pub data Ending (A : Type 0) : Type 0 where
  returned : A → Ending A
  raised : Stop → Ending A

-- To the trajectory controllers, or back to the forward ones.
pub data Way : Type 0 where
  over back : Way

pub record Goal (F : Type 0) : Type 0 where
  pub targets : Dict F
  pub max_speed : Option F
  pub min_s : Option F
  pub deadline_s : Option F
  pub hand_back : Bool
  pub plan_only : Bool

pub record Reply (F : Type 0) : Type 0 where
  pub ok : Bool
  pub message : Str
  pub duration_s : Option F
  pub moves : Option (Dict F)
  pub error_rad : Option (Dict F)
  pub handed_back : Option Bool

-- The calls on the robot, with what became of the switches.
pub data Event (F : Type 0) : Type 0 where
  measured : F → Event F
  readied : F → Event F
  switched : Way → Ending Bool → Event F
  sent : Str → List F → F → Event F
  waited : F → Event F
  cancelled : Event F
  seeded : Str → List F → Event F

abbrev pub Log : Type 0 → Type 0
Log F = List (Event F)

-- The arithmetic and the formats of Python's floats.
pub record Numbers : Type 1 where
  pub F : Type 0
  pub number : ℕ → F
  pub infinity : F
  pub minus : F → F → F
  pub plus : F → F → F
  pub times : F → F → F
  pub over_by : F → F → F
  pub absolute : F → F
  pub lt : F → F → Bool
  pub is_zero : F → Bool
  pub round1 : F → F
  pub round4 : F → F
  pub fixed0 : F → Str
  pub fixed1 : F → Str

-- What each call answers, by the calls made before it.
pub record Robot (F : Type 0) : Type 0 where
  pub clock : Log F → F
  pub measure : Log F → Ending (Option (Dict F))
  pub servers_ready : Log F → Ending Bool
  pub switch : Way → Log F → Ending Bool
  pub send : Log F → Ending Bool
  pub wait : Log F → Ending (Option (List ℕ))
  pub cancel : Log F → Ending (Unit {0})
  pub seed : Log F → Ending (Unit {0})

abbrev pub M : Type 0 → Type 0 → Type 0
M F A = Log F → Ending A × Log F

module _ {F : Type 0} where
  abbrev pub pure : {A : Type 0} → A → M F A
  pure a l = (returned a, l)

  abbrev pub raise : {A : Type 0} → Stop → M F A
  raise e l = (raised e, l)

  abbrev pub continue : {A B : Type 0} → (A → M F B) → Ending A → Log F → Ending B × Log F
  continue f (returned a) l = f a l
  continue f (raised e) l = (raised e, l)

  infixl 5 ◌>>=◌ ◌>>◌
  abbrev pub ◌>>=◌ : {A B : Type 0} → M F A → (A → M F B) → M F B
  ◌>>=◌ m f l = let (r, l') = m l in continue f r l'

  abbrev pub ◌>>◌ : {A B : Type 0} → M F A → M F B → M F B
  m >> n = m >>= λ _. n

  -- `try: m except Exception: handler`
  abbrev pub rescue : {A : Type 0} → (Str → M F A) → Ending A → Log F → Ending A × Log F
  rescue handler (returned a) l = (returned a, l)
  rescue handler (raised (exception e)) l = handler e l
  rescue handler (raised (interrupt e)) l = (raised (interrupt e), l)

  abbrev pub on_exception : {A : Type 0} → M F A → (Str → M F A) → M F A
  on_exception m handler l = let (r, l') = m l in rescue handler r l'

  -- `try: m except BaseException as error: handler`
  abbrev pub rescue_all : {A : Type 0} → (Stop → M F A) → Ending A → Log F → Ending A × Log F
  rescue_all handler (returned a) l = (returned a, l)
  rescue_all handler (raised e) l = handler e l

  abbrev pub on_any : {A : Type 0} → M F A → (Stop → M F A) → M F A
  on_any m handler l = let (r, l') = m l in rescue_all handler r l'

  -- `readings[name]`
  abbrev pub found : {A : Type 0} → Option A → M F A
  found none = raise (exception (codes "KeyError"))
  found (some a) = pure a

  unfoldable pub at_key : Dict F → Str → M F F
  at_key readings name = found (get name readings)

  unfoldable pub at_keys : Dict F → List Str → M F (List F)
  at_keys readings [] = pure []
  at_keys readings (name ∷ names) = do
    value ← at_key readings name
    values ← at_keys readings names
    pure (value ∷ values)
