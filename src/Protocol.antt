-- ===== src/Protocol.antt =====
-- src/fm_robot_agent/protocol.py: what a robot must be able to do, as an interface, and the
-- exceptions of its methods as results. What the standard library does with floats, JSON text and
-- query parameters is a parameter too.
use fm_robot_agent.Prelude.{ℕ, Bool, false, Option, List, ◌++◌, codes}
use fm_robot_agent.Int.{ℤ}
use fm_robot_agent.Text.{Str}
use fm_robot_agent.Dict.{Dict}
use fm_robot_agent.Json.{Json, Items, Fields, end}
use fm_robot_agent.Config.{Class}

abbrev pub schema_version : ℕ
schema_version = 1

abbrev pub perception_debug_lease_s : ℕ
perception_debug_lease_s = 60

-- `AdapterError`, with its message, as a result.
pub data Result (A : Type 0) : Type 0 where
  ok : A → Result A
  err : Str → Result A

-- A method on an object of type `S`. What was written before a raise stays written.
abbrev pub Action : Type 0 → Type 0 → Type 0
Action S A = S → Result A × S

module _ {S : Type 0} where
  abbrev pub pure : {A : Type 0} → A → Action S A
  pure a s = (ok a, s)

  abbrev pub resume : {A B : Type 0} → (A → Action S B) → Result A → S → Result B × S
  resume f (ok a) s = f a s
  resume f (err m) s = (err m, s)

  infixl 5 ◌>>=◌
  abbrev pub ◌>>=◌ : {A B : Type 0} → Action S A → (A → Action S B) → Action S B
  ◌>>=◌ m f s = let (r, s') = m s in resume f r s'

-- The result of a verb that changes something.
pub record Outcome (F : Type 0) : Type 0 where
  pub ok : Bool
  pub message : Str
  pub detail : Fields F

abbrev pub task_not_recorded : {F : Type 0} → Str → Outcome F
task_not_recorded recorder = record {
  ok = false;
  message =
      recorder
      ++ codes " writes no task sentence, so --task would be dropped. "
      ++ codes "Record without it, then set the text with "
      ++ codes "`fm policy dataset relabel <dataset> --task ...`";
  detail = end;
}

-- One key of a robot's configuration, as the fleet sees it (`Setting` of config.py).
pub record Setting (F : Type 0) : Type 0 where
  pub key : Str
  pub value : Json F
  pub klass : Class
  pub options : List Str
  pub help : Str

-- `RobotAdapter`, over the robot's state `S`.
pub record Adapter (F S : Type 0) : Type 0 where
  pub kind : Str
  pub status : Action S (Fields F)
  pub up : Action S (Outcome F)
  pub down : Action S (Outcome F)
  pub set_mode : Str → Option (Dict Str) → Action S (Outcome F)
  pub config_read : Action S (List (Setting F))
  pub config_write : Str → Str → Action S (Outcome F)
  pub config_rollback : Action S (Outcome F)
  pub session : Str → Str → Action S (Outcome F)
  pub record_take : Str → Str → Str → Str → Str → Action S (Outcome F)
  pub pose : Str → Str → Action S (Outcome F)
  pub collect : Str → Option (Dict Str) → Action S (Outcome F)
  pub perception_debug : Bool → Action S (Outcome F)
  pub stop : Action S (Outcome F)
  pub episodes : Str → Action S (Items F)

-- The description bundle and the calibration store that the router reads and writes.
pub record Bundle (F S : Type 0) : Type 0 where
  pub urdf : Action S Str
  pub asset : Str → Action S Str
  pub read_all : Action S (Fields F)
  pub write : Str → Json F → Json F → Action S (Fields F)

-- What the router takes from Python: floats and their text, `repr`, `json.loads` (nothing where it
-- raises), and the values of a key in `urllib.parse.parse_qs`.
pub record Python : Type 1 where
  pub F : Type 0
  pub is_zero : F → Bool
  -- `n / 10 ** k`, as a literal of the source
  pub literal : ℕ → ℕ → F
  pub le_float : F → F → Bool
  pub le_int_float : ℤ → F → Bool
  pub le_float_int : F → ℤ → Bool
  pub str_float : F → Str
  -- `f"{value:.6f}"`
  pub fixed_float : F → Str
  pub repr : Str → Str
  -- `json.loads` on the decoded bytes, or its two errors of decoding. No other error is modelled.
  pub loads : Str → Option (Json F)
  pub parse_qs : Str → Str → List Str
