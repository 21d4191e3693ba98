-- ===== src/Card.antt =====
-- src/fm_robot_agent/card.py: the identity card of a host, and what makes it a robot's.
pub mod Robot
use fm_robot_agent.Prelude.{
  Bool, true, false, not, ◌&&◌, ◌==◌, List, [], ◌∷◌, codes, some_of, if◌then◌else◌,
}
use fm_robot_agent.Int.{pos}
use fm_robot_agent.Text.{Str, str_eq, replace}
use fm_robot_agent.Json.{Json, bool, int, float, str, obj, Fields, get_json}
use fm_robot_agent.Protocol.{Python}
use fm_robot_agent.Verbs.Values.{or_else}
use fm_robot_agent.Verbs.Checks.{in_words}

-- `ROBOT_KINDS`
abbrev pub robot_kinds : List Str
robot_kinds = codes "anvil-openarm-v2" ∷ codes "axol" ∷ []

pub record RobotCard : Type 0 where
  pub name : Str
  pub kind : Str

-- `RobotCard.namespace`; the codes of `-` and `_` are 45 and 95.
unfoldable pub namespace : RobotCard → Str
namespace card = replace 45 95 card.name

-- What stands at a path: no file, a file that cannot be read or is not JSON, or its JSON. The decoding
-- error of a file that is not UTF-8 is neither an `OSError` nor a `JSONDecodeError`.
pub data CardFile (F : Type 0) : Type 0 where
  absent : CardFile F
  unreadable : CardFile F
  not_utf8 : CardFile F
  holds : Json F → CardFile F

-- A card, a `CardError` by its cause, or the decoding error, which passes through.
pub data Reading (F : Type 0) : Type 0 where
  card_of : RobotCard → Reading F
  no_file : Reading F
  not_json : Reading F
  not_a_card : Reading F
  other_version : Json F → Reading F
  other_role : Json F → Reading F
  no_name : Reading F
  other_kind : Json F → Reading F
  decode_error : Reading F

module _ (py : Python) where
  open py use {F, le_float_int, le_int_float}

  -- `version == SCHEMA_VERSION`: Python's `True` and `1.0` are equal to `1`.
  unfoldable pub is_version : Json F → Bool
  is_version (int (pos n)) = n == 1
  is_version (float x) = le_float_int x (pos 1) && le_int_float (pos 1) x
  is_version (bool b) = b
  is_version _ = false

  abbrev pub named : Json F → Json F → Reading F
  named (str (c ∷ name)) (str kind) =
      if some_of (str_eq kind) robot_kinds
      then card_of (record { name = c ∷ name; kind = kind })
      else other_kind (str kind)
  named (str (c ∷ name)) kind = other_kind kind
  named _ kind = no_name

  unfoldable pub read_fields : Fields F → Reading F
  unfolding is_version
  read_fields card =
      if not (is_version (get_json (codes "schema_version") card))
      then other_version (get_json (codes "schema_version") card)
      else if not (in_words (get_json (codes "role") card) (codes "robot" ∷ []))
      then other_role (get_json (codes "role") card)
      else named (or_else py (get_json (codes "name") card) [])
          (or_else py (get_json (codes "robot") card) [])

  unfoldable pub read_card : CardFile F → Reading F
  unfolding read_fields
  read_card absent = no_file
  read_card unreadable = not_json
  read_card not_utf8 = decode_error
  read_card (holds (obj card)) = read_fields card
  read_card (holds _) = not_a_card
