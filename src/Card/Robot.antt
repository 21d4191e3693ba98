-- ===== src/Card/Robot.antt =====
-- src/fm_robot_agent/card.py: what holds of a card that is read.
use fm_robot_agent.Prelude.{
  ◌≡◌, refl, Bool, true, false, [], ◌∷◌, codes, arith, some_of, if◌then◌else◌,
}
use fm_robot_agent.Text.{Str, str_eq}
use fm_robot_agent.Json.{Json, null, bool, int, float, str, arr, obj, Fields, get_json}
use fm_robot_agent.Protocol.{Python}
use fm_robot_agent.Verbs.Values.{or_else}
use fm_robot_agent.Verbs.Checks.{in_words}
use fm_robot_agent.Card.{
  RobotCard, CardFile, absent, unreadable, not_utf8, holds, card_of, robot_kinds, named, is_version,
  read_fields, read_card,
}

module _ (py : Python) where
  open py use {F}

  -- What a card needs of the fields of its file: this version, a robot's role, a name, and a kind
  -- that has an adapter.
  pub record IsRobot (d : Fields F) (card : RobotCard) : Type 0 where
    version : is_version py (get_json (codes "schema_version") d) ≡ true
    role : in_words (get_json (codes "role") d) (codes "robot" ∷ []) ≡ true
    name : get_json (codes "name") d ≡ str card.name
    has_name : str_eq card.name [] ≡ false
    robot : get_json (codes "robot") d ≡ str card.kind
    has_adapter : some_of (str_eq card.kind) robot_kinds ≡ true

  if_truthy :
      (b : Bool) (v : Json F) (t : Str)
      → str_eq t [] ≡ false
      → (if b then v else str []) ≡ str t
      → v ≡ str t
  unfolding str_eq
  if_truthy true v t some_text h = h
  if_truthy false v [] some_text h = cc
  if_truthy false v (c ∷ t) some_text h = cc

  kind_not_empty : (k : Str) → some_of (str_eq k) robot_kinds ≡ true → str_eq k [] ≡ false
  unfolding str_eq
  kind_not_empty [] h = cc
  kind_not_empty (c ∷ k) h = refl

  named-IsRobot :
      (n k : Json F) (card : RobotCard)
      → named py n k ≡ card_of card
      → (n ≡ str card.name)
        × (str_eq card.name [] ≡ false)
        × (k ≡ str card.kind)
        × (some_of (str_eq card.kind) robot_kinds ≡ true)
  unfolding str_eq
  named-IsRobot (str (c ∷ s)) (str k) card h = ground arith
  named-IsRobot (str (c ∷ s)) null card h = cc
  named-IsRobot (str (c ∷ s)) (bool b) card h = cc
  named-IsRobot (str (c ∷ s)) (int b) card h = cc
  named-IsRobot (str (c ∷ s)) (float b) card h = cc
  named-IsRobot (str (c ∷ s)) (arr b) card h = cc
  named-IsRobot (str (c ∷ s)) (obj b) card h = cc
  named-IsRobot (str []) k card h = cc
  named-IsRobot null k card h = cc
  named-IsRobot (bool b) k card h = cc
  named-IsRobot (int b) k card h = cc
  named-IsRobot (float b) k card h = cc
  named-IsRobot (arr b) k card h = cc
  named-IsRobot (obj b) k card h = cc

  read_fields-IsRobot :
      (d : Fields F) (card : RobotCard) → read_fields py d ≡ card_of card → IsRobot d card
  unfolding read_fields
  read_fields-IsRobot d card h =
      let (named_so, has_name, kind_so, has_adapter) =
        named-IsRobot (or_else py (get_json (codes "name") d) [])
          (or_else py (get_json (codes "robot") d) []) card (ground arith) in
      record {
        version = ground arith;
        role = ground arith;
        name = if_truthy _ (get_json (codes "name") d) card.name has_name named_so;
        has_name = has_name;
        robot =
            if_truthy _ (get_json (codes "robot") d) card.kind
              (kind_not_empty card.kind has_adapter) kind_so;
        has_adapter = has_adapter;
      }

  -- A card that is read comes from a file of a JSON object, which has this version and the role of
  -- a robot, and whose name, not empty, and kind, one that has an adapter, are the card's.
  pub read_card-IsRobot :
      (file : CardFile F) (card : RobotCard)
      → read_card py file ≡ card_of card
      → (d : Fields F) × (file ≡ holds (obj d)) × IsRobot d card
  unfolding read_card
  read_card-IsRobot absent card h = cc
  read_card-IsRobot unreadable card h = cc
  read_card-IsRobot not_utf8 card h = cc
  read_card-IsRobot (holds null) card h = cc
  read_card-IsRobot (holds (bool b)) card h = cc
  read_card-IsRobot (holds (int b)) card h = cc
  read_card-IsRobot (holds (float b)) card h = cc
  read_card-IsRobot (holds (str b)) card h = cc
  read_card-IsRobot (holds (arr b)) card h = cc
  read_card-IsRobot (holds (obj d)) card h = (d, refl, read_fields-IsRobot d card h)
