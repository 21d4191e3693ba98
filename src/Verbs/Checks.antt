-- ===== src/Verbs/Checks.antt =====
-- src/fm_robot_agent/verbs.py: the checks that `_mode`, `_collect` and `record` make of a body
-- before anything reaches the adapter.
pub mod Accepted
pub mod Options
pub mod Arguments
use fm_robot_agent.Prelude.{
  ℕ, suc, Bool, true, false, Option, none, some, List, [], ◌∷◌, ◌++◌, leb, codes, length, some_of,
  if◌then◌else◌,
}
use fm_robot_agent.Text.{Str, str_eq}
use fm_robot_agent.Dict.{Dict, insert}
use fm_robot_agent.Int.{show_ℤ}
use fm_robot_agent.Json.{Json, null, bool, int, str, obj, Fields, end, field, find, get_json}
use fm_robot_agent.Protocol.{Python}
use fm_robot_agent.Verbs.Values.{
  valid_object, decimal, hours_in_range, speed_in_range, cycles_in_range, scalar_text,
}

-- What a check gives: a value, or the message of the refusal.
pub data Checked (A : Type 0) : Type 0 where
  accepted : A → Checked A
  rejected : Str → Checked A

infixl 5 ◌>>=◌
abbrev pub ◌>>=◌ : {A B : Type 0} → Checked A → (A → Checked B) → Checked B
accepted a >>= f = f a
rejected m >>= f = rejected m

-- `value in words`, for a tuple of texts
abbrev pub in_words : {F : Type 0} → Json F → List Str → Bool
in_words (str s) words = some_of (str_eq s) words
in_words _ words = false

abbrev pub text_of : {F : Type 0} → Json F → Option Str
text_of (str s) = some s
text_of _ = none

abbrev pub max_value_len : ℕ
max_value_len = 256

abbrev pub max_mode_args : ℕ
max_mode_args = 16

unfoldable pub size : {F : Type 0} → Fields F → ℕ
size end = 0
size (field k v d) = suc (size d)

-- `any(name in body for name in COLLECT_START_FIELDS)`
abbrev present : {F : Type 0} → Option (Json F) → Bool
present none = false
present (some v) = true

abbrev start_fields : List Str
start_fields =
    codes "object" ∷ codes "hours" ∷ codes "cycles" ∷ codes "speed" ∷ codes "no_record" ∷ []

unfoldable pub has_start_field : {F : Type 0} → Fields F → Bool
has_start_field body = some_of (λ name. present (find name body)) start_fields

module _ (py : Python) where
  open py use {F}

  -- The value of one argument of a mode, as text.
  mode_value : Str → Option Str → Checked Str
  mode_value name none = rejected (codes "argument " ++ (name ++ codes " needs a value"))
  mode_value name (some []) = rejected (codes "argument " ++ (name ++ codes " needs a value"))
  mode_value name (some (c ∷ s)) =
      if leb (length (c ∷ s)) max_value_len
      then accepted (c ∷ s)
      else rejected (codes "argument " ++ (name ++ codes " is longer than 256 characters"))

  -- The loop over `raw.items()` in `_mode`.
  unfoldable pub mode_args : Fields F → Dict Str → Checked (Dict Str)
  unfolding mode_value
  mode_args end args = accepted args
  mode_args (field [] v d) args = rejected (codes "every argument needs a name")
  mode_args (field (c ∷ name) v d) args = do
    supplied ← mode_value (c ∷ name) (scalar_text py v)
    mode_args d (insert (c ∷ name) supplied args)

  bounded_args : Fields F → Checked (Dict Str)
  unfolding mode_args size
  bounded_args d =
      if leb (size d) max_mode_args
      then mode_args d []
      else rejected (codes "more than 16 arguments")

  -- `body.get("args") or {}`: what is false counts as no arguments.
  unfoldable pub checked_args : Bool → Json F → Checked (Dict Str)
  unfolding bounded_args
  checked_args false raw = accepted []
  checked_args true (obj d) = bounded_args d
  checked_args true _ = rejected (codes "args must be an object")

  -- `start needs an object …`
  unfoldable pub checked_object : Json F → Checked (Dict Str)
  checked_object (str s) =
      if valid_object s
      then accepted (insert (codes "object") s [])
      else rejected (codes "start needs an object: a config/objects name of at most 32 characters")
  checked_object _ =
      rejected (codes "start needs an object: a config/objects name of at most 32 characters")

  -- An option that is absent or null is left out; another has to be in range.
  unfoldable pub with_number : Str → (Json F → Bool) → Str → Json F → Dict Str → Checked (Dict Str)
  with_number name in_range message null options = accepted options
  with_number name in_range message v options =
      if in_range v then accepted (insert name (decimal py v) options) else rejected message

  unfoldable pub with_cycles : Json F → Dict Str → Checked (Dict Str)
  with_cycles null options = accepted options
  with_cycles (int z) options =
      if cycles_in_range z
      then accepted (insert (codes "cycles") (show_ℤ z) options)
      else rejected (codes "cycles must be a whole number from 1 to 10000")
  with_cycles _ options = rejected (codes "cycles must be a whole number from 1 to 10000")

  unfoldable pub with_no_record : Option (Json F) → Dict Str → Checked (Dict Str)
  with_no_record none options = accepted options
  with_no_record (some (bool true)) options =
      accepted (insert (codes "no_record") (codes "true") options)
  with_no_record (some (bool false)) options = accepted options
  with_no_record (some v) options = rejected (codes "no_record must be true or false")

  -- The options of `_collect` for a start.
  unfoldable pub collect_options : Fields F → Checked (Dict Str)
  unfolding checked_object with_number with_cycles with_no_record
  collect_options body = do
    named ← checked_object (get_json (codes "object") body)
    timed ←
        with_number (codes "hours") (hours_in_range py)
          (codes "hours must be a number from 0.01 to 12") (get_json (codes "hours") body) named
    counted ← with_cycles (get_json (codes "cycles") body) timed
    scaled ←
        with_number (codes "speed") (speed_in_range py)
          (codes "speed must be a fraction from 0.1 to 3.0") (get_json (codes "speed") body) counted
    with_no_record (find (codes "no_record") body) scaled
