-- ===== src/Verbs/Values.antt =====
-- src/fm_robot_agent/verbs.py: the shapes that values off the fabric are checked for. A pattern
-- that ends in `$` and is tried with `match` also takes a text with a newline behind it.
use fm_robot_agent.Prelude.{
  ℕ, Bool, true, false, not, ◌&&◌, ◌||◌, Option, none, some, [], ◌∷◌, ◌++◌, ◌==◌, leb, codes, every,
  length, if◌then◌else◌,
}
use fm_robot_agent.Int.{ℤ, pos, leb_ℤ, show_ℤ}
use fm_robot_agent.Text.{Str, rstrip_by}
use fm_robot_agent.Json.{Json, null, bool, int, float, str, arr, obj, Fields, nil, end}
use fm_robot_agent.Protocol.{Python}

abbrev pub is_digit : ℕ → Bool
is_digit c = leb 48 c && leb c 57

-- `[a-z0-9]`
abbrev pub is_alnum : ℕ → Bool
is_alnum c = is_digit c || (leb 97 c && leb c 122)

-- `1 <= cycles <= MAX_COLLECT_CYCLES`
unfoldable pub cycles_in_range : ℤ → Bool
cycles_in_range z = leb_ℤ (pos 1) z && leb_ℤ z (pos 10000)

-- `$` stands at the end, or before a newline at the end.
unfoldable pub chop_newline : Str → Str
chop_newline [] = []
chop_newline (c ∷ []) = if c == 10 then [] else c ∷ []
chop_newline (c ∷ d ∷ s) = c ∷ chop_newline (d ∷ s)

-- `[a-z0-9]+(?:-[a-z0-9]+)*` behind a word's character, or where a word has to start.
unfoldable pub slug_from : Bool → Str → Bool
slug_from inside [] = inside
slug_from inside (c ∷ s) =
    let rest = slug_from (is_alnum c) s in if is_alnum c then rest else (inside && c == 45) && rest

-- `_valid_dataset`
unfoldable pub valid_dataset : Str → Bool
unfolding slug_from chop_newline
valid_dataset [] = false
valid_dataset (c ∷ s) = leb (length (c ∷ s)) 64 && slug_from false (chop_newline (c ∷ s))

-- `EPISODE_PATTERN.match`
unfoldable pub episode_pattern : Str → Bool
unfolding chop_newline
episode_pattern s =
    let t = chop_newline s in leb 1 (length t) && leb (length t) 12 && every is_digit t

-- `OBJECT_PATTERN.fullmatch`, within `OBJECT_MAX_LEN`; the underscore is 95.
unfoldable pub valid_object : Str → Bool
valid_object [] = false
valid_object (c ∷ s) =
    leb (length (c ∷ s)) 32
    && (is_alnum c || c == 95)
    && every (λ d. is_alnum d || d == 95 || d == 45) s

-- `POSE_NAME.fullmatch` of arm_poses.py
unfoldable pub pose_name : Str → Bool
pose_name [] = false
pose_name (c ∷ s) = is_alnum c && leb (length s) 31 && every (λ d. is_alnum d || d == 45) s

-- What `_decimal` does to the fixed-point text: no zeros at the end, and no bare point.
unfoldable pub trim_decimal : Str → Str
trim_decimal text = rstrip_by (λ c. c == 46) (rstrip_by (λ c. c == 48) text)

module _ (py : Python) where
  open py use {
    F, is_zero, literal, le_float, le_int_float, le_float_int, str_float, fixed_float, loads,
  }

  -- Python's truth of a JSON value.
  abbrev pub truthy : Json F → Bool
  truthy null = false
  truthy (bool b) = b
  truthy (int (pos n)) = not (n == 0)
  truthy (int _) = true
  truthy (float x) = not (is_zero x)
  truthy (str []) = false
  truthy (str _) = true
  truthy (arr nil) = false
  truthy (arr _) = true
  truthy (obj end) = false
  truthy (obj _) = true

  -- `value or default`
  abbrev pub or_else : Json F → Str → Json F
  or_else v default = if truthy v then v else str default

  -- `_body`: an absent, oversized or unreadable body is an empty one.
  abbrev object_or_empty : Option (Json F) → Fields F
  object_or_empty (some (obj d)) = d
  object_or_empty _ = end

  abbrev pub max_body_bytes : ℕ
  max_body_bytes = 1048576

  unfoldable pub body_of : Option Str → Fields F
  body_of none = end
  body_of (some payload) =
      if (length payload == 0) || not (leb (length payload) max_body_bytes)
      then end
      else object_or_empty (loads payload)

  -- `_decimal`. Python's text of a small integer with six places is its digits and six zeros.
  unfoldable pub decimal : Json F → Str
  unfolding trim_decimal
  decimal (int z) = trim_decimal (show_ℤ z ++ codes ".000000")
  decimal (float x) = trim_decimal (fixed_float x)
  decimal _ = []

  -- `_number(hours) and MIN_COLLECT_HOURS <= hours <= MAX_COLLECT_HOURS`
  unfoldable pub hours_in_range : Json F → Bool
  hours_in_range (int z) = le_float_int (literal 1 2) z && leb_ℤ z (pos 12)
  hours_in_range (float x) = le_float (literal 1 2) x && le_float_int x (pos 12)
  hours_in_range _ = false

  -- `_number(speed) and MIN_COLLECT_SPEED <= speed <= MAX_COLLECT_SPEED`
  unfoldable pub speed_in_range : Json F → Bool
  speed_in_range (int z) = le_float_int (literal 1 1) z && le_int_float z (literal 30 1)
  speed_in_range (float x) = le_float (literal 1 1) x && le_float x (literal 30 1)
  speed_in_range _ = false

  -- A number or a truth value typed as JSON is the text that the robot's files hold.
  unfoldable pub scalar_text : Json F → Option Str
  scalar_text (bool true) = some (codes "true")
  scalar_text (bool false) = some (codes "false")
  scalar_text (int z) = some (show_ℤ z)
  scalar_text (float x) = some (str_float x)
  scalar_text (str s) = some s
  scalar_text _ = none
