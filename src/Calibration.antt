-- ===== src/Calibration.antt =====
-- src/fm_robot_agent/calibration.py: the checks on a lens and a mount. An `AdapterError` is a result.
-- Floats, their comparison with whole numbers and their text are parameters.
pub mod Dicts
pub mod Ranges
pub mod Stored
pub mod Store
use fm_robot_agent.Prelude.{
  ℕ, zero, suc, ◌+◌, Bool, true, false, not, ◌&&◌, ◌||◌, Option, none, some, List, [], ◌∷◌, ◌++◌,
  codes, leb, length, every, ◌==◌, if◌then◌else◌,
}
use fm_robot_agent.Int.{ℤ, pos, negsuc, leb_ℤ, show_ℕ}
use fm_robot_agent.Text.{Str, str_eq}
use fm_robot_agent.Json.{
  Json, null, bool, int, float, str, arr, obj, Items, nil, cons, Fields, end, field, find, get_json,
}
use fm_robot_agent.Protocol.{Result, ok, err}

-- A Python number that is not a `bool`.
pub data Number (F : Type 0) : Type 0 where
  whole : ℤ → Number F
  real : F → Number F

pub record Reals : Type 1 where
  pub F : Type 0
  -- `float(v)`, of what is in range
  pub to_float : Number F → F
  pub le : Number F → Number F → Bool
  pub is_finite : F → Bool
  pub negative : F → F
  pub two_pi : F
  pub text : Number F → Str

pub record Lens (F : Type 0) : Type 0 where
  pub model : Str
  pub width : ℤ
  pub height : ℤ
  pub fx : F
  pub fy : F
  pub cx : F
  pub cy : F
  pub distortion : List F
  pub rms_px : F

pub record Mount (F : Type 0) : Type 0 where
  pub parent : Str
  pub xyz : List F
  pub rpy : List F

infixl 5 ◌>>=◌
abbrev pub ◌>>=◌ : {A B : Type 0} → Result A → (A → Result B) → Result B
ok a >>= f = f a
err m >>= f = err m

abbrev pub minus : ℤ → ℤ
minus (pos zero) = pos zero
minus (pos (suc n)) = negsuc n
minus (negsuc n) = pos (suc n)

abbrev pub is_link_char : ℕ → Bool
is_link_char c =
    (leb 48 c && leb c 57) || (leb 65 c && leb c 90) || (leb 97 c && leb c 122) || c == 95

-- `LINK_PATTERN.fullmatch(parent)`
unfoldable pub is_link : Str → Bool
is_link s = leb 1 (length s) && leb (length s) 64 && every is_link_char s

abbrev is_camera_char : ℕ → Bool
is_camera_char c = (leb 48 c && leb c 57) || (leb 97 c && leb c 122) || c == 95

is_camera_rest : Str → Bool
is_camera_rest s = leb 1 (length s) && leb (length s) 32 && every is_camera_char s

-- `CAMERA_PATTERN.fullmatch(camera)`
unfoldable pub is_camera : Str → Bool
unfolding is_camera_rest
is_camera (c ∷ a ∷ m ∷ u ∷ rest) = str_eq (c ∷ a ∷ m ∷ u ∷ []) (codes "cam_") && is_camera_rest rest
is_camera _ = false

module _ (reals : Reals) where
  open reals use {F, to_float, le, is_finite, negative, two_pi, text}

  -- `low <= value <= high`
  abbrev pub within : Number F → Number F → Number F → Bool
  within low high v = le low v && le v high

  abbrev pub opposite : Number F → Number F
  opposite (whole z) = whole (minus z)
  opposite (real x) = real (negative x)

  abbrev pub as_number : Json F → Option (Number F)
  as_number (int z) = some (whole z)
  as_number (float x) = some (real x)
  as_number _ = none

  abbrev pub ranged : Option (Number F) → Number F → Number F → Str → Result F
  ranged none low high name = err (name ++ codes " must be a number")
  ranged (some v) low high name =
      if within low high v && is_finite (to_float v)
      then ok (to_float v)
      else err (name ++ codes " must be between " ++ text low ++ codes " and " ++ text high)

  -- `_number`
  unfoldable pub number : Json F → Number F → Number F → Str → Result F
  number value low high name = ranged (as_number value) low high name

  -- `_whole`
  unfoldable pub whole_number : Json F → ℤ → ℤ → Str → Result ℤ
  whole_number (int z) low high name =
      if leb_ℤ low z && leb_ℤ z high
      then ok z
      else err (
          name
          ++ codes " must be a whole number between "
          ++ text (whole low)
          ++ codes " and "
          ++ text (whole high))
  whole_number _ low high name = err (
      name
      ++ codes " must be a whole number between "
      ++ text (whole low)
      ++ codes " and "
      ++ text (whole high))

  unfoldable pub count : Items F → ℕ
  count nil = 0
  count (cons v items) = suc (count items)

  -- The numbers from the `i`-th on.
  unfoldable pub numbers_from : ℕ → Items F → Number F → Str → Result (List F)
  unfolding number
  numbers_from i nil bound name = ok []
  numbers_from i (cons v items) bound name = do
    x ← number v (opposite bound) bound (name ++ codes "[" ++ show_ℕ i ++ codes "]")
    xs ← numbers_from (suc i) items bound name
    ok (x ∷ xs)

  -- `_vector`
  unfoldable pub vector : Json F → ℕ → Number F → Str → Result (List F)
  unfolding numbers_from count
  vector (arr items) size bound name =
      if count items == size
      then numbers_from 0 items bound name
      else err (name ++ codes " must be " ++ show_ℕ size ++ codes " numbers")
  vector _ size bound name = err (name ++ codes " must be " ++ show_ℕ size ++ codes " numbers")

  abbrev pub is_model : Json F → Bool
  is_model (str s) = str_eq s (codes "fisheye")
  is_model _ = false

  abbrev pub or_zero : Option (Json F) → Json F
  or_zero none = int (pos 0)
  or_zero (some v) = v

  -- `check_lens` once the model is known.
  unfoldable pub lens_fields : Fields F → Result (Lens F)
  lens_fields lens = do
    width ← whole_number (get_json (codes "width") lens) (pos 1) (pos 10000) (codes "lens width")
    height ← whole_number (get_json (codes "height") lens) (pos 1) (pos 10000) (codes "lens height")
    fx ← number (get_json (codes "fx") lens) (whole (pos 1)) (whole (pos 100000)) (codes "lens fx")
    fy ← number (get_json (codes "fy") lens) (whole (pos 1)) (whole (pos 100000)) (codes "lens fy")
    cx ← number (get_json (codes "cx") lens) (whole (pos 0)) (whole width) (codes "lens cx")
    cy ← number (get_json (codes "cy") lens) (whole (pos 0)) (whole height) (codes "lens cy")
    distortion ←
        vector (get_json (codes "distortion") lens) 4 (whole (pos 10)) (codes "lens distortion")
    rms_px ←
        number (or_zero (find (codes "rms_px") lens)) (whole (pos 0)) (whole (pos 100))
          (codes "lens rms_px")
    ok (record {
      model = codes "fisheye";
      width = width;
      height = height;
      fx = fx;
      fy = fy;
      cx = cx;
      cy = cy;
      distortion = distortion;
      rms_px = rms_px;
    })

  unfoldable pub check_lens : Json F → Result (Lens F)
  check_lens (obj lens) =
      if is_model (get_json (codes "model") lens)
      then lens_fields lens
      else err (codes "lens model must be one of ('fisheye',)")
  check_lens _ = err (codes "lens must be an object")

  -- `check_mount` once the parent is known.
  unfoldable pub mount_fields : Str → Fields F → Result (Mount F)
  mount_fields parent mount = do
    xyz ← vector (get_json (codes "xyz") mount) 3 (whole (pos 5)) (codes "mount xyz")
    rpy ← vector (get_json (codes "rpy") mount) 3 (real two_pi) (codes "mount rpy")
    ok (record { parent = parent; xyz = xyz; rpy = rpy })

  unfoldable pub parented : Json F → Fields F → Result (Mount F)
  parented (str s) mount =
      if is_link s then mount_fields s mount else err (codes "mount parent must be a link name")
  parented _ mount = err (codes "mount parent must be a link name")

  unfoldable pub check_mount : Json F → Result (Mount F)
  check_mount (obj mount) = parented (get_json (codes "parent") mount) mount
  check_mount _ = err (codes "mount must be an object")
