-- ===== src/Calibration/Ranges.antt =====
-- src/fm_robot_agent/calibration.py: what passes the checks is in range.
use fm_robot_agent.Prelude.{
  and_split, and_true, ◌≡◌, refl, ap, subst, ℕ, suc, ◌+◌, ◌≤◌, ◌^◌, Bool, true, false, ◌&&◌, Option,
  none, some, List, codes, leb, length, All, ◌==◌, ==_iff, leb→le, if◌then◌else◌, arith,
}
use fm_robot_agent.Int.{ℤ, pos, negsuc, pos_part, neg_part, leb_ℤ}
use fm_robot_agent.Text.{Str}
use fm_robot_agent.Json.{
  Json, null, bool, int, float, str, arr, obj, Items, nil, cons, Fields, find, get_json,
}
use fm_robot_agent.Protocol.{Result, ok, err}
use fm_robot_agent.Calibration.{
  Number, whole, real, Reals, Lens, Mount, ◌>>=◌, is_link, within, opposite, as_number, ranged,
  number, whole_number, count, numbers_from, vector, is_model, or_zero, lens_fields, check_lens,
}

pub bind-ok :
    {A B : Type 0} (r : Result A) (f : A → Result B) (b : B)
    → (r >>= f) ≡ ok b
    → (a : A) × (r ≡ ok a) × (f a ≡ ok b)
bind-ok (ok a) f b e = (a, refl, e)
bind-ok (err m) f b e = cc

pub ok_injective : {A : Type 0} {a b : A} → ok a ≡ ok b → a ≡ b
ok_injective {A} {a} e = ap (λ r. elim r [ ok x ↦ x | err m ↦ a ]) e

-- A result that depends on a test and is not an error.
pub tested :
    {A : Type 0} (b : Bool) (r : Result A) (m : Str) (a : A)
    → (if b then r else err m) ≡ ok a
    → (b ≡ true) × (r ≡ ok a)
tested true r m a e = (refl, e)
tested false r m a e = cc

pub if_true : {A : Type 0} (b : Bool) (x y : A) → b ≡ true → (if b then x else y) ≡ x
if_true {A} b x y h = ap (λ c. if c then x else y) h

module _ (reals : Reals) where
  open reals use {F, to_float, le, is_finite, two_pi}

  abbrev pub InRange : Number F → Number F → F → Type 0
  InRange low high x = (within reals low high (real x) ≡ true) × (is_finite x ≡ true)

  abbrev pub Vector : ℕ → Number F → List F → Type 0
  Vector size bound xs = (length xs ≡ size) × All (InRange (opposite reals bound) bound) xs

  pub record GoodLens (lens : Lens F) : Type 0 where
    pub is_fisheye : lens.model ≡ codes "fisheye"
    pub width_ok : leb_ℤ (pos 1) lens.width && leb_ℤ lens.width (pos 10000) ≡ true
    pub height_ok : leb_ℤ (pos 1) lens.height && leb_ℤ lens.height (pos 10000) ≡ true
    pub fx_ok : InRange (whole (pos 1)) (whole (pos 100000)) lens.fx
    pub fy_ok : InRange (whole (pos 1)) (whole (pos 100000)) lens.fy
    pub cx_ok : InRange (whole (pos 0)) (whole lens.width) lens.cx
    pub cy_ok : InRange (whole (pos 0)) (whole lens.height) lens.cy
    pub distortion_ok : Vector 4 (whole (pos 10)) lens.distortion
    pub rms_px_ok : InRange (whole (pos 0)) (whole (pos 100)) lens.rms_px

  pub record GoodMount (mount : Mount F) : Type 0 where
    pub is_a_link : is_link mount.parent ≡ true
    pub xyz_ok : Vector 3 (whole (pos 5)) mount.xyz
    pub rpy_ok : Vector 3 (real two_pi) mount.rpy

  -- A float, or a whole number of at most 53 bits, which is a float.
  abbrev pub Exact : Number F → Type 0
  Exact (whole z) = pos_part z + neg_part z ≤ 2 ^ 53
  Exact (real x) = Unit {0}

-- Rounding to a float passes no bound that is itself a float.
module _ (reals : Reals) (float_same : (x : reals.F) → reals.to_float (real x) ≡ x)
    (stays_above : (low v : Number reals.F)
      → Exact reals low
      → reals.le low v ≡ true
      → reals.le low (real (reals.to_float v)) ≡ true)
    (stays_below : (high v : Number reals.F)
      → Exact reals high
      → reals.le v high ≡ true
      → reals.le (real (reals.to_float v)) high ≡ true) where
  open reals use {F, to_float, le, is_finite, two_pi}

  number-InRange :
      (j : Json F) (low high : Number F) (name : Str) (x : F)
      → Exact reals low
      → Exact reals high
      → number reals j low high name ≡ ok x
      → InRange reals low high x
  unfolding number
  number-InRange j low high name x hl hh e = go (as_number reals j) e
    where
      go : (o : Option (Number F)) → ranged reals o low high name ≡ ok x → InRange reals low high x
      go none e = cc
      go (some v) e =
          let (t, r) =
            tested (within reals low high v && is_finite (to_float v)) (ok (to_float v)) _ x e in
          let (t0, t1) = and_split (within reals low high v) _ t in
          let (l, h) = and_split (le low v) _ t0 in
          subst (InRange reals low high) (ok_injective r) (
            and_true (le low (real (to_float v))) _ (stays_above low v hl l)
                (stays_below high v hh h),
            t1,
          )

  numbers_from-Vector :
      (i : ℕ) (items : Items F) (bound : Number F) (name : Str) (xs : List F)
      → Exact reals (opposite reals bound)
      → Exact reals bound
      → numbers_from reals i items bound name ≡ ok xs
      → Vector reals (count reals items) bound xs
  unfolding numbers_from count
  numbers_from-Vector i nil bound name xs hl hh e =
      subst (Vector reals 0 bound) (ok_injective e) (refl, tt)
  numbers_from-Vector i (cons v items) bound name xs hl hh e =
      let (x, e0, e') = bind-ok (number reals v (opposite reals bound) bound _) _ xs e in
      let (rest, e1, e2) = bind-ok (numbers_from reals (suc i) items bound name) _ xs e' in
      let (n, all) = numbers_from-Vector (suc i) items bound name rest hl hh e1 in
      subst (Vector reals (suc (count reals items)) bound) (ok_injective e2)
        (ap suc n, (number-InRange v _ bound _ x hl hh e0, all))

  pub vector-Vector :
      (j : Json F) (size : ℕ) (bound : Number F) (name : Str) (xs : List F)
      → Exact reals (opposite reals bound)
      → Exact reals bound
      → vector reals j size bound name ≡ ok xs
      → Vector reals size bound xs
  unfolding vector
  vector-Vector (arr items) size bound name xs hl hh e =
      let (t, r) =
        tested (count reals items == size) (numbers_from reals 0 items bound name) _ xs e in
      subst (λ n. Vector reals n bound xs) ((==_iff (count reals items) size).0 t)
        (numbers_from-Vector 0 items bound name xs hl hh r)
  vector-Vector null size bound name xs hl hh e = cc
  vector-Vector (bool b) size bound name xs hl hh e = cc
  vector-Vector (int z) size bound name xs hl hh e = cc
  vector-Vector (float x) size bound name xs hl hh e = cc
  vector-Vector (str s) size bound name xs hl hh e = cc
  vector-Vector (obj d) size bound name xs hl hh e = cc

  whole_number-InRange :
      (j : Json F) (low high : ℤ) (name : Str) (z : ℤ)
      → whole_number reals j low high name ≡ ok z
      → leb_ℤ low z && leb_ℤ z high ≡ true
  unfolding whole_number
  whole_number-InRange (int y) low high name z e =
      let (t, r) = tested (leb_ℤ low y && leb_ℤ y high) (ok y) _ z e in
      subst (λ y. leb_ℤ low y && leb_ℤ y high ≡ true) (ok_injective r) t
  whole_number-InRange null low high name z e = cc
  whole_number-InRange (bool b) low high name z e = cc
  whole_number-InRange (float x) low high name z e = cc
  whole_number-InRange (str s) low high name z e = cc
  whole_number-InRange (arr items) low high name z e = cc
  whole_number-InRange (obj d) low high name z e = cc

  size_Exact : (z : ℤ) → leb_ℤ (pos 1) z && leb_ℤ z (pos 10000) ≡ true → Exact reals (whole z)
  size_Exact (pos n) h =
      let (_, k) = and_split (leb 1 (n + 0)) _ h in omega (arith, leb→le (n + 0) (10000 + 0) k)
  size_Exact (negsuc n) h =
      let (k, _) = and_split (leb (1 + suc n) 0) _ h in omega (arith, leb→le (1 + suc n) 0 k)

  lens_fields-GoodLens :
      (d : Fields F) (lens : Lens F) → lens_fields reals d ≡ ok lens → GoodLens reals lens
  unfolding lens_fields
  lens_fields-GoodLens d lens e =
      let (width, e0, k0) =
        bind-ok
          (whole_number reals (get_json (codes "width") d) (pos 1) (pos 10000) (codes "lens width"))
          _ lens e in
      let (height, e1, k1) =
        bind-ok
          (whole_number reals (get_json (codes "height") d) (pos 1) (pos 10000)
            (codes "lens height"))
          _ lens k0 in
      let (fx, e2, k2) =
        bind-ok
          (number reals (get_json (codes "fx") d) (whole (pos 1)) (whole (pos 100000))
            (codes "lens fx"))
          _ lens k1 in
      let (fy, e3, k3) =
        bind-ok
          (number reals (get_json (codes "fy") d) (whole (pos 1)) (whole (pos 100000))
            (codes "lens fy"))
          _ lens k2 in
      let (cx, e4, k4) =
        bind-ok
          (number reals (get_json (codes "cx") d) (whole (pos 0)) (whole width) (codes "lens cx")) _
          lens k3 in
      let (cy, e5, k5) =
        bind-ok
          (number reals (get_json (codes "cy") d) (whole (pos 0)) (whole height) (codes "lens cy"))
          _ lens k4 in
      let (distortion, e6, k6) =
        bind-ok
          (vector reals (get_json (codes "distortion") d) 4 (whole (pos 10))
            (codes "lens distortion"))
          _ lens k5 in
      let (rms, e7, k7) =
        bind-ok
          (number reals (or_zero reals (find (codes "rms_px") d)) (whole (pos 0)) (whole (pos 100))
            (codes "lens rms_px"))
          _ lens k6 in
      let w = whole_number-InRange _ _ _ _ width e0 in
      let h = whole_number-InRange _ _ _ _ height e1 in
      subst (GoodLens reals) (ok_injective k7) (record {
        is_fisheye = refl;
        width_ok = w;
        height_ok = h;
        fx_ok = number-InRange _ _ _ _ fx (omega arith) (omega arith) e2;
        fy_ok = number-InRange _ _ _ _ fy (omega arith) (omega arith) e3;
        cx_ok = number-InRange _ _ _ _ cx (omega arith) (size_Exact width w) e4;
        cy_ok = number-InRange _ _ _ _ cy (omega arith) (size_Exact height h) e5;
        distortion_ok = vector-Vector _ 4 _ _ distortion (omega arith) (omega arith) e6;
        rms_px_ok = number-InRange _ _ _ _ rms (omega arith) (omega arith) e7;
      })

  -- For floats to which rounding passes no bound that is a float, a lens that passes `check_lens`
  -- is a fisheye lens whose width and height are from 1 to 10000, whose other numbers are finite
  -- and in their ranges, the centre within the width and the height, and whose distortion is four
  -- numbers of at most 10 either way.
  pub check_lens-GoodLens :
      (j : Json F) (lens : Lens F) → check_lens reals j ≡ ok lens → GoodLens reals lens
  unfolding check_lens
  check_lens-GoodLens (obj d) lens e =
      let (t, r) =
        tested (is_model reals (get_json (codes "model") d)) (lens_fields reals d) _ lens e in
      lens_fields-GoodLens d lens r
  check_lens-GoodLens null lens e = cc
  check_lens-GoodLens (bool b) lens e = cc
  check_lens-GoodLens (int z) lens e = cc
  check_lens-GoodLens (float x) lens e = cc
  check_lens-GoodLens (str s) lens e = cc
  check_lens-GoodLens (arr items) lens e = cc
