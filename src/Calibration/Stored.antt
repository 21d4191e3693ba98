-- ===== src/Calibration/Stored.antt =====
-- src/fm_robot_agent/calibration.py: a stored lens or mount checks out again, as itself.
use fm_robot_agent.Prelude.{
  and_true, ◌==◌, ==_iff, All, ℕ, suc, List, [], ◌∷◌, length, ◌&&◌, ◌≡◌, refl, sym, ap, ◌∙◌, subst,
  true, codes, arith,
}
use fm_robot_agent.Int.{ℤ, leb_ℤ, pos}
use fm_robot_agent.Text.{Str, str_eq}
use fm_robot_agent.Json.{Json, null, bool, int, float, str, arr, obj, Fields, find, get_json}
use fm_robot_agent.Protocol.{Result, ok, err}
use fm_robot_agent.Calibration.{
  Number, whole, real, Reals, Lens, Mount, ◌>>=◌, is_link, within, opposite, number, whole_number,
  count, numbers_from, vector, lens_fields, check_lens, mount_fields, parented, check_mount,
}
use fm_robot_agent.Calibration.Dicts.{floats_json, lens_dict, lens_json, mount_dict, mount_json}
use fm_robot_agent.Calibration.Ranges.{
  bind-ok, ok_injective, tested, if_true, Exact, InRange, Vector, GoodLens, GoodMount,
  vector-Vector,
}

from :
    {A B : Type 0} (r : Result A) (f : A → Result B) (a : A) (x : Result B)
    → r ≡ ok a
    → f a ≡ x
    → (r >>= f) ≡ x
from r f a x e h = ap (λ r. r >>= f) e ∙ h

module _ (reals : Reals) (float_same : (x : reals.F) → reals.to_float (real x) ≡ x)
    (stays_above : (low v : Number reals.F)
      → Exact reals low
      → reals.le low v ≡ true
      → reals.le low (real (reals.to_float v)) ≡ true)
    (stays_below : (high v : Number reals.F)
      → Exact reals high
      → reals.le v high ≡ true
      → reals.le (real (reals.to_float v)) high ≡ true) where
  open reals use {F, to_float, is_finite}

  pub number_stored :
      (low high : Number F) (name : Str) (x : F)
      → InRange reals low high x
      → number reals (float x) low high name ≡ ok x
  unfolding number
  number_stored low high name x (h, k) =
      if_true (within reals low high (real x) && is_finite (to_float (real x))) _ _
        (and_true (within reals low high (real x)) _ h (ap is_finite (float_same x) ∙ k))
      ∙ ap ok (float_same x)

  count-floats_json : (xs : List F) → count reals (floats_json xs) ≡ length xs
  unfolding count floats_json
  count-floats_json [] = refl
  count-floats_json (x ∷ xs) = ap suc (count-floats_json xs)

  numbers_from_stored :
      (i : ℕ) (xs : List F) (bound : Number F) (name : Str)
      → All (InRange reals (opposite reals bound) bound) xs
      → numbers_from reals i (floats_json xs) bound name ≡ ok xs
  unfolding numbers_from floats_json
  numbers_from_stored i [] bound name h = refl
  numbers_from_stored i (x ∷ xs) bound name (h, hs) =
      ap
        (λ r. r >>= λ x.
          numbers_from reals (suc i) (floats_json xs) bound name >>= λ rest. ok (x ∷ rest))
        (number_stored (opposite reals bound) bound _ x h)
      ∙ ap (λ r. r >>= λ rest. ok (x ∷ rest)) (numbers_from_stored (suc i) xs bound name hs)

  pub vector_stored :
      (size : ℕ) (xs : List F) (bound : Number F) (name : Str)
      → Vector reals size bound xs
      → vector reals (arr (floats_json xs)) size bound name ≡ ok xs
  unfolding vector
  vector_stored size xs bound name (n, h) =
      if_true (count reals (floats_json xs) == size) _ _
        ((==_iff (count reals (floats_json xs)) size).1 (count-floats_json xs ∙ n))
      ∙ numbers_from_stored 0 xs bound name h

  pub whole_number_stored :
      (low high z : ℤ) (name : Str)
      → leb_ℤ low z && leb_ℤ z high ≡ true
      → whole_number reals (int z) low high name ≡ ok z
  unfolding whole_number
  whole_number_stored low high z name h = if_true (leb_ℤ low z && leb_ℤ z high) _ _ h

  lens_fields-lens_dict :
      (lens : Lens F) → GoodLens reals lens → lens_fields reals (lens_dict lens) ≡ ok lens
  unfolding lens_dict lens_fields get_json find str_eq
  lens_fields-lens_dict lens good =
      from (whole_number reals (int lens.width) (pos 1) (pos 10000) (codes "lens width")) _
        lens.width _ (whole_number_stored (pos 1) (pos 10000) lens.width _ good.width_ok)
        (from (whole_number reals (int lens.height) (pos 1) (pos 10000) (codes "lens height")) _
          lens.height _ (whole_number_stored (pos 1) (pos 10000) lens.height _ good.height_ok)
          (from (number reals (float lens.fx) _ _ (codes "lens fx")) _ lens.fx _
            (number_stored _ _ _ lens.fx good.fx_ok)
            (from (number reals (float lens.fy) _ _ (codes "lens fy")) _ lens.fy _
              (number_stored _ _ _ lens.fy good.fy_ok)
              (from (number reals (float lens.cx) _ _ (codes "lens cx")) _ lens.cx _
                (number_stored _ _ _ lens.cx good.cx_ok)
                (from (number reals (float lens.cy) _ _ (codes "lens cy")) _ lens.cy _
                  (number_stored _ _ _ lens.cy good.cy_ok)
                  (from
                    (vector reals (arr (floats_json lens.distortion)) 4 (whole (pos 10))
                      (codes "lens distortion"))
                    _ lens.distortion _ (vector_stored 4 lens.distortion _ _ good.distortion_ok)
                    (from (number reals (float lens.rms_px) _ _ (codes "lens rms_px")) _ lens.rms_px
                      _ (number_stored _ _ _ lens.rms_px good.rms_px_ok)
                      (ap (λ m. ok (record lens { model = m })) (sym good.is_fisheye)))))))))

  pub check_lens-lens_json :
      (lens : Lens F) → GoodLens reals lens → check_lens reals (lens_json lens) ≡ ok lens
  unfolding check_lens lens_json lens_dict get_json find str_eq
  check_lens-lens_json lens good =
      if_true (str_eq lens.model (codes "fisheye")) (lens_fields reals (lens_dict lens))
        (err (codes "lens model must be one of ('fisheye',)"))
        (ap (λ m. str_eq m (codes "fisheye")) good.is_fisheye)
      ∙ lens_fields-lens_dict lens good

  mount_fields-GoodMount :
      (parent : Str) (d : Fields F) (mount : Mount F)
      → is_link parent ≡ true
      → mount_fields reals parent d ≡ ok mount
      → GoodMount reals mount
  unfolding mount_fields
  mount_fields-GoodMount parent d mount h e =
      let (xyz, e0, k0) =
        bind-ok (vector reals (get_json (codes "xyz") d) 3 (whole (pos 5)) (codes "mount xyz")) _
          mount e in
      let (rpy, e1, k1) =
        bind-ok (vector reals (get_json (codes "rpy") d) 3 (real reals.two_pi) (codes "mount rpy"))
          _ mount k0 in
      subst (GoodMount reals) (ok_injective k1) (record {
        is_a_link = h;
        xyz_ok =
            vector-Vector reals float_same stays_above stays_below _ 3 _ _ xyz (omega arith)
              (omega arith) e0;
        rpy_ok = vector-Vector reals float_same stays_above stays_below _ 3 _ _ rpy tt tt e1;
      })

  parented-GoodMount :
      (p : Json F) (d : Fields F) (mount : Mount F)
      → parented reals p d ≡ ok mount
      → GoodMount reals mount
  unfolding parented
  parented-GoodMount (str s) d mount e =
      let (t, r) = tested (is_link s) (mount_fields reals s d) _ mount e in
      mount_fields-GoodMount s d mount t r
  parented-GoodMount null d mount e = cc
  parented-GoodMount (bool b) d mount e = cc
  parented-GoodMount (int z) d mount e = cc
  parented-GoodMount (float x) d mount e = cc
  parented-GoodMount (arr items) d mount e = cc
  parented-GoodMount (obj fields) d mount e = cc

  pub check_mount-GoodMount :
      (j : Json F) (mount : Mount F) → check_mount reals j ≡ ok mount → GoodMount reals mount
  unfolding check_mount
  check_mount-GoodMount (obj d) mount e = parented-GoodMount (get_json (codes "parent") d) d mount e
  check_mount-GoodMount null mount e = cc
  check_mount-GoodMount (bool b) mount e = cc
  check_mount-GoodMount (int z) mount e = cc
  check_mount-GoodMount (float x) mount e = cc
  check_mount-GoodMount (str s) mount e = cc
  check_mount-GoodMount (arr items) mount e = cc

  mount_fields-mount_dict :
      (mount : Mount F)
      → GoodMount reals mount
      → mount_fields reals mount.parent (mount_dict mount) ≡ ok mount
  unfolding mount_dict mount_fields get_json find str_eq
  mount_fields-mount_dict mount good =
      from (vector reals (arr (floats_json mount.xyz)) 3 (whole (pos 5)) (codes "mount xyz")) _
        mount.xyz _ (vector_stored 3 mount.xyz _ _ good.xyz_ok)
        (from (vector reals (arr (floats_json mount.rpy)) 3 (real reals.two_pi) (codes "mount rpy"))
          _ mount.rpy _ (vector_stored 3 mount.rpy _ _ good.rpy_ok) refl)

  pub check_mount-mount_json :
      (mount : Mount F) → GoodMount reals mount → check_mount reals (mount_json mount) ≡ ok mount
  unfolding check_mount mount_json mount_dict parented get_json find str_eq
  check_mount-mount_json mount good =
      if_true (is_link mount.parent) (mount_fields reals mount.parent (mount_dict mount))
        (err (codes "mount parent must be a link name")) good.is_a_link
      ∙ mount_fields-mount_dict mount good
