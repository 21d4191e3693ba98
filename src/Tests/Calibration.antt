-- ===== src/Tests/Calibration.antt =====
-- A write of a lens beside a stored mount, with floats that are all alike and a codec of few codes.
use fm_robot_agent.Prelude.{
  ◌≡◌, refl, sym, ap, ◌∙◌, subst, ℕ, zero, suc, ◌+◌, Bool, true, ◌&&◌, Option, none, some, List, [],
  ◌∷◌, ◌++◌, codes, leb, length, arith,
}
use fm_robot_agent.Int.{ℤ, pos, negsuc, leb_ℤ}
use fm_robot_agent.Text.{Str, str_eq}
use fm_robot_agent.Json.{Json, null, int, str, obj, find, get_json}
use fm_robot_agent.Protocol.{ok}
use fm_robot_agent.Anvil.World.{Fate}
use fm_robot_agent.Calibration.{
  Number, real, Reals, Lens, Mount, is_link, is_camera, check_lens, check_mount, parented,
  mount_fields, lens_fields, whole_number, number, vector,
}
use fm_robot_agent.Calibration.Dicts.{lens_json, lens_dict, mount_json, mount_dict}
use fm_robot_agent.Calibration.Ranges.{Exact, GoodLens, GoodMount, check_lens-GoodLens}
use fm_robot_agent.Calibration.Store.{
  Disk, returned, write_checked, load, updated, store_entry, replace, replace_durably,
  write_and_swap, keep_previous, put_live, act, Codec, Entry, entry_json, write,
}
use fm_robot_agent.Calibration.Store.Writes.{Ends}
use fm_robot_agent.Calibration.Store.Reads.{Holds, GoodEntry}
use fm_robot_agent.Calibration.Store.Whole.{Stores, Whole, write-Stores}

abbrev U : Type 0
U = Unit {0}

abbrev alike : Reals
alike = record {
  F = U;
  to_float = λ v. tt;
  le = λ a b. true;
  is_finite = λ x. true;
  negative = λ x. tt;
  two_pi = tt;
  text = λ v. [];
}

abbrev lens_at : ℕ → ℕ → Lens U
lens_at w h = record {
  model = codes "fisheye";
  width = pos w;
  height = pos h;
  fx = tt;
  fy = tt;
  cx = tt;
  cy = tt;
  distortion = tt ∷ tt ∷ tt ∷ tt ∷ [];
  rms_px = tt;
}

abbrev mount_on : Str → Mount U
mount_on parent = record { parent = parent; xyz = tt ∷ tt ∷ tt ∷ []; rpy = tt ∷ tt ∷ tt ∷ [] }

abbrev whole_of : Json U → ℕ
whole_of (int (pos n)) = n
whole_of _ = 0

abbrev text_of : Json U → Str
text_of (str s) = s
text_of _ = []

lens_code : Option (Json U) → Str
lens_code (some (obj d)) =
    1 ∷ whole_of (get_json (codes "width") d) ∷ whole_of (get_json (codes "height") d) ∷ []
lens_code _ = 0 ∷ 0 ∷ 0 ∷ []

mount_code : Option (Json U) → Str
mount_code (some (obj d)) = 1 ∷ text_of (get_json (codes "parent") d)
mount_code _ = 0 ∷ []

dumps : Json U → Str
dumps (obj d) = lens_code (find (codes "lens") d) ++ mount_code (find (codes "mount") d)
dumps _ = []

lens_from : ℕ → ℕ → ℕ → Option (Lens U)
lens_from zero w h = none
lens_from (suc n) w h = some (lens_at w h)

mount_from : ℕ → Str → Option (Mount U)
mount_from zero parent = none
mount_from (suc n) parent = some (mount_on parent)

loads : Str → Option (Json U)
loads (a ∷ w ∷ h ∷ b ∷ parent) =
    some (entry_json (record { lens = lens_from a w h; mount = mount_from b parent }))
loads _ = none

abbrev few_codes : Codec U
few_codes = record { dumps = dumps; loads = loads }

abbrev Back : Entry U → Type 0
Back entry =
    (loads (dumps (entry_json entry)) ≡ some (entry_json entry))
    × (leb (length (dumps (entry_json entry))) 65536 ≡ true)

four : (xs : List U) → length xs ≡ 4 → xs ≡ tt ∷ tt ∷ tt ∷ tt ∷ []
four [] e = cc
four (a ∷ []) e = cc
four (a ∷ b ∷ []) e = cc
four (a ∷ b ∷ c ∷ []) e = cc
four (a ∷ b ∷ c ∷ d ∷ []) e = refl
four (a ∷ b ∷ c ∷ d ∷ f ∷ xs) e = elim (too_long (length xs) e) [ ]
  where
    too_long : (n : ℕ) → suc (suc (suc (suc (suc n)))) ≡ 4 → ⊥
    too_long n h = omega (arith, h)

three : (xs : List U) → length xs ≡ 3 → xs ≡ tt ∷ tt ∷ tt ∷ []
three [] e = cc
three (a ∷ []) e = cc
three (a ∷ b ∷ []) e = cc
three (a ∷ b ∷ c ∷ []) e = refl
three (a ∷ b ∷ c ∷ d ∷ xs) e = elim (too_long (length xs) e) [ ]
  where
    too_long : (n : ℕ) → suc (suc (suc (suc n))) ≡ 3 → ⊥
    too_long n h = omega (arith, h)

abbrev with_parts : Str → ℤ → ℤ → List U → Lens U
with_parts m w h xs = record {
  model = m;
  width = w;
  height = h;
  fx = tt;
  fy = tt;
  cx = tt;
  cy = tt;
  distortion = xs;
  rms_px = tt;
}

at_least_one : (z : ℤ) → leb_ℤ (pos 1) z && leb_ℤ z (pos 10000) ≡ true → (n : ℕ) × (z ≡ pos n)
at_least_one (pos n) h = (n, refl)
at_least_one (negsuc n) h = elim (negative n h) [ ]
  where
    negative : (n : ℕ) → leb (1 + suc n) 0 && leb 0 (10000 + suc n) ≡ true → ⊥
    negative n h = ground arith

good_lens : (l : Lens U) → GoodLens alike l → (w : ℕ) × (h : ℕ) × (l ≡ lens_at w h)
good_lens l good =
    let (w, ew) = at_least_one l.width good.width_ok in
    let (h, eh) = at_least_one l.height good.height_ok in
    (
      w,
      h,
      ap (λ m. with_parts m l.width l.height l.distortion) good.is_fisheye
          ∙ ap (λ z. with_parts (codes "fisheye") z l.height l.distortion) ew
          ∙ ap (λ z. with_parts (codes "fisheye") (pos w) z l.distortion) eh
          ∙ ap (with_parts (codes "fisheye") (pos w) (pos h))
              (four l.distortion (good.distortion_ok.0)),
    )

good_mount :
    (m : Mount U) → GoodMount alike m → (m ≡ mount_on m.parent) × (leb (length m.parent) 64 ≡ true)
unfolding is_link
good_mount m good = (
  ap (λ xs. record m { xyz = xs }) (three m.xyz (good.xyz_ok.0))
      ∙ ap (λ xs. record m { xyz = tt ∷ tt ∷ tt ∷ []; rpy = xs }) (three m.rpy (good.rpy_ok.0)),
  short (leb 1 (length m.parent)) (leb (length m.parent) 64) _ good.is_a_link,
)
  where
    short : (a b c : Bool) → a && b && c ≡ true → b ≡ true
    short a b c h = grind arith

few : (n : ℕ) → leb n 64 ≡ true → leb (suc (suc (suc (suc n)))) 65536 ≡ true
few n h = ground arith

Back-at :
    (lens : Option (Lens U)) (mount : Option (Mount U))
    → Holds (GoodLens alike) lens
    → Holds (GoodMount alike) mount
    → Back (record { lens = lens; mount = mount })
unfolding dumps loads lens_code mount_code lens_from mount_from entry_json lens_json mount_json
    lens_dict mount_dict get_json find str_eq
Back-at none none hl hm = (refl, refl)
Back-at none (some m) hl hm =
    let (e, n) = good_mount m hm in
    subst (λ m. Back (record { lens = none; mount = some m })) (sym e)
      (refl, few (length m.parent) n)
Back-at (some l) none hl hm =
    let (w, h, e) = good_lens l hl in
    subst (λ l. Back (record { lens = some l; mount = none })) (sym e) (refl, refl)
Back-at (some l) (some m) hl hm =
    let (w, h, e) = good_lens l hl in
    let (f, n) = good_mount m hm in
    subst (λ l. Back (record { lens = some l; mount = some m })) (sym e)
      (subst (λ m. Back (record { lens = some (lens_at w h); mount = some m })) (sym f)
        (refl, few (length m.parent) n))

back : (entry : Entry U) → GoodEntry alike entry → Back entry
back entry good = Back-at entry.lens entry.mount (good.0) (good.1)

Exact-above :
    (low v : Number U)
    → Exact alike low
    → alike.le low v ≡ true
    → alike.le low (real (alike.to_float v)) ≡ true
Exact-above low v h e = refl

Exact-below :
    (high v : Number U)
    → Exact alike high
    → alike.le v high ≡ true
    → alike.le (real (alike.to_float v)) high ≡ true
Exact-below high v h e = refl

mounted : Str
mounted = dumps (entry_json (record { lens = none; mount = some (mount_on (codes "link")) }))

abbrev chest : List Fate → Disk
chest fates = record {
  live = some mounted;
  prev = none;
  temporary = none;
  armed = true;
  fates = fates;
}

lens_beside_mount :
    (write alike few_codes (codes "cam_chest") (lens_json (lens_at 640 480)) null (chest [])).0
    ≡ returned (record { lens = some (lens_at 640 480); mount = some (mount_on (codes "link")) })
unfolding write is_camera write_checked load updated store_entry replace replace_durably
    write_and_swap keep_previous put_live act check_lens check_mount parented mount_fields is_link
    lens_json mount_json entry_json mount_dict get_json find lens_dict str_eq lens_fields
    whole_number number vector dumps loads lens_code mount_code lens_from mount_from mounted
lens_beside_mount = refl

write-Stores_example :
    Ends
      (Stores alike few_codes (some mounted))
      (Whole alike few_codes (some mounted))
      (write alike few_codes (codes "cam_chest") (lens_json (lens_at 640 480)) null (chest []))
write-Stores_example =
    write-Stores alike few_codes (λ x. refl) Exact-above Exact-below back (codes "cam_chest")
      (lens_json (lens_at 640 480)) null (chest [])

checked : check_lens alike (lens_json (lens_at 640 480)) ≡ ok (lens_at 640 480)
unfolding check_lens lens_json get_json find lens_dict str_eq lens_fields whole_number number vector
checked = refl

check_lens-GoodLens_example : GoodLens alike (lens_at 640 480)
check_lens-GoodLens_example =
    check_lens-GoodLens alike (λ x. refl) Exact-above Exact-below (lens_json (lens_at 640 480))
      (lens_at 640 480) checked
