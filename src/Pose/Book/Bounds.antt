-- ===== src/Pose/Book/Bounds.antt =====
-- src/fm_robot_agent/arm_poses.py: what a pose of the book may hold, and when a move may start.
use fm_robot_agent.Prelude.{
  ◌≡◌, ◌≢◌, refl, sym, ap, ◌∙◌, subst, ◌↔◌, Bool, true, false, not, Option, none, some, [], ◌∷◌,
  codes, leb, length, All, if◌then◌else◌,
}
use fm_robot_agent.Text.{Str, str_eq, str_eq_iff}
use fm_robot_agent.Json.{
  Json, null, bool, int, float, str, arr, obj, Fields, end, field, find, get_json,
}
use fm_robot_agent.Dict.{Dict, get}
use fm_robot_agent.Calibration.{Number, whole, real}
use fm_robot_agent.Pose.Book.{
  Found, found, refused, overflow, ◌>>=◌, Angles, is_pose_name, is_arm_joint, move_refusal,
  angle_if, angle, joints_in, checked_joints, check, check_each, is_there, poses_of, book_of,
  read_book, named, pose_named,
}

bind-found :
    {A B : Type 0} (r : Found A) (f : A → Found B) (b : B)
    → (r >>= f) ≡ found b
    → (a : A) × (r ≡ found a) × (f a ≡ found b)
bind-found (found a) f b e = (a, refl, e)
bind-found (refused m) f b e = cc
bind-found overflow f b e = cc

found_injective : {A : Type 0} {a b : A} → found a ≡ found b → a ≡ b
found_injective {A} {a} e = ap (λ r. elim r [ found x ↦ x | refused m ↦ a | overflow ↦ a ]) e

where_true :
    {A : Type 0} (b : Bool) (r : Found A) (m : Str) (a : A)
    → (if b then r else refused m) ≡ found a
    → (b ≡ true) × (r ≡ found a)
where_true true r m a e = (refl, e)
where_true false r m a e = cc

where_false :
    {A : Type 0} (b : Bool) (r : Found A) (m : Str) (a : A)
    → (if b then refused m else r) ≡ found a
    → (b ≡ false) × (r ≡ found a)
where_false true r m a e = cc
where_false false r m a e = (refl, e)

not-false : (b : Bool) → not b ≡ false → b ≡ true
not-false true e = refl
not-false false e = cc

-- A move is not refused exactly where it is armed, the robot is known not to be recording, and its
-- collection loop is known not to run.
pub move_refusal-none :
    (armed : Bool) (recording collecting : Option Bool)
    → (move_refusal armed recording collecting ≡ none)
      ↔ ((armed ≡ true) × (recording ≡ some false) × (collecting ≡ some false))
unfolding move_refusal
move_refusal-none false recording collecting = (λ e. cc, λ h. cc)
move_refusal-none true none collecting = (λ e. cc, λ h. cc)
move_refusal-none true (some true) collecting = (λ e. cc, λ h. cc)
move_refusal-none true (some false) none = (λ e. cc, λ h. cc)
move_refusal-none true (some false) (some true) = (λ e. cc, λ h. cc)
move_refusal-none true (some false) (some false) = (λ e. (refl, refl, refl), λ h. refl)

module _ (angles : Angles) where
  open angles use {F, is_finite, past_max, to_float}

  -- An arm joint, and a finite angle of at most the largest.
  abbrev pub GoodJoint : Str × F → Type 0
  GoodJoint (joint, x) =
      (is_arm_joint joint ≡ true)
      × ((v : Number F) × (x ≡ to_float v) × (is_finite v ≡ some true) × (past_max v ≡ false))

  angle_if-Good :
      (o : Option Bool) (v : Number F) (x : F)
      → is_finite v ≡ o
      → angle_if angles o v ≡ found x
      → (v : Number F) × (x ≡ to_float v) × (is_finite v ≡ some true) × (past_max v ≡ false)
  angle_if-Good none v x h e = cc
  angle_if-Good (some false) v x h e = cc
  angle_if-Good (some true) v x h e =
      let (small, r) = where_false (past_max v) (found (to_float v)) _ x e in
      (v, sym (found_injective r), h, small)

  angle-Good :
      (j : Json F) (x : F)
      → angle angles j ≡ found x
      → (v : Number F) × (x ≡ to_float v) × (is_finite v ≡ some true) × (past_max v ≡ false)
  angle-Good (int z) x e = angle_if-Good (is_finite (whole z)) (whole z) x refl e
  angle-Good (float y) x e = angle_if-Good (is_finite (real y)) (real y) x refl e
  angle-Good null x e = cc
  angle-Good (bool b) x e = cc
  angle-Good (str s) x e = cc
  angle-Good (arr items) x e = cc
  angle-Good (obj fields) x e = cc

  joints_in-Good :
      (d : Fields F) (joints : Dict F) → joints_in angles d ≡ found joints → All GoodJoint joints
  unfolding joints_in
  joints_in-Good end joints e = subst (All GoodJoint) (found_injective e) tt
  joints_in-Good (field joint value rest) joints e =
      let (named, e0) = where_false (not (is_arm_joint joint)) _ _ joints e in
      let (x, e1, e2) = bind-found (angle angles value) _ joints e0 in
      let (more, e3, e4) =
        bind-found (joints_in angles rest) (λ more. found ((joint, x) ∷ more)) joints e2 in
      subst (All GoodJoint) (found_injective e4)
        ((not-false (is_arm_joint joint) named, angle-Good value x e1), joints_in-Good rest more e3)

  abbrev pub GoodPose : Dict F → Type 0
  GoodPose joints = All GoodJoint joints × (joints ≢ [])

  not_empty :
      (joint : Str) (value : Json F) (rest : Fields F) (joints : Dict F)
      → joints_in angles (field joint value rest) ≡ found joints
      → joints ≢ []
  unfolding joints_in
  not_empty joint value rest joints e h =
      let (named, e0) = where_false (not (is_arm_joint joint)) _ _ joints e in
      let (x, e1, e2) = bind-found (angle angles value) _ joints e0 in
      let (more, e3, e4) =
        bind-found (joints_in angles rest) (λ more. found ((joint, x) ∷ more)) joints e2 in
      cons_nil (joint, x) more (found_injective e4 ∙ h)
    where
      cons_nil : (e : Str × F) (more : Dict F) → ¬ (e ∷ more ≡ [])
      cons_nil e more k = cc

  check-GoodPose :
      (name : Str) (j : Json F) (joints : Dict F)
      → check angles name j ≡ found joints
      → (is_pose_name name ≡ true) × GoodPose joints
  unfolding check checked_joints
  check-GoodPose name j joints e =
      let (n, e0) = where_true (is_pose_name name) (checked_joints angles j) _ joints e in
      (n, go j e0)
    where
      go : (j : Json F) → checked_joints angles j ≡ found joints → GoodPose joints
      go (obj (field joint value rest)) e =
          (joints_in-Good (field joint value rest) joints e, not_empty joint value rest joints e)
      go (obj end) e = cc
      go null e = cc
      go (bool b) e = cc
      go (int z) e = cc
      go (float x) e = cc
      go (str s) e = cc
      go (arr items) e = cc

  abbrev pub GoodBook : Dict (Dict F) → Type 0
  GoodBook poses = All (λ e. (is_pose_name (e.0) ≡ true) × GoodPose (e.1)) poses

  check_each-GoodBook :
      (d : Fields F) (poses : Dict (Dict F)) → check_each angles d ≡ found poses → GoodBook poses
  unfolding check_each
  check_each-GoodBook end poses e = subst GoodBook (found_injective e) tt
  check_each-GoodBook (field name joints rest) poses e =
      let (pose, e0, e1) = bind-found (check angles name joints) _ poses e in
      let (more, e2, e3) =
        bind-found (check_each angles rest) (λ more. found ((name, pose) ∷ more)) poses e1 in
      subst GoodBook (found_injective e3)
        (check-GoodPose name joints pose e0, check_each-GoodBook rest more e2)

  poses_of-GoodBook :
      (j : Json F) (poses : Dict (Dict F)) → poses_of angles j ≡ found poses → GoodBook poses
  poses_of-GoodBook (obj d) poses e =
      let (_, e0) =
        where_true (is_there angles (find (codes "home") d)) (check_each angles d) _ poses e in
      check_each-GoodBook d poses e0
  poses_of-GoodBook null poses e = cc
  poses_of-GoodBook (bool b) poses e = cc
  poses_of-GoodBook (int z) poses e = cc
  poses_of-GoodBook (float x) poses e = cc
  poses_of-GoodBook (str s) poses e = cc
  poses_of-GoodBook (arr items) poses e = cc

  book_of-GoodBook :
      (o : Option (Json F)) (poses : Dict (Dict F))
      → book_of angles o ≡ found poses
      → GoodBook poses
  book_of-GoodBook none poses e = cc
  book_of-GoodBook (some (obj d)) poses e = poses_of-GoodBook (get_json (codes "poses") d) poses e
  book_of-GoodBook (some null) poses e = cc
  book_of-GoodBook (some (bool b)) poses e = cc
  book_of-GoodBook (some (int z)) poses e = cc
  book_of-GoodBook (some (float x)) poses e = cc
  book_of-GoodBook (some (str s)) poses e = cc
  book_of-GoodBook (some (arr items)) poses e = cc

  read_book-GoodBook :
      (loads : Str → Option (Json F)) (file : Option Str) (poses : Dict (Dict F))
      → read_book angles loads file ≡ found poses
      → GoodBook poses
  unfolding read_book
  read_book-GoodBook loads none poses e = cc
  read_book-GoodBook loads (some text) poses e =
      let (_, e0) = where_true (leb (length text) 65536) (book_of angles (loads text)) _ poses e in
      book_of-GoodBook (loads text) poses e0

  get-Good :
      (poses : Dict (Dict F)) (name : Str) (joints : Dict F)
      → GoodBook poses
      → get name poses ≡ some joints
      → (is_pose_name name ≡ true) × GoodPose joints
  unfolding get
  get-Good [] name joints h e = cc
  get-Good ((n, pose) ∷ poses) name joints h e =
      go (str_eq n name) refl (get-Good poses name joints (h.1)) e
    where
      some_injective : {a b : Dict F} → some a ≡ some b → a ≡ b
      some_injective {a} e = ap (λ o. elim o [ none ↦ a | some x ↦ x ]) e

      go :
          (b : Bool)
          → str_eq n name ≡ b
          → (get name poses ≡ some joints → (is_pose_name name ≡ true) × GoodPose joints)
          → (if b then some pose else get name poses) ≡ some joints
          → (is_pose_name name ≡ true) × GoodPose joints
      go true k rest e = (
        ap is_pose_name (sym ((str_eq_iff n name).0 k)) ∙ (h.0.0),
        subst GoodPose (some_injective e) (h.0.1),
      )
      go false k rest e = rest e

  -- Whatever the file of poses holds, a pose that is found by its name has a pose's name, sets at
  -- least one joint, and sets nothing but arm joints, each to a finite angle within the largest.
  pub pose_named-GoodPose :
      (loads : Str → Option (Json F)) (file : Option Str) (name : Str) (joints : Dict F)
      → pose_named angles loads file name ≡ found joints
      → (is_pose_name name ≡ true) × GoodPose joints
  unfolding pose_named
  pose_named-GoodPose loads file name joints e =
      let (poses, e0, e1) =
        bind-found (read_book angles loads file) (λ poses. named angles (get name poses)) joints
          e in
      get-Good poses name joints (read_book-GoodBook loads file poses e0) (go (get name poses) e1)
    where
      go : (o : Option (Dict F)) → named angles o ≡ found joints → o ≡ some joints
      go none e = cc
      go (some pose) e = ap some (found_injective e)
