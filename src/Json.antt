-- ===== src/Json.antt =====
-- JSON values as Python's `json` reads them, over the type `F` of its floats.
use fm_robot_agent.Prelude.{◌≡◌, refl, Bool, false, Option, none, some, if◌then◌else◌, arith, ◌∙◌}
use fm_robot_agent.Int.{ℤ}
use fm_robot_agent.Text.{Str, str_eq, str_eq_iff}

mutual
  pub data Json (F : Type 0) : Type 0 where
    null : Json F
    bool : Bool → Json F
    int : ℤ → Json F
    float : F → Json F
    str : Str → Json F
    arr : Items F → Json F
    obj : Fields F → Json F

  pub data Items (F : Type 0) : Type 0 where
    nil : Items F
    cons : Json F → Items F → Items F

  -- A dict's items in insertion order.
  pub data Fields (F : Type 0) : Type 0 where
    end : Fields F
    field : Str → Json F → Fields F → Fields F

module _ {F : Type 0} where
  -- `d.get(k)`, and `None` where the key is not there.
  unfoldable pub find : Str → Fields F → Option (Json F)
  find k end = none
  find k (field j v d) = if str_eq j k then some v else find k d

  abbrev or_null : Option (Json F) → Json F
  or_null none = null
  or_null (some v) = v

  unfoldable pub get_json : Str → Fields F → Json F
  unfolding find
  get_json k d = or_null (find k d)

  -- `d[k] = v`
  unfoldable pub put : Str → Json F → Fields F → Fields F
  put k v end = field k v end
  put k v (field j w d) = let rest = put k v d in if str_eq j k then field j v d else field j w rest

  -- `{**a, **b}`
  unfoldable pub merge : Fields F → Fields F → Fields F
  unfolding put
  merge a end = a
  merge a (field k v b) = merge (put k v a) b

  pub find-put :
      (k j : Str) (v : Json F) (d : Fields F)
      → find j (put k v d) ≡ (if str_eq k j then some v else find j d)
  unfolding find put
  find-put k j v end = refl
  find-put k j v (field i w d) =
      ground (arith, str_eq_iff k j, str_eq_iff i k, str_eq_iff i j, find-put k j v d)

  find-field_none :
      (j k : Str) (v : Json F) (d : Fields F)
      → find j (field k v d) ≡ none
      → (str_eq k j ≡ false) × (find j d ≡ none)
  unfolding find
  find-field_none j k v d h = ground arith

  -- A key that `b` does not hold keeps its value in `{**a, **b}`.
  pub find-merge_left : (j : Str) (a b : Fields F) → find j b ≡ none → find j (merge a b) ≡ find j a
  unfolding merge
  find-merge_left j a end h = refl
  find-merge_left j a (field k v b) h =
      let (other, absent) = find-field_none j k v b h in
      find-merge_left j (put k v a) b absent ∙ rw (find-put k j v a, other)
