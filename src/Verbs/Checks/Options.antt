-- ===== src/Verbs/Checks/Options.antt =====
-- src/fm_robot_agent/verbs.py: what stands in the options of a collection that `_collect` lets
-- through.
use fm_robot_agent.Prelude.{
  ◌≡◌, refl, ◌∙◌, ◌⊎◌, inl, inr, Bool, true, false, Option, none, some, [], codes, subst,
}
use fm_robot_agent.Text.{Str, str_eq, str_eq_refl}
use fm_robot_agent.Dict.{Dict, get, insert, get-insert}
use fm_robot_agent.Int.{ℤ, show_ℤ}
use fm_robot_agent.Json.{Json, null, bool, int, str, Fields, find, get_json}
use fm_robot_agent.Protocol.{Python}
use fm_robot_agent.Verbs.Values.{
  valid_object, decimal, hours_in_range, speed_in_range, cycles_in_range,
}
use fm_robot_agent.Verbs.Checks.Accepted.{test_accepted, >>=-accepted}
use fm_robot_agent.Verbs.Checks.{
  Checked, accepted, ◌>>=◌, checked_object, with_number, with_cycles, with_no_record,
  collect_options,
}

-- `new` is `old`, or `old` with a text for `name` that has `Q`.
abbrev Inserted : Str → (Str → Type 0) → Dict Str → Dict Str → Type 0
Inserted name Q old new = (new ≡ old) ⊎ ((t : Str) × Q t × (new ≡ insert name t old))

get-Inserted_ne :
    (name k : Str) (Q : Str → Type 0) (old new : Dict Str)
    → Inserted name Q old new
    → str_eq name k ≡ false
    → get k new ≡ get k old
get-Inserted_ne name k Q old new (inl e) ne = rw e
get-Inserted_ne name k Q old new (inr (t, q, e)) ne = rw (e, get-insert name k t old, ne)

get-Inserted_self :
    (name : Str) (Q : Str → Type 0) (old new : Dict Str) (t : Str)
    → Inserted name Q old new
    → get name old ≡ none
    → get name new ≡ some t
    → Q t
get-Inserted_self name Q old new t (inl e) absent h = cc (absent, e, h)
get-Inserted_self name Q old new t (inr (u, q, e)) absent h =
    subst Q (some_eq u t (rw (e, get-insert name name u old, str_eq_refl name) at h)) q
  where
    some_eq : (u t : Str) → ◌≡◌ {A = Option Str} (some u) (some t) → u ≡ t
    some_eq u t h = cc

-- The values between the steps of a chain that is let through.
chain-accepted :
    {A : Type 0} (m : Checked A) (f g h k : A → Checked A) (e : A)
    → (m >>= λ a. f a >>= λ b. g b >>= λ c. h c >>= k) ≡ accepted e
    → (a b c d : A) × (m ≡ accepted a)
      × (f a ≡ accepted b)
      × (g b ≡ accepted c)
      × (h c ≡ accepted d)
      × (k d ≡ accepted e)
chain-accepted m f g h k e p =
    let (a, p₁, q₁) = >>=-accepted m (λ a. f a >>= λ b. g b >>= λ c. h c >>= k) p in
    let (b, p₂, q₂) = >>=-accepted (f a) (λ b. g b >>= λ c. h c >>= k) q₁ in
    let (c, p₃, q₃) = >>=-accepted (g b) (λ c. h c >>= k) q₂ in
    let (d, p₄, q₄) = >>=-accepted (h c) k q₃ in (a, b, c, d, p₁, p₂, p₃, p₄, q₄)

module _ (py : Python) where
  open py use {F}

  abbrev pub InRange : (Json F → Bool) → Str → Type 0
  InRange test t = (v : Json F) × (test v ≡ true) × (t ≡ decimal py v)

  with_number-Inserted :
      (name : Str) (test : Json F → Bool) (message : Str) (v : Json F) (old new : Dict Str)
      → with_number py name test message v old ≡ accepted new
      → Inserted name (InRange test) old new
  unfolding with_number
  with_number-Inserted name test message null old new h = inl (cc)
  with_number-Inserted name test message v old new h =
      let (e, p) = test_accepted (test v) (insert name (decimal py v) old) new message h in
      inr (decimal py v, (v, e, refl), p)

  -- The text of a count that the bounds let through.
  abbrev pub IsCount : Str → Type 0
  IsCount t = (z : ℤ) × (cycles_in_range z ≡ true) × (t ≡ show_ℤ z)

  with_cycles-Inserted :
      (v : Json F) (old new : Dict Str)
      → with_cycles py v old ≡ accepted new
      → Inserted (codes "cycles") IsCount old new
  unfolding with_cycles
  with_cycles-Inserted null old new h = inl (cc)
  with_cycles-Inserted (int z) old new h =
      let (e, p) =
        test_accepted (cycles_in_range z) (insert (codes "cycles") (show_ℤ z) old) new _ h in
      inr (show_ℤ z, (z, e, refl), p)
  with_cycles-Inserted _ old new h = cc

  with_no_record-Inserted :
      (o : Option (Json F)) (old new : Dict Str)
      → with_no_record py o old ≡ accepted new
      → Inserted (codes "no_record") (λ t. t ≡ codes "true") old new
  unfolding with_no_record
  with_no_record-Inserted none old new h = inl (cc)
  with_no_record-Inserted (some (bool true)) old new h = inr (codes "true", refl, cc)
  with_no_record-Inserted (some (bool false)) old new h = inl (cc)
  with_no_record-Inserted (some null) old new h = cc
  with_no_record-Inserted (some _) old new h = cc

  -- Each option holds what its check let through, as the text that the robot's script takes.
  pub record IsSafeStart (options : Dict Str) : Type 0 where
    pub named : (o : Str) × (get (codes "object") options ≡ some o) × (valid_object o ≡ true)
    pub timed : (t : Str) → get (codes "hours") options ≡ some t → InRange (hours_in_range py) t
    pub counted : (t : Str) → get (codes "cycles") options ≡ some t → IsCount t
    pub scaled : (t : Str) → get (codes "speed") options ≡ some t → InRange (speed_in_range py) t
    pub unrecorded : (t : Str) → get (codes "no_record") options ≡ some t → t ≡ codes "true"

  checked_object-eq :
      (v : Json F) (options : Dict Str)
      → checked_object py v ≡ accepted options
      → (o : Str) × (options ≡ insert (codes "object") o []) × (valid_object o ≡ true)
  unfolding checked_object
  checked_object-eq (str s) options h =
      let (e, p) = test_accepted (valid_object s) (insert (codes "object") s []) options _ h in
      (s, p, e)
  checked_object-eq null options h = cc
  checked_object-eq _ options h = cc

  module _ (o₁ o₂ o₃ o₄ o₅ : Dict Str) (o : Str) (e₁ : o₁ ≡ insert (codes "object") o [])
      (i₂ : Inserted (codes "hours") (InRange (hours_in_range py)) o₁ o₂)
      (i₃ : Inserted (codes "cycles") IsCount o₂ o₃)
      (i₄ : Inserted (codes "speed") (InRange (speed_in_range py)) o₃ o₄)
      (i₅ : Inserted (codes "no_record") (λ t. t ≡ codes "true") o₄ o₅) (k : Str) where
    at_first : str_eq (codes "object") k ≡ false → get k o₁ ≡ none
    at_first n = unfold get in rw (e₁, get-insert (codes "object") k o [], n)

    past_no_record : str_eq (codes "no_record") k ≡ false → get k o₅ ≡ get k o₄
    past_no_record = get-Inserted_ne (codes "no_record") k _ o₄ o₅ i₅

    past_speed :
        str_eq (codes "speed") k ≡ false
        → str_eq (codes "no_record") k ≡ false
        → get k o₅ ≡ get k o₃
    past_speed m n = past_no_record n ∙ get-Inserted_ne (codes "speed") k _ o₃ o₄ i₄ m

    past_hours : str_eq (codes "hours") k ≡ false → get k o₂ ≡ get k o₁
    past_hours = get-Inserted_ne (codes "hours") k _ o₁ o₂ i₂

    past_cycles : str_eq (codes "cycles") k ≡ false → get k o₃ ≡ get k o₂
    past_cycles = get-Inserted_ne (codes "cycles") k _ o₂ o₃ i₃

    before_speed : str_eq (codes "speed") k ≡ false → get k o₄ ≡ get k o₃
    before_speed = get-Inserted_ne (codes "speed") k _ o₃ o₄ i₄

  -- A key that no later step touches keeps what an earlier step gave it.
  start-IsSafe :
      (o₁ o₂ o₃ o₄ o₅ : Dict Str) (o : Str)
      → o₁ ≡ insert (codes "object") o []
      → Inserted (codes "hours") (InRange (hours_in_range py)) o₁ o₂
      → Inserted (codes "cycles") IsCount o₂ o₃
      → Inserted (codes "speed") (InRange (speed_in_range py)) o₃ o₄
      → Inserted (codes "no_record") (λ t. t ≡ codes "true") o₄ o₅
      → valid_object o ≡ true
      → IsSafeStart o₅
  unfolding str_eq
  start-IsSafe o₁ o₂ o₃ o₄ o₅ o e₁ i₂ i₃ i₄ i₅ good =
      let first = at_first o₁ o₂ o₃ o₄ o₅ o e₁ i₂ i₃ i₄ i₅ in
      let past = past_speed o₁ o₂ o₃ o₄ o₅ o e₁ i₂ i₃ i₄ i₅ in
      let cycles = past_cycles o₁ o₂ o₃ o₄ o₅ o e₁ i₂ i₃ i₄ i₅ in
      let hours = past_hours o₁ o₂ o₃ o₄ o₅ o e₁ i₂ i₃ i₄ i₅ in
      let record_flag = past_no_record o₁ o₂ o₃ o₄ o₅ o e₁ i₂ i₃ i₄ i₅ in
      let speed = before_speed o₁ o₂ o₃ o₄ o₅ o e₁ i₂ i₃ i₄ i₅ in
      record {
        named = (
          o,
          rw (
            past (codes "object") refl refl,
            cycles (codes "object") refl,
            hours (codes "object") refl,
            e₁,
            get-insert (codes "object") (codes "object") o [],
          ),
          good,
        );
        timed = λ t h.
            get-Inserted_self (codes "hours") _ o₁ o₂ t i₂ (first (codes "hours") refl)
              (rw (past (codes "hours") refl refl, cycles (codes "hours") refl) at h);
        counted = λ t h.
            get-Inserted_self (codes "cycles") _ o₂ o₃ t i₃
              (hours (codes "cycles") refl ∙ first (codes "cycles") refl)
              (rw (past (codes "cycles") refl refl) at h);
        scaled = λ t h.
            get-Inserted_self (codes "speed") _ o₃ o₄ t i₄
              (cycles (codes "speed") refl
                ∙ hours (codes "speed") refl
                ∙ first (codes "speed") refl)
              (rw (record_flag (codes "speed") refl) at h);
        unrecorded = λ t h.
            get-Inserted_self (codes "no_record") _ o₄ o₅ t i₅
              (speed (codes "no_record") refl
                ∙ cycles (codes "no_record") refl
                ∙ hours (codes "no_record") refl
                ∙ first (codes "no_record") refl)
              h;
      }

  pub collect_options-IsSafeStart :
      (body : Fields F) (options : Dict Str)
      → collect_options py body ≡ accepted options
      → IsSafeStart options
  unfolding collect_options
  collect_options-IsSafeStart body options h =
      let (o₁, o₂, o₃, o₄, e₁, e₂, e₃, e₄, e₅) =
        chain-accepted (checked_object py (get_json (codes "object") body))
          (with_number py (codes "hours") (hours_in_range py)
            (codes "hours must be a number from 0.01 to 12") (get_json (codes "hours") body))
          (with_cycles py (get_json (codes "cycles") body))
          (with_number py (codes "speed") (speed_in_range py)
            (codes "speed must be a fraction from 0.1 to 3.0") (get_json (codes "speed") body))
          (with_no_record py (find (codes "no_record") body)) options h in
      let (o, e, good) = checked_object-eq (get_json (codes "object") body) o₁ e₁ in
      start-IsSafe o₁ o₂ o₃ o₄ options o e
        (with_number-Inserted (codes "hours") (hours_in_range py) _ _ o₁ o₂ e₂)
        (with_cycles-Inserted _ o₂ o₃ e₃)
        (with_number-Inserted (codes "speed") (speed_in_range py) _ _ o₃ o₄ e₄)
        (with_no_record-Inserted _ o₄ options e₅) good
