-- ===== src/Verbs/Checks/Arguments.antt =====
-- src/fm_robot_agent/verbs.py: the arguments that `_mode` lets through.
use fm_robot_agent.Prelude.{
  ◌≡◌, ◌≤◌, ◌+◌, Bool, true, false, Option, none, some, [], ◌∷◌, arith, length, leb, leb→le, All,
  if◌then◌else◌, Bool-cases, inl, inr, codes,
}
use fm_robot_agent.Text.{Str, str_eq}
use fm_robot_agent.Dict.{Dict, insert}
use fm_robot_agent.Json.{Json, Fields, null, obj, end, field}
use fm_robot_agent.Protocol.{Python}
use fm_robot_agent.Verbs.Values.{scalar_text}
use fm_robot_agent.Verbs.Checks.Accepted.{accepted-injective, test_accepted, >>=-accepted}
use fm_robot_agent.Verbs.Checks.{accepted, rejected, mode_value, mode_args, checked_args, size}

-- A text that is there, of at most `MAX_VALUE_LEN` characters.
abbrev pub IsShort : Str → Type 0
IsShort s = (1 ≤ length s) × (length s ≤ 256)

abbrev IsArgument : Str × Str → Type 0
IsArgument (name, value) = (1 ≤ length name) × IsShort value

-- At most `MAX_MODE_ARGS` arguments, each with a name and a short value.
abbrev pub IsArguments : Dict Str → Type 0
IsArguments args = All IsArgument args × (length args ≤ 16)

length-insert : (k v : Str) (d : Dict Str) → length (insert k v d) ≤ length d + 1
unfolding insert
length-insert k v [] = omega arith
length-insert k v ((j, w) ∷ d) = ground (arith, length-insert k v d)

insert-All :
    (k v : Str) (d : Dict Str)
    → IsArgument (k, v)
    → All IsArgument d
    → All IsArgument (insert k v d)
unfolding insert
insert-All k v [] h a = (h, tt)
insert-All k v ((j, w) ∷ d) h a =
    elim (str_eq j k) as (λ b. All IsArgument (if b then (j, v) ∷ d else (j, w) ∷ insert k v d)) [
      | true ↦ ((a.0.0, h.1), a.1)
      | false ↦ (a.0, insert-All k v d h a.1)
    ]

module _ (py : Python) where
  open py use {F}

  mode_value-IsShort :
      (name : Str) (o : Option Str) (t : Str) → mode_value py name o ≡ accepted t → IsShort t
  unfolding mode_value
  mode_value-IsShort name none t h = cc
  mode_value-IsShort name (some []) t h = cc
  mode_value-IsShort name (some (c ∷ s)) t h =
      let (short, e) = test_accepted (leb (length (c ∷ s)) 256) (c ∷ s) t _ h in
      rw e (omega arith, leb→le (length (c ∷ s)) 256 short)

  mode_args-All :
      (d : Fields F) (args out : Dict Str)
      → mode_args py d args ≡ accepted out
      → All IsArgument args
      → All IsArgument out × (length out ≤ length args + size d)
  unfolding mode_args size
  mode_args-All end args out h a = rw (← accepted-injective args out h) (a, omega arith)
  mode_args-All (field [] v d) args out h a = cc
  mode_args-All (field (c ∷ name) v d) args out h a =
      let (t, e, rest) =
        >>=-accepted (mode_value py (c ∷ name) (scalar_text py v))
          (λ t. mode_args py d (insert (c ∷ name) t args)) h in
      let short = mode_value-IsShort (c ∷ name) (scalar_text py v) t e in
      let (all, bound) =
        mode_args-All d (insert (c ∷ name) t args) out rest
          (insert-All (c ∷ name) t args (omega arith, short) a) in
      (all, omega (arith, bound, length-insert (c ∷ name) t args))

  pub checked_args-IsArguments :
      (b : Bool) (raw : Json F) (args : Dict Str)
      → checked_args py b raw ≡ accepted args
      → IsArguments args
  unfolding checked_args size
  checked_args-IsArguments false raw args h = rw (← accepted-injective [] args h) (tt, omega arith)
  checked_args-IsArguments true (obj d) args h = elim (Bool-cases (leb (size d) 16)) [
    | inl few ↦
        let (all, bound) = mode_args-All d [] args (rw few at h) tt in
        (all, omega (arith, bound, leb→le (size d) 16 few))
    | inr many ↦ cc (clash many)
  ]
    where
      clash :
          leb (size d) 16 ≡ false
          → checked_args py true (obj d) ≡ rejected (codes "more than 16 arguments")
      clash many = rw many
  checked_args-IsArguments true null args h = cc
  checked_args-IsArguments true _ args h = cc
