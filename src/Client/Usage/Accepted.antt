-- ===== src/Client/Usage/Accepted.antt =====
-- src/fm_robot_agent/client.py: what holds where the command line is not refused.
use fm_robot_agent.Prelude.{
  ℕ, ◌≡◌, refl, inl, inr, Bool-cases, Bool, true, false, Option, none, some, [], ◌∷◌, ◌==◌, ◌||◌,
  All, ap, sym, ◌∙◌, codes, arith, if◌then◌else◌,
}
use fm_robot_agent.Text.{Str, str_eq, str_eq_iff}
use fm_robot_agent.Text.Strip.{Without}
use fm_robot_agent.Json.{Fields}
use fm_robot_agent.Verbs.Values.{is_digit}
use fm_robot_agent.Verbs.Key.{Verb, verb_name, key_of, discovery_segment}
use fm_robot_agent.Client.{namespace_of, device_of}
use fm_robot_agent.Client.Devices.{device_of-key_of, replace-Without}
use fm_robot_agent.Client.Payload.{
  Args, Payload, body, no_body, key_error, perception_debug_body, build_payload,
}
use fm_robot_agent.Client.Usage.{
  is_letter, two_digits, card_from, valid_device, verb_error, usage_error, debug_value, is_listing,
  queried_key,
}

-- A character of a device name, or the newline that the pattern lets stand behind it.
abbrev in_name : ℕ → Bool
in_name c = is_letter c || is_digit c || c == 45 || c == 10

abbrev InName : ℕ → Type 0
InName c = in_name c ≡ true

two_digits-InName : (s : Str) → two_digits s ≡ true → All InName s
two_digits-InName [] h = ground arith
two_digits-InName (a ∷ []) h = ground arith
two_digits-InName (a ∷ b ∷ []) h = (ground arith, (ground arith, tt))
two_digits-InName (a ∷ b ∷ c ∷ []) h = (ground arith, (ground arith, (ground arith, tt)))
two_digits-InName (a ∷ b ∷ c ∷ d ∷ s) h = ground arith

card_from-InName : (seen : Bool) (s : Str) → card_from seen s ≡ true → All InName s
unfolding card_from
card_from-InName seen [] h = ground arith
card_from-InName seen (c ∷ s) h = ground (arith, card_from-InName true s, two_digits-InName s)

valid_device-InName : (s : Str) → valid_device s ≡ true → All InName s
unfolding valid_device
valid_device-InName [] h = ground arith
valid_device-InName (a ∷ []) h = ground arith
valid_device-InName (a ∷ b ∷ []) h = ground arith
valid_device-InName (a ∷ b ∷ c ∷ s) h =
    (ground arith, (ground arith, (ground arith, card_from-InName false s (ground arith))))

InName-other : (n c : ℕ) → in_name n ≡ false → in_name c ≡ true → (c == n) ≡ false
InName-other n c f h = ground arith

Without-foreign : (n : ℕ) → in_name n ≡ false → (s : Str) → All InName s → Without n s
Without-foreign n f [] h = h
Without-foreign n f (c ∷ s) h = (InName-other n c f h.0, Without-foreign n f s h.1)

-- What a key that is queried is: the key of every robot's status, asked by `list`, or the key of one
-- device, whose namespace has no star and no slash.
pub data Asked (device : Str) (verb : Option Verb) : Str → Type 0 where
  listing : device ≡ codes "list" → Asked device verb (key_of discovery_segment (codes "status"))
  one_device :
      (v : Verb)
      → verb ≡ some v
      → device_of (key_of (namespace_of device) (verb_name v)) ≡ device
      → Without 42 (namespace_of device)
      → Without 47 (namespace_of device)
      → Asked device verb (key_of (namespace_of device) (verb_name v))

-- The verb as it was typed, if one was.
abbrev pub typed_verb : Option Verb → Option Str
typed_verb none = none
typed_verb (some v) = some (verb_name v)

accepted_device :
    (F : Type 0) (repr : Str → Str) (device : Str) (verb : Option Str) (args : Args F)
    → is_listing device ≡ false
    → usage_error repr device verb args ≡ none
    → valid_device device ≡ true
unfolding usage_error
accepted_device F repr device verb args other h = ground arith

no_verb_refused :
    (F : Type 0) (repr : Str → Str) (device : Str) (args : Args F)
    → is_listing device ≡ false
    → usage_error repr device none args ≡ none
    → ⊥
unfolding usage_error
no_verb_refused F repr device args other h = ground arith

one_device-Asked :
    (F : Type 0) (repr : Str → Str) (device : Str) (verb : Option Verb) (args : Args F)
    → is_listing device ≡ false
    → usage_error repr device (typed_verb verb) args ≡ none
    → Asked device verb (queried_key device (typed_verb verb))
unfolding queried_key namespace_of
one_device-Asked F repr device none args other h =
    absurd (no_verb_refused F repr device args other h)
one_device-Asked F repr device (some v) args other h =
    let chars =
      valid_device-InName device
        (accepted_device F repr device (typed_verb (some v)) args other h) in
    let slash = Without-foreign 47 refl device chars in
    rw other (
      one_device v refl (device_of-key_of device v (Without-foreign 95 refl device chars) slash)
        (replace-Without 45 95 42 device refl (Without-foreign 42 refl device chars))
        (replace-Without 45 95 47 device refl slash))

-- Where the command line is not refused, the device is `list` and the key that is queried is that
-- of every robot's status, a read; or it is a verb's key in the namespace of the device, which has
-- no star and no slash, and the device of a reply under that key is the device that was named.
pub usage_error-Asked :
    (F : Type 0) (repr : Str → Str) (device : Str) (verb : Option Verb) (args : Args F)
    → usage_error repr device (typed_verb verb) args ≡ none
    → Asked device verb (queried_key device (typed_verb verb))
unfolding queried_key
usage_error-Asked F repr device verb args h = elim (Bool-cases (is_listing device)) [
  | inl list ↦ rw list (listing ((str_eq_iff device (codes "list")).0 list))
  | inr other ↦ one_device-Asked F repr device verb args other h
]

abbrev pub is_key_error : {F : Type 0} → Payload F → Bool
is_key_error key_error = true
is_key_error _ = false

perception_debug_body-built :
    (F : Type 0) (value : Option Str)
    → debug_value value ≡ true
    → is_key_error (perception_debug_body {F = F} value) ≡ false
unfolding perception_debug_body
perception_debug_body-built F none h = ground arith
perception_debug_body-built F (some value) h = ground arith

-- `search` reads a record where it would compute a Boolean.
record Built {F : Type 0} (p : Payload F) : Type 0 where
  no_key_error : is_key_error p ≡ false

if_body :
    {F : Type 0} (b : Bool) (d : Fields F) (p : Payload F)
    → Built p
    → Built (if b then body d else p)
if_body true d p h = record { no_key_error = refl }
if_body false d p h = h

if_debug :
    {F : Type 0} (b : Bool) (p q : Payload F)
    → (b ≡ true → Built p)
    → Built q
    → Built (if b then p else q)
if_debug true p q h k = h refl
if_debug false p q h k = k

no_body-Built : (F : Type 0) → Built {F = F} no_body
no_body-Built F = record { no_key_error = refl }

debug_checked :
    (F : Type 0) (verb : Str) (args : Args F)
    → verb_error verb args ≡ none
    → str_eq verb (codes "perception_debug") ≡ true
    → debug_value args.value ≡ true
unfolding verb_error str_eq
debug_checked F verb args h e =
    let checked = ap (λ v. verb_error v args) (sym ((str_eq_iff verb _).0 e)) ∙ h in ground arith

build_payload-Built :
    (F : Type 0) (verb : Str) (args : Args F)
    → (str_eq verb (codes "perception_debug") ≡ true
        → Built (perception_debug_body {F = F} args.value))
    → Built (build_payload verb args)
unfolding build_payload
build_payload-Built F verb args h = search (if_body, if_debug, no_body-Built) depth 10

-- Where the checks of a verb let the command line pass, building the body does not raise the
-- KeyError of a value that `perception_debug` does not know.
pub build_payload-no_key_error :
    (F : Type 0) (verb : Str) (args : Args F)
    → verb_error verb args ≡ none
    → is_key_error (build_payload verb args) ≡ false
build_payload-no_key_error F verb args h =
    (build_payload-Built F verb args (λ e. record {
      no_key_error = perception_debug_body-built F args.value (debug_checked F verb args h e);
    })).no_key_error
