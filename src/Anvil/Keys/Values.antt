-- ===== src/Anvil/Keys/Values.antt =====
-- src/fm_robot_agent/anvil.py: a value that `_validated` lets through is one that an env file holds.
use fm_robot_agent.Prelude.{
  ℕ, ◌≡◌, refl, sym, subst, Bool, true, false, not, ◌&&◌, ◌||◌, Option, none, some, List, [], ◌∷◌,
  codes, every, some_of, leb, length, All, if◌then◌else◌, arith,
}
use fm_robot_agent.Int.{ℤ, pos, leb_ℤ, show_ℤ}
use fm_robot_agent.Int.Shown.{show_ℤ-IsWord}
use fm_robot_agent.Text.{Str, str_eq, str_eq_iff, strip, is_space, contains}
use fm_robot_agent.Text.Lines.{IsLine}
use fm_robot_agent.Text.Strip.{IsTrimmed, IsWord, IsWord-IsTrimmed}
use fm_robot_agent.Text.Trimmed.{strip-IsTrimmed}
use fm_robot_agent.Config.EnvFile.Laws.{IsValue, IsWord-IsLine}
use fm_robot_agent.Anvil.Mode.{mode_key}
use fm_robot_agent.Anvil.Keys.{
  peer_key, boolean_values, transport_modes, verbosity_levels, is_boolean_key, Validated, value,
  refusal, is_iface_char, is_iface, TextRules, above, integer_in, integer, one_of, address, scale,
  validated_text, validated,
}

-- A value, where there is one, is trimmed and on one line.
abbrev pub Holdable : Validated → Type 0
Holdable (value v) = IsValue v
Holdable (refusal m) = Unit {0}

IsWord-IsValue : (s : Str) → IsWord s → IsValue s
IsWord-IsValue s h = (IsWord-IsTrimmed s h, IsWord-IsLine s h)

if-Holdable :
    (b : Bool) (x y : Validated)
    → (b ≡ true → Holdable x)
    → Holdable y
    → Holdable (if b then x else y)
if-Holdable true x y h k = h refl
if-Holdable false x y h k = k

left : (a b : Bool) → a && b ≡ true → a ≡ true
left a b h = grind arith

right : (a b : Bool) → a && b ≡ true → b ≡ true
right a b h = grind arith

-- A text that is one of some words is as they are.
among :
    (P : Str → Type 0) (s : Str) (words : List Str)
    → All P words
    → some_of (str_eq s) words ≡ true
    → P s
among P s [] h e = cc
among P s (w ∷ words) h e = go (str_eq s w) refl (among P s words (h.1)) e
  where
    go :
        (b : Bool)
        → str_eq s w ≡ b
        → (some_of (str_eq s) words ≡ true → P s)
        → b || some_of (str_eq s) words ≡ true
        → P s
    go true k rest e' = subst P (sym ((str_eq_iff s w).0 k)) (h.0)
    go false k rest e' = rest e'

iface_char-stays : (c : ℕ) → is_iface_char c ≡ true → is_space c ≡ false
unfolding is_space
iface_char-stays c h = ground arith

iface-IsWord : (s : Str) → every is_iface_char s ≡ true → IsWord s
iface-IsWord [] h = tt
iface-IsWord (c ∷ s) h =
    (iface_char-stays c (left (is_iface_char c) _ h), iface-IsWord s (right (is_iface_char c) _ h))

is_iface-IsWord : (s : Str) → is_iface s ≡ true → IsWord s
unfolding is_iface
is_iface-IsWord s h = iface-IsWord s (last (leb 1 (length s)) (leb (length s) 15) _ h)
  where
    last : (a b c : Bool) → a && b && c ≡ true → c ≡ true
    last a b c h = grind arith

-- The words that a key may have to be one of.
spaceless : Str → Bool
spaceless s = every (λ c. not (is_space c)) s

spaceless-IsWord : (s : Str) → spaceless s ≡ true → IsWord s
unfolding spaceless
spaceless-IsWord [] h = tt
spaceless-IsWord (c ∷ s) h = (kept (is_space c) _ h, spaceless-IsWord s (rest (is_space c) _ h))
  where
    kept : (a b : Bool) → not a && b ≡ true → a ≡ false
    kept a b h = grind arith

    rest : (a b : Bool) → not a && b ≡ true → b ≡ true
    rest a b h = grind arith

every-IsWord : (words : List Str) → every spaceless words ≡ true → All IsWord words
every-IsWord [] h = tt
every-IsWord (w ∷ words) h =
    (spaceless-IsWord w (left (spaceless w) _ h), every-IsWord words (right (spaceless w) _ h))

words-IsWord : All IsWord boolean_values × All IsWord transport_modes × All IsWord verbosity_levels
unfolding spaceless is_space
words-IsWord = (
  every-IsWord boolean_values refl,
  every-IsWord transport_modes refl,
  every-IsWord verbosity_levels refl,
)

module _ {F : Type 0} (texts : TextRules F) (configs : List Str)
    (configs-IsValue : All IsValue configs)
    (address_ok : (s a : Str) → texts.address_of s ≡ some a → contains 37 s ≡ false → IsValue a)
    (float_ok : (s : Str) (x : F) → IsTrimmed s → texts.float_of s ≡ some x → IsLine s) where
  integer-Holdable :
      (key text : Str) (low : ℤ) (high : Option ℤ) → Holdable (integer texts key text low high)
  unfolding integer
  integer-Holdable key text low high = go (texts.int_of text)
    where
      go : (o : Option ℤ) → Holdable (integer_in texts key o low high)
      go none = tt
      go (some z) =
          if-Holdable (not (leb_ℤ low z) || above texts high z) (refusal _) (value (show_ℤ z))
            (λ _. tt) (IsWord-IsValue (show_ℤ z) (show_ℤ-IsWord z))

  one_of-Holdable :
      (key text : Str) (words : List Str)
      → All IsWord words
      → Holdable (one_of texts key text words)
  one_of-Holdable key text words h =
      if-Holdable (some_of (str_eq text) words) (value text) _
        (λ e. IsWord-IsValue text (among IsWord text words h e)) tt

  scale-Holdable : (text : Str) → IsTrimmed text → Holdable (scale texts text (texts.float_of text))
  scale-Holdable text h = go (texts.float_of text) refl
    where
      go : (o : Option F) → texts.float_of text ≡ o → Holdable (scale texts text o)
      go none e = tt
      go (some x) e =
          if-Holdable (texts.is_scale x) (value text) _ (λ _. (h, float_ok text x h e)) tt

  address-Holdable :
      (text : Str) → contains 37 text ≡ false → Holdable (address texts (texts.address_of text))
  address-Holdable text unscoped = go (texts.address_of text) refl
    where
      go : (o : Option Str) → texts.address_of text ≡ o → Holdable (address texts o)
      go none e = tt
      go (some a) e = address_ok text a e unscoped

  validated_text-Holdable :
      (key text : Str)
      → IsTrimmed text
      → (str_eq key peer_key ≡ true → contains 37 text ≡ false)
      → Holdable (validated_text texts configs key text)
  unfolding validated_text
  validated_text-Holdable key text h unscoped =
      let (booleans, transports, levels) = words-IsWord in
      if-Holdable (str_eq key mode_key) _ _
        (λ _.
          if-Holdable (some_of (str_eq text) configs) (value text) _
            (λ e. among IsValue text configs configs-IsValue e) tt)
        (if-Holdable (str_eq key (codes "ROS_DOMAIN_ID")) _ _
          (λ _. integer-Holdable key text (pos 0) (some (pos 232)))
          (if-Holdable (str_eq key (codes "CYCLONEDDS_IFACE")) _ _
            (λ _.
              if-Holdable (is_iface text) (value text) _
                (λ e. IsWord-IsValue text (is_iface-IsWord text e)) tt)
            (if-Holdable (str_eq key peer_key) _ _ (λ e. address-Holdable text (unscoped e))
              (if-Holdable (is_boolean_key key) _ _
                (λ _. one_of-Holdable key (texts.lower text) boolean_values booleans)
                (if-Holdable (str_eq key (codes "CYCLONEDDS_TRANSPORT")) _ _
                  (λ _. one_of-Holdable key (texts.lower text) transport_modes transports)
                  (if-Holdable (str_eq key (codes "CYCLONEDDS_VERBOSITY")) _ _
                    (λ _. one_of-Holdable key (texts.lower text) verbosity_levels levels)
                    (if-Holdable (str_eq key (codes "TELEOP_POSITION_SCALE")) _ _
                      (λ _. scale-Holdable text h) (integer-Holdable key text (pos 1) none))))))))

  -- Where the robot's own configs are values that an env file can hold, an address without a
  -- percent sign prints as one, `float` reads no text with a line break inside, and a value for
  -- the peer's address has no percent sign, every value that passes `_validated` is trimmed and on
  -- one line.
  pub validated-IsValue :
      (key text v : Str)
      → (str_eq key peer_key ≡ true → contains 37 (strip text) ≡ false)
      → validated texts configs key text ≡ value v
      → IsValue v
  unfolding validated
  validated-IsValue key text v unscoped e =
      subst Holdable e (validated_text-Holdable key (strip text) (strip-IsTrimmed text) unscoped)
