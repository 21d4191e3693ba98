-- ===== src/Anvil/Keys/Guards.antt =====
-- src/fm_robot_agent/anvil.py: what `config_write` does to the host.
use fm_robot_agent.Prelude.{
  ◌≡◌, refl, Bool, true, false, some, List, ◌++◌, codes, All, if◌then◌else◌,
}
use fm_robot_agent.Text.{Str, str_eq, strip, contains}
use fm_robot_agent.Text.Lines.{IsLine}
use fm_robot_agent.Text.Strip.{IsTrimmed}
use fm_robot_agent.Config.{Class, severing, motion, tuning, mode, unknown, mode_alias, writable}
use fm_robot_agent.Config.EnvFile.Laws.{IsValue}
use fm_robot_agent.Anvil.Pair.{Writer}
use fm_robot_agent.Anvil.World.{World, Ending, returned, M, pure}
use fm_robot_agent.Anvil.Mode.{mode_key}
use fm_robot_agent.Anvil.Severing.{Codec, Answer, answer, write_severing}
use fm_robot_agent.Anvil.Keys.{
  peer_key, validated, Validated, value, refusal, TextRules, class_of, written, write_classed,
  write_validated, write_key, config_write,
}
use fm_robot_agent.Anvil.Keys.Values.{validated-IsValue}

-- The key in the file: `mode` is the name of one of them.
abbrev pub key_in_file : Str → Str
key_in_file key = if str_eq key mode_alias then mode_key else key

module _ {F : Type 0} (texts : TextRules F) (codec : Codec) (writer : Writer) (configs : List Str)
    (recreate : M Str) where
  -- How a write of `text` under the key `k` ends on the host `w`: refused for its reason with the
  -- host as it was; through the guarded write, where the key is a severing one; or as a paired write
  -- of a key that is none, and shapes no motion on a running stack.
  pub data Written (k text : Str) (w : World) : Ending Answer × World → Type 0 where
    read_only : (m : Str) → class_of k ≡ unknown → Written k text w (returned (answer false m), w)
    invalid :
        (m : Str)
        → validated texts configs k text ≡ refusal m
        → Written k text w (returned (answer false m), w)
    in_motion :
        (m : Str)
        → class_of k ≡ motion
        → w.stack_up ≡ true
        → Written k text w (returned (answer false m), w)
    guarded :
        (v : Str)
        → class_of k ≡ severing
        → validated texts configs k text ≡ value v
        → IsValue v
        → Written k text w (write_severing codec writer k v w)
    paired :
        (v : Str) (klass : Class)
        → class_of k ≡ klass
        → writable klass ≡ true
        → (klass ≡ severing → ⊥)
        → (klass ≡ motion → w.stack_up ≡ false)
        → validated texts configs k text ≡ value v
        → IsValue v
        → Written k text w (written texts codec writer configs recreate klass k v w)

  module _ (configs-IsValue : All IsValue configs)
      (address_ok : (s a : Str) → texts.address_of s ≡ some a → contains 37 s ≡ false → IsValue a)
      (float_ok : (s : Str) (x : F) → IsTrimmed s → texts.float_of s ≡ some x → IsLine s) where
    write_classed-Written :
        (klass : Class) (k text v : Str) (w : World)
        → class_of k ≡ klass
        → writable klass ≡ true
        → validated texts configs k text ≡ value v
        → IsValue v
        → Written k text w (write_classed texts codec writer configs recreate klass k v w)
    unfolding write_classed writable
    write_classed-Written severing k text v w e g r h = guarded v e r h
    write_classed-Written motion k text v w e g r h = by_stack w.stack_up refl
      where
        by_stack :
            (b : Bool)
            → w.stack_up ≡ b
            → Written k text w (
                (if b
                  then (pure (
                        answer false
                          (k ++ codes " shapes motion and the stack is up; take it down first")))
                      w
                  else written texts codec writer configs recreate motion k v w))
        by_stack true up = in_motion _ e up
        by_stack false down = paired v motion e g (λ c. cc) (λ _. down) r h
    write_classed-Written tuning k text v w e g r h = paired v tuning e g (λ c. cc) (λ c. cc) r h
    write_classed-Written mode k text v w e g r h = paired v mode e g (λ c. cc) (λ c. cc) r h
    write_classed-Written unknown k text v w e g r h = cc

    -- An address with a scope, behind a percent sign, is excepted.
    abbrev Unscoped : Str → Str → Type 0
    Unscoped k text = str_eq k peer_key ≡ true → contains 37 (strip text) ≡ false

    write_validated-Written :
        (klass : Class) (k text : Str) (w : World)
        → class_of k ≡ klass
        → writable klass ≡ true
        → Unscoped k text
        → Written k text w (
            write_validated texts codec writer configs recreate klass k
              (validated texts configs k text)
              w)
    write_validated-Written klass k text w e g unscoped =
        by_value (validated texts configs k text) refl
      where
        by_value :
            (r : Validated)
            → validated texts configs k text ≡ r
            → Written k text w (write_validated texts codec writer configs recreate klass k r w)
        by_value (refusal m) q = invalid m q
        by_value (value v) q = write_classed-Written klass k text v w e g q (
            validated-IsValue texts configs configs-IsValue address_ok float_ok k text v unscoped q)

    write_key-Written :
        (klass : Class) (k text : Str) (w : World)
        → class_of k ≡ klass
        → Unscoped k text
        → Written k text w (write_key texts codec writer configs recreate klass k text w)
    unfolding write_key writable
    write_key-Written unknown k text w e u = read_only _ e
    write_key-Written severing k text w e u = write_validated-Written severing k text w e refl u
    write_key-Written motion k text w e u = write_validated-Written motion k text w e refl u
    write_key-Written tuning k text w e u = write_validated-Written tuning k text w e refl u
    write_key-Written mode k text w e u = write_validated-Written mode k text w e refl u

    -- Where the robot's own configs are values that an env file can hold, an address without a
    -- percent sign prints as one, `float` reads no text with a line break inside, and a value for
    -- the peer's address has no percent sign, `config_write` does one of three things. It leaves
    -- the host alone and refuses: a key that has no class, a value that does not validate, or a
    -- key that shapes motion on a running stack. For a severing key it is the guarded write of the
    -- validated value. For a key of another class it is the paired write of the validated value
    -- and what applies that class, where a key that shapes motion finds the stack down. The value
    -- written is trimmed and on one line.
    pub config_write-Written :
        (key text : Str) (w : World)
        → (str_eq (key_in_file key) peer_key ≡ true → contains 37 (strip text) ≡ false)
        → Written
            (key_in_file key)
            text
            w
            (config_write texts codec writer configs recreate key text w)
    unfolding config_write
    config_write-Written key text w = by_name (str_eq key mode_alias)
      where
        by_name :
            (b : Bool)
            → Unscoped (if b then mode_key else key) text
            → Written (if b then mode_key else key) text w (
                (if b
                    then write_key texts codec writer configs recreate
                        (class_of mode_key)
                        mode_key
                        text
                    else write_key texts codec writer configs recreate (class_of key) key text)
                  w)
        by_name true u = write_key-Written (class_of mode_key) mode_key text w refl u
        by_name false u = write_key-Written (class_of key) key text w refl u
