-- ===== src/Cdr.antt =====
-- src/fm_robot_agent/cdr.py: a little-endian CDR buffer. The state is the body, a list of bytes; an
-- exception of `struct.pack` or of `str.encode` is `none`, and ends the message.
pub mod Reader
pub mod Layout
pub mod Writes
pub mod RoundTrip
pub mod Returns
use fm_robot_agent.Prelude.{
  ℕ, zero, suc, ◌+◌, ◌-◌, ◌*◌, ◌/◌, ◌%◌, ◌^◌, Bool, true, false, Option, none, some, List, [], ◌∷◌,
  ◌++◌, length, replicate, ltb, if◌then◌else◌,
}
use fm_robot_agent.Int.{ℤ, pos, negsuc}
use fm_robot_agent.Text.{Str}

-- `struct.pack("<d", …)`, `str.encode("utf-8")` and `int(…)` on a float.
pub record Packing : Type 1 where
  pub F : Type 0
  pub float_bytes : F → List ℕ
  pub encode : Str → Option (List ℕ)
  pub whole : F → ℤ
  pub nanoseconds : F → ℤ

abbrev pub Bytes : Type 0
Bytes = List ℕ

infixl 5 ◌>>=◌
abbrev pub ◌>>=◌ : {A B : Type 0} → Option A → (A → Option B) → Option B
none >>= f = none
some a >>= f = f a

abbrev pub encapsulation_header : Bytes
encapsulation_header = 0 ∷ 1 ∷ 0 ∷ 0 ∷ []

-- `CDRWriter.align`, counted from the start of the body.
unfoldable pub align : ℕ → Bytes → Bytes
align size body = elim (length body % size) [
  | zero ↦ body
  | suc r ↦ body ++ replicate (size - suc r) 0
]

-- The four bytes of a number below 2 ^ 32.
unfoldable pub word : ℕ → Bytes
word n = n % 256 ∷ n / 256 % 256 ∷ n / 65536 % 256 ∷ n / 16777216 % 256 ∷ []

-- `struct.pack("<I", value)`
unfoldable pub pack_uint32 : ℤ → Option Bytes
unfolding word
pack_uint32 (pos n) = if ltb n (2 ^ 32) then some (word n) else none
pack_uint32 (negsuc n) = none

-- `struct.pack("<i", value)`: a negative number stands as what is missing to 2 ^ 32.
unfoldable pub pack_int32 : ℤ → Option Bytes
unfolding word
pack_int32 (pos n) = if ltb n (2 ^ 31) then some (word n) else none
pack_int32 (negsuc n) = if ltb n (2 ^ 31) then some (word (2 ^ 32 - suc n)) else none

unfoldable pub write_uint32 : ℤ → Bytes → Option Bytes
write_uint32 value body = do bytes ← pack_uint32 value; some (align 4 body ++ bytes)

unfoldable pub write_int32 : ℤ → Bytes → Option Bytes
write_int32 value body = do bytes ← pack_int32 value; some (align 4 body ++ bytes)

module _ (packing : Packing) where
  open packing use {F, float_bytes, encode, whole, nanoseconds}

  unfoldable pub write_float64 : F → Bytes → Option Bytes
  write_float64 value body = some (align 8 body ++ float_bytes value)

  unfoldable pub write_string : Str → Bytes → Option Bytes
  write_string value body = do
    encoded ← encode value
    body ← write_uint32 (pos (length encoded + 1)) body
    some (body ++ encoded ++ 0 ∷ [])

  -- `for value in values: self.write_…(value)`
  unfoldable pub write_each :
      {A : Type 0} → (A → Bytes → Option Bytes) → List A → Bytes → Option Bytes
  write_each write [] body = some body
  write_each write (value ∷ values) body = do body ← write value body; write_each write values body

  unfoldable pub write_float64_sequence : List F → Bytes → Option Bytes
  unfolding write_each
  write_float64_sequence values body = do
    body ← write_uint32 (pos (length values)) body
    write_each write_float64 values body

  unfoldable pub write_string_sequence : List Str → Bytes → Option Bytes
  unfolding write_each
  write_string_sequence values body = do
    body ← write_uint32 (pos (length values)) body
    write_each write_string values body

  -- The body of the message, without the header.
  unfoldable pub joint_state_body : F → List Str → List F → List F → List F → Str → Option Bytes
  joint_state_body stamp_s names positions velocities efforts frame_id = do
    body ← write_int32 (whole stamp_s) []
    body ← write_uint32 (nanoseconds stamp_s) body
    body ← write_string frame_id body
    body ← write_string_sequence names body
    body ← write_float64_sequence positions body
    body ← write_float64_sequence velocities body
    write_float64_sequence efforts body

  unfoldable pub joint_state : F → List Str → List F → List F → List F → Str → Option Bytes
  joint_state stamp_s names positions velocities efforts frame_id = do
    body ← joint_state_body stamp_s names positions velocities efforts frame_id
    some (encapsulation_header ++ body)
