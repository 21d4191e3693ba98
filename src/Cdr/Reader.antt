-- ===== src/Cdr/Reader.antt =====
-- A reader of the CDR format that src/fm_robot_agent/cdr.py describes, made from the description: what
-- is left of a body, and the offset of its first byte from the body's start.
use fm_robot_agent.Prelude.{
  ℕ, zero, suc, ◌+◌, ◌-◌, ◌*◌, ◌%◌, ◌^◌, Option, none, some, List, [], ◌∷◌, ltb, ◌==◌,
  if◌then◌else◌,
}
use fm_robot_agent.Int.{ℤ, pos, negsuc}
use fm_robot_agent.Text.{Str, str_eq}
use fm_robot_agent.Cdr.{Bytes, ◌>>=◌, encapsulation_header}

abbrev pub Input : Type 0
Input = ℕ × Bytes

-- How many bytes there are to skip before a value of `size` bytes.
unfoldable pub gap : ℕ → ℕ → ℕ
gap size offset = (size - offset % size) % size

unfoldable pub take_bytes : ℕ → Input → Option (Bytes × Input)
take_bytes zero (offset, bytes) = some ([], (offset, bytes))
take_bytes (suc n) (offset, []) = none
take_bytes (suc n) (offset, b ∷ bytes) = do
  (taken, rest) ← take_bytes n (suc offset, bytes)
  some (b ∷ taken, rest)

unfoldable pub skip : ℕ → Input → Option Input
skip size (offset, bytes) = do
  (taken, rest) ← take_bytes (gap size offset) (offset, bytes)
  some rest

unfoldable pub number_of : Bytes → ℕ
number_of [] = 0
number_of (b ∷ bytes) = b + 256 * number_of bytes

unfoldable pub read_uint32 : Input → Option (ℕ × Input)
read_uint32 input = do
  aligned ← skip 4 input
  (bytes, rest) ← take_bytes 4 aligned
  some (number_of bytes, rest)

-- The upper half of the numbers of 32 bits stands for the negative ones.
unfoldable pub signed : ℕ → ℤ
signed n = if ltb n (2 ^ 31) then pos n else negsuc (2 ^ 32 - 1 - n)

unfoldable pub read_int32 : Input → Option (ℤ × Input)
read_int32 input = do
  aligned ← skip 4 input
  (bytes, rest) ← take_bytes 4 aligned
  some (signed (number_of bytes), rest)

unfoldable pub read_each :
    {A : Type 0} → (Input → Option (A × Input)) → ℕ → Input → Option (List A × Input)
read_each read zero input = some ([], input)
read_each read (suc n) input = do
  (value, input) ← read input
  (values, input) ← read_each read n input
  some (value ∷ values, input)

unfoldable pub read_sequence :
    {A : Type 0} → (Input → Option (A × Input)) → Input → Option (List A × Input)
read_sequence read input = do (n, input) ← read_uint32 input; read_each read n input

module _ {F : Type 0} (float_of : Bytes → F) (decode : Bytes → Str) where
  unfoldable pub read_float64 : Input → Option (F × Input)
  read_float64 input = do
    aligned ← skip 8 input
    (bytes, rest) ← take_bytes 8 aligned
    some (float_of bytes, rest)

  -- The bytes of a text and the NUL after them.
  unfoldable pub read_text : ℕ → Input → Option (Str × Input)
  read_text zero input = none
  read_text (suc n) input = do
    (bytes, input) ← take_bytes n input
    (nul, input) ← take_bytes 1 input
    if number_of nul == 0 then some (decode bytes, input) else none

  unfoldable pub read_string : Input → Option (Str × Input)
  read_string input = do (n, input) ← read_uint32 input; read_text n input

  pub record Message : Type 0 where
    pub seconds : ℤ
    pub nanos : ℕ
    pub frame_id : Str
    pub names : List Str
    pub positions : List F
    pub velocities : List F
    pub efforts : List F

  unfoldable pub read_body : Input → Option (Message × Input)
  read_body input = do
    (seconds, input) ← read_int32 input
    (nanos, input) ← read_uint32 input
    (frame_id, input) ← read_string input
    (names, input) ← read_sequence read_string input
    (positions, input) ← read_sequence read_float64 input
    (velocities, input) ← read_sequence read_float64 input
    (efforts, input) ← read_sequence read_float64 input
    some (
      record {
        seconds = seconds;
        nanos = nanos;
        frame_id = frame_id;
        names = names;
        positions = positions;
        velocities = velocities;
        efforts = efforts;
      },
      input,
    )

  abbrev pub at_end : Message × Input → Option Message
  at_end (message, (offset, [])) = some message
  at_end (message, (offset, b ∷ bytes)) = none

  -- A whole message: the header of plain little-endian CDR, a body, and nothing after it.
  unfoldable pub read_message : Bytes → Option Message
  read_message bytes = do
    (header, (offset, body)) ← take_bytes 4 (0, bytes)
    if str_eq header encapsulation_header then read_body (0, body) >>= at_end else none
