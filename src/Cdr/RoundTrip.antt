-- ===== src/Cdr/RoundTrip.antt =====
-- src/fm_robot_agent/cdr.py: a reader of the format gets back what was written.
use fm_robot_agent.Prelude.{
  some_injective, ◌≡◌, refl, sym, ap, ◌∙◌, ℕ, suc, ◌+◌, Option, none, some, List, [], ◌∷◌, ◌++◌,
  length, append_assoc, append-nil, length-append, arith, ◌==◌, if◌then◌else◌,
}
use fm_robot_agent.Int.{pos, pos_part}
use fm_robot_agent.Text.{Str, str_eq}
use fm_robot_agent.Cdr.{
  Bytes, ◌>>=◌, write_uint32, write_int32, Packing, write_float64, write_string, write_each,
  write_float64_sequence, write_string_sequence, joint_state_body, joint_state,
  encapsulation_header,
}
use fm_robot_agent.Cdr.Layout.{take_bytes-append, align8-Padded}
use fm_robot_agent.Cdr.Reader.{
  Input, take_bytes, number_of, read_uint32, read_int32, read_each, read_sequence, read_float64,
  read_text, read_string, Message, read_body, at_end, read_message,
}
use fm_robot_agent.Cdr.Writes.{
  Writes, nothing_more, followed_by, mapped, aligned_Writes, write_uint32-Writes,
  write_int32-Writes,
}

module _ (packing : Packing) (float_of : Bytes → packing.F) (decode : Bytes → Str) where
  open packing use {F}

  -- What the reader is expected to find.
  abbrev pub message : F → List Str → List F → List F → List F → Str → Message float_of decode
  message stamp_s names positions velocities efforts frame_id = record {
    seconds = packing.whole stamp_s;
    nanos = pos_part (packing.nanoseconds stamp_s);
    frame_id = frame_id;
    names = names;
    positions = positions;
    velocities = velocities;
    efforts = efforts;
  }

module _ (packing : Packing) (float_of : Bytes → packing.F) (decode : Bytes → Str)
    (float_size : (x : packing.F) → length (packing.float_bytes x) ≡ 8)
    (float_back : (x : packing.F) → float_of (packing.float_bytes x) ≡ x)
    (text_back : (s : Str) (encoded : Bytes)
      → packing.encode s ≡ some encoded
      → decode encoded ≡ s) where
  open packing use {F}

  write_float64-Writes : (x : F) → Writes (write_float64 packing x) (read_float64 float_of decode) x
  unfolding write_float64 read_float64
  write_float64-Writes x =
      aligned_Writes 8 align8-Padded (some (packing.float_bytes x)) 8 float_of x (λ bytes e. (
        ap length (sym (some_injective e)) ∙ float_size x,
        ap float_of (sym (some_injective e)) ∙ float_back x,
      ))

  read_text_lem :
      (s : Str) (encoded : Bytes)
      → decode encoded ≡ s
      → (o : ℕ) (rest : Bytes)
      → read_text float_of decode (suc (length encoded)) (o, (encoded ++ 0 ∷ []) ++ rest)
        ≡ some (s, (suc (o + length encoded), rest))
  unfolding read_text take_bytes number_of
  read_text_lem s encoded e o rest =
      ap (λ x. take_bytes (length encoded) (o, x) >>= ended) (append_assoc encoded (0 ∷ []) rest)
      ∙ ap (λ r. r >>= ended) (take_bytes-append encoded (0 ∷ rest) o)
      ∙ ap (λ x. some (x, (suc (o + length encoded), rest))) e
    where
      ended : Bytes × Input → Option (Str × Input)
      ended t = take_bytes 1 t.1 >>= λ nul.
          if number_of nul.0 == 0 then some (decode t.0, nul.1) else none

  text_Writes :
      (s : Str) (encoded : Bytes)
      → decode encoded ≡ s
      → Writes
          (λ body. some (body ++ encoded ++ 0 ∷ []))
          (read_text float_of decode (length encoded + 1))
          s
  text_Writes s encoded e b b' e' = (
    encoded ++ 0 ∷ [],
    sym (some_injective e') ∙ append_assoc b encoded (0 ∷ []),
    λ rest.
        ap (λ n. read_text float_of decode n (length b, (encoded ++ 0 ∷ []) ++ rest)) (omega arith)
        ∙ read_text_lem s encoded e (length b) rest
        ∙ ap (λ k. some (s, (k, rest)))
            (omega (arith, length-append b encoded, length-append (b ++ encoded) (0 ∷ []))
              ∙ ap length (some_injective e')),
  )

  write_string-Writes : (s : Str) → Writes (write_string packing s) (read_string float_of decode) s
  unfolding write_string read_string
  write_string-Writes s b b' e = go (packing.encode s) refl e
    where
      go :
          (o : Option Bytes)
          → packing.encode s ≡ o
          → (o >>= λ encoded. write_uint32 (pos (length encoded + 1)) b >>= λ body.
              some (body ++ encoded ++ 0 ∷ []))
            ≡ some b'
          → (out : Bytes) × (b' ≡ b ++ out)
            × ((rest : Bytes)
                → read_string float_of decode (length b, out ++ rest) ≡ some (s, (length b', rest)))
      go none e1 e2 = cc
      go (some encoded) e1 e2 =
          followed_by (write_uint32 (pos (length encoded + 1)))
            (λ body. some (body ++ encoded ++ 0 ∷ [])) read_uint32
            (λ t. read_text float_of decode t.0 t.1) (length encoded + 1)
            (write_uint32-Writes (pos (length encoded + 1)))
            (text_Writes s encoded (text_back s encoded e1)) b b' e2

  write_each-Writes :
      {A : Type 0} (write : A → Bytes → Option Bytes) (read : Input → Option (A × Input))
      → ((a : A) → Writes (write a) read a)
      → (values : List A)
      → Writes (write_each packing write values) (read_each read (length values)) values
  unfolding write_each read_each
  write_each-Writes write read h [] = nothing_more []
  write_each-Writes write read h (value ∷ values) =
      followed_by (write value) (write_each packing write values) read _ value (h value) (
        mapped (write_each packing write values) (read_each read (length values))
          (λ rest. value ∷ rest) values (write_each-Writes write read h values))

  sequence_Writes :
      {A : Type 0} (write : A → Bytes → Option Bytes) (read : Input → Option (A × Input))
      → ((a : A) → Writes (write a) read a)
      → (values : List A)
      → Writes
          (λ body. write_uint32 (pos (length values)) body >>= λ body.
            write_each packing write values body)
          (read_sequence read)
          values
  unfolding read_sequence
  sequence_Writes write read h values =
      followed_by (write_uint32 (pos (length values))) (write_each packing write values) read_uint32
        (λ t. read_each read t.0 t.1) (length values) (write_uint32-Writes (pos (length values)))
        (write_each-Writes write read h values)

  joint_state_body-Writes :
      (stamp_s : F) (names : List Str) (positions velocities efforts : List F) (frame_id : Str)
      → Writes
          (λ body. write_int32 (packing.whole stamp_s) body >>= λ body.
            write_uint32 (packing.nanoseconds stamp_s) body >>= λ body.
            write_string packing frame_id body >>= λ body.
            write_string_sequence packing names body >>= λ body.
            write_float64_sequence packing positions body >>= λ body.
            write_float64_sequence packing velocities body >>= λ body.
            write_float64_sequence packing efforts body)
          (read_body float_of decode)
          (message packing float_of decode stamp_s names positions velocities efforts frame_id)
  unfolding read_body write_string_sequence write_float64_sequence
  joint_state_body-Writes stamp_s names positions velocities efforts frame_id =
      followed_by (write_int32 (packing.whole stamp_s)) _ read_int32 _ _
        (write_int32-Writes (packing.whole stamp_s))
        (followed_by (write_uint32 (packing.nanoseconds stamp_s)) _ read_uint32 _ _
          (write_uint32-Writes (packing.nanoseconds stamp_s))
          (followed_by (write_string packing frame_id) _ (read_string float_of decode) _ _
            (write_string-Writes frame_id)
            (followed_by (write_string_sequence packing names) _
              (read_sequence (read_string float_of decode)) _ _
              (sequence_Writes (write_string packing) (read_string float_of decode)
                write_string-Writes names)
              (followed_by (write_float64_sequence packing positions) _
                (read_sequence (read_float64 float_of decode)) _ _
                (sequence_Writes (write_float64 packing) (read_float64 float_of decode)
                  write_float64-Writes positions)
                (followed_by (write_float64_sequence packing velocities) _
                  (read_sequence (read_float64 float_of decode)) _ _
                  (sequence_Writes (write_float64 packing) (read_float64 float_of decode)
                    write_float64-Writes velocities)
                  (mapped (write_float64_sequence packing efforts)
                    (read_sequence (read_float64 float_of decode)) _ efforts
                    (sequence_Writes (write_float64 packing) (read_float64 float_of decode)
                      write_float64-Writes efforts)))))))

  -- For floats of eight bytes that read back, and a decoding of texts that undoes their encoding,
  -- a reader made from the format's description, given a message that `joint_state` has written,
  -- finds its seconds, its nanoseconds, its frame, its names and its three sequences of floats,
  -- and nothing after them.
  pub read_message-joint_state :
      (stamp_s : F) (names : List Str) (positions velocities efforts : List F) (frame_id : Str)
      (bytes : Bytes)
      → joint_state packing stamp_s names positions velocities efforts frame_id ≡ some bytes
      → read_message float_of decode bytes
        ≡ some (message packing float_of decode stamp_s names positions velocities efforts frame_id)
  unfolding joint_state joint_state_body read_message take_bytes str_eq
  read_message-joint_state stamp_s names positions velocities efforts frame_id bytes e =
      go (joint_state_body packing stamp_s names positions velocities efforts frame_id) refl e
    where
      go :
          (o : Option Bytes)
          → joint_state_body packing stamp_s names positions velocities efforts frame_id ≡ o
          → (o >>= λ body. some (encapsulation_header ++ body)) ≡ some bytes
          → read_message float_of decode bytes
            ≡ some (
                message packing float_of decode stamp_s names positions velocities efforts frame_id)
      go none e1 e2 = cc
      go (some body) e1 e2 =
          let (out, eq, reads) =
            joint_state_body-Writes stamp_s names positions velocities efforts frame_id [] body
              e1 in
          ap (read_message float_of decode) (sym (some_injective e2))
          ∙ ap (λ x. read_body float_of decode (0, x) >>= at_end float_of decode)
              (eq ∙ sym (append-nil out))
          ∙ ap (λ o. o >>= at_end float_of decode) (reads [])
