-- ===== src/Tests/Cdr.antt =====
-- A message of one joint, with floats as whole numbers of eight bytes.
use fm_robot_agent.Prelude.{◌≡◌, refl, ℕ, ◌%◌, ◌<◌, ◌≤◌, ◌+◌, some, [], ◌∷◌, length, codes, arith}
use fm_robot_agent.Int.{pos}
use fm_robot_agent.Cdr.{
  Bytes, Packing, joint_state, joint_state_body, write_int32, write_uint32, write_string,
  write_string_sequence, write_float64_sequence, write_float64, write_each, pack_int32, pack_uint32,
  word, align,
}
use fm_robot_agent.Cdr.Reader.{read_message}
use fm_robot_agent.Cdr.Layout.{align-Aligned}
use fm_robot_agent.Cdr.RoundTrip.{message, read_message-joint_state}
use fm_robot_agent.Cdr.Returns.{at_least_zero, joint_state-Returns}

-- Eight bytes whose first is the number.
abbrev digits : Packing
digits = record {
  F = ℕ;
  float_bytes = λ n. n ∷ 0 ∷ 0 ∷ 0 ∷ 0 ∷ 0 ∷ 0 ∷ 0 ∷ [];
  encode = λ s. some s;
  whole = λ n. pos n;
  nanoseconds = λ n. pos 5;
}

abbrev first : Bytes → ℕ
first [] = 0
first (b ∷ bytes) = b

abbrev one_joint : Bytes
one_joint =
    0 ∷ 1 ∷ 0 ∷ 0 ∷ 9 ∷ 0 ∷ 0 ∷ 0 ∷ 5 ∷ 0 ∷ 0 ∷ 0 ∷ 1 ∷ 0 ∷ 0 ∷ 0 ∷ 0 ∷ 0 ∷ 0 ∷ 0 ∷ 1 ∷ 0 ∷ 0 ∷ 0
    ∷ 3 ∷ 0 ∷ 0 ∷ 0 ∷ 106 ∷ 49 ∷ 0 ∷ 0 ∷ 1 ∷ 0 ∷ 0 ∷ 0 ∷ 7 ∷ 0 ∷ 0 ∷ 0 ∷ 0 ∷ 0 ∷ 0 ∷ 0 ∷ 0 ∷ 0 ∷ 0
    ∷ 0 ∷ 0 ∷ 0 ∷ 0 ∷ 0 ∷ []

same : (s encoded : Bytes) → some s ≡ some encoded → encoded ≡ s
same s encoded e = cc

written : joint_state digits 9 (codes "j1" ∷ []) (7 ∷ []) [] [] [] ≡ some one_joint
unfolding joint_state joint_state_body write_int32 write_uint32 write_string write_string_sequence
    write_float64_sequence write_float64 write_each pack_int32 pack_uint32 word align
written = refl

read_message-joint_state_example :
    read_message first (λ s. s) one_joint
    ≡ some (message digits first (λ s. s) 9 (codes "j1" ∷ []) (7 ∷ []) [] [] [])
read_message-joint_state_example =
    read_message-joint_state digits first (λ s. s) (λ x. refl) (λ x. refl) same 9 (codes "j1" ∷ [])
      (7 ∷ []) [] [] [] one_joint written

joint_state-Returns_example :
    (bytes : Bytes) × (joint_state digits 9 (codes "j1" ∷ []) (7 ∷ []) [] [] [] ≡ some bytes)
joint_state-Returns_example =
    joint_state-Returns digits 9 (codes "j1" ∷ []) (7 ∷ []) [] [] [] (at_least_zero 9 (omega arith))
      (5, refl, omega arith) ([], refl, omega arith) ((codes "j1", refl, omega arith), tt)
      (omega arith) (omega arith) (omega arith) (omega arith)

align-Aligned_example :
    (length (align 4 (1 ∷ [])) % 4 ≡ 0)
    × (1 ≤ length (align 4 (1 ∷ [])))
    × (length (align 4 (1 ∷ [])) < 1 + 4)
    × (length (align 8 (1 ∷ [])) % 8 ≡ 0)
    × (1 ≤ length (align 8 (1 ∷ [])))
    × (length (align 8 (1 ∷ [])) < 1 + 8)
align-Aligned_example = align-Aligned (1 ∷ [])
