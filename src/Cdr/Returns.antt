-- ===== src/Cdr/Returns.antt =====
-- src/fm_robot_agent/cdr.py: when a message is written.
use fm_robot_agent.Prelude.{
  ◌≡◌, refl, ap, ◌∙◌, ℕ, suc, ◌+◌, ◌-◌, ◌<◌, ◌^◌, true, Option, none, some, List, [], ◌∷◌, ◌++◌,
  length, ltb, arith, if◌then◌else◌, All,
}
use fm_robot_agent.Int.{ℤ, pos, negsuc}
use fm_robot_agent.Text.{Str}
use fm_robot_agent.Cdr.{
  Bytes, ◌>>=◌, align, pack_uint32, pack_int32, write_uint32, write_int32, Packing, write_float64,
  write_string, write_each, write_float64_sequence, write_string_sequence, joint_state_body,
  joint_state, encapsulation_header, word,
}

-- A number of 32 bits, without and with a sign.
abbrev pub Unsigned32 : ℤ → Type 0
Unsigned32 v = (n : ℕ) × (v ≡ pos n) × (n < 2 ^ 32)

pub data Signed32 : ℤ → Type 0 where
  at_least_zero : (n : ℕ) → n < 2 ^ 31 → Signed32 (pos n)
  below_zero : (n : ℕ) → n < 2 ^ 31 → Signed32 (negsuc n)

-- A text that has an encoding, whose size with the NUL is a number of 32 bits.
abbrev pub Encodable : Packing → Str → Type 0
Encodable packing s =
    (encoded : Bytes) × (packing.encode s ≡ some encoded) × (length encoded + 1 < 2 ^ 32)

-- It writes, whatever was written before.
abbrev Returns : (Bytes → Option Bytes) → Type 0
Returns w = (b : Bytes) → (b' : Bytes) × (w b ≡ some b')

then_Returns : (w w' : Bytes → Option Bytes) → Returns w → Returns w' → Returns (λ b. w b >>= w')
then_Returns w w' h h' b =
    let (b', e) = h b in let (b'', e') = h' b' in (b'', ap (λ o. o >>= w') e ∙ e')

below : (n k : ℕ) → n < k → ltb n k ≡ true
below n k h = ground arith

packed_Returns :
    (size : ℕ) (o : Option Bytes) (bytes : Bytes)
    → o ≡ some bytes
    → Returns (λ b. o >>= λ x. some (align size b ++ x))
packed_Returns size o bytes e b =
    (align size b ++ bytes, ap (λ o. o >>= λ x. some (align size b ++ x)) e)

write_uint32-Returns : (v : ℤ) → Unsigned32 v → Returns (write_uint32 v)
unfolding write_uint32 pack_uint32
write_uint32-Returns v (n, e, h) =
    packed_Returns 4 (pack_uint32 v) (word n)
      (ap pack_uint32 e ∙ ap (λ b. if b then some (word n) else none) (below n (2 ^ 32) h))

write_int32-Returns : (v : ℤ) → Signed32 v → Returns (write_int32 v)
unfolding write_int32 pack_int32
write_int32-Returns _ (at_least_zero n h) =
    packed_Returns 4 (pack_int32 (pos n)) _
      (ap (λ b. if b then some (word n) else none) (below n (2 ^ 31) h))
write_int32-Returns _ (below_zero n h) =
    packed_Returns 4 (pack_int32 (negsuc n)) _
      (ap (λ b. if b then some (word (2 ^ 32 - suc n)) else none) (below n (2 ^ 31) h))

module _ (packing : Packing) where
  open packing use {F}

  write_string-Returns : (s : Str) → Encodable packing s → Returns (write_string packing s)
  unfolding write_string
  write_string-Returns s (encoded, e, h) b =
      let (b', e') =
        write_uint32-Returns (pos (length encoded + 1)) (length encoded + 1, refl, h) b in
      (
        b' ++ encoded ++ 0 ∷ [],
        ap
              (λ o. o >>= λ encoded. write_uint32 (pos (length encoded + 1)) b >>= λ body.
                some (body ++ encoded ++ 0 ∷ []))
              e
            ∙ ap (λ o. o >>= λ body. some (body ++ encoded ++ 0 ∷ [])) e',
      )

  write_each-Returns :
      {A : Type 0} (write : A → Bytes → Option Bytes) (values : List A)
      → All (λ value. Returns (write value)) values
      → Returns (write_each packing write values)
  unfolding write_each
  write_each-Returns write [] h = λ b. (b, refl)
  write_each-Returns write (value ∷ values) h =
      then_Returns (write value) (write_each packing write values) (h.0)
        (write_each-Returns write values (h.1))

  write_string_sequence-Returns :
      (values : List Str)
      → length values < 2 ^ 32
      → All (Encodable packing) values
      → Returns (write_string_sequence packing values)
  unfolding write_string_sequence
  write_string_sequence-Returns values h es =
      then_Returns (write_uint32 (pos (length values))) _
        (write_uint32-Returns _ (length values, refl, h))
        (write_each-Returns (write_string packing) values (encoded values es))
    where
      encoded :
          (values : List Str)
          → All (Encodable packing) values
          → All (λ s. Returns (write_string packing s)) values
      encoded [] h = h
      encoded (s ∷ values) h = (write_string-Returns s (h.0), encoded values (h.1))

  write_float64_sequence-Returns :
      (values : List F) → length values < 2 ^ 32 → Returns (write_float64_sequence packing values)
  unfolding write_float64_sequence write_float64
  write_float64_sequence-Returns values h =
      then_Returns (write_uint32 (pos (length values))) _
        (write_uint32-Returns _ (length values, refl, h))
        (write_each-Returns (write_float64 packing) values (written values))
    where
      written : (values : List F) → All (λ x. Returns (write_float64 packing x)) values
      written [] = tt
      written (x ∷ values) = (λ b. (_, refl), written values)

  -- Where the seconds and the nanoseconds of the stamp are numbers of 32 bits, with and without a
  -- sign, every text has an encoding whose size with its NUL is below 2 ^ 32, and so are the
  -- lengths of the four sequences, a message is written.
  pub joint_state-Returns :
      (stamp_s : F) (names : List Str) (positions velocities efforts : List F) (frame_id : Str)
      → Signed32 (packing.whole stamp_s)
      → Unsigned32 (packing.nanoseconds stamp_s)
      → Encodable packing frame_id
      → All (Encodable packing) names
      → length names < 2 ^ 32
      → length positions < 2 ^ 32
      → length velocities < 2 ^ 32
      → length efforts < 2 ^ 32
      → (bytes : Bytes) × (joint_state packing stamp_s names positions velocities efforts frame_id
          ≡ some bytes)
  unfolding joint_state joint_state_body
  joint_state-Returns stamp_s names positions velocities efforts frame_id hs hn hf hns ln lp lv le =
      let (body, e) =
        then_Returns (write_int32 (packing.whole stamp_s)) _ (write_int32-Returns _ hs)
          (then_Returns (write_uint32 (packing.nanoseconds stamp_s)) _ (write_uint32-Returns _ hn) (
            then_Returns (write_string packing frame_id) _ (write_string-Returns frame_id hf) (
              then_Returns (write_string_sequence packing names) _
                (write_string_sequence-Returns names ln hns)
                (then_Returns (write_float64_sequence packing positions) _
                  (write_float64_sequence-Returns positions lp)
                  (then_Returns (write_float64_sequence packing velocities) _
                    (write_float64_sequence-Returns velocities lv)
                    (write_float64_sequence-Returns efforts le))))))
          [] in
      (encapsulation_header ++ body, ap (λ o. o >>= λ body. some (encapsulation_header ++ body)) e)
