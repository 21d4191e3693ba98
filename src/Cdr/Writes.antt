-- ===== src/Cdr/Writes.antt =====
-- src/fm_robot_agent/cdr.py: writers whose values a reader gets back, and what follows one another.
use fm_robot_agent.Prelude.{
  some_injective, ◌≡◌, refl, sym, ap, ◌∙◌, ℕ, suc, ◌-◌, ◌<◌, ◌^◌, Bool, true, false, Option, none,
  some, [], ◌++◌, length, append_assoc, append-nil, ltb, ltb→lt, arith, if◌then◌else◌,
}
use fm_robot_agent.Int.{ℤ, pos, negsuc, pos_part}
use fm_robot_agent.Cdr.{
  Bytes, ◌>>=◌, align, word, pack_uint32, pack_int32, write_uint32, write_int32,
}
use fm_robot_agent.Cdr.Layout.{Padded, align4-Padded, number_of-word, skip_then_take}
use fm_robot_agent.Cdr.Reader.{Input, take_bytes, skip, number_of, read_uint32, signed, read_int32}

-- What `w` adds to any body, `r` reads back as `a`, whatever follows it.
abbrev pub Writes :
    {A : Type 0} → (Bytes → Option Bytes) → (Input → Option (A × Input)) → A → Type 0
Writes w r a =
    (b b' : Bytes)
    → w b ≡ some b'
    → (out : Bytes) × (b' ≡ b ++ out)
      × ((rest : Bytes) → r (length b, out ++ rest) ≡ some (a, (length b', rest)))

pub nothing_more : {A : Type 0} (a : A) → Writes some (λ input. some (a, input)) a
nothing_more a b b' e = (
  [],
  sym (some_injective e) ∙ sym (append-nil b),
  λ rest. ap (λ k. some (a, (length k, rest))) (some_injective e),
)

module _ {A C : Type 0} where
  pub followed_by :
      (w w' : Bytes → Option Bytes) (r : Input → Option (A × Input))
      (k : A × Input → Option (C × Input)) (a : A) {c : C}
      → Writes w r a
      → Writes w' (λ input. k (a, input)) c
      → Writes (λ b. w b >>= w') (λ input. r input >>= k) c
  followed_by w w' r k a {c} hw hk b b'' e = go (w b) refl e
    where
      go :
          (o : Option Bytes)
          → w b ≡ o
          → (o >>= w') ≡ some b''
          → (out : Bytes) × (b'' ≡ b ++ out)
            × ((rest : Bytes) → (r (length b, out ++ rest) >>= k) ≡ some (c, (length b'', rest)))
      go none e1 e2 = cc
      go (some b') e1 e2 =
          let (out, eq, reads) = hw b b' e1 in
          let (out', eq', reads') = hk b' b'' e2 in
          (
            out ++ out',
            eq' ∙ ap (λ x. x ++ out') eq ∙ append_assoc b out out',
            λ rest.
                ap (λ x. r (length b, x) >>= k) (append_assoc out out' rest)
                ∙ ap (λ x. x >>= k) (reads (out' ++ rest))
                ∙ reads' rest,
          )

pub mapped :
    {A C : Type 0} (w : Bytes → Option Bytes) (r : Input → Option (A × Input)) (f : A → C) (a : A)
    → Writes w r a
    → Writes w (λ input. r input >>= λ t. some (f t.0, t.1)) (f a)
mapped w r f a h b b' e =
    let (out, eq, reads) = h b b' e in
    (out, eq, λ rest. ap (λ o. o >>= λ t. some (f t.0, t.1)) (reads rest))

bind_assoc :
    {A B C : Type 0} (o : Option A) (f : A → Option B) (g : B → Option C)
    → (o >>= λ a. f a >>= g) ≡ (o >>= f) >>= g
bind_assoc none f g = refl
bind_assoc (some a) f g = refl

-- What is packed after the alignment to `size`.
pub aligned_Writes :
    {A : Type 0} (size : ℕ)
    → ((body : Bytes) → Padded size body)
    → (packed : Option Bytes) (n : ℕ) (value : Bytes → A) (a : A)
    → ((bytes : Bytes) → packed ≡ some bytes → (length bytes ≡ n) × (value bytes ≡ a))
    → Writes
        (λ body. packed >>= λ bytes. some (align size body ++ bytes))
        (λ input. skip size input >>= λ i. take_bytes n i >>= λ t. some (value t.0, t.1))
        a
aligned_Writes size pads none n value a h b b' e = cc
aligned_Writes size pads (some bytes) n value a h b b' e =
    let (p, eq, len) = pads b in
    let (n_bytes, is_a) = h bytes refl in
    let whole = sym (some_injective e) ∙ ap (λ x. x ++ bytes) eq ∙ append_assoc b p bytes in
    (
      p ++ bytes,
      whole,
      λ rest.
          ap
            (λ m. skip size (length b, (p ++ bytes) ++ rest) >>= λ i.
              take_bytes m i >>= λ t. some (value t.0, t.1))
            (sym n_bytes)
          ∙ bind_assoc (skip size (length b, (p ++ bytes) ++ rest)) (take_bytes (length bytes))
              (λ t. some (value t.0, t.1))
          ∙ ap (λ o. o >>= λ t. some (value t.0, t.1)) (skip_then_take size b p bytes rest len)
          ∙ ap (λ x. some (x, (length (b ++ (p ++ bytes)), rest))) is_a
          ∙ ap (λ k. some (a, (length k, rest))) (sym whole),
    )

pack_uint32-Packs :
    (v : ℤ) (bytes : Bytes)
    → pack_uint32 v ≡ some bytes
    → (length bytes ≡ 4) × (number_of bytes ≡ pos_part v)
unfolding pack_uint32 word
pack_uint32-Packs (negsuc n) bytes e = cc
pack_uint32-Packs (pos n) bytes e = go (ltb n (2 ^ 32)) refl e
  where
    go :
        (b : Bool)
        → ltb n (2 ^ 32) ≡ b
        → (if b then some (word n) else none) ≡ some bytes
        → (length bytes ≡ 4) × (number_of bytes ≡ n)
    go false h k = cc
    go true h k = (
      ap length (sym (some_injective k)),
      ap number_of (sym (some_injective k)) ∙ number_of-word n (ltb→lt n _ h),
    )

signed_low : (n : ℕ) → n < 2 ^ 31 → signed n ≡ pos n
unfolding signed
signed_low n h = ground arith

signed_high : (n : ℕ) → n < 2 ^ 31 → signed (2 ^ 32 - suc n) ≡ negsuc n
unfolding signed
signed_high n h =
    let above : ltb (2 ^ 32 - suc n) (2 ^ 31) ≡ false = ground arith in
    ap (λ b. if b then pos (2 ^ 32 - suc n) else negsuc (2 ^ 32 - 1 - (2 ^ 32 - suc n))) above
    ∙ ap negsuc (omega arith)

packed_word :
    (bytes : Bytes) (m : ℕ) (v : ℤ) (b : Bool)
    → (b ≡ true → m < 2 ^ 32)
    → (b ≡ true → signed m ≡ v)
    → (if b then some (word m) else none) ≡ some bytes
    → (length bytes ≡ 4) × (signed (number_of bytes) ≡ v)
unfolding word
packed_word bytes m v false h k e = cc
packed_word bytes m v true h k e = (
  ap length (sym (some_injective e)),
  ap (λ x. signed (number_of x)) (sym (some_injective e))
      ∙ ap signed (number_of-word m (h refl))
      ∙ k refl,
)

pack_int32-Packs :
    (v : ℤ) (bytes : Bytes)
    → pack_int32 v ≡ some bytes
    → (length bytes ≡ 4) × (signed (number_of bytes) ≡ v)
unfolding pack_int32
pack_int32-Packs (pos n) bytes e =
    packed_word bytes n (pos n) (ltb n (2 ^ 31)) (λ h. omega (arith, ltb→lt n _ h))
      (λ h. signed_low n (ltb→lt n _ h)) e
pack_int32-Packs (negsuc n) bytes e =
    packed_word bytes (2 ^ 32 - suc n) (negsuc n) (ltb n (2 ^ 31)) (λ h. omega arith)
      (λ h. signed_high n (ltb→lt n _ h)) e

pub write_uint32-Writes : (v : ℤ) → Writes (write_uint32 v) read_uint32 (pos_part v)
unfolding write_uint32 read_uint32
write_uint32-Writes v =
    aligned_Writes 4 align4-Padded (pack_uint32 v) 4 number_of (pos_part v) (pack_uint32-Packs v)

pub write_int32-Writes : (v : ℤ) → Writes (write_int32 v) read_int32 v
unfolding write_int32 read_int32
write_int32-Writes v =
    aligned_Writes 4 align4-Padded (pack_int32 v) 4 (λ bytes. signed (number_of bytes)) v
      (pack_int32-Packs v)
