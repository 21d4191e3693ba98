-- ===== src/Cdr/Layout.antt =====
-- src/fm_robot_agent/cdr.py: where the writer puts a value, and that a reader finds it there.
use fm_robot_agent.Prelude.{
  ◌≡◌, refl, sym, ap, ◌∙◌, ℕ, zero, suc, ◌+◌, ◌-◌, ◌%◌, ◌^◌, ◌≤◌, ◌<◌, some, [], ◌∷◌, ◌++◌, length,
  append_assoc, append-nil, replicate, length-append, length-replicate, arith,
}
use fm_robot_agent.Cdr.{Bytes, ◌>>=◌, align, word}
use fm_robot_agent.Cdr.Reader.{gap, take_bytes, skip, number_of}

pub take_bytes-append :
    (xs rest : Bytes) (o : ℕ)
    → take_bytes (length xs) (o, xs ++ rest) ≡ some (xs, (o + length xs, rest))
unfolding take_bytes
take_bytes-append [] rest o = ap (λ k. some ([], (k, rest))) (omega arith)
take_bytes-append (x ∷ xs) rest o =
    ap (λ r. r >>= λ t. some (x ∷ t.0, t.1)) (take_bytes-append xs rest (suc o))
    ∙ ap (λ k. some (x ∷ xs, (k, rest))) (omega arith)

-- The writer's padding is the gap that a reader skips.
abbrev pub Padded : ℕ → Bytes → Type 0
Padded size body = (p : Bytes) × (align size body ≡ body ++ p) × (length p ≡ gap size (length body))

pub align4-Padded : (body : Bytes) → Padded 4 body
unfolding align gap
align4-Padded body = go (length body % 4) refl
  where
    go :
        (r : ℕ)
        → length body % 4 ≡ r
        → (p : Bytes) × ((elim r [ zero ↦ body | suc r ↦ body ++ replicate (4 - suc r) 0 ])
            ≡ body ++ p)
          × (length p ≡ (4 - length body % 4) % 4)
    go zero e = ([], sym (append-nil body), omega (arith, e))
    go (suc r) e =
        (replicate (4 - suc r) 0, refl, length-replicate (4 - suc r) 0 ∙ omega (arith, e))

pub align8-Padded : (body : Bytes) → Padded 8 body
unfolding align gap
align8-Padded body = go (length body % 8) refl
  where
    go :
        (r : ℕ)
        → length body % 8 ≡ r
        → (p : Bytes) × ((elim r [ zero ↦ body | suc r ↦ body ++ replicate (8 - suc r) 0 ])
            ≡ body ++ p)
          × (length p ≡ (8 - length body % 8) % 8)
    go zero e = ([], sym (append-nil body), omega (arith, e))
    go (suc r) e =
        (replicate (8 - suc r) 0, refl, length-replicate (8 - suc r) 0 ∙ omega (arith, e))

pub number_of-word : (n : ℕ) → n < 2 ^ 32 → number_of (word n) ≡ n
unfolding number_of word
number_of-word n h = omega (arith, h)

-- A reader that skips to the alignment and takes the bytes written there.
pub skip_then_take :
    (size : ℕ) (body p c rest : Bytes)
    → length p ≡ gap size (length body)
    → (skip size (length body, (p ++ c) ++ rest) >>= λ input. take_bytes (length c) input)
      ≡ some (c, (length (body ++ (p ++ c)), rest))
unfolding skip
skip_then_take size body p c rest h =
    ap
      (λ bytes.
        (take_bytes (gap size (length body)) (length body, bytes) >>= λ t. some t.1) >>= λ input.
        take_bytes (length c) input)
      (append_assoc p c rest)
    ∙ ap
        (λ n. (take_bytes n (length body, p ++ (c ++ rest)) >>= λ t. some t.1) >>= λ input.
          take_bytes (length c) input)
        (sym h)
    ∙ ap (λ r. (r >>= λ t. some t.1) >>= λ input. take_bytes (length c) input)
        (take_bytes-append p (c ++ rest) (length body))
    ∙ take_bytes-append c rest (length body + length p)
    ∙ ap (λ k. some (c, (k, rest))) (omega (arith, length-append body (p ++ c), length-append p c))

-- After `align` to 4 or to 8 the length of the body is a multiple of it, no less than before, and
-- less than that much more.
pub align-Aligned :
    (body : Bytes)
    → (length (align 4 body) % 4 ≡ 0)
      × (length body ≤ length (align 4 body))
      × (length (align 4 body) < length body + 4)
      × (length (align 8 body) % 8 ≡ 0)
      × (length body ≤ length (align 8 body))
      × (length (align 8 body) < length body + 8)
unfolding gap
align-Aligned body =
    let (p, e, h) = align4-Padded body in
    let (q, f, k) = align8-Padded body in
    let four : length (align 4 body) ≡ length body + (4 - length body % 4) % 4 =
      ap length e ∙ length-append body p ∙ ap (λ n. length body + n) h in
    let eight : length (align 8 body) ≡ length body + (8 - length body % 8) % 8 =
      ap length f ∙ length-append body q ∙ ap (λ n. length body + n) k in
    (
      omega (arith, four),
      omega (arith, four),
      omega (arith, four),
      omega (arith, eight),
      omega (arith, eight),
      omega (arith, eight),
    )
