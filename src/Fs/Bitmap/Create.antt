-- ===== src/Fs/Bitmap/Create.antt =====
-- `bitmap_create` makes a bitmap of free blocks.
use native.Mathlib.Nat.{pow-suc}
use os_labs.Common.{
  ℕ, zero, suc, ◌+◌, ◌-◌, ◌*◌, ◌/◌, ◌%◌, ◌^◌, ◌≤◌, ◌<◌, ◌≡◌, ◌≢◌, refl, ap, ◌∙◌, true, false, not,
  ◌⊎◌, inl, inr, arith, none, some, [], ◌∷◌, ◌==◌, ==_iff, ==→ne, ==_ne, ==_refl, if_true, if_false,
  Bool-cases, ok, lt→ltb, write_at, write_at-same, write_at-other, write_at_keeps, bit_xor, has_bit,
  xor-flips, xor-others, xor-bound,
}
use os_labs.Fs.Bitmap.{
  Bitmap, mark_leftover, filled, mark_last, initial_words, words_of, create_words, bitmap_create,
}
use os_labs.Fs.Bitmap.Alloc.{free, IsValid}

pow_positive : (n : ℕ) → 1 ≤ 2 ^ n
pow_positive zero = omega arith
pow_positive (suc n) = omega (arith, pow-suc 2 n, pow_positive n)

half_ones : (n : ℕ) → (2 ^ suc n - 1) / 2 ≡ 2 ^ n - 1
half_ones n = omega (arith, pow-suc 2 n, pow_positive n)

odd_ones : (n : ℕ) → (2 ^ suc n - 1) % 2 ≡ 1
odd_ones n = omega (arith, pow-suc 2 n, pow_positive n)

-- Every bit of 0xFF..FF is set.
has_bit-ones : (n k : ℕ) → k < n → has_bit k (2 ^ n - 1) ≡ true
has_bit-ones zero k h = absurd (omega arith)
has_bit-ones (suc n) zero h = rw (odd_ones n) refl
has_bit-ones (suc n) (suc k) h = rw (half_ones n) (has_bit-ones n k (omega arith))

-- The loop leaves the bits before `overbits` alone,
mark-before :
    (count overbits word j : ℕ)
    → j < overbits
    → has_bit j (mark_leftover count overbits word) ≡ has_bit j word
unfolding mark_leftover
mark-before zero overbits word j h = refl
mark-before (suc count) overbits word j h =
    mark-before count (suc overbits) (bit_xor word (2 ^ overbits)) j (omega arith)
    ∙ xor-others overbits j word (omega arith)

-- and flips the others up to its end.
mark-from :
    (count overbits word j : ℕ)
    → overbits ≤ j
    → j < overbits + count
    → has_bit j (mark_leftover count overbits word) ≡ not (has_bit j word)
unfolding mark_leftover
mark-from zero overbits word j p q = absurd (omega arith)
mark-from (suc count) overbits word j p q = elim (Bool-cases (j == overbits)) [
  | inl e ↦
      let w : j ≡ overbits = (==_iff j overbits).0 e in
      rw w (
        mark-before count (suc overbits) (bit_xor word (2 ^ overbits)) overbits (omega arith)
        ∙ xor-flips overbits word)
  | inr e ↦
      let w : j ≢ overbits = ==→ne j overbits e in
      mark-from count (suc overbits) (bit_xor word (2 ^ overbits)) j (omega (arith, w))
        (omega arith)
      ∙ ap not (xor-others overbits j word w)
]

mark-bound :
    (count overbits word : ℕ)
    → overbits + count ≤ 32
    → word < 2 ^ 32
    → mark_leftover count overbits word < 2 ^ 32
unfolding mark_leftover
mark-bound zero overbits word h p = p
mark-bound (suc count) overbits word h p =
    mark-bound count (suc overbits) (bit_xor word (2 ^ overbits)) (omega arith)
      (xor-bound 32 overbits word (omega arith) p)

-- The words are right for `nbits` blocks, all free.
abbrev Fresh : ℕ → (ℕ → ℕ) → Type 0
Fresh nbits ws =
    ((i : ℕ) → i < words_of nbits → ws i < 2 ^ 32)
    × ((i : ℕ) → i < nbits → has_bit (i % 32) (ws (i / 32)) ≡ true)
    × ((i : ℕ) → nbits ≤ i → i < words_of nbits * 32 → has_bit (i % 32) (ws (i / 32)) ≡ false)

filled-inside : (n i : ℕ) (old : ℕ → ℕ) → i < n → filled n old i ≡ 2 ^ 32 - 1
unfolding filled
filled-inside n i old h = rw (lt→ltb i n h) refl

filled-bound : (n i : ℕ) (old : ℕ → ℕ) → i < n → filled n old i < 2 ^ 32
filled-bound n i old h = rw (filled-inside n i old h) (omega arith)

module _ (nbits : ℕ) (old : ℕ → ℕ) (positive : 0 < nbits) where
  filled-free :
      (i : ℕ)
      → i / 32 < words_of nbits
      → has_bit (i % 32) (filled (words_of nbits) old (i / 32)) ≡ true
  filled-free i h =
      rw (filled-inside (words_of nbits) (i / 32) old h) (has_bit-ones 32 (i % 32) (omega arith))

  -- No bit is left over.
  filled-Fresh : nbits ≡ words_of nbits * 32 → Fresh nbits (filled (words_of nbits) old)
  filled-Fresh e = (
    λ i h. filled-bound (words_of nbits) i old h,
    λ i h. filled-free i (omega (arith, e)),
    λ i p q. absurd (omega (arith, e)),
  )

  abbrev full : ℕ → ℕ
  full = filled (words_of nbits) old

  marked : ℕ → ℕ
  marked =
      write_at full (nbits / 32) (mark_leftover (32 - nbits % 32) (nbits % 32) (full (nbits / 32)))

  marked-same :
      (i : ℕ)
      → i / 32 ≡ nbits / 32
      → has_bit (i % 32) (marked (i / 32))
        ≡ has_bit (i % 32) (mark_leftover (32 - nbits % 32) (nbits % 32) (full (i / 32)))
  unfolding marked
  marked-same i w =
      rw
        (
          w,
          write_at-same full (nbits / 32)
              (mark_leftover (32 - nbits % 32) (nbits % 32) (full (nbits / 32))),
        )
        refl

  module _ (part : nbits ≢ words_of nbits * 32) where
    marked-free : (i : ℕ) → i < nbits → has_bit (i % 32) (marked (i / 32)) ≡ true
    unfolding words_of marked
    marked-free i h = elim (Bool-cases (i / 32 == nbits / 32)) [
      | inl e ↦
          let w : i / 32 ≡ nbits / 32 = (==_iff (i / 32) (nbits / 32)).0 e in
          marked-same i w
          ∙ mark-before (32 - nbits % 32) (nbits % 32) (full (i / 32)) (i % 32) (omega (arith, w))
          ∙ filled-free i (omega arith)
      | inr e ↦
          rw
            (write_at-other full (nbits / 32)
              (mark_leftover (32 - nbits % 32) (nbits % 32) (full (nbits / 32))) (i / 32)
              (==→ne _ _ e))
            (filled-free i (omega arith))
    ]

    marked-clear :
        (i : ℕ) → nbits ≤ i → i < words_of nbits * 32 → has_bit (i % 32) (marked (i / 32)) ≡ false
    unfolding words_of
    marked-clear i p q =
        let w : i / 32 ≡ nbits / 32 = omega (arith, part) in
        marked-same i w
        ∙ mark-from (32 - nbits % 32) (nbits % 32) (full (i / 32)) (i % 32) (omega (arith, w))
            (omega arith)
        ∙ ap not (filled-free i (omega arith))

    marked-bound : (i : ℕ) → i < words_of nbits → marked i < 2 ^ 32
    unfolding words_of marked
    marked-bound i h =
        write_at_keeps (λ c v. v < 2 ^ 32) full (nbits / 32) _ i
          (mark-bound (32 - nbits % 32) (nbits % 32) (full (nbits / 32)) (omega arith)
            (filled-bound _ (nbits / 32) old (omega (arith, part))))
          (filled-bound _ i old h)

    last_word : words_of nbits - 1 ≡ nbits / 32
    unfolding words_of
    last_word = omega (arith, part)

    last_bits : nbits - (words_of nbits - 1) * 32 ≡ nbits % 32
    last_bits = rw last_word (omega arith)

    some_bits : 0 < nbits % 32
    unfolding words_of
    some_bits = omega (arith, part)

  mark_last-ok :
      (nbits == words_of nbits * 32) ≡ false
      → (ws : ℕ → ℕ) × (mark_last nbits
            (words_of nbits - 1)
            (nbits - (words_of nbits - 1) * 32)
            (filled (words_of nbits) old)
          ≡ ok ws)
        × Fresh nbits ws
  unfolding mark_last marked
  mark_last-ok e =
      let part = ==→ne nbits (words_of nbits * 32) e in
      (
        marked,
        rw
            (
              last_bits part,
              last_word part,
              ==_refl (nbits / 32),
              lt→ltb 0 (nbits % 32) (some_bits part),
              lt→ltb (nbits % 32) 32 (omega arith),
            )
            refl,
        (marked-bound part, marked-free part, marked-clear part),
      )

  initial_words-ok :
      (ws : ℕ → ℕ) × (initial_words nbits (words_of nbits) old ≡ ok ws) × Fresh nbits ws
  unfolding initial_words
  initial_words-ok = elim (Bool-cases (nbits == words_of nbits * 32)) [
    | inl e ↦ (_, if_true _ _ e, filled-Fresh ((==_iff nbits (words_of nbits * 32)).0 e))
    | inr e ↦ let (ws, q, f) = mark_last-ok e in (ws, if_false _ _ e ∙ q, f)
  ]

  created :
      (bitmap map : ℕ)
      → nbits < 2 ^ 32
      → (b : Bitmap) × (create_words nbits bitmap (suc map) old
          ≡ ok (record { bitmap = some b; freed = [] }))
        × (b.nbits ≡ nbits)
        × IsValid b
        × ((i : ℕ) → i < nbits → free b i ≡ true)
  unfolding create_words words_of
  created bitmap map h =
      let (ws, q, f) = initial_words-ok in
      (
        record { nbits = nbits; nwords = words_of nbits; words = ws },
        rw q refl,
        refl,
        (h, omega arith, f.0, f.2),
        f.1,
      )

-- `bitmap_create` for the results `bitmap` and `map` of kmalloc.
abbrev pub CreateOutcome : ℕ → ℕ → ℕ → (ℕ → ℕ) → Type 0
CreateOutcome nbits bitmap map old =
    ((bitmap ≡ 0)
      × (bitmap_create nbits bitmap map old ≡ ok (record { bitmap = none; freed = [] })))
    ⊎ ((bitmap ≢ 0)
        × (map ≡ 0)
        × (bitmap_create nbits bitmap map old ≡ ok (record { bitmap = none; freed = bitmap ∷ [] })))
    ⊎ ((bitmap ≢ 0)
        × (map ≢ 0)
        × ((b : Bitmap) × (bitmap_create nbits bitmap map old
              ≡ ok (record { bitmap = some b; freed = [] }))
            × (b.nbits ≡ nbits)
            × IsValid b
            × ((i : ℕ) → i < nbits → free b i ≡ true)))

module _ (nbits : ℕ) (old : ℕ → ℕ) (positive : 0 < nbits) (small : nbits < 2 ^ 32) where
  zero_test : (nbits == 0) ≡ false
  zero_test = ==_ne nbits 0 (omega arith)

  with_struct :
      (bitmap map : ℕ)
      → bitmap ≢ 0
      → bitmap_create nbits bitmap map old ≡ create_words nbits bitmap map old
  unfolding bitmap_create
  with_struct bitmap map h =
      rw (zero_test, lt→ltb nbits (nbits + 32) (omega arith), ==_ne bitmap 0 h) refl

  create-cases : (bitmap map : ℕ) → bitmap ≢ 0 → CreateOutcome nbits bitmap map old
  unfolding create_words
  create-cases bitmap zero h = inr (inl (h, refl, with_struct bitmap 0 h))
  create-cases bitmap (suc map) h =
      let (b, q, n, v, on) = created nbits old positive bitmap map small in
      inr (inr (h, omega arith, (b, with_struct bitmap (suc map) h ∙ q, n, v, on)))

  -- For a number of blocks that is positive and fits a `uint32_t`, `bitmap_create` fails no
  -- assertion. It gives NULL if a kmalloc fails, and then frees the structure if that was allocated;
  -- else it gives a well-formed bitmap in which every block is free.
  pub bitmap_create-CreateOutcome : (bitmap map : ℕ) → CreateOutcome nbits bitmap map old
  unfolding bitmap_create
  bitmap_create-CreateOutcome zero map =
      inl (refl, rw (zero_test, lt→ltb nbits (nbits + 32) (omega arith)) refl)
  bitmap_create-CreateOutcome (suc bitmap) map = create-cases (suc bitmap) map (omega arith)
