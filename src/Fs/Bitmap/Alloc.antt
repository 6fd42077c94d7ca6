-- ===== src/Fs/Bitmap/Alloc.antt =====
-- `bitmap_alloc` finds the first free block and takes it.
use mathlib.Core.Bool.{true≢false}
use os_labs.Common.{
  ℕ, zero, suc, ◌+◌, ◌*◌, ◌/◌, ◌%◌, ◌^◌, ◌≤◌, ◌<◌, ◌≡◌, ◌≢◌, refl, sym, ◌∙◌, Bool, true, false, not,
  ◌⊎◌, inl, inr, arith, none, some, ◌==◌, ==_iff, ==→ne, ltb, ltb→lt, ltb→le, if_true, if_false,
  Bool-cases, ok, pos, negsuc, write_at, write_at-same, write_at-other, write_at_keeps, bit_and,
  bit_xor, has_bit, and-has_bit, xor-flips, xor-others, xor-bound, no_bit→zero, has_bit-zero,
}
use os_labs.Fs.Bitmap.{Bitmap, Allocated, scan_bits, take_bit, scan_words, bitmap_alloc}

-- Block `i` is free.
abbrev pub free : Bitmap → ℕ → Bool
free b i = has_bit (i % 32) (b.words (i / 32))

-- The words hold 32 bits each, as many as the bits need, and the bits past the last block are clear.
abbrev pub IsValid : Bitmap → Type 0
IsValid b =
    (b.nbits < 2 ^ 32)
    × (b.nwords ≡ (b.nbits + 31) / 32)
    × ((i : ℕ) → i < b.nwords → b.words i < 2 ^ 32)
    × ((i : ℕ) → b.nbits ≤ i → i < b.nwords * 32 → free b i ≡ false)

-- The first bit that is set, among `count` from `offset` on.
abbrev Found : ℕ → ℕ → ℕ → Type 0
Found count offset word =
    ((k : ℕ) × (scan_bits count offset word ≡ some k)
      × (offset ≤ k)
      × (k < offset + count)
      × (has_bit k word ≡ true)
      × ((j : ℕ) → offset ≤ j → j < k → has_bit j word ≡ false))
    ⊎ ((j : ℕ) → offset ≤ j → j < offset + count → has_bit j word ≡ false)

not-false : (b : Bool) → not b ≡ false → b ≡ true
not-false true h = refl
not-false false h = sym h

not-true : (b : Bool) → not b ≡ true → b ≡ false
not-true true h = sym h
not-true false h = refl

-- `has_bit j` for the first `j`, and for those after it
from_first :
    (word offset : ℕ)
    → has_bit offset word ≡ false
    → (j : ℕ) → ((suc offset ≤ j) → has_bit j word ≡ false)
    → offset ≤ j
    → has_bit j word ≡ false
from_first word offset here j later h = ground arith

scan_bits-Found : (count offset word : ℕ) → Found count offset word
unfolding scan_bits
scan_bits-Found zero offset word = inr (λ j p q. absurd (omega arith))
scan_bits-Found (suc count) offset word = elim (Bool-cases (bit_and word (2 ^ offset) == 0)) [
  | inl e ↦ step e (scan_bits-Found count (suc offset) word)
  | inr e ↦ inl (
    offset,
    if_false _ _ e,
    omega arith,
    omega arith,
    not-false _ (sym (and-has_bit offset word) ∙ e),
    λ j p q. absurd (omega arith),
  )
]
  where
    step :
        (bit_and word (2 ^ offset) == 0) ≡ true
        → Found count (suc offset) word
        → Found (suc count) offset word
    step e (inl (k, q, lo, hi, set, below)) = inl (
      k,
      if_true _ _ e ∙ q,
      omega arith,
      omega arith,
      set,
      λ j p r.
          from_first word offset (not-true _ (sym (and-has_bit offset word) ∙ e)) j
            (λ l. below j l r) p,
    )
    step e (inr clear) = inr (λ j p r.
        from_first word offset (not-true _ (sym (and-has_bit offset word) ∙ e)) j
          (λ l. clear j l (omega arith)) p)

-- The bit of block `i` flipped.
abbrev pub flip : ℕ → Bitmap → Bitmap
flip i b = record b {
  words = write_at b.words (i / 32) (bit_xor (b.words (i / 32)) (2 ^ (i % 32)));
}

pub free-flip_same : (i : ℕ) (b : Bitmap) → free (flip i b) i ≡ not (free b i)
free-flip_same i b =
    rw (write_at-same b.words (i / 32) (bit_xor (b.words (i / 32)) (2 ^ (i % 32))))
      (xor-flips (i % 32) _)

pub free-flip_other : (i j : ℕ) (b : Bitmap) → j ≢ i → free (flip i b) j ≡ free b j
free-flip_other i j b h = elim (Bool-cases (j / 32 == i / 32)) [
  | inl e ↦
      let w : j / 32 ≡ i / 32 = (==_iff (j / 32) (i / 32)).0 e in
      rw (w, write_at-same b.words (i / 32) (bit_xor (b.words (i / 32)) (2 ^ (i % 32))))
        (xor-others (i % 32) (j % 32) (b.words (i / 32)) (λ r. h (omega arith)))
  | inr e ↦
      rw
        (write_at-other b.words (i / 32) (bit_xor (b.words (i / 32)) (2 ^ (i % 32))) (j / 32)
          (==→ne _ _ e))
        refl
]

pub flip-words_bound :
    (i k : ℕ) (b : Bitmap)
    → k < b.nwords
    → b.words k < 2 ^ 32
    → b.words (i / 32) < 2 ^ 32
    → (flip i b).words k < 2 ^ 32
flip-words_bound i k b h p q =
    write_at_keeps (λ c v. v < 2 ^ 32) b.words (i / 32) _ k
      (xor-bound 32 (i % 32) _ (omega arith) q) p

pub flip-IsValid : (i : ℕ) (b : Bitmap) → i < b.nbits → IsValid b → IsValid (flip i b)
flip-IsValid i b h v = (
  v.0,
  v.1,
  λ k p. flip-words_bound i k b p (v.2 k p) (v.2 (i / 32) (omega (arith, v.1))),
  λ j p q. free-flip_other i j b (λ e. omega arith) ∙ v.3 j p q,
)

-- What a call gives: the first free block, taken, or that there is none.
abbrev pub AllocOutcome : Bitmap → Allocated → Type 0
AllocOutcome b r =
    ((i : ℕ) × (i < b.nbits)
      × (free b i ≡ true)
      × ((j : ℕ) → j < i → free b j ≡ false)
      × (r ≡ record { bitmap = flip i b; index_store = some i; ret = pos 0 }))
    ⊎ (((j : ℕ) → j < b.nbits → free b j ≡ false)
        × (r ≡ record { bitmap = b; index_store = none; ret = negsuc 3 }))

-- None of the first `n` blocks is free.
abbrev Full : Bitmap → ℕ → Type 0
Full b n = (j : ℕ) → j < n → free b j ≡ false

Full-next : (b : Bitmap) (ix : ℕ) → Full b (ix * 32) → b.words ix ≡ 0 → Full b (suc ix * 32)
Full-next b ix h e j p = elim (Bool-cases (ltb j (ix * 32))) [
  | inl l ↦ h j (ltb→lt _ _ l)
  | inr l ↦
      let g : ix * 32 ≤ j = ltb→le _ _ l in
      let w : j / 32 ≡ ix = omega (arith, g) in rw (w, e) (has_bit-zero (j % 32))
]

-- No block before the bit `k` of the word `ix` is free.
none-before :
    (b : Bitmap) (ix k : ℕ)
    → k < 32
    → Full b (ix * 32)
    → ((j : ℕ) → 0 ≤ j → j < k → has_bit j (b.words ix) ≡ false)
    → Full b (ix * 32 + k)
none-before b ix k h before below j p = elim (Bool-cases (ltb j (ix * 32))) [
  | inl l ↦ before j (ltb→lt _ _ l)
  | inr l ↦
      let g : ix * 32 ≤ j = ltb→le _ _ l in
      let w : j / 32 ≡ ix = omega (arith, g) in
      rw w (below (j % 32) (omega arith) (omega (arith, g)))
]

module _ (b : Bitmap) (v : IsValid b) where
  -- A free block is one of the disk's.
  pub free-inside : (i : ℕ) → i < b.nwords * 32 → free b i ≡ true → i < b.nbits
  free-inside i h on = elim (Bool-cases (ltb i b.nbits)) [
    | inl e ↦ ltb→lt _ _ e
    | inr e ↦ absurd (true≢false (sym on ∙ v.3 i (ltb→le _ _ e) h))
  ]

  take-first :
      (ix : ℕ)
      → ix < b.nwords
      → Full b (ix * 32)
      → (b.words ix == 0) ≡ false
      → Found 32 0 (b.words ix)
      → (r : Allocated) × (take_bit ix (scan_bits 32 0 (b.words ix)) b ≡ ok r) × AllocOutcome b r
  unfolding take_bit
  take-first ix h before nz (inl (k, q, lo, hi, set, below)) =
      let d : (ix * 32 + k) / 32 ≡ ix = omega arith in
      let m : (ix * 32 + k) % 32 ≡ k = omega arith in
      let on : free b (ix * 32 + k) ≡ true = rw (d, m) set in
      let inside : ix * 32 + k < b.nbits = free-inside (ix * 32 + k) (omega arith) on in
      let w : (ix * 32 + k) % 2 ^ 32 ≡ ix * 32 + k = omega (arith, v.0) in
      (
        record { bitmap = flip (ix * 32 + k) b; index_store = some (ix * 32 + k); ret = pos 0 },
        rw (q, w, d, m) refl,
        inl (ix * 32 + k, inside, on, none-before b ix k hi before below, refl),
      )
  take-first ix h before nz (inr clear) =
      absurd
        (==→ne _ _ nz (no_bit→zero 32 (b.words ix) (v.2 ix h) (λ k p. clear k (omega arith) p)))

  scan_words-Outcome :
      (count ix : ℕ)
      → b.nwords ≡ ix + count
      → Full b (ix * 32)
      → (r : Allocated) × (scan_words count ix b ≡ ok r) × AllocOutcome b r
  unfolding scan_words
  scan_words-Outcome zero ix h before = (_, refl, inr (λ j p. before j (omega (arith, v.1)), refl))
  scan_words-Outcome (suc count) ix h before = elim (Bool-cases (b.words ix == 0)) [
    | inl e ↦
        let (r, q, o) =
          scan_words-Outcome count (suc ix) (omega arith)
            (Full-next b ix before ((==_iff (b.words ix) 0).0 e)) in
        (r, if_true _ _ e ∙ q, o)
    | inr e ↦
        let (r, q, o) = take-first ix (omega arith) before e (scan_bits-Found 32 0 (b.words ix)) in
        (r, if_false _ _ e ∙ q, o)
  ]

  -- `bitmap_alloc` of a well-formed bitmap never fails its assertion.
  pub bitmap_alloc-Outcome : (r : Allocated) × (bitmap_alloc b ≡ ok r) × AllocOutcome b r
  unfolding bitmap_alloc
  bitmap_alloc-Outcome = scan_words-Outcome b.nwords 0 (omega arith) (λ j p. absurd (omega arith))
