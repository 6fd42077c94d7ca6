-- ===== src/Fs/Bitmap/Give.antt =====
-- `bitmap_test` reads a block's bit, and `bitmap_free` undoes `bitmap_alloc`.
use os_labs.Common.{
  ℕ, ◌/◌, ◌%◌, ◌^◌, ◌≤◌, ◌<◌, ◌≡◌, ◌≢◌, refl, ap, ◌∙◌, true, false, not, ◌⊎◌, inl, inr, none, some,
  ◌==◌, Bool-cases, ok, panic, lt→ltb, le→ltb, write_at-same, write_at_twice, write_at_self,
  bit_and, bit_xor, and-has_bit, or-clear, xor_twice, pos, negsuc, ltb, ltb→lt, ltb→le,
}
use os_labs.Fs.Bitmap.{Bitmap, Allocated, bitmap_alloc, bitmap_test, bitmap_free}
use os_labs.Fs.Bitmap.Alloc.{
  free, flip, IsValid, AllocOutcome, bitmap_alloc-Outcome, free-flip_same, free-flip_other,
  flip-IsValid,
}

-- Past the last block all operations on one block fail their assertion.
pub bitmap_test_lem :
    (b : Bitmap) (i : ℕ)
    → i < b.nbits
    → (v : ℕ) × (bitmap_test i b ≡ ok v) × ((v == 0) ≡ not (free b i))
unfolding bitmap_test
bitmap_test_lem b i h = (
  bit_and (b.words (i / 32)) (2 ^ (i % 32)),
  rw (lt→ltb i b.nbits h) refl,
  and-has_bit (i % 32) (b.words (i / 32)),
)

-- A block in use is given back.
bitmap_free-flip :
    (b : Bitmap) (i : ℕ) → i < b.nbits → free b i ≡ false → bitmap_free i b ≡ ok (flip i b)
unfolding bitmap_free
bitmap_free-flip b i h off =
    rw
      (
        lt→ltb i b.nbits h,
        and-has_bit (i % 32) (b.words (i / 32)),
        off,
        or-clear (i % 32) (b.words (i / 32)) off,
      )
      refl

-- A free block is not.
bitmap_free-twice : (b : Bitmap) (i : ℕ) → i < b.nbits → free b i ≡ true → bitmap_free i b ≡ panic
unfolding bitmap_free
bitmap_free-twice b i h on =
    rw (lt→ltb i b.nbits h, and-has_bit (i % 32) (b.words (i / 32)), on) refl

flip_twice : (b : Bitmap) (i : ℕ) → flip i (flip i b) ≡ b
flip_twice b i =
    rw
      (
        write_at-same b.words (i / 32) (bit_xor (b.words (i / 32)) (2 ^ (i % 32))),
        xor_twice (i % 32) (b.words (i / 32)),
        write_at_twice b.words (i / 32) (bit_xor (b.words (i / 32)) (2 ^ (i % 32)))
            (b.words (i / 32)),
        write_at_self b.words (i / 32),
      )
      refl

bitmap_free-outside : (b : Bitmap) (i : ℕ) → b.nbits ≤ i → bitmap_free i b ≡ panic
unfolding bitmap_free
bitmap_free-outside b i h = rw (le→ltb i b.nbits h) refl

-- `bitmap_free` on every block number.
abbrev pub FreeOutcome : Bitmap → ℕ → Type 0
FreeOutcome b i =
    ((b.nbits ≤ i) × (bitmap_free i b ≡ panic))
    ⊎ ((i < b.nbits) × (free b i ≡ true) × (bitmap_free i b ≡ panic))
    ⊎ ((i < b.nbits)
        × (free b i ≡ false)
        × ((c : Bitmap) × (bitmap_free i b ≡ ok c)
            × IsValid c
            × (free c i ≡ true)
            × ((j : ℕ) → j ≢ i → free c j ≡ free b j)))

-- On a well-formed bitmap `bitmap_free` fails its assertion for a number past the last block and for
-- a block that is free already. For a block in use it makes that block free, no other, and the bitmap
-- stays well-formed.
pub bitmap_free-FreeOutcome : (b : Bitmap) (i : ℕ) → IsValid b → FreeOutcome b i
bitmap_free-FreeOutcome b i v = elim (Bool-cases (ltb i b.nbits)) [
  | inr l ↦ inl (ltb→le _ _ l, bitmap_free-outside b i (ltb→le _ _ l))
  | inl l ↦ elim (Bool-cases (free b i)) [
    | inl on ↦ inr (inl (ltb→lt _ _ l, on, bitmap_free-twice b i (ltb→lt _ _ l) on))
    | inr off ↦ inr (
        inr (
          ltb→lt _ _ l,
          off,
          (
            flip i b,
            bitmap_free-flip b i (ltb→lt _ _ l) off,
            flip-IsValid i b (ltb→lt _ _ l) v,
            free-flip_same i b ∙ ap not off,
            λ j. free-flip_other i j b,
          ),
        ))
  ]
]

-- What a caller sees of `bitmap_alloc`.
abbrev pub FirstFree : Bitmap → Allocated → Type 0
FirstFree b r =
    ((i : ℕ) × (r.ret ≡ pos 0)
      × (r.index_store ≡ some i)
      × (i < b.nbits)
      × (free b i ≡ true)
      × ((j : ℕ) → j < i → free b j ≡ false)
      × (free r.bitmap i ≡ false)
      × ((j : ℕ) → j ≢ i → free r.bitmap j ≡ free b j))
    ⊎ ((r.ret ≡ negsuc 3)
        × (r.index_store ≡ none)
        × (r.bitmap ≡ b)
        × ((j : ℕ) → j < b.nbits → free b j ≡ false))

first-free :
    (b : Bitmap) (r : Allocated) → IsValid b → AllocOutcome b r → IsValid r.bitmap × FirstFree b r
first-free b r v (inl (i, h, on, before, e)) = rw e (
  flip-IsValid i b h v,
  inl (i, refl, refl, h, on, before, free-flip_same i b ∙ ap not on, λ j. free-flip_other i j b),
)
first-free b r v (inr (none-free, e)) = rw e (v, inr (refl, refl, refl, none-free))

-- On a well-formed bitmap `bitmap_alloc` returns, its assertion does not fail, and the bitmap stays
-- well-formed. The result is 0, the number of the first free block is stored and this block alone is
-- no longer free; or the result is -E_NO_MEM, nothing changes, and no block is free.
pub bitmap_alloc-FirstFree :
    (b : Bitmap)
    → IsValid b
    → (r : Allocated) × (bitmap_alloc b ≡ ok r) × IsValid r.bitmap × FirstFree b r
bitmap_alloc-FirstFree b v =
    let (r, q, o) = bitmap_alloc-Outcome b v in
    (r, q, (first-free b r v o).0, (first-free b r v o).1)

abbrev pub Undone : Bitmap → Allocated → Type 0
Undone b r =
    ((i : ℕ) × (r.index_store ≡ some i) × (bitmap_free i r.bitmap ≡ ok b))
    ⊎ ((r.index_store ≡ none) × (r.bitmap ≡ b))

undo : (b : Bitmap) (r : Allocated) → AllocOutcome b r → Undone b r
undo b r (inl (i, h, on, before, e)) = rw e (
    inl (
      i,
      refl,
      bitmap_free-flip (flip i b) i h (free-flip_same i b ∙ ap not on) ∙ ap ok (flip_twice b i),
    ))
undo b r (inr (none-free, e)) = rw e (inr (refl, refl))

-- `bitmap_free` of the block that `bitmap_alloc` gave on a well-formed bitmap restores that bitmap,
-- every word of it; where no block was given the bitmap is the same already.
pub bitmap_free-alloc :
    (b : Bitmap) → IsValid b → (r : Allocated) × (bitmap_alloc b ≡ ok r) × Undone b r
bitmap_free-alloc b v = let (r, q, o) = bitmap_alloc-Outcome b v in (r, q, undo b r o)
