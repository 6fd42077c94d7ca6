-- ===== src/Fs/Bitmap.antt =====
-- lab8/kern/fs/sfs/bitmap.c: which blocks of a disk are free, one bit for each, 1 for a free one.
-- A word is a `uint32_t`; WORD_BITS, a size_t, is 32, so sums with it do not wrap at 2 ^ 32.
pub mod Alloc
mod Tests
pub mod Create
pub mod Give
use os_labs.Common.{
  ℕ, zero, suc, ◌+◌, ◌-◌, ◌*◌, ◌/◌, ◌%◌, ◌^◌, Bool, true, false, not, ◌&&◌, ◌==◌, ltb,
  if◌then◌else◌, Option, none, some, List, [], ◌∷◌, Run, ok, panic, ◌>>=◌, ◌>>◌, assert, ℤ, pos,
  negsuc, write_at, bit_and, bit_or, bit_xor,
}

-- `struct bitmap`
pub record Bitmap : Type 0 where
  pub nbits : ℕ
  pub nwords : ℕ
  pub words : ℕ → ℕ

-- what `bitmap_create` gives back, NULL or a bitmap, and the pointers it passed to `kfree`
pub record Created : Type 0 where
  pub bitmap : Option Bitmap
  pub freed : List ℕ

-- the loop over the leftover bits: `count` of them are still to go
unfoldable pub mark_leftover : ℕ → ℕ → ℕ → ℕ
mark_leftover zero overbits word = word
mark_leftover (suc count) overbits word =
    mark_leftover count (suc overbits) (bit_xor word (2 ^ overbits))

-- memset(map, 0xFF, ..)
unfoldable pub filled : ℕ → (ℕ → ℕ) → ℕ → ℕ
filled nwords map i = if ltb i nwords then 2 ^ 32 - 1 else map i

-- the last word, `ix`, has `overbits` bits in use
unfoldable pub mark_last : ℕ → ℕ → ℕ → (ℕ → ℕ) → Run (ℕ → ℕ)
unfolding mark_leftover
mark_last nbits ix overbits map = do
  assert (nbits / 32 == ix)
  assert (ltb 0 overbits && ltb overbits 32)
  ok (write_at map ix (mark_leftover (32 - overbits) overbits (map ix)))

unfoldable pub initial_words : ℕ → ℕ → (ℕ → ℕ) → Run (ℕ → ℕ)
initial_words nbits nwords map =
    if nbits == nwords * 32
    then ok (filled nwords map)
    else mark_last nbits (nwords - 1) (nbits - (nwords - 1) * 32) (filled nwords map)

unfoldable pub words_of : ℕ → ℕ
words_of nbits = (nbits + 32 - 1) / 32

-- the second kmalloc, of the words: `map` is its result and `old` what the memory there holds
unfoldable pub create_words : ℕ → ℕ → ℕ → (ℕ → ℕ) → Run Created
unfolding words_of
create_words nbits bitmap zero old = ok (record { bitmap = none; freed = bitmap ∷ [] })
create_words nbits bitmap (suc map) old = initial_words nbits (words_of nbits) old >>= λ ws.
    ok (record {
      bitmap = some (record { nbits = nbits; nwords = words_of nbits; words = ws });
      freed = [];
    })

-- `bitmap` and `map` are the results of the two calls of kmalloc.
unfoldable pub bitmap_create : ℕ → ℕ → ℕ → (ℕ → ℕ) → Run Created
bitmap_create nbits bitmap map old = do
  assert (not (nbits == 0) && ltb nbits (nbits + 32))
  if bitmap == 0
      then ok (record { bitmap = none; freed = [] })
      else create_words nbits bitmap map old

-- `*index_store`, if it was written, and the result
pub record Allocated : Type 0 where
  pub bitmap : Bitmap
  pub index_store : Option ℕ
  pub ret : ℤ

-- the inner loop, with `count` offsets to go: the first bit of the word that is set
unfoldable pub scan_bits : ℕ → ℕ → ℕ → Option ℕ
scan_bits zero offset word = none
scan_bits (suc count) offset word =
    let rest = scan_bits count (suc offset) word in
    if bit_and word (2 ^ offset) == 0 then rest else some offset

-- the bit is cleared; `assert(0)` if there was none
unfoldable pub take_bit : ℕ → Option ℕ → Bitmap → Run Allocated
take_bit ix none b = panic
take_bit ix (some offset) b = ok (record {
  bitmap = record b { words = write_at b.words ix (bit_xor (b.words ix) (2 ^ offset)) };
  index_store = some ((ix * 32 + offset) % 2 ^ 32);
  ret = pos 0;
})

-- the outer loop, with `count` words to go; E_NO_MEM is 4
unfoldable pub scan_words : ℕ → ℕ → Bitmap → Run Allocated
scan_words zero ix b = ok (record { bitmap = b; index_store = none; ret = negsuc 3 })
scan_words (suc count) ix b =
    let rest = scan_words count (suc ix) b in
    if b.words ix == 0 then rest else take_bit ix (scan_bits 32 0 (b.words ix)) b

unfoldable pub bitmap_alloc : Bitmap → Run Allocated
bitmap_alloc b = scan_words b.nwords 0 b

-- the index of the word and the mask
unfoldable pub bitmap_translate : ℕ → Bitmap → Run (ℕ × ℕ)
bitmap_translate index b = do assert (ltb index b.nbits); ok (index / 32, 2 ^ (index % 32))

unfoldable pub bitmap_test : ℕ → Bitmap → Run ℕ
unfolding bitmap_translate
bitmap_test index b = bitmap_translate index b >>= λ p. ok (bit_and (b.words p.0) p.1)

unfoldable pub bitmap_free : ℕ → Bitmap → Run Bitmap
unfolding bitmap_translate
bitmap_free index b = bitmap_translate index b >>= λ p. do
  assert (bit_and (b.words p.0) p.1 == 0)
  ok (record b { words = write_at b.words p.0 (bit_or (b.words p.0) p.1) })

-- the pointers that `bitmap_destroy` passes to kfree
unfoldable pub bitmap_destroy : ℕ → ℕ → List ℕ
bitmap_destroy bitmap map = map ∷ bitmap ∷ []

-- the address `map`, and the length for a `len_store` that is not NULL
unfoldable pub bitmap_getdata : ℕ → Bool → Bitmap → ℕ × Option ℕ
bitmap_getdata map wants_len b = (map, if wants_len then some (4 * b.nwords) else none)
