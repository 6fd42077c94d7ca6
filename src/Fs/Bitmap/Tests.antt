-- ===== src/Fs/Bitmap/Tests.antt =====
-- A bitmap of 64 blocks in which 34 and 35 are free, and the calls on it.
use os_labs.Common.{ℕ, zero, suc, ◌<◌, ◌^◌, ◌≡◌, refl, arith, [], some, ok, ◌>>=◌}
use os_labs.Fs.Bitmap.{
  Bitmap, Allocated, mark_leftover, mark_last, initial_words, words_of, create_words, bitmap_create,
  scan_bits, take_bit, scan_words, bitmap_alloc,
}
use os_labs.Fs.Bitmap.Alloc.{IsValid}
use os_labs.Fs.Bitmap.Create.{CreateOutcome, bitmap_create-CreateOutcome}
use os_labs.Fs.Bitmap.Give.{
  FirstFree, Undone, FreeOutcome, bitmap_alloc-FirstFree, bitmap_free-alloc,
  bitmap_free-FreeOutcome,
}

abbrev two_free_words : ℕ → ℕ
two_free_words zero = 0
two_free_words (suc i) = 12

abbrev two_free : Bitmap
two_free = record { nbits = 64; nwords = 2; words = two_free_words }

word_bound : (i : ℕ) → i < 2 → two_free_words i < 2 ^ 32
word_bound zero h = omega arith
word_bound (suc i) h = omega arith

two_free-IsValid : IsValid two_free
two_free-IsValid = (omega arith, refl, word_bound, λ i p q. absurd (omega arith))

run_alloc : (bitmap_alloc two_free >>= λ r. ok r.index_store) ≡ ok (some 34)
unfolding bitmap_alloc scan_words take_bit scan_bits
run_alloc = refl

-- 40 blocks take two words, and block 39 is the last free one.
run_create : (bitmap_create 40 1 2 (λ _. 0) >>= λ r. ok r.freed) ≡ ok []
unfolding bitmap_create create_words words_of initial_words mark_last mark_leftover
run_create = refl

bitmap_alloc-FirstFree_example :
    (r : Allocated) × (bitmap_alloc two_free ≡ ok r) × IsValid r.bitmap × FirstFree two_free r
bitmap_alloc-FirstFree_example = bitmap_alloc-FirstFree two_free two_free-IsValid

bitmap_free-alloc_example : (r : Allocated) × (bitmap_alloc two_free ≡ ok r) × Undone two_free r
bitmap_free-alloc_example = bitmap_free-alloc two_free two_free-IsValid

bitmap_free-FreeOutcome_example : FreeOutcome two_free 33
bitmap_free-FreeOutcome_example = bitmap_free-FreeOutcome two_free 33 two_free-IsValid

bitmap_create-CreateOutcome_example : CreateOutcome 40 4096 8192 (λ _. 0)
bitmap_create-CreateOutcome_example =
    bitmap_create-CreateOutcome 40 (λ _. 0) (omega arith) (omega arith) 4096 8192
