-- ===== src/Fs/Iobuf.antt =====
-- lab8/kern/fs/iobuf.c: a buffer that is read or written piece by piece.
pub mod Move
use os_labs.Common.{
  ℕ, ◌+◌, ◌-◌, Bool, true, false, ◌==◌, ltb, leb, if◌then◌else◌, Run, ok, ◌>>=◌, ◌>>◌, assert, ℤ,
  pos, negsuc, ◌+ℤ◌,
}
use os_labs.Libs.Str.{Memory, memmove, memset}

-- `struct iobuf`; `io_base` is an address, `io_offset` an `off_t`
pub record Iobuf : Type 0 where
  pub io_base : ℕ
  pub io_offset : ℤ
  pub io_len : ℕ
  pub io_resid : ℕ

unfoldable pub iobuf_init : ℕ → ℕ → ℤ → Iobuf
iobuf_init base len offset = record {
  io_base = base;
  io_offset = offset;
  io_len = len;
  io_resid = len;
}

-- `iobuf_used`, a macro of iobuf.h
unfoldable pub iobuf_used : Iobuf → ℕ
iobuf_used iob = iob.io_len - iob.io_resid

unfoldable pub iobuf_skip : ℕ → Iobuf → Run Iobuf
iobuf_skip n iob = do
  assert (leb n iob.io_resid)
  ok (record iob {
    io_base = iob.io_base + n;
    io_offset = iob.io_offset +ℤ pos n;
    io_resid = iob.io_resid - n;
  })

-- the bytes that one call moves
abbrev pub alen_of : ℕ → Iobuf → ℕ
alen_of len iob = if ltb len iob.io_resid then len else iob.io_resid

-- E_NO_MEM is 4.
abbrev pub move_result : ℕ → ℤ
move_result left = if left == 0 then pos 0 else negsuc 3

-- the result, the bytes moved, the buffer and the memory
abbrev pub Moved : Type 0
Moved = ℤ × ℕ × Iobuf × Memory

-- `m2b` says that the data goes from `data` to the buffer.
unfoldable pub iobuf_move : ℕ → ℕ → Bool → Iobuf → Memory → Run Moved
unfolding iobuf_skip
iobuf_move addr len m2b iob m = do
  let alen = alen_of len iob
  let m' = if m2b then memmove iob.io_base addr alen m else memmove addr iob.io_base alen m
  if ltb 0 alen
      then (iobuf_skip alen iob >>= λ iob'. ok (move_result (len - alen), alen, iob', m'))
      else ok (move_result len, alen, iob, m)

unfoldable pub iobuf_move_zeros : ℕ → Iobuf → Memory → Run Moved
unfolding iobuf_skip
iobuf_move_zeros len iob m = do
  let alen = alen_of len iob
  if ltb 0 alen
      then (iobuf_skip alen iob >>= λ iob'.
          ok (move_result (len - alen), alen, iob', memset iob.io_base 0 alen m))
      else ok (move_result len, alen, iob, m)
