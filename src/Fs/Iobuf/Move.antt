-- ===== src/Fs/Iobuf/Move.antt =====
-- What `iobuf_move` transfers.
use mathlib.Core.Path.{subst}
use os_labs.Common.{
  ℕ, ◌+◌, ◌-◌, ◌≤◌, ◌&&◌, ◌≡◌, ◌↔◌, refl, sym, inl, inr, Bool, true, false, arith, ltb, leb, le→leb,
  ltb→le, Bool-cases, if◌then◌else◌, ok, ℤ, pos, negsuc, ◌+ℤ◌, min,
}
use os_labs.Libs.Str.{Memory, memmove}
use os_labs.Libs.Str.Move.{memmove-moved}
use os_labs.Fs.Iobuf.{Iobuf, iobuf_skip, iobuf_move, alen_of, move_result}

-- the buffer behind the bytes that were moved
abbrev pub skipped : ℕ → Iobuf → Iobuf
skipped n iob = record iob {
  io_base = iob.io_base + n;
  io_offset = iob.io_offset +ℤ pos n;
  io_resid = iob.io_resid - n;
}

iobuf_skip-ok : (n : ℕ) (iob : Iobuf) → n ≤ iob.io_resid → iobuf_skip n iob ≡ ok (skipped n iob)
unfolding iobuf_skip
iobuf_skip-ok n iob h = rw (le→leb _ _ h) refl

-- where the bytes go, and where they come from
abbrev pub target : Bool → ℕ → Iobuf → ℕ
target m2b addr iob = if m2b then iob.io_base else addr

abbrev pub origin : Bool → ℕ → Iobuf → ℕ
origin m2b addr iob = if m2b then addr else iob.io_base

alen-min : (len : ℕ) (iob : Iobuf) → alen_of len iob ≡ min len iob.io_resid
alen-min len iob = ground arith

zero_shift : (o : ℤ) → o +ℤ pos 0 ≡ o
unfolding ◌+ℤ◌
zero_shift (pos n) = ground arith
zero_shift (negsuc n) = ground arith

skipped_zero : (iob : Iobuf) (n : ℕ) → n ≡ 0 → skipped n iob ≡ iob
skipped_zero iob n h =
    subst (λ k. skipped k iob ≡ iob) (sym h) (ground (arith, zero_shift iob.io_offset))

nothing_result : (len r : ℕ) → min len r ≡ 0 → (move_result len ≡ pos 0) ↔ (len ≤ r)
nothing_result len r h = ground arith

move_result_iff : (len r : ℕ) → (move_result (len - min len r) ≡ pos 0) ↔ (len ≤ r)
move_result_iff len r = ground arith

nothing_moved :
    (n d s : ℕ) (m : Memory) (a : ℕ)
    → n ≡ 0
    → m a ≡ (if leb d a && ltb a (d + n) then m (s + (a - d)) else m a)
nothing_moved n d s m a h = ground arith

moved-memory :
    (addr n : ℕ) (m2b : Bool) (iob : Iobuf) (m : Memory) (a : ℕ)
    → (if m2b then memmove iob.io_base addr n m else memmove addr iob.io_base n m) a ≡ (
        if leb (target m2b addr iob) a && ltb a (target m2b addr iob + n)
        then m (origin m2b addr iob + (a - target m2b addr iob))
        else m a)
moved-memory addr n true iob m a = memmove-moved iob.io_base addr n m a
moved-memory addr n false iob m a = memmove-moved addr iob.io_base n m a

-- `iobuf_move` ends without a failed assertion and moves as many bytes as both sides have: the length
-- that was asked for or what is left in the buffer, whichever is less. Each of them goes from the one
-- side to the other, by `m2b` to or from the buffer, and no other byte changes; the buffer stands
-- behind them; and the result is 0 exactly when all bytes that were asked for were moved.
pub iobuf_move-min :
    (addr len : ℕ) (m2b : Bool) (iob : Iobuf) (m : Memory)
    → (ret : ℤ) × (iob' : Iobuf) × (m' : Memory) × (iobuf_move addr len m2b iob m
        ≡ ok (ret, min len iob.io_resid, iob', m'))
      × (iob' ≡ skipped (min len iob.io_resid) iob)
      × ((ret ≡ pos 0) ↔ (len ≤ iob.io_resid))
      × ((a : ℕ)
          → m' a ≡ (
              if leb (target m2b addr iob) a && ltb a (target m2b addr iob + min len iob.io_resid)
              then m (origin m2b addr iob + (a - target m2b addr iob))
              else m a))
unfolding iobuf_move
iobuf_move-min addr len m2b iob m =
    let n = min len iob.io_resid in
    elim (Bool-cases (ltb 0 n)) [
      | inl h ↦ (
        move_result (len - n),
        skipped n iob,
        (if m2b then memmove iob.io_base addr n m else memmove addr iob.io_base n m),
        rw (alen-min len iob, h, iobuf_skip-ok n iob (omega arith)) refl,
        refl,
        move_result_iff len iob.io_resid,
        moved-memory addr n m2b iob m,
      )
      | inr h ↦
          let none_left : n ≡ 0 = omega (arith, ltb→le 0 n h) in
          (
            move_result len,
            iob,
            m,
            rw (alen-min len iob, h) refl,
            sym (skipped_zero iob n none_left),
            nothing_result len iob.io_resid none_left,
            λ a. nothing_moved n (target m2b addr iob) (origin m2b addr iob) m a none_left,
          )
    ]
