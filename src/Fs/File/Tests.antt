-- ===== src/Fs/File/Tests.antt =====
-- The open files over a file system whose every node is 7 and every file 10 bytes long, and whose state
-- counts the files that are open.
use os_labs.Common.{
  ℕ, ◌+◌, ◌-◌, ◌≡◌, refl, ◌⊎◌, inl, inr, true, false, ◌&&◌, List, [], ◌∷◌, arith, ltb, leb, ◌≤◌,
  ◌↔◌, min, Bool-cases, ◌==◌, if◌then◌else◌, ok, ℤ, pos, is_zero,
}
use os_labs.Libs.Str.{Memory}
use os_labs.Fs.Iobuf.{Iobuf, iobuf_move}
use os_labs.Fs.Iobuf.Move.{skipped, target, origin, iobuf_move-min}
use os_labs.Fs.File.{fd_none, fd_opened, Inodes, Files}
use os_labs.Fs.File.Calls.{file_open, file_read, file_write, file_dup}
use os_labs.Fs.File.Table.{Settled}
use os_labs.Fs.File.Transfer.{Transferred, file_read-Transferred, file_write-Transferred}
use os_labs.Fs.File.Opening.{GivesNodes, OpenOutcome, Unopened, file_open-OpenOutcome}
use os_labs.Fs.File.Closing.{Closes, open-close}
use os_labs.Fs.File.Dup.{DupOutcome, file_dup-DupOutcome}
use os_labs.Fs.File.Sequence.{
  FileCall, open_path, close_fd, read_fd, dup_fd, run_calls, run_calls-Settled,
}

abbrev sevens : Inodes ℕ
sevens = record {
  vfs_open = λ path flags s. (pos 0, 7, s + 1);
  vfs_close = λ node s. s - 1;
  vop_fstat = λ node s. (pos 0, 10, s);
  vop_read = λ node iob s. (pos 0, min iob.io_len 10, s);
  vop_write = λ node iob s. (pos 0, iob.io_len, s);
  vop_tryseek = λ node p s. (pos 0, s);
  vop_fsync = λ node s. (pos 0, s);
  vop_getdirentry = λ node iob s. (pos 0, 1, s);
  vop_ref_inc = λ node s. s;
  vop_open_inc = λ node s. s + 1;
}

sevens-GivesNodes : GivesNodes sevens
sevens-GivesNodes path flags s h e = omega (arith, e)

-- Item 1 is open for reading, the other ones are free.
abbrev some_files : Files ℕ
some_files = record {
  fd_array = λ i. record {
    status = if i == 1 then fd_opened else fd_none;
    readable = true;
    writable = false;
    fd = i;
    pos = pos 3;
    node = 7;
    open_count = if i == 1 then 1 else 0;
  };
  files_count = 1;
  below = 1;
}

some_files-Settled : Settled 4 some_files
some_files-Settled = record {
  shared = omega arith;
  items = λ i lt. (
    refl,
    elim (Bool-cases (i == 1)) [
      | inl e ↦ inr (rw e refl, rw e refl, λ z. omega (arith, z))
      | inr e ↦ inl (rw e refl, rw e refl)
    ],
  );
}

file_read-Transferred_example :
    Transferred 4
      (λ f. f.readable)
      sevens.vop_read
      (pos 1)
      100
      5
      some_files
      (file_read 4 sevens (pos 1) 100 5 some_files)
file_read-Transferred_example =
    file_read-Transferred sevens 4 (pos 1) 100 5 some_files some_files-Settled

file_write-Transferred_example :
    Transferred 4
      (λ f. f.writable)
      sevens.vop_write
      (pos 1)
      100
      5
      some_files
      (file_write 4 sevens (pos 1) 100 5 some_files)
file_write-Transferred_example =
    file_write-Transferred sevens 4 (pos 1) 100 5 some_files some_files-Settled

file_open-OpenOutcome_example :
    (ret : ℤ) × (t' : Files ℕ) × (file_open 4 sevens 30 2 some_files ≡ ok (ret, t'))
    × Settled 4 t'
    × OpenOutcome sevens 4 2 (sevens.vfs_open 30 2 some_files.below) some_files ret t'
file_open-OpenOutcome_example =
    file_open-OpenOutcome sevens 4 30 2 some_files sevens-GivesNodes some_files-Settled

open-close_example :
    (ret : ℤ) × (t₁ : Files ℕ) × (file_open 4 sevens 30 2 some_files ≡ ok (ret, t₁))
    × (Closes sevens 4 some_files ret t₁ ⊎ (is_zero ret ≡ false) × Unopened some_files t₁)
open-close_example = open-close sevens 4 30 2 some_files sevens-GivesNodes some_files-Settled

file_dup-DupOutcome_example :
    (ret : ℤ) × (t' : Files ℕ) × (file_dup 4 sevens (pos 1) (pos 3) some_files ≡ ok (ret, t'))
    × Settled 4 t'
    × DupOutcome sevens 4 (pos 1) (pos 3) some_files ret t'
file_dup-DupOutcome_example =
    file_dup-DupOutcome sevens 4 (pos 1) (pos 3) some_files some_files-Settled

abbrev session : List FileCall
session = open_path 30 2 ∷ read_fd (pos 0) 100 5 ∷ dup_fd (pos 0) (pos 2) ∷ close_fd (pos 0) ∷ []

run_calls-Settled_example :
    (t' : Files ℕ) × (run_calls 4 sevens session some_files ≡ ok t') × Settled 4 t'
run_calls-Settled_example =
    run_calls-Settled sevens 4 session some_files sevens-GivesNodes some_files-Settled

-- a memory in which the byte at an address is its address
abbrev self : Memory
self a = a

abbrev buffer : Iobuf
buffer = record { io_base = 50; io_offset = pos 0; io_len = 4; io_resid = 4 }

iobuf_move-min_example :
    (ret : ℤ) × (iob' : Iobuf) × (m' : Memory) × (iobuf_move 20 6 true buffer self
      ≡ ok (ret, min 6 4, iob', m'))
    × (iob' ≡ skipped (min 6 4) buffer)
    × ((ret ≡ pos 0) ↔ (6 ≤ 4))
    × ((a : ℕ)
        → m' a ≡ (
            if leb (target true 20 buffer) a && ltb a (target true 20 buffer + min 6 4)
            then self (origin true 20 buffer + (a - target true 20 buffer))
            else self a))
iobuf_move-min_example = iobuf_move-min 20 6 true buffer self
