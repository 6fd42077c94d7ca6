-- ===== src/Fs/File.antt =====
-- lab8/kern/fs/file.c: the open files of a process. What a file does below this level are the
-- operations of `Inodes`, through which the source calls its inodes (`vop_…`) and the virtual file
-- system (`vfs_open`, `vfs_close`). They act on a state of their own; that other processes change the
-- table while one of them sleeps is left out.
pub mod Calls
pub mod Table
pub mod Transfer
pub mod Alloc
pub mod Opening
pub mod Closing
pub mod Dup
pub mod Sequence
mod Tests
use os_labs.Common.{
  ℕ, zero, suc, ◌+◌, ◌-◌, ◌%◌, ◌/◌, Bool, true, false, not, ◌&&◌, ◌||◌, Option, none, some, ◌==◌,
  ltb, if◌then◌else◌, Run, ok, ◌>>=◌, ◌>>◌, assert, ℤ, pos, negsuc, ◌+ℤ◌, is_zero, write_at,
}
use os_labs.Fs.Iobuf.{Iobuf, iobuf_init}

-- the `status` of a `struct file`
pub data FdStatus : Type 0 where
  fd_none fd_init fd_opened fd_closed : FdStatus

-- `struct file`; the node is an address, 0 for none, and `open_count` is never negative; the position is an
-- integer without the bounds that an off_t of 64 bits has
pub record File : Type 0 where
  pub status : FdStatus
  pub readable : Bool
  pub writable : Bool
  pub fd : ℕ
  pub pos : ℤ
  pub node : ℕ
  pub open_count : ℕ

-- What an operation on a node returns with its result: for `vop_fstat` the size, for reads and writes
-- the bytes that it used.
pub record Inodes (S : Type 0) : Type 0 where
  pub vfs_open : ℕ → ℕ → S → ℤ × ℕ × S
  pub vfs_close : ℕ → S → S
  pub vop_fstat : ℕ → S → ℤ × ℕ × S
  pub vop_read : ℕ → Iobuf → S → ℤ × ℕ × S
  pub vop_write : ℕ → Iobuf → S → ℤ × ℕ × S
  pub vop_tryseek : ℕ → ℤ → S → ℤ × S
  pub vop_fsync : ℕ → S → ℤ × S
  pub vop_getdirentry : ℕ → Iobuf → S → ℤ × ℕ × S
  pub vop_ref_inc : ℕ → S → S
  pub vop_open_inc : ℕ → S → S

-- `struct files_struct` of the running process, its array by index, and the state below
pub record Files (S : Type 0) : Type 0 where
  pub fd_array : ℕ → File
  pub files_count : ℕ
  pub below : S

abbrev pub is_none : FdStatus → Bool
is_none fd_none = true
is_none _ = false

abbrev pub is_init : FdStatus → Bool
is_init fd_init = true
is_init _ = false

abbrev pub is_opened : FdStatus → Bool
is_opened fd_opened = true
is_opened _ = false

abbrev pub is_closed : FdStatus → Bool
is_closed fd_closed = true
is_closed _ = false

-- -E_INVAL, -E_BUSY, -E_MAX_OPEN
abbrev pub e_inval : ℤ
e_inval = negsuc 2

abbrev pub e_busy : ℤ
e_busy = negsuc 14

abbrev pub e_max_open : ℤ
e_max_open = negsuc 21

-- NO_FD is -0x9527.
abbrev pub no_fd : ℤ
no_fd = negsuc 0x9526

abbrev pub is_no_fd : ℤ → Bool
is_no_fd (pos k) = false
is_no_fd (negsuc k) = k == 0x9526

-- `testfd`, with the index that it allows
abbrev pub testfd : ℕ → ℤ → Option ℕ
testfd n (pos k) = if ltb k n then some k else none
testfd n (negsuc k) = none

-- the first free item from `fd` on
unfoldable pub find_none : ℕ → ℕ → (ℕ → File) → Option ℕ
find_none zero fd files = none
find_none (suc left) fd files =
    let rest = find_none left (fd + 1) files in if is_none (files fd).status then some fd else rest

-- an item to use, or an error
pub data Slot : Type 0 where
  found : ℕ → Slot
  refused : ℤ → Slot

abbrev or_max_open : Option ℕ → Slot
or_max_open none = refused e_max_open
or_max_open (some i) = found i

abbrev or_inval : Option ℕ → (ℕ → File) → Slot
or_inval none files = refused e_inval
or_inval (some i) files = if is_none (files i).status then found i else refused e_busy

-- the search of `fd_array_alloc`
unfoldable pub slot_for : ℕ → ℤ → (ℕ → File) → Slot
unfolding find_none
slot_for n fd files =
    if is_no_fd fd then or_max_open (find_none n 0 files) else or_inval (testfd n fd) files

module _ {S : Type 0} where
  abbrev pub set_file : ℕ → (File → File) → Files S → Files S
  set_file i f t = record t { fd_array = write_at t.fd_array i (f (t.fd_array i)) }

  unfoldable pub fd_array_init : ℕ → Files S → Files S
  fd_array_init n t = record t {
    fd_array = λ i.
        (if ltb i n
          then record (t.fd_array i) { open_count = 0; status = fd_none; fd = i }
          else t.fd_array i);
  }

  abbrev pub take_slot : Slot → Files S → Run (ℤ × ℕ × Files S)
  take_slot (refused e) t = ok (e, 0, t)
  take_slot (found i) t = do
    assert ((t.fd_array i).open_count == 0)
    ok (pos 0, i, set_file i (λ f. record f { status = fd_init; node = 0 }) t)

  -- the result, the item that was stored, and the files
  unfoldable pub fd_array_alloc : ℕ → ℤ → Files S → Run (ℤ × ℕ × Files S)
  unfolding slot_for
  fd_array_alloc n fd t = do assert (ltb 0 t.files_count); take_slot (slot_for n fd t.fd_array) t

  unfoldable pub fd_array_acquire : ℕ → Files S → Run (Files S)
  fd_array_acquire i t = do
    assert (is_opened (t.fd_array i).status)
    ok (set_file i (λ f. record f { open_count = f.open_count + 1 }) t)

  unfoldable pub fd_array_open : ℕ → Files S → Run (Files S)
  fd_array_open i t = do
    assert (is_init (t.fd_array i).status && not ((t.fd_array i).node == 0))
    ok (set_file i (λ f. record f { status = fd_opened; open_count = f.open_count + 1 }) t)

  abbrev pub opened_at : ℕ → Files S → Option ℕ
  opened_at i t = if is_opened (t.fd_array i).status && (t.fd_array i).fd == i then some i else none

  abbrev pub check_opened : Option ℕ → Files S → Run (Option ℕ)
  check_opened none t = ok none
  check_opened (some i) t = assert (ltb 0 t.files_count) >> ok (opened_at i t)

  -- `fd2file`: the item, or -E_INVAL
  unfoldable pub fd2file : ℕ → ℤ → Files S → Run (Option ℕ)
  fd2file n fd t = check_opened (testfd n fd) t
