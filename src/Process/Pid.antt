-- ===== src/Process/Pid.antt =====
-- `get_pid` of lab5/kern/process/proc.c: the number of a new process.
pub mod Count
pub mod Scan
pub mod Fresh
mod Tests
use os_labs.Common.{
  ℕ, zero, suc, ◌*◌, Bool, ◌&&◌, ◌==◌, ltb, leb, if◌then◌else◌, List, [], ◌∷◌, Run, ok, no_fuel,
}

abbrev pub max_process : ℕ
max_process = 4096

abbrev pub max_pid : ℕ
max_pid = max_process * 2

-- the two static variables
pub record PidState : Type 0 where
  pub last_pid : ℕ
  pub next_safe : ℕ

-- how one walk over the processes ends: at the end of the list, or with `goto repeat`
pub data Walk : Type 0 where
  done : PidState → Walk
  again : PidState → Walk

-- `last_pid` after it has reached `next_safe`
unfoldable pub wrap : ℕ → PidState
wrap last = record { last_pid = if leb max_pid last then 1 else last; next_safe = max_pid }

-- the inner loop, over the numbers of the processes that are left
unfoldable pub walk : List ℕ → PidState → Walk
unfolding wrap
walk [] s = done s
walk (pid ∷ pids) s =
    let passed = walk pids (record s { last_pid = suc s.last_pid }) in
    let closer = walk pids (record s { next_safe = pid }) in
    let same = walk pids s in
    if pid == s.last_pid
    then (if leb s.next_safe (suc s.last_pid) then again (wrap (suc s.last_pid)) else passed)
    else (if ltb s.last_pid pid && ltb pid s.next_safe then closer else same)

-- after a walk: the end, or what `repeat:` does
abbrev pub resume : (PidState → Run PidState) → Walk → Run PidState
resume again_from (done s) = ok s
resume again_from (again s) = again_from s

-- from `repeat:` on; the walks are at most as many as the first number says
unfoldable pub repeat : ℕ → List ℕ → PidState → Run PidState
unfolding walk
repeat zero pids s = no_fuel
repeat (suc fuel) pids s = resume (repeat fuel pids) (walk pids s)

-- `pids` are the numbers of the processes, in the order of `proc_list`; the new number is `last_pid`.
unfoldable pub get_pid : ℕ → List ℕ → PidState → Run PidState
unfolding repeat
get_pid fuel pids s =
    let next = suc s.last_pid in
    if leb max_pid next
    then repeat fuel pids (record { last_pid = 1; next_safe = max_pid })
    else (if leb s.next_safe next
        then repeat fuel pids (record { last_pid = next; next_safe = max_pid })
        else ok (record s { last_pid = next }))
