-- ===== src/Process/Pid/Tests.antt =====
-- Numbers for processes beside those with the numbers 1 and 3.
use os_labs.Common.{ℕ, ◌≤◌, ◌<◌, ◌≡◌, ◌≢◌, refl, arith, List, [], ◌∷◌, All, inl, ok}
use os_labs.Process.Pid.{PidState, max_pid, wrap, walk, repeat, get_pid}
use os_labs.Process.Pid.Fresh.{IsSafe, get_pid-fresh}

-- the variables as they are at first
abbrev at_start : PidState
at_start = record { last_pid = 8192; next_safe = 8192 }

abbrev two_pids : List ℕ
two_pids = 1 ∷ 3 ∷ []

run_get_pid : get_pid 3 two_pids at_start ≡ ok (record { last_pid = 2; next_safe = 3 })
unfolding get_pid repeat walk wrap
run_get_pid = refl

get_pid-fresh_example :
    (t : PidState) × (get_pid 16384 two_pids at_start ≡ ok t)
    × (1 ≤ t.last_pid)
    × (t.last_pid < max_pid)
    × All (λ p. p ≢ t.last_pid) two_pids
    × IsSafe t (t.last_pid ∷ two_pids)
get_pid-fresh_example =
    get_pid-fresh 16384 two_pids at_start (omega arith) (omega arith)
      (omega arith, omega arith, omega arith, (inl (omega arith), (inl (omega arith), tt)))
