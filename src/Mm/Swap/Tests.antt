-- ===== src/Mm/Swap/Tests.antt =====
-- The managers on a queue of the pages 2 and 3 with the head 9.
use os_labs.Common.{
  ℕ, ◌≡◌, refl, arith, List, [], ◌∷◌, none, some, All, ok, ◌>>=◌, write_at, ◌==◌, if◌then◌else◌,
}
use os_labs.Libs.ListEntry.{list_del}
use os_labs.Mm.Swap.{Pages}
use os_labs.Mm.Swap.Queue.{Queue}
use os_labs.Mm.Swap.Fifo.{fifo_init_mm}
use os_labs.Mm.Swap.Fifo.Order.{
  Event, arrive, evict, run_fifo, run_fifo-victims, fifo_init_mm-Queue,
}
use os_labs.Mm.Swap.Lru.{lru_map_swappable}
use os_labs.Mm.Swap.Lru.Order.{lru_map_swappable-Queue}
use os_labs.Mm.Swap.Clock.{clock_swap_out_victim, clock_loop}
use os_labs.Mm.Swap.Clock.Sweep.{
  FlagsCleared, clock_swap_out_victim-unvisited, clock_swap_out_victim-head,
  clock_swap_out_victim-oldest,
}

abbrev ring_next : ℕ → ℕ
ring_next n = if n == 9 then 2 else (if n == 2 then 3 else 9)

abbrev ring_prev : ℕ → ℕ
ring_prev n = if n == 9 then 3 else (if n == 3 then 2 else 9)

-- a queue whose flags are given
abbrev ring : (ℕ → ℕ) → Pages
ring f = record {
  links = record { next = ring_next; prev = ring_prev };
  sm_priv = 9;
  curr_ptr = 9;
  visited = f;
}

ring-Queue : (f : ℕ → ℕ) → Queue (ring f) (2 ∷ 3 ∷ [])
ring-Queue f = (
  λ e. omega (arith, e),
  (
    ((λ e. omega (arith, e)), ((λ e. omega (arith, e)), tt)),
    (((λ e. omega (arith, e)), tt), (tt, tt)),
  ),
  (refl, refl, (refl, refl, (refl, refl))),
)

abbrev only_3 : ℕ → ℕ
only_3 q = if q == 3 then 1 else 0

abbrev not_head : ℕ → ℕ
not_head q = if q == 9 then 0 else 1

-- Page 2 was not visited.
run_clock : (clock_swap_out_victim 2 0 (ring only_3) >>= λ r. ok r.0) ≡ ok 2
unfolding clock_swap_out_victim clock_loop write_at
run_clock = refl

-- Two pages come, one leaves, a third comes, and the queue is emptied.
abbrev events : List Event
events = arrive 2 ∷ arrive 3 ∷ evict ∷ arrive 4 ∷ evict ∷ evict ∷ evict ∷ []

run_fifo-victims_example :
    (t : Pages) × (run_fifo events (fifo_init_mm 9 (ring only_3))
      ≡ ok (some 2 ∷ some 3 ∷ some 4 ∷ none ∷ [], t))
    × Queue t []
unfolding fifo_init_mm
run_fifo-victims_example =
    run_fifo-victims events (fifo_init_mm 9 (ring only_3)) []
      (fifo_init_mm-Queue 9 (ring only_3) (λ e. omega (arith, e)))
      (
        λ e. omega (arith, e),
        ((λ e. omega (arith, e)), tt),
        (
          λ e. omega (arith, e),
          ((λ e. omega (arith, e)), ((λ e. omega (arith, e)), tt)),
          (λ e. omega (arith, e), ((λ e. omega (arith, e)), ((λ e. omega (arith, e)), tt)), tt),
        ),
      )

lru_map_swappable-Queue_example :
    (t : Pages) × (lru_map_swappable 2 (ring only_3) ≡ ok t) × Queue t (3 ∷ 2 ∷ [])
lru_map_swappable-Queue_example =
    lru_map_swappable-Queue (ring only_3) [] 2 (3 ∷ []) (λ e. omega (arith, e)) (ring-Queue only_3)

clock_swap_out_victim-unvisited_example :
    (t : Pages) × (clock_swap_out_victim 2 0 (ring only_3) ≡ ok (2, t))
    × Queue t (3 ∷ [])
    × FlagsCleared (ring only_3) (3 ∷ []) t
clock_swap_out_victim-unvisited_example =
    clock_swap_out_victim-unvisited (ring only_3) [] 2 (3 ∷ []) 2 (ring-Queue only_3) refl
      (refl, tt) (omega arith)

clock_swap_out_victim-head_example :
    (t : Pages) × (clock_swap_out_victim 3 0 (ring not_head) ≡ ok (9, t))
    × (t.links ≡ list_del 9 (ring not_head).links)
    × FlagsCleared (ring not_head) (2 ∷ 3 ∷ []) t
clock_swap_out_victim-head_example =
    clock_swap_out_victim-head (ring not_head) (2 ∷ 3 ∷ []) 3 (ring-Queue not_head)
      (refl, (refl, tt)) refl (omega arith)

clock_swap_out_victim-oldest_example :
    (t : Pages) × (clock_swap_out_victim 4 0 (ring (λ _. 1)) ≡ ok (3, t))
    × Queue t (2 ∷ [])
    × All (λ v. t.visited v ≡ 0) (2 ∷ 3 ∷ [])
clock_swap_out_victim-oldest_example =
    clock_swap_out_victim-oldest (ring (λ _. 1)) (2 ∷ []) 3 4 (ring-Queue (λ _. 1))
      (refl, (refl, tt)) (λ e. omega (arith, e)) (omega arith)
