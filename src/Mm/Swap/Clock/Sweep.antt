-- ===== src/Mm/Swap/Clock/Sweep.antt =====
-- Which page the loop of swap_clock.c comes to.
use mathlib.Core.Path.{subst}
use mathlib.Core.List.{append-nil}
use os_labs.Common.{
  ℕ, suc, ◌+◌, ◌-◌, ◌<◌, ◌≡◌, ◌≢◌, refl, sym, ap, ◌∙◌, arith, List, [], ◌∷◌, ◌++◌, length, All, ok,
  inl, inr, ==_ne, ◌==◌, Bool-cases, write_at, write_at-same, write_at-other, write_at_keeps,
}
use os_labs.Libs.ListEntry.{Links, list_del}
use os_labs.Libs.ListEntry.Distinct.{◌∉◌, Distinct, ne_sym, Distinct-tail, All-append, All-map}
use os_labs.Libs.ListEntry.Chain.{Chain, last-append, Chain-last, Chain-split}
use os_labs.Mm.Swap.{Pages}
use os_labs.Mm.Swap.Queue.{Queue, unlink-Queue}
use os_labs.Mm.Swap.Clock.{second_chance, clock_loop, clock_swap_out_victim}

-- The flags after those of `vs` were cleared, the last first.
abbrev cleared : List ℕ → (ℕ → ℕ) → ℕ → ℕ
cleared [] f = f
cleared (v ∷ vs) f = write_at (cleared vs f) v 0

-- the entry before which the sweep over `vs` stops, having begun at `z`
abbrev first : List ℕ → ℕ → ℕ
first [] z = z
first (v ∷ vs) z = v

abbrev clear_flags : List ℕ → Pages → Pages
clear_flags vs s = record s { visited = cleared vs s.visited }

prev-first : (m : Links) (a : ℕ) (vs : List ℕ) (z : ℕ) → Chain m a vs z → m.prev (first vs z) ≡ a
prev-first m a [] z c = c.1
prev-first m a (v ∷ vs) z c = c.1

cleared-other : (vs : List ℕ) (f : ℕ → ℕ) (q : ℕ) → q ∉ vs → cleared vs f q ≡ f q
cleared-other [] f q out = refl
cleared-other (v ∷ vs) f q out =
    write_at-other (cleared vs f) v 0 q (ne_sym out.0) ∙ cleared-other vs f q out.1

write_at-zero : (f : ℕ → ℕ) (v q : ℕ) → f q ≡ 0 → write_at f v 0 q ≡ 0
write_at-zero f v q h = write_at_keeps (λ c x. x ≡ 0) f v 0 q refl h

cleared-zero : (vs : List ℕ) (f : ℕ → ℕ) (q : ℕ) → f q ≡ 0 → cleared vs f q ≡ 0
cleared-zero [] f q h = h
cleared-zero (v ∷ vs) f q h = write_at-zero (cleared vs f) v q (cleared-zero vs f q h)

cleared-All : (vs : List ℕ) (f : ℕ → ℕ) → Distinct vs → All (λ v. cleared vs f v ≡ 0) vs
cleared-All [] f d = tt
cleared-All (v ∷ vs) f d = (
  write_at-same (cleared vs f) v 0,
  All-map _ _ vs (λ q. write_at-zero (cleared vs f) v q) (cleared-All vs f d.1),
)

-- one turn of the loop at a page that was not visited, and at one that was
stop :
    (fuel y p : ℕ) (s : Pages)
    → s.links.prev y ≡ p
    → s.visited p ≡ 0
    → clock_loop (suc fuel) y s ≡ ok (p, record s { links = list_del p s.links })
unfolding clock_loop
stop fuel y p s e z = rw (e, z) refl

pass :
    (fuel y p : ℕ) (s : Pages)
    → s.links.prev y ≡ p
    → s.visited p ≡ 1
    → clock_loop (suc fuel) y s ≡ clock_loop fuel p (record s { visited = write_at s.visited p 0 })
unfolding clock_loop second_chance
pass fuel y p s e z = rw (e, z) refl

sweep :
    (vs : List ℕ) (a z fuel : ℕ) (s : Pages)
    → Chain s.links a vs z
    → All (λ v. s.visited v ≡ 1) vs
    → Distinct vs
    → clock_loop (length vs + fuel) z s ≡ clock_loop fuel (first vs z) (clear_flags vs s)
sweep [] a z fuel s c h d = ap (λ n. clock_loop n z s) (omega arith)
sweep (v ∷ vs) a z fuel s c h d =
    let next : suc (length vs) + fuel ≡ length vs + suc fuel = omega arith in
    ap (λ n. clock_loop n z s) next
    ∙ sweep vs v z (suc fuel) s c.2 h.1 d.1
    ∙ pass fuel (first vs z) v (clear_flags vs s) (prev-first s.links v vs z c.2)
        (cleared-other vs s.visited v d.0 ∙ h.0)

abbrev Visited : Pages → List ℕ → Type 0
Visited s = All (λ v. s.visited v ≡ 1)

-- `t` is `s` with the flags of `vs` cleared, apart from the links.
abbrev pub FlagsCleared : Pages → List ℕ → Pages → Type 0
FlagsCleared s vs t = All (λ v. t.visited v ≡ 0) vs × ((q : ℕ) → q ∉ vs → t.visited q ≡ s.visited q)

enough : (n fuel : ℕ) → n < fuel → fuel ≡ n + suc (fuel - n - 1)
enough n fuel h = omega arith

-- In a queue with `p` not visited and the pages behind it, older ones, all visited, clock_swap_out_victim
-- returns if its loop may run once more than there are those older pages: it gives `p`, unlinks just `p`,
-- and clears the flags of the older pages and no other.
pub clock_swap_out_victim-unvisited :
    (s : Pages) (ws : List ℕ) (p : ℕ) (vs : List ℕ) (fuel : ℕ)
    → Queue s (ws ++ (p ∷ vs))
    → s.visited p ≡ 0
    → All (λ v. s.visited v ≡ 1) vs
    → length vs < fuel
    → (t : Pages) × (clock_swap_out_victim fuel 0 s ≡ ok (p, t))
      × Queue t (ws ++ vs)
      × FlagsCleared s vs t
unfolding clock_swap_out_victim
clock_swap_out_victim-unvisited s ws p vs fuel h z marked more =
    let (front, back) = Chain-split s.links s.sm_priv p s.sm_priv ws vs h.2 in
    let pd : Distinct (p ∷ vs) = Distinct-tail ws (p ∷ vs) h.1.1 in
    (
      record (clear_flags vs s) { links = list_del p s.links },
      rw (==_ne s.sm_priv 0 h.0, enough (length vs) fuel more)
          (sweep vs p s.sm_priv (suc (fuel - length vs - 1)) s back marked pd.1
            ∙ stop (fuel - length vs - 1) (first vs s.sm_priv) p (clear_flags vs s)
                (prev-first s.links p vs s.sm_priv back) (cleared-zero vs s.visited p z)),
      unlink-Queue (clear_flags vs s) ws p vs h,
      (cleared-All vs s.visited pd.1, cleared-other vs s.visited),
    )

-- When all pages have been visited, the loop comes to the head of the queue. If the memory in front of
-- the head, read as a page's flag, is 0, then clock_swap_out_victim unlinks the head of the queue and
-- gives it as the page to swap out; this needs one turn of the loop more than there are pages.
pub clock_swap_out_victim-head :
    (s : Pages) (ps : List ℕ) (fuel : ℕ)
    → Queue s ps
    → All (λ v. s.visited v ≡ 1) ps
    → s.visited s.sm_priv ≡ 0
    → length ps < fuel
    → (t : Pages) × (clock_swap_out_victim fuel 0 s ≡ ok (s.sm_priv, t))
      × (t.links ≡ list_del s.sm_priv s.links)
      × FlagsCleared s ps t
unfolding clock_swap_out_victim
clock_swap_out_victim-head s ps fuel h marked z more = (
  record (clear_flags ps s) { links = list_del s.sm_priv s.links },
  rw (==_ne s.sm_priv 0 h.0, enough (length ps) fuel more)
      (sweep ps s.sm_priv s.sm_priv (suc (fuel - length ps - 1)) s h.2 marked h.1.1
        ∙ stop (fuel - length ps - 1) (first ps s.sm_priv) s.sm_priv (clear_flags ps s)
            (prev-first s.links s.sm_priv ps s.sm_priv h.2)
            (cleared-zero ps s.visited s.sm_priv z)),
  refl,
  (cleared-All ps s.visited h.1.1, cleared-other ps s.visited),
)

-- a turn of the loop at an entry whose flag is not 0
skip :
    (fuel y c : ℕ) (s : Pages)
    → s.links.prev y ≡ c
    → s.visited c ≢ 0
    → (f : ℕ → ℕ) × (clock_loop (suc fuel) y s ≡ clock_loop fuel c (record s { visited = f }))
      × ((q : ℕ) → s.visited q ≡ 0 → f q ≡ 0)
unfolding clock_loop second_chance
skip fuel y c s e n = elim (Bool-cases (s.visited c == 1)) [
  | inl m ↦
      (write_at s.visited c 0, rw (e, ==_ne (s.visited c) 0 n, m) refl, write_at-zero s.visited c)
  | inr m ↦ (s.visited, rw (e, ==_ne (s.visited c) 0 n, m) refl, λ q h. h)
]

-- When all pages have been visited, there is one at least, and the memory in front of the head, read as a
-- page's flag, is not 0, then the loop goes round once and clock_swap_out_victim gives the oldest page,
-- unlinks it, and leaves all flags cleared; this needs two turns of the loop more than there are pages.
pub clock_swap_out_victim-oldest :
    (s : Pages) (ws : List ℕ) (p fuel : ℕ)
    → Queue s (ws ++ (p ∷ []))
    → All (λ v. s.visited v ≡ 1) (ws ++ (p ∷ []))
    → s.visited s.sm_priv ≢ 0
    → suc (length (ws ++ (p ∷ []))) < fuel
    → (t : Pages) × (clock_swap_out_victim fuel 0 s ≡ ok (p, t))
      × Queue t ws
      × All (λ v. t.visited v ≡ 0) (ws ++ (p ∷ []))
unfolding clock_swap_out_victim
clock_swap_out_victim-oldest s ws p fuel h marked n more =
    let ps : List ℕ = ws ++ (p ∷ []) in
    let rest : ℕ = fuel - length ps - 2 in
    let e : fuel ≡ length ps + suc (suc rest) = omega arith in
    let (f, turn, keeps) =
      skip (suc rest) (first ps s.sm_priv) s.sm_priv (clear_flags ps s)
        (prev-first s.links s.sm_priv ps s.sm_priv h.2)
        (λ z. n (sym (cleared-other ps s.visited s.sm_priv h.1.0) ∙ z)) in
    let at-end : s.links.prev s.sm_priv ≡ p =
      (Chain-last s.links s.sm_priv s.sm_priv ps h.2).0 ∙ last-append s.sm_priv p ws in
    let off : All (λ v. f v ≡ 0) ps = All-map _ _ ps keeps (cleared-All ps s.visited h.1.1) in
    (
      record s { visited = f; links = list_del p s.links },
      rw (==_ne s.sm_priv 0 h.0) (
          ap (λ k. clock_loop k s.sm_priv s) e
          ∙ sweep ps s.sm_priv s.sm_priv (suc (suc rest)) s h.2 marked h.1.1
          ∙ turn
          ∙ stop rest s.sm_priv p (record s { visited = f }) at-end
              (All-append _ ws (p ∷ []) off).1.0),
      subst (Queue (record s { visited = f; links = list_del p s.links })) (append-nil ws)
          (unlink-Queue (record s { visited = f }) ws p [] h),
      off,
    )
