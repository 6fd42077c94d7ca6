-- ===== src/Process/Exit/Orphans.antt =====
-- All children of a process that exits go to the init process: the loop of `do_exit`.
use mathlib.Core.Path.{subst}
use mathlib.Core.List.{Memᴰ}
use mathlib.Core.List.Memᴰ
use os_labs.Common.{
  ℕ, zero, suc, ◌≤◌, ◌≡◌, ◌≢◌, refl, sym, ap, ◌∙◌, Bool, true, false, ◌||◌, ◌&&◌, ◌==◌, List, [],
  ◌∷◌, arith, Bool-cases, inl, inr, ==_ne, write_at-same, write_at-other, write_at_twice,
  write_at_self, Run, ok, length,
}
use os_labs.Libs.ListEntry.Distinct.{◌∉◌}
use os_labs.Process.Family.{Family, hand_over}
use os_labs.Process.Family.Siblings.{Kids}
use os_labs.Process.Family.Insert.{with_kids}
use os_labs.Process.Family.Adopt.{IsExiting, hand_over-IsExiting}
use os_labs.Process.Table.{Proc, Table, is_zombie}
use os_labs.Process.Exit.{hand_over_all}
use os_labs.Process.Exit.Wake.{IsWoken, woken, woken_twice, same-IsWoken, wake_if-IsWoken}
use os_labs.Process.Exit.Find.{false-true}

-- the children after the loop: each one goes to the front of those of `q`
abbrev pub rev_onto : List ℕ → List ℕ → List ℕ
rev_onto [] ys = ys
rev_onto (x ∷ xs) ys = rev_onto xs (x ∷ ys)

abbrev pub any_zombie : (ℕ → Proc) → List ℕ → Bool
any_zombie ps [] = false
any_zombie ps (x ∷ xs) = is_zombie (ps x).state || any_zombie ps xs

-- What the loop did to the parents and the processes.
pub record IsHanded {S : Type 0} (t : Table S) (xs : List ℕ) (f' : Family) (ps' : ℕ → Proc)
    : Type 0 where
  pub given : (x : ℕ) → Memᴰ x xs → f'.parent x ≡ t.initproc
  pub kept : (x : ℕ) → x ∉ xs → f'.parent x ≡ t.family.parent x
  pub woken : IsWoken t.initproc t.procs ps' (any_zombie t.procs xs)

or_left : (b c : Bool) → (b && c || c) ≡ c
or_left true true = refl
or_left true false = refl
or_left false c = refl

-- First the one, then what follows.
IsWoken-then :
    (q : ℕ) (ps ps1 ps2 : ℕ → Proc) (b : Bool)
    → IsWoken q ps ps1 true
    → IsWoken q ps1 ps2 b
    → IsWoken q ps ps2 true
IsWoken-then q ps ps1 ps2 b f g = record {
  others = λ x n. g.others x n ∙ f.others x n;
  number = g.number ∙ f.number;
  alive = g.alive;
  stays = λ e. g.stays (f.stays e);
  runs = λ e w. g.stays (f.runs e w);
  idle = λ e. absurd (false-true (sym e));
  exact = λ x.
      g.exact x
      ∙ ap (woken (b && x == q)) (f.exact x)
      ∙ woken_twice (b && x == q) (x == q) (ps x)
      ∙ ap (λ c. woken c (ps x)) (or_left b (x == q));
}

IsWoken-cons :
    (q c : ℕ) (xs : List ℕ) (ps ps1 ps2 : ℕ → Proc)
    → IsWoken q ps ps1 (is_zombie (ps c).state)
    → IsWoken q ps1 ps2 (any_zombie ps1 xs)
    → IsWoken q ps ps2 (any_zombie ps (c ∷ xs))
IsWoken-cons q c xs ps ps1 ps2 w h = elim (Bool-cases (is_zombie (ps c).state)) [
  | inl e ↦ rw e (IsWoken-then q ps ps1 ps2 (any_zombie ps1 xs) (subst (IsWoken q ps ps1) e w) h)
  | inr e ↦ rw e (subst (λ z. IsWoken q z ps2 (any_zombie z xs)) (w.idle e) h)
]

hand_over-parent_first : (p q : ℕ) (f : Family) → (hand_over p q f).parent (f.cptr p) ≡ q
unfolding hand_over
hand_over-parent_first p q f = write_at-same f.parent (f.cptr p) q

hand_over-parent_others :
    (p q : ℕ) (f : Family) (x : ℕ) → x ≢ f.cptr p → (hand_over p q f).parent x ≡ f.parent x
unfolding hand_over
hand_over-parent_others p q f x n = write_at-other f.parent (f.cptr p) q x n

kids_onto :
    (q c : ℕ) (xs : List ℕ) (kids : Kids)
    → with_kids q (rev_onto xs (with_kids q (c ∷ kids q) kids q)) (with_kids q (c ∷ kids q) kids)
      ≡ with_kids q (rev_onto xs (c ∷ kids q)) kids
kids_onto q c xs kids =
    ap (λ z. with_kids q (rev_onto xs z) (with_kids q (c ∷ kids q) kids))
      (write_at-same kids q (c ∷ kids q))
    ∙ write_at_twice kids q (c ∷ kids q) (rev_onto xs (c ∷ kids q))

module _ {S : Type 0} where
  -- The loop ends within as many rounds as there are children.
  abbrev Hands : Run (Table S) → Table S → List ℕ → Kids → Type 0
  Hands r t xs kids =
      (f' : Family) × (ps' : ℕ → Proc) × (r ≡ ok (record t { family = f'; procs = ps' }))
      × IsExiting t.current f' 0 [] (with_kids t.initproc (rev_onto xs (kids t.initproc)) kids)
      × IsHanded t xs f' ps'

  -- one round and the others
  IsHanded-cons :
      (t : Table S) (c : ℕ) (xs : List ℕ) (f' : Family) (ps1 ps' : ℕ → Proc)
      → t.family.cptr t.current ≡ c
      → c ∉ xs
      → IsHanded
          (record t { family = hand_over t.current t.initproc t.family; procs = ps1 })
          xs
          f'
          ps'
      → IsWoken t.initproc t.procs ps' (any_zombie t.procs (c ∷ xs))
      → IsHanded t (c ∷ xs) f' ps'
  IsHanded-cons t c xs f' ps1 ps' e out h w =
      let p = t.current in
      let q = t.initproc in
      record {
        given = λ x m. elim (Memᴰ.cases_cons m) [
          | inl g ↦ h.kept x (rw g out) ∙ rw (g ∙ sym e) (hand_over-parent_first p q t.family)
          | inr k ↦ h.given x k
        ];
        kept =
            λ x o. h.kept x o.1 ∙ hand_over-parent_others p q t.family x (λ g. o.0 (sym (g ∙ e)));
        woken = w;
      }

  -- The loop of do_exit ends within as many rounds as there are children, all of which the init process gets, the
  -- last one first; each other process keeps its parent, and the init process is woken if it waited and
  -- one of them is a zombie.
  pub hand_over_all-Hands :
      (xs : List ℕ) (fuel : ℕ) (t : Table S) (y : ℕ) (kids : Kids)
      → length xs ≤ fuel
      → t.initproc ≢ t.current
      → is_zombie (t.procs t.initproc).state ≡ false
      → IsExiting t.current t.family y xs kids
      → Hands (hand_over_all fuel t) t xs kids
  unfolding hand_over_all
  hand_over_all-Hands [] zero t y kids l n z inv = (
    t.family,
    t.procs,
    rw (inv.0) refl,
    rw (write_at_self kids t.initproc) inv,
    record {
      given = λ x m. absurd (Memᴰ.not-nil m);
      kept = λ x o. refl;
      woken = same-IsWoken t.initproc t.procs false z (λ e. absurd (false-true e)) refl;
    },
  )
  hand_over_all-Hands [] (suc fuel) t y kids l n z inv = (
    t.family,
    t.procs,
    rw (inv.0) refl,
    rw (write_at_self kids t.initproc) inv,
    record {
      given = λ x m. absurd (Memᴰ.not-nil m);
      kept = λ x o. refl;
      woken = same-IsWoken t.initproc t.procs false z (λ e. absurd (false-true e)) refl;
    },
  )
  hand_over_all-Hands (c ∷ xs) zero t y kids l n z inv = absurd (omega (arith, l))
  hand_over_all-Hands (c ∷ xs) (suc fuel) t y kids l n z inv =
      let p = t.current in
      let q = t.initproc in
      let t1 = record t { family = hand_over p q t.family } in
      let b = is_zombie (t.procs c).state in
      let (ps1, run, w) = wake_if-IsWoken t1 q z b in
      let (f', ps', rest, ex, h) =
        hand_over_all-Hands xs fuel (record t1 { procs = ps1 }) c (with_kids q (c ∷ kids q) kids)
          (omega arith) n w.alive (hand_over-IsExiting p q n t.family y c xs kids inv) in
      (
        f',
        ps',
        rw (inv.0.0, ==_ne c 0 inv.0.1, run) rest,
        rw (sym (kids_onto q c xs kids)) ex,
        IsHanded-cons t c xs f' ps1 ps' inv.0.0 inv.1.0 h
            (IsWoken-cons q c xs t.procs ps1 ps' w h.woken),
      )
