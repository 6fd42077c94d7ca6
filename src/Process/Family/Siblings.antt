-- ===== src/Process/Family/Siblings.antt =====
-- What it means that the pointers form a list of children, and which writes leave it alone.
use os_labs.Common.{ℕ, ◌≡◌, ◌≢◌, sym, ◌∙◌, List, [], ◌∷◌, ◌++◌, All}
use os_labs.Libs.ListEntry.Distinct.{◌∉◌, Distinct, All-append}
use os_labs.Libs.ListEntry.Chain.{last}
use os_labs.Process.Family.{Family}

-- From the pointer `c` on, the processes `xs` are children of `a`: each is behind the one before by
-- `optr` and names it by `yptr`, the first names `y`.
abbrev pub Siblings : Family → ℕ → ℕ → ℕ → List ℕ → Type 0
Siblings f a y c [] = c ≡ 0
Siblings f a y c (x ∷ xs) =
    (c ≡ x) × (x ≢ 0) × (f.parent x ≡ a) × (f.yptr x ≡ y) × Siblings f a x (f.optr x) xs

-- the children of each process, the youngest first
abbrev pub Kids : Type 0
Kids = ℕ → List ℕ

abbrev pub IsFamily : Family → Kids → Type 0
IsFamily f kids = (a : ℕ) → Siblings f a 0 (f.cptr a) (kids a) × Distinct (kids a)

-- The fields that matter of the processes `xs` are the same.
pub Siblings-frame :
    (f g : Family) (a y c : ℕ) (xs : List ℕ)
    → All (λ x. (g.parent x ≡ f.parent x) × (g.yptr x ≡ f.yptr x) × (g.optr x ≡ f.optr x)) xs
    → Siblings f a y c xs
    → Siblings g a y c xs
Siblings-frame f g a y c [] same s = s
Siblings-frame f g a y c (x ∷ xs) ((p, q, r), same) (e, n, up, back, rest) =
    (e, n, p ∙ up, q ∙ back, rw r (Siblings-frame f g a x (f.optr x) xs same rest))

-- All of them have the parent `a`.
pub Siblings-parent :
    (f : Family) (a y c : ℕ) (xs : List ℕ) → Siblings f a y c xs → All (λ x. f.parent x ≡ a) xs
Siblings-parent f a y c [] s = tt
Siblings-parent f a y c (x ∷ xs) (e, n, up, back, rest) =
    (up, Siblings-parent f a x (f.optr x) xs rest)

pub Siblings-nonzero : (f : Family) (a y c : ℕ) (xs : List ℕ) → Siblings f a y c xs → 0 ∉ xs
Siblings-nonzero f a y c [] s = tt
Siblings-nonzero f a y c (x ∷ xs) (e, n, up, back, rest) =
    (n, Siblings-nonzero f a x (f.optr x) xs rest)

-- A process that is not among them is not the first.
pub Siblings-first :
    (f : Family) (a y c : ℕ) (xs : List ℕ) (p : ℕ) → p ∉ xs → Siblings f a y c xs → c ≢ 0 → p ≢ c
Siblings-first f a y c [] p out s n = absurd (n s)
Siblings-first f a y c (x ∷ xs) p out s n = λ e. out.0 (sym (e ∙ s.0))

-- The stretch behind one of them, and the one before it.
pub Siblings-behind :
    (f : Family) (a y c : ℕ) (ws : List ℕ) (p : ℕ) (vs : List ℕ)
    → Siblings f a y c (ws ++ (p ∷ vs))
    → Siblings f a p (f.optr p) vs
Siblings-behind f a y c [] p vs s = s.4
Siblings-behind f a y c (w ∷ ws) p vs s = Siblings-behind f a w (f.optr w) ws p vs s.4

pub Siblings-younger :
    (f : Family) (a y c w : ℕ) (ws : List ℕ) (p : ℕ) (vs : List ℕ)
    → Siblings f a y c (w ∷ ws ++ (p ∷ vs))
    → f.yptr p ≡ last w ws
Siblings-younger f a y c w [] p vs s = s.4.3
Siblings-younger f a y c w (u ∷ ws) p vs s = Siblings-younger f a w (f.optr w) u ws p vs s.4

pub last-out : (w u : ℕ) (ws : List ℕ) → w ∉ (u ∷ ws) → w ≢ last u ws
last-out w u [] out = λ e. out.0 (sym e)
last-out w u (v ∷ ws) out = last-out w v ws out.1

last-All {κ} : (P : ℕ → Type κ) (u : ℕ) (ws : List ℕ) → All P (u ∷ ws) → P (last u ws)
last-All P u [] h = h.0
last-All P u (v ∷ ws) h = last-All P v ws h.1

-- The one before, if there is one, has the same parent.
pub younger-parent :
    (f : Family) (a c : ℕ) (ws : List ℕ) (p : ℕ) (vs : List ℕ)
    → Siblings f a 0 c (ws ++ (p ∷ vs))
    → f.yptr p ≢ 0
    → f.parent (f.yptr p) ≡ a
younger-parent f a c [] p vs s n = absurd (n s.3)
younger-parent f a c (w ∷ ws) p vs s n = rw (Siblings-younger f a 0 c w ws p vs s) (
    last-All (λ x. f.parent x ≡ a) w ws
      (All-append _ (w ∷ ws) (p ∷ vs) (Siblings-parent f a 0 c (w ∷ ws ++ (p ∷ vs)) s)).0)
