-- ===== src/Libs/ListEntry/Distinct.antt =====
-- Entries that are pairwise different: what follows for the parts of a list.
use os_labs.Common.{ℕ, ◌≢◌, sym, List, [], ◌∷◌, ◌++◌, All}

infix 4 ◌∉◌
abbrev pub ◌∉◌ : ℕ → List ℕ → Type 0
c ∉ xs = All (λ x. x ≢ c) xs

abbrev pub Distinct : List ℕ → Type 0
Distinct [] = Unit
Distinct (x ∷ xs) = (x ∉ xs) × Distinct xs

pub ne_sym : {a b : ℕ} → a ≢ b → b ≢ a
ne_sym h e = h (sym e)

pub All-append {ℓ κ} :
    {A : Type ℓ} (P : A → Type κ) (xs ys : List A) → All P (xs ++ ys) → All P xs × All P ys
All-append P [] ys h = (tt, h)
All-append P (x ∷ xs) ys h = let (p, q) = All-append P xs ys h.1 in ((h.0, p), q)

pub append-All {ℓ κ} :
    {A : Type ℓ} (P : A → Type κ) (xs ys : List A) → All P xs → All P ys → All P (xs ++ ys)
append-All P [] ys p q = q
append-All P (x ∷ xs) ys p q = (p.0, append-All P xs ys p.1 q)

pub All-map {ℓ κ μ} :
    {A : Type ℓ} (P : A → Type κ) (Q : A → Type μ) (xs : List A)
    → ((a : A) → P a → Q a)
    → All P xs
    → All Q xs
All-map P Q [] f h = tt
All-map P Q (x ∷ xs) f h = (f x h.0, All-map P Q xs f h.1)

pub All-zip {ℓ κ μ} :
    {A : Type ℓ} (P : A → Type κ) (Q : A → Type μ) (xs : List A)
    → All P xs
    → All Q xs
    → All (λ a. P a × Q a) xs
All-zip P Q [] p q = tt
All-zip P Q (x ∷ xs) p q = ((p.0, q.0), All-zip P Q xs p.1 q.1)

All-true {ℓ κ} : {A : Type ℓ} (P : A → Type κ) (xs : List A) → ((a : A) → P a) → All P xs
All-true P [] f = tt
All-true P (x ∷ xs) f = (f x, All-true P xs f)

-- No later entry is among those before it.
pub Distinct-apart : (xs zs : List ℕ) → Distinct (xs ++ zs) → All (λ z. z ∉ xs) zs
Distinct-apart [] zs d = All-true _ zs (λ z. tt)
Distinct-apart (x ∷ xs) zs d =
    All-zip _ _ zs (All-map _ _ zs (λ z. ne_sym) (All-append _ xs zs d.0).1)
      (Distinct-apart xs zs d.1)

pub Distinct-tail : (xs ys : List ℕ) → Distinct (xs ++ ys) → Distinct ys
Distinct-tail [] ys d = d
Distinct-tail (x ∷ xs) ys d = Distinct-tail xs ys d.1

-- One more entry in the middle.
pub Distinct-insert :
    (xs : List ℕ) (c : ℕ) (ys : List ℕ)
    → c ∉ (xs ++ ys)
    → Distinct (xs ++ ys)
    → Distinct (xs ++ (c ∷ ys))
Distinct-insert [] c ys out d = (out, d)
Distinct-insert (x ∷ xs) c ys out d =
    let (p, q) = All-append _ xs ys d.0 in
    (append-All _ xs (c ∷ ys) p (ne_sym out.0, q), Distinct-insert xs c ys out.1 d.1)

-- Taking an entry out of the middle.
pub Distinct-remove :
    (xs : List ℕ) (c : ℕ) (ys : List ℕ)
    → Distinct (xs ++ (c ∷ ys))
    → (c ∉ (xs ++ ys)) × Distinct (xs ++ ys)
Distinct-remove [] c ys d = d
Distinct-remove (x ∷ xs) c ys d =
    let (p, q) = All-append _ xs (c ∷ ys) d.0 in
    let (out, rest) = Distinct-remove xs c ys d.1 in
    ((ne_sym q.0, out), (append-All _ xs ys p q.1, rest))

pub Distinct-snoc : (xs : List ℕ) (c : ℕ) → Distinct xs → c ∉ xs → Distinct (xs ++ (c ∷ []))
Distinct-snoc [] c d out = (tt, tt)
Distinct-snoc (x ∷ xs) c d out =
    (append-All _ xs (c ∷ []) d.0 (ne_sym out.0, tt), Distinct-snoc xs c d.1 out.1)
