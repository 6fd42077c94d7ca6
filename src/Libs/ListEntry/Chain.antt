-- ===== src/Libs/ListEntry/Chain.antt =====
-- What it means that entries hang together in both directions, and which writes leave a stretch alone.
use os_labs.Common.{ℕ, ◌≡◌, ◌≢◌, refl, List, [], ◌∷◌, ◌++◌, arith}
use os_labs.Libs.ListEntry.Distinct.{◌∉◌}
use os_labs.Libs.ListEntry.{Links, write, set_next, set_prev}

-- From `a` the `next` pointers lead over `xs` to `z`, and the `prev` pointers back.
abbrev pub Chain : Links → ℕ → List ℕ → ℕ → Type 0
Chain m a [] z = (m.next a ≡ z) × (m.prev z ≡ a)
Chain m a (x ∷ xs) z = (m.next a ≡ x) × (m.prev x ≡ a) × Chain m x xs z

-- The last entry of `a ∷ xs`.
abbrev pub last : ℕ → List ℕ → ℕ
last a [] = a
last a (x ∷ xs) = last x xs

pub last-append : (a p : ℕ) (xs : List ℕ) → last a (xs ++ (p ∷ [])) ≡ p
last-append a p [] = refl
last-append a p (x ∷ xs) = last-append x p xs

pub Chain-last :
    (m : Links) (a z : ℕ) (xs : List ℕ)
    → Chain m a xs z
    → (m.prev z ≡ last a xs) × (m.next (last a xs) ≡ z)
Chain-last m a z [] h = (h.1, h.0)
Chain-last m a z (x ∷ xs) h = Chain-last m x z xs h.2

pub write_self : (f : ℕ → ℕ) (a v : ℕ) → write f a v a ≡ v
unfolding write
write_self f a v = ground arith

pub write_ne : (f : ℕ → ℕ) (a v b : ℕ) → b ≢ a → write f a v b ≡ f b
unfolding write
write_ne f a v b h = ground arith

pub Chain-split :
    (m : Links) (a x z : ℕ) (xs ys : List ℕ)
    → Chain m a (xs ++ (x ∷ ys)) z
    → Chain m a xs x × Chain m x ys z
Chain-split m a x z [] ys h = ((h.0, h.1), h.2)
Chain-split m a x z (w ∷ xs) ys h = let (p, q) = Chain-split m w x z xs ys h.2 in ((h.0, h.1, p), q)

pub Chain-join :
    (m : Links) (a x z : ℕ) (xs ys : List ℕ)
    → Chain m a xs x
    → Chain m x ys z
    → Chain m a (xs ++ (x ∷ ys)) z
Chain-join m a x z [] ys p q = (p.0, p.1, q)
Chain-join m a x z (w ∷ xs) ys p q = (p.0, p.1, Chain-join m w x z xs ys p.2 q)

pub Chain-set_next :
    (m : Links) (c v a z : ℕ) (xs : List ℕ)
    → a ≢ c
    → c ∉ xs
    → Chain m a xs z
    → Chain (set_next c v m) a xs z
Chain-set_next m c v a z [] n out h = (rw (write_ne m.next c v a n) h.0, h.1)
Chain-set_next m c v a z (x ∷ xs) n out h =
    (rw (write_ne m.next c v a n) h.0, h.1, Chain-set_next m c v x z xs out.0 out.1 h.2)

pub Chain-set_prev :
    (m : Links) (c v a z : ℕ) (xs : List ℕ)
    → z ≢ c
    → c ∉ xs
    → Chain m a xs z
    → Chain (set_prev c v m) a xs z
Chain-set_prev m c v a z [] n out h = (h.0, rw (write_ne m.prev c v z n) h.1)
Chain-set_prev m c v a z (x ∷ xs) n out h =
    (h.0, rw (write_ne m.prev c v x out.0) h.1, Chain-set_prev m c v x z xs n out.1 h.2)
