-- ===== src/Libs/ListEntry/Del.antt =====
-- `list_del` takes an entry out of its place, and moves no other.
use mathlib.Core.Path.{subst}
use mathlib.Core.List.{append_assoc}
use os_labs.Common.{last-cases, ℕ, ◌≢◌, sym, ◌∙◌, ap, List, [], ◌∷◌, ◌++◌, inl, inr}
use os_labs.Libs.ListEntry.{Links, list_unlink, list_del}
use os_labs.Libs.ListEntry.Distinct.{
  ◌∉◌, Distinct, ne_sym, Distinct-apart, Distinct-tail, All-append,
}
use os_labs.Libs.ListEntry.Chain.{
  Chain, write_self, Chain-split, Chain-join, Chain-set_next, Chain-set_prev,
}

abbrev Given : Links → ℕ → List ℕ → Type 0
Given m head zs = Distinct (head ∷ zs) × Chain m head zs head

unlink-frame :
    (m : Links) (p n a z : ℕ) (xs : List ℕ)
    → a ≢ p
    → z ≢ n
    → p ∉ xs
    → n ∉ xs
    → Chain m a xs z
    → Chain (list_unlink p n m) a xs z
unfolding list_unlink
unlink-frame m p n a z xs ap zn px nx h =
    Chain-set_prev _ n p a z xs zn nx (Chain-set_next m p n a z xs ap px h)

-- The stretch behind the entry `x` that goes, hung on to the one before it.
unlink-tail :
    (m : Links) (p x z : ℕ) (ys : List ℕ)
    → p ∉ ys
    → z ∉ ys
    → Distinct ys
    → Chain m x ys z
    → Chain (list_unlink p (m.next x) m) p ys z
unfolding list_unlink
unlink-tail m p x z [] pout zout d h = rw h.0 (write_self m.next p z, write_self m.prev z p)
unlink-tail m p x z (y ∷ ys) pout zout d h =
    subst (λ n. Chain (list_unlink p n m) p (y ∷ ys) z) (sym h.0)
      (
        write_self m.next p y,
        write_self m.prev y p,
        unlink-frame m p y y z ys pout.0 (ne_sym zout.0) pout.1 d.0 h.2,
      )

unlink-front :
    (m : Links) (head p x : ℕ) (xs ys : List ℕ)
    → Distinct (head ∷ xs ++ (p ∷ x ∷ ys))
    → Chain m x ys head
    → Chain m head xs p
    → Chain (list_unlink p (m.next x) m) head xs p
unlink-front m head p x xs [] d t h =
    let (hx, hp) = All-append _ xs (p ∷ x ∷ []) d.0 in
    let px = Distinct-apart xs (p ∷ x ∷ []) d.1 in
    subst (λ n. Chain (list_unlink p n m) head xs p) (sym t.0)
      (unlink-frame m p head head p xs (ne_sym hp.0) hp.0 px.0 hx h)
unlink-front m head p x xs (y ∷ ys) d t h =
    let (hx, hp) = All-append _ xs (p ∷ x ∷ y ∷ ys) d.0 in
    let px = Distinct-apart xs (p ∷ x ∷ y ∷ ys) d.1 in
    let dt = Distinct-tail xs (p ∷ x ∷ y ∷ ys) d.1 in
    subst (λ n. Chain (list_unlink p n m) head xs p) (sym t.0)
      (unlink-frame m p y head p xs (ne_sym hp.0) (ne_sym dt.0.1.0) px.0 px.1.1.0 h)

-- an entry `x` behind another one
list_del-middle :
    (m : Links) (head p x : ℕ) (xs ys : List ℕ)
    → Distinct (head ∷ xs ++ (p ∷ x ∷ ys))
    → Chain m head (xs ++ (p ∷ x ∷ ys)) head
    → Chain (list_del x m) head (xs ++ (p ∷ ys)) head
unfolding list_del
list_del-middle m head p x xs ys d h =
    let (front, back) = Chain-split m head p head xs (x ∷ ys) h in
    let (hx, hp) = All-append _ xs (p ∷ x ∷ ys) d.0 in
    let dt = Distinct-tail xs (p ∷ x ∷ ys) d.1 in
    subst (λ q. Chain (list_unlink q (m.next x) m) head (xs ++ (p ∷ ys)) head) (sym back.1)
      (Chain-join _ head p head xs ys (unlink-front m head p x xs ys d back.2 front)
        (unlink-tail m p x head ys dt.0.1 hp.1.1 dt.1.1 back.2))

list_del-head :
    (m : Links) (head x : ℕ) (ys : List ℕ)
    → Distinct (head ∷ x ∷ ys)
    → Chain m head (x ∷ ys) head
    → Chain (list_del x m) head ys head
unfolding list_del
list_del-head m head x ys d h =
    subst (λ q. Chain (list_unlink q (m.next x) m) head ys head) (sym h.1)
      (unlink-tail m head x head ys d.0.1 d.0.1 d.1.1 h.2)

-- `list_del` takes one entry out of the list and leaves the others in their order.
pub list_del-at :
    (m : Links) (head x : ℕ) (xs ys : List ℕ)
    → Distinct (head ∷ xs ++ (x ∷ ys))
    → Chain m head (xs ++ (x ∷ ys)) head
    → Chain (list_del x m) head (xs ++ ys) head
list_del-at m head x xs ys d h = elim (last-cases xs) [
  | inl e ↦
      let (dd, c) = subst (λ ws. Given m head (ws ++ (x ∷ ys))) e (d, h) in
      subst (λ ws. Chain (list_del x m) head (ws ++ ys) head) (sym e)
        (list_del-head m head x ys dd c)
  | inr (ws, p, e) ↦
      let (dd, c) =
        subst (Given m head) (ap (λ t. t ++ (x ∷ ys)) e ∙ append_assoc ws (p ∷ []) (x ∷ ys))
          (d, h) in
      subst (λ zs. Chain (list_del x m) head zs head)
        (sym (ap (λ t. t ++ ys) e ∙ append_assoc ws (p ∷ []) ys))
        (list_del-middle m head p x ws ys dd c)
]
