-- ===== src/Libs/ListEntry/Add.antt =====
-- `list_add` and `list_add_before` put an entry into its place, and move no other.
use mathlib.Core.Path.{subst, subst₂}
use mathlib.Core.List.{append_assoc}
use os_labs.Common.{last-cases, ℕ, ◌≡◌, ◌≢◌, sym, ap, ◌∙◌, List, [], ◌∷◌, ◌++◌, inl, inr, arith}
use os_labs.Libs.ListEntry.{Links, write, list_link, list_add, list_add_before}
use os_labs.Libs.ListEntry.Distinct.{
  ◌∉◌, Distinct, ne_sym, Distinct-apart, Distinct-tail, All-append,
}
use os_labs.Libs.ListEntry.Chain.{
  Chain, last, last-append, Chain-last, Chain-split, Chain-join, Chain-set_next, Chain-set_prev,
}

-- Entries that are neither the new one nor the two beside it.
link-frame :
    (m : Links) (elm p n a z : ℕ) (xs : List ℕ)
    → a ≢ elm
    → a ≢ p
    → z ≢ elm
    → z ≢ n
    → elm ∉ xs
    → p ∉ xs
    → n ∉ xs
    → Chain m a xs z
    → Chain (list_link elm p n m) a xs z
unfolding list_link
link-frame m elm p n a z xs ae ap ze zn ex px nx h = Chain-set_prev _ elm p a z xs ze ex (
    Chain-set_next _ elm n a z xs ae ex
      (Chain-set_next _ p elm a z xs ap px (Chain-set_prev m n elm a z xs zn nx h)))

-- The four pointers that are written.
link-ends :
    (m : Links) (elm p n : ℕ)
    → elm ≢ p
    → elm ≢ n
    → ((list_link elm p n m).next p ≡ elm)
      × ((list_link elm p n m).prev elm ≡ p)
      × ((list_link elm p n m).next elm ≡ n)
      × ((list_link elm p n m).prev n ≡ elm)
unfolding list_link write
link-ends m elm p n ep en = ground arith

-- The stretch from the entry behind which `elm` is linked.
link-tail :
    (m : Links) (elm p z : ℕ) (ys : List ℕ)
    → elm ≢ p
    → elm ≢ z
    → elm ∉ ys
    → p ∉ ys
    → z ∉ ys
    → Distinct ys
    → Chain m p ys z
    → Chain (list_link elm p (m.next p) m) p (elm ∷ ys) z
link-tail m elm p z [] np nz out pout zout d h =
    let (a, b, c, e) = link-ends m elm p (m.next p) np (λ q. nz (q ∙ h.0)) in
    (a, b, (c ∙ h.0, subst (λ w. (list_link elm p (m.next p) m).prev w ≡ elm) h.0 e))
link-tail m elm p z (y ∷ ys) np nz out pout zout d h =
    let (a, b, c, e) = link-ends m elm p y np (λ q. out.0 (sym q)) in
    let rest =
      link-frame m elm p y y z ys out.0 pout.0 (λ q. nz (sym q)) (λ q. zout.0 (sym q)) out.1 pout.1
        d.0 h.2 in
    subst (λ n. Chain (list_link elm p n m) p (elm ∷ y ∷ ys) z) (sym h.0) (a, b, (c, e, rest))

-- `list_add head elm` on a list with items `ys` has the items `elm ∷ ys`.
pub list_add-head :
    (m : Links) (head elm : ℕ) (ys : List ℕ)
    → elm ≢ head
    → elm ∉ ys
    → head ∉ ys
    → Distinct ys
    → Chain m head ys head
    → Chain (list_add head elm m) head (elm ∷ ys) head
unfolding list_add
list_add-head m head elm ys n out hout d h = link-tail m elm head head ys n n out hout hout d h

-- The entries before the one behind which `elm` is linked.
link-front :
    (m : Links) (elm head p : ℕ) (xs ys : List ℕ)
    → elm ∉ (head ∷ xs ++ (p ∷ ys))
    → Distinct (head ∷ xs ++ (p ∷ ys))
    → Chain m p ys head
    → Chain m head xs p
    → Chain (list_link elm p (m.next p) m) head xs p
link-front m elm head p xs [] out d t h =
    let (ox, op) = All-append _ xs (p ∷ []) out.1 in
    let (hx, hp) = All-append _ xs (p ∷ []) d.0 in
    let px = Distinct-apart xs (p ∷ []) d.1 in
    subst (λ n. Chain (list_link elm p n m) head xs p) (sym t.0)
      (link-frame m elm p head head p xs out.0 (ne_sym hp.0) op.0 hp.0 ox px.0 hx h)
link-front m elm head p xs (y ∷ ys) out d t h =
    let (ox, op) = All-append _ xs (p ∷ y ∷ ys) out.1 in
    let (hx, hp) = All-append _ xs (p ∷ y ∷ ys) d.0 in
    let px = Distinct-apart xs (p ∷ y ∷ ys) d.1 in
    let dt = Distinct-tail xs (p ∷ y ∷ ys) d.1 in
    subst (λ n. Chain (list_link elm p n m) head xs p) (sym t.0)
      (link-frame m elm p y head p xs out.0 (ne_sym hp.0) op.0 (ne_sym dt.0.0) ox px.0 px.1.0 h)

-- The list `xs`, `p`, `ys` after `elm` is linked behind `p`.
pub list_add-middle :
    (m : Links) (head elm p : ℕ) (xs ys : List ℕ)
    → elm ∉ (head ∷ xs ++ (p ∷ ys))
    → Distinct (head ∷ xs ++ (p ∷ ys))
    → Chain m head (xs ++ (p ∷ ys)) head
    → Chain (list_add p elm m) head (xs ++ (p ∷ elm ∷ ys)) head
unfolding list_add
list_add-middle m head elm p xs ys out d h =
    let (front, back) = Chain-split m head p head xs ys h in
    let (ox, op) = All-append _ xs (p ∷ ys) out.1 in
    let (hx, hp) = All-append _ xs (p ∷ ys) d.0 in
    let dt = Distinct-tail xs (p ∷ ys) d.1 in
    Chain-join _ head p head xs (elm ∷ ys) (link-front m elm head p xs ys out d back front)
      (link-tail m elm p head ys (ne_sym op.0) (ne_sym out.0) op.1 dt.0 hp.1 dt.1 back)

abbrev Given : Links → ℕ → ℕ → List ℕ → Type 0
Given m head elm zs = (elm ∉ (head ∷ zs)) × Distinct (head ∷ zs) × Chain m head zs head

-- `list_add` behind the last entry of `xs`, or behind the head if there is none.
pub list_add-at :
    (m : Links) (head elm : ℕ) (xs ys : List ℕ)
    → elm ∉ (head ∷ xs ++ ys)
    → Distinct (head ∷ xs ++ ys)
    → Chain m head (xs ++ ys) head
    → Chain (list_add (last head xs) elm m) head (xs ++ (elm ∷ ys)) head
list_add-at m head elm xs ys out d h = elim (last-cases xs) [
  | inl e ↦ at-start e
  | inr (ws, p, e) ↦ at-end ws p e
]
  where
    at-start : xs ≡ [] → Chain (list_add (last head xs) elm m) head (xs ++ (elm ∷ ys)) head
    at-start e =
        let (o, dd, c) = subst (λ ws. Given m head elm (ws ++ ys)) e (out, d, h) in
        subst (λ ws. Chain (list_add (last head ws) elm m) head (ws ++ (elm ∷ ys)) head) (sym e)
          (list_add-head m head elm ys (ne_sym o.0) o.1 dd.0 dd.1 c)

    at-end :
        (ws : List ℕ) (p : ℕ)
        → xs ≡ ws ++ (p ∷ [])
        → Chain (list_add (last head xs) elm m) head (xs ++ (elm ∷ ys)) head
    at-end ws p e =
        let (o, dd, c) =
          subst (Given m head elm) (ap (λ t. t ++ ys) e ∙ append_assoc ws (p ∷ []) ys)
            (out, d, h) in
        subst₂ (λ q zs. Chain (list_add q elm m) head zs head)
          (sym (ap (last head) e ∙ last-append head p ws))
          (sym (ap (λ t. t ++ (elm ∷ ys)) e ∙ append_assoc ws (p ∷ []) (elm ∷ ys)))
          (list_add-middle m head elm p ws ys o dd c)

-- `list_add_before le` links behind the entry that precedes `le`.
pub list_add_before-at :
    (m : Links) (head elm x : ℕ) (xs ys : List ℕ)
    → elm ∉ (head ∷ xs ++ (x ∷ ys))
    → Distinct (head ∷ xs ++ (x ∷ ys))
    → Chain m head (xs ++ (x ∷ ys)) head
    → Chain (list_add_before x elm m) head (xs ++ (elm ∷ x ∷ ys)) head
unfolding list_add_before list_add
list_add_before-at m head elm x xs ys out d h =
    let (front, back) = Chain-split m head x head xs ys h in
    let (p, n) = Chain-last m head x xs front in
    subst₂ (λ a b. Chain (list_link elm a b m) head (xs ++ (elm ∷ x ∷ ys)) head) (sym p) n
      (list_add-at m head elm xs (x ∷ ys) out d h)
