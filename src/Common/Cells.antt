-- ===== src/Common/Cells.antt =====
-- Cells by address: a function that a write changes at one place.
use Prim.Native.Nat.{ℕ}
use mathlib.Core.Path.{◌≡◌, refl, sym, subst, fun_ext}
use mathlib.Core.Logic.{◌≢◌, inl, inr}
use os_labs.Common.Tests.{◌==◌, ==_refl, ==_ne, ==_iff, Bool-cases, if◌then◌else◌}

module _ {ℓ} {A : Type ℓ} where
  unfoldable pub write_at : (ℕ → A) → ℕ → A → ℕ → A
  write_at f a v b = if b == a then v else f b

  pub write_at-same : (f : ℕ → A) (a : ℕ) (v : A) → write_at f a v a ≡ v
  unfolding write_at
  write_at-same f a v = rw (==_refl a) refl

  pub write_at-other : (f : ℕ → A) (a : ℕ) (v : A) (b : ℕ) → b ≢ a → write_at f a v b ≡ f b
  unfolding write_at
  write_at-other f a v b h = rw (==_ne b a h) refl

  write_at_twice-at :
      (f : ℕ → A) (a : ℕ) (v w : A) (b : ℕ) → write_at (write_at f a v) a w b ≡ write_at f a w b
  unfolding write_at
  write_at_twice-at f a v w b = elim (Bool-cases (b == a)) [ inl e ↦ rw e refl | inr e ↦ rw e refl ]

  pub write_at_twice :
      (f : ℕ → A) (a : ℕ) (v w : A) → write_at (write_at f a v) a w ≡ write_at f a w
  write_at_twice f a v w = fun_ext (write_at_twice-at f a v w)

  write_at_self-at : (f : ℕ → A) (a : ℕ) (b : ℕ) → write_at f a (f a) b ≡ f b
  unfolding write_at
  write_at_self-at f a b = elim (Bool-cases (b == a)) [
    | inl e ↦ rw (e, (==_iff b a).0 e) refl
    | inr e ↦ rw e refl
  ]

  pub write_at_self : (f : ℕ → A) (a : ℕ) → write_at f a (f a) ≡ f
  write_at_self f a = fun_ext (write_at_self-at f a)

  -- What holds of the new value and of the old cell holds of the cell after the write.
  pub write_at_keeps {κ} :
      (P : ℕ → A → Type κ) (f : ℕ → A) (a : ℕ) (v : A) (b : ℕ)
      → P a v
      → P b (f b)
      → P b (write_at f a v b)
  unfolding write_at
  write_at_keeps P f a v b new old = elim (Bool-cases (b == a)) [
    | inl e ↦ rw e (subst (λ c. P c v) (sym ((==_iff b a).0 e)) new)
    | inr e ↦ rw e old
  ]
