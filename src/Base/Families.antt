-- ===== src/Base/Families.antt =====
-- What each of several threads has, by its number.
use Prim.Native.Nat.{ℕ}
use mathlib.Core.Path.{◌≡◌, subst}
use mathlib.Core.Logic.{inl, inr}
use mathlib.Core.Bool.{false}
use async_log_cloud_storage.Base.Tests.{◌==◌, ==_iff, if◌then◌else◌, Bool-cases}

-- The family with `a` at `t`.
abbrev pub replaced {ℓ} : {A : Type ℓ} → ℕ → A → (ℕ → A) → ℕ → A
replaced t a family u = if t == u then a else family u

pub replaced-all {ℓ} :
    {A : Type ℓ} (P : ℕ → A → Type 0) (t : ℕ) (a : A) (family : ℕ → A)
    → P t a
    → ((u : ℕ) → (t == u) ≡ false → P u (family u))
    → (u : ℕ) → P u (replaced t a family u)
replaced-all P t a family new old u = elim (Bool-cases (t == u)) [
  | inl e ↦ rw e (subst (λ v. P v a) ((==_iff t u).0 e) new)
  | inr e ↦ rw e (old u e)
]
