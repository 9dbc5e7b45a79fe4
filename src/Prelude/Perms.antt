-- ===== src/Prelude/Perms.antt =====
-- Boolean filters and tests on lists that are permutations of one another.
use Prim.Native.Nat.{suc}
use mathlib.Core.Path.{◌≡◌, refl, ap, ◌∙◌}
use mathlib.Core.Logic.{∥∥₁_elim, inl, inr}
use mathlib.Core.Bool.{Bool, Bool-set}
use mathlib.Core.List.{List, ◌∷◌, Perm, Permᴰ, Perm-prop}
use mathlib.Core.List.Perm
use native.Mathlib.Nat.{ℕ_set}
use native.Mathlib.Omega.{arith}
use pow_server.Prelude.Tests.{Bool-cases}
use pow_server.Prelude.Lists.{length, filter, any}

module _ {ℓ} {A : Type ℓ} (p : A → Bool) where
  filter-cons :
      {a b : A} (xs ys : List A)
      → a ≡ b
      → Perm (filter p xs) (filter p ys)
      → Perm (filter p (a ∷ xs)) (filter p (b ∷ ys))
  filter-cons {a} {b} xs ys e h = elim (Bool-cases (p b)) [
    | inl keep ↦ rw (e, keep) (Perm.cons b h)
    | inr drop ↦ rw (e, drop) h
  ]

  filter-swap :
      {a b c d : A} (xs : List A)
      → a ≡ d
      → b ≡ c
      → Perm (filter p (a ∷ b ∷ xs)) (filter p (c ∷ d ∷ xs))
  filter-swap {c} {d} xs e f = elim (Bool-cases (p c)) [
    | inl left ↦ elim (Bool-cases (p d)) [
      | inl right ↦ rw (e, f, left, right) (Perm.swap c d (filter p xs))
      | inr gone ↦ rw (e, f, left, gone) (Perm.refl _)
    ]
    | inr dropped ↦ elim (Bool-cases (p d)) [
      | inl right ↦ rw (e, f, dropped, right) (Perm.refl _)
      | inr gone ↦ rw (e, f, dropped, gone) (Perm.refl _)
    ]
  ]

  filter-permᴰ : {xs ys : List A} → Permᴰ xs ys → Perm (filter p xs) (filter p ys)
  filter-permᴰ Permᴰ.nil = Perm.nil
  filter-permᴰ (Permᴰ.cons e h) = filter-cons _ _ e (filter-permᴰ h)
  filter-permᴰ (Permᴰ.swap e f) = filter-swap _ e f
  filter-permᴰ (Permᴰ.trans g h) = Perm.trans (filter-permᴰ g) (filter-permᴰ h)

  pub filter-perm : {xs ys : List A} → Perm xs ys → Perm (filter p xs) (filter p ys)
  filter-perm h = ∥∥₁_elim h Perm-prop filter-permᴰ

  any-permᴰ : {xs ys : List A} → Permᴰ xs ys → any p xs ≡ any p ys
  any-permᴰ Permᴰ.nil = refl
  any-permᴰ (Permᴰ.cons e h) = rw (e, any-permᴰ h)
  any-permᴰ (Permᴰ.swap {a' = c} {b' = d} e f) = rw (e, f) (ground arith)
  any-permᴰ (Permᴰ.trans g h) = any-permᴰ g ∙ any-permᴰ h

  pub any-perm : {xs ys : List A} → Perm xs ys → any p xs ≡ any p ys
  any-perm h = ∥∥₁_elim h (Bool-set _ _) any-permᴰ

module _ {ℓ} {A : Type ℓ} where
  length-permᴰ : {xs ys : List A} → Permᴰ xs ys → length xs ≡ length ys
  length-permᴰ Permᴰ.nil = refl
  length-permᴰ (Permᴰ.cons e h) = ap suc (length-permᴰ h)
  length-permᴰ (Permᴰ.swap e f) = refl
  length-permᴰ (Permᴰ.trans g h) = length-permᴰ g ∙ length-permᴰ h

  pub length-perm : {xs ys : List A} → Perm xs ys → length xs ≡ length ys
  length-perm h = ∥∥₁_elim h (ℕ_set _ _) length-permᴰ
