-- ===== src/Prelude/Shuffles.antt =====
-- Rearranged lists, and sums over a list, which do not depend on its order.
use Prim.Native.Nat.{ℕ, ◌+◌}
use mathlib.Core.Path.{◌≡◌, refl, ◌∙◌}
use mathlib.Core.Logic.{inl, inr}
use mathlib.Core.List.{List, [], ◌∷◌}
use native.Mathlib.Omega.{arith}
use csfleet.Prelude.Lists.{Has}

module _ {A : Type 0} where
  -- Two lists with the same members, as often.
  pub data Shuffle : List A → List A → Type 0 where
    nothing : Shuffle [] []
    keep : (a : A) {xs ys : List A} → Shuffle xs ys → Shuffle (a ∷ xs) (a ∷ ys)
    swap : (a b : A) (xs : List A) → Shuffle (a ∷ b ∷ xs) (b ∷ a ∷ xs)
    both : {xs ys zs : List A} → Shuffle xs ys → Shuffle ys zs → Shuffle xs zs

  pub same : (xs : List A) → Shuffle xs xs
  same [] = nothing
  same (x ∷ xs) = keep x (same xs)

  unfoldable pub total : (A → ℕ) → List A → ℕ
  total f [] = 0
  total f (x ∷ xs) = f x + total f xs

  pub total-Shuffle : (f : A → ℕ) {xs ys : List A} → Shuffle xs ys → total f xs ≡ total f ys
  unfolding total
  total-Shuffle f nothing = refl
  total-Shuffle f (keep n s) = omega (arith, total-Shuffle f s)
  total-Shuffle f (swap m n xs) = omega arith
  total-Shuffle f (both s t) = total-Shuffle f s ∙ total-Shuffle f t

  pub Has-Shuffle : (a : A) {xs ys : List A} → Shuffle xs ys → Has a xs → Has a ys
  Has-Shuffle a nothing h = h
  Has-Shuffle a (keep x s) (inl e) = inl e
  Has-Shuffle a (keep x s) (inr h) = inr (Has-Shuffle a s h)
  Has-Shuffle a (swap x y xs) (inl e) = inr (inl e)
  Has-Shuffle a (swap x y xs) (inr (inl e)) = inl e
  Has-Shuffle a (swap x y xs) (inr (inr h)) = inr (inr h)
  Has-Shuffle a (both s t) h = Has-Shuffle a t (Has-Shuffle a s h)

  pub Shuffle-sym : {xs ys : List A} → Shuffle xs ys → Shuffle ys xs
  Shuffle-sym nothing = nothing
  Shuffle-sym (keep x s) = keep x (Shuffle-sym s)
  Shuffle-sym (swap x y xs) = swap y x xs
  Shuffle-sym (both s t) = both (Shuffle-sym t) (Shuffle-sym s)
