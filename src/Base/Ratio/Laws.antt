-- ===== src/Base/Ratio/Laws.antt =====
-- The order of fractions, and sums of them, by cross multiplication.
use native.Mathlib.Nat.{mul-le-mul, mul-le-mul_right, le_of_mul-le-mul_right, one-le-mul}
use mcp_probe.Base.{ℕ, ◌*◌, ◌<◌, ◌≡◌, List, [], ◌∷◌, map, All, arith, ap, length}
use mcp_probe.Base.Ratio
use mcp_probe.Base.Ratio.{Ratio, IsRatio, Le, ratio, whole, sum}

pub Le-refl : (a : Ratio) → Le a a
Le-refl a = omega arith

pub Le-trans : (a b c : Ratio) → IsRatio b → Le a b → Le b c → Le a c
Le-trans a b c pos h k =
    le_of_mul-le-mul_right {k = b.den}
      (omega (arith, mul-le-mul_right c.den h, mul-le-mul_right a.den k)) pos

pub Le-add : (a b c d : Ratio) → Le a b → Le c d → Le (Ratio.add a c) (Ratio.add b d)
Le-add a b c d h k =
    omega (arith, mul-le-mul_right (c.den * d.den) h, mul-le-mul_right (a.den * b.den) k)

pub Le-mul : (a b c d : Ratio) → Le a b → Le c d → Le (Ratio.mul a c) (Ratio.mul b d)
Le-mul a b c d h k = omega (arith, mul-le-mul h k)

pub mul-pos : (a b : ℕ) → 0 < a → 0 < b → 0 < a * b
mul-pos a b h k = one-le-mul h k

pub IsRatio-add : (a b : Ratio) → IsRatio a → IsRatio b → IsRatio (Ratio.add a b)
IsRatio-add a b h k = mul-pos a.den b.den h k

pub IsRatio-mul : (a b : Ratio) → IsRatio a → IsRatio b → IsRatio (Ratio.mul a b)
IsRatio-mul a b h k = mul-pos a.den b.den h k

pub IsRatio-sum : (rs : List Ratio) → All IsRatio rs → IsRatio (sum rs)
IsRatio-sum [] h = omega arith
IsRatio-sum (r ∷ rs) h = IsRatio-add r (sum rs) h.0 (IsRatio-sum rs h.1)

-- A constant factor and a constant divisor move out of a sum.
module _ {ℓ} {A : Type ℓ} (c : Ratio) (f : A → Ratio) where
  pub sum-mul :
      (xs : List A)
      → (sum (map (λ x. Ratio.mul c (f x)) xs)).num * (Ratio.mul c (sum (map f xs))).den
        ≡ (Ratio.mul c (sum (map f xs))).num * (sum (map (λ x. Ratio.mul c (f x)) xs)).den
  sum-mul [] = omega arith
  sum-mul (x ∷ xs) =
      let e = f x in omega (arith, ap (λ (t : ℕ). t * (e.den * e.den * c.den)) (sum-mul xs))

  pub sum-div :
      (xs : List A)
      → (sum (map (λ x. Ratio.div (f x) c) xs)).num * (Ratio.div (sum (map f xs)) c).den
        ≡ (Ratio.div (sum (map f xs)) c).num * (sum (map (λ x. Ratio.div (f x) c) xs)).den
  sum-div [] = omega arith
  sum-div (x ∷ xs) =
      let e = f x in omega (arith, ap (λ (t : ℕ). t * (e.den * e.den * c.num)) (sum-div xs))

-- Sums of terms that are ordered one by one are ordered.
pub Le-sum {ℓ} :
    {A : Type ℓ} (f g : A → Ratio) (xs : List A)
    → All (λ x. Le (f x) (g x)) xs
    → Le (sum (map f xs)) (sum (map g xs))
Le-sum f g [] h = omega arith
Le-sum f g (x ∷ xs) h = Le-add (f x) (g x) (sum (map f xs)) (sum (map g xs)) h.0 (Le-sum f g xs h.1)

-- One n-th, n times.
pub sum-nth {ℓ} :
    {A : Type ℓ} (n : ℕ) (xs : List A)
    → (sum (map (λ _. ratio 1 n) xs)).num * n ≡ length xs * (sum (map (λ _. ratio 1 n) xs)).den
sum-nth n [] = omega arith
sum-nth n (x ∷ xs) = omega (arith, ap (λ (t : ℕ). t * n) (sum-nth n xs))
