-- ===== src/Base/Xor.antt =====
-- Exclusive or at variables: its lowest digit, and the laws that follow.
use Prim.Native.Nat.{
  ℕ, zero, suc, ◌+◌, ◌*◌, ◌/◌, ◌%◌, ◌^◌, ◌≤◌, ◌<◌, digits, differ, bit_xor, bit_xor-bitwise,
}
use mathlib.Core.Path.{◌≡◌, refl, sym, ap, ap₂, ◌∙◌}
use native.Mathlib.Nat.{le_refl, pow-suc}
use native.Mathlib.Omega.{arith}

abbrev xor_digits : ℕ → ℕ → ℕ → ℕ
xor_digits n a b = digits (λ b. b) differ n a b

xor_digits_enough : (n m a b : ℕ) → a ≤ n → a ≤ m → xor_digits n a b ≡ xor_digits m a b
xor_digits_enough zero zero a b p q = refl
xor_digits_enough zero (suc m) zero b p q = refl
xor_digits_enough zero (suc m) (suc a) b p q = absurd (omega arith)
xor_digits_enough (suc n) zero zero b p q = refl
xor_digits_enough (suc n) zero (suc a) b p q = absurd (omega arith)
xor_digits_enough (suc n) (suc m) zero b p q = refl
xor_digits_enough (suc n) (suc m) (suc a) b p q =
    omega (arith, xor_digits_enough n m (suc a / 2) (b / 2) (omega arith) (omega arith))

pub zero-bit_xor : (b : ℕ) → bit_xor 0 b ≡ b
zero-bit_xor b = bit_xor-bitwise 0 b

zero-differ : (d : ℕ) → differ 0 d ≡ d
zero-differ d = refl

differ-zero : (x : ℕ) → differ x 0 ≡ x
differ-zero zero = refl
differ-zero (suc x) = refl

-- The lowest digit apart from the others
pub bit_xor_step : (a b : ℕ) → bit_xor a b ≡ bit_xor (a / 2) (b / 2) * 2 + differ (a % 2) (b % 2)
bit_xor_step zero b = omega (arith, zero-bit_xor b, zero-bit_xor (b / 2), zero-differ (b % 2))
bit_xor_step (suc a) b = omega (
  arith,
  bit_xor-bitwise (suc a) b,
  bit_xor-bitwise (suc a / 2) (b / 2),
  xor_digits_enough a (suc a / 2) (suc a / 2) (b / 2) (omega arith) (le_refl _),
)

differ_bit : (x y : ℕ) → x < 2 → y < 2 → differ x y < 2
differ_bit zero y p q = q
differ_bit (suc zero) zero p q = omega arith
differ_bit (suc zero) (suc zero) p q = omega arith
differ_bit (suc zero) (suc (suc y)) p q = absurd (omega arith)
differ_bit (suc (suc x)) y p q = absurd (omega arith)

differ_twice : (x y : ℕ) → x < 2 → y < 2 → differ (differ x y) y ≡ x
differ_twice zero zero p q = refl
differ_twice zero (suc zero) p q = refl
differ_twice zero (suc (suc y)) p q = absurd (omega arith)
differ_twice (suc zero) zero p q = refl
differ_twice (suc zero) (suc zero) p q = refl
differ_twice (suc zero) (suc (suc y)) p q = absurd (omega arith)
differ_twice (suc (suc x)) y p q = absurd (omega arith)

digit : (a b : ℕ) → differ (a % 2) (b % 2) < 2
digit a b = differ_bit (a % 2) (b % 2) (omega arith) (omega arith)

xor_half : (a b : ℕ) → bit_xor a b / 2 ≡ bit_xor (a / 2) (b / 2)
xor_half a b = omega (arith, bit_xor_step a b, digit a b)

xor_parity : (a b : ℕ) → bit_xor a b % 2 ≡ differ (a % 2) (b % 2)
xor_parity a b = omega (arith, bit_xor_step a b, digit a b)

bit_xor_twice_below : (n a b : ℕ) → a ≤ n → b ≤ n → bit_xor (bit_xor a b) b ≡ a
bit_xor_twice_below zero zero zero p q = refl
bit_xor_twice_below zero zero (suc b) p q = absurd (omega arith)
bit_xor_twice_below zero (suc a) b p q = absurd (omega arith)
bit_xor_twice_below (suc n) a b p q =
    bit_xor_step (bit_xor a b) b
    ∙ ap₂ (λ x y. x * 2 + y)
        (ap (λ x. bit_xor x (b / 2)) (xor_half a b)
          ∙ bit_xor_twice_below n (a / 2) (b / 2) (omega arith) (omega arith))
        (ap (λ x. differ x (b % 2)) (xor_parity a b)
          ∙ differ_twice (a % 2) (b % 2) (omega arith) (omega arith))
    ∙ omega arith

-- A second exclusive or with the same number undoes the first.
pub bit_xor_twice : (a b : ℕ) → bit_xor (bit_xor a b) b ≡ a
bit_xor_twice a b = bit_xor_twice_below (a + b) a b (omega arith) (omega arith)

double : (k q r : ℕ) → (q * 2 ^ suc k + r) / 2 ≡ q * 2 ^ k + r / 2
double k q r = omega (arith, ap (λ (t : ℕ). q * t) (pow-suc 2 k))

even : (k q r : ℕ) → (q * 2 ^ suc k + r) % 2 ≡ r % 2
even k q r = omega (arith, ap (λ (t : ℕ). q * t) (pow-suc 2 k))

-- Fields of k bits apart from what is above them
pub bit_xor_fields :
    (k q r p s : ℕ)
    → r < 2 ^ k
    → s < 2 ^ k
    → bit_xor (q * 2 ^ k + r) (p * 2 ^ k + s) ≡ bit_xor q p * 2 ^ k + bit_xor r s
bit_xor_fields zero q zero p zero x y =
    ap₂ bit_xor (whole q) (whole p) ∙ omega (arith, zero-bit_xor 0)
  where
    whole : (n : ℕ) → n * 2 ^ 0 + 0 ≡ n
    whole n = omega arith
bit_xor_fields zero q zero p (suc s) x y = absurd (omega arith)
bit_xor_fields zero q (suc r) p s x y = absurd (omega arith)
bit_xor_fields (suc k) q r p s x y =
    bit_xor_step (q * 2 ^ suc k + r) (p * 2 ^ suc k + s)
    ∙ ap₂ (λ u v. u * 2 + v)
        (ap₂ bit_xor (double k q r) (double k p s)
          ∙ bit_xor_fields k q (r / 2) p (s / 2) (omega (arith, pow-suc 2 k))
              (omega (arith, pow-suc 2 k)))
        (ap₂ differ (even k q r) (even k p s))
    ∙ omega (arith, bit_xor_step r s, ap (λ (t : ℕ). bit_xor q p * t) (pow-suc 2 k))

-- Numbers of k bits have an exclusive or of k bits.
pub bit_xor-lt : (k a b : ℕ) → a < 2 ^ k → b < 2 ^ k → bit_xor a b < 2 ^ k
bit_xor-lt zero zero zero p q = omega (arith, zero-bit_xor 0)
bit_xor-lt zero zero (suc b) p q = absurd (omega arith)
bit_xor-lt zero (suc a) b p q = absurd (omega arith)
bit_xor-lt (suc k) a b p q = omega (
  arith,
  pow-suc 2 k,
  bit_xor_step a b,
  digit a b,
  bit_xor-lt k (a / 2) (b / 2) (omega (arith, pow-suc 2 k)) (omega (arith, pow-suc 2 k)),
)

differ_swap : (x y z : ℕ) → x < 2 → y < 2 → z < 2 → differ (differ x y) z ≡ differ (differ x z) y
differ_swap zero zero z p q r = sym (differ-zero z)
differ_swap zero (suc zero) zero p q r = refl
differ_swap zero (suc zero) (suc zero) p q r = refl
differ_swap zero (suc zero) (suc (suc z)) p q r = absurd (omega arith)
differ_swap zero (suc (suc y)) z p q r = absurd (omega arith)
differ_swap (suc zero) zero zero p q r = refl
differ_swap (suc zero) zero (suc zero) p q r = refl
differ_swap (suc zero) zero (suc (suc z)) p q r = absurd (omega arith)
differ_swap (suc zero) (suc zero) zero p q r = refl
differ_swap (suc zero) (suc zero) (suc zero) p q r = refl
differ_swap (suc zero) (suc zero) (suc (suc z)) p q r = absurd (omega arith)
differ_swap (suc zero) (suc (suc y)) z p q r = absurd (omega arith)
differ_swap (suc (suc x)) y z p q r = absurd (omega arith)

bit_xor_swap_below :
    (n a b c : ℕ) → a ≤ n → b ≤ n → c ≤ n → bit_xor (bit_xor a b) c ≡ bit_xor (bit_xor a c) b
bit_xor_swap_below zero zero zero zero p q r = refl
bit_xor_swap_below zero (suc a) b c p q r = absurd (omega arith)
bit_xor_swap_below zero zero (suc b) c p q r = absurd (omega arith)
bit_xor_swap_below zero zero zero (suc c) p q r = absurd (omega arith)
bit_xor_swap_below (suc n) a b c p q r =
    parts b c
    ∙ ap₂ (λ x y. x * 2 + y)
        (bit_xor_swap_below n (a / 2) (b / 2) (c / 2) (omega arith) (omega arith) (omega arith))
        (differ_swap (a % 2) (b % 2) (c % 2) (omega arith) (omega arith) (omega arith))
    ∙ sym (parts c b)
  where
    parts :
        (u v : ℕ)
        → bit_xor (bit_xor a u) v
          ≡ bit_xor (bit_xor (a / 2) (u / 2)) (v / 2) * 2 + differ (differ (a % 2) (u % 2)) (v % 2)
    parts u v =
        bit_xor_step (bit_xor a u) v
        ∙ ap₂ (λ x y. bit_xor x (v / 2) * 2 + differ y (v % 2)) (xor_half a u) (xor_parity a u)

-- Two numbers may be taken in either order.
pub bit_xor_swap : (a b c : ℕ) → bit_xor (bit_xor a b) c ≡ bit_xor (bit_xor a c) b
bit_xor_swap a b c = bit_xor_swap_below (a + b + c) a b c (omega arith) (omega arith) (omega arith)

bit_xor-zero_below : (n a : ℕ) → a ≤ n → bit_xor a 0 ≡ a
bit_xor-zero_below n zero h = zero-bit_xor 0
bit_xor-zero_below zero (suc a) h = absurd (omega arith)
bit_xor-zero_below (suc n) (suc a) h = omega (
  arith,
  bit_xor_step (suc a) 0,
  bit_xor-zero_below n (suc a / 2) (omega arith),
  differ_zero (suc a),
)
  where
    differ_zero : (x : ℕ) → differ (x % 2) 0 ≡ x % 2
    differ_zero x = differ-zero (x % 2)

pub bit_xor-zero : (a : ℕ) → bit_xor a 0 ≡ a
bit_xor-zero a = bit_xor-zero_below a a (omega arith)
