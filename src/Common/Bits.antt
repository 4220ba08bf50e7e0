-- ===== src/Common/Bits.antt =====
-- `bit_and` by its lowest digit, and the masks of the alignment macros as arithmetic.
use Prim.Native.Nat.{
  ℕ, zero, suc, ◌+◌, ◌-◌, ◌*◌, ◌/◌, ◌%◌, ◌^◌, ◌≤◌, ◌<◌, min, bit_and, digits, bit_and-bitwise,
}
use mathlib.Core.Path.{◌≡◌, refl, sym, ap, ◌∙◌}
use native.Mathlib.Nat.{pow-suc, one-le-pow}
use native.Mathlib.Omega.{arith}

-- `n` binary places of the conjunction.
abbrev places : ℕ → ℕ → ℕ → ℕ
places zero x y = 0
places (suc n) x y = places n (x / 2) (y / 2) * 2 + min (x % 2) (y % 2)

places-zero : (n y : ℕ) → places n 0 y ≡ 0
places-zero zero y = refl
places-zero (suc n) y = omega (arith, places-zero n (y / 2))

zero-places : (n x : ℕ) → places n x 0 ≡ 0
zero-places zero x = refl
zero-places (suc n) x = omega (arith, zero-places n (x / 2))

-- Places past those that the first number has add nothing.
places-more : (n k x y : ℕ) → x ≤ n → places (n + k) x y ≡ places n x y
places-more zero k x y h =
    let none : x ≡ 0 = omega arith in
    let all : 0 + k ≡ k = omega arith in rw (none, all) (places-zero k y)
places-more (suc n) k x y h =
    let all : suc n + k ≡ suc (n + k) = omega arith in
    rw all (omega (arith, places-more n k (x / 2) (y / 2) (omega arith)))

digits-places : (n x y : ℕ) → digits (λ y. zero) min n x y ≡ places n x y
digits-places zero x y = refl
digits-places (suc n) zero y = omega (arith, places-zero (suc n) y)
digits-places (suc n) (suc x) y = omega (arith, digits-places n (suc x / 2) (y / 2))

bit_and-places : (x y : ℕ) → bit_and x y ≡ places x x y
bit_and-places x y = bit_and-bitwise x y ∙ digits-places x x y

pub zero-bit_and : (b : ℕ) → bit_and 0 b ≡ 0
zero-bit_and b = bit_and-places 0 b

pub bit_and-zero : (a : ℕ) → bit_and a 0 ≡ 0
bit_and-zero a = bit_and-places a 0 ∙ zero-places a a

-- The law of the lowest place.
pub bit_and-halves : (x y : ℕ) → bit_and x y ≡ min (x % 2) (y % 2) + 2 * bit_and (x / 2) (y / 2)
bit_and-halves zero y = rw (zero-bit_and, zero-bit_and) (omega arith)
bit_and-halves (suc x) y =
    let half : suc x / 2 + (x - suc x / 2) ≡ x = omega arith in
    let more = places-more (suc x / 2) (x - suc x / 2) (suc x / 2) (y / 2) (omega arith) in
    let rest : places x (suc x / 2) (y / 2) ≡ bit_and (suc x / 2) (y / 2) =
      ap (λ (n : ℕ). places n (suc x / 2) (y / 2)) (sym half)
      ∙ more
      ∙ sym (bit_and-places (suc x / 2) (y / 2)) in
    omega (arith, bit_and-places (suc x) y, rest)

double-pow : (q k : ℕ) → q * 2 ^ suc k ≡ q * 2 ^ k * 2
double-pow q k = omega (arith, ap (λ (t : ℕ). q * t) (pow-suc 2 k))

-- The bits below a mask are lost.
bit_and_shifted :
    (k q r m a b : ℕ)
    → r < 2 ^ k
    → a ≡ q * 2 ^ k + r
    → b ≡ m * 2 ^ k
    → bit_and a b ≡ bit_and q m * 2 ^ k
bit_and_shifted zero q r m a b h p e =
    let a_lem : a ≡ q = omega arith in
    let b_lem : b ≡ m = omega arith in rw (a_lem, b_lem) (omega arith)
bit_and_shifted (suc k) q r m a b h p e = omega (
  arith,
  bit_and-halves a b,
  double-pow q k,
  double-pow m k,
  double-pow (bit_and q m) k,
  pow-suc 2 k,
  bit_and_shifted k q (r / 2) m (a / 2) (b / 2) (omega (arith, pow-suc 2 k))
      (omega (arith, double-pow q k)) (omega (arith, double-pow m k)),
)

low_mask_parts : (k q r : ℕ) → r < 2 ^ k → bit_and (q * 2 ^ k + r) (2 ^ k - 1) ≡ r
low_mask_parts zero q r h = rw bit_and-zero (omega arith)
low_mask_parts (suc k) q r h = ground (
  arith,
  bit_and-halves (q * 2 ^ suc k + r) (2 ^ suc k - 1),
  double-pow q k,
  pow-suc 2 k,
  one-le-pow k 2,
  low_mask_parts k q (r / 2) (omega (arith, pow-suc 2 k)),
)

-- A mask of `k` low bits is the remainder by `2 ^ k`.
pub bit_and_low : (k a : ℕ) → bit_and a (2 ^ k - 1) ≡ a % 2 ^ k
bit_and_low k a = ground (arith, one-le-pow k 2, low_mask_parts k (a / 2 ^ k) (a % 2 ^ k))

-- A mask of `j` bits above `k` zeros.
pub bit_and_high : (k j a : ℕ) → bit_and a ((2 ^ j - 1) * 2 ^ k) ≡ a / 2 ^ k % 2 ^ j * 2 ^ k
bit_and_high k j a = ground (
  arith,
  one-le-pow k 2,
  bit_and_shifted k (a / 2 ^ k) (a % 2 ^ k) (2 ^ j - 1) a ((2 ^ j - 1) * 2 ^ k),
  bit_and_low j (a / 2 ^ k),
)
