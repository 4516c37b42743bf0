-- ===== src/Prelude/Bits.antt =====
-- The bitwise operations on words that are cut into fields, as arithmetic.
use Prim.Native.Nat.{min, max, digits, bit_and, bit_or, bit_and-bitwise, bit_or-bitwise}
use native.Mathlib.Nat.{div-div-eq-div-mul, pow-suc}
use cpp_examples.Prelude.{
  ℕ, zero, suc, ◌+◌, ◌*◌, ◌/◌, ◌%◌, ◌^◌, ◌≤◌, ◌<◌, ◌≡◌, ◌∙◌, refl, ap, arith,
}

-- The recursion on digits gives the same for every count of them that is enough.
module _ (last : ℕ → ℕ) (digit : ℕ → ℕ → ℕ) where
  digits-enough :
      (a b : ℕ) {few many : ℕ}
      → a ≤ few
      → a ≤ many
      → digits last digit few a b ≡ digits last digit many a b
  digits-enough a b {few = zero} {many = zero} h i = refl
  digits-enough zero b {few = zero} {many = suc many} h i = refl
  digits-enough zero b {few = suc few} {many = zero} h i = refl
  digits-enough zero b {few = suc few} {many = suc many} h i = refl
  digits-enough (suc a) b {few = zero} {many = suc many} h i = absurd (omega arith)
  digits-enough (suc a) b {few = suc few} {many = zero} h i = absurd (omega arith)
  digits-enough (suc a) b {few = suc few} {many = suc many} h i =
      let rest =
        digits-enough (suc a / 2) (b / 2) {few = few} {many = many} (omega arith) (omega arith) in
      ap (λ n. n * 2 + digit (suc a % 2) (b % 2)) rest

and-zero_left : (b : ℕ) → bit_and 0 b ≡ 0
and-zero_left b = bit_and-bitwise 0 b

or-zero_left : (b : ℕ) → bit_or 0 b ≡ b
or-zero_left b = bit_or-bitwise 0 b

-- The lowest digit and the others.
and-halves : (x y : ℕ) → bit_and x y ≡ min (x % 2) (y % 2) + 2 * bit_and (x / 2) (y / 2)
and-halves zero y = omega (arith, and-zero_left y, and-zero_left (y / 2))
and-halves (suc a) b =
    let others =
      digits-enough (λ b. 0) min (suc a / 2) (b / 2) {few = a} {many = suc a / 2} (omega arith)
        (omega arith) in
    omega (arith, others, bit_and-bitwise (suc a) b, bit_and-bitwise (suc a / 2) (b / 2))

or-halves : (x y : ℕ) → bit_or x y ≡ max (x % 2) (y % 2) + 2 * bit_or (x / 2) (y / 2)
or-halves zero y = omega (arith, or-zero_left y, or-zero_left (y / 2))
or-halves (suc a) b =
    let others =
      digits-enough (λ b. b) max (suc a / 2) (b / 2) {few = a} {many = suc a / 2} (omega arith)
        (omega arith) in
    omega (arith, others, bit_or-bitwise (suc a) b, bit_or-bitwise (suc a / 2) (b / 2))

-- What is moved up by one more digit is twice as much.
double_power : (k m : ℕ) → m * 2 ^ suc k ≡ m * 2 ^ k * 2
double_power k m = omega (arith, ap (λ p. m * p) (pow-suc 2 k))

-- A mask that is moved up by k digits.
pub and-shifted : (k x mask : ℕ) → bit_and x (mask * 2 ^ k) ≡ bit_and (x / 2 ^ k) mask * 2 ^ k
and-shifted zero x mask =
    let none_up : mask * 2 ^ 0 ≡ mask = omega arith in
    let none_down : x / 2 ^ 0 ≡ x = omega arith in rw (none_up, none_down) (omega arith)
and-shifted (suc k) x mask =
    let twice = double_power k mask in
    let half : mask * 2 ^ suc k / 2 ≡ mask * 2 ^ k = omega (arith, twice) in
    let deeper : x / 2 / 2 ^ k ≡ x / 2 ^ suc k =
      div-div-eq-div-mul x 2 (2 ^ k) ∙ ap (λ d. x / d) (omega (arith, pow-suc 2 k)) in
    let rest : bit_and (x / 2) (mask * 2 ^ suc k / 2) ≡ bit_and (x / 2 ^ suc k) mask * 2 ^ k =
      ap (bit_and (x / 2)) half
      ∙ and-shifted k (x / 2) mask
      ∙ ap (λ y. bit_and y mask * 2 ^ k) deeper in
    omega (
      arith,
      twice,
      rest,
      and-halves x (mask * 2 ^ suc k),
      double_power k (bit_and (x / 2 ^ suc k) mask),
    )

-- A number below 2 ^ k beside one that is moved up by k digits.
pub or-fields : (k low high : ℕ) → low < 2 ^ k → bit_or low (high * 2 ^ k) ≡ low + high * 2 ^ k
or-fields zero low high h =
    let nothing : low ≡ 0 = omega arith in rw nothing (omega (arith, or-zero_left (high * 2 ^ 0)))
or-fields (suc k) low high h =
    let twice = double_power k high in
    let half : high * 2 ^ suc k / 2 ≡ high * 2 ^ k = omega (arith, twice) in
    let rest : bit_or (low / 2) (high * 2 ^ suc k / 2) ≡ low / 2 + high * 2 ^ k =
      ap (bit_or (low / 2)) half ∙ or-fields k (low / 2) high (omega (arith, pow-suc 2 k)) in
    omega (arith, rest, twice, or-halves low (high * 2 ^ suc k))

and-nothing : (fuel a : ℕ) → a ≤ fuel → bit_and a 0 ≡ 0
and-nothing fuel zero h = refl
and-nothing zero (suc a) h = absurd (omega arith)
and-nothing (suc fuel) (suc a) h =
    omega (arith, and-halves (suc a) 0, and-nothing fuel (suc a / 2) (omega arith))

-- A mask of four ones, and of eight.
and-nibble : (x : ℕ) → bit_and x 15 ≡ x % 16
and-nibble x =
    let up = x / 2 / 2 / 2 in
    omega (
      arith,
      and-halves x 15,
      and-halves (x / 2) 7,
      and-halves (x / 2 / 2) 3,
      and-halves up 1,
      and-nothing (up / 2) (up / 2) (omega arith),
    )

pub and-byte : (x : ℕ) → bit_and x 255 ≡ x % 256
and-byte x =
    let up = x / 2 / 2 / 2 in
    omega (
      arith,
      and-halves x 255,
      and-halves (x / 2) 127,
      and-halves (x / 2 / 2) 63,
      and-halves up 31,
      and-nibble (up / 2),
    )
