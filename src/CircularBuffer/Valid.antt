-- ===== src/CircularBuffer/Valid.antt =====
-- The representation invariant of the circular buffer, and the wrap at the end of its array.
use native.Mathlib.Nat.{mod-eq_of_lt, mod-eq-sub-mod, pow-suc, one-le-pow}
use native.Mathlib.Decide.{dec_lt}
use websocketclient_cpp.Prelude.{
  ℕ, zero, suc, ◌+◌, ◌-◌, ◌%◌, ◌^◌, ◌≤◌, ◌<◌, ◌≡◌, true, arith, ltb, if◌then◌else◌, length, bit_and,
  ◌∙◌,
}
use websocketclient_cpp.Prelude.Bits.{bit_and_ones}
use websocketclient_cpp.CircularBuffer.{CircularBuffer, advance}

-- What the constructor asserts, for a 64-bit `size_t`.
pub record IsPowerOfTwo (capacity : ℕ) : Type 0 where
  pub exponent : ℕ
  pub exponent_lt : exponent < 64
  pub is_power : capacity ≡ 2 ^ exponent

pub record IsValid {A : Type 0} (s : CircularBuffer A) : Type 0 where
  pub power : IsPowerOfTwo s.capacity
  pub stored : length s.buffer ≡ s.capacity
  pub head_in : s.head < s.capacity
  pub tail_in : s.tail < s.capacity
  pub full_at : s.full ≡ true → s.head ≡ s.tail

pow-le : (k : ℕ) → k < 64 → 2 ^ k ≤ 2 ^ 63
pow-le k h = go 63 k (omega arith)
  where
    go : (n k : ℕ) → k ≤ n → 2 ^ k ≤ 2 ^ n
    go zero zero h = omega arith
    go zero (suc k) h = absurd (omega arith)
    go (suc n) zero h = one-le-pow (suc n) 2 (omega arith)
    go (suc n) (suc k) h = omega (arith, pow-suc 2 n, pow-suc 2 k, go n k (omega arith))

wrap_once : (x c : ℕ) → 0 < c → x < c + c → x % c ≡ (if ltb x c then x else x - c)
wrap_once x c pos h = elim (dec_lt x c) [
  | yes below ↦ ground (arith, mod-eq_of_lt below)
  | no above ↦ ground (
    arith,
    mod-eq-sub-mod {n = x} {m = c} (omega arith),
    mod-eq_of_lt {n = x - c} {m = c} (omega arith),
  )
]

-- No `size_t` sum of an index and a count wraps, and the mask takes it back once into the array.
pub advance_lem :
    {capacity : ℕ} (ix n : ℕ)
    → IsPowerOfTwo capacity
    → ix < capacity
    → n ≤ capacity
    → advance capacity ix n ≡ (if ltb (ix + n) capacity then ix + n else ix + n - capacity)
unfolding advance
advance_lem {capacity} ix n p hi hn =
    let small : capacity ≤ 2 ^ 63 = rw p.is_power (pow-le p.exponent p.exponent_lt) in
    let no_wrap : (ix + n) % 2 ^ 64 ≡ ix + n = omega arith in
    rw no_wrap (ones ∙ wrap_once (ix + n) capacity (omega arith) (omega arith))
  where
    ones : bit_and (ix + n) (capacity - 1) ≡ (ix + n) % capacity
    ones = rw p.is_power (bit_and_ones p.exponent (ix + n))

pub advance-lt :
    {capacity : ℕ} (ix n : ℕ)
    → IsPowerOfTwo capacity
    → ix < capacity
    → n ≤ capacity
    → advance capacity ix n < capacity
advance-lt ix n p hi hn = ground (arith, advance_lem ix n p hi hn)

pub capacity_le : {A : Type 0} {s : CircularBuffer A} → IsValid s → s.capacity ≤ 2 ^ 63
capacity_le {A} {s} v = rw v.power.is_power (pow-le v.power.exponent v.power.exponent_lt)
