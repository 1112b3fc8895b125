-- ===== src/Text/Decimal.antt =====
-- Decimal text: `std::from_chars` reads back what `std::to_string` writes.
use websocketclient_cpp.Prelude.{
  ℕ, zero, suc, ◌+◌, ◌/◌, ◌%◌, ◌^◌, ◌<◌, ◌≡◌, refl, sym, ap, ◌∙◌, inl, inr, true, false, some, [],
  ◌∷◌, ◌++◌, append_assoc, arith, ◌==◌, Bool-cases,
}
use websocketclient_cpp.Text.{
  Text, is_nil, Every, is_digit, scan, from_chars, decimal_onto, decimal, pos,
}

-- The fuel exceeds the number.
scan-decimal_onto :
    (fuel n : ℕ) (out : Text)
    → n < fuel
    → (d : ℕ) × (scan 0 0 (decimal_onto fuel n out) ≡ scan n (suc d) out)
unfolding scan decimal_onto
scan-decimal_onto zero n out h = absurd (omega arith)
scan-decimal_onto (suc fuel) n out h = elim (Bool-cases (n / 10 == 0)) [
  | inl e ↦ (0, ground (arith, e))
  | inr e ↦
      let (d, r) = scan-decimal_onto fuel (n / 10) ((b'0' + n % 10) ∷ out) (ground arith) in
      (suc d, ground (arith, e, r))
]

decimal_onto-append :
    (fuel n : ℕ) (out : Text) → decimal_onto fuel n out ≡ decimal_onto fuel n [] ++ out
unfolding decimal_onto
decimal_onto-append zero n out = refl
decimal_onto-append (suc fuel) n out = elim (Bool-cases (n / 10 == 0)) [
  | inl e ↦ ground (arith, e)
  | inr e ↦ ground (
    arith,
    e,
    decimal_onto-append fuel (n / 10) ((b'0' + n % 10) ∷ out),
    decimal_onto-append fuel (n / 10) ((b'0' + n % 10) ∷ []),
    append_assoc (decimal_onto fuel (n / 10) []) ((b'0' + n % 10) ∷ []) out,
  )
]

Every-decimal_onto :
    (fuel n : ℕ) (out : Text) → Every is_digit out → Every is_digit (decimal_onto fuel n out)
unfolding decimal_onto
Every-decimal_onto zero n out h = h
Every-decimal_onto (suc fuel) n out h =
    elim (n / 10 == 0)
      as (λ b. Every is_digit (elim b [
        | true ↦ (b'0' + n % 10) ∷ out
        | false ↦ decimal_onto fuel (n / 10) ((b'0' + n % 10) ∷ out)
      ])) [
        | true ↦ (ground arith, h)
        | false ↦ Every-decimal_onto fuel (n / 10) ((b'0' + n % 10) ∷ out) (ground arith, h)
      ]

pub decimal_digits : (n : ℕ) → Every is_digit (decimal n)
unfolding decimal
decimal_digits n = Every-decimal_onto (suc n) n [] tt

-- What is no digit ends the number.
abbrev pub EndsNumber : Text → Type 0
EndsNumber [] = Unit
EndsNumber (c ∷ s) = is_digit c ≡ false

scan_stop : (n k : ℕ) (rest : Text) → EndsNumber rest → scan n k rest ≡ ((n, k), rest)
unfolding scan
scan_stop n k [] h = refl
scan_stop n k (c ∷ rest) h = ground (arith, h)

pub scan-decimal :
    (n : ℕ) (rest : Text)
    → EndsNumber rest
    → (d : ℕ) × (scan 0 0 (decimal n ++ rest) ≡ ((n, suc d), rest))
unfolding decimal
scan-decimal n rest h =
    let (d, r) = scan-decimal_onto (suc n) n rest (omega arith) in
    (d, ap (scan 0 0) (sym (decimal_onto-append (suc n) n rest)) ∙ r ∙ scan_stop n (suc d) rest h)

-- A number that an `int` holds
pub from_chars-decimal :
    (n : ℕ) (rest : Text)
    → n < 2 ^ 31
    → EndsNumber rest
    → from_chars (decimal n ++ rest) ≡ some (pos n, rest)
unfolding from_chars
from_chars-decimal n rest h k = first (decimal n) (decimal_digits n) (scan-decimal n rest k)
  where
    first :
        (s : Text)
        → Every is_digit s
        → ((d : ℕ) × (scan 0 0 (s ++ rest) ≡ ((n, suc d), rest)))
        → from_chars (s ++ rest) ≡ some (pos n, rest)
    first [] e (d, r) = absurd (ground (arith, r, scan_stop 0 0 rest k))
    first (c ∷ s) e (d, r) = ground (arith, e.0, r)

pub decimal_there : (n : ℕ) → is_nil (decimal n) ≡ false
unfolding scan
decimal_there n = there (decimal n) (scan-decimal n [] tt)
  where
    there : (s : Text) → ((d : ℕ) × (scan 0 0 (s ++ []) ≡ ((n, suc d), []))) → is_nil s ≡ false
    there [] (d, h) = absurd (ground (arith, h))
    there (c ∷ s) h = refl
