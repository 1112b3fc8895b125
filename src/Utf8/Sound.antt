-- ===== src/Utf8/Sound.antt =====
-- What the validator accepts is the encoding of a sequence of scalar values.
use websocketclient_cpp.Prelude.{
  AreBytes, ℕ, ◌+◌, ◌-◌, ◌*◌, ◌<◌, ◌≡◌, refl, ap, Bool, true, false, List, [], ◌∷◌, ◌++◌, arith,
  ◌&&◌,
}
use websocketclient_cpp.Utf8.{
  lead, Lead, one, two, three, four, invalid, two_byte, three_byte, four_byte, scan_utf8,
}
use websocketclient_cpp.Utf8.Bytes.{
  follows_range, mask_fe_c0, mask_e0_80, mask_a0_a0, mask_f0_80, lead_range,
}
use websocketclient_cpp.Utf8.Encoding.{IsScalar, encode, WellFormed, end, next}

-- The code points that the branches read
two_sound :
    (a b : ℕ)
    → a < 256
    → b < 256
    → lead a ≡ two
    → two_byte a b ≡ true
    → IsScalar ((a - 192) * 64 + (b - 128)) × (a ∷ b ∷ [] ≡ encode ((a - 192) * 64 + (b - 128)))
unfolding two_byte
two_sound a b ha hb e h = ground (arith, lead_range a ha, follows_range b hb, mask_fe_c0 a ha)

three_sound :
    (a b c : ℕ)
    → a < 256
    → b < 256
    → c < 256
    → lead a ≡ three
    → three_byte a b c ≡ true
    → IsScalar ((a - 224) * 4096 + (b - 128) * 64 + (c - 128))
      × (a ∷ b ∷ c ∷ [] ≡ encode ((a - 224) * 4096 + (b - 128) * 64 + (c - 128)))
unfolding three_byte
three_sound a b c ha hb hc e h = ground (
  arith,
  lead_range a ha,
  follows_range b hb,
  follows_range c hc,
  mask_e0_80 b hb,
  mask_a0_a0 b hb,
)

four_sound :
    (a b c d : ℕ)
    → a < 256
    → b < 256
    → c < 256
    → d < 256
    → lead a ≡ four
    → four_byte a b c d ≡ true
    → IsScalar ((a - 240) * 262144 + (b - 128) * 4096 + (c - 128) * 64 + (d - 128))
      × (a ∷ b ∷ c ∷ d ∷ []
          ≡ encode ((a - 240) * 262144 + (b - 128) * 4096 + (c - 128) * 64 + (d - 128)))
unfolding four_byte
four_sound a b c d ha hb hc hd e h = ground (
  arith,
  lead_range a ha,
  follows_range b hb,
  follows_range c hc,
  follows_range d hd,
  mask_f0_80 b hb,
)

one_sound : (a : ℕ) → a < 256 → lead a ≡ one → IsScalar a × (a ∷ [] ≡ encode a)
one_sound a ha e = ground (arith, lead_range a ha)

and_split : (p q : Bool) → (p && q) ≡ true → (p ≡ true) × (q ≡ true)
and_split p q h = ground arith

module _ {rest : List ℕ} (w : WellFormed rest) where
  read_one : {a : ℕ} → a < 256 → lead a ≡ one → WellFormed (a ∷ rest)
  read_one {a} ha e =
      let (fits, same) = one_sound a ha e in next _ fits (ap (λ t. t ++ rest) same) w

  read_two :
      {a b : ℕ} → a < 256 → b < 256 → lead a ≡ two → two_byte a b ≡ true → WellFormed (a ∷ b ∷ rest)
  read_two {a} {b} ha hb e h =
      let (fits, same) = two_sound a b ha hb e h in next _ fits (ap (λ t. t ++ rest) same) w

  read_three :
      {a b c : ℕ}
      → a < 256
      → b < 256
      → c < 256
      → lead a ≡ three
      → three_byte a b c ≡ true
      → WellFormed (a ∷ b ∷ c ∷ rest)
  read_three {a} {b} {c} ha hb hc e h =
      let (fits, same) = three_sound a b c ha hb hc e h in next _ fits (ap (λ t. t ++ rest) same) w

  read_four :
      {a b c d : ℕ}
      → a < 256
      → b < 256
      → c < 256
      → d < 256
      → lead a ≡ four
      → four_byte a b c d ≡ true
      → WellFormed (a ∷ b ∷ c ∷ d ∷ rest)
  read_four {a} {b} {c} {d} ha hb hc hd e h =
      let (fits, same) = four_sound a b c d ha hb hc hd e h in
      next _ fits (ap (λ t. t ++ rest) same) w

pub sound : (bs : List ℕ) → AreBytes bs → scan_utf8 bs ≡ true → WellFormed bs
unfolding scan_utf8
sound [] _ h = end
sound (a ∷ []) (ha, _) h = by_lead (lead a) refl h
  where
    by_lead :
        (l : Lead) → lead a ≡ l → elim l [ one ↦ true | _ ↦ false ] ≡ true → WellFormed (a ∷ [])
    by_lead one e h = read_one end ha e
    by_lead _ e h = cc
sound (a ∷ b ∷ []) (ha, (hb, u)) h = by_lead (lead a) refl h (sound (b ∷ []) (hb, u))
  where
    by_lead :
        (l : Lead)
        → lead a ≡ l
        → elim l [ one ↦ scan_utf8 (b ∷ []) | two ↦ two_byte a b | _ ↦ false ] ≡ true
        → (scan_utf8 (b ∷ []) ≡ true → WellFormed (b ∷ []))
        → WellFormed (a ∷ b ∷ [])
    by_lead one e h r1 = read_one (r1 h) ha e
    by_lead two e h r1 = read_two end ha hb e h
    by_lead _ e h r1 = cc
sound (a ∷ b ∷ c ∷ []) (ha, (hb, (hc, u))) h =
    by_lead (lead a) refl h (sound (b ∷ c ∷ []) (hb, (hc, u))) (sound (c ∷ []) (hc, u))
  where
    by_lead :
        (l : Lead)
        → lead a ≡ l
        → elim l [
          | one ↦ scan_utf8 (b ∷ c ∷ [])
          | two ↦ two_byte a b && scan_utf8 (c ∷ [])
          | three ↦ three_byte a b c
          | _ ↦ false
        ]
          ≡ true
        → (scan_utf8 (b ∷ c ∷ []) ≡ true → WellFormed (b ∷ c ∷ []))
        → (scan_utf8 (c ∷ []) ≡ true → WellFormed (c ∷ []))
        → WellFormed (a ∷ b ∷ c ∷ [])
    by_lead one e h r1 r2 = read_one (r1 h) ha e
    by_lead two e h r1 r2 = let (fits, more) = and_split _ _ h in read_two (r2 more) ha hb e fits
    by_lead three e h r1 r2 = read_three end ha hb hc e h
    by_lead _ e h r1 r2 = cc
sound (a ∷ b ∷ c ∷ d ∷ s) (ha, (hb, (hc, (hd, u)))) h =
    by_lead (lead a) refl h (sound (b ∷ c ∷ d ∷ s) (hb, (hc, (hd, u))))
      (sound (c ∷ d ∷ s) (hc, (hd, u))) (sound (d ∷ s) (hd, u)) (sound s u)
  where
    by_lead :
        (l : Lead)
        → lead a ≡ l
        → elim l [
          | one ↦ scan_utf8 (b ∷ c ∷ d ∷ s)
          | two ↦ two_byte a b && scan_utf8 (c ∷ d ∷ s)
          | three ↦ three_byte a b c && scan_utf8 (d ∷ s)
          | four ↦ four_byte a b c d && scan_utf8 s
          | invalid ↦ false
        ]
          ≡ true
        → (scan_utf8 (b ∷ c ∷ d ∷ s) ≡ true → WellFormed (b ∷ c ∷ d ∷ s))
        → (scan_utf8 (c ∷ d ∷ s) ≡ true → WellFormed (c ∷ d ∷ s))
        → (scan_utf8 (d ∷ s) ≡ true → WellFormed (d ∷ s))
        → (scan_utf8 s ≡ true → WellFormed s)
        → WellFormed (a ∷ b ∷ c ∷ d ∷ s)
    by_lead one e h r1 r2 r3 r4 = read_one (r1 h) ha e
    by_lead two e h r1 r2 r3 r4 =
        let (fits, more) = and_split _ _ h in read_two (r2 more) ha hb e fits
    by_lead three e h r1 r2 r3 r4 =
        let (fits, more) = and_split _ _ h in read_three (r3 more) ha hb hc e fits
    by_lead four e h r1 r2 r3 r4 =
        let (fits, more) = and_split _ _ h in read_four (r4 more) ha hb hc hd e fits
    by_lead invalid e h r1 r2 r3 r4 = cc
