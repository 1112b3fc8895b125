-- ===== src/Text/Trim.antt =====
-- What trimming leaves and what it takes.
use websocketclient_cpp.Prelude.{
  ℕ, ◌≤◌, ◌≡◌, refl, sym, ap, ◌∙◌, false, [], ◌∷◌, ◌++◌, append-nil, arith, length,
}
use websocketclient_cpp.Text.{Text, Every, isspace, trim_left, trim_right, trim}

-- Neither end is a space.
abbrev pub IsTrimmed : Text → Type 0
IsTrimmed s = (trim_left s ≡ s) × (trim_right s ≡ s)

pub trim_left-append : (s t : Text) → Every isspace s → trim_left (s ++ t) ≡ trim_left t
unfolding trim_left
trim_left-append [] t h = refl
trim_left-append (c ∷ s) t (e, h) = ground (arith, e, trim_left-append s t h)

pub trim_right_spaces : (t : Text) → Every isspace t → trim_right t ≡ []
unfolding trim_right
trim_right_spaces [] h = refl
trim_right_spaces (c ∷ t) (e, h) = ground (arith, e, trim_right_spaces t h)

pub trim_right-append : (s t : Text) → Every isspace t → trim_right (s ++ t) ≡ trim_right s
unfolding trim_right
trim_right-append [] t h = trim_right_spaces t h
trim_right-append (c ∷ s) t h = ground (arith, trim_right-append s t h)

-- A text whose end stays keeps what stands before it.
pub trim_right-keep :
    (s t : Text) (c : ℕ) (u : Text) → trim_right t ≡ c ∷ u → trim_right (s ++ t) ≡ s ++ (c ∷ u)
unfolding trim_right
trim_right-keep [] t c u h = h
trim_right-keep (d ∷ []) t c u h = ground (arith, h)
trim_right-keep (d ∷ e ∷ s) t c u h = ground (arith, trim_right-keep (e ∷ s) t c u h)

length-trim_left : (s : Text) → length (trim_left s) ≤ length s
unfolding trim_left
length-trim_left [] = omega arith
length-trim_left (c ∷ s) = ground (arith, length-trim_left s)

-- A text that keeps its front starts with no space.
pub trimmed_front : (c : ℕ) (s : Text) → trim_left (c ∷ s) ≡ c ∷ s → isspace c ≡ false
unfolding trim_left
trimmed_front c s h = ground (arith, ap length h, length-trim_left s)

pub trim_left_stay : (c : ℕ) (s : Text) → isspace c ≡ false → trim_left (c ∷ s) ≡ c ∷ s
unfolding trim_left
trim_left_stay c s h = ground (arith, h)

-- The spaces on both sides of a trimmed text go.
pub trim_around :
    (s t u : Text) → Every isspace s → IsTrimmed t → Every isspace u → trim (s ++ (t ++ u)) ≡ t
unfolding trim
trim_around s [] u h e k =
    ap trim_right (trim_left-append s u h)
    ∙ ap trim_right (sym (ap trim_left (append-nil u)) ∙ trim_left-append u [] k)
    ∙ e.1
trim_around s (c ∷ t) u h e k =
    ap trim_right
      (trim_left-append s (c ∷ t ++ u) h ∙ trim_left_stay c (t ++ u) (trimmed_front c t e.0))
    ∙ trim_right-append (c ∷ t) u k
    ∙ e.1
