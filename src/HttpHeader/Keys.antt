-- ===== src/HttpHeader/Keys.antt =====
-- `equals_ci` compares texts with their capitals made small.
use websocketclient_cpp.Prelude.{
  ◌≡◌, refl, sym, ap, ◌∙◌, Bool, true, false, ◌&&◌, [], ◌∷◌, arith, ◌==◌, ==_iff,
}
use websocketclient_cpp.Text.{Text, tolower, equals_ci, equals_ci_char, equals}

abbrev pub small : Text → Text
small [] = []
small (c ∷ s) = tolower c ∷ small s

&&-true : (a b : Bool) → (a && b) ≡ true → (a ≡ true) × (b ≡ true)
&&-true true b h = (refl, h)
&&-true false b h = absurd (ground (arith, h))

pub equals_sound : (s t : Text) → equals s t ≡ true → s ≡ t
unfolding equals
equals_sound [] [] h = refl
equals_sound [] (d ∷ t) h = absurd (ground (arith, h))
equals_sound (c ∷ s) [] h = absurd (ground (arith, h))
equals_sound (c ∷ s) (d ∷ t) h =
    let (p, q) = &&-true (c == d) (equals s t) h in cc ((==_iff c d).0 p, equals_sound s t q)

pub equals_refl : (s : Text) → equals s s ≡ true
unfolding equals
equals_refl [] = refl
equals_refl (c ∷ s) = ground (arith, equals_refl s)

equals_ci-small : (s t : Text) → equals_ci s t ≡ equals (small s) (small t)
unfolding equals_ci equals equals_ci_char
equals_ci-small [] [] = refl
equals_ci-small [] (d ∷ t) = refl
equals_ci-small (c ∷ s) [] = refl
equals_ci-small (c ∷ s) (d ∷ t) = ap (λ b. tolower c == tolower d && b) (equals_ci-small s t)

pub equals_ci_refl : (s : Text) → equals_ci s s ≡ true
equals_ci_refl s = equals_ci-small s s ∙ equals_refl (small s)

-- Texts that are equal up to case are equal to the same texts.
pub equals_ci_trans : (r s t : Text) → equals_ci r s ≡ true → equals_ci r t ≡ equals_ci s t
equals_ci_trans r s t h =
    equals_ci-small r t
    ∙ ap (λ u. equals u (small t)) (equals_sound _ _ (sym (equals_ci-small r s) ∙ h))
    ∙ sym (equals_ci-small s t)

pub equals_ci_trans_right : (r s t : Text) → equals_ci s t ≡ true → equals_ci r s ≡ equals_ci r t
equals_ci_trans_right r s t h =
    equals_ci-small r s
    ∙ ap (equals (small r)) (equals_sound _ _ (sym (equals_ci-small s t) ∙ h))
    ∙ sym (equals_ci-small r t)
