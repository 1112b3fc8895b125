-- ===== src/Prelude/Elements.antt =====
-- Lists read element by element: what `get_elem?` finds in a list that was cut, joined or
-- overwritten, and that the elements determine the list.
use Prim.Native.Nat.{ℕ, zero, suc, ◌+◌, ◌-◌, ◌≤◌}
use mathlib.Core.Path.{◌≡◌, refl, sym, ap, ap₂, ◌∙◌}
use mathlib.Core.List.{List, [], ◌∷◌, ◌++◌, append_assoc}
use mathlib.Core.Option.{none, some-injective}
use native.Mathlib.Omega.{arith}
use websocketclient_cpp.Prelude.Tests.{ltb, if◌then◌else◌}
use websocketclient_cpp.Prelude.Lists.{
  length, get_elem?, take, drop, length-append, length-take, length-drop, take-append,
}

module _ {A : Type 0} where
  -- `std::copy(src, src + n, buf + off)`: the elements of `src` over those of `xs` from `off` on.
  -- A copy that runs past the end of `xs` has no meaning in the source.
  abbrev pub overwrite : List A → ℕ → List A → List A
  overwrite xs off src = take off xs ++ (src ++ drop (off + length src) xs)

  pub get_elem?-append :
      (xs ys : List A) (i : ℕ)
      → get_elem? (xs ++ ys) i
        ≡ (if ltb i (length xs) then get_elem? xs i else get_elem? ys (i - length xs))
  get_elem?-append [] ys i = ground arith
  get_elem?-append (x ∷ xs) ys zero = ground arith
  get_elem?-append (x ∷ xs) ys (suc i) = ground (arith, get_elem?-append xs ys i)

  pub get_elem?-take :
      (n : ℕ) (xs : List A) (i : ℕ)
      → get_elem? (take n xs) i ≡ (if ltb i n then get_elem? xs i else none)
  get_elem?-take zero xs i = ground arith
  get_elem?-take (suc n) [] i = ground arith
  get_elem?-take (suc n) (x ∷ xs) zero = ground arith
  get_elem?-take (suc n) (x ∷ xs) (suc i) = ground (arith, get_elem?-take n xs i)

  pub get_elem?-drop :
      (n : ℕ) (xs : List A) (i : ℕ) → get_elem? (drop n xs) i ≡ get_elem? xs (n + i)
  get_elem?-drop zero xs i = ground arith
  get_elem?-drop (suc n) [] i = ground arith
  get_elem?-drop (suc n) (x ∷ xs) i = ground (arith, get_elem?-drop n xs i)

  pub get_elem?_ext : (xs ys : List A) → ((i : ℕ) → get_elem? xs i ≡ get_elem? ys i) → xs ≡ ys
  get_elem?_ext [] [] h = refl
  get_elem?_ext [] (y ∷ ys) h = absurd (ground (arith, h 0))
  get_elem?_ext (x ∷ xs) [] h = absurd (ground (arith, h 0))
  get_elem?_ext (x ∷ xs) (y ∷ ys) h =
      ap₂ ◌∷◌ (some-injective _ _ (h 0)) (get_elem?_ext xs ys (λ i. h (suc i)))

  pub get_elem?-none : (xs : List A) (i : ℕ) → length xs ≤ i → get_elem? xs i ≡ none
  get_elem?-none [] i h = refl
  get_elem?-none (x ∷ xs) zero h = absurd (omega arith)
  get_elem?-none (x ∷ xs) (suc i) h = get_elem?-none xs i (omega arith)

  pub length-overwrite :
      (xs : List A) (off : ℕ) (src : List A)
      → off + length src ≤ length xs
      → length (overwrite xs off src) ≡ length xs
  length-overwrite xs off src h = omega (
    arith,
    length-append (take off xs) (src ++ drop (off + length src) xs),
    length-append src (drop (off + length src) xs),
    length-take off xs,
    length-drop (off + length src) xs,
  )

  pub get_elem?-overwrite :
      (xs : List A) (off : ℕ) (src : List A) (i : ℕ)
      → off + length src ≤ length xs
      → get_elem? (overwrite xs off src) i ≡ (
          if ltb i off
          then get_elem? xs i
          else if ltb i (off + length src)
          then get_elem? src (i - off)
          else get_elem? xs i)
  get_elem?-overwrite xs off src i h = ground (
    arith,
    get_elem?-append (take off xs) (src ++ drop (off + length src) xs) i,
    get_elem?-append src (drop (off + length src) xs) (i - length (take off xs)),
    get_elem?-take off xs i,
    get_elem?-drop (off + length src) xs (i - length (take off xs) - length src),
    length-take off xs,
  )

  -- What stands before the end of the overwritten part
  pub take-overwrite :
      (xs : List A) (off n : ℕ) (src : List A)
      → n ≡ off + length src
      → n ≤ length xs
      → take n (overwrite xs off src) ≡ take off xs ++ src
  take-overwrite xs off n src e h =
      ap (take n) (sym (append_assoc (take off xs) src (drop (off + length src) xs)))
      ∙ take-append n (take off xs ++ src) (drop (off + length src) xs)
          (omega (arith, length-append (take off xs) src, length-take off xs))
