-- ===== src/Text/Search.antt =====
-- Where `find` and `getline` stop.
use websocketclient_cpp.Prelude.{
  ℕ, zero, suc, ◌+◌, ◌-◌, ◌≤◌, ◌≡◌, refl, sym, ap, subst, inl, inr, Bool, true, false, none, some,
  [], ◌∷◌, ◌++◌, arith, ◌==◌, ==_iff, Bool-cases, Option-cases, length, get_elem?, take, drop,
  length-drop, drop-append, take_all, drop_all,
}
use websocketclient_cpp.Text.{
  Text, Every, Without, index, find_from, find_text, starts_with, upto, getline, lines, or_size,
}

pub Every-append : (p : ℕ → Bool) (s t : Text) → Every p s → Every p t → Every p (s ++ t)
Every-append p [] t h k = k
Every-append p (c ∷ s) t (e, h) k = (e, Every-append p s t h k)

pub Every-weaken :
    (p q : ℕ → Bool) → ((c : ℕ) → p c ≡ true → q c ≡ true) → (s : Text) → Every p s → Every q s
Every-weaken p q f [] h = tt
Every-weaken p q f (c ∷ s) (e, h) = (f c e, Every-weaken p q f s h)

pub index-none : (p : ℕ → Bool) (s : Text) → Without p s → index p s ≡ none
unfolding index
index-none p [] h = refl
index-none p (c ∷ s) (e, h) = ground (arith, e, index-none p s h)

-- The position right behind a text in which no byte passes
pub index-hit :
    (p : ℕ → Bool) (s : Text) (c : ℕ) (t : Text)
    → Without p s
    → p c ≡ true
    → index p (s ++ (c ∷ t)) ≡ some (length s)
unfolding index
index-hit p [] c t h e = ground (arith, e)
index-hit p (d ∷ s) c t (f, h) e = ground (arith, f, index-hit p s c t h e)

pub find_from-hit :
    (p : ℕ → Bool) (offset : ℕ) (pre s : Text) (c : ℕ) (t : Text)
    → length pre ≡ offset
    → Without p s
    → p c ≡ true
    → find_from p offset (pre ++ (s ++ (c ∷ t))) ≡ some (offset + length s)
unfolding find_from
find_from-hit p offset pre s c t n h e =
    ground (arith, drop-append offset pre (s ++ (c ∷ t)) n, index-hit p s c t h e)

pub find_from-none :
    (p : ℕ → Bool) (offset : ℕ) (pre s : Text)
    → length pre ≡ offset
    → Without p s
    → find_from p offset (pre ++ s) ≡ none
unfolding find_from
find_from-none p offset pre s n h = ground (arith, drop-append offset pre s n, index-none p s h)

pub starts_with-append : (s t : Text) → starts_with s (s ++ t) ≡ true
unfolding starts_with
starts_with-append [] t = refl
starts_with-append (c ∷ s) t = ground (arith, starts_with-append s t)

pub find_text-hit :
    (s : Text) (c : ℕ) (needle t : Text)
    → Without (λ d. d == c) s
    → find_text (c ∷ needle) (s ++ (c ∷ needle ++ t)) ≡ some (length s)
unfolding find_text starts_with
find_text-hit [] c needle t h = ground (arith, starts_with-append needle t)
find_text-hit (d ∷ s) c needle t (e, h) = ground (arith, e, find_text-hit s c needle t h)

-- A line that a delimiter ends, and one that the end of the stream does
pub upto-hit :
    (delim : ℕ) (s t : Text) → Without (λ c. c == delim) s → upto delim (s ++ (delim ∷ t)) ≡ (s, t)
unfolding upto
upto-hit delim [] t h = ground arith
upto-hit delim (c ∷ s) t (e, h) = ground (arith, e, upto-hit delim s t h)

pub upto_end : (delim : ℕ) (s : Text) → Without (λ c. c == delim) s → upto delim s ≡ (s, [])
unfolding upto
upto_end delim [] h = refl
upto_end delim (c ∷ s) (e, h) = ground (arith, e, upto_end delim s h)

pub getline-hit :
    (delim : ℕ) (s t : Text)
    → Without (λ c. c == delim) s
    → getline delim (s ++ (delim ∷ t)) ≡ some (s, t)
unfolding getline
getline-hit delim [] t h = ap some (upto-hit delim [] t h)
getline-hit delim (c ∷ s) t h = ap some (upto-hit delim (c ∷ s) t h)

-- The loop over `getline` goes through the lines.
pub lines-upto :
    (delim c : ℕ) (s : Text)
    → lines delim (c ∷ s) ≡ (upto delim (c ∷ s)).0 ∷ lines delim (upto delim (c ∷ s)).1
unfolding lines upto
lines-upto delim c [] = ground arith
lines-upto delim c (d ∷ s) = ground (arith, lines-upto delim d s)

pub lines-hit :
    (delim : ℕ) (s t : Text)
    → Without (λ c. c == delim) s
    → lines delim (s ++ (delim ∷ t)) ≡ s ∷ lines delim t
unfolding lines
lines-hit delim [] t h = ground arith
lines-hit delim (c ∷ s) t (e, h) = ground (arith, e, lines-hit delim s t h)

-- What a search that found something says, and one that did not
pub record Found (p : ℕ → Bool) (s : Text) (i : ℕ) : Type 0 where
  pub byte : ℕ
  pub rest : Text
  pub here : drop i s ≡ byte ∷ rest
  pub passes : p byte ≡ true
  pub before : Without p (take i s)

pub index-Found : (p : ℕ → Bool) (s : Text) (i : ℕ) → index p s ≡ some i → Found p s i
unfolding index
index-Found p [] i h = absurd (ground (arith, h))
index-Found p (c ∷ s) i h = elim (Bool-cases (p c)) [
  | inl e ↦ at_front i e (ground (arith, h, e))
  | inr e ↦ elim (Option-cases (index p s)) [
    | inl f ↦ absurd (ground (arith, h, e, f))
    | inr (j, f) ↦ behind i j e (index-Found p s j f) (ground (arith, h, e, f))
  ]
]
  where
    at_front : (k : ℕ) → p c ≡ true → k ≡ 0 → Found p (c ∷ s) k
    at_front zero e f = record { byte = c; rest = s; here = refl; passes = e; before = tt }
    at_front (suc k) e f = absurd (omega arith)

    behind : (k j : ℕ) → p c ≡ false → Found p s j → k ≡ suc j → Found p (c ∷ s) k
    behind zero j e f g = absurd (omega arith)
    behind (suc k) j e f g =
        let q : j ≡ k = omega arith in
        subst (λ n. Found p (c ∷ s) (suc n)) q
          (record {
            byte = f.byte;
            rest = f.rest;
            here = f.here;
            passes = f.passes;
            before = (ground (arith, e), f.before);
          })

pub index_missed : (p : ℕ → Bool) (s : Text) → index p s ≡ none → Without p s
unfolding index
index_missed p [] h = tt
index_missed p (c ∷ s) h = (ground (arith, h), index_missed p s (ground (arith, h)))

pub drop-drop : (i j : ℕ) (s : Text) → drop j (drop i s) ≡ drop (i + j) s
drop-drop zero j s = ground arith
drop-drop (suc i) zero [] = ground arith
drop-drop (suc i) (suc j) [] = sym (drop_all (suc i + suc j) [] (omega arith))
drop-drop (suc i) j (c ∷ s) =
    let e : suc i + j ≡ suc (i + j) = omega arith in rw e (drop-drop i j s)

pub drop-at :
    (i : ℕ) (s : Text) (c : ℕ) (rest : Text) → drop i s ≡ c ∷ rest → get_elem? s i ≡ some c
drop-at zero [] c rest h = absurd (ground (arith, h))
drop-at zero (d ∷ s) c rest h = ground (arith, h)
drop-at (suc i) [] c rest h = absurd (ground (arith, h))
drop-at (suc i) (d ∷ s) c rest h = drop-at i s c rest h

-- The byte that `find_from` found, and what follows it
pub find_from_hit_lem :
    (p : ℕ → Bool) (k : ℕ) (s : Text) (i : ℕ)
    → find_from p k s ≡ some i
    → (c : ℕ) × (rest : Text) × (drop i s ≡ c ∷ rest) × (p c ≡ true)
unfolding find_from
find_from_hit_lem p k s i h = elim (Option-cases (index p (drop k s))) [
  | inl e ↦ absurd (ground (arith, h, e))
  | inr (j, e) ↦
      let f = index-Found p (drop k s) j e in
      (f.byte, f.rest, ground (arith, h, e, drop-drop k j s, f.here), f.passes)
]

-- The text from a position up to the next byte that passes, or to the end
pub upto_next :
    (p : ℕ → Bool) (i : ℕ) (s : Text) (c : ℕ) (rest : Text)
    → drop i s ≡ c ∷ rest
    → p c ≡ false
    → (t : Text) × (take (or_size s (find_from p i s) - i) (drop i s) ≡ c ∷ t) × Without p t
unfolding find_from
upto_next p i s c rest h e = elim (Option-cases (index p (drop i s))) [
  | inl f ↦ (
    rest,
    ground (arith, f, h, length-drop i s, take_all (length s - i) (drop i s)),
    (subst (Without p) h (index_missed p (drop i s) f)).1,
  )
  | inr (j, f) ↦ cut j f (subst (λ l. Found p l j) h (index-Found p (drop i s) j f))
]
  where
    cut :
        (j : ℕ)
        → index p (drop i s) ≡ some j
        → Found p (c ∷ rest) j
        → (t : Text) × (take (or_size s (find_from p i s) - i) (drop i s) ≡ c ∷ t) × Without p t
    cut zero f g = absurd (ground (arith, g.here, g.passes, e))
    cut (suc j) f g = (take j rest, ground (arith, f, h), g.before.1)

starts_with-split : (s t : Text) → starts_with s t ≡ true → (rest : Text) × (t ≡ s ++ rest)
unfolding starts_with
starts_with-split [] t h = (t, refl)
starts_with-split (c ∷ s) [] h = absurd (ground (arith, h))
starts_with-split (c ∷ s) (d ∷ t) h = elim (Bool-cases (c == d)) [
  | inl e ↦
      let (rest, f) = starts_with-split s t (ground (arith, h, e)) in
      (rest, ground (arith, f, e, ==_iff c d))
  | inr e ↦ absurd (ground (arith, h, e))
]

-- The needle stands where `find_text` says.
pub find_text_sound :
    (needle s : Text) (i : ℕ)
    → find_text needle s ≡ some i
    → (rest : Text) × (drop i s ≡ needle ++ rest) × (i ≤ length s)
unfolding find_text
find_text_sound needle [] i h = absurd (ground (arith, h))
find_text_sound needle (c ∷ s) i h = elim (Bool-cases (starts_with needle (c ∷ s))) [
  | inl e ↦
      let (rest, f) = starts_with-split needle (c ∷ s) e in
      let z : 0 ≡ i = ground (arith, h, e) in
      subst (λ k. (rest : Text) × (drop k (c ∷ s) ≡ needle ++ rest) × (k ≤ length (c ∷ s))) z
        (rest, f, omega arith)
  | inr e ↦ elim (Option-cases (find_text needle s)) [
    | inl f ↦ absurd (ground (arith, h, e, f))
    | inr (j, f) ↦
        let (rest, g, k) = find_text_sound needle s j f in
        let z : suc j ≡ i = ground (arith, h, e, f) in
        subst (λ k. (rest : Text) × (drop k (c ∷ s) ≡ needle ++ rest) × (k ≤ length (c ∷ s))) z
          (rest, g, omega arith)
  ]
]
