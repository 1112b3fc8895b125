-- ===== src/Handshake/Tokens.antt =====
-- What it means that a header field has a token: a list between commas, white space around its
-- elements, and letters of either case.
use websocketclient_cpp.Prelude.{
  ℕ, ◌+◌, ◌≤◌, ◌≡◌, refl, sym, ap, ◌∙◌, subst, ◌≢◌, ◌⊎◌, inl, inr, Bool, true, false, ◌&&◌, ◌||◌,
  List, [], ◌∷◌, ◌++◌, arith, leb, ◌==◌, ==_iff, Bool-cases,
}
use websocketclient_cpp.Text.{
  Text, Every, Without, tolower, isspace, equals_ci, equals_ci_char, trim, trim_left, trim_right,
  is_nil,
}
use websocketclient_cpp.HttpHeader.{HttpHeaderFields}
use websocketclient_cpp.Handshake.{tokens, any_token, any_field, header_contains_token}

-- The same character, or the same letter in the other case
abbrev pub SameChar : ℕ → ℕ → Type 0
SameChar a b =
    (a ≡ b) ⊎ (((65 ≤ a) × (a ≤ 90) × (b ≡ a + 32)) ⊎ ((65 ≤ b) × (b ≤ 90) × (a ≡ b + 32)))

abbrev pub Same : Text → Text → Type 0
Same [] [] = Unit
Same [] (b ∷ t) = ⊥
Same (a ∷ s) [] = ⊥
Same (a ∷ s) (b ∷ t) = SameChar a b × Same s t

equals_ci_char-SameChar : (a b : ℕ) → equals_ci_char a b ≡ true → SameChar a b
unfolding equals_ci_char tolower
equals_ci_char-SameChar a b h = elim (Bool-cases (leb 65 a && leb a 90)) [
  | inl e ↦ elim (Bool-cases (leb 65 b && leb b 90)) [
    | inl f ↦ inl (ground (arith, e, f, h))
    | inr f ↦ inr (inl (ground (arith, e, f, h)))
  ]
  | inr e ↦ elim (Bool-cases (leb 65 b && leb b 90)) [
    | inl f ↦ inr (inr (ground (arith, e, f, h)))
    | inr f ↦ inl (ground (arith, e, f, h))
  ]
]

and_parts : (a b : Bool) → (a && b) ≡ true → (a ≡ true) × (b ≡ true)
and_parts true b h = (refl, h)
and_parts false b h = absurd (ground (arith, h))

equals_ci-Same : (s t : Text) → equals_ci s t ≡ true → Same s t
unfolding equals_ci
equals_ci-Same [] [] h = tt
equals_ci-Same [] (b ∷ t) h = absurd (ground (arith, h))
equals_ci-Same (a ∷ s) [] h = absurd (ground (arith, h))
equals_ci-Same (a ∷ s) (b ∷ t) h =
    let (p, q) = and_parts (equals_ci_char a b) (equals_ci s t) h in
    (equals_ci_char-SameChar a b p, equals_ci-Same s t q)

-- A word with white space around it
pub record IsWord (expected part : Text) : Type 0 where
  pub left : Text
  pub word : Text
  pub right : Text
  pub cut : part ≡ left ++ (word ++ right)
  pub left_space : Every isspace left
  pub right_space : Every isspace right
  pub same : Same word expected

trim_left-cut : (s : Text) → (left : Text) × Every isspace left × (s ≡ left ++ trim_left s)
unfolding trim_left
trim_left-cut [] = ([], tt, refl)
trim_left-cut (c ∷ s) = elim (Bool-cases (isspace c)) [
  | inl e ↦
      let (left, spaces, same) = trim_left-cut s in
      (c ∷ left, (e, spaces), rw e (ap (λ t. c ∷ t) same))
  | inr e ↦ ([], tt, rw e refl)
]

is_nil_sound : (s : Text) → is_nil s ≡ true → s ≡ []
is_nil_sound [] h = refl
is_nil_sound (c ∷ s) h = absurd (ground (arith, h))

trim_right-cut : (s : Text) → (right : Text) × Every isspace right × (s ≡ trim_right s ++ right)
unfolding trim_right
trim_right-cut [] = ([], tt, refl)
trim_right-cut (c ∷ s) = elim (Bool-cases (isspace c && is_nil (trim_right s))) [
  | inl e ↦
      let (p, q) = and_parts (isspace c) (is_nil (trim_right s)) e in
      let (right, spaces, same) = trim_right-cut s in
      let whole : right ≡ s = sym (same ∙ ap (λ t. t ++ right) (is_nil_sound (trim_right s) q)) in
      (c ∷ s, (p, subst (Every isspace) whole spaces), rw e refl)
  | inr e ↦
      let (right, spaces, same) = trim_right-cut s in (right, spaces, rw e (ap (λ t. c ∷ t) same))
]

trim-IsWord : (expected part : Text) → equals_ci (trim part) expected ≡ true → IsWord expected part
unfolding trim
trim-IsWord expected part h =
    let (left, left_space, cut) = trim_left-cut part in
    let (right, right_space, cut') = trim_right-cut (trim_left part) in
    record {
      left = left;
      word = trim part;
      right = right;
      cut = cut ∙ ap (λ t. left ++ t) cut';
      left_space = left_space;
      right_space = right_space;
      same = equals_ci-Same (trim part) expected h;
    }

-- What may follow an element of a list: nothing, or a comma
abbrev pub Ends : Text → Type 0
Ends after = (after ≡ []) ⊎ ((a : Text) × (after ≡ 44 ∷ a))

abbrev pub Starts : Text → Type 0
Starts before = (before ≡ []) ⊎ ((b : Text) × (before ≡ b ++ (44 ∷ [])))

-- A list between commas with the word as an element
pub record Lists (expected value : Text) : Type 0 where
  pub before : Text
  pub part : Text
  pub after : Text
  pub cut : value ≡ before ++ (part ++ after)
  pub starts : Starts before
  pub ends : Ends after
  pub no_comma : Without (λ c. c == 44) part
  pub is_word : IsWord expected part

-- The first element of a list and the tokens behind it, one of which may be the word
record Split (expected value : Text) : Type 0 where
  first : Text
  rest : List Text
  after : Text
  found : tokens value ≡ first ∷ rest
  cut : value ≡ first ++ after
  ends : Ends after
  no_comma : Without (λ c. c == 44) first
  later : any_token expected rest ≡ true → (l : Lists expected value) × (l.before ≢ [])

grow_Lists :
    (expected value : Text) (c : ℕ) (l : Lists expected value)
    → l.before ≢ []
    → (l' : Lists expected (c ∷ value)) × (l'.before ≢ [])
grow_Lists expected value c l some_before = (
  record {
    before = c ∷ l.before;
    part = l.part;
    after = l.after;
    cut = ap (λ t. c ∷ t) l.cut;
    starts = elim l.starts [
      | inl e ↦ absurd (some_before e)
      | inr (b, e) ↦ inr (c ∷ b, ap (λ t. c ∷ t) e)
    ];
    ends = l.ends;
    no_comma = l.no_comma;
    is_word = l.is_word;
  },
  λ e. absurd (ground (arith, e)),
)

-- One of two tests that hold
or_parts : (a b : Bool) → (a || b) ≡ true → (a ≡ true) ⊎ (b ≡ true)
or_parts true b h = inl refl
or_parts false b h = inr h

-- Behind a comma, the word is the first element or a later one.
behind_comma :
    (expected s : Text) (c : ℕ) (more : Split expected s)
    → c ≡ 44
    → any_token expected (tokens s) ≡ true
    → (l : Lists expected (c ∷ s)) × (l.before ≢ [])
unfolding any_token
behind_comma expected s c more comma h =
    elim (or_parts (equals_ci (trim more.first) expected) (any_token expected more.rest)
      (sym (ap (any_token expected) more.found) ∙ h)) [
        | inl e ↦ (
          record {
            before = c ∷ [];
            part = more.first;
            after = more.after;
            cut = ap (λ t. c ∷ t) more.cut;
            starts = inr ([], ap (λ d. d ∷ []) comma);
            ends = more.ends;
            no_comma = more.no_comma;
            is_word = trim-IsWord expected more.first e;
          },
          λ e. absurd (ground (arith, e)),
        )
        | inr e ↦ let (l, k) = more.later e in grow_Lists expected s c l k
      ]

split : (expected value : Text) → Split expected value
unfolding tokens any_token
split expected [] = record {
  first = [];
  rest = [];
  after = [];
  found = refl;
  cut = refl;
  ends = inl refl;
  no_comma = tt;
  later = λ h. absurd (ground (arith, h));
}
split expected (c ∷ s) = elim (Bool-cases (c == 44)) [
  | inl e ↦
      let comma : c ≡ 44 = ground (arith, e, ==_iff c 44) in
      record {
        first = [];
        rest = tokens s;
        after = c ∷ s;
        found = rw e refl;
        cut = refl;
        ends = inr (s, ap (λ d. d ∷ s) comma);
        no_comma = tt;
        later = behind_comma expected s c (split expected s) comma;
      }
  | inr e ↦
      let more = split expected s in
      record {
        first = c ∷ more.first;
        rest = more.rest;
        after = more.after;
        found = rw (e, more.found) refl;
        cut = ap (λ t. c ∷ t) more.cut;
        ends = more.ends;
        no_comma = (ground (arith, e), more.no_comma);
        later = λ h. let (l, k) = more.later h in grow_Lists expected s c l k;
      }
]

tokens-Lists :
    (expected value : Text) → any_token expected (tokens value) ≡ true → Lists expected value
unfolding any_token
tokens-Lists expected value h =
    let more = split expected value in
    elim (or_parts (equals_ci (trim more.first) expected) (any_token expected more.rest)
      (sym (ap (any_token expected) more.found) ∙ h)) [
        | inl e ↦ record {
          before = [];
          part = more.first;
          after = more.after;
          cut = more.cut;
          starts = inl refl;
          ends = more.ends;
          no_comma = more.no_comma;
          is_word = trim-IsWord expected more.first e;
        }
        | inr e ↦ (more.later e).0
      ]

-- A field of the name, in either case, whose value lists the word
pub record HasToken (name expected : Text) (fields : List (Text × Text)) : Type 0 where
  pub before : List (Text × Text)
  pub key : Text
  pub value : Text
  pub after : List (Text × Text)
  pub cut : fields ≡ before ++ ((key, value) ∷ after)
  pub named : Same key name
  pub lists : Lists expected value

any_field-HasToken :
    (name expected : Text) (fs : List (Text × Text))
    → any_field name expected fs ≡ true
    → HasToken name expected fs
unfolding any_field
any_field-HasToken name expected [] h = absurd (ground (arith, h))
any_field-HasToken name expected ((k, v) ∷ fs) h =
    elim (or_parts (equals_ci k name && any_token expected (tokens v)) (any_field name expected fs)
      h) [
        | inl e ↦
            let (p, q) = and_parts (equals_ci k name) (any_token expected (tokens v)) e in
            record {
              before = [];
              key = k;
              value = v;
              after = fs;
              cut = refl;
              named = equals_ci-Same k name p;
              lists = tokens-Lists expected v q;
            }
        | inr e ↦
            let more = any_field-HasToken name expected fs e in
            record {
              before = (k, v) ∷ more.before;
              key = more.key;
              value = more.value;
              after = more.after;
              cut = ap (λ l. (k, v) ∷ l) more.cut;
              named = more.named;
              lists = more.lists;
            }
      ]

pub header_contains_token-HasToken :
    (fields : HttpHeaderFields) (name expected : Text)
    → header_contains_token fields name expected ≡ true
    → HasToken name expected fields.fields
unfolding header_contains_token
header_contains_token-HasToken fields name expected h =
    any_field-HasToken name expected fields.fields h
