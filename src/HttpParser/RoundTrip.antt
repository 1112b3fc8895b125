-- ===== src/HttpParser/RoundTrip.antt =====
-- Reading header fields as `operator<<` writes them.
use websocketclient_cpp.Prelude.{
  ℕ, ◌+◌, ◌≡◌, refl, sym, ap, ◌∙◌, false, List, [], ◌∷◌, ◌++◌, append-nil, append_assoc, arith,
  ◌==◌, length, drop, length-append, take-append,
}
use websocketclient_cpp.Text.{
  Text, Every, Without, isspace, trim, trim_left, trim_right, is_nil, lines,
}
use websocketclient_cpp.Text.Trim.{IsTrimmed, trim_left_stay, trim_right-append, trim_right-keep}
use websocketclient_cpp.Text.Search.{
  index-hit, lines-hit, lines-upto, upto_end, lines-upto, upto_end, Every-append,
}
use websocketclient_cpp.Errors.{ok}
use websocketclient_cpp.HttpHeader.{HttpHeaderFields, print_field, print_fields, crlf, add}
use websocketclient_cpp.HttpParser.{parse_header_fields, parse_lines, parse_line, split_line, field}

-- Not empty, and the first byte is no space
abbrev pub Starts : Text → Type 0
Starts [] = ⊥
Starts (c ∷ s) = isspace c ≡ false

-- What a field must be to be read back: its key starts with no space and holds no colon and no line
-- feed, its value holds no line feed and no space at either end.
pub record IsPrintable (f : Text × Text) : Type 0 where
  pub start : Starts f.0
  pub no_colon : Without (λ c. c == b':') f.0
  pub key_line : Without (λ c. c == 10) f.0
  pub value_line : Without (λ c. c == 10) f.1
  pub trimmed : IsTrimmed f.1

abbrev pub ArePrintable : List (Text × Text) → Type 0
ArePrintable [] = Unit
ArePrintable (f ∷ rest) = IsPrintable f × ArePrintable rest

-- The value as it stands in a line whose end is trimmed
abbrev after_colon : Text → Text
after_colon [] = []
after_colon (c ∷ v) = b' ' ∷ c ∷ v

front_stays : (c : ℕ) (s : Text) → isspace c ≡ false → trim (c ∷ s) ≡ trim_right (c ∷ s)
unfolding trim
front_stays c s h = ap trim_right (trim_left_stay c s h)

trim-line :
    (c : ℕ) (key value : Text)
    → isspace c ≡ false
    → trim_right value ≡ value
    → (end : Text) → Every isspace end
    → trim ((c ∷ key) ++ (b':' ∷ b' ' ∷ value ++ end)) ≡ (c ∷ key) ++ (b':' ∷ after_colon value)
unfolding isspace trim_right
trim-line c key [] h e end k =
    front_stays c (key ++ (b':' ∷ b' ' ∷ end)) h
    ∙ trim_right-keep (c ∷ key) (b':' ∷ b' ' ∷ end) b':' []
        (trim_right-append (b':' ∷ []) (b' ' ∷ end) (refl, k))
trim-line c key (d ∷ value) h e end k =
    front_stays c (key ++ (b':' ∷ b' ' ∷ d ∷ value ++ end)) h
    ∙ trim_right-keep (c ∷ key) (b':' ∷ b' ' ∷ d ∷ value ++ end) b':' (b' ' ∷ d ∷ value) (
        trim_right-append (b':' ∷ b' ' ∷ d ∷ value) end k
        ∙ trim_right-keep (b':' ∷ b' ' ∷ []) (d ∷ value) d value e)

trim_trimmed : (v : Text) → IsTrimmed v → (trim v ≡ v) × (trim (b' ' ∷ v) ≡ v)
unfolding trim trim_left isspace
trim_trimmed v (e, f) = (ap trim_right e ∙ f, ap trim_right e ∙ f)

drop_behind : (s : Text) (c : ℕ) (t : Text) → drop (length s + 1) (s ++ (c ∷ t)) ≡ t
drop_behind [] c t = refl
drop_behind (d ∷ s) c t = ground (arith, drop_behind s c t)

-- A trimmed line is cut at its first colon.
split_line_lem :
    (key value : Text)
    → is_nil key ≡ false
    → IsTrimmed value
    → split_line (key ++ (b':' ∷ after_colon value)) (length key) ≡ field key value
split_line_lem key [] h e = ground (
  arith,
  h,
  take-append (length key) key (b':' ∷ []) refl,
  length-append key (b':' ∷ []),
  trim_trimmed [] e,
)
split_line_lem key (d ∷ v) h e = ground (
  arith,
  h,
  take-append (length key) key (b':' ∷ b' ' ∷ d ∷ v) refl,
  drop_behind key b':' (b' ' ∷ d ∷ v),
  length-append key (b':' ∷ b' ' ∷ d ∷ v),
  trim_trimmed (d ∷ v) e,
)

parse_line_lem :
    (c : ℕ) (key value : Text)
    → Without (λ d. d == b':') (c ∷ key)
    → IsTrimmed value
    → parse_line ((c ∷ key) ++ (b':' ∷ after_colon value)) ≡ field (c ∷ key) value
unfolding parse_line
parse_line_lem c key value h e =
    rw (index-hit (λ d. d == b':') (c ∷ key) b':' (after_colon value) h refl, parse_line)
      (split_line_lem (c ∷ key) value refl e)

-- The line of a field, which ends in `end`
ended : Text → Text × Text → Text
ended end (key, value) = key ++ (b':' ∷ b' ' ∷ value ++ end)

line_of : Text × Text → Text
unfolding ended
line_of f = ended (13 ∷ []) f

parse_field :
    (end : Text) (f : Text × Text)
    → IsPrintable f
    → Every isspace end
    → parse_line (trim (ended end f)) ≡ field f.0 f.1
unfolding ended
parse_field end ([], value) p k = absurd p.start
parse_field end (c ∷ key, value) p k =
    ap parse_line (trim-line c key value p.start (p.trimmed.1) end k)
    ∙ parse_line_lem c key value p.no_colon p.trimmed

line-no_feed : (f : Text × Text) → IsPrintable f → Without (λ c. c == 10) (line_of f)
unfolding line_of ended
line-no_feed (key, value) p =
    Every-append _ key _ p.key_line
      (refl, (refl, Every-append _ value (13 ∷ []) p.value_line (refl, tt)))

print_field-line : (f : Text × Text) (t : Text) → print_field f ++ t ≡ line_of f ++ (10 ∷ t)
unfolding line_of ended
print_field-line (key, value) t = simp append_assoc refl

lines_of : List (Text × Text) → List Text
lines_of [] = []
lines_of (f ∷ fs) = line_of f ∷ lines_of fs

-- The lines that the fields take, the empty line that ends them, and what follows
lines-print_fields :
    (fs : List (Text × Text)) (rest : Text)
    → ArePrintable fs
    → lines 10 (print_fields fs ++ rest) ≡ lines_of fs ++ lines 10 rest
unfolding lines_of
lines-print_fields [] rest h = refl
lines-print_fields (f ∷ fs) rest (p, h) =
    ap (lines 10) (
      append_assoc (print_field f) (print_fields fs) rest
      ∙ print_field-line f (print_fields fs ++ rest))
    ∙ lines-hit 10 (line_of f) (print_fields fs ++ rest) (line-no_feed f p)
    ∙ ap (λ l. line_of f ∷ l) (lines-print_fields fs rest h)

parse_lines-field :
    (result : HttpHeaderFields) (end : Text) (f : Text × Text) (ls : List Text)
    → IsPrintable f
    → Every isspace end
    → parse_lines result (ended end f ∷ ls)
      ≡ parse_lines (record { fields = result.fields ++ (f ∷ []) }) ls
unfolding parse_lines add
parse_lines-field result end f ls p k = rw (parse_field end f p k, parse_lines) refl

-- Fields are read behind those that were read, up to what follows them.
parse_lines_lem :
    (done fs : List (Text × Text)) (ls : List Text)
    → ArePrintable fs
    → parse_lines (record { fields = done }) (lines_of fs ++ ls)
      ≡ parse_lines (record { fields = done ++ fs }) ls
unfolding lines_of line_of isspace
parse_lines_lem done [] ls h =
    ap (λ l. parse_lines (record { fields = l }) ls) (sym (append-nil done))
parse_lines_lem done (f ∷ fs) ls (p, h) =
    parse_lines-field (record { fields = done }) (13 ∷ []) f (lines_of fs ++ ls) p (refl, tt)
    ∙ parse_lines_lem (done ++ (f ∷ [])) fs ls h
    ∙ ap (λ l. parse_lines (record { fields = l }) ls) (append_assoc done (f ∷ []) fs)

empty_line :
    (result : HttpHeaderFields) (ls : List Text) → parse_lines result ((13 ∷ []) ∷ ls) ≡ ok result
unfolding parse_lines parse_line trim trim_left trim_right isspace
empty_line result ls = refl

-- Header fields that are written and read back are the same, whatever follows the empty line that
-- ends them, if each key is not empty, starts with no space and holds no colon and no line feed, and
-- each value holds no line feed and neither starts nor ends with a space.
pub parse_header_fields-print :
    (fs : List (Text × Text)) (rest : Text)
    → ArePrintable fs
    → parse_header_fields (print_fields fs ++ (crlf ++ rest)) ≡ ok (record { fields = fs })
unfolding parse_header_fields
parse_header_fields-print fs rest h =
    ap (parse_lines (record { fields = [] })) (
      lines-print_fields fs (crlf ++ rest) h
      ∙ ap (λ l. lines_of fs ++ l) (lines-hit 10 (13 ∷ []) rest (refl, tt)))
    ∙ parse_lines_lem [] fs ((13 ∷ []) ∷ lines 10 rest) h
    ∙ empty_line (record { fields = fs }) (lines 10 rest)

-- The fields as they stand before the empty line: the last line has no end.
abbrev pub print_cut : List (Text × Text) → Text × Text → Text
print_cut fs (key, value) = print_fields fs ++ (key ++ (b':' ∷ b' ' ∷ value))

lines_last : (c : ℕ) (s : Text) → Without (λ d. d == 10) (c ∷ s) → lines 10 (c ∷ s) ≡ (c ∷ s) ∷ []
unfolding lines
lines_last c s h = lines-upto 10 c s ∙ ap (λ p. p.0 ∷ lines 10 p.1) (upto_end 10 (c ∷ s) h)

cut-no_feed : (f : Text × Text) → IsPrintable f → Without (λ c. c == 10) (ended [] f)
unfolding ended
cut-no_feed (key, value) p =
    Every-append _ key _ p.key_line (refl, (refl, Every-append _ value [] p.value_line tt))

lines-cut : (f : Text × Text) → IsPrintable f → lines 10 (ended [] f) ≡ ended [] f ∷ []
unfolding ended
lines-cut ([], value) p = absurd p.start
lines-cut (c ∷ key, value) p = lines_last c _ (cut-no_feed (c ∷ key, value) p)

-- The same holds of the fields without the line feeds that end them.
pub parse_header_fields-print_cut :
    (fs : List (Text × Text)) (f : Text × Text)
    → ArePrintable fs
    → IsPrintable f
    → parse_header_fields (print_cut fs f) ≡ ok (record { fields = fs ++ (f ∷ []) })
unfolding parse_header_fields ended
parse_header_fields-print_cut fs (key, value) h p =
    ap
      (λ s.
        parse_lines (record { fields = [] })
          (lines 10 (print_fields fs ++ (key ++ (b':' ∷ b' ' ∷ s)))))
      (sym (append-nil value))
    ∙ ap (parse_lines (record { fields = [] })) (
        lines-print_fields fs (ended [] (key, value)) h
        ∙ ap (λ l. lines_of fs ++ l) (lines-cut (key, value) p))
    ∙ parse_lines_lem [] fs (ended [] (key, value) ∷ []) h
    ∙ parse_lines-field (record { fields = fs }) [] (key, value) [] p tt
    ∙ (unfold parse_lines in refl)
