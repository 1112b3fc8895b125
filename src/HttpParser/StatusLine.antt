-- ===== src/HttpParser/StatusLine.antt =====
-- Reading a status line in the form of RFC 9112.
use websocketclient_cpp.Prelude.{
  ℕ, ◌^◌, ◌<◌, ◌≡◌, refl, sym, ap, ◌∙◌, ◌≢◌, true, not, some, [], ◌∷◌, ◌++◌, append-nil,
  append_assoc, arith, ◌==◌,
}
use websocketclient_cpp.Text.{
  Text, Without, isspace, trim_left, getline, decimal, is_digit, ℤ, pos, from_chars, whole,
}
use websocketclient_cpp.Text.Trim.{IsTrimmed, trim_around}
use websocketclient_cpp.Text.Search.{getline-hit, Every-append, Every-weaken}
use websocketclient_cpp.Text.Decimal.{from_chars-decimal, decimal_digits, decimal_there}
use websocketclient_cpp.Errors.{ok}
use websocketclient_cpp.HttpHeader.{HttpStatusLine, crlf}
use websocketclient_cpp.HttpParser.{
  parse_request_status_line, extract, word, with_reason, on_version, on_code, on_status,
}

word-hit :
    (w : Text) (c : ℕ) (t : Text)
    → Without isspace w
    → isspace c ≡ true
    → word (w ++ (c ∷ t)) ≡ (w, c ∷ t)
unfolding word
word-hit [] c t h e = ground (arith, e)
word-hit (d ∷ w) c t (f, h) e = ground (arith, f, word-hit w c t h e)

-- A word with no space in it, up to the space that follows
extract-hit :
    (w : Text) (c : ℕ) (t : Text)
    → w ≢ []
    → Without isspace w
    → isspace c ≡ true
    → extract (w ++ (c ∷ t)) ≡ some (w, c ∷ t)
unfolding extract trim_left
extract-hit [] c t n h e = absurd (n refl)
extract-hit (d ∷ w) c t n (f, h) e = ground (arith, f, word-hit (d ∷ w) c t (f, h) e)

-- ... and behind a space
extract-space :
    (w : Text) (c : ℕ) (t : Text)
    → w ≢ []
    → Without isspace w
    → isspace c ≡ true
    → extract (b' ' ∷ w ++ (c ∷ t)) ≡ some (w, c ∷ t)
unfolding extract trim_left isspace
extract-space w c t n h e = unfold extract in extract-hit w c t n h e

decimal_word : (n : ℕ) → (decimal n ≢ []) × Without isspace (decimal n)
unfolding isspace
decimal_word n = (
  λ e. absurd (ground (arith, e, decimal_there n)),
  Every-weaken is_digit (λ c. not (isspace c)) (λ c h. ground (arith, h)) (decimal n)
      (decimal_digits n),
)

-- A status line as a server writes it
abbrev pub print_status_line : HttpStatusLine → ℕ → Text
print_status_line l code = l.protocol_version ++ (b' ' ∷ decimal code ++ (b' ' ∷ l.reason ++ crlf))

on_reason :
    (version : Text) (status : ℤ) (reason rest : Text)
    → Without (λ c. c == 10) reason
    → IsTrimmed reason
    → on_status version (b' ' ∷ (reason ++ (crlf ++ rest))) (some status)
      ≡ ok (record { protocol_version = version; status_code = status; reason = reason }, rest)
unfolding on_status isspace
on_reason version status reason rest r t =
    ap (λ o. ok (with_reason version status o))
      (ap (λ s. getline 10 (b' ' ∷ s)) (sym (append_assoc reason (13 ∷ []) (10 ∷ rest)))
        ∙ getline-hit 10 (b' ' ∷ reason ++ (13 ∷ [])) rest
            (refl, Every-append _ reason (13 ∷ []) r (refl, tt)))
    ∙ ap (λ s. ok (record { protocol_version = version; status_code = status; reason = s }, rest))
        (trim_around (b' ' ∷ []) reason (13 ∷ []) (refl, tt) t (refl, tt))

-- A status line that is written and read back is the same, and the stream stands behind it, if the
-- version is a word with no space in it, the code fits an int, and the reason holds no line feed
-- and no space at either end.
pub parse_status_line-print :
    (l : HttpStatusLine) (code : ℕ) (rest : Text)
    → l.status_code ≡ pos code
    → l.protocol_version ≢ []
    → Without isspace l.protocol_version
    → code < 2 ^ 31
    → Without (λ c. c == 10) l.reason
    → IsTrimmed l.reason
    → parse_request_status_line (print_status_line l code ++ rest) ≡ ok (l, rest)
unfolding parse_request_status_line on_version on_code on_status isspace
parse_status_line-print l code rest e n w k r t =
    ap parse_request_status_line (
      append_assoc l.protocol_version (b' ' ∷ decimal code ++ (b' ' ∷ l.reason ++ crlf)) rest
      ∙ ap (λ s. l.protocol_version ++ (b' ' ∷ s))
          (append_assoc (decimal code) (b' ' ∷ l.reason ++ crlf) rest
            ∙ ap (λ s. decimal code ++ (b' ' ∷ s)) (append_assoc l.reason crlf rest)))
    ∙ ap on_version (extract-hit l.protocol_version b' ' _ n w refl)
    ∙ ap (on_code l.protocol_version)
        (extract-space (decimal code) b' ' _ (decimal_word code).0 (decimal_word code).1 refl)
    ∙ ap (λ o. on_status l.protocol_version (b' ' ∷ (l.reason ++ (crlf ++ rest))) (whole o))
        (ap from_chars (sym (append-nil (decimal code))) ∙ from_chars-decimal code [] k tt)
    ∙ on_reason l.protocol_version (pos code) l.reason rest r t
    ∙ ap (λ n. ok (record l { status_code = n }, rest)) (sym e)
