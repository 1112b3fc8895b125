-- ===== src/Url/Hosts.antt =====
-- The host part of a URL, read back from its text.
use websocketclient_cpp.Prelude.{
  ℕ, suc, ◌+◌, ◌-◌, ◌≤◌, ◌≡◌, refl, sym, ap, ◌∙◌, subst, true, false, not, Option, some, [], ◌∷◌,
  ◌++◌, append-nil, append_assoc, arith, ◌==◌, length, length-append,
}
use websocketclient_cpp.Text.{Text, Without, is_nil, index, find_from, substr, decimal, is_digit}
use websocketclient_cpp.Text.Search.{find_from-hit, Every-append, Every-weaken}
use websocketclient_cpp.Text.Decimal.{decimal_digits}
use websocketclient_cpp.Errors.{ok}
use websocketclient_cpp.Url.{
  port_or_default, ipv6_port, ipv6_host, named_host, parse_host, with_port, ends_host, is_at,
  passes, before, has_colon,
}
use websocketclient_cpp.Url.Segments.{
  full, host_end, port_segment, port_or_default-decimal, substr-middle, at-behind,
}

-- A host that the text of a URL can hold: where it has a colon it is written in brackets and must
-- hold no closing one, else it must not start with an opening one and hold none of `/?#`.
abbrev pub Named : Text → Type 0
Named [] = ⊥
Named (c ∷ host) =
    ((c == b'[') ≡ false) × Without ends_host (c ∷ host) × Without (λ d. d == b':') (c ∷ host)

abbrev pub Bracketed : Text → Type 0
Bracketed host = Without (λ c. c == b']') host × (has_colon (index (λ c. c == b':') host) ≡ true)

no_ends : (n : ℕ) → Without ends_host (decimal n)
no_ends n =
    Every-weaken is_digit (λ c. not (ends_host c)) (λ c h. ground (arith, h)) (decimal n)
      (decimal_digits n)

Named-front :
    (pre host rest : Text)
    → Named host
    → is_at (λ c. c == b'[') (length pre) ((pre ++ host) ++ rest) ≡ false
Named-front pre [] rest h = absurd h
Named-front pre (c ∷ host) rest (e, f, g) =
    ap (is_at (λ c. c == b'[') (length pre)) (append_assoc pre (c ∷ host) rest)
    ∙ ap (passes (λ c. c == b'[')) (at-behind (length pre) pre c (host ++ rest) refl)
    ∙ e

pub Named-parts :
    (host : Text)
    → Named host
    → Without ends_host host × Without (λ d. d == b':') host × (is_nil host ≡ false)
Named-parts [] h = absurd h
Named-parts (c ∷ host) (e, f, g) = (f, g, refl)

module _ (d : ℕ) (pre host : Text) (n : ℕ) (r : Text) (low : 1 ≤ n) (high : n ≤ 65535) where
  -- The end of the host part, found from where the front part ends or before
  found_end :
      (i : ℕ) (s mid : Text)
      → Without ends_host mid
      → length s ≡ i
      → find_from ends_host i (full (s ++ mid) n r) ≡ some (host_end (s ++ mid) n r)
  found_end i s mid h e =
      ap (find_from ends_host i) (
        append_assoc s mid (b':' ∷ decimal n ++ (b'/' ∷ r))
        ∙ ap (λ t. s ++ t) (sym (append_assoc mid (b':' ∷ decimal n) (b'/' ∷ r))))
      ∙ find_from-hit ends_host i s (mid ++ (b':' ∷ decimal n)) b'/' r e
          (Every-append _ mid (b':' ∷ decimal n) h (refl, no_ends n)) refl
      ∙ ap some (omega (arith, e, length-append mid (b':' ∷ decimal n), length-append s mid))

  port_ok :
      (front : Text)
      → port_or_default d
          (substr (length front + 1) (host_end front n r - length front - 1) (full front n r))
        ≡ ok n
  port_ok front =
      ap (port_or_default d) (port_segment front n r) ∙ port_or_default-decimal d n low high

  named_colon :
      Without (λ d. d == b':') host
      → find_from (λ c. c == b':') (length pre) (full (pre ++ host) n r)
        ≡ some (length (pre ++ host))
  named_colon h =
      ap (find_from (λ c. c == b':') (length pre))
        (append_assoc pre host (b':' ∷ decimal n ++ (b'/' ∷ r)))
      ∙ find_from-hit (λ c. c == b':') (length pre) pre host b':' (decimal n ++ (b'/' ∷ r)) refl h
          refl
      ∙ ap some (sym (length-append pre host))

  named_segment :
      substr (length pre) (length (pre ++ host) - length pre) (full (pre ++ host) n r) ≡ host
  named_segment =
      ap (substr (length pre) (length (pre ++ host) - length pre))
        (append_assoc pre host (b':' ∷ decimal n ++ (b'/' ∷ r)))
      ∙ substr-middle (length pre) _ pre host (b':' ∷ decimal n ++ (b'/' ∷ r)) refl
          (omega (arith, length-append pre host))

  before_end :
      before (some (length (pre ++ host))) (some (host_end (pre ++ host) n r))
      ≡ some (length (pre ++ host))
  before_end = ground arith

  pub named_lem :
      Named host
      → parse_host d (length pre) (full (pre ++ host) n r)
        ≡ ok (host, (n, some (host_end (pre ++ host) n r)))
  unfolding parse_host named_host
  named_lem h =
      let (f, g, _) = Named-parts host h in
      let url : Text = full (pre ++ host) n r in
      let e : Option ℕ = some (host_end (pre ++ host) n r) in
      let segment : Text = substr (length pre) (length (pre ++ host) - length pre) url in
      rw (Named-front pre host (b':' ∷ decimal n ++ (b'/' ∷ r)) h, parse_host)
        (ap
            (λ o.
              named_host d (length pre) url o
                (before (find_from (λ c. c == b':') (length pre) url) o))
            (found_end (length pre) pre host f refl)
          ∙ ap (λ o. named_host d (length pre) url e (before o e)) (named_colon g)
          ∙ ap (named_host d (length pre) url e) (before_end)
          ∙ ap (λ p. with_port segment e p) (port_ok (pre ++ host))
          ∙ ap (λ t. ok (t, (n, e))) named_segment)

  abbrev pub front : Text
  front = pre ++ (b'[' ∷ host ++ (b']' ∷ []))

  abbrev pub tail : Text
  tail = b':' ∷ decimal n ++ (b'/' ∷ r)

  at_bracket : full front n r ≡ pre ++ ((b'[' ∷ host) ++ (b']' ∷ tail))
  at_bracket =
      append_assoc pre (b'[' ∷ host ++ (b']' ∷ [])) tail
      ∙ ap (λ t. pre ++ (b'[' ∷ t)) (append_assoc host (b']' ∷ []) tail)

  abbrev pub ipv6_end : ℕ
  ipv6_end = length pre + suc (length host)

  length-front : ipv6_end + 1 ≡ length front
  length-front =
      omega (arith, length-append pre (b'[' ∷ host ++ (b']' ∷ [])), length-append host (b']' ∷ []))

  bracket_found :
      Without (λ c. c == b']') host
      → find_from (λ c. c == b']') (length pre) (full front n r) ≡ some ipv6_end
  bracket_found h =
      ap (find_from (λ c. c == b']') (length pre)) at_bracket
      ∙ find_from-hit (λ c. c == b']') (length pre) pre (b'[' ∷ host) b']' tail refl (refl, h) refl

  bracket_open : is_at (λ c. c == b'[') (length pre) (full front n r) ≡ true
  bracket_open =
      ap (is_at (λ c. c == b'[') (length pre)) at_bracket
      ∙ ap (passes (λ c. c == b'[')) (at-behind (length pre) pre b'[' (host ++ (b']' ∷ tail)) refl)

  bracket_segment : substr (length pre + 1) (ipv6_end - length pre - 1) (full front n r) ≡ host
  bracket_segment =
      ap (substr (length pre + 1) (ipv6_end - length pre - 1))
        (at_bracket ∙ sym (append_assoc pre (b'[' ∷ []) (host ++ (b']' ∷ tail))))
      ∙ substr-middle (length pre + 1) _ (pre ++ (b'[' ∷ [])) host (b']' ∷ tail)
          (omega (arith, length-append pre (b'[' ∷ []))) (omega arith)

  bracket_end : find_from ends_host (length front) (full front n r) ≡ some (host_end front n r)
  bracket_end =
      subst (λ t. find_from ends_host (length front) (full t n r) ≡ some (host_end t n r))
        (append-nil front) (found_end (length front) front [] tt refl)

  bracket_port : ipv6_port d (length front) (some (host_end front n r)) (full front n r) ≡ ok n
  bracket_port =
      ground
        (arith, at-behind (length front) front b':' (decimal n ++ (b'/' ∷ r)) refl, port_ok front)

  pub bracketed_lem :
      Without (λ c. c == b']') host
      → parse_host d (length pre) (full front n r) ≡ ok (host, (n, some (host_end front n r)))
  unfolding parse_host ipv6_host
  bracketed_lem h =
      let url : Text = full front n r in
      let e : Option ℕ = some (host_end front n r) in
      let segment : Text = substr (length pre + 1) (ipv6_end - length pre - 1) url in
      rw (bracket_open, parse_host)
        (ap (ipv6_host d (length pre) url) (bracket_found h)
          ∙ ap
              (λ k.
                with_port segment (find_from ends_host k url)
                  (ipv6_port d k (find_from ends_host k url) url))
              length-front
          ∙ ap (λ o. with_port segment o (ipv6_port d (length front) o url)) bracket_end
          ∙ ap (λ p. with_port segment e p) bracket_port
          ∙ ap (λ t. ok (t, (n, e))) bracket_segment)
