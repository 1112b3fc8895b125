-- ===== src/Url/RoundTrip.antt =====
-- Parsing what `to_string` writes.
use websocketclient_cpp.Prelude.{
  ℕ, ◌+◌, ◌≡◌, refl, sym, ap, ◌∙◌, subst, ◌⊎◌, inl, inr, true, false, some, List, [], ◌∷◌, ◌++◌,
  append_assoc, arith, ◌==◌, Bool-cases, length, length-append,
}
use websocketclient_cpp.Text.{
  Text, codes, Without, is_nil, tolower, equals, index, starts_with, decimal,
}
use websocketclient_cpp.Text.Search.{index-none, find_text-hit}
use websocketclient_cpp.Errors.{Expected, ok, and_then}
use websocketclient_cpp.Url.{
  Url, get_default_port, parse_host, parse_after, parse, finish, lookup_port, lower, authority,
  to_string, has_colon, protocol_port_map,
}
use websocketclient_cpp.Url.Parsed.{IsUrl}
use websocketclient_cpp.Url.Segments.{full, host_end, resource_segment, substr-middle}
use websocketclient_cpp.HttpHeader.Keys.{equals_sound}
use websocketclient_cpp.Url.Hosts.{Named, Bracketed, Named-parts, named_lem, bracketed_lem}

-- What holds of the names in the port map holds of a protocol that stands in it.
AllNames : (Text → Type 0) → List (Text × ℕ) → Type 0
AllNames P [] = Unit
AllNames P ((name, port) ∷ rest) = P name × AllNames P rest

lookup_port_name :
    (P : Text → Type 0) (protocol : Text) (ports : List (Text × ℕ)) (d : ℕ)
    → AllNames P ports
    → lookup_port protocol ports ≡ ok d
    → P protocol
unfolding AllNames
lookup_port_name P protocol [] d a h = absurd (ground (arith, h))
lookup_port_name P protocol ((name, port) ∷ rest) d (p, a) h =
    elim (Bool-cases (equals name protocol)) [
      | inl e ↦ subst P (equals_sound name protocol e) p
      | inr e ↦ lookup_port_name P protocol rest d a (ground (arith, e, h))
    ]

abbrev IsName : Text → Type 0
IsName protocol = (lower protocol ≡ protocol) × Without (λ c. c == b':') protocol

name_ok :
    (protocol : Text) (d : ℕ)
    → get_default_port protocol ≡ ok d
    → (lower protocol ≡ protocol) × Without (λ c. c == b':') protocol
unfolding get_default_port lower tolower AllNames
name_ok protocol d h =
    lookup_port_name IsName protocol protocol_port_map d
      (
        (refl, (refl, (refl, (refl, (refl, (refl, tt)))))),
        (
          (refl, (refl, (refl, (refl, tt)))),
          (
            (refl, (refl, (refl, (refl, (refl, tt))))),
            (
              (refl, (refl, (refl, tt))),
              ((refl, (refl, (refl, (refl, tt)))), ((refl, (refl, (refl, (refl, tt)))), tt)),
            ),
          ),
        ),
      )
      h

-- The text of a URL, cut into what stands before the host part and the rest
text_cut :
    (protocol rest : Text) (d : ℕ)
    → get_default_port protocol ≡ ok d
    → parse (protocol ++ (codes "://" ++ rest))
      ≡ and_then
          (parse_host d (length (protocol ++ codes "://")) ((protocol ++ codes "://") ++ rest))
          (λ part. finish protocol ((protocol ++ codes "://") ++ rest) part)
unfolding parse parse_after
text_cut protocol rest d h =
    let (small, no_colon) = name_ok protocol d h in
    let url : Text = protocol ++ (codes "://" ++ rest) in
    let go : Text → ℕ → Text → Expected Url = λ name offset u.
      and_then (get_default_port name)
        (λ port. and_then (parse_host port offset u) (λ part. finish name u part)) in
    ap (parse_after url) (find_text-hit protocol b':' (codes "//") rest no_colon)
    ∙ ap (λ name. go (lower name) (length protocol + 3) url)
        (substr-middle 0 (length protocol) [] protocol (codes "://" ++ rest) refl refl)
    ∙ ap (λ name. go name (length protocol + 3) url) small
    ∙ ap (λ offset. go protocol offset url) (omega (arith, length-append protocol (codes "://")))
    ∙ ap (λ u. go protocol (length (protocol ++ codes "://")) u)
        (sym (append_assoc protocol (codes "://") rest))
    ∙ ap
        (λ r. and_then r (λ port.
          and_then
            (parse_host port (length (protocol ++ codes "://")) ((protocol ++ codes "://") ++ rest))
            (λ part. finish protocol ((protocol ++ codes "://") ++ rest) part)))
        h

-- A resource, without the slash that it starts with
rest_of : Text → Text
rest_of [] = []
rest_of (c ∷ r) = r

rooted_is : (r : Text) → starts_with (b'/' ∷ []) r ≡ true → r ≡ b'/' ∷ rest_of r
unfolding starts_with rest_of
rooted_is [] h = absurd (ground (arith, h))
rooted_is (c ∷ r) h = ground (arith, h)

-- The parts of a URL read back from its text, where the host part is read back
read_back :
    (u : Url) (d : ℕ) (front r : Text)
    → get_default_port u.protocol ≡ ok d
    → is_nil u.host ≡ false
    → Without (λ c. c == b'#') r
    → u.resource ≡ b'/' ∷ r
    → parse_host d
        (length (u.protocol ++ codes "://"))
        (full ((u.protocol ++ codes "://") ++ front) u.port r)
      ≡ ok (u.host, (u.port, some (host_end ((u.protocol ++ codes "://") ++ front) u.port r)))
    → parse (u.protocol ++ (codes "://" ++ (front ++ (b':' ∷ decimal u.port ++ u.resource)))) ≡ ok u
unfolding finish
read_back u d front r known there n e h =
    let pre : Text = u.protocol ++ codes "://" in
    let rest : Text = front ++ (b':' ∷ decimal u.port ++ (b'/' ∷ r)) in
    ap (λ s. parse (u.protocol ++ (codes "://" ++ (front ++ (b':' ∷ decimal u.port ++ s))))) e
    ∙ text_cut u.protocol rest d known
    ∙ ap (λ t. and_then (parse_host d (length pre) t) (λ part. finish u.protocol t part))
        (sym (append_assoc pre front (b':' ∷ decimal u.port ++ (b'/' ∷ r))))
    ∙ ap (λ o. and_then o (λ part. finish u.protocol (full (pre ++ front) u.port r) part)) h
    ∙ ground (arith, there, e, resource_segment (pre ++ front) u.port r n)

slash_first : (u : Url) → IsUrl u → u.resource ≡ b'/' ∷ rest_of u.resource
slash_first u v = rooted_is u.resource v.from_root

fragment_free : (u : Url) → IsUrl u → Without (λ c. c == b'#') (rest_of u.resource)
fragment_free u v = (subst (Without (λ c. c == b'#')) (slash_first u v) v.no_fragment).1

to_string-named :
    (u : Url)
    → Without (λ c. c == b':') u.host
    → to_string u ≡ u.protocol ++ (codes "://" ++ (u.host ++ (b':' ∷ decimal u.port ++ u.resource)))
unfolding to_string authority
to_string-named u h = rw (index-none (λ c. c == b':') u.host h) (
    ap (λ t. u.protocol ++ (codes "://" ++ t))
      (append_assoc u.host (b':' ∷ decimal u.port) u.resource))

to_string-bracketed :
    (u : Url)
    → has_colon (index (λ c. c == b':') u.host) ≡ true
    → to_string u
      ≡ u.protocol
        ++ (codes "://"
            ++ ((b'[' ∷ u.host ++ (b']' ∷ [])) ++ (b':' ∷ decimal u.port ++ u.resource)))
unfolding to_string authority
to_string-bracketed u h = rw h (
    ap (λ t. u.protocol ++ (codes "://" ++ (b'[' ∷ t)))
      (append_assoc u.host (b']' ∷ b':' ∷ decimal u.port) u.resource
        ∙ sym (append_assoc u.host (b']' ∷ []) (b':' ∷ decimal u.port ++ u.resource))))

-- A URL with the properties that parse gives it is read back from its text, if its host either has a
-- colon and no closing bracket, or has neither a colon nor one of `/?#` nor an opening bracket first.
pub parse-to_string :
    (u : Url) → IsUrl u → Named u.host ⊎ Bracketed u.host → parse (to_string u) ≡ ok u
parse-to_string u v (inl h) =
    let pre : Text = u.protocol ++ codes "://" in
    ap parse (to_string-named u (Named-parts u.host h).1)
    ∙ read_back u v.default_port u.host (rest_of u.resource) v.known v.host_there
        (fragment_free u v) (slash_first u v)
        (named_lem v.default_port pre u.host u.port (rest_of u.resource) v.port_low v.port_high h)
parse-to_string u v (inr (closed, colon)) =
    let pre : Text = u.protocol ++ codes "://" in
    ap parse (to_string-bracketed u colon)
    ∙ read_back u v.default_port (b'[' ∷ u.host ++ (b']' ∷ [])) (rest_of u.resource) v.known
        v.host_there (fragment_free u v) (slash_first u v)
        (bracketed_lem v.default_port pre u.host u.port (rest_of u.resource) v.port_low v.port_high
          closed)
