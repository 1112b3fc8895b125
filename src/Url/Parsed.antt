-- ===== src/Url/Parsed.antt =====
-- What `parse` promises of the URLs that it returns.
use websocketclient_cpp.Prelude.{
  ℕ, ◌+◌, ◌-◌, ◌≤◌, ◌≡◌, refl, subst, inl, inr, true, false, Option, none, some, [], ◌∷◌, arith,
  ◌==◌, Bool-cases,
}
use websocketclient_cpp.Text.{
  Text, ℤ, pos, negsuc, Without, is_nil, find_from, substr, starts_with, from_chars, whole,
}
use websocketclient_cpp.Text.Search.{find_from_hit_lem, upto_next, drop-at}
use websocketclient_cpp.Errors.{Expected, ok, err, out_of_fuel, and_then}
use websocketclient_cpp.Url.{
  Url, get_default_port, parse_port, checked_port, port_or_default, ipv6_port, ipv6_host,
  named_host, parse_host, parse_after, parse, resource_of, finish, with_port, HostPart, rooted,
  ends_host, is_at, before, lower, or_size,
}

pub record IsUrl (u : Url) : Type 0 where
  pub default_port : ℕ
  pub known : get_default_port u.protocol ≡ ok default_port
  pub host_there : is_nil u.host ≡ false
  pub port_low : 1 ≤ u.port
  pub port_high : u.port ≤ 65535
  pub from_root : starts_with (b'/' ∷ []) u.resource ≡ true
  pub no_fragment : Without (λ c. c == b'#') u.resource

abbrev IsPort : ℕ → Type 0
IsPort n = (1 ≤ n) × (n ≤ 65535)

invert :
    {A B : Type 0} (r : Expected A) (f : A → Expected B) (b : B)
    → and_then r f ≡ ok b
    → (a : A) × (r ≡ ok a) × (f a ≡ ok b)
invert (ok a) f b h = (a, refl, h)
invert (err e) f b h = absurd (ground (arith, h))
invert out_of_fuel f b h = absurd (ground (arith, h))

checked_port_ok : (o : Option ℤ) (n : ℕ) → checked_port o ≡ ok n → IsPort n
checked_port_ok none n h = absurd (ground (arith, h))
checked_port_ok (some (negsuc m)) n h = absurd (ground (arith, h))
checked_port_ok (some (pos m)) n h = ground (arith, h)

get_default_port_ok : (protocol : Text) (n : ℕ) → get_default_port protocol ≡ ok n → IsPort n
unfolding get_default_port
get_default_port_ok protocol n h = ground (arith, h)

port_or_default_ok : (d : ℕ) (s : Text) (n : ℕ) → IsPort d → port_or_default d s ≡ ok n → IsPort n
unfolding parse_port
port_or_default_ok d s n p h = ground (arith, h, p, checked_port_ok (whole (from_chars s)) n)

-- The position where the host ends is one that a search for `/?#` found, or its `npos`.
HostEnd : Text → Option ℕ → Type 0
HostEnd url host_end = (k : ℕ) × (find_from ends_host k url ≡ host_end)

-- What holds of a host part: the port is one, and the host ends where it should.
IsPart : Text → HostPart → Type 0
IsPart url (host, (n, e)) = IsPort n × HostEnd url e

with_port_ok :
    (url host : Text) (e : Option ℕ) (r : Expected ℕ) (part : HostPart)
    → ((n : ℕ) → r ≡ ok n → IsPort n)
    → HostEnd url e
    → with_port host e r ≡ ok part
    → IsPart url part
unfolding IsPart
with_port_ok url host e (ok n) part f h q =
    let p : (host, (n, e)) ≡ part = cc q in subst (IsPart url) p (f n refl, h)
with_port_ok url host e (err x) part f h q = absurd (ground (arith, q))
with_port_ok url host e out_of_fuel part f h q = absurd (ground (arith, q))

ipv6_port_ok :
    (d start : ℕ) (e : Option ℕ) (url : Text) (n : ℕ)
    → IsPort d
    → ipv6_port d start e url ≡ ok n
    → IsPort n
ipv6_port_ok d start e url n p h =
    ground
      (arith, p, h, port_or_default_ok d (substr (start + 1) (or_size url e - start - 1) url) n p)

ipv6_host_ok :
    (d offset : ℕ) (url : Text) (o : Option ℕ) (part : HostPart)
    → IsPort d
    → ipv6_host d offset url o ≡ ok part
    → IsPart url part
unfolding ipv6_host HostEnd
ipv6_host_ok d offset url none part p h = absurd (ground (arith, h))
ipv6_host_ok d offset url (some i) part p h =
    with_port_ok url _ _ _ part
      (λ n. ipv6_port_ok d (i + 1) (find_from ends_host (i + 1) url) url n p) (i + 1, refl) h

named_host_ok :
    (d offset : ℕ) (url : Text) (e o : Option ℕ) (part : HostPart)
    → IsPort d
    → HostEnd url e
    → named_host d offset url e o ≡ ok part
    → IsPart url part
unfolding named_host IsPart
named_host_ok d offset url e none part p q h =
    let r : (substr offset (or_size url e - offset) url, (d, e)) ≡ part = cc h in
    subst (IsPart url) r (p, q)
named_host_ok d offset url e (some i) part p q h =
    with_port_ok url _ e _ part
      (λ n. port_or_default_ok d (substr (i + 1) (or_size url e - i - 1) url) n p) q h

parse_host_ok :
    (d offset : ℕ) (url : Text) (part : HostPart)
    → IsPort d
    → parse_host d offset url ≡ ok part
    → IsPart url part
unfolding parse_host HostEnd
parse_host_ok d offset url part p h = elim (Bool-cases (is_at (λ c. c == b'[') offset url)) [
  | inl e ↦
      ipv6_host_ok d offset url (find_from (λ c. c == b']') offset url) part p
        (ground (arith, e, h))
  | inr e ↦
      let host_end = find_from ends_host offset url in
      named_host_ok d offset url host_end (before (find_from (λ c. c == b':') offset url) host_end)
        part p (offset, refl) (ground (arith, e, h))
]

-- The resource starts with a slash and ends before a fragment.
IsResource : Text → Type 0
IsResource r = (starts_with (b'/' ∷ []) r ≡ true) × Without (λ c. c == b'#') r

rooted_ok :
    (c : ℕ) (t : Text)
    → ends_host c ≡ true
    → (c == b'#') ≡ false
    → Without (λ d. d == b'#') t
    → IsResource (rooted (c ∷ t))
unfolding IsResource starts_with
rooted_ok c t e f h = elim (Bool-cases (c == b'?')) [
  | inl g ↦ ground (arith, e, f, g, h)
  | inr g ↦ ground (arith, e, f, g, h)
]

resource_of_ok : (url : Text) (e : Option ℕ) → HostEnd url e → IsResource (resource_of url e)
unfolding resource_of IsResource starts_with HostEnd
resource_of_ok url none h = (refl, (refl, tt))
resource_of_ok url (some i) (k, h) =
    let (c, rest, e, f) = find_from_hit_lem ends_host k url i h in
    elim (Bool-cases (c == b'#')) [
      | inl g ↦ ground (arith, drop-at i url c rest e, g)
      | inr g ↦
          let (t, p, q) = upto_next (λ d. d == b'#') i url c rest e g in
          ground (arith, drop-at i url c rest e, g, p, rooted_ok c t f g q)
    ]

-- What the steps after the protocol make of a good host part
finish_ok :
    (d : ℕ) (protocol url : Text) (part : HostPart) (u : Url)
    → get_default_port protocol ≡ ok d
    → IsPart url part
    → finish protocol url part ≡ ok u
    → IsUrl u
unfolding finish IsPart IsResource
finish_ok d protocol url (host, (n, e)) u k (p, q) h = elim (Bool-cases (is_nil host)) [
  | inl f ↦ absurd (ground (arith, f, h))
  | inr f ↦
      let (from_root, no_fragment) = resource_of_ok url e q in
      let v : Url = record {
        protocol = protocol;
        host = host;
        port = n;
        resource = resource_of url e;
      } in
      let r : v ≡ u = ground (arith, f, h) in
      subst IsUrl r (record {
        default_port = d;
        known = k;
        host_there = f;
        port_low = p.0;
        port_high = p.1;
        from_root = from_root;
        no_fragment = no_fragment;
      })
]

parse_after_ok : (url : Text) (o : Option ℕ) (u : Url) → parse_after url o ≡ ok u → IsUrl u
unfolding parse_after
parse_after_ok url none u h = absurd (ground (arith, h))
parse_after_ok url (some i) u h =
    let protocol = lower (substr 0 i url) in
    let (d, known, rest) = invert (get_default_port protocol) _ u h in
    let (part, e, f) = invert (parse_host d (i + 3) url) _ u rest in
    finish_ok d protocol url part u known
      (parse_host_ok d (i + 3) url part (get_default_port_ok protocol d known) e) f

-- A URL that parse returns has a protocol with a known default port, a host that is not empty, a
-- port from 1 to 65535, and a resource that starts with a slash and has no fragment.
pub parse-IsUrl : (url : Text) (u : Url) → parse url ≡ ok u → IsUrl u
unfolding parse
parse-IsUrl url u h = parse_after_ok url _ u h
