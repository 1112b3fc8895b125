-- ===== src/Url/Segments.antt =====
-- The segments of a URL's text, found again by their positions.
use websocketclient_cpp.Prelude.{
  ℕ, ◌+◌, ◌-◌, ◌≤◌, ◌≡◌, refl, sym, ap, ◌∙◌, some, [], ◌∷◌, ◌++◌, append-nil, append_assoc, arith,
  ◌==◌, length, get_elem?, take, drop, length-append, length-drop, take-append, drop-append,
  take_all,
}
use websocketclient_cpp.Text.{Text, Without, find_from, substr, starts_with, decimal}
use websocketclient_cpp.Text.Search.{find_from-none, drop-at}
use websocketclient_cpp.Text.Decimal.{from_chars-decimal, decimal_there}
use websocketclient_cpp.Errors.{ok}
use websocketclient_cpp.Url.{parse_port, port_or_default, resource_of}

-- The part of a text between two others
pub substr-middle :
    (i n : ℕ) (pre mid post : Text)
    → length pre ≡ i
    → length mid ≡ n
    → substr i n (pre ++ (mid ++ post)) ≡ mid
substr-middle i n pre mid post e f =
    ap (take n) (drop-append i pre (mid ++ post) e) ∙ take-append n mid post f

pub at-behind :
    (i : ℕ) (pre : Text) (c : ℕ) (post : Text)
    → length pre ≡ i
    → get_elem? (pre ++ (c ∷ post)) i ≡ some c
at-behind i pre c post e = drop-at i (pre ++ (c ∷ post)) c post (drop-append i pre (c ∷ post) e)

-- A port as text is read as the port.
pub port_or_default-decimal : (d n : ℕ) → 1 ≤ n → n ≤ 65535 → port_or_default d (decimal n) ≡ ok n
unfolding parse_port
port_or_default-decimal d n p q =
    ground
      (arith, decimal_there n, append-nil (decimal n), from_chars-decimal n [] (omega arith) tt)

-- `front:port/…`: where the port is, where the host ends, and the resource
module _ (front : Text) (n : ℕ) (r : Text) where
  abbrev pub full : Text
  full = front ++ (b':' ∷ decimal n ++ (b'/' ∷ r))

  abbrev pub host_end : ℕ
  host_end = length front + 1 + length (decimal n)

  pub at_port : full ≡ (front ++ (b':' ∷ [])) ++ (decimal n ++ (b'/' ∷ r))
  at_port = sym (append_assoc front (b':' ∷ []) (decimal n ++ (b'/' ∷ r)))

  pub at_end : full ≡ (front ++ (b':' ∷ decimal n)) ++ (b'/' ∷ r)
  at_end = sym (append_assoc front (b':' ∷ decimal n) (b'/' ∷ r))

  length-at_end : length (front ++ (b':' ∷ decimal n)) ≡ host_end
  length-at_end = omega (arith, length-append front (b':' ∷ decimal n))

  pub port_segment : substr (length front + 1) (host_end - length front - 1) full ≡ decimal n
  port_segment =
      ap (substr (length front + 1) (host_end - length front - 1)) at_port
      ∙ substr-middle (length front + 1) (host_end - length front - 1) (front ++ (b':' ∷ []))
          (decimal n) (b'/' ∷ r) (omega (arith, length-append front (b':' ∷ []))) (omega arith)

  drop-host_end : drop host_end full ≡ b'/' ∷ r
  drop-host_end = ap (drop host_end) at_end ∙ drop-append host_end _ (b'/' ∷ r) length-at_end

  pub resource_segment : Without (λ c. c == b'#') r → resource_of full (some host_end) ≡ b'/' ∷ r
  unfolding resource_of starts_with
  resource_segment h = ground (
    arith,
    drop-at host_end full b'/' r drop-host_end,
    ap (find_from (λ c. c == b'#') host_end) at_end
        ∙ find_from-none (λ c. c == b'#') host_end (front ++ (b':' ∷ decimal n)) (b'/' ∷ r)
            length-at_end (refl, h),
    drop-host_end,
    take_all (length full - host_end) (b'/' ∷ r),
    length-drop host_end full,
  )
