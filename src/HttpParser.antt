-- ===== src/HttpParser.antt =====
-- include/ws_client/HttpParser.hpp: reading the status line and the header fields. A stream is the
-- text that is left of it.
pub mod RoundTrip
pub mod StatusLine
use websocketclient_cpp.Prelude.{
  ℕ, zero, suc, ◌+◌, ◌-◌, ◌*◌, ◌/◌, ◌%◌, ◌^◌, ◌≤◌, ◌<◌, min, max, bit_and, bit_or, bit_xor, ◌≡◌,
  refl, sym, ap, ◌∙◌, subst, ◌≢◌, ◌↔◌, ◌⊎◌, inl, inr, Bool, true, false, not, ◌&&◌, ◌||◌, Option,
  none, some, List, [], ◌∷◌, ◌++◌, map, append-nil, append_assoc, arith, ltb, leb, ◌==◌,
  if◌then◌else◌, ltb→lt, leb→le, ==_iff, Bool-cases, Option-cases, all_below, all_below_sound,
  length, get_elem?, take, drop, replicate, length-append, length-take, length-drop,
  length-replicate, take-append-drop, take-append, drop-append, take_all, drop_all, AreBytes,
  AreBytes-append, AreBytes-take, AreBytes-drop, AreBytes-split, overwrite,
}
use websocketclient_cpp.Text.{
  Text, ℤ, codes, isspace, trim, trim_left, is_nil, index, substr, getline, lines, from_chars,
  whole,
}
use websocketclient_cpp.Errors.{Expected, ok, err, WsError, ws_error, protocol_error}
use websocketclient_cpp.Errors.CloseCode
use websocketclient_cpp.HttpHeader.{HttpStatusLine, HttpHeaderFields, add}

abbrev pub header_error : WsError
header_error = ws_error protocol_error CloseCode.not_set

-- `stream >> word` of a `std::string`: the spaces before it go, and it ends before the next space.
-- An empty word is a failure.
unfoldable pub word : Text → Text × Text
word [] = ([], [])
word (c ∷ s) = let (w, rest) = word s in if isspace c then ([], c ∷ s) else (c ∷ w, rest)

abbrev pub non_empty : Text × Text → Option (Text × Text)
non_empty ([], rest) = none
non_empty (c ∷ w, rest) = some (c ∷ w, rest)

unfoldable pub extract : Text → Option (Text × Text)
unfolding trim_left word
extract s = non_empty (word (trim_left s))

-- The rest of the line as the reason. At the end of the stream it is empty.
abbrev pub with_reason : Text → ℤ → Option (Text × Text) → HttpStatusLine × Text
with_reason version status none =
    (record { protocol_version = version; status_code = status; reason = trim [] }, [])
with_reason version status (some (line, rest)) =
    (record { protocol_version = version; status_code = status; reason = trim line }, rest)

-- The steps of `parse_request_status_line`, each with what the one before it found
unfoldable pub on_status : Text → Text → Option ℤ → Expected (HttpStatusLine × Text)
unfolding getline trim
on_status version t none = err header_error
on_status version t (some status) = ok (with_reason version status (getline 10 t))

unfoldable pub on_code : Text → Option (Text × Text) → Expected (HttpStatusLine × Text)
unfolding on_status from_chars
on_code version none = err header_error
on_code version (some (code, t)) = on_status version t (whole (from_chars code))

unfoldable pub on_version : Option (Text × Text) → Expected (HttpStatusLine × Text)
unfolding extract on_code
on_version none = err header_error
on_version (some (version, s)) = on_code version (extract s)

unfoldable pub parse_request_status_line : Text → Expected (HttpStatusLine × Text)
unfolding extract on_version
parse_request_status_line stream = on_version (extract stream)

-- What one trimmed line of the header is
pub data HeaderLine : Type 0 where
  terminator malformed : HeaderLine
  field : Text → Text → HeaderLine

abbrev pub split_line : Text → ℕ → HeaderLine
split_line line colon_pos =
    let name = substr 0 colon_pos line in
    let value = if ltb colon_pos (length line - 1) then drop (colon_pos + 1) line else [] in
    if is_nil name then malformed else field name (trim value)

unfoldable pub parse_line : Text → HeaderLine
unfolding trim
parse_line [] = terminator
parse_line (c ∷ line) = elim (index (λ d. d == b':') (c ∷ line)) [
  | none ↦ malformed
  | some colon_pos ↦ split_line (c ∷ line) colon_pos
]

-- The loop over the lines of the stream
unfoldable pub parse_lines : HttpHeaderFields → List Text → Expected HttpHeaderFields
unfolding parse_line add
parse_lines result [] = ok result
parse_lines result (line ∷ rest) = elim (parse_line (trim line)) [
  | terminator ↦ ok result
  | malformed ↦ err header_error
  | field name value ↦ parse_lines (add name value result) rest
]

unfoldable pub parse_header_fields : Text → Expected HttpHeaderFields
unfolding parse_lines lines
parse_header_fields stream = parse_lines (record { fields = [] }) (lines 10 stream)
