-- ===== src/WebSocketClient/Receiving/Parsing.antt =====
-- `read_frame` against the header format of RFC 6455.
use websocketclient_cpp.Prelude.{
  ℕ, ◌≤◌, ◌<◌, ◌≡◌, ◌≢◌, ◌⊎◌, inl, inr, refl, ap, sym, subst, ◌∙◌, arith, Bool, true, false, not,
  ◌&&◌, List, [], ◌∷◌, ◌++◌, length, append-nil, leb, ◌==◌,
}
use websocketclient_cpp.Networking.{load, swap16, swap64}
use websocketclient_cpp.Networking.Laws.{network_value, swap16-load_lem, swap64-load_lem}
use websocketclient_cpp.Transport.{Reads}
use websocketclient_cpp.Frame.{Frame, FrameHeader, is_final, is_masked, op_code, get_basic_size}
use websocketclient_cpp.Frame.Opcode
use websocketclient_cpp.WebSocketClient.{Platform, Client}
use websocketclient_cpp.WebSocketClient.Receiving.{header_of, read, read_payload_size, read_frame}
use websocketclient_cpp.WebSocketClient.Receiving.Consumes.{
  Able, Consumes, Exactly, Consumes-then, Consumes-if, Consumes-read,
}

-- How many bytes of extended length follow a 7-bit length, and the size that both announce
abbrev pub Announces : ℕ → ℕ → List ℕ → Type 0
Announces basic size ext =
    ((basic ≤ 125) × (ext ≡ []) × (size ≡ basic))
    ⊎ (((basic ≡ 126) × (length ext ≡ 2) × (size ≡ network_value 0 ext))
        ⊎ ((125 < basic) × (basic ≢ 126) × (length ext ≡ 8) × (size ≡ network_value 0 ext)))

-- A frame that a server may send, as far as `read_frame` looks, and the bytes of its header
abbrev pub Header : Frame → List ℕ → Type 0
Header frame raw =
    (ext : List ℕ) × (raw ≡ frame.header.b0 ∷ frame.header.b1 ∷ ext)
    × Announces (get_basic_size frame.header) frame.payload_size ext
    × (is_masked frame.header ≡ false)
    × ((is_final frame.header ≡ true) ⊎ (op_code frame.header ≢ Opcode.close))

ext2_lem :
    (basic : ℕ) (bytes raw : List ℕ)
    → (basic == 126) ≡ true
    → Exactly 2 bytes raw
    → Announces basic (swap16 (load bytes)) (raw ++ [])
ext2_lem basic bytes raw e (same, long, are) =
    subst (Announces basic (swap16 (load bytes))) (sym (append-nil raw ∙ same))
      (inr (inl (ground (arith, e), long, swap16-load_lem bytes long are)))

ext8_lem :
    (basic : ℕ) (bytes raw : List ℕ)
    → leb basic 125 ≡ false
    → (basic == 126) ≡ false
    → Exactly 8 bytes raw
    → Announces basic (swap64 (load bytes)) (raw ++ [])
ext8_lem basic bytes raw e f (same, long, are) =
    subst (Announces basic (swap64 (load bytes))) (sym (append-nil raw ∙ same)) (
      inr (
        inr (
          ground (arith, e),
          (λ h. absurd (ground (arith, f, h))),
          long,
          swap64-load_lem bytes long are,
        )))

-- The guard on fragmented close frames
not_fragmented_close :
    (h : FrameHeader)
    → (not (is_final h) && (op_code h == Opcode.close)) ≡ false
    → (is_final h ≡ true) ⊎ (op_code h ≢ Opcode.close)
not_fragmented_close h = go (is_final h) refl
  where
    go :
        (b : Bool)
        → is_final h ≡ b
        → (not b && (op_code h == Opcode.close)) ≡ false
        → (is_final h ≡ true) ⊎ (op_code h ≢ Opcode.close)
    go true e f = inl e
    go false e f = inr (λ k. absurd (ground (arith, f, k)))

header_bytes :
    (bytes raw : List ℕ)
    → Exactly 2 bytes raw
    → raw ≡ (header_of bytes).b0 ∷ (header_of bytes).b1 ∷ []
header_bytes [] raw x = absurd (omega (arith, x.1))
header_bytes (a ∷ []) raw x = absurd (omega (arith, x.1))
header_bytes (a ∷ b ∷ []) raw x = x.0
header_bytes (a ∷ b ∷ c ∷ rest) raw x = absurd (omega (arith, x.1))

module _ {p : Platform} (r : Reads p.transport) where
  size_lem :
      (h : FrameHeader) (c : Client p)
      → Able r c
      → Consumes r (Announces (get_basic_size h)) c (read_payload_size p h c)
  unfolding read_payload_size
  size_lem h c able = go (leb (get_basic_size h) 125) (get_basic_size h == 126) refl refl
    where
      go :
          (small two : Bool)
          → leb (get_basic_size h) 125 ≡ small
          → (get_basic_size h == 126) ≡ two
          → Consumes r (Announces (get_basic_size h)) c (read_payload_size p h c)
      go true two e f = rw e ([], refl, inl (ground (arith, e), refl, refl), able)
      go false true e f =
          rw (e, f)
            (Consumes-then r {R = Exactly 2} (Announces (get_basic_size h)) c (read p 2 c) _
              (Consumes-read r 2 c able)
              (λ bytes raw c' x able'.
                ([], refl, ext2_lem (get_basic_size h) bytes raw f x, able')))
      go false false e f =
          rw (e, f)
            (Consumes-then r {R = Exactly 8} (Announces (get_basic_size h)) c (read p 8 c) _
              (Consumes-read r 8 c able)
              (λ bytes raw c' x able'.
                ([], refl, ext8_lem (get_basic_size h) bytes raw e f x, able')))

  -- On a valid read buffer with room, and unread bytes that are bytes, `read_frame` ends. Where it
  -- succeeds it took one header of RFC 6455 from the front of the unread bytes, of an unmasked
  -- frame that is no fragment of a close frame; where it fails it took some bytes.
  pub read_frame_lem : (c : Client p) → Able r c → Consumes r Header c (read_frame p c)
  unfolding read_frame
  read_frame_lem c able =
      Consumes-then r {R = Exactly 2} Header c (read p 2 c) _ (Consumes-read r 2 c able)
        (λ bytes raw c1 x able1.
          let h : FrameHeader = header_of bytes in
          Consumes-if r (λ frame raw'. Header frame (raw ++ raw')) c1
            (not (is_final h) && (op_code h == Opcode.close)) _ _ able1
            (λ whole.
              Consumes-then r {R = Announces (get_basic_size h)}
                (λ frame raw'. Header frame (raw ++ raw')) c1 (read_payload_size p h c1) _
                (size_lem h c1 able1)
                (λ size ext c2 y able2.
                  Consumes-if r (λ frame raw'. Header frame (raw ++ (ext ++ raw'))) c2 (is_masked h)
                    _ _ able2
                    (λ plain. (
                      [],
                      refl,
                      (
                        ext,
                        ap (λ l. raw ++ l) (append-nil ext)
                            ∙ ap (λ l. l ++ ext) (header_bytes bytes raw x),
                        y,
                        plain,
                        not_fragmented_close h whole,
                      ),
                      able2,
                    )))))
