-- ===== src/PermessageDeflate/Context/Rounds.antt =====
-- The loops of `decompress` and `compress` against the stream alone.
use websocketclient_cpp.Prelude.{
  ℕ, zero, suc, ◌+◌, ◌-◌, ◌%◌, ◌^◌, ◌≤◌, ◌<◌, ◌≡◌, refl, sym, ap, ◌∙◌, subst, inl, inr, true, false,
  not, Option, none, some, List, ◌++◌, append_assoc, arith, leb, ◌==◌, if◌then◌else◌, leb→le,
  Bool-cases, length, length-append,
}
use websocketclient_cpp.Errors.{Expected, ok, err, out_of_fuel}
use websocketclient_cpp.Errors.Steps.{M, bind_ok, bind_err}
use websocketclient_cpp.Buffer.{Buffer, Allocator, Region, append, data_of, discard_end, fill}
use websocketclient_cpp.Buffer.Laws.{IsValid, append_partly, append_refuses}
use websocketclient_cpp.PermessageDeflate.Context.{Coded, coded, code_rounds, zlib_error}

module _ {Z : Type 0} (code : Z → List ℕ → ℕ → Coded Z) (room : ℕ → ℕ) where
  -- What a stream makes of an input that it is given with room time and again, until there is room
  -- left, and the stream then: no buffer is in it.
  abbrev pub joined : List ℕ → Option (List ℕ × Z) → Option (List ℕ × Z)
  joined out none = none
  joined out (some (more, z)) = some (out ++ more, z)

  unfoldable pub produced : ℕ → Z → List ℕ → Option (List ℕ × Z)
  produced zero z input = none
  produced (suc k) z input =
      let r = code z input (room (length input)) in
      let rest = produced k r.state r.rest in
      if not r.accepted
      then none
      else if length r.written == room (length input)
      then joined r.written rest
      else some (r.written, r.state)

  -- The stream, from a state on an input, stands for the result.
  abbrev pub Produces : Z → List ℕ → List ℕ → Z → Type 0
  Produces z input out z' = (k : ℕ) × (produced k z input ≡ some (out, z'))

  -- On success, what the stream produced stands behind the bytes of before, and `n` counts it.
  abbrev pub Appended : Z → List ℕ → ℕ → Buffer → Expected ℕ × (Z × Buffer) → Type 0
  Appended z input size b (ok n, (z', b')) =
      IsValid b'
      × (b'.max_size ≡ b.max_size)
      × ((out : List ℕ) × Produces z input out z'
          × (data_of b' ≡ data_of b ++ out)
          × (n ≡ size + length out))
  Appended z input size b (err e, (z', b')) = IsValid b' × (b'.max_size ≡ b.max_size)
  Appended z input size b (out_of_fuel, (z', b')) = ⊥

-- What follows the call of zlib, by how the call ends
module _ (a : Allocator) {Z : Type 0} (code : Z → List ℕ → ℕ → Coded Z) (room : ℕ → ℕ)
    (more : List ℕ → ℕ → M (Z × Buffer) ℕ) (from n size : ℕ) (r : Coded Z) (z : Z)
    (b : Buffer) where
  abbrev partly : Buffer
  partly = discard_end (n - length r.written) (fill (from, n) r.written b)

  coded_bad :
      r.accepted ≡ false
      → coded a code room more (from, n) size r (z, b)
        ≡ (err zlib_error, (r.state, fill (from, n) r.written b))
  unfolding coded
  coded_bad bad = rw bad refl

  coded_full :
      r.accepted ≡ true
      → n < 2 ^ 32
      → length r.written ≡ n
      → coded a code room more (from, n) size r (z, b) ≡ more r.rest (size + n) (r.state, partly)
  unfolding coded
  coded_full good word full =
      let same : n % 2 ^ 32 ≡ n = omega (arith, word) in
      let none_left : n - length r.written ≡ 0 = omega (arith, full) in
      let all_of : n - 0 ≡ n = omega arith in rw (good, same, none_left, all_of) refl

  coded_part :
      r.accepted ≡ true
      → n < 2 ^ 32
      → length r.written < n
      → coded a code room more (from, n) size r (z, b)
        ≡ (ok (size + length r.written), (r.state, partly))
  unfolding coded
  coded_part good word part =
      let same : n % 2 ^ 32 ≡ n = omega (arith, word) in
      let some_left : (n - length r.written == 0) ≡ false = ground (arith, part) in
      let counted : n - (n - length r.written) ≡ length r.written = omega (arith, part) in
      rw (good, same, some_left, counted) refl

module _ (a : Allocator) (always : (n : ℕ) → a.serves n ≡ true) {Z : Type 0}
    (code : Z → List ℕ → ℕ → Coded Z) (room : ℕ → ℕ) (room_pos : (n : ℕ) → 0 < room n)
    (room_word : (n : ℕ) → n < 2 ^ 32 → room n < 2 ^ 32)
    (written_le : (z : Z) (input : List ℕ) (n : ℕ) → length ((code z input n).written) ≤ n)
    (rest_le : (z : Z) (input : List ℕ) (n : ℕ)
      → length ((code z input n).rest) ≤ length input) where
  abbrev Round : ℕ → Type 0
  Round fuel =
      (input : List ℕ) (size : ℕ) (z : Z) (b : Buffer)
      → length input < 2 ^ 32
      → IsValid b
      → b.max_size < 2 ^ 63
      → b.max_size < fuel + b.used
      → Appended code room z input size b (code_rounds a code room fuel input size (z, b))

  -- A round whose output fits goes on from the buffer with the bytes that were written.
  Appended-joined :
      (z : Z) (input : List ℕ) (size : ℕ) (b b1 : Buffer)
      → (code z input (room (length input))).accepted ≡ true
      → length ((code z input (room (length input))).written) ≡ room (length input)
      → b1.max_size ≡ b.max_size
      → data_of b1 ≡ data_of b ++ (code z input (room (length input))).written
      → (m : Expected ℕ × (Z × Buffer))
      → Appended code room
          ((code z input (room (length input))).state)
          ((code z input (room (length input))).rest)
          (size + room (length input))
          b1
          m
      → Appended code room z input size b m
  unfolding produced fill
  Appended-joined z input size b b1 good full largest same (ok n, (z', b'))
        (v, l, (out, (k, e), d, s)) =
      (
        v,
        l ∙ largest,
        (
          (code z input (room (length input))).written ++ out,
          (suc k, ground (arith, good, full, e)),
          d
              ∙ ap (λ x. x ++ out) same
              ∙ append_assoc (data_of b) (code z input (room (length input))).written out,
          s ∙ omega (arith, full, length-append (code z input (room (length input))).written out),
        ),
      )
  Appended-joined z input size b b1 good full largest same (err x, (z', b')) (v, l) =
      (v, l ∙ largest)
  Appended-joined z input size b b1 good full largest same (out_of_fuel, (z', b')) y = y

  -- The round, where `append` gave the region and left `b'`
  fitting :
      (fuel : ℕ) (input : List ℕ) (size : ℕ) (z : Z) (b b' : Buffer)
      → Round fuel
      → length input < 2 ^ 32
      → b.max_size < 2 ^ 63
      → b.max_size < suc fuel + b.used
      → b'.max_size ≡ b.max_size
      → ((bytes : List ℕ)
          → length bytes ≤ room (length input)
          → let filled = fill (b.used, room (length input)) bytes b' in
            let b'' = discard_end (room (length input) - length bytes) filled in
            IsValid filled
            × IsValid b''
            × (b''.max_size ≡ b.max_size)
            × (b''.used ≡ b.used + length bytes)
            × (data_of b'' ≡ data_of b ++ bytes))
      → Appended code room z input size b (
          coded a code room
            (code_rounds a code room fuel)
            (b.used, room (length input))
            size
            (code z input (room (length input)))
            (z, b'))
  unfolding produced fill
  fitting fuel input size z b b' more small limit enough kept written =
      elim (Bool-cases r.accepted) [
        | inl good ↦ elim (Bool-cases (length r.written == n)) [
          | inl full ↦
              let whole : length r.written ≡ n = ground (arith, full) in
              subst (Appended code room z input size b)
                (sym (
                  coded_full a code room (code_rounds a code room fuel) b.used n size r z b' good
                    word whole))
                (Appended-joined z input size b part good whole largest same _ (
                  more r.rest (size + n) r.state part (omega (arith, rest_le z input n, small))
                    valid (omega (arith, limit, largest))
                    (omega (arith, enough, largest, used, whole, room_pos (length input)))))
          | inr some_left ↦
              let fewer : length r.written < n = ground (arith, some_left, written_le z input n) in
              subst (Appended code room z input size b)
                (sym (
                  coded_part a code room (code_rounds a code room fuel) b.used n size r z b' good
                    word fewer))
                (valid, largest, (r.written, (1, ground (arith, good, some_left)), same, refl))
        ]
        | inr bad ↦
            subst (Appended code room z input size b)
              (sym (coded_bad a code room (code_rounds a code room fuel) b.used n size r z b' bad))
              (valid_filled, kept)
      ]
    where
      n : ℕ
      n = room (length input)

      word : n < 2 ^ 32
      word = room_word (length input) small

      r : Coded Z
      r = code z input n

      part : Buffer
      part = discard_end (n - length r.written) (fill (b.used, n) r.written b')

      valid_filled : IsValid (fill (b.used, n) r.written b')
      valid_filled = let (v0, v1, v2, v3, v4) = written r.written (written_le z input n) in v0

      valid : IsValid part
      valid = let (v0, v1, v2, v3, v4) = written r.written (written_le z input n) in v1

      largest : part.max_size ≡ b.max_size
      largest = let (v0, v1, v2, v3, v4) = written r.written (written_le z input n) in v2

      used : part.used ≡ b.used + length r.written
      used = let (v0, v1, v2, v3, v4) = written r.written (written_le z input n) in v3

      same : data_of part ≡ data_of b ++ r.written
      same = let (v0, v1, v2, v3, v4) = written r.written (written_le z input n) in v4

  round : (fuel : ℕ) → Round fuel → Round (suc fuel)
  unfolding code_rounds
  round fuel more input size z b small v limit enough =
      elim (Bool-cases (leb (b.used + n) b.max_size)) [
        | inl h ↦
            let (b', e, written, kept) = append_partly a always n v (leb→le _ _ h) in
            subst (Appended code room z input size b)
              (sym (bind_ok make_room goes_on {s = (z, b)} (ap (λ p. (p.0, (z, p.1))) e)))
              (subst
                (λ k. Appended code room z input size b (
                  coded a code room (code_rounds a code room fuel) (b.used, n) size (code z input k)
                    (z, b')))
                (omega (arith, word))
                (fitting fuel input size z b b' more small limit enough kept written))
        | inr h ↦
            subst (Appended code room z input size b)
              (sym (
                bind_err make_room goes_on {s = (z, b)} (
                  ap (λ p. (p.0, (z, p.1)))
                    (append_refuses a n v (ground (arith, h))
                      (omega (arith, limit, word, v.used_le, v.capacity_le))))))
              (v, refl)
      ]
    where
      n : ℕ
      n = room (length input)

      word : n < 2 ^ 32
      word = room_word (length input) small

      make_room : M (Z × Buffer) Region
      make_room (z', b') = let (r, b'') = append a (room (length input)) b' in (r, (z', b''))

      goes_on : Region → M (Z × Buffer) ℕ
      goes_on region (z', b') =
          coded a code room (code_rounds a code room fuel) region size
            (code z' input (region.1 % 2 ^ 32)) (z', b')

  -- With a round for every byte that the buffer may still take, the loop ends.
  pub code_rounds-Appended : (fuel : ℕ) → Round fuel
  code_rounds-Appended zero input size z b small v limit enough =
      absurd (omega (arith, enough, v.used_le, v.capacity_le))
  code_rounds-Appended (suc fuel) input size z b small v limit enough =
      round fuel (code_rounds-Appended fuel) input size z b small v limit enough
