-- ===== src/Buffer/Kept.antt =====
-- What every call keeps of a buffer, whatever the allocator serves.
use websocketclient_cpp.Prelude.{
  ℕ, ◌+◌, ◌%◌, ◌^◌, ◌≤◌, ◌<◌, max, ◌≡◌, refl, sym, subst, Bool, true, false, not, ◌||◌, List, ◌++◌,
  arith, ltb, if◌then◌else◌, length, take, drop, length-append, length-take, length-drop,
}
use websocketclient_cpp.Errors.{Expected, ok, err, out_of_fuel, ws_error, buffer_error}
use websocketclient_cpp.Errors.CloseCode
use websocketclient_cpp.Buffer.{
  Allocator, Buffer, Region, append, internal_reserve, realloc, fill, clear,
}
use websocketclient_cpp.Buffer.Laws.{IsValid, length-realloc}

-- A buffer that may be appended to
abbrev pub Fine : Buffer → Type 0
Fine b = IsValid b × (b.max_size < 2 ^ 63)

-- A call of a buffer that ends, and leaves such a buffer where it succeeds
abbrev pub Settles : {A : Type 0} → Expected A × Buffer → Type 0
Settles (ok a, b) = Fine b
Settles (err e, b) = Unit
Settles (out_of_fuel, b) = ⊥

abbrev reserved : Allocator → ℕ → Buffer → Buffer
reserved a size b = record b {
  capacity = size;
  used = size;
  memory = realloc a (max 1 size) b.memory;
}

-- The three ends of `append`, by the two tests that it makes
settled :
    (a : Allocator) (n size : ℕ) (b : Buffer) (keeps : Bool) (fails : Bool)
    → Fine b
    → ltb b.capacity size ≡ not keeps
    → (fails ≡ false → size ≤ b.max_size)
    → Settles {A = Region} (
        if keeps
        then (ok (b.used, n), record b { used = size })
        else if fails
        then (err (ws_error buffer_error CloseCode.not_set), b)
        else (ok (b.used, n), reserved a size b))
settled a n size b true fails (v, small) e h = (ground (arith, v, e), small)
settled a n size b false true (v, small) e h = tt
settled a n size b false false (v, small) e h = (
  record {
    used_le = omega arith;
    capacity_le = h refl;
    stored = omega (arith, length-realloc a (max 1 size) b.memory);
    word = v.word;
  },
  small,
)

append-eq-settled :
    (a : Allocator) (n : ℕ) (b : Buffer)
    → let size = (b.used + n) % 2 ^ 64 in
      append a n b ≡ (
        if not (ltb b.capacity size)
        then (ok (b.used, n), record b { used = size })
        else if ltb b.max_size size || not (a.serves (max 1 size))
        then (err (ws_error buffer_error CloseCode.not_set), b)
        else (ok (b.used, n), reserved a size b))
unfolding append internal_reserve
append-eq-settled a n b = ground arith

pub append-Settles : (a : Allocator) (n : ℕ) (b : Buffer) → Fine b → Settles (append a n b)
append-Settles a n b fine =
    let size = (b.used + n) % 2 ^ 64 in
    subst Settles (sym (append-eq-settled a n b)) (
      settled a n size b (not (ltb b.capacity size))
        (ltb b.max_size size || not (a.serves (max 1 size))) fine (ground arith)
        (λ e. ground (arith, e)))

pub fill-Fine :
    (region : Region) (bytes : List ℕ) (b : Buffer) → Fine b → Fine (fill region bytes b)
unfolding fill
fill-Fine region bytes b (v, small) = (
  record {
    used_le = v.used_le;
    capacity_le = v.capacity_le;
    stored = omega (
      arith,
      v.stored,
      length-append (take region.0 b.memory) (bytes ++ drop (region.0 + length bytes) b.memory),
      length-append bytes (drop (region.0 + length bytes) b.memory),
      length-take region.0 b.memory,
      length-drop (region.0 + length bytes) b.memory,
    );
    word = v.word;
  },
  small,
)

pub cleared-Fine : (first : Bool) (b : Buffer) → Fine b → Fine (if first then clear b else b)
unfolding clear
cleared-Fine true b (v, small) = (
  record { used_le = omega arith; capacity_le = v.capacity_le; stored = v.stored; word = v.word },
  small,
)
cleared-Fine false b fine = fine
