-- ===== src/Buffer/Resize.antt =====
-- Making a buffer smaller.
use websocketclient_cpp.Prelude.{
  ℕ, ◌≤◌, max, ◌≡◌, true, arith, ◌==◌, if◌then◌else◌, take, get_elem?-take, get_elem?_ext,
}
use websocketclient_cpp.Errors.{ok}
use websocketclient_cpp.Buffer.{Allocator, Buffer, data_of, resize, internal_reserve, realloc}
use websocketclient_cpp.Buffer.Laws.{IsValid, get_elem?-realloc}

module _ (a : Allocator) (always : (n : ℕ) → a.serves n ≡ true) where
  abbrev pub resized : ℕ → Buffer → Buffer
  resized n b =
      if b.capacity == n
      then (record b { used = n })
      else (record b { capacity = n; used = n; memory = realloc a (max 1 n) b.memory })

  pub resize-eq :
      (n : ℕ) (b : Buffer) → IsValid b → n ≤ b.used → resize a n b ≡ (ok tt, resized n b)
  unfolding resize internal_reserve
  resize-eq n b v h = ground (arith, always (max 1 n), v.used_le, v.capacity_le)

  -- The bytes in front stay.
  pub data_of-resized :
      (n : ℕ) (b : Buffer) → IsValid b → n ≤ b.used → data_of (resized n b) ≡ take n (data_of b)
  unfolding data_of
  data_of-resized n b v h = get_elem?_ext _ _ λ i. ground (
    arith,
    v.used_le,
    v.stored,
    get_elem?-take n (take b.used b.memory) i,
    get_elem?-take b.used b.memory i,
    get_elem?-take n b.memory i,
    get_elem?-take n (realloc a (max 1 n) b.memory) i,
    get_elem?-realloc a (max 1 n) b.memory i,
  )
