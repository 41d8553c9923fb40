-- ===== src/Tests/Streams.antt =====
-- The theorem on reads from a socket, applied to lists of bytes.
use hotshot_query_service.Prelude.{
  ℕ, ◌+◌, ◌-◌, ◌≤◌, min, some, none, List, [], ◌∷◌, ◌++◌, length, take, drop, ok, err, panic, ◌≡◌,
  ◌≢◌, refl, sym, ap, ◌∙◌, arith, leb, le→leb, if◌then◌else◌, length-append, length-take,
  length-drop, take-append_left, take-take, take-append-drop,
}
use hotshot_query_service.Sql.Stream.{
  ready, pending, ReadBuf, AsyncStream, ReadBufLaws, AsyncStreamLaws, poll_read, poll_read-keeps,
}

-- The filled and the unfilled bytes.
abbrev buffer : ReadBuf
buffer = record {
  Buf = List ℕ × List ℕ;
  filled = λ b. b.0;
  unfilled = λ b. b.1;
  initialize_unfilled = λ b. b;
  write_unfilled = λ b slice. (b.0, slice);
  set_filled = λ b n.
      if leb n (length b.0 + length b.1)
      then some (b.0 ++ take (n - length b.0) b.1, drop (n - length b.0) b.1)
      else none;
}

abbrev count : List ℕ → List ℕ → ℕ
count s slice = min (length s) (length slice)

-- A socket is what has been sent to it. A read takes all that fits.
abbrev socket : AsyncStream
socket = record {
  Socket = List ℕ;
  IoError = ℕ;
  poll_read = λ s slice. (
    (drop (count s slice) s, take (count s slice) s ++ drop (count s slice) slice),
    ready (ok (count s slice)),
  );
  poll_write = λ s bytes. (s, pending);
  poll_flush = λ s. (s, ready (ok tt));
  poll_close = λ s. (s, ready (ok tt));
}

advanced :
    (b : List ℕ × List ℕ) (n : ℕ)
    → n ≤ length b.1
    → (b' : List ℕ × List ℕ) × (buffer.set_filled b (length b.0 + n) ≡ some b')
      × (b'.0 ≡ b.0 ++ take n b.1)
advanced b n small =
    let k = length b.0 + n - length b.0 in
    let same : k ≡ n = omega arith in
    (
      (b.0 ++ take k b.1, drop k b.1),
      rw (le→leb (length b.0 + n) (length b.0 + length b.1) (omega (arith, small))) refl,
      ap (λ m. b.0 ++ take m b.1) same,
    )

abbrev buffer_laws : ReadBufLaws buffer
buffer_laws = record {
  filled-initialize_unfilled = λ b. refl;
  written = λ b slice same. (refl, refl);
  advanced = advanced;
}

moved :
    (s slice : List ℕ)
    → s
      ≡ take (count s slice) (take (count s slice) s ++ drop (count s slice) slice)
        ++ drop (count s slice) s
moved s slice =
    let k = count s slice in
    sym (take-append-drop k s)
    ∙ ap (λ xs. xs ++ drop k s)
        (sym (
          take-append_left k (take k s) (drop k slice) (omega (arith, length-take k s))
          ∙ take-take k k s (omega arith)))

abbrev socket_laws : AsyncStreamLaws socket
socket_laws = record {
  incoming = λ s. s;
  keeps_length = λ s slice. omega (
    arith,
    length-append (take (count s slice) s) (drop (count s slice) slice),
    length-take (count s slice) s,
    length-drop (count s slice) slice,
  );
  fits = λ s slice. omega arith;
  moved = moved;
}

poll_read-keeps_example :
    ((poll_read buffer socket (7 ∷ 8 ∷ 9 ∷ []) (5 ∷ [], 0 ∷ 0 ∷ [])).0.1.0
        ++ (poll_read buffer socket (7 ∷ 8 ∷ 9 ∷ []) (5 ∷ [], 0 ∷ 0 ∷ [])).0.0
      ≡ 5 ∷ 7 ∷ 8 ∷ 9 ∷ [])
    × ((poll_read buffer socket (7 ∷ 8 ∷ 9 ∷ []) (5 ∷ [], 0 ∷ 0 ∷ [])).1 ≢ ready (err panic))
poll_read-keeps_example =
    poll_read-keeps buffer_laws socket_laws (7 ∷ 8 ∷ 9 ∷ []) (5 ∷ [], 0 ∷ 0 ∷ [])
