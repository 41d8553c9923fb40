-- ===== src/Sql/Stream.antt =====
-- `TcpStream` of src/data_source/sql.rs, which reads a socket of one async runtime into the buffers of another.
use hotshot_query_service.Prelude.{
  ℕ, ◌+◌, ◌≤◌, Option, none, some, List, ◌++◌, length, take, Result, ok, err, Fault, error, panic,
  ◌≡◌, refl, sym, ap, ap₂, ◌∙◌, append_assoc, ◌≢◌, arith,
}

-- `std::task::Poll`
pub data Poll (A : Type 0) : Type 0 where
  ready : A → Poll A
  pending : Poll A

-- `tokio::io::ReadBuf`. The slice that `initialize_unfilled` returns is `unfilled` of the buffer that it
-- leaves, and what is written to the slice is written to the buffer. `set_filled` panics where it is none.
pub record ReadBuf : Type 1 where
  pub Buf : Type 0
  pub filled : Buf → List ℕ
  pub unfilled : Buf → List ℕ
  pub initialize_unfilled : Buf → Buf
  pub write_unfilled : Buf → List ℕ → Buf
  pub set_filled : Buf → ℕ → Option Buf

-- `async_std::net::TcpStream`. A read is given a slice, and leaves it with other contents.
pub record AsyncStream : Type 1 where
  pub Socket : Type 0
  pub IoError : Type 0
  pub poll_read : Socket → List ℕ → (Socket × List ℕ) × Poll (Result IoError ℕ)
  pub poll_write : Socket → List ℕ → Socket × Poll (Result IoError ℕ)
  pub poll_flush : Socket → Socket × Poll (Result IoError (Unit {0}))
  pub poll_close : Socket → Socket × Poll (Result IoError (Unit {0}))

module _ (B : ReadBuf) (A : AsyncStream) where
  -- What `poll_read` does with the outcome of the read below.
  unfoldable pub read_ended :
      A.Socket
      → B.Buf
      → ℕ
      → Poll (Result A.IoError ℕ)
      → (A.Socket × B.Buf) × Poll (Result (Fault A.IoError) (Unit {0}))
  read_ended s buf filled (ready (ok bytes_read)) = elim (B.set_filled buf (filled + bytes_read)) [
    | some buf' ↦ ((s, buf'), ready (ok tt))
    | none ↦ ((s, buf), ready (err panic))
  ]
  read_ended s buf filled (ready (err e)) = ((s, buf), ready (err (error e)))
  read_ended s buf filled pending = ((s, buf), pending)

  unfoldable pub poll_read :
      A.Socket → B.Buf → (A.Socket × B.Buf) × Poll (Result (Fault A.IoError) (Unit {0}))
  unfolding read_ended
  poll_read s buf =
      let filled = length (B.filled buf) in
      let buf' = B.initialize_unfilled buf in
      let ((s', slice), res) = A.poll_read s (B.unfilled buf') in
      read_ended s' (B.write_unfilled buf' slice) filled res

  unfoldable pub poll_write : A.Socket → List ℕ → A.Socket × Poll (Result A.IoError ℕ)
  poll_write s buf = A.poll_write s buf

  unfoldable pub poll_flush : A.Socket → A.Socket × Poll (Result A.IoError (Unit {0}))
  poll_flush s = A.poll_flush s

  unfoldable pub poll_shutdown : A.Socket → A.Socket × Poll (Result A.IoError (Unit {0}))
  poll_shutdown s = A.poll_close s

-- What tokio documents of the buffer.
pub record ReadBufLaws (B : ReadBuf) : Type 0 where
  pub filled-initialize_unfilled : (b : B.Buf) → B.filled (B.initialize_unfilled b) ≡ B.filled b
  pub written :
      (b : B.Buf) (slice : List ℕ)
      → length slice ≡ length (B.unfilled b)
      → (B.filled (B.write_unfilled b slice) ≡ B.filled b)
        × (B.unfilled (B.write_unfilled b slice) ≡ slice)
  pub advanced :
      (b : B.Buf) (n : ℕ)
      → n ≤ length (B.unfilled b)
      → (b' : B.Buf) × (B.set_filled b (length (B.filled b) + n) ≡ some b')
        × (B.filled b' ≡ B.filled b ++ take n (B.unfilled b))

-- How many bytes a read has put into the slice.
abbrev pub read_size : {E : Type 0} → Poll (Result E ℕ) → ℕ
read_size (ready (ok n)) = n
read_size (ready (err e)) = 0
read_size pending = 0

-- What async_std documents of a read, where `incoming` is what the other side has sent and nobody
-- has read yet.
pub record AsyncStreamLaws (A : AsyncStream) : Type 0 where
  pub incoming : A.Socket → List ℕ
  pub keeps_length :
      (s : A.Socket) (slice : List ℕ) → length (A.poll_read s slice).0.1 ≡ length slice
  pub fits : (s : A.Socket) (slice : List ℕ) → read_size (A.poll_read s slice).1 ≤ length slice
  pub moved :
      (s : A.Socket) (slice : List ℕ)
      → incoming s
        ≡ take (read_size (A.poll_read s slice).1) (A.poll_read s slice).0.1
          ++ incoming (A.poll_read s slice).0.0

module _ {B : ReadBuf} {A : AsyncStream} (buffers : ReadBufLaws B)
    (sockets : AsyncStreamLaws A) where
  abbrev received_or_coming : A.Socket × B.Buf → List ℕ
  received_or_coming (s, buf) = B.filled buf ++ sockets.incoming s

  read_ended-keeps :
      (s : A.Socket) (buf : B.Buf) (res : Poll (Result A.IoError ℕ)) (n : ℕ)
      → n ≡ length (B.filled buf)
      → read_size res ≤ length (B.unfilled buf)
      → (received_or_coming (read_ended B A s buf n res).0
          ≡ B.filled buf ++ (take (read_size res) (B.unfilled buf) ++ sockets.incoming s))
        × ((read_ended B A s buf n res).1 ≢ ready (err panic))
  unfolding read_ended
  read_ended-keeps s buf (ready (ok k)) n at small =
      let (b', e, grew) = buffers.advanced buf k small in
      rw (at) (
        rw (e, read_ended)
          (
            ap (λ xs. xs ++ sockets.incoming s) grew
                ∙ append_assoc (B.filled buf) (take k (B.unfilled buf)) (sockets.incoming s),
            λ f. cc,
          ))
  read_ended-keeps s buf (ready (err f)) n at small = (refl, λ e. cc)
  read_ended-keeps s buf pending n at small = (refl, λ e. cc)

  -- A read from the socket loses no byte and repeats none: the filled part of the buffer and then
  -- what is still to come stay the same, whether the read is pending, fails or succeeds, and it
  -- does not panic.
  pub poll_read-keeps :
      (s : A.Socket) (buf : B.Buf)
      → (received_or_coming (poll_read B A s buf).0 ≡ received_or_coming (s, buf))
        × ((poll_read B A s buf).1 ≢ ready (err panic))
  unfolding poll_read
  poll_read-keeps s buf =
      let b = B.initialize_unfilled buf in
      let slice = (A.poll_read s (B.unfilled b)).0.1 in
      let s' = (A.poll_read s (B.unfilled b)).0.0 in
      let res = (A.poll_read s (B.unfilled b)).1 in
      let same = buffers.filled-initialize_unfilled buf in
      let (kept, there) = buffers.written b slice (sockets.keeps_length s (B.unfilled b)) in
      let small : read_size res ≤ length (B.unfilled (B.write_unfilled b slice)) = omega (
        arith,
        sockets.fits s (B.unfilled b),
        sockets.keeps_length s (B.unfilled b),
        ap length there,
      ) in
      let (now, fine) =
        read_ended-keeps s' (B.write_unfilled b slice) res (length (B.filled buf))
          (ap length (sym same) ∙ ap length (sym kept)) small in
      (
        now
            ∙ ap₂ (λ xs ys. xs ++ (take (read_size res) ys ++ sockets.incoming s')) (kept ∙ same)
                there
            ∙ ap (λ xs. B.filled buf ++ xs) (sym (sockets.moved s (B.unfilled b))),
        fine,
      )
