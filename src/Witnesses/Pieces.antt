-- ===== src/Witnesses/Pieces.antt =====
-- The theorem on bytes that arrive in pieces, applied to concrete values.
use lapin.Base.{ℕ, ◌≡◌, refl, ◌++◌, true, Bool, some, List, [], ◌∷◌, arith}
use lapin.Frame.{AmqpFrame}
use lapin.Acker.{Result}
use lapin.Error.{Error}
use lapin.Buffer.{Buffer, contents, slices, consume}
use lapin.Parsing.{iter, parsing_context, take_from, offset}
use lapin.Channels.Routed.{handle_frame}
use lapin.Buffer.Inv.{IsValid}
use lapin.IoLoop.Stream.{Io}
use lapin.IoLoop.Stream.Reads.{handle_frames}
use lapin.IoLoop.Stream.Decoded.{found, with_buffer}
use lapin.IoLoop.Stream.Pieces.{failure, handle_frames_twice}
use lapin.Witnesses.Loops.{decode, byte-Reads, library, reading}
use lapin.Witnesses.Buffers.{at_end, at_end-IsValid}

decode_stable :
    (xs ys : List ℕ) (n : ℕ) (f : AmqpFrame ℕ)
    → decode xs ≡ found n f
    → decode (xs ++ ys) ≡ found n f
decode_stable [] ys n f d = absurd (ground (arith, d))
decode_stable (x ∷ xs) ys n f d = d

-- The buffer when both of its bytes are handled, and then with a further byte.
abbrev emptied : Buffer
emptied = record at_end { position = 0; available_data = 0 }

abbrev refilled : Buffer
refilled = record at_end {
  memory = 7 ∷ 0 ∷ 0 ∷ 0 ∷ 4 ∷ 5 ∷ [];
  position = 0;
  end = 1;
  available_data = 1;
}

abbrev at_once : Buffer
at_once = record at_end { memory = 7 ∷ 0 ∷ 0 ∷ 0 ∷ 4 ∷ 5 ∷ []; end = 1; available_data = 3 }

refilled-IsValid : IsValid refilled
refilled-IsValid = record {
  memory_size = refl;
  positive = omega arith;
  inside = omega arith;
  fits = omega arith;
  reaches = refl;
}

at_once-IsValid : IsValid at_once
at_once-IsValid = record {
  memory_size = refl;
  positive = omega arith;
  inside = omega arith;
  fits = omega arith;
  reaches = refl;
}

handle_frames_twice_example :
    (b c : Buffer) × (io' : Io ℕ ℕ ℕ ℕ ℕ) × (res res' : Result (Error ℕ) Bool) × (handle_frames
        library
        (with_buffer refilled reading)
      ≡ some (with_buffer b io', res))
    × (handle_frames library (with_buffer at_once reading) ≡ some (with_buffer c io', res'))
    × (contents b ≡ contents c)
    × (failure res ≡ failure res')
unfolding handle_frames contents slices iter parsing_context take_from offset consume handle_frame
handle_frames_twice_example =
    handle_frames_twice library decode byte-Reads decode_stable (with_buffer at_end reading)
      (with_buffer emptied reading) true (7 ∷ []) refilled at_once at_end-IsValid refilled-IsValid
      at_once-IsValid refl refl refl
