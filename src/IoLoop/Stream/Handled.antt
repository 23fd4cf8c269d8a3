-- ===== src/IoLoop/Stream/Handled.antt =====
-- src/io_loop.rs: `handle_frames` on the buffer, against the frames of its bytes.
use lapin.Base.{
  ℕ, zero, suc, ◌≤◌, ◌<◌, ◌≡◌, inl, inr, ◌&&◌, Bool, true, false, none, some, List, length, drop,
  ltb, is_empty, arith, Bool-cases, length-drop,
}
use lapin.Frame.{AmqpFrame}
use lapin.Acker.{Result, ok, err}
use lapin.Error.{Error, from_kind, parsing_error}
use lapin.Buffer.{Buffer, contents}
use lapin.Buffer.Inv.{IsValid}
use lapin.Buffer.Fifo.{length-contents}
use lapin.Parsing.{parsing_context}
use lapin.Buffer.Run.{contents-consume}
use lapin.Parsing.Offset.{rest_lem, iter-parsing_context}
use lapin.IoLoop.Stream.{Library, Io, Outcome, fail_with}
use lapin.IoLoop.Stream.Reads.{parse, too_large, handle_more, handle_frames}
use lapin.IoLoop.Stream.Decoded.{
  Decoded, found, unfinished, broken, Reads, Decoded_cases, tested, Left, with_buffer, handle_bytes,
  with_outcome, failed, failed-with_buffer, deliver_lem, too_large_lem, deliver_cases,
}

module _ {S P O A K : Type 0} where
  module _ (lib : Library P O A K) (decode : List ℕ → Decoded P K)
      (reads : Reads lib.parse_frame decode) where
    -- `parse` of a frame of the buffer: it is the first of the bytes, and leaves the others.
    parse-found :
        (n : ℕ) (f : AmqpFrame P) (b : Buffer) (io : Io S P O A K)
        → IsValid b
        → decode (contents b) ≡ found n f
        → (ltb 0 io.loop.channels.configuration.frame_max
            && ltb io.loop.channels.configuration.frame_max n)
          ≡ false
        → (b' : Buffer) × (parse lib (with_buffer b io) ≡ some (with_buffer b' io, ok (some f)))
          × IsValid b'
          × (contents b' ≡ drop n (contents b))
    unfolding parse
    parse-found n f b io v d small =
        let size = reads.size (contents b) n f d in
        let some_data : n ≤ b.available_data = ground (arith, size.1, length-contents b v) in
        let cut = rest_lem lib.memory_address n b v size.0 some_data in
        let left = contents-consume n b v in
        (
          left.0,
          ground (
            arith,
            reads.reads_frame (parsing_context b) cut.0 n f (rw (iter-parsing_context b) d) cut.1,
            cut.2,
            small,
            left.1,
          ),
          left.2,
          ground (arith, left.4),
        )

    parse_large :
        (n : ℕ) (f : AmqpFrame P) (b : Buffer) (io : Io S P O A K)
        → IsValid b
        → decode (contents b) ≡ found n f
        → (ltb 0 io.loop.channels.configuration.frame_max
            && ltb io.loop.channels.configuration.frame_max n)
          ≡ true
        → parse lib (with_buffer b io) ≡ with_outcome b (too_large lib io)
    unfolding parse
    parse_large n f b io v d large =
        let size = reads.size (contents b) n f d in
        let some_data : n ≤ b.available_data = ground (arith, size.1, length-contents b v) in
        let cut = rest_lem lib.memory_address n b v size.0 some_data in
        let told = too_large_lem lib b io in
        ground (
          arith,
          reads.reads_frame (parsing_context b) cut.0 n f (rw (iter-parsing_context b) d) cut.1,
          cut.2,
          large,
          told.2,
          told.3,
        )

    parse-unfinished :
        (b : Buffer) (io : Io S P O A K)
        → decode (contents b) ≡ unfinished
        → parse lib (with_buffer b io) ≡ some (with_buffer b io, ok none)
    unfolding parse
    parse-unfinished b io d =
        ground (arith, reads.reads_part (parsing_context b) (rw (iter-parsing_context b) d))

    parse-broken :
        (e : K) (b : Buffer) (io : Io S P O A K)
        → decode (contents b) ≡ broken e
        → parse lib (with_buffer b io) ≡ fail_with (from_kind (parsing_error e)) (with_buffer b io)
    unfolding parse
    parse-broken e b io d =
        ground (arith, reads.reads_error (parsing_context b) e (rw (iter-parsing_context b) d))

    -- What `handle_bytes` gives and what `handle_more` gives agree.
    abbrev pub Agrees : Left S P O A K → Outcome S P O A K Bool → Type 0
    Agrees left outcome =
        (b' : Buffer) × (io' : Io S P O A K) × (res : Result (Error K) Bool) × (left
          ≡ some (contents b', io', res))
        × (outcome ≡ some (with_buffer b' io', res))
        × IsValid b'

    -- A frame, where the frames behind it are known to be handled alike.
    found_lem :
        (fuel : ℕ) (did : Bool) (n : ℕ) (f : AmqpFrame P) (b : Buffer) (io : Io S P O A K)
        → IsValid b
        → is_empty (contents b) ≡ false
        → decode (contents b) ≡ found n f
        → ((b' : Buffer) (io' : Io S P O A K)
            → IsValid b'
            → contents b' ≡ drop n (contents b)
            → Agrees
                (handle_bytes lib decode fuel true (contents b') io')
                (handle_more lib fuel true (with_buffer b' io')))
        → Agrees
            (handle_bytes lib decode (suc fuel) did (contents b) io)
            (handle_more lib (suc fuel) did (with_buffer b io))
    unfolding handle_bytes handle_more
    found_lem fuel did n f b io v e d later =
        let frame_max = io.loop.channels.configuration.frame_max in
        elim (Bool-cases (ltb 0 frame_max && ltb frame_max n)) [
          | inl large ↦
              let told = too_large_lem lib b io in
              (
                b,
                told.0,
                err told.1,
                ground (arith, e, d, large, told.2),
                ground (arith, tested b v, e, parse_large n f b io v d large, told.2),
                v,
              )
          | inr small ↦
              let cut = parse-found n f b io v d small in
              elim (deliver_cases lib f io) [
                | inl (io', q) ↦
                    let rest = later cut.0 io' cut.2 cut.3 in
                    (
                      rest.0,
                      rest.1,
                      rest.2,
                      ground (arith, e, d, small, q, cut.3, rest.3),
                      ground (arith, tested b v, e, cut.1, deliver_lem lib f cut.0 io, q, rest.4),
                      rest.5,
                    )
                | inr (io', k, q) ↦ (
                  cut.0,
                  io',
                  err k,
                  ground (arith, e, d, small, q, cut.3),
                  ground (arith, tested b v, e, cut.1, deliver_lem lib f cut.0 io, q),
                  cut.2,
                )
              ]
        ]

    pub handle_more_lem :
        (fuel : ℕ) (did : Bool) (b : Buffer) (io : Io S P O A K)
        → IsValid b
        → length (contents b) < fuel
        → Agrees
            (handle_bytes lib decode fuel did (contents b) io)
            (handle_more lib fuel did (with_buffer b io))
    unfolding handle_bytes handle_more fail_with
    handle_more_lem zero did b io v h = absurd (omega arith)
    handle_more_lem (suc fuel) did b io v h = elim (Bool-cases (is_empty (contents b))) [
      | inl e ↦ (b, io, ok did, ground (arith, e), ground (arith, tested b v, e), v)
      | inr e ↦ elim (Decoded_cases (decode (contents b))) [
        | inl (n, f, d) ↦ found_lem fuel did n f b io v e d (λ b' io' v' left.
            handle_more_lem fuel true b' io' v'
              (ground (arith, left, length-drop n (contents b), (reads.size (contents b) n f d).0)))
        | inr (inl d) ↦ (
          b,
          io,
          ok did,
          ground (arith, e, d),
          ground (arith, parse-unfinished b io d, tested b v, e),
          v,
        )
        | inr (inr (k, d)) ↦
            let e' : Error K = from_kind (parsing_error k) in
            (
              b,
              failed e' io,
              err e',
              ground (arith, e, d),
              ground (arith, tested b v, e, parse-broken k b io d, failed-with_buffer e' b io),
              v,
            )
      ]
    ]

    -- With a parser that reads its input byte by byte and a valid receive buffer, `handle_frames` ends
    -- with a result, and does to the loop, its effects and the channels what handling the frames
    -- of the buffer's bytes one after the other does, whether the bytes wrap round in the buffer or
    -- not, and also where a frame is too large, is malformed or is refused by a channel; in
    -- the buffer, which is valid, are then the bytes that this leaves.
    pub handle_frames-handle_bytes :
        (io : Io S P O A K)
        → IsValid io.loop.receive_buffer
        → (b : Buffer) × (io' : Io S P O A K) × (res : Result (Error K) Bool) × (handle_bytes lib
              decode
              (suc io.loop.receive_buffer.available_data)
              false
              (contents io.loop.receive_buffer)
              io
            ≡ some (contents b, io', res))
          × (handle_frames lib io ≡ some (with_buffer b io', res))
          × IsValid b
    unfolding handle_frames
    handle_frames-handle_bytes io v =
        let b = io.loop.receive_buffer in
        handle_more_lem (suc b.available_data) false b io v (ground (arith, length-contents b v))
