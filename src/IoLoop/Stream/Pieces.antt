-- ===== src/IoLoop/Stream/Pieces.antt =====
-- src/io_loop.rs: how the socket splits the bytes does not matter to the frames that are handled.
use lapin.Base.{
  ℕ, zero, suc, ◌+◌, ◌≤◌, ◌<◌, ◌≡◌, refl, sym, ap, ◌∙◌, inl, inr, Bool, false, Option, none, some,
  List, ◌++◌, length, is_empty, arith, Bool-cases, length-append,
}
use lapin.Frame.{AmqpFrame}
use lapin.Acker.{Result, ok, err}
use lapin.Error.{Error}
use lapin.Buffer.{Buffer, contents}
use lapin.Buffer.Inv.{IsValid}
use lapin.Buffer.Fifo.{length-contents}
use lapin.IoLoop.Stream.{Library, Io}
use lapin.IoLoop.Stream.Reads.{handle_frames, handle_more}
use lapin.IoLoop.Stream.Decoded.{
  Decoded, found, Reads, Decoded_cases, Left, with_buffer, handle_bytes,
}
use lapin.IoLoop.Stream.Handled.{handle_more_lem}
use lapin.IoLoop.Stream.Chunked.{handle_bytes_fuel, handle_bytes-append}

-- The error that a result has, or none.
abbrev pub failure : {E T : Type 0} → Result E T → Option E
failure (ok x) = none
failure (err e) = some e

abbrev forget :
    {S P O A K : Type 0} → Left S P O A K → Option (List ℕ × Io S P O A K × Option (Error K))
forget none = none
forget (some (bytes, io, res)) = some (bytes, io, failure res)

module _ {S P O A K : Type 0} (lib : Library P O A K) (decode : List ℕ → Decoded P K) where
  -- Whether a frame was handled before changes nothing but what is returned.
  forget_did :
      (fuel : ℕ) (did other : Bool) (bytes : List ℕ) (io : Io S P O A K)
      → forget (handle_bytes lib decode fuel did bytes io)
        ≡ forget (handle_bytes lib decode fuel other bytes io)
  unfolding handle_bytes
  forget_did zero did other bytes io = refl
  forget_did (suc fuel) did other bytes io = elim (Bool-cases (is_empty bytes)) [
    | inl m ↦ ground (arith, m)
    | inr m ↦ elim (Decoded_cases (decode bytes)) [
      | inl (n, f, d) ↦ ground (arith, m, d)
      | inr (inl d) ↦ ground (arith, m, d)
      | inr (inr (e, d)) ↦ ground (arith, m, d)
    ]
  ]

  agree :
      ((bytes : List ℕ) (n : ℕ) (f : AmqpFrame P)
        → decode bytes ≡ found n f
        → (0 < n) × (n ≤ length bytes))
      → ((xs ys : List ℕ) (n : ℕ) (f : AmqpFrame P)
          → decode xs ≡ found n f
          → decode (xs ++ ys) ≡ found n f)
      → (fuel nm nw : ℕ) (d : Bool) (xs ys rest bs cs : List ℕ) (io io0 io2 io3 : Io S P O A K)
        (r2 r3 : Result (Error K) Bool)
      → length xs < fuel
      → length (rest ++ ys) < nm
      → length (xs ++ ys) < nw
      → handle_bytes lib decode fuel false xs io ≡ some (rest, io0, ok d)
      → handle_bytes lib decode nm false (rest ++ ys) io0 ≡ some (bs, io2, r2)
      → handle_bytes lib decode nw false (xs ++ ys) io ≡ some (cs, io3, r3)
      → (bs ≡ cs) × (io2 ≡ io3) × (failure r2 ≡ failure r3)
  agree size stable fuel nm nw d xs ys rest bs cs io io0 io2 io3 r2 r3 h j k e2 e3 e4 =
      let whole =
        handle_bytes-append lib decode size stable fuel nw (nm + nw) false d xs ys rest io io0 h
          (ground (arith, length-append xs ys)) (ground (arith, length-append xs ys)) e2 in
      let enough =
        handle_bytes_fuel lib decode size (nm + nw) nm d (rest ++ ys) io0 (ground arith) j in
      let flag = forget_did nm d false (rest ++ ys) io0 in
      let same : forget (some (cs, io3, r3)) ≡ forget (some (bs, io2, r2)) =
        ap forget (sym e4 ∙ (whole ∙ enough)) ∙ (flag ∙ ap forget e3) in
      (ground (arith, same), ground (arith, same), ground (arith, same))

  -- With a parser that reads its input byte by byte and whose frames do not depend on what comes behind
  -- them: where a valid buffer's frames have been handled without an error and bytes are then
  -- added behind those that were left, handling the frames again leaves the loop, its effects and
  -- the channels as they are left where all the bytes were there at once, with the same bytes
  -- left in the buffer, and the same error, if there is one.
  pub handle_frames_twice :
      (reads : Reads lib.parse_frame decode)
      → ((xs ys : List ℕ) (n : ℕ) (f : AmqpFrame P)
          → decode xs ≡ found n f
          → decode (xs ++ ys) ≡ found n f)
      → (io io1 : Io S P O A K) (d : Bool) (ys : List ℕ) (more whole : Buffer)
      → IsValid io.loop.receive_buffer
      → IsValid more
      → IsValid whole
      → handle_frames lib io ≡ some (io1, ok d)
      → contents more ≡ contents io1.loop.receive_buffer ++ ys
      → contents whole ≡ contents io.loop.receive_buffer ++ ys
      → (b c : Buffer) × (io' : Io S P O A K) × (res res' : Result (Error K) Bool) × (handle_frames
            lib
            (with_buffer more io1)
          ≡ some (with_buffer b io', res))
        × (handle_frames lib (with_buffer whole io) ≡ some (with_buffer c io', res'))
        × (contents b ≡ contents c)
        × (failure res ≡ failure res')
  unfolding handle_frames
  handle_frames_twice reads stable io io1 d ys more whole v vm vw e m w =
      let xs = io.loop.receive_buffer in
      let first =
        handle_more_lem lib decode reads (suc xs.available_data) false xs io v
          (ground (arith, length-contents xs v)) in
      let again =
        handle_more_lem lib decode reads (suc more.available_data) false more first.1 vm
          (ground (arith, length-contents more vm)) in
      let at_once =
        handle_more_lem lib decode reads (suc whole.available_data) false whole io vw
          (ground (arith, length-contents whole vw)) in
      let done = sym first.4 ∙ e in
      let ended : first.2 ≡ ok d = ground (arith, done) in
      let there : with_buffer first.0 first.1 ≡ io1 = ground (arith, done) in
      let left : contents more ≡ contents first.0 ++ ys =
        m ∙ ap (λ i. contents i.loop.receive_buffer ++ ys) (sym there) in
      let same =
        agree reads.size stable (suc xs.available_data) (suc more.available_data)
          (suc whole.available_data) d (contents xs) ys (contents first.0) (contents again.0)
          (contents at_once.0) io first.1 again.1 at_once.1 again.2 at_once.2
          (ground (arith, length-contents xs v))
          (ground (arith, ap length left, length-contents more vm))
          (ground (arith, ap length w, length-contents whole vw))
          (first.3 ∙ ap (λ r. some (contents first.0, first.1, r)) ended)
          (ap (λ bytes. handle_bytes lib decode (suc more.available_data) false bytes first.1)
              (sym left)
            ∙ again.3)
          (ap (λ bytes. handle_bytes lib decode (suc whole.available_data) false bytes io) (sym w)
            ∙ at_once.3) in
      (
        again.0,
        at_once.0,
        again.1,
        again.2,
        at_once.2,
        ap (λ i. handle_more lib (suc more.available_data) false (with_buffer more i)) (sym there)
            ∙ again.4,
        at_once.4 ∙ ap (λ i. some (with_buffer at_once.0 i, at_once.2)) (sym same.1),
        same.0,
        same.2,
      )
