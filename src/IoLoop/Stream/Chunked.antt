-- ===== src/IoLoop/Stream/Chunked.antt =====
-- src/io_loop.rs: bytes that are handled in two parts are handled as they are at once.
use lapin.Base.{
  ℕ, zero, suc, ◌+◌, ◌≤◌, ◌<◌, ◌≡◌, refl, sym, ap, ◌∙◌, ◌⊎◌, inl, inr, ◌&&◌, Bool, true, false,
  some, List, [], ◌∷◌, ◌++◌, length, drop, ltb, is_empty, arith, Bool-cases, length-drop,
  length-append,
}
use lapin.Frame.{AmqpFrame}
use lapin.Acker.{ok}
use lapin.IoLoop.Stream.{Library, Io, fail_with}
use lapin.IoLoop.Stream.Reads.{deliver}
use lapin.IoLoop.Stream.Decoded.{
  Decoded, found, Decoded_cases, handle_bytes, deliver_cases, too_large_lem,
}

drop_within :
    {A : Type 0} (n : ℕ) (xs ys : List A) → n ≤ length xs → drop n (xs ++ ys) ≡ drop n xs ++ ys
drop_within zero xs ys h = refl
drop_within (suc n) [] ys h = absurd (omega arith)
drop_within (suc n) (x ∷ xs) ys h = drop_within n xs ys (omega arith)

is_empty-append : {A : Type 0} (xs ys : List A) → is_empty xs ≡ false → is_empty (xs ++ ys) ≡ false
is_empty-append [] ys h = absurd (ground (arith, h))
is_empty-append (x ∷ xs) ys h = refl

is_empty_lem : {A : Type 0} (xs : List A) → is_empty xs ≡ true → xs ≡ []
is_empty_lem [] h = refl
is_empty_lem (x ∷ xs) h = absurd (ground (arith, h))

module _ {S P O A K : Type 0} (lib : Library P O A K) (decode : List ℕ → Decoded P K)
    (size : (bytes : List ℕ) (n : ℕ) (f : AmqpFrame P)
      → decode bytes ≡ found n f
      → (0 < n) × (n ≤ length bytes)) where
  -- More fuel than bytes is as good as any.
  pub handle_bytes_fuel :
      (fuel other : ℕ) (did : Bool) (bytes : List ℕ) (io : Io S P O A K)
      → length bytes < fuel
      → length bytes < other
      → handle_bytes lib decode fuel did bytes io ≡ handle_bytes lib decode other did bytes io
  unfolding handle_bytes
  handle_bytes_fuel zero other did bytes io h k = absurd (omega arith)
  handle_bytes_fuel (suc fuel) zero did bytes io h k = absurd (omega arith)
  handle_bytes_fuel (suc fuel) (suc other) did bytes io h k = elim (Decoded_cases (decode bytes)) [
    | inr (inl d) ↦ ground (arith, d)
    | inr (inr (e, d)) ↦ ground (arith, d)
    | inl (n, f, d) ↦ elim (deliver_cases lib f io) [
      | inr (io', e, q) ↦ ground (arith, d, q)
      | inl (io', q) ↦ ground (
        arith,
        d,
        q,
        handle_bytes_fuel fuel other true (drop n bytes) io'
            (ground (arith, size bytes n f d, length-drop n bytes))
            (ground (arith, size bytes n f d, length-drop n bytes)),
      )
    ]
  ]

  abbrev Same : List ℕ → List ℕ → Io S P O A K → Io S P O A K → Bool → Bool → Type 0
  Same xs rest io io' did d = (xs ≡ rest) × (io ≡ io') × (did ≡ d)

  found_step :
      (fuel n : ℕ) (did : Bool) (f : AmqpFrame P) (bytes : List ℕ) (io io' : Io S P O A K)
      → is_empty bytes ≡ false
      → decode bytes ≡ found n f
      → (ltb 0 io.loop.channels.configuration.frame_max
          && ltb io.loop.channels.configuration.frame_max n)
        ≡ false
      → deliver lib f io ≡ some (io', ok tt)
      → handle_bytes lib decode (suc fuel) did bytes io
        ≡ handle_bytes lib decode fuel true (drop n bytes) io'
  unfolding handle_bytes
  found_step fuel n did f bytes io io' e d small q = ground (arith, e, d, small, q)

  stays :
      (whole later : ℕ) (did d : Bool) (xs ys rest : List ℕ) (io io' : Io S P O A K)
      → length xs + length ys < whole
      → length xs + length ys < later
      → Same xs rest io io' did d
      → handle_bytes lib decode whole did (xs ++ ys) io
        ≡ handle_bytes lib decode later d (rest ++ ys) io'
  stays whole later did d xs ys rest io io' k j (xs_rest, io_io', did_d) = cc (
    xs_rest,
    io_io',
    did_d,
    handle_bytes_fuel whole later did (xs ++ ys) io (ground (arith, length-append xs ys))
        (ground (arith, length-append xs ys)),
  )

  -- What an end without an error says of the first step.
  ok_step :
      (fuel : ℕ) (did d : Bool) (xs rest : List ℕ) (io io' : Io S P O A K)
      → handle_bytes lib decode (suc fuel) did xs io ≡ some (rest, io', ok d)
      → Same xs rest io io' did d
        ⊎ ((n : ℕ) × (f : AmqpFrame P) × (io1 : Io S P O A K) × (is_empty xs ≡ false)
            × (decode xs ≡ found n f)
            × ((ltb 0 io.loop.channels.configuration.frame_max
                  && ltb io.loop.channels.configuration.frame_max n)
                ≡ false)
            × (deliver lib f io ≡ some (io1, ok tt)))
  unfolding handle_bytes fail_with
  ok_step fuel did d xs rest io io' e = elim (Bool-cases (is_empty xs)) [
    | inl m ↦ inl (ground (arith, e, m), ground (arith, e, m), ground (arith, e, m))
    | inr m ↦ elim (Decoded_cases (decode xs)) [
      | inr (inl q) ↦
          inl (ground (arith, e, m, q), ground (arith, e, m, q), ground (arith, e, m, q))
      | inr (inr (k, q)) ↦ absurd (ground (arith, e, m, q))
      | inl (n, f, q) ↦
          elim (Bool-cases (
            ltb 0 io.loop.channels.configuration.frame_max
            && ltb io.loop.channels.configuration.frame_max n)) [
              | inl large ↦
                  absurd (
                    ground (arith, e, m, q, large, (too_large_lem lib io.loop.receive_buffer io).2))
              | inr small ↦ elim (deliver_cases lib f io) [
                | inl (io1, t) ↦ inr (n, f, io1, m, q, small, t)
                | inr (io1, k, t) ↦ absurd (ground (arith, e, m, q, small, t))
              ]
            ]
    ]
  ]

  -- Bytes behind those that are handled without an error are handled as if they came later.
  pub handle_bytes-append :
      ((xs ys : List ℕ) (n : ℕ) (f : AmqpFrame P)
        → decode xs ≡ found n f
        → decode (xs ++ ys) ≡ found n f)
      → (fuel whole later : ℕ) (did d : Bool) (xs ys rest : List ℕ) (io io' : Io S P O A K)
      → length xs < fuel
      → length xs + length ys < whole
      → length xs + length ys < later
      → handle_bytes lib decode fuel did xs io ≡ some (rest, io', ok d)
      → handle_bytes lib decode whole did (xs ++ ys) io
        ≡ handle_bytes lib decode later d (rest ++ ys) io'
  handle_bytes-append stable zero whole later did d xs ys rest io io' h k j e = absurd (omega arith)
  handle_bytes-append stable (suc fuel) zero later did d xs ys rest io io' h k j e =
      absurd (omega arith)
  handle_bytes-append stable (suc fuel) (suc whole) later did d xs ys rest io io' h k j e =
      elim (ok_step fuel did d xs rest io io' e) [
        | inl same ↦ stays (suc whole) later did d xs ys rest io io' k j same
        | inr (n, f, io1, m, q, small, t) ↦
            let n_size = size xs n f q in
            let first = found_step fuel n did f xs io io1 m q small t in
            let both =
              found_step whole n did f (xs ++ ys) io io1 (is_empty-append xs ys m)
                (stable xs ys n f q) small t in
            let left = drop_within n xs ys n_size.1 in
            let more =
              handle_bytes-append stable fuel whole later true d (drop n xs) ys rest io1 io'
                (ground (arith, n_size, length-drop n xs))
                (ground (arith, n_size, length-drop n xs))
                (ground (arith, n_size, length-drop n xs)) (sym first ∙ e) in
            both ∙ (ap (λ bytes. handle_bytes lib decode whole true bytes io1) left ∙ more)
      ]
