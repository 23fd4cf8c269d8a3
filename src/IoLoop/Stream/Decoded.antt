-- ===== src/IoLoop/Stream/Decoded.antt =====
-- src/io_loop.rs: the frames that are handled are those of the bytes that were read, wherever these
-- stand in the buffer.
use lapin.Base.{
  ℕ, zero, suc, ◌≤◌, ◌<◌, ◌≡◌, refl, ◌⊎◌, inl, inr, ◌&&◌, Bool, true, not, Option, none, some, List,
  [], ◌∷◌, length, drop, ltb, is_empty, arith, if◌then◌else◌,
}
use lapin.Frame.{AmqpFrame}
use lapin.Acker.{Result, ok, err}
use lapin.Error.{Error, from_kind, parsing_error}
use lapin.Buffer.{Buffer, contents}
use lapin.Buffer.Inv.{IsValid}
use lapin.Buffer.Fifo.{length-contents}
use lapin.Parsing.{ParsingContext, iter, take_from}
use lapin.Channel
use lapin.Channels.{Channels, Effects, by, ask, get}
use lapin.Channels.Routed.{handle_frame}
use lapin.IoLoop.Control.{critical_error}
use lapin.IoLoop.Stream.{
  Parsed, frame, incomplete, malformed, Library, Io, Outcome, in_loop, tell, fail_with,
}
use lapin.IoLoop.Stream.Reads.{too_large, delivered, deliver}

-- What a list of bytes begins with: a frame of `n` bytes, a part of one, or an error.
pub data Decoded (P K : Type 0) : Type 0 where
  found : ℕ → AmqpFrame P → Decoded P K
  unfinished : Decoded P K
  broken : K → Decoded P K

-- The parser of the crate amq_protocol reads its input byte by byte: what it makes of a view is told
-- by the bytes alone, and the rest is the view less the bytes of the frame, of which there are some.
pub record Reads {P K : Type 0} (parse_frame : ParsingContext → Parsed P K)
    (decode : List ℕ → Decoded P K) : Type 0 where
  pub size :
      (bytes : List ℕ) (n : ℕ) (f : AmqpFrame P)
      → decode bytes ≡ found n f
      → (0 < n) × (n ≤ length bytes)
  pub reads_frame :
      (c rest : ParsingContext) (n : ℕ) (f : AmqpFrame P)
      → decode (iter c) ≡ found n f
      → take_from n c ≡ some rest
      → parse_frame c ≡ frame rest f
  pub reads_part : (c : ParsingContext) → decode (iter c) ≡ unfinished → parse_frame c ≡ incomplete
  pub reads_error :
      (c : ParsingContext) (e : K) → decode (iter c) ≡ broken e → parse_frame c ≡ malformed e

pub is_empty-ltb : (xs : List ℕ) → is_empty xs ≡ not (ltb 0 (length xs))
is_empty-ltb [] = refl
is_empty-ltb (x ∷ xs) = ground arith

pub tested : (b : Buffer) → IsValid b → ltb 0 b.available_data ≡ not (is_empty (contents b))
tested b v = ground (arith, is_empty-ltb (contents b), length-contents b v)

pub Decoded_cases :
    {P K : Type 0} (d : Decoded P K)
    → ((n : ℕ) × (f : AmqpFrame P) × (d ≡ found n f))
      ⊎ (d ≡ unfinished)
      ⊎ ((e : K) × (d ≡ broken e))
Decoded_cases (found n f) = inl (n, f, refl)
Decoded_cases unfinished = inr (inl refl)
Decoded_cases (broken e) = inr (inr (e, refl))

-- The bytes left, with the loop and the result.
abbrev pub Left : Type 0 → Type 0 → Type 0 → Type 0 → Type 0 → Type 0
Left S P O A K = Option (List ℕ × Io S P O A K × Result (Error K) Bool)

module _ {S P O A K : Type 0} where
  abbrev pub with_buffer : Buffer → Io S P O A K → Io S P O A K
  with_buffer b io = in_loop (λ l. record l { receive_buffer = b }) io

  abbrev leaving : {T : Type 0} → List ℕ → Outcome S P O A K T → Left S P O A K
  leaving bytes none = none
  leaving bytes (some (io, err e)) = some (bytes, io, err e)
  leaving bytes (some (io, ok x)) = some (bytes, io, ok true)

  module _ (lib : Library P O A K) (decode : List ℕ → Decoded P K) where
    -- The frames of a list of bytes are handled, one after the other.
    unfoldable pub handle_bytes : ℕ → Bool → List ℕ → Io S P O A K → Left S P O A K
    handle_bytes zero did bytes io = none
    handle_bytes (suc fuel) did bytes io =
        let frame_max = io.loop.channels.configuration.frame_max in
        if is_empty bytes then some (bytes, io, ok did) else (elim (decode bytes) [
          | found n f ↦
              if ltb 0 frame_max && ltb frame_max n
              then leaving bytes (too_large lib io)
              else (elim (deliver lib f io) [
                | none ↦ none
                | some (io', ok t) ↦ handle_bytes fuel true (drop n bytes) io'
                | some (io', err e) ↦ some (drop n bytes, io', err e)
              ])
          | unfinished ↦ some (bytes, io, ok did)
          | broken e ↦ leaving bytes (fail_with {T = Bool} (from_kind (parsing_error e)) io)
        ])

  abbrev pub with_outcome : {T : Type 0} → Buffer → Outcome S P O A K T → Outcome S P O A K T
  with_outcome b none = none
  with_outcome b (some (io, res)) = some (with_buffer b io, res)

  -- The loop after a critical error.
  abbrev pub failed : Error K → Io S P O A K → Io S P O A K
  failed e io =
      let (l, effects) = critical_error e io.loop in tell (by 0 effects) (record io { loop = l })

  pub failed-with_buffer :
      (e : Error K) (b : Buffer) (io : Io S P O A K)
      → failed e (with_buffer b io) ≡ with_buffer b (failed e io)
  unfolding critical_error
  failed-with_buffer e b io = ground arith

  delivered_lem :
      (r : Channels P O A K × Effects P K × Result (Error K) (Unit {0})) (b : Buffer)
      (io : Io S P O A K)
      → delivered r (with_buffer b io) ≡ with_outcome b (delivered r io)
  unfolding delivered
  delivered_lem (channels, effects, ok t) b io = refl
  delivered_lem (channels, effects, err e) b io = refl

  delivered_cases :
      (r : Channels P O A K × Effects P K × Result (Error K) (Unit {0})) (io : Io S P O A K)
      → ((io' : Io S P O A K) × (delivered r io ≡ some (io', ok tt)))
        ⊎ ((io' : Io S P O A K) × (e : Error K) × (delivered r io ≡ some (io', err e)))
  unfolding delivered
  delivered_cases (channels, effects, ok t) io = inl (_, refl)
  delivered_cases (channels, effects, err e) io = inr (_, e, refl)

  module _ (lib : Library P O A K) where
    pub deliver_lem :
        (f : AmqpFrame P) (b : Buffer) (io : Io S P O A K)
        → deliver lib f (with_buffer b io) ≡ with_outcome b (deliver lib f io)
    unfolding deliver
    deliver_lem f b io =
        delivered_lem
          (handle_frame lib.protocol lib.receive_method lib.version_of f io.loop.channels) b io

    pub too_large_lem :
        (b : Buffer) (io : Io S P O A K)
        → (io' : Io S P O A K) × (e : Error K) × (too_large lib io ≡ some (io', err e))
          × (too_large lib (with_buffer b io) ≡ some (with_buffer b io', err e))
    unfolding too_large fail_with critical_error ask get lapin.Channel.report_protocol_violation
    too_large_lem b io = (_, _, refl, ground arith)

    -- Handling a frame ends with a result.
    pub deliver_cases :
        (f : AmqpFrame P) (io : Io S P O A K)
        → ((io' : Io S P O A K) × (deliver lib f io ≡ some (io', ok tt)))
          ⊎ ((io' : Io S P O A K) × (e : Error K) × (deliver lib f io ≡ some (io', err e)))
    unfolding deliver
    deliver_cases f io =
        delivered_cases
          (handle_frame lib.protocol lib.receive_method lib.version_of f io.loop.channels) io
