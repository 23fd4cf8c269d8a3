-- ===== src/Witnesses/Loops.antt =====
-- The theorems on the I/O loop, applied to concrete values.
use lapin.Base.{
  ℕ, suc, ltb, leb, ◌≡◌, refl, ◌<◌, ◌≤◌, Bool, true, false, none, some, List, [], ◌∷◌, length, ◌==◌,
  arith, if◌then◌else◌,
}
use lapin.Frame.{AmqpFrame, heartbeat, rejected}
use lapin.Frames.{empty, check_poison}
use lapin.ConnectionStatus.{set_connecting}
use lapin.Channel.{of_frames}
use lapin.Connection.{start}
use lapin.Connection.Opening.{connect_failed-start}
use lapin.Notifier.{EventApi, poll_listener, arm}
use lapin.Notifier.Woken.{Move, task, notifies, listens, moves, begins, unnotified}
use lapin.Notifier.Resolved.{is_resolved, is_notified}
use lapin.Notifier.Wakes.{moves_wake, is_waiting}
use lapin.Acker.{Result, ok, err, armed}
use lapin.Error.{Error}
use lapin.Buffer.{contents}
use lapin.Buffer.{Buffer}
use lapin.Buffer.Inv.{IsValid}
use lapin.Parsing.{ParsingContext, iter, take_from}
use lapin.SocketState
use lapin.Channels.{Channels}
use lapin.IoLoop.{connected, initial}
use lapin.IoLoop.Serialize.{too_small}
use lapin.IoLoop.Stream.{Parsed, frame, incomplete, malformed, Library, Io}
use lapin.IoLoop.Stream.Reads.{handle_frames}
use lapin.IoLoop.Stream.Decoded.{
  Decoded, found, unfinished, broken, Reads, with_buffer, handle_bytes,
}
use lapin.IoLoop.Stream.Handled.{handle_frames-handle_bytes}
use lapin.IoLoop.Stream.Start.{connect_failed}
use lapin.Witnesses.Connections.{connection, protocol, frame_api, lost}
use lapin.Witnesses.Buffers.{wrapped, wrapped-IsValid}

-- Each byte is a heartbeat, but for 6, which is an error.
abbrev pub decode : List ℕ → Decoded ℕ ℕ
decode [] = unfinished
decode (x ∷ xs) = if x == 6 then broken 6 else found 1 heartbeat

abbrev parsed : Decoded ℕ ℕ → ParsingContext → Parsed ℕ ℕ
parsed (found n f) c = elim (take_from n c) [ none ↦ incomplete | some rest ↦ frame rest f ]
parsed unfinished c = incomplete
parsed (broken e) c = malformed e

decode_size :
    (bytes : List ℕ) (n : ℕ) (f : AmqpFrame ℕ)
    → decode bytes ≡ found n f
    → (0 < n) × (n ≤ length bytes)
decode_size [] n f d = absurd (ground (arith, d))
decode_size (x ∷ xs) n f d = (ground (arith, d), ground (arith, d))

pub byte-Reads : Reads (λ c. parsed (decode (iter c)) c) decode
byte-Reads = record {
  size = decode_size;
  reads_frame = λ c rest n f d t. ground (arith, d, t);
  reads_part = λ c d. rw d refl;
  reads_error = λ c e d. rw d refl;
}

abbrev pub library : Library ℕ ℕ ℕ ℕ
library = record {
  frame_api = frame_api;
  gen_frame = λ f b. too_small b;
  parse_frame = λ c. parsed (decode (iter c)) c;
  protocol = protocol;
  receive_method = λ m ch. (ch, [], ok tt);
  version_of = λ p. p;
  view = λ e. record { interrupted = false; wouldblock = false; is_io_error = true };
  aborted = lost;
  memory_address = 1000;
}

-- The loop of a connection that has read three bytes and written a part of a frame.
abbrev pub reading : Io ℕ ℕ ℕ ℕ ℕ
reading = record {
  loop = record {
    channels = connection;
    socket_state = SocketState.new;
    status = connected;
    frame_size = 4;
    receive_buffer = wrapped;
    send_buffer = wrapped;
    serialized_frames = (3, record { canceler = none; resolver = some 9 }) ∷ [];
    half_closed = false;
    first_connection = false;
    backoff = 5 ∷ [];
    global_backoff = 5 ∷ [];
  };
  stream = 0;
  heartbeat = record {
    last_read = 0;
    last_write = 0;
    timeout = none;
    poison = armed;
    killswitch = armed;
  };
  effects = [];
}

handle_frames-handle_bytes_example :
    (b : Buffer) × (io' : Io ℕ ℕ ℕ ℕ ℕ) × (res : Result (Error ℕ) Bool) × (handle_bytes library
        decode 4 false
        (4 ∷ 5 ∷ 6 ∷ [])
        reading
      ≡ some (contents b, io', res))
    × (handle_frames library reading ≡ some (with_buffer b io', res))
    × IsValid b
unfolding contents
handle_frames-handle_bytes_example =
    handle_frames-handle_bytes library decode byte-Reads reading wrapped-IsValid

-- A connection on which nothing has been sent.
abbrev unopened : Channels ℕ ℕ ℕ ℕ
unopened = record connection { frames = empty }

abbrev opening : Io ℕ ℕ ℕ ℕ ℕ
opening = record reading {
  loop = record reading.loop { channels = (start frame_api 4 77 unopened).0; status = initial };
}

connect_failed-start_example :
    ((start frame_api 4 77 unopened).2 ≡ ok 4)
    × ((io' : Io ℕ ℕ ℕ ℕ ℕ) × (connect_failed lost opening ≡ some (io', err lost))
        × (io'.effects ≡ (0, of_frames (rejected 4 lost)) ∷ [])
        × ((start frame_api 4 77 io'.loop.channels).2 ≡ err lost)
        × ((start frame_api 4 77 io'.loop.channels).0.frames ≡ io'.loop.channels.frames)
        × ((start frame_api 4 77 io'.loop.channels).0.connection_status.poison ≡ none))
unfolding check_poison start set_connecting
connect_failed-start_example =
    connect_failed-start frame_api 4 77 unopened opening lost refl refl refl refl refl

-- An event is how often it was notified; a listener is how often it had been.
abbrev counted : EventApi ℕ ℕ
counted = record {
  listen = λ v. (v, v);
  notify = λ v. suc v;
  fired = λ l v. ltb l v;
  registered = λ l v. leb l v;
  listen-registered = λ v. ground arith;
  listen-fired = λ v. ground arith;
  registered-listen = λ l v h. h;
  fired-listen = λ l v h. refl;
  registered-notify = λ l v h. ground arith;
  fired-notify = λ l v h. ground arith;
}

-- The thread stores between the second check and the poll, and notifies when the task waits.
abbrev interleaving : List Move
interleaving = task ∷ task ∷ task ∷ notifies ∷ listens ∷ task ∷ notifies ∷ []

moves_wake_example :
    let w = moves counted interleaving (record {
      notifier = record { done = false; listener = record { event = 5; waits_for = none } };
      phase = begins;
      notifying = unnotified;
    }) in
    (is_resolved w.phase ≡ true → w.notifier.done ≡ true)
    × (is_notified w.notifying ≡ true
        → is_waiting w.phase ≡ true
        → (l : ℕ) × (w.notifier.listener.waits_for ≡ some l)
          × (ltb l w.notifier.listener.event ≡ true))
moves_wake_example = moves_wake counted interleaving 5

-- In that run the task waits, and the thread has notified.
interleaving_waits :
    let w = moves counted interleaving (record {
      notifier = record { done = false; listener = record { event = 5; waits_for = none } };
      phase = begins;
      notifying = unnotified;
    }) in
    (is_waiting w.phase ≡ true) × (is_notified w.notifying ≡ true)
unfolding moves poll_listener arm
interleaving_waits = (refl, refl)
