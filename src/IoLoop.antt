-- ===== src/IoLoop.antt =====
-- src/io_loop.rs: the frames between the queues and the socket. `serialized_frames` are those whose
-- bytes are in the send buffer, or were there, each with what is left to write of it. The socket, the
-- generator of frames of the crate amq_protocol and the clock are given.
pub mod Control
pub mod Serialize
pub mod Stream
pub mod Written
use lapin.Base.{
  ℕ, zero, suc, ◌+◌, ◌-◌, ◌*◌, ◌%◌, ◌^◌, max, Bool, true, false, not, ◌&&◌, ◌||◌, Option, none,
  some, List, [], ◌∷◌, ◌++◌, ltb, ◌==◌, is_empty, if◌then◌else◌,
}
use lapin.Frame.{FrameSending, Effect, reject, resolve}
use lapin.SocketState.{SocketState}
use lapin.Buffer.{Buffer}

abbrev pub frame_size_size : ℕ
frame_size_size = 2 ^ 32

abbrev pub frames_storage : ℕ
frames_storage = 32

pub data Status : Type 0 where
  initial connected stop : Status

-- A serialized frame: the bytes left to write, and its promise.
abbrev pub Serialized : Type 0
Serialized = ℕ × FrameSending

-- The loop over what was written: the frames left, the promises resolved, and the bytes that no
-- frame accounts for.
unfoldable pub account : {E : Type 0} → ℕ → List Serialized → List Serialized × List (Effect E) × ℕ
account written [] = ([], [], written)
account zero (f ∷ fs) = (f ∷ fs, [], 0)
account (suc n) ((to_write, sending) ∷ fs) =
    let (rest, effects, unexpected) = account (suc n - to_write) fs in
    if ltb (suc n) to_write
    then ((to_write - suc n, sending) ∷ fs, [], 0)
    else (rest, resolve sending ++ effects, unexpected)

-- The size that was written, as a `FrameSize` of 32 bits.
unfoldable pub account_write :
    {E : Type 0} → ℕ → List Serialized → List Serialized × List (Effect E) × ℕ
account_write size fs = account (size % frame_size_size) fs

unfoldable pub clear_serialized_frames : {E : Type 0} → E → List Serialized → List (Effect E)
clear_serialized_frames error [] = []
clear_serialized_frames error ((to_write, sending) ∷ fs) =
    reject sending error ++ clear_serialized_frames error fs
