-- ===== src/IoLoop/Serialize.antt =====
-- src/io_loop.rs, `serialize`: frames leave the queues for the send buffer.
pub mod Kept
use lapin.Base.{ℕ, zero, suc, ◌%◌, Bool, Option, none, some, List, [], ◌∷◌, ◌++◌}
use lapin.Frame.{FrameApi, FrameEntry, FrameSending}
use lapin.Frames.{Frames, pop, retry}
use lapin.Buffer.{Buffer, checkpoint, rollback}
use lapin.IoLoop.{Serialized, frame_size_size}

-- What the generator of the crate amq_protocol makes of a frame: the buffer with the frame's bytes and
-- their number, or the buffer as it is left where there is no room, or where it fails.
pub data Generated (K : Type 0) : Type 0 where
  fits : Buffer → ℕ → Generated K
  too_small : Buffer → Generated K
  fails : Buffer → K → Generated K

-- The part of the loop's state that a frame passes through.
pub record Sending (P E : Type 0) : Type 0 where
  pub frames : Frames P E
  pub send_buffer : Buffer
  pub serialized_frames : List Serialized

module _ {P E K : Type 0} (api : FrameApi P) (gen_frame : FrameEntry P → Buffer → Generated K)
    (flow : Bool) where
  -- The `while let` loop, on fuel: the outer `none` means that the fuel ran out. An error of the
  -- generator is critical and ends it.
  unfoldable pub serialize : ℕ → Sending P E → Option (Sending P E × Option K)
  serialize zero s = none
  serialize (suc fuel) s =
      let (popped, frames) = pop api flow s.frames in
      let taken : Sending P E = record s { frames = frames } in
      elim popped [
        | none ↦ some (taken, none)
        | some f ↦ elim (gen_frame f s.send_buffer) [
          | fits b size ↦ serialize fuel (record taken {
            send_buffer = b;
            serialized_frames = s.serialized_frames ++ (size % frame_size_size, f.sending) ∷ [];
          })
          | too_small b ↦ some (
            record taken {
              frames = retry f frames;
              send_buffer = rollback (checkpoint s.send_buffer) b;
            },
            none,
          )
          | fails b e ↦
              some (record taken { send_buffer = rollback (checkpoint s.send_buffer) b }, some e)
        ]
      ]
