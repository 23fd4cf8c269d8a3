-- ===== src/IoLoop/Stream/Ended.antt =====
-- src/io_loop.rs, `start`: what has become of the loop when a connection has ended.
use lapin.Base.{Bool, true, false, not, ◌&&◌, map, is_some}
use lapin.Acker.{Result}
use lapin.Error.{Error}
use lapin.Channel.{of_frames}
use lapin.Command
use lapin.Channels.{Channels, Effects, by}
use lapin.Frames.Replies.{retry_connection_header}
use lapin.IoLoop.{clear_serialized_frames}
use lapin.IoLoop.Control.{is_initial}
use lapin.IoLoop.Stream.{Library, Io, in_loop}
use lapin.IoLoop.Stream.Start.{After, ends, again, error_of}

module _ {S P O A K : Type 0} where
  -- The loop as it is left, to end or to connect again.
  abbrev pub loop_of : After S P O A K → Io S P O A K
  loop_of (ends io res) = io
  loop_of (again io throttle) = io

  abbrev pub connects_again : After S P O A K → Bool
  connects_again (ends io res) = false
  connects_again (again io throttle) = true

  -- The first connection was closed by the peer during the handshake, without an error.
  abbrev pub closed_early : Result (Error K) (Unit {0}) → Io S P O A K → Bool
  closed_early res io =
      io.loop.first_connection
      && (is_initial io.loop.status && (io.loop.half_closed && not (is_some (error_of res))))

  -- The rejections of the serialized frames.
  abbrev pub rejections : Error K → Io S P O A K → Effects P K
  rejections e io = by 0 (map of_frames (clear_serialized_frames e io.loop.serialized_frames))

  abbrev with_header : Library P O A K → Io S P O A K → Io S P O A K
  with_header lib io =
      let cs = io.loop.channels in
      let channels : Channels P O A K = record cs {
        frames = (retry_connection_header lib.frame_api cs.frames).1;
      } in
      in_loop (λ l. record l { channels = channels }) io
