-- ===== src/Channels/Recovering.antt =====
-- src/channels.rs, `init_connection_recovery`: a lost connection makes every channel wait for the next.
pub mod Poisoned
use lapin.Base.{ℕ, Option, none, some, List, [], ◌∷◌, ◌++◌, map}
use lapin.Frame.{ChannelId, FrameApi}
use lapin.Error.{Error}
use lapin.ChannelStatus.{Store}
use lapin.ConnectionStatus.{set_reconnecting}
use lapin.Frames.{Frames}
use lapin.Frames.Replies.{clear_connection_steps}
use lapin.Recovery
use lapin.Topology.{ExchangeDefinition, QueueDefinition, exchanges_topology, queues_topology}
use lapin.Consumer.{Consumer}
use lapin.Base.Dict
use lapin.Channel.{Channel, of_frames}
use lapin.Channels.{Channels, Effects, by}

-- `ChannelDefinition`.
abbrev pub Topology : Type 0 → Type 0 → Type 0 → Type 0 → Type 0
Topology P O A K =
    List (ExchangeDefinition O A) × List (QueueDefinition O A) × List (Consumer P (Error K))

-- What is handed from one channel to the next: the error, and what they share.
pub record Progress (P K : Type 0) : Type 0 where
  pub cause : Error K
  pub frames : Frames P (Error K)
  pub store : Store

module _ {P O A K : Type 0} where
  unfoldable pub topology : Channel P O A K → Topology P O A K
  topology ch = (
    exchanges_topology ch.local_registry,
    queues_topology ch.local_registry,
    Dict.values ch.consumers,
  )

  -- `pack` stores the topology in the channel's recovery context.
  module _ (api : FrameApi P) (pack : Topology P O A K → P) where
    unfoldable pub recover_one :
        Channel P O A K → Progress P K → Channel P O A K × Progress P K × Effects P K
    recover_one ch p =
        let part : Recovery.Channel P K = record {
          id = ch.id;
          status = ch.status;
          frames = p.frames;
          acknowledgements = ch.acknowledgements;
        } in
        let (e, part', store, effects) =
          Recovery.init_recovery api p.cause (pack (topology ch)) part p.store in
        (
          record ch { status = part'.status; acknowledgements = part'.acknowledgements },
          record { cause = e; frames = part'.frames; store = store },
          by ch.id (map of_frames effects),
        )

    -- The fold over the channels of the map.
    unfoldable pub recover_each :
        List (ChannelId × Channel P O A K)
        → Progress P K
        → List (ChannelId × Channel P O A K) × Progress P K × Effects P K
    recover_each [] p = ([], p, [])
    recover_each ((id, ch) ∷ channels) p =
        let (ch', q, effects) = recover_one ch p in
        let (channels', last, more) = recover_each channels q in
        ((id, ch') ∷ channels', last, effects ++ more)

    recover_all :
        Error K
        → Effects P K
        → Frames P (Error K)
        → Channels P O A K
        → Error K × Channels P O A K × Effects P K
    recover_all e cleared frames cs =
        let start : Progress P K = record { cause = e; frames = frames; store = cs.store } in
        let (channels, p, effects) = recover_each cs.channels start in
        let (ch0, q, more) = recover_one cs.channel0 p in
        (
          q.cause,
          record cs {
            channels = channels;
            channel0 = ch0;
            connection_status = set_reconnecting cs.connection_status;
            frames = q.frames;
            store = q.store;
          },
          cleared ++ (effects ++ more),
        )

    -- On fuel for the handshake's steps: `none` means that the fuel ran out.
    unfoldable pub init_connection_recovery :
        ℕ → Error K → Channels P O A K → Option (Error K × Channels P O A K × Effects P K)
    unfolding recover_all
    init_connection_recovery fuel e cs = elim (clear_connection_steps fuel e cs.frames) [
      | none ↦ none
      | some (frames, effects) ↦ some (recover_all e (by 0 (map of_frames effects)) frames cs)
    ]
