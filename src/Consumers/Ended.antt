-- ===== src/Consumers/Ended.antt =====
-- What the streams of a channel's consumers see of a failure or a cancellation.
use lapin.Base.{ℕ, zero, suc, some, List, [], ◌∷◌}
use lapin.Consumer.{Consumer, Effect, DeliveryResult}
use lapin.Consumer
use lapin.Consumers.{Poll, pending, poll_of}

module _ {P E : Type 0} where
  -- What the program's stream shows of one buffered result.
  abbrev pub shown : DeliveryResult P E → Poll P E
  shown d = poll_of (some d)

  unfoldable pub silent : ℕ → List (Poll P E)
  silent zero = []
  silent (suc n) = pending ∷ silent n
