-- ===== src/Returned/Drain.antt =====
-- Every returned message is handed out by `drain`, once.
use lapin.Base.{List, [], ◌∷◌, ◌++◌}
use lapin.Frame.{PromiseId}
use lapin.Returned.{BasicReturnMessage, Waits, carried, waits_on}

module _ {P E : Type 0} where
  -- The messages that the completed promises among these carry.
  abbrev pub arrived : Waits P E → List PromiseId → List (BasicReturnMessage P E)
  arrived try_wait [] = []
  arrived try_wait (p ∷ ps) = carried (try_wait p) ++ arrived try_wait ps

  -- The promises that are not completed yet.
  abbrev pub unsettled : Waits P E → List PromiseId → List PromiseId
  unsettled try_wait [] = []
  unsettled try_wait (p ∷ ps) = waits_on (try_wait p) p ++ unsettled try_wait ps
