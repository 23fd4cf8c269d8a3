-- ===== src/Confirms/Failure.antt =====
-- What an error on a channel, and a reset for recovery, do to the pending confirms.
use lapin.Base.{ℕ, ◌≡◌, refl, false, none, some, List, [], ◌∷◌, ◌++◌, map, arith, ℕ_discrete}
use lapin.Base.Dict.{get}
use lapin.Frame.{PromiseId}
use lapin.Sequence
use lapin.Confirms.{Resolvers, Acknowledgements, Effect, on_channel_error, reject_each, reset}
use lapin.Confirms.Settle.{settled, woken, confirms}
use lapin.Confirms.Tags.{IsDistinct}

-- The waiters for all confirms that are rejected, and the confirms, each with its error.
abbrev pub waiter_rejection : {P E : Type 0} → Effect P E → List (PromiseId × E)
waiter_rejection (Effect.wait_rejected p error) = (p, error) ∷ []
waiter_rejection _ = []

abbrev pub confirm_rejection : {P E : Type 0} → Effect P E → List (PromiseId × E)
confirm_rejection (Effect.confirm_rejected p error) = (p, error) ∷ []
confirm_rejection _ = []

unfoldable pub waiter_rejections : {P E : Type 0} → List (Effect P E) → List (PromiseId × E)
waiter_rejections [] = []
waiter_rejections (effect ∷ effects) = waiter_rejection effect ++ waiter_rejections effects

unfoldable pub confirm_rejections : {P E : Type 0} → List (Effect P E) → List (PromiseId × E)
confirm_rejections [] = []
confirm_rejections (effect ∷ effects) = confirm_rejection effect ++ confirm_rejections effects

module _ (P : Type 0) {E : Type 0} where
  reject_each-settled :
      (m : List (ℕ × Resolvers)) (s : Sequence.IdSequence) (error : E)
      → settled (reject_each {P = P} m s error) ≡ confirms m
  unfolding reject_each
  reject_each-settled [] s error = refl
  reject_each-settled ((t, v) ∷ m) s error = ground (arith, reject_each-settled m s error)

  -- Every confirm is rejected with the error.
  reject_each-confirms :
      (m : List (ℕ × Resolvers)) (s : Sequence.IdSequence) (error : E)
      → confirm_rejections (reject_each {P = P} m s error) ≡ map (λ p. (p, error)) (confirms m)
  unfolding reject_each confirm_rejections
  reject_each-confirms [] s error = refl
  reject_each-confirms ((t, v) ∷ m) s error = ground (arith, reject_each-confirms m s error)

  reject_each-waiters_absent :
      (t : ℕ) (m : List (ℕ × Resolvers)) (s : Sequence.IdSequence) (error : E)
      → get ℕ_discrete t m ≡ none
      → Sequence.current s ≡ some t
      → waiter_rejections (reject_each {P = P} m s error) ≡ []
  unfolding reject_each get waiter_rejections
  reject_each-waiters_absent t [] s error e c = refl
  reject_each-waiters_absent t ((j, w) ∷ m) s error e c =
      ground (arith, reject_each-waiters_absent t m s error)

  -- The waiter of the last tag handed out is rejected with the error.
  reject_each-waiters :
      (t : ℕ) (v : Resolvers) (m : List (ℕ × Resolvers)) (s : Sequence.IdSequence) (error : E)
      → get ℕ_discrete t m ≡ some v
      → Sequence.current s ≡ some t
      → IsDistinct m
      → waiter_rejections (reject_each {P = P} m s error) ≡ (v.1, error) ∷ []
  unfolding reject_each get waiter_rejections
  reject_each-waiters t v [] s error e c d = cc
  reject_each-waiters t v ((j, w) ∷ m) s error e c d =
      ground (arith, reject_each-waiters t v m s error, reject_each-waiters_absent t m s error)

  reject_each-new :
      (m : List (ℕ × Resolvers)) (error : E)
      → woken (reject_each {P = P} m (Sequence.new false) error) ≡ []
  unfolding reject_each Sequence.new Sequence.current
  reject_each-new [] error = refl
  reject_each-new ((t, v) ∷ m) error = reject_each-new m error

  reject_each-absent :
      (t : ℕ) (m : List (ℕ × Resolvers)) (s : Sequence.IdSequence) (error : E)
      → get ℕ_discrete t m ≡ none
      → Sequence.current s ≡ some t
      → woken (reject_each {P = P} m s error) ≡ []
  unfolding reject_each get
  reject_each-absent t [] s error e c = refl
  reject_each-absent t ((j, w) ∷ m) s error e c = ground (arith, reject_each-absent t m s error)

  reject_each-woken :
      (t : ℕ) (v : Resolvers) (m : List (ℕ × Resolvers)) (s : Sequence.IdSequence) (error : E)
      → get ℕ_discrete t m ≡ some v
      → Sequence.current s ≡ some t
      → IsDistinct m
      → woken (reject_each {P = P} m s error) ≡ v.1 ∷ []
  unfolding reject_each get
  reject_each-woken t v [] s error e c d = cc
  reject_each-woken t v ((j, w) ∷ m) s error e c d =
      ground (arith, reject_each-woken t v m s error, reject_each-absent t m s error)

module _ {P E : Type 0} where
  -- A reset leaves nothing pending, and settles all that was.
  pub reset-settled :
      (error : E) (a : Acknowledgements P E)
      → (settled (reset error a).1 ≡ confirms a.pending) × ((reset error a).0.pending ≡ [])
  unfolding on_channel_error reset
  reset-settled error a = (reject_each-settled P a.pending (Sequence.new false) error, refl)

  -- In a channel whose pending tags are distinct and hold the last tag handed out, a channel error
  -- settles every pending confirm, each rejected with the error, and completes one waiter of
  -- `wait_for_confirms`, that of the last tag, rejected with the error. A reset for recovery rejects every
  -- pending confirm with its error too, leaves none pending and starts the tags anew, but completes no
  -- waiter: the promise of the last tag is dropped uncompleted.
  pub reset-on_channel_error :
      (error : E) (a : Acknowledgements P E) (tag : ℕ) (r : Resolvers)
      → IsDistinct a.pending
      → Sequence.current a.delivery_tag ≡ some tag
      → get ℕ_discrete tag a.pending ≡ some r
      → (settled (on_channel_error error a).1 ≡ confirms a.pending)
        × (confirm_rejections (on_channel_error error a).1
            ≡ map (λ p. (p, error)) (confirms a.pending))
        × (woken (on_channel_error error a).1 ≡ r.1 ∷ [])
        × (waiter_rejections (on_channel_error error a).1 ≡ (r.1, error) ∷ [])
        × (settled (reset error a).1 ≡ confirms a.pending)
        × (confirm_rejections (reset error a).1 ≡ map (λ p. (p, error)) (confirms a.pending))
        × (woken (reset error a).1 ≡ [])
        × ((reset error a).0.pending ≡ [])
        × (Sequence.current (reset error a).0.delivery_tag ≡ none)
  unfolding on_channel_error reset
  reset-on_channel_error error a tag r d c g = (
    reject_each-settled P a.pending a.delivery_tag error,
    reject_each-confirms P a.pending a.delivery_tag error,
    reject_each-woken P tag r a.pending a.delivery_tag error g c d,
    reject_each-waiters P tag r a.pending a.delivery_tag error g c d,
    reject_each-settled P a.pending (Sequence.new false) error,
    reject_each-confirms P a.pending (Sequence.new false) error,
    reject_each-new P a.pending error,
    refl,
    unfold Sequence.new Sequence.current in refl,
  )
