-- ===== src/Acker/Once.antt =====
-- An acker answers its delivery at most once.
use lapin.Base.{◌≤◌, ◌≡◌, refl, Bool, false, Option, List, [], ◌∷◌, ◌++◌, arith, append-nil, length}
use lapin.Acker.{Result, ok, Acker, Command, usable, ack, nack, reject}

-- The calls that an application makes on one acker, with what each command's promise comes to.
pub data Call (E : Type 0) : Type 0 where
  acks : Bool → Option E → Call E
  nacks : Bool → Bool → Option E → Call E
  rejects : Bool → Option E → Call E

module _ {E : Type 0} where
  unfoldable pub call : Call E → Acker E → Acker E × List Command × Result E Bool
  unfolding ack nack reject
  call (acks multiple answer) a = ack multiple answer a
  call (nacks multiple requeue answer) a = nack multiple requeue answer a
  call (rejects requeue answer) a = reject requeue answer a

  unfoldable pub calls : List (Call E) → Acker E → Acker E × List Command × List (Result E Bool)
  calls [] a = (a, [], [])
  calls (c ∷ cs) a =
      let (a', sent, result) = call c a in
      let (last, more, results) = calls cs a' in (last, sent ++ more, result ∷ results)

  abbrev pub all_refused : List (Call E) → List (Result E Bool)
  all_refused [] = []
  all_refused (c ∷ cs) = ok false ∷ all_refused cs

  call-unusable :
      (c : Call E) (a : Acker E)
      → usable a ≡ false
      → ((call c a).1 ≡ []) × ((call c a).2 ≡ ok false) × (usable (call c a).0 ≡ false)
  unfolding call usable
  call-unusable (acks multiple answer) a h = ground arith
  call-unusable (nacks multiple requeue answer) a h = ground arith
  call-unusable (rejects requeue answer) a h = ground arith

  call-spends : (c : Call E) (a : Acker E) → usable (call c a).0 ≡ false
  unfolding call usable
  call-spends (acks multiple answer) a = ground arith
  call-spends (nacks multiple requeue answer) a = ground arith
  call-spends (rejects requeue answer) a = ground arith

  -- An acker that is used, invalidated or poisoned sends nothing, whatever is called on it, and
  -- every call returns `ok false`.
  pub calls-unusable :
      (cs : List (Call E)) (a : Acker E)
      → usable a ≡ false
      → ((calls cs a).1 ≡ []) × ((calls cs a).2 ≡ all_refused cs)
  unfolding calls
  calls-unusable [] a h = (refl, refl)
  calls-unusable (c ∷ cs) a h = ground (arith, call-unusable c a h, calls-unusable cs (call c a).0)

  length-call : (c : Call E) (a : Acker E) → length (call c a).1 ≤ 1
  unfolding call
  length-call (acks multiple answer) a = ground arith
  length-call (nacks multiple requeue answer) a = ground arith
  length-call (rejects requeue answer) a = ground arith

  -- Whatever sequence of `ack`, `nack` and `reject` is called on an acker, the commands sent are
  -- those of the first call, at most one, and every later call returns `ok false`.
  pub calls_once :
      (c : Call E) (cs : List (Call E)) (a : Acker E)
      → ((calls (c ∷ cs) a).1 ≡ (call c a).1)
        × (length (calls (c ∷ cs) a).1 ≤ 1)
        × ((calls (c ∷ cs) a).2 ≡ (call c a).2 ∷ all_refused cs)
  unfolding calls
  calls_once c cs a = ground (
    arith,
    call-spends c a,
    length-call c a,
    calls-unusable cs (call c a).0,
    append-nil (call c a).1,
  )
