-- ===== src/Frames/Order.antt =====
-- The order in which `pop` hands out the frames.
use lapin.Base.{
  ◌≡◌, refl, ◌⊎◌, inl, inr, Bool, true, false, Option, none, some, is_some, List, [], ◌∷◌, ◌++◌,
  arith, append_assoc, append-nil, drop,
}
use lapin.Frame.{FrameApi, FrameEntry}
use lapin.Frames.{Frames, pop, pop_low, pop_from, move_content, retry, has_pending}

module _ {P E : Type 0} where
  -- Everything that waits to be sent, in the order of the queues.
  abbrev pub pending : Frames P E → List (FrameEntry P)
  pending s = s.retry_frames ++ (s.publish_frames ++ (s.frames ++ s.low_prio_frames))

  -- Moving content over leaves the two queues' concatenation as it was.
  move_content-append :
      (published low : List (FrameEntry P)) (s : Frames P E)
      → (move_content published low s).publish_frames
          ++ (move_content published low s).low_prio_frames
        ≡ published ++ low
  unfolding move_content
  move_content-append published [] s = simp append-nil
  move_content-append published (f ∷ low) s =
      ground (
        arith,
        move_content-append (published ++ f ∷ []) low s,
        append_assoc published (f ∷ []) low,
      )

  pub move_content-rest :
      (published low : List (FrameEntry P)) (s : Frames P E)
      → ((move_content published low s).retry_frames ≡ s.retry_frames)
        × ((move_content published low s).frames ≡ s.frames)
  unfolding move_content
  move_content-rest published [] s = (refl, refl)
  move_content-rest published (f ∷ low) s =
      ground (arith, move_content-rest (published ++ f ∷ []) low s)

  -- A call of `pop` took the head of `pending`, or nothing, for one of the two reasons.
  abbrev pub Took : Bool → Frames P E → Option (FrameEntry P) × Frames P E → Type 0
  Took flow s r =
      ((f : FrameEntry P) × (r.0 ≡ some f) × (pending s ≡ f ∷ pending r.1))
      ⊎ ((r ≡ (none, s)) × ((pending s ≡ []) ⊎ ((flow ≡ false) × (pending s ≡ s.low_prio_frames))))

  module _ (api : FrameApi P) where
    pop_low-Took :
        (low : List (FrameEntry P)) (s : Frames P E)
        → s.retry_frames ≡ []
        → s.publish_frames ≡ []
        → s.frames ≡ []
        → s.low_prio_frames ≡ low
        → Took true s (pop_low api low s)
    unfolding pop_low
    pop_low-Took [] s r p q l = inr (refl, inl (rw (r, p, q, l)))
    pop_low-Took (f ∷ low) s r p q l = inl (
      f,
      refl,
      ground (
        arith,
        move_content-append s.publish_frames low (record s { low_prio_frames = low }),
        move_content-rest s.publish_frames low (record s { low_prio_frames = low }),
      ),
    )

    pop_from-Took :
        (r p q : List (FrameEntry P)) (flow : Bool) (s : Frames P E)
        → s.retry_frames ≡ r
        → s.publish_frames ≡ p
        → s.frames ≡ q
        → Took flow s (pop_from api r p q flow s)
    unfolding pop_from
    pop_from-Took (f ∷ r) p q flow s er ep eq = inl (f, refl, rw er)
    pop_from-Took [] (f ∷ p) q flow s er ep eq = inl (f, refl, rw (er, ep))
    pop_from-Took [] [] (f ∷ q) flow s er ep eq = inl (f, refl, rw (er, ep, eq))
    pop_from-Took [] [] [] true s er ep eq = pop_low-Took s.low_prio_frames s er ep eq refl
    pop_from-Took [] [] [] false s er ep eq = inr (refl, inr (refl, rw (er, ep, eq)))

    pop_low-drop :
        (low : List (FrameEntry P)) (s : Frames P E)
        → (pop_low api low s).1.retry_frames ≡ s.retry_frames
    unfolding pop_low
    pop_low-drop [] s = refl
    pop_low-drop (f ∷ low) s =
        ground (arith, move_content-rest s.publish_frames low (record s { low_prio_frames = low }))

    pop_from-drop :
        (r p q : List (FrameEntry P)) (flow : Bool) (s : Frames P E)
        → s.retry_frames ≡ r
        → (pop_from api r p q flow s).1.retry_frames ≡ drop 1 r
    unfolding pop_from
    pop_from-drop (f ∷ r) p q flow s e = refl
    pop_from-drop [] (f ∷ p) q flow s e = e
    pop_from-drop [] [] (f ∷ q) flow s e = e
    pop_from-drop [] [] [] true s e = ground (arith, pop_low-drop s.low_prio_frames s, e)
    pop_from-drop [] [] [] false s e = e

    -- `pop` takes the head of everything pending; it hands out nothing, and changes nothing, only
    -- if nothing is pending, or if the server stops content and only new content is pending.
    pub pop-pending : (flow : Bool) (s : Frames P E) → Took flow s (pop api flow s)
    unfolding pop
    pop-pending flow s =
        pop_from-Took s.retry_frames s.publish_frames s.frames flow s refl refl refl

    -- `pop` takes a frame to be retried before any other, and puts none there.
    pub pop-drop :
        (flow : Bool) (s : Frames P E) → (pop api flow s).1.retry_frames ≡ drop 1 s.retry_frames
    unfolding pop
    pop-drop flow s = pop_from-drop s.retry_frames s.publish_frames s.frames flow s refl

    -- While the server lets content flow, `pop` hands out a frame exactly when one is pending.
    pub pop-has_pending : (s : Frames P E) → is_some (pop api true s).0 ≡ has_pending s
    unfolding has_pending
    pop-has_pending s = ground (arith, pop-pending true s)

    -- A frame that could not be serialised and is put back is the next one out, with no other
    -- change, if nothing else waits to be retried.
    pub pop-retry :
        (flow : Bool) (f : FrameEntry P) (s : Frames P E)
        → s.retry_frames ≡ []
        → pop api flow (retry f s) ≡ (some f, s)
    unfolding pop retry pop_from
    pop-retry flow f s e = ground arith
