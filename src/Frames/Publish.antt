-- ===== src/Frames/Publish.antt =====
-- A publish goes out in one piece: what `pop` hands out after the method frame of a basic.publish,
-- whatever is pushed in the meantime.
use lapin.Base.{
  suc, ◌≤◌, ◌≡◌, refl, Bool, true, false, Option, none, some, is_some, ◌⊎◌, inl, inr, List, [], ◌∷◌,
  ◌++◌, arith, append-nil, append_assoc, length, All,
}
use lapin.Frame.{
  ChannelId, PromiseId, AmqpFrame, is_content, header_shape, FrameApi, FrameEntry, ExpectedReply,
}
use lapin.Frames.Order.{move_content-rest}
use lapin.Frames.{Frames, push, push_frames, pop, pop_low, pop_from, move_content, front_is_header}

-- What the channels and the I/O loop do to the queues between two recoveries.
pub data Action (P : Type 0) : Type 0 where
  pushes :
      ChannelId → AmqpFrame P → PromiseId → Option (ExpectedReply P) → Option PromiseId → Action P
  pushes_frames : ChannelId → List (AmqpFrame P) → PromiseId → Action P
  pops : Bool → Action P

abbrev note : {P : Type 0} → Option (FrameEntry P) → List (FrameEntry P) → List (FrameEntry P)
note none out = out
note (some f) out = f ∷ out

-- The first entry, if there is one, is a header or a body frame.
abbrev pub front_content : {P : Type 0} → List (FrameEntry P) → Bool
front_content [] = false
front_content (f ∷ fs) = is_content f.frame

header_content : {P : Type 0} (f : AmqpFrame P) → header_shape f ≡ true → is_content f ≡ true
header_content f h = ground arith

module _ {P E : Type 0} (api : FrameApi P) where
  -- The frames handed out by the calls of `pop` among the actions, in order, and the last state.
  unfoldable pub run : List (Action P) → Frames P E → List (FrameEntry P) × Frames P E
  run [] s = ([], s)
  run (pushes c frame canceler reply resolver ∷ actions) s =
      run actions (push c frame canceler reply resolver s).0
  run (pushes_frames c fs resolver ∷ actions) s = run actions (push_frames c fs resolver s).0
  run (pops flow ∷ actions) s =
      let (f, s') = pop api flow s in let (out, t) = run actions s' in (note f out, t)

  push-queues :
      (c : ChannelId) (frame : AmqpFrame P) (canceler : PromiseId)
      (reply : Option (ExpectedReply P)) (resolver : Option PromiseId) (s : Frames P E)
      → ((push c frame canceler reply resolver s).0.retry_frames ≡ s.retry_frames)
        × ((push c frame canceler reply resolver s).0.publish_frames ≡ s.publish_frames)
  unfolding push
  push-queues c frame canceler reply resolver s = ground arith

  push_frames-queues :
      (c : ChannelId) (fs : List (AmqpFrame P)) (resolver : PromiseId) (s : Frames P E)
      → ((push_frames c fs resolver s).0.retry_frames ≡ s.retry_frames)
        × ((push_frames c fs resolver s).0.publish_frames ≡ s.publish_frames)
  unfolding push_frames
  push_frames-queues c fs resolver s = ground arith

  -- One call of `pop` with no frame to retry: the first of the content, or not a frame of it.
  pop-content :
      (p : List (FrameEntry P)) (flow : Bool) (s : Frames P E)
      → s.retry_frames ≡ []
      → s.publish_frames ≡ p
      → ((f : FrameEntry P) × (q : List (FrameEntry P)) × (p ≡ f ∷ q)
          × (pop api flow s ≡ (some f, record s { publish_frames = q })))
        ⊎ ((p ≡ []) × ((pop api flow s ≡ (none, s)) ⊎ (is_some (pop api flow s).0 ≡ true)))
  unfolding pop pop_from pop_low
  pop-content [] flow s e h = inr (refl, ground arith)
  pop-content (f ∷ q) flow s e h = inl (f, q, refl, ground arith)

  -- With no frame to retry, the content of the publish in progress comes out first and in order,
  -- whatever is pushed in between and whether or not the server stops content: actions long actions no more
  -- frames are popped than it has, those popped and those that still wait make it up.
  pub run-publish_frames :
      (actions : List (Action P)) (s : Frames P E)
      → s.retry_frames ≡ []
      → length (run actions s).0 ≤ length s.publish_frames
      → ((run actions s).0 ++ (run actions s).1.publish_frames ≡ s.publish_frames)
        × ((run actions s).1.retry_frames ≡ [])
  unfolding run
  run-publish_frames [] s e h = (refl, e)
  run-publish_frames (pushes c frame canceler reply resolver ∷ actions) s e h = ground (
    arith,
    push-queues c frame canceler reply resolver s,
    run-publish_frames actions (push c frame canceler reply resolver s).0,
  )
  run-publish_frames (pushes_frames c fs resolver ∷ actions) s e h = ground (
    arith,
    push_frames-queues c fs resolver s,
    run-publish_frames actions (push_frames c fs resolver s).0,
  )
  run-publish_frames (pops flow ∷ actions) s e h = ground (
    arith,
    pop-content s.publish_frames flow s e refl,
    run-publish_frames actions (pop api flow s).1,
  )

  move_content-All :
      (published content rest : List (FrameEntry P)) (s : Frames P E)
      → All (λ f. is_content f.frame ≡ true) content
      → front_content rest ≡ false
      → (move_content published (content ++ rest) s).publish_frames ≡ published ++ content
  unfolding move_content
  move_content-All published [] [] s p q = simp append-nil
  move_content-All published [] (f ∷ rest) s p q = ground (arith, append-nil published)
  move_content-All published (f ∷ content) rest s p q = ground (
    arith,
    move_content-All (published ++ f ∷ []) content rest s p.1 q,
    append_assoc published (f ∷ []) content,
  )

  -- The state after the method frame of a publish was popped.
  pop-publish :
      (m h : FrameEntry P) (content rest : List (FrameEntry P)) (s : Frames P E)
      → s.retry_frames ≡ []
      → s.publish_frames ≡ []
      → s.frames ≡ []
      → s.low_prio_frames ≡ m ∷ h ∷ (content ++ rest)
      → header_shape h.frame ≡ true
      → All (λ f. is_content f.frame ≡ true) content
      → front_content rest ≡ false
      → ((pop api true s).0 ≡ some m)
        × ((pop api true s).1.retry_frames ≡ [])
        × ((pop api true s).1.publish_frames ≡ h ∷ content)
  unfolding pop pop_from pop_low front_is_header
  pop-publish m h content rest s er ep eq el shape all other = ground (
    arith,
    api.is_header_lem h.frame,
    move_content-All [] (h ∷ content) rest (record s { low_prio_frames = h ∷ (content ++ rest) })
        (header_content h.frame shape, all) other,
    move_content-rest s.publish_frames (h ∷ (content ++ rest))
        (record s { low_prio_frames = h ∷ (content ++ rest) }),
  )

  -- Once `pop` has handed out the method frame of a publish, with nothing more urgent waiting, the
  -- frames popped next are its header and its body frames, in order and with nothing in between,
  -- whatever is pushed meanwhile and whether or not the server stops content: as long as no more
  -- frames are popped than it has, those popped and those that still wait make it up.
  pub publish_contiguous :
      (m h : FrameEntry P) (content rest : List (FrameEntry P)) (actions : List (Action P))
      (s : Frames P E)
      → s.retry_frames ≡ []
      → s.publish_frames ≡ []
      → s.frames ≡ []
      → s.low_prio_frames ≡ m ∷ h ∷ (content ++ rest)
      → header_shape h.frame ≡ true
      → All (λ f. is_content f.frame ≡ true) content
      → front_content rest ≡ false
      → length (run actions (pop api true s).1).0 ≤ suc (length content)
      → ((pop api true s).0 ≡ some m)
        × ((run actions (pop api true s).1).0 ++ (run actions (pop api true s).1).1.publish_frames
            ≡ h ∷ content)
  publish_contiguous m h content rest actions s er ep eq el shape all other short = ground (
    arith,
    pop-publish m h content rest s er ep eq el shape all other,
    run-publish_frames actions (pop api true s).1,
  )
