-- ===== src/IoLoop/Serialize/Kept.antt =====
-- Nothing that waits to be sent is lost or overtaken on its way to the send buffer.
use lapin.Base.{
  ℕ, zero, suc, ◌<◌, Bool, ◌≡◌, refl, ◌∙◌, ◌⊎◌, inl, inr, Option, none, some, List, [], ◌∷◌, ◌++◌,
  arith, map, length, drop, is_some, append_assoc, if◌then◌else◌, ◌%◌,
}
use lapin.Frame.{FrameApi, FrameEntry, FrameSending}
use lapin.Frames.{pop, retry}
use lapin.Frames.Order.{pending, pop-pending, pop-drop}
use lapin.Buffer.{Buffer, checkpoint, rollback}
use lapin.IoLoop.{Serialized, frame_size_size}
use lapin.IoLoop.Serialize.{Generated, fits, too_small, fails, Sending, serialize}

Generated_cases :
    {K : Type 0} (x : Generated K)
    → ((b : Buffer) × (size : ℕ) × (x ≡ fits b size))
      ⊎ ((b : Buffer) × (x ≡ too_small b))
      ⊎ ((b : Buffer) × (e : K) × (x ≡ fails b e))
Generated_cases (fits b size) = inl (b, size, refl)
Generated_cases (too_small b) = inr (inl (b, refl))
Generated_cases (fails b e) = inr (inr (b, e, refl))

-- The promises of all frames on their way, those that are serialized first.
abbrev pub queued : {P : Type 0} → List (FrameEntry P) → List FrameSending
queued = map (λ f. f.sending)

abbrev pub serialized : List Serialized → List FrameSending
serialized = map (λ f. f.1)

abbrev pub on_way : {P E : Type 0} → List FrameSending → Sending P E → List FrameSending
on_way lost s = serialized s.serialized_frames ++ (lost ++ queued (pending s.frames))

serialized-append :
    (xs : List Serialized) (y : Serialized) → serialized (xs ++ y ∷ []) ≡ serialized xs ++ y.1 ∷ []
serialized-append [] y = refl
serialized-append (x ∷ xs) y = ground (arith, serialized-append xs y)

module _ {P E K : Type 0} (api : FrameApi P) (gen_frame : FrameEntry P → Buffer → Generated K)
    (flow : Bool) where
  -- With at most one frame to be retried and more fuel than frames are pending, serializing ends. The
  -- promises of the serialized frames and of those that are pending, in the order in which `pop` would
  -- hand these out, are those of before, in order, also where a frame did not fit; but where
  -- the generator fails, the promise of one frame is in neither.
  pub serialize_lem :
      (fuel : ℕ) (s : Sending P E)
      → length (pending s.frames) < fuel
      → drop 1 s.frames.retry_frames ≡ []
      → (s' : Sending P E) × (failed : Option K) × (lost : List FrameSending) × (serialize api
            gen_frame flow fuel s
          ≡ some (s', failed))
        × (on_way lost s' ≡ on_way [] s)
        × (length lost ≡ (if is_some failed then 1 else 0))
  unfolding serialize retry
  serialize_lem zero s h r = absurd (omega arith)
  serialize_lem (suc fuel) s h r = elim (pop-pending api flow s.frames) [
    | inr (e, why) ↦ (s, none, [], ground (arith, e), refl, refl)
    | inl (f, e, p) ↦
        let frames = (pop api flow s.frames).1 in
        let empty : frames.retry_frames ≡ [] = pop-drop api flow s.frames ∙ r in
        elim (Generated_cases (gen_frame f s.send_buffer)) [
          | inl (b, size, g) ↦
              let next : Sending P E = record {
                frames = frames;
                send_buffer = b;
                serialized_frames = s.serialized_frames ++ (size % frame_size_size, f.sending) ∷ [];
              } in
              let (s', failed, lost, run, kept, one) =
                serialize_lem fuel next (ground (arith, h, p)) (ground (arith, empty)) in
              (
                s',
                failed,
                lost,
                ground (arith, e, g, run),
                kept
                    ∙ ground (
                      arith,
                      p,
                      serialized-append s.serialized_frames (size % frame_size_size, f.sending),
                      append_assoc (serialized s.serialized_frames) (f.sending ∷ [])
                          (queued (pending frames)),
                    ),
                one,
              )
          | inr (inl (b, g)) ↦ (
            record s {
              frames = retry f frames;
              send_buffer = rollback (checkpoint s.send_buffer) b;
            },
            none,
            [],
            ground (arith, e, g),
            ground (arith, p, empty),
            refl,
          )
          | inr (inr (b, k, g)) ↦ (
            record s { frames = frames; send_buffer = rollback (checkpoint s.send_buffer) b },
            some k,
            f.sending ∷ [],
            ground (arith, e, g),
            ground (arith, p),
            refl,
          )
        ]
  ]
