-- ===== src/Payload.antt =====
-- src/channel.rs, `send_method_frame_with_body`: a publish as a method frame, a content header and
-- bodies of bounded size.
pub mod Chunks
use lapin.Base.{
  ℕ, zero, suc, ◌+◌, ◌-◌, max, Option, none, some, List, [], ◌∷◌, ◌++◌, map, length, take, drop,
}
use lapin.Frame.{
  ChannelId, PromiseId, AmqpClass, AmqpFrame, method, header, body, ContentHeader, Effect,
}
use lapin.Frames.{Frames, push_frames}

-- `payload.chunks(size)`: pieces of `size` elements, the last one shorter. A round takes at least
-- one element, so as many rounds as there are elements are enough.
chunks_of {ℓ} : {A : Type ℓ} → ℕ → ℕ → List A → List (List A)
chunks_of zero size xs = []
chunks_of (suc rounds) size [] = []
chunks_of (suc rounds) size (x ∷ xs) =
    take size (x ∷ xs) ∷ chunks_of rounds size (drop size (x ∷ xs))

unfoldable pub chunks {ℓ} : {A : Type ℓ} → ℕ → List A → List (List A)
unfolding chunks_of
chunks size xs = chunks_of (length xs) size xs

-- An empty body frame weighs 8 bytes, which the payload cannot use. `-` on the numbers stops at
-- 0, as `saturating_sub` does.
unfoldable pub chunk_size : ℕ → ℕ
chunk_size frame_max = max (frame_max - 8) 1

unfoldable pub content_frames :
    {P : Type 0} → ChannelId → ℕ → ℕ → AmqpClass P → List ℕ → P → List (AmqpFrame P)
unfolding chunks chunk_size
content_frames id frame_max class_id m payload properties =
    method id m
    ∷ header id
        (record { class_id = class_id; body_size = length payload; properties = properties })
    ∷ map (body id) (chunks (chunk_size frame_max) payload)

-- The frames go to the low priority queue, the promise of the call with the last of them.
unfoldable pub send_method_frame_with_body :
    {P E : Type 0}
    → ChannelId
    → ℕ
    → ℕ
    → AmqpClass P
    → List ℕ
    → P
    → PromiseId
    → Frames P E
    → Frames P E × List (Effect E)
unfolding content_frames
send_method_frame_with_body id frame_max class_id m payload properties resolver s =
    push_frames id (content_frames id frame_max class_id m payload properties) resolver s
