-- ===== src/Requests/Answered.antt =====
-- Which request an answer goes to.
use lapin.Base.{
  ℕ, String, Bool, true, not, ◌≡◌, refl, ◌∙◌, ◌⊎◌, inl, inr, Option, none, some, List, [], ◌∷◌,
  ◌++◌, arith, is_some, retain, ℕ_discrete, Bool-cases, Option-cases, append-nil, if◌then◌else◌,
}
use lapin.Base.Dict
use lapin.Frame.{PromiseId, AmqpFrame, AmqpClass, Reply, other, ExpectedReply, Answer}
use lapin.Acker.{ok}
use lapin.ChannelStatus.{ChannelStatus}
use lapin.Frames.{check_poison}
use lapin.Frames.Expected.{expected_on, push-expected_on}
use lapin.Frames.Replies.{take_first, find_expected_reply}
use lapin.Channel.{Protocol, Channel, wake}
use lapin.Requests.{Handler, request, receive, guarded, send_method_frame, found, reply_handler}

-- Taking the first takes the head of those that pass, and leaves those that do not.
take_first_lem :
    {A : Type 0} (p : A → Bool) (xs : List A)
    → ((take_first p xs ≡ none) × (retain p xs ≡ []))
      ⊎ ((y : A) × (ys : List A) × (take_first p xs ≡ some (y, ys))
          × (p y ≡ true)
          × (retain p xs ≡ y ∷ retain p ys)
          × (retain (λ x. not (p x)) ys ≡ retain (λ x. not (p x)) xs))
unfolding take_first
take_first_lem p [] = inl (refl, refl)
take_first_lem p (x ∷ xs) = elim (Bool-cases (p x)) [
  | inl e ↦ inr (x, xs, ground (arith, e), e, ground (arith, e), ground (arith, e))
  | inr e ↦ elim (take_first_lem p xs) [
    | inl (t, w) ↦ inl (ground (arith, e, t), ground (arith, e, w))
    | inr (y, ys, t, h, w, o) ↦
        inr (y, x ∷ ys, ground (arith, e, t), h, ground (arith, e, w), ground (arith, e, o))
  ]
]

retain-append :
    {A : Type 0} (p : A → Bool) (xs : List A) (y : A)
    → retain p (xs ++ y ∷ []) ≡ retain p xs ++ (if p y then y ∷ [] else [])
retain-append p [] y = ground arith
retain-append p (x ∷ xs) y = elim (Bool-cases (p x)) [
  | inl e ↦ ground (arith, e, retain-append p xs y)
  | inr e ↦ ground (arith, e, retain-append p xs y)
]

cons_cases : {A : Type 0} (xs : List A) (y : A) → (x : A) × (ws : List A) × (xs ++ y ∷ [] ≡ x ∷ ws)
cons_cases [] y = (y, [], refl)
cons_cases (x ∷ xs) y = (x, xs ++ y ∷ [], refl)

module _ {P K : Type 0} where
  abbrev pub answers : (Reply P → Option (Handler P K)) → ExpectedReply P → Bool
  answers handler r = is_some (handler r.reply)

  -- Whoever waits for a kind of answer on a channel, oldest first.
  unfoldable pub waiting :
      (Reply P → Option (Handler P K)) → Channel P P P K → List (ExpectedReply P)
  waiting handler ch = retain (answers handler) (expected_on ch.id ch.frames)

  unfoldable pub waiting_else :
      (Reply P → Option (Handler P K)) → Channel P P P K → List (ExpectedReply P)
  waiting_else handler ch = retain (λ r. not (answers handler r)) (expected_on ch.id ch.frames)

  -- The oldest that waits, if there is one, gets the answer.
  receive_lem :
      (handler : Reply P → Option (Handler P K)) (ready : ChannelStatus P K → Bool)
      (context : String) (api : Protocol K) (class_id method_id : ℕ) (ch : Channel P P P K)
      (r : ExpectedReply P) (ws : List (ExpectedReply P))
      → ready ch.status ≡ true
      → waiting handler ch ≡ r ∷ ws
      → (h : Handler P K) × (ch' : Channel P P P K) × (handler r.reply ≡ some h)
        × (receive ready context api class_id method_id handler ch ≡ h ch')
        × (waiting handler ch' ≡ ws)
        × (waiting_else handler ch' ≡ waiting_else handler ch)
  unfolding receive guarded found reply_handler find_expected_reply waiting waiting_else
  receive_lem handler ready context api class_id method_id ch r ws g w =
      elim (Option-cases (Dict.get ℕ_discrete ch.id ch.frames.expected_replies)) [
        | inl n ↦ ground (arith, n, w)
        | inr (rs, e) ↦ elim (take_first_lem (answers handler) rs) [
          | inl (t, none_left) ↦ ground (arith, e, w, none_left)
          | inr (y, ys, t, hy, wy, o) ↦ elim (Option-cases (handler y.reply)) [
            | inl n ↦ ground (arith, n, hy)
            | inr (h, s) ↦
                let put = Dict.get-insert ℕ_discrete ch.id ch.id ys ch.frames.expected_replies in
                (
                  h,
                  record ch {
                    frames = record ch.frames {
                      expected_replies = Dict.insert ℕ_discrete ch.id ys ch.frames.expected_replies;
                    };
                  },
                  ground (arith, e, w, wy, s),
                  ground (arith, g, e, t, s),
                  ground (arith, put, e, w, wy),
                  ground (arith, put, e, o),
                )
          ]
        ]
      ]

  -- What a request leaves: the others that wait as they were, and its own reply behind them.
  request_lem :
      (handler : Reply P → Option (Handler P K)) (ready : ChannelStatus P K → Bool)
      (context : String) (m : AmqpClass P) (answer : Answer P) (promise : PromiseId)
      (ch : Channel P P P K) (h : Handler P K)
      → ready ch.status ≡ true
      → check_poison ch.id ch.frames ≡ none
      → handler (other answer) ≡ some h
      → let (sent, effects, res) = request ready context m answer promise ch in
        (effects ≡ wake ∷ [])
        × (res ≡ ok promise)
        × (sent.status ≡ ch.status)
        × (waiting handler sent
            ≡ waiting handler ch ++ record { reply = other answer; canceler = promise } ∷ [])
        × (waiting_else handler sent ≡ waiting_else handler ch)
  unfolding request send_method_frame waiting waiting_else
  request_lem handler ready context m answer promise ch h g n e =
      let new : ExpectedReply P = record { reply = other answer; canceler = promise } in
      let (put, quiet) =
        push-expected_on ch.id (AmqpFrame.method ch.id m) promise new none ch.frames n in
      let p = answers handler in
      let rs = expected_on ch.id ch.frames in
      (
        ground (arith, g, quiet),
        ground (arith, g),
        ground (arith, g),
        ground (arith, g, put, e, retain-append p rs new),
        ground (
          arith,
          g,
          put,
          e,
          retain-append (λ r. not (p r)) rs new,
          append-nil (retain (λ r. not (p r)) rs),
        ),
      )

  -- A request goes behind those of its kind on its channel, which is ready and not poisoned, and the
  -- next answer of that kind is handled as that of the oldest of them; those that are left wait in
  -- order, and so do the requests of other kinds.
  pub receive-request :
      (handler : Reply P → Option (Handler P K)) (ready able : ChannelStatus P K → Bool)
      (context received : String) (api : Protocol K) (class_id method_id : ℕ) (m : AmqpClass P)
      (answer : Answer P) (promise : PromiseId) (ch : Channel P P P K) (own : Handler P K)
      → ready ch.status ≡ true
      → able ch.status ≡ true
      → check_poison ch.id ch.frames ≡ none
      → handler (other answer) ≡ some own
      → let new : ExpectedReply P = record { reply = other answer; canceler = promise } in
        let (sent, effects, res) = request ready context m answer promise ch in
        (effects ≡ wake ∷ [])
        × (res ≡ ok promise)
        × (r : ExpectedReply P) × (ws : List (ExpectedReply P)) × (h : Handler P K) × (ch' : Channel
            P P P K)
        × (waiting handler ch ++ new ∷ [] ≡ r ∷ ws)
        × (handler r.reply ≡ some h)
        × (receive able received api class_id method_id handler sent ≡ h ch')
        × (waiting handler ch' ≡ ws)
        × (waiting_else handler ch' ≡ waiting_else handler ch)
  receive-request handler ready able context received api class_id method_id m answer promise ch own
        g a n e =
      let new : ExpectedReply P = record { reply = other answer; canceler = promise } in
      let sent = (request ready context m answer promise ch).0 in
      let (quiet, out, same, w, kept) =
        request_lem handler ready context m answer promise ch own g n e in
      let (r, ws, c) = cons_cases (waiting handler ch) new in
      let (h, ch', f, run, left, others) =
        receive_lem handler able received api class_id method_id sent r ws (ground (arith, same, a))
          (w ∙ c) in
      (quiet, out, r, ws, h, ch', c, f, run, left, others ∙ kept)
