-- ===== src/Sdk/Bridge/Settles.antt =====
-- Whatever the helper, the callers and their signals do, each request is settled at most once, and by
-- the end of the connection.
use vguardrail.Base.{
  ◌≡◌, ℕ, String, Bool, true, false, not, ◌||◌, Option, none, some, List, [], ◌∷◌, Outcome, ok, err,
  Bool-cases, inl, inr, if◌then◌else◌,
}
use vguardrail.Base.Text.{str_eq}
use vguardrail.Json.{Json}
use vguardrail.Frame.{FrameError, big, push}
use vguardrail.Correlation.{named, awaits, settle_all}
use vguardrail.Correlation.Balance.{IsBalanced, settle_all-IsBalanced, empty-IsBalanced}
use vguardrail.Correlation.Moves.{done, status, status-settle}
use vguardrail.Correlation.Later.{
  Later, IsSound, IsSound-refl, IsSound-trans, refuse-IsSound, enter-IsSound, settle-IsSound,
  settle_all-IsSound, settle_all_done,
}
use vguardrail.Sdk.Errors.{Thrown, not_connected_error}
use vguardrail.Sdk.Bridge.{
  Transport, new_transport, Start, not_spawned, not_started, started, ReplyEnvelope, fail_all,
  close, on_exit, on_error, started_from, connect_from, connect, on_abort, on_write_error, send,
  request, dispatch_reply, dispatch_all, received, on_stdout, max_frame_bytes, frame_error,
  reply_id, reply_answer,
}

module _ (stringify : Json → List ℕ) (parse : List ℕ → Option Json)
    (parse_reply : Json → Option ReplyEnvelope) where
  -- What can happen to a transport; the ids are random, so that a new request has a new one.
  pub data Step (t : Transport) : Transport → Type 0 where
    connects : (helper : String) (start : Start) → Step t (connect helper start t).1
    requests :
        (id method : String) (params : Json) (exited fired : Bool)
        → named id t.book.issued ≡ false
        → Step t (request stringify parse parse_reply id method params exited fired t)
    aborts : (id method : String) → Step t (on_abort id method t)
    write_fails : (id method : String) → Step t (on_write_error id method t)
    reads : (chunk : List ℕ) → Step t (on_stdout stringify parse parse_reply chunk t)
    exits : (code : Option ℕ) (signal : Option String) → Step t (on_exit code signal t)
    errs : Step t (on_error t)
    closes : Step t (close t)

  pub data Reach (t : Transport) : Transport → Type 0 where
    here : Reach t t
    next : {u v : Transport} → Reach t u → Step u v → Reach t v

  abbrev SoundStep : Transport → Transport → Type 0
  SoundStep t u = IsSound t.book u.book

  connect_from-Sound :
      (running : Bool) (helper : String) (start : Start) (t : Transport)
      → SoundStep t (connect_from running helper start t).1
  unfolding connect_from started_from
  connect_from-Sound true helper start t = IsSound-refl t.book
  connect_from-Sound false helper not_spawned t = IsSound-refl t.book
  connect_from-Sound false helper not_started t = IsSound-refl t.book
  connect_from-Sound false helper started t = IsSound-refl t.book

  send-Sound :
      (id method : String) (fired : Bool) (frame : Outcome FrameError (List ℕ)) (t : Transport)
      → named id t.book.issued ≡ false
      → SoundStep t (send stringify parse parse_reply id method fired frame t)
  unfolding send
  send-Sound id method fired (err e) t fresh = refuse-IsSound id _ t.book fresh
  send-Sound id method true (ok frame) t fresh = refuse-IsSound id _ t.book fresh
  send-Sound id method false (ok frame) t fresh = enter-IsSound id t.book fresh

  request-Sound :
      (id method : String) (params : Json) (exited fired : Bool) (t : Transport)
      → named id t.book.issued ≡ false
      → SoundStep t (request stringify parse parse_reply id method params exited fired t)
  unfolding request
  request-Sound id method params exited fired t fresh =
      elim (Bool-cases (not t.running || exited)) [
        | inl down ↦ rw down (refuse-IsSound id _ t.book fresh)
        | inr up ↦ rw up (send-Sound id method fired _ t fresh)
      ]

  dispatch-Sound :
      (o : Option ReplyEnvelope) (t : Transport)
      → SoundStep t (dispatch_reply stringify parse parse_reply o t)
  unfolding dispatch_reply
  dispatch-Sound none t = IsSound-refl t.book
  dispatch-Sound (some r) t = settle-IsSound _ _ t.book

  dispatch_all-Sound :
      (frames : List Json) (t : Transport)
      → SoundStep t (dispatch_all stringify parse parse_reply frames t)
  unfolding dispatch_all
  dispatch_all-Sound [] t = IsSound-refl t.book
  dispatch_all-Sound (f ∷ frames) t =
      let t' = dispatch_reply stringify parse parse_reply (parse_reply f) t in
      IsSound-trans t.book t'.book _ (dispatch-Sound (parse_reply f) t)
        (dispatch_all-Sound frames t')

  fail_all-Sound : (e : Thrown) (t : Transport) → SoundStep t (fail_all e t)
  unfolding fail_all
  fail_all-Sound e t = settle_all-IsSound _ t.book

  close-Sound : (t : Transport) → SoundStep t (close t)
  unfolding close
  close-Sound t = fail_all-Sound _ (record t { running = false })

  received-Sound :
      (out : Outcome FrameError (List Json) × List ℕ) (t : Transport)
      → SoundStep t (received stringify parse parse_reply out t)
  unfolding received
  received-Sound (ok frames, rest) t = dispatch_all-Sound frames (record t { buffer = rest })
  received-Sound (err e, rest) t =
      let u = fail_all (frame_error e) (record t { buffer = rest }) in
      IsSound-trans t.book u.book _ (fail_all-Sound _ (record t { buffer = rest })) (close-Sound u)

  Step-IsSound : {t u : Transport} → Step t u → SoundStep t u
  unfolding connect on_stdout on_exit on_error on_abort on_write_error
  Step-IsSound {t} (connects helper start) = connect_from-Sound t.running helper start t
  Step-IsSound {t} (requests id method params exited fired fresh) =
      request-Sound id method params exited fired t fresh
  Step-IsSound {t} (aborts id method) = settle-IsSound id _ t.book
  Step-IsSound {t} (write_fails id method) = settle-IsSound id _ t.book
  Step-IsSound {t} (reads chunk) = received-Sound (push big max_frame_bytes parse t.buffer chunk) t
  Step-IsSound {t} (exits code signal) = fail_all-Sound _ (record t { running = false })
  Step-IsSound {t} errs = fail_all-Sound _ t
  Step-IsSound {t} closes = close-Sound t

  Reach-IsSound : {t u : Transport} → Reach t u → SoundStep t u
  Reach-IsSound {t} here = IsSound-refl t.book
  Reach-IsSound {t} {u} (next {v} r s) =
      IsSound-trans t.book _ u.book (Reach-IsSound r) (Step-IsSound s)

  pub reached-IsBalanced : {t : Transport} → Reach new_transport t → IsBalanced t.book
  reached-IsBalanced r = (Reach-IsSound r).balanced empty-IsBalanced

  -- Whatever happens from the start of a transport on, a request that was made waits or is settled,
  -- but not both; and in whatever happens after that, one that is settled keeps its answer, and one
  -- that waits waits still or is settled.
  pub reached_final :
      {t u : Transport}
      → Reach new_transport t
      → Reach t u
      → IsBalanced t.book × ((id : String) → Later (status id t.book) (status id u.book))
  reached_final r q = (reached-IsBalanced r, (Reach-IsSound q).follows (reached-IsBalanced r))

  -- The ends of a connection: the helper exits or errs, the client closes the transport, or the
  -- helper's stream cannot be decoded.
  pub data Ends (t : Transport) : Transport → Type 0 where
    by_exit : (code : Option ℕ) (signal : Option String) → Ends t (on_exit code signal t)
    by_error : Ends t (on_error t)
    by_close : Ends t (close t)
    by_corruption :
        (chunk : List ℕ) (e : FrameError) (rest : List ℕ)
        → push big max_frame_bytes parse t.buffer chunk ≡ (err e, rest)
        → Ends t (on_stdout stringify parse parse_reply chunk t)

  ended_done :
      {t u : Transport} (id : String)
      → IsBalanced t.book
      → named id t.book.issued ≡ true
      → Ends t u
      → (r : Outcome Thrown Json) × (status id u.book ≡ done r)
  unfolding on_exit on_error close fail_all on_stdout received settle_all
  ended_done {t} id h made (by_exit code signal) = settle_all_done _ t.book id h made
  ended_done {t} id h made by_error = settle_all_done _ t.book id h made
  ended_done {t} id h made by_close = settle_all_done _ t.book id h made
  ended_done {t} id h made (by_corruption chunk e rest bad) = rw bad (
      settle_all_done (λ j. err (not_connected_error "transport closed"))
        (settle_all (λ j. err (frame_error e)) t.book) id
        (settle_all-IsBalanced (λ j. err (frame_error e)) t.book h) made)

  -- Every request that was made before a connection ends is settled when it has ended: none is left
  -- waiting for ever.
  pub reached_settled :
      {t u : Transport}
      → Reach new_transport t
      → Ends t u
      → (id : String) → named id t.book.issued ≡ true
      → (r : Outcome Thrown Json) × (status id u.book ≡ done r)
  reached_settled r end id made = ended_done id (reached-IsBalanced r) made end

  -- A reply settles the request of its id with what it says, if that waits, and no other.
  pub dispatch_reply_lem :
      (t : Transport) (r : ReplyEnvelope) (id : String)
      → status id (dispatch_reply stringify parse parse_reply (some r) t).book ≡ (
          if awaits (reply_id r) t.book
          then (if str_eq (reply_id r) id then done (reply_answer r) else status id t.book)
          else status id t.book)
  unfolding dispatch_reply
  dispatch_reply_lem t r id = status-settle (reply_id r) (reply_answer r) t.book id
