-- ===== src/NativeHost/Loop/Progress.antt =====
-- The loop of the host ends when it can, and not before.
mod Tests
use vguardrail.Base.{
  ◌≡◌, refl, sym, ◌∙◌, ap, arith, ℕ, zero, suc, ◌+◌, ◌-◌, ◌≤◌, ◌==◌, Bool, true, false, not, ◌&&◌,
  ◌||◌, Option, none, some, List, [], ◌∷◌, length, Outcome, ok, err,
}
use vguardrail.Json.{Json}
use vguardrail.Frame.{little, push, FrameError}
use vguardrail.NativeHost.{HostRequest, HostResponse}
use vguardrail.NativeHost.Loop.{
  Parsed, request, invalid, parse_request, Host, new_host, maybe_finish, dispatch_parsed,
  dispatch_all, on_end, decoded, on_data, on_settled, max_message_bytes,
}

-- The host never waits for nothing, finishes after the end of its input only, and has started a
-- handler for each that is in flight or has settled.
pub record IsProgressing (h : Host) : Type 0 where
  pub awake : (h.ended && (h.in_flight == 0 && not h.finished)) ≡ false
  pub open_until : (h.finished && not h.ended) ≡ false
  pub counted : length h.accepted ≡ h.in_flight + h.settled

awake_after : (e z f : Bool) → (e && (z && not (f || (e && z)))) ≡ false
awake_after true true true = refl
awake_after true true false = refl
awake_after true false f = refl
awake_after false z f = refl

open_after : (e z f : Bool) → (f && not e) ≡ false → ((f || (e && z)) && not e) ≡ false
open_after true z true h = refl
open_after true true false h = refl
open_after true false false h = refl
open_after false z true h = h
open_after false z false h = refl

finish-IsProgressing :
    (h : Host)
    → (h.finished && not h.ended) ≡ false
    → length h.accepted ≡ h.in_flight + h.settled
    → IsProgressing (maybe_finish h)
unfolding maybe_finish
finish-IsProgressing h opened counted = record {
  awake = awake_after h.ended (h.in_flight == 0) h.finished;
  open_until = open_after h.ended (h.in_flight == 0) h.finished opened;
  counted = counted;
}

busy : (e f : Bool) (n : ℕ) → (e && (n + 1 == 0 && not f)) ≡ false
busy e f n = ground arith

dispatch-IsProgressing :
    (p : Parsed) (h : Host) → IsProgressing h → IsProgressing (dispatch_parsed p h)
unfolding dispatch_parsed
dispatch-IsProgressing (invalid none) h p = p
dispatch-IsProgressing (invalid (some id)) h p = record {
  awake = p.awake;
  open_until = p.open_until;
  counted = p.counted;
}
dispatch-IsProgressing (request r) h p = record {
  awake = busy h.ended h.finished h.in_flight;
  open_until = p.open_until;
  counted = omega (arith, p.counted);
}

dispatch_all-IsProgressing :
    (messages : List Json) (h : Host) → IsProgressing h → IsProgressing (dispatch_all messages h)
unfolding dispatch_all
dispatch_all-IsProgressing [] h p = p
dispatch_all-IsProgressing (m ∷ messages) h p =
    dispatch_all-IsProgressing messages (dispatch_parsed (parse_request m) h)
      (dispatch-IsProgressing (parse_request m) h p)

not_open : (f : Bool) → (f && not true) ≡ false
not_open true = refl
not_open false = refl

on_end-IsProgressing : (h : Host) → IsProgressing h → IsProgressing (on_end h)
unfolding on_end
on_end-IsProgressing h p =
    finish-IsProgressing (record h { ended = true }) (not_open h.finished) p.counted

with_buffer :
    (h : Host) (rest : List ℕ) → IsProgressing h → IsProgressing (record h { buffer = rest })
with_buffer h rest p = record { awake = p.awake; open_until = p.open_until; counted = p.counted }

decoded-IsProgressing :
    (out : Outcome FrameError (List Json) × List ℕ) (h : Host)
    → IsProgressing h
    → IsProgressing (decoded out h)
unfolding decoded
decoded-IsProgressing (ok messages, rest) h p =
    dispatch_all-IsProgressing messages (record h { buffer = rest }) (with_buffer h rest p)
decoded-IsProgressing (err e, rest) h p =
    on_end-IsProgressing (record h { buffer = rest }) (with_buffer h rest p)

on_settled-IsProgressing :
    (o : Option HostResponse) (h : Host)
    → 1 ≤ h.in_flight
    → IsProgressing h
    → IsProgressing (on_settled o h)
unfolding on_settled
on_settled-IsProgressing none h some_left p =
    finish-IsProgressing (record h { in_flight = h.in_flight - 1; settled = h.settled + 1 })
      p.open_until (omega (arith, some_left, p.counted))
on_settled-IsProgressing (some reply) h some_left p =
    finish-IsProgressing
      (record h {
        in_flight = h.in_flight - 1;
        settled = h.settled + 1;
        written = reply ∷ h.written;
      })
      p.open_until (omega (arith, some_left, p.counted))

none_left : (s n i : ℕ) → n ≡ i + s → (s == n) ≡ (i == 0)
none_left s n i e = ground arith

module _ (parse : List ℕ → Option Json) where
  -- What can happen to a host: a handler settles only if one is in flight.
  pub data Step (h : Host) : Host → Type 0 where
    reads : (chunk : List ℕ) → Step h (on_data parse chunk h)
    ends : Step h (on_end h)
    settles : (reply : Option HostResponse) → 1 ≤ h.in_flight → Step h (on_settled reply h)

  pub data Reach (h : Host) : Host → Type 0 where
    here : Reach h h
    next : {k l : Host} → Reach h k → Step k l → Reach h l

  Step-IsProgressing : {h k : Host} → Step h k → IsProgressing h → IsProgressing k
  unfolding on_data
  Step-IsProgressing {h} (reads chunk) p =
      decoded-IsProgressing (push little max_message_bytes parse h.buffer chunk) h p
  Step-IsProgressing {h} ends p = on_end-IsProgressing h p
  Step-IsProgressing {h} (settles reply some_left) p = on_settled-IsProgressing reply h some_left p

  Reach-IsProgressing : {h k : Host} → Reach h k → IsProgressing h → IsProgressing k
  Reach-IsProgressing here p = p
  Reach-IsProgressing (next r s) p = Step-IsProgressing s (Reach-IsProgressing r p)

  -- Whatever the order of its events, a host whose input has ended and whose handlers have all
  -- settled has finished; and a host whose input has not ended has not.
  pub reached_finishes :
      {h : Host}
      → Reach new_host h
      → ((h.finished && not h.ended) ≡ false)
        × ((h.ended && (h.settled == length h.accepted && not h.finished)) ≡ false)
  reached_finishes {h} r =
      let p = Reach-IsProgressing r (record { awake = refl; open_until = refl; counted = refl }) in
      (
        p.open_until,
        ap (λ b. h.ended && (b && not h.finished))
              (none_left h.settled (length h.accepted) h.in_flight p.counted)
            ∙ p.awake,
      )
