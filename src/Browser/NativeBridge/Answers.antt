-- ===== src/Browser/NativeBridge/Answers.antt =====
-- Each request of the extension is answered, at most once, and by a response of its own id.
use vguardrail.Base.{
  ◌≡◌, refl, String, Bool, true, false, Option, none, some, List, [], ◌∷◌, ◌++◌, map, Bool-cases,
  inl, inr, All,
}
use vguardrail.Correlation.{Book, named, awaits, settle, settle_all, refuse, enter}
use vguardrail.Correlation.Balance.{IsBalanced, empty-IsBalanced}
use vguardrail.Correlation.Moves.{done, status}
use vguardrail.Correlation.Later.{
  Later, IsSound, IsSound-refl, IsSound-trans, refuse-IsSound, enter-IsSound, settle-IsSound,
  settle_all-IsSound, settle_all_done, settle_done,
}
use vguardrail.Browser.NativeBridge.{
  NativeResponse, error_response, response_id, NativeBridge, new_bridge, post, request_on, request,
  on_timeout, on_message, on_disconnect,
}

-- What can happen to a bridge; the ids are random, so that a new request has a new one.
pub data Step (b : NativeBridge) : NativeBridge → Type 0 where
  requests :
      (connects posts : Bool) (id : String)
      → named id b.book.issued ≡ false
      → Step b (request connects posts id b)
  times_out : (id : String) → Step b (on_timeout id b)
  receives : (message : Option NativeResponse) → Step b (on_message message b)
  disconnects : Step b (on_disconnect b)

pub data Reach (b : NativeBridge) : NativeBridge → Type 0 where
  here : Reach b b
  next : {c d : NativeBridge} → Reach b c → Step c d → Reach b d

-- Every promise that is settled has a response of its own id.
abbrev Fits : String × NativeResponse → Type 0
Fits (id, r) = response_id r ≡ id

abbrev IsAnswered : NativeBridge → Type 0
IsAnswered b = All Fits b.book.settled

abbrev SoundStep : NativeBridge → NativeBridge → Type 0
SoundStep b c = IsSound b.book c.book × (IsAnswered b → IsAnswered c)

settle-Fits :
    (id : String) (r : NativeResponse) (b : Book NativeResponse)
    → response_id r ≡ id
    → All Fits b.settled
    → All Fits (settle id r b).settled
unfolding settle
settle-Fits id r b e h = elim (Bool-cases (awaits id b)) [
  | inl there ↦ rw there (e, h)
  | inr absent ↦ rw absent h
]

map-Fits :
    (answer : String → NativeResponse) (ids : List String) (rest : List (String × NativeResponse))
    → ((id : String) → response_id (answer id) ≡ id)
    → All Fits rest
    → All Fits (map (λ i. (i, answer i)) ids ++ rest)
map-Fits answer [] rest own h = h
map-Fits answer (i ∷ ids) rest own h = (own i, map-Fits answer ids rest own h)

post-Sound :
    (posts : Bool) (id : String) (b : NativeBridge)
    → named id b.book.issued ≡ false
    → SoundStep b (post posts id b)
unfolding post enter
post-Sound true id b fresh = (enter-IsSound id b.book fresh, λ h. h)
post-Sound false id b fresh = (
  IsSound-trans b.book (enter id b.book) _ (enter-IsSound id b.book fresh)
      (settle-IsSound id _ (enter id b.book)),
  λ h. settle-Fits id _ (enter id b.book) refl h,
)

request_on-Sound :
    (port posts : Bool) (id : String) (b : NativeBridge)
    → named id b.book.issued ≡ false
    → SoundStep b (request_on port posts id b)
unfolding request_on refuse
request_on-Sound true posts id b fresh = post-Sound posts id (record b { has_port = true }) fresh
request_on-Sound false posts id b fresh = (refuse-IsSound id _ b.book fresh, λ h. (refl, h))

on_message-Sound : (o : Option NativeResponse) (b : NativeBridge) → SoundStep b (on_message o b)
unfolding on_message
on_message-Sound none b = (IsSound-refl b.book, λ h. h)
on_message-Sound (some r) b =
    (settle-IsSound (response_id r) r b.book, λ h. settle-Fits (response_id r) r b.book refl h)

Step-Sound : {b c : NativeBridge} → Step b c → SoundStep b c
unfolding request on_timeout on_disconnect settle_all
Step-Sound {b} (requests connects posts id fresh) = request_on-Sound _ posts id b fresh
Step-Sound {b} (times_out id) = (settle-IsSound id _ b.book, λ h. settle-Fits id _ b.book refl h)
Step-Sound {b} (receives message) = on_message-Sound message b
Step-Sound {b} disconnects = (
  settle_all-IsSound _ b.book,
  λ h.
      map-Fits (λ id. error_response id "DISCONNECT" "native host disconnected") b.book.waiting
        b.book.settled (λ id. refl) h,
)

Reach-Sound : {b c : NativeBridge} → Reach b c → SoundStep b c
Reach-Sound {b} here = (IsSound-refl b.book, λ h. h)
Reach-Sound {b} (next {c} {d} r s) =
    let first = Reach-Sound r in
    let second = Step-Sound s in
    (IsSound-trans b.book c.book d.book (first.0) (second.0), λ h. second.1 (first.1 h))

-- Whatever happens from the start of a bridge on: a request that was made waits or is settled, but
-- not both; what it was settled with is a response of its own id; and it stays so in whatever
-- happens after that.
pub reached_answers :
    {b c : NativeBridge}
    → Reach new_bridge b
    → Reach b c
    → IsBalanced b.book
      × All (λ (e : String × NativeResponse). response_id e.1 ≡ e.0) b.book.settled
      × ((id : String) → Later (status id b.book) (status id c.book))
reached_answers r q =
    let before = Reach-Sound r in
    let balanced = before.0.balanced empty-IsBalanced in
    (balanced, before.1 tt, (Reach-Sound q).0.follows balanced)

-- A request that was made is settled when its timer has fired, and so is every request when the
-- port has disconnected: none waits for ever.
pub reached_settles :
    {b : NativeBridge}
    → Reach new_bridge b
    → (id : String) → named id b.book.issued ≡ true
    → ((r : NativeResponse) × (status id (on_timeout id b).book ≡ done r))
      × ((r : NativeResponse) × (status id (on_disconnect b).book ≡ done r))
unfolding on_timeout on_disconnect
reached_settles {b} r id made =
    let balanced = (Reach-Sound r).0.balanced empty-IsBalanced in
    (settle_done id _ b.book balanced made, settle_all_done _ b.book id balanced made)
