-- ===== src/Sdk/Client/Submit.antt =====
-- A prompt is submitted at most once.
use vguardrail.Base.Text.{str_eq}
use vguardrail.Base.{
  if◌then◌else◌, ok, ℕ, ◌+◌, ◌≤◌, ◌≡◌, true, Option, none, some, String, Outcome, err, Act, Leads,
  >>=-Leads, arith,
}
use native.Mathlib.Nat.{le_trans, le_refl}
use vguardrail.Json.{Json}
use vguardrail.Sdk.Errors.{Thrown, not_connected_error}
use vguardrail.Sdk.Deadline.{with_timeout}
use vguardrail.Sdk.Retry.{backoff_delay, pause}
use vguardrail.Sdk.Retry.Runs.{with_retry-keeps, with_retry-at_most_once}
use vguardrail.Sdk.ScanRequest.{ScanRequest}
use vguardrail.Sdk.Version.{NegotiatedVersion}
use vguardrail.Sdk.Client.{
  Deps, Client, on_world, throw_or, RetryClass, read, write, is_write_retryable, retry_options,
  retryable_in, attempt, invoke, handshake, connect, connect_from, ensure_from, ensure_connected,
  ask, scan,
}

-- A count of submissions that a request to submit raises by at most one, and not at all where the
-- transport throws that it is not connected; nothing else raises it.
pub record CountsSubmits {S : Type 0} (deps : Deps S) (submitted : S → ℕ) : Type 0 where
  pub once : (p : Json) (s : S) → submitted (deps.request "submitScan" p s).2 ≤ submitted s + 1
  pub unsent :
      (p : Json) (s : S) (m : String)
      → (deps.request "submitScan" p s).1 ≡ err (not_connected_error m)
      → submitted (deps.request "submitScan" p s).2 ≤ submitted s
  pub hello_free : (p : Json) (s : S) → submitted (deps.request "hello" p s).2 ≤ submitted s
  pub connect_free : (s : S) → submitted (deps.connect_transport s).1 ≤ submitted s
  pub abort_free : (s : S) → submitted (deps.abort s) ≤ submitted s
  pub uuid_free : (s : S) → submitted (deps.random_uuid s).1 ≤ submitted s
  pub now_free : (s : S) → submitted (deps.now_ms s).1 ≤ submitted s
  pub draw_free : (cap : ℕ) (s : S) → submitted (deps.draw cap s).1 ≤ submitted s
  pub sleep_free : (ms : ℕ) (s : S) → submitted (deps.sleep ms s) ≤ submitted s

module _ {S : Type 0} (deps : Deps S) (submitted : S → ℕ) (c : CountsSubmits deps submitted) where
  attempt-once :
      (p : Json) (i : ℕ) (s : S) → submitted (attempt deps "submitScan" p i s).1 ≤ submitted s + 1
  unfolding attempt with_timeout
  attempt-once p i s = ground (arith, c.once p s, c.abort_free (deps.request "submitScan" p s).2)

  attempt-unsent :
      (p : Json) (i : ℕ) (s t : S) (e : Thrown)
      → attempt deps "submitScan" p i s ≡ (err e, t)
      → (retry_options deps write).is_retryable e ≡ true
      → submitted t ≤ submitted s
  unfolding attempt with_timeout retry_options retryable_in is_write_retryable
  attempt-unsent p i s t (not_connected_error m) h w = ground (arith, c.unsent p s m)
  attempt-unsent p i s t _ h w = cc

  -- `pause` does not look at the operation that it separates.
  pause-free :
      (op : ℕ → Act Thrown S Json) (class : RetryClass) (i : ℕ) (e : Thrown) (s : S)
      → submitted (pause op (retry_options deps class) i e s) ≤ submitted s
  unfolding pause backoff_delay retry_options
  pause-free op class i e s = le_trans (c.sleep_free _ _) (c.draw_free _ s)

  invoke-once :
      (p : Json) (s : S) → submitted (invoke deps "submitScan" p write s).1 ≤ submitted s + 1
  unfolding invoke
  invoke-once p s =
      with_retry-at_most_once (attempt deps "submitScan" p) (retry_options deps write) submitted
        (attempt-once p) (pause-free _ write) (attempt-unsent p) s

  -- The count stays below a bound.
  abbrev Below : ℕ → Client S → Type 0
  Below k d = submitted d.world ≤ k

  attempt-hello :
      (p : Json) (i : ℕ) (s : S) → submitted (attempt deps "hello" p i s).1 ≤ submitted s
  unfolding attempt with_timeout
  attempt-hello p i s = ground (arith, c.hello_free p s, c.abort_free (deps.request "hello" p s).2)

  invoke-hello : (p : Json) (s : S) → submitted (invoke deps "hello" p read s).1 ≤ submitted s
  unfolding invoke
  invoke-hello p s =
      with_retry-keeps (attempt deps "hello" p) (retry_options deps read)
        (λ t. submitted t ≤ submitted s) (λ i t h. le_trans (attempt-hello p i t) h)
        (λ i e t h. le_trans (pause-free _ read i e t) h) s (le_refl _)

  on_world-Leads :
      {A : Type 0} (j k : ℕ) (m : Act Thrown S A)
      → ((s : S) → submitted s ≤ j → submitted (m s).1 ≤ k)
      → Leads (Below j) (Below k) (on_world deps m)
  on_world-Leads j k m h = record { apply = λ d x. h d.world x }

  throw_or-Leads :
      {A : Type 0} (k : ℕ) (r : Outcome Thrown A) → Leads (Below k) (Below k) (throw_or deps r)
  throw_or-Leads k r = record { apply = λ d x. x }

  handshake-Leads : (k : ℕ) → Leads (Below k) (Below k) (handshake deps)
  unfolding handshake
  handshake-Leads k =
      >>=-Leads (on_world-Leads k k deps.connect_transport (λ s h. le_trans (c.connect_free s) h))
        (λ e x. x)
        (λ _.
          >>=-Leads (on_world-Leads k k _ (λ s h. le_trans (invoke-hello _ s) h)) (λ e x. x)
            (λ r. >>=-Leads (throw_or-Leads k _) (λ e x. x) (λ v. record { apply = λ d x. x })))

  connect_from-Leads :
      (o : Option NegotiatedVersion) (k : ℕ) → Leads (Below k) (Below k) (connect_from deps o)
  unfolding connect_from
  connect_from-Leads (some v) k = record { apply = λ d x. x }
  connect_from-Leads none k = handshake-Leads k

  connect-Leads : (k : ℕ) → Leads (Below k) (Below k) (connect deps)
  unfolding connect
  connect-Leads k = record { apply = λ d x. (connect_from-Leads d.negotiated k).apply d x }

  ensure_from-Leads :
      (o : Option NegotiatedVersion) (k : ℕ) → Leads (Below k) (Below k) (ensure_from deps o)
  unfolding ensure_from
  ensure_from-Leads (some v) k = record { apply = λ d x. x }
  ensure_from-Leads none k =
      >>=-Leads (connect-Leads k) (λ e x. x) (λ v. record { apply = λ d x. x })

  ensure_connected-Leads : (k : ℕ) → Leads (Below k) (Below k) (ensure_connected deps)
  unfolding ensure_connected
  ensure_connected-Leads k = record { apply = λ d x. (ensure_from-Leads d.negotiated k).apply d x }

  ask-Leads :
      {A : Type 0} (k : ℕ) (f : S → A × S)
      → ((s : S) → submitted (f s).1 ≤ submitted s)
      → Leads (Below k) (Below k) (ask deps f)
  ask-Leads k f h = record { apply = λ d x. le_trans (h d.world) x }

  raise : (k : ℕ) (d : Client S) → Below k d → Below (k + 1) d
  raise k d h = omega (arith, h)

  scan-Leads : (request : ScanRequest) (k : ℕ) → Leads (Below k) (Below (k + 1)) (scan deps request)
  unfolding scan
  scan-Leads request k = >>=-Leads (ensure_connected-Leads k) (raise k) (λ _.
      >>=-Leads (ask-Leads k deps.random_uuid c.uuid_free) (raise k) (λ id.
        >>=-Leads (ask-Leads k deps.now_ms c.now_free) (raise k) (λ started.
          >>=-Leads
            (on_world-Leads k (k + 1) _ (λ s h. le_trans (invoke-once _ s) (omega (arith, h))))
            (λ e x. x)
            (λ r.
              >>=-Leads (ask-Leads (k + 1) deps.now_ms c.now_free) (λ e x. x)
                (λ now.
                  >>=-Leads (throw_or-Leads (k + 1) _) (λ e x. x)
                    (λ decision. record { apply = λ d x. x }))))))

  scan-once :
      (request : ScanRequest) (d : Client S)
      → submitted (scan deps request d).1.world ≤ submitted d.world + 1
  scan-once request d = (scan-Leads request (submitted d.world)).apply d (le_refl _)

-- What a submission adds to the tally, by how it ends.
unfoldable pub tally_of : Outcome Thrown Json → ℕ → ℕ
tally_of (err (not_connected_error m)) n = n
tally_of (err _) n = n + 1
tally_of (ok v) n = n + 1

-- The same dependencies, beside a tally of the requests to submit a prompt that end in any other way
-- than with `NotConnectedError`.
unfoldable pub tallied : {S : Type 0} → Deps S → Deps (S × ℕ)
unfolding tally_of
tallied deps = record {
  connect_transport = λ p. let (r, s) = deps.connect_transport p.0 in (r, (s, p.1));
  request = λ method params p.
      let (ms, out, s) = deps.request method params p.0 in
      (ms, out, (s, if str_eq method "submitScan" then tally_of out p.1 else p.1));
  abort = λ p. (deps.abort p.0, p.1);
  close_transport = λ p. (deps.close_transport p.0, p.1);
  random_uuid = λ p. let (id, s) = deps.random_uuid p.0 in (id, (s, p.1));
  now_ms = λ p. let (t, s) = deps.now_ms p.0 in (t, (s, p.1));
  draw = λ cap p. let (x, s) = deps.draw cap p.0 in (x, (s, p.1));
  sleep = λ ms p. (deps.sleep ms p.0, p.1);
  parse_hello = deps.parse_hello;
  parse_decision = deps.parse_decision;
  timeout_ms = deps.timeout_ms;
  retry = deps.retry;
}

tally_once : (out : Outcome Thrown Json) (n : ℕ) → tally_of out n ≤ n + 1
unfolding tally_of
tally_once (ok v) n = omega arith
tally_once (err (not_connected_error m)) n = omega arith
tally_once (err e) n = omega arith

tally_unsent :
    (out : Outcome Thrown Json) (n : ℕ) (m : String)
    → out ≡ err (not_connected_error m)
    → tally_of out n ≤ n
unfolding tally_of
tally_unsent out n m h = rw h (le_refl n)

tallied-CountsSubmits :
    {S : Type 0} (deps : Deps S) → CountsSubmits (tallied deps) (λ (p : S × ℕ). p.1)
unfolding tallied
tallied-CountsSubmits deps = record {
  once = λ p s. tally_once (deps.request "submitScan" p s.0).1 s.1;
  unsent = λ p s m h. tally_unsent (deps.request "submitScan" p s.0).1 s.1 m h;
  hello_free = λ p s. le_refl s.1;
  connect_free = λ s. le_refl s.1;
  abort_free = λ s. le_refl s.1;
  uuid_free = λ s. le_refl s.1;
  now_free = λ s. le_refl s.1;
  draw_free = λ cap s. le_refl s.1;
  sleep_free = λ ms s. le_refl s.1;
}

-- Of all requests to submit the prompt that one `scan` sends, whatever the transport does and however
-- often it is connected and tried again, at most one ends in any other way than with
-- `NotConnectedError`.
pub scan-at_most_once :
    {S : Type 0} (deps : Deps S) (request : ScanRequest) (d : Client (S × ℕ))
    → (scan (tallied deps) request d).1.world.1 ≤ d.world.1 + 1
scan-at_most_once deps request d =
    scan-once (tallied deps) (λ p. p.1) (tallied-CountsSubmits deps) request d
