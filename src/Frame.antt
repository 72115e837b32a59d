-- ===== src/Frame.antt =====
-- Length-prefixed framing: connector-sdk/src/protocol/envelope.ts (big-endian, 8 MiB) and
-- browser-connectors/chrome/native-host/src/framing.ts (little-endian, 1 MiB) are one scheme with a
-- byte order and a cap. A byte is a number. `stringify` is `JSON.stringify` followed by UTF-8
-- encoding, and `parse` the way back; `none` is a body that is no JSON.
mod Loop
pub mod Chunks
pub mod RoundTrip
mod Tests
use vguardrail.Base.{
  ℕ, zero, suc, ◌+◌, ◌*◌, ◌/◌, ◌%◌, ◌^◌, Option, none, some, List, [], ◌∷◌, ◌++◌, ltb,
  if◌then◌else◌, length, take, drop, Outcome, ok, err,
}

pub data ByteOrder : Type 0 where
  big little : ByteOrder

-- `Buffer.writeUInt32BE` and `writeUInt32LE`
unfoldable pub write_u32 : ByteOrder → ℕ → List ℕ
write_u32 big n = n / 2 ^ 24 ∷ n / 2 ^ 16 % 256 ∷ n / 2 ^ 8 % 256 ∷ n % 256 ∷ []
write_u32 little n = n % 256 ∷ n / 2 ^ 8 % 256 ∷ n / 2 ^ 16 % 256 ∷ n / 2 ^ 24 ∷ []

-- `Buffer.readUInt32BE(0)` and `readUInt32LE(0)`; the callers see to it that four bytes are there.
unfoldable pub read_u32 : ByteOrder → List ℕ → ℕ
read_u32 big (a ∷ b ∷ c ∷ d ∷ _) = a * 2 ^ 24 + b * 2 ^ 16 + c * 2 ^ 8 + d
read_u32 little (a ∷ b ∷ c ∷ d ∷ _) = a + b * 2 ^ 8 + c * 2 ^ 16 + d * 2 ^ 24
read_u32 _ _ = 0

-- What `push` and the encoders throw.
pub data FrameError : Type 0 where
  outgoing_too_long incoming_too_long not_json : FrameError

module _ {V : Type 0} where
  -- Values decoded before the rest of a run.
  abbrev pub prepend :
      List V → Outcome FrameError (List V) × List ℕ → Outcome FrameError (List V) × List ℕ
  prepend vs (ok ws, rest) = (ok (vs ++ ws), rest)
  prepend vs (err e, rest) = (err e, rest)

  -- A call of `push` and those after it; an error ends them.
  abbrev pub continue :
      Outcome FrameError (List V) × List ℕ
      → (List ℕ → Outcome FrameError (List V) × List ℕ)
      → Outcome FrameError (List V) × List ℕ
  continue (ok vs, rest) next = prepend vs (next rest)
  continue (err e, rest) next = (err e, rest)

module _ {V : Type 0} (order : ByteOrder) (cap : ℕ) (stringify : V → List ℕ) where
  -- `encodeFrame` and `encodeMessage`
  unfoldable pub encode : V → Outcome FrameError (List ℕ)
  encode value =
      let body = stringify value in
      if ltb cap (length body)
      then err outgoing_too_long
      else ok (write_u32 order (length body) ++ body)

module _ {V : Type 0} (order : ByteOrder) (cap : ℕ) (parse : List ℕ → Option V) where
  -- The `while` loop of `push` on the buffer: the values, or what is thrown, and the buffer left.
  pub drain : ℕ → List ℕ → Outcome FrameError (List V) × List ℕ
  drain zero buffer = (ok [], buffer)
  drain (suc fuel) buffer =
      let size = read_u32 order buffer in
      if ltb (length buffer) 4
      then (ok [], buffer)
      else if ltb cap size
      then (err incoming_too_long, buffer)
      else if ltb (length buffer) (4 + size)
      then (ok [], buffer)
      else elim (parse (take size (drop 4 buffer))) [
        | none ↦ (err not_json, drop (4 + size) buffer)
        | some value ↦ prepend (value ∷ []) (drain fuel (drop (4 + size) buffer))
      ]

  -- `push`: a frame takes at least four bytes, so that the length of the buffer is enough fuel.
  pub push : List ℕ → List ℕ → Outcome FrameError (List V) × List ℕ
  push buffer chunk = drain (length (buffer ++ chunk)) (buffer ++ chunk)

  -- All that the calls of `push` for a series of chunks return.
  pub feed : List ℕ → List (List ℕ) → Outcome FrameError (List V) × List ℕ
  feed buffer [] = (ok [], buffer)
  feed buffer (chunk ∷ chunks) = continue (push buffer chunk) (λ rest. feed rest chunks)
