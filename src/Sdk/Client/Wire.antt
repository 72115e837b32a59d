-- ===== src/Sdk/Client/Wire.antt =====
-- What an error that the bridge reports means to the client.
use vguardrail.Base.{◌≡◌, refl, inl, inr, String, true, some, Bool-cases, ◌||◌, subst, sym}
use vguardrail.Base.Text.{str_eq, eq_iff}
use vguardrail.Sdk.Errors.{
  ErrorCode, transport, timeout, not_connected, remote, unavailable, version_mismatch, validation,
  retry_exhausted, code_text, code, message, connector_error_from_wire,
}
use vguardrail.Sdk.Client.{is_write_retryable, is_availability_error}

-- The code that an error has after it was sent under the code `c`.
abbrev pub received : ErrorCode → ErrorCode
received retry_exhausted = remote
received c = c

-- An error that is sent with its code and message is received with both, except that exhausted
-- retries come back as a remote error.
pub connector_error_from_wire-code :
    (c : ErrorCode) (m : String)
    → (code (connector_error_from_wire (code_text c) m) ≡ some (received c))
      × (message (connector_error_from_wire (code_text c) m) ≡ m)
unfolding connector_error_from_wire code message
connector_error_from_wire-code transport m = (refl, refl)
connector_error_from_wire-code timeout m = (refl, refl)
connector_error_from_wire-code not_connected m = (refl, refl)
connector_error_from_wire-code remote m = (refl, refl)
connector_error_from_wire-code unavailable m = (refl, refl)
connector_error_from_wire-code version_mismatch m = (refl, refl)
connector_error_from_wire-code validation m = (refl, refl)
connector_error_from_wire-code retry_exhausted m = (refl, refl)

-- What the client makes of the code `c`.
Meaning : String → String → Type 0
Meaning m c =
    (is_write_retryable (connector_error_from_wire c m) ≡ str_eq c "NOT_CONNECTED")
    × (is_availability_error (connector_error_from_wire c m) ≡ (
        str_eq c "UNAVAILABLE"
        || (str_eq c "NOT_CONNECTED" || (str_eq c "TRANSPORT" || str_eq c "TIMEOUT"))))

at_code : (m c d : String) → str_eq c d ≡ true → Meaning m d → Meaning m c
at_code m c d same given = subst (Meaning m) (sym ((eq_iff c d).0 same)) given

meaning : (m c : String) → Meaning m c
unfolding Meaning connector_error_from_wire is_write_retryable is_availability_error
meaning m c = elim (Bool-cases (str_eq c "UNAVAILABLE")) [
  | inl same ↦ at_code m c "UNAVAILABLE" same (refl, refl)
  | inr n0 ↦ elim (Bool-cases (str_eq c "NOT_CONNECTED")) [
    | inl same ↦ at_code m c "NOT_CONNECTED" same (refl, refl)
    | inr n1 ↦ elim (Bool-cases (str_eq c "TRANSPORT")) [
      | inl same ↦ at_code m c "TRANSPORT" same (refl, refl)
      | inr n2 ↦ elim (Bool-cases (str_eq c "TIMEOUT")) [
        | inl same ↦ at_code m c "TIMEOUT" same (refl, refl)
        | inr n3 ↦ elim (Bool-cases (str_eq c "VALIDATION")) [
          | inl same ↦ at_code m c "VALIDATION" same (refl, refl)
          | inr n4 ↦ elim (Bool-cases (str_eq c "VERSION_MISMATCH")) [
            | inl same ↦ at_code m c "VERSION_MISMATCH" same (refl, refl)
            | inr n5 ↦ rw (n0, n1, n2, n3, n4, n5) (refl, refl)
          ]
        ]
      ]
    ]
  ]
]

-- Of the errors that the bridge reports, under whatever code, those with the code NOT_CONNECTED
-- alone let a submission be tried again, and those with one of four codes alone are answered by the
-- fallback.
pub connector_error_from_wire_lem :
    (c m : String)
    → (is_write_retryable (connector_error_from_wire c m) ≡ str_eq c "NOT_CONNECTED")
      × (is_availability_error (connector_error_from_wire c m) ≡ (
          str_eq c "UNAVAILABLE"
          || (str_eq c "NOT_CONNECTED" || (str_eq c "TRANSPORT" || str_eq c "TIMEOUT"))))
unfolding Meaning
connector_error_from_wire_lem c m = meaning m c
