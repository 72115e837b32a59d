-- ===== src/Sdk/Version.antt =====
-- connector-sdk/src/protocol/version.ts
use Prim.Native.String
use vguardrail.Base.Decimal.{integer}
use vguardrail.Base.{
  ℕ, String, Bool, false, not, Option, none, some, List, [], ◌∷◌, ◌==◌, any, if◌then◌else◌, Outcome,
  ok, err, map,
}
use vguardrail.Base.Number.{ℤ, pos, negsuc, of_ℕ}
use vguardrail.Base.Text.{str_eq}
use vguardrail.Json.{Json, str, num, arr, obj, array, object}
use vguardrail.Sdk.Decision.{schema_version}
use vguardrail.Sdk.Errors.{Thrown, version_mismatch_error}

abbrev pub protocol_version : ℕ
protocol_version = 1

abbrev pub supported_protocols : List ℕ
supported_protocols = protocol_version ∷ []

pub record NegotiatedVersion : Type 0 where
  pub proto : ℤ
  pub schema : String
  pub agent : String

-- `helloParams`
pub hello_params : Json
hello_params = obj (
    object (
      ("sdk", str "0.1.0")
      ∷ ("proto", arr (array (map (λ n. num (of_ℕ n)) supported_protocols)))
      ∷ ("schema", str schema_version)
      ∷ []))

-- `SUPPORTED_PROTOCOLS.includes`
abbrev pub is_supported : ℤ → Bool
is_supported (pos n) = any (λ m. m == n) supported_protocols
is_supported (negsuc n) = false

unfoldable pub check_version : NegotiatedVersion → Outcome Thrown NegotiatedVersion
check_version v =
    if not (is_supported v.proto)
    then err (
        version_mismatch_error (
          String.◌++◌ "agent selected protocol v"
            (String.◌++◌ (integer v.proto) "; SDK supports [1]")))
    else if not (str_eq v.schema schema_version)
    then err (
        version_mismatch_error (
          String.◌++◌ "agent schema \"" (
            String.◌++◌ v.schema
              (String.◌++◌ "\" != SDK schema \"" (String.◌++◌ schema_version "\"")))))
    else ok v

-- `negotiate`; `parse` is `HelloResultSchema.safeParse`.
unfoldable pub negotiate :
    (Json → Option NegotiatedVersion) → Json → Outcome Thrown NegotiatedVersion
unfolding check_version
negotiate parse hello_result = elim (parse hello_result) [
  | none ↦ err (version_mismatch_error "malformed hello reply from agent")
  | some v ↦ check_version v
]
