-- ===== src/Sdk/ScanRequest.antt =====
-- connector-sdk/src/models/scan-request.ts: the request, and its wire form.
use vguardrail.Base.{ℕ, String, Option, some, List, [], ◌∷◌, map}
use vguardrail.Json.{Json, str, arr, obj, array, object, compact}
use vguardrail.Sdk.Enums.{Classification, Source, Role}
use vguardrail.Sdk.Words.{classification_text, source_text, role_text}
use mathlib.Core.Option

pub record RepoContext : Type 0 where
  pub name : String
  pub classification : Option Classification

pub record FileContext : Type 0 where
  pub path : String
  pub file_extension : Option String

pub record UserContext : Type 0 where
  pub user_id : String
  pub role : Role
  pub groups : List String

pub record ScanContext : Type 0 where
  pub source : Option Source
  pub provider : Option String
  pub model : Option String
  pub app : Option String
  pub repo : Option RepoContext
  pub file : Option FileContext
  pub user : UserContext

pub record ScanRequest : Type 0 where
  pub text : List ℕ  -- UTF-16 code units
  pub context : ScanContext

abbrev text_of {ℓ} : {A : Type ℓ} → (A → String) → A → Json
text_of f a = str (f a)

encode_repo : RepoContext → Json
encode_repo r = obj (
    compact (
      ("name", some (str r.name))
      ∷ ("classification", Option.map (text_of classification_text) r.classification)
      ∷ []))

encode_file : FileContext → Json
encode_file f = obj (
    compact
      (("path", some (str f.path)) ∷ ("extension", Option.map (λ x. str x) f.file_extension) ∷ []))

encode_user : UserContext → Json
encode_user u = obj (
    object (
      ("user_id", str u.user_id)
      ∷ ("role", str (role_text u.role))
      ∷ ("groups", arr (array (map (λ g. str g) u.groups)))
      ∷ []))

-- `encodeScanRequest`
pub encode_scan_request : ScanRequest → Json
unfolding encode_repo encode_file encode_user
encode_scan_request request =
    let c = request.context in
    obj (
      object (
        ("text", Json.text request.text)
        ∷ (
          "context",
          obj (
              compact (
                ("source", Option.map (text_of source_text) c.source)
                ∷ ("provider", Option.map (λ x. str x) c.provider)
                ∷ ("model", Option.map (λ x. str x) c.model)
                ∷ ("app", Option.map (λ x. str x) c.app)
                ∷ ("repo", Option.map encode_repo c.repo)
                ∷ ("file", Option.map encode_file c.file)
                ∷ ("user", some (encode_user c.user))
                ∷ [])),
        )
        ∷ []))
