-- ===== src/Cli/Bypass/Flags.antt =====
-- What the flags do, and that the wrapped tool never sees them.
use vguardrail.Base.{
  ◌≡◌, refl, String, Bool, true, false, not, ◌||◌, Option, none, some, List, [], ◌∷◌, length,
  length-keep-le, any, ◌==◌, if◌then◌else◌, arith,
}
use vguardrail.Base.Text.{str_eq}
use vguardrail.Cli.Bypass.{
  bypass_flag, bypass_env_var, flag, env, is_one, strip, bypass_from, resolve_bypass,
}

module _ (f : String) where
  is_flag : String → Bool
  is_flag a = str_eq a f

  pub any-strip : (args : List String) → any (λ a. str_eq a f) (strip f args) ≡ false
  any-strip [] = refl
  any-strip (a ∷ args) = ground (arith, any-strip args)

  pub strip-length_iff :
      (args : List String)
      → (not (length (strip f args) == length args)) ≡ any (λ a. str_eq a f) args
  strip-length_iff [] = refl
  strip-length_iff (a ∷ args) =
      ground (arith, strip-length_iff args, length-keep-le (λ x. not (str_eq x f)) args)

bypass_from_lem :
    (f e : Bool) (stripped : List String)
    → ((bypass_from f e stripped).bypass ≡ (f || e))
      × ((bypass_from f e stripped).source
          ≡ (if f then some flag else if e then some env else none))
      × ((bypass_from f e stripped).args ≡ stripped)
unfolding bypass_from
bypass_from_lem true e stripped = (refl, refl, refl)
bypass_from_lem false true stripped = (refl, refl, refl)
bypass_from_lem false false stripped = (refl, refl, refl)

-- The flag anywhere among the arguments, or the variable, starts the bypass, and nothing else does;
-- the flag is named as the source where both do; and no argument handed on is the flag.
pub resolve_bypass_lem :
    (args : List String) (vars : String → Option String)
    → ((resolve_bypass args vars).bypass
        ≡ (any (λ a. str_eq a bypass_flag) args || is_one (vars bypass_env_var)))
      × ((resolve_bypass args vars).source ≡ (
          if any (λ a. str_eq a bypass_flag) args
          then some flag
          else if is_one (vars bypass_env_var)
          then some env
          else none))
      × (any (λ a. str_eq a bypass_flag) (resolve_bypass args vars).args ≡ false)
unfolding resolve_bypass
resolve_bypass_lem args vars =
    let shape =
      bypass_from_lem (any (λ a. str_eq a bypass_flag) args) (is_one (vars bypass_env_var))
        (strip bypass_flag args) in
    rw (strip-length_iff bypass_flag args)
      (shape.0, shape.1, rw (shape.2) (any-strip bypass_flag args))
