-- ===== src/Auth/Login.antt =====
-- `verify_password` of 2identify_api/app/core/security.py, and `AuthenticationService` of
-- 2identify_api/app/services/authentication.py. The repository's answer is an argument, and `bcrypt`
-- a parameter.
use Prim.Native.Nat.{◌/◌}
use identify.Base.{
  ℕ, ◌+◌, ◌≤◌, ◌<◌, ◌≡◌, refl, ◌∙◌, Bool, true, false, not, ◌||◌, Option, none, some, List, [], ◌∷◌,
  arith, length, ltb, is_empty, inl, inr, if◌then◌else◌, Text, Str, normalize, normalize-normalize,
}
use mathlib.Core.Path.{subst}
use identify.Base.Result.{
  Result, ok, err, authentication_rejected_error, Result-cases, ◌>>=◌, ◌>>◌, raise_if,
}
use identify.Domain.Operation.{mem_text}
use identify.Auth.Tokens.{
  Library, AccessTokenService, microseconds, expires_in_seconds, issue, verify,
}
use identify.Auth.RoundTrip.{IsLibrary, claims_of, verify-issue}

-- `encode("utf-8")`, and `bcrypt.checkpw`, which is `none` if it raises
pub record Bcrypt : Type 0 where
  pub utf8 : Text → List ℕ
  pub checkpw : List ℕ → Text → Option Bool

-- the columns of a user that the login reads
pub record Account : Type 0 where
  pub id : ℕ
  pub nome : Text
  pub username : Text
  pub perfil : Text
  pub senha_hash : Text

pub record AuthenticatedAccount (Token : Type 0) : Type 0 where
  pub account_id : ℕ
  pub name : Text
  pub username : Text
  pub profile : Text
  pub access_token : Token
  pub expires_in : ℕ

abbrev pub no_bytes : List ℕ → Bool
no_bytes [] = true
no_bytes (b ∷ bytes) = false

-- `verify_password`
unfoldable pub verify_password : Bcrypt → Text → Text → Bool
verify_password crypt password password_hash =
    let bytes = crypt.utf8 password in
    if no_bytes bytes || ltb 72 (length bytes)
    then false
    else elim (crypt.checkpw bytes password_hash) [ none ↦ false | some matches ↦ matches ]

-- `account.senha_hash` or the hash that stands in for it
abbrev pub hash_of : Text → Option Account → Text
hash_of dummy none = dummy
hash_of dummy (some account) = account.senha_hash

module _ {Token : Type 0} (py : Str) (lib : Library Token) (s : AccessTokenService) (crypt : Bcrypt)
    (dummy : Text) (allowed_profiles : List Text) where
  -- what follows the check of the password, for an account
  unfoldable pub admit : Account → ℕ → Text → Result (AuthenticatedAccount Token)
  admit account now token_id = do
    raise_if
        (is_empty (py.strip account.nome)
          || is_empty (py.strip account.username)
          || not (mem_text (normalize py account.perfil) allowed_profiles))
        authentication_rejected_error
    token ←
        issue py lib s account.id (py.strip account.nome) (normalize py account.perfil) now token_id
    ok (record {
      account_id = account.id;
      name = py.strip account.nome;
      username = py.strip account.username;
      profile = normalize py account.perfil;
      access_token = token;
      expires_in = expires_in_seconds s;
    })

  -- `authenticate`, of the account that the repository found
  unfoldable pub authenticate :
      Option Account → Text → ℕ → Text → Result (AuthenticatedAccount Token)
  authenticate found password now token_id =
      let password_matches = verify_password crypt password (hash_of dummy found) in
      elim found [
        | none ↦ err authentication_rejected_error
        | some account ↦
            if not password_matches
            then err authentication_rejected_error
            else admit account now token_id
      ]

  -- The allowed profiles are words without blanks around them.
  abbrev pub AreWords : Type 0
  AreWords =
      (p : Text) → mem_text p allowed_profiles ≡ true → (py.strip p ≡ p) × (is_empty p ≡ false)

  -- For such a library and for allowed profiles that are words, a login that returns is of an
  -- account that was found, whose password was verified and whose profile is allowed, and at any
  -- instant of its lifetime its token verifies to that account.
  pub authenticate-verify :
      (found : Option Account) (password token_id : Text) (now at : ℕ)
      {a : AuthenticatedAccount Token}
      → IsLibrary lib
      → AreWords
      → authenticate found password now token_id ≡ ok a
      → py.strip token_id ≡ token_id
      → is_empty token_id ≡ false
      → now / microseconds ≤ at
      → at < (now + s.ttl) / microseconds
      → (account : Account) × (found ≡ some account)
        × (verify_password crypt password account.senha_hash ≡ true)
        × (mem_text (normalize py account.perfil) allowed_profiles ≡ true)
        × (a.account_id ≡ account.id)
        × (verify py lib s at a.access_token
            ≡ ok (claims_of py s account.id account.nome account.perfil token_id now))
  unfolding authenticate admit
  authenticate-verify none password token_id now at laws words h stripped some_id begun lasts =
      absurd (ground arith)
  authenticate-verify (some account) password token_id now at {a = a} laws words h stripped some_id
        begun lasts =
      let profile = normalize py account.perfil in
      let matches : verify_password crypt password account.senha_hash ≡ true = ground arith in
      let allowed : mem_text profile allowed_profiles ≡ true = ground arith in
      let (bare, word) = words profile allowed in
      elim (Result-cases (issue py lib s account.id (py.strip account.nome) profile now token_id)) [
        | inl (x, raised) ↦ absurd (ground arith)
        | inr (token, issued) ↦
            let made : AuthenticatedAccount Token = record {
              account_id = account.id;
              name = py.strip account.nome;
              username = py.strip account.username;
              profile = profile;
              access_token = token;
              expires_in = expires_in_seconds s;
            } in
            let same : made ≡ a = ground arith in
            let twice = normalize-normalize py account.perfil in
            let blank : is_empty (py.strip (normalize py profile)) ≡ false =
              rw (twice, bare) word in
            let verified =
              verify-issue py lib s account.id (py.strip account.nome) profile token_id now at laws
                issued stripped some_id blank begun lasts in
            (
              account,
              refl,
              matches,
              allowed,
              subst (λ x. x.account_id ≡ account.id) same refl,
              subst
                  (λ x.
                    verify py lib s at x.access_token
                    ≡ ok (claims_of py s account.id account.nome account.perfil token_id now))
                  same (verified ∙ rw (py.stripped account.nome, twice) refl),
            )
      ]
