-- ===== src/Auth/Tokens.antt =====
-- `AccessTokenService` of 2identify_api/app/core/security.py. The JWT library, `str` and `int` of
-- numbers are parameters. A claim of time is a number of seconds, and a `datetime` an instant in
-- microseconds.
use Prim.Native.Nat.{◌/◌}
use identify.Base.{
  ℕ, ◌+◌, ◌*◌, Bool, not, ◌&&◌, ◌||◌, Option, ltb, leb, is_empty, Text, text_eq, Str, normalize,
}
use identify.Base.Result.{
  Result, ok, err, value_error, invalid_access_token_error, ◌>>=◌, ◌>>◌, raise_if, or_raise,
}
use identify.Domain.Alert.{is_positive}

-- The claims that `issue` signs.
pub record Payload : Type 0 where
  pub sub : Text
  pub name : Text
  pub profile : Text
  pub iat : ℕ
  pub nbf : ℕ
  pub exp : ℕ
  pub iss : Text
  pub aud : Text
  pub jti : Text

-- a value of a decoded token: a text, an integer, or anything else
pub data Value : Type 0 where
  text : Text → Value
  int : ℕ → Value
  other : Value

-- The claims that `jwt.decode` returns, all of which are required.
pub record Decoded : Type 0 where
  pub sub : Value
  pub name : Value
  pub profile : Value
  pub iat : Value
  pub nbf : Value
  pub exp : Value
  pub jti : Value

abbrev pub microseconds : ℕ
microseconds = 1000000

-- What the service uses of the JWT library and of Python: `encode secret payload`, and
-- `decode secret audience issuer at token`, which is `none` if it raises at the instant `at`, in
-- seconds.
pub record Library (Token : Type 0) : Type 0 where
  pub encode : Text → Payload → Token
  pub decode : Text → Text → Text → ℕ → Token → Option Decoded
  pub str_int : ℕ → Text
  -- `isascii` and `isdecimal`
  pub is_decimal : Text → Bool
  pub int_of : Text → ℕ

pub record AccessTokenService : Type 0 where
  pub secret : Text
  pub ttl : ℕ
  pub issuer : Text
  pub audience : Text

pub record AccessTokenClaims : Type 0 where
  pub subject : ℕ
  pub name : Text
  pub profile : Text
  pub issued_at : ℕ
  pub expires_at : ℕ
  pub token_id : Text

abbrev pub as_text : Value → Result Text
as_text (text s) = ok s
as_text (int n) = err invalid_access_token_error
as_text other = err invalid_access_token_error

abbrev pub as_int : Value → Result ℕ
as_int (int n) = ok n
as_int (text s) = err invalid_access_token_error
as_int other = err invalid_access_token_error

-- `AccessTokenService.__init__`; the lifetime is given in minutes
unfoldable pub token_service_init : Str → Text → ℕ → Text → Text → Result AccessTokenService
token_service_init py secret ttl_minutes issuer audience = do
  raise_if (is_empty (py.strip audience)) value_error
  ok (record {
    secret = secret;
    ttl = ttl_minutes * 60 * microseconds;
    issuer = issuer;
    audience = audience;
  })

-- `expires_in_seconds`
abbrev pub expires_in_seconds : AccessTokenService → ℕ
expires_in_seconds s = s.ttl / microseconds

module _ {Token : Type 0} (py : Str) (lib : Library Token) (s : AccessTokenService) where
  -- the payload of `issue` at the instant `now`, with the identifier that `token_urlsafe` returns
  abbrev pub payload_of : ℕ → Text → Text → ℕ → Text → Payload
  payload_of subject name profile now token_id = record {
    sub = lib.str_int subject;
    name = name;
    profile = profile;
    iat = now;
    nbf = now;
    exp = now + s.ttl;
    iss = s.issuer;
    aud = s.audience;
    jti = token_id;
  }

  -- `issue`
  unfoldable pub issue : ℕ → Text → Text → ℕ → Text → Result Token
  issue subject name profile now token_id = do
    raise_if
        (not (is_positive subject) || is_empty (py.strip name) || is_empty (normalize py profile))
        value_error
    ok (
        lib.encode s.secret
          (payload_of subject (py.strip name) (normalize py profile) now token_id))

  -- the tests of the subject
  abbrev pub subject_fails : Text → Bool
  subject_fails subject =
      not (lib.is_decimal subject)
      || not (is_positive (lib.int_of subject))
      || not (text_eq (lib.str_int (lib.int_of subject)) subject)

  -- the tests of the other texts
  abbrev pub texts_fail : Text → Text → Text → Bool
  texts_fail name profile token_id =
      is_empty (py.strip name)
      || not (text_eq name (py.strip name))
      || is_empty (py.strip profile)
      || not (text_eq profile (normalize py profile))
      || is_empty (py.strip token_id)
      || not (text_eq token_id (py.strip token_id))

  -- the tests of `verify` on the decoded claims
  unfoldable pub check_claims : Decoded → Result AccessTokenClaims
  check_claims d = do
    subject ← as_text d.sub
    raise_if (subject_fails subject) invalid_access_token_error
    name ← as_text d.name
    profile ← as_text d.profile
    token_id ← as_text d.jti
    raise_if (texts_fail name profile token_id) invalid_access_token_error
    issued_at ← as_int d.iat
    expires_at ← as_int d.exp
    not_before ← as_int d.nbf
    raise_if (not (leb issued_at not_before && ltb not_before expires_at))
        invalid_access_token_error
    ok (record {
      subject = lib.int_of subject;
      name = name;
      profile = profile;
      issued_at = issued_at * microseconds;
      expires_at = expires_at * microseconds;
      token_id = token_id;
    })

  -- `verify` at an instant in seconds
  unfoldable pub verify : ℕ → Token → Result AccessTokenClaims
  verify at token = do
    d ← or_raise (lib.decode s.secret s.audience s.issuer at token) invalid_access_token_error
    check_claims d
