-- ===== src/Auth/RoundTrip.antt =====
-- `verify` after `issue` of 2identify_api/app/core/security.py.
use Prim.Native.Nat.{◌/◌}
use identify.Base.{
  ℕ, ◌+◌, ◌*◌, ◌≤◌, ◌<◌, ◌≡◌, refl, true, false, some, arith, ltb, leb, is_empty, Text,
  text_eq_refl, Str, normalize, normalize-normalize,
}
use mathlib.Core.Path.{subst}
use identify.Base.Result.{ok}
use identify.Domain.Alert.{is_positive}
use identify.Auth.Tokens.{
  Payload, Decoded, text, int, Library, AccessTokenService, AccessTokenClaims, microseconds,
  payload_of, issue, check_claims, verify,
}

-- the claims of a payload as they are decoded: a `datetime` is a number of whole seconds
abbrev pub decoded_of : Payload → Decoded
decoded_of p = record {
  sub = text p.sub;
  name = text p.name;
  profile = text p.profile;
  iat = int (p.iat / microseconds);
  nbf = int (p.nbf / microseconds);
  exp = int (p.exp / microseconds);
  jti = text p.jti;
}

-- What the library and Python document: a token decodes under the secret, audience and issuer that
-- it was signed with, from its `nbf` on and before its `exp`, and `int` reads what `str` writes.
pub record IsLibrary {Token : Type 0} (lib : Library Token) : Type 0 where
  pub decodes :
      (secret : Text) (p : Payload) (at : ℕ)
      → p.iat / microseconds ≤ at
      → p.nbf / microseconds ≤ at
      → at < p.exp / microseconds
      → lib.decode secret p.aud p.iss at (lib.encode secret p) ≡ some (decoded_of p)
  pub decimal : (n : ℕ) → lib.is_decimal (lib.str_int n) ≡ true
  pub reads : (n : ℕ) → lib.int_of (lib.str_int n) ≡ n

-- what a token says of its subject
abbrev pub claims_of : Str → AccessTokenService → ℕ → Text → Text → Text → ℕ → AccessTokenClaims
claims_of py s subject name profile token_id now = record {
  subject = subject;
  name = py.strip name;
  profile = normalize py profile;
  issued_at = now / microseconds * microseconds;
  expires_at = (now + s.ttl) / microseconds * microseconds;
  token_id = token_id;
}

module _ {Token : Type 0} (py : Str) (lib : Library Token) (s : AccessTokenService) where
  -- If the library decodes what it signed under the same secret, audience and issuer within its
  -- lifetime, and int reads what str writes, then a token that was issued, with an identifier
  -- without blanks around it and a profile that is not blank, verifies at any instant of its
  -- lifetime, in seconds, to its subject, to the name and profile in their normal form, and to its
  -- instants in whole seconds.
  pub verify-issue :
      (subject : ℕ) (name profile token_id : Text) (now at : ℕ) {token : Token}
      → IsLibrary lib
      → issue py lib s subject name profile now token_id ≡ ok token
      → py.strip token_id ≡ token_id
      → is_empty token_id ≡ false
      → is_empty (py.strip (normalize py profile)) ≡ false
      → now / microseconds ≤ at
      → at < (now + s.ttl) / microseconds
      → verify py lib s at token ≡ ok (claims_of py s subject name profile token_id now)
  unfolding issue verify check_claims
  verify-issue subject name profile token_id now at {token = token} laws h stripped some_id word
        begun lasts =
      let positive : is_positive subject ≡ true = ground arith in
      let named : is_empty (py.strip name) ≡ false = ground arith in
      let made = payload_of py lib s subject (py.strip name) (normalize py profile) now token_id in
      let same : lib.encode s.secret made ≡ token = ground arith in
      let later : ltb (now / microseconds) ((now + s.ttl) / microseconds) ≡ true =
        ground (arith, begun, lasts) in
      let first : leb (now / microseconds) (now / microseconds) ≡ true = ground arith in
      subst (λ t. verify py lib s at t ≡ ok (claims_of py s subject name profile token_id now)) same
        (rw
          (
            verify,
            laws.decodes s.secret made at begun begun lasts,
            check_claims,
            laws.decimal subject,
            laws.reads subject,
            positive,
            text_eq_refl (lib.str_int subject),
            py.stripped name,
            named,
            text_eq_refl (py.strip name),
            word,
            normalize-normalize py profile,
            text_eq_refl (normalize py profile),
            stripped,
            some_id,
            text_eq_refl token_id,
            first,
            later,
          )
          refl)
