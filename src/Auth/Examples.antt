-- ===== src/Auth/Examples.antt =====
-- A login of 2identify_api/app/services/authentication.py, with tokens that are their own payload.
use Prim.Native.Nat.{◌/◌}
use identify.Base.{
  ℕ, ◌≡◌, refl, sym, true, false, ◌&&◌, Option, none, some, [], ◌∷◌, arith, ltb, leb, Bool-cases,
  inl, inr, if◌then◌else◌, is_empty, Text, codes, text_eq, text_eq_iff, text_eq_refl, plain_str,
  normalize,
}
use mathlib.Core.Path.{subst}
use identify.Base.Result.{ok}
use identify.Domain.Operation.{mem_text}
use identify.Auth.Tokens.{
  Payload, Decoded, Library, AccessTokenService, microseconds, payload_of, issue, verify,
}
use identify.Auth.RoundTrip.{decoded_of, IsLibrary, claims_of, verify-issue}
use identify.Auth.Login.{
  Bcrypt, Account, AuthenticatedAccount, verify_password, admit, authenticate, authenticate-verify,
}

abbrev Signed : Type 0
Signed = Text × Payload

abbrev open_token : Text → Text → Text → ℕ → Signed → Option Decoded
open_token secret audience issuer at (key, p) =
    if text_eq secret key
      && text_eq audience p.aud
      && text_eq issuer p.iss
      && leb (p.iat / microseconds) at
      && leb (p.nbf / microseconds) at
      && ltb at (p.exp / microseconds)
    then some (decoded_of p)
    else none

abbrev first_of : Text → ℕ
first_of [] = 0
first_of (n ∷ s) = n

abbrev plain_library : Library Signed
plain_library = record {
  encode = λ secret p. (secret, p);
  decode = open_token;
  str_int = λ n. n ∷ [];
  is_decimal = λ s. true;
  int_of = first_of;
}

plain_library-IsLibrary : IsLibrary plain_library
plain_library-IsLibrary = record {
  decodes = λ secret p at h k l.
      let begun : leb (p.iat / microseconds) at ≡ true = ground (arith, h) in
      let valid : leb (p.nbf / microseconds) at ≡ true = ground (arith, k) in
      let lasts : ltb at (p.exp / microseconds) ≡ true = ground (arith, l) in
      rw (text_eq_refl secret, text_eq_refl p.aud, text_eq_refl p.iss, begun, valid, lasts) refl;
  decimal = λ n. refl;
  reads = λ n. refl;
}

abbrev service : AccessTokenService
service = record {
  secret = codes "secret";
  ttl = 60000000;
  issuer = codes "2identify";
  audience = codes "admin";
}

abbrev token : Signed
token = (
  codes "secret",
  payload_of plain_str plain_library service 7 (codes "ana") (codes "admin") 5000000 (codes "t1"),
)

token_issued :
    issue plain_str plain_library service 7 (codes "ana") (codes "admin") 5000000 (codes "t1")
    ≡ ok token
unfolding issue normalize
token_issued = refl

word : is_empty (normalize plain_str (codes "admin")) ≡ false
unfolding normalize
word = refl

verify-issue_example :
    verify plain_str plain_library service 30 token
    ≡ ok (claims_of plain_str service 7 (codes "ana") (codes "admin") (codes "t1") 5000000)
verify-issue_example =
    verify-issue plain_str plain_library service 7 (codes "ana") (codes "admin") (codes "t1")
      5000000 30 plain_library-IsLibrary token_issued refl refl word (omega arith) (omega arith)

abbrev crypt : Bcrypt
crypt = record { utf8 = λ s. s; checkpw = λ bytes hash. some (text_eq bytes hash) }

abbrev ana : Account
ana = record {
  id = 7;
  nome = codes "ana";
  username = codes "ana";
  perfil = codes "admin";
  senha_hash = codes "pw";
}

abbrev logged_in : AuthenticatedAccount Signed
logged_in = record {
  account_id = 7;
  name = codes "ana";
  username = codes "ana";
  profile = codes "admin";
  access_token = token;
  expires_in = 60;
}

login :
    authenticate plain_str plain_library service crypt
      (codes "x")
      (codes "admin" ∷ [])
      (some ana)
      (codes "pw")
      5000000
      (codes "t1")
    ≡ ok logged_in
unfolding authenticate admit verify_password issue normalize text_eq
login = refl

words : (p : Text) → mem_text p (codes "admin" ∷ []) ≡ true → (p ≡ p) × (is_empty p ≡ false)
words p h = elim (Bool-cases (text_eq p (codes "admin"))) [
  | inl same ↦
      (refl, subst (λ q. is_empty q ≡ false) (sym ((text_eq_iff p (codes "admin")).0 same)) refl)
  | inr different ↦ absurd (ground arith)
]

authenticate-verify_example :
    (account : Account) × (some ana ≡ some account)
    × (verify_password crypt (codes "pw") account.senha_hash ≡ true)
    × (mem_text (normalize plain_str account.perfil) (codes "admin" ∷ []) ≡ true)
    × (7 ≡ account.id)
    × (verify plain_str plain_library service 30 token
        ≡ ok (
            claims_of plain_str service account.id account.nome account.perfil
              (codes "t1")
              5000000))
authenticate-verify_example =
    authenticate-verify plain_str plain_library service crypt (codes "x") (codes "admin" ∷ [])
      (some ana) (codes "pw") (codes "t1") 5000000 30 {a = logged_in} plain_library-IsLibrary words
      login refl refl (omega arith) (omega arith)
