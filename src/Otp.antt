-- ===== src/Otp.antt =====
-- One-time passwords (crates/bypass-core/src/otp.rs): the search for the `otpauth://` URI in an
-- entry. The totp_rs library and its clock are a parameter.
use bypass.Prelude.{
  ◌⊎◌, Option, none, some, List, [], ◌∷◌, Outcome, ok_or, map_err, returned, ◌>>=◌, if◌then◌else◌,
  map,
}
use bypass.Text.{Text, codes, lines, strip_cr, trim, starts_with}

pub data OtpError (E : Type 0) : Type 0 where
  no_otpauth_uri : OtpError E
  parse_uri : E → OtpError E
  generate_code : E → OtpError E

-- totp_rs: a parser of URIs, and the code at this time.
pub record TotpLibrary : Type 1 where
  pub Totp : Type 0
  pub Error : Type 0
  pub from_url_unchecked : Text → Error ⊎ Totp
  pub generate_current : Totp → Error ⊎ Text

abbrev pub scheme : Text
scheme = codes "otpauth://"

-- `Iterator::find` with the test for the scheme.
unfoldable pub find_uri : List Text → Option Text
find_uri [] = none
find_uri (line ∷ rest) = if starts_with line scheme then some line else find_uri rest

module _ (L : TotpLibrary) where
  unfoldable pub parse : Text → Outcome (OtpError L.Error) L.Totp
  unfolding find_uri
  parse plaintext = do
    uri ← ok_or (find_uri (map (λ line. trim (strip_cr line)) (lines plaintext))) no_otpauth_uri
    map_err parse_uri (returned (L.from_url_unchecked uri))

  unfoldable pub current_code : Text → Outcome (OtpError L.Error) Text
  unfolding parse
  current_code plaintext = do
    totp ← parse plaintext
    map_err generate_code (returned (L.generate_current totp))
