-- ===== src/Iam/Idp.antt =====
-- `Idp` and `IdpAuthorizationInfo` of exordos_core/user_api/iam/dm/models.py, and the exchange of an
-- authorization code by a client: the code flow of OpenID Connect.
pub mod Flow
use Prim.Native.String.{String}
use genesis_core.Common.{
  ℕ, ◌+◌, ◌==◌, ◌&&◌, ◌||◌, not, Bool, true, false, Option, none, some, List, [], ◌∷◌, ◌++◌,
  if◌then◌else◌, any,
}
use genesis_core.Common.Dict
use genesis_core.Common.Dict.{string_key}
use genesis_core.Common.Outcome.{Outcome, ok, raised, ◌>>=◌}
use genesis_core.Common.Text.{Text, codes, text_key, text_beq}
use genesis_core.Iam.Client.{Client}
use genesis_core.Iam.Model.{
  Token, IamError, invalid_client_id, invalid_redirect_uri, invalid_nonce, credentials_invalid,
}
use genesis_core.Iam.Token.{Tables, Texts, Request, new_token}

-- The kinds of callbacks.
pub data Callback : Type 0 where
  uri : Text → Callback
  uri_list : List Text → Callback
  regexp : Text → Callback

-- `callback.check`; `fullmatch` stands for `re.fullmatch`.
unfoldable pub check : (Text → Text → Bool) → Callback → Text → Bool
check fullmatch (uri mine) redirect = text_beq mine redirect
check fullmatch (uri_list mine) redirect = any (λ u. text_beq u redirect) mine
check fullmatch (regexp pattern) redirect = fullmatch pattern redirect

pub record Idp : Type 0 where
  pub uuid : ℕ
  pub iam_client : Client
  pub callback : Callback
  pub nonce_required : Bool

pub record AuthInfo : Type 0 where
  pub uuid : ℕ
  pub idp : Idp
  pub state : Text
  pub nonce : Text
  pub redirect_uri : Text
  pub scope : Text
  pub expiration_time_at : ℕ
  pub token : Option Token
  pub code : ℕ

abbrev pub is_blank : Text → Bool
is_blank [] = true
is_blank (c ∷ text) = false

pub record Ask : Type 0 where
  pub client_id : String
  pub redirect_uri : Text
  pub state : Text
  pub scope : Text
  pub nonce : Text
  pub now : ℕ
  pub uuid : ℕ
  pub code : ℕ

-- The row that `authorize` inserts; it expires in ten minutes.
unfoldable pub authorize : (Text → Text → Bool) → Ask → Idp → Outcome IamError AuthInfo
unfolding check
authorize fullmatch ask idp =
    if not (string_key.same idp.iam_client.client_id ask.client_id)
    then raised invalid_client_id
    else if not (check fullmatch idp.callback ask.redirect_uri)
    then raised invalid_redirect_uri
    else if idp.nonce_required && is_blank ask.nonce
    then raised invalid_nonce
    else ok (record {
      uuid = ask.uuid;
      idp = idp;
      state = ask.state;
      nonce = ask.nonce;
      redirect_uri = ask.redirect_uri;
      scope = ask.scope;
      expiration_time_at = ask.now + 600;
      token = none;
      code = ask.code;
    })

-- `confirm`, by the holder of the current token.
unfoldable pub confirm : Tables → Texts → ℕ → ℕ → ℕ → Token → AuthInfo → Outcome IamError AuthInfo
confirm tables texts now uuid refresh_uuid current info =
    if info.idp.nonce_required && is_blank info.nonce
    then raised invalid_nonce
    else ok (record info {
      token = some (
          new_token tables texts now uuid refresh_uuid (record {
            user = current.user;
            iam_client = info.idp.iam_client.uuid;
            project = current.project;
            scope = info.scope;
            nonce = some info.nonce;
            ttl = none;
            refresh_ttl = none;
          }));
    })

abbrev keep_first :
    AuthInfo
    → Outcome IamError (Option Token × List AuthInfo)
    → Outcome IamError (Option Token × List AuthInfo)
keep_first info (raised e) = raised e
keep_first info (ok (token, rest)) = ok (token, info ∷ rest)

-- `get_token_by_authorization_code`: the first row with the code and the address is deleted.
unfoldable pub get_token_by_authorization_code :
    ℕ → Text → List AuthInfo → Outcome IamError (Option Token × List AuthInfo)
get_token_by_authorization_code code redirect [] = raised credentials_invalid
get_token_by_authorization_code code redirect (info ∷ infos) =
    let later = keep_first info (get_token_by_authorization_code code redirect infos) in
    if (info.code == code) && text_beq info.redirect_uri redirect
    then ok (info.token, infos)
    else later

-- f"?code={code}&state={state}" behind the address; `show_uuid` is the text of a UUID.
unfoldable pub construct_callback_uri : Texts → AuthInfo → Outcome IamError Text
construct_callback_uri texts info =
    if is_blank info.redirect_uri
    then raised invalid_redirect_uri
    else ok (
        info.redirect_uri
        ++ codes "?code="
        ++ texts.show_uuid info.code
        ++ codes "&state="
        ++ info.state)
