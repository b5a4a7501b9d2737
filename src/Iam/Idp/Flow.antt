-- ===== src/Iam/Idp/Flow.antt =====
-- The code flow from the request to the token.
use genesis_core.Common.{
  ℕ, ◌==◌, not, Bool, true, false, Option, none, some, List, [], ◌∷◌, ◌++◌, if◌then◌else◌, any, ◌≡◌,
  refl, arith, inl, inr,
}
use genesis_core.Common.Outcome.{ok, raised, Outcome-cases}
use genesis_core.Common.Dict.{string_key}
use genesis_core.Common.Text.{Text, text_beq_refl}
use genesis_core.Iam.Model.{Token, credentials_invalid}
use genesis_core.Iam.Token.{Tables, Texts, Request, new_token}
use genesis_core.Iam.Idp.{
  Idp, AuthInfo, Ask, authorize, check, confirm, get_token_by_authorization_code,
}

abbrev pub has_code : ℕ → List AuthInfo → Bool
has_code code = any (λ i. i.code == code)

-- No two rows have the code.
abbrev pub unique_code : ℕ → List AuthInfo → Bool
unique_code code [] = true
unique_code code (i ∷ is) = if i.code == code then not (has_code code is) else unique_code code is

unknown_code :
    (code : ℕ) (redirect : Text) (is : List AuthInfo)
    → has_code code is ≡ false
    → get_token_by_authorization_code code redirect is ≡ raised credentials_invalid
unfolding get_token_by_authorization_code
unknown_code code redirect [] h = refl
unknown_code code redirect (i ∷ is) h = ground (arith, unknown_code code redirect is)

used_code :
    (code : ℕ) (redirect : Text) (is rest : List AuthInfo) (t : Option Token)
    → unique_code code is ≡ true
    → get_token_by_authorization_code code redirect is ≡ ok (t, rest)
    → has_code code rest ≡ false
unfolding get_token_by_authorization_code
used_code code redirect [] rest t u h = cc
used_code code redirect (i ∷ is) rest t u h =
    elim (Outcome-cases (get_token_by_authorization_code code redirect is)) [
      | inl (e, refused) ↦ ground arith
      | inr ((t', rest'), found) ↦
          ground (arith, used_code code redirect is rest' t', unknown_code code redirect is)
    ]

-- An authorization code is good once: after it was exchanged, if no two rows had it, every exchange
-- of it is refused, whatever the address.
pub get_token_by_authorization_code_once :
    (code : ℕ) (redirect again : Text) (is rest : List AuthInfo) (t : Option Token)
    → unique_code code is ≡ true
    → get_token_by_authorization_code code redirect is ≡ ok (t, rest)
    → get_token_by_authorization_code code again rest ≡ raised credentials_invalid
get_token_by_authorization_code_once code redirect again is rest t u h =
    unknown_code code again rest (used_code code redirect is rest t u h)

exchanged :
    (code : ℕ) (redirect : Text) (is : List AuthInfo) (i : AuthInfo)
    → has_code code is ≡ false
    → i.code ≡ code
    → i.redirect_uri ≡ redirect
    → get_token_by_authorization_code code redirect (is ++ (i ∷ [])) ≡ ok (i.token, is)
unfolding get_token_by_authorization_code
exchanged code redirect [] i h c r = ground (arith, text_beq_refl redirect)
exchanged code redirect (j ∷ is) i h c r = ground (arith, exchanged code redirect is i)

-- A request that `authorize` accepts names the client of the provider and an address that its
-- callback allows. When it is then confirmed, the exchange of its code at that address gives a token
-- of the user and the client with its scope, and leaves the other rows; the code is a new one.
pub authorize-confirm-exchange :
    (fullmatch : Text → Text → Bool) (ask : Ask) (idp : Idp) (tables : Tables) (texts : Texts)
    (now uuid refresh_uuid : ℕ) (current : Token) (others : List AuthInfo)
    (info confirmed : AuthInfo)
    → has_code ask.code others ≡ false
    → authorize fullmatch ask idp ≡ ok info
    → confirm tables texts now uuid refresh_uuid current info ≡ ok confirmed
    → (check fullmatch idp.callback ask.redirect_uri ≡ true)
      × (idp.iam_client.client_id ≡ ask.client_id)
      × ((t : Token) × (get_token_by_authorization_code ask.code ask.redirect_uri
              (others ++ (confirmed ∷ []))
            ≡ ok (some t, others))
          × (t.user ≡ current.user)
          × (t.iam_client ≡ idp.iam_client.uuid)
          × (t.scope ≡ ask.scope))
authorize-confirm-exchange fullmatch ask idp tables texts now uuid refresh_uuid current others info
      confirmed fresh h g =
    let request : Request = record {
      user = current.user;
      iam_client = info.idp.iam_client.uuid;
      project = current.project;
      scope = info.scope;
      nonce = some info.nonce;
      ttl = none;
      refresh_ttl = none;
    } in
    let t = new_token tables texts now uuid refresh_uuid request in
    let token : confirmed.token ≡ some t = unfold confirm in ground arith in
    let kept : (confirmed.code ≡ info.code) × (confirmed.redirect_uri ≡ info.redirect_uri) =
      unfold confirm in ground arith in
    let asked : (info.code ≡ ask.code)
        × (info.redirect_uri ≡ ask.redirect_uri)
        × (info.idp ≡ idp)
        × (info.scope ≡ ask.scope)
        × (check fullmatch idp.callback ask.redirect_uri ≡ true)
        × (string_key.same idp.iam_client.client_id ask.client_id ≡ true) =
      unfold authorize in ground arith in
    let found =
      exchanged ask.code ask.redirect_uri others confirmed fresh (ground arith) (ground arith) in
    (
      ground arith,
      (string_key.same_iff idp.iam_client.client_id ask.client_id).0 (ground arith),
      (
        t,
        ground arith,
        unfold new_token in refl,
        unfold new_token in ground arith,
        unfold new_token in ground arith,
      ),
    )
