-- ===== src/Auth/Login.antt =====
-- src/prusa/auth.rs: how tokens are got from the server, by the login form or by a refresh. The server,
-- HTTP and the URLs are parameters.
use mathlib.Core.Option as Option
use buddy3d_proxy.Prelude.{
  ℕ, zero, suc, ◌+◌, if◌then◌else◌, Option, none, some, List, [], ◌∷◌, length, drop,
}
use buddy3d_proxy.Prelude.Text.{Text, codes, same_text, find_subslice, split_once}
use buddy3d_proxy.Prelude.Utf8.{take_chars}
use buddy3d_proxy.Prelude.Results.{Result, success, failure, ok_or, map_err, ◌>>=◌}
use buddy3d_proxy.Auth.TokenStore.{StoredTokens}
use buddy3d_proxy.Auth.Jwt.{JwtError}

-- What `PrusaClient::send` fails with
pub data HttpError : Type 0 where
  network : Text → HttpError
  server_error : ℕ → Text → HttpError
  client_error : ℕ → Text → HttpError

pub data AuthError : Type 0 where
  http : HttpError → AuthError
  no_csrf : AuthError
  login_rejected : ℕ → Text → AuthError
  no_auth_code : AuthError
  bad_token_response : Text → AuthError

pub record TokenResponse : Type 0 where
  pub access_token : Text
  pub refresh_token : Text

abbrev needle : Text
needle = codes "name=\"csrfmiddlewaretoken\" value=\""

abbrev and_then {ℓ κ} : {A : Type ℓ} {B : Type κ} → Option A → (A → Option B) → Option B
and_then none f = none
and_then (some a) f = f a

-- What stands in the value of the hidden field, up to the next quote
unfoldable pub extract_csrf : Text → Option Text
unfolding find_subslice split_once
extract_csrf html = and_then (find_subslice html needle) (λ at_needle.
    Option.map (λ (p : Text × Text). p.0) (split_once b'"' (drop (at_needle + length needle) html)))

-- A request of the login chain: the form or a page
pub data ChainRequest (Url : Type 0) : Type 0 where
  post_form : ChainRequest Url
  get_page : Url → ChainRequest Url

pub record ChainResponse : Type 0 where
  pub location : Option Text
  pub status : ℕ
  pub body : Text

-- The client of the chain: what the server answers to the requests so far, how a Location is joined
-- to the URL of the request, and the query of a URL.
pub record Chain (Url : Type 0) : Type 0 where
  pub execute : List (ChainRequest Url) → Result Text ChainResponse
  pub join : ChainRequest Url → Text → Result Text Url
  pub query_pairs : Url → List (Text × Text)
  pub build : Url → Result Text (ChainRequest Url)

module _ {Url : Type 0} (chain : Chain Url) where
  unfoldable pub find_code : List (Text × Text) → Option Text
  unfolding same_text
  find_code [] = none
  find_code ((k, v) ∷ rest) =
      let further = find_code rest in if same_text k (codes "code") then some v else further

  -- A redirection gives the code, or the next request of the chain, which goes on with `further`.
  unfoldable pub redirected :
      ChainRequest Url → Text → (ChainRequest Url → Result AuthError Text) → Result AuthError Text
  unfolding find_code
  redirected request loc further = map_err (chain.join request loc) bad_token_response >>= (λ url.
      elim (find_code (chain.query_pairs url)) [
        | some code ↦ success code
        | none ↦ map_err (chain.build url) bad_token_response >>= further
      ])

  unfoldable pub answered :
      ChainRequest Url
      → (ChainRequest Url → Result AuthError Text)
      → ChainResponse
      → Result AuthError Text
  unfolding redirected take_chars
  answered request further resp = elim resp.location [
    | some loc ↦ redirected request loc further
    | none ↦ failure (login_rejected resp.status (take_chars 800 0 resp.body))
  ]

  -- The loop, with the hops that are left; `sent` are the requests so far, the latest first.
  unfoldable pub follow : ℕ → List (ChainRequest Url) → ChainRequest Url → Result AuthError Text
  unfolding answered
  follow zero sent request = failure no_auth_code
  follow (suc hops) sent request =
      map_err (chain.execute (request ∷ sent)) bad_token_response
      >>= answered request (follow hops (request ∷ sent))

  unfoldable pub follow_chain_for_code : Result Text (ChainRequest Url) → Result AuthError Text
  unfolding follow
  follow_chain_for_code form = map_err form bad_token_response >>= follow 6 []

-- The account server, behind the URLs and the HTTP client: each call fails as the source's call can.
-- The form is built for the token that the login page has.
pub record Account (Url : Type 0) : Type 0 where
  pub chain : Chain Url
  pub login_url : Result Text Url
  pub chain_client : Result Text (Unit {0})
  pub login_page : Url → Result Text Text
  pub form : Url → Text → Result Text (ChainRequest Url)
  pub token_url : Result Text Url
  pub exchange : Text → Result HttpError Text
  pub refresh_call : Text → Result HttpError Text
  pub token_response : Text → Result Text TokenResponse
  -- Without the panic of `read_exp`, which ends the task.
  pub read_exp : Text → Result JwtError ℕ
  pub message : JwtError → Text

module _ {Url : Type 0} (account : Account Url) where
  -- The tokens of a response
  unfoldable pub stored : Text → Result AuthError StoredTokens
  stored resp = do
    tokens ← map_err (account.token_response resp) bad_token_response
    access_expires_at ←
        map_err (account.read_exp tokens.access_token) (λ e. bad_token_response (account.message e))
    success (record {
      access_token = tokens.access_token;
      refresh_token = tokens.refresh_token;
      access_expires_at = access_expires_at;
    })

  unfoldable pub bootstrap : Result AuthError StoredTokens
  unfolding extract_csrf follow_chain_for_code stored
  bootstrap = do
    login_url ← map_err account.login_url bad_token_response
    built ← map_err account.chain_client bad_token_response
    body ← map_err (account.login_page login_url) bad_token_response
    csrf ← ok_or (extract_csrf body) no_csrf
    code ← follow_chain_for_code account.chain (account.form login_url csrf)
    token_url ← map_err account.token_url bad_token_response
    resp ← map_err (account.exchange code) http
    stored resp

  unfoldable pub refresh : Text → Result AuthError StoredTokens
  refresh refresh_token = do
    token_url ← map_err account.token_url bad_token_response
    resp ← map_err (account.refresh_call refresh_token) http
    stored resp
