-- ===== src/Auth/Orchestrator/Examples.antt =====
-- src/prusa/auth.rs: calls for a token on a server that answers every refresh and refuses logins.
use buddy3d_proxy.Prelude.{
  ◌≡◌, refl, ℕ, ◌*◌, ◌^◌, none, some, List, [], ◌∷◌, ◌++◌, length, take, drop, take-length,
  drop-length,
}
use buddy3d_proxy.Prelude.Text.{Text, codes}
use buddy3d_proxy.Prelude.Results.{Result, success, failure}
use buddy3d_proxy.Auth.TokenStore.{StoredTokens, Files, Serde, Fault, no_fault, not_renamed}
use buddy3d_proxy.Auth.Login.{Account, post_form}
use buddy3d_proxy.Auth.Orchestrator.{Call, new, access_token, access_token_all}
use buddy3d_proxy.Auth.Orchestrator.Outcomes.{IsOutcome, access_token-IsOutcome}
use buddy3d_proxy.Auth.Orchestrator.Synced.{IsSynced, access_token_all-IsSynced}

-- A notation for tokens of one character and an expiry.
abbrev read_tokens : Text → Result Text StoredTokens
read_tokens (e ∷ n ∷ rest) =
    success
      (record { access_token = take n rest; refresh_token = drop n rest; access_expires_at = e })
read_tokens _ = failure (codes "too short")

abbrev notation : Serde
notation = record {
  to_bytes = λ t. t.access_expires_at ∷ length t.access_token ∷ (t.access_token ++ t.refresh_token);
  from_slice = read_tokens;
}

notation_reads_back : (t : StoredTokens) → notation.from_slice (notation.to_bytes t) ≡ success t
notation_reads_back t =
    rw (take-length t.access_token t.refresh_token, drop-length t.access_token t.refresh_token) refl

abbrev tokens : StoredTokens
tokens = record { access_token = codes "a"; refresh_token = codes "r"; access_expires_at = 1000 }

abbrev refreshing : Account ℕ
refreshing = record {
  chain = record {
    execute = λ sent. success (record { location = none; status = 200; body = codes "sign in" });
    join = λ request loc. success 0;
    query_pairs = λ url. [];
    build = λ url. success post_form;
  };
  login_url = success 0;
  chain_client = success tt;
  login_page = λ url. success (codes "name=\"csrfmiddlewaretoken\" value=\"c\"");
  form = λ url csrf. success post_form;
  token_url = success 1;
  exchange = λ code. success code;
  refresh_call = λ token. success token;
  token_response = λ body. success (record { access_token = codes "b"; refresh_token = codes "s" });
  read_exp = λ token. success 5000;
  message = λ e. codes "no expiry";
}

abbrev call : ℕ → Fault → Call ℕ
call now fault = record {
  now = now * 10 ^ 9;
  denied = none;
  fault = fault;
  account = refreshing;
  message = λ e. codes "not saved";
}

abbrev files : Files
files = record { dst = some (notation.to_bytes tokens); tmp = none }

abbrev calls : List (Call ℕ)
calls = call 100 no_fault ∷ call 960 (not_renamed (codes "full")) ∷ call 970 no_fault ∷ []

access_token-IsOutcome_example :
    IsOutcome notation
      (call 960 no_fault)
      (new files)
      (access_token notation (call 960 no_fault) (new files))
access_token-IsOutcome_example = access_token-IsOutcome notation (call 960 no_fault) (new files)

access_token_all-IsSynced_example : IsSynced notation (access_token_all notation calls (new files))
access_token_all-IsSynced_example =
    access_token_all-IsSynced notation calls files notation_reads_back
