-- ===== src/Tests/Auth.antt =====
-- auth/_provider.py at concrete users, access lists and tokens.
use ranger_ims_server.Prelude.{
  String, ◌<>◌, ◌≡◌, refl, true, false, ◌↔◌, ◌⊎◌, none, some, List, [], ◌∷◌, elem, string_eq,
  nat_eq, arith,
}
use ranger_ims_server.Text.{has_code, join}
use ranger_ims_server.Auth.Authorization.{nothing, write_incidents, meets}
use ranger_ims_server.Auth.Claims.{ok, Claims}
use ranger_ims_server.Auth.Acl.{ImsUser, match_acl}
use ranger_ims_server.Auth.Acl.Matching.{Matches, match_acl_iff}
use ranger_ims_server.Auth.Provider.{
  Settings, AccessLists, Jwt, bad_signature, signed, Request, jwt_issuer, authorizations_for_user,
  authorize_request, authorize_request_for_incident_report, credentials_for_user, token_claims,
  user_from_bearer_authorization,
}
use ranger_ims_server.Auth.Provider.Rights.{AreRights, authorizations_for_user-AreRights}
use ranger_ims_server.Auth.Provider.Requests.{ComesFrom, passed, authorize_request_iff}
use ranger_ims_server.Auth.Provider.Tokens.{token_roundtrip}
use ranger_ims_server.Auth.Provider.Reports.{report_access_iff}

abbrev ranger : ImsUser
ranger = record {
  uid = "bucket";
  short_names = "Bucket" ∷ [];
  active = false;
  groups = "Operator" ∷ "Shift Lead" ∷ [];
  hashed_password = none;
}

abbrev settings : Settings
settings = record { require_active = true; admin_users = "Tool" ∷ []; master_key = "" }

abbrev lists : AccessLists
lists = record {
  readers = λ e. "position:Operator" ∷ [];
  writers = λ e. "person:Tool" ∷ "*" ∷ [];
  reporters = λ e. [];
}

abbrev reader_list : List String
reader_list = "position:Operator" ∷ "person:Tool" ∷ []

abbrev reader_list_reversed : List String
reader_list_reversed = "person:Tool" ∷ "position:Operator" ∷ []

match_acl_iff_example :
    (match_acl true (some ranger) reader_list ≡ true) ↔ Matches true reader_list (some ranger)
match_acl_iff_example = match_acl_iff true (some ranger) reader_list

authorizations_for_user-AreRights_example :
    AreRights settings lists
      (some ranger)
      "2019"
      (authorizations_for_user settings lists (some ranger) (some "2019"))
authorizations_for_user-AreRights_example =
    authorizations_for_user-AreRights settings lists (some ranger) "2019"

abbrev claims : Claims
claims = record {
  iss = jwt_issuer;
  iat = 100;
  exp = 200;
  sub = "bucket";
  preferred_username = "Bucket";
  ranger_on_site = true;
  ranger_positions = "Operator";
}

-- A token library that refuses all tokens
abbrev refusing : Jwt
refusing = record { decode = λ text. bad_signature; encode = λ c. "" }

abbrev request : Request
request = record {
  authorization = none;
  session_user = some ranger;
  user = none;
  authorizations = nothing;
}

authorize_request_iff_example :
    ((authorize_request refusing settings lists 150 (some "2019") write_incidents request).0
      ≡ ok tt)
    ↔ ((u : ImsUser) × ComesFrom refusing 150 request u
        × (meets write_incidents (authorizations_for_user settings lists (some u) (some "2019"))
            ≡ true)
        × ((authorize_request refusing settings lists 150 (some "2019") write_incidents request).1
            ≡ passed refusing settings lists 150 (some "2019") request u))
authorize_request_iff_example =
    authorize_request_iff refusing settings lists 150 (some "2019") write_incidents request

abbrev known_request : Request
known_request = record request { user = some ranger }

abbrev authors : List String
authors = "Tool" ∷ "Bucket" ∷ []

report_access_iff_example :
    ((authorize_request_for_incident_report refusing settings lists 150 "2019" authors
        known_request).0
      ≡ ok tt)
    ↔ ((elem "Bucket" authors ≡ true)
        ⊎ (Matches true (lists.writers "2019") (some ranger)
            ⊎ Matches true (lists.readers "2019") (some ranger)))
report_access_iff_example =
    report_access_iff refusing settings lists 150 "2019" authors known_request ranger "Bucket" []
      refl refl

-- A token library whose only text stands for the claims of the Ranger
abbrev issued : Claims
issued = record {
  iss = jwt_issuer;
  iat = 100;
  exp = 160;
  sub = "bucket";
  preferred_username = "Bucket";
  ranger_on_site = false;
  ranger_positions = join "," ("Operator" ∷ "Shift Lead" ∷ []);
}

abbrev one_token : Jwt
one_token = record { decode = λ text. signed issued; encode = λ c. "e30.e30" }

no_comma_1 : has_code b',' "Operator" ≡ false
unfolding has_code nat_eq
no_comma_1 = refl

no_comma_2 : has_code b',' "Shift Lead" ≡ false
unfolding has_code nat_eq
no_comma_2 = refl

issued_lem : token_claims ranger 100 60 ≡ ok issued
unfolding token_claims
issued_lem = refl

text_issued : credentials_for_user one_token ranger 100 60 ≡ ok "e30.e30"
unfolding credentials_for_user token_claims
text_issued = refl

token_roundtrip_example :
    user_from_bearer_authorization one_token 120 (some ("Bearer " <> "e30.e30"))
    ≡ ok (
        some (record {
          uid = "bucket";
          short_names = "Bucket" ∷ [];
          active = false;
          groups = "Operator" ∷ "Shift Lead" ∷ [];
          hashed_password = none;
        }))
token_roundtrip_example =
    token_roundtrip one_token ranger "Bucket" [] "Operator" ("Shift Lead" ∷ []) 100 60 120 issued
      "e30.e30" refl refl no_comma_1 (no_comma_2, tt) issued_lem refl text_issued (omega arith)
      (omega arith)
