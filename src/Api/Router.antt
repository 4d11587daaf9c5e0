-- ===== src/Api/Router.antt =====
-- application/_klein.py: the router, which looks for a user before a request is handled, and the
-- responses to what handlers raise.
use ranger_ims_server.Prelude.{
  ℕ, String, Bool, true, false, ◌≡◌, ◌≢◌, refl, sym, ap, ◌∙◌, ◌⊎◌, inl, inr, Option, none, some,
  string_eq, ◌==◌, if◌then◌else◌, arith,
}
use ranger_ims_server.Auth.Authorization.{meets}
use ranger_ims_server.Auth.Claims
use ranger_ims_server.Auth.Claims.{AuthError}
use ranger_ims_server.Auth.Acl.{ImsUser}
use ranger_ims_server.Auth.Provider.{
  Settings, Jwt, Request, check_authentication, authorizations_for_user,
}
use ranger_ims_server.Auth.Provider.Requests.{ComesFrom, HasNoToken}
use ranger_ims_server.Auth.Provider.Refused.{Result-cases}
use ranger_ims_server.Auth.Provider.Checked.{ComesFrom-checked, nobody-checked, nobody-refused}
use ranger_ims_server.Model.Time.{DateTime}
use ranger_ims_server.Codec.Converter.{Converter}
use ranger_ims_server.Store.Transactions.{Connection}
use ranger_ims_server.Store.Access.{access_lists}
use ranger_ims_server.Api.Server.{
  Server, Reply, no_content, not_found, bad_request, invalid_json, invalid_query, numbered, Failure,
  refused, Outcome, value, reply, raised, throw,
}
use ranger_ims_server.Api.Authorized.{Post, asked, serve, serve-raises, changes_are_authorized}

-- The response's code
pub data Status : Type 0 where
  no_content_204 found_302 bad_request_400 forbidden_403 not_found_404 internal_error_500 : Status

unfoldable pub status_of_reply : Reply → Status
status_of_reply no_content = no_content_204
status_of_reply (numbered n) = no_content_204
status_of_reply not_found = not_found_404
status_of_reply bad_request = bad_request_400
status_of_reply invalid_json = bad_request_400
status_of_reply invalid_query = bad_request_400

-- `redirect`, for a request whose URI can be taken into the location, or not
unfoldable pub redirect : Bool → Status
redirect valid_uri = if valid_uri then found_302 else bad_request_400

unfoldable pub not_authenticated_response : Option String → Bool → Status
not_authenticated_response none valid_uri = redirect valid_uri
not_authenticated_response (some requested_with) valid_uri =
    if requested_with == "XMLHttpRequest" then forbidden_403 else redirect valid_uri

-- The handlers that `_registerHandlers` registers for errors
unfoldable pub status_of_failure : Option String → Bool → Failure → Status
status_of_failure requested_with valid_uri (refused AuthError.not_authorized) = forbidden_403
status_of_failure requested_with valid_uri (refused AuthError.invalid_credentials) = forbidden_403
status_of_failure requested_with valid_uri (refused AuthError.not_authenticated) =
    not_authenticated_response requested_with valid_uri
status_of_failure requested_with valid_uri other = internal_error_500

unfoldable pub response : Option String → Bool → Outcome Reply → Status
response requested_with valid_uri (value r) = status_of_reply r
response requested_with valid_uri (reply r) = status_of_reply r
response requested_with valid_uri (raised x) = status_of_failure requested_with valid_uri x

module _ (conv : Converter) (jwt : Jwt) (s : Settings) (now : ℕ) (clock stored : DateTime) where
  routed_on : Post → Claims.Result (Unit {0}) × Request → Server Reply
  routed_on post (Claims.Result.ok _, r) = serve conv jwt s now clock stored post r
  routed_on post (Claims.Result.err x, r) = throw (refused x)

  -- The wrapper of `Router.route`
  unfoldable pub routed : Post → Request → Server Reply
  unfolding routed_on
  routed post r = routed_on post (check_authentication jwt now r)

  unfoldable pub answered : Option String → Bool → Post → Request → Connection → Status × Connection
  answered requested_with valid_uri post r c =
      (response requested_with valid_uri (routed post r c).0, (routed post r c).1)

abbrev pub is_script : Option String → Bool
is_script none = false
is_script (some requested_with) = requested_with == "XMLHttpRequest"

script-response :
    (requested_with : Option String)
    → not_authenticated_response requested_with true
      ≡ (if is_script requested_with then forbidden_403 else found_302)
unfolding not_authenticated_response redirect
script-response none = refl
script-response (some name) = refl

-- Only a handler's own reply is a success.
failure-ne-no_content :
    (requested_with : Option String) (valid_uri : Bool) (x : Failure)
    → status_of_failure requested_with valid_uri x ≢ no_content_204
unfolding status_of_failure not_authenticated_response redirect
failure-ne-no_content none v (refused AuthError.not_authenticated) h = ground arith
failure-ne-no_content (some name) v (refused AuthError.not_authenticated) h = ground arith
failure-ne-no_content r v (refused AuthError.not_authorized) h = cc
failure-ne-no_content r v (refused AuthError.invalid_credentials) h = cc
failure-ne-no_content r v (refused AuthError.index_error) h = cc
failure-ne-no_content r v (refused AuthError.token_error) h = cc
failure-ne-no_content r v (Failure.failed e) h = cc
failure-ne-no_content r v Failure.attribute_error h = cc
failure-ne-no_content r v Failure.other_exception h = cc
failure-ne-no_content r v (Failure.json_error e) h = cc

response-reply :
    (requested_with : Option String) (valid_uri : Bool) (o : Outcome Reply)
    → response requested_with valid_uri o ≡ no_content_204
    → ((answer : Reply) × (o ≡ reply answer)) ⊎ ((answer : Reply) × (o ≡ value answer))
unfolding response
response-reply r v (value answer) h = inr (answer, refl)
response-reply r v (reply answer) h = inl (answer, refl)
response-reply r v (raised x) h = elim (failure-ne-no_content r v x h) [ ]

module _ (conv : Converter) (jwt : Jwt) (s : Settings) (now : ℕ) (clock stored : DateTime) where
  routed-ok :
      (post : Post) (r : Request) (c : Connection)
      → (check_authentication jwt now r).0 ≡ Claims.Result.ok tt
      → routed conv jwt s now clock stored post r c
        ≡ serve conv jwt s now clock stored post (check_authentication jwt now r).1 c
  unfolding routed routed_on
  routed-ok post r c h = ground (arith, h)

  routed-err :
      (post : Post) (r : Request) (c : Connection) (f : AuthError)
      → (check_authentication jwt now r).0 ≡ Claims.Result.err f
      → routed conv jwt s now clock stored post r c ≡ (raised (refused f), c)
  unfolding routed routed_on
  routed-err post r c f h = ground (arith, h)

-- A request to write that names no user, neither by a token nor by a session, and whose URI can be written
-- into another's, is forbidden if it says that it comes from a script, and is otherwise sent to the login
-- page; the store stays as it is.
pub nobody_is_refused :
    (conv : Converter) (jwt : Jwt) (s : Settings) (now : ℕ) (clock stored : DateTime)
    (requested_with : Option String) (post : Post) (r : Request) (c : Connection)
    → r.user ≡ none
    → HasNoToken r.authorization
    → r.session_user ≡ none
    → answered conv jwt s now clock stored requested_with true post r c
      ≡ ((if is_script requested_with then forbidden_403 else found_302), c)
unfolding answered routed routed_on response status_of_failure
nobody_is_refused conv jwt s now clock stored requested_with post r c unknown bare no_session =
    let stopped =
      nobody-refused jwt now s (access_lists c) (asked post).0 (asked post).1 r unknown bare
        no_session in
    rw
      (
        nobody-checked jwt now r unknown bare no_session,
        serve-raises conv jwt s now clock stored post r c AuthError.not_authenticated stopped,
      )
      (ap (λ status. (status, c)) (script-response requested_with))

-- If a request to write is answered with success, or changes the store, then it comes from a user who
-- has, by the access lists as they are, the authorization that its handler asks for.
pub success_is_authorized :
    (conv : Converter) (jwt : Jwt) (s : Settings) (now : ℕ) (clock stored : DateTime)
    (requested_with : Option String) (valid_uri : Bool) (post : Post) (r : Request) (c : Connection)
    → ((answered conv jwt s now clock stored requested_with valid_uri post r c).0 ≡ no_content_204)
      ⊎ ((answered conv jwt s now clock stored requested_with valid_uri post r c).1 ≢ c)
    → (u : ImsUser) × ComesFrom jwt now r u
      × (meets (asked post).1 (authorizations_for_user s (access_lists c) (some u) (asked post).0)
          ≡ true)
unfolding answered response
success_is_authorized conv jwt s now clock stored requested_with valid_uri post r c seen =
    elim (Result-cases (check_authentication jwt now r).0) [
      | inr (f, bad) ↦
          let stopped = routed-err conv jwt s now clock stored post r c f bad in
          elim seen [
            | inl success ↦
                elim (failure-ne-no_content requested_with valid_uri (refused f)
                  (ground (arith, stopped))) [ ]
            | inr changed ↦
                elim (changed (ap (λ (p : Outcome Reply × Connection). p.1) stopped)) [ ]
          ]
      | inl (_, fine) ↦
          let r' = (check_authentication jwt now r).1 in
          let goes = routed-ok conv jwt s now clock stored post r c fine in
          let (u, from, rights) =
            changes_are_authorized conv jwt s now clock stored post r' c (elim seen [
              | inl success ↦ inr (
                  response-reply requested_with valid_uri
                    (serve conv jwt s now clock stored post r' c).0
                    (ap (λ (p : Outcome Reply × Connection). response requested_with valid_uri p.0)
                        (sym goes)
                      ∙ success))
              | inr changed ↦
                  inl (λ same. changed (ap (λ (p : Outcome Reply × Connection). p.1) goes ∙ same))
            ]) in
          (u, ComesFrom-checked jwt now r u fine from, rights)
    ]
