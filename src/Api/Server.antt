-- ===== src/Api/Server.antt =====
-- A handler on the server: it calls the store's methods one after the other, and may reply early.
pub mod Sequences
use ranger_ims_server.Prelude.{ℕ, String, Option, none, some, List, [], ◌∷◌}
use ranger_ims_server.Auth.Authorization.{Authorization}
use ranger_ims_server.Auth.Claims.{AuthError}
use ranger_ims_server.Auth.Claims
use ranger_ims_server.Auth.Provider.{Settings, Jwt, Request, authorize_request}
use ranger_ims_server.Codec.Json
use ranger_ims_server.Store.Values.{Error, Result, ok, err}
use ranger_ims_server.Store.Transactions.{Connection, Action}
use ranger_ims_server.Store.Access.{access_lists}

-- `numbered` is the empty reply whose headers tell the number of what has been created.
pub data Reply : Type 0 where
  no_content not_found bad_request invalid_json invalid_query : Reply
  numbered : ℕ → Reply

-- The exceptions that a handler lets pass
pub data Failure : Type 0 where
  refused : AuthError → Failure
  failed : Error → Failure
  attribute_error other_exception : Failure
  json_error : Json.Error → Failure

pub data Outcome (A : Type 0) : Type 0 where
  value : A → Outcome A
  reply : Reply → Outcome A
  raised : Failure → Outcome A

abbrev pub Server : Type 0 → Type 0
Server A = Connection → Outcome A × Connection

abbrev pub give : {A : Type 0} → A → Server A
give a c = (value a, c)

abbrev pub stop : {A : Type 0} → Reply → Server A
stop r c = (reply r, c)

abbrev pub throw : {A : Type 0} → Failure → Server A
throw f c = (raised f, c)

infixl 5 ◌>>=◌ ◌>>◌
abbrev pub ◌>>=◌ : {A B : Type 0} → Server A → (A → Server B) → Server B
◌>>=◌ m f c =
    let (o, c') = m c in
    elim o [ value a ↦ f a c' | reply r ↦ (reply r, c') | raised x ↦ (raised x, c') ]

abbrev pub ◌>>◌ : {B : Type 0} → Server (Unit {0}) → Server B → Server B
m >> k = m >>= λ _. k

-- `await store.method(…)`
outcome : {A : Type 0} → Result A → Outcome A
outcome (ok a) = value a
outcome (err e) = raised (failed e)

unfoldable pub call : {A : Type 0} → Action A → Server A
unfolding outcome
call m c = (outcome (m c).0, (m c).1)

-- `for x in xs: await f(x)`
unfoldable pub for_each : {A : Type 0} → List A → (A → Server (Unit {0})) → Server (Unit {0})
for_each [] f = give tt
for_each (x ∷ xs) f = do f x; for_each xs f

-- `if key in json: await f(json[key])`
unfoldable pub if_set : {A : Type 0} → Option A → (A → Server (Unit {0})) → Server (Unit {0})
if_set none f = give tt
if_set (some a) f = f a

-- The body of a request, which is JSON or not, and a dictionary or not
pub data Body (A : Type 0) : Type 0 where
  not_json not_dictionary : Body A
  json : A → Body A

unfoldable pub body_of : {A : Type 0} → Body A → Server A
body_of not_json = stop invalid_json
body_of not_dictionary = stop bad_request
body_of (json a) = give a

-- `edits.items()`, where the code does not test for a dictionary
unfoldable pub items_of : {A : Type 0} → Body A → Server A
items_of not_json = stop invalid_json
items_of not_dictionary = throw attribute_error
items_of (json a) = give a

module _ (jwt : Jwt) (s : Settings) (now : ℕ) where
  passed_on : Claims.Result (Unit {0}) × Request → Server Request
  passed_on (Claims.Result.ok _, r) = give r
  passed_on (Claims.Result.err x, r) = throw (refused x)

  -- `await authProvider.authorizeRequest(…)`, which reads the access lists from the store
  unfoldable pub authorized : Option String → Authorization → Request → Server Request
  unfolding passed_on
  authorized event_id required r c =
      passed_on (authorize_request jwt s (access_lists c) now event_id required r) c

first_short_name : List String → Server String
first_short_name [] = throw (refused AuthError.index_error)
first_short_name (name ∷ names) = give name

-- `request.user.shortNames[0]`; a request that has been authorized has a user.
unfoldable pub author_of : Request → Server String
unfolding first_short_name
author_of r = elim r.user [
  | none ↦ throw (refused AuthError.not_authenticated)
  | some user ↦ first_short_name user.short_names
]
