-- ===== src/Auth/Provider/Tokens.antt =====
-- A token that the server issues, when it comes back in a header.
use mathlib.Core.Path.{subst}
use ranger_ims_server.Prelude.{
  ℕ, ◌+◌, ◌≤◌, String, ◌<>◌, ◌≡◌, refl, ap, false, none, some, List, All, ◌∙◌, arith,
}
use ranger_ims_server.Text.{has_code, split, join}
use ranger_ims_server.Text.SplitJoin.{split-join}
use ranger_ims_server.Text.Prefix.{remove_prefix-append, cons-append-ne-nil}
use ranger_ims_server.Auth.Claims.{ok, Claims}
use ranger_ims_server.Auth.Acl.{ImsUser}
use ranger_ims_server.Auth.Provider.{
  Jwt, signed, jwt_issuer, user_from_claims, user_from_bearer_authorization, token_claims,
  credentials_for_user,
}
use ranger_ims_server.Auth.Provider.Requests.{bearer_complete}

-- What is documented of the token library, at the claims of the token: signing them and then checking
-- the text with the same key gives them back.
abbrev pub DecodesWhatItSigns : Jwt → Claims → Type 0
DecodesWhatItSigns jwt c = jwt.decode (jwt.encode c) ≡ signed c

module _ (user : ImsUser) (name : String) (now duration : ℕ) where
  abbrev claims : Claims
  claims = record {
    iss = jwt_issuer;
    iat = now;
    exp = now + duration;
    sub = user.uid;
    preferred_username = name;
    ranger_on_site = user.active;
    ranger_positions = join "," user.groups;
  }

  token_claims_lem :
      (names : List String) (c : Claims)
      → user.short_names ≡ List.◌∷◌ name names
      → token_claims user now duration ≡ ok c
      → c ≡ claims
  unfolding token_claims
  token_claims_lem names c named given = ground arith

  accepted :
      (jwt : Jwt) (later : ℕ)
      → DecodesWhatItSigns jwt claims
      → now ≤ later
      → later ≤ now + duration
      → user_from_bearer_authorization jwt later (some ("Bearer " <> jwt.encode claims))
        ≡ ok (some (user_from_claims claims))
  accepted jwt later law after before =
      bearer_complete jwt later ("Bearer " <> jwt.encode claims) claims (record {
        text = jwt.encode claims;
        given = cons-append-ne-nil _ _ _;
        bearer = remove_prefix-append "Bearer " (jwt.encode claims);
        decoded = law;
        issuer = refl;
        issued = after;
        not_expired = before;
      })

text_lem :
    (jwt : Jwt) (user : ImsUser) (now duration : ℕ) (c : Claims) (text : String)
    → token_claims user now duration ≡ ok c
    → credentials_for_user jwt user now duration ≡ ok text
    → text ≡ jwt.encode c
unfolding credentials_for_user
text_lem jwt user now duration c text made given = ground arith

split_groups :
    (user : ImsUser) (group : String) (groups : List String)
    → user.groups ≡ List.◌∷◌ group groups
    → has_code b',' group ≡ false
    → All (λ g. has_code b',' g ≡ false) groups
    → split b',' (join "," user.groups) ≡ user.groups
split_groups user group groups e g gs = simp e (split-join _ group groups g gs)

-- Until it expires, a token that is issued to a user with groups brings back the user's ID, first
-- short name, activity and groups, if no group's name holds a comma and the token library gives the
-- claims of the token back.
pub token_roundtrip :
    (jwt : Jwt) (user : ImsUser) (name : String) (names : List String) (group : String)
    (groups : List String) (now duration later : ℕ) (c : Claims) (text : String)
    → user.short_names ≡ List.◌∷◌ name names
    → user.groups ≡ List.◌∷◌ group groups
    → has_code b',' group ≡ false
    → All (λ g. has_code b',' g ≡ false) groups
    → token_claims user now duration ≡ ok c
    → DecodesWhatItSigns jwt c
    → credentials_for_user jwt user now duration ≡ ok text
    → now ≤ later
    → later ≤ now + duration
    → user_from_bearer_authorization jwt later (some ("Bearer " <> text))
      ≡ ok (
          some (record {
            uid = user.uid;
            short_names = List.◌∷◌ name List.[];
            active = user.active;
            groups = user.groups;
            hashed_password = none;
          }))
unfolding user_from_claims
token_roundtrip jwt user name names group groups now duration later c text named grouped g gs made
      law given after before =
    let same_claims = token_claims_lem user name now duration names c named made in
    let same_text = text_lem jwt user now duration c text made given ∙ ap jwt.encode same_claims in
    rw same_text (
      accepted user name now duration jwt later (subst (DecodesWhatItSigns jwt) same_claims law)
        after before
      ∙ ap
          (λ gs. ok (
            some (record {
              uid = user.uid;
              short_names = List.◌∷◌ name List.[];
              active = user.active;
              groups = gs;
              hashed_password = none;
            })))
          (split_groups user group groups grouped g gs))
