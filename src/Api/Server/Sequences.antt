-- ===== src/Api/Server/Sequences.antt =====
-- Sequences of the server that give a value, taken apart.
use ranger_ims_server.Prelude.{
  ℕ, Option, true, String, ◌≡◌, refl, ◌⊎◌, inl, inr, some, List, [], ◌∷◌, arith,
}
use ranger_ims_server.Auth.Acl.{ImsUser}
use ranger_ims_server.Auth.Authorization.{Authorization, meets}
use ranger_ims_server.Auth.Provider.{
  Settings, Jwt, Request, authorize_request, authorizations_for_user,
}
use ranger_ims_server.Auth.Provider.Requests.{ComesFrom, authorize_request_iff}
use ranger_ims_server.Auth.Provider.Refused.{Result-cases}
use ranger_ims_server.Store.Access.{access_lists}
use ranger_ims_server.Store.Values.{ok}
use ranger_ims_server.Store.Transactions.{Connection, Action}
use ranger_ims_server.Api.Server.{
  Server, Outcome, Reply, Failure, value, reply, raised, call, outcome, author_of, authorized,
  ◌>>=◌,
}

pub outcome-cases :
    {A : Type 0} (o : Outcome A)
    → ((a : A) × (o ≡ value a)) ⊎ ((x : Reply) × (o ≡ reply x)) ⊎ ((x : Failure) × (o ≡ raised x))
outcome-cases (value a) = inl (a, refl)
outcome-cases (reply x) = inr (inl (x, refl))
outcome-cases (raised x) = inr (inr (x, refl))

-- Inversion of a sequence that gives a value
pub >>=-eq-value :
    {A B : Type 0} (m : Server A) (f : A → Server B) (c : Connection) (b : B)
    → ((m >>= f) c).0 ≡ value b
    → (a : A) × (m c ≡ (value a, (m c).1)) × ((f a (m c).1).0 ≡ value b)
>>=-eq-value m f c b h = elim (outcome-cases (m c).0) [
  | inl (a, gives) ↦ (a, ground arith, ground (arith, gives))
  | inr (inl (x, replies)) ↦ ground (arith, replies)
  | inr (inr (x, raises)) ↦ ground (arith, raises)
]

-- The same with the connection that it leaves
pub >>=-gives :
    {A B : Type 0} (m : Server A) (f : A → Server B) (c c' : Connection) (b : B)
    → (m >>= f) c ≡ (value b, c')
    → (a : A) × (c₁ : Connection) × (m c ≡ (value a, c₁)) × (f a c₁ ≡ (value b, c'))
>>=-gives m f c c' b h = elim (outcome-cases (m c).0) [
  | inl (a, gives) ↦ (a, (m c).1, ground arith, ground (arith, gives))
  | inr (inl (x, replies)) ↦ ground (arith, replies)
  | inr (inr (x, raises)) ↦ ground (arith, raises)
]

pub call-gives :
    {A : Type 0} (m : Action A) (a : A) (c c' : Connection)
    → call m c ≡ (value a, c')
    → m c ≡ (ok a, c')
unfolding call outcome
call-gives m a c c' h = ground arith

names-cases :
    (xs : List String) → (xs ≡ []) ⊎ ((x : String) × (rest : List String) × (xs ≡ x ∷ rest))
names-cases [] = inl refl
names-cases (x ∷ xs) = inr (x, xs, refl)

pub author_of-gives :
    (r : Request) (u : ImsUser) (author : String) (c c' : Connection)
    → r.user ≡ some u
    → author_of r c ≡ (value author, c')
    → (c' ≡ c) × ((names : List String) × (u.short_names ≡ author ∷ names))
unfolding author_of
author_of-gives r u author c c' known h = elim (names-cases u.short_names) [
  | inl nameless ↦ ground (arith, nameless)
  | inr (name, names, named) ↦ (ground (arith, named), (names, ground (arith, named)))
]

pub call-ok :
    {A : Type 0} (m : Action A) (a : A) (c c' : Connection)
    → m c ≡ (ok a, c')
    → call m c ≡ (value a, c')
unfolding call outcome
call-ok m a c c' h = rw h refl

pub >>=-value :
    {A B : Type 0} (m : Server A) (f : A → Server B) (a : A) (c c' : Connection)
    → m c ≡ (value a, c')
    → (m >>= f) c ≡ f a c'
>>=-value m f a c c' h = ground (arith, h)

-- A request that has been authorized comes from a user who may do what is required.
pub authorized-gives :
    (jwt : Jwt) (s : Settings) (now : ℕ) (e : Option String) (required : Authorization)
    (r : Request) (c : Connection) (r' : Request) (c' : Connection)
    → authorized jwt s now e required r c ≡ (value r', c')
    → (c' ≡ c)
      × ((u : ImsUser) × ComesFrom jwt now r u
          × (meets required (authorizations_for_user s (access_lists c) (some u) e) ≡ true)
          × (r'.user ≡ some u))
unfolding authorized
authorized-gives jwt s now e required r c r' c' h =
    let asked = authorize_request jwt s (access_lists c) now e required r in
    elim (Result-cases asked.0) [
      | inl (_, passed_it) ↦
          let (u, from, rights, after) =
            (authorize_request_iff jwt s (access_lists c) now e required r).0 passed_it in
          (ground (arith, passed_it), (u, from, rights, ground (arith, passed_it, after)))
      | inr (f, stopped) ↦ ground (arith, stopped)
    ]
