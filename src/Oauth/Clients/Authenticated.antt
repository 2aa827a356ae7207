-- ===== src/Oauth/Clients/Authenticated.antt =====
-- What an authenticated client has shown.
use auth_sso.Base.{
  String, Bool, true, false, not, ◌≡◌, refl, subst, Option, none, some, List, ◌==◌, find,
  find-eq-some, Among, eq_iff, arith, truthy_text,
}
use auth_sso.Contracts.{entity_is_active}
use auth_sso.Domain.Auth.OauthClient.{validate_client_active}
use auth_sso.Errors.{Result, ok, err, Checked, throw_if, DomainError}
use auth_sso.Oauth.Clients.{
  ClientRow, Hashing, non_empty, secret_matches, check_secret, validate_client_secret, active_row,
  resolve_active_client, with_secret, authenticate_oauth_client,
}

non_empty-some :
    (o : Option String) (s : String) → non_empty o ≡ some s → (o ≡ some s) × (truthy_text s ≡ true)
non_empty-some none s h = cc
non_empty-some (some t) s h = ground arith

throw_unless : (b : Bool) (e : DomainError) → throw_if (not b) e ≡ ok tt → b ≡ true
throw_unless true e h = refl
throw_unless false e h = cc

check_secret-ok :
    (hashing : Hashing) (stored provided : Option String)
    → check_secret hashing stored provided ≡ ok tt
    → (hash secret : String) × (stored ≡ some hash)
      × (provided ≡ some secret)
      × (secret_matches hashing hash secret ≡ true)
check_secret-ok hashing none provided h = cc
check_secret-ok hashing (some hash) none h = cc
check_secret-ok hashing (some hash) (some secret) h =
    (hash, secret, refl, refl, throw_unless (secret_matches hashing hash secret) _ h)

-- The client's stored secret, and what was provided for it.
abbrev pub ShowsSecret : Hashing → Option String → Option String → Type 0
ShowsSecret hashing stored provided =
    (hash secret : String) × (stored ≡ some hash)
    × (provided ≡ some secret)
    × (truthy_text secret ≡ true)
    × (secret_matches hashing hash secret ≡ true)

validate_client_secret-ok :
    (hashing : Hashing) (stored provided : Option String)
    → validate_client_secret hashing stored provided ≡ ok tt
    → ShowsSecret hashing stored provided
unfolding validate_client_secret
validate_client_secret-ok hashing stored provided h =
    let (hash, secret, s, p, m) =
      check_secret-ok hashing (non_empty stored) (non_empty provided) h in
    (
      hash,
      secret,
      (non_empty-some stored hash s).0,
      (non_empty-some provided secret p).0,
      (non_empty-some provided secret p).1,
      m,
    )

ok_inj : {A : Type 0} {a b : A} → ok a ≡ ok b → a ≡ b
ok_inj h = cc

with_secret-ok :
    (hashing : Hashing) (provided : Option String) (r : Result ClientRow) (row : ClientRow)
    → with_secret hashing provided r ≡ ok row
    → (r ≡ ok row) × (validate_client_secret hashing row.client_secret provided ≡ ok tt)
with_secret-ok hashing provided (err e) row h = cc
with_secret-ok hashing provided (ok found) row h =
    checked (validate_client_secret hashing found.client_secret provided) refl h
  where
    checked :
        (c : Checked)
        → validate_client_secret hashing found.client_secret provided ≡ c
        → elim c as (λ _. Result ClientRow) [ ok _ ↦ ok found | err e ↦ err e ] ≡ ok row
        → (ok found ≡ ok row) × (validate_client_secret hashing row.client_secret provided ≡ ok tt)
    checked (ok t) v q = (
      q,
      subst (λ (f : ClientRow). validate_client_secret hashing f.client_secret provided ≡ ok tt)
          (ok_inj q) v,
    )
    checked (err e) v q = cc

active_row-ok :
    (o : Option ClientRow) (row : ClientRow)
    → active_row o ≡ ok row
    → (o ≡ some row) × (entity_is_active row.status ≡ true)
unfolding validate_client_active
active_row-ok none row h = cc
active_row-ok (some found) row h = ground arith

-- A client that authenticates is a row of the table with the client's id, is active, and has a
-- secret stored, which the provided secret, not empty, matches by its kind of hash.
pub authenticated_client :
    (hashing : Hashing) (clients : List ClientRow) (id : String) (provided : Option String)
    (row : ClientRow)
    → authenticate_oauth_client hashing clients id provided ≡ ok row
    → Among row clients
      × (row.client_id ≡ id)
      × (entity_is_active row.status ≡ true)
      × ShowsSecret hashing row.client_secret provided
unfolding authenticate_oauth_client resolve_active_client
authenticated_client hashing clients id provided row h =
    let (found, valid) = with_secret-ok hashing provided (resolve_active_client clients id) row h in
    let (some_row, active) = active_row-ok (find (λ r. r.client_id == id) clients) row found in
    let (same, among) = find-eq-some (λ r. r.client_id == id) clients row some_row in
    (
      among,
      (eq_iff row.client_id id).0 same,
      active,
      validate_client_secret-ok hashing row.client_secret provided valid,
    )
