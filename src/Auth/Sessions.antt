-- ===== src/Auth/Sessions.antt =====
-- What the tokens of a registered user are good for.
use text.Mathlib.Text.{◌==◌ as str_eq}
use text.Mathlib.TextPositions.{eq_refl}
use car_flow_mvp.Base.{
  ℕ, ◌+◌, ◌≤◌, ◌<◌, ◌≡◌, refl, sym, ap, ◌∙◌, true, false, none, some, String, List, [], ◌∷◌, ◌++◌,
  ==_refl, inl, inr, Bool-cases, Option-cases, arith,
}
use car_flow_mvp.Base.Result.{Result, ok, err}
use car_flow_mvp.Base.Exec.{continue, caught}
use car_flow_mvp.Base.Table.{find, find-append_one}
use car_flow_mvp.Shared.Http.{http_exception}
use car_flow_mvp.Shared.Auth.{Role, Claims}
use car_flow_mvp.Shared.Tokens.{Jwt, access, refresh, claims_dependency}
use car_flow_mvp.Auth.{
  User, AuthDb, AuthError, email_already_registered, PasswordHasher, AuthSettings, user_key,
  find_email, get_by_email, get_by_id, create, register_user, authenticate_user, payload,
}
use car_flow_mvp.Auth.Routes.{token_response, user_response, login, refresh_tokens, me}

find_email-append :
    (email : String) (user : User) (users : List User)
    → find_email email users ≡ none
    → str_eq user.email email ≡ true
    → find_email email (users ++ user ∷ []) ≡ some user
unfolding find_email
find_email-append email user [] absent same = rw (same) refl
find_email-append email user (u ∷ users) absent same = elim (Bool-cases (str_eq u.email email)) [
  | inl other ↦ cc
  | inr other ↦ rw (other) (find_email-append email user users (ground arith) same)
]

-- The row that a registration inserts.
abbrev new_user : PasswordHasher → (user_id salt : ℕ) → (email name password : String) → Role → User
new_user hasher user_id salt email name password role = record {
  id = user_id;
  email = email;
  name = name;
  password_hash = hasher.hash salt password;
  role = role;
}

module _ (hasher : PasswordHasher) where
  created :
      (user_id salt : ℕ) (email name password : String) (role : Role) (db : AuthDb)
      → find_email email db.users ≡ none
      → create user_id email name (hasher.hash salt password) role db ≡ (
        ok (new_user hasher user_id salt email name password role),
        record db {
          users = db.users ++ new_user hasher user_id salt email name password role ∷ [];
        },
      )
  unfolding create
  created user_id salt email name password role db absent = rw (absent) refl

  -- What a registration that returns did.
  registered :
      (user_id salt : ℕ) (email name password : String) (role : Role) (db db' : AuthDb)
      (user : User)
      → register_user hasher user_id salt email name password role db ≡ (ok user, db')
      → (find_email email db.users ≡ none)
        × (user ≡ new_user hasher user_id salt email name password role)
        × (db' ≡ record db { users = db.users ++ user ∷ [] })
  unfolding register_user get_by_email
  registered user_id salt email name password role db db' user h =
      elim (Option-cases (find_email email db.users)) [
        | inl absent ↦
            let made = new_user hasher user_id salt email name password role in
            let step : register_user hasher user_id salt email name password role db
                ≡ (ok made, record db { users = db.users ++ made ∷ [] }) =
              rw (absent, created user_id salt email name password role db absent, caught, continue)
                refl in
            let same : user ≡ made = cc in
            let left = ap (λ (o : Result AuthError User × AuthDb). o.1) (sym h ∙ step) in
            (absent, same, left ∙ ap (λ u. record db { users = db.users ++ u ∷ [] }) (sym same))
        | inr (old, found) ↦
            let step : register_user hasher user_id salt email name password role db
                ≡ (err email_already_registered, db) =
              rw (found, continue) refl in
            cc
      ]

  module _ (jwt : Jwt) (settings : AuthSettings) where
    logs_in :
        (t : ℕ) (email password : String) (user : User) (db : AuthDb)
        → find_email email db.users ≡ some user
        → hasher.verify user.password_hash password ≡ true
        → login hasher jwt settings t email password db
          ≡ (ok (token_response hasher jwt settings t user), db)
    unfolding login authenticate_user get_by_email
    logs_in t email password user db found right = rw (found, right, caught, continue) refl

    access_read :
        (t u : ℕ) (user : User)
        → t ≤ u
        → u < t + settings.access_token_ttl_seconds
        → claims_dependency jwt settings.jwt_issuer access u
            (some (token_response hasher jwt settings t user).access_token)
          ≡ ok (record { sub = user.id; role = user.role })
    unfolding claims_dependency
    access_read t u user issued fresh =
        let token =
          (payload settings.jwt_issuer t user.id user.role access
            settings.access_token_ttl_seconds) in
        rw (jwt.decode-encode u token issued fresh) refl

    refreshes :
        (t u : ℕ) (user : User) (db : AuthDb)
        → t ≤ u
        → u < t + settings.refresh_token_ttl_seconds
        → find user_key user.id db.users ≡ some user
        → refresh_tokens hasher jwt settings u
            (token_response hasher jwt settings t user).refresh_token
            db
          ≡ (ok (token_response hasher jwt settings u user), db)
    unfolding refresh_tokens get_by_id
    refreshes t u user db issued fresh found =
        let token =
          (payload settings.jwt_issuer t user.id user.role refresh
            settings.refresh_token_ttl_seconds) in
        rw (jwt.decode-encode u token issued fresh, found, caught, continue) refl

    reads_account :
        (user : User) (db : AuthDb)
        → find user_key user.id db.users ≡ some user
        → me (record { sub = user.id; role = user.role }) db ≡ (ok (user_response user), db)
    unfolding me get_by_id
    reads_account user db found = rw (found, caught, continue) refl

    -- A user who registered under a new id logs in with the email and the password of the registration;
    -- from that time until it expires, the access token names the user and the role, and reads the user's
    -- account; from that time until it expires, the refresh token gives a new pair; and none of it changes
    -- the tables.
    pub account_works :
        (user_id salt t u w : ℕ) (email name password : String) (role : Role) (db db' : AuthDb)
        (user : User)
        → find user_key user_id db.users ≡ none
        → register_user hasher user_id salt email name password role db ≡ (ok user, db')
        → t ≤ u
        → u < t + settings.access_token_ttl_seconds
        → t ≤ w
        → w < t + settings.refresh_token_ttl_seconds
        → let tokens = token_response hasher jwt settings t user in
          let claims : Claims = record { sub = user_id; role = role } in
          (login hasher jwt settings t email password db' ≡ (ok tokens, db'))
          × (claims_dependency jwt settings.jwt_issuer access u (some tokens.access_token)
              ≡ ok claims)
          × (me claims db' ≡ (ok (user_response user), db'))
          × (refresh_tokens hasher jwt settings w tokens.refresh_token db'
              ≡ (ok (token_response hasher jwt settings w user), db'))
    account_works user_id salt t u w email name password role db db' user new h issued fresh issued'
          fresh' =
        let (absent, made, after) =
          registered user_id salt email name password role db db' user h in
        let id_same : user.id ≡ user_id = ap (λ (x : User). x.id) made in
        let role_same : user.role ≡ role = ap (λ (x : User). x.role) made in
        let rows = ap (λ (x : AuthDb). x.users) after in
        let same_email : str_eq user.email email ≡ true =
          ap (λ (x : User). str_eq x.email email) made ∙ eq_refl email in
        let by_email : find_email email db'.users ≡ some user =
          ap (find_email email) rows ∙ find_email-append email user db.users absent same_email in
        let by_id : find user_key user.id db'.users ≡ some user =
          ap (find user_key user.id) rows
          ∙ rw (find-append_one user_key user.id user db.users, id_same, new, ==_refl user_id)
              refl in
        let right : hasher.verify user.password_hash password ≡ true =
          ap (λ (x : User). hasher.verify x.password_hash password) made
          ∙ hasher.verify-hash salt password in
        let who : ◌≡◌ {A = Claims} (record { sub = user.id; role = user.role })
            (record { sub = user_id; role = role }) =
          cc in
        (
          logs_in t email password user db' by_email right,
          access_read t u user issued fresh ∙ ap (λ c. ok c) who,
          ap (λ c. me c db') (sym who) ∙ reads_account user db' by_id,
          refreshes t w user db' issued' fresh' by_id,
        )

    -- The tokens of a pair do not stand in for each other: from their issue until they expire, the access token is
    -- refused where tokens are refreshed, and the refresh token where a request names its caller.
    pub tokens_not_interchangeable :
        (t u : ℕ) (user : User) (db : AuthDb)
        → t ≤ u
        → u < t + settings.access_token_ttl_seconds
        → u < t + settings.refresh_token_ttl_seconds
        → let tokens = token_response hasher jwt settings t user in
          (refresh_tokens hasher jwt settings u tokens.access_token db
            ≡ (err (http_exception 401 "not a refresh token"), db))
          × (claims_dependency jwt settings.jwt_issuer access u (some tokens.refresh_token)
              ≡ err (http_exception 401 "expected a access token"))
    unfolding refresh_tokens claims_dependency
    tokens_not_interchangeable t u user db issued fresh fresh' =
        let a =
          (payload settings.jwt_issuer t user.id user.role access
            settings.access_token_ttl_seconds) in
        let r =
          (payload settings.jwt_issuer t user.id user.role refresh
            settings.refresh_token_ttl_seconds) in
        (
          rw (jwt.decode-encode u a issued fresh) refl,
          rw (jwt.decode-encode u r issued fresh') refl,
        )

    -- Whoever logs in with an unknown email gets the answer of a wrong password, word for word.
    login-refused_alike :
        (t : ℕ) (email unknown password wrong : String) (user : User) (db : AuthDb)
        → find_email email db.users ≡ some user
        → hasher.verify user.password_hash wrong ≡ false
        → find_email unknown db.users ≡ none
        → let refused = http_exception 401 "invalid email or password" in
          (login hasher jwt settings t email wrong db ≡ (err refused, db))
          × (login hasher jwt settings t unknown password db ≡ (err refused, db))
    unfolding login authenticate_user get_by_email
    login-refused_alike t email unknown password wrong user db found no_match absent =
        (rw (found, no_match, caught, continue) refl, rw (absent, caught, continue) refl)
