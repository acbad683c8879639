-- ===== src/Gateway/Users.antt =====
-- internal/gateway/database.go: the operations on users. The API key, a fresh UUID, is an argument.
use lucas.Base.{ℕ, ◌+◌, Bool, String, [], ◌∷◌, ◌++◌, nat_eq, if◌then◌else◌, ◌==◌}
use lucas.Gateway.Store.{
  User, constraint, Action, pure, fail, ◌>>=◌, wrap, Faults, statement, first_where, any_where,
}

-- `username` and `api_key` are UNIQUE.
unfoldable pub insert_user : User → Action ℕ
insert_user u d =
    if any_where (λ v. v.username == u.username) d.users
    then fail (constraint "users.username") d
    else if any_where (λ v. v.api_key == u.api_key) d.users
    then fail (constraint "users.api_key") d
    else pure (d.last_user + 1) (record d {
      users = d.users ++ record u { id = d.last_user + 1 } ∷ [];
      last_user = d.last_user + 1;
    })

module _ (faults : Faults) where
  abbrev find_user : String → (User → Bool) → Action User
  find_user text p = wrap text (statement faults (λ d. (first_where p d.users, d)))

  unfoldable pub get_user : ℕ → Action User
  unfolding first_where
  get_user id = find_user "failed to get user" (λ u. nat_eq u.id id)

  unfoldable pub get_user_by_api_key : String → Action User
  unfolding first_where
  get_user_by_api_key api_key =
      find_user "failed to get user by API key" (λ u. u.api_key == api_key)

  unfoldable pub get_user_by_username : String → Action User
  unfolding first_where
  get_user_by_username username =
      find_user "failed to get user by username" (λ u. u.username == username)

  unfoldable pub get_user_by_email : String → Action User
  unfolding first_where
  get_user_by_email email = find_user "failed to get user by email" (λ u. u.email == email)

  unfoldable pub create_user_with_password : ℕ → String → String → String → String → Action User
  unfolding any_where get_user
  create_user_with_password now api_key username email password_hash = do
    id ← wrap "failed to create user" (
        statement faults (
          insert_user (record {
            id = 0;
            username = username;
            email = email;
            password_hash = password_hash;
            api_key = api_key;
            created_at = now;
          })))
    get_user id

  unfoldable pub create_user : ℕ → String → String → String → Action User
  unfolding create_user_with_password
  create_user now api_key username email = create_user_with_password now api_key username email ""
