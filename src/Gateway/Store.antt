-- ===== src/Gateway/Store.antt =====
-- internal/gateway/database.go: the rows of the tables, and its statements as actions. A statement
-- fails where the engine does: `faults` says what the statement of each number returns, and is a
-- parameter. Rows stand in the order of their insertion; a statement's time is in seconds.
use lucas.Base.{
  leb, ℕ, ◌+◌, Bool, true, false, String, List, [], ◌∷◌, Option, none, some, if◌then◌else◌,
}

-- `password_hash` and `api_key` as they are stored.
pub record User : Type 0 where
  pub id : ℕ
  pub username : String
  pub email : String
  pub password_hash : String
  pub api_key : String
  pub created_at : ℕ

-- `none` is NULL.
pub record Hub : Type 0 where
  pub id : ℕ
  pub user_id : Option ℕ
  pub hub_id : String
  pub name : String
  pub public_key : String
  pub product_key : Option String
  pub endpoint : String
  pub status : String
  pub auto_registered : Bool
  pub last_seen : ℕ
  pub created_at : ℕ

pub record Device : Type 0 where
  pub id : ℕ
  pub hub_id : ℕ
  pub device_id : String
  pub device_type : String
  pub name : String
  pub model : String
  pub address : String
  pub capabilities : List String
  pub status : String
  pub created_at : ℕ

-- The tables, the last id that each gave (AUTOINCREMENT), and the number of the next statement.
pub record Database : Type 0 where
  pub users : List User
  pub hubs : List Hub
  pub devices : List Device
  pub last_user : ℕ
  pub last_hub : ℕ
  pub last_device : ℕ
  pub statements : ℕ

-- An empty schema.
abbrev pub empty_database : Database
empty_database = record {
  users = [];
  hubs = [];
  devices = [];
  last_user = 0;
  last_hub = 0;
  last_device = 0;
  statements = 0;
}

pub data DbError : Type 0 where
  -- `sql.ErrNoRows`
  no_rows : DbError
  -- "UNIQUE constraint failed" for the columns
  constraint : String → DbError
  -- any other text of the engine
  fault : String → DbError
  product_key_required : DbError
  product_key_registered_to : String → String → DbError
  product_key_registered : String → DbError
  hub_not_in_database hub_not_updated : String → DbError
  -- `fmt.Errorf("…: %w", err)`
  within : String → DbError → DbError

pub data Answer (A : Type 0) : Type 0 where
  good : A → Answer A
  bad : DbError → Answer A

-- What was written stays written when a later statement fails.
abbrev pub Action : Type 0 → Type 0
Action A = Database → Answer A × Database

module _ {A : Type 0} where
  unfoldable pub pure : A → Action A
  pure a d = (good a, d)

  unfoldable pub fail : DbError → Action A
  fail e d = (bad e, d)

infixl 5 ◌>>=◌ ◌>>◌
unfoldable pub ◌>>=◌ : {A B : Type 0} → Action A → (A → Action B) → Action B
◌>>=◌ m f d = let (r, d') = m d in elim r [ good a ↦ f a d' | bad e ↦ fail e d' ]

abbrev pub ◌>>◌ : {A B : Type 0} → Action A → Action B → Action B
m >> k = m >>= λ _. k

-- What the code does with a result, and what it does with an error.
unfoldable pub handle : {A B : Type 0} → Action A → (A → Action B) → (DbError → Action B) → Action B
handle m f g d = let (r, d') = m d in elim r [ good a ↦ f a d' | bad e ↦ g e d' ]

-- `if err != nil { return fmt.Errorf("text: %w", err) }`.
abbrev pub wrapped : {A : Type 0} → String → Answer A → Answer A
wrapped text (good a) = good a
wrapped text (bad e) = bad (within text e)

unfoldable pub wrap : {A : Type 0} → String → Action A → Action A
wrap text m d = let (r, d') = m d in (wrapped text r, d')

abbrev pub Faults : Type 0
Faults = ℕ → Option String

abbrev pub counted : Database → Database
counted d = record d { statements = d.statements + 1 }

module _ (faults : Faults) where
  -- One statement: it fails as a whole, or has its effect.
  unfoldable pub statement : {A : Type 0} → Action A → Action A
  statement run d = elim (faults d.statements) [
    | some text ↦ fail (fault text) (counted d)
    | none ↦ run (counted d)
  ]

module _ {A : Type 0} where
  -- `SELECT … WHERE p`, all rows.
  unfoldable pub select_where : (A → Bool) → List A → List A
  select_where p [] = []
  select_where p (a ∷ rows) = let rest = select_where p rows in if p a then a ∷ rest else rest

  -- The first of them.
  unfoldable pub first_where : (A → Bool) → List A → Answer A
  first_where p [] = bad no_rows
  first_where p (a ∷ rows) = if p a then good a else first_where p rows

  -- `UPDATE … SET f WHERE p`.
  unfoldable pub update_where : (A → Bool) → (A → A) → List A → List A
  update_where p f [] = []
  update_where p f (a ∷ rows) = (if p a then f a else a) ∷ update_where p f rows

  -- How many rows a condition holds for.
  unfoldable pub count_where : (A → Bool) → List A → ℕ
  count_where p [] = 0
  count_where p (a ∷ rows) = (if p a then 1 else 0) + count_where p rows

  -- `DELETE … WHERE p`.
  unfoldable pub delete_where : (A → Bool) → List A → List A
  delete_where p [] = []
  delete_where p (a ∷ rows) = let rest = delete_where p rows in if p a then rest else a ∷ rest

  -- Whether some row meets the condition.
  unfoldable pub any_where : (A → Bool) → List A → Bool
  any_where p [] = false
  any_where p (a ∷ rows) = if p a then true else any_where p rows

  -- `ORDER BY created_at DESC`. Rows of one second keep their order, which SQL leaves open.
  unfoldable pub insert_newest : (A → ℕ) → A → List A → List A
  insert_newest age a [] = a ∷ []
  insert_newest age a (b ∷ rows) =
      if leb (age b) (age a) then a ∷ b ∷ rows else b ∷ insert_newest age a rows

  unfoldable pub newest_first : (A → ℕ) → List A → List A
  unfolding insert_newest
  newest_first age [] = []
  newest_first age (a ∷ rows) = insert_newest age a (newest_first age rows)
