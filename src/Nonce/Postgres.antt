-- ===== src/Nonce/Postgres.antt =====
-- internal/siwe/nonce/postgres.go: the store over a table of Postgres, shared by the replicas.
-- The driver and the server are a parameter, the four statements of the code over the states D of the
-- database and its connections; a call's failure is part of the state that the call finds. A run of
-- any number of replicas is a list of statements, since each is atomic. The clock's reading is an
-- argument.
pub mod Promises
use dauth.Base.{
  ℕ, ◌≤◌, ◌<◌, ◌≡◌, ◌⊎◌, String, List, Option, none, some, true, if◌then◌else◌, Time, after, Error,
  errors_is, Result, ok, err, wrap,
}
use dauth.Ethereum.{Address}
use dauth.Nonce.{Challenge, err_not_found, Store}

-- A row of nonce_challenges, its columns in the order of the schema.
pub record Row : Type 0 where
  pub nonce : String
  pub message : String
  pub address : List ℕ
  pub expires_at : Time
  pub audience : List String

-- pgxpool at the statements of the code, with the scan of the row that is deleted, and the two
-- conversions of common.Address.
pub record Database (D : Type 0) : Type 0 where
  pub ensure_schema : D → Result (Unit {0}) × D
  pub insert_row : Row → D → Result (Unit {0}) × D
  pub delete_returning : String → D → Result Row × D
  pub delete_expired : Time → D → Result ℕ × D
  pub address_bytes : Address → List ℕ
  pub bytes_to_address : List ℕ → Address

-- errors.Is(err, pgx.ErrNoRows)
abbrev pub no_rows : String
no_rows = "no rows in result set"

-- What the code relies on. `rows` is the table, where the nonce is the primary key, and `stored` is
-- what a column of type TIMESTAMPTZ keeps of an instant, which it counts in microseconds. A statement
-- that fails may have been executed, its reply lost, and one that fails by pgx.ErrNoRows was executed
-- and found nothing.
pub record DatabaseLaws (D : Type 0) (db : Database D) : Type 1 where
  pub rows : D → String → Option Row
  pub stored : Time → Time
  pub stored_le : (t : Time) → stored t ≤ t
  pub address_bytes_lem : (a : Address) → db.bytes_to_address (db.address_bytes a) ≡ a
  pub ensure_schema_rows : (d : D) (j : String) → rows (db.ensure_schema d).1 j ≡ rows d j
  pub insert_row_rows :
      (r : Row) (d : D) (j : String)
      → (rows (db.insert_row r d).1 j ≡ rows d j)
        ⊎ ((r.nonce ≡ j)
            × (rows d j ≡ none)
            × (rows (db.insert_row r d).1 j ≡ some (record r { expires_at = stored r.expires_at })))
  pub insert_row_ok :
      (r : Row) (d : D)
      → (db.insert_row r d).0 ≡ ok tt
      → (rows d r.nonce ≡ none)
        × (rows (db.insert_row r d).1 r.nonce
            ≡ some (record r { expires_at = stored r.expires_at }))
  pub delete_returning_rows :
      (id : String) (d : D) (j : String)
      → (rows (db.delete_returning id d).1 j ≡ rows d j)
        ⊎ ((id ≡ j) × (rows (db.delete_returning id d).1 j ≡ none))
  pub delete_returning_ok :
      (id : String) (d : D) (r : Row)
      → (db.delete_returning id d).0 ≡ ok r
      → (rows d id ≡ some r) × (rows (db.delete_returning id d).1 id ≡ none)
  pub delete_returning_none :
      (id : String) (d : D) (e : Error)
      → (db.delete_returning id d).0 ≡ err e
      → errors_is no_rows e ≡ true
      → rows d id ≡ none
  pub delete_expired_rows :
      (now : Time) (d : D) (j : String)
      → (rows (db.delete_expired now d).1 j ≡ rows d j)
        ⊎ ((r : Row) × (rows d j ≡ some r)
            × (r.expires_at < now)
            × (rows (db.delete_expired now d).1 j ≡ none))

module _ {D : Type 0} (db : Database D) where
  -- NewPostgres, up to the start of the janitor.
  unfoldable pub new_postgres : D → Result (Unit {0}) × D
  new_postgres d =
      let (r, d') = db.ensure_schema d in
      elim r [ err e ↦ (err (wrap "ensuring nonce schema" e), d') | ok _ ↦ (ok tt, d') ]

  unfoldable pub row_of : String → Challenge → Row
  row_of id ch = record {
    nonce = id;
    message = ch.message;
    address = db.address_bytes ch.address;
    expires_at = ch.expires_at;
    audience = ch.audience;
  }

  unfoldable pub challenge_of : Row → Challenge
  challenge_of r = record {
    message = r.message;
    address = db.bytes_to_address r.address;
    expires_at = r.expires_at;
    audience = r.audience;
  }

  -- The insertion does not read the clock.
  unfoldable pub put : String → Challenge → Time → D → Result (Unit {0}) × D
  unfolding row_of
  put id ch now d =
      let (r, d') = db.insert_row (row_of id ch) d in
      elim r [ err e ↦ (err (wrap "storing challenge" e), d') | ok _ ↦ (ok tt, d') ]

  -- What Consume makes of the reply to its statement.
  unfoldable pub scanned : Time → Result Row → Result Challenge
  unfolding challenge_of
  scanned now (err e) =
      if errors_is no_rows e then err err_not_found else err (wrap "consuming challenge" e)
  scanned now (ok r) = if after now r.expires_at then err err_not_found else ok (challenge_of r)

  unfoldable pub consume : String → Time → D → Result Challenge × D
  unfolding scanned
  consume id now d = let (r, d') = db.delete_returning id d in (scanned now r, d')

  -- One round of the janitor: its outcome is only logged.
  unfoldable pub janitor : Time → D → D
  janitor now d = (db.delete_expired now d).1

  abbrev pub postgres_store : Store D
  postgres_store = record { put = put; consume = consume }
