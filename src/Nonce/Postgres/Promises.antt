-- ===== src/Nonce/Postgres/Promises.antt =====
-- The store over Postgres keeps the promises of the interface of the stores.
pub mod Sweeps
use dauth.Base.{
  ◌≤◌, ◌<◌, ◌≡◌, ◌⊎◌, inl, inr, refl, ap, String, none, some, false, Bool-cases, Result-cases, Time,
  after, Error, wrap, errors_is, Result, ok, err, arith,
}
use dauth.Nonce.{Challenge, err_not_found, StoreLaws, Answers}
use dauth.Nonce.Postgres.{
  Row, Database, DatabaseLaws, no_rows, row_of, challenge_of, put, scanned, consume, postgres_store,
}

module _ {D : Type 0} (db : Database D) (laws : DatabaseLaws D db) where
  open laws use {
    rows, stored, stored_le, address_bytes_lem, insert_row_rows, insert_row_ok,
    delete_returning_rows, delete_returning_ok, delete_returning_none, delete_expired_rows,
  }

  pub Holds : D → String → Challenge → Type 0
  Holds d id c = (r : Row) × (rows d id ≡ some r) × (challenge_of db r ≡ c)

  -- The row that an insertion leaves.
  abbrev inserted : String → Challenge → Row
  inserted id ch = let r = row_of db id ch in record r { expires_at = stored r.expires_at }

  pub kept : Challenge → Challenge
  kept ch = record ch { expires_at = stored ch.expires_at }

  challenge_of-inserted :
      (id : String) (ch : Challenge) → challenge_of db (inserted id ch) ≡ kept ch
  unfolding challenge_of row_of kept
  challenge_of-inserted id ch = rw (address_bytes_lem ch.address) refl

  pub put_state :
      (id : String) (ch : Challenge) (now : Time) (d : D)
      → (put db id ch now d).1 ≡ (db.insert_row (row_of db id ch) d).1
  unfolding put
  put_state id ch now d = elim (Result-cases (db.insert_row (row_of db id ch) d).0) [
    | inl (t, e) ↦ rw (e, put) refl
    | inr (x, e) ↦ rw (e, put) refl
  ]

  put_Holds :
      (id j : String) (ch c : Challenge) (now : Time) (d : D)
      → Holds (put db id ch now d).1 j c
      → ((id ≡ j) × (kept ch ≡ c)) ⊎ Holds d j c
  unfolding Holds row_of
  put_Holds id j ch c now d (r, here, is) = elim (insert_row_rows (row_of db id ch) d j) [
    | inl same ↦ inr (r, ground (arith, put_state id ch now d), is)
    | inr (eq, _, new) ↦
        inl (eq, ground (arith, put_state id ch now d, challenge_of-inserted id ch))
  ]

  put_ok :
      (id : String) (ch : Challenge) (now : Time) (d : D)
      → (put db id ch now d).0 ≡ ok tt
      → Holds (put db id ch now d).1 id (kept ch)
  unfolding Holds put row_of
  put_ok id ch now d h = elim (Result-cases (db.insert_row (row_of db id ch) d).0) [
    | inl (t, e) ↦
        rw (put_state id ch now d)
          (inserted id ch, (insert_row_ok (row_of db id ch) d e).1, challenge_of-inserted id ch)
    | inr (x, e) ↦ ground arith
  ]

  consume_Holds :
      (id j : String) (c : Challenge) (now : Time) (d : D)
      → Holds (consume db id now d).1 j c
      → Holds d j c
  unfolding Holds consume
  consume_Holds id j c now d (r, here, is) = elim (delete_returning_rows id d j) [
    | inl same ↦ (r, ground arith, is)
    | inr (eq, gone) ↦ cc
  ]

  -- The answers of Consume, with what they say of the row.
  pub data Scanned (id : String) (now : Time) (d : D) : Result Challenge → Type 0 where
    missing :
        rows d id ≡ none
        → rows (consume db id now d).1 id ≡ none
        → Scanned id now d (err err_not_found)
    late :
        (r : Row)
        → rows d id ≡ some r
        → r.expires_at < now
        → rows (consume db id now d).1 id ≡ none
        → Scanned id now d (err err_not_found)
    taken :
        (r : Row)
        → rows d id ≡ some r
        → now ≤ r.expires_at
        → rows (consume db id now d).1 id ≡ none
        → Scanned id now d (ok (challenge_of db r))
    failing :
        (e : Error)
        → (db.delete_returning id d).0 ≡ err e
        → errors_is no_rows e ≡ false
        → Scanned id now d (err (wrap "consuming challenge" e))

  -- What Consume answers: not-found where the statement finds no row or one that has expired, and the
  -- row's challenge where it is live, and then no row is left under the nonce; every other answer wraps
  -- an error with which the statement itself failed and which is not pgx.ErrNoRows.
  pub consume-Scanned :
      (id : String) (now : Time) (d : D) → Scanned id now d (consume db id now d).0
  unfolding consume scanned
  consume-Scanned id now d =
      let d' = (db.delete_returning id d).1 in
      elim (Result-cases (db.delete_returning id d).0) [
        | inl (r, e) ↦
            let (here, gone) = delete_returning_ok id d r e in
            elim (Bool-cases (after now r.expires_at)) [
              | inl h ↦ rw (e, h) (late r here (ground arith) gone)
              | inr h ↦ rw (e, h) (taken r here (ground arith) gone)
            ]
        | inr (x, e) ↦ elim (Bool-cases (errors_is no_rows x)) [
          | inl h ↦
              let absent = delete_returning_none id d x e h in
              rw (e, h)
                (missing absent (elim (delete_returning_rows id d id) [
                  | inl same ↦ ground arith
                  | inr (_, gone) ↦ gone
                ]))
          | inr h ↦ rw (e, h) (failing x e h)
        ]
      ]

  consume_ok :
      (id : String) (c : Challenge) (now : Time) (d : D)
      → (consume db id now d).0 ≡ ok c
      → Holds d id c × (now ≤ c.expires_at)
  unfolding Holds challenge_of
  consume_ok id c now d h = of_reply (consume db id now d).0 (consume-Scanned id now d) h
    where
      of_reply :
          (r : Result Challenge)
          → Scanned id now d r
          → r ≡ ok c
          → Holds d id c × (now ≤ c.expires_at)
      of_reply _ (missing _ _) h = cc
      of_reply _ (late _ _ _ _) h = cc
      of_reply _ (failing _ _ _) h = cc
      of_reply _ (taken r here live gone) h = ((r, here, ground arith), ground arith)

  consume_gone :
      (id : String) (c : Challenge) (now : Time) (d : D)
      → Answers (consume db id now d).0
      → ¬ Holds (consume db id now d).1 id c
  unfolding Holds err_not_found
  consume_gone id c now d a (r, here, is) =
      of_reply (consume db id now d).0 (consume-Scanned id now d) a
    where
      of_reply : (r : Result Challenge) → Scanned id now d r → Answers r → ⊥
      of_reply _ (missing _ gone) a = cc
      of_reply _ (late _ _ _ gone) a = cc
      of_reply _ (taken _ _ _ gone) a = cc
      of_reply _ (failing e _ _) (inl (x, clash)) = cc
      of_reply _ (failing e _ _) (inr clash) = cc

  consume_live :
      (id : String) (c : Challenge) (now : Time) (d : D)
      → Holds d id c
      → now ≤ c.expires_at
      → Answers (consume db id now d).0
      → (consume db id now d).0 ≡ ok c
  unfolding Holds challenge_of err_not_found
  consume_live id c now d (r, here, is) live a =
      of_reply (consume db id now d).0 (consume-Scanned id now d) a
    where
      of_reply : (x : Result Challenge) → Scanned id now d x → Answers x → x ≡ ok c
      of_reply _ (missing absent gone) a = cc
      of_reply _ (late r' here' past gone) a =
          ground (arith, ap (λ (x : Challenge). x.expires_at) is)
      of_reply _ (taken r' here' _ gone) a = ground (arith)
      of_reply _ (failing e _ _) (inl (x, clash)) = cc
      of_reply _ (failing e _ _) (inr clash) = cc

  -- The store over Postgres keeps every promise of the interface of the stores, its statements failing
  -- or not.
  pub postgres_laws : StoreLaws D (postgres_store db)
  unfolding kept
  postgres_laws = record {
    IsValid = λ d. Unit;
    Holds = Holds;
    kept = kept;
    kept_message = λ ch. refl;
    kept_address = λ ch. refl;
    kept_audience = λ ch. refl;
    kept_expires_at = λ ch. stored_le ch.expires_at;
    put_IsValid = λ id ch now d v. tt;
    consume_IsValid = λ id now d v. tt;
    put_Holds = λ id j ch c now d v. put_Holds id j ch c now d;
    consume_Holds = λ id j c now d v. consume_Holds id j c now d;
    consume_gone = λ id c now d v. consume_gone id c now d;
    consume_ok = λ id c now d v. consume_ok id c now d;
    put_ok = λ id ch now d v. put_ok id ch now d;
    consume_live = λ id c now d v. consume_live id c now d;
  }
