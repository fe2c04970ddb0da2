-- ===== src/Tests/Tables.antt =====
-- A table in memory in the place of Postgres, and runs of the store over it.
use dauth.Base.{
  ◌≤◌, ◌<◌, ◌*◌, ◌/◌, ◌≡◌, ◌⊎◌, inl, inr, refl, String, List, [], ◌∷◌, Option, none, some, true,
  Bool-cases, Option-cases, if◌then◌else◌, ltb, Time, plain, sentinel, errors_is, Error, Result, ok,
  err, eq_iff, str_eq, arith,
}
use dauth.Nonce.{Challenge, err_not_found}
use dauth.Nonce.Postgres.{
  Row, Database, DatabaseLaws, put, consume, scanned, janitor, no_rows, row_of, challenge_of,
  postgres_store,
}
use dauth.Nonce.Postgres.Promises.{Scanned, consume-Scanned}
use dauth.Nonce.Postgres.Promises.Sweeps.{
  after_calls, consume-janitor, redemptions-le-attempts, consume-put,
}
use dauth.Nonce.Redemptions.{Call, puts, consumes, upkeeps, attempts, redemptions}
use dauth.Tests.Samples.{alice}

abbrev pub Table : Type 0
Table = String → Option Row

-- What a column that counts microseconds keeps.
abbrev micro : Time → Time
micro t = t / 1000 * 1000

abbrev rounded : Row → Row
rounded r = record r { expires_at = micro r.expires_at }

abbrev insert_row : Row → Table → Result (Unit {0}) × Table
insert_row r d = elim (d r.nonce) [
  | some old ↦ (err (plain "duplicate key"), d)
  | none ↦ (ok tt, λ j. if str_eq r.nonce j then some (rounded r) else d j)
]

abbrev delete_returning : String → Table → Result Row × Table
delete_returning id d = (
  elim (d id) [ none ↦ err (sentinel no_rows) | some r ↦ ok r ],
  λ j. if str_eq id j then none else d j,
)

abbrev sweep_row : Time → Option Row → Option Row
sweep_row now none = none
sweep_row now (some r) = if ltb r.expires_at now then none else some r

abbrev pub db : Database Table
db = record {
  ensure_schema = λ d. (ok tt, d);
  insert_row = insert_row;
  delete_returning = delete_returning;
  delete_expired = λ now d. (ok 0, λ j. sweep_row now (d j));
  address_bytes = λ a. a ∷ [];
  bytes_to_address = λ bs. elim bs [ [] ↦ 0 | a ∷ _ ↦ a ];
}

insert_row_rows :
    (r : Row) (d : Table) (j : String)
    → ((insert_row r d).1 j ≡ d j)
      ⊎ ((r.nonce ≡ j) × (d j ≡ none) × ((insert_row r d).1 j ≡ some (rounded r)))
insert_row_rows r d j = elim (Option-cases (d r.nonce)) [
  | inr (old, e) ↦ inl (rw (e, insert_row) refl)
  | inl e ↦ elim (Bool-cases (str_eq r.nonce j)) [
    | inr other ↦ inl (rw (e, insert_row, other) refl)
    | inl same ↦
        inr (
          (eq_iff r.nonce j).0 same,
          ground (arith, eq_iff r.nonce j),
          rw (e, insert_row, same) refl,
        )
  ]
]

insert_row_ok :
    (r : Row) (d : Table)
    → (insert_row r d).0 ≡ ok tt
    → (d r.nonce ≡ none) × ((insert_row r d).1 r.nonce ≡ some (rounded r))
insert_row_ok r d = elim (Option-cases (d r.nonce)) [
  | inr (old, e) ↦ rw (e, insert_row) (λ h. cc)
  | inl e ↦ rw (e, insert_row, (eq_iff r.nonce r.nonce).1 refl) (λ h. (refl, refl))
]

delete_expired_rows :
    (now : Time) (d : Table) (j : String)
    → (sweep_row now (d j) ≡ d j)
      ⊎ ((r : Row) × (d j ≡ some r) × (r.expires_at < now) × (sweep_row now (d j) ≡ none))
delete_expired_rows now d j = elim (Option-cases (d j)) [
  | inl e ↦ inl (rw e refl)
  | inr (r, e) ↦ elim (Bool-cases (ltb r.expires_at now)) [
    | inl late ↦ inr (r, e, ground arith, rw (e, late) refl)
    | inr live ↦ inl (rw (e, live) refl)
  ]
]

delete_returning_rows :
    (id : String) (d : Table) (j : String)
    → ((delete_returning id d).1 j ≡ d j) ⊎ ((id ≡ j) × ((delete_returning id d).1 j ≡ none))
delete_returning_rows id d j = elim (Bool-cases (str_eq id j)) [
  | inl same ↦ inr ((eq_iff id j).0 same, rw same refl)
  | inr other ↦ inl (rw other refl)
]

delete_returning_ok :
    (id : String) (d : Table) (r : Row)
    → (delete_returning id d).0 ≡ ok r
    → (d id ≡ some r) × ((delete_returning id d).1 id ≡ none)
delete_returning_ok id d r h = elim (Option-cases (d id)) [
  | inl e ↦ ground arith
  | inr (r', e) ↦ (ground arith, rw ((eq_iff id id).1 refl) refl)
]

delete_returning_none :
    (id : String) (d : Table) (e : Error)
    → (delete_returning id d).0 ≡ err e
    → errors_is no_rows e ≡ true
    → d id ≡ none
delete_returning_none id d e h no_row = elim (Option-cases (d id)) [
  | inl none_here ↦ none_here
  | inr (r, here) ↦ ground arith
]

table_laws : DatabaseLaws Table db
table_laws = record {
  rows = λ d j. d j;
  stored = micro;
  stored_le = λ t. ground arith;
  address_bytes_lem = λ a. refl;
  ensure_schema_rows = λ d j. refl;
  insert_row_rows = insert_row_rows;
  insert_row_ok = insert_row_ok;
  delete_returning_rows = delete_returning_rows;
  delete_returning_ok = delete_returning_ok;
  delete_returning_none = delete_returning_none;
  delete_expired_rows = delete_expired_rows;
}

abbrev ch : Challenge
ch = record { message = "hello"; address = alice; expires_at = 20_500; audience = "app" ∷ [] }

abbrev pub empty : Table
empty j = none

abbrev filled : Table
filled j =
    if str_eq "n" j
    then some (
        rounded (record {
          nonce = "n";
          message = "hello";
          address = alice ∷ [];
          expires_at = 20_500;
          audience = "app" ∷ [];
        }))
    else none

stored_once : (put db "n" ch 5 empty).0 ≡ ok tt
unfolding put row_of
stored_once = refl

taken_once : (consume db "n" 20_000 filled).0 ≡ ok (record ch { expires_at = 20_000 })
unfolding consume scanned challenge_of
taken_once = refl

taken_late : (consume db "n" 20_001 filled).0 ≡ err err_not_found
unfolding consume scanned
taken_late = refl

swept : (consume db "n" 20_001 (janitor db 20_001 filled)).0 ≡ err err_not_found
unfolding consume scanned janitor errors_is
swept = refl

consume-janitor_example :
    (consume db "n" 20_001 (janitor db 20_001 filled)).0 ≡ (consume db "n" 20_001 filled).0
consume-janitor_example =
    consume-janitor db table_laws "n" 20_001 20_001 filled (ground arith) (inr taken_late)
      (inr swept)

-- Between the two, other nonces, a collision and a sweep.
abbrev between : List (Time × Call (Unit {0}))
between = (6, puts "m" ch) ∷ (7, puts "n" ch) ∷ (8, consumes "m") ∷ (20_000, upkeeps tt) ∷ []

taken_back :
    (consume db "n" 20_000 (after_calls db table_laws between (put db "n" ch 5 empty).1)).0
    ≡ ok (record ch { expires_at = 20_000 })
unfolding consume scanned challenge_of put row_of janitor
taken_back = refl

consume-put_example :
    (consume db "n" 20_000 (after_calls db table_laws between (put db "n" ch 5 empty).1)).0
    ≡ ok (record ch { expires_at = 20_000 })
unfolding table_laws
consume-put_example =
    consume-put db table_laws "n" ch 5 20_000 between empty stored_once
      ((λ same. absurd (ground (arith, (eq_iff "m" "n").1 same))), (ground arith, tt))
      (ground arith) (inl (record ch { expires_at = 20_000 }, taken_back))

consume-Scanned_example : Scanned db table_laws "n" 20_000 filled (consume db "n" 20_000 filled).0
consume-Scanned_example = consume-Scanned db table_laws "n" 20_000 filled

-- Two replicas race for one nonce, between a challenge that collides and a sweep.
abbrev calls : List (Time × Call (Unit {0}))
calls =
    (10, puts "n" ch)
    ∷ (11, puts "n" ch)
    ∷ (12, consumes "n")
    ∷ (12, consumes "n")
    ∷ (13, upkeeps tt)
    ∷ []

race_won_once : redemptions (postgres_store db) (λ u now d. janitor db now d) "n" calls empty ≡ 1
unfolding redemptions put row_of consume scanned challenge_of janitor errors_is
race_won_once = refl

redemptions-le-attempts_example :
    redemptions (postgres_store db) (λ u now d. janitor db now d) "n" calls empty
    ≤ attempts "n" calls
unfolding table_laws
redemptions-le-attempts_example = redemptions-le-attempts db table_laws "n" calls empty refl
