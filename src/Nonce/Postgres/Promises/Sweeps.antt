-- ===== src/Nonce/Postgres/Promises/Sweeps.antt =====
-- The janitor of the store over Postgres, and the redemptions of a nonce that the replicas share.
use dauth.Base.{
  ◌≤◌, ◌<◌, ◌≡◌, ◌≢◌, ap, ◌⊎◌, inl, inr, refl, sym, ◌∙◌, String, List, [], ◌∷◌, none, some, Time,
  Result, ok, err, arith,
}
use dauth.Nonce.{Challenge, err_not_found, Answers}
use dauth.Nonce.Postgres.{
  Row, Database, DatabaseLaws, row_of, challenge_of, put, consume, janitor, postgres_store,
}
use dauth.Nonce.Postgres.Promises.{
  Holds, kept, put_state, Scanned, missing, late, taken, failing, consume-Scanned, postgres_laws,
}
use dauth.Nonce.Redemptions.{
  Call, puts, consumes, upkeeps, attempts, redemptions, Drops, redemptions-le,
}

module _ {D : Type 0} (db : Database D) (laws : DatabaseLaws D db) where
  open laws use {rows, stored, insert_row_rows, delete_returning_rows, delete_expired_rows}

  -- What a reply of Consume that is no failure says of the row that the statement finds.
  reply-Answers :
      (id : String) (now : Time) (d : D) (x : Result Challenge)
      → Scanned db laws id now d x
      → Answers x
      → ((r : Row) × (rows d id ≡ some r) × (now ≤ r.expires_at) × (x ≡ ok (challenge_of db r)))
        ⊎ (((r : Row) → rows d id ≡ some r → r.expires_at < now) × (x ≡ err err_not_found))
  unfolding err_not_found
  reply-Answers id now d _ (missing absent gone) a = inr (λ r here. cc, refl)
  reply-Answers id now d _ (late r here past gone) a = inr (λ r' here'. ground arith, refl)
  reply-Answers id now d _ (taken r here live gone) a = inl (r, here, live, refl)
  reply-Answers id now d _ (failing e _ _) (inl (x, clash)) = cc
  reply-Answers id now d _ (failing e _ _) (inr clash) = cc

  -- The janitor is not observed: a redemption that no failure meets is answered after a sweep of an
  -- earlier or the same instant as it is without the sweep.
  pub consume-janitor :
      (id : String) (now later : Time) (d : D)
      → now ≤ later
      → Answers (consume db id later d).0
      → Answers (consume db id later (janitor db now d)).0
      → (consume db id later (janitor db now d)).0 ≡ (consume db id later d).0
  unfolding janitor
  consume-janitor id now later d le a a' =
      let w = reply-Answers id later d _ (consume-Scanned db laws id later d) a in
      let w2 =
        reply-Answers id later (janitor db now d) _
          (consume-Scanned db laws id later (janitor db now d)) a' in
      let from : rows (janitor db now d) id ≡ rows d id
          ⊎ ((r : Row) × (rows d id ≡ some r)
              × (r.expires_at < now)
              × (rows (janitor db now d) id ≡ none)) =
        delete_expired_rows now d id in
      elim w [
        | inl (r, here, live, e) ↦ elim w2 [
          | inl (r', here', live', e') ↦ elim from [
            | inl same ↦ ground arith
            | inr x ↦ ground arith
          ]
          | inr (past', e') ↦ elim from [
            | inl same ↦ ground (arith, past' r (same ∙ here))
            | inr x ↦ ground arith
          ]
        ]
        | inr (past, e) ↦ elim w2 [
          | inl (r', here', live', e') ↦ elim from [
            | inl same ↦ ground (arith, past r' (sym same ∙ here'))
            | inr x ↦ ground arith
          ]
          | inr (past', e') ↦ e' ∙ sym e
        ]
      ]

  -- The janitor drops challenges and adds none.
  janitor-Drops :
      Drops (postgres_store db) (λ (u : Unit {0}) now d. janitor db now d) (postgres_laws db laws)
  unfolding postgres_laws Holds janitor
  janitor-Drops u now d v = (
    tt,
    λ id c (r, here, is). elim (delete_expired_rows now d id) [
      | inl same ↦ (r, ground arith, is)
      | inr (_, _, _, gone) ↦ cc
    ],
  )

  -- Single use across replicas: along any calls of any number of replicas, sweeps and failing
  -- statements among them, a nonce without a row at first is redeemed at most as often as a challenge
  -- was put under it, or may have been.
  pub redemptions-le-attempts :
      (id : String) (calls : List (Time × Call (Unit {0}))) (d : D)
      → rows d id ≡ none
      → redemptions (postgres_store db) (λ u now d. janitor db now d) id calls d ≤ attempts id calls
  unfolding postgres_laws Holds
  redemptions-le-attempts id calls d absent =
      (redemptions-le (postgres_store db) _ (postgres_laws db laws) janitor-Drops id calls d tt).1
        (λ c (r, here, is). cc)

  -- The state after some calls.
  abbrev pub after_calls : List (Time × Call (Unit {0})) → D → D
  after_calls [] d = d
  after_calls ((now, puts j ch) ∷ calls) d = after_calls calls (put db j ch now d).1
  after_calls ((now, consumes j) ∷ calls) d = after_calls calls (consume db j now d).1
  after_calls ((now, upkeeps u) ∷ calls) d = after_calls calls (janitor db now d)

  -- No redemption of the nonce, and no sweep after the instant.
  abbrev pub Spares : String → Time → List (Time × Call (Unit {0})) → Type 0
  Spares id until [] = Unit
  Spares id until ((now, puts j ch) ∷ calls) = Spares id until calls
  Spares id until ((now, consumes j) ∷ calls) = (j ≢ id) × Spares id until calls
  Spares id until ((now, upkeeps u) ∷ calls) = (now ≤ until) × Spares id until calls

  put-Holds :
      (id j : String) (ch c : Challenge) (now : Time) (d : D)
      → Holds db laws d id c
      → Holds db laws (put db j ch now d).1 id c
  unfolding Holds
  put-Holds id j ch c now d (r, here, is) = elim (insert_row_rows (row_of db j ch) d id) [
    | inl same ↦ (r, ground (arith, put_state db laws j ch now d), is)
    | inr (_, absent, _) ↦ cc
  ]

  consume-Holds :
      (id j : String) (c : Challenge) (now : Time) (d : D)
      → j ≢ id
      → Holds db laws d id c
      → Holds db laws (consume db j now d).1 id c
  unfolding Holds consume
  consume-Holds id j c now d other (r, here, is) = elim (delete_returning_rows j d id) [
    | inl same ↦ (r, ground arith, is)
    | inr (own, _) ↦ absurd (other own)
  ]

  janitor-Holds :
      (id : String) (c : Challenge) (now : Time) (d : D)
      → now ≤ c.expires_at
      → Holds db laws d id c
      → Holds db laws (janitor db now d) id c
  unfolding Holds janitor challenge_of
  janitor-Holds id c now d live (r, here, is) = elim (delete_expired_rows now d id) [
    | inl same ↦ (r, ground arith, is)
    | inr (r', here', past, gone) ↦
        let expiry : r.expires_at ≡ c.expires_at = ap (λ (k : Challenge). k.expires_at) is in
        absurd (ground arith)
  ]

  after_calls-Holds :
      (id : String) (c : Challenge) (calls : List (Time × Call (Unit {0}))) (d : D)
      → Spares id c.expires_at calls
      → Holds db laws d id c
      → Holds db laws (after_calls calls d) id c
  after_calls-Holds id c [] d spares held = held
  after_calls-Holds id c ((now, puts j ch) ∷ calls) d spares held =
      after_calls-Holds id c calls _ spares (put-Holds id j ch c now d held)
  after_calls-Holds id c ((now, consumes j) ∷ calls) d (other, spares) held =
      after_calls-Holds id c calls _ spares (consume-Holds id j c now d other held)
  after_calls-Holds id c ((now, upkeeps u) ∷ calls) d (live, spares) held =
      after_calls-Holds id c calls _ spares (janitor-Holds id c now d live held)

  -- After a successful Put, and any further calls of any replicas, failing or not, of which none redeems
  -- the nonce and no sweep comes after the expiry that the column keeps, a redemption up to this expiry,
  -- if no failure meets it, returns the challenge as it was put, with that expiry.
  pub consume-put :
      (id : String) (ch : Challenge) (now later : Time) (calls : List (Time × Call (Unit {0})))
      (d : D)
      → (put db id ch now d).0 ≡ ok tt
      → Spares id (stored ch.expires_at) calls
      → later ≤ stored ch.expires_at
      → Answers (consume db id later (after_calls calls (put db id ch now d).1)).0
      → (consume db id later (after_calls calls (put db id ch now d).1)).0
        ≡ ok (record ch { expires_at = stored ch.expires_at })
  unfolding postgres_laws kept
  consume-put id ch now later calls d stored_it spares live a =
      let all = postgres_laws db laws in
      let held =
        after_calls-Holds id (kept db laws ch) calls (put db id ch now d).1 spares
          (all.put_ok id ch now d tt stored_it) in
      all.consume_live id (kept db laws ch) later _ tt held live a
