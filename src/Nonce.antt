-- ===== src/Nonce.antt =====
-- internal/siwe/nonce: the challenges of sign-in and the interface of the stores that keep them.
-- nonce.go is modelled here, memory.go in Nonce/Memory and postgres.go in Nonce/Postgres.
use dauth.Base.{◌≤◌, ◌≡◌, ◌⊎◌, String, List, Time, Error, sentinel, Result, ok, err}
use dauth.Ethereum.{Address}
pub mod Memory
pub mod Postgres
pub mod Redemptions

pub record Challenge : Type 0 where
  pub message : String
  pub address : Address
  pub expires_at : Time
  pub audience : List String

unfoldable pub err_not_found : Error
err_not_found = sentinel "challenge not found, already used, or expired"

-- A store over states S. Each call carries the clock's reading in place of the context.
pub record Store (S : Type 0) : Type 0 where
  pub put : String → Challenge → Time → S → Result (Unit {0}) × S
  pub consume : String → Time → S → Result Challenge × S

-- The replies by which a store says whether it had the challenge; the others are its failures.
abbrev pub Answers : Result Challenge → Type 0
Answers r = ((c : Challenge) × (r ≡ ok c)) ⊎ (r ≡ err err_not_found)

-- What a store promises: `Holds s id ch` says that `ch` is outstanding under `id`, and `kept` is what
-- a challenge becomes in the store, which may round its expiry down.
pub record StoreLaws (S : Type 0) (store : Store S) : Type 1 where
  pub IsValid : S → Type 0
  pub Holds : S → String → Challenge → Type 0
  pub kept : Challenge → Challenge
  pub kept_message : (ch : Challenge) → (kept ch).message ≡ ch.message
  pub kept_address : (ch : Challenge) → (kept ch).address ≡ ch.address
  pub kept_audience : (ch : Challenge) → (kept ch).audience ≡ ch.audience
  pub kept_expires_at : (ch : Challenge) → (kept ch).expires_at ≤ ch.expires_at
  pub put_IsValid :
      (id : String) (ch : Challenge) (now : Time) (s : S)
      → IsValid s
      → IsValid (store.put id ch now s).1
  pub consume_IsValid :
      (id : String) (now : Time) (s : S) → IsValid s → IsValid (store.consume id now s).1
  pub put_Holds :
      (id j : String) (ch c : Challenge) (now : Time) (s : S)
      → IsValid s
      → Holds (store.put id ch now s).1 j c
      → ((id ≡ j) × (kept ch ≡ c)) ⊎ Holds s j c
  pub consume_Holds :
      (id j : String) (c : Challenge) (now : Time) (s : S)
      → IsValid s
      → Holds (store.consume id now s).1 j c
      → Holds s j c
  pub consume_gone :
      (id : String) (c : Challenge) (now : Time) (s : S)
      → IsValid s
      → Answers (store.consume id now s).0
      → ¬ Holds (store.consume id now s).1 id c
  pub consume_ok :
      (id : String) (c : Challenge) (now : Time) (s : S)
      → IsValid s
      → (store.consume id now s).0 ≡ ok c
      → Holds s id c × (now ≤ c.expires_at)
  pub put_ok :
      (id : String) (ch : Challenge) (now : Time) (s : S)
      → IsValid s
      → (store.put id ch now s).0 ≡ ok tt
      → Holds (store.put id ch now s).1 id (kept ch)
  pub consume_live :
      (id : String) (c : Challenge) (now : Time) (s : S)
      → IsValid s
      → Holds s id c
      → now ≤ c.expires_at
      → Answers (store.consume id now s).0
      → (store.consume id now s).0 ≡ ok c
