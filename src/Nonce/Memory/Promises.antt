-- ===== src/Nonce/Memory/Promises.antt =====
-- The in-memory store keeps the promises of the interface, and its size is bounded.
use dauth.Base.{
  ℕ, zero, suc, ◌+◌, ◌*◌, ◌≤◌, ◌≡◌, ◌≢◌, ◌⊎◌, inl, inr, refl, ap, String, List, some, Bool-cases,
  Option-cases, length, lookup, Time, after, ok, arith, eq_iff, str_eq,
}
use Prim.Native.Nat.{max}
use dauth.Nonce.{Challenge, StoreLaws, Answers}
use dauth.Nonce.Memory.{
  Entry, Memory, new_memory, put, consume, shards, shard, memory_store, per_shard,
}
use dauth.Nonce.Memory.Laws.{
  IsValid, find, new_entry, put-IsValid, consume-IsValid, new_memory-IsValid,
}
use dauth.Nonce.Memory.Runs.{Op, run, run-IsValid, run_max_entries}
use dauth.Nonce.Memory.Entries.{Forgets, find-consume, consume_reply, put-PutCases}

abbrev Holds : Memory → String → Challenge → Type 0
Holds m id c = (e : Entry) × (find m id ≡ some e) × (e.ch ≡ c)

Holds-Forgets :
    (now : Time) (m m' : Memory) (j : String) (c : Challenge)
    → Forgets now (find m j) (find m' j)
    → Holds m' j c
    → Holds m j c
Holds-Forgets now m m' j c (inl same) (e, here, is) = (e, ground arith, is)
Holds-Forgets now m m' j c (inr (gone, _)) (e, here, is) = cc

put_Holds :
    (id j : String) (ch c : Challenge) (now : Time) (m : Memory)
    → IsValid m
    → Holds (put id ch now m).1 j c
    → ((id ≡ j) × (ch ≡ c)) ⊎ Holds m j c
put_Holds id j ch c now m v (e, here, is) = elim (put-PutCases id ch now m v) [
  | inl (_, _, keeps) ↦ elim (keeps j) [
    | inl (same, new) ↦ inl (same, ground arith)
    | inr (other, f) ↦ inr (Holds-Forgets now m (put id ch now m).1 j c f (e, here, is))
  ]
  | inr (_, _, keeps) ↦ inr (Holds-Forgets now m (put id ch now m).1 j c (keeps j) (e, here, is))
]

consume_Holds :
    (id j : String) (c : Challenge) (now : Time) (m : Memory)
    → Holds (consume id now m).1 j c
    → (id ≢ j) × Holds m j c
consume_Holds id j c now m (e, here, is) = elim (Bool-cases (str_eq id j)) [
  | inl same ↦ ground (arith, find-consume id j now m)
  | inr other ↦ (
    λ same. ground (arith, (eq_iff id j).1 same),
    (e, ground (arith, find-consume id j now m), is),
  )
]

consume_ok :
    (id : String) (c : Challenge) (now : Time) (m : Memory)
    → IsValid m
    → (consume id now m).0 ≡ ok c
    → Holds m id c × (now ≤ c.expires_at)
consume_ok id c now m v h = elim (Option-cases (find m id)) [
  | inl gone ↦ ground (arith, consume_reply id now m)
  | inr (e, here) ↦
      let agrees = (v (shard id)).agrees id e here in
      elim (Bool-cases (after now e.expires_at)) [
        | inl late ↦ ground (arith, consume_reply id now m)
        | inr live ↦ (
          (e, here, ground (arith, consume_reply id now m)),
          ground (arith, consume_reply id now m),
        )
      ]
]

put_ok :
    (id : String) (ch : Challenge) (now : Time) (m : Memory)
    → IsValid m
    → (put id ch now m).0 ≡ ok tt
    → Holds (put id ch now m).1 id ch
put_ok id ch now m v h = elim (put-PutCases id ch now m v) [
  | inl (_, _, keeps) ↦ elim (keeps id) [
    | inl (_, new) ↦ (new_entry ch, new, refl)
    | inr (other, _) ↦ absurd (other refl)
  ]
  | inr (full, _, _) ↦ cc
]

consume_live :
    (id : String) (c : Challenge) (now : Time) (m : Memory)
    → IsValid m
    → Holds m id c
    → now ≤ c.expires_at
    → (consume id now m).0 ≡ ok c
consume_live id c now m v (e, here, is) live =
    let agrees = (v (shard id)).agrees id e here in
    rw (consume_reply id now m, here)
      (ground (arith, agrees, ap (λ (d : Challenge). d.expires_at) is))

-- The in-memory store keeps every promise of the interface of the stores.
pub memory_laws : StoreLaws Memory memory_store
memory_laws = record {
  IsValid = IsValid;
  Holds = Holds;
  put_IsValid = put-IsValid;
  consume_IsValid = consume-IsValid;
  put_Holds = put_Holds;
  kept = λ ch. ch;
  kept_message = λ ch. refl;
  kept_address = λ ch. refl;
  kept_audience = λ ch. refl;
  kept_expires_at = λ ch. omega arith;
  consume_Holds = λ id j c now m v held. (consume_Holds id j c now m held).1;
  consume_gone = λ id c now m v a held. (consume_Holds id id c now m held).0 refl;
  consume_ok = consume_ok;
  put_ok = put_ok;
  consume_live = λ id c now m v held live a. consume_live id c now m v held live;
}

pub memory_kept : (ch : Challenge) → memory_laws.kept ch ≡ ch
unfolding memory_laws
memory_kept ch = refl

-- The in-memory store never fails.
pub consume-Answers : (id : String) (now : Time) (m : Memory) → Answers (consume id now m).0
consume-Answers id now m = elim (Option-cases (find m id)) [
  | inl gone ↦ inr (ground (arith, consume_reply id now m))
  | inr (e, here) ↦ elim (Bool-cases (after now e.expires_at)) [
    | inl late ↦ inr (ground (arith, consume_reply id now m))
    | inr live ↦ inl (e.ch, ground (arith, consume_reply id now m))
  ]
]

-- The entries of the first `k` shards.
size_below : ℕ → Memory → ℕ
size_below zero m = 0
size_below (suc k) m = length (m.table k) + size_below k m

-- The number of challenges that the store keeps.
pub size : Memory → ℕ
unfolding size_below
size m = size_below shards m

size_below-le : (k : ℕ) (m : Memory) → IsValid m → size_below k m ≤ k * per_shard m
unfolding size_below
size_below-le zero m v = omega arith
size_below-le (suc k) m v = grind (arith, size_below-le k m v, (v k).bounded)

-- Bounded memory: after any sequence of critical sections, a store made for `n` challenges keeps
-- no more than `n` of them, or one a shard where `n` is below the number of shards.
pub size-run-le : (n : ℕ) (ops : List (Time × Op)) → size (run ops (new_memory n)).1 ≤ max n shards
unfolding size new_memory per_shard
size-run-le n ops = ground (
  arith,
  size_below-le shards (run ops (new_memory n)).1
      (run-IsValid ops (new_memory n) (new_memory-IsValid n)),
  run_max_entries ops (new_memory n),
)

pub new_memory-IsEmpty :
    (n : ℕ)
    → memory_laws.IsValid (new_memory n)
      × ((id : String) (c : Challenge) → ¬ memory_laws.Holds (new_memory n) id c)
unfolding memory_laws new_memory lookup
new_memory-IsEmpty n = (new_memory-IsValid n, λ id c (e, here, is). cc)
