-- ===== src/Nonce/Memory.antt =====
-- internal/siwe/nonce/memory.go: the sharded in-memory store. Each function is one critical section
-- under a shard's mutex, so a run of the store under any number of goroutines is a list of such
-- steps. The clock's reading is an argument.
pub mod Laws
pub mod Entries
pub mod Runs
pub mod Promises
use Prim.Native.Nat.{bit_xor}
use dauth.Base.{
  ℕ, ◌*◌, ◌/◌, ◌%◌, ◌^◌, String, List, [], ◌∷◌, Option, none, some, Bool, not, ltb, leb, ◌==◌,
  if◌then◌else◌, length, bytes, Time, after, Error, sentinel, Result, ok, err, lookup, insert,
  delete, retain,
}
use dauth.Nonce.{Challenge, err_not_found, Store}

abbrev pub shards : ℕ
shards = 64

pub err_full : Error
err_full = sentinel "challenge store full"

pub record Entry : Type 0 where
  pub ch : Challenge
  pub expires_at : Time

-- The entries of one shard, by nonce.
abbrev pub Shard : Type 0
Shard = List (String × Entry)

-- The array of shards is a function of the index; the code uses the indices below `shards`.
pub record Memory : Type 0 where
  pub table : ℕ → Shard
  pub max_entries : ℕ

-- hash/fnv: the 32-bit FNV-1a hash.
fnv_from : ℕ → List ℕ → ℕ
fnv_from h [] = h
fnv_from h (b ∷ bs) = fnv_from (bit_xor h b * 16777619 % 2 ^ 32) bs

fnv32a : String → ℕ
unfolding fnv_from bytes
fnv32a id = fnv_from 2166136261 (bytes id)

-- The index of the shard of a nonce.
unfoldable pub shard : String → ℕ
unfolding fnv32a
shard id = fnv32a id % shards

unfoldable pub new_memory : ℕ → Memory
new_memory max_entries = record { table = λ _. []; max_entries = max_entries }

set_shard : Memory → ℕ → Shard → Memory
set_shard m i s = record m { table = λ j. if i == j then s else m.table j }

unfoldable pub per_shard : Memory → ℕ
per_shard m = let n = m.max_entries / shards in if ltb n 1 then 1 else n

abbrev pub is_live : Time → Entry → Bool
is_live now e = not (after now e.expires_at)

pub sweep_locked : Time → Shard → Shard
sweep_locked now s = retain (is_live now) s

-- The end of Put, when there is room.
store_entry : Memory → String → Challenge → Shard → Result (Unit {0}) × Memory
unfolding set_shard
store_entry m id ch s =
    (ok tt, set_shard m (shard id) (insert id (record { ch = ch; expires_at = ch.expires_at }) s))

-- The test after the sweep: ErrFull leaves the swept shard behind.
put_swept : Memory → String → Challenge → Shard → Result (Unit {0}) × Memory
unfolding store_entry set_shard
put_swept m id ch s =
    if leb (per_shard m) (length s)
    then (err err_full, set_shard m (shard id) s)
    else store_entry m id ch s

unfoldable pub put : String → Challenge → Time → Memory → Result (Unit {0}) × Memory
unfolding put_swept store_entry
put id ch now m =
    let s = m.table (shard id) in
    if leb (per_shard m) (length s)
    then put_swept m id ch (sweep_locked now s)
    else store_entry m id ch s

-- Consume deletes the entry first, and tests its expiry afterwards.
consume_entry : Memory → String → Time → Option Entry → Result Challenge × Memory
unfolding set_shard
consume_entry m id now none = (err err_not_found, m)
consume_entry m id now (some e) =
    let m' = set_shard m (shard id) (delete id (m.table (shard id))) in
    if after now e.expires_at then (err err_not_found, m') else (ok e.ch, m')

unfoldable pub consume : String → Time → Memory → Result Challenge × Memory
unfolding consume_entry
consume id now m = consume_entry m id now (lookup id (m.table (shard id)))

-- One round of the janitor's inner loop: it locks and sweeps one shard.
pub janitor : ℕ → Time → Memory → Memory
unfolding set_shard
janitor i now m = set_shard m i (sweep_locked now (m.table i))

abbrev pub memory_store : Store Memory
memory_store = record { put = put; consume = consume }
