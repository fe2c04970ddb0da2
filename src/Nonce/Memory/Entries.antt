-- ===== src/Nonce/Memory/Entries.antt =====
-- What each step of the in-memory store does to the entry of a nonce, and what it replies.
use dauth.Base.{
  ℕ, ◌≤◌, ◌<◌, ◌≡◌, ◌≢◌, ◌⊎◌, inl, inr, refl, ap, String, Option, none, some, true, false, leb,
  ◌==◌, ==_iff, Bool-cases, Option-cases, if◌then◌else◌, length, Time, after, Result, ok, err,
  arith, lookup, insert, delete, IsMap, lookup-insert, lookup-delete, lookup-retain,
  length-retain-le, eq_iff, str_eq,
}
use dauth.Nonce.{Challenge, err_not_found}
use dauth.Nonce.Memory.{
  err_full, Entry, Shard, Memory, shard, set_shard, per_shard, is_live, sweep_locked, store_entry,
  put_swept, put, consume_entry, consume, janitor,
}
use dauth.Nonce.Memory.Laws.{IsValid, find, new_entry}

-- What is kept of an entry: all of it, or nothing once it has expired.
abbrev pub Forgets : Time → Option Entry → Option Entry → Type 0
Forgets now old new =
    (new ≡ old) ⊎ ((new ≡ none) × ((e : Entry) × (old ≡ some e) × (e.expires_at < now)))

sweep_locked-Forgets :
    (now : Time) (j : String) (s : Shard)
    → IsMap s
    → Forgets now (lookup j s) (lookup j (sweep_locked now s))
unfolding sweep_locked
sweep_locked-Forgets now j s h = elim (Option-cases (lookup j s)) [
  | inl gone ↦ inl (ground (arith, lookup-retain (is_live now) j s h))
  | inr (e, here) ↦ elim (Bool-cases (after now e.expires_at)) [
    | inl late ↦ inr (ground (arith, lookup-retain (is_live now) j s h), (e, here, ground arith))
    | inr live ↦ inl (ground (arith, lookup-retain (is_live now) j s h))
  ]
]

find-set_shard :
    (m : Memory) (i : ℕ) (s : Shard) (j : String)
    → find (set_shard m i s) j ≡ (if i == shard j then lookup j s else find m j)
unfolding set_shard
find-set_shard m i s j = ground arith

shard_test : (id j : String) → str_eq id j ≡ true → (shard id == shard j) ≡ true
shard_test id j e = (==_iff (shard id) (shard j)).1 (ap shard ((eq_iff id j).0 e))

find-delete :
    (id j : String) (m : Memory)
    → find (set_shard m (shard id) (delete id (m.table (shard id)))) j
      ≡ (if str_eq id j then none else find m j)
find-delete id j m =
    rw (find-set_shard m (shard id) (delete id (m.table (shard id))) j)
      (elim (Bool-cases (shard id == shard j)) [
        | inl e ↦
            rw (e, lookup-delete id j (m.table (shard id)), (==_iff (shard id) (shard j)).0 e) refl
        | inr e ↦ ground (arith, shard_test id j)
      ])

find-insert :
    (id j : String) (x : Entry) (s : Shard) (m : Memory)
    → find (set_shard m (shard id) (insert id x s)) j
      ≡ (if str_eq id j then some x else if shard id == shard j then lookup j s else find m j)
find-insert id j x s m =
    ground (
      arith,
      find-set_shard m (shard id) (insert id x s) j,
      lookup-insert id j x s,
      shard_test id j,
    )

-- Consuming a nonce takes its entry, whatever the outcome, and no other.
pub find-consume :
    (id j : String) (now : Time) (m : Memory)
    → find (consume id now m).1 j ≡ (if str_eq id j then none else find m j)
unfolding consume
find-consume id j now m = elim (Option-cases (find m id)) [
  | inl e ↦ rw (e, consume_entry) (ground (arith, eq_iff id j, ap (find m)))
  | inr (x, e) ↦
      rw (e, consume_entry)
        (elim (Bool-cases (after now x.expires_at)) [
          | inl late ↦ rw late (find-delete id j m)
          | inr live ↦ rw live (find-delete id j m)
        ])
]

-- The reply of a consumption: the challenge of the entry, if there is one that is not expired.
pub consume_reply :
    (id : String) (now : Time) (m : Memory)
    → (consume id now m).0 ≡ elim (find m id) [
      | none ↦ err err_not_found
      | some e ↦ if after now e.expires_at then err err_not_found else ok e.ch
    ]
unfolding consume consume_entry
consume_reply id now m = ground arith

pub find-janitor :
    (i : ℕ) (now : Time) (m : Memory) (j : String)
    → IsValid m
    → Forgets now (find m j) (find (janitor i now m) j)
unfolding janitor
find-janitor i now m j v =
    rw (find-set_shard m i (sweep_locked now (m.table i)) j) (elim (Bool-cases (i == shard j)) [
      | inl e ↦
          rw (e, (==_iff i (shard j)).0 e)
            (sweep_locked-Forgets now j (m.table (shard j)) (v (shard j)).distinct)
      | inr e ↦ rw e (inl refl)
    ])

ltb_of_not_leb : (a b : ℕ) → leb a b ≡ false → b < a
ltb_of_not_leb a b h = ground arith

sweep_locked_shorter : (now : Time) (s : Shard) → length (sweep_locked now s) ≤ length s
unfolding sweep_locked
sweep_locked_shorter now s = length-retain-le (is_live now) s

-- What a storing step leaves under each nonce.
abbrev Puts : String → Challenge → Time → Memory → Memory → Type 0
Puts id ch now m m' =
    (j : String)
    → ((id ≡ j) × (find m' j ≡ some (new_entry ch)))
      ⊎ ((id ≢ j) × Forgets now (find m j) (find m' j))

store_entry-Puts :
    (id : String) (ch : Challenge) (now : Time) (s : Shard) (m : Memory)
    → ((j : String) → Forgets now (lookup j (m.table (shard id))) (lookup j s))
    → Puts id ch now m (store_entry m id ch s).1
unfolding store_entry
store_entry-Puts id ch now s m keeps j = elim (Bool-cases (str_eq id j)) [
  | inl e ↦ inl ((eq_iff id j).0 e, (rw (find-insert id j (new_entry ch) s m, e) refl))
  | inr e ↦ inr (
    (λ same. ground (arith, (eq_iff id j).1 same)),
    rw (find-insert id j (new_entry ch) s m, e)
        (elim (Bool-cases (shard id == shard j)) [
          | inl p ↦ rw (p, ← (==_iff (shard id) (shard j)).0 p) (keeps j)
          | inr p ↦ rw p (inl refl)
        ]),
  )
]

-- The reply of a storing step, and the entries that it leaves.
abbrev pub PutCases : String → Challenge → Time → Memory → Result (Unit {0}) × Memory → Type 0
PutCases id ch now m (r, m') =
    ((r ≡ ok tt)
      × (length (sweep_locked now (m.table (shard id))) < per_shard m)
      × Puts id ch now m m')
    ⊎ ((r ≡ err err_full)
        × (per_shard m ≤ length (sweep_locked now (m.table (shard id))))
        × ((j : String) → Forgets now (find m j) (find m' j)))

swept_shard-Forgets :
    (id : String) (now : Time) (m : Memory)
    → IsValid m
    → (j : String)
    → Forgets now
        (find m j)
        (find (set_shard m (shard id) (sweep_locked now (m.table (shard id)))) j)
swept_shard-Forgets id now m v j =
    rw (find-set_shard m (shard id) (sweep_locked now (m.table (shard id))) j)
      (elim (Bool-cases (shard id == shard j)) [
        | inl e ↦
            rw (e, (==_iff (shard id) (shard j)).0 e)
              (sweep_locked-Forgets now j (m.table (shard j)) (v (shard j)).distinct)
        | inr e ↦ rw e (inl refl)
      ])

pub put-PutCases :
    (id : String) (ch : Challenge) (now : Time) (m : Memory)
    → IsValid m
    → PutCases id ch now m (put id ch now m)
unfolding put
put-PutCases id ch now m v =
    let s = m.table (shard id) in
    let swept = sweep_locked now s in
    let forgets = λ (j : String). sweep_locked-Forgets now j s (v (shard id)).distinct in
    elim (Bool-cases (leb (per_shard m) (length s))) [
      | inl full ↦ rw full (elim (Bool-cases (leb (per_shard m) (length swept))) [
        | inl still ↦
            rw (still, put_swept) (inr (refl, ground arith, swept_shard-Forgets id now m v))
        | inr room ↦
            rw (room, put_swept)
              (inl (refl, ground arith, store_entry-Puts id ch now swept m forgets))
      ])
      | inr room ↦ rw room (
          inl (
            refl,
            omega (arith, sweep_locked_shorter now s, ltb_of_not_leb _ _ room),
            store_entry-Puts id ch now s m (λ j. inl refl),
          ))
    ]
