-- ===== src/Nonce/Memory/Laws.antt =====
-- The invariant of the in-memory store, and what each step does to the entry of a nonce.
use dauth.Base.{
  ℕ, ◌≤◌, ◌<◌, ◌≡◌, inl, inr, String, Option, some, leb, ◌==◌, Bool-cases, Option-cases, length,
  Time, after, arith, lookup, insert, delete, IsMap, lookup-insert, lookup-delete, lookup-retain,
  insert-IsMap, delete-IsMap, retain-IsMap, length-insert-le, length-delete-le, length-retain-le,
}
use dauth.Nonce.{Challenge}
use dauth.Nonce.Memory.{
  Entry, Shard, Memory, shard, new_memory, set_shard, per_shard, is_live, sweep_locked, put,
  consume_entry, consume, janitor,
}

-- A shard holds at most the capacity, no key twice, and each entry expires with its challenge.
pub record IsShard (cap : ℕ) (s : Shard) : Type 0 where
  pub bounded : length s ≤ cap
  pub distinct : IsMap s
  pub agrees : (id : String) (e : Entry) → lookup id s ≡ some e → e.expires_at ≡ e.ch.expires_at

abbrev pub IsValid : Memory → Type 0
IsValid m = (i : ℕ) → IsShard (per_shard m) (m.table i)

-- The entry outstanding under a nonce.
abbrev pub find : Memory → String → Option Entry
find m id = lookup id (m.table (shard id))

abbrev pub new_entry : Challenge → Entry
new_entry ch = record { ch = ch; expires_at = ch.expires_at }

set_shard-IsValid :
    (m : Memory) (i : ℕ) (s : Shard)
    → IsValid m
    → IsShard (per_shard m) s
    → IsValid (set_shard m i s)
unfolding set_shard per_shard
set_shard-IsValid m i s v h j = elim (Bool-cases (i == j)) [ inl e ↦ rw e h | inr e ↦ rw e (v j) ]

pub sweep_locked-IsShard :
    (cap : ℕ) (now : Time) (s : Shard) → IsShard cap s → IsShard cap (sweep_locked now s)
unfolding sweep_locked
sweep_locked-IsShard cap now s h = record {
  bounded = omega (arith, h.bounded, length-retain-le (is_live now) s);
  distinct = retain-IsMap (is_live now) s h.distinct;
  agrees = λ id e found. elim (Option-cases (lookup id s)) [
    | inl gone ↦ ground (arith, lookup-retain (is_live now) id s h.distinct)
    | inr (f, here) ↦
        ground (arith, lookup-retain (is_live now) id s h.distinct, h.agrees id f here)
  ];
}

pub insert-IsShard :
    (cap : ℕ) (id : String) (ch : Challenge) (s : Shard)
    → IsShard cap s
    → length s < cap
    → IsShard cap (insert id (new_entry ch) s)
insert-IsShard cap id ch s h room = record {
  bounded = omega (arith, length-insert-le id (new_entry ch) s);
  distinct = insert-IsMap id _ s h.distinct;
  agrees = λ j e found. ground (arith, lookup-insert id j (new_entry ch) s, h.agrees j e);
}

pub delete-IsShard : (cap : ℕ) (id : String) (s : Shard) → IsShard cap s → IsShard cap (delete id s)
delete-IsShard cap id s h = record {
  bounded = omega (arith, h.bounded, length-delete-le id s);
  distinct = delete-IsMap id s h.distinct;
  agrees = λ j e found. ground (arith, lookup-delete id j s, h.agrees j e);
}

-- The counts and keys stay in order through every step of the store.
pub put-IsValid :
    (id : String) (ch : Challenge) (now : Time) (m : Memory)
    → IsValid m
    → IsValid (put id ch now m).1
unfolding put
put-IsValid id ch now m v =
    let s = m.table (shard id) in
    let h : IsShard (per_shard m) s = v (shard id) in
    let swept = sweep_locked-IsShard (per_shard m) now s h in
    elim (Bool-cases (leb (per_shard m) (length s))) [
      | inl full ↦ rw full (elim (Bool-cases (leb (per_shard m) (length (sweep_locked now s)))) [
        | inl still ↦ rw still (set_shard-IsValid m (shard id) _ v swept)
        | inr room ↦ rw room (
            set_shard-IsValid m (shard id) _ v
              (insert-IsShard (per_shard m) id ch _ swept (ground arith)))
      ])
      | inr room ↦ rw room (
          set_shard-IsValid m (shard id) _ v
            (insert-IsShard (per_shard m) id ch s h (ground arith)))
    ]

pub consume-IsValid :
    (id : String) (now : Time) (m : Memory) → IsValid m → IsValid (consume id now m).1
unfolding consume
consume-IsValid id now m v = elim (Option-cases (find m id)) [
  | inl e ↦ rw (e, consume_entry) v
  | inr (x, e) ↦
      let w =
        set_shard-IsValid m (shard id) _ v (delete-IsShard (per_shard m) id _ (v (shard id))) in
      rw (e, consume_entry)
        (elim (Bool-cases (after now x.expires_at)) [ inl late ↦ rw late w | inr live ↦ rw live w ])
]

pub janitor-IsValid : (i : ℕ) (now : Time) (m : Memory) → IsValid m → IsValid (janitor i now m)
unfolding janitor
janitor-IsValid i now m v =
    set_shard-IsValid m i _ v (sweep_locked-IsShard (per_shard m) now _ (v i))

pub new_memory-IsValid : (n : ℕ) → IsValid (new_memory n)
unfolding new_memory lookup
new_memory-IsValid n i = record { bounded = omega arith; distinct = tt; agrees = λ id e found. cc }
