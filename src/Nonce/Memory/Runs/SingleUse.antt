-- ===== src/Nonce/Memory/Runs/SingleUse.antt =====
-- How often a nonce is redeemed along a run of the in-memory store.
use dauth.Base.{
  ℕ, ◌+◌, ◌≤◌, ◌≡◌, inl, inr, ap, String, List, [], ◌∷◌, Option, none, some, false, Bool-cases,
  if◌then◌else◌, Time, after, ok, err, arith, lookup, eq_iff, str_eq,
}
use dauth.Nonce.{err_not_found}
use dauth.Nonce.Memory.{Entry, Memory, new_memory}
use dauth.Nonce.Memory.Laws.{IsValid, find, new_memory-IsValid}
use dauth.Nonce.Memory.Entries.{Forgets, find-consume, consume_reply, find-janitor, put-PutCases}
use dauth.Nonce.Memory.Runs.{Op, puts, consumes, sweeps, Reply, taken, step, run, step-IsValid}

-- The consumptions of `id` that succeed along a run.
abbrev redeemed : Op → Reply → String → ℕ
redeemed (consumes j) (taken (ok c)) id = if str_eq j id then 1 else 0
redeemed _ _ id = 0

pub redemptions : String → List (Time × Op) → Memory → ℕ
redemptions id [] m = 0
redemptions id ((now, op) ∷ ops) m =
    let (r, m') = step now op m in redeemed op r id + redemptions id ops m'

abbrev assigned : Op → String → ℕ
assigned (puts j c) id = if str_eq j id then 1 else 0
assigned _ id = 0

pub issues : String → List (Time × Op) → ℕ
issues id [] = 0
issues id ((now, op) ∷ ops) = assigned op id + issues id ops

abbrev outstanding : Option Entry → ℕ
outstanding none = 0
outstanding (some e) = 1

outstanding-Forgets :
    (now : Time) (o o' : Option Entry) → Forgets now o o' → outstanding o' ≤ outstanding o
outstanding-Forgets now o o' (inl e) = rw e (omega arith)
outstanding-Forgets now o o' (inr (gone, _)) = rw gone (omega arith)

reply_redeemed :
    (now : Time) (o : Option Entry) (j id : String)
    → redeemed
        (consumes j)
        (taken (elim o [
          | none ↦ err err_not_found
          | some e ↦ if after now e.expires_at then err err_not_found else ok e.ch
        ]))
        id
      ≤ outstanding o
reply_redeemed now none j id = ground arith
reply_redeemed now (some e) j id = ground arith

reply_not_redeemed :
    (now : Time) (o : Option Entry) (j id : String)
    → str_eq j id ≡ false
    → redeemed
        (consumes j)
        (taken (elim o [
          | none ↦ err err_not_found
          | some e ↦ if after now e.expires_at then err err_not_found else ok e.ch
        ]))
        id
      ≡ 0
reply_not_redeemed now none j id h = ground arith
reply_not_redeemed now (some e) j id h = ground arith

redeemed-step :
    (now : Time) (op : Op) (m : Memory) (id : String)
    → IsValid m
    → redeemed op (step now op m).0 id + outstanding (find (step now op m).1 id)
      ≤ assigned op id + outstanding (find m id)
unfolding step
redeemed-step now (puts j c) m id v = elim (put-PutCases j c now m v) [
  | inl (r, _, keeps) ↦ elim (keeps id) [
    | inl (same, e) ↦ rw (e, (eq_iff j id).1 same) (omega arith)
    | inr (other, f) ↦ omega (arith, outstanding-Forgets now (find m id) _ f)
  ]
  | inr (r, _, keeps) ↦ omega (arith, outstanding-Forgets now (find m id) _ (keeps id))
]
redeemed-step now (consumes j) m id v =
    rw (find-consume j id now m, consume_reply j now m)
      (elim (Bool-cases (str_eq j id)) [
        | inl e ↦
            let same : find m j ≡ find m id = ap (find m) ((eq_iff j id).0 e) in
            rw (e, same) (omega (arith, reply_redeemed now (find m id) j id))
        | inr e ↦ rw e (omega (arith, reply_not_redeemed now (find m j) j id e))
      ])
redeemed-step now (sweeps i) m id v =
    omega (arith, outstanding-Forgets now (find m id) _ (find-janitor i now m id v))

redemptions_bound :
    (id : String) (ops : List (Time × Op)) (m : Memory)
    → IsValid m
    → redemptions id ops m + outstanding (find (run ops m).1 id)
      ≤ issues id ops + outstanding (find m id)
unfolding run redemptions issues
redemptions_bound id [] m v = omega arith
redemptions_bound id ((now, op) ∷ ops) m v = omega (
  arith,
  redeemed-step now op m id v,
  redemptions_bound id ops (step now op m).1 (step-IsValid now op m v),
)

-- Single use, under any interleaving: from a new store, a nonce is redeemed at most as often as a
-- challenge was put under it; a nonce that was put once is redeemed at most once.
pub redemptions-le-issues :
    (n : ℕ) (id : String) (ops : List (Time × Op))
    → redemptions id ops (new_memory n) ≤ issues id ops
unfolding new_memory lookup
redemptions-le-issues n id ops =
    omega (arith, redemptions_bound id ops (new_memory n) (new_memory-IsValid n))
