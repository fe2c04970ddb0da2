-- ===== src/Nonce/Memory/Runs/Refines.antt =====
-- The abstract store that the in-memory store implements: a partial map from nonces to challenges
-- that never sweeps.
use dauth.Base.{
  ℕ, ◌≤◌, ◌<◌, ◌≡◌, inl, inr, refl, String, List, [], ◌∷◌, Option, none, some, Bool-cases,
  if◌then◌else◌, Time, after, Result, ok, err, arith, lookup, eq_iff, str_eq,
}
use dauth.Nonce.{Challenge, err_not_found}
use dauth.Nonce.Memory.{err_full, Entry, Memory, new_memory}
use dauth.Nonce.Memory.Laws.{IsValid, find, new_memory-IsValid}
use dauth.Nonce.Memory.Entries.{Forgets, find-consume, consume_reply, find-janitor, put-PutCases}
use dauth.Nonce.Memory.Runs.{
  Op, puts, consumes, sweeps, Reply, stored, taken, swept, step, run, step-IsValid,
}

-- The outstanding challenges of the abstract store.
abbrev pub Spec : Type 0
Spec = String → Option Challenge

abbrev pub assign : String → Option Challenge → Spec → Spec
assign id c s = λ j. if str_eq id j then c else s j

abbrev pub redeem : Time → Option Challenge → Result Challenge
redeem now none = err err_not_found
redeem now (some c) = if after now c.expires_at then err err_not_found else ok c

-- The steps that the abstract store allows, with their replies. It may refuse to store.
pub data SpecStep (now : Time) (s : Spec) : Op → Reply → Spec → Type 0 where
  stores :
      (id : String) (c : Challenge)
      → SpecStep now s (puts id c) (stored (ok tt)) (assign id (some c) s)
  refuses : (id : String) (c : Challenge) → SpecStep now s (puts id c) (stored (err err_full)) s
  redeems :
      (id : String) → SpecStep now s (consumes id) (taken (redeem now (s id))) (assign id none s)
  sweeps_none : (i : ℕ) → SpecStep now s (sweeps i) swept s

pub data SpecRun : Spec → List (Time × Op) → List Reply → Type 0 where
  done : (s : Spec) → SpecRun s [] []
  next :
      (now : Time) (op : Op) (ops : List (Time × Op)) (r : Reply) (rs : List Reply) (s s' : Spec)
      → SpecStep now s op r s'
      → SpecRun s' ops rs
      → SpecRun s ((now, op) ∷ ops) (r ∷ rs)

-- An entry stands for its challenge; a missing one for an expired challenge or for none.
abbrev pub Stands : Time → Option Entry → Option Challenge → Type 0
Stands now none none = Unit
Stands now none (some c) = c.expires_at < now
Stands now (some e) none = ⊥
Stands now (some e) (some c) = (e.ch ≡ c) × (e.expires_at ≡ c.expires_at)

abbrev pub Represents : Time → Memory → Spec → Type 0
Represents now m s = (j : String) → Stands now (find m j) (s j)

Stands-later :
    (t now : Time) (o : Option Entry) (c : Option Challenge)
    → t ≤ now
    → Stands t o c
    → Stands now o c
Stands-later t now none none le h = tt
Stands-later t now none (some c) le h = omega arith
Stands-later t now (some e) none le h = h
Stands-later t now (some e) (some c) le h = h

Stands-Forgets :
    (now : Time) (o o' : Option Entry) (c : Option Challenge)
    → Stands now o c
    → Forgets now o o'
    → Stands now o' c
Stands-Forgets now o o' c h (inl e) = rw e h
Stands-Forgets now o o' none h (inr (gone, (e, here, late))) = rw gone tt
Stands-Forgets now (some f) o' (some c) h (inr (gone, (e, here, late))) = rw gone (ground arith)
Stands-Forgets now none o' (some c) h (inr (gone, (e, here, late))) = cc

Stands-redeem :
    (now : Time) (o : Option Entry) (c : Option Challenge)
    → Stands now o c
    → elim o [
      | none ↦ err err_not_found
      | some e ↦ if after now e.expires_at then err err_not_found else ok e.ch
    ]
      ≡ redeem now c
Stands-redeem now none none h = refl
Stands-redeem now none (some c) h = ground arith
Stands-redeem now (some e) none h = absurd h
Stands-redeem now (some e) (some c) h = ground arith

-- What the abstract store answers to one step of the memory, and the state that it then has.
abbrev Follows : Time → Op → Reply × Memory → Spec → Type 0
Follows now op (r, m') s = (s' : Spec) × SpecStep now s op r s' × Represents now m' s'

put-Follows :
    (t now : Time) (id : String) (ch : Challenge) (m : Memory) (s : Spec)
    → IsValid m
    → t ≤ now
    → Represents t m s
    → Follows now (puts id ch) (step now (puts id ch) m) s
unfolding step
put-Follows t now id ch m s v le h = elim (put-PutCases id ch now m v) [
  | inl (r, _, keeps) ↦ rw r (
    assign id (some ch) s,
    stores id ch,
    λ j. elim (keeps j) [
      | inl (same, e) ↦ rw (e, (eq_iff id j).1 same) (refl, refl)
      | inr (other, f) ↦ elim (Bool-cases (str_eq id j)) [
        | inl same ↦ absurd (other ((eq_iff id j).0 same))
        | inr e ↦
            rw e (Stands-Forgets now (find m j) _ (s j) (Stands-later t now _ (s j) le (h j)) f)
      ]
    ],
  )
  | inr (r, _, keeps) ↦ rw r (
    s,
    refuses id ch,
    λ j. Stands-Forgets now (find m j) _ (s j) (Stands-later t now _ (s j) le (h j)) (keeps j),
  )
]

consume-Follows :
    (t now : Time) (id : String) (m : Memory) (s : Spec)
    → t ≤ now
    → Represents t m s
    → Follows now (consumes id) (step now (consumes id) m) s
unfolding step
consume-Follows t now id m s le h = rw (consume_reply id now m) (
    rw (Stands-redeem now (find m id) (s id) (Stands-later t now _ (s id) le (h id))) (
      assign id none s,
      redeems id,
      λ j. rw (find-consume id j now m) (elim (Bool-cases (str_eq id j)) [
        | inl e ↦ rw e tt
        | inr e ↦ rw e (Stands-later t now (find m j) (s j) le (h j))
      ]),
    ))

step-Follows :
    (t now : Time) (op : Op) (m : Memory) (s : Spec)
    → IsValid m
    → t ≤ now
    → Represents t m s
    → Follows now op (step now op m) s
unfolding step
step-Follows t now (puts id ch) m s v le h = put-Follows t now id ch m s v le h
step-Follows t now (consumes id) m s v le h = consume-Follows t now id m s le h
step-Follows t now (sweeps i) m s v le h = (
  s,
  sweeps_none i,
  λ j.
      Stands-Forgets now (find m j) _ (s j) (Stands-later t now _ (s j) le (h j))
        (find-janitor i now m j v),
)

-- The clock does not run backwards along the steps.
abbrev pub Ordered : Time → List (Time × Op) → Type 0
Ordered t [] = Unit
Ordered t ((now, op) ∷ ops) = (t ≤ now) × Ordered now ops

run_follows :
    (t : Time) (ops : List (Time × Op)) (m : Memory) (s : Spec)
    → IsValid m
    → Ordered t ops
    → Represents t m s
    → SpecRun s ops (run ops m).0
unfolding run
run_follows t [] m s v o h = done s
run_follows t ((now, op) ∷ ops) m s v o h =
    let (s', st, h') = step-Follows t now op m s v o.0 h in
    next now op ops _ _ s s' st
      (run_follows now ops (step now op m).1 s' (step-IsValid now op m v) o.1 h')

new_memory-Represents : (n t : ℕ) → Represents t (new_memory n) (λ _. none)
unfolding new_memory lookup
new_memory-Represents n t j = tt

-- Refinement: from a new store of any capacity, in every sequence of critical sections along which
-- the clock does not run backwards, the replies are those of an abstract store that is a partial
-- map of outstanding challenges: a consumption redeems what is assigned to its nonce if that has
-- not expired, and leaves none; a storing step assigns, or is refused as full and changes nothing;
-- the janitor is not seen at all.
pub run-SpecRun :
    (n : ℕ) (t : Time) (ops : List (Time × Op))
    → Ordered t ops
    → SpecRun (λ _. none) ops (run ops (new_memory n)).0
run-SpecRun n t ops o =
    run_follows t ops (new_memory n) (λ _. none) (new_memory-IsValid n) o
      (new_memory-Represents n t)
