-- ===== src/Nonce/Memory/Runs.antt =====
-- Runs of the in-memory store: sequences of its critical sections, each at a reading of the clock.
pub mod Refines
pub mod SingleUse
use dauth.Base.{ℕ, ◌≡◌, refl, ◌∙◌, arith, String, List, [], ◌∷◌, Time, Result}
use dauth.Nonce.{Challenge}
use dauth.Nonce.Memory.{Memory, put, consume, janitor}
use dauth.Nonce.Memory.Laws.{IsValid, put-IsValid, consume-IsValid, janitor-IsValid}

pub data Op : Type 0 where
  puts : String → Challenge → Op
  consumes : String → Op
  sweeps : ℕ → Op

pub data Reply : Type 0 where
  stored : Result (Unit {0}) → Reply
  taken : Result Challenge → Reply
  swept : Reply

-- One critical section of the store, at the clock's reading.
pub step : Time → Op → Memory → Reply × Memory
step now (puts id ch) m = let (r, m') = put id ch now m in (stored r, m')
step now (consumes id) m = let (r, m') = consume id now m in (taken r, m')
step now (sweeps i) m = (swept, janitor i now m)

pub step-IsValid : (now : Time) (op : Op) (m : Memory) → IsValid m → IsValid (step now op m).1
unfolding step
step-IsValid now (puts id ch) m v = put-IsValid id ch now m v
step-IsValid now (consumes id) m v = consume-IsValid id now m v
step-IsValid now (sweeps i) m v = janitor-IsValid i now m v

pub run : List (Time × Op) → Memory → List Reply × Memory
run [] m = ([], m)
run ((now, op) ∷ ops) m = let (r, m') = step now op m in let (rs, m'') = run ops m' in (r ∷ rs, m'')

-- The bounds and the distinct keys hold after every run.
pub run-IsValid : (ops : List (Time × Op)) (m : Memory) → IsValid m → IsValid (run ops m).1
unfolding run
run-IsValid [] m v = v
run-IsValid ((now, op) ∷ ops) m v = run-IsValid ops (step now op m).1 (step-IsValid now op m v)

put_max_entries :
    (id : String) (ch : Challenge) (now : Time) (m : Memory)
    → (put id ch now m).1.max_entries ≡ m.max_entries
unfolding put
put_max_entries id ch now m = ground arith

consume_max_entries :
    (id : String) (now : Time) (m : Memory) → (consume id now m).1.max_entries ≡ m.max_entries
unfolding consume
consume_max_entries id now m = ground arith

-- No step changes the capacity.
pub run_max_entries :
    (ops : List (Time × Op)) (m : Memory) → (run ops m).1.max_entries ≡ m.max_entries
unfolding run step janitor
run_max_entries [] m = refl
run_max_entries ((now, puts id ch) ∷ ops) m =
    run_max_entries ops (put id ch now m).1 ∙ put_max_entries id ch now m
run_max_entries ((now, consumes id) ∷ ops) m =
    run_max_entries ops (consume id now m).1 ∙ consume_max_entries id now m
run_max_entries ((now, sweeps i) ∷ ops) m = run_max_entries ops (janitor i now m)
