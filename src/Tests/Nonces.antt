-- ===== src/Tests/Nonces.antt =====
-- Runs of the in-memory store.
use dauth.Base.{◌≤◌, arith, List, [], ◌∷◌, none, Time}
use Prim.Native.Nat.{max}
use dauth.Nonce.{Challenge}
use dauth.Nonce.Memory.{new_memory, shards}
use dauth.Nonce.Memory.Promises.{size, size-run-le}
use dauth.Nonce.Memory.Runs.{Op, puts, consumes, sweeps, run}
use dauth.Nonce.Memory.Runs.Refines.{SpecRun, run-SpecRun}
use dauth.Nonce.Memory.Runs.SingleUse.{redemptions, issues, redemptions-le-issues}
use dauth.Tests.Samples.{alice}

abbrev pub ch : Challenge
ch = record { message = "hello"; address = alice; expires_at = 20; audience = [] }

-- A nonce is put, taken, and asked for again, and another one expires before it is asked for.
abbrev ops : List (Time × Op)
ops =
    (10, puts "n" ch)
    ∷ (11, puts "late" ch)
    ∷ (12, consumes "n")
    ∷ (13, consumes "n")
    ∷ (14, sweeps 3)
    ∷ (30, consumes "late")
    ∷ []

run-SpecRun_example : SpecRun (λ _. none) ops (run ops (new_memory 128)).0
run-SpecRun_example = run-SpecRun 128 0 ops (ground arith)

redemptions-le-issues_example : redemptions "n" ops (new_memory 128) ≤ issues "n" ops
redemptions-le-issues_example = redemptions-le-issues 128 "n" ops

size-run-le_example : size (run ops (new_memory 128)).1 ≤ max 128 shards
size-run-le_example = size-run-le 128 ops
