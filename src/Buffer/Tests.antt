-- ===== src/Buffer/Tests.antt =====
-- Runs of the buffer cache, and the theorems at them.
use os.Util.{ℕ, zero, suc, ◌<◌, ◌≡◌, refl, ◌⊎◌, [], ◌∷◌, replicate, ok, panic, arith, get_or}
use os.Buffer.{Buffer, Cache, zeroed, bread, brelse, write_back}
use os.Buffer.Get.{Hit, Miss, Full, bget_cases, AllUsed, Matches}
use os.Buffer.Room.{release, run, step, Keeps, run-Keeps}

abbrev fresh : Cache
fresh = record { buf = replicate 30 zeroed; head = 0; disk = λ n. replicate 512 n }

-- thirty buffers in use, for blocks of device 1
abbrev busy_buffer : Buffer
busy_buffer = record zeroed { valid = 1; dev = 1; block_no = 4; refcnt = 1 }

abbrev busy : Cache
busy = record { buf = replicate 30 busy_buffer; head = 0; disk = λ n. replicate 512 n }

bget_cases_example : ((i : ℕ) × Hit fresh 1 7 i) ⊎ ((i : ℕ) × Miss fresh 1 7 i) ⊎ Full fresh 1 7
bget_cases_example = bget_cases fresh 1 7 refl

released : run (release 3 ∷ []) busy ≡ ok busy
unfolding run step brelse write_back
released = refl

all_once : (n j : ℕ) → j < n → (get_or (replicate n busy_buffer) j zeroed).refcnt ≡ 1
all_once zero j lt = absurd (omega arith)
all_once (suc n) zero lt = refl
all_once (suc n) (suc j) lt = all_once n j (omega arith)

busy_used : AllUsed busy.buf 0 30
busy_used j le lt = λ z. omega (arith, all_once 30 j lt)

none_at : (n j : ℕ) → j < n → ¬ Matches (get_or (replicate n busy_buffer) j zeroed) 1 7
none_at zero j lt = absurd (omega arith)
none_at (suc n) zero lt = λ m. omega (arith, m.1)
none_at (suc n) (suc j) lt = none_at n j (omega arith)

run-Keeps_example : Keeps busy busy × (bread busy 1 7 ≡ panic)
run-Keeps_example =
    run-Keeps (release 3 ∷ []) busy 1 7 released refl busy_used
      (λ j lt. none_at 30 j (omega (arith, lt)))
