-- ===== src/Tasks/Queue/Links.antt =====
-- The nodes of one ready queue: their addresses ascend, because each new node has a fresh one, and the
-- tail is the last of them.
use os.Util.{
  ℕ, ◌+◌, ◌≤◌, ◌<◌, ◌≡◌, refl, sym, ap, arith, ◌==◌, true, false, Option, some, List, [], ◌∷◌, ◌++◌,
  if◌then◌else◌,
}
use os.Tasks.{Node}
use os.Tasks.Queue.{link_after}

-- How many nodes name the task of slot p.
unfoldable pub count : List Node → ℕ → ℕ
count [] p = 0
count (n ∷ ns) p = (if n.task == p then 1 else 0) + count ns p

unfoldable pub Tailed : List Node → (tail : Option ℕ) → (fresh : ℕ) → Type 0
Tailed [] tail fresh = Unit
Tailed (n ∷ []) tail fresh = (tail ≡ some n.addr) × (n.addr < fresh)
Tailed (n ∷ m ∷ ns) tail fresh = (n.addr < m.addr) × Tailed (m ∷ ns) tail fresh

pub Tailed-rest :
    (n : Node) (ns : List Node) (tail : Option ℕ) (fresh : ℕ)
    → Tailed (n ∷ ns) tail fresh
    → Tailed ns tail fresh
unfolding Tailed
Tailed-rest n [] tail fresh h = tt
Tailed-rest n (m ∷ ns) tail fresh h = h.1

pub Tailed-later :
    (ns : List Node) (tail : Option ℕ) (fresh : ℕ)
    → Tailed ns tail fresh
    → Tailed ns tail (fresh + 1)
unfolding Tailed
Tailed-later [] tail fresh h = tt
Tailed-later (n ∷ []) tail fresh h = (h.0, omega (arith, h.1))
Tailed-later (n ∷ m ∷ ns) tail fresh h = (h.0, Tailed-later (m ∷ ns) tail fresh h.1)

-- A queue with a node has a tail, not before its first node.
pub Tailed-bounds :
    (n : Node) (ns : List Node) (tail : Option ℕ) (fresh : ℕ)
    → Tailed (n ∷ ns) tail fresh
    → (a : ℕ) × (tail ≡ some a) × (n.addr ≤ a) × (a < fresh)
unfolding Tailed
Tailed-bounds n [] tail fresh h = (n.addr, h.0, omega arith, h.1)
Tailed-bounds n (m ∷ ns) tail fresh h =
    let (a, e, le, lt) = Tailed-bounds m ns tail fresh h.1 in (a, e, omega (arith, h.0), lt)

-- The new node goes behind the last one.
pub link_after_lem :
    (n : Node) (ns : List Node) (a fresh : ℕ) (new : Node)
    → Tailed (n ∷ ns) (some a) fresh
    → link_after (n ∷ ns) a new ≡ some ((n ∷ ns) ++ new ∷ [])
unfolding link_after Tailed
link_after_lem n [] a fresh new h =
    let same : (n.addr == a) ≡ true = ground (arith, h.0) in rw same refl
link_after_lem n (m ∷ ns) a fresh new h =
    let (b, e, le, lt) = Tailed-bounds m ns (some a) fresh h.1 in
    let apart : (n.addr == a) ≡ false = ground (arith, h.0, e, le) in
    rw (apart, link_after_lem m ns a fresh new h.1) refl

pub Tailed-snoc :
    (ns : List Node) (tail : Option ℕ) (fresh : ℕ) (new : Node)
    → new.addr ≡ fresh
    → Tailed ns tail fresh
    → Tailed (ns ++ new ∷ []) (some fresh) (fresh + 1)
unfolding Tailed
Tailed-snoc [] tail fresh new e h = (ap some (sym e), omega arith)
Tailed-snoc (n ∷ []) tail fresh new e h = (omega (arith, h.1), (ap some (sym e), omega arith))
Tailed-snoc (n ∷ m ∷ ns) tail fresh new e h = (h.0, Tailed-snoc (m ∷ ns) tail fresh new e h.1)

pub count-snoc :
    (ns : List Node) (new : Node) (p : ℕ)
    → count (ns ++ new ∷ []) p ≡ count ns p + (if new.task == p then 1 else 0)
unfolding count
count-snoc [] new p = omega arith
count-snoc (n ∷ ns) new p = omega (arith, count-snoc ns new p)
