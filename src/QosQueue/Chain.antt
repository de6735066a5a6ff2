-- ===== src/QosQueue/Chain.antt =====
-- qospacketqueue.cpp: the nodes of the queue in the order of the links.
use flash_mq.Base.{◌≡◌, ◌∙◌, Bool, true, not, ◌&&◌, any, List, [], ◌∷◌, ◌==◌, Option, some, arith}
use flash_mq.QosQueue.{Ptr, Memory}

abbrev pub first_or : Option Ptr → List Ptr → Option Ptr
first_or o [] = o
first_or o (x ∷ xs) = some x

abbrev pub last_or : Option Ptr → List Ptr → Option Ptr
last_or o [] = o
last_or o (x ∷ xs) = last_or (some x) xs

abbrev pub mem : Ptr → List Ptr → Bool
mem p xs = any (λ x. x == p) xs

abbrev pub distinct : List Ptr → Bool
distinct [] = true
distinct (x ∷ xs) = not (mem x xs) && distinct xs

-- From the tail on, `xs` are linked both ways; before them is `before` and after them `after`.
abbrev pub Chain : Memory → Option Ptr → List Ptr → Option Ptr → Type 0
Chain m before [] after = Unit
Chain m before (x ∷ xs) after =
    ((m x).prev ≡ before) × ((m x).next ≡ first_or after xs) × Chain m (some x) xs after

-- Writes elsewhere do not matter.
pub Chain-frame :
    (m m' : Memory) (before after : Option Ptr) (xs : List Ptr)
    → ((x : Ptr) → mem x xs ≡ true → ((m' x).prev ≡ (m x).prev) × ((m' x).next ≡ (m x).next))
    → Chain m before xs after
    → Chain m' before xs after
Chain-frame m m' before after [] same c = tt
Chain-frame m m' before after (x ∷ xs) same (p, n, c) =
    let (sp, sn) = same x (ground arith) in
    (sp ∙ p, sn ∙ n, Chain-frame m m' (some x) after xs (λ y h. same y (ground (arith, h))) c)
