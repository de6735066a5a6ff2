-- ===== src/UsedIds/Array.antt =====
-- The short array of ids: what its functions do to the ids in use.
use flash_mq.Base.{
  ℕ, zero, suc, ◌-◌, ◌≤◌, ◌<◌, ◌≡◌, refl, ◌∙◌, ap, Bool, true, false, not, ◌&&◌, List, [], ◌∷◌,
  ◌++◌, length, set, take, any, any-append, ◌==◌, if◌then◌else◌, arith, Bool-cases, inl, inr,
}
use mathlib.Core.Bool.{false≢true}
use flash_mq.UsedIds.{ids_is_used, shift, free_loop}

abbrev pub is : ℕ → ℕ → Bool
is id x = x == id

abbrev pub Distinct : List ℕ → Type 0
Distinct [] = Unit {0}
Distinct (x ∷ xs) = (any (is x) xs ≡ false) × Distinct xs

abbrev pub AllBelow : ℕ → List ℕ → Type 0
AllBelow n [] = Unit {0}
AllBelow n (x ∷ xs) = (x < n) × AllBelow n xs

-- `l` without the first `id`.
unfoldable pub remove : ℕ → List ℕ → List ℕ
remove id [] = []
remove id (x ∷ xs) = if x == id then xs else x ∷ remove id xs

pub ids_is_used-any :
    (xs : List ℕ) (used id : ℕ) → ids_is_used xs used id ≡ any (is id) (take used xs)
unfolding ids_is_used
ids_is_used-any xs zero id = refl
ids_is_used-any [] (suc used) id = refl
ids_is_used-any (x ∷ xs) (suc used) id = ground (arith, ids_is_used-any xs used id)

pub take-set :
    (xs : List ℕ) (used id : ℕ)
    → used < length xs
    → take (suc used) (set xs used id) ≡ take used xs ++ id ∷ []
take-set [] used id h = absurd (omega arith)
take-set (x ∷ xs) zero id h = refl
take-set (x ∷ xs) (suc used) id h = ap (λ l. x ∷ l) (take-set xs used id (omega arith))

take-shift : (x : ℕ) (xs : List ℕ) (n : ℕ) → n ≤ length xs → take n (shift n (x ∷ xs)) ≡ take n xs
unfolding shift
take-shift x xs zero h = refl
take-shift x [] (suc n) h = absurd (omega arith)
take-shift x (y ∷ xs) (suc n) h = ap (λ l. y ∷ l) (take-shift y xs n (omega arith))

length-shift : (n : ℕ) (xs : List ℕ) → length (shift n xs) ≡ length xs
unfolding shift
length-shift zero xs = refl
length-shift (suc n) [] = refl
length-shift (suc n) (x ∷ []) = refl
length-shift (suc n) (x ∷ y ∷ xs) = ap suc (length-shift n (y ∷ xs))

pub length-free_loop : (xs : List ℕ) (used id : ℕ) → length (free_loop xs used id).0 ≡ length xs
unfolding free_loop
length-free_loop xs zero id = refl
length-free_loop [] (suc used) id = refl
length-free_loop (x ∷ xs) (suc used) id =
    ground (arith, length-free_loop xs used id, length-shift used (x ∷ xs))

abbrev pub left : Bool → ℕ → ℕ
left found used = if found then used - 1 else used

take-left :
    (found : Bool) (used x : ℕ) (ys : List ℕ)
    → (found ≡ true → 0 < used)
    → take (left found (suc used)) (x ∷ ys) ≡ x ∷ take (left found used) ys
take-left true zero x ys h = absurd (omega (arith, h refl))
take-left true (suc used) x ys h =
    let e : suc (suc used) - 1 ≡ suc used = omega arith in
    let e' : suc used - 1 ≡ used = omega arith in rw (e, e')
take-left false used x ys h = refl

used_pos : (xs : List ℕ) (used id : ℕ) → (free_loop xs used id).1 ≡ true → 0 < used
unfolding free_loop
used_pos xs zero id h = absurd (false≢true h)
used_pos xs (suc used) id h = omega arith

-- The ids in use afterwards are those before, without the first `id`.
pub take-free_loop :
    (xs : List ℕ) (used id : ℕ)
    → used ≤ length xs
    → ((free_loop xs used id).1 ≡ any (is id) (take used xs))
      × (take (left (free_loop xs used id).1 used) (free_loop xs used id).0
          ≡ remove id (take used xs))
unfolding free_loop remove
take-free_loop xs zero id h = (refl, refl)
take-free_loop [] (suc used) id h = absurd (omega arith)
take-free_loop (x ∷ xs) (suc used) id h =
    let (ih₀, ih₁) = take-free_loop xs used id (omega arith) in
    elim (Bool-cases (x == id)) [
      | inl e ↦
          let one : suc used - 1 ≡ used = omega arith in
          rw e (refl, rw one (take-shift x xs used (omega arith)))
      | inr ne ↦ rw ne (
        ih₀,
        take-left (free_loop xs used id).1 used x (free_loop xs used id).0 (used_pos xs used id)
            ∙ ap (λ l. x ∷ l) ih₁,
      )
    ]

any-is : (j id : ℕ) (l : List ℕ) → (j == id) ≡ true → any (is j) l ≡ any (is id) l
any-is j id l e = ground arith

pub any-remove :
    (id j : ℕ) (l : List ℕ) → Distinct l → any (is j) (remove id l) ≡ not (j == id) && any (is j) l
unfolding remove
any-remove id j [] d = ground arith
any-remove id j (x ∷ xs) d = elim (Bool-cases (x == id)) [
  | inl e ↦ rw e (ground (arith, any-is id x xs, any-is j x xs))
  | inr ne ↦ rw ne (ground (arith, any-remove id j xs d.1))
]

pub remove-Distinct : (id : ℕ) (l : List ℕ) → Distinct l → Distinct (remove id l)
unfolding remove
remove-Distinct id [] d = tt
remove-Distinct id (x ∷ xs) d = ground (arith, any-remove id x xs d.1, remove-Distinct id xs d.1)

pub remove-AllBelow : (n id : ℕ) (l : List ℕ) → AllBelow n l → AllBelow n (remove id l)
unfolding remove
remove-AllBelow n id [] b = tt
remove-AllBelow n id (x ∷ xs) b = ground (arith, remove-AllBelow n id xs b.1)

pub append-Distinct :
    (l : List ℕ) (id : ℕ) → Distinct l → any (is id) l ≡ false → Distinct (l ++ id ∷ [])
append-Distinct [] id d h = (refl, tt)
append-Distinct (x ∷ xs) id d h =
    ground (arith, append-Distinct xs id d.1, any-append (is x) xs (id ∷ []))

pub append-AllBelow :
    (n : ℕ) (l : List ℕ) (id : ℕ) → AllBelow n l → id < n → AllBelow n (l ++ id ∷ [])
append-AllBelow n [] id b h = (h, tt)
append-AllBelow n (x ∷ xs) id b h = (b.0, append-AllBelow n xs id b.1 h)
