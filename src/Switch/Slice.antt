-- ===== src/Switch/Slice.antt =====
-- A stretch of opcodes within a case, by its place, and where a parsed item stands in one.
use kanata.Base.{
  ℕ, zero, suc, ◌+◌, ◌≤◌, ◌<◌, ◌≡◌, refl, subst, arith, List, [], ◌∷◌, ◌++◌, Option, none, some,
  length, get_elem?,
}
use kanata.Switch.OpCode.{OpCode, max_bool_expr_depth, new_bool, opcode_type}
use kanata.Switch.Condition.{
  Condition, opcodes, InRange, interpretation, extra, opcode_type-opcodes,
}
use kanata.Switch.Parse.{Item, condition, group, Items, nil, cons}

-- `xs` stands in the case from place `n` on.
abbrev pub Slice : List OpCode → ℕ → List OpCode → Type 0
Slice ops n [] = n ≤ length ops
Slice ops n (x ∷ xs) = (get_elem? ops n ≡ some x) × Slice ops (suc n) xs

get_elem?-lt : (ops : List OpCode) (n : ℕ) {x : OpCode} → get_elem? ops n ≡ some x → n < length ops
get_elem?-lt [] n e = cc
get_elem?-lt (y ∷ ops) zero e = omega arith
get_elem?-lt (y ∷ ops) (suc n) e = omega (arith, get_elem?-lt ops n e)

pub Slice-le :
    (ops : List OpCode) (n : ℕ) (xs : List OpCode) → Slice ops n xs → n + length xs ≤ length ops
Slice-le ops n [] h = omega arith
Slice-le ops n (x ∷ xs) h = omega (arith, Slice-le ops (suc n) xs h.1)

pub Slice-append :
    (ops : List OpCode) (n m : ℕ) (xs ys : List OpCode)
    → m ≡ n + length xs
    → Slice ops n (xs ++ ys)
    → Slice ops n xs × Slice ops m ys
Slice-append ops n m [] ys e h =
    let same : n ≡ m = omega arith in
    (omega (arith, Slice-le ops n ys h), subst (λ k. Slice ops k ys) same h)
Slice-append ops n m (x ∷ xs) ys e h =
    let (front, back) = Slice-append ops (suc n) m xs ys (omega arith) h.1 in ((h.0, front), back)

Slice-cons :
    (x : OpCode) (ops : List OpCode) (n : ℕ) (xs : List OpCode)
    → Slice ops n xs
    → Slice (x ∷ ops) (suc n) xs
Slice-cons x ops n [] h = omega arith
Slice-cons x ops n (y ∷ xs) h = (h.0, Slice-cons x ops (suc n) xs h.1)

pub Slice-self : (ops : List OpCode) → Slice ops 0 ops
Slice-self [] = omega arith
Slice-self (x ∷ ops) = (refl, Slice-cons x ops 0 ops (Slice-self ops))

-- The opcodes of an item at place `base`, at a depth within the limit.
unfoldable mutual
  pub IsCode : ℕ → ℕ → Item → List OpCode → Type 0
  IsCode depth base (condition c) code =
      (w : OpCode) × (ws : List OpCode) × (code ≡ w ∷ ws) × (opcodes c ≡ some code)
  IsCode depth base (group op items) code =
      (w : OpCode) × (body : List OpCode) × (code ≡ w ∷ body)
      × (depth ≤ max_bool_expr_depth)
      × (new_bool op (base + length code) ≡ some w)
      × AreCode (suc depth) (suc base) items body

  pub AreCode : ℕ → ℕ → Items → List OpCode → Type 0
  AreCode depth base nil code = code ≡ []
  AreCode depth base (cons item items) code =
      (xs : List OpCode) × (ys : List OpCode) × (code ≡ xs ++ ys)
      × IsCode depth base item xs
      × AreCode depth (base + length xs) items ys

-- The opcode behind a condition's first, in the case and as the condition's own encoding has it.
behind :
    (ops : List OpCode) (n : ℕ) (ws : List OpCode)
    → Slice ops n ws
    → (rest : List OpCode) × (get_elem? ops n ≡ get_elem? (ws ++ rest) 0)
behind ops n [] h = alone (get_elem? ops n)
  where
    alone : (o : Option OpCode) → (rest : List OpCode) × (o ≡ get_elem? rest 0)
    alone none = ([], refl)
    alone (some x) = (x ∷ [], refl)
behind ops n (w ∷ ws) h = ([], h.0)

-- A condition in a case is read for what it is.
pub condition_read :
    (ops : List OpCode) (n : ℕ) (c : Condition) (w : OpCode) (ws : List OpCode)
    → InRange c
    → Slice ops n (w ∷ ws)
    → opcodes c ≡ some (w ∷ ws)
    → (opcode_type w (get_elem? ops (n + 1)) ≡ some (interpretation c)) × (length ws ≡ extra c)
condition_read ops n c w ws r h e =
    let (rest, same) = behind ops (suc n) ws h.1 in
    let next : n + 1 ≡ suc n = omega arith in rw (next, same) (opcode_type-opcodes c w ws rest r e)
