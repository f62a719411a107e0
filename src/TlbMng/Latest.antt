-- ===== src/TlbMng/Latest.antt =====
-- The order of the lines, and the line of a page that was used last: what the loop of `tlb_hit`
-- finds when it follows the list from its back.
use kaby_lake_cache_c.Base.{
  not_zero, ◌&&◌, ◌==◌, ℕ, zero, suc, ◌≤◌, ◌<◌, ◌≡◌, ◌⊎◌, inl, inr, refl, sym, ◌∙◌, ap, arith, Bool,
  true, false, Bool-cases, Option, none, some, if◌then◌else◌, length, ltb,
}
use mathlib.Core.List.{List, [], ◌∷◌, ◌++◌, reverse_aux}
use kaby_lake_cache_c.Lists.{LinkedList}
use kaby_lake_cache_c.Lists.Chain.{Cells, first}
use kaby_lake_cache_c.Lists.Backward.{Backward}
use kaby_lake_cache_c.TlbMng.{FullTlb, tlb_lines}
use kaby_lake_cache_c.TlbMng.Search.{matches, find_node}

-- The values of the nodes: the lines of the TLB, the next to be replaced first.
abbrev pub values : Cells → List ℕ
values [] = []
values ((a, i) ∷ xs) = i ∷ values xs

pub values-append : (xs ys : Cells) → values (xs ++ ys) ≡ values xs ++ values ys
values-append [] ys = refl
values-append ((a, i) ∷ xs) ys = ap (λ r. i ∷ r) (values-append xs ys)

pub length-values : (xs : Cells) → length (values xs) ≡ length xs
length-values [] = refl
length-values ((a, i) ∷ xs) = ap suc (length-values xs)

-- The line is valid and holds this page.
abbrev pub has_page : FullTlb → (page line : ℕ) → Bool
has_page t page line = not_zero (t line).v && page == (t line).tag

matches-has_page : (t : FullTlb) (n i : ℕ) → matches t n i ≡ has_page t n i
matches-has_page t n i = ground arith

abbrev pub AreLines : List ℕ → Type 0
AreLines [] = Unit {0}
AreLines (i ∷ order) = (i < 128) × AreLines order

pub AreLines-append : (o r : List ℕ) → AreLines o → AreLines r → AreLines (o ++ r)
AreLines-append [] r a b = b
AreLines-append (i ∷ o) r (small, a) b = (small, AreLines-append o r a b)

pub AreLines-split : (o r : List ℕ) → AreLines (o ++ r) → AreLines o × AreLines r
AreLines-split [] r a = (tt, a)
AreLines-split (i ∷ o) r (small, a) = let (b, c) = AreLines-split o r a in ((small, b), c)

pub AreLines-reverse :
    (xs rs : Cells)
    → AreLines (values xs)
    → AreLines (values rs)
    → AreLines (values (reverse_aux xs rs))
AreLines-reverse [] rs a b = b
AreLines-reverse ((c, i) ∷ xs) rs (small, a) b = AreLines-reverse xs ((c, i) ∷ rs) a (small, b)

abbrev hit_or_here : (h : Option (List ℕ × ℕ)) → Bool → ℕ → List ℕ → Option (List ℕ × ℕ)
hit_or_here (some (o, i)) b j order = some (j ∷ o, i)
hit_or_here none b j order = if b then some (order, j) else none

-- The other lines, and the line of the page that was used last.
abbrev pub last_hit : FullTlb → (page : ℕ) → (order : List ℕ) → Option (List ℕ × ℕ)
last_hit t n [] = none
last_hit t n (i ∷ order) = hit_or_here (last_hit t n order) (has_page t n i) i order

-- The first node that matches, from the back.
abbrev pub first_match : FullTlb → (page : ℕ) → Cells → Option (ℕ × ℕ)
first_match t n [] = none
first_match t n ((a, i) ∷ rs) = if has_page t n i then some (a, i) else first_match t n rs

find_node-none :
    (l : LinkedList) (t : FullTlb) (n rounds : ℕ) → find_node rounds l t n none ≡ some none
unfolding find_node
find_node-none l t n zero = refl
find_node-none l t n (suc rounds) = refl

if_some :
    {A : Type 0} (b : Bool) (x y : A) → some (if b then x else y) ≡ (if b then some x else some y)
if_some true x y = refl
if_some false x y = refl

-- The loop along the `previous` pointers; a round for each node is enough.
pub find_node-first_match :
    (l : LinkedList) (t : FullTlb) (n rounds : ℕ) (rs : Cells) (q : Option ℕ)
    → Backward l.heap rs q
    → AreLines (values rs)
    → length rs ≤ rounds
    → find_node rounds l t n (first rs none) ≡ some (first_match t n rs)
unfolding find_node
find_node-first_match l t n rounds [] q b a enough = find_node-none l t n rounds
find_node-first_match l t n zero ((at, i) ∷ rs) q b a enough = absurd (ground arith)
find_node-first_match l t n (suc rounds) ((at, i) ∷ rs) q (e, b) (small, a) enough =
    let inside : ltb i tlb_lines ≡ true = ground arith in
    rw
      (
        e,
        inside,
        matches-has_page t n i,
        find_node-first_match l t n rounds rs (some at) b a (omega arith),
      )
      (sym (if_some (has_page t n i) (some (at, i)) (first_match t n rs)))

abbrev pub Missing : FullTlb → (page : ℕ) → Cells → Type 0
Missing t n [] = Unit {0}
Missing t n ((a, i) ∷ xs) = (has_page t n i ≡ false) × Missing t n xs

pub first_match-Missing :
    (t : FullTlb) (n : ℕ) (xs rs : Cells)
    → Missing t n xs
    → first_match t n (reverse_aux xs rs) ≡ first_match t n rs
first_match-Missing t n [] rs none_match = refl
first_match-Missing t n ((a, i) ∷ xs) rs (off, none_match) =
    first_match-Missing t n xs ((a, i) ∷ rs) none_match ∙ rw off refl

pub first_match-found :
    (t : FullTlb) (n : ℕ) (ys : Cells) (a i : ℕ) (zs rs : Cells)
    → has_page t n i ≡ true
    → Missing t n zs
    → first_match t n (reverse_aux (ys ++ (a, i) ∷ zs) rs) ≡ some (a, i)
first_match-found t n [] a i zs rs here none_match =
    first_match-Missing t n zs ((a, i) ∷ rs) none_match ∙ rw here refl
first_match-found t n ((b, j) ∷ ys) a i zs rs here none_match =
    first_match-found t n ys a i zs ((b, j) ∷ rs) here none_match

pub last_hit-Missing :
    (t : FullTlb) (n : ℕ) (xs : Cells) → Missing t n xs → last_hit t n (values xs) ≡ none
last_hit-Missing t n [] none_match = refl
last_hit-Missing t n ((a, i) ∷ xs) (off, none_match) =
    rw (last_hit-Missing t n xs none_match, off) refl

pub last_hit-found :
    (t : FullTlb) (n : ℕ) (ys : Cells) (a i : ℕ) (zs : Cells)
    → has_page t n i ≡ true
    → Missing t n zs
    → last_hit t n (values (ys ++ (a, i) ∷ zs)) ≡ some (values (ys ++ zs), i)
last_hit-found t n [] a i zs here none_match = rw (last_hit-Missing t n zs none_match, here) refl
last_hit-found t n ((b, j) ∷ ys) a i zs here none_match =
    rw (last_hit-found t n ys a i zs here none_match) refl

-- A list of nodes around the last one that matches.
pub record Around (t : FullTlb) (n : ℕ) (xs : Cells) : Type 0 where
  pub before : Cells
  pub at : ℕ
  pub line : ℕ
  pub after : Cells
  pub parts : xs ≡ before ++ (at, line) ∷ after
  pub here : has_page t n line ≡ true
  pub later : Missing t n after

pub around : (t : FullTlb) (n : ℕ) (xs : Cells) → Around t n xs ⊎ Missing t n xs
around t n [] = inr tt
around t n ((a, i) ∷ xs) = elim (around t n xs) [
  | inl k ↦ inl (record {
    before = (a, i) ∷ k.before;
    at = k.at;
    line = k.line;
    after = k.after;
    parts = ap (λ r. (a, i) ∷ r) k.parts;
    here = k.here;
    later = k.later;
  })
  | inr none_match ↦ elim (Bool-cases (has_page t n i)) [
    | inl here ↦ inl (record {
      before = [];
      at = a;
      line = i;
      after = xs;
      parts = refl;
      here = here;
      later = none_match;
    })
    | inr off ↦ inr (off, none_match)
  ]
]

-- The line that was used last stands last.
pub last_hit-snoc :
    (t : FullTlb) (n : ℕ) (order : List ℕ) (i : ℕ)
    → has_page t n i ≡ true
    → last_hit t n (order ++ i ∷ []) ≡ some (order, i)
last_hit-snoc t n [] i here = rw here refl
last_hit-snoc t n (j ∷ order) i here = rw (last_hit-snoc t n order i here) refl

-- Where the line that was used last stands.
abbrev pub HitCases :
    FullTlb → (page j : ℕ) → (order others : List ℕ) → (i : ℕ) → Option (List ℕ × ℕ) → Type 0
HitCases t n j order others i h =
    ((o : List ℕ) × (h ≡ some (o, i)) × (others ≡ j ∷ o))
    ⊎ ((i ≡ j) × (has_page t n j ≡ true) × (h ≡ none) × (others ≡ order))

hit_cases :
    (t : FullTlb) (n j : ℕ) (order others : List ℕ) (i : ℕ) (h : Option (List ℕ × ℕ)) (b : Bool)
    → has_page t n j ≡ b
    → hit_or_here h b j order ≡ some (others, i)
    → HitCases t n j order others i h
hit_cases t n j order others i (some (o, k)) b here e = inl (o, cc, cc)
hit_cases t n j order others i none true here e = inr (cc, here, refl, cc)
hit_cases t n j order others i none false here e = absurd (cc)

pub last_hit-cons :
    (t : FullTlb) (n j : ℕ) (order others : List ℕ) (i : ℕ)
    → last_hit t n (j ∷ order) ≡ some (others, i)
    → HitCases t n j order others i (last_hit t n order)
last_hit-cons t n j order others i e =
    hit_cases t n j order others i (last_hit t n order) (has_page t n j) refl e
