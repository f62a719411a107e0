-- ===== src/Lists/Relink.antt =====
-- A node inside a list is taken out and put behind the others.
use kaby_lake_cache_c.Base.{
  ℕ, Bool-cases, ◌≡◌, refl, sym, ◌∙◌, ap, arith, true, false, Option, none, some, eq→==,
  if◌then◌else◌, update, inl, inr,
}
use mathlib.Core.List.{[], ◌∷◌, ◌++◌}
use kaby_lake_cache_c.Lists.{
  Ptr, ListNode, NodeHeap, LinkedList, modify, set_previous, set_next, relink,
}
use kaby_lake_cache_c.Lists.Chain.{
  Cells, has, last, node, Chain, IsList, SameOutside, Chain-frame, Chain-update, has-append,
  last-append, Chain-append, Chain-split, Distinct-append, Distinct-split, set_next-Chain,
  set_previous-Chain,
}
use kaby_lake_cache_c.Lists.Push.{apart_from}

abbrev pub Apart : Cells → Cells → Type 0
Apart xs ys = (c : ℕ) → has c xs ≡ true → has c ys ≡ false

Apart-swap : (xs ys : Cells) → Apart xs ys → Apart ys xs
Apart-swap xs ys apart c m = elim (Bool-cases (has c xs)) [ inl i ↦ cc (apart c i) | inr o ↦ o ]

pub Apart-head : (xs : Cells) (a v : ℕ) (ys : Cells) → Apart xs ((a, v) ∷ ys) → has a xs ≡ false
Apart-head xs a v ys apart = Apart-swap xs ((a, v) ∷ ys) apart a (ground arith)

Apart-tail : (xs : Cells) (a v : ℕ) (ys : Cells) → Apart xs ((a, v) ∷ ys) → Apart xs ys
Apart-tail xs a v ys apart c m = ground (arith, apart c m)

-- A chain survives what is written to the nodes of another.
Chain-Apart :
    (h g : NodeHeap) (p : Ptr) (xs ys : Cells) (q : Ptr)
    → Apart xs ys
    → SameOutside ys h g
    → Chain h p xs q
    → Chain g p xs q
Chain-Apart h g p xs ys q apart same = Chain-frame h g p xs q (λ c m. same c (apart c m))

Chain-twice :
    (h : NodeHeap) (a : ℕ) (m n : Option ListNode) (p : Ptr) (xs : Cells) (q : Ptr)
    → has a xs ≡ false
    → Chain h p xs q
    → Chain (update (update h a m) a n) p xs q
Chain-twice h a m n p xs q out c =
    Chain-update (update h a m) a n p xs q out (Chain-update h a m p xs q out c)

-- The writes of `relink`, where they succeed.
relink_runs :
    (l : LinkedList) (a v d : ℕ) (p back : Ptr) (h1 h2 h3 : NodeHeap)
    → l.heap a ≡ some (node v p (some d))
    → set_next l.heap p (some d) ≡ some h1
    → h1 a ≡ some (node v p (some d))
    → set_previous h1 (some d) p ≡ some h2
    → l.back ≡ back
    → set_next h2 back (some a) ≡ some h3
    → h3 a ≡ some (node v p (some d))
    → relink l a
      ≡ some (record {
        heap = update (update h3 a (some (node v back (some d)))) a (some (node v back none));
        front = l.front;
        back = some a;
      })
unfolding relink
relink_runs l a v d p back h1 h2 h3 e0 s1 e1 s2 eb s3 e3 =
    let self = eq→== a a refl in rw (e0, s1, e1, s2, eb, s3) (unfold modify in rw (e3, self) refl)

-- The heap after a node was taken out between `ys` and `zs` and put behind `zs`.
module _ (l : LinkedList) (a v b w d u : ℕ) (ys zs : Cells)
    (is : IsList l (((b, w) ∷ ys) ++ (a, v) ∷ (d, u) ∷ zs)) where
  pub relink-IsList :
      (l' : LinkedList) × (relink l a ≡ some l')
      × IsList l' (((b, w) ∷ ys ++ (d, u) ∷ zs) ++ (a, v) ∷ [])
  unfolding relink
  relink-IsList =
      let before = (b, w) ∷ ys in
      let after = (d, u) ∷ zs in
      let (cb, (ea, ca)) = Chain-split l.heap none before ((a, v) ∷ after) none is.chain in
      let (db, (oa, da), apart) = Distinct-split before ((a, v) ∷ after) is.distinct in
      let out = Apart-head before a v after apart in
      let far = Apart-tail before a v after apart in
      let (h1, s1, c1, same1) = set_next-Chain l.heap none b w ys (some a) (some d) db cb in
      let a1 = same1 a out ∙ ea in
      let ca1 =
        Chain-Apart l.heap h1 (some a) after before none (Apart-swap before after far) same1 ca in
      let (h2, s2, c2, same2) =
        set_previous-Chain h1 (some a) d u zs none (last (some b) ys) da ca1 in
      let a2 = same2 a oa ∙ a1 in
      let b2 = Chain-Apart h1 h2 none before after (some d) far same2 c1 in
      let (h3, s3, c3, same3) = set_next-Chain h2 (last (some b) ys) d u zs none (some a) da c2 in
      let a3 = same3 a oa ∙ a2 in
      let b3 = Chain-Apart h2 h3 none before after (some d) far same3 b2 in
      let back = is.back ∙ last-append none before ((a, v) ∷ after) in
      let last4 = node v (last (some d) zs) none in
      let h4 = update h3 a (some (node v (last (some d) zs) (some d))) in
      let h5 = update h4 a (some last4) in
      let b5 = Chain-twice h3 a _ _ none before (some d) out b3 in
      let d5 = Chain-twice h3 a _ _ (last (some b) ys) after (some a) oa c3 in
      (
        record { heap = h5; front = l.front; back = some a },
        relink_runs l a v d (last (some b) ys) (last (some d) zs) h1 h2 h3 ea s1 a1 s2 back s3 a3,
        record {
          chain =
              Chain-append h5 none (before ++ after) ((a, v) ∷ []) none
                (Chain-append h5 none before after (some a) b5 d5)
                (
                  ap (λ t. if t then some last4 else h4 a) (eq→== a a refl)
                      ∙ ap some (ap (λ t. node v t none) (sym (last-append none before after))),
                  tt,
                );
          front = is.front;
          back = sym (last-append none (before ++ after) ((a, v) ∷ []));
          distinct =
              Distinct-append (before ++ after) ((a, v) ∷ [])
                (Distinct-append before after db da far) (refl, tt)
                (λ c m.
                  apart_from c a v (before ++ after) m (rw (has-append a before after, out) oa));
        },
      )
