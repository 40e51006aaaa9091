-- ===== src/Memory/Owned.antt =====
-- A heap that is another one with some blocks more.
use mathlib.Core.Path.{fun_ext}
use service_call.Base.{
  ℕ, ◌≡◌, refl, true, false, none, some, List, [], ◌∷◌, ◌++◌, arith, has, Distinct, is_some,
  has-append, Distinct-snoc, Bool-cases, inl, inr,
}
use service_call.Memory.{Heap, Block, write}

-- `h` is `base` with a block at each of the addresses `xs`, which are distinct and free in `base`.
pub record Owned (base : Heap) (xs : List ℕ) (h : Heap) : Type 0 where
  pub distinct : Distinct xs
  pub fresh : (a : ℕ) → has a xs ≡ true → base a ≡ none
  pub live : (a : ℕ) → has a xs ≡ true → is_some (h a) ≡ true
  pub same : (a : ℕ) → has a xs ≡ false → h a ≡ base a

pub Owned-nil : {base h : Heap} → Owned base [] h → h ≡ base
Owned-nil o = fun_ext λ a. o.same a refl

pub Owned-none : (base : Heap) → Owned base [] base
Owned-none base = record { distinct = tt; fresh = λ a e. cc; live = λ a e. cc; same = λ a e. refl }

-- An owned address has a block, so a free one is not owned.
pub Owned-free :
    {base h : Heap} {xs : List ℕ} (a : ℕ) → Owned base xs h → h a ≡ none → has a xs ≡ false
Owned-free {xs} a o e = elim (Bool-cases (has a xs)) [
  | inl t ↦ ground (arith, o.live a t)
  | inr f ↦ f
]

-- Nor is one that is in use in `base`.
pub Owned-used :
    {base h : Heap} {xs : List ℕ} (a : ℕ)
    → Owned base xs h
    → is_some (base a) ≡ true
    → has a xs ≡ false
Owned-used {xs} a o e = elim (Bool-cases (has a xs)) [
  | inl t ↦ ground (arith, o.fresh a t)
  | inr f ↦ f
]

-- One more block, at a free address.
pub Owned-snoc :
    {base h : Heap} {xs : List ℕ} (q : ℕ) (b : Block)
    → Owned base xs h
    → h q ≡ none
    → Owned base (xs ++ q ∷ []) (write h q (some b))
unfolding write
Owned-snoc {base} {h} {xs} q b o e =
    let out = Owned-free q o e in
    record {
      distinct = Distinct-snoc xs q o.distinct out;
      fresh = λ a i. ground (arith, has-append a xs (q ∷ []), o.fresh a, o.same q out);
      live = λ a i. ground (arith, has-append a xs (q ∷ []), o.live a);
      same = λ a i. ground (arith, has-append a xs (q ∷ []), o.same a);
    }

-- A block that is owned may be written again.
pub Owned-rewrite :
    {base h : Heap} {xs : List ℕ} (q : ℕ) (b : Block)
    → Owned base xs h
    → has q xs ≡ true
    → Owned base xs (write h q (some b))
unfolding write
Owned-rewrite q b o i = record {
  distinct = o.distinct;
  fresh = o.fresh;
  live = λ a e. ground (arith, o.live a);
  same = λ a e. ground (arith, o.same a);
}

-- The first block is given back.
pub Owned-tail :
    {base h : Heap} {x : ℕ} {xs : List ℕ} → Owned base (x ∷ xs) h → Owned base xs (write h x none)
unfolding write
Owned-tail {x} o = record {
  distinct = o.distinct.1;
  fresh = λ a i. ground (arith, o.fresh a);
  live = λ a i. ground (arith, o.live a, o.distinct.0);
  same = λ a i. ground (arith, o.same a, o.fresh a, o.distinct.0);
}

-- A block that is in use in `base` is written on both sides.
pub Owned-write :
    {base h : Heap} {xs : List ℕ} (q : ℕ) (b : Block)
    → Owned base xs h
    → has q xs ≡ false
    → Owned (write base q (some b)) xs (write h q (some b))
unfolding write
Owned-write q b o out = record {
  distinct = o.distinct;
  fresh = λ a i. ground (arith, o.fresh a);
  live = λ a i. ground (arith, o.live a);
  same = λ a i. ground (arith, o.same a);
}
