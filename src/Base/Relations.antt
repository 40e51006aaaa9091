-- ===== src/Base/Relations.antt =====
-- The reflexive, transitive closure of a relation of steps.
module _ {A : Type 0} where
  pub data Star (Step : A → A → Type 0) : A → A → Type 0 where
    done : {s : A} → Star Step s s
    more : {s u v : A} → Step s u → Star Step u v → Star Step s v
