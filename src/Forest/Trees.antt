-- ===== src/Forest/Trees.antt =====
-- Trees with a name and a payload at each node: what the nested JSON documents hold.
use product_private_paas.Common.{Text}

mutual
  pub data Rose {ℓ} (A : Type ℓ) : Type ℓ where
    node : Text → A → Roses A → Rose A

  pub data Roses {ℓ} (A : Type ℓ) : Type ℓ where
    nil : Roses A
    cons : Rose A → Roses A → Roses A
