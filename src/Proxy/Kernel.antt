-- ===== src/Proxy/Kernel.antt =====
-- What the proxy uses of the kernel, through google/nftables: the @pool map from marks to IPv4
-- addresses, by which the execute chain rewrites destinations. A parameter of the model.
use csfleet.Prelude.{ℕ, Bool, true, Option, some, ◌≡◌, ◌≢◌}

pub record Kernel : Type 1 where
  pub Nft : Type 0
  -- nftables.New succeeds.
  pub opens : Nft → Bool
  -- The element stored under a mark.
  pub element : Nft → ℕ → Option ℕ
  -- SetAddElements or SetDeleteElements with Flush, and whether it succeeded.
  pub add_element : Nft → ℕ → ℕ → Nft × Bool
  pub del_element : Nft → ℕ → Nft × Bool
  pub add_ok :
      (n : Nft) (m a : ℕ) → (add_element n m a).1 ≡ true → element (add_element n m a).0 m ≡ some a
  pub add_other : (n : Nft) (m a j : ℕ) → m ≢ j → element (add_element n m a).0 j ≡ element n j
  pub del_other : (n : Nft) (m j : ℕ) → m ≢ j → element (del_element n m).0 j ≡ element n j
