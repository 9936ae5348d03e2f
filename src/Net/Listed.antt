-- ===== src/Net/Listed.antt =====
-- The clients of a list in memory: the value of a node is the address of a client.
use fnsproxy.Base.{ℕ, ◌≡◌, true, false, List, [], ◌∷◌, ◌++◌, none, arith}
use fnsproxy.Memory.{Ptr}
use fnsproxy.Dlist.{Dlist}
use fnsproxy.Dlist.Chain.{Cells}
use fnsproxy.Dlist.Walk.{address_of}
use fnsproxy.Net.{Client}
use fnsproxy.Net.Clients.{has_client, IsDistinct}

unfoldable pub clients : (expiry : ℕ → ℕ) → Cells → List Client
clients expiry [] = []
clients expiry ((p, v) ∷ xs) = record { address = v; expire_at = expiry v } ∷ clients expiry xs

module _ (expiry : ℕ → ℕ) where
  -- Where the clients are different, a search for one of them finds its node.
  pub address_of_middle :
      (dl : Dlist) (xs : Cells) (p : Ptr) (v : ℕ) (ys : Cells)
      → dl.matches ≡ none
      → IsDistinct (clients expiry (xs ++ (p, v) ∷ ys))
      → address_of dl v (xs ++ (p, v) ∷ ys) ≡ p
  unfolding address_of clients
  address_of_middle dl [] p v ys plain d = ground (arith, plain)
  address_of_middle dl ((q, w) ∷ xs) p v ys plain d =
      ground (arith, plain, address_of_middle dl xs p v ys plain d.1, has_client-middle xs)
    where
      has_client-middle : (zs : Cells) → has_client v (clients expiry (zs ++ (p, v) ∷ ys)) ≡ true
      has_client-middle [] = ground arith
      has_client-middle ((r, u) ∷ zs) = ground (arith, has_client-middle zs)

  pub IsDistinct-drop :
      (xs : Cells) (p : Ptr) (v : ℕ) (ys : Cells)
      → IsDistinct (clients expiry (xs ++ (p, v) ∷ ys))
      → IsDistinct (clients expiry (xs ++ ys))
  unfolding clients
  IsDistinct-drop [] p v ys d = d.1
  IsDistinct-drop ((q, w) ∷ xs) p v ys d =
      (ground (arith, d.0, has_client-drop xs), IsDistinct-drop xs p v ys d.1)
    where
      has_client-drop :
          (zs : Cells)
          → has_client w (clients expiry (zs ++ (p, v) ∷ ys)) ≡ false
          → has_client w (clients expiry (zs ++ ys)) ≡ false
      has_client-drop [] h = ground arith
      has_client-drop ((r, u) ∷ zs) h = ground (arith, has_client-drop zs)
