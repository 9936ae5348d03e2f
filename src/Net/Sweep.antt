-- ===== src/Net/Sweep.antt =====
-- `check_timeout` over the list of dlist.c in memory, and that it does what Net says of a list of clients.
-- The value of a node is the address of a client; `expiry` gives the field `expire_at` there.
use mathlib.Core.List.{append_assoc}
use fnsproxy.Base.{
  ℕ, zero, suc, ◌+◌, ◌≡◌, ◌<◌, ◌∙◌, refl, sym, ap, subst, Bool, true, false, ◌&&◌, [], ◌∷◌, ◌++◌,
  none, ◌==◌, ltb, if◌then◌else◌, arith, length, Bool-cases, inl, inr,
}
use fnsproxy.Memory.{
  Ptr, null, node, Heap, Command, done, invalid, endless, Outcome, bind_outcome, ◌>>=◌, pure, read,
  read_lem,
}
use fnsproxy.Dlist.{Dlist, Iter, iterator, next, search_key, delete_node}
use fnsproxy.Dlist.Chain.{Cells, first_of, last_of, Chain, IsList, Chain-split}
use fnsproxy.Dlist.Walk.{next-first_of, search_key-address_of}
use fnsproxy.Dlist.Delete.{delete_node-IsList}
use fnsproxy.Net.{Server, check_timeout}
use fnsproxy.Net.Listed.{clients, address_of_middle, IsDistinct-drop}
use fnsproxy.Net.Clients.{expired, IsDistinct, check_timeout-expired}

-- What delete_client does to the list: the node with the client, if there is one, is taken out. `memory` says
-- whether the iterator of the search is allocated.
pub delete_client_node : (memory : Bool) → Dlist → (address : ℕ) → Command Dlist
delete_client_node memory dl address = do
  p ← search_key memory dl address
  elim (p == null) [ true ↦ pure dl | false ↦ do (dl', values) ← delete_node dl p; pure dl' ]

-- `memory` says for which clients the iterator of the search is allocated, where one is dropped.
module _ (memory : ℕ → Bool) (clock : ℕ) (expiry : ℕ → ℕ) where
  -- The loop of `check_timeout`.
  pub check_nodes : (fuel : ℕ) → Dlist → Iter → Command Dlist
  unfolding delete_client_node
  check_nodes zero dl it = λ _. endless
  check_nodes (suc fuel) dl it = do
    (p, it') ← next it
    elim (p == null) [
      | true ↦ pure dl
      | false ↦ do
        n ← read p
        dl' ←
            if ltb clock (expiry n.value)
            then delete_client_node (memory n.value) dl n.value
            else pure dl
        check_nodes fuel dl' it'
    ]

  -- `check_timeout`, whose own iterator is no memory of the heap; each round takes a node, so `len` and one are
  -- enough.
  pub check_list : Dlist → Command Dlist
  unfolding check_nodes iterator
  check_list dl = check_nodes (dl.len + 1) dl (iterator dl true)

-- The nodes whose clients have expired.
unfoldable pub kept : (clock : ℕ) (expiry : ℕ → ℕ) → Cells → Cells
kept clock expiry [] = []
kept clock expiry ((p, v) ∷ xs) =
    let rest = kept clock expiry xs in if ltb clock (expiry v) then rest else (p, v) ∷ rest

-- Whether the iterator is allocated for each client that is dropped.
unfoldable pub served : (memory : ℕ → Bool) → (clock : ℕ) (expiry : ℕ → ℕ) → Cells → Bool
served memory clock expiry [] = true
served memory clock expiry ((p, v) ∷ xs) =
    let rest = served memory clock expiry xs in
    if ltb clock (expiry v) then memory v && rest else rest

-- How a check ends: with a list of these nodes, or by a read through `NULL`.
abbrev pub Sweeps : (all : Bool) → Cells → Outcome Dlist → Type 0
Sweeps true left run = (dl' : Dlist) × (h' : Heap) × (run ≡ done dl' h') × IsList h' dl' left
Sweeps false left run = run ≡ invalid

clients-kept :
    (clock : ℕ) (expiry : ℕ → ℕ) (xs : Cells)
    → clients expiry (kept clock expiry xs) ≡ expired clock (clients expiry xs)
unfolding clients kept expired
clients-kept clock expiry [] = refl
clients-kept clock expiry ((p, v) ∷ xs) = ground (arith, clients-kept clock expiry xs)

module _ (h : Heap) (dl : Dlist) (expiry : ℕ → ℕ) (xs : Cells) (p : Ptr) (v : ℕ) (ys : Cells)
    (is : IsList h dl (xs ++ (p, v) ∷ ys)) (plain : dl.matches ≡ none)
    (distinct : IsDistinct (clients expiry (xs ++ (p, v) ∷ ys))) where
  here : Chain h (last_of null xs) ((p, v) ∷ ys) null
  here = (Chain-split h null xs ((p, v) ∷ ys) null is.chain).1

  set : (p == null) ≡ false
  set = ground (arith, here.0)

  search_runs : search_key true dl v h ≡ done p h
  search_runs =
      (search_key-address_of h dl (xs ++ (p, v) ∷ ys) v is).0
      ∙ ap (λ (q : Ptr). done q h) (address_of_middle expiry dl xs p v ys plain distinct)

  -- Without memory for the iterator, `NULL` is read.
  delete_client_node-invalid : delete_client_node false dl v h ≡ invalid
  unfolding delete_client_node
  delete_client_node-invalid =
      rw ((search_key-address_of h dl (xs ++ (p, v) ∷ ys) v is).1, delete_client_node, bind_outcome)

  -- Deleting a client of the list takes its node out.
  delete_client_node-IsList :
      (dl' : Dlist) × (h' : Heap) × (delete_client_node true dl v h ≡ done dl' h')
      × IsList h' dl' (xs ++ ys)
      × (dl'.matches ≡ none)
  unfolding delete_client_node
  delete_client_node-IsList =
      let (dl', h', run, is', methods, gone, same) = delete_node-IsList h dl xs p v ys is in
      (
        dl',
        h',
        rw (search_runs, set, run, delete_client_node, bind_outcome),
        is',
        methods.matches ∙ plain,
      )

  module _ (memory : ℕ → Bool) (clock fuel : ℕ) where
    it : Iter
    it = record { next = p; from_head = true }

    it' : Iter
    it' = record { next = first_of ys null; from_head = true }

    stepped : next it h ≡ done (p, it') h
    unfolding it it'
    stepped = next-first_of h (last_of null xs) p v ys here

    live_step :
        (dl1 : Dlist) (h1 : Heap)
        → ltb clock (expiry v) ≡ true
        → memory v ≡ true
        → delete_client_node true dl v h ≡ done dl1 h1
        → check_nodes memory clock expiry (suc fuel) dl it h
          ≡ check_nodes memory clock expiry fuel dl1 it' h1
    unfolding check_nodes
    live_step dl1 h1 live granted run = rw (
      stepped,
      set,
      read_lem h p (node (last_of null xs) (first_of ys null) v) here.0 here.1,
      live,
      granted,
      run,
      check_nodes,
      bind_outcome,
    )

    invalid_step :
        ltb clock (expiry v) ≡ true
        → memory v ≡ false
        → check_nodes memory clock expiry (suc fuel) dl it h ≡ invalid
    unfolding check_nodes
    invalid_step live refused = rw (
      stepped,
      set,
      read_lem h p (node (last_of null xs) (first_of ys null) v) here.0 here.1,
      live,
      refused,
      delete_client_node-invalid,
      check_nodes,
      bind_outcome,
    )

    over_step :
        ltb clock (expiry v) ≡ false
        → check_nodes memory clock expiry (suc fuel) dl it h
          ≡ check_nodes memory clock expiry fuel dl it' h
    unfolding check_nodes
    over_step over = rw (
      stepped,
      set,
      read_lem h p (node (last_of null xs) (first_of ys null) v) here.0 here.1,
      over,
      check_nodes,
      bind_outcome,
    )

check_nodes-Sweeps :
    (memory : ℕ → Bool) (h : Heap) (dl : Dlist) (clock : ℕ) (expiry : ℕ → ℕ) (xs ys : Cells)
    (fuel : ℕ)
    → IsList h dl (xs ++ ys)
    → dl.matches ≡ none
    → IsDistinct (clients expiry (xs ++ ys))
    → length ys < fuel
    → Sweeps (served memory clock expiry ys) (xs ++ kept clock expiry ys) (
        check_nodes memory clock expiry fuel dl
          (record { next = first_of ys null; from_head = true })
          h)
unfolding kept served it it'
check_nodes-Sweeps memory h dl clock expiry xs ys zero is plain d lt = absurd (omega arith)
check_nodes-Sweeps memory h dl clock expiry xs [] (suc fuel) is plain d lt =
    (dl, h, unfold check_nodes next in refl, is)
check_nodes-Sweeps memory h dl clock expiry xs ((p, v) ∷ ys) (suc fuel) is plain d lt =
    elim (Bool-cases (ltb clock (expiry v))) [
      | inl live ↦ elim (Bool-cases (memory v)) [
        | inr refused ↦
            rw (live, refused)
              (invalid_step h dl expiry xs p v ys is plain d memory clock fuel live refused)
        | inl granted ↦
            let (dl1, h1, run, is1, plain1) =
              delete_client_node-IsList h dl expiry xs p v ys is plain d in
            let rest =
              check_nodes-Sweeps memory h1 dl1 clock expiry xs ys fuel is1 plain1
                (IsDistinct-drop expiry xs p v ys d) (omega arith) in
            let step =
              live_step h dl expiry xs p v ys is plain d memory clock fuel dl1 h1 live granted
                run in
            rw (live, granted, step) rest
      ]
      | inr over ↦
          let shape : (xs ++ (p, v) ∷ []) ++ ys ≡ xs ++ (p, v) ∷ ys =
            append_assoc xs ((p, v) ∷ []) ys in
          let rest =
            check_nodes-Sweeps memory h dl clock expiry (xs ++ (p, v) ∷ []) ys fuel (rw shape is)
              plain (rw shape d) (omega arith) in
          let step = over_step h dl expiry xs p v ys is plain d memory clock fuel over in
          rw (over, step, ← append_assoc xs ((p, v) ∷ []) (kept clock expiry ys)) rest
    ]

-- The check over the list in memory, where it has no method to match and the clients are different. Where the
-- iterator is allocated for the search of each client that is dropped, the check ends, and leaves a list whose
-- clients are those that `check_timeout` leaves of the list of clients; where it is not for one of them,
-- the check reads through `NULL`.
pub check_list-check_timeout :
    (memory : ℕ → Bool) (h : Heap) (dl : Dlist) (expiry : ℕ → ℕ) (xs : Cells) (s : Server)
    → IsList h dl xs
    → dl.matches ≡ none
    → s.clis ≡ clients expiry xs
    → IsDistinct s.clis
    → (left : Cells) × (clients expiry left ≡ (check_timeout s).clis)
      × Sweeps (served memory s.clock expiry xs) left (check_list memory s.clock expiry dl h)
unfolding check_list
check_list-check_timeout memory h dl expiry xs s is plain same d =
    let ends =
      check_nodes-Sweeps memory h dl s.clock expiry [] xs (dl.len + 1) is plain (rw same at d)
        (omega (arith, is.len)) in
    (
      kept s.clock expiry xs,
      clients-kept s.clock expiry xs
          ∙ (ap (expired s.clock) (sym same) ∙ sym (check_timeout-expired s d)),
      subst
          (λ (p : Ptr). Sweeps (served memory s.clock expiry xs) (kept s.clock expiry xs) (
            check_nodes memory s.clock expiry (dl.len + 1) dl
              (record { next = p; from_head = true }) h))
          (sym is.head) ends,
    )
