-- ===== src/RpcCalls/Newest.antt =====
-- The pool that the node answers with is kept with the latest transactions first.
use mathlib.Core.List.Perm
use mathlib.Core.List.{Perm}
use mathlib.Core.Option.{some-injective}
use monero_sci_parser.Base.{
  ℕ, ◌≤◌, ◌≡◌, refl, ap, subst, ◌∙◌, sym, Bool, true, false, Option, none, some, List, [], ◌∷◌, map,
  arith, ltb, All, Option-cases, Bool-cases, inl, inr,
}
use monero_sci_parser.Text.{str_eq, str_eq_iff}
use monero_sci_parser.Mempool.{
  TxInfo, MempoolTx, TxReader, MempoolStatus, mempool_entry, read_mempool,
}
use monero_sci_parser.Mempool.Reads.{Parsed, parse_all, after_read, read_mempool-all_or_nothing}
use monero_sci_parser.RpcCalls.{
  Client, Response, Statuses, connect_to_monero_deamon, invoke, insert_tx, sort_txs, get_mempool,
}

-- Numbers, none above one before it.
abbrev pub IsDescending : List ℕ → Type 0
IsDescending [] = Unit
IsDescending (n ∷ ns) = All (λ k. k ≤ n) ns × IsDescending ns

abbrev pub times : List TxInfo → List ℕ
times ts = map (λ (t : TxInfo). t.receive_time) ts

All-≤ : (m n : ℕ) (ns : List ℕ) → m ≤ n → All (λ k. k ≤ m) ns → All (λ k. k ≤ n) ns
All-≤ m n [] le h = tt
All-≤ m n (k ∷ ns) le h = (omega (arith, h.0), All-≤ m n ns le h.1)

insert_tx-perm : (t : TxInfo) (ts : List TxInfo) → Perm (insert_tx t ts) (t ∷ ts)
unfolding insert_tx
insert_tx-perm t [] = Perm.rfl
insert_tx-perm t (x ∷ xs) = elim (Bool-cases (ltb t.receive_time x.receive_time)) [
  | inl later ↦
      rw (insert_tx, later) (Perm.trans (Perm.cons x (insert_tx-perm t xs)) (Perm.swap t x xs))
  | inr placed ↦ rw (insert_tx, placed) Perm.rfl
]

sort_txs-perm : (ts : List TxInfo) → Perm (sort_txs ts) ts
unfolding sort_txs
sort_txs-perm [] = Perm.rfl
sort_txs-perm (t ∷ ts) =
    Perm.trans (insert_tx-perm t (sort_txs ts)) (Perm.cons t (sort_txs-perm ts))

insert_tx-All :
    (n : ℕ) (t : TxInfo) (ts : List TxInfo)
    → t.receive_time ≤ n
    → All (λ k. k ≤ n) (times ts)
    → All (λ k. k ≤ n) (times (insert_tx t ts))
unfolding insert_tx
insert_tx-All n t [] le h = (le, tt)
insert_tx-All n t (x ∷ xs) le h = elim (Bool-cases (ltb t.receive_time x.receive_time)) [
  | inl later ↦ rw (insert_tx, later) (h.0, insert_tx-All n t xs le h.1)
  | inr placed ↦ rw (insert_tx, placed) (le, h)
]

insert_tx-IsDescending :
    (t : TxInfo) (ts : List TxInfo)
    → IsDescending (times ts)
    → IsDescending (times (insert_tx t ts))
unfolding insert_tx
insert_tx-IsDescending t [] h = (tt, tt)
insert_tx-IsDescending t (x ∷ xs) h = elim (Bool-cases (ltb t.receive_time x.receive_time)) [
  | inl later ↦
      rw (insert_tx, later)
        (insert_tx-All x.receive_time t xs (ground arith) h.0, insert_tx-IsDescending t xs h.1)
  | inr placed ↦
      let le : x.receive_time ≤ t.receive_time = ground arith in
      rw (insert_tx, placed) ((le, All-≤ x.receive_time t.receive_time (times xs) le h.0), h)
]

sort_txs-IsDescending : (ts : List TxInfo) → IsDescending (times (sort_txs ts))
unfolding sort_txs
sort_txs-IsDescending [] = tt
sort_txs-IsDescending (t ∷ ts) = insert_tx-IsDescending t (sort_txs ts) (sort_txs-IsDescending ts)

abbrev pub pool_times : List MempoolTx → List ℕ
pool_times ts = map (λ (t : MempoolTx). t.receive_time) ts

module _ (reader : TxReader) where
  parse_all-times :
      (infos : List TxInfo) (ps : List Parsed)
      → parse_all reader infos ≡ some ps
      → pool_times (map (λ (p : Parsed). mempool_entry reader p.0 p.1) ps) ≡ times infos
  unfolding parse_all mempool_entry
  parse_all-times [] ps made =
      subst (λ l. pool_times (map (λ (p : Parsed). mempool_entry reader p.0 p.1) l) ≡ [])
        (some-injective _ _ made) refl
  parse_all-times (info ∷ infos) ps made = elim (Option-cases (reader.parse_tx info.tx_blob)) [
    | inl gone ↦ absurd (let bad = rw (parse_all, gone) at made in cc)
    | inr (p, there) ↦ elim (Option-cases (parse_all reader infos)) [
      | inl failed ↦ absurd (let bad = rw (parse_all, there, failed) at made in cc)
      | inr (rest, others) ↦
          subst
            (λ l.
              pool_times (map (λ (p : Parsed). mempool_entry reader p.0 p.1) l)
              ≡ times (info ∷ infos))
            (some-injective _ _ (rw (parse_all, there, others) at made))
            (ap (λ l. info.receive_time ∷ l) (parse_all-times infos rest others))
    ]
  ]

  -- What is read of an answer with its transactions: all of them by their times, the latest first,
  -- each with what its blob holds.
  abbrev IsRead : List TxInfo → MempoolStatus → MempoolStatus × Bool → Type 0
  IsRead infos m r =
      r.1 ≡ true
      → (sorted : List TxInfo) × (ps : List Parsed) × Perm sorted infos
        × IsDescending (times sorted)
        × (parse_all reader sorted ≡ some ps)
        × (pool_times (after_read reader m (some ps)).0.mempool_txs ≡ times sorted)
        × (r.0 ≡ (after_read reader m (some ps)).0)

  after_read-IsRead :
      (infos : List TxInfo) (m : MempoolStatus)
      → IsRead infos m (after_read reader m (parse_all reader (sort_txs infos)))
  after_read-IsRead infos m = elim (Option-cases (parse_all reader (sort_txs infos))) [
    | inl failed ↦ unfold after_read in rw (failed) (λ bad. absurd (cc))
    | inr (ps, made) ↦ rw (made) (λ done. (
      sort_txs infos,
      ps,
      sort_txs-perm infos,
      sort_txs-IsDescending infos,
      made,
      unfold after_read in parse_all-times (sort_txs infos) ps made,
      refl,
    ))
  ]

  module _ (statuses : Statuses) (client : Client) (m : MempoolStatus) where
    answered :
        (res : Response (List TxInfo))
        → connect_to_monero_deamon client ≡ true
        → str_eq res.status statuses.ok ≡ true
        → get_mempool statuses client (some res) ≡ some (sort_txs res.result)
    unfolding get_mempool invoke
    answered res connected is_ok = rw (get_mempool, invoke, connected, is_ok) refl

    refused :
        (res : Response (List TxInfo))
        → str_eq res.status statuses.ok ≡ false
        → get_mempool statuses client (some res) ≡ none
    unfolding get_mempool invoke
    refused res bad = elim (Bool-cases (connect_to_monero_deamon client)) [
      | inl connected ↦ rw (get_mempool, invoke, connected, bad) refl
      | inr alone ↦ rw (get_mempool, invoke, alone) refl
    ]

    unconnected :
        (response : Option (Response (List TxInfo)))
        → connect_to_monero_deamon client ≡ false
        → get_mempool statuses client response ≡ none
    unfolding get_mempool invoke
    unconnected response alone = rw (get_mempool, invoke, alone) refl

    silent : get_mempool statuses client none ≡ none
    unfolding get_mempool invoke
    silent = elim (Bool-cases (connect_to_monero_deamon client)) [
      | inl connected ↦ rw (get_mempool, invoke, connected) refl
      | inr alone ↦ rw (get_mempool, invoke, alone) refl
    ]

    unread :
        (response : Option (Response (List TxInfo)))
        → get_mempool statuses client response ≡ none
        → (read_mempool reader (get_mempool statuses client response) m).1 ≡ true
        → ⊥
    unfolding read_mempool
    unread response gone done = (let bad = rw (gone) at done in cc)

    -- A read of the pool over the client succeeds only where the client is connected or connects and
    -- the response has the status for success. The copy then has the transactions of the response,
    -- each once, by their times with the latest first: each with its blob read, and their number
    -- and the sum of their sizes.
    pub read_mempool-newest :
        (response : Option (Response (List TxInfo)))
        → (read_mempool reader (get_mempool statuses client response) m).1 ≡ true
        → (res : Response (List TxInfo)) × (response ≡ some res)
          × (connect_to_monero_deamon client ≡ true)
          × (res.status ≡ statuses.ok)
          × (sorted : List TxInfo) × (ps : List Parsed) × Perm sorted res.result
          × IsDescending (times sorted)
          × (parse_all reader sorted ≡ some ps)
          × (pool_times (after_read reader m (some ps)).0.mempool_txs ≡ times sorted)
          × ((read_mempool reader (get_mempool statuses client response) m).0
              ≡ (after_read reader m (some ps)).0)
    read_mempool-newest none done = absurd (unread none silent done)
    read_mempool-newest (some res) done = elim (Bool-cases (connect_to_monero_deamon client)) [
      | inr alone ↦ absurd (unread (some res) (unconnected (some res) alone) done)
      | inl connected ↦ elim (Bool-cases (str_eq res.status statuses.ok)) [
        | inr bad ↦ absurd (unread (some res) (refused res bad) done)
        | inl is_ok ↦
            let e = answered res connected is_ok in
            let read =
              ap (λ o. read_mempool reader o m) e
              ∙ read_mempool-all_or_nothing reader (some (sort_txs res.result)) m in
            let all = subst (IsRead res.result m) (sym read) (after_read-IsRead res.result m) in
            let (sorted, ps, perm, newest, parsed, same, copy) = all done in
            let ok = (str_eq_iff res.status statuses.ok).0 is_ok in
            (res, refl, connected, ok, sorted, ps, perm, newest, parsed, same, copy)
      ]
    ]
