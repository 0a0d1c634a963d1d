-- ===== src/Parser/Explorer/Range.antt =====
-- A run of the parser over a range of blocks that the explorer can answer for.
use mathlib.Core.List.{append-nil, append_assoc}
use monero_sci_parser.Base.{
  ℕ, zero, suc, ◌+◌, ◌≤◌, ◌<◌, ◌≡◌, refl, ap, subst, ◌∙◌, sym, Option, some, List, [], ◌∷◌, ◌++◌,
  arith, length, length-map, map, All,
}
use monero_sci_parser.Text.{Str, to_string}
use monero_sci_parser.IdHashMapper.{RocksDb}
use monero_sci_parser.Chain.{CoreBlock}
use monero_sci_parser.Parser.Records.{Block, Transaction, TxRef}
use monero_sci_parser.Parser.Store.{Store, push}
use monero_sci_parser.Parser.Process.{xmr_processor}
use monero_sci_parser.Parser.MainFunction.{main_loop}
use monero_sci_parser.Pages.{Node, TxJson}
use monero_sci_parser.Pages.Heights.{IsBlockAt, IsStoredTx, json_block-of_height}
use monero_sci_parser.Parser.Explorer.{tx_ref, block_of, read_block, block_details}
use monero_sci_parser.Parser.Explorer.Kept.{process_txs-IsKept}

-- The hashes of `n` blocks from `height`, with ids from `id`.
pub hashes_from : Node → ℕ → ℕ → ℕ → List (Str × Str)
hashes_from node height id zero = []
hashes_from node height id (suc n) =
    (node.core.get_block_id_by_height height, to_string id)
    ∷ hashes_from node (height + 1) (id + 1) n

module _ (node : Node) (timestamp_utc : ℕ → Str) (details : Str → Option Transaction) where
  -- The details of a transaction are answered.
  abbrev IsAnswered : Str → Type 0
  IsAnswered tx_hash = (tx : Transaction) × (details tx_hash ≡ some tx)

  -- The explorer can answer for the block at `height`: it has the block with its transactions,
  -- the number has at most eight digits and is read, and the details of each transaction of the
  -- block are answered.
  pub record IsAnswerable (height : ℕ) : Type 0 where
    pub above : 0 < height
    pub blk : CoreBlock
    pub has_block : IsBlockAt node height blk
    pub short : length (to_string height) ≤ 8
    pub is_number : node.lexical_cast (to_string height) ≡ some height
    pub stored : All (IsStoredTx node) blk.tx_hashes
    pub answered : All IsAnswered (node.core.get_transaction_hash blk.miner_tx ∷ blk.tx_hashes)

  refs-IsAnswered :
      (js : List TxJson)
      → All IsAnswered (map (λ (j : TxJson). j.tx_hash) js)
      → All (λ (r : TxRef). (tx : Transaction) × (details r.tx_hash ≡ some tx)) (map tx_ref js)
  unfolding tx_ref
  refs-IsAnswered [] h = tt
  refs-IsAnswered (j ∷ js) h = (h.0, refs-IsAnswered js h.1)

  -- What the parser reads of the block: its hash, and as many transactions as it counts, all of
  -- them with details.
  block_details-block :
      (height : ℕ)
      → IsAnswerable height
      → (b : Block) × (block_details node timestamp_utc (to_string height) ≡ some b)
        × (b.hash ≡ node.core.get_block_id_by_height height)
        × (b.tx_count ≡ length b.txs)
        × All (λ (r : TxRef). (tx : Transaction) × (details r.tx_hash ≡ some tx)) b.txs
  unfolding block_details read_block block_of
  block_details-block height h =
      let (j, made, at, hash, count, hashes) =
        json_block-of_height node height h.blk (to_string height) h.above h.has_block h.short
          h.is_number h.stored in
      let refs : length (map tx_ref j.txs) ≡ suc (length h.blk.tx_hashes) =
        length-map tx_ref j.txs
        ∙ sym (length-map (λ (t : TxJson). t.tx_hash) j.txs)
        ∙ ap length hashes in
      (
        block_of timestamp_utc j,
        rw (block_details, made) refl,
        hash,
        count ∙ sym refs,
        refs-IsAnswered j.txs (subst (All IsAnswered) (sym hashes) h.answered),
      )

  module _ (db : RocksDb) (contents : db.Contents) (end_second : List (Str × ℕ) → Str → ℕ) where
    abbrev loop : ℕ → ℕ → Store → Option Store
    loop = main_loop db contents end_second (block_details node timestamp_utc) details

    -- A block is parsed, and its hash is queued under the counter of blocks.
    xmr_processor-queued :
        (b : Block) (s : Store)
        → b.tx_count ≡ length b.txs
        → All (λ (r : TxRef). (tx : Transaction) × (details r.tx_hash ≡ some tx)) b.txs
        → (t : Store) × (xmr_processor db contents end_second details b s ≡ some t)
          × (t.ids.last_block_id ≡ s.ids.last_block_id + 1)
          × (t.block_hash_ids ≡ push s.block_hash_ids (b.hash, to_string s.ids.last_block_id))
    unfolding xmr_processor
    xmr_processor-queued b s count answered =
        let id = s.ids.last_block_id in
        let s1 : Store = record s {
          block_hash_ids = push s.block_hash_ids (b.hash, to_string id);
          output_of_block = push s.output_of_block (b, id);
          output_index_of_block = push s.output_index_of_block (id ∷ []);
        } in
        let (t, done, kept) =
          process_txs-IsKept db contents end_second details b.tx_count b.txs s1 count answered in
        (
          record t { ids = record (t.ids) { last_block_id = t.ids.last_block_id + 1 } },
          rw (xmr_processor, done) refl,
          ap (λ n. n + 1) kept.last,
          kept.hashes,
        )

    -- If the explorer can answer for `n` blocks from `height` on, the parser's loop over them ends,
    -- and it has queued the hash of each of them in order, with the next ids of blocks.
    pub main_loop-hashes :
        (n height : ℕ) (s : Store)
        → ((i : ℕ) → i < n → IsAnswerable (height + i))
        → (t : Store) × (main_loop db contents end_second
              (block_details node timestamp_utc)
              details
              n
              height
              s
            ≡ some t)
          × (t.block_hash_ids ≡ s.block_hash_ids ++ hashes_from node height s.ids.last_block_id n)
    unfolding main_loop hashes_from
    main_loop-hashes zero height s can = (s, refl, sym (append-nil s.block_hash_ids))
    main_loop-hashes (suc n) height s can =
        let here : IsAnswerable height = subst IsAnswerable (omega arith) (can 0 (omega arith)) in
        let (b, read, hash, count, answered) = block_details-block height here in
        let (s1, parsed, next, queued) = xmr_processor-queued b s count answered in
        let later : (i : ℕ) → i < n → IsAnswerable (height + 1 + i) =
          λ i below. subst IsAnswerable (omega arith) (can (suc i) (omega arith)) in
        let (t, rest, hashes) = main_loop-hashes n (height + 1) s1 later in
        (
          t,
          rw (main_loop, read, parsed) rest,
          hashes
              ∙ (λ i. queued i ++ hashes_from node (height + 1) (next i) n)
              ∙ append_assoc s.block_hash_ids ((b.hash, to_string s.ids.last_block_id) ∷ []) _
              ∙ ap
                  (λ k.
                    s.block_hash_ids
                    ++ ((k, to_string s.ids.last_block_id)
                        ∷ hashes_from node (height + 1) (s.ids.last_block_id + 1) n))
                  hash,
        )
