-- ===== src/Pages/Heights.antt =====
-- `json_block` for the height of a block and for its hash.
use monero_sci_parser.Base.{
  ℕ, suc, ◌≤◌, ◌<◌, ◌≡◌, refl, ap, ◌∙◌, sym, Bool, true, false, some, List, [], ◌∷◌, map, arith,
  ltb, ◌==◌, length, length-map, All, le→leb,
}
use monero_sci_parser.Text.{Str}
use monero_sci_parser.Tools.{Tx}
use monero_sci_parser.Chain.{CoreBlock, get_block_by_height, get_tx}
use monero_sci_parser.Pages.{Node, bare, known_details, get_tx_details, TxJson, get_tx_json}
use monero_sci_parser.Pages.Block.{
  block_found, lookup_number, lookup_hash, lookup_block, BlockJson, made_all, push_tx, block_txs,
  block_json, block_answer, json_block,
}

module _ (node : Node) where
  -- The chain has the block `blk` at `height`, under the hash of that height.
  pub record IsBlockAt (height : ℕ) (blk : CoreBlock) : Type 0 where
    pub below_top : height ≤ node.current_height
    pub by_height : node.core.get_block_from_height height ≡ some blk
    pub by_hash : node.core.get_block_by_hash (node.core.get_block_id_by_height height) ≡ some blk
    pub height_of : node.core.get_block_height (node.core.get_block_id_by_height height) ≡ height

  lookup-number :
      (height : ℕ) (blk : CoreBlock) (text : Str)
      → IsBlockAt height blk
      → length text ≤ 8
      → node.lexical_cast text ≡ some height
      → lookup_block node text ≡ block_found height (node.core.get_block_id_by_height height) blk
  unfolding lookup_block get_block_by_height
  lookup-number height blk text at short number =
      let inside : ltb node.current_height height ≡ false = ground (arith, at.below_top) in
      rw (le→leb (length text) 8 short, lookup_number, number, inside, at.by_height) refl

  lookup-hash :
      (height : ℕ) (blk : CoreBlock) (text : Str)
      → IsBlockAt height blk
      → length text ≡ 64
      → node.parse_str_secret_key text ≡ some (node.core.get_block_id_by_height height)
      → lookup_block node text ≡ block_found height (node.core.get_block_id_by_height height) blk
  unfolding lookup_block
  lookup-hash height blk text at long hash =
      rw (long, lookup_hash, hash, at.by_hash, at.height_of) refl

  -- A block has one answer: `json_block` gives for the number of a block that the chain has, in at
  -- most eight digits, what it gives for the 64 digits of its hash.
  pub json_block-number_hash :
      (height : ℕ) (blk : CoreBlock) (number hash : Str)
      → IsBlockAt height blk
      → length number ≤ 8
      → node.lexical_cast number ≡ some height
      → length hash ≡ 64
      → node.parse_str_secret_key hash ≡ some (node.core.get_block_id_by_height height)
      → json_block node number ≡ json_block node hash
  unfolding json_block
  json_block-number_hash height blk number hash at short is_number long is_hash =
      rw
        (
          json_block,
          lookup-number height blk number at short is_number,
          lookup-hash height blk hash at long is_hash,
        )
        refl

  -- A transaction of the block that the chain has, under its hash.
  abbrev pub IsStoredTx : Str → Type 0
  IsStoredTx tx_hash =
      (node.core.have_tx tx_hash ≡ true)
      × (node.core.get_transaction_hash (node.core.get_db_tx tx_hash) ≡ tx_hash)

  -- Above the first block no details are searched in the chain.
  pub details_above :
      (tx : Tx) (coinbase : Bool) (height bc_height : ℕ)
      → 0 < height
      → get_tx_details node tx coinbase height bc_height
        ≡ some (known_details node tx coinbase height bc_height)
  unfolding get_tx_details
  details_above tx coinbase height bc_height above =
      let not_first : (height == 0) ≡ false = ground arith in rw (get_tx_details, not_first) refl

  push_tx-made :
      (height : ℕ) (coinbase : Bool) (tx : Tx) (js : List TxJson)
      → 0 < height
      → (j : TxJson) × (push_tx node height coinbase tx (made_all js) ≡ made_all (j ∷ js))
        × (j.tx_hash ≡ node.core.get_transaction_hash tx)
  unfolding push_tx get_tx_json known_details
  push_tx-made height coinbase tx js above = (
    get_tx_json node tx (known_details node tx coinbase height node.current_height),
    rw (push_tx, details_above tx coinbase height node.current_height above) refl,
    refl,
  )

  block_txs-made :
      (height : ℕ) (hashes : List Str)
      → 0 < height
      → All IsStoredTx hashes
      → (js : List TxJson) × (block_txs node height hashes ≡ made_all js)
        × (map (λ (j : TxJson). j.tx_hash) js ≡ hashes)
  unfolding block_txs get_tx
  block_txs-made height [] above h = ([], refl, refl)
  block_txs-made height (x ∷ xs) above h =
      let (js, rest, hashes) = block_txs-made height xs above h.1 in
      let (j, made, hash) = push_tx-made height false (node.core.get_db_tx x) js above in
      (j ∷ js, rw (block_txs, h.0.0, rest, made) refl, λ i. (hash ∙ h.0.1) i ∷ hashes i)

  -- With the block at a height above 0 and all its transactions in the chain, `json_block` gives
  -- for its number, in at most eight digits, the block of that height: under its hash, with the
  -- coinbase transaction and then the transactions of the block, in order.
  pub json_block-of_height :
      (height : ℕ) (blk : CoreBlock) (number : Str)
      → 0 < height
      → IsBlockAt height blk
      → length number ≤ 8
      → node.lexical_cast number ≡ some height
      → All IsStoredTx blk.tx_hashes
      → (b : BlockJson) × (json_block node number ≡ some (bare b))
        × (b.block_height ≡ height)
        × (b.hash ≡ node.core.get_block_id_by_height height)
        × (b.tx_count ≡ suc (length blk.tx_hashes))
        × (map (λ (j : TxJson). j.tx_hash) b.txs
            ≡ node.core.get_transaction_hash blk.miner_tx ∷ blk.tx_hashes)
  unfolding json_block block_json
  json_block-of_height height blk number above at short is_number stored =
      let (js, made, hashes) = block_txs-made height blk.tx_hashes above stored in
      let (j, pushed, hash) = push_tx-made height true blk.miner_tx js above in
      let count : length js ≡ length blk.tx_hashes =
        sym (length-map (λ (t : TxJson). t.tx_hash) js) ∙ ap length hashes in
      let all_made : push_tx node height true blk.miner_tx (block_txs node height blk.tx_hashes)
          ≡ made_all (j ∷ js) =
        ap (push_tx node height true blk.miner_tx) made ∙ pushed in
      (
        block_json node height (node.core.get_block_id_by_height height) blk (j ∷ js),
        rw (json_block, lookup-number height blk number at short is_number, block_answer, all_made)
            refl,
        refl,
        refl,
        ap suc count,
        λ i. hash i ∷ hashes i,
      )
