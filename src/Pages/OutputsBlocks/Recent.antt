-- ===== src/Pages/OutputsBlocks/Recent.antt =====
-- The outputs that `json_outputsblocks` gives are those of the pool and of the last blocks.
use monero_sci_parser.Base.{
  ℕ, zero, suc, ◌+◌, ◌-◌, ◌≤◌, ◌<◌, ◌≡◌, subst, sym, Bool, true, false, List, [], ◌∷◌, map, arith,
  sub64, All, Option-cases, Bool-cases, ◌⊎◌, inl, inr,
}
use monero_sci_parser.Text.{Str}
use monero_sci_parser.Chain.{get_block_by_height}
use monero_sci_parser.Mempool.{MempoolTx}
use monero_sci_parser.Pages.{Node}
use monero_sci_parser.Pages.Paging.{sign64, not_below_zero, page_end, page_rounds}
use monero_sci_parser.Pages.Outputs.{Address, Keys}
use monero_sci_parser.Pages.OutputsBlocks.{
  OurOutput, Searched, outputs_found, search_failed, search_raised, find_our_outputs, block_search,
  search_blocks, search_pool, search_all,
}
use monero_sci_parser.Pages.OutputsBlocks.Ours.{
  AllFound, and_search-AllFound, IsOurs, IsIn, find_our_outputs-IsIn,
}

All-weaken :
    (P Q : OurOutput → Type 0) (os : List OurOutput)
    → ((o : OurOutput) → P o → Q o)
    → All P os
    → All Q os
All-weaken P Q [] f h = tt
All-weaken P Q (o ∷ os) f h = (f o h.0, All-weaken P Q os f h.1)

AllFound-weaken :
    (P Q : OurOutput → Type 0) (s : Searched)
    → ((o : OurOutput) → P o → Q o)
    → AllFound P s
    → AllFound Q s
AllFound-weaken P Q (outputs_found os) f h = All-weaken P Q os f h
AllFound-weaken P Q (search_failed t) f h = tt
AllFound-weaken P Q search_raised f h = tt

module _ (node : Node) (keys : Keys) (address : Address) (key : Str) where
  -- The output belongs to the address, and is in the pool, where a block number stands for none, or
  -- in a block from `first` on and below `last`.
  abbrev pub IsRecent : ℕ → ℕ → OurOutput → Type 0
  IsRecent start top o =
      IsOurs node keys address key o.output_pubkey o.output_idx
      × (((o.in_mempool ≡ true) × (o.block_no ≡ 0))
          ⊎ ((o.in_mempool ≡ false) × (start ≤ o.block_no) × (o.block_no < top)))

  search_pool-IsRecent :
      (start top : ℕ) (asked : Bool)
      → AllFound (IsRecent start top) (search_pool node keys address key asked)
  unfolding search_pool
  search_pool-IsRecent start top false = tt
  search_pool-IsRecent start top true =
      let txs = map (λ (t : MempoolTx). t.tx) node.mempool_txs in
      AllFound-weaken (IsIn node keys address key 0 true) (IsRecent start top)
        (find_our_outputs node keys address key 0 true txs) (λ o h. (h.0, inl (h.2, h.1)))
        (find_our_outputs-IsIn node keys address key 0 true txs)

  block_search-IsRecent :
      (start top i : ℕ)
      → start ≤ i
      → i < top
      → AllFound (IsRecent start top) (block_search node keys address key i)
  unfolding block_search
  block_search-IsRecent start top i above below =
      elim (Option-cases (get_block_by_height node.core i)) [
        | inl gone ↦ rw (block_search, gone) tt
        | inr (blk, there) ↦
            let r = node.core.get_transactions blk.tx_hashes in
            let txs = blk.miner_tx ∷ r.1 in
            elim (Bool-cases r.0) [
              | inr missed ↦ rw (block_search, there, missed) tt
              | inl found ↦
                  rw (block_search, there, found)
                    (AllFound-weaken (IsIn node keys address key i false) (IsRecent start top)
                      (find_our_outputs node keys address key i false txs)
                      (λ o h. (
                        h.0,
                        inr (
                          h.2,
                          subst (λ k. start ≤ k) (sym h.1) above,
                          subst (λ k. k < top) (sym h.1) below,
                        ),
                      ))
                      (find_our_outputs-IsIn node keys address key i false txs))
            ]
      ]

  search_blocks-IsRecent :
      (start top left : ℕ)
      → start + left ≤ top
      → AllFound (IsRecent start top) (search_blocks node keys address key start left)
  unfolding search_blocks
  search_blocks-IsRecent start top zero fits = tt
  search_blocks-IsRecent start top (suc left) fits =
      and_search-AllFound (IsRecent start top) (block_search node keys address key (start + left))
        (search_blocks node keys address key start left)
        (block_search-IsRecent start top (start + left) (omega arith) (omega arith))
        (search_blocks-IsRecent start top left (omega arith))

  -- With at least as many blocks in the chain as are searched, and a height below 2 ^ 63: every
  -- output that the search behind `json_outputsblocks` gives has the key that a derivation of the
  -- view key gives for the address at its index, and is marked as one of the pool, with the block
  -- number 0, or with the number of one of the last blocks.
  pub search_all-IsRecent :
      (in_mempool_aswell : Bool) (n : ℕ) (os : List OurOutput)
      → n ≤ node.current_height
      → node.current_height < sign64
      → search_all node keys address key in_mempool_aswell n ≡ outputs_found os
      → All (IsRecent (node.current_height - n) node.current_height) os
  unfolding search_all page_end page_rounds
  search_all-IsRecent in_mempool_aswell n os enough fits found =
      let height = node.current_height in
      let start : not_below_zero (sub64 height n) ≡ height - n = ground arith in
      let rounds : page_rounds (height - n) (page_end (height - n) n) ≡ n = ground arith in
      let found' = rw (search_all, start, rounds) at found in
      subst (AllFound (IsRecent (height - n) height)) found' (
        and_search-AllFound (IsRecent (height - n) height)
          (search_pool node keys address key in_mempool_aswell)
          (search_blocks node keys address key (height - n) n)
          (search_pool-IsRecent (height - n) height in_mempool_aswell)
          (search_blocks-IsRecent (height - n) height n (omega arith)))
