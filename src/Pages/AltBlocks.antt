-- ===== src/Pages/AltBlocks.antt =====
-- src/page.h: `altblocks`, the page of the blocks beside the chain.
use mathlib.Core.List.{append-nil, append_assoc}
use monero_sci_parser.Base.{
  ℕ, ◌≡◌, refl, sym, ◌∙◌, Option, none, some, List, [], ◌∷◌, ◌++◌, map, sub64, false, length,
}
use monero_sci_parser.Text.{Str}
use monero_sci_parser.Chain.{CoreBlock}
use monero_sci_parser.Parser.Store.{push}
use monero_sci_parser.RpcCalls.{Client, Response, Statuses, get_alt_blocks, get_block}
use monero_sci_parser.Pages.Index.{Age, get_age}

-- The map of a block that the template shows. The numbers are words, -1 that of its bits; an age
-- `none` is the text "-1".
pub record AltBlock : Type 0 where
  pub height : ℕ
  pub age : Option Age
  pub hash : Str
  pub no_of_txs : ℕ

pub record AltBlocks : Type 0 where
  pub no_alt_blocks : ℕ
  pub blocks : List AltBlock

-- Monero's readers, the height that a block's own transaction states, and the answers of the node to
-- the requests for a block.
module _ (statuses : Statuses) (client : Client) (parse_hexstr_to_binbuff : Str → Option Str)
    (parse_block : Str → Option CoreBlock) (get_block_height : CoreBlock → ℕ)
    (block_answer : Str → Option (Response Str)) where
  unfoldable pub alt_block : ℕ → Str → Option CoreBlock → AltBlock
  unfolding get_age
  alt_block server_timestamp alt_blk_hash none = record {
    height = sub64 0 1;
    age = none;
    hash = alt_blk_hash;
    no_of_txs = sub64 0 1;
  }
  alt_block server_timestamp alt_blk_hash (some alt_blk) = record {
    height = get_block_height alt_blk;
    age = some (get_age server_timestamp alt_blk.timestamp false);
    hash = alt_blk_hash;
    no_of_txs = length alt_blk.tx_hashes;
  }

  -- The loop over the hashes.
  unfoldable pub alt_loop : ℕ → List Str → List AltBlock → List AltBlock
  unfolding alt_block get_block
  alt_loop server_timestamp [] blocks = blocks
  alt_loop server_timestamp (alt_blk_hash ∷ hashes) blocks =
      let answer = block_answer alt_blk_hash in
      let blk = get_block statuses parse_hexstr_to_binbuff parse_block client answer in
      alt_loop server_timestamp hashes (push blocks (alt_block server_timestamp alt_blk_hash blk))

  -- The hashes stay empty when the call for them fails.
  unfoldable pub alt_hashes : Option (List Str) → List Str
  alt_hashes none = []
  alt_hashes (some hashes) = hashes

  -- `altblocks`
  unfoldable pub altblocks : ℕ → Option (Response (List Str)) → AltBlocks
  unfolding alt_loop alt_hashes get_alt_blocks
  altblocks server_timestamp answer =
      let atl_blks_hashes = alt_hashes (get_alt_blocks statuses client answer) in
      record {
        no_alt_blocks = length atl_blks_hashes;
        blocks = alt_loop server_timestamp atl_blks_hashes [];
      }

  -- The block of a hash.
  abbrev block_of : ℕ → Str → AltBlock
  block_of now hash =
      alt_block now hash
        (get_block statuses parse_hexstr_to_binbuff parse_block client (block_answer hash))

  alt_loop-map :
      (now : ℕ) (hashes : List Str) (blocks : List AltBlock)
      → alt_loop now hashes blocks ≡ blocks ++ map (block_of now) hashes
  unfolding alt_loop
  alt_loop-map now [] blocks = sym (append-nil blocks)
  alt_loop-map now (h ∷ hs) blocks =
      alt_loop-map now hs (push blocks (block_of now h))
      ∙ append_assoc blocks (block_of now h ∷ []) (map (block_of now) hs)

  -- The page has a block for each hash that the node gives, in their order, whether the node gives
  -- the block or not.
  pub altblocks-map :
      (now : ℕ) (answer : Option (Response (List Str)))
      → let hashes = alt_hashes (get_alt_blocks statuses client answer) in
        altblocks now answer
        ≡ record { no_alt_blocks = length hashes; blocks = map (block_of now) hashes }
  unfolding altblocks
  altblocks-map now answer =
      rw (alt_loop-map now (alt_hashes (get_alt_blocks statuses client answer)) []) refl
