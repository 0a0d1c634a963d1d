-- ===== src/Pages/Paging/Blocks.antt =====
-- The pages of blocks, from the top of the chain down.
use native.Mathlib.Nat.{mul-zero, mul-suc, suc-mul}
use monero_sci_parser.Base.{
  ℕ, zero, suc, ◌+◌, ◌-◌, ◌*◌, ◌≤◌, ◌<◌, ◌≡◌, refl, ap, ◌∙◌, sym, true, false, Option, none, some,
  List, [], ◌∷◌, ◌++◌, map, arith, u64, sub64,
}
use monero_sci_parser.Tools.{Tx}
use monero_sci_parser.Chain.{CoreBlock, get_block_by_height}
use monero_sci_parser.Pages.{
  Node, cant_get_block, Answer, fail, error, success, bare, known_details, TxJson, get_tx_json,
}
use monero_sci_parser.Pages.Heights.{details_above}
use monero_sci_parser.Pages.Paging.{
  sign64, cap_limit, page_start, page_end, page_rounds, PageBlock, page_block, page_txs,
  blocks_made, push_block, page_loop, PageJson, page_answer, transactions_page,
}

-- `n` heights from `start`, the highest first.
unfoldable pub range_down : ℕ → ℕ → List ℕ
range_down start zero = []
range_down start (suc n) = (start + n) ∷ range_down start n

range_down-append :
    (start m n : ℕ) → range_down (start + m) n ++ range_down start m ≡ range_down start (m + n)
unfolding range_down
range_down-append start m zero = let none_more : m + zero ≡ m = omega arith in rw none_more refl
range_down-append start m (suc n) =
    let shape : m + suc n ≡ suc (m + n) = omega arith in
    let top : start + m + n ≡ start + (m + n) = omega arith in
    rw (shape, range_down, top, range_down-append start m n) refl

le-mul : (limit page : ℕ) → 0 < limit → page ≤ limit * page
le-mul zero page h = absurd (omega arith)
le-mul (suc n) page h = omega (arith, suc-mul n page)

-- The window of a page.
page_window :
    (height page limit : ℕ)
    → 0 < limit
    → limit * suc page < height
    → height < sign64
    → limit ≤ 100
    → (page_start height page limit ≡ height - limit * suc page)
      × (page_rounds (height - limit * suc page) (page_end (height - limit * suc page) limit)
          ≡ limit)
unfolding page_start page_end page_rounds
page_window height page limit some_blocks inside fits capped =
    let product : limit * suc page ≡ limit * page + limit = mul-suc limit page in
    let small : page ≤ limit * page = le-mul limit page some_blocks in
    let next : u64 (page + 1) ≡ suc page = omega arith in
    let start : sub64 height (u64 (limit * suc page)) ≡ height - limit * suc page = omega arith in
    (rw (page_start, next, start) (ground arith), ground (arith, product))

module _ (node : Node) where
  -- The chain has the block and all its transactions.
  abbrev pub IsReadable : ℕ → Type 0
  IsReadable i =
      (blk : CoreBlock) × (node.core.get_block_from_height i ≡ some blk)
      × ((node.core.get_transactions blk.tx_hashes).0 ≡ true)

  page_txs-made :
      (i : ℕ) (txs : List Tx) → 0 < i → (js : List TxJson) × (page_txs node i txs ≡ some js)
  unfolding page_txs
  page_txs-made i [] above = ([], refl)
  page_txs-made i (tx ∷ txs) above =
      let (js, made) = page_txs-made i txs above in
      (
        get_tx_json node tx (known_details node tx false i node.current_height) ∷ js,
        rw (page_txs, details_above node tx false i node.current_height above, made) refl,
      )

  push_block-made :
      (i : ℕ) (bs : List PageBlock)
      → 0 < i
      → IsReadable i
      → (b : PageBlock) × (push_block node i (some (blocks_made bs)) ≡ some (blocks_made (b ∷ bs)))
        × (b.height ≡ i)
  unfolding push_block page_block get_block_by_height
  push_block-made i bs above (blk, there, has_txs) =
      let (js, txs) =
        page_txs-made i (blk.miner_tx ∷ (node.core.get_transactions blk.tx_hashes).1) above in
      (page_block node i blk js, rw (push_block, there, has_txs, txs) refl, refl)

  page_loop-heights :
      (start left : ℕ)
      → 0 < start
      → ((i : ℕ) → i < start + left → IsReadable i)
      → (bs : List PageBlock) × (page_loop node start left ≡ some (blocks_made bs))
        × (map (λ (b : PageBlock). b.height) bs ≡ range_down start left)
  unfolding page_loop push_block page_block get_block_by_height range_down
  page_loop-heights start zero above readable = ([], refl, refl)
  page_loop-heights start (suc left) above readable =
      let (bs, made, heights) =
        page_loop-heights start left above (λ i below. readable i (omega arith)) in
      let (b, pushed, height) =
        push_block-made (start + left) bs (omega arith) (readable (start + left) (omega arith)) in
      (b ∷ bs, ap (push_block node (start + left)) made ∙ pushed, λ i. height i ∷ heights i)

  -- The heights of the blocks on a page, none where it is not made.
  pub heights_of : Option (Answer PageJson) → List ℕ
  heights_of none = []
  heights_of (some (fail t)) = []
  heights_of (some (error t)) = []
  heights_of (some (bare j)) = []
  heights_of (some (success j)) = map (λ (b : PageBlock). b.height) j.blocks

  -- The heights on the first `count` pages.
  pub first_pages : ℕ → ℕ → List ℕ
  first_pages limit zero = []
  first_pages limit (suc count) =
      first_pages limit count ++ heights_of (transactions_page node count limit)

  module _ (limit : ℕ) (some_blocks : 0 < limit) (capped : limit ≤ 100)
      (fits : node.current_height < sign64)
      (readable : (i : ℕ) → i < node.current_height → IsReadable i) where
    transactions_page-heights :
        (page : ℕ)
        → limit * suc page < node.current_height
        → heights_of (transactions_page node page limit)
          ≡ range_down (node.current_height - limit * suc page) limit
    unfolding transactions_page page_answer heights_of
    transactions_page-heights page inside =
        let height = node.current_height in
        let (start, rounds) = page_window height page limit some_blocks inside fits capped in
        let (bs, made, heights) =
          page_loop-heights (height - limit * suc page) limit (omega arith)
            (λ i below. readable i (omega arith)) in
        let uncapped : cap_limit limit ≡ limit = ground arith in
        rw (transactions_page, uncapped, start, rounds, made) heights

    -- With at least one and at most 100 blocks to a page, a height below 2 ^ 63, all blocks in the
    -- chain with their transactions, and fewer blocks on the first pages than in the chain: these
    -- pages, one after the other, show each height from the top down once, with no gap.
    pub transactions_page-pages :
        (count : ℕ)
        → limit * count < node.current_height
        → first_pages limit count ≡ range_down (node.current_height - limit * count) (limit * count)
    unfolding first_pages range_down
    transactions_page-pages zero inside =
        let nothing : limit * zero ≡ 0 = mul-zero limit in rw nothing refl
    transactions_page-pages (suc count) inside =
        let product : limit * suc count ≡ limit * count + limit = mul-suc limit count in
        let start = node.current_height - limit * suc count in
        let above : node.current_height - limit * count ≡ start + limit = omega (arith, product) in
        let total : limit * suc count ≡ limit + limit * count = omega (arith, product) in
        rw
          (
            transactions_page-pages count (omega (arith, product)),
            transactions_page-heights count inside,
            above,
          )
          (range_down-append start limit (limit * count) ∙ ap (range_down start) (sym total))

  -- On a chain with fewer blocks than a page has, with at most 100 blocks to a page, the number of
  -- blocks up to the end of the page below 2 ^ 63 and no block in the chain at the number of blocks
  -- to a page less one, `json_transactions` fails at that block.
  pub transactions_page-short :
      (page limit : ℕ)
      → node.current_height < limit
      → limit ≤ 100
      → limit * suc page < sign64
      → node.core.get_block_from_height (limit - 1) ≡ none
      → transactions_page node page limit ≡ some (error (cant_get_block (limit - 1)))
  unfolding transactions_page page_start page_end page_rounds
  transactions_page-short page zero short capped fits gone = absurd (omega arith)
  transactions_page-short page (suc n) short capped fits gone =
      let height = node.current_height in
      let limit : ℕ = suc n in
      let uncapped : cap_limit limit ≡ limit = ground arith in
      let product : limit * suc page ≡ limit * page + limit = mul-suc limit page in
      let small : page ≤ limit * page = le-mul limit page (omega arith) in
      let next : u64 (page + 1) ≡ suc page = omega arith in
      let start : page_start height page limit ≡ 0 =
        rw (page_start, next) (ground (arith, product)) in
      let rounds : page_rounds 0 (page_end 0 limit) ≡ limit = ground arith in
      let last_index : 0 + n ≡ suc n - 1 = omega arith in
      let no_block : get_block_by_height node.core (0 + n) ≡ none =
        unfold get_block_by_height in rw (sym last_index) at gone in
      rw (transactions_page, uncapped, start, rounds)
        (rw (push_block, no_block) (ap (λ k. some (error (cant_get_block k))) last_index))
