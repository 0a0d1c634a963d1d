-- ===== src/Parser/Dense.antt =====
-- The ids that the parser gives out are the primary keys of the rows it queues: within one run of
-- the parser they are consecutive, so no two rows of a table share one.
pub mod Steps
pub mod WholeBlock
use mathlib.Core.List.{map-append}
use mathlib.Core.Option.{some-injective}
use monero_sci_parser.Base.{
  ℕ, zero, suc, ◌+◌, ◌-◌, ◌≤◌, ◌≡◌, refl, ap, subst, ◌∙◌, sym, Bool, true, false, Option, none,
  some, List, [], ◌∷◌, ◌++◌, map, arith, if◌then◌else◌, ◌>>=◌, Bool-cases, Option-cases, inl, inr,
  get_or, head_or, length,
}
use monero_sci_parser.Text.{Str, to_string, atoi}
use monero_sci_parser.BloomFilter.{exists_c_string}
use monero_sci_parser.IdHashMapper.{RocksDb}
use monero_sci_parser.Text.Decimal.{atoi-to_string}
use monero_sci_parser.Parser.Records.{Block, Transaction, Output, Input, Mixin, TxRef}
use monero_sci_parser.Parser.Ids.{Ids}
use monero_sci_parser.Parser.Store.{Store, TxRow, push}
use monero_sci_parser.Parser.Process.{
  process_output, process_outputs, resolve_ring_id, process_mixin, process_mixins,
  process_key_image, process_input, process_inputs, process_transaction, process_txs, xmr_processor,
}

-- `n` numbers from `a` on.
abbrev pub count_from : ℕ → ℕ → List ℕ
count_from a zero = []
count_from a (suc n) = a ∷ count_from (a + 1) n

-- The list is `a, a + 1, …, b - 1`.
pub record IsRun (a b : ℕ) (xs : List ℕ) : Type 0 where
  pub ordered : a ≤ b
  pub is : xs ≡ count_from a (b - a)

count_from-append : (a n : ℕ) → count_from a n ++ (a + n) ∷ [] ≡ count_from a (suc n)
count_from-append a zero = ap (λ t. t ∷ []) (omega arith)
count_from-append a (suc n) =
    ap (λ t. a ∷ t)
      (ap (λ t. count_from (a + 1) n ++ t ∷ []) (omega arith) ∙ count_from-append (a + 1) n)

pub IsRun-push {ℓ} :
    {A : Type ℓ} (f : A → ℕ) (a b : ℕ) (xs : List A) (x : A)
    → IsRun a b (map f xs)
    → f x ≡ b
    → IsRun a (b + 1) (map f (push xs x))
IsRun-push f a b xs x r e = record {
  ordered = omega (arith, r.ordered);
  is =
      map-append f xs (x ∷ [])
      ∙ rw r.is (
          ap (λ t. count_from a (b - a) ++ t ∷ []) (e ∙ omega (arith, r.ordered))
          ∙ count_from-append a (b - a)
          ∙ ap (count_from a) {x = suc (b - a)} (omega (arith, r.ordered)));
}

-- The columns of the queued rows that hold their keys.
abbrev pub column : ℕ → List ℕ → ℕ
column i row = get_or row i 0

abbrev pub image_id : List Str → ℕ
image_id row = atoi (head_or row [])

-- Every vector holds the rows from the id in `base` up to the counter. While a block is processed
-- its row is queued before its counter moves, and so with a key image: `blocks` and `images` count
-- such rows.
pub record IsDense (base : Ids) (blocks images : ℕ) (s : Store) : Type 0 where
  pub block_ids :
      IsRun base.last_block_id (s.ids.last_block_id + blocks) (map (λ p. p.1) s.output_of_block)
  pub block_rows :
      IsRun base.last_block_id
        (s.ids.last_block_id + blocks)
        (map (column 0) s.output_index_of_block)
  pub output_ids :
      IsRun base.last_output_id s.ids.last_output_id (map (λ p. p.1) s.output_of_stealth_addresses)
  pub output_rows :
      IsRun base.last_output_id s.ids.last_output_id
        (map (column 2) s.output_index_of_stealth_addresses)
  pub address_rows :
      IsRun base.last_stealth_address_id s.ids.last_stealth_address_id
        (map (column 1) s.output_index_of_stealth_addresses)
  pub image_ids :
      IsRun base.last_key_image_id
        (s.ids.last_key_image_id + images)
        (map image_id s.output_of_key_images)
  pub input_ids :
      IsRun base.last_input_id s.ids.last_input_id (map (λ p. p.1) s.output_of_ring_members)
  pub input_rows :
      IsRun base.last_input_id s.ids.last_input_id (map (column 0) s.output_index_of_ring_members)
  pub tx_ids :
      IsRun base.last_transaction_id s.ids.last_transaction_id
        (map (λ r. r.last_tx_id) s.output_of_tx)
  pub tx_rows :
      IsRun base.last_transaction_id s.ids.last_transaction_id (map (column 0) s.output_index_of_tx)
