-- ===== src/Mempool/Reads.antt =====
-- A read of the pool takes all transactions of the node or changes nothing.
use mathlib.Core.List.{append-nil, append_assoc}
use monero_sci_parser.Base.{
  ℕ, ◌+◌, ◌<◌, ◌≡◌, refl, ap, ◌∙◌, sym, Bool, true, false, Option, none, some, List, [], ◌∷◌, ◌++◌,
  map, arith, u64, u64_mod, length, length-map, ◌>>=◌, Option-cases, inl, inr,
}
use monero_sci_parser.Text.{Str}
use monero_sci_parser.Parser.Store.{push}
use monero_sci_parser.Tools.{Tx}
use monero_sci_parser.Mempool.{
  TxInfo, MempoolTx, TxReader, MempoolStatus, mempool_entry, mempool_loop, set_mempool,
  read_mempool,
}

-- An info with the transaction that its blob holds.
abbrev pub Parsed : Type 0
Parsed = TxInfo × (Tx × Str)

pub blob_sizes : List Parsed → ℕ
blob_sizes [] = 0
blob_sizes (p ∷ ps) = p.0.blob_size + blob_sizes ps

module _ (reader : TxReader) where
  -- All infos with their transactions, where every blob is one.
  unfoldable pub parse_all : List TxInfo → Option (List Parsed)
  parse_all [] = some []
  parse_all (info ∷ infos) =
      reader.parse_tx info.tx_blob >>= λ p. parse_all infos >>= λ ps. some ((info, p) ∷ ps)

  -- The state and the answer that go with what has been parsed.
  unfoldable pub after_read : MempoolStatus → Option (List Parsed) → MempoolStatus × Bool
  after_read m none = (m, false)
  after_read m (some ps) = (
    record {
      mempool_txs = map (λ p. mempool_entry reader p.0 p.1) ps;
      mempool_no = length ps;
      mempool_size = u64 (blob_sizes ps);
    },
    true,
  )

  abbrev entries : List Parsed → List MempoolTx
  entries = map (λ p. mempool_entry reader p.0 p.1)

  abbrev copied : List MempoolTx → ℕ → List Parsed → Option (List MempoolTx × ℕ)
  copied copy size ps = some (copy ++ entries ps, u64 (size + blob_sizes ps))

  copied-cons :
      (info : TxInfo) (p : Tx × Str) (copy : List MempoolTx) (size : ℕ) (o : Option (List Parsed))
      → (o >>= copied (push copy (mempool_entry reader info p)) (u64 (size + info.blob_size)))
        ≡ (o >>= (λ ps. some ((info, p) ∷ ps)) >>= copied copy size)
  unfolding blob_sizes
  copied-cons info p copy size none = refl
  copied-cons info p copy size (some ps) =
      let entry = mempool_entry reader info p in
      let sums : u64 (u64 (size + info.blob_size) + blob_sizes ps)
          ≡ u64 (size + (info.blob_size + blob_sizes ps)) =
        omega arith in
      ap some (λ i. (append_assoc copy (entry ∷ []) (entries ps) i, sums i))

  mempool_loop-parse_all :
      (infos : List TxInfo) (copy : List MempoolTx) (size : ℕ)
      → size < u64_mod
      → mempool_loop reader infos copy size ≡ (parse_all infos >>= copied copy size)
  unfolding mempool_loop parse_all blob_sizes
  mempool_loop-parse_all [] copy size fits =
      let size_end : size ≡ u64 (size + 0) = omega arith in
      ap some (λ i. (sym (append-nil copy) i, size_end i))
  mempool_loop-parse_all (info ∷ infos) copy size fits =
      elim (Option-cases (reader.parse_tx info.tx_blob)) [
        | inl gone ↦ rw (mempool_loop, gone) refl
        | inr (p, there) ↦
            rw (mempool_loop, there)
              (mempool_loop-parse_all infos (push copy (mempool_entry reader info p))
                  (u64 (size + info.blob_size)) (omega arith)
                ∙ copied-cons info p copy size (parse_all infos))
      ]

  set_mempool-copied :
      (m : MempoolStatus) (o : Option (List Parsed))
      → set_mempool m (o >>= copied [] 0) ≡ after_read m o
  unfolding set_mempool after_read
  set_mempool-copied m none = refl
  set_mempool-copied m (some ps) =
      let size_end : u64 (0 + blob_sizes ps) ≡ u64 (blob_sizes ps) = omega arith in
      rw (length-map (λ p. mempool_entry reader p.0 p.1) ps, size_end) refl

  -- A read of the pool keeps all transactions when the node answers and every blob is one: in
  -- order, with their number and the sum of the sizes modulo 2 ^ 64. Otherwise it fails and
  -- changes nothing.
  pub read_mempool-all_or_nothing :
      (answer : Option (List TxInfo)) (m : MempoolStatus)
      → read_mempool reader answer m ≡ after_read m (answer >>= parse_all)
  unfolding read_mempool after_read
  read_mempool-all_or_nothing none m = refl
  read_mempool-all_or_nothing (some infos) m =
      ap (set_mempool m) (mempool_loop-parse_all infos [] 0 (omega arith))
      ∙ set_mempool-copied m (parse_all infos)
