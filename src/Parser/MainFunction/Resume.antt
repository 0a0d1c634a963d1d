-- ===== src/Parser/MainFunction/Resume.antt =====
-- The keys of the rows continue from one run of the parser to the next.
use mathlib.Core.Option.{some-injective}
use monero_sci_parser.Base.{
  List, ℕ, zero, suc, ◌+◌, ◌-◌, ◌≡◌, refl, ap, subst, ◌∙◌, sym, true, Option, none, some, [], arith,
  ◌>>=◌, Option-cases, inl, inr,
}
use monero_sci_parser.Text.{Str, to_string}
use monero_sci_parser.IdHashMapper.{RocksDb, IsStore}
use monero_sci_parser.Parser.Records.{Block, Transaction}
use monero_sci_parser.Parser.Ids.{
  Ids, get_last_id_list, store_last_id_list, get_last_id_list-store_last_id_list,
}
use monero_sci_parser.Parser.Store.{Store}
use monero_sci_parser.Parser.Process.{xmr_processor}
use monero_sci_parser.Parser.Dense.{count_from, IsRun, IsDense}
use monero_sci_parser.Parser.Dense.WholeBlock.{xmr_processor-IsDense}
use monero_sci_parser.Parser.MainFunction.{main_loop, main_function}

-- The vectors of rows are empty, as they are when the program starts.
pub record IsFresh (s : Store) : Type 0 where
  pub block_ids : s.output_of_block ≡ []
  pub block_rows : s.output_index_of_block ≡ []
  pub output_ids : s.output_of_stealth_addresses ≡ []
  pub output_rows : s.output_index_of_stealth_addresses ≡ []
  pub image_ids : s.output_of_key_images ≡ []
  pub input_ids : s.output_of_ring_members ≡ []
  pub input_rows : s.output_index_of_ring_members ≡ []
  pub tx_ids : s.output_of_tx ≡ []
  pub tx_rows : s.output_index_of_tx ≡ []

no_rows : (a b : ℕ) → a ≡ b → IsRun a b []
no_rows a b e = record { ordered = omega arith; is = ap (count_from a) {x = 0} (omega arith) }

pub fresh-IsDense : (s : Store) → IsFresh s → IsDense s.ids 0 0 s
fresh-IsDense s f = record {
  block_ids = rw f.block_ids (no_rows _ _ (omega arith));
  block_rows = rw f.block_rows (no_rows _ _ (omega arith));
  output_ids = rw f.output_ids (no_rows _ _ refl);
  output_rows = rw f.output_rows (no_rows _ _ refl);
  address_rows = rw f.output_rows (no_rows _ _ refl);
  image_ids = rw f.image_ids (no_rows _ _ (omega arith));
  input_ids = rw f.input_ids (no_rows _ _ refl);
  input_rows = rw f.input_rows (no_rows _ _ refl);
  tx_ids = rw f.tx_ids (no_rows _ _ refl);
  tx_rows = rw f.tx_rows (no_rows _ _ refl);
}

module _ (db : RocksDb) (contents : db.Contents) (end_second : List (Str × ℕ) → Str → ℕ)
    (json_block : Str → Option Block) (details : Str → Option Transaction) where
  loop : ℕ → ℕ → Store → Option Store
  loop = main_loop db contents end_second json_block details

  abbrev round : ℕ → Store → Option Store
  round x s = do blk ← json_block (to_string x); xmr_processor db contents end_second details blk s

  loop-suc : (n x : ℕ) (s : Store) → loop (suc n) x s ≡ (round x s >>= λ t. loop n (x + 1) t)
  unfolding loop main_loop
  loop-suc n x s = elim (Option-cases (json_block (to_string x))) [
    | inl e ↦ rw e refl
    | inr (blk, e) ↦ rw e refl
  ]

  loop_at : (m n x y : ℕ) (s : Store) → m ≡ n → x ≡ y → loop m x s ≡ loop n y s
  loop_at m n x y s e f = rw (e, f) refl

  loop_add : (m n x : ℕ) (s : Store) → loop (m + n) x s ≡ (loop m x s >>= λ t. loop n (x + m) t)
  loop_add zero n x s =
      loop_at (0 + n) n x (x + 0) s (omega arith) (omega arith) ∙ (unfold loop main_loop in refl)
  loop_add (suc m) n x s =
      loop_at (suc m + n) (suc (m + n)) x x s (omega arith) refl
      ∙ loop-suc (m + n) x s
      ∙ elim (Option-cases (round x s)) [
        | inl e ↦ rw (e, loop-suc m x s, e) refl
        | inr (t, e) ↦
            rw (e, loop-suc m x s, e)
              (loop_add m n (x + 1) t
                ∙ ap (λ k. loop m (x + 1) t >>= λ u. loop n k u) {x = x + 1 + m} (omega arith))
      ]

  round-IsDense :
      (x : ℕ) (base : Ids) (s t : Store)
      → round x s ≡ some t
      → IsDense base 0 0 s
      → IsDense base 0 0 t
  round-IsDense x base s t e d = elim (Option-cases (json_block (to_string x))) [
    | inl failed ↦ absurd (let bad : ◌≡◌ {A = Option Store} none (some t) = rw failed at e in (cc))
    | inr (blk, got) ↦
        xmr_processor-IsDense db contents end_second details blk base s t (rw got at e) d
  ]

  loop-IsDense :
      (n x : ℕ) (base : Ids) (s t : Store)
      → loop n x s ≡ some t
      → IsDense base 0 0 s
      → IsDense base 0 0 t
  loop-IsDense zero x base s t e d =
      let start : loop zero x s ≡ some s = unfold loop main_loop in refl in
      let same : some s ≡ some t = sym start ∙ e in
      subst (IsDense base 0 0) (some-injective _ _ same) d
  loop-IsDense (suc n) x base s t e d =
      let e' : (round x s >>= λ u. loop n (x + 1) u) ≡ some t = sym (loop-suc n x s) ∙ e in
      elim (Option-cases (round x s)) [
        | inl failed ↦
            absurd (let bad : ◌≡◌ {A = Option Store} none (some t) = rw failed at e' in (cc))
        | inr (u, done) ↦
            loop-IsDense n (x + 1) base u t (rw done at e') (round-IsDense x base s u done d)
      ]

  -- A run of `m + n` blocks is a run of `m` blocks and then one of the next `n`.
  pub main_loop_add :
      (m n x : ℕ) (s : Store)
      → main_loop db contents end_second json_block details (m + n) x s ≡ (
          main_loop db contents end_second json_block details m x s >>= λ t.
          main_loop db contents end_second json_block details n (x + m) t)
  unfolding loop
  main_loop_add m n x s = loop_add m n x s

  module _ (laws : IsStore db)
      (writes : (c : db.Contents) (k v : Str) → (db.put c k v).1 ≡ true) where
    -- If the vectors are empty at the start, every write to the store of counters succeeds and the
    -- run ends, then the keys of the rows of each table are consecutive from the counter that was
    -- loaded, and the next run loads the counters at which this run ended.
    pub main_function-resumes :
        (first last : ℕ) (c d : db.Contents) (s t : Store)
        → IsFresh s
        → main_function db contents end_second json_block details first last c s ≡ some (d, t)
        → IsDense (get_last_id_list db c) 0 0 t × (get_last_id_list db d ≡ t.ids)
    unfolding main_function loop
    main_function-resumes first last c d s t f e =
        let loaded : Store = record s { ids = get_last_id_list db c } in
        let dense : IsDense (get_last_id_list db c) 0 0 loaded = fresh-IsDense loaded (record {
          block_ids = f.block_ids;
          block_rows = f.block_rows;
          output_ids = f.output_ids;
          output_rows = f.output_rows;
          image_ids = f.image_ids;
          input_ids = f.input_ids;
          input_rows = f.input_rows;
          tx_ids = f.tx_ids;
          tx_rows = f.tx_rows;
        }) in
        elim (Option-cases (loop (last + 1 - first) first loaded)) [
          | inl failed ↦ absurd (
              let bad : ◌≡◌ {A = Option (db.Contents × Store)} none (some (d, t)) =
                rw failed at e in
              (cc))
          | inr (u, done) ↦
              let same : (store_last_id_list db c u.ids, u) ≡ (d, t) =
                some-injective _ _ (rw done at e) in
              let at_end : u ≡ t = ap (λ p. p.1) same in
              let after : IsDense (get_last_id_list db c) 0 0 u =
                loop-IsDense (last + 1 - first) first (get_last_id_list db c) loaded u done dense in
              (
                subst (IsDense (get_last_id_list db c) 0 0) at_end after,
                ap (get_last_id_list db) (sym (ap (λ p. p.0) same))
                    ∙ get_last_id_list-store_last_id_list db laws writes c u.ids
                    ∙ ap (λ v. v.ids) at_end,
              )
        ]
