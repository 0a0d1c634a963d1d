-- ===== src/Mempool/Network/Schedule.antt =====
-- The thread asks for the information on the network in every so many rounds.
use mathlib.Core.Option.{some-injective}
use native.Mathlib.Nat.{mod-add-mod, zero-mod}
use monero_sci_parser.Base.{
  ℕ, suc, ◌+◌, ◌%◌, ◌≤◌, ◌<◌, ◌≡◌, refl, ap, subst, ◌∙◌, sym, Bool, true, some, List, [], ◌∷◌,
  arith, u64, u64_mod, ◌==◌, length, Option-cases, Bool-cases, inl, inr,
}
use monero_sci_parser.Text.{Str}
use monero_sci_parser.Mempool.{TxReader, loop_index_divider, next_loop_index}
use monero_sci_parser.RpcCalls.{Statuses}
use monero_sci_parser.Mempool.Network.{
  Answers, Watch, read_network_info, is_read, round_network, watch_round, watch_rounds,
}

-- The index has the remainder of the number of rounds, and is not above it.
abbrev IsOnTime : ℕ → ℕ → ℕ → Type 0
IsOnTime divider n index = (index % divider ≡ n % divider) × (index ≤ n)

one_more-IsOnTime :
    (divider n index : ℕ)
    → suc n < u64_mod
    → IsOnTime divider n index
    → IsOnTime divider (suc n) (u64 (index + 1))
one_more-IsOnTime divider n index fits (same, le) =
    let fitting : u64 (index + 1) ≡ index + 1 = omega arith in
    let after : suc n ≡ n + 1 = omega arith in
    let rest : (index + 1) % divider ≡ (n + 1) % divider =
      sym (mod-add-mod index divider 1)
      ∙ ap (λ r. (r + 1) % divider) same
      ∙ mod-add-mod n divider 1 in
    (rw (fitting, after) rest, omega arith)

next_loop_index-IsOnTime :
    (divider n index : ℕ) (answers : Bool)
    → suc n < u64_mod
    → IsOnTime divider n index
    → IsOnTime divider (suc n) (next_loop_index divider answers index).0
unfolding next_loop_index
next_loop_index-IsOnTime divider n index answers fits on_time =
    elim (Bool-cases (index % divider == 0)) [
      | inr early ↦ rw (next_loop_index, early) (one_more-IsOnTime divider n index fits on_time)
      | inl due ↦ elim (Bool-cases answers) [
        | inr failed ↦
            rw (next_loop_index, due, failed) (one_more-IsOnTime divider n index fits on_time)
        | inl answered ↦
            let multiple : index % divider ≡ 0 = ground arith in
            let start : 0 % divider ≡ n % divider = zero-mod divider ∙ sym multiple ∙ on_time.0 in
            rw (next_loop_index, due, answered)
              (one_more-IsOnTime divider n 0 fits (start, omega arith))
      ]
    ]

module _ (statuses : Statuses) (hex_to_pod : Str → Str) (reader : TxReader) where
  -- Whether the next round asks the node for the information on the network.
  pub asks : ℕ → Watch → Bool
  asks refresh_time w = (next_loop_index (loop_index_divider refresh_time) true w.loop_index).1

  watch_round-index :
      (divider : ℕ) (a : Answers) (w w' : Watch)
      → watch_round statuses hex_to_pod reader divider a w ≡ some w'
      → (answers : Bool) × (w'.loop_index ≡ (next_loop_index divider answers w.loop_index).0)
  unfolding watch_round
  watch_round-index divider a w w' done =
      let read = read_network_info statuses hex_to_pod a in
      let answers = is_read statuses hex_to_pod read in
      let due = (next_loop_index divider answers w.loop_index).1 in
      let old = w.current_network_info in
      elim (Option-cases (round_network statuses hex_to_pod due read old)) [
        | inl crashed ↦ absurd (let bad = rw (watch_round, crashed) at done in cc)
        | inr (info, there) ↦ (
          answers,
          sym (
              ap (λ (v : Watch). v.loop_index)
                (some-injective _ _ (rw (watch_round, there) at done))),
        )
      ]

  watch_rounds-IsOnTime :
      (refresh_time n : ℕ) (as_answered : List Answers) (w w' : Watch)
      → n + length as_answered < u64_mod
      → IsOnTime (loop_index_divider refresh_time) n w.loop_index
      → watch_rounds statuses hex_to_pod reader refresh_time as_answered w ≡ some w'
      → IsOnTime (loop_index_divider refresh_time) (n + length as_answered) w'.loop_index
  unfolding watch_rounds
  watch_rounds-IsOnTime refresh_time n [] w w' fits on_time done =
      let all : n + 0 ≡ n = omega arith in
      let same = some-injective _ _ done in
      rw (all) (
        subst (λ (v : Watch). IsOnTime (loop_index_divider refresh_time) n v.loop_index) same
          on_time)
  watch_rounds-IsOnTime refresh_time n (a ∷ rounds) w w' fits on_time done =
      let divider = loop_index_divider refresh_time in
      elim (Option-cases (watch_round statuses hex_to_pod reader divider a w)) [
        | inl crashed ↦ absurd (let bad = rw (watch_rounds, crashed) at done in cc)
        | inr (v, round) ↦
            let (answers, index) = watch_round-index divider a w v round in
            let next =
              next_loop_index-IsOnTime divider n w.loop_index answers (omega arith) on_time in
            let shape : n + suc (length rounds) ≡ suc n + length rounds = omega arith in
            rw (shape) (
              watch_rounds-IsOnTime refresh_time (suc n) rounds v w' (omega arith) (rw (index) next)
                (rw (watch_rounds, round) at done))
      ]

  -- Over any rounds from the start of the thread, fewer than 2 ^ 64, after which it still runs: the
  -- next round asks the node for the information on the network just when the number of rounds is a
  -- multiple of the divider, whatever the node has answered.
  pub watch_rounds-asks :
      (refresh_time : ℕ) (rounds : List Answers) (w w' : Watch)
      → w.loop_index ≡ 0
      → length rounds < u64_mod
      → watch_rounds statuses hex_to_pod reader refresh_time rounds w ≡ some w'
      → asks refresh_time w' ≡ (length rounds % loop_index_divider refresh_time == 0)
  unfolding asks next_loop_index
  watch_rounds-asks refresh_time rounds w w' start fits done =
      let divider = loop_index_divider refresh_time in
      let first_time : IsOnTime divider 0 w.loop_index = rw (start) (refl, omega arith) in
      let (same, le) =
        watch_rounds-IsOnTime refresh_time 0 rounds w w' (omega arith) first_time done in
      let count : 0 + length rounds ≡ length rounds = omega arith in
      ap (λ r. r == 0) (same ∙ ap (λ k. k % divider) count)
