-- ===== src/RpcCalls/Outcomes.antt =====
-- Which responses of the node the calls take.
use monero_sci_parser.Base.{
  ℕ, ◌≡◌, ◌≢◌, refl, sym, Bool, true, false, Option, none, some, List, [], ◌∷◌, ◌||◌, if◌then◌else◌,
  ◌>>=◌, Bool-cases, inl, inr,
}
use monero_sci_parser.Text.{Str, codes, str_eq, str_eq_iff, str_eq_refl}
use monero_sci_parser.RpcCalls.{
  Client, Response, Statuses, invoke, status_error, checked_result, json_rpc, get_alt_blocks,
}

abbrev pub no_text : Str → Bool
no_text [] = true
no_text (c ∷ cs) = false

-- The result of a response whose status a test takes.
pub taken {ℓ} : {A : Type ℓ} → (Str → Bool) → Option (Response A) → Option A
taken test none = none
taken test (some res) = if test res.status then some res.result else none

module _ (statuses : Statuses) (not_busy : statuses.ok ≢ statuses.busy)
    (busy_text : statuses.busy ≢ []) where
  busy-ok : str_eq statuses.busy statuses.ok ≡ false
  busy-ok = elim (Bool-cases (str_eq statuses.busy statuses.ok)) [
    | inl same ↦ absurd (not_busy (sym ((str_eq_iff statuses.busy statuses.ok).0 same)))
    | inr other ↦ other
  ]

  not_empty : (s : Str) → s ≢ [] → no_text s ≡ false
  not_empty [] full = absurd (full refl)
  not_empty (c ∷ cs) full = refl

  module _ {ℓ} {A : Type ℓ} (result : A) where
    busy_refused :
        (other_error status : Str)
        → status ≡ statuses.busy
        → (checked_result statuses (status_error statuses other_error status) result ≡ none)
          × (str_eq status statuses.ok ≡ false)
          × (no_text status ≡ false)
    unfolding checked_result status_error
    busy_refused other_error status same = (
      rw (same, status_error, str_eq_refl statuses.busy) refl,
      rw (same) busy-ok,
      rw (same) (not_empty statuses.busy busy_text),
    )

    own_error :
        (status : Str)
        → checked_result statuses (status_error statuses status status) result
          ≡ (if str_eq status statuses.ok || no_text status then some result else none)
    unfolding checked_result status_error
    own_error status = elim (Bool-cases (str_eq status statuses.busy)) [
      | inl busy ↦
          let (refused, other, full) =
            busy_refused status status ((str_eq_iff status statuses.busy).0 busy) in
          rw (refused, other, full) refl
      | inr free ↦ elim (Bool-cases (str_eq status statuses.ok)) [
        | inl fine ↦ rw (status_error, free, fine) refl
        | inr bad ↦ rw (status_error, free, bad) (by_length status)
      ]
    ]
      where
        by_length :
            (s : Str) → checked_result statuses s result ≡ (if no_text s then some result else none)
        by_length [] = refl
        by_length (c ∷ cs) = refl

    fixed_error :
        (c : ℕ) (cs status : Str)
        → checked_result statuses (status_error statuses (c ∷ cs) status) result
          ≡ (if str_eq status statuses.ok then some result else none)
    unfolding checked_result status_error
    fixed_error c cs status = elim (Bool-cases (str_eq status statuses.busy)) [
      | inl busy ↦
          let (refused, other, full) =
            busy_refused (c ∷ cs) status ((str_eq_iff status statuses.busy).0 busy) in
          rw (refused, other) refl
      | inr free ↦ elim (Bool-cases (str_eq status statuses.ok)) [
        | inl fine ↦ rw (status_error, free, fine) refl
        | inr bad ↦ rw (status_error, free, bad) refl
      ]
    ]

  json_taken {ℓ} :
      {A : Type ℓ} (o : Option (Response A))
      → (o >>= λ res.
          checked_result statuses (status_error statuses res.status res.status) res.result)
        ≡ taken (λ status. str_eq status statuses.ok || no_text status) o
  unfolding taken
  json_taken none = refl
  json_taken (some res) = own_error res.result res.status

  alt_taken :
      (o : Option (Response (List Str)))
      → (o >>= λ res.
          checked_result statuses
            (status_error statuses (codes "daemon rpc failed. Please try again later.") res.status)
            res.result)
        ≡ taken (λ status. str_eq status statuses.ok) o
  unfolding taken
  alt_taken none = refl
  alt_taken (some res) = fixed_error res.result _ _ res.status

  -- If the status for a busy node is neither empty nor the one for success: the calls of JSON take a
  -- response just when there is a connection and its status is the one for success or empty, and
  -- `get_alt_blocks` just when there is a connection and it is the one for success. They give the
  -- result of the response.
  pub json_rpc-taken {ℓ} :
      {A : Type ℓ} (client : Client) (response : Option (Response A))
      (alt_response : Option (Response (List Str)))
      → (json_rpc statuses client response
          ≡ taken (λ status. str_eq status statuses.ok || no_text status) (invoke client response))
        × (get_alt_blocks statuses client alt_response
            ≡ taken (λ status. str_eq status statuses.ok) (invoke client alt_response))
  unfolding json_rpc get_alt_blocks
  json_rpc-taken client response alt_response =
      (json_taken (invoke client response), alt_taken (invoke client alt_response))
