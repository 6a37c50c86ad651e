-- ===== src/IndexServer/Rows/Capacity.antt =====
-- The capacity of the index while `receive_rows` of lantern_cli/src/external_index/server.rs runs.
use lanterndb.Prelude.{
  ℕ, zero, suc, ◌+◌, ◌*◌, ◌%◌, ◌^◌, ◌≤◌, ◌<◌, ◌≡◌, ◌⊎◌, refl, none, Result, Bool, some, List, [],
  ◌∷◌, arith, length, length-append, ok, err, inl, inr, result_cases,
}
use lanterndb.IndexServer.Protocol.{Connection, read_frame}
use lanterndb.IndexServer.Rows.{
  UsearchIndex, Receiving, parse_tuple, usize_mod, accept_row, on_message, receive_loop,
  receive_rows, expected_payload_size,
}
use lanterndb.IndexServer.Protocol.Framing.{message_cases}

-- A reservation that usearch grants gives the index at least that capacity.
pub record IsReserving {I : Type 0} (ix : UsearchIndex I) : Type 0 where
  pub reserve_capacity : (i : I) (n : ℕ) (j : I) → ix.reserve i n ≡ ok j → n ≤ ix.capacity j

-- Every row sent so far has its place in the index.
pub record HasRoom {S I : Type 0} (ix : UsearchIndex I) (r : Receiving S I) : Type 0 where
  pub counted : r.received_rows ≡ length r.sent
  pub positive : 0 < r.current_capacity
  pub within : r.received_rows ≤ r.current_capacity
  pub granted : r.current_capacity ≤ ix.capacity r.index

reserve_cases {ℓ} : {I : Type ℓ} (m : Result ℕ I) → ((j : I) × (m ≡ ok j)) ⊎ ((x : ℕ) × (m ≡ err x))
reserve_cases (ok j) = inl (j, refl)
reserve_cases (err x) = inr (x, refl)

module _ {S I : Type 0} (c : Connection S) (ix : UsearchIndex I) (is_open : ℕ → Bool)
    (law : IsReserving ix) where
  accept_row-HasRoom :
      (buf : List ℕ) (r r' : Receiving S I)
      → HasRoom ix r
      → r.received_rows < 2 ^ 63
      → accept_row c ix is_open buf r ≡ (ok tt, r')
      → HasRoom ix r' × (r'.received_rows ≡ r.received_rows + 1)
  unfolding accept_row
  accept_row-HasRoom buf r r' room small h =
      elim (reserve_cases (ix.reserve r.index ((r.current_capacity * 2) % usize_mod))) [
        | inl (j, e) ↦ ground (
          arith,
          law.reserve_capacity r.index ((r.current_capacity * 2) % usize_mod) j e,
          length-append r.sent (parse_tuple buf ∷ []),
        )
        | inr (x, e) ↦ ground (arith, length-append r.sent (parse_tuple buf ∷ []))
      ]

  receive_loop-HasRoom :
      (fuel size : ℕ) (r r' : Receiving S I)
      → HasRoom ix r
      → r.received_rows + fuel ≤ 2 ^ 63
      → receive_loop c ix is_open fuel size r ≡ some (ok tt, r')
      → HasRoom ix r'
  unfolding receive_loop on_message
  receive_loop-HasRoom zero size r r' room small h = cc
  receive_loop-HasRoom (suc fuel) size r r' room small h =
      elim (message_cases (read_frame c r.stream size size none)) [
        | inl (buf, s, e) ↦
            elim (result_cases (accept_row c ix is_open buf (record r { stream = s }))) [
              | inl (_, r₁, a) ↦
                  let kept : HasRoom ix (record r { stream = s }) = ground arith in
                  let g =
                    accept_row-HasRoom buf (record r { stream = s }) r₁ kept (omega arith) a in
                  receive_loop-HasRoom fuel size r₁ r' g.0 (omega (arith, g.1))
                    (rw a at (rw e at h))
              | inr (x, r₁, a) ↦ cc (rw a at (rw e at h))
            ]
        | inr (inl (s, e)) ↦ ground (arith, rw e at h)
        | inr (inr (inl (buf, s, e))) ↦ cc (rw e at h)
        | inr (inr (inr (x, s, e))) ↦ cc (rw e at h)
      ]

  -- From an index with a positive capacity, every row that was received and sent to the workers
  -- has its place: when the rows are received, as many were counted as were sent, and they are no
  -- more than the capacity that the index has granted. (The fuel bounds the number of rows, so that
  -- the doubled capacity does not wrap.)
  pub receive_rows-HasRoom :
      (fuel : ℕ) (stream : S) (index : I) (element_bits : ℕ) (r' : Receiving S I)
      → 0 < ix.capacity index
      → fuel ≤ 2 ^ 63
      → receive_rows c ix is_open fuel stream index element_bits ≡ some (ok tt, r')
      → HasRoom ix r'
  unfolding receive_rows
  receive_rows-HasRoom fuel stream index element_bits r' pos small h =
      receive_loop-HasRoom fuel (expected_payload_size (ix.dimensions index) element_bits)
        (record {
          stream = stream;
          index = index;
          current_capacity = ix.capacity index;
          received_rows = 0;
          sent = [];
        })
        r' (omega arith) (omega arith) h
