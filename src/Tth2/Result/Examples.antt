-- ===== src/Tth2/Result/Examples.antt =====
-- The theorems on batch results (tth2/result.go) at two responses and a reset.
use tturl.Common.{
  ℕ, zero, suc, ◌≡◌, ◌≢◌, refl, some, none, List, [], ◌∷◌, get_elem?, arith, subst, ap, sym, ◌∙◌,
  ◌⊎◌, inl, inr,
}
use tturl.Common.Int.{pos, negsuc, pos_part}
use tturl.Tth2.Result.{Result, BatchResult, new_batch_result, seq_of, arrived}
use tturl.Tth2.Result.Collecting.{presence}
use tturl.Tth2.Result.Ranks.{IsRanking, new_batch_result-IsRanking}
use tturl.Tth2.Result.Returns.{Ended, DistinctSeq, new_batch_result-returns}

abbrev responded : ℕ → ℕ → Result ℕ
responded seq id = record {
  response = some 200;
  arrival_rank = pos 0;
  reset = none;
  arrival_seq = pos seq;
  stream_id = id;
}

abbrev was_reset : ℕ → Result ℕ
was_reset id = record {
  response = none;
  arrival_rank = pos 0;
  reset = some (record { stream_id = id; code = 8 });
  arrival_seq = negsuc 0;
  stream_id = id;
}

abbrev streams : List (Result ℕ)
streams = responded 42 1 ∷ was_reset 3 ∷ responded 40 5 ∷ []

abbrev batch : BatchResult ℕ
batch = record {
  connection = 0;
  results =
      record (responded 42 1) { arrival_rank = pos 1 }
      ∷ record (was_reset 3) { arrival_rank = negsuc 0 }
      ∷ record (responded 40 5) { arrival_rank = pos 0 }
      ∷ [];
  arrival_order = 2 ∷ 0 ∷ [];
}

streams_outcome : new_batch_result streams ≡ some batch
unfolding new_batch_result
streams_outcome = refl

new_batch_result-IsRanking_example : IsRanking streams batch
new_batch_result-IsRanking_example = new_batch_result-IsRanking streams streams_outcome

streams-Ended : (j : ℕ) (r : Result ℕ) → get_elem? streams j ≡ some r → Ended r
unfolding arrived
streams-Ended zero r e = let same : responded 42 1 ≡ r = cc e in subst Ended same (omega arith)
streams-Ended (suc zero) r e = let same : was_reset 3 ≡ r = cc e in subst Ended same refl
streams-Ended (suc (suc zero)) r e =
    let same : responded 40 5 ≡ r = cc e in subst Ended same (omega arith)
streams-Ended (suc (suc (suc j))) r e = cc

seq_at :
    (i : ℕ)
    → presence (get_elem? streams i) ≡ 1
    → ((i ≡ 0) × (seq_of streams i ≡ pos 42)) ⊎ ((i ≡ 2) × (seq_of streams i ≡ pos 40))
unfolding arrived seq_of
seq_at zero h = inl (refl, refl)
seq_at (suc zero) h = cc h
seq_at (suc (suc zero)) h = inr (refl, refl)
seq_at (suc (suc (suc i))) h = cc h

differ : pos 42 ≢ pos 40
differ e = absurd (omega (arith, ap pos_part e))

streams_distinct : DistinctSeq streams
streams_distinct i j apart here there = elim (seq_at i here) [
  | inl (i0, ei) ↦ elim (seq_at j there) [
    | inl (j0, ej) ↦ absurd (apart (i0 ∙ sym j0))
    | inr (j2, ej) ↦ λ e. differ (sym ei ∙ e ∙ ej)
  ]
  | inr (i2, ei) ↦ elim (seq_at j there) [
    | inl (j0, ej) ↦ λ e. differ (sym ej ∙ sym e ∙ ei)
    | inr (j2, ej) ↦ absurd (apart (i2 ∙ sym j2))
  ]
]

new_batch_result-returns_example : (b : BatchResult ℕ) × (new_batch_result streams ≡ some b)
new_batch_result-returns_example = new_batch_result-returns streams streams-Ended streams_distinct
