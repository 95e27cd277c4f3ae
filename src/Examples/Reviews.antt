-- ===== src/Examples/Reviews.antt =====
-- A candidate for a memory and its review (src/ueaf/memory/review.py).
use agent_ueaf.Common.{ℕ, ◌≡◌, ◌≢◌, ◌⊎◌, false, some, Dict.lookup, none, [], ltb}
use agent_ueaf.Common.Exec.{ok}
use agent_ueaf.Contract.{new_meta, internal}
use agent_ueaf.Memory.Objects.{MemoryCandidate}
use agent_ueaf.Memory.Review.{
  CandidateReviewGate, CandidateReview, approved, empty_gate, submit_candidate, review_candidate,
  approved_candidate,
}
use agent_ueaf.Memory.Review.Approved.{
  IsConfident, here, then, submits, reviews, Calls-approved_candidate,
}

-- Confidences are percentages here.
abbrev candidate : MemoryCandidate ℕ
candidate = record {
  meta = new_meta "MemoryCandidate" "memory:1" "tenant" 5 "desk" "1.0.0";
  candidate_id = "memory:1";
  subject_ref = "subject:1";
  source_refs = [];
  purpose = "team";
  sensitivity = internal;
  statement = "prefers short answers";
  confidence = 96;
  required_consent = false;
  proposed_at = none;
  scope_requested = "";
  retention_hint = "90d";
}

abbrev submitted : CandidateReviewGate ℕ
submitted = (submit_candidate candidate "desk" 7 (empty_gate 80 95 95)).1

abbrev reviewed : CandidateReviewGate ℕ
reviewed = (review_candidate ltb "memory:1" approved "desk" "" 8 submitted).1

Calls-approved_candidate_example :
    (((approved_candidate "memory:1" reviewed).0 ≡ ok none)
      × ((r : CandidateReview) → lookup "memory:1" reviewed.reviews ≡ some r → r.status ≢ approved))
    ⊎ ((r : CandidateReview) × (c : MemoryCandidate ℕ) × (lookup "memory:1" reviewed.reviews
          ≡ some r)
        × (r.status ≡ approved)
        × (lookup "memory:1" reviewed.candidates ≡ some c)
        × ((approved_candidate "memory:1" reviewed).0 ≡ ok (some c))
        × IsConfident ltb 80 95 95 c)
Calls-approved_candidate_example =
    Calls-approved_candidate ltb 80 95 95 reviewed "memory:1"
      (then (then here (submits candidate "desk" 7)) (reviews "memory:1" approved "desk" "" 8))
