-- ===== src/Memory/Review.antt =====
-- The review of candidates for memories (src/ueaf/memory/review.py). `below` is `<` on Python's
-- numbers. The moment of a call is what `moment or utcnow()` is.
pub mod Approved
use agent_ueaf.Common.{
  ℕ, String, Bool, true, false, not, ◌&&◌, Option, none, some, List, [], ◌∷◌, str_eq, truthy,
  is_some, if◌then◌else◌, Dict.Dict, Dict.lookup, Dict.insert,
}
use agent_ueaf.Common.Exec.{Result, ok, err, Exec}
use agent_ueaf.Memory.Objects.{MemoryCandidate}

-- A decision (`ReviewDecision`) is a status too: the code takes it over as it is.
pub data ReviewStatus : Type 0 where
  pending_review approved rejected needs_review : ReviewStatus

abbrev pub is_approved : ReviewStatus → Bool
is_approved approved = true
is_approved _ = false

pub record CandidateReview : Type 0 where
  pub candidate_ref : String
  pub status : ReviewStatus
  pub reviewed_by : String
  pub reviewed_at : ℕ
  pub reason_codes : List String
  pub note : Option String

pub record CandidateReviewGate (N : Type 0) : Type 0 where
  pub approval_threshold : N
  pub team_threshold : N
  pub tenant_threshold : N
  pub reviews : Dict CandidateReview
  pub candidates : Dict (MemoryCandidate N)

abbrev pub empty_gate : {N : Type 0} → N → N → N → CandidateReviewGate N
empty_gate approval team tenant = record {
  approval_threshold = approval;
  team_threshold = team;
  tenant_threshold = tenant;
  reviews = [];
  candidates = [];
}

abbrev pub M : Type 0 → Type 0 → Type 0
M N = Exec (CandidateReviewGate N) String

-- `candidate.scope_requested or candidate.purpose`
abbrev pub scope_of : {N : Type 0} → MemoryCandidate N → String
scope_of c = if truthy c.scope_requested then c.scope_requested else c.purpose

-- `_threshold_for`
abbrev pub threshold_for : {N : Type 0} → CandidateReviewGate N → MemoryCandidate N → N
threshold_for g c =
    if str_eq (scope_of c) "tenant"
    then g.tenant_threshold
    else if str_eq (scope_of c) "team"
    then g.team_threshold
    else g.approval_threshold

-- `submit_candidate`
unfoldable pub submit_candidate :
    {N : Type 0} → MemoryCandidate N → String → ℕ → M N CandidateReview
submit_candidate c reviewed_by moment g =
    let r : CandidateReview = record {
      candidate_ref = c.candidate_id;
      status = pending_review;
      reviewed_by = reviewed_by;
      reviewed_at = moment;
      reason_codes = [];
      note = none;
    } in
    if is_some (lookup c.candidate_id g.reviews) then (err "candidate already submitted", g) else (
      ok r,
      record g {
        reviews = insert c.candidate_id r g.reviews;
        candidates = insert c.candidate_id c g.candidates;
      },
    )

-- `note or None`
abbrev noted : String → Option String
noted note = if truthy note then some note else none

module _ {N : Type 0} (below : N → N → Bool) where
  -- An approval of a candidate that is not confident enough is a call for another review.
  abbrev pub lowered : CandidateReviewGate N → MemoryCandidate N → ReviewStatus → Bool
  lowered g c decision = is_approved decision && below c.confidence (threshold_for g c)

  abbrev pub review_of :
      CandidateReviewGate N
      → MemoryCandidate N
      → String
      → ReviewStatus
      → String
      → String
      → ℕ
      → CandidateReview
  review_of g c candidate_ref decision reviewed_by note moment = record {
    candidate_ref = candidate_ref;
    status = if lowered g c decision then needs_review else decision;
    reviewed_by = reviewed_by;
    reviewed_at = moment;
    reason_codes = if lowered g c decision then "scope_requires_review" ∷ [] else [];
    note = noted note;
  }

  write_review :
      Option (MemoryCandidate N) → String → ReviewStatus → String → String → ℕ → M N CandidateReview
  write_review none candidate_ref decision reviewed_by note moment g =
      (err "KeyError: the candidate of a review", g)
  write_review (some c) candidate_ref decision reviewed_by note moment g =
      let r = review_of g c candidate_ref decision reviewed_by note moment in
      (ok r, record g { reviews = insert candidate_ref r g.reviews })

  -- `review_candidate`
  unfoldable pub review_candidate :
      String → ReviewStatus → String → String → ℕ → M N CandidateReview
  unfolding write_review
  review_candidate candidate_ref decision reviewed_by note moment g =
      if not (is_some (lookup candidate_ref g.reviews))
      then (err "unknown candidate in review gate", g)
      else write_review (lookup candidate_ref g.candidates) candidate_ref decision reviewed_by note
          moment g

-- `status`
unfoldable pub status : {N : Type 0} → String → M N (Option CandidateReview)
status candidate_ref g = (ok (lookup candidate_ref g.reviews), g)

abbrev candidate_of :
    {N : Type 0} → Option (MemoryCandidate N) → Result String (Option (MemoryCandidate N))
candidate_of none = err "KeyError: the candidate of a review"
candidate_of (some c) = ok (some c)

abbrev if_approved :
    {N : Type 0}
    → Option CandidateReview
    → Option (MemoryCandidate N)
    → Result String (Option (MemoryCandidate N))
if_approved none c = ok none
if_approved (some r) c = if not (is_approved r.status) then ok none else candidate_of c

-- `approved_candidate`
unfoldable pub approved_candidate : {N : Type 0} → String → M N (Option (MemoryCandidate N))
approved_candidate candidate_ref g =
    (if_approved (lookup candidate_ref g.reviews) (lookup candidate_ref g.candidates), g)
