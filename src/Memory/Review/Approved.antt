-- ===== src/Memory/Review/Approved.antt =====
-- Which candidates are approved (src/ueaf/memory/review.py).
use agent_ueaf.Common.{
  ℕ, String, ◌≡◌, ◌≢◌, ◌↔◌, ◌⊎◌, inl, inr, refl, ◌∙◌, ap, sym, subst, Bool, true, false, not,
  Option, none, some, arith, Option_cases, Bool_cases, if_cases, is_some, str_eq, Dict.lookup,
  Dict.insert, Dict.lookup-insert_cases, Dict.lookup-insert_other, Dict.lookup-insert_self, eq_iff,
}
use agent_ueaf.Common.Exec.{Result, ok}
use agent_ueaf.Memory.Objects.{MemoryCandidate}
use agent_ueaf.Memory.Review.{
  CandidateReview, CandidateReviewGate, ReviewStatus, approved, is_approved, scope_of, empty_gate,
  threshold_for, submit_candidate, review_candidate, review_of, approved_candidate,
}

module _ {N : Type 0} (below : N → N → Bool) where
  -- The candidate of a review is there, and is confident enough where the review approves it.
  abbrev Backs : CandidateReviewGate N → CandidateReview → Option (MemoryCandidate N) → Type 0
  Backs g r o =
      (c : MemoryCandidate N) × (o ≡ some c)
      × (is_approved r.status ≡ true → below c.confidence (threshold_for g c) ≡ false)

  pub record IsBacked (g : CandidateReviewGate N) : Type 0 where
    pub backed :
        (ref : String) (r : CandidateReview)
        → lookup ref g.reviews ≡ some r
        → Backs g r (lookup ref g.candidates)

  -- One call of a method that changes the gate, whether it raises or not.
  pub data Call (g : CandidateReviewGate N) : CandidateReviewGate N → Type 0 where
    submits :
        (c : MemoryCandidate N) (reviewed_by : String) (moment : ℕ)
        → Call g (submit_candidate c reviewed_by moment g).1
    reviews :
        (ref : String) (decision : ReviewStatus) (reviewed_by note : String) (moment : ℕ)
        → Call g (review_candidate below ref decision reviewed_by note moment g).1

  pub data Calls (g : CandidateReviewGate N) : CandidateReviewGate N → Type 0 where
    here : Calls g g
    then : {a b : CandidateReviewGate N} → Calls g a → Call a b → Calls g b

  -- A submission that is accepted.
  accept :
      (c : MemoryCandidate N) (p : CandidateReview) (g : CandidateReviewGate N)
      → is_approved p.status ≡ false
      → is_some (lookup c.candidate_id g.reviews) ≡ false
      → IsBacked g
      → IsBacked (record g {
        reviews = insert c.candidate_id p g.reviews;
        candidates = insert c.candidate_id c g.candidates;
      })
  accept c p g pending fresh h = record {
    backed = λ ref r e. elim (lookup-insert_cases c.candidate_id ref p g.reviews e) [
      | inl (same, own) ↦ (
        c,
        subst (λ x. lookup x (insert c.candidate_id c g.candidates) ≡ some c) same
            (lookup-insert_self c.candidate_id c g.candidates),
        λ yes_. absurd (ground (arith, pending, own, yes_)),
      )
      | inr old ↦
          subst (λ o. Backs g r o)
            (sym (
              lookup-insert_other c.candidate_id ref c g.candidates
                (ground (arith, fresh, old, eq_iff c.candidate_id ref))))
            (h.backed ref r old)
    ];
  }

  submit-IsBacked :
      (c : MemoryCandidate N) (reviewed_by : String) (moment : ℕ) (g : CandidateReviewGate N)
      → IsBacked g
      → IsBacked (submit_candidate c reviewed_by moment g).1
  unfolding submit_candidate
  submit-IsBacked c reviewed_by moment g h =
      if_cases (λ (x : Result String CandidateReview × CandidateReviewGate N). IsBacked x.1)
        (is_some (lookup c.candidate_id g.reviews)) _ _ (λ _. h) λ fresh. accept c _ g refl fresh h

  -- The review that is written.
  rewrite :
      (ref : String) (c : MemoryCandidate N) (p : CandidateReview) (g : CandidateReviewGate N)
      → lookup ref g.candidates ≡ some c
      → (is_approved p.status ≡ true → below c.confidence (threshold_for g c) ≡ false)
      → IsBacked g
      → IsBacked (record g { reviews = insert ref p g.reviews })
  rewrite ref c p g known sure h = record {
    backed = λ ref' r e. elim (lookup-insert_cases ref ref' p g.reviews e) [
      | inl (same, own) ↦ (
        c,
        subst (λ x. lookup x g.candidates ≡ some c) same known,
        λ a. sure (ap (λ x. is_approved x.status) own ∙ a),
      )
      | inr old ↦ h.backed ref' r old
    ];
  }

  review-IsBacked :
      (ref : String) (decision : ReviewStatus) (reviewed_by note : String) (moment : ℕ)
      (g : CandidateReviewGate N)
      → IsBacked g
      → IsBacked (review_candidate below ref decision reviewed_by note moment g).1
  unfolding review_candidate
  review-IsBacked ref decision reviewed_by note moment g h =
      if_cases (λ (x : Result String CandidateReview × CandidateReviewGate N). IsBacked x.1)
        (not (is_some (lookup ref g.reviews))) _ _ (λ _. h)
        λ _. elim (Option_cases (lookup ref g.candidates)) [
          | inl e ↦ rw e h
          | inr (c, e) ↦ rw e (
              rewrite ref c (review_of below g c ref decision reviewed_by note moment) g e
                (λ a. ground (arith, a)) h)
        ]

  Call-IsBacked : {g g' : CandidateReviewGate N} → Call g g' → IsBacked g → IsBacked g'
  Call-IsBacked {g} (submits c by moment) h = submit-IsBacked c by moment g h
  Call-IsBacked {g} (reviews ref decision by note moment) h =
      review-IsBacked ref decision by note moment g h

  Calls-IsBacked : (o t n : N) (g : CandidateReviewGate N) → Calls (empty_gate o t n) g → IsBacked g
  unfolding lookup
  Calls-IsBacked o t n g here = record { backed = λ ref r e. absurd (ground (arith, e)) }
  Calls-IsBacked o t n g (then {a} cs x) = Call-IsBacked x (Calls-IsBacked o t n a cs)

  -- The thresholds of a gate are those that it was made with.
  pub record IsMade (o t n : N) (g : CandidateReviewGate N) : Type 0 where
    pub approval : g.approval_threshold ≡ o
    pub team : g.team_threshold ≡ t
    pub tenant : g.tenant_threshold ≡ n

  submit-IsMade :
      (o t n : N) (c : MemoryCandidate N) (reviewed_by : String) (moment : ℕ)
      (g : CandidateReviewGate N)
      → IsMade o t n g
      → IsMade o t n (submit_candidate c reviewed_by moment g).1
  unfolding submit_candidate
  submit-IsMade o t n c reviewed_by moment g h =
      if_cases (λ (x : Result String CandidateReview × CandidateReviewGate N). IsMade o t n x.1)
        (is_some (lookup c.candidate_id g.reviews)) _ _ (λ _. h)
        λ _. record { approval = h.approval; team = h.team; tenant = h.tenant }

  review-IsMade :
      (o t n : N) (ref : String) (decision : ReviewStatus) (reviewed_by note : String) (moment : ℕ)
      (g : CandidateReviewGate N)
      → IsMade o t n g
      → IsMade o t n (review_candidate below ref decision reviewed_by note moment g).1
  unfolding review_candidate
  review-IsMade o t n ref decision reviewed_by note moment g h =
      if_cases (λ (x : Result String CandidateReview × CandidateReviewGate N). IsMade o t n x.1)
        (not (is_some (lookup ref g.reviews))) _ _ (λ _. h)
        λ _. elim (Option_cases (lookup ref g.candidates)) [
          | inl e ↦ rw e h
          | inr (c, e) ↦ rw e (record { approval = h.approval; team = h.team; tenant = h.tenant })
        ]

  Calls-IsMade :
      (o t n : N) (g : CandidateReviewGate N) → Calls (empty_gate o t n) g → IsMade o t n g
  Calls-IsMade o t n g here = record { approval = refl; team = refl; tenant = refl }
  Calls-IsMade o t n g (then {a} cs (submits c by moment)) =
      submit-IsMade o t n c by moment a (Calls-IsMade o t n a cs)
  Calls-IsMade o t n g (then {a} cs (reviews ref decision by note moment)) =
      review-IsMade o t n ref decision by note moment a (Calls-IsMade o t n a cs)

  -- The scope of a candidate is the one that it asks for, or its purpose if that is empty; its
  -- confidence is not below what a gate with the thresholds o, t and n asks for that scope.
  pub record IsConfident (o t n : N) (c : MemoryCandidate N) : Type 0 where
    pub scope : String
    pub requested : c.scope_requested ≢ "" → scope ≡ c.scope_requested
    pub purposed : c.scope_requested ≡ "" → scope ≡ c.purpose
    pub for_tenant : scope ≡ "tenant" → below c.confidence n ≡ false
    pub for_team : scope ≡ "team" → below c.confidence t ≡ false
    pub otherwise : scope ≢ "tenant" → scope ≢ "team" → below c.confidence o ≡ false

  no_tenant : (scope : String) → scope ≡ "team" → str_eq scope "tenant" ≡ false
  no_tenant scope e = rw e refl

  sure-IsConfident :
      (o t n : N) (g : CandidateReviewGate N) (c : MemoryCandidate N)
      → IsMade o t n g
      → below c.confidence (threshold_for g c) ≡ false
      → IsConfident o t n c
  sure-IsConfident o t n g c made sure = record {
    scope = scope_of c;
    requested = ground (arith, eq_iff c.scope_requested "");
    purposed = ground (arith, eq_iff c.scope_requested "");
    for_tenant = ground (arith, made.tenant, eq_iff (scope_of c) "tenant");
    for_team = λ e. ground (arith, made.team, no_tenant (scope_of c) e, eq_iff (scope_of c) "team");
    otherwise =
        ground (arith, made.approval, eq_iff (scope_of c) "tenant", eq_iff (scope_of c) "team");
  }

  is_approved_iff : (x : ReviewStatus) → (is_approved x ≡ true) ↔ (x ≡ approved)
  is_approved_iff x = ground arith

  -- However a gate with the thresholds o, t for teams and n for tenants is used from the start on,
  -- `approved_candidate` never raises: it gives the stored candidate of an approved review, whose
  -- confidence is not below the threshold of its scope, and nothing where there is no such review.
  pub Calls-approved_candidate :
      (o t n : N) (g : CandidateReviewGate N) (ref : String)
      → Calls (empty_gate o t n) g
      → (((approved_candidate ref g).0 ≡ ok none)
          × ((r : CandidateReview) → lookup ref g.reviews ≡ some r → r.status ≢ approved))
        ⊎ ((r : CandidateReview) × (c : MemoryCandidate N) × (lookup ref g.reviews ≡ some r)
            × (r.status ≡ approved)
            × (lookup ref g.candidates ≡ some c)
            × ((approved_candidate ref g).0 ≡ ok (some c))
            × IsConfident o t n c)
  unfolding approved_candidate
  Calls-approved_candidate o t n g ref cs = elim (Option_cases (lookup ref g.reviews)) [
    | inl e ↦ inl (rw e refl, λ r k. absurd (ground (arith, e, k)))
    | inr (r, e) ↦
        let (c, known, sure) = (Calls-IsBacked o t n g cs).backed ref r e in
        elim (Bool_cases (is_approved r.status)) [
          | inl approves ↦ inr (
            r,
            c,
            e,
            (is_approved_iff r.status).0 approves,
            known,
            rw (e, known, approves) refl,
            sure-IsConfident o t n g c (Calls-IsMade o t n g cs) (sure approves),
          )
          | inr other ↦ inl (
            rw (e, known, other) refl,
            λ q k. ground (arith, e, k, other, is_approved_iff q.status),
          )
        ]
  ]
