-- ===== src/ClaimGraph/Claim.antt =====
-- models.py, Claim and ProofObligation, and the state of claim_graph.py. The fields `priority` and
-- `source_status` of a claim, which no operation here reads, are left out.
use autonomous_math_ai.Base.{
  ℕ, Bool, true, false, not, ◌&&◌, String, Option, List, [], ◌∷◌, ◌++◌, is_empty, if◌then◌else◌,
  keep, string_eq, ◌==◌, elem,
}
use Prim.Native.Nat.{Ordering}
use Prim.Native.String.{compare as compare_text}
use autonomous_math_ai.Base.Text.{squeeze}
use autonomous_math_ai.Base.Dict.{Dict}
use autonomous_math_ai.Base.Result.{Result, ok, raise}
use autonomous_math_ai.Models.{
  TrustStatus, audited_nightly, formally_verified, canonical_trusted, EvidenceLevel,
}
use autonomous_math_ai.Domain.Contract.{
  ClaimStatus, proved, failed, claim_status_beq, DomainContract, DomainError,
}

pub data ObligationStatus : Type 0 where
  open_obligation blocked discharged refuted : ObligationStatus

-- `status in {ObligationStatus.OPEN, ObligationStatus.BLOCKED}`
abbrev pub is_unsettled : ObligationStatus → Bool
is_unsettled open_obligation = true
is_unsettled blocked = true
is_unsettled discharged = false
is_unsettled refuted = false

pub record ProofObligation : Type 0 where
  pub obligation_id : String
  pub statement : String
  pub status : ObligationStatus
  pub dependencies : List String
  pub evidence_paths : List String
  pub created_at : Option String
  pub updated_at : Option String

pub record Claim : Type 0 where
  pub claim_id : String
  pub statement : String
  pub assumptions : List String
  pub math_status : ClaimStatus
  pub trust_status : TrustStatus
  pub dependencies : List String
  pub downstream_dependents : List String
  pub evidence_paths : List String
  pub known_counterexamples : List String
  pub current_gaps : List String
  pub active_tasks : List String
  pub last_meaningful_progress : Option String
  pub parent_claim_id : Option String
  pub evidence_level : EvidenceLevel
  pub proof_obligations : List ProofObligation

pub record ClaimGraph : Type 0 where
  pub claims : Dict String Claim
  pub semantics : DomainContract

pub data GraphError : Type 0 where
  from_semantics : DomainError → GraphError
  unknown_claim claim_is_obligation repeated_obligation missing_dependency : String → GraphError
  unknown_dependencies unknown_parent different_statement different_assumptions
        different_dependencies different_parent :
      GraphError
  invalid_shape repeated_obligations unexpected_obligations terminal_conflict refused_by_guard :
      GraphError
  absent_dependency dependency_cycle own_parent missing_parent invalid_obligation :
      String → GraphError

abbrev pub by_semantics : {A : Type 0} → Result DomainError A → Result GraphError A
by_semantics (ok a) = ok a
by_semantics (raise e) = raise (from_semantics e)

-- `trust_status in {CANONICAL_TRUSTED, AUDITED_NIGHTLY, FORMALLY_VERIFIED}`
abbrev pub is_trusted : TrustStatus → Bool
is_trusted canonical_trusted = true
is_trusted audited_nightly = true
is_trusted formally_verified = true
is_trusted _ = false

-- `sorted(set(texts))`
abbrev pub insert : String → List String → List String
insert x [] = x ∷ []
insert x (y ∷ ys) =
    let more = insert x ys in
    elim (compare_text x y) [
      | Ordering.lt ↦ x ∷ y ∷ ys
      | Ordering.eq ↦ y ∷ ys
      | Ordering.gt ↦ y ∷ more
    ]

abbrev pub sorted_set : List String → List String
sorted_set [] = []
sorted_set (x ∷ xs) = insert x (sorted_set xs)

-- `list(dict.fromkeys(texts))`
abbrev pub first_ones : List String → List String → List String
first_ones seen [] = []
first_ones seen (x ∷ xs) =
    let skipped = first_ones seen xs in
    let kept = x ∷ first_ones (seen ++ x ∷ []) xs in if elem x seen then skipped else kept

abbrev is_given : String → Bool
is_given text = not (is_empty (squeeze text))

abbrev pub gaps_or_statement : Claim → List String → List String
gaps_or_statement c [] = c.statement ∷ []
gaps_or_statement c (g ∷ gs) = g ∷ gs

-- The status of the obligations that a claim begins with.
abbrev pub first_obligation_status : Claim → ObligationStatus
first_obligation_status c =
    if is_trusted c.trust_status && claim_status_beq c.math_status proved
    then discharged
    else if is_trusted c.trust_status && claim_status_beq c.math_status failed
    then refuted
    else open_obligation

module _ (obligation_id : String → List ℕ → String) where
  -- `_obligation_id` takes the digest of the claim and of the squeezed statement.
  abbrev pub new_obligation : Claim → String → ProofObligation
  new_obligation c statement =
      let status = first_obligation_status c in
      record {
        obligation_id = obligation_id c.claim_id (squeeze statement);
        statement = statement;
        status = status;
        dependencies = c.dependencies;
        evidence_paths = if is_unsettled status then [] else c.evidence_paths;
        created_at = c.last_meaningful_progress;
        updated_at = c.last_meaningful_progress;
      }

  abbrev pub new_obligations : Claim → List String → List ProofObligation
  new_obligations c [] = []
  new_obligations c (s ∷ ss) = new_obligation c s ∷ new_obligations c ss

  unfoldable pub ensure_claim_obligations : DomainContract → Claim → Result GraphError Claim
  ensure_claim_obligations d c =
      if not (d.obligation_kind == "proof")
      then (if is_empty c.proof_obligations then ok c else raise unexpected_obligations)
      else ok (
          if is_empty c.proof_obligations
          then record c {
            proof_obligations =
                new_obligations c
                  (gaps_or_statement c (first_ones [] (keep is_given c.current_gaps)));
          }
          else c)
