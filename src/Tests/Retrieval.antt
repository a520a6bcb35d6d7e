-- ===== src/Tests/Retrieval.antt =====
-- The theorems on the selection of evidence, at concrete inputs.
use energy_agent_diagnosis.Common.{ℕ, none, some, false, Bool, List, [], ◌∷◌, ◌≡◌, refl, arith}
use energy_agent_diagnosis.Retrieval.Candidates.{SourceType, RetrievalCandidate}
use energy_agent_diagnosis.Retrieval.Dedup.{
  Limits, deduplicate_and_diversify, diversify, select, by_score, insert, replace_last,
}
use energy_agent_diagnosis.Retrieval.Selection.{IsDiverse}
use energy_agent_diagnosis.Retrieval.Diversity.{deduplicate-IsDiverse}

abbrev limits : Limits
limits = record {
  top_k = 2;
  max_chunks_per_document = 2;
  max_results_per_ticket = 1;
  minimum_quality = 45;
}

abbrev never : RetrievalCandidate → RetrievalCandidate → Bool
never a b = false

abbrev page : ℕ → RetrievalCandidate
page score = record {
  source_type = SourceType.manual;
  source_id = "doc-1";
  chunk_id = some "page";
  final_score = score;
}

abbrev other_page : RetrievalCandidate
other_page = record (page 80) { chunk_id = some "other" }

abbrev report : RetrievalCandidate
report = record {
  source_type = SourceType.ticket;
  source_id = "ticket-1";
  chunk_id = none;
  final_score = 50;
}

abbrev candidates : List RetrievalCandidate
candidates = report ∷ page 60 ∷ other_page ∷ page 90 ∷ []

-- The second page of the manual makes room for the ticket.
selects : deduplicate_and_diversify never limits candidates ≡ page 90 ∷ report ∷ []
unfolding deduplicate_and_diversify diversify select by_score insert replace_last
selects = refl

deduplicate-IsDiverse_example : IsDiverse limits (deduplicate_and_diversify never limits candidates)
deduplicate-IsDiverse_example =
    deduplicate-IsDiverse never limits candidates (omega arith) (omega arith)
