-- ===== src/Retrieval/Candidates.antt =====
-- src/energy_agent/retrieval/contracts.py: the candidates of a retrieval. A score between 0 and 1 is a
-- natural number of some unit, whose order is all that is read of it.
use energy_agent_diagnosis.Common.{
  ℕ, String, Option, none, some, ◌≡◌, ◌↔◌, true, arith, Eq, nat_beq, pair_eq, string_eq,
}

pub data SourceType : Type 0 where
  manual ticket case graph : SourceType

abbrev pub source_code : SourceType → ℕ
source_code manual = 0
source_code ticket = 1
source_code case = 2
source_code graph = 3

pub source_beq_iff : (a b : SourceType) → (nat_beq (source_code a) (source_code b) ≡ true) ↔ (a ≡ b)
source_beq_iff a b = ground arith

instance abbrev pub source_eq : Eq SourceType
source_eq = record {
  equal = λ a b. nat_beq (source_code a) (source_code b);
  equal_iff = source_beq_iff;
}

pub record RetrievalCandidate : Type 0 where
  pub source_type : SourceType
  pub source_id : String
  pub chunk_id : Option String
  pub final_score : ℕ

abbrev pub CountKey : Type 0
CountKey = SourceType × String

-- The tuple of `identity`: the key of its source, and its chunk.
abbrev pub Identity : Type 0
Identity = CountKey × String

-- `chunk_id or ""`
abbrev pub or_blank : Option String → String
or_blank none = ""
or_blank (some s) = s

abbrev pub count_key : RetrievalCandidate → CountKey
count_key c = (c.source_type, c.source_id)

abbrev pub identity : RetrievalCandidate → Identity
identity c = (count_key c, or_blank c.chunk_id)

instance abbrev pub count_key_eq : Eq CountKey
count_key_eq = pair_eq source_eq string_eq

instance abbrev pub identity_eq : Eq Identity
identity_eq = pair_eq count_key_eq string_eq
