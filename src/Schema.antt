-- ===== src/Schema.antt =====
-- app/research/schema/__init__.py: the models that the parts exchange. A `datetime` is a count of
-- microseconds; a percentage, rounded to one decimal, is a number of tenths.
use git_hub_repository_resea.Base.{ℕ, String, Bool, true, false, Option, List}
use git_hub_repository_resea.Json.{Dict}

abbrev pub DateTime : Type 0
DateTime = ℕ

pub data JobStatus : Type 0 where
  pending processing completed failed : JobStatus

-- `status == "completed"`
abbrev pub is_completed : JobStatus → Bool
is_completed completed = true
is_completed _ = false

pub data RiskLevel : Type 0 where
  low medium high : RiskLevel

pub data AiConfidence : Type 0 where
  high low : AiConfidence

pub record ResearchRequest : Type 0 where
  pub url : String
  pub options : Dict

pub record JobAcceptedResponse : Type 0 where
  pub job_id : String
  pub status : JobStatus

pub record ParsedRepoTarget : Type 0 where
  pub owner : String
  pub repo : String
  pub canonical_url : String

pub record LanguageEntry : Type 0 where
  pub name : String
  pub percentage : ℕ
  pub color : Option String

pub record CommitEntry : Type 0 where
  pub sha : String
  pub message : String
  pub committed_at : DateTime
  pub author_name : Option String

pub record InstantMetadata : Type 0 where
  pub name : String
  pub description : Option String
  pub stars : ℕ
  pub forks : ℕ
  pub primary_lang : Option String
  pub last_commit_at : Option DateTime
  pub owner : Option String
  pub watchers : Option ℕ
  pub open_issues : Option ℕ
  pub license_spdx : Option String
  pub topics : List String
  pub languages : List LanguageEntry
  pub recent_commits : List CommitEntry
  pub is_archived : Bool
  pub is_fork : Bool

pub record PartialAnalysisWarning : Type 0 where
  pub stage : String
  pub message : String

pub record RepositoryTreeEntry : Type 0 where
  pub name : String
  pub type : String

pub record RepositoryRawContext : Type 0 where
  pub target : ParsedRepoTarget
  pub repository_url : String
  pub default_branch : String
  pub commit_sha : String
  pub instant_data : InstantMetadata
  pub readme_text : Option String
  pub readme_byte_size : Option ℕ
  pub tree_entries : List RepositoryTreeEntry
  pub open_issue_count : Option ℕ

pub record LlmPromptPayload : Type 0 where
  pub repository_url : String
  pub cache_key : String
  pub commit_sha : String
  pub deterministic_data : InstantMetadata
  pub prompt_text : String
  pub warnings : List PartialAnalysisWarning

pub record ResearchJobMessage : Type 0 where
  pub job_id : String
  pub repo_url : String
  pub enqueued_at : DateTime
  pub attempt : ℕ
  pub options : Dict

pub record RepoOverview : Type 0 where
  pub project_purpose : String
  pub tech_stack : List String
  pub architecture : String

pub record SecurityHealth : Type 0 where
  pub risk_level : RiskLevel
  pub ai_confidence : AiConfidence
  pub findings : List String
  pub limitations : List String

pub record Recommendations : Type 0 where
  pub items : List String

pub record StructuredAiResponse : Type 0 where
  pub overview : RepoOverview
  pub security_health : SecurityHealth
  pub recommendations : Recommendations

pub record ResearchReport : Type 0 where
  pub job_id : String
  pub repository_url : String
  pub deterministic_data : InstantMetadata
  pub ai_insights : Option StructuredAiResponse
  pub ai_fallback_reason : Option String
  pub markdown_report : String
  pub created_at : DateTime

pub record ResearchJobStateSnapshot : Type 0 where
  pub job_id : String
  pub status : JobStatus
  pub progress_msg : String
  pub updated_at : DateTime
  pub instant_data : Option InstantMetadata
  pub ai_fallback : Option Bool
  pub ai_fallback_reason : Option String
  pub error : Option String

pub record PollingStatusResponse : Type 0 where
  pub job_id : String
  pub status : JobStatus
  pub progress_msg : String
  pub updated_at : DateTime
  pub instant_data : Option InstantMetadata
  pub report : Option ResearchReport
  pub ai_fallback : Option Bool
  pub ai_fallback_reason : Option String
  pub error : Option String

pub record ReceivedMessage : Type 0 where
  pub receipt_handle : String
  pub body : ResearchJobMessage
  pub receive_count : ℕ
