-- ===== src/Report.antt =====
-- app/research/service/report_renderer.py. The text of a `datetime` and of a floating-point
-- percentage is the library's: the first is a parameter, the second is written out.
use git_hub_repository_resea.Base.{
  ℕ, ◌/◌, ◌%◌, String, Option, none, some, List, [], ◌∷◌, ◌++◌, map, take, or_text, ◌==◌,
  if◌then◌else◌,
}
use git_hub_repository_resea.Schema.{
  DateTime, RiskLevel, low, medium, high, AiConfidence, InstantMetadata, LanguageEntry, CommitEntry,
  RepositoryRawContext, StructuredAiResponse, ResearchReport,
}
use git_hub_repository_resea.Text.{◌<>◌, show, join, strip, is_space}

unfoldable pub risk_text : RiskLevel → String
risk_text low = "Low"
risk_text medium = "Medium"
risk_text high = "High"

unfoldable pub confidence_text : AiConfidence → String
confidence_text AiConfidence.high = "High"
confidence_text AiConfidence.low = "Low"

-- a percentage with one decimal
unfoldable pub show_tenths : ℕ → String
show_tenths n = show (n / 10) <> "." <> show (n % 10)

-- `f"…{n}" if n is not None else ""`
abbrev line_of_number : String → Option ℕ → String
line_of_number label none = ""
line_of_number label (some n) = label <> show n

-- `f"…{s}" if s else ""`
abbrev line_of_text : String → Option String → String
line_of_text label none = ""
line_of_text label (some s) = if s == "" then "" else label <> s

abbrev bullet : String → String
bullet item = "- " <> item

-- `[l for l in lines if l != ""]`
unfoldable pub drop_blank : List String → List String
drop_blank [] = []
drop_blank (l ∷ lines) = let rest = drop_blank lines in if l == "" then rest else l ∷ rest

-- A heading and its lines, unless there are none.
abbrev section : String → List String → List String → List String
section heading [] end = []
section heading (item ∷ items) end = (heading ∷ item ∷ items) ++ end

module _ (show_datetime : DateTime → String) where
  abbrev datetime_or : Option DateTime → String → String
  datetime_or none d = d
  datetime_or (some t) d = show_datetime t

  unfoldable pub overview_lines : RepositoryRawContext → List String
  unfolding drop_blank
  overview_lines raw =
      let d = raw.instant_data in
      drop_blank (
        "# Repository Overview"
        ∷ ("- Repository: " <> raw.target.owner <> "/" <> raw.target.repo)
        ∷ ("- Name: " <> d.name)
        ∷ ("- Description: " <> or_text d.description "No description provided")
        ∷ ("- Stars: " <> show d.stars)
        ∷ ("- Forks: " <> show d.forks)
        ∷ line_of_number "- Watchers: " d.watchers
        ∷ line_of_number "- Open Issues: " d.open_issues
        ∷ ("- Primary Language: " <> or_text d.primary_lang "Unknown")
        ∷ line_of_text "- License: " d.license_spdx
        ∷ (if d.is_archived then "- Archived: Yes" else "")
        ∷ (if d.is_fork then "- Fork: Yes" else "")
        ∷ ("- Last Commit: " <> datetime_or d.last_commit_at "Unknown")
        ∷ ""
        ∷ [])
      ++ ("" ∷ [])

unfoldable pub topic_lines : List String → List String
topic_lines [] = []
topic_lines (topic ∷ topics) = "## Topics" ∷ join ", " (topic ∷ topics) ∷ "" ∷ []

abbrev language_line : LanguageEntry → String
language_line lang = "- " <> lang.name <> ": " <> show_tenths lang.percentage <> "%"

abbrev author_text : Option String → String
author_text none = ""
author_text (some a) = if a == "" then "" else " — " <> a

abbrev commit_line : CommitEntry → String
commit_line c = "- `" <> c.sha <> "` " <> c.message <> author_text c.author_name

unfoldable pub activity_lines : InstantMetadata → List String
unfolding topic_lines show_tenths
activity_lines d =
    topic_lines d.topics
    ++ section "## Languages" (map language_line d.languages) ("" ∷ [])
    ++ section "## Recent Activity" (map commit_line (take 10 d.recent_commits)) ("" ∷ [])

-- A heading behind an empty line, and the bullets, unless there are none.
abbrev bullets_under : String → List String → List String
bullets_under heading [] = []
bullets_under heading (item ∷ items) = "" ∷ heading ∷ map bullet (item ∷ items)

unfoldable pub insight_lines : StructuredAiResponse → List String
unfolding risk_text confidence_text
insight_lines ai =
    ("## Project Insights" ∷ ai.overview.project_purpose ∷ "" ∷ "## Tech Stack" ∷ [])
    ++ map bullet ai.overview.tech_stack
    ++ (""
        ∷ "## Architecture"
        ∷ ai.overview.architecture
        ∷ ""
        ∷ "## Security & Health"
        ∷ ("- Risk Level: " <> risk_text ai.security_health.risk_level)
        ∷ ("- AI Confidence: " <> confidence_text ai.security_health.ai_confidence)
        ∷ [])
    ++ bullets_under "### Findings" ai.security_health.findings
    ++ bullets_under "### Limitations" ai.security_health.limitations
    ++ bullets_under "## Recommendations" ai.recommendations.items

unfoldable pub ai_lines : Option StructuredAiResponse → Option String → List String
unfolding insight_lines
ai_lines (some ai) reason = insight_lines ai
ai_lines none reason =
    "## AI Analysis"
    ∷ "AI insights were unavailable for this run."
    ∷ ("- Reason: " <> or_text reason "No reason provided")
    ∷ []

module _ (show_datetime : DateTime → String) where
  unfoldable pub build_markdown_report :
      RepositoryRawContext → Option StructuredAiResponse → Option String → String
  unfolding overview_lines activity_lines ai_lines
  build_markdown_report raw ai reason = strip is_space (
      join "\n"
        (overview_lines show_datetime raw ++ activity_lines raw.instant_data ++ ai_lines ai reason))

  -- `now` is the time that `timezone.now()` reads.
  unfoldable pub build_research_report :
      DateTime
      → String
      → RepositoryRawContext
      → Option StructuredAiResponse
      → Option String
      → ResearchReport
  unfolding build_markdown_report
  build_research_report now job_id raw ai reason = record {
    job_id = job_id;
    repository_url = raw.repository_url;
    deterministic_data = raw.instant_data;
    ai_insights = ai;
    ai_fallback_reason = reason;
    markdown_report = build_markdown_report raw ai reason;
    created_at = now;
  }
