-- ===== src/World.antt =====
-- What a run of the program stands in: the states of the database, the cache, the queue and the
-- outside (network, clock, identifiers), and the services over them.
use git_hub_repository_resea.Base.{String}
use git_hub_repository_resea.Conf.{Settings}
use git_hub_repository_resea.Database.{Database}
use git_hub_repository_resea.Exec.{Exec, ok}
use git_hub_repository_resea.Ports.{StateCache, MessageQueue, GitHubClient, LlmClient, Clock}
use git_hub_repository_resea.Sanitizer.{OtherFields}
use git_hub_repository_resea.Schema.{DateTime}
use git_hub_repository_resea.Urlparse.{HostChecks}

pub record World (D C Q N : Type 0) : Type 0 where
  pub db : D
  pub cache : C
  pub queue : Q
  pub net : N

pub record Services (D C Q N : Type 0) : Type 0 where
  pub db : Database D
  pub cache : StateCache C
  pub queue : MessageQueue Q
  pub github : GitHubClient N
  pub llm : LlmClient N
  pub clock : Clock N
  pub hosts : HostChecks
  pub others : OtherFields
  pub show_datetime : DateTime → String
  pub settings : Settings

module _ {D C Q N A : Type 0} where
  -- A call of one service changes the state of that service.
  unfoldable pub on_db : Exec D A → Exec (World D C Q N) A
  on_db m w = let (r, d) = m w.db in (r, record w { db = d })

  unfoldable pub on_cache : Exec C A → Exec (World D C Q N) A
  on_cache m w = let (r, c) = m w.cache in (r, record w { cache = c })

  unfoldable pub on_queue : Exec Q A → Exec (World D C Q N) A
  on_queue m w = let (r, q) = m w.queue in (r, record w { queue = q })

  unfoldable pub on_net : Exec N A → Exec (World D C Q N) A
  on_net m w = let (r, n) = m w.net in (r, record w { net = n })

module _ {D C Q N : Type 0} (sv : Services D C Q N) where
  unfoldable pub now : Exec (World D C Q N) DateTime
  unfolding on_net
  now = on_net (λ n. let (t, n') = sv.clock.time n in (ok t, n'))

  unfoldable pub uuid4 : Exec (World D C Q N) String
  unfolding on_net
  uuid4 = on_net (λ n. let (u, n') = sv.clock.uuid n in (ok u, n'))
