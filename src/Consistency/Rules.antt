-- ===== src/Consistency/Rules.antt =====
-- One rule for each kind of statement.
use git_hub_repository_resea.Base.{
  String, ◌≡◌, ◌⊎◌, inl, inr, false, Option, some, arith, subst, sym,
}
use git_hub_repository_resea.Exec.{Exec}
use git_hub_repository_resea.Exec.Hoare.{Keeps}
use git_hub_repository_resea.Schema.{ResearchJobStateSnapshot, StructuredAiResponse, is_completed}
use git_hub_repository_resea.Ports.{IsStateCache}
use git_hub_repository_resea.Crud.Laws.{HasReport, KeepsReports}
use git_hub_repository_resea.World.{World, Services, on_db, on_cache, on_queue, on_net, now, uuid4}
use git_hub_repository_resea.Consistency.{Consistent}

module _ {D C Q N : Type 0} {sv : Services D C Q N}
    {state : C → String → Option ResearchJobStateSnapshot} where
  pub Consistent-on_net : {A : Type 0} (m : Exec N A) → Keeps (Consistent sv state) (on_net m)
  unfolding on_net
  Consistent-on_net m = record { at = λ w h. record { at = h.at } }

  pub Consistent-on_queue : {A : Type 0} (m : Exec Q A) → Keeps (Consistent sv state) (on_queue m)
  unfolding on_queue
  Consistent-on_queue m = record { at = λ w h. record { at = h.at } }

  pub Consistent-now : Keeps (Consistent sv state) (now sv)
  unfolding now
  Consistent-now = record { at = λ w h. record { at = h.at } }

  pub Consistent-uuid4 : Keeps (Consistent sv state) (uuid4 sv)
  unfolding uuid4
  Consistent-uuid4 = record { at = λ w h. record { at = h.at } }

  pub Consistent-on_db :
      {A : Type 0} (m : Exec D A) → KeepsReports sv.db m → Keeps (Consistent sv state) (on_db m)
  unfolding on_db
  Consistent-on_db m keeps = record {
    at = λ w h. record { at = λ j s e c. (keeps j).at w.db (h.at j s e c) };
  }

  -- a call of the cache that changes no snapshot
  pub Consistent-on_cache :
      {A : Type 0} (m : Exec C A)
      → ((c : C) (j : String) → state (m c).1 j ≡ state c j)
      → Keeps (Consistent sv state) (on_cache m)
  unfolding on_cache
  Consistent-on_cache m same = record {
    at = λ w h. record { at = λ j s e c. h.at j s (subst (λ o. o ≡ some s) (same w.cache j) e) c };
  }

module _ {D C Q N : Type 0} (sv : Services D C Q N)
    (state : C → String → Option ResearchJobStateSnapshot) (L : IsStateCache sv.cache state) where
  -- A completed snapshot may be set where the report is there.
  pub Consistent-set_state_at :
      (s : ResearchJobStateSnapshot) (w : World D C Q N)
      → (is_completed s.status ≡ false) ⊎ HasReport sv.db s.job_id w.db
      → Consistent sv state w
      → Consistent sv state (on_cache (sv.cache.set_state s) w).1
  unfolding on_cache
  Consistent-set_state_at s w safe h = record {
    at = λ j t e c. ground (arith, L.set_state_any s w.cache j, h.at j t);
  }

  pub Consistent-set_state :
      (s : ResearchJobStateSnapshot)
      → is_completed s.status ≡ false
      → Keeps (Consistent sv state) (on_cache (sv.cache.set_state s))
  Consistent-set_state s c = record { at = λ w h. Consistent-set_state_at s w (inl c) h }

  pub Consistent-get_state :
      (j : String) → Keeps (Consistent sv state) (on_cache (sv.cache.get_state j))
  Consistent-get_state j = Consistent-on_cache (sv.cache.get_state j) (L.get_state_keeps j)

  pub Consistent-get_cached :
      (key : String) → Keeps (Consistent sv state) (on_cache (sv.cache.get_cached_ai_result key))
  Consistent-get_cached key =
      Consistent-on_cache (sv.cache.get_cached_ai_result key) (L.get_cached_keeps key)

  pub Consistent-set_cached :
      (key : String) (ai : StructuredAiResponse)
      → Keeps (Consistent sv state) (on_cache (sv.cache.set_cached_ai_result key ai))
  Consistent-set_cached key ai =
      Consistent-on_cache (sv.cache.set_cached_ai_result key ai) (L.set_cached_keeps key ai)

  -- The report of a job is stored, so that its snapshot may say so.
  pub record Ready (j : String) (w : World D C Q N) : Type 0 where
    pub consistent : Consistent sv state w
    pub stored : HasReport sv.db j w.db

  pub Ready-now : (j : String) → Keeps (Ready j) (now sv)
  unfolding now
  Ready-now j = record {
    at = λ w h. record { consistent = Consistent-now.at w h.consistent; stored = h.stored };
  }

  pub Ready-on_db :
      (j : String) {A : Type 0} (m : Exec D A) → KeepsReports sv.db m → Keeps (Ready j) (on_db m)
  unfolding on_db
  Ready-on_db j m keeps = record {
    at = λ w h. record {
      consistent = (Consistent-on_db m keeps).at w h.consistent;
      stored = (keeps j).at w.db h.stored;
    };
  }

  pub Ready-set_state :
      (j : String) (s : ResearchJobStateSnapshot)
      → s.job_id ≡ j
      → Keeps (Ready j) (on_cache (sv.cache.set_state s))
  unfolding on_cache
  Ready-set_state j s same = record {
    at = λ w h. record {
      consistent =
          Consistent-set_state_at s w
            (inr (subst (λ k. HasReport sv.db k w.db) (sym same) h.stored)) h.consistent;
      stored = h.stored;
    };
  }
